-- ===== src/Wire/Message.antt =====
-- The messages of the protocol: `struct io_message` of inc/io_proto.h, its codec in src/io_proto.c, and
-- of src/io_transport.c how a message goes into a stream and comes out of one.
pub mod RoundTrip
pub mod Response
pub mod Version
use Prim.Native.Nat.{◌/◌, ◌^◌}
use iot_edge_opc_proxy.Base.{ℕ, Bool, true, false, [], ◌==◌, if◌then◌else◌, Option, none, some}
use iot_edge_opc_proxy.Base.Int.{ℤ, pos}
use iot_edge_opc_proxy.Error.{Error}
use iot_edge_opc_proxy.Wire.{
  Bytes, Result, done, fails, Ctx, Encode, Decode, ◌>>=◌, ◌>>>◌, give, give_up,
}
use iot_edge_opc_proxy.Wire.Cmp.{Cmp}
use iot_edge_opc_proxy.Wire.Codec.{
  Memory, mpack_write_integer, mpack_write_uinteger, mpack_write_bool, mpack_read_bool,
  mpack_write_object, mpack_read_object, mpack_write_type_begin, mpack_write_type_end,
  mpack_read_type_begin, mpack_read_type_end,
}
use iot_edge_opc_proxy.Wire.Fields.{decode_int32, decode_uint32, encode_object, decode_object}
use iot_edge_opc_proxy.Wire.Address.{unspec, zeros}
use iot_edge_opc_proxy.Wire.Ref.{Ref, no_ref, swap, encode_ref_member, decode_ref_member}
use iot_edge_opc_proxy.Wire.Socket.{no_option}
use iot_edge_opc_proxy.Wire.Payload.{
  PingRequest, PingResponse, LinkRequest, LinkResponse, SetoptRequest, GetoptRequest,
  GetoptResponse, OpenRequest, PollMessage, DataMessage, CloseResponse, no_props,
}
use iot_edge_opc_proxy.Wire.Payload.Codec.{
  encode_ping_request, decode_ping_request, encode_ping_response, decode_ping_response,
  encode_link_request, decode_link_request, encode_link_response, decode_link_response,
  encode_setopt_request, decode_setopt_request, encode_getopt_request, decode_getopt_request,
  encode_getopt_response, decode_getopt_response, encode_open_request, decode_open_request,
  encode_poll_message, decode_poll_message, encode_data_message, decode_data_message,
  encode_close_response, decode_close_response,
}
use iot_edge_opc_proxy.Wire.Content.{
  Content, decode_message_content, encode_message_content, zeroed,
}

pub record Message : Type 0 where
  pub source_id : Ref
  pub proxy_id : Ref
  pub target_id : Ref
  pub error_code : ℤ
  pub is_response : Bool
  pub type : ℕ
  pub content : Content

-- `io_message_as_response`.
unfoldable pub as_response : Message → Message
as_response message =
    let (source, target) = swap message.source_id message.target_id in
    record message { source_id = source; target_id = target; content = zeroed; is_response = true }

module _ (m : Cmp) where
  -- `MODULE_VER_NUM` is the number of the build.
  module _ (version : ℕ) where
    unfoldable pub encode_message : Message → Encode
    encode_message msg =
        mpack_write_type_begin m 8
        >>> mpack_write_uinteger m version
        >>> encode_ref_member m msg.source_id
        >>> encode_ref_member m msg.proxy_id
        >>> encode_ref_member m msg.target_id
        >>> mpack_write_integer m msg.error_code
        >>> mpack_write_bool m msg.is_response
        >>> mpack_write_uinteger m msg.type
        >>> encode_message_content m msg.is_response msg.type msg.content
        >>> mpack_write_type_end m

    -- `(version & 0xffff0000) != (MODULE_VER_NUM & 0xffff0000)`, of numbers of 32 bits.
    unfoldable pub check_version : ℕ → Decode (Unit {0})
    check_version received =
        if received / 2 ^ 16 == version / 2 ^ 16 then give tt else give_up Error.invalid_format

    -- Into a message that `io_message_create_empty` has made.
    unfoldable pub decode_message : Memory → Decode Message
    decode_message memory = do
      _ ← mpack_read_type_begin m
      received ← decode_uint32 m
      _ ← check_version received
      source_id ← decode_ref_member m
      proxy_id ← decode_ref_member m
      target_id ← decode_ref_member m
      error_code ← decode_int32 m
      is_response ← mpack_read_bool m
      type ← decode_uint32 m
      content ← decode_message_content m memory is_response type
      _ ← mpack_read_type_end m
      give (record {
        source_id = source_id;
        proxy_id = proxy_id;
        target_id = target_id;
        error_code = error_code;
        is_response = is_response;
        type = type;
        content = content;
      })

    -- `io_iot_hub_ws_connection_send_handler`: the bytes in the stream, or the error. On an error the stream
    -- is reset as well; what that leaves is the stream's own matter.
    unfoldable pub sent_stream : Result Ctx → Result Bytes
    sent_stream (done c) = done c.stream
    sent_stream (fails r) = fails r

    unfoldable pub send_handler : Message → Bytes → Result Bytes
    send_handler msg stream =
        sent_stream (encode_object m (encode_message msg) (record { stream = stream; index = 1 }))

    -- `io_iot_hub_ws_connection_receive_handler`: the message decoded, and the bytes left.
    unfoldable pub receive_handler : Memory → Bytes → Result (Message × Ctx)
    receive_handler memory stream =
        decode_object m (give_up Error.invalid_format) (decode_message memory)
          (record { stream = stream; index = 1 })
