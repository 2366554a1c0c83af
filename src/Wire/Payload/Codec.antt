-- ===== src/Wire/Payload/Codec.antt =====
-- The codecs of what the messages hold, in src/io_proto.c.
use iot_edge_opc_proxy.Base.{Bool, true, false, ◌||◌, [], ◌∷◌, if◌then◌else◌}
use iot_edge_opc_proxy.Wire.{Bytes, Encode, Decode, ◌>>=◌, ◌>>>◌, give}
use iot_edge_opc_proxy.Wire.Cmp.{Cmp}
use iot_edge_opc_proxy.Wire.Codec.{
  Allocator, Memory, mpack_write_integer, mpack_write_uinteger, mpack_write_bool,
  mpack_write_string, mpack_write_bin, mpack_read_uinteger, mpack_read_bool, mpack_write_type_begin,
  mpack_write_type_end, mpack_read_type_begin, mpack_read_type_end,
}
use iot_edge_opc_proxy.Wire.Fields.{
  decode_int32, decode_uint32, decode_uint8, decode_bin_fixed, decode_bin_default,
  decode_string_default, encode_object, decode_object,
}
use iot_edge_opc_proxy.Wire.Address.{zeros}
use iot_edge_opc_proxy.Wire.Info.{encode_address_member, decode_address_member}
use iot_edge_opc_proxy.Wire.Property.{Property, encode_property, decode_property}
use iot_edge_opc_proxy.Wire.Ref.{encode_ref_member, decode_ref_member}
use iot_edge_opc_proxy.Wire.Socket.{no_option, encode_socket_properties, decode_socket_properties}
use iot_edge_opc_proxy.Wire.Payload.{
  CloseResponse, DataMessage, GetoptRequest, GetoptResponse, LinkRequest, LinkResponse, OpenRequest,
  PingRequest, PingResponse, PollMessage, SetoptRequest, no_props,
}

abbrev pub is_null : Bytes → Bool
is_null [] = true
is_null (b ∷ bs) = false

-- `message->buffer` after `control_buffer` was decoded too: nothing is allocated for an empty one.
unfoldable pub read_back : Memory → Bytes → Bytes → Bytes
read_back memory buffer control_buffer =
    if is_null buffer || is_null control_buffer then buffer else memory.moved buffer

module _ (m : Cmp) where
  unfoldable pub encode_ping_request : PingRequest → Encode
  encode_ping_request request =
      mpack_write_type_begin m 1
      >>> encode_address_member m request.address
      >>> mpack_write_type_end m

  unfoldable pub decode_ping_request : Decode PingRequest
  decode_ping_request = do
    _ ← mpack_read_type_begin m
    address ← decode_address_member m
    _ ← mpack_read_type_end m
    give (record { address = address })

  unfoldable pub encode_ping_response : PingResponse → Encode
  encode_ping_response response =
      mpack_write_type_begin m 3
      >>> encode_address_member m response.address
      >>> mpack_write_bin m response.physical_address
      >>> mpack_write_uinteger m response.time_ms
      >>> mpack_write_type_end m

  unfoldable pub decode_ping_response : Decode PingResponse
  decode_ping_response = do
    _ ← mpack_read_type_begin m
    address ← decode_address_member m
    physical_address ← decode_bin_fixed m (zeros 8)
    time_ms ← decode_uint32 m
    _ ← mpack_read_type_end m
    give (record { address = address; physical_address = physical_address; time_ms = time_ms })

  unfoldable pub encode_link_request : LinkRequest → Encode
  encode_link_request request =
      mpack_write_type_begin m 2
      >>> mpack_write_uinteger m request.version
      >>> encode_object m (encode_socket_properties m request.props)
      >>> mpack_write_type_end m

  unfoldable pub decode_link_request : Allocator → Decode LinkRequest
  decode_link_request alloc = do
    _ ← mpack_read_type_begin m
    version ← decode_uint8 m
    props ← decode_object m (give no_props) (decode_socket_properties m alloc)
    _ ← mpack_read_type_end m
    give (record { version = version; props = props })

  unfoldable pub encode_link_response : LinkResponse → Encode
  encode_link_response response =
      mpack_write_type_begin m 3
      >>> encode_ref_member m response.link_id
      >>> encode_address_member m response.local_address
      >>> encode_address_member m response.peer_address
      >>> mpack_write_type_end m

  unfoldable pub decode_link_response : Decode LinkResponse
  decode_link_response = do
    _ ← mpack_read_type_begin m
    link_id ← decode_ref_member m
    local_address ← decode_address_member m
    peer_address ← decode_address_member m
    _ ← mpack_read_type_end m
    give (record { link_id = link_id; local_address = local_address; peer_address = peer_address })

  -- A property as a member, and over one that `memset` has made.
  abbrev pub encode_property_member : Property → Encode
  encode_property_member p = encode_object m (encode_property m p)

  abbrev pub decode_property_member : Allocator → Decode Property
  decode_property_member alloc = decode_object m (give no_option) (decode_property m alloc)

  unfoldable pub encode_setopt_request : SetoptRequest → Encode
  encode_setopt_request request =
      mpack_write_type_begin m 1
      >>> encode_property_member request.so_val
      >>> mpack_write_type_end m

  unfoldable pub decode_setopt_request : Allocator → Decode SetoptRequest
  decode_setopt_request alloc = do
    _ ← mpack_read_type_begin m
    so_val ← decode_property_member alloc
    _ ← mpack_read_type_end m
    give (record { so_val = so_val })

  unfoldable pub encode_getopt_request : GetoptRequest → Encode
  encode_getopt_request request =
      mpack_write_type_begin m 1 >>> mpack_write_integer m request.so_opt >>> mpack_write_type_end m

  unfoldable pub decode_getopt_request : Decode GetoptRequest
  decode_getopt_request = do
    _ ← mpack_read_type_begin m
    so_opt ← decode_int32 m
    _ ← mpack_read_type_end m
    give (record { so_opt = so_opt })

  unfoldable pub encode_getopt_response : GetoptResponse → Encode
  encode_getopt_response response =
      mpack_write_type_begin m 1
      >>> encode_property_member response.so_val
      >>> mpack_write_type_end m

  unfoldable pub decode_getopt_response : Allocator → Decode GetoptResponse
  decode_getopt_response alloc = do
    _ ← mpack_read_type_begin m
    so_val ← decode_property_member alloc
    _ ← mpack_read_type_end m
    give (record { so_val = so_val })

  unfoldable pub encode_open_request : OpenRequest → Encode
  encode_open_request request =
      mpack_write_type_begin m 5
      >>> encode_ref_member m request.stream_id
      >>> mpack_write_integer m request.type
      >>> mpack_write_string m request.connection_string
      >>> mpack_write_bool m request.polled
      >>> mpack_write_uinteger m request.max_recv
      >>> mpack_write_type_end m

  unfoldable pub decode_open_request : Allocator → Decode OpenRequest
  decode_open_request alloc = do
    _ ← mpack_read_type_begin m
    stream_id ← decode_ref_member m
    type ← decode_int32 m
    connection_string ← decode_string_default m alloc
    polled ← mpack_read_bool m
    max_recv ← decode_uint32 m
    _ ← mpack_read_type_end m
    give (record {
      stream_id = stream_id;
      type = type;
      connection_string = connection_string;
      polled = polled;
      max_send = 0;
      max_recv = max_recv;
    })

  unfoldable pub encode_poll_message : PollMessage → Encode
  encode_poll_message message =
      mpack_write_type_begin m 2
      >>> mpack_write_uinteger m message.sequence_number
      >>> mpack_write_uinteger m message.timeout
      >>> mpack_write_type_end m

  unfoldable pub decode_poll_message : Decode PollMessage
  decode_poll_message = do
    _ ← mpack_read_type_begin m
    sequence_number ← mpack_read_uinteger m
    timeout ← mpack_read_uinteger m
    _ ← mpack_read_type_end m
    give (record { sequence_number = sequence_number; timeout = timeout })

  unfoldable pub encode_data_message : DataMessage → Encode
  encode_data_message message =
      mpack_write_type_begin m 4
      >>> mpack_write_uinteger m message.sequence_number
      >>> encode_address_member m message.source_address
      >>> mpack_write_bin m message.buffer
      >>> mpack_write_bin m message.control_buffer
      >>> mpack_write_type_end m

  unfoldable pub decode_data_message : Memory → Decode DataMessage
  unfolding read_back
  decode_data_message memory = do
    _ ← mpack_read_type_begin m
    sequence_number ← mpack_read_uinteger m
    source_address ← decode_address_member m
    buffer ← decode_bin_default m memory.allocator
    control_buffer ← decode_bin_default m memory.allocator
    _ ← mpack_read_type_end m
    give (record {
      sequence_number = sequence_number;
      source_address = source_address;
      control_buffer = control_buffer;
      buffer = read_back memory buffer control_buffer;
    })

  unfoldable pub encode_close_response : CloseResponse → Encode
  encode_close_response response =
      mpack_write_type_begin m 4
      >>> mpack_write_uinteger m response.time_open
      >>> mpack_write_uinteger m response.bytes_received
      >>> mpack_write_uinteger m response.bytes_sent
      >>> mpack_write_integer m response.error_code
      >>> mpack_write_type_end m

  unfoldable pub decode_close_response : Decode CloseResponse
  decode_close_response = do
    _ ← mpack_read_type_begin m
    time_open ← mpack_read_uinteger m
    bytes_received ← mpack_read_uinteger m
    bytes_sent ← mpack_read_uinteger m
    error_code ← decode_int32 m
    _ ← mpack_read_type_end m
    give (record {
      time_open = time_open;
      bytes_sent = bytes_sent;
      bytes_received = bytes_received;
      error_code = error_code;
    })
