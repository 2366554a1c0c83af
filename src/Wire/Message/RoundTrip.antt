-- ===== src/Wire/Message/RoundTrip.antt =====
-- A message is received as it was sent, unless the versions differ.
use Prim.Native.Nat.{◌/◌, ◌^◌}
use iot_edge_opc_proxy.Base.{ℕ, suc, ◌<◌, ◌≡◌, refl, arith, Bool, ◌++◌}
use iot_edge_opc_proxy.Ring.{size_sub}
use iot_edge_opc_proxy.Error.{Error}
use iot_edge_opc_proxy.Wire.{Bytes, done, Encode, Decode, ◌>>=◌, give, give_up}
use iot_edge_opc_proxy.Wire.Cmp.{Cmp, IsCmp}
use iot_edge_opc_proxy.Wire.Codec.{
  Memory, mpack_write_object, open_object, mpack_read_object, object_kind,
}
use iot_edge_opc_proxy.Wire.Chain.{
  ctx, IsInt32, Codes, member, finish, boolean, uint32, int32, more, less, same,
}
use iot_edge_opc_proxy.Wire.Parts.{Grants}
use iot_edge_opc_proxy.Wire.Object.{IsType, is_type, object, mapped}
use iot_edge_opc_proxy.Wire.Address.RoundTrip.{IsAddress}
use iot_edge_opc_proxy.Wire.Property.RoundTrip.{IsProperty}
use iot_edge_opc_proxy.Wire.Ref.RoundTrip.{IsRef, ref_member}
use iot_edge_opc_proxy.Wire.Payload.{
  PingRequest, PingResponse, LinkRequest, LinkResponse, SetoptRequest, GetoptRequest,
  GetoptResponse, OpenRequest, PollMessage, DataMessage, CloseResponse,
}
use iot_edge_opc_proxy.Wire.Payload.RoundTrip.{
  IsPingResponse, IsLinkRequest, IsLinkResponse, IsOpenRequest, IsPollMessage, IsDataMessage,
  IsCloseResponse, ping_request-IsType, ping_response-IsType, link_request-IsType,
  link_response-IsType, setopt_request-IsType, getopt_request-IsType, getopt_response-IsType,
  open_request-IsType, poll_message-IsType, data_message-IsType, close_response-IsType,
}
use iot_edge_opc_proxy.Wire.Message.{
  Message, encode_message, check_version, decode_message, send_handler, sent_stream,
  receive_handler,
}
use iot_edge_opc_proxy.Wire.Content.{
  Content, zeroed, ping_request, ping_response, link_request, link_response, setopt_request,
  getopt_request, getopt_response, open_request, poll_message, data_message, close_response,
  ContentKind, of_ping_request, of_ping_response, of_link_request, of_link_response,
  of_setopt_request, of_getopt_request, of_getopt_response, of_open_request, of_poll_message,
  of_data_message, of_close_response, of_null, content_kind, seen_as, encode_null, after_null,
  encode_content, encode_message_content, decode_null, null_only, decode_content,
  decode_message_content,
}

-- A content of the kind that the message's type asks for, with members in range.
pub data Holds : ContentKind → Content → Type 0 where
  holds_ping_request :
      {x : PingRequest} → IsAddress x.address → Holds of_ping_request (ping_request x)
  holds_ping_response :
      {x : PingResponse} → IsPingResponse x → Holds of_ping_response (ping_response x)
  holds_link_request : {x : LinkRequest} → IsLinkRequest x → Holds of_link_request (link_request x)
  holds_link_response :
      {x : LinkResponse} → IsLinkResponse x → Holds of_link_response (link_response x)
  holds_setopt_request :
      {x : SetoptRequest} → IsProperty x.so_val → Holds of_setopt_request (setopt_request x)
  holds_getopt_request :
      {x : GetoptRequest} → IsInt32 x.so_opt → Holds of_getopt_request (getopt_request x)
  holds_getopt_response :
      {x : GetoptResponse} → IsProperty x.so_val → Holds of_getopt_response (getopt_response x)
  holds_open_request : {x : OpenRequest} → IsOpenRequest x → Holds of_open_request (open_request x)
  holds_poll_message : {x : PollMessage} → IsPollMessage x → Holds of_poll_message (poll_message x)
  holds_data_message : {x : DataMessage} → IsDataMessage x → Holds of_data_message (data_message x)
  holds_close_response :
      {x : CloseResponse} → IsCloseResponse x → Holds of_close_response (close_response x)
  holds_nothing : Holds of_null zeroed

pub record IsHead (msg : Message) : Type 0 where
  pub source_id : IsRef msg.source_id
  pub proxy_id : IsRef msg.proxy_id
  pub target_id : IsRef msg.target_id
  pub error_code : IsInt32 msg.error_code
  pub type : msg.type < 2 ^ 32

pub record IsMessage (msg : Message) : Type 0 where
  pub head : IsHead msg
  pub content : Holds (content_kind msg.is_response msg.type) msg.content

-- A content and a message as they are received: the one member that is not encoded is 0.
abbrev pub as_received : Content → Content
as_received (open_request r) = open_request (record r { max_send = 0 })
as_received x = x

abbrev pub received : Message → Message
received msg = record msg { content = as_received msg.content }

module _ (m : Cmp) (law : IsCmp m) (memory : Memory) (g : Grants memory.allocator) where
  null_content : {i : ℕ} → Codes (suc i) i (encode_null m) (decode_null m) zeroed
  unfolding encode_null mpack_write_object open_object after_null decode_null mpack_read_object
      object_kind null_only
  null_content {i} = record {
    item = law.nothing;
    puts = λ c. (size_sub c.index 1, rw (law.write_nil_lem c.stream) refl);
    takes = λ rest. rw (more i, law.read_object-nil rest, object_kind, null_only, less i) refl;
  }

  content-Codes :
      {i : ℕ} (k : ContentKind) (x : Content)
      → Holds k x
      → Codes
          (suc i)
          i
          (encode_content m k (seen_as k x))
          (decode_content m memory k)
          (as_received x)
  unfolding seen_as encode_content decode_content
  content-Codes _ _ (holds_ping_request {x} h) =
      mapped ping_request (object m law _ (ping_request-IsType m law x h))
  content-Codes _ _ (holds_ping_response {x} h) =
      mapped ping_response (object m law _ (ping_response-IsType m law x h))
  content-Codes _ _ (holds_link_request {x} h) =
      mapped link_request (object m law _ (link_request-IsType m law memory.allocator g x h))
  content-Codes _ _ (holds_link_response {x} h) =
      mapped link_response (object m law _ (link_response-IsType m law x h))
  content-Codes _ _ (holds_setopt_request {x} h) =
      mapped setopt_request (object m law _ (setopt_request-IsType m law memory.allocator g x h))
  content-Codes _ _ (holds_getopt_request {x} h) =
      mapped getopt_request (object m law _ (getopt_request-IsType m law x h))
  content-Codes _ _ (holds_getopt_response {x} h) =
      mapped getopt_response (object m law _ (getopt_response-IsType m law memory.allocator g x h))
  content-Codes _ _ (holds_open_request {x} h) =
      mapped open_request (object m law _ (open_request-IsType m law memory.allocator g x h))
  content-Codes _ _ (holds_poll_message {x} h) =
      mapped poll_message (object m law _ (poll_message-IsType m law x h))
  content-Codes _ _ (holds_data_message {x} h) =
      mapped data_message (object m law _ (data_message-IsType m law memory g x h))
  content-Codes _ _ (holds_close_response {x} h) =
      mapped close_response (object m law _ (close_response-IsType m law x h))
  content-Codes _ _ holds_nothing = null_content

  message_content-Codes :
      {i : ℕ} (is_response : Bool) (type : ℕ) (x : Content)
      → Holds (content_kind is_response type) x
      → Codes
          (suc i)
          i
          (encode_message_content m is_response type x)
          (decode_message_content m memory is_response type)
          (as_received x)
  unfolding encode_message_content decode_message_content
  message_content-Codes is_response type x h = content-Codes (content_kind is_response type) x h

  -- A sender and a receiver, each of its own version.
  module _ (version other : ℕ) (low : version < 2 ^ 32) where
    -- What the receiver asks first of the version that it has read.
    checked :
        {A : Type 0} {i j : ℕ} {e : Encode} {d : Decode A} {v : A}
        → version / 2 ^ 16 ≡ other / 2 ^ 16
        → Codes i j e d v
        → Codes i j e (check_version m other version >>= λ _. d) v
    unfolding ◌>>=◌ check_version give
    checked agree x = record {
      item = x.item;
      puts = x.puts;
      takes = λ rest. rw (agree, same (other / 2 ^ 16)) (x.takes rest);
    }

    message-IsType :
        (msg : Message)
        → IsMessage msg
        → version / 2 ^ 16 ≡ other / 2 ^ 16
        → IsType m law 8
            (encode_message m version msg)
            (decode_message m other memory)
            (received msg)
    unfolding encode_message decode_message
    message-IsType msg h agree = is_type m law (omega arith) (
        member _ (uint32 m law version low) (
          checked agree (
            member _ (ref_member m law msg.source_id h.head.source_id) (
              member _ (ref_member m law msg.proxy_id h.head.proxy_id) (
                member _ (ref_member m law msg.target_id h.head.target_id) (
                  member _ (int32 m law msg.error_code h.head.error_code) (
                    member _ (boolean m law msg.is_response) (
                      member _ (uint32 m law msg.type h.head.type) (
                        member _
                          (message_content-Codes msg.is_response msg.type msg.content h.content)
                          (finish m (received msg)))))))))))

    pub receive_handler-send_handler :
        (msg : Message)
        → IsMessage msg
        → version / 2 ^ 16 ≡ other / 2 ^ 16
        → (item : Bytes) × ((stream : Bytes)
            → send_handler m version msg stream ≡ done (stream ++ item))
          × ((rest : Bytes)
              → receive_handler m other memory (item ++ rest) ≡ done (received msg, ctx rest 0))
    unfolding send_handler sent_stream receive_handler
    receive_handler-send_handler msg h agree =
        let x = object m law {i = 0} (give_up Error.invalid_format) (message-IsType msg h agree) in
        (x.item, λ stream. rw ((x.puts (ctx stream 1)).1) refl, λ rest. x.takes rest)
