-- ===== src/Wire/Payload/RoundTrip.antt =====
-- What a message holds is decoded as it was encoded.
use Prim.Native.Nat.{◌^◌}
use iot_edge_opc_proxy.Base.{
  ℕ, suc, ◌<◌, ◌≡◌, ◌⊎◌, inl, inr, refl, ap, subst, arith, [], ◌∷◌, length,
}
use iot_edge_opc_proxy.Wire.{Bytes}
use iot_edge_opc_proxy.Wire.Cmp.{Cmp, IsCmp}
use iot_edge_opc_proxy.Wire.Codec.{Allocator, Memory}
use iot_edge_opc_proxy.Wire.Chain.{
  IsInt32, Codes, member, finish, uinteger, boolean, uint8, uint32, int32,
}
use iot_edge_opc_proxy.Wire.Parts.{bin_fixed, bin_default, string_default, Grants}
use iot_edge_opc_proxy.Wire.Object.{IsType, is_type, object}
use iot_edge_opc_proxy.Wire.Address.{zeros}
use iot_edge_opc_proxy.Wire.Address.RoundTrip.{IsAddress}
use iot_edge_opc_proxy.Wire.Info.RoundTrip.{IsText32, address_member}
use iot_edge_opc_proxy.Wire.Property.{Property}
use iot_edge_opc_proxy.Wire.Property.RoundTrip.{IsProperty, property-IsType}
use iot_edge_opc_proxy.Wire.Ref.RoundTrip.{IsRef, ref_member}
use iot_edge_opc_proxy.Wire.Socket.RoundTrip.{IsSocketProperties, socket_properties-IsType}
use iot_edge_opc_proxy.Wire.Payload.{
  PingRequest, PingResponse, LinkRequest, LinkResponse, SetoptRequest, GetoptRequest,
  GetoptResponse, OpenRequest, PollMessage, DataMessage, CloseResponse,
}
use iot_edge_opc_proxy.Wire.Payload.Codec.{
  read_back, encode_ping_request, decode_ping_request, encode_ping_response, decode_ping_response,
  encode_link_request, decode_link_request, encode_link_response, decode_link_response,
  encode_setopt_request, decode_setopt_request, encode_getopt_request, decode_getopt_request,
  encode_getopt_response, decode_getopt_response, encode_open_request, decode_open_request,
  encode_poll_message, decode_poll_message, encode_data_message, decode_data_message,
  encode_close_response, decode_close_response, encode_property_member, decode_property_member,
}

pub record IsPingResponse (r : PingResponse) : Type 0 where
  pub address : IsAddress r.address
  pub physical_address : length r.physical_address ≡ 8
  pub time_ms : r.time_ms < 2 ^ 32

pub record IsLinkRequest (r : LinkRequest) : Type 0 where
  pub version : r.version < 2 ^ 8
  pub props : IsSocketProperties r.props

pub record IsLinkResponse (r : LinkResponse) : Type 0 where
  pub link_id : IsRef r.link_id
  pub local_address : IsAddress r.local_address
  pub peer_address : IsAddress r.peer_address

pub record IsOpenRequest (r : OpenRequest) : Type 0 where
  pub stream_id : IsRef r.stream_id
  pub type : IsInt32 r.type
  pub connection_string : IsText32 r.connection_string
  pub max_recv : r.max_recv < 2 ^ 32

pub record IsPollMessage (r : PollMessage) : Type 0 where
  pub sequence_number : r.sequence_number < 2 ^ 64
  pub timeout : r.timeout < 2 ^ 64

pub record IsDataMessage (r : DataMessage) : Type 0 where
  pub sequence_number : r.sequence_number < 2 ^ 64
  pub source_address : IsAddress r.source_address
  pub control_buffer : length r.control_buffer < 2 ^ 32
  pub buffer : length r.buffer < 2 ^ 32
  pub one_buffer : (r.buffer ≡ []) ⊎ (r.control_buffer ≡ [])

pub record IsCloseResponse (r : CloseResponse) : Type 0 where
  pub time_open : r.time_open < 2 ^ 64
  pub bytes_sent : r.bytes_sent < 2 ^ 64
  pub bytes_received : r.bytes_received < 2 ^ 64
  pub error_code : IsInt32 r.error_code

-- An open request as it is received: `max_send` is not encoded, and `memset` has made it 0.
abbrev pub as_received_open : OpenRequest → OpenRequest
as_received_open r = record r { max_send = 0 }

read_back_lem :
    (memory : Memory) (buffer control_buffer : Bytes)
    → (buffer ≡ []) ⊎ (control_buffer ≡ [])
    → read_back memory buffer control_buffer ≡ buffer
unfolding read_back
read_back_lem memory [] control_buffer h = refl
read_back_lem memory (b ∷ bs) [] h = refl
read_back_lem memory (b ∷ bs) (c ∷ cs) (inl h) = absurd (let k = ap length h in omega (arith, k))
read_back_lem memory (b ∷ bs) (c ∷ cs) (inr h) = absurd (let k = ap length h in omega (arith, k))

module _ (m : Cmp) (law : IsCmp m) where
  pub ping_request-IsType :
      (r : PingRequest)
      → IsAddress r.address
      → IsType m law 1 (encode_ping_request m r) (decode_ping_request m) r
  unfolding encode_ping_request decode_ping_request
  ping_request-IsType r h =
      is_type m law (omega arith) (member _ (address_member m law r.address h) (finish m r))

  pub ping_response-IsType :
      (r : PingResponse)
      → IsPingResponse r
      → IsType m law 3 (encode_ping_response m r) (decode_ping_response m) r
  unfolding encode_ping_response decode_ping_response
  ping_response-IsType r h = is_type m law (omega arith) (
      member _ (address_member m law r.address h.address) (
        member _
          (bin_fixed m law (zeros 8) r.physical_address h.physical_address
            (omega (arith, h.physical_address)))
          (member _ (uint32 m law r.time_ms h.time_ms) (finish m r))))

  pub link_response-IsType :
      (r : LinkResponse)
      → IsLinkResponse r
      → IsType m law 3 (encode_link_response m r) (decode_link_response m) r
  unfolding encode_link_response decode_link_response
  link_response-IsType r h = is_type m law (omega arith) (
      member _ (ref_member m law r.link_id h.link_id) (
        member _ (address_member m law r.local_address h.local_address)
          (member _ (address_member m law r.peer_address h.peer_address) (finish m r))))

  pub getopt_request-IsType :
      (r : GetoptRequest)
      → IsInt32 r.so_opt
      → IsType m law 1 (encode_getopt_request m r) (decode_getopt_request m) r
  unfolding encode_getopt_request decode_getopt_request
  getopt_request-IsType r h =
      is_type m law (omega arith) (member _ (int32 m law r.so_opt h) (finish m r))

  pub poll_message-IsType :
      (r : PollMessage)
      → IsPollMessage r
      → IsType m law 2 (encode_poll_message m r) (decode_poll_message m) r
  unfolding encode_poll_message decode_poll_message
  poll_message-IsType r h = is_type m law (omega arith) (
      member _ (uinteger m law r.sequence_number h.sequence_number)
        (member _ (uinteger m law r.timeout h.timeout) (finish m r)))

  pub close_response-IsType :
      (r : CloseResponse)
      → IsCloseResponse r
      → IsType m law 4 (encode_close_response m r) (decode_close_response m) r
  unfolding encode_close_response decode_close_response
  close_response-IsType r h = is_type m law (omega arith) (
      member _ (uinteger m law r.time_open h.time_open) (
        member _ (uinteger m law r.bytes_received h.bytes_received) (
          member _ (uinteger m law r.bytes_sent h.bytes_sent)
            (member _ (int32 m law r.error_code h.error_code) (finish m r)))))

  module _ (alloc : Allocator) (g : Grants alloc) where
    pub link_request-IsType :
        (r : LinkRequest)
        → IsLinkRequest r
        → IsType m law 2 (encode_link_request m r) (decode_link_request m alloc) r
    unfolding encode_link_request decode_link_request
    link_request-IsType r h = is_type m law (omega arith) (
        member _ (uint8 m law r.version h.version) (
          member _ (object m law _ (socket_properties-IsType m law alloc g r.props h.props))
            (finish m r)))

    property_member :
        {i : ℕ} (p : Property)
        → IsProperty p
        → Codes (suc i) i (encode_property_member m p) (decode_property_member m alloc) p
    property_member p h = object m law _ (property-IsType m law alloc g p h)

    pub setopt_request-IsType :
        (r : SetoptRequest)
        → IsProperty r.so_val
        → IsType m law 1 (encode_setopt_request m r) (decode_setopt_request m alloc) r
    unfolding encode_setopt_request decode_setopt_request
    setopt_request-IsType r h =
        is_type m law (omega arith) (member _ (property_member r.so_val h) (finish m r))

    pub getopt_response-IsType :
        (r : GetoptResponse)
        → IsProperty r.so_val
        → IsType m law 1 (encode_getopt_response m r) (decode_getopt_response m alloc) r
    unfolding encode_getopt_response decode_getopt_response
    getopt_response-IsType r h =
        is_type m law (omega arith) (member _ (property_member r.so_val h) (finish m r))

    pub open_request-IsType :
        (r : OpenRequest)
        → IsOpenRequest r
        → IsType m law 5
            (encode_open_request m r)
            (decode_open_request m alloc)
            (as_received_open r)
    unfolding encode_open_request decode_open_request
    open_request-IsType r h = is_type m law (omega arith) (
        member _ (ref_member m law r.stream_id h.stream_id) (
          member _ (int32 m law r.type h.type) (
            member _ (string_default m law alloc r.connection_string g h.connection_string) (
              member _ (boolean m law r.polled)
                (member _ (uint32 m law r.max_recv h.max_recv) (finish m (as_received_open r)))))))

  pub data_message-IsType :
      (memory : Memory) (g : Grants memory.allocator) (r : DataMessage)
      → IsDataMessage r
      → IsType m law 4 (encode_data_message m r) (decode_data_message m memory) r
  unfolding encode_data_message decode_data_message
  data_message-IsType memory g r h =
      let back = read_back memory r.buffer r.control_buffer in
      let x = is_type m law (omega arith) (
        member _ (uinteger m law r.sequence_number h.sequence_number) (
          member _ (address_member m law r.source_address h.source_address) (
            member _ (bin_default m law memory.allocator r.buffer g h.buffer) (
              member _ (bin_default m law memory.allocator r.control_buffer g h.control_buffer)
                (finish m (record r { buffer = back })))))) in
      subst
        (λ b.
          IsType m law 4 (encode_data_message m r) (decode_data_message m memory)
            (record r { buffer = b }))
        (read_back_lem memory r.buffer r.control_buffer h.one_buffer) x
