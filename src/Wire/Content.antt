-- ===== src/Wire/Content.antt =====
-- The content of a message: the union of `struct io_message` in inc/io_proto.h, and its codec in
-- src/io_proto.c.
use iot_edge_opc_proxy.Base.{ℕ, Bool, true, false, [], ◌==◌, if◌then◌else◌, Option, none, some}
use iot_edge_opc_proxy.Base.Int.{pos}
use iot_edge_opc_proxy.Error.{Error}
use iot_edge_opc_proxy.Wire.{Result, done, fails, Ctx, Encode, Decode, ◌>>=◌, give, give_up}
use iot_edge_opc_proxy.Wire.Cmp.{Cmp}
use iot_edge_opc_proxy.Wire.Codec.{Memory, mpack_write_object, mpack_read_object}
use iot_edge_opc_proxy.Wire.Fields.{encode_object, decode_object}
use iot_edge_opc_proxy.Wire.Address.{unspec, zeros}
use iot_edge_opc_proxy.Wire.Ref.{no_ref}
use iot_edge_opc_proxy.Wire.Socket.{no_option}
use iot_edge_opc_proxy.Wire.Payload.{
  PingRequest, PingResponse, LinkRequest, LinkResponse, SetoptRequest, GetoptRequest,
  GetoptResponse, OpenRequest, PollMessage, DataMessage, CloseResponse, no_props,
}
use iot_edge_opc_proxy.Wire.Payload.Codec.{
  encode_ping_request, decode_ping_request, encode_ping_response, decode_ping_response,
  encode_link_request, decode_link_request, encode_link_response, decode_link_response,
  encode_setopt_request, decode_setopt_request, encode_getopt_request, decode_getopt_request,
  encode_getopt_response, decode_getopt_response, encode_open_request, decode_open_request,
  encode_poll_message, decode_poll_message, encode_data_message, decode_data_message,
  encode_close_response, decode_close_response,
}

-- The union `content`: the member that was stored last, or all 0.
pub data Content : Type 0 where
  zeroed : Content
  ping_request : PingRequest → Content
  ping_response : PingResponse → Content
  link_request : LinkRequest → Content
  link_response : LinkResponse → Content
  setopt_request : SetoptRequest → Content
  getopt_request : GetoptRequest → Content
  getopt_response : GetoptResponse → Content
  open_request : OpenRequest → Content
  poll_message : PollMessage → Content
  data_message : DataMessage → Content
  close_response : CloseResponse → Content

-- `io_message_type_*`.
abbrev pub type_ping : ℕ
type_ping = 10

abbrev pub type_link : ℕ
type_link = 12

abbrev pub type_setopt : ℕ
type_setopt = 13

abbrev pub type_getopt : ℕ
type_getopt = 14

abbrev pub type_open : ℕ
type_open = 20

abbrev pub type_close : ℕ
type_close = 21

abbrev pub type_data : ℕ
type_data = 30

abbrev pub type_poll : ℕ
type_poll = 31

-- What is read and written as the content: a member of the union, null, or nothing at all.
pub data ContentKind : Type 0 where
  of_ping_request : ContentKind
  of_ping_response : ContentKind
  of_link_request : ContentKind
  of_link_response : ContentKind
  of_setopt_request : ContentKind
  of_getopt_request : ContentKind
  of_getopt_response : ContentKind
  of_open_request : ContentKind
  of_poll_message : ContentKind
  of_data_message : ContentKind
  of_close_response : ContentKind
  of_null : ContentKind
  of_unknown : ContentKind

-- The tests of `io_encode_message_content` and `io_decode_message_content`, which are the same.
unfoldable pub response_kind : ℕ → ContentKind
response_kind type =
    if type == type_data
    then of_data_message
    else if type == type_close
    then of_close_response
    else if type == type_ping
    then of_ping_response
    else if type == type_poll
    then of_null
    else if type == type_link
    then of_link_response
    else if type == type_open
    then of_null
    else if type == type_setopt
    then of_null
    else if type == type_getopt
    then of_getopt_response
    else of_unknown

unfoldable pub request_kind : ℕ → ContentKind
request_kind type =
    if type == type_data
    then of_data_message
    else if type == type_close
    then of_null
    else if type == type_ping
    then of_ping_request
    else if type == type_poll
    then of_poll_message
    else if type == type_link
    then of_link_request
    else if type == type_open
    then of_open_request
    else if type == type_setopt
    then of_setopt_request
    else if type == type_getopt
    then of_getopt_request
    else of_unknown

unfoldable pub content_kind : Bool → ℕ → ContentKind
content_kind true type = response_kind type
content_kind false type = request_kind type

-- A member of the union when all of it is 0. The connection string would be NULL, which is no string.
unfoldable pub zero_content : ContentKind → Content
zero_content of_ping_request = ping_request (record { address = unspec })
zero_content of_ping_response =
    ping_response (record { address = unspec; physical_address = zeros 8; time_ms = 0 })
zero_content of_link_request = link_request (record { version = 0; props = no_props })
zero_content of_link_response =
    link_response (record { link_id = no_ref; local_address = unspec; peer_address = unspec })
zero_content of_setopt_request = setopt_request (record { so_val = no_option })
zero_content of_getopt_request = getopt_request (record { so_opt = pos 0 })
zero_content of_getopt_response = getopt_response (record { so_val = no_option })
zero_content of_poll_message = poll_message (record { sequence_number = 0; timeout = 0 })
zero_content of_data_message =
    data_message
      (record { sequence_number = 0; source_address = unspec; control_buffer = []; buffer = [] })
zero_content of_close_response =
    close_response
      (record { time_open = 0; bytes_sent = 0; bytes_received = 0; error_code = pos 0 })
zero_content k = zeroed

unfoldable pub seen_as : ContentKind → Content → Content
unfolding zero_content
seen_as k zeroed = zero_content k
seen_as k x = x

module _ (m : Cmp) where
  -- `__io_encode_null`: the context of the object is left alone.
  unfoldable pub after_null : Result (Ctx × Ctx) → Result Ctx
  after_null (done (c, obj)) = done c
  after_null (fails r) = fails r

  unfoldable pub encode_null : Encode
  encode_null c = after_null (mpack_write_object m true c)

  -- A union whose last member is another than the type says is not encoded here.
  unfoldable pub encode_content : ContentKind → Content → Encode
  encode_content of_ping_request (ping_request x) = encode_object m (encode_ping_request m x)
  encode_content of_ping_response (ping_response x) = encode_object m (encode_ping_response m x)
  encode_content of_link_request (link_request x) = encode_object m (encode_link_request m x)
  encode_content of_link_response (link_response x) = encode_object m (encode_link_response m x)
  encode_content of_setopt_request (setopt_request x) = encode_object m (encode_setopt_request m x)
  encode_content of_getopt_request (getopt_request x) = encode_object m (encode_getopt_request m x)
  encode_content of_getopt_response (getopt_response x) =
      encode_object m (encode_getopt_response m x)
  encode_content of_open_request (open_request x) = encode_object m (encode_open_request m x)
  encode_content of_poll_message (poll_message x) = encode_object m (encode_poll_message m x)
  encode_content of_data_message (data_message x) = encode_object m (encode_data_message m x)
  encode_content of_close_response (close_response x) = encode_object m (encode_close_response m x)
  encode_content of_null x = encode_null
  encode_content of_unknown x = λ c. fails Error.not_supported
  encode_content k x = λ c. fails Error.fault

  unfoldable pub encode_message_content : Bool → ℕ → Content → Encode
  encode_message_content is_response type content =
      let k = content_kind is_response type in encode_content k (seen_as k content)

  -- `__io_decode_content` and `__io_decode_null`.
  abbrev pub decode_member : {A : Type 0} → Decode A → (A → Content) → Decode Content
  decode_member decode make = do
    x ← decode_object m (give_up Error.invalid_format) decode
    give (make x)

  unfoldable pub null_only : Result (Option Ctx × Ctx) → Result (Content × Ctx)
  null_only (done (none, c)) = done (zeroed, c)
  null_only (done (some obj, c)) = fails Error.invalid_format
  null_only (fails r) = fails r

  unfoldable pub decode_null : Decode Content
  decode_null c = null_only (mpack_read_object m c)

  unfoldable pub decode_content : Memory → ContentKind → Decode Content
  decode_content memory of_ping_request = decode_member (decode_ping_request m) ping_request
  decode_content memory of_ping_response = decode_member (decode_ping_response m) ping_response
  decode_content memory of_link_request =
      decode_member (decode_link_request m memory.allocator) link_request
  decode_content memory of_link_response = decode_member (decode_link_response m) link_response
  decode_content memory of_setopt_request =
      decode_member (decode_setopt_request m memory.allocator) setopt_request
  decode_content memory of_getopt_request = decode_member (decode_getopt_request m) getopt_request
  decode_content memory of_getopt_response =
      decode_member (decode_getopt_response m memory.allocator) getopt_response
  decode_content memory of_open_request =
      decode_member (decode_open_request m memory.allocator) open_request
  decode_content memory of_poll_message = decode_member (decode_poll_message m) poll_message
  decode_content memory of_data_message = decode_member (decode_data_message m memory) data_message
  decode_content memory of_close_response = decode_member (decode_close_response m) close_response
  decode_content memory of_null = decode_null
  decode_content memory of_unknown = give_up Error.not_supported

  unfoldable pub decode_message_content : Memory → Bool → ℕ → Decode Content
  decode_message_content memory is_response type =
      decode_content memory (content_kind is_response type)
