-- ===== src/Server/Requests/Options.antt =====
-- The requests for the options of a socket of the server: `prx_server_socket_handle_setoptrequest` and
-- `prx_server_socket_handle_getoptrequest` of src/prx_server.c.
use iot_edge_opc_proxy.Base.{ℕ, Bool, true, false, ◌||◌, Option, none, some, ltb, if◌then◌else◌}
use iot_edge_opc_proxy.Base.Int.{ℤ, pos, negsuc, eqb_ℤ}
use iot_edge_opc_proxy.Error.{Error, is_ok}
use iot_edge_opc_proxy.Wire.Property.{Property, Value, number, so_max}
use iot_edge_opc_proxy.Wire.Message.{as_response}
use iot_edge_opc_proxy.Wire.Content.{Content, setopt_request, getopt_request, getopt_response}
use iot_edge_opc_proxy.Server.{Socket, Queued, World, Connection, send, respond, is_ending}
use iot_edge_opc_proxy.Server.Requests.Opening.{Outside, Handled, with_error}

-- `if (responder)` at the end of some handlers, which return what their send does.
unfoldable pub reply : Option Connection → Queued → World → Error × World
reply none q w = (Error.ok, w)
reply (some c) q w = send (some c) q w

abbrev pub option_of : Content → Property
option_of (setopt_request r) = r.so_val
option_of x = record { type = pos 0; property = number 0 }

abbrev pub number_of : Value → ℕ
number_of (number n) = n
number_of x = 0

-- prx_so_props_timeout, the groups, and the types that the platform is asked for: those below __prx_so_max.
-- A request to set an option compares an `int32_t`, which may be less than 0; one to get it compares a
-- `prx_socket_option_t`, which is unsigned, so that no number less than 0 is below __prx_so_max.
abbrev pub is_timeout : ℤ → Bool
is_timeout t = eqb_ℤ t (pos 33)

abbrev pub is_group : ℤ → Bool
is_group t = eqb_ℤ t (pos 31) || eqb_ℤ t (pos 32)

abbrev pub is_known : ℤ → Bool
is_known (pos n) = ltb n so_max
is_known (negsuc n) = true

abbrev pub is_listed : ℤ → Bool
is_listed (pos n) = ltb n so_max
is_listed (negsuc n) = false

unfoldable pub set_option : Outside → ℕ → Property → Socket → Error × Socket
set_option p now o s =
    let s1 = record s { last_activity = now } in
    if is_ending s.state
    then (Error.closed, s)
    else if is_group o.type
    then (p.option, s1)
    else if is_timeout o.type
    then (Error.ok, record s1 { timeout = number_of o.property })
    else if is_known o.type
    then (p.option, s1)
    else (Error.not_supported, s1)

unfoldable pub handle_setoptrequest :
    Outside → ℕ → Option Connection → Queued → Socket → World → Handled
unfolding set_option reply
handle_setoptrequest p now responder q s w =
    let (result, s1) = set_option p now (option_of q.message.content) s in
    let (sent, w1) = reply responder (respond result q) w in (sent, s1, w1)

abbrev pub asked_option : Content → ℤ
asked_option (getopt_request r) = r.so_opt
asked_option x = pos 0

-- The result, and the type and the value of the response.
unfoldable pub get_option : Outside → ℤ → Socket → Error × ℤ × ℕ
get_option p o s =
    if is_ending s.state
    then (Error.closed, pos 0, 0)
    else if is_group o
    then (Error.not_supported, pos 0, 0)
    else if is_timeout o
    then (Error.ok, o, s.timeout)
    else if is_listed o
    then (p.option, if is_ok p.option then o else pos 0, p.value)
    else (Error.not_supported, pos 0, 0)

unfoldable pub getopt_answer : Error → ℤ → ℕ → Queued → Queued
getopt_answer result type value q = record q {
  message = with_error result (record (as_response q.message) {
    content = getopt_response (record { so_val = record { type = type; property = number value } });
  });
}

unfoldable pub handle_getoptrequest :
    Outside → ℕ → Option Connection → Queued → Socket → World → Handled
unfolding get_option getopt_answer
handle_getoptrequest p now none q s w = (Error.ok, s, w)
handle_getoptrequest p now (some c) q s w =
    let (result, type, value) = get_option p (asked_option q.message.content) s in
    let s1 = if is_ending s.state then s else record s { last_activity = now } in
    let (sent, w1) = send (some c) (getopt_answer result type value q) w in (sent, s1, w1)
