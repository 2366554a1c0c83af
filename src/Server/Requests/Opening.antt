-- ===== src/Server/Requests/Opening.antt =====
-- The open request of a socket of the server, `prx_server_socket_handle_openrequest` of
-- src/prx_server.c, and what every handler has: the results of its calls, and its end.
use iot_edge_opc_proxy.Base.{
  ℕ, Bool, true, false, not, ◌||◌, List, [], ◌∷◌, Option, some, if◌then◌else◌,
}
use iot_edge_opc_proxy.Base.Int.{pos, eqb_ℤ}
use iot_edge_opc_proxy.Error.{Error, code, is_ok}
use iot_edge_opc_proxy.Wire.Ref.{no_ref, copy}
use iot_edge_opc_proxy.Wire.Payload.{OpenRequest}
use iot_edge_opc_proxy.Wire.Message.{Message, as_response}
use iot_edge_opc_proxy.Wire.Content.{Content, open_request}
use iot_edge_opc_proxy.Server.{
  created, opened, collect, closing, closed, Socket, Queued, World, Connection, listener,
  own_stream, run_worker, ask, send,
}

-- What the calls that a handler makes of the rest of the program and of the platform return.
-- `has_wsclient` is `pal_caps() & pal_cap_wsclient`, `option` the result of the call that gets or sets
-- a socket option, or joins or leaves a group, and `value` what getting it leaves in the value.
pub record Outside : Type 0 where
  pub factory : Error
  pub connection_string : Error
  pub entry : Error
  pub transport : Error
  pub receiving : Error
  pub clone : Error
  pub option : Error
  pub value : ℕ
  pub has_wsclient : Bool

-- The end of a handler: what it returns, the socket and the world it leaves.
abbrev pub Handled : Type 0
Handled = Error × Socket × World

-- `message->error_code = result` on a message that is a response already.
abbrev pub with_error : Error → Message → Message
with_error e m = record m { error_code = code e }

abbrev pub is_text : List ℕ → Bool
is_text [] = false
is_text (c ∷ cs) = true

-- Without a union member of the type, what the code would read of zeros.
abbrev pub as_open : Content → OpenRequest
as_open (open_request o) = o
as_open x = record {
  stream_id = no_ref;
  type = pos 0;
  connection_string = [];
  polled = false;
  max_send = 0;
  max_recv = 0;
}

-- The entry for a connection of the socket's own: whether there is one, unless there is an error.
unfoldable pub make_entry : Outside → OpenRequest → Error × Bool
make_entry p o =
    if is_text o.connection_string
    then if eqb_ℤ o.type (pos 0)
      then if not (is_ok p.connection_string)
        then (p.connection_string, false)
        else if not (is_ok p.entry)
        then (p.entry, false)
        else (Error.ok, true)
      else (Error.not_supported, false)
    else if not o.polled
    then (Error.invalid_format, false)
    else (Error.ok, false)

-- `&server_sock->stream` is stored by `io_transport_create` when it succeeds.
unfoldable pub connect : Outside → Bool → Socket → Error × Socket
connect p false s = (Error.ok, record s { stream = some listener; server_stream = true })
connect p true s =
    if s.polled || p.has_wsclient
    then (p.transport, if is_ok p.transport then record s { stream = some own_stream } else s)
    else (Error.not_supported, s)

unfoldable pub note_request : OpenRequest → Socket → Socket
note_request o s = record s {
  stream_id = copy o.stream_id s.stream_id;
  polled = o.polled;
  buffer_size = o.max_recv;
}

unfoldable pub start : ℕ → Socket → Socket
start now s = record s { time_opened = now; last_activity = now; state = opened }

-- The requests of `prx_server_socket_handle_openrequest` to a socket that was created, up to its end.
unfoldable pub try_open : Outside → ℕ → OpenRequest → Socket → Error × Socket
unfolding make_entry connect note_request start
try_open p now o s =
    let s1 = note_request o s in
    let (made, has_entry) = make_entry p o in
    let (connected, s2) = connect p has_entry s1 in
    if not (is_ok p.factory)
    then (p.factory, s1)
    else if not (is_ok made)
    then (made, s1)
    else if not (is_ok connected)
    then (connected, s2)
    else if not (is_ok p.receiving)
    then (p.receiving, s2)
    else (Error.ok, start now s2)

unfoldable pub open_result : Outside → ℕ → OpenRequest → Socket → Error × Socket
unfolding try_open
open_result p now o s = elim (s.state) [
  | created ↦ try_open p now o s
  | opened ↦ (Error.bad_state, s)
  | collect ↦ (Error.closed, s)
  | closing ↦ (Error.closed, s)
  | closed ↦ (Error.closed, s)
]

-- The response goes to the owner; a failure makes the socket one to collect, whatever its state is. What is
-- returned is what the sending of the response returns.
unfoldable pub open_response : Error → Socket → Queued → Queued
open_response result s q =
    let m = as_response q.message in
    let target = if is_ok result then copy s.stream_id m.target_id else m.target_id in
    record q { message = with_error result (record m { target_id = copy s.owner target }) }

unfoldable pub handle_openrequest :
    Outside → ℕ → Option Connection → Queued → Socket → World → Handled
unfolding open_result open_response
handle_openrequest p now responder q s w =
    let (result, s1) = open_result p now (as_open q.message.content) s in
    let s2 = if is_ok result then s1 else record s1 { state = collect } in
    let w1 = if is_ok result then w else ask run_worker w in
    let (sent, w2) = send responder (open_response result s2 q) w1 in (sent, s2, w2)
