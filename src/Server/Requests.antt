-- ===== src/Server/Requests.antt =====
-- The messages that a socket of the server takes: the `prx_server_socket_handle_*request` functions of
-- src/prx_server.c, and the two handlers that choose among them.
pub mod Opening
pub mod Options
pub mod Answered
pub mod Open
unfoldable pub use iot_edge_opc_proxy.Server.Requests.Opening.*
unfoldable pub use iot_edge_opc_proxy.Server.Requests.Options.*
use Prim.Native.Nat.{◌^◌, ◌%◌}
use iot_edge_opc_proxy.Base.{
  ℕ, ◌+◌, ◌-◌, ◌*◌, Bool, true, false, not, Option, none, some, ◌==◌, if◌then◌else◌,
}
use iot_edge_opc_proxy.Error.{Error, code, is_ok}
use iot_edge_opc_proxy.Dlist.{Dlist}
use iot_edge_opc_proxy.Wire.Message.{as_response}
use iot_edge_opc_proxy.Wire.Content.{
  Content, poll_message, close_response, type_close, type_open, type_getopt, type_setopt, type_poll,
  type_data,
}
use iot_edge_opc_proxy.Server.{
  State, opened, collect, Socket, Queued, World, Connection, listener, run_worker, can_recv,
  can_send, shutdown, check_polls, ask, send, respond, is_ending,
}
use iot_edge_opc_proxy.Server.Deliver.{is_nil, deliver_results}

-- What data and polls come to on a socket that is not opened.
unfoldable pub refuse : Option Connection → Queued → Socket → World → Handled
refuse responder q s w =
    let (sent, w1) = send responder (respond Error.closed q) w in
    if s.polled then (sent, s, w1) else (Error.ok, s, w)

abbrev pub is_opened : State → Bool
is_opened opened = true
is_opened x = false

abbrev pub poll_time : Content → ℕ
poll_time (poll_message m) = m.timeout
poll_time x = 0

abbrev pub with_time : ℕ → Content → Content
with_time t (poll_message m) = poll_message (record m { timeout = t })
with_time t x = x

module _ (d : Dlist Queued) where
  unfoldable pub handle_datamessage :
      Outside → Option Connection → Queued → Socket → World → Handled
  unfolding refuse
  handle_datamessage p responder q s w =
      if not (is_opened s.state)
      then refuse responder q s w
      else if not (is_ok p.clone)
      then (p.clone, s, w)
      else (Error.ok, record s { send_queue = d.insert_tail s.send_queue q }, ask can_send w)

  -- The socket when a poll has come: its timeout is three times that of the poll, on 32 bits, and the
  -- poll's is the time when it ends, on 64.
  unfoldable pub take_poll : ℕ → Queued → Socket → Socket
  take_poll now q s =
      let t = poll_time q.message.content in
      let q' = record q {
        message = record q.message { content = with_time ((now + t) % 2 ^ 64) q.message.content };
      } in
      record s {
        timeout = t % 2 ^ 32 * 3 % 2 ^ 32;
        last_activity = now;
        read_queue = d.insert_tail s.read_queue q';
      }

  unfoldable pub handle_pollrequest :
      Outside → ℕ → Option Connection → Queued → Socket → World → Handled
  unfolding refuse take_poll
  handle_pollrequest p now responder q s w =
      let (s1, w1) = deliver_results d (take_poll now q s) w in
      let w2 =
        if is_nil s1.read_queue
        then w1
        else ask (check_polls (poll_time q.message.content % 2 ^ 32)) (ask can_recv w1) in
      if not (is_opened s.state)
      then refuse responder q s w
      else if not (is_ok p.clone)
      then (p.clone, s, w)
      else (Error.ok, s1, w2)

-- The ticks are of 64 bits, and `bytes_sent` and `bytes_received` too.
unfoldable pub close_answer : ℕ → Socket → Error → Content
close_answer now s result = close_response (record {
  time_open = (now + (2 ^ 64 - s.time_opened)) % 2 ^ 64;
  bytes_sent = s.bytes_sent;
  bytes_received = s.bytes_recvd;
  error_code = code result;
})

unfoldable pub handle_closerequest : ℕ → Option Connection → Queued → Socket → World → Handled
unfolding close_answer reply
handle_closerequest now responder q s w =
    let result = if is_ending s.state then Error.closed else Error.ok in
    let s1 = if is_ending s.state then s else record s { state = collect } in
    let w1 = if is_ending s.state then w else ask run_worker (ask shutdown w) in
    let m = record (as_response q.message) { content = close_answer now s result } in
    let (sent, w2) = reply responder (record q { message = with_error Error.ok m }) w1 in
    (sent, s1, w2)

module _ (d : Dlist Queued) where
  -- `prx_server_socket_control_handler` for a message that it received. The listener is there.
  unfoldable pub control_handler : Outside → ℕ → Queued → Socket → World → Handled
  unfolding handle_openrequest handle_datamessage handle_pollrequest handle_closerequest
      handle_setoptrequest handle_getoptrequest
  control_handler p now q s w =
      let type = q.message.type in
      if type == type_close
      then handle_closerequest now (some listener) q s w
      else if type == type_open
      then handle_openrequest p now (some listener) q s w
      else if type == type_getopt
      then handle_getoptrequest p now (some listener) q s w
      else if type == type_setopt
      then handle_setoptrequest p now (some listener) q s w
      else if type == type_poll
      then handle_pollrequest d p now (some listener) q s w
      else if type == type_data
      then handle_datamessage d p (some listener) q s w
      else (Error.not_supported, s, w)

  -- `prx_server_socket_stream_handler` for a message that it received.
  unfoldable pub stream_handler : Outside → ℕ → Queued → Socket → World → Handled
  unfolding handle_datamessage handle_pollrequest handle_closerequest
  stream_handler p now q s w =
      let type = q.message.type in
      if type == type_close
      then handle_closerequest now none q s w
      else if type == type_poll
      then handle_pollrequest d p now none q s w
      else if type == type_data
      then handle_datamessage d p none q s w
      else (Error.not_supported, s, w)
