-- ===== src/Server/Worker.antt =====
-- The worker of the server, `prx_server_worker` of src/prx_server.c: what a round does with one socket of
-- the table that it reaches; and the ends of a socket's open and close.
pub mod Progress
pub mod Diagram
pub mod Lifecycle
use Prim.Native.Nat.{◌^◌, ◌%◌, ◌/◌}
use iot_edge_opc_proxy.Base.{
  ℕ, ◌+◌, ◌-◌, ◌*◌, Bool, true, false, not, ◌&&◌, ◌||◌, List, [], ◌∷◌, Option, none, some, ltb,
  ◌==◌, if◌then◌else◌,
}
use iot_edge_opc_proxy.Base.Int.{pos}
use iot_edge_opc_proxy.Error.{Error, code, is_ok}
use iot_edge_opc_proxy.Dlist.{Dlist}
use iot_edge_opc_proxy.Wire.Ref.{no_ref, copy}
use iot_edge_opc_proxy.Wire.Address.{Address, unspec}
use iot_edge_opc_proxy.Wire.Message.{Message, as_response}
use iot_edge_opc_proxy.Wire.Content.{Content, zeroed, link_response, type_close}
use iot_edge_opc_proxy.Server.{
  State, created, opened, collect, closing, closed, Socket, Queued, World, Connection, listener,
  own_stream, Work, run_worker, free_later, close_socket, close_stream, ask, respond, send,
}
use iot_edge_opc_proxy.Server.Deliver.{is_nil, deliver_results, manage_read_queue}
use iot_edge_opc_proxy.Server.Requests.{reply, with_error}

-- `timedout`; the difference of the ticks is of 64 bits.
unfoldable pub is_timedout : ℕ → Socket → Bool
is_timedout now s =
    not (s.last_activity == 0 || ltb ((now + (2 ^ 64 - s.last_activity)) % 2 ^ 64) s.timeout)

abbrev has_own_stream : Option Connection → Bool → Bool
has_own_stream none server = false
has_own_stream (some c) server = not server

-- `case prx_server_socket_closed`: the socket leaves the table, and what is left of it is freed when its
-- stream has closed, or after a while.
unfoldable pub remove : Socket → World → Option Socket × World
remove s w =
    (none, ask (if has_own_stream s.stream s.server_stream then close_stream else free_later) w)

-- The close request of `io_message_create`.
unfoldable pub close_request : Socket → Queued
close_request s = record {
  message = record {
    source_id = s.id;
    proxy_id = no_ref;
    target_id = s.stream_id;
    error_code = pos 0;
    is_response = false;
    type = type_close;
    content = zeroed;
  };
  correlation_id = 0;
}

module _ (d : Dlist Queued) where
  unfoldable pub start_close : ℕ → Socket → World → Socket × World
  start_close now s w =
      let (s1, w1) =
        manage_read_queue d true now
          (record s { timeout = 5 * 60 * 1000; last_activity = now; state = closing }) w in
      (s1, ask close_socket w1)

  -- `case prx_server_socket_collect`. `exit` is `server->exit`.
  unfoldable pub visit_collect : Bool → Bool → ℕ → Socket → World → Socket × World
  unfolding start_close
  visit_collect exit timedout now s w =
      if not s.has_sock
      then (record s { state = closed }, w)
      else if (not (is_nil s.send_queue) || not (is_nil s.recv_queue)) && not timedout && not exit
      then (s, w)
      else start_close now s w

  -- `case prx_server_socket_created`.
  unfoldable pub visit_created : Bool → Bool → ℕ → Socket → World → Socket × World
  unfolding visit_collect
  visit_created exit timedout now s w =
      if not timedout && not exit
      then (s, w)
      else visit_collect exit timedout now
          (record s { state = collect; send_queue = []; recv_queue = [] }) w

  -- The close message to the peer of a socket without activity.
  unfoldable pub say_close : ℕ → Socket → World → Socket × World
  say_close now s w =
      let (s1, w1) =
        deliver_results d
          (record s { state = created; recv_queue = d.insert_tail s.recv_queue (close_request s) })
          w in
      (record s1 { last_activity = now }, w1)

  -- `case prx_server_socket_opened`, with the result of `io_message_create`.
  unfoldable pub visit_opened : Error → Bool → Bool → ℕ → Socket → World → Socket × World
  unfolding visit_created say_close
  visit_opened message exit timedout now s w =
      if not timedout && not exit
      then (s, w)
      else if timedout && not exit && is_ok message
      then say_close now s w
      else visit_created exit timedout now (record s { state = created }) w

  abbrev still_there : Socket × World → Option Socket × World
  still_there (s, w) = (some s, w)

  -- The `switch` on the state.
  unfoldable pub visit : Error → Bool → ℕ → Socket → World → Option Socket × World
  unfolding visit_opened visit_created visit_collect remove is_timedout
  visit message exit now s w =
      let timedout = is_timedout now s in
      elim (s.state) [
        | created ↦ still_there (visit_created exit timedout now s w)
        | opened ↦ still_there (visit_opened message exit timedout now s w)
        | collect ↦ still_there (visit_collect exit timedout now s w)
        | closing ↦ if not timedout then (some s, w) else remove (record s { state = closed }) w
        | closed ↦ remove s w
      ]

-- `prx_server_socket_close_complete`.
unfoldable pub close_complete : Socket → World → Socket × World
close_complete s w = (record s { state = closed }, ask run_worker w)

-- What the platform says of the socket when it has opened: the size of its buffer or an error, and its
-- names or an error.
pub record Opened : Type 0 where
  pub result : Error
  pub size_result : Error
  pub size : ℕ
  pub local_result : Error
  pub local_address : Address
  pub peer_result : Error
  pub peer_address : Address

-- A buffer size of 0 that the platform returns would divide by 0 in the source; here `/` has a value.
unfoldable pub set_sizes : Opened → Socket → Socket
set_sizes o s =
    let size =
      if not (s.buffer_size == 0)
      then s.buffer_size
      else if is_ok o.size_result
      then o.size
      else 2 ^ 16 in
    let pool = 2 ^ 17 / size in
    record s { buffer_size = size; pool_size = if ltb pool 4 then 4 else pool }

unfoldable pub open_error : Opened → Error
open_error o =
    if not (is_ok o.result)
    then o.result
    else if not (is_ok o.local_result)
    then o.local_result
    else o.peer_result

-- What the content is set to by then; an address is stored when the platform has one.
unfoldable pub link_content : Opened → Socket → Content
unfolding open_error
link_content o s =
    let error = open_error o in
    if not (is_ok o.result)
    then zeroed
    else link_response (record {
      link_id = if is_ok error then copy s.id no_ref else no_ref;
      local_address = if is_ok o.local_result then o.local_address else unspec;
      peer_address = if is_ok error then o.peer_address else unspec;
    })

-- `prx_server_socket_open_complete`: the link request that waited is answered over its connection, if it
-- has one. Its error code stays when there is no error.
unfoldable pub open_complete : Opened → Option Connection → Queued → Socket → World → Socket × World
unfolding set_sizes open_error link_content reply
open_complete o responder q s w =
    let error = open_error o in
    let m = record (as_response q.message) { content = link_content o s } in
    let s1 = if is_ok o.result then set_sizes o s else s in
    let s2 = if is_ok error then s1 else record s1 { state = collect } in
    let w1 = if is_ok error then w else ask run_worker w in
    let (sent, w2) =
      reply responder (record q { message = if is_ok error then m else with_error error m }) w1 in
    (s2, w2)
