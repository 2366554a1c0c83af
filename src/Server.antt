-- ===== src/Server.antt =====
-- A socket of the server, `prx_server_socket_t` of src/prx_server.c: its state, its four queues of
-- messages, and what it sends. Its tasks are on one scheduler, so each runs to its end before the next.
pub mod Deliver
mod Tests
pub mod Requests
pub mod Transfer
pub mod Ports
pub mod Table
pub mod Worker
use iot_edge_opc_proxy.Base.{ℕ, Bool, List, [], ◌∷◌, ◌++◌, true, false, Option, none, some}
use iot_edge_opc_proxy.Error.{Error, code}
use iot_edge_opc_proxy.Dlist.{Dlist}
use iot_edge_opc_proxy.Wire.Ref.{Ref}
use iot_edge_opc_proxy.Wire.Message.{Message, as_response}

-- prx_server_socket_state_t.
pub data State : Type 0 where
  created opened collect closing closed : State

-- A message of a queue, with its session id.
pub record Queued : Type 0 where
  pub message : Message
  pub correlation_id : ℕ

-- The connection of the server's listener, and the one of a socket's own.
pub data Connection : Type 0 where
  listener own_stream : Connection

-- `open_result` is what waits for prx_server_socket_open_complete, `has_sock` says that `sock` is not
-- NULL, `timeout` is `client_itf.props.timeout`.
pub record Socket : Type 0 where
  pub state : State
  pub last_activity : ℕ
  pub time_opened : ℕ
  pub server_id : Ref
  pub id : Ref
  pub owner : Ref
  pub stream_id : Ref
  pub server_stream : Bool
  pub stream : Option Connection
  pub polled : Bool
  pub has_sock : Bool
  pub timeout : ℕ
  pub buffer_size : ℕ
  pub pool_size : ℕ
  pub bytes_sent : ℕ
  pub bytes_recvd : ℕ
  pub read_queue : List Queued
  pub write_queue : List Queued
  pub send_queue : List Queued
  pub recv_queue : List Queued

-- An attempt to send a message.
pub record Sent : Type 0 where
  pub connection : Connection
  pub queued : Queued
  pub result : Error

-- What a socket asks others to do: `__do_next(server, prx_server_worker)`, `__do_next(server_sock,
-- prx_server_socket_deliver_results)`, `__do_later(server_sock, prx_server_socket_free, 2000)`,
-- `__do_later(server_sock, prx_server_socket_timeout_pollrequest, ...)`; `pal_socket_can_recv` and
-- `pal_socket_can_send` with true; `pal_socket_setsockopt` with prx_so_shutdown; `pal_socket_close`; and
-- `io_connection_close` of its own stream.
pub data Work : Type 0 where
  run_worker run_deliver free_later can_recv can_send shutdown close_socket close_stream : Work
  check_polls : ℕ → Work

-- What the connections will return, one result for each send, and er_ok from then on; what was sent; and
-- what others were asked to do.
pub record World : Type 0 where
  pub answers : List Error
  pub sent : List Sent
  pub asked : List Work

abbrev pub next_answer : List Error → Error
next_answer [] = Error.ok
next_answer (e ∷ es) = e

abbrev pub other_answers : List Error → List Error
other_answers [] = []
other_answers (e ∷ es) = es

-- `io_connection_send`.
unfoldable pub send : Option Connection → Queued → World → Error × World
send none q w = (Error.fault, w)
send (some c) q w =
    let result = next_answer w.answers in
    (
      result,
      record w {
        answers = other_answers w.answers;
        sent = w.sent ++ (record { connection = c; queued = q; result = result } ∷ []);
      },
    )

-- `io_message_as_response`, and then `message->error_code = result`.
unfoldable pub respond : Error → Queued → Queued
respond e q = record q { message = record (as_response q.message) { error_code = code e } }

unfoldable pub ask : Work → World → World
ask work w = record w { asked = w.asked ++ (work ∷ []) }

-- The state of a socket whose end has begun.
abbrev pub is_ending : State → Bool
is_ending created = false
is_ending opened = false
is_ending x = true
