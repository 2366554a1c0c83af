-- ===== src/Server/Tests.antt =====
-- A polled socket with two polls, three messages to deliver and a response that waits.
use iot_edge_opc_proxy.Base.{
  ℕ, suc, ◌+◌, ◌-◌, ◌*◌, ◌≡◌, refl, arith, true, false, ◌&&◌, List, [], ◌∷◌, ◌++◌, map, none, some,
  leb, if◌then◌else◌,
}
use iot_edge_opc_proxy.Base.Int.{ℤ, pos}
use iot_edge_opc_proxy.Error.{Error, is_ok, code}
use iot_edge_opc_proxy.Dlist.{plain, plain-IsDlist}
use iot_edge_opc_proxy.Wire.Ref.{no_ref}
use iot_edge_opc_proxy.Wire.Address.{zeros}
use iot_edge_opc_proxy.Wire.Content.{
  Content, zeroed, poll_message, open_request, type_close, type_open, type_data, type_poll,
}
use iot_edge_opc_proxy.Text.{Str}
use iot_edge_opc_proxy.Text.RangeList.{Pass, parse_range_list}
use iot_edge_opc_proxy.Text.RangeList.Ordered.{IsSound, parse_range_list-IsSound}
use iot_edge_opc_proxy.Server.{
  State, created, opened, collect, closing, closed, Socket, Queued, World, Sent, listener,
  close_socket, run_deliver, send, respond,
}
use iot_edge_opc_proxy.Server.Deliver.{deliver_results, manage_read_queue}
use iot_edge_opc_proxy.Server.Deliver.Conserved.{
  delivered, view, deliver_results-conserves, deliver_results-all,
}
use iot_edge_opc_proxy.Server.Deliver.Polled.{over, replies, deliver_results-polled}
use iot_edge_opc_proxy.Server.Deliver.Polls.{answered, waiting, reason, manage_read_queue-answers}
use iot_edge_opc_proxy.Server.Requests.{Outside, as_open, control_handler, handle_openrequest}
use iot_edge_opc_proxy.Server.Requests.Answered.{Sends, control_handler-answers}
use iot_edge_opc_proxy.Server.Requests.Open.{
  TellsOpened, handle_openrequest-opens, control_handler-state,
}
use iot_edge_opc_proxy.Server.Transfer.{end_send}
use iot_edge_opc_proxy.Server.Transfer.Sends.{deliver_results-end_send}
use iot_edge_opc_proxy.Server.Ports.{check_restricted_port, check_restricted_port-parse_range_list}
use iot_edge_opc_proxy.Server.Worker.{visit, is_timedout}
use iot_edge_opc_proxy.Server.Worker.Progress.{AllTimedout, visits, visits-remove, visit-closes}
use iot_edge_opc_proxy.Server.Worker.Diagram.{NextIn}
use iot_edge_opc_proxy.Server.Worker.Lifecycle.{
  from_listener, round, close_done, deliver, step, run, IsEnding, IsStreamed, step-Next,
  run-IsEnding, run-IsStreamed,
}

abbrev message : ℕ → ℕ → Content → Queued
message id type content = record {
  message = record {
    source_id = 7 ∷ zeros 15;
    proxy_id = no_ref;
    target_id = 9 ∷ zeros 15;
    error_code = pos 0;
    is_response = false;
    type = type;
    content = content;
  };
  correlation_id = id;
}

abbrev chunk : ℕ → Queued
chunk id = message id type_data zeroed

abbrev poll : ℕ → ℕ → Queued
poll id time = message id type_poll (poll_message (record { sequence_number = 0; timeout = time }))

abbrev socket : State → Socket
socket st = record {
  state = st;
  last_activity = 100;
  time_opened = 100;
  server_id = 3 ∷ zeros 15;
  id = 9 ∷ zeros 15;
  owner = 7 ∷ zeros 15;
  stream_id = 5 ∷ zeros 15;
  server_stream = true;
  stream = some listener;
  polled = true;
  has_sock = true;
  timeout = 30000;
  buffer_size = 1024;
  pool_size = 128;
  bytes_sent = 0;
  bytes_recvd = 0;
  read_queue = poll 1 500 ∷ poll 2 900 ∷ [];
  write_queue = message 3 type_poll zeroed ∷ [];
  send_queue = [];
  recv_queue = chunk 11 ∷ chunk 12 ∷ chunk 13 ∷ [];
}

-- The connection takes every message, or it refuses the second one.
abbrev world : World
world = record { answers = []; sent = []; asked = [] }

abbrev refusing : World
refusing = record { answers = Error.ok ∷ Error.comm ∷ []; sent = []; asked = [] }

abbrev failing_world : World
failing_world = record { answers = Error.comm ∷ []; sent = []; asked = [] }

abbrev good : Outside
good = record {
  factory = Error.ok;
  connection_string = Error.ok;
  entry = Error.ok;
  transport = Error.ok;
  receiving = Error.ok;
  clone = Error.ok;
  option = Error.ok;
  value = 0;
  has_wsclient = false;
}

deliver_results-conserves_example :
    let (s', w') = deliver_results (plain Queued) (socket opened) refusing in
    (recv : List Sent) × (write : List Sent) × (w'.sent ≡ [] ++ (recv ++ write))
    × (map (view (socket opened)) (socket opened).recv_queue
        ≡ map (view (socket opened)) (delivered recv) ++ map (view (socket opened)) s'.recv_queue)
    × ((socket opened).write_queue ≡ delivered write ++ s'.write_queue)
deliver_results-conserves_example =
    deliver_results-conserves (plain Queued) (plain-IsDlist Queued) (socket opened) refusing

deliver_results-all_example :
    let (s', w') =
      deliver_results (plain Queued) (record (socket opened) { polled = false }) world in
    (s'.recv_queue ≡ []) × (s'.write_queue ≡ [])
deliver_results-all_example =
    deliver_results-all (plain Queued) (plain-IsDlist Queued) listener
      (record (socket opened) { polled = false }) world refl refl refl

deliver_results-polled_example :
    let s = socket opened in
    let (s', w') = deliver_results (plain Queued) s world in
    (w'.sent
      ≡ [] ++ (over listener (replies s s.recv_queue s.read_queue) ++ over listener s.write_queue))
    × (s'.recv_queue ≡ chunk 13 ∷ [])
    × (s'.read_queue ≡ [])
    × (s'.write_queue ≡ [])
deliver_results-polled_example =
    deliver_results-polled (plain Queued) (plain-IsDlist Queued) listener (socket opened) world refl
      refl refl

manage_read_queue-answers_example :
    let (s', w') = manage_read_queue (plain Queued) false 600 (socket opened) world in
    (s' ≡ record (socket opened) { read_queue = waiting false 600 (socket opened).read_queue })
    × ((log : List Sent) × (w'.sent ≡ [] ++ log)
        × (map (λ e. e.queued) log
            ≡ map (respond (reason false)) (answered false 600 (socket opened).read_queue)))
manage_read_queue-answers_example =
    manage_read_queue-answers (plain Queued) (plain-IsDlist Queued) listener false 600
      (socket opened) world refl

control_handler-answers_example :
    Sends true
      (message 21 type_close zeroed)
      world
      (control_handler
        (plain Queued)
        good
        200
        (message 21 type_close zeroed)
        (socket opened)
        world).2
control_handler-answers_example =
    control_handler-answers (plain Queued) good 200 (message 21 type_close zeroed) (socket opened)
      world refl

control_handler-state_example :
    (control_handler
      (plain Queued)
      good
      200
      (message 20 type_open zeroed)
      (socket closed)
      world).1.state
    ≡ collect
control_handler-state_example =
    control_handler-state (plain Queued) good 200 (message 20 type_open zeroed) (socket closed)
      world

abbrev open_message : Queued
open_message = message 20 type_open (
    open_request (record {
      stream_id = 6 ∷ zeros 15;
      type = pos 0;
      connection_string = [];
      polled = true;
      max_send = 0;
      max_recv = 512;
    }))

handle_openrequest-opens_example :
    TellsOpened 200
      (as_open open_message.message.content)
      listener
      open_message
      failing_world
      (handle_openrequest good 200 (some listener) open_message (socket created) failing_world)
unfolding is_ok
handle_openrequest-opens_example =
    handle_openrequest-opens good 200 listener open_message (socket created) failing_world refl refl

abbrev times : List (Error × ℕ)
times = (Error.ok, 40000) ∷ (Error.ok, 80000) ∷ (Error.ok, 500000) ∷ []

times-AllTimedout : AllTimedout (plain Queued) false times (some (socket opened), world)
unfolding visit is_timedout deliver_results manage_read_queue send is_ok
times-AllTimedout = (refl, (refl, (refl, tt)))

visits-remove_example : (visits (plain Queued) false times (some (socket opened), world)).0 ≡ none
visits-remove_example =
    visits-remove (plain Queued) false times (socket opened) world (omega arith) times-AllTimedout

abbrev idle : Socket
idle = record (socket collect) { recv_queue = [] }

visit-closes_example :
    let (next, w') = visit (plain Queued) Error.ok false 200 idle world in
    (next
      ≡ some
          (record idle { state = closing; timeout = 300000; last_activity = 200; read_queue = [] }))
    × (w'.asked ≡ close_socket ∷ [])
    × ((log : List Sent) × (w'.sent ≡ [] ++ log)
        × (map (λ e. e.queued) log ≡ map (respond Error.closed) (poll 1 500 ∷ poll 2 900 ∷ [])))
visit-closes_example =
    visit-closes (plain Queued) (plain-IsDlist Queued) listener Error.ok false 200 idle world refl
      refl refl refl

step-Next_example :
    NextIn
      (opened, some listener)
      (step (plain Queued) (round Error.ok false 40000) (socket opened) world).0
step-Next_example = step-Next (plain Queued) (round Error.ok false 40000) (socket opened) world

run-IsEnding_example :
    IsEnding
      (run
        (plain Queued)
        (from_listener good 200 open_message ∷ close_done ∷ deliver ∷ [])
        (some (socket closing), world)).0
run-IsEnding_example =
    run-IsEnding (plain Queued) (from_listener good 200 open_message ∷ close_done ∷ deliver ∷ [])
      (some (socket closing)) world refl

run-IsStreamed_example :
    IsStreamed
      (run
        (plain Queued)
        (from_listener good 200 open_message ∷ round Error.ok false 400 ∷ [])
        (some (socket created), world)).0
run-IsStreamed_example =
    run-IsStreamed (plain Queued)
      (from_listener good 200 open_message ∷ round Error.ok false 400 ∷ []) (some (socket created))
      world refl

deliver_results-end_send_example :
    let s = socket opened in
    let (s1, w1) = end_send (plain Queued) Error.comm 200 (chunk 31) s world in
    let (s2, w2) = deliver_results (plain Queued) s1 w1 in
    (r : Queued) × (w1.asked ≡ [] ++ (run_deliver ∷ []))
    × (w2.sent
        ≡ []
          ++ (over listener (replies s s.recv_queue s.read_queue)
              ++ over listener (s.write_queue ++ (r ∷ []))))
    × (s2.write_queue ≡ [])
    × (r.correlation_id ≡ 31)
    × (r.message.is_response ≡ true)
    × (r.message.type ≡ type_poll)
    × (r.message.error_code ≡ code Error.comm)
deliver_results-end_send_example =
    deliver_results-end_send (plain Queued) (plain-IsDlist Queued) listener Error.comm 200
      (chunk 31) (socket opened) world refl refl refl refl

-- `strtol` on digits alone.
abbrev digits : ℕ → ℕ → Str → ℤ × ℕ
digits value n [] = (pos value, n)
digits value n (c ∷ s) =
    let rest = digits (10 * value + (c - 48)) (suc n) s in
    if leb 48 c && leb c 57 then rest else (pos value, n)

-- "9-3;80", and "1;" for which one tuple more is stored than there is memory for.
abbrev ranges : Str
ranges = 57 ∷ 45 ∷ 51 ∷ 59 ∷ 56 ∷ 48 ∷ []

parse_range_list-IsSound_example :
    (p : Pass) × (parse_range_list (digits 0 0) true (49 ∷ 59 ∷ []) ≡ some p) × IsSound p
parse_range_list-IsSound_example = parse_range_list-IsSound (digits 0 0) true (49 ∷ 59 ∷ [])

overflowing_list :
    parse_range_list (digits 0 0) true (49 ∷ 59 ∷ [])
    ≡ some (record { result = Error.ok; tuples = (pos 1, pos 1) ∷ (pos 0, pos 0) ∷ []; index = 1 })
unfolding parse_range_list is_ok
overflowing_list = refl

check_restricted_port_example :
    check_restricted_port ((pos 3, pos 9) ∷ (pos 80, pos 80) ∷ []) 2 5 ≡ some Error.refused
unfolding parse_range_list is_ok
check_restricted_port_example =
    check_restricted_port-parse_range_list (digits 0 0) true ranges
      (record { result = Error.ok; tuples = (pos 3, pos 9) ∷ (pos 80, pos 80) ∷ []; index = 2 }) 5
      refl
