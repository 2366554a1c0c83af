-- ===== src/Server/Worker/Lifecycle.antt =====
-- All that happens to a socket of the server, one event after the other.
use iot_edge_opc_proxy.Base.{ℕ, ◌≡◌, refl, ap, Bool, true, false, List, [], ◌∷◌, Option, none, some}
use iot_edge_opc_proxy.Error.{Error}
use iot_edge_opc_proxy.Dlist.{Dlist}
use iot_edge_opc_proxy.Wire.Address.{Address}
use iot_edge_opc_proxy.Server.{
  State, created, opened, collect, closing, closed, Socket, Queued, World, Connection, is_ending,
}
use iot_edge_opc_proxy.Server.Deliver.{deliver_results, manage_read_queue}
use iot_edge_opc_proxy.Server.Requests.{Outside, control_handler, stream_handler}
use iot_edge_opc_proxy.Server.Requests.Open.{core}
use iot_edge_opc_proxy.Server.Transfer.{end_receive, begin_send, end_send}
use iot_edge_opc_proxy.Server.Deliver.Kept.{deliver_results-IsKept, manage_read_queue-kept}
use iot_edge_opc_proxy.Server.Worker.Diagram.{
  Next, ends, stays, opens, tells, NextIn, same, listener-Next, stream-Next, visit-Next, link-Next,
  receive-Next, begin_at, sent-Next,
}
use iot_edge_opc_proxy.Server.Worker.{Opened, open_complete, close_complete, visit}

-- A message from the listener or from the socket's own stream; a visit of the worker; the link's
-- completion and the close's; the tasks that deliver and that check the polls; and the ends of
-- a receive and of a send, and the begin of a send.
pub data Event : Type 0 where
  from_listener : Outside → ℕ → Queued → Event
  from_stream : Outside → ℕ → Queued → Event
  round : Error → Bool → ℕ → Event
  link_done : Opened → Option Connection → Queued → Event
  close_done : Event
  deliver : Event
  check : ℕ → Event
  received : Error → ℕ → ℕ → Option Address → Queued → Event
  send_begun : Event
  send_ended : Error → ℕ → Queued → Event

-- The table, as far as one socket is concerned: none when the socket has left it.
module _ (d : Dlist Queued) where
  abbrev pub step : Event → Socket → World → Option Socket × World
  step (from_listener p now q) s w =
      let (r, s', w') = control_handler d p now q s w in (some s', w')
  step (from_stream p now q) s w = let (r, s', w') = stream_handler d p now q s w in (some s', w')
  step (round m exit now) s w = visit d m exit now s w
  step (link_done o c q) s w = let (s', w') = open_complete o c q s w in (some s', w')
  step close_done s w = let (s', w') = close_complete s w in (some s', w')
  step deliver s w = let (s', w') = deliver_results d s w in (some s', w')
  step (check now) s w = let (s', w') = manage_read_queue d false now s w in (some s', w')
  step (received r now n a q) s w = let (s', w') = end_receive d r now n a q s w in (some s', w')
  step send_begun s w = (some (begin_send d s).1, w)
  step (send_ended r now q) s w = let (s', w') = end_send d r now q s w in (some s', w')

  abbrev pub run : List Event → Option Socket × World → Option Socket × World
  run [] x = x
  run (e ∷ es) (none, w) = (none, w)
  run (e ∷ es) (some s, w) = run es (step e s w)

module _ (d : Dlist Queued) where
  -- Whichever of these events happens to a socket, its state and its stream follow the state diagram: both
  -- stay; or it opens, with a stream, when it was created; or it is as created again after it was opened;
  -- or its end begins or goes on; or it leaves the table.
  pub step-Next : (e : Event) (s : Socket) (w : World) → NextIn (core s) (step d e s w).0
  unfolding close_complete
  step-Next (from_listener p now q) s w = listener-Next d p now q s w
  step-Next (from_stream p now q) s w = stream-Next d p now q s w
  step-Next (round m exit now) s w = visit-Next s.state d m exit now s w
  step-Next (link_done o c q) s w = link-Next o c q s w
  step-Next close_done s w = ends refl
  step-Next deliver s w = same _ _ (ap core (deliver_results-IsKept d s w))
  step-Next (check now) s w = same _ _ (ap core (manage_read_queue-kept d false now s w))
  step-Next (received r now n a q) s w = receive-Next d r now n a q s w
  step-Next send_begun s w = begin_at d s.send_queue s
  step-Next (send_ended r now q) s w = sent-Next d r now q s w

-- An opened socket has a stream.
abbrev pub has_stream : State × Option Connection → Bool
has_stream (opened, none) = false
has_stream (st, c) = true

abbrev pub IsStreamed : Option Socket → Type 0
IsStreamed none = Unit
IsStreamed (some s) = has_stream (core s) ≡ true

abbrev pub IsEnding : Option Socket → Type 0
IsEnding none = Unit
IsEnding (some s) = is_ending s.state ≡ true

ending_streamed :
    (st : State) (c : Option Connection) → is_ending st ≡ true → has_stream (st, c) ≡ true
ending_streamed opened none e = absurd cc
ending_streamed opened (some c) e = refl
ending_streamed created c e = refl
ending_streamed collect c e = refl
ending_streamed closing c e = refl
ending_streamed closed c e = refl

next_streamed :
    (x y : State × Option Connection) → Next x y → has_stream x ≡ true → has_stream y ≡ true
next_streamed x y stays h = h
next_streamed x y (opens c) h = refl
next_streamed x y tells h = refl
next_streamed x y (ends e) h = ending_streamed y.0 y.1 e

next_ending :
    (x y : State × Option Connection) → Next x y → is_ending x.0 ≡ true → is_ending y.0 ≡ true
next_ending x y stays h = h
next_ending x y (opens c) h = absurd cc
next_ending x y tells h = absurd cc
next_ending x y (ends e) h = e

next-IsStreamed :
    (x : State × Option Connection) (t : Option Socket)
    → NextIn x t
    → has_stream x ≡ true
    → IsStreamed t
next-IsStreamed x none n h = tt
next-IsStreamed x (some s) n h = next_streamed x (core s) n h

next-IsEnding :
    (x : State × Option Connection) (t : Option Socket)
    → NextIn x t
    → is_ending x.0 ≡ true
    → IsEnding t
next-IsEnding x none n h = tt
next-IsEnding x (some s) n h = next_ending x (core s) n h

module _ (d : Dlist Queued) where
  -- Through any sequence of events, a socket that is opened has a stream, if that holds at first, as it
  -- does when the socket was created.
  pub run-IsStreamed :
      (es : List Event) (t : Option Socket) (w : World)
      → IsStreamed t
      → IsStreamed (run d es (t, w)).0
  run-IsStreamed [] t w h = h
  run-IsStreamed (e ∷ es) none w h = tt
  run-IsStreamed (e ∷ es) (some s) w h =
      let out = step d e s w in
      run-IsStreamed es out.0 out.1 (next-IsStreamed (core s) out.0 (step-Next d e s w) h)

  -- Through any sequence of events, a socket whose end has begun is never opened, nor as created, again:
  -- it is one to collect, closing or closed, or it has left the table.
  pub run-IsEnding :
      (es : List Event) (t : Option Socket) (w : World) → IsEnding t → IsEnding (run d es (t, w)).0
  run-IsEnding [] t w h = h
  run-IsEnding (e ∷ es) none w h = tt
  run-IsEnding (e ∷ es) (some s) w h =
      let out = step d e s w in
      run-IsEnding es out.0 out.1 (next-IsEnding (core s) out.0 (step-Next d e s w) h)
