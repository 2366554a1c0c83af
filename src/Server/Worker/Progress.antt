-- ===== src/Server/Worker/Progress.antt =====
-- What the visits of the worker come to for a socket.
use iot_edge_opc_proxy.Base.{
  ℕ, suc, ◌<◌, ◌≤◌, ◌≡◌, inl, inr, refl, ap, ◌∙◌, arith, Bool, true, false, Bool-cases, not, ◌&&◌,
  ◌||◌, List, [], ◌∷◌, ◌++◌, map, Option, none, some, if◌then◌else◌, length,
}
use iot_edge_opc_proxy.Error.{Error, is_ok}
use iot_edge_opc_proxy.Dlist.{Dlist, IsDlist}
use iot_edge_opc_proxy.Server.{
  State, created, opened, collect, closing, closed, Socket, Queued, World, Sent, Connection,
  close_socket, ask, respond,
}
use iot_edge_opc_proxy.Server.Deliver.{is_nil, manage_read_queue}
use iot_edge_opc_proxy.Server.Deliver.Kept.{
  deliver_results-IsKept, manage_read_queue-kept, manage_read_queue-asked,
}
use iot_edge_opc_proxy.Server.Deliver.Polls.{manage_read_queue-close}
use iot_edge_opc_proxy.Server.Worker.{
  is_timedout, close_request, start_close, visit_collect, visit_created, visit_opened, say_close,
  visit, remove,
}

-- How many visits of the worker are left for a socket at most, if it times out before each.
abbrev pub visits_left : State → ℕ
visits_left opened = 3
visits_left created = 2
visits_left collect = 2
visits_left closing = 1
visits_left closed = 1

abbrev pub Below : ℕ → Option Socket → Type 0
Below n none = Unit
Below n (some s) = visits_left s.state < n

visits_left_positive : (st : State) → 1 ≤ visits_left st
visits_left_positive created = omega arith
visits_left_positive opened = omega arith
visits_left_positive collect = omega arith
visits_left_positive closing = omega arith
visits_left_positive closed = omega arith

weaken : (m n : ℕ) (x : Option Socket) → Below m x → m ≤ n → Below n x
weaken m n none h k = tt
weaken m n (some s) h k = omega (arith, h, k)

closing-below : (st : State) → st ≡ closing → visits_left st < 2
closing-below st e = rw e (omega arith)

created-below : (st : State) → st ≡ created → visits_left st < 3
created-below st e = rw e (omega arith)

module _ (d : Dlist Queued) where
  start_close-state : (now : ℕ) (s : Socket) (w : World) → (start_close d now s w).0.state ≡ closing
  unfolding start_close
  start_close-state now s w =
      let s1 : Socket = record s { timeout = 300000; last_activity = now; state = closing } in
      ap (λ x. x.state) (manage_read_queue-kept d true now s1 w)

  collect-below :
      (exit : Bool) (now : ℕ) (s : Socket) (w : World)
      → visits_left (visit_collect d exit true now s w).0.state < 2
  unfolding visit_collect
  collect-below exit now s w = elim (Bool-cases s.has_sock) [
    | inr h ↦ rw h (omega arith)
    | inl h ↦ elim (Bool-cases (not (is_nil s.send_queue) || not (is_nil s.recv_queue))) [
      | inl k ↦ rw (h, k) (closing-below _ (start_close-state now (record s { has_sock = true }) w))
      | inr k ↦ rw (h, k) (closing-below _ (start_close-state now (record s { has_sock = true }) w))
    ]
  ]

  say_close-state : (now : ℕ) (s : Socket) (w : World) → (say_close d now s w).0.state ≡ created
  unfolding say_close
  say_close-state now s w =
      let s1 : Socket = record s {
        state = created;
        recv_queue = d.insert_tail s.recv_queue (close_request s);
      } in
      ap (λ x. x.state) (deliver_results-IsKept d s1 w)

  opened-below :
      (message : Error) (exit : Bool) (now : ℕ) (s : Socket) (w : World)
      → visits_left (visit_opened d message exit true now s w).0.state < 3
  unfolding visit_opened visit_created
  opened-below message exit now s w =
      let s1 : Socket = record s { state = collect; send_queue = []; recv_queue = [] } in
      let low = collect-below exit now s1 w in
      elim (Bool-cases (not exit && is_ok message)) [
        | inl h ↦ rw h (created-below _ (say_close-state now s w))
        | inr h ↦ rw h (omega (arith, low))
      ]

  at_state :
      (st : State) (message : Error) (exit : Bool) (now : ℕ) (s : Socket) (w : World)
      → is_timedout now s ≡ true
      → Below (visits_left st) (visit d message exit now (record s { state = st }) w).0
  unfolding visit visit_created is_timedout remove
  at_state created message exit now s w h =
      let low =
        collect-below exit now (record s { state = collect; send_queue = []; recv_queue = [] }) w in
      rw h (omega (arith, low))
  at_state opened message exit now s w h =
      rw h (opened-below message exit now (record s { state = opened }) w)
  at_state collect message exit now s w h =
      rw h (collect-below exit now (record s { state = collect }) w)
  at_state closing message exit now s w h = rw h tt
  at_state closed message exit now s w h = tt

  -- A visit to a socket that has timed out removes it, or brings it nearer to its end.
  visit-Below :
      (message : Error) (exit : Bool) (now : ℕ) (s : Socket) (w : World)
      → is_timedout now s ≡ true
      → Below (visits_left s.state) (visit d message exit now s w).0
  visit-Below message exit now s w h = at_state s.state message exit now s w h

  -- Visits of the worker to one socket of the table, each with the result of creating a close message and
  -- its time, up to the one that removes the socket. A round of the worker need not visit each socket.
  abbrev pub visits : Bool → List (Error × ℕ) → Option Socket × World → Option Socket × World
  visits exit [] x = x
  visits exit ((m, now) ∷ rest) (none, w) = (none, w)
  visits exit ((m, now) ∷ rest) (some s, w) = visits exit rest (visit d m exit now s w)

  -- Before each visit, the socket has timed out.
  abbrev pub AllTimedout : Bool → List (Error × ℕ) → Option Socket × World → Type 0
  AllTimedout exit [] x = Unit
  AllTimedout exit ((m, now) ∷ rest) (none, w) = Unit
  AllTimedout exit ((m, now) ∷ rest) (some s, w) =
      (is_timedout now s ≡ true) × AllTimedout exit rest (visit d m exit now s w)

  run_out :
      (exit : Bool) (rest : List (Error × ℕ)) (x : Option Socket) (w : World)
      → Below (suc (length rest)) x
      → AllTimedout exit rest (x, w)
      → (visits exit rest (x, w)).0 ≡ none
  run_out exit [] none w h l = refl
  run_out exit [] (some s) w h l =
      absurd (let k = visits_left_positive s.state in omega (arith, h, k))
  run_out exit ((m, now) ∷ rest) none w h l = refl
  run_out exit ((m, now) ∷ rest) (some s) w h (late, l) =
      let out = visit d m exit now s w in
      run_out exit rest out.0 out.1
        (weaken _ _ out.0 (visit-Below m exit now s w late) (omega (arith, h))) l

  -- A socket that has timed out before each visit of the worker to it is removed by as many visits as its
  -- state has left: three when it is opened, two when it is created or to collect, one when it is
  -- closing or closed; whether or not the server exits and whether or not its close message can be made.
  pub visits-remove :
      (exit : Bool) (rest : List (Error × ℕ)) (s : Socket) (w : World)
      → visits_left s.state ≤ length rest
      → AllTimedout exit rest (some s, w)
      → (visits exit rest (some s, w)).0 ≡ none
  visits-remove exit rest s w h l = run_out exit rest (some s) w (omega (arith, h)) l

-- A socket that is no longer needed lingers: it has data to move, and its time has not come.
abbrev pub lingers : Bool → ℕ → Socket → Bool
lingers exit now s =
    (not (is_nil s.send_queue) || not (is_nil s.recv_queue)) && not (is_timedout now s) && not exit

last_choice :
    {A : Type 0} (b l : Bool) (x y z : A)
    → b ≡ true
    → l ≡ false
    → (if not b then x else if l then y else z) ≡ z
last_choice b l x y z hb hl = rw (hb, hl) refl

module _ (d : Dlist Queued) where
  collect-closes :
      (exit timedout : Bool) (now : ℕ) (s : Socket) (w : World)
      → s.has_sock ≡ true
      → ((not (is_nil s.send_queue) || not (is_nil s.recv_queue)) && not timedout && not exit)
        ≡ false
      → visit_collect d exit timedout now s w ≡ start_close d now s w
  unfolding visit_collect
  collect-closes exit timedout now s w h l = last_choice s.has_sock _ _ _ _ h l

  closes_at :
      (st : State) (message : Error) (exit : Bool) (now : ℕ) (s : Socket) (w : World)
      → st ≡ collect
      → s.has_sock ≡ true
      → lingers exit now s ≡ false
      → let (s1, w1) = start_close d now (record s { state = st }) w in
        visit d message exit now (record s { state = st }) w ≡ (some s1, w1)
  unfolding visit is_timedout
  closes_at collect message exit now s w e h l =
      let x = collect-closes exit (is_timedout now s) now (record s { state = collect }) w h l in
      ap (λ y. (some y.0, y.1)) x
  closes_at x message exit now s w e h l = absurd cc

module _ (d : Dlist Queued) (law : IsDlist d) (c : Connection) where
  -- A visit closes a socket to collect that the platform has, unless it lingers, over a connection: it
  -- asks the platform to close it, and waits for that with a timeout of five minutes from now. Each of
  -- its polls is answered with er_closed, in their order, and none is left; nothing else changes.
  pub visit-closes :
      (message : Error) (exit : Bool) (now : ℕ) (s : Socket) (w : World)
      → s.state ≡ collect
      → s.has_sock ≡ true
      → lingers exit now s ≡ false
      → s.stream ≡ some c
      → let (next, w') = visit d message exit now s w in
        (next
          ≡ some (record s {
            state = closing;
            timeout = 300000;
            last_activity = now;
            read_queue = [];
          }))
        × (w'.asked ≡ w.asked ++ (close_socket ∷ []))
        × ((log : List Sent) × (w'.sent ≡ w.sent ++ log)
            × (map (λ e. e.queued) log ≡ map (respond Error.closed) s.read_queue))
  unfolding start_close ask
  visit-closes message exit now s w e h l k =
      let s1 : Socket = record s { timeout = 300000; last_activity = now; state = closing } in
      let polls = manage_read_queue-close d law c now s1 w k in
      let same = manage_read_queue-kept d true now s1 w in
      let emptied : (manage_read_queue d true now s1 w).0 ≡ record s1 { read_queue = [] } =
        same ∙ ap {A = List Queued} {B = Socket} (λ x. record s1 { read_queue = x }) polls.0 in
      let asked = manage_read_queue-asked d true now s1 w in
      let closes = closes_at d s.state message exit now s w e h l in
      (
        ap (λ x. x.0) closes ∙ ap some emptied,
        ap (λ x. x.1.asked) closes ∙ ap (λ x. x ++ (close_socket ∷ [])) asked,
        (polls.1.0, ap (λ x. x.1.sent) closes ∙ polls.1.1, polls.1.2),
      )
