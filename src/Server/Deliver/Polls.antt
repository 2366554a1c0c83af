-- ===== src/Server/Deliver/Polls.antt =====
-- Which polls are answered when their time is checked.
use iot_edge_opc_proxy.Base.{
  ℕ, suc, ◌<◌, ◌≡◌, inl, inr, refl, sym, ap, ap₂, ◌∙◌, arith, Bool, true, false, Bool-cases, ◌||◌,
  List, [], ◌∷◌, ◌++◌, map, append-nil, append_assoc, Option, some, if◌then◌else◌, length,
  length-append, take, drop,
}
use iot_edge_opc_proxy.Error.{Error}
use iot_edge_opc_proxy.Dlist.{Dlist, IsDlist}
use iot_edge_opc_proxy.Server.{Socket, Queued, World, Sent, Connection, send, respond}
use iot_edge_opc_proxy.Server.Deliver.{poll_timeout, is_pending, manage, manage_read_queue}

-- The polls of a queue that are answered, and those that stay.
abbrev pub answered : Bool → ℕ → List Queued → List Queued
answered close now [] = []
answered close now (q ∷ qs) =
    let rest = answered close now qs in if close || is_pending now q then q ∷ rest else rest

abbrev pub waiting : Bool → ℕ → List Queued → List Queued
waiting close now [] = []
waiting close now (q ∷ qs) =
    let rest = waiting close now qs in if close || is_pending now q then rest else q ∷ rest

abbrev pub reason : Bool → Error
reason close = if close then Error.closed else Error.timeout

-- What came of a queue.
record Managed (close : Bool) (now : ℕ) (s : Socket) (pre l : List Queued) (w : World)
    (out : Socket × World) : Type 0 where
  pub socket : out.0 ≡ record s { read_queue = pre ++ waiting close now l }
  pub log : List Sent
  pub sent : out.1.sent ≡ w.sent ++ log
  pub answers : map (λ e. e.queued) log ≡ map (respond (reason close)) (answered close now l)

sort_yes :
    (close : Bool) (now : ℕ) (q : Queued) (qs : List Queued)
    → (close || is_pending now q) ≡ true
    → (waiting close now (q ∷ qs) ≡ waiting close now qs)
      × (answered close now (q ∷ qs) ≡ q ∷ answered close now qs)
sort_yes close now q qs h = rw h (refl, refl)

sort_no :
    (close : Bool) (now : ℕ) (q : Queued) (qs : List Queued)
    → (close || is_pending now q) ≡ false
    → (waiting close now (q ∷ qs) ≡ q ∷ waiting close now qs)
      × (answered close now (q ∷ qs) ≡ answered close now qs)
sort_no close now q qs h = rw h (refl, refl)

taken_out :
    (pre : List Queued) (q : Queued) (qs : List Queued)
    → take (length pre) (pre ++ (q ∷ qs)) ++ drop (suc (length pre)) (pre ++ (q ∷ qs)) ≡ pre ++ qs
taken_out [] q qs = refl
taken_out (p ∷ ps) q qs = ap (◌∷◌ p) (taken_out ps q qs)

module _ (d : Dlist Queued) (law : IsDlist d) (c : Connection) where
  removed_at :
      (pre : List Queued) (q : Queued) (qs : List Queued)
      → d.remove (pre ++ (q ∷ qs)) (length pre) ≡ pre ++ qs
  removed_at pre q qs =
      law.remove_lem (pre ++ (q ∷ qs)) (length pre)
        (let k = length-append pre (q ∷ qs) in omega (arith, k))
      ∙ taken_out pre q qs

  attempt :
      (stream : Option Connection) (q : Queued) (w : World)
      → stream ≡ some c
      → (send stream q w).1.sent
        ≡ w.sent ++ (record { connection = c; queued = q; result = (send stream q w).0 } ∷ [])
  unfolding send
  attempt stream q w e = rw e refl

  manage-Managed :
      (close : Bool) (now : ℕ) (l pre st : List Queued) (i : ℕ) (s : Socket) (w : World)
      → s.stream ≡ some c
      → i ≡ length pre
      → st ≡ pre ++ l
      → Managed close now s pre l w (manage d close now l i (record s { read_queue = st }) w)
  unfolding manage
  manage-Managed close now [] pre st i s w e hi hs = record {
    socket = ap (λ r. record s { read_queue = r }) hs;
    log = [];
    sent = sym (append-nil w.sent);
    answers = refl;
  }
  manage-Managed close now (q ∷ qs) pre st i s w e hi hs =
      elim (Bool-cases (close || is_pending now q)) [
        | inl h ↦
            let sort = sort_yes close now q qs h in
            let r = respond (reason close) q in
            let out = (send s.stream r w).1 in
            let removed = ap₂ d.remove hs hi ∙ removed_at pre q qs in
            let others = manage-Managed close now qs pre (d.remove st i) i s out e hi removed in
            rw h (record {
              socket = others.socket ∙ ap (λ x. record s { read_queue = pre ++ x }) (sym sort.0);
              log =
                  record { connection = c; queued = r; result = (send s.stream r w).0 }
                  ∷ others.log;
              sent =
                  others.sent
                  ∙ (ap (λ x. x ++ others.log) (attempt s.stream r w e)
                      ∙ append_assoc w.sent _ others.log);
              answers = ap (◌∷◌ r) others.answers ∙ ap (map (respond (reason close))) (sym sort.1);
            })
        | inr h ↦
            let sort = sort_no close now q qs h in
            let last = ap suc hi ∙ sym (length-append pre (q ∷ []) ∙ omega arith) in
            let others =
              manage-Managed close now qs (pre ++ (q ∷ [])) st (suc i) s w e last
                (hs ∙ sym (append_assoc pre (q ∷ []) qs)) in
            rw h (record {
              socket =
                  others.socket
                  ∙ ap (λ x. record s { read_queue = x })
                      (append_assoc pre (q ∷ []) _ ∙ ap (λ x. pre ++ x) (sym sort.0));
              log = others.log;
              sent = others.sent;
              answers = others.answers ∙ ap (map (respond (reason close))) (sym sort.1);
            })
      ]

answered_close : (now : ℕ) (l : List Queued) → (answered true now l ≡ l) × (waiting true now l ≡ [])
answered_close now [] = (refl, refl)
answered_close now (q ∷ qs) = let rest = answered_close now qs in (ap (◌∷◌ q) rest.0, rest.1)

-- The polls whose time has come.
abbrev pub AllOverdue : ℕ → List Queued → Type 0
AllOverdue now [] = Unit
AllOverdue now (q ∷ qs) = (poll_timeout q.message.content < now) × AllOverdue now qs

module _ (d : Dlist Queued) (law : IsDlist d) (c : Connection) (close : Bool) (now : ℕ) (s : Socket)
    (w : World) where
  -- On a socket with a connection, checking the polls answers those of them that it selects, each once
  -- and in their order, with er_closed or er_timeout, and leaves the others in the queue in their order.
  -- Nothing else of the socket changes, and whatever was sent before stays.
  pub manage_read_queue-answers :
      s.stream ≡ some c
      → let (s', w') = manage_read_queue d close now s w in
        (s' ≡ record s { read_queue = waiting close now s.read_queue })
        × ((log : List Sent) × (w'.sent ≡ w.sent ++ log)
            × (map (λ e. e.queued) log
                ≡ map (respond (reason close)) (answered close now s.read_queue)))
  unfolding manage_read_queue
  manage_read_queue-answers e =
      let m = manage-Managed d law c close now s.read_queue [] s.read_queue 0 s w e refl refl in
      (m.socket, (m.log, m.sent, m.answers))

module _ (d : Dlist Queued) (law : IsDlist d) (c : Connection) (now : ℕ) (s : Socket)
    (w : World) where
  -- When a socket with a connection closes, each of its polls is answered with er_closed, in their order,
  -- and no poll is left.
  pub manage_read_queue-close :
      s.stream ≡ some c
      → let (s', w') = manage_read_queue d true now s w in
        (s'.read_queue ≡ [])
        × ((log : List Sent) × (w'.sent ≡ w.sent ++ log)
            × (map (λ e. e.queued) log ≡ map (respond Error.closed) s.read_queue))
  manage_read_queue-close e =
      let m = manage_read_queue-answers d law c true now s w e in
      let all = answered_close now s.read_queue in
      (
        ap (λ x. x.read_queue) m.0 ∙ all.1,
        (m.1.0, m.1.1, m.1.2 ∙ ap (map (respond Error.closed)) all.0),
      )
