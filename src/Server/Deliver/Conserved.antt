-- ===== src/Server/Deliver/Conserved.antt =====
-- Nothing that a socket has to send is lost, sent twice or sent out of order.
use iot_edge_opc_proxy.Base.{
  ℕ, zero, suc, ◌≤◌, ◌≡◌, inl, inr, refl, sym, ap, ap₂, ◌∙◌, arith, true, false, Bool-cases, ◌&&◌,
  List, [], ◌∷◌, ◌++◌, map, append-nil, append_assoc, Option, none, some, if◌then◌else◌, length,
}
use iot_edge_opc_proxy.Error.{Error, is_ok}
use iot_edge_opc_proxy.Dlist.{Dlist, IsDlist}
use iot_edge_opc_proxy.Server.{Socket, Queued, World, Sent, Connection, send}
use iot_edge_opc_proxy.Server.Deliver.{
  stamp, pick_poll, without_poll, with_id, put_back, is_nil, deliver_recv, deliver_write,
  deliver_results,
}

-- The messages that were sent with success.
abbrev pub delivered : List Sent → List Queued
delivered [] = []
delivered (e ∷ es) = if is_ok e.result then e.queued ∷ delivered es else delivered es

-- A message as the socket sends it, whatever poll it answers.
abbrev pub view : Socket → Queued → Queued
view s q = record (stamp s q) { correlation_id = 0 }

delivered-append : (a b : List Sent) → delivered (a ++ b) ≡ delivered a ++ delivered b
delivered-append [] b = refl
delivered-append (e ∷ es) b = elim (Bool-cases (is_ok e.result)) [
  | inl h ↦ rw (h, delivered-append es b) refl
  | inr h ↦ rw (h, delivered-append es b) refl
]

-- What one send adds to what was sent.
record Attempt (q : Queued) (w : World) (out : Error × World) : Type 0 where
  pub log : List Sent
  pub sent : out.1.sent ≡ w.sent ++ log
  pub result : delivered log ≡ (if is_ok out.0 then q ∷ [] else [])

send-Attempt : (c : Option Connection) (q : Queued) (w : World) → Attempt q w (send c q w)
unfolding send is_ok
send-Attempt none q w = record { log = []; sent = sym (append-nil w.sent); result = refl }
send-Attempt (some c) q w = record { log = _; sent = refl; result = refl }

view-with_id :
    (s : Socket) (poll : Option Queued) (q : Queued) → view s (stamp s (with_id poll q)) ≡ view s q
unfolding stamp with_id
view-with_id s none q = refl
view-with_id s (some p) q = refl

-- How far a queue got.
pub record Progress (show : Queued → Queued) (before : List Queued) (w : World)
    (after : List Queued) (w' : World) : Type 0 where
  pub log : List Sent
  pub sent : w'.sent ≡ w.sent ++ log
  pub kept : map show before ≡ map show (delivered log) ++ map show after

stay : {show : Queued → Queued} {l : List Queued} {w : World} → Progress show l w l w
stay {w = w} = record { log = []; sent = sym (append-nil w.sent); kept = refl }

-- A failed attempt, with the message back at the front, and one that succeeds before others.
failed :
    {show : Queued → Queued} {q q' : Queued} {qs after : List Queued} {w : World}
    {out : Error × World}
    → Attempt q' w out
    → is_ok out.0 ≡ false
    → show q' ≡ show q
    → after ≡ q' ∷ qs
    → Progress show (q ∷ qs) w after out.1
failed {show} {q} {q'} {qs} a h v e = record {
  log = a.log;
  sent = a.sent;
  kept = rw (a.result, h, e, v) refl;
}

after_one :
    {show : Queued → Queued} {q q' : Queued} {qs after : List Queued} {w w' : World}
    {out : Error × World}
    → Attempt q' w out
    → is_ok out.0 ≡ true
    → show q' ≡ show q
    → Progress show qs out.1 after w'
    → Progress show (q ∷ qs) w after w'
after_one {show} {q} {q'} {w = w} {out = out} a h v p = record {
  log = a.log ++ p.log;
  sent = p.sent ∙ (ap (λ l. l ++ p.log) a.sent ∙ append_assoc w.sent a.log p.log);
  kept = rw (delivered-append a.log p.log, a.result, h, p.kept, v) refl;
}

module _ (d : Dlist Queued) (law : IsDlist d) where
  pub removed : (q : Queued) (qs : List Queued) → d.remove (q ∷ qs) 0 ≡ qs
  removed q qs = law.remove_lem (q ∷ qs) 0 (omega arith)

  pub write-Progress :
      (k : ℕ) (l : List Queued) (s : Socket) (w : World)
      → let out = deliver_write d k (record s { write_queue = l }) w in
        Progress (λ q. q) l w out.0.write_queue out.1 × (out.0.recv_queue ≡ s.recv_queue)
  unfolding deliver_write
  write-Progress zero l s w = (stay, refl)
  write-Progress (suc k) [] s w = (stay, refl)
  write-Progress (suc k) (q ∷ qs) s w =
      let a = send-Attempt s.stream q w in
      elim (Bool-cases (is_ok (send s.stream q w).0)) [
        | inl h ↦
            rw (h, removed q qs)
              (let others = write-Progress k qs s (send s.stream q w).1 in
                (after_one a h refl others.0, others.1))
        | inr h ↦
            rw h (failed a h refl (law.insert_head_lem _ q ∙ ap (λ l. q ∷ l) (removed q qs)), refl)
      ]

  pub recv-Progress :
      (k : ℕ) (l polls : List Queued) (s : Socket) (w : World)
      → let out = deliver_recv d k (record s { recv_queue = l; read_queue = polls }) w in
        Progress (view s) l w out.0.recv_queue out.1 × (out.0.write_queue ≡ s.write_queue)
  unfolding deliver_recv put_back
  recv-Progress zero l polls s w = (stay, refl)
  recv-Progress (suc k) [] polls s w = (stay, refl)
  recv-Progress (suc k) (q ∷ qs) polls s w =
      let poll = pick_poll s.polled polls in
      let q' = stamp s (with_id poll q) in
      let a = send-Attempt s.stream q' w in
      let v = view-with_id s poll q in
      elim (Bool-cases (s.polled && is_nil polls)) [
        | inl e ↦ rw e (stay, refl)
        | inr e ↦ elim (Bool-cases (is_ok (send s.stream q' w).0)) [
          | inl h ↦
              rw (e, h, removed q qs)
                (let others =
                    recv-Progress k qs (without_poll d poll polls) s (send s.stream q' w).1 in
                  (after_one a h v others.0, others.1))
          | inr h ↦
              rw (e, h)
                (failed a h v (law.insert_head_lem _ q' ∙ ap (λ l. q' ∷ l) (removed q qs)), refl)
        ]
      ]

map_same : (l : List Queued) → map (λ q. q) l ≡ l
map_same [] = refl
map_same (q ∷ qs) = ap (λ l. q ∷ l) (map_same qs)

module _ (d : Dlist Queued) (law : IsDlist d) where
  -- A delivery sends from the queue of received messages and then from the queue of responses. What it
  -- sent with success of the first, as the socket sends it, and then what is left there, is all that
  -- was there, in its order; and the same holds of the second. The sends are those of the first queue
  -- and then those of the second, and whatever was sent before stays.
  pub deliver_results-conserves :
      (s : Socket) (w : World)
      → let (s', w') = deliver_results d s w in
        (recv : List Sent) × (write : List Sent) × (w'.sent ≡ w.sent ++ (recv ++ write))
        × (map (view s) s.recv_queue ≡ map (view s) (delivered recv) ++ map (view s) s'.recv_queue)
        × (s.write_queue ≡ delivered write ++ s'.write_queue)
  unfolding deliver_results
  deliver_results-conserves s w =
      let first = recv-Progress d law (length s.recv_queue) s.recv_queue s.read_queue s w in
      let (s1, w1) = deliver_recv d (length s.recv_queue) s w in
      let second = write-Progress d law (length s1.write_queue) s1.write_queue s1 w1 in
      let p = first.0 in
      let q = second.0 in
      (
        p.log,
        q.log,
        q.sent ∙ (ap (λ l. l ++ q.log) p.sent ∙ append_assoc w.sent p.log q.log),
        p.kept ∙ ap (λ l. map (view s) (delivered p.log) ++ map (view s) l) (sym second.1),
        sym first.1
            ∙ (sym (map_same _) ∙ (q.kept ∙ ap₂ ◌++◌ (map_same (delivered q.log)) (map_same _))),
      )

pub send_ok :
    (c : Connection) (stream : Option Connection) (q : Queued) (w : World)
    → stream ≡ some c
    → w.answers ≡ []
    → (is_ok (send stream q w).0 ≡ true) × ((send stream q w).1.answers ≡ [])
unfolding send is_ok
send_ok c stream q w e a = rw (e, a) (refl, refl)

module _ (d : Dlist Queued) (law : IsDlist d) (c : Connection) where
  recv_all :
      (k : ℕ) (l polls : List Queued) (s : Socket) (w : World)
      → length l ≤ k
      → s.stream ≡ some c
      → s.polled ≡ false
      → w.answers ≡ []
      → let out = deliver_recv d k (record s { recv_queue = l; read_queue = polls }) w in
        (out.0.recv_queue ≡ []) × (out.0.stream ≡ some c) × (out.1.answers ≡ [])
  unfolding deliver_recv
  recv_all zero [] polls s w h e p a = (refl, e, a)
  recv_all zero (q ∷ qs) polls s w h e p a = absurd (omega arith)
  recv_all (suc k) [] polls s w h e p a = (refl, e, a)
  recv_all (suc k) (q ∷ qs) polls s w h e p a =
      let poll = pick_poll s.polled polls in
      let sends = send_ok c s.stream (stamp s (with_id poll q)) w e a in
      rw (ap (λ b. b && is_nil polls) p, sends.0, removed d law q qs)
        (recv_all k qs (without_poll d poll polls) s (send s.stream (stamp s (with_id poll q)) w).1
          (omega arith) e p sends.1)

  write_all :
      (k : ℕ) (l : List Queued) (s : Socket) (w : World)
      → length l ≤ k
      → s.stream ≡ some c
      → w.answers ≡ []
      → let out = deliver_write d k (record s { write_queue = l }) w in
        (out.0.write_queue ≡ []) × (out.0.recv_queue ≡ s.recv_queue)
  unfolding deliver_write
  write_all zero [] s w h e a = (refl, refl)
  write_all zero (q ∷ qs) s w h e a = absurd (omega arith)
  write_all (suc k) [] s w h e a = (refl, refl)
  write_all (suc k) (q ∷ qs) s w h e a =
      let sends = send_ok c s.stream q w e a in
      rw (sends.0, removed d law q qs)
        (write_all k qs s (send s.stream q w).1 (omega arith) e sends.1)

  -- Over a connection that takes every message, a delivery of a socket that is not polled leaves nothing
  -- in either queue.
  pub deliver_results-all :
      (s : Socket) (w : World)
      → s.stream ≡ some c
      → s.polled ≡ false
      → w.answers ≡ []
      → let (s', w') = deliver_results d s w in (s'.recv_queue ≡ []) × (s'.write_queue ≡ [])
  unfolding deliver_results
  deliver_results-all s w e p a =
      let first =
        recv_all (length s.recv_queue) s.recv_queue s.read_queue s w (omega arith) e p a in
      let (s1, w1) = deliver_recv d (length s.recv_queue) s w in
      let second =
        write_all (length s1.write_queue) s1.write_queue s1 w1 (omega arith) first.1 first.2 in
      (second.1 ∙ first.0, second.0)
