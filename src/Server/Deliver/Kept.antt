-- ===== src/Server/Deliver/Kept.antt =====
-- What a delivery leaves alone.
use iot_edge_opc_proxy.Base.{
  ℕ, zero, suc, ◌≡◌, inl, inr, refl, ap, ◌∙◌, Bool, Bool-cases, ◌&&◌, ◌||◌, List, [], ◌∷◌, Option,
  none, some, if◌then◌else◌, length,
}
use iot_edge_opc_proxy.Error.{Error, is_ok}
use iot_edge_opc_proxy.Dlist.{Dlist}
use iot_edge_opc_proxy.Server.{Socket, Queued, World, Connection, send, respond}
use iot_edge_opc_proxy.Server.Deliver.{
  stamp, pick_poll, without_poll, with_id, put_back, is_nil, deliver_recv, deliver_write,
  deliver_results, is_pending, manage, manage_read_queue,
}

-- A socket that differs from another in three of its queues at most.
abbrev pub IsKept : Socket → Socket → Type 0
IsKept s s' = s' ≡ record s {
  recv_queue = s'.recv_queue;
  read_queue = s'.read_queue;
  write_queue = s'.write_queue;
}

send-asked : (c : Option Connection) (q : Queued) (w : World) → (send c q w).1.asked ≡ w.asked
unfolding send
send-asked none q w = refl
send-asked (some c) q w = refl

module _ (d : Dlist Queued) where
  recv-IsKept :
      (k : ℕ) (l polls : List Queued) (s : Socket) (w : World)
      → IsKept s (deliver_recv d k (record s { recv_queue = l; read_queue = polls }) w).0
  unfolding deliver_recv put_back
  recv-IsKept zero l polls s w = refl
  recv-IsKept (suc k) [] polls s w = refl
  recv-IsKept (suc k) (q ∷ qs) polls s w =
      let poll = pick_poll s.polled polls in
      let q' = stamp s (with_id poll q) in
      elim (Bool-cases (s.polled && is_nil polls)) [
        | inl e ↦ rw e refl
        | inr e ↦ elim (Bool-cases (is_ok (send s.stream q' w).0)) [
          | inl h ↦
              rw (e, h)
                (recv-IsKept k (d.remove (q ∷ qs) 0) (without_poll d poll polls) s
                  (send s.stream q' w).1)
          | inr h ↦ rw (e, h) refl
        ]
      ]

  write-IsKept :
      (k : ℕ) (l : List Queued) (s : Socket) (w : World)
      → IsKept s (deliver_write d k (record s { write_queue = l }) w).0
  unfolding deliver_write
  write-IsKept zero l s w = refl
  write-IsKept (suc k) [] s w = refl
  write-IsKept (suc k) (q ∷ qs) s w = elim (Bool-cases (is_ok (send s.stream q w).0)) [
    | inl h ↦ rw h (write-IsKept k (d.remove (q ∷ qs) 0) s (send s.stream q w).1)
    | inr h ↦ rw h refl
  ]

  -- The second loop leaves the polls.
  pub write-polls :
      (k : ℕ) (l : List Queued) (s : Socket) (w : World)
      → (deliver_write d k (record s { write_queue = l }) w).0.read_queue ≡ s.read_queue
  unfolding deliver_write
  write-polls zero l s w = refl
  write-polls (suc k) [] s w = refl
  write-polls (suc k) (q ∷ qs) s w = elim (Bool-cases (is_ok (send s.stream q w).0)) [
    | inl h ↦ rw h (write-polls k (d.remove (q ∷ qs) 0) s (send s.stream q w).1)
    | inr h ↦ rw h refl
  ]

  -- Only the queues change.
  pub deliver_results-IsKept : (s : Socket) (w : World) → IsKept s (deliver_results d s w).0
  unfolding deliver_results
  deliver_results-IsKept s w =
      let first = recv-IsKept (length s.recv_queue) s.recv_queue s.read_queue s w in
      let (s1, w1) = deliver_recv d (length s.recv_queue) s w in
      let second = write-IsKept (length s1.write_queue) s1.write_queue s1 w1 in
      let s2 = (deliver_results d s w).0 in
      second
      ∙ ap {A = Socket} {B = Socket}
          (λ x. record x {
            recv_queue = s2.recv_queue;
            read_queue = s2.read_queue;
            write_queue = s2.write_queue;
          })
          first

  manage-kept :
      (close : Bool) (now : ℕ) (l r : List Queued) (i : ℕ) (s : Socket) (w : World)
      → let s' = (manage d close now l i (record s { read_queue = r }) w).0 in
        s' ≡ record s { read_queue = s'.read_queue }
  unfolding manage
  manage-kept close now [] r i s w = refl
  manage-kept close now (q ∷ qs) r i s w = elim (Bool-cases (close || is_pending now q)) [
    | inl h ↦ rw h (
        manage-kept close now qs (d.remove r i) i s
          (send s.stream (respond (if close then Error.closed else Error.timeout) q) w).1)
    | inr h ↦ rw h (manage-kept close now qs r (suc i) s w)
  ]

  -- Only the queue of polls changes.
  pub manage_read_queue-kept :
      (close : Bool) (now : ℕ) (s : Socket) (w : World)
      → let s' = (manage_read_queue d close now s w).0 in
        s' ≡ record s { read_queue = s'.read_queue }
  unfolding manage_read_queue
  manage_read_queue-kept close now s w = manage-kept close now s.read_queue s.read_queue 0 s w

  manage-asked :
      (close : Bool) (now : ℕ) (l : List Queued) (i : ℕ) (s : Socket) (w : World)
      → (manage d close now l i s w).1.asked ≡ w.asked
  unfolding manage
  manage-asked close now [] i s w = refl
  manage-asked close now (q ∷ qs) i s w =
      let r = respond (if close then Error.closed else Error.timeout) q in
      elim (Bool-cases (close || is_pending now q)) [
        | inl h ↦ rw h (
            manage-asked close now qs i (record s { read_queue = d.remove s.read_queue i })
              (send s.stream r w).1
            ∙ send-asked s.stream r w)
        | inr h ↦ rw h (manage-asked close now qs (suc i) s w)
      ]

  -- Nothing is asked of others.
  pub manage_read_queue-asked :
      (close : Bool) (now : ℕ) (s : Socket) (w : World)
      → (manage_read_queue d close now s w).1.asked ≡ w.asked
  unfolding manage_read_queue
  manage_read_queue-asked close now s w = manage-asked close now s.read_queue 0 s w
