-- ===== src/Server/Transfer/Sends.antt =====
-- What becomes of a message that the platform sends.
use iot_edge_opc_proxy.Base.{
  ℕ, ◌≡◌, inl, inr, refl, sym, ap, ap₂, ◌∙◌, Bool, true, false, Bool-cases, List, [], ◌∷◌, ◌++◌,
  some,
}
use iot_edge_opc_proxy.Error.{Error, code, is_ok}
use iot_edge_opc_proxy.Dlist.{Dlist, IsDlist}
use iot_edge_opc_proxy.Wire.Message.{as_response}
use iot_edge_opc_proxy.Wire.Content.{type_poll}
use iot_edge_opc_proxy.Wire.Ref.{Ref}
use iot_edge_opc_proxy.Server.{Socket, Queued, World, Connection, run_deliver, ask}
use iot_edge_opc_proxy.Server.Deliver.{deliver_results}
use iot_edge_opc_proxy.Server.Deliver.Polled.{over, replies, deliver_results-polled}
use iot_edge_opc_proxy.Server.Deliver.Conserved.{removed}
use iot_edge_opc_proxy.Server.Transfer.{is_retry, is_aborted, begin_send, end_send, poll_response}

abbrev head_of : Queued → List Queued → Queued
head_of q [] = q
head_of q (x ∷ xs) = x

-- What a message that is delivered says of the socket.
abbrev pub addresses : Socket → Ref × Ref × Ref
addresses s = (s.server_id, s.stream_id, s.id)

-- A response of type poll to a message is behind the others that wait, and is to be delivered.
abbrev pub Responds : Error → Queued → Socket → World → Socket × World → Type 0
Responds outcome q s w (s', w') =
    (r : Queued) × (s'.write_queue ≡ s.write_queue ++ (r ∷ []))
    × (r.correlation_id ≡ q.correlation_id)
    × (r.message.is_response ≡ true)
    × (r.message.type ≡ type_poll)
    × (r.message.error_code ≡ code outcome)
    × (s'.send_queue ≡ s.send_queue)
    × (s'.recv_queue ≡ s.recv_queue)
    × (s'.read_queue ≡ s.read_queue)
    × (s'.stream ≡ s.stream)
    × (s'.polled ≡ true)
    × (addresses s' ≡ addresses s)
    × (w' ≡ ask run_deliver w)

head_same :
    (q : Queued) (qs : List Queued) (x : Queued) (xs : List Queued) → x ∷ xs ≡ q ∷ qs → x ≡ q
head_same q qs x xs e = ap (head_of q) e

first_same :
    (q : Queued) (qs : List Queued) (x : Queued) (xs : List Queued)
    → x ∷ xs ≡ q ∷ qs
    → q ∷ xs ≡ x ∷ xs
first_same q qs x xs e = ap (λ y. y ∷ xs) (sym (head_same q qs x xs e))

replies_same :
    (s s' : Socket) (l polls : List Queued)
    → addresses s' ≡ addresses s
    → replies s' l polls ≡ replies s l polls
replies_same s s' [] polls e = refl
replies_same s s' (q ∷ qs) [] e = refl
replies_same s s' (q ∷ qs) (p ∷ ps) e =
    rw (ap (λ a. a.0) e, ap (λ a. a.1) e, ap (λ a. a.2) e, replies_same s s' qs ps e) refl

module _ (d : Dlist Queued) (law : IsDlist d) where
  retry_at :
      (q : Queued) (qs l : List Queued) (now : ℕ) (s : Socket) (w : World)
      → l ≡ q ∷ qs
      → let taken = begin_send d (record s { send_queue = l }) in
        (taken.0 ≡ some q)
        × (end_send d Error.retry now q taken.1 w ≡ (record s { send_queue = l }, w))
  unfolding begin_send end_send
  retry_at q qs [] now s w e = absurd cc
  retry_at q qs (x ∷ xs) now s w e =
      let front =
        law.insert_head_lem (d.remove (x ∷ xs) 0) q
        ∙ (ap (◌∷◌ q) (removed d law x xs) ∙ first_same q qs x xs e) in
      (
        ap some (head_same q qs x xs e),
        ap {A = List Queued} {B = Socket × World} (λ y. (record s { send_queue = y }, w)) front,
      )

  -- A send that is to be tried again changes nothing: the message that its begin took from the front of
  -- the queue is there again at its end.
  pub end_send-begin_send :
      (q : Queued) (qs : List Queued) (now : ℕ) (s : Socket) (w : World)
      → s.send_queue ≡ q ∷ qs
      → let (taken, s1) = begin_send d s in
        (taken ≡ some q) × (end_send d Error.retry now q s1 w ≡ (s, w))
  end_send-begin_send q qs now s w e = retry_at q qs s.send_queue now s w e

  polled_at :
      (b : Bool) (outcome : Error) (now : ℕ) (q : Queued) (s : Socket) (w : World)
      → b ≡ true
      → is_retry outcome ≡ false
      → Responds outcome q s w (end_send d outcome now q (record s { polled = b }) w)
  unfolding end_send as_response
  polled_at false outcome now q s w p h = absurd cc
  polled_at true outcome now q s w p h =
      let r = poll_response outcome q in
      let last = law.insert_tail_lem s.write_queue r in
      elim (Bool-cases (is_ok outcome)) [
        | inl k ↦
            rw (h, k) (r, last, refl, refl, refl, refl, refl, refl, refl, refl, refl, refl, refl)
        | inr k ↦ elim (Bool-cases (is_aborted outcome)) [
          | inl a ↦
              rw (h, k, a)
                (r, last, refl, refl, refl, refl, refl, refl, refl, refl, refl, refl, refl)
          | inr a ↦
              rw (h, k, a)
                (r, last, refl, refl, refl, refl, refl, refl, refl, refl, refl, refl, refl)
        ]
      ]

  -- The end of a send of a polled socket, with a result other than er_retry, puts one response behind those
  -- that wait.
  end_send-polled :
      (outcome : Error) (now : ℕ) (q : Queued) (s : Socket) (w : World)
      → s.polled ≡ true
      → is_retry outcome ≡ false
      → Responds outcome q s w (end_send d outcome now q s w)
  end_send-polled outcome now q s w p h = polled_at s.polled outcome now q s w p h

module _ (d : Dlist Queued) (law : IsDlist d) (c : Connection) where
  -- The end of a send of a polled socket, with any result but er_retry, asks for a delivery; and that
  -- delivery, over a connection that takes every message, sends the answers to the polls, the responses that
  -- waited already, and at the end one response more, of type poll, with the correlation id of the message
  -- and the result of its send. No response is left to wait.
  pub deliver_results-end_send :
      (outcome : Error) (now : ℕ) (q : Queued) (s : Socket) (w : World)
      → s.stream ≡ some c
      → s.polled ≡ true
      → w.answers ≡ []
      → is_retry outcome ≡ false
      → let (s1, w1) = end_send d outcome now q s w in
        let (s2, w2) = deliver_results d s1 w1 in
        (r : Queued) × (w1.asked ≡ w.asked ++ (run_deliver ∷ []))
        × (w2.sent
            ≡ w.sent
              ++ (over c (replies s s.recv_queue s.read_queue)
                  ++ over c (s.write_queue ++ (r ∷ []))))
        × (s2.write_queue ≡ [])
        × (r.correlation_id ≡ q.correlation_id)
        × (r.message.is_response ≡ true)
        × (r.message.type ≡ type_poll)
        × (r.message.error_code ≡ code outcome)
  unfolding ask
  deliver_results-end_send outcome now q s w e p a h =
      let (r, write, id, is_response, type, error, sends, recv, read, stream, polled, same, world) =
        end_send-polled d law outcome now q s w p h in
      let (s1, w1) = end_send d outcome now q s w in
      let out =
        deliver_results-polled d law c s1 w1 (stream ∙ e) polled (ap (λ x. x.answers) world ∙ a) in
      let first = replies_same s s1 s1.recv_queue s1.read_queue same ∙ ap₂ (replies s) recv read in
      let log = ap₂ (λ x y. over c x ++ over c y) first write in
      (
        r,
        ap (λ x. x.asked) world,
        out.0 ∙ ap₂ ◌++◌ (ap (λ x. x.sent) world) log,
        out.3,
        id,
        is_response,
        type,
        error,
      )
