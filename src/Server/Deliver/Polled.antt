-- ===== src/Server/Deliver/Polled.antt =====
-- How a delivery uses the polls of a socket that is polled.
use iot_edge_opc_proxy.Base.{
  ℕ, zero, suc, ◌≤◌, ◌≡◌, refl, sym, ap, subst, ◌∙◌, arith, true, List, [], ◌∷◌, ◌++◌, map,
  append-nil, append_assoc, Option, some, length, drop,
}
use iot_edge_opc_proxy.Error.{Error}
use iot_edge_opc_proxy.Dlist.{Dlist, IsDlist}
use iot_edge_opc_proxy.Server.{Socket, Queued, World, Sent, Connection, send}
use iot_edge_opc_proxy.Server.Deliver.{
  stamp, pick_poll, without_poll, with_id, deliver_recv, deliver_write, deliver_results,
}
use iot_edge_opc_proxy.Server.Deliver.Conserved.{removed, send_ok, recv-Progress}

-- Messages that were sent with success.
abbrev pub over : Connection → List Queued → List Sent
over c l = map (λ q. record { connection = c; queued = q; result = Error.ok }) l

-- The received messages as answers to polls, as long as there are some of both: each with the correlation id
-- of its poll, from the socket to its stream.
abbrev pub replies : Socket → List Queued → List Queued → List Queued
replies s [] polls = []
replies s (q ∷ qs) [] = []
replies s (q ∷ qs) (p ∷ ps) =
    record q {
      correlation_id = p.correlation_id;
      message = record q.message {
        proxy_id = s.server_id;
        target_id = s.stream_id;
        source_id = s.id;
      };
    }
    ∷ replies s qs ps

drop_nil : (n : ℕ) → drop {A = Queued} n [] ≡ []
drop_nil zero = refl
drop_nil (suc n) = refl

one_more :
    (c : Connection) (stream : Option Connection) (q : Queued) (w : World)
    → stream ≡ some c
    → w.answers ≡ []
    → (send stream q w).1.sent ≡ w.sent ++ over c (q ∷ [])
unfolding send
one_more c stream q w e a = rw (e, a) refl

-- One message more, in front of the others.
sends_more :
    (c : Connection) (stream : Option Connection) (q : Queued) (l : List Queued) (w : World)
    (sent : List Sent)
    → stream ≡ some c
    → w.answers ≡ []
    → sent ≡ (send stream q w).1.sent ++ over c l
    → sent ≡ w.sent ++ over c (q ∷ l)
sends_more c stream q l w sent e a h =
    h
    ∙ (ap (λ x. x ++ over c l) (one_more c stream q w e a)
        ∙ append_assoc w.sent (over c (q ∷ [])) (over c l))

-- What a delivery of so many received messages comes to.
record Answered (c : Connection) (l polls : List Queued) (s : Socket) (w : World)
    (out : Socket × World) : Type 0 where
  pub sent : out.1.sent ≡ w.sent ++ over c (replies s l polls)
  pub left : out.0.recv_queue ≡ drop (length polls) l
  pub polls_left : out.0.read_queue ≡ drop (length l) polls
  pub stream : out.0.stream ≡ some c
  pub takes : out.1.answers ≡ []

nothing :
    (c : Connection) (polls : List Queued) (s : Socket) (w : World)
    → s.stream ≡ some c
    → w.answers ≡ []
    → Answered c [] polls s w (record s { polled = true; recv_queue = []; read_queue = polls }, w)
nothing c polls s w e a = record {
  sent = sym (append-nil w.sent);
  left = sym (drop_nil (length polls));
  polls_left = refl;
  stream = e;
  takes = a;
}

module _ (d : Dlist Queued) (law : IsDlist d) (c : Connection) where
  recv-Answered :
      (k : ℕ) (l polls : List Queued) (s : Socket) (w : World)
      → length l ≤ k
      → s.stream ≡ some c
      → w.answers ≡ []
      → let s1 : Socket = record s { polled = true; recv_queue = l; read_queue = polls } in
        Answered c l polls s w (deliver_recv d k s1 w)
  unfolding deliver_recv pick_poll without_poll with_id stamp
  recv-Answered zero [] polls s w h e a = nothing c polls s w e a
  recv-Answered zero (q ∷ qs) polls s w h e a = absurd (omega arith)
  recv-Answered (suc k) [] polls s w h e a = nothing c polls s w e a
  recv-Answered (suc k) (q ∷ qs) [] s w h e a = record {
    sent = sym (append-nil w.sent);
    left = refl;
    polls_left = refl;
    stream = e;
    takes = a;
  }
  recv-Answered (suc k) (q ∷ qs) (p ∷ ps) s w h e a =
      let q' = stamp s (record q { correlation_id = p.correlation_id }) in
      let w' = (send s.stream q' w).1 in
      let sends = send_ok c s.stream q' w e a in
      let others = recv-Answered k qs ps s w' (omega (arith, h)) e sends.1 in
      rw (sends.0, removed d law q qs, removed d law p ps)
        (record {
          sent = sends_more c s.stream q' (replies s qs ps) w _ e a others.sent;
          left = others.left;
          polls_left = others.polls_left;
          stream = others.stream;
          takes = others.takes;
        })

  -- All the responses that waited are sent, and nothing else of the queues changes.
  write_out :
      (k : ℕ) (l : List Queued) (s : Socket) (w : World)
      → length l ≤ k
      → s.stream ≡ some c
      → w.answers ≡ []
      → let (s', w') = deliver_write d k (record s { write_queue = l }) w in
        (w'.sent ≡ w.sent ++ over c l)
        × (s'.write_queue ≡ [])
        × (s'.recv_queue ≡ s.recv_queue)
        × (s'.read_queue ≡ s.read_queue)
  unfolding deliver_write
  write_out zero [] s w h e a = (sym (append-nil w.sent), refl, refl, refl)
  write_out zero (q ∷ qs) s w h e a = absurd (omega arith)
  write_out (suc k) [] s w h e a = (sym (append-nil w.sent), refl, refl, refl)
  write_out (suc k) (q ∷ qs) s w h e a =
      let sends = send_ok c s.stream q w e a in
      let others = write_out k qs s (send s.stream q w).1 (omega (arith, h)) e sends.1 in
      rw (sends.0, removed d law q qs)
        (sends_more c s.stream q qs w _ e a others.0, others.1, others.2, others.3)

module _ (d : Dlist Queued) (law : IsDlist d) (c : Connection) where
  -- A delivery of a polled socket, over a connection that takes every message, sends this and no more: for
  -- each poll one received message, the first for the first and so on, as long as there are some of both,
  -- each as it was received but with the correlation id of its poll and with the socket and its stream as
  -- its addresses; and then all the responses that waited, in their order. What was sent before stays.
  -- The polls and the messages that have no partner are left, and no response is.
  pub deliver_results-polled :
      (s : Socket) (w : World)
      → s.stream ≡ some c
      → s.polled ≡ true
      → w.answers ≡ []
      → let (s', w') = deliver_results d s w in
        (w'.sent ≡ w.sent ++ (over c (replies s s.recv_queue s.read_queue) ++ over c s.write_queue))
        × (s'.recv_queue ≡ drop (length s.read_queue) s.recv_queue)
        × (s'.read_queue ≡ drop (length s.recv_queue) s.read_queue)
        × (s'.write_queue ≡ [])
  unfolding deliver_results
  deliver_results-polled s w e p a =
      let n = length s.recv_queue in
      let x = recv-Answered d law c n s.recv_queue s.read_queue s w (omega arith) e a in
      let first : Answered c s.recv_queue s.read_queue s w (deliver_recv d n s w) =
        subst
          (λ b.
            Answered c s.recv_queue s.read_queue s w (deliver_recv d n (record s { polled = b }) w))
          (sym p) x in
      let (s1, w1) = deliver_recv d n s w in
      let same = (recv-Progress d law n s.recv_queue s.read_queue s w).1 in
      let second =
        write_out d law c (length s1.write_queue) s1.write_queue s1 w1 (omega arith) first.stream
          first.takes in
      let answers = over c (replies s s.recv_queue s.read_queue) in
      (
        second.0
            ∙ (ap (λ y. y ++ over c s1.write_queue) first.sent
                ∙ (append_assoc w.sent answers (over c s1.write_queue)
                    ∙ ap (λ y. w.sent ++ (answers ++ over c y)) same)),
        second.2 ∙ first.left,
        second.3 ∙ first.polls_left,
        second.1,
      )
