-- ===== src/Queue/Rollback.antt =====
-- The buffers that a client has taken into progress, and their return to the ready ones.
use iot_edge_opc_proxy.Base.{
  ℕ, zero, suc, ◌≡◌, ◌≢◌, refl, sym, ap, ◌∙◌, arith, true, false, List, [], ◌∷◌, ◌++◌, append_assoc,
  Option, none, some, ◌==◌, if◌then◌else◌,
}
use iot_edge_opc_proxy.Dlist.{Dlist, IsDlist}
use iot_edge_opc_proxy.Queue.{
  Buffer, Queue, in_ready, in_progress, list_of, with_list, position, take_out, without, unlink,
  state_push, set_state, pop_list, pop, rollback,
}

-- No buffer of a list is at that pointer.
abbrev pub Absent : ℕ → List Buffer → Type 0
Absent id [] = Unit {0}
Absent id (b ∷ bs) = (b.id ≢ id) × Absent id bs

-- The buffers of a list belong to a queue, and are in no other place of it.
abbrev pub Apart : List Buffer → List Buffer → List Buffer → Type 0
Apart [] inprogress done = Unit {0}
Apart (b ∷ bs) inprogress done =
    ((b.attached ≡ true) × Absent b.id bs × Absent b.id inprogress × Absent b.id done)
    × Apart bs inprogress done

Absent-append :
    (id : ℕ) (l : List Buffer) (b : Buffer) → Absent id l → b.id ≢ id → Absent id (l ++ (b ∷ []))
Absent-append id [] b h k = (k, tt)
Absent-append id (x ∷ xs) b h k = (h.0, Absent-append id xs b h.1 k)

Apart-append :
    (l inprogress done : List Buffer) (b : Buffer)
    → Apart l inprogress done
    → Absent b.id l
    → Apart l (inprogress ++ (b ∷ [])) done
Apart-append [] inprogress done b h k = tt
Apart-append (x ∷ xs) inprogress done b h k = (
  (h.0.0, h.0.1, Absent-append x.id inprogress b h.0.2 (λ e. k.0 (sym e)), h.0.3),
  Apart-append xs inprogress done b h.1 k.1,
)

position-Absent : (id : ℕ) (l : List Buffer) → Absent id l → position id l ≡ none
unfolding position
position-Absent id [] h = refl
position-Absent id (b ∷ bs) h =
    let other : (b.id == id) ≡ false = ground (arith, h.0) in
    rw (other, position-Absent id bs h.1) refl

module _ (d : Dlist Buffer) where
  -- What a client does that starts on the next buffer: `io_queue_pop_ready`, and then
  -- `io_queue_buffer_set_inprogress`.
  abbrev start_on : Option Buffer × Queue → Queue
  start_on (none, q) = q
  start_on (some b, q) = set_state d q in_progress b

  abbrev pub start : ℕ → Queue → Queue
  start zero q = q
  start (suc n) q = start n (start_on (pop d q in_ready))

module _ (d : Dlist Buffer) (law : IsDlist d) where
  without-Absent : (id : ℕ) (l : List Buffer) → Absent id l → without d id l ≡ l
  unfolding without
  without-Absent id l h = rw (position-Absent id l h, take_out) refl

  state_push-Absent :
      (b : Buffer) (bs inprogress done : List Buffer)
      → Absent b.id bs
      → Absent b.id inprogress
      → Absent b.id done
      → state_push d (record { ready = bs; inprogress = inprogress; done = done }) in_progress b
        ≡ record { ready = bs; inprogress = inprogress ++ (b ∷ []); done = done }
  unfolding state_push unlink list_of with_list
  state_push-Absent b bs inprogress done h k l =
      rw
        (
          without-Absent b.id bs h,
          without-Absent b.id inprogress k,
          without-Absent b.id done l,
          law.insert_tail_lem inprogress b,
        )
        refl

  set_state-Absent :
      (b : Buffer) (bs inprogress done : List Buffer)
      → (b.attached ≡ true) × Absent b.id bs × Absent b.id inprogress × Absent b.id done
      → set_state d (record { ready = bs; inprogress = inprogress; done = done }) in_progress b
        ≡ record { ready = bs; inprogress = inprogress ++ (b ∷ []); done = done }
  unfolding set_state
  set_state-Absent b bs inprogress done h =
      let q : Queue = record { ready = bs; inprogress = inprogress; done = done } in
      ap (λ a. if a then state_push d q in_progress b else q) h.0
      ∙ state_push-Absent b bs inprogress done h.1 h.2 h.3

  start_on-pop :
      (b : Buffer) (bs inprogress done : List Buffer)
      → Apart (b ∷ bs) inprogress done
      → start_on d
          (pop d (record { ready = b ∷ bs; inprogress = inprogress; done = done }) in_ready)
        ≡ record { ready = bs; inprogress = inprogress ++ (b ∷ []); done = done }
  unfolding pop pop_list list_of with_list
  start_on-pop b bs inprogress done h =
      ap
        (λ l.
          set_state d (record { ready = l; inprogress = inprogress; done = done }) in_progress b)
        (law.remove_lem (b ∷ bs) 0 (omega arith))
      ∙ set_state-Absent b bs inprogress done h.0

  rolled :
      (n : ℕ) (ready inprogress done : List Buffer)
      → Apart ready inprogress done
      → rollback d (start d n (record { ready = ready; inprogress = inprogress; done = done }))
        ≡ record { ready = inprogress ++ ready; inprogress = []; done = done }
  unfolding rollback pop pop_list list_of
  rolled zero ready inprogress done h = rw (law.put_in_front_lem ready inprogress) refl
  rolled (suc n) [] inprogress done h = rolled n [] inprogress done tt
  rolled (suc n) (b ∷ bs) inprogress done h =
      ap (λ q. rollback d (start d n q)) (start_on-pop b bs inprogress done h)
      ∙ (rolled n bs (inprogress ++ (b ∷ [])) done (Apart-append bs inprogress done b h.1 h.0.1)
          ∙ ap (λ l. record { ready = l; inprogress = []; done = done })
              (append_assoc inprogress (b ∷ []) bs))

  -- However many of its ready buffers, attached and each in one place, a client has taken into progress
  -- one after the other, and from whatever was in progress before, a rollback leaves the buffers that
  -- were in progress first, then all those that were ready in the order that they had, none in progress,
  -- and the buffers that are done as they were.
  pub rollback-start :
      (n : ℕ) (q : Queue)
      → Apart q.ready q.inprogress q.done
      → rollback d (start d n q)
        ≡ record { ready = q.inprogress ++ q.ready; inprogress = []; done = q.done }
  rollback-start n q h = rolled n q.ready q.inprogress q.done h
