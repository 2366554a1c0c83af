-- ===== src/Sched/Next.antt =====
-- `prx_scheduler_get_next` and the rounds of the worker: which task runs, and how long it waits.
use iot_edge_opc_proxy.Base.{
  ℕ, ◌+◌, ◌-◌, ◌≤◌, ◌<◌, ◌^◌, ◌≡◌, refl, ap, Bool, true, false, List, [], ◌∷◌, Option, none, some,
  arith, Each, ◌↔◌, ◌⊎◌, inl, inr, Bool-cases, dec_lt,
}
use iot_edge_opc_proxy.Dlist.{Dlist, IsDlist}
use iot_edge_opc_proxy.Sched.{
  Task, Scheduler, queue, get_next, work, insert_ordered, later_than, ticks_diff, is_nonpos,
  from_now, from_later, after_next, Action, exits, runs, idles,
}
use iot_edge_opc_proxy.Base.Int.{ℤ, pos, negsuc, eqb_ℤ}
use iot_edge_opc_proxy.Sched.Order.{IsSorted, entry_of, positive}

-- The deadline is less than 2 ^ 31 ms away, ahead or behind.
abbrev pub IsNear : ℕ → Task → Type 0
IsNear now t = (t.deadline < now + 2 ^ 31) × (now < t.deadline + 2 ^ 31)

due : (a now : ℕ) → now < 2 ^ 63 → a ≤ now → now < a + 2 ^ 31 → is_nonpos (ticks_diff a now) ≡ true
due a now b h k = ground arith

not_due : (a now : ℕ) → now < 2 ^ 63 → now < a → a < now + 2 ^ 31 → ticks_diff a now ≡ pos (a - now)
not_due a now b h k = ground arith

far :
    (a now : ℕ)
    → now < 2 ^ 63
    → now + 2 ^ 31 ≤ a
    → a < now + 2 ^ 32
    → is_nonpos (ticks_diff a now) ≡ true
far a now b h k = ground arith

positive_wait : (a now : ℕ) → now < a → is_nonpos (pos (a - now)) ≡ false
positive_wait a now h = ground arith

-- What `get_next` gives, by the time `now`: the earliest of the later tasks if it is due; else the
-- head of the tasks to run now; else no task, and the wait until the earliest deadline, or -1.
abbrev pub IsNext : ℕ → Scheduler → Scheduler × Option Task × ℤ → Type 0
IsNext now s (s', some t, idle) =
    ((ts : List Task) × (s.later ≡ t ∷ ts)
      × (t.deadline ≤ now)
      × Each (λ u. t.deadline ≤ u.deadline) ts
      × (s' ≡ record s { later = ts }))
    ⊎ ((ts : List Task) × Each (λ u. now < u.deadline) s.later
        × (s.now ≡ t ∷ ts)
        × (s' ≡ record s { now = ts }))
IsNext now s (s', none, idle) =
    (s' ≡ s)
    × (s.now ≡ [])
    × Each (λ u. now < u.deadline) s.later
    × (((s.later ≡ []) × (idle ≡ negsuc 0))
        ⊎ ((t : Task) × (ts : List Task) × (s.later ≡ t ∷ ts) × (idle ≡ pos (t.deadline - now))))

all_later :
    (n : ℕ) (t : Task) (ts : List Task)
    → n < t.deadline
    → Each (λ u. t.deadline ≤ u.deadline) ts
    → Each (λ u. n < u.deadline) ts
all_later n t [] h e = tt
all_later n t (u ∷ us) h e = (omega (arith, h, e.0), all_later n t us h e.1)

module _ (d : Dlist Task) (law : IsDlist d) where
  remove-head : (t : Task) (ts : List Task) → d.remove (t ∷ ts) 0 ≡ ts
  remove-head t ts = law.remove_lem (t ∷ ts) 0 (omega arith)

  from_now-IsNext :
      (s : Scheduler) (now : ℕ) (idle : ℤ) (q : List Task)
      → s.now ≡ q
      → Each (λ u. now < u.deadline) s.later
      → ((s.later ≡ []) × (idle ≡ negsuc 0))
        ⊎ ((t : Task) × (ts : List Task) × (s.later ≡ t ∷ ts) × (idle ≡ pos (t.deadline - now)))
      → IsNext now s (from_now d s idle q)
  unfolding from_now
  from_now-IsNext s now idle [] e l i = (refl, e, l, i)
  from_now-IsNext s now idle (t ∷ ts) e l i = inr (ts, l, e, rw (remove-head t ts) refl)

  from_later-IsNext :
      (s : Scheduler) (now : ℕ) (q : List Task)
      → s.later ≡ q
      → IsSorted q
      → now < 2 ^ 63
      → Each (IsNear now) q
      → IsNext now s (from_later d s now q)
  unfolding from_later
  from_later-IsNext s now [] e o b n =
      from_now-IsNext s now (negsuc 0) s.now refl (rw e tt) (inl (e, refl))
  from_later-IsNext s now (t ∷ ts) e o b n = elim (dec_lt now t.deadline) [
    | yes h ↦
        rw (not_due t.deadline now b h n.0.0, positive_wait t.deadline now h)
          (from_now-IsNext s now (pos (t.deadline - now)) s.now refl
            (rw e (h, all_later now t ts h o.0)) (inr (t, ts, e, refl)))
    | no h ↦
        rw (due t.deadline now b (omega arith) n.0.1)
          (inl (ts, e, omega arith, o.0, rw (remove-head t ts) refl))
  ]

  -- `prx_scheduler_get_next` at a time below 2 ^ 63, with the later tasks in the order of their
  -- deadlines and every deadline less than 2 ^ 31 ms away: a due task runs first, and of those the one with the earliest deadline;
  -- only when none is due the oldest of the tasks to run now. There is no task only if none is due
  -- and none is to run now; the wait then ends at the earliest deadline, or is -1 without one.
  pub get_next_lem :
      (s : Scheduler) (now : ℕ)
      → IsSorted s.later
      → now < 2 ^ 63
      → Each (IsNear now) s.later
      → IsNext now s (get_next d s now)
  unfolding get_next
  get_next_lem s now o b n = from_later-IsNext s now s.later refl o b n

  -- A delay that the signed difference cannot hold.
  from_later-far :
      (s : Scheduler) (now : ℕ) (t : Task) (ts : List Task)
      → now < 2 ^ 63
      → now + 2 ^ 31 ≤ t.deadline
      → t.deadline < now + 2 ^ 32
      → (from_later d s now (t ∷ ts)).1 ≡ some t
  unfolding from_later
  from_later-far s now t ts b h k = rw (far t.deadline now b h k) refl

  -- A task queued with a delay of 2 ^ 31 ms or more, which the 32 bits of the parameter allow, is
  -- run at once when no other task is waiting for its deadline and the time is below 2 ^ 63.
  pub get_next-queue_far :
      (s : Scheduler) (handler context delay id now : ℕ)
      → 0 < handler
      → now < 2 ^ 63
      → 2 ^ 31 ≤ delay
      → delay < 2 ^ 32
      → s.later ≡ []
      → let (s', r) = queue d s handler context delay (some id) now in
        (get_next d s' now).1 ≡ some (entry_of handler context delay id now)
  unfolding get_next queue insert_ordered later_than
  get_next-queue_far s handler context delay id now p b h k e =
      let t = entry_of handler context delay id now in
      let s' : Scheduler = record s { later = t ∷ [] } in
      rw (positive handler p, positive delay (omega arith), e, law.insert_tail_lem [] t)
        (from_later-far s' now t [] b (omega arith) (omega arith))

-- The worker stops only with nothing to do.
module _ (d : Dlist Task) where
  not_minus_one : (z : ℤ) → is_nonpos z ≡ false → eqb_ℤ z (negsuc 0) ≡ false
  not_minus_one (pos n) h = ground arith
  not_minus_one (negsuc n) h = absurd (ground (arith, h))

  abbrev stops : Action → Bool
  stops (runs t) = false
  stops (idles w) = false
  stops exits = true

  abbrev Idle : Scheduler → ℤ → Type 0
  Idle s idle = (s.should_run ≡ false) × (eqb_ℤ idle (negsuc 0) ≡ true)

  Idle-stops :
      (s : Scheduler) (idle : ℤ) → stops (after_next d (s, none, idle)).1 ≡ true → Idle s idle
  unfolding after_next
  Idle-stops s idle h = elim (Bool-cases s.should_run) [
    | inl e ↦ absurd (ground arith)
    | inr e ↦ elim (Bool-cases (eqb_ℤ idle (negsuc 0))) [
      | inl f ↦ (e, f)
      | inr f ↦ absurd (ground arith)
    ]
  ]

  stops_now :
      (s : Scheduler) (idle : ℤ) (q : List Task)
      → stops (after_next d (from_now d s idle q)).1 ≡ true
      → (q ≡ []) × Idle s idle
  unfolding from_now after_next
  stops_now s idle [] h = (refl, Idle-stops s idle h)
  stops_now s idle (t ∷ ts) h = absurd (ground (arith, h))

  stops_later :
      (s : Scheduler) (now : ℕ) (q : List Task)
      → stops (after_next d (from_later d s now q)).1 ≡ true
      → (s.now ≡ []) × (q ≡ []) × (s.should_run ≡ false)
  unfolding from_later after_next
  stops_later s now [] h = let r = stops_now s (negsuc 0) s.now h in (r.0, refl, r.1.0)
  stops_later s now (t ∷ ts) h = elim (Bool-cases (is_nonpos (ticks_diff t.deadline now))) [
    | inl e ↦ absurd (ground (arith, h, e))
    | inr e ↦
        let f = not_minus_one (ticks_diff t.deadline now) e in
        let r = stops_now s (ticks_diff t.deadline now) s.now (rw e at h) in
        absurd (ground (arith, f, r.1.1))
  ]

  -- The worker of the scheduler stops, whatever the time is, exactly when it should not run any more
  -- and both queues are empty.
  pub work_stops :
      (s : Scheduler) (now : ℕ)
      → ((work d s now).1 ≡ exits) ↔ ((s.should_run ≡ false) × (s.now ≡ []) × (s.later ≡ []))
  unfolding work get_next from_later from_now after_next
  work_stops s now = (
    (λ h. let r = stops_later s now s.later (ap stops h) in (r.2, r.0, r.1)),
    (λ (a, b, c). rw (c, b, a) refl),
  )
