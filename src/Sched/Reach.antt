-- ===== src/Sched/Reach.antt =====
-- Every state of the scheduler that its calls, in any order, lead to.
use iot_edge_opc_proxy.Base.{
  ℕ, ◌≤◌, ◌==◌, ◌≡◌, refl, sym, subst, ◌∙◌, not, ◌&&◌, Bool, List, [], ◌∷◌, ◌++◌, Option, none,
  some, arith, Each, inl, inr, Bool-cases,
}
use iot_edge_opc_proxy.Base.Int.{ℤ, negsuc, eqb_ℤ}
use iot_edge_opc_proxy.Dlist.{Dlist, IsDlist}
use iot_edge_opc_proxy.Sched.{
  Task, Scheduler, queue, kill, clear, release, finish, give_back, work, get_next, from_now,
  from_later, after_next, ticks_diff, is_nonpos, matches,
}
use iot_edge_opc_proxy.Sched.Order.{IsSorted, Inserted-IsSorted, insert_ordered-Inserted, entry_of}
use iot_edge_opc_proxy.Sched.Removal.{kept, clear_lem}
use iot_edge_opc_proxy.Sched.Kill.{kill_lem, Taken}

-- A call, with what the task pool and the clock give it.
pub data Call : Type 0 where
  queues : (handler context delay : ℕ) → Option ℕ → ℕ → Call
  kills : ℕ → Call
  clears : (handler context : ℕ) → Call
  works : ℕ → Call
  finishes : Task → Call
  releases : ℕ → Call

module _ (d : Dlist Task) where
  unfoldable pub step : Scheduler → Call → Scheduler
  step s (queues handler context delay alloc now) = (queue d s handler context delay alloc now).0
  step s (kills id) = (kill d s id).0
  step s (clears handler context) = clear d s handler context
  step s (works now) = (work d s now).0
  step s (finishes t) = finish s t
  step s (releases context) = release d s context

  unfoldable pub steps : Scheduler → List Call → Scheduler
  unfolding step
  steps s [] = s
  steps s (c ∷ cs) = steps (step s c) cs

Each-kept :
    (n : ℕ) (p : Task → Bool) (q : List Task)
    → Each (λ u. n ≤ u.deadline) q
    → Each (λ u. n ≤ u.deadline) (kept p q)
unfolding kept
Each-kept n p [] e = tt
Each-kept n p (t ∷ ts) e = elim (Bool-cases (p t)) [
  | inl h ↦ rw h (Each-kept n p ts e.1)
  | inr h ↦ rw h (e.0, Each-kept n p ts e.1)
]

kept-IsSorted : (p : Task → Bool) (q : List Task) → IsSorted q → IsSorted (kept p q)
unfolding kept
kept-IsSorted p [] s = tt
kept-IsSorted p (t ∷ ts) s = elim (Bool-cases (p t)) [
  | inl h ↦ rw h (kept-IsSorted p ts s.1)
  | inr h ↦ rw h (Each-kept t.deadline p ts s.0, kept-IsSorted p ts s.1)
]

Each-without :
    (n : ℕ) (before : List Task) (t : Task) (after : List Task)
    → Each (λ u. n ≤ u.deadline) (before ++ (t ∷ after))
    → Each (λ u. n ≤ u.deadline) (before ++ after)
Each-without n [] t after e = e.1
Each-without n (u ∷ us) t after e = (e.0, Each-without n us t after e.1)

without-IsSorted :
    (before : List Task) (t : Task) (after : List Task)
    → IsSorted (before ++ (t ∷ after))
    → IsSorted (before ++ after)
without-IsSorted [] t after s = s.1
without-IsSorted (u ∷ us) t after s =
    (Each-without u.deadline us t after s.0, without-IsSorted us t after s.1)

Taken-IsSorted : {id : ℕ} {q q' : List Task} {t : Task} → Taken id q q' t → IsSorted q → IsSorted q'
Taken-IsSorted {t = t} (before, after, e, e', f, a) s =
    subst IsSorted (sym e') (without-IsSorted before t after (subst IsSorted e s))

module _ (d : Dlist Task) (law : IsDlist d) where
  queue-IsSorted :
      (s : Scheduler) (h c delay : ℕ) (alloc : Option ℕ) (now : ℕ)
      → IsSorted s.later
      → IsSorted (queue d s h c delay alloc now).0.later
  unfolding queue
  queue-IsSorted s h c delay none now o = o
  queue-IsSorted s h c delay (some id) now o = elim (Bool-cases (h == 0)) [
    | inl e ↦ rw e o
    | inr e ↦ elim (Bool-cases (delay == 0)) [
      | inl f ↦ rw (e, f) o
      | inr f ↦
          rw (e, f)
            (Inserted-IsSorted (insert_ordered-Inserted d law s.later (entry_of h c delay id now) o)
              o)
    ]
  ]

  kill-IsSorted : (s : Scheduler) (id : ℕ) → IsSorted s.later → IsSorted (kill d s id).0.later
  kill-IsSorted s id o = elim (kill_lem d law s id) [
    | inl (t, k, e, r, f) ↦ subst IsSorted (sym e) o
    | inr (inl (t, a, e, k, r, f)) ↦ Taken-IsSorted k o
    | inr (inr (a, b, e, f)) ↦ subst (λ x. IsSorted x.later) (sym e) o
  ]

  clear-IsSorted : (s : Scheduler) (h c : ℕ) → IsSorted s.later → IsSorted (clear d s h c).later
  clear-IsSorted s h c o = rw (clear_lem d law s h c) (kept-IsSorted (matches h c) s.later o)

  from_now-later :
      (s : Scheduler) (idle : ℤ) (q : List Task) → (from_now d s idle q).0.later ≡ s.later
  unfolding from_now
  from_now-later s idle [] = refl
  from_now-later s idle (t ∷ ts) = refl

  from_later-IsSorted :
      (s : Scheduler) (now : ℕ) (q : List Task)
      → s.later ≡ q
      → IsSorted q
      → IsSorted (from_later d s now q).0.later
  unfolding from_later
  from_later-IsSorted s now [] e o = subst IsSorted (sym (from_now-later s (negsuc 0) s.now ∙ e)) tt
  from_later-IsSorted s now (t ∷ ts) e o =
      elim (Bool-cases (is_nonpos (ticks_diff t.deadline now))) [
        | inl f ↦ rw (f, law.remove_lem (t ∷ ts) 0 (omega arith)) o.1
        | inr f ↦
            rw f (subst IsSorted (sym (from_now-later s (ticks_diff t.deadline now) s.now ∙ e)) o)
      ]

  after_next-later : (p : Scheduler × Option Task × ℤ) → (after_next d p).0.later ≡ p.0.later
  unfolding after_next
  after_next-later (s, some t, idle) = refl
  after_next-later (s, none, idle) = elim (Bool-cases (not s.should_run && eqb_ℤ idle (negsuc 0))) [
    | inl e ↦ rw e refl
    | inr e ↦ rw e refl
  ]

  work-IsSorted : (s : Scheduler) (now : ℕ) → IsSorted s.later → IsSorted (work d s now).0.later
  unfolding work get_next
  work-IsSorted s now o =
      subst IsSorted (sym (after_next-later (from_later d s now s.later)))
        (from_later-IsSorted s now s.later refl o)

  step-IsSorted : (s : Scheduler) (c : Call) → IsSorted s.later → IsSorted (step d s c).later
  unfolding step finish give_back release
  step-IsSorted s (queues handler context delay alloc now) o =
      queue-IsSorted s handler context delay alloc now o
  step-IsSorted s (kills id) o = kill-IsSorted s id o
  step-IsSorted s (clears handler context) o = clear-IsSorted s handler context o
  step-IsSorted s (works now) o = work-IsSorted s now o
  step-IsSorted s (finishes t) o = o
  step-IsSorted s (releases context) o = elim (Bool-cases (context == 0)) [
    | inl e ↦ rw e o
    | inr e ↦ rw e (clear-IsSorted s 0 context o)
  ]

  -- Whatever calls of the scheduler and rounds of its worker follow each other, in whatever order:
  -- later tasks that are in the order of their deadlines at first stay so.
  pub steps-IsSorted :
      (s : Scheduler) (calls : List Call) → IsSorted s.later → IsSorted (steps d s calls).later
  unfolding steps
  steps-IsSorted s [] o = o
  steps-IsSorted s (c ∷ cs) o = steps-IsSorted (step d s c) cs (step-IsSorted s c o)
