-- ===== src/Sched/Order.antt =====
-- `prx_scheduler_queue`: where it puts an entry that has a delay.
use iot_edge_opc_proxy.Base.{
  ℕ, suc, ◌+◌, ◌≤◌, ◌<◌, ◌≡◌, refl, sym, false, List, [], ◌∷◌, ◌++◌, append-nil, take-append-drop,
  subst, ltb→lt, Option, none, some, arith, ltb, ◌==◌, if◌then◌else◌, length, take, drop, Each, ◌⊎◌,
  inl, inr, Bool-cases,
}
use iot_edge_opc_proxy.Dlist.{Dlist, IsDlist}
use iot_edge_opc_proxy.Sched.{Task, Scheduler, later_than, queue, insert_ordered, entry}

-- The deadlines do not decrease.
abbrev pub IsSorted : List Task → Type 0
IsSorted [] = Unit {0}
IsSorted (t ∷ ts) = Each (λ u. t.deadline ≤ u.deadline) ts × IsSorted ts

-- `later'` is `later` with `t` behind every entry that is due no later, and before the others.
abbrev pub Inserted : Task → List Task → List Task → Type 0
Inserted t later later' =
    (before : List Task) × (after : List Task) × (later ≡ before ++ after)
    × (later' ≡ before ++ (t ∷ after))
    × Each (λ u. u.deadline ≤ t.deadline) before
    × Each (λ u. t.deadline < u.deadline) after

-- In a sorted queue, what follows an entry that is due later is due later.
above :
    (n : ℕ) (t : Task) (ts : List Task)
    → n < t.deadline
    → Each (λ u. t.deadline ≤ u.deadline) ts
    → Each (λ u. n < u.deadline) ts
above n t [] h e = tt
above n t (u ∷ us) h e = (omega (arith, h, e.0), above n t us h e.1)

-- The loop finds the place, or there is no later deadline.
abbrev Found : ℕ → List Task → Option ℕ → Type 0
Found n q none = Each (λ u. u.deadline ≤ n) q
Found n q (some i) =
    (i < length q) × Each (λ u. u.deadline ≤ n) (take i q) × Each (λ u. n < u.deadline) (drop i q)

Found-cons :
    (n : ℕ) (t : Task) (ts : List Task) (o : Option ℕ)
    → IsSorted (t ∷ ts)
    → Found n ts o
    → Found n (t ∷ ts) (elim o [
      | none ↦ if ltb n t.deadline then some 0 else none
      | some i ↦ if ltb n t.deadline then some 0 else some (suc i)
    ])
Found-cons n t ts none s f = elim (Bool-cases (ltb n t.deadline)) [
  | inl e ↦
      rw e (omega arith, tt, (ltb→lt n t.deadline e, above n t ts (ltb→lt n t.deadline e) s.0))
  | inr e ↦ rw e (ground arith, f)
]
Found-cons n t ts (some i) s f = elim (Bool-cases (ltb n t.deadline)) [
  | inl e ↦
      rw e (omega arith, tt, (ltb→lt n t.deadline e, above n t ts (ltb→lt n t.deadline e) s.0))
  | inr e ↦ rw e (omega (arith, f.0), (ground arith, f.1), f.2)
]

later_than-Found : (n : ℕ) (q : List Task) → IsSorted q → Found n q (later_than n q)
unfolding later_than
later_than-Found n [] s = tt
later_than-Found n (t ∷ ts) s = Found-cons n t ts (later_than n ts) s (later_than-Found n ts s.1)

-- A list cut where the loop stopped, or after its end.
module _ (d : Dlist Task) (law : IsDlist d) where
  Found-Inserted :
      (q : List Task) (t : Task) (o : Option ℕ)
      → Found t.deadline q o
      → Inserted t q (elim o [ none ↦ d.insert_tail q t | some i ↦ d.insert_before q i t ])
  Found-Inserted q t none f = (q, [], sym (append-nil q), law.insert_tail_lem q t, f, tt)
  Found-Inserted q t (some i) f =
      (take i q, drop i q, sym (take-append-drop i q), law.insert_before_lem q i t f.0, f.1, f.2)

  pub insert_ordered-Inserted :
      (q : List Task) (t : Task) → IsSorted q → Inserted t q (insert_ordered d q t)
  unfolding insert_ordered
  insert_ordered-Inserted q t s =
      Found-Inserted q t (later_than t.deadline q) (later_than-Found t.deadline q s)

-- An entry between those that are due no later and those that are due later.
Each-append :
    (P : Task → Type 0) (before after : List Task)
    → Each P before
    → Each P after
    → Each P (before ++ after)
Each-append P [] after b a = a
Each-append P (t ∷ ts) after b a = (b.0, Each-append P ts after b.1 a)

Each-split :
    (P : Task → Type 0) (before after : List Task)
    → Each P (before ++ after)
    → Each P before × Each P after
Each-split P [] after e = (tt, e)
Each-split P (t ∷ ts) after e = let (b, a) = Each-split P ts after e.1 in ((e.0, b), a)

Each-weaken : (n : ℕ) (q : List Task) → Each (λ u. n < u.deadline) q → Each (λ u. n ≤ u.deadline) q
Each-weaken n [] e = tt
Each-weaken n (t ∷ ts) e = (omega (arith, e.0), Each-weaken n ts e.1)

between :
    (t : Task) (before after : List Task)
    → Each (λ u. u.deadline ≤ t.deadline) before
    → Each (λ u. t.deadline < u.deadline) after
    → IsSorted (before ++ after)
    → IsSorted (before ++ (t ∷ after))
between t [] after b a s = (Each-weaken t.deadline after a, s)
between t (u ∷ us) after b a s =
    let (p, q) = Each-split (λ v. u.deadline ≤ v.deadline) us after s.0 in
    (
      Each-append (λ v. u.deadline ≤ v.deadline) us (t ∷ after) p (b.0, q),
      between t us after b.1 a s.1,
    )

pub Inserted-IsSorted : {t : Task} {q q' : List Task} → Inserted t q q' → IsSorted q → IsSorted q'
Inserted-IsSorted {t} (before, after, e, e', b, a) s =
    subst IsSorted (sym e') (between t before after b a (subst IsSorted e s))

-- The entry of a task that is queued at the time `now`.
abbrev pub entry_of : (handler context delay id now : ℕ) → Task
entry_of handler context delay id now = record {
  id = id;
  queued = now;
  deadline = now + delay;
  handler = handler;
  context = context;
}

pub positive : (n : ℕ) → 0 < n → (n == 0) ≡ false
positive n h = ground arith

-- It is the last of the tasks to run now, or has its place among the later ones.
abbrev pub IsQueued : ℕ → Task → Scheduler → Scheduler → Type 0
IsQueued delay t s s' =
    ((delay ≡ 0) × (s'.now ≡ s.now ++ (t ∷ [])) × (s'.later ≡ s.later))
    ⊎ ((0 < delay) × (s'.now ≡ s.now) × Inserted t s.later s'.later)

module _ (d : Dlist Task) (law : IsDlist d) where
  -- `prx_scheduler_queue` of a handler, with an entry from the pool and the later tasks in the order
  -- of their deadlines: it returns the entry and releases nothing. With no delay the entry is the
  -- last of the tasks to run now. With a delay it goes behind every later task that is due no later
  -- and before the others, so equal deadlines stay in the order of the calls. Either way the later
  -- tasks stay in order.
  pub queue_lem :
      (s : Scheduler) (handler context delay id now : ℕ)
      → 0 < handler
      → IsSorted s.later
      → let (s', r) = queue d s handler context delay (some id) now in
        (r ≡ entry id)
        × (s'.released ≡ s.released)
        × IsQueued delay (entry_of handler context delay id now) s s'
        × IsSorted s'.later
  unfolding queue
  queue_lem s handler context delay id now h sorted =
      let t = entry_of handler context delay id now in
      elim (Bool-cases (delay == 0)) [
        | inl e ↦
            rw (positive handler h, e)
              (refl, refl, inl (ground arith, law.insert_tail_lem s.now t, refl), sorted)
        | inr e ↦
            let i = insert_ordered-Inserted d law s.later t sorted in
            rw (positive handler h, e)
              (refl, refl, inr (ground arith, refl, i), Inserted-IsSorted i sorted)
      ]
