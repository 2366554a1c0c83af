-- ===== src/Sched/Kill.antt =====
-- `prx_scheduler_kill`.
use iot_edge_opc_proxy.Base.{
  ℕ, suc, ◌≡◌, ◌≢◌, refl, sym, ap, subst, List, [], ◌∷◌, ◌++◌, Option, none, some, arith, ◌==◌,
  if◌then◌else◌, length, get_elem?, Each, ◌⊎◌, inl, inr, Bool-cases,
}
use iot_edge_opc_proxy.Dlist.{Dlist, IsDlist}
use iot_edge_opc_proxy.Sched.{
  Task, Scheduler, position, remove_by_id, kill, kill_later, give_back, found_any,
}
use iot_edge_opc_proxy.Error.{Error}
use iot_edge_opc_proxy.Sched.Removal.{get_elem?-append, remove-append}

-- The first entry with that pointer, between those before it and those after it.
abbrev pub Taken : ℕ → List Task → List Task → Task → Type 0
Taken id q q' t =
    (before : List Task) × (after : List Task) × (q ≡ before ++ (t ∷ after))
    × (q' ≡ before ++ after)
    × (t.id ≡ id)
    × Each (λ u. u.id ≢ id) before

abbrev pub Absent : ℕ → List Task → Type 0
Absent id q = Each (λ u. u.id ≢ id) q

abbrev At : ℕ → List Task → Option ℕ → Type 0
At id q none = Absent id q
At id q (some i) =
    (before : List Task) × (t : Task) × (after : List Task) × (q ≡ before ++ (t ∷ after))
    × (length before ≡ i)
    × (t.id ≡ id)
    × Absent id before

At-cons :
    (id : ℕ) (t : Task) (ts : List Task) (o : Option ℕ)
    → At id ts o
    → At id (t ∷ ts) (elim o [
      | none ↦ if t.id == id then some 0 else none
      | some i ↦ if t.id == id then some 0 else some (suc i)
    ])
At-cons id t ts none a = elim (Bool-cases (t.id == id)) [
  | inl e ↦ rw e ([], t, ts, refl, refl, ground arith, tt)
  | inr e ↦ rw e (ground arith, a)
]
At-cons id t ts (some i) (b, u, c, e, l, f, a) = elim (Bool-cases (t.id == id)) [
  | inl y ↦ rw y ([], t, ts, refl, refl, ground arith, tt)
  | inr y ↦ rw y (t ∷ b, u, c, ap (◌∷◌ t) e, ap suc l, f, (ground arith, a))
]

position-At : (id : ℕ) (q : List Task) → At id q (position id q)
unfolding position
position-At id [] = tt
position-At id (t ∷ ts) = At-cons id t ts (position id ts) (position-At id ts)

-- What `prx_scheduler_remove_by_id` leaves and returns.
abbrev pub Removes : ℕ → List Task → List Task × Option Task → Type 0
Removes id q (q', none) = (q' ≡ q) × Absent id q
Removes id q (q', some t) = Taken id q q' t

module _ (d : Dlist Task) (law : IsDlist d) where
  Removes-At :
      (id : ℕ) (q : List Task) (o : Option ℕ)
      → At id q o
      → Removes id q (elim o [ none ↦ (q, none) | some i ↦ (d.remove q i, get_elem? q i) ])
  Removes-At id q none a = (refl, a)
  Removes-At id q (some i) (b, t, c, e, l, f, a) =
      subst (λ j. Removes id q (d.remove q j, get_elem? q j)) l
        (subst (λ z. Removes id z (d.remove z (length b), get_elem? z (length b))) (sym e)
          (rw (get_elem?-append b t c) (b, c, refl, remove-append d law b t c, f, a)))

  pub remove_by_id_lem : (id : ℕ) (q : List Task) → Removes id q (remove_by_id d q id)
  unfolding remove_by_id
  remove_by_id_lem id q = Removes-At id q (position id q) (position-At id q)

-- The entry with that pointer, in the first queue that has one, goes back to the pool.
abbrev pub Kills : ℕ → Scheduler → Scheduler × Error → Type 0
Kills id s (s', r) =
    ((t : Task) × Taken id s.now s'.now t
      × (s'.later ≡ s.later)
      × (s'.released ≡ s.released ++ (id ∷ []))
      × (r ≡ Error.ok))
    ⊎ ((t : Task) × Absent id s.now
        × (s'.now ≡ s.now)
        × Taken id s.later s'.later t
        × (s'.released ≡ s.released ++ (id ∷ []))
        × (r ≡ Error.ok))
    ⊎ (Absent id s.now × Absent id s.later × (s' ≡ s) × (r ≡ Error.not_found))

-- The end of `kill`, when the search has been through the second queue, and through the first.
abbrev ends : Scheduler → Option Task → Scheduler × Error
ends s found = (give_back s found, if found_any found then Error.ok else Error.not_found)

module _ (d : Dlist Task) (law : IsDlist d) (s : Scheduler) (id : ℕ) where
  Kills-later :
      (q : List Task)
      → q ≡ s.now
      → Absent id s.now
      → (p : List Task × Option Task) → Removes id s.later p
      → Kills id s (ends (record s { now = q; later = p.0 }) p.1)
  unfolding give_back found_any
  Kills-later q e a (later', none) r = inr (inr (a, r.1, rw (e, r.0) refl, refl))
  Kills-later q e a (later', some t) (b, c, f, g, h, k) =
      inr (inl (t, a, e, (b, c, f, g, h, k), rw h refl, refl))

  Kills-now :
      (p : List Task × Option Task)
      → Removes id s.now p
      → Kills id s (let (s', found) = kill_later d (record s { now = p.0 }) id p.1 in ends s' found)
  unfolding kill_later give_back found_any
  Kills-now (now', none) r =
      Kills-later now' r.0 r.1 (remove_by_id d s.later id) (remove_by_id_lem d law id s.later)
  Kills-now (now', some t) (b, c, f, g, h, k) = inl (t, (b, c, f, g, h, k), refl, rw h refl, refl)

  -- `prx_scheduler_kill`: the first entry with that pointer, in the tasks to run now or else in the
  -- later ones, leaves its queue, whose other entries stay in order, and goes back to the pool once;
  -- if neither queue has it, the call returns er_not_found and changes nothing.
  pub kill_lem : Kills id s (kill d s id)
  unfolding kill
  kill_lem = Kills-now (remove_by_id d s.now id) (remove_by_id_lem d law id s.now)
