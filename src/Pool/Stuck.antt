-- ===== src/Pool/Stuck.antt =====
-- A pool whose upper watermark is its maximum.
use iot_edge_opc_proxy.Base.{
  ℕ, ◌+◌, ◌-◌, ◌≤◌, ◌<◌, ◌≡◌, refl, sym, ap, subst, Bool, true, false, List, [], ◌∷◌, Option, none,
  some, arith, ltb, ◌==◌, if◌then◌else◌, ◌⊎◌, inl, inr, Bool-cases, Each,
}
use iot_edge_opc_proxy.Dlist.{Dlist, IsDlist}
use iot_edge_opc_proxy.Pool.{
  Buffer, Config, Pool, Kind, dynamic, fixed, check_out, alloc_free, add_ref, alloc_buffer,
  give_back, drop_ref, free_buffer, find_buffer, set_size, resize,
}
use iot_edge_opc_proxy.Pool.Valid.{IsValid}
use iot_edge_opc_proxy.Pool.Run.{At, find_buffer-At}
use iot_edge_opc_proxy.Pool.Signal.{
  Call, allocs, frees, sizes, step, signals, heard, Alternates, signals-Alternates,
  grow_if_empty-Same, step-IsValid,
}

-- What a call may say of such a pool.
abbrev IsLow : Option Bool → Type 0
IsLow none = Unit {0}
IsLow (some b) = b ≡ true

IsLow-if : (b : Bool) → IsLow (if b then some true else none)
IsLow-if true = refl
IsLow-if false = tt

module _ (d : Dlist Buffer) (law : IsDlist d) (header : ℕ) (kind : Kind) where
  -- The numbers of the configuration never change.
  alloc_free-config :
      (p : Pool) (mem : List ℕ) (q : List Buffer)
      → (alloc_free d header kind p mem q).0.config ≡ p.config
  unfolding alloc_free check_out
  alloc_free-config p mem [] = refl
  alloc_free-config p mem (out ∷ rest) =
      (grow_if_empty-Same d law header kind
        (record p { free_list = d.remove (out ∷ rest) 0; free_count = p.free_count - 1 }) mem).1

  drop_ref-config :
      (p : Pool) (o : Option (ℕ × Buffer)) → (drop_ref d header p o).0.config ≡ p.config
  unfolding drop_ref give_back
  drop_ref-config p none = refl
  drop_ref-config p (some (i, b)) = elim (Bool-cases (b.refs - 1 == 0)) [
    | inl e ↦ rw e refl
    | inr e ↦ rw e refl
  ]

  add_ref-config :
      (p : Pool) (id : ℕ) (o : Option (ℕ × Buffer)) → (add_ref d header p id o).config ≡ p.config
  unfolding add_ref
  add_ref-config p id none = refl
  add_ref-config p id (some b) = refl

  resize-config :
      (p : Pool) (size : ℕ) (moved : Option ℕ) (o : Option (ℕ × Buffer))
      → (resize d header p size moved o).0.config ≡ p.config
  unfolding resize
  resize-config p size moved none = refl
  resize-config p size none (some b) = refl
  resize-config p size (some id) (some b) = refl

  set_size-config :
      (k : Kind) (p : Pool) (id size : ℕ) (moved : Option ℕ)
      → (set_size d header k p id size moved).0.config ≡ p.config
  unfolding set_size
  set_size-config dynamic p id size moved =
      resize-config p size moved (find_buffer id p.checked_out)
  set_size-config fixed p id size moved = refl

  step-config : (p : Pool) (c : Call) → (step d header kind p c).0.config ≡ p.config
  unfolding step alloc_buffer free_buffer
  step-config p (allocs none mem) = alloc_free-config p mem p.free_list
  step-config p (allocs (some id) mem) = add_ref-config p id (find_buffer id p.checked_out)
  step-config p (frees id) = drop_ref-config p (find_buffer id p.checked_out)
  step-config p (sizes id size moved) = set_size-config kind p id size moved

  -- The upper watermark is not below the maximum, which `prx_buffer_pool_init` makes of any that is
  -- above it.
  abbrev AtMax : Config → Type 0
  AtMax c = (0 < c.max_count) × (c.max_count ≤ c.high_watermark)

  drop_ref-Low :
      (p : Pool) (o : Option (ℕ × Buffer))
      → At p.checked_out o
      → IsValid p
      → AtMax p.config
      → (drop_ref d header p o).1 ≡ none
  unfolding drop_ref give_back
  drop_ref-Low p none a v m = refl
  drop_ref-Low p (some (i, b)) a v m = elim (Bool-cases (b.refs - 1 == 0)) [
    | inl e ↦
        let f : (ltb p.config.high_watermark (p.free_count + 1)) ≡ false =
          ground (arith, v.total, v.capped, a.0, m) in
        rw (e, f) refl
    | inr e ↦ rw e refl
  ]

  alloc_free-Low :
      (p : Pool) (mem : List ℕ) (q : List Buffer) → IsLow (alloc_free d header kind p mem q).2
  unfolding alloc_free check_out
  alloc_free-Low p mem [] = tt
  alloc_free-Low p mem (out ∷ rest) = IsLow-if _

  step-Low : (p : Pool) (c : Call) → IsValid p → AtMax p.config → IsLow (step d header kind p c).1
  unfolding step alloc_buffer free_buffer
  step-Low p (allocs none mem) v m = alloc_free-Low p mem p.free_list
  step-Low p (allocs (some id) mem) v m = tt
  step-Low p (frees id) v m =
      subst IsLow
        (sym (drop_ref-Low p (find_buffer id p.checked_out) (find_buffer-At id p.checked_out) v m))
        tt
  step-Low p (sizes id size moved) v m = tt

  heard-Low :
      (o : Option Bool) (bs : List Bool)
      → IsLow o
      → Each (λ b. b ≡ true) bs
      → Each (λ b. b ≡ true) (heard d header kind o bs)
  heard-Low none bs h e = e
  heard-Low (some b) bs h e = (h, e)

  signals-Low :
      (p : Pool) (cs : List Call)
      → IsValid p
      → AtMax p.config
      → Each (λ b. b ≡ true) (signals d header kind p cs)
  unfolding signals
  signals-Low p [] v m = tt
  signals-Low p (c ∷ cs) v m = heard-Low (step d header kind p c).1 _ (step-Low p c v m) (
      signals-Low (step d header kind p c).0 cs (step-IsValid d law header kind p c v)
        (subst AtMax (sym (step-config p c)) m))

  at_most_one :
      (said : Bool) (bs : List Bool)
      → Alternates said bs
      → Each (λ b. b ≡ true) bs
      → (bs ≡ []) ⊎ (bs ≡ true ∷ [])
  at_most_one said [] a e = inl refl
  at_most_one said (b ∷ []) a e = inr (ap (λ x. x ∷ []) e.0)
  at_most_one said (b ∷ c ∷ bs) a e = absurd (ground (arith, a, e))

  -- A valid pool with a maximum that its upper watermark reaches calls back at most once, through
  -- every sequence of calls, to say that it runs low: it never says that it has recovered, however
  -- many buffers come back.
  pub signals-stuck :
      (p : Pool) (cs : List Call)
      → IsValid p
      → 0 < p.config.max_count
      → p.config.max_count ≤ p.config.high_watermark
      → (signals d header kind p cs ≡ []) ⊎ (signals d header kind p cs ≡ true ∷ [])
  signals-stuck p cs v m h =
      at_most_one p.empty (signals d header kind p cs) (signals-Alternates d law header kind p cs)
        (signals-Low p cs v (m, h))
