-- ===== src/Pool/Signal.antt =====
-- The calls of a pool one after the other, and what it tells its owner through the callback.
use iot_edge_opc_proxy.Base.{
  ℕ, zero, suc, ◌+◌, ◌-◌, ◌<◌, ◌^◌, ◌≡◌, refl, subst, Bool, not, ◌&&◌, List, [], ◌∷◌, ◌++◌, Option,
  none, some, arith, ltb, leb, ◌==◌, inl, inr, Bool-cases,
}
use iot_edge_opc_proxy.Error.{Error, is_ok}
use iot_edge_opc_proxy.Dlist.{Dlist, IsDlist}
use iot_edge_opc_proxy.Pool.{
  Buffer, Config, Pool, Kind, dynamic, fixed, init, init_config, items, add_buffer, add_each,
  add_block, grow_dynamic, grow_fixed, grow, grow_if_empty, check_out, alloc_free, add_ref,
  alloc_buffer, give_back, drop_ref, free_buffer, find_buffer, set_size, resize, create, created,
}
use iot_edge_opc_proxy.Pool.Valid.{IsValid, Same, grow-Holds}
use iot_edge_opc_proxy.Pool.Run.{alloc_buffer-IsValid, free_buffer-IsValid, set_size-IsValid}

-- A call, with what the allocators give it.
pub data Call : Type 0 where
  allocs : Option ℕ → List ℕ → Call
  frees : ℕ → Call
  sizes : (id size : ℕ) → Option ℕ → Call

module _ (d : Dlist Buffer) (header : ℕ) (kind : Kind) where
  -- The pool, and the argument of the callback, where the call makes one.
  unfoldable pub step : Pool → Call → Pool × Option Bool
  step p (allocs original mem) =
      let (p', _, s) = alloc_buffer d header kind p original mem in (p', s)
  step p (frees id) = free_buffer d header p id
  step p (sizes id size moved) = ((set_size d header kind p id size moved).0, none)

  unfoldable pub steps : Pool → List Call → Pool
  unfolding step
  steps p [] = p
  steps p (c ∷ cs) = steps (step p c).0 cs

  abbrev pub heard : Option Bool → List Bool → List Bool
  heard none bs = bs
  heard (some b) bs = b ∷ bs

  unfoldable pub signals : Pool → List Call → List Bool
  unfolding step
  signals p [] = []
  signals p (c ∷ cs) = heard (step p c).1 (signals (step p c).0 cs)

-- The pool is empty by what was last said, and next says the contrary.
abbrev pub Alternates : Bool → List Bool → Type 0
Alternates said [] = Unit {0}
Alternates said (b ∷ bs) = (b ≡ not said) × Alternates b bs

abbrev pub Says : Bool → Option Bool → Bool → Type 0
Says before none after = after ≡ before
Says before (some b) after = (b ≡ not before) × (after ≡ b)

module _ (d : Dlist Buffer) (law : IsDlist d) (header : ℕ) (kind : Kind) where
  pub step-IsValid : (p : Pool) (c : Call) → IsValid p → IsValid (step d header kind p c).0
  unfolding step
  step-IsValid p (allocs original mem) v = alloc_buffer-IsValid d law header kind p original mem v
  step-IsValid p (frees id) v = free_buffer-IsValid d law header p id v
  step-IsValid p (sizes id size moved) v = set_size-IsValid d law header kind p id size moved v

  steps-IsValid : (p : Pool) (cs : List Call) → IsValid p → IsValid (steps d header kind p cs)
  unfolding steps
  steps-IsValid p [] v = v
  steps-IsValid p (c ∷ cs) v = steps-IsValid (step d header kind p c).0 cs (step-IsValid p c v)

  init-IsValid : (size : ℕ) (c : Config) → c.max_count < 2 ^ 64 → IsValid (init size (some c))
  unfolding init init_config
  init-IsValid size c h = record {
    free = refl;
    total = omega arith;
    capped = inr (omega arith);
    sized = h;
    unused = tt;
    used = tt;
  }

  Made : Option Pool → Type 0
  Made none = Unit {0}
  Made (some p) = IsValid p

  created-Made : (q : Pool × Error) → IsValid q.0 → Made (created d header q).1
  unfolding created Made
  created-Made (p, e) v = elim (Bool-cases (is_ok e)) [ inl h ↦ rw h v | inr h ↦ rw h tt ]

  create-Made :
      (size : ℕ) (c : Config) (lock : Error) (mem : List ℕ)
      → c.max_count < 2 ^ 64
      → Made (create d header kind size (some c) lock mem).1
  unfolding create Made
  create-Made size c lock mem h = elim (Bool-cases (is_ok lock)) [
    | inl e ↦ rw e (
        created-Made (grow d header kind (init size (some c)) mem)
          (grow-Holds d law header kind (init size (some c)) mem (init-IsValid size c h)).0)
    | inr e ↦ rw e tt
  ]

  -- A pool that `prx_dynamic_pool_create` or `prx_fixed_pool_create` made of a configuration with a
  -- maximum below 2 ^ 64 stays valid through every
  -- sequence of allocations, releases and resizes, whatever the allocators return: its counts are
  -- those of its lists, it has no more buffers than its maximum, a free buffer has no reference and
  -- one that is checked out has some.
  pub steps-create :
      (size : ℕ) (c : Config) (lock : Error) (mem : List ℕ) (p : Pool) (cs : List Call)
      → c.max_count < 2 ^ 64
      → (create d header kind size (some c) lock mem).1 ≡ some p
      → IsValid (steps d header kind p cs)
  unfolding Made
  steps-create size c lock mem p cs h e =
      steps-IsValid p cs (subst Made e (create-Made size c lock mem h))

  check_out-Says :
      (p : Pool) (out : Buffer)
      → let (p', _, s) = check_out d header p out in Says p.empty s p'.empty
  unfolding check_out
  check_out-Says p out =
      elim (Bool-cases (leb p.free_count p.config.low_watermark && not p.empty)) [
        | inl e ↦ rw e (ground (arith, e), refl)
        | inr e ↦ rw e refl
      ]

  give_back-Says :
      (p : Pool) (i : ℕ) (b : Buffer)
      → let (p', s) = give_back d header p i b in Says p.empty s p'.empty
  unfolding give_back
  give_back-Says p i b =
      elim (Bool-cases (ltb p.config.high_watermark (p.free_count + 1) && p.empty)) [
        | inl e ↦ rw e (ground (arith, e), refl)
        | inr e ↦ rw e refl
      ]

  add_each-Same : (p : Pool) (k : ℕ) (mem : List ℕ) → Same p (add_each d header p k mem)
  unfolding add_each
  add_each-Same p zero mem = (refl, refl, refl)
  add_each-Same p (suc k) [] = (refl, refl, refl)
  add_each-Same p (suc k) (m ∷ mem) = add_each-Same (add_buffer d header p m) k mem

  add_block-Same : (p : Pool) (k : ℕ) (buf : ℕ) → Same p (add_block d header p k buf)
  unfolding add_block
  add_block-Same p zero buf = (refl, refl, refl)
  add_block-Same p (suc k) buf =
      add_block-Same (add_buffer d header p buf) k (buf + (header + p.item_size))

  grow-Same : (k : Kind) (p : Pool) (mem : List ℕ) → Same p (grow d header k p mem).0
  unfolding grow grow_dynamic grow_fixed
  grow-Same dynamic p mem = add_each-Same p (items p) mem
  grow-Same fixed p [] = (refl, refl, refl)
  grow-Same fixed p (m ∷ mem) = elim (Bool-cases (items p == 0)) [
    | inl e ↦ rw e (refl, refl, refl)
    | inr e ↦
        rw e (add_block-Same (record p { blocks = p.blocks ++ (m ∷ []) }) (items p) (m + header))
  ]

  pub grow_if_empty-Same : (p : Pool) (mem : List ℕ) → Same p (grow_if_empty d header kind p mem)
  unfolding grow_if_empty
  grow_if_empty-Same p mem = elim (Bool-cases (p.free_count == 0)) [
    | inl e ↦ rw e (grow-Same kind p mem)
    | inr e ↦ rw e (refl, refl, refl)
  ]

  alloc_free-Says :
      (p : Pool) (mem : List ℕ) (q : List Buffer)
      → let (p', _, s) = alloc_free d header kind p mem q in Says p.empty s p'.empty
  unfolding alloc_free
  alloc_free-Says p mem [] = refl
  alloc_free-Says p mem (out ∷ rest) =
      let p' : Pool = record p {
        free_list = d.remove (out ∷ rest) 0;
        free_count = p.free_count - 1;
      } in
      let grown = grow_if_empty d header kind p' mem in
      let r = check_out d header grown out in
      subst (λ b. Says b r.2 r.0.empty) (grow_if_empty-Same p' mem).2 (check_out-Says grown out)

  drop_ref-Says :
      (p : Pool) (o : Option (ℕ × Buffer))
      → let (p', s) = drop_ref d header p o in Says p.empty s p'.empty
  unfolding drop_ref
  drop_ref-Says p none = refl
  drop_ref-Says p (some (i, b)) = elim (Bool-cases (b.refs - 1 == 0)) [
    | inl e ↦ rw e (give_back-Says p i b)
    | inr e ↦ rw e refl
  ]

  add_ref-empty :
      (p : Pool) (id : ℕ) (o : Option (ℕ × Buffer)) → (add_ref d header p id o).empty ≡ p.empty
  unfolding add_ref
  add_ref-empty p id none = refl
  add_ref-empty p id (some b) = refl

  resize-empty :
      (p : Pool) (size : ℕ) (moved : Option ℕ) (o : Option (ℕ × Buffer))
      → (resize d header p size moved o).0.empty ≡ p.empty
  unfolding resize
  resize-empty p size moved none = refl
  resize-empty p size none (some b) = refl
  resize-empty p size (some id) (some b) = refl

  set_size-empty :
      (k : Kind) (p : Pool) (id size : ℕ) (moved : Option ℕ)
      → (set_size d header k p id size moved).0.empty ≡ p.empty
  unfolding set_size
  set_size-empty dynamic p id size moved = resize-empty p size moved (find_buffer id p.checked_out)
  set_size-empty fixed p id size moved = refl

  step-Says :
      (p : Pool) (c : Call) → let (p', s) = step d header kind p c in Says p.empty s p'.empty
  unfolding step alloc_buffer free_buffer
  step-Says p (allocs none mem) = alloc_free-Says p mem p.free_list
  step-Says p (allocs (some id) mem) = add_ref-empty p id (find_buffer id p.checked_out)
  step-Says p (frees id) = drop_ref-Says p (find_buffer id p.checked_out)
  step-Says p (sizes id size moved) = set_size-empty kind p id size moved

  heard-Alternates :
      (before after : Bool) (s : Option Bool) (bs : List Bool)
      → Says before s after
      → Alternates after bs
      → Alternates before (heard d header kind s bs)
  heard-Alternates before after none bs h a = subst (λ x. Alternates x bs) h a
  heard-Alternates before after (some b) bs h a = (h.0, subst (λ x. Alternates x bs) h.1 a)

  -- The callback of a pool says by turns that the pool runs low and that it has recovered, beginning
  -- with what its flag has not: never twice the same, through every sequence of calls.
  pub signals-Alternates :
      (p : Pool) (cs : List Call) → Alternates p.empty (signals d header kind p cs)
  unfolding signals
  signals-Alternates p [] = tt
  signals-Alternates p (c ∷ cs) =
      heard-Alternates p.empty (step d header kind p c).0.empty (step d header kind p c).1 _
        (step-Says p c) (signals-Alternates (step d header kind p c).0 cs)
