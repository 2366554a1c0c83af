-- ===== src/Pool/Free.antt =====
-- `prx_buffer_new`, and what the release of a whole pool gives back.
use iot_edge_opc_proxy.Base.{
  ℕ, ◌≡◌, refl, ap, ◌∙◌, Bool, List, [], ◌∷◌, Option, none, some, arith, length, length-map, map,
  inl, inr, Bool-cases,
}
use iot_edge_opc_proxy.Error.{is_ok}
use iot_edge_opc_proxy.Dlist.{Dlist, IsDlist}
use iot_edge_opc_proxy.Pool.{
  Buffer, Pool, Kind, fixed, alloc_buffer, set_size, after_new, buffer_new, free_each,
  dynamic_pool_free,
}
use iot_edge_opc_proxy.Pool.Valid.{IsValid}
use iot_edge_opc_proxy.Pool.Run.{alloc_buffer-IsValid, set_size-IsValid, free_buffer-IsValid}

module _ (d : Dlist Buffer) (law : IsDlist d) (header : ℕ) where
  after_new-IsValid :
      (kind : Kind) (len : ℕ) (moved : Option ℕ) (r : Pool × Option ℕ × Option Bool)
      → IsValid r.0
      → IsValid (after_new d header kind len moved r).0
  unfolding after_new
  after_new-IsValid kind len moved (p, none, said) v = v
  after_new-IsValid kind len moved (p, some b, said) v =
      let w = set_size-IsValid d law header kind p b len moved v in
      elim (Bool-cases (is_ok (set_size d header kind p b len moved).1)) [
        | inl e ↦ rw e w
        | inr e ↦
            rw e (free_buffer-IsValid d law header (set_size d header kind p b len moved).0 b w)
      ]

  -- A fixed pool cannot resize: there is no new buffer, and the one that was taken is given back.
  after_new-fixed :
      (len : ℕ) (moved : Option ℕ) (r : Pool × Option ℕ × Option Bool)
      → (after_new d header fixed len moved r).1 ≡ none
  unfolding after_new set_size is_ok
  after_new-fixed len moved (p, none, said) = refl
  after_new-fixed len moved (p, some b, said) = refl

  -- `prx_buffer_new` keeps a valid pool of either kind valid, whether the allocation, the resizing or
  -- neither fails; and it never returns a buffer of a fixed pool.
  pub buffer_new-IsValid :
      (kind : Kind) (p : Pool) (len : ℕ) (mem : List ℕ) (moved : Option ℕ)
      → IsValid p
      → IsValid (buffer_new d header kind p len mem moved).0
        × ((buffer_new d header fixed p len mem moved).1 ≡ none)
  unfolding buffer_new
  buffer_new-IsValid kind p len mem moved v = (
    after_new-IsValid kind len moved (alloc_buffer d header kind p none mem)
        (alloc_buffer-IsValid d law header kind p none mem v),
    after_new-fixed len moved (alloc_buffer d header fixed p none mem),
  )

  free_each_lem : (q : List Buffer) → free_each d header (length q) q ≡ map (λ b. b.id) q
  unfolding free_each
  free_each_lem [] = refl
  free_each_lem (b ∷ bs) = ap (◌∷◌ b.id) (
      ap (free_each d header (length bs)) (law.remove_lem (b ∷ bs) 0 (omega arith))
      ∙ free_each_lem bs)

  -- The release of a valid dynamic pool with no buffer checked out frees every free buffer once, in
  -- their order, and as many as the pool has made.
  pub dynamic_pool_free_lem :
      (p : Pool)
      → IsValid p
      → p.checked_out ≡ []
      → (dynamic_pool_free d header p ≡ map (λ b. b.id) p.free_list)
        × (length (dynamic_pool_free d header p) ≡ p.count)
  unfolding dynamic_pool_free
  dynamic_pool_free_lem p v e =
      let f = free_each_lem p.free_list in
      (
        f,
        ap length f
            ∙ length-map p.free_list (λ b. b.id)
            ∙ omega (arith, v.free, v.total, ap length e),
      )
