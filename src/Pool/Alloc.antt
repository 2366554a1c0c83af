-- ===== src/Pool/Alloc.antt =====
-- Which buffer `prx_buffer_pool_alloc_buffer` hands out.
use iot_edge_opc_proxy.Base.{
  ℕ, ◌+◌, ◌-◌, ◌≡◌, refl, ap, subst, ◌∙◌, Bool, List, [], ◌∷◌, ◌++◌, Option, none, some, Each, ◌⊎◌,
  inl, inr,
}
use iot_edge_opc_proxy.Dlist.{Dlist, IsDlist}
use iot_edge_opc_proxy.Pool.{Buffer, Pool, Kind, alloc_buffer, alloc_free, check_out, grow_if_empty}
use iot_edge_opc_proxy.Pool.Valid.{IsValid, IsFree}
use iot_edge_opc_proxy.Pool.Signal.{grow_if_empty-Same}

-- There is none, or it is the oldest free one, with one reference, behind those checked out before.
abbrev pub HandsOut : Pool → Pool × Option ℕ × Option Bool → Type 0
HandsOut p r =
    ((p.free_list ≡ []) × (r ≡ (p, none, none)))
    ⊎ ((out : Buffer) × (rest : List Buffer) × (p.free_list ≡ out ∷ rest)
        × (r.1 ≡ some out.id)
        × (r.0.checked_out ≡ p.checked_out ++ (record out { refs = 1 } ∷ [])))

module _ (d : Dlist Buffer) (law : IsDlist d) (header : ℕ) (kind : Kind) where
  alloc_free-HandsOut :
      (p : Pool) (mem : List ℕ) (q : List Buffer)
      → p.free_list ≡ q
      → IsValid p
      → HandsOut p (alloc_free d header kind p mem q)
  unfolding alloc_free check_out
  alloc_free-HandsOut p mem [] e v = inl (e, refl)
  alloc_free-HandsOut p mem (out ∷ rest) e v =
      let p' : Pool = record p {
        free_list = d.remove (out ∷ rest) 0;
        free_count = p.free_count - 1;
      } in
      let u : Each IsFree (out ∷ rest) = subst (Each IsFree) e v.unused in
      let b : Buffer = record out { refs = out.refs + 1 } in
      inr (
        out,
        rest,
        e,
        refl,
        law.insert_tail_lem (grow_if_empty d header kind p' mem).checked_out b
            ∙ ap (λ c. c ++ (b ∷ [])) (grow_if_empty-Same d law header kind p' mem).0
            ∙ ap (λ n. p.checked_out ++ (record out { refs = n + 1 } ∷ [])) u.0,
      )

  -- An allocation from a valid pool, of either kind and whatever the allocators return: with no free
  -- buffer it returns NULL and changes nothing; else it hands out the oldest free buffer, with one
  -- reference, and checks it out behind the others, which stay as they are.
  pub alloc_buffer-HandsOut :
      (p : Pool) (mem : List ℕ) → IsValid p → HandsOut p (alloc_buffer d header kind p none mem)
  unfolding alloc_buffer
  alloc_buffer-HandsOut p mem v = alloc_free-HandsOut p mem p.free_list refl v
