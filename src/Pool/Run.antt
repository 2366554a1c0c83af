-- ===== src/Pool/Run.antt =====
-- What `prx_buffer_pool_alloc_buffer`, `prx_buffer_pool_free_buffer` and `prx_dynamic_buffer_set_size`
-- do to a valid pool.
use iot_edge_opc_proxy.Base.{
  ℕ, suc, ◌+◌, ◌-◌, ◌<◌, ◌≡◌, refl, ap, subst, ◌∙◌, List, [], ◌∷◌, Option, none, some, arith, ◌==◌,
  if◌then◌else◌, length, length-append, take, drop, length-take, length-drop, set, length-set, Each,
  inl, inr, Bool-cases,
}
use iot_edge_opc_proxy.Dlist.{Dlist, IsDlist}
use iot_edge_opc_proxy.Pool.{
  Buffer, Pool, Kind, dynamic, fixed, grow_if_empty, check_out, alloc_free, add_ref, alloc_buffer,
  give_back, drop_ref, free_buffer, find_buffer, resize, set_size,
}
use iot_edge_opc_proxy.Pool.Valid.{
  Holds, IsValid, IsFree, IsUsed, Same, Each-snoc, Each-set, Each-take-drop, grow-Holds,
}

-- The search finds a buffer where it stands.
abbrev pub At : List Buffer → Option (ℕ × Buffer) → Type 0
At bs none = Unit {0}
At bs (some (i, b)) = (i < length bs) × (Each IsUsed bs → IsUsed b)

pub find_buffer-At : (id : ℕ) (bs : List Buffer) → At bs (find_buffer id bs)
unfolding find_buffer
find_buffer-At id [] = tt
find_buffer-At id (b ∷ bs) = At-cons id b bs (find_buffer id bs) (find_buffer-At id bs)
  where
    At-cons :
        (id : ℕ) (b : Buffer) (bs : List Buffer) (o : Option (ℕ × Buffer))
        → At bs o
        → At (b ∷ bs) (elim o [
          | none ↦ if b.id == id then some (0, b) else none
          | some (i, c) ↦ if b.id == id then some (0, b) else some (suc i, c)
        ])
    At-cons id b bs none a = elim (Bool-cases (b.id == id)) [
      | inl e ↦ rw e (omega arith, λ all. all.0)
      | inr e ↦ rw e tt
    ]
    At-cons id b bs (some (i, c)) a = elim (Bool-cases (b.id == id)) [
      | inl e ↦ rw e (omega arith, λ all. all.0)
      | inr e ↦ rw e (omega (arith, a.0), λ all. a.1 all.1)
    ]

module _ (d : Dlist Buffer) (law : IsDlist d) (header : ℕ) where
  check_out-IsValid : (p : Pool) (out : Buffer) → Holds 1 p → IsValid (check_out d header p out).0
  unfolding check_out
  check_out-IsValid p out v =
      let b : Buffer = record out { refs = out.refs + 1 } in
      record {
        free = v.free;
        total =
            rw (law.insert_tail_lem p.checked_out b)
              (omega (arith, v.total, length-append p.checked_out (b ∷ [])));
        capped = v.capped;
        sized = v.sized;
        unused = v.unused;
        used =
            rw (law.insert_tail_lem p.checked_out b)
              (Each-snoc IsUsed p.checked_out b v.used (omega arith));
      }

  taken-Holds :
      (p : Pool) (out : Buffer) (rest : List Buffer)
      → p.free_list ≡ out ∷ rest
      → IsValid p
      → Holds 1 (record p { free_list = d.remove (out ∷ rest) 0; free_count = p.free_count - 1 })
  taken-Holds p out rest e v =
      let n : p.free_count ≡ suc (length rest) = v.free ∙ ap length e in
      let u : Each IsFree (out ∷ rest) = subst (Each IsFree) e v.unused in
      record {
        free = rw (law.remove_lem (out ∷ rest) 0 (omega arith)) (omega (arith, n));
        total = omega (arith, v.total, n);
        capped = v.capped;
        sized = v.sized;
        unused = rw (law.remove_lem (out ∷ rest) 0 (omega arith)) u.1;
        used = v.used;
      }

  pub grow_if_empty-Holds :
      {n : ℕ} (kind : Kind) (p : Pool) (mem : List ℕ)
      → Holds n p
      → Holds n (grow_if_empty d header kind p mem) × Same p (grow_if_empty d header kind p mem)
  unfolding grow_if_empty
  grow_if_empty-Holds kind p mem v = elim (Bool-cases (p.free_count == 0)) [
    | inl e ↦ rw e (grow-Holds d law header kind p mem v)
    | inr e ↦ rw e (v, (refl, refl, refl))
  ]

  alloc_free-IsValid :
      (kind : Kind) (p : Pool) (mem : List ℕ) (q : List Buffer)
      → p.free_list ≡ q
      → IsValid p
      → IsValid (alloc_free d header kind p mem q).0
  unfolding alloc_free
  alloc_free-IsValid kind p mem [] e v = v
  alloc_free-IsValid kind p mem (out ∷ rest) e v =
      check_out-IsValid _ out (grow_if_empty-Holds kind _ mem (taken-Holds p out rest e v)).0

  set-IsValid :
      (p : Pool) (i : ℕ) (b : Buffer)
      → IsUsed b
      → IsValid p
      → IsValid (record p { checked_out = set p.checked_out i b })
  set-IsValid p i b h v = record {
    free = v.free;
    total = omega (arith, v.total, length-set p.checked_out i b);
    capped = v.capped;
    sized = v.sized;
    unused = v.unused;
    used = Each-set IsUsed p.checked_out i b v.used h;
  }

  add_ref-IsValid :
      (p : Pool) (id : ℕ) (o : Option (ℕ × Buffer)) → IsValid p → IsValid (add_ref d header p id o)
  unfolding add_ref
  add_ref-IsValid p id none v = v
  add_ref-IsValid p id (some (i, b)) v =
      set-IsValid p i (record b { refs = b.refs + 1 }) (omega arith) v

  pub alloc_buffer-IsValid :
      (kind : Kind) (p : Pool) (original : Option ℕ) (mem : List ℕ)
      → IsValid p
      → IsValid (alloc_buffer d header kind p original mem).0
  unfolding alloc_buffer
  alloc_buffer-IsValid kind p none mem v = alloc_free-IsValid kind p mem p.free_list refl v
  alloc_buffer-IsValid kind p (some id) mem v =
      add_ref-IsValid p id (find_buffer id p.checked_out) v

  length-remove : (q : List Buffer) (i : ℕ) → i < length q → suc (length (d.remove q i)) ≡ length q
  length-remove q i h = rw (law.remove_lem q i h) (
      omega
        (arith, length-append (take i q) (drop (suc i) q), length-take i q, length-drop (suc i) q))

  give_back-IsValid :
      (p : Pool) (i : ℕ) (b : Buffer)
      → i < length p.checked_out
      → IsValid p
      → IsValid (give_back d header p i b).0
  unfolding give_back
  give_back-IsValid p i b h v =
      let c : Buffer = record b { refs = 0 } in
      record {
        free =
            rw (law.insert_tail_lem p.free_list c)
              (omega (arith, v.free, length-append p.free_list (c ∷ [])));
        total = omega (arith, v.total, length-remove p.checked_out i h);
        capped = v.capped;
        sized = v.sized;
        unused =
            rw (law.insert_tail_lem p.free_list c) (Each-snoc IsFree p.free_list c v.unused refl);
        used = rw (law.remove_lem p.checked_out i h) (Each-take-drop IsUsed p.checked_out i v.used);
      }

  drop_ref-IsValid :
      (p : Pool) (o : Option (ℕ × Buffer))
      → At p.checked_out o
      → IsValid p
      → IsValid (drop_ref d header p o).0
  unfolding drop_ref
  drop_ref-IsValid p none a v = v
  drop_ref-IsValid p (some (i, b)) a v = elim (Bool-cases (b.refs - 1 == 0)) [
    | inl e ↦ rw e (give_back-IsValid p i b a.0 v)
    | inr e ↦ rw e (set-IsValid p i (record b { refs = b.refs - 1 }) (ground arith) v)
  ]

  pub free_buffer-IsValid : (p : Pool) (id : ℕ) → IsValid p → IsValid (free_buffer d header p id).0
  unfolding free_buffer
  free_buffer-IsValid p id v =
      drop_ref-IsValid p (find_buffer id p.checked_out) (find_buffer-At id p.checked_out) v

  move-IsValid :
      (p : Pool) (i : ℕ) (b : Buffer)
      → i < length p.checked_out
      → IsUsed b
      → IsValid p
      → IsValid (record p { checked_out = d.insert_tail (d.remove p.checked_out i) b })
  move-IsValid p i b h u v = record {
    free = v.free;
    total = rw (law.insert_tail_lem (d.remove p.checked_out i) b) (
        omega (
          arith,
          v.total,
          length-remove p.checked_out i h,
          length-append (d.remove p.checked_out i) (b ∷ []),
        ));
    capped = v.capped;
    sized = v.sized;
    unused = v.unused;
    used = rw (law.insert_tail_lem (d.remove p.checked_out i) b) (
        Each-snoc IsUsed (d.remove p.checked_out i) b
          (rw (law.remove_lem p.checked_out i h) (Each-take-drop IsUsed p.checked_out i v.used)) u);
  }

  resize-IsValid :
      (p : Pool) (size : ℕ) (moved : Option ℕ) (o : Option (ℕ × Buffer))
      → At p.checked_out o
      → IsValid p
      → IsValid (resize d header p size moved o).0
  unfolding resize
  resize-IsValid p size moved none a v = v
  resize-IsValid p size none (some (i, b)) a v = move-IsValid p i b a.0 (a.1 v.used) v
  resize-IsValid p size (some id) (some (i, b)) a v =
      move-IsValid p i (record b { id = id; length = size }) a.0 (a.1 v.used) v

  pub set_size-IsValid :
      (kind : Kind) (p : Pool) (id size : ℕ) (moved : Option ℕ)
      → IsValid p
      → IsValid (set_size d header kind p id size moved).0
  unfolding set_size
  set_size-IsValid dynamic p id size moved v =
      resize-IsValid p size moved (find_buffer id p.checked_out) (find_buffer-At id p.checked_out) v
  set_size-IsValid fixed p id size moved v = v
