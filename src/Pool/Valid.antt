-- ===== src/Pool/Valid.antt =====
-- The invariant of a pool: its counts are those of its lists, it does not outgrow its maximum, and
-- the buffers with references are those that are checked out.
use iot_edge_opc_proxy.Base.{
  ℕ, zero, suc, ◌+◌, ◌≤◌, ◌<◌, ◌^◌, ◌≡◌, refl, List, [], ◌∷◌, ◌++◌, arith, ◌==◌, length,
  length-append, take, drop, set, Each, ◌⊎◌, inl, inr, Bool-cases,
}
use iot_edge_opc_proxy.Dlist.{Dlist, IsDlist}
use iot_edge_opc_proxy.Pool.{
  Buffer, Pool, Kind, dynamic, fixed, items, add_buffer, add_each, add_block, grow_dynamic,
  grow_fixed, grow,
}

-- A buffer in the free list has no reference, one that is checked out has some.
abbrev pub IsFree : Buffer → Type 0
IsFree b = b.refs ≡ 0

abbrev pub IsUsed : Buffer → Type 0
IsUsed b = 0 < b.refs

-- `n` buffers are in neither list.
pub record Holds (n : ℕ) (p : Pool) : Type 0 where
  pub free : p.free_count ≡ length p.free_list
  pub total : p.count ≡ p.free_count + length p.checked_out + n
  pub capped : (p.config.max_count ≡ 0) ⊎ (p.count ≤ p.config.max_count)
  pub sized : p.config.max_count < 2 ^ 64
  pub unused : Each IsFree p.free_list
  pub used : Each IsUsed p.checked_out

abbrev pub IsValid : Pool → Type 0
IsValid p = Holds 0 p

pub Each-snoc :
    (P : Buffer → Type 0) (bs : List Buffer) (b : Buffer)
    → Each P bs
    → P b
    → Each P (bs ++ (b ∷ []))
Each-snoc P [] b e h = (h, tt)
Each-snoc P (c ∷ cs) b e h = (e.0, Each-snoc P cs b e.1 h)

pub Each-set :
    (P : Buffer → Type 0) (bs : List Buffer) (i : ℕ) (b : Buffer)
    → Each P bs
    → P b
    → Each P (set bs i b)
Each-set P [] i b e h = tt
Each-set P (c ∷ cs) zero b e h = (h, e.1)
Each-set P (c ∷ cs) (suc i) b e h = (e.0, Each-set P cs i b e.1 h)

pub Each-take-drop :
    (P : Buffer → Type 0) (bs : List Buffer) (i : ℕ)
    → Each P bs
    → Each P (take i bs ++ drop (suc i) bs)
Each-take-drop P [] zero e = tt
Each-take-drop P [] (suc i) e = tt
Each-take-drop P (c ∷ cs) zero e = e.1
Each-take-drop P (c ∷ cs) (suc i) e = (e.0, Each-take-drop P cs i e.1)

-- What a growth does not touch.
abbrev pub Same : Pool → Pool → Type 0
Same p p' = (p'.checked_out ≡ p.checked_out) × (p'.config ≡ p.config) × (p'.empty ≡ p.empty)

module _ (d : Dlist Buffer) (law : IsDlist d) (header : ℕ) where
  add_buffer-Holds :
      {n : ℕ} (p : Pool) (id : ℕ)
      → Holds n p
      → (p.config.max_count ≡ 0) ⊎ (p.count + 1 ≤ p.config.max_count)
      → Holds n (add_buffer d header p id)
  add_buffer-Holds {n} p id v room =
      let b : Buffer = record { id = id; length = p.item_size; refs = 0 } in
      record {
        free =
            rw (law.insert_tail_lem p.free_list b)
              (omega (arith, v.free, length-append p.free_list (b ∷ [])));
        total = omega (arith, v.total);
        capped = room;
        sized = v.sized;
        unused =
            rw (law.insert_tail_lem p.free_list b) (Each-snoc IsFree p.free_list b v.unused refl);
        used = v.used;
      }

  add_each-Holds :
      {n : ℕ} (p : Pool) (k : ℕ) (mem : List ℕ)
      → Holds n p
      → (p.config.max_count ≡ 0) ⊎ (p.count + k ≤ p.config.max_count)
      → Holds n (add_each d header p k mem) × Same p (add_each d header p k mem)
  unfolding add_each
  add_each-Holds p zero mem v room = (v, (refl, refl, refl))
  add_each-Holds p (suc k) [] v room = (v, (refl, refl, refl))
  add_each-Holds p (suc k) (m ∷ mem) v room =
      add_each-Holds (add_buffer d header p m) k mem (add_buffer-Holds p m v (ground arith))
        (ground arith)

  add_block-Holds :
      {n : ℕ} (p : Pool) (k : ℕ) (buf : ℕ)
      → Holds n p
      → (p.config.max_count ≡ 0) ⊎ (p.count + k ≤ p.config.max_count)
      → Holds n (add_block d header p k buf) × Same p (add_block d header p k buf)
  unfolding add_block
  add_block-Holds p zero buf v room = (v, (refl, refl, refl))
  add_block-Holds p (suc k) buf v room =
      add_block-Holds (add_buffer d header p buf) k (buf + (header + p.item_size))
        (add_buffer-Holds p buf v (ground arith)) (ground arith)

  items_room :
      {n : ℕ} (p : Pool)
      → Holds n p
      → (p.config.max_count ≡ 0) ⊎ (p.count + items p ≤ p.config.max_count)
  items_room p v = ground (arith, v.capped, v.sized)

  pub grow-Holds :
      {n : ℕ} (kind : Kind) (p : Pool) (mem : List ℕ)
      → Holds n p
      → Holds n (grow d header kind p mem).0 × Same p (grow d header kind p mem).0
  unfolding grow grow_dynamic grow_fixed
  grow-Holds dynamic p mem v = add_each-Holds p (items p) mem v (items_room p v)
  grow-Holds fixed p [] v = (v, (refl, refl, refl))
  grow-Holds fixed p (m ∷ mem) v = elim (Bool-cases (items p == 0)) [
    | inl e ↦ rw e (v, (refl, refl, refl))
    | inr e ↦ rw e (
        add_block-Holds (record p { blocks = p.blocks ++ (m ∷ []) }) (items p) (m + header)
          (record {
            free = v.free;
            total = v.total;
            capped = v.capped;
            sized = v.sized;
            unused = v.unused;
            used = v.used;
          })
          (items_room p v))
  ]
