-- ===== src/Ring/Valid.antt =====
-- The representation invariant of `ring_buffer_t`, the bytes that a ring holds, and the two moves of
-- which a write and a read are made.
use iot_edge_opc_proxy.Base.{
  ℕ, ◌+◌, ◌-◌, ◌^◌, ◌≤◌, ◌<◌, ◌≡◌, sym, ap, ◌∙◌, List, ◌++◌, append_assoc, append-nil, arith, ltb,
  leb, ◌==◌, if◌then◌else◌, take, drop, length, length-take, length-drop, length-append,
  take_append_left, drop_append_left, drop_append_right, take_all, drop_all, drop-drop, drop-split,
  take-drop-take,
}
use iot_edge_opc_proxy.Ring.{Ring, store, load, capacity, available}

pub record IsValid (r : Ring) : Type 0 where
  pub storage : length r.mem ≡ r.end
  pub small : r.end ≤ 2 ^ 63
  pub read_in : r.read_pos < r.end
  pub write_in : r.write_pos < r.end

-- The bytes from offset `rd` round to offset `w`.
abbrev pub segment : List ℕ → ℕ → ℕ → List ℕ
segment m rd w = if leb rd w then drop rd (take w m) else drop rd m ++ take w m

-- The bytes that a ring holds, oldest first.
abbrev pub contents : Ring → List ℕ
contents r = segment r.mem r.read_pos r.write_pos

pub length-store :
    (m : List ℕ) (i : ℕ) (bs : List ℕ) → i + length bs ≤ length m → length (store m i bs) ≡ length m
length-store m i bs h = omega (
  arith,
  length-append (take i m) (bs ++ drop (i + length bs) m),
  length-append bs (drop (i + length bs) m),
  length-take i m,
  length-drop (i + length bs) m,
)

module _ (m : List ℕ) (i : ℕ) (bs : List ℕ) (h : i + length bs ≤ length m) where
  fits : length (take i m) ≡ i
  fits = omega (arith, length-take i m)

  -- What was written stands at the end of the first `i + length bs` bytes.
  take-store : take (i + length bs) (store m i bs) ≡ take i m ++ bs
  take-store =
      ap (take (i + length bs)) (sym (append_assoc (take i m) bs (drop (i + length bs) m)))
      ∙ take_append_left (i + length bs) (take i m ++ bs) _ below
      ∙ take_all (i + length bs) (take i m ++ bs) above
    where
      below : i + length bs ≤ length (take i m ++ bs)
      below = omega (arith, fits, length-append (take i m) bs)

      above : length (take i m ++ bs) ≤ i + length bs
      above = omega (arith, fits, length-append (take i m) bs)

  -- What stands behind it is as it was.
  drop-store_behind : (rd : ℕ) → i + length bs ≤ rd → drop rd (store m i bs) ≡ drop rd m
  drop-store_behind rd le =
      ap (drop rd) (sym (append_assoc (take i m) bs (drop (i + length bs) m)))
      ∙ drop_append_right rd (take i m ++ bs) _ (omega (arith, size))
      ∙ drop-drop (i + length bs) (rd - length (take i m ++ bs)) m
      ∙ ap (λ k. drop k m) {y = rd} (omega (arith, size))
    where
      size : length (take i m ++ bs) ≡ i + length bs
      size = omega (arith, fits, length-append (take i m) bs)

  drop-take-store :
      (rd : ℕ) → rd ≤ i → drop rd (take (i + length bs) (store m i bs)) ≡ drop rd (take i m) ++ bs
  drop-take-store rd le = rw take-store (drop_append_left rd (take i m) bs (omega (arith, fits)))

  -- A write up to the very end.
  drop-store_full :
      (rd : ℕ)
      → rd ≤ i
      → i + length bs ≡ length m
      → drop rd (store m i bs) ≡ drop rd (take i m) ++ bs
  drop-store_full rd le full =
      ap (drop rd)
        (sym (take_all (i + length bs) (store m i bs) (omega (arith, length-store m i bs h))))
      ∙ drop-take-store rd le

-- The bytes that can be written in one piece.
abbrev pub gap : Ring → ℕ
gap r =
    if leb r.read_pos r.write_pos
    then (if r.read_pos == 0 then r.end - r.write_pos - 1 else r.end - r.write_pos)
    else r.read_pos - r.write_pos - 1

-- One piece written.
abbrev pub advance : Ring → List ℕ → Ring
advance r bs =
    let w = r.write_pos + length bs in
    record r { mem = store r.mem r.write_pos bs; write_pos = if w == r.end then 0 else w }

pub advance-IsValid :
    {r : Ring} (bs : List ℕ) → IsValid r → length bs ≤ gap r → IsValid (advance r bs)
advance-IsValid {r} bs v h = ground (arith, length-store r.mem r.write_pos bs)

-- A piece written stands at the end of the contents.
pub contents-advance :
    {r : Ring} (bs : List ℕ)
    → IsValid r
    → length bs ≤ gap r
    → contents (advance r bs) ≡ contents r ++ bs
contents-advance {r} bs v h = ground (
  arith,
  drop-store_behind r.mem r.write_pos bs f r.read_pos,
  take-store r.mem r.write_pos bs f,
  drop-take-store r.mem r.write_pos bs f r.read_pos,
  drop-store_full r.mem r.write_pos bs f r.read_pos,
  append_assoc (drop r.read_pos r.mem) (take r.write_pos r.mem) bs,
  append-nil (drop r.read_pos (store r.mem r.write_pos bs)),
)
  where
    f : r.write_pos + length bs ≤ length r.mem
    f = ground arith

-- The bytes that can be read in one piece.
abbrev pub run : Ring → ℕ
run r = if ltb r.write_pos r.read_pos then r.end - r.read_pos else r.write_pos - r.read_pos

-- One piece read.
abbrev pub consume : Ring → ℕ → Ring
consume r n = let p = r.read_pos + n in record r { read_pos = if p == r.end then 0 else p }

pub consume-IsValid : {r : Ring} (n : ℕ) → IsValid r → n ≤ run r → IsValid (consume r n)
consume-IsValid {r} n v h = ground arith

-- A piece read stood at the front of the contents.
pub contents-consume :
    {r : Ring} (n : ℕ)
    → IsValid r
    → n ≤ run r
    → contents r ≡ load r.mem r.read_pos n ++ contents (consume r n)
contents-consume {r} n v h = ground (
  arith,
  drop-split r.read_pos n r.mem,
  drop-split r.read_pos n (take r.write_pos r.mem),
  length-take r.write_pos r.mem,
  drop_all r.end r.mem,
  append_assoc (load r.mem r.read_pos n) (drop (r.read_pos + n) r.mem) (take r.write_pos r.mem),
  take-drop-take r.read_pos n r.write_pos r.mem,
)

-- In a valid ring, what `ring_buffer_capacity` counts as free, the contents, and the one byte that
-- tells full from empty make up the storage.
pub capacity-add-length : {r : Ring} → IsValid r → capacity r + length (contents r) + 1 ≡ r.end
unfolding capacity
capacity-add-length {r} v = ground (
  arith,
  length-append (drop r.read_pos r.mem) (take r.write_pos r.mem),
  length-drop r.read_pos (take r.write_pos r.mem),
  length-drop r.read_pos r.mem,
  length-take r.write_pos r.mem,
)

pub available-eq-length : {r : Ring} → IsValid r → available r ≡ length (contents r)
unfolding available
available-eq-length {r} v = ground (
  arith,
  length-append (drop r.read_pos r.mem) (take r.write_pos r.mem),
  length-drop r.read_pos (take r.write_pos r.mem),
  length-drop r.read_pos r.mem,
  length-take r.write_pos r.mem,
)
