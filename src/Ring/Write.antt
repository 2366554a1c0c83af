-- ===== src/Ring/Write.antt =====
-- `ring_buffer_write`: how many bytes it takes, and which, and that it keeps the ring valid.
use iot_edge_opc_proxy.Base.{
  ℕ, ◌+◌, ◌-◌, ◌^◌, ◌≤◌, ◌<◌, ◌≡◌, refl, sym, ap, ◌∙◌, List, ◌++◌, append_assoc, append-nil, arith,
  ltb, ◌==◌, if◌then◌else◌, take, drop, take-append-take, subst, length, length-take, length-drop,
  inl, inr, true, Bool-cases, min,
}
use native.Mathlib.Decide.{dec_lt}
use iot_edge_opc_proxy.Ring.{
  Ring, write, write_ahead, write_behind, write_avail, write_len, capacity, Pass,
}
use iot_edge_opc_proxy.Ring.Valid.{
  IsValid, gap, advance, advance-IsValid, contents, contents-advance,
}

-- The first pass writes one piece, as long as it can be.
write_ahead_lem :
    {r : Ring} (buf : List ℕ) (len : ℕ)
    → IsValid r
    → r.read_pos ≤ r.write_pos
    → len ≤ length buf
    → len < 2 ^ 64
    → let n = min len (gap r) in
      write_ahead r buf len ≡ record {
        ring = advance r (take n buf);
        len = if r.read_pos == 0 then 0 else len - n;
        gone = n;
      }
unfolding write_ahead write_avail write_len
write_ahead_lem {r} buf len v h k l = ground (arith, length-take (min len (gap r)) buf)

-- The second pass writes one more piece.
write_behind_lem :
    (p : Pass) (buf : List ℕ)
    → IsValid p.ring
    → p.ring.write_pos < p.ring.read_pos
    → p.gone + p.len ≤ length buf
    → length buf < 2 ^ 64
    → let n = min p.len (gap p.ring) in
      write_behind p buf ≡ (advance p.ring (take n (drop p.gone buf)), p.gone + n)
unfolding write_behind
write_behind_lem p buf v h k l =
    ground (arith, length-take (min p.len (gap p.ring)) (drop p.gone buf), length-drop p.gone buf)

-- `n` bytes of `buf` have gone into the ring.
pub record Wrote (r : Ring) (buf : List ℕ) (n : ℕ) (r' : Ring) : Type 0 where
  pub valid : IsValid r'
  pub bytes : contents r' ≡ contents r ++ take n buf
  pub same_end : r'.end ≡ r.end
  pub same_reader : r'.read_pos ≡ r.read_pos

advance-Wrote :
    {r r' : Ring} (buf : List ℕ) (n k : ℕ)
    → Wrote r buf n r'
    → k ≤ gap r'
    → n + k ≤ length buf
    → Wrote r buf (n + k) (advance r' (take k (drop n buf)))
advance-Wrote {r} {r'} buf n k w h l = record {
  valid = advance-IsValid piece w.valid fits;
  bytes =
      contents-advance piece w.valid fits
      ∙ ap (λ c. c ++ piece) w.bytes
      ∙ append_assoc (contents r) (take n buf) piece
      ∙ ap (◌++◌ (contents r)) (take-append-take n k buf);
  same_end = w.same_end;
  same_reader = w.same_reader;
}
  where
    piece : List ℕ
    piece = take k (drop n buf)

    fits : length piece ≤ gap r'
    fits = omega (arith, length-take k (drop n buf))

start-Wrote : {r : Ring} (buf : List ℕ) → IsValid r → Wrote r buf 0 r
start-Wrote {r} buf v = record {
  valid = v;
  bytes = sym (append-nil (contents r));
  same_end = refl;
  same_reader = refl;
}

-- What a call of `ring_buffer_write` for `len` bytes gives.
abbrev pub Fills : Ring → List ℕ → ℕ → Ring × ℕ → Type 0
Fills r buf len (r', n) = Wrote r buf n r' × (n ≡ min len (capacity r))

module _ {r : Ring} (buf : List ℕ) (len : ℕ) (v : IsValid r) (l : len ≤ length buf)
    (b : length buf < 2 ^ 64) where
  -- A writer behind the reader needs the second pass alone.
  write_below_eq :
      r.write_pos < r.read_pos
      → write r buf len ≡ (
          if ltb 0 len then write_behind (record { ring = r; len = len; gone = 0 }) buf else (r, 0))
  unfolding write
  write_below_eq h = ground arith

  write_above_eq :
      r.read_pos ≤ r.write_pos
      → let first = write_ahead r buf len in
        write r buf len
        ≡ (if ltb 0 first.len then write_behind first buf else (first.ring, first.gone))
  unfolding write
  write_above_eq h = ground arith

  first_piece : min len (gap r) ≤ length buf
  first_piece = omega arith

  capacity_below : r.write_pos < r.read_pos → capacity r ≡ gap r
  unfolding capacity
  capacity_below h = ground arith

  capacity_above :
      r.read_pos ≤ r.write_pos
      → capacity r ≡ gap r + (if r.read_pos == 0 then 0 else r.read_pos - 1)
  unfolding capacity
  capacity_above h = ground arith

  first-Wrote : Wrote r buf (min len (gap r)) (advance r (take (min len (gap r)) buf))
  first-Wrote =
      subst (λ n. Wrote r buf n (advance r (take (min len (gap r)) buf))) {x = 0 + min len (gap r)}
        (omega arith)
        (advance-Wrote buf 0 (min len (gap r)) (start-Wrote buf v) (omega arith) (omega arith))

  write_below : r.write_pos < r.read_pos → Fills r buf len (write r buf len)
  write_below h = elim (Bool-cases (ltb 0 len)) [
    | inl more ↦
        rw (write_below_eq h, more, write_behind_lem start buf v h (omega arith) b)
          (
            advance-Wrote buf 0 (min len (gap r)) (start-Wrote buf v) (omega arith) (omega arith),
            omega (arith, capacity_below h),
          )
    | inr done ↦ rw (write_below_eq h, done) (start-Wrote buf v, ground arith)
  ]
    where
      start : Pass
      start = record { ring = r; len = len; gone = 0 }

  -- The bytes that the first pass leaves to the second, and the ring that it leaves.
  abbrev left : ℕ
  left = if r.read_pos == 0 then 0 else len - min len (gap r)

  abbrev after : Ring
  after = advance r (take (min len (gap r)) buf)

  after_behind :
      r.read_pos ≤ r.write_pos
      → ltb 0 left ≡ true
      → (after.write_pos < after.read_pos)
        × (min len (gap r) + left ≤ length buf)
        × (gap after ≡ r.read_pos - 1)
  after_behind h more = ground (arith, length-take (min len (gap r)) buf)

  write_above : r.read_pos ≤ r.write_pos → Fills r buf len (write r buf len)
  write_above h = elim (Bool-cases (ltb 0 left)) [
    | inl more ↦
        rw
          (
            write_above_eq h,
            write_ahead_lem buf len v h l (omega arith),
            more,
            write_behind_lem (record { ring = after; len = left; gone = min len (gap r) }) buf
                first-Wrote.valid (after_behind h more).0 (after_behind h more).1 b,
          )
          (
            advance-Wrote buf (min len (gap r)) (min left (gap after)) first-Wrote (omega arith)
                (omega (arith, after_behind h more)),
            ground (arith, after_behind h more, capacity_above h),
          )
    | inr done ↦
        rw (write_above_eq h, write_ahead_lem buf len v h l (omega arith), done)
          (first-Wrote, ground (arith, capacity_above h))
  ]

  -- `ring_buffer_write` of `len` bytes into a valid ring takes as many as are free, at most `len`,
  -- puts exactly those, in order, behind what the ring holds, moves neither the read pointer nor the
  -- end, and leaves the ring valid.
  pub write_lem : Fills r buf len (write r buf len)
  write_lem = elim (dec_lt r.write_pos r.read_pos) [
    | yes h ↦ write_below h
    | no h ↦ write_above (omega arith)
  ]
