-- ===== src/Ring/Read.antt =====
-- `ring_buffer_read`: how many bytes it gives back, and which, and that it keeps the ring valid.
use native.Mathlib.Decide.{dec_lt}
use iot_edge_opc_proxy.Base.{
  ℕ, ◌+◌, ◌-◌, ◌^◌, ◌≤◌, ◌<◌, ◌≡◌, refl, sym, ap, ◌∙◌, List, [], ◌++◌, append_assoc, arith, ltb,
  if◌then◌else◌, drop, subst, length-append, length, length-take, length-drop, inl, inr, true,
  Bool-cases, min,
}
use iot_edge_opc_proxy.Ring.{Ring, read, read_ahead, read_behind, available, Pass, load}
use iot_edge_opc_proxy.Ring.Valid.{
  IsValid, run, consume, consume-IsValid, contents, contents-consume,
}

-- The `n` bytes `bs` have come out of the ring.
pub record HasRead (r : Ring) (bs : List ℕ) (n : ℕ) (r' : Ring) : Type 0 where
  pub count : length bs ≡ n
  pub valid : IsValid r'
  pub bytes : contents r ≡ bs ++ contents r'
  pub same_end : r'.end ≡ r.end
  pub same_writer : r'.write_pos ≡ r.write_pos

start-HasRead : {r : Ring} → IsValid r → HasRead r [] 0 r
start-HasRead v = record {
  count = refl;
  valid = v;
  bytes = refl;
  same_end = refl;
  same_writer = refl;
}

consume-HasRead :
    {r r' : Ring} {bs : List ℕ} (n k : ℕ)
    → HasRead r bs n r'
    → k ≤ run r'
    → HasRead r (bs ++ load r'.mem r'.read_pos k) (n + k) (consume r' k)
consume-HasRead {r} {r'} {bs} n k h le = record {
  count = ground (
    arith,
    length-append bs (load r'.mem r'.read_pos k),
    length-take k (drop r'.read_pos r'.mem),
    length-drop r'.read_pos r'.mem,
    h.count,
    h.valid,
  );
  valid = consume-IsValid k h.valid le;
  bytes =
      h.bytes
      ∙ ap (◌++◌ bs) (contents-consume k h.valid le)
      ∙ sym (append_assoc bs (load r'.mem r'.read_pos k) (contents (consume r' k)));
  same_end = h.same_end;
  same_writer = h.same_writer;
}

-- What a call of `ring_buffer_read` for `len` bytes gives.
abbrev pub Drains : Ring → ℕ → Ring × List ℕ × ℕ → Type 0
Drains r len (r', bs, n) = HasRead r bs n r' × (n ≡ min len (available r))

-- The second pass reads one more piece.
read_behind_lem :
    (p : Pass) (out : List ℕ)
    → IsValid p.ring
    → p.ring.read_pos ≤ p.ring.write_pos
    → p.gone + p.len < 2 ^ 64
    → let n = min p.len (run p.ring) in
      read_behind p out ≡ (consume p.ring n, out ++ load p.ring.mem p.ring.read_pos n, p.gone + n)
unfolding read_behind
read_behind_lem p out v h b = ground arith

module _ {r : Ring} (len : ℕ) (v : IsValid r) (b : len < 2 ^ 64) where
  abbrev piece : ℕ
  piece = min len (run r)

  -- A reader ahead of the writer reads up to the end first.
  abbrev left : ℕ
  left = len - piece

  wraps :
      r.write_pos < r.read_pos
      → ltb 0 left ≡ true
      → ((consume r piece).read_pos ≤ r.write_pos) × (run (consume r piece) ≡ r.write_pos)
  wraps h more = ground arith

  available-eq-run : available r ≡ run r + (if ltb r.write_pos r.read_pos then r.write_pos else 0)
  unfolding available
  available-eq-run = ground arith

  read_ahead_lem :
      r.write_pos < r.read_pos
      → read_ahead r len
        ≡ (record { ring = consume r piece; len = left; gone = piece }, load r.mem r.read_pos piece)
  unfolding read_ahead
  read_ahead_lem h = ground arith

  read_above_eq :
      r.write_pos < r.read_pos
      → let first = read_ahead r len in
        read r len ≡ (
          if ltb 0 first.0.len
          then read_behind first.0 first.1
          else (first.0.ring, first.1, first.0.gone))
  unfolding read
  read_above_eq h = ground arith

  read_below_eq :
      r.read_pos ≤ r.write_pos
      → read r len ≡ (
          if ltb 0 len
          then read_behind (record { ring = r; len = len; gone = 0 }) []
          else (r, [], 0))
  unfolding read
  read_below_eq h = ground arith

  first-HasRead : HasRead r (load r.mem r.read_pos piece) piece (consume r piece)
  first-HasRead =
      subst (λ n. HasRead r (load r.mem r.read_pos piece) n (consume r piece)) {x = 0 + piece}
        (omega arith) (consume-HasRead 0 piece (start-HasRead v) (omega arith))

  read_below : r.read_pos ≤ r.write_pos → Drains r len (read r len)
  read_below h = elim (Bool-cases (ltb 0 len)) [
    | inl more ↦
        rw (read_below_eq h, more, read_behind_lem start [] v h (omega arith))
          (
            consume-HasRead 0 piece (start-HasRead v) (omega arith),
            ground (arith, available-eq-run),
          )
    | inr done ↦ rw (read_below_eq h, done) (start-HasRead v, ground arith)
  ]
    where
      start : Pass
      start = record { ring = r; len = len; gone = 0 }

  read_above : r.write_pos < r.read_pos → Drains r len (read r len)
  read_above h = elim (Bool-cases (ltb 0 left)) [
    | inl more ↦
        rw
          (
            read_above_eq h,
            read_ahead_lem h,
            more,
            read_behind_lem (record { ring = consume r piece; len = left; gone = piece })
                (load r.mem r.read_pos piece) first-HasRead.valid (wraps h more).0 (omega arith),
          )
          (
            consume-HasRead piece (min left (run (consume r piece))) first-HasRead (omega arith),
            ground (arith, wraps h more, available-eq-run),
          )
    | inr done ↦
        rw (read_above_eq h, read_ahead_lem h, done)
          (first-HasRead, ground (arith, available-eq-run))
  ]

  -- `ring_buffer_read` of `len` bytes from a valid ring gives back as many as the ring holds, at most
  -- `len`, namely the oldest ones in order, moves neither the write pointer nor the end, and leaves
  -- the ring valid.
  pub read_lem : Drains r len (read r len)
  read_lem = elim (dec_lt r.write_pos r.read_pos) [
    | yes h ↦ read_above h
    | no h ↦ read_below (omega arith)
  ]
