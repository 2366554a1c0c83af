-- ===== src/Wire/Codec/Strings.antt =====
-- What a read of a string stores in a buffer of fixed room.
use Prim.Native.Nat.{◌%◌, ◌^◌}
use iot_edge_opc_proxy.Base.{
  ℕ, ◌+◌, ◌<◌, ◌≤◌, ◌≡◌, inl, inr, refl, arith, true, false, Bool-cases, [], ◌∷◌, length,
  length-append, length-take, take, take_all, leb, ◌==◌,
}
use iot_edge_opc_proxy.Error.{Error}
use iot_edge_opc_proxy.Wire.{Bytes, fails, Ctx}
use iot_edge_opc_proxy.Wire.Cmp.{Cmp, Outcome, good, bad}
use iot_edge_opc_proxy.Wire.Codec.{
  cmp_stream_read, fixed_validator, mpack_read_string, string_size, string_alloc, string_body,
}

-- The bytes that a call has stored.
abbrev stored_bytes : {A : Type 0} → Bytes × A → Bytes
stored_bytes (bytes, r) = bytes

module _ (m : Cmp) where
  string_body-stored :
      (c : Ctx) (len32 size : ℕ) (s : Bytes)
      → len32 + 1 < 2 ^ 32
      → length (string_body m c len32 size s).0 ≤ size
  unfolding string_body cmp_stream_read
  string_body-stored c len32 size s h = elim (Bool-cases (size == (len32 + 1) % 2 ^ 32)) [
    | inr e ↦ rw e (omega arith)
    | inl e ↦
        (let room : size ≡ len32 + 1 = ground (arith, e, h) in
          let few : length (take len32 s) ≤ len32 =
            (let k = length-take len32 s in omega (arith, k)) in
          elim (Bool-cases (length (take len32 s) == len32)) [
            | inl a ↦
                rw (e, a)
                  (let k = length-append (take len32 s) (0 ∷ []) in omega (arith, k, few, room))
            | inr a ↦ rw (e, a) (omega (arith, few, room))
          ])
  ]

  string_body-short :
      (c : Ctx) (len32 : ℕ) (s : Bytes)
      → (len32 + 1) % 2 ^ 32 ≡ 0
      → length s < len32
      → string_body m c len32 0 s ≡ (s, fails Error.reading)
  unfolding string_body cmp_stream_read
  string_body-short c len32 s w h =
      let whole = take_all len32 s (omega (arith, h)) in
      let short : (length s == len32) ≡ false = ground (arith, h) in rw (w, whole, short) refl

  string_alloc-stored :
      (c : Ctx) (len32 room : ℕ) (s : Bytes)
      → len32 + 1 < 2 ^ 32
      → length (string_alloc m c len32 s (fixed_validator room (len32 + 1))).0 ≤ room
  unfolding string_alloc fixed_validator
  string_alloc-stored c len32 room s h = elim (Bool-cases (leb (len32 + 1) room)) [
    | inl e ↦ rw e (
        let few = string_body-stored c len32 (len32 + 1) s h in
        let fits : len32 + 1 ≤ room = ground (arith, e) in omega (arith, few, fits))
    | inr e ↦ rw e (omega arith)
  ]

  string_size-stored :
      (c : Ctx) (room : ℕ) (o : Outcome (ℕ × Bytes))
      → ((len32 : ℕ) (s : Bytes) → o ≡ good (len32, s) → len32 + 1 < 2 ^ 32)
      → length (string_size m (fixed_validator room) c o).0 ≤ room
  unfolding string_size
  string_size-stored c room (good (len32, s)) h =
      let few = h len32 s refl in
      let whole : (len32 + 1) % 2 ^ 32 ≡ len32 + 1 = omega (arith, few) in
      rw whole (string_alloc-stored c len32 room s few)
  string_size-stored c room (bad e) h = omega arith

  -- Into a buffer of `room` bytes a read of a string stores `room` bytes at most, the closing 0
  -- included, whether it succeeds or fails, if the header on the stream does not say 2^32 - 1.
  pub mpack_read_string-stored :
      (room : ℕ) (c : Ctx)
      → ((len32 : ℕ) (s : Bytes) → m.read_str_size c.stream ≡ good (len32, s) → len32 + 1 < 2 ^ 32)
      → length (mpack_read_string m (fixed_validator room) c).0 ≤ room
  unfolding mpack_read_string
  mpack_read_string-stored room c h = elim (Bool-cases (c.index == 0)) [
    | inl e ↦ rw e (omega arith)
    | inr e ↦ rw e (string_size-stored c room (m.read_str_size c.stream) h)
  ]

  -- If the header says 2^32 - 1 and fewer bytes follow it, then a read of a string as a member that is
  -- left stores all the bytes that follow, however small the room of its buffer is, and fails with
  -- er_reading.
  pub mpack_read_string-wrapped :
      (room : ℕ) (c : Ctx) (len32 : ℕ) (s : Bytes)
      → 0 < c.index
      → m.read_str_size c.stream ≡ good (len32, s)
      → len32 + 1 ≡ 2 ^ 32
      → length s < len32
      → mpack_read_string m (fixed_validator room) c ≡ (s, fails Error.reading)
  unfolding mpack_read_string fixed_validator
  mpack_read_string-wrapped room c len32 s i h top few =
      let left : (c.index == 0) ≡ false = ground (arith, i) in
      let wraps : (len32 + 1) % 2 ^ 32 ≡ 0 = omega (arith, top) in
      let any : leb 0 room ≡ true = ground arith in
      rw (left, h, string_size, wraps, any, string_alloc) (string_body-short c len32 s wraps few)
