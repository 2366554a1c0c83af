-- ===== src/Wire/Parts.antt =====
-- Strings, binaries and objects as members.
use Prim.Native.Nat.{◌%◌, ◌^◌}
use iot_edge_opc_proxy.Base.{
  ℕ, suc, ◌+◌, ◌-◌, ◌<◌, ◌≤◌, ◌≡◌, refl, ap, ◌∙◌, arith, true, false, [], ◌∷◌, ◌++◌, append_assoc,
  append-nil, ◌==◌, length, take, take_all, take-append, drop-append, drop_all,
}
use iot_edge_opc_proxy.Ring.{size_sub}
use iot_edge_opc_proxy.Wire.{Bytes, done, Ctx, Decode, ◌>>=◌, give}
use iot_edge_opc_proxy.Wire.Cmp.{Cmp, IsCmp}
use iot_edge_opc_proxy.Wire.Codec.{
  Allocator, fixed_validator, written, mpack_write_string, mpack_write_bin, cmp_stream_read,
  mpack_read_string, mpack_read_bin, string_size, string_alloc, string_body, bin_size, bin_alloc,
  bin_body,
}
use iot_edge_opc_proxy.Wire.Fields.{
  decode_bin_fixed, decode_string_fixed, decode_bin_default, decode_string_default,
}
use iot_edge_opc_proxy.Wire.Chain.{ctx, Codes, more, less, same}

-- The validator of a buffer that is large enough.
fits : (room size : ℕ) → size ≤ room → fixed_validator room size ≡ done size
unfolding fixed_validator
fits room size h = ground arith

-- An allocator that always finds the room.
abbrev pub Grants : Allocator → Type 0
Grants alloc = (n : ℕ) → alloc n ≡ done n

module _ (m : Cmp) (law : IsCmp m) where
  whole : (v : Bytes) → length v < 2 ^ 32 → take (length v % 2 ^ 32) v ≡ v
  whole v h = ap (λ n. take n v) {y = length v} (omega arith) ∙ take_all (length v) v (omega arith)

  string_body_lem :
      (c : Ctx) (v rest : Bytes)
      → length v + 1 < 2 ^ 32
      → (string_body m c (length v) (length v + 1) (v ++ rest)).1 ≡ done (v, ctx rest (c.index - 1))
  unfolding string_body cmp_stream_read
  string_body_lem c v rest h =
      let size : (length v + 1 == (length v + 1) % 2 ^ 32) ≡ true = ground arith in
      rw (size, take-append v rest, same (length v), drop-append v rest) refl

  bin_body_lem :
      (c : Ctx) (v rest : Bytes)
      → (bin_body m c (length v) (length v) (v ++ rest)).1 ≡ done (v, ctx rest (c.index - 1))
  unfolding bin_body cmp_stream_read
  bin_body_lem c v rest =
      rw (same (length v), take-append v rest, same (length v), drop-append v rest) refl

  -- A string goes through every allocator that gives room for it and its 0.
  string_item :
      {i : ℕ} (v : Bytes) (alloc : Allocator) (rest : Bytes)
      → length v + 1 < 2 ^ 32
      → alloc (length v + 1) ≡ done (length v + 1)
      → (mpack_read_string m alloc (ctx ((law.str_size (length v) ++ v) ++ rest) (suc i))).1
        ≡ done (v, ctx rest i)
  unfolding mpack_read_string string_size string_alloc
  string_item {i} v alloc rest h a =
      let want : (length v + 1) % 2 ^ 32 ≡ length v + 1 = omega arith in
      rw
        (
          more i,
          append_assoc (law.str_size (length v)) v rest,
          law.read_str_size_lem (length v) (v ++ rest) (omega arith),
          string_size,
          want,
          a,
          string_alloc,
        )
        (string_body_lem (ctx (law.str_size (length v) ++ (v ++ rest)) (suc i)) v rest h
          ∙ ap (λ n. done (v, ctx rest n)) (less i))

  pub string_with :
      {i : ℕ} {d : Decode Bytes} (v : Bytes) (alloc : Allocator)
      → length v + 1 < 2 ^ 32
      → alloc (length v + 1) ≡ done (length v + 1)
      → ((c : Ctx) → d c ≡ (mpack_read_string m alloc c).1)
      → Codes (suc i) i (mpack_write_string m v) d v
  unfolding mpack_write_string written
  string_with {i} v alloc h a e = record {
    item = law.str_size (length v) ++ v;
    puts = λ c. (
      size_sub c.index 1,
      rw (whole v (omega arith), law.write_str_lem c.stream v (omega arith)) refl,
    );
    takes = λ rest.
        e (ctx ((law.str_size (length v) ++ v) ++ rest) (suc i)) ∙ string_item v alloc rest h a;
  }

  bin_item :
      {i : ℕ} (v : Bytes) (alloc : Allocator) (rest : Bytes)
      → length v < 2 ^ 32
      → alloc (length v) ≡ done (length v)
      → (mpack_read_bin m alloc (ctx ((law.bin_size (length v) ++ v) ++ rest) (suc i))).1
        ≡ done (v, ctx rest i)
  unfolding mpack_read_bin bin_size
  bin_item {i} [] alloc rest h a =
      rw (more i, append-nil (law.bin_size 0), law.read_bin_size_lem 0 rest (omega arith), less i)
        refl
  bin_item {i} (b ∷ bs) alloc rest h a =
      let v = b ∷ bs in
      let some_bytes : (length v == 0) ≡ false = ground arith in
      rw
        (
          more i,
          append_assoc (law.bin_size (length v)) v rest,
          law.read_bin_size_lem (length v) (v ++ rest) h,
          some_bytes,
          a,
          bin_alloc,
        )
        (bin_body_lem (ctx (law.bin_size (length v) ++ (v ++ rest)) (suc i)) v rest
          ∙ ap (λ n. done (v, ctx rest n)) (less i))

  pub bin_with :
      {i : ℕ} {d : Decode Bytes} (v : Bytes) (alloc : Allocator)
      → length v < 2 ^ 32
      → alloc (length v) ≡ done (length v)
      → ((c : Ctx) → d c ≡ (mpack_read_bin m alloc c).1)
      → Codes (suc i) i (mpack_write_bin m v) d v
  unfolding mpack_write_bin written
  bin_with {i} v alloc h a e = record {
    item = law.bin_size (length v) ++ v;
    puts = λ c. (size_sub c.index 1, rw (whole v h, law.write_bin_lem c.stream v h) refl);
    takes = λ rest.
        e (ctx ((law.bin_size (length v) ++ v) ++ rest) (suc i)) ∙ bin_item v alloc rest h a;
  }

  -- A string that a buffer of `room` bytes holds with its 0.
  pub string_fixed :
      {i : ℕ} (room : ℕ) (v : Bytes)
      → length v < room
      → room < 2 ^ 32
      → Codes (suc i) i (mpack_write_string m v) (decode_string_fixed m room) v
  unfolding decode_string_fixed
  string_fixed room v h k =
      string_with v (fixed_validator room) (omega arith) (fits room (length v + 1) (omega arith))
        (λ c. refl)

  -- A binary that fills its buffer.
  pub bin_fixed :
      {i : ℕ} (old v : Bytes)
      → length v ≡ length old
      → length v < 2 ^ 32
      → Codes (suc i) i (mpack_write_bin m v) (decode_bin_fixed m old) v
  unfolding decode_bin_fixed ◌>>=◌ give
  bin_fixed {i} old v h k =
      let x =
        bin_with {i = i} {d = λ c. (mpack_read_bin m (fixed_validator (length old)) c).1} v
          (fixed_validator (length old)) k (fits (length old) (length v) (omega arith))
          (λ c. refl) in
      record {
        item = x.item;
        puts = x.puts;
        takes = λ rest. rw (x.takes rest, drop_all (length v) old (omega arith), append-nil v) refl;
      }

  pub string_default :
      {i : ℕ} (alloc : Allocator) (v : Bytes)
      → Grants alloc
      → length v + 1 < 2 ^ 32
      → Codes (suc i) i (mpack_write_string m v) (decode_string_default m alloc) v
  unfolding decode_string_default
  string_default alloc v g h = string_with v alloc h (g (length v + 1)) (λ c. refl)

  pub bin_default :
      {i : ℕ} (alloc : Allocator) (v : Bytes)
      → Grants alloc
      → length v < 2 ^ 32
      → Codes (suc i) i (mpack_write_bin m v) (decode_bin_default m alloc) v
  unfolding decode_bin_default
  bin_default alloc v g h = bin_with v alloc h (g (length v)) (λ c. refl)
