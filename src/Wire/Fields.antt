-- ===== src/Wire/Fields.antt =====
-- The members of the encoded types: the decoders of inc/io_codec.h that narrow an integer, its macros
-- for objects, and the decoders of src/io_codec.c for strings and binaries of fixed or allocated room.
use Prim.Native.Nat.{◌%◌, ◌^◌}
use iot_edge_opc_proxy.Base.{
  ℕ, ◌-◌, false, ◌++◌, Option, none, some, ltb, ◌==◌, if◌then◌else◌, length, drop,
}
use iot_edge_opc_proxy.Base.Int.{ℤ, pos, negsuc, eqb_ℤ}
use iot_edge_opc_proxy.Error.{Error}
use iot_edge_opc_proxy.Wire.{Bytes, Result, done, fails, Ctx, Encode, Decode, ◌>>=◌, give, give_up}
use iot_edge_opc_proxy.Wire.Cmp.{Cmp}
use iot_edge_opc_proxy.Wire.Codec.{
  Allocator, fixed_validator, mpack_write_object, mpack_read_integer, mpack_read_uinteger,
  mpack_read_string, mpack_read_bin, mpack_read_object,
}

-- `(int32_t)i64`.
abbrev pub signed_32 : ℕ → ℤ
signed_32 low = if ltb low (2 ^ 31) then pos low else negsuc (2 ^ 32 - 1 - low)

abbrev pub to_int32 : ℤ → ℤ
to_int32 (pos n) = signed_32 (n % 2 ^ 32)
to_int32 (negsuc n) = signed_32 (2 ^ 32 - 1 - n % 2 ^ 32)

-- `(uint64_t)*val == u64 ? er_ok : er_invalid_format`, behind the cast to `w` bits.
unfoldable pub narrow : ℕ → ℕ → Decode ℕ
narrow w u64 = if u64 % 2 ^ w == u64 then give (u64 % 2 ^ w) else give_up Error.invalid_format

unfoldable pub narrow_int : ℤ → Decode ℤ
narrow_int i64 =
    if eqb_ℤ (to_int32 i64) i64 then give (to_int32 i64) else give_up Error.invalid_format

module _ (m : Cmp) where
  unfoldable pub decode_uint32 : Decode ℕ
  unfolding narrow
  decode_uint32 = mpack_read_uinteger m >>= narrow 32

  unfoldable pub decode_uint16 : Decode ℕ
  unfolding narrow
  decode_uint16 = mpack_read_uinteger m >>= narrow 16

  unfoldable pub decode_uint8 : Decode ℕ
  unfolding narrow
  decode_uint8 = mpack_read_uinteger m >>= narrow 8

  unfoldable pub decode_int32 : Decode ℤ
  unfolding narrow_int
  decode_int32 = mpack_read_integer m >>= narrow_int

  -- `__io_encode_object`, with what the type encodes.
  unfoldable pub in_object : Encode → Result (Ctx × Ctx) → Result Ctx
  in_object encode (fails r) = fails r
  in_object encode (done (c, obj)) = elim (encode obj) [
    | done obj' ↦ done (record c { stream = obj'.stream })
    | fails r ↦ fails r
  ]

  unfoldable pub encode_object : Encode → Encode
  unfolding in_object
  encode_object encode c = in_object encode (mpack_write_object m false c)

  -- `__io_decode_object`: a null object leaves the member as it is.
  unfoldable pub back : {A : Type 0} → Ctx → Result (A × Ctx) → Result (A × Ctx)
  back c (done (a, obj)) = done (a, record c { stream = obj.stream })
  back c (fails r) = fails r

  unfoldable pub from_object :
      {A : Type 0} → Decode A → Decode A → Result (Option Ctx × Ctx) → Result (A × Ctx)
  unfolding back
  from_object null decode (fails r) = fails r
  from_object null decode (done (none, c)) = null c
  from_object null decode (done (some obj, c)) = back c (decode obj)

  unfoldable pub decode_object : {A : Type 0} → Decode A → Decode A → Decode A
  unfolding from_object
  decode_object null decode c = from_object null decode (mpack_read_object m c)

  -- `io_decode_bin_fixed` over what the buffer has.
  unfoldable pub decode_bin_fixed : Bytes → Decode Bytes
  decode_bin_fixed old = (λ c. (mpack_read_bin m (fixed_validator (length old)) c).1) >>= λ bin.
      give (bin ++ drop (length bin) old)

  -- `io_decode_string_fixed`: the characters in front of the 0 that is put behind them.
  unfoldable pub decode_string_fixed : ℕ → Decode Bytes
  decode_string_fixed room c = (mpack_read_string m (fixed_validator room) c).1

  -- `io_decode_bin_default` and `io_decode_string_default`, with the allocator of the context.
  unfoldable pub decode_bin_default : Allocator → Decode Bytes
  decode_bin_default alloc c = (mpack_read_bin m alloc c).1

  unfoldable pub decode_string_default : Allocator → Decode Bytes
  decode_string_default alloc c = (mpack_read_string m alloc c).1
