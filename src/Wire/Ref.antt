-- ===== src/Wire/Ref.antt =====
-- References: `io_ref_t`, the 16 bytes of a uuid, with what src/io_ref.c does to them as two words of
-- 64 bits, and their encoding with the message pack codec.
pub mod RoundTrip
use iot_edge_opc_proxy.Base.{ℕ, List, [], ◌∷◌, ◌++◌, Option, none, some, take, drop}
use iot_edge_opc_proxy.Wire.{Bytes, Encode, Decode, ◌>>=◌, ◌>>>◌, give}
use iot_edge_opc_proxy.Wire.Cmp.{Cmp}
use iot_edge_opc_proxy.Wire.Codec.{
  mpack_write_bin, mpack_write_type_begin, mpack_write_type_end, mpack_read_type_begin,
  mpack_read_type_end,
}
use iot_edge_opc_proxy.Wire.Fields.{decode_bin_fixed, encode_object, decode_object}
use iot_edge_opc_proxy.Wire.Address.{Address, zeros, inet6}

-- `un.u8`.
abbrev pub Ref : Type 0
Ref = Bytes

abbrev pub no_ref : Ref
no_ref = zeros 16

-- `un.u64[0]` and `un.u64[1]`, as the bytes they consist of, and what an assignment to each leaves.
abbrev pub low : Ref → Bytes
low ref = take 8 ref

abbrev pub high : Ref → Bytes
high ref = drop 8 ref

abbrev pub put_low : Bytes → Ref → Ref
put_low word ref = word ++ high ref

abbrev pub put_high : Bytes → Ref → Ref
put_high word ref = low ref ++ word

-- `io_ref_copy`, to a destination that is there.
unfoldable pub copy : Ref → Ref → Ref
copy src dst = put_high (high src) (put_low (low src) dst)

-- `io_ref_swap` of two references, with its `tmp`.
unfoldable pub swap : Ref → Ref → Ref × Ref
swap ref1 ref2 =
    let tmp = low ref1 in
    let first = put_low (low ref2) ref1 in
    let second = put_low tmp ref2 in
    let tmp2 = high first in (put_high (high second) first, put_high tmp2 second)

module _ (m : Cmp) where
  unfoldable pub encode_ref : Ref → Encode
  encode_ref ref = mpack_write_type_begin m 1 >>> mpack_write_bin m ref >>> mpack_write_type_end m

  -- What is stored over a reference of a message that `memset` has made.
  unfoldable pub decode_ref : Decode Ref
  decode_ref = do
    _ ← mpack_read_type_begin m
    id ← decode_bin_fixed m no_ref
    _ ← mpack_read_type_end m
    give id

  -- A reference as a member.
  abbrev pub encode_ref_member : Ref → Encode
  encode_ref_member ref = encode_object m (encode_ref ref)

  abbrev pub decode_ref_member : Decode Ref
  decode_ref_member = decode_object m (give no_ref) decode_ref
