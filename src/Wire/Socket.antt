-- ===== src/Wire/Socket.antt =====
-- Socket properties: `prx_socket_properties_t` of inc/prx_types.h and its encoding in src/io_types.c.
pub mod RoundTrip
use Prim.Native.Nat.{◌%◌, ◌^◌}
use iot_edge_opc_proxy.Base.{
  ℕ, zero, suc, Bool, true, false, List, [], ◌∷◌, set, replicate, ltb, ◌&&◌, if◌then◌else◌,
}
use iot_edge_opc_proxy.Base.Int.{ℤ, pos, negsuc}
use iot_edge_opc_proxy.Error.{Error}
use iot_edge_opc_proxy.Wire.{Encode, Decode, Ctx, Result, done, fails, ◌>>=◌, ◌>>>◌, give, give_up}
use iot_edge_opc_proxy.Wire.Cmp.{Cmp}
use iot_edge_opc_proxy.Wire.Codec.{
  Allocator, mpack_write_integer, mpack_write_uinteger, mpack_write_array, mpack_read_array,
  mpack_write_type_begin, mpack_write_type_end, mpack_read_type_begin, mpack_read_type_end,
  mpack_read_uinteger,
}
use iot_edge_opc_proxy.Wire.Fields.{
  decode_int32, decode_uint32, in_object, back, encode_object, decode_object,
}
use iot_edge_opc_proxy.Wire.Address.{Address}
use iot_edge_opc_proxy.Wire.Info.{encode_address_member, decode_address_member}
use iot_edge_opc_proxy.Wire.Property.{Property, number, so_max, encode_property, decode_property}

pub record SocketProperties : Type 0 where
  pub family : ℤ
  pub sock_type : ℤ
  pub proto_type : ℤ
  pub flags : ℕ
  pub timeout : ℕ
  pub address : Address
  pub options : List Property

-- `type > prx_so_unknown && type < __prx_so_max`.
unfoldable pub used : Property → Bool
used p = elim (p.type) [ pos n ↦ ltb 0 n && ltb n so_max | negsuc n ↦ false ]

-- The option that `memset` leaves.
abbrev pub no_option : Property
no_option = record { type = pos 0; property = number 0 }

abbrev pub no_options : List Property
no_options = replicate so_max no_option

-- `size`, with one option counted or not.
abbrev pub count_if : Bool → ℕ → ℕ
count_if b n = if b then suc n else n

unfoldable pub count_used : List Property → ℕ
count_used [] = 0
count_used (p ∷ ps) = count_if (used p) (count_used ps)

-- `memcpy` to the slot of the option's type.
abbrev pub slot : Property → ℕ
slot p = elim (p.type) [ pos n ↦ n | negsuc n ↦ 0 ]

unfoldable pub place : Property → List Property → List Property
place p options = if used p then set options (slot p) p else options

module _ (m : Cmp) where
  abbrev pub encode_if : Bool → Property → Encode → Encode
  encode_if true p e = encode_object m (encode_property m p) >>> e
  encode_if false p e = e

  -- The second loop, on the context of the array.
  unfoldable pub encode_options : List Property → Encode
  encode_options [] = λ c. done c
  encode_options (p ∷ ps) = encode_if (used p) p (encode_options ps)

  unfoldable pub encode_array : ℕ → Encode → Encode
  encode_array size encode c = in_object m encode (mpack_write_array m size c)

  unfoldable pub encode_socket_properties : SocketProperties → Encode
  encode_socket_properties sp =
      mpack_write_type_begin m 7
      >>> mpack_write_integer m sp.family
      >>> mpack_write_integer m sp.sock_type
      >>> mpack_write_integer m sp.proto_type
      >>> mpack_write_uinteger m sp.flags
      >>> mpack_write_uinteger m sp.timeout
      >>> encode_address_member m sp.address
      >>> encode_array (count_used sp.options) (encode_options sp.options)
      >>> mpack_write_type_end m

  -- A null object has no members, so its type is missing.
  unfoldable pub decode_option : Allocator → Decode Property
  decode_option alloc = decode_object m (give_up Error.invalid_format) (decode_property m alloc)

  -- The loop, with the rounds to go.
  unfoldable pub decode_options : Allocator → ℕ → List Property → Decode (List Property)
  decode_options alloc zero options = give options
  decode_options alloc (suc n) options =
      decode_option alloc >>= λ option. decode_options alloc n (place option options)

  unfoldable pub from_array :
      {A : Type 0} → (ℕ → Decode A) → Result (ℕ × Ctx × Ctx) → Result (A × Ctx)
  from_array decode (fails r) = fails r
  from_array decode (done (size, arr, c)) = back m c (decode size arr)

  unfoldable pub decode_array : {A : Type 0} → (ℕ → Decode A) → Decode A
  decode_array decode c = from_array decode (mpack_read_array m c)

  unfoldable pub decode_socket_properties : Allocator → Decode SocketProperties
  decode_socket_properties alloc = do
    _ ← mpack_read_type_begin m
    family ← decode_int32 m
    sock_type ← decode_int32 m
    proto_type ← decode_int32 m
    flags ← decode_uint32 m
    timeout ← mpack_read_uinteger m
    address ← decode_address_member m
    options ← decode_array (λ size. decode_options alloc size no_options)
    _ ← mpack_read_type_end m
    give (record {
      family = family;
      sock_type = sock_type;
      proto_type = proto_type;
      flags = flags;
      timeout = timeout;
      address = address;
      options = options;
    })
