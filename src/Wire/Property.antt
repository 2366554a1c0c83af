-- ===== src/Wire/Property.antt =====
-- Properties: `prx_property_t` of inc/prx_types.h and its encoding in src/io_types.c.
pub mod RoundTrip
use iot_edge_opc_proxy.Base.{ℕ, Bool, ◌&&◌, ◌||◌, ltb, leb, ◌==◌, if◌then◌else◌}
use iot_edge_opc_proxy.Base.Int.{ℤ, pos, negsuc}
use iot_edge_opc_proxy.Error.{Error}
use iot_edge_opc_proxy.Wire.{Bytes, Encode, Decode, fails, ◌>>=◌, ◌>>>◌, give, give_up}
use iot_edge_opc_proxy.Wire.Cmp.{Cmp}
use iot_edge_opc_proxy.Wire.Codec.{
  Allocator, mpack_write_integer, mpack_write_uinteger, mpack_write_bin, mpack_write_type_begin,
  mpack_write_type_end, mpack_read_type_begin, mpack_read_type_end, mpack_read_uinteger,
}
use iot_edge_opc_proxy.Wire.Fields.{decode_int32, decode_bin_default, encode_object, decode_object}
use iot_edge_opc_proxy.Wire.Info.{
  AddrInfo, IfAddrInfo, FileInfo, Multicast, encode_addrinfo, decode_addrinfo, encode_ifaddrinfo,
  decode_ifaddrinfo, encode_file_info, decode_file_info, encode_multicast, decode_multicast,
}

-- The member of the union that was stored last.
pub data Value : Type 0 where
  number : ℕ → Value
  mcast : Multicast → Value
  bin : Bytes → Value
  file_info : FileInfo → Value
  addr_info : AddrInfo → Value
  itf_info : IfAddrInfo → Value

pub record Property : Type 0 where
  pub type : ℤ
  pub property : Value

-- __prx_so_max; the options below it are those above prx_so_unknown.
abbrev pub so_max : ℕ
so_max = 34

-- prx_so_ip_multicast_join and prx_so_ip_multicast_leave.
abbrev is_group : ℕ → Bool
is_group n = n == 31 || n == 32

-- What the code does for a type: which object, a binary, a number, or none.
pub data Kind : Type 0 where
  of_mcast : Kind
  of_addr_info : Kind
  of_itf_info : Kind
  of_file_info : Kind
  no_object : Kind
  of_bin : Kind
  of_number : Kind
  no_value : Kind

abbrev object_kind : ℕ → Kind
object_kind n =
    if is_group n
    then of_mcast
    else if n == 201
    then of_addr_info
    else if n == 202
    then of_itf_info
    else if n == 200
    then of_file_info
    else no_object

-- The tests of `io_encode_prx_property` and `io_decode_prx_property`, which are the same.
unfoldable pub kind_of : ℤ → Kind
kind_of (pos n) =
    if is_group n || leb 200 n
    then object_kind n
    else if leb 100 n && ltb n 103
    then of_bin
    else if ltb 0 n && ltb n so_max
    then of_number
    else no_value
kind_of (negsuc n) = no_value

module _ (m : Cmp) where
  -- A union whose last member is another than the type says is not encoded here.
  unfoldable pub encode_value : Kind → Value → Encode
  encode_value of_mcast (mcast x) = encode_object m (encode_multicast m x)
  encode_value of_addr_info (addr_info x) = encode_object m (encode_addrinfo m x)
  encode_value of_itf_info (itf_info x) = encode_object m (encode_ifaddrinfo m x)
  encode_value of_file_info (file_info x) = encode_object m (encode_file_info m x)
  encode_value no_object x = encode_object m (λ c. fails Error.writing)
  encode_value of_bin (bin x) = mpack_write_bin m x
  encode_value of_number (number x) = mpack_write_uinteger m x
  encode_value no_value x = λ c. fails Error.writing
  encode_value k x = λ c. fails Error.fault

  unfoldable pub encode_property : Property → Encode
  unfolding encode_value kind_of
  encode_property p =
      mpack_write_type_begin m 2
      >>> mpack_write_integer m p.type
      >>> encode_value (kind_of p.type) p.property
      >>> mpack_write_type_end m

  -- A null object is er_invalid_format.
  abbrev object_value : {A : Type 0} → Decode A → (A → Value) → Decode Value
  object_value decode make = do
    x ← decode_object m (give_up Error.invalid_format) decode
    give (make x)

  unfoldable pub decode_value : Allocator → Kind → Decode Value
  decode_value alloc of_mcast = object_value (decode_multicast m) mcast
  decode_value alloc of_addr_info = object_value (decode_addrinfo m alloc) addr_info
  decode_value alloc of_itf_info = object_value (decode_ifaddrinfo m) itf_info
  decode_value alloc of_file_info = object_value (decode_file_info m) file_info
  decode_value alloc no_object = object_value (give_up Error.invalid_format) number
  decode_value alloc of_bin = do x ← decode_bin_default m alloc; give (bin x)
  decode_value alloc of_number = do x ← mpack_read_uinteger m; give (number x)
  decode_value alloc no_value = give_up Error.invalid_format

  unfoldable pub decode_property : Allocator → Decode Property
  unfolding decode_value kind_of
  decode_property alloc = do
    _ ← mpack_read_type_begin m
    type ← decode_int32 m
    property ← decode_value alloc (kind_of type)
    _ ← mpack_read_type_end m
    give (record { type = type; property = property })
