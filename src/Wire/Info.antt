-- ===== src/Wire/Info.antt =====
-- What inc/prx_types.h says of addresses, interfaces, files and multicast groups, and its encoding in
-- src/io_types.c.
pub mod RoundTrip
use Prim.Native.Nat.{◌%◌, ◌^◌}
use iot_edge_opc_proxy.Base.{ℕ, ◌-◌, List, [], Option, none, some, if◌then◌else◌, length}
use iot_edge_opc_proxy.Base.Int.{ℤ, pos, negsuc, eqb_ℤ}
use iot_edge_opc_proxy.Error.{Error}
use iot_edge_opc_proxy.Wire.{
  Bytes, Encode, Decode, Ctx, Result, done, fails, ◌>>=◌, ◌>>>◌, give, give_up,
}
use iot_edge_opc_proxy.Wire.Cmp.{Cmp}
use iot_edge_opc_proxy.Wire.Codec.{
  Allocator, mpack_write_integer, mpack_write_uinteger, mpack_write_string, mpack_write_bin,
  mpack_write_type_begin, mpack_write_type_end, mpack_read_type_begin, mpack_read_type_end,
  mpack_read_uinteger,
}
use iot_edge_opc_proxy.Wire.Fields.{
  decode_int32, decode_uint8, decode_bin_fixed, decode_string_fixed, decode_string_default,
  encode_object, decode_object,
}
use iot_edge_opc_proxy.Wire.Address.{
  Address, unspec, encode_address, decode_address, zeros, af_inet, af_inet6,
}

pub record AddrInfo : Type 0 where
  pub address : Address
  pub name : Option Bytes

pub record IfAddrInfo : Type 0 where
  pub address : Address
  pub prefix : ℕ
  pub flags : ℕ
  pub name : Bytes
  pub index : ℤ
  pub broadcast_addr : Address

pub record FileInfo : Type 0 where
  pub inode_number : ℕ
  pub device_id : ℕ
  pub type : ℤ
  pub total_size : ℕ
  pub last_atime : ℕ
  pub last_mtime : ℕ

-- `prx_multicast_option_t`, of the families that have a group, and of any other.
pub data Multicast : Type 0 where
  group : (itf_index : ℤ) (addr : Bytes) → Multicast
  group6 : (itf_index : ℤ) (addr : Bytes) (scope_id : ℕ) → Multicast
  no_group : (family itf_index : ℤ) → Multicast

-- MAX_INTERFACE_LENGTH.
abbrev pub max_interface : ℕ
max_interface = 128

-- `(uint32_t)i32`.
abbrev pub to_uint32 : ℤ → ℕ
to_uint32 (pos n) = n % 2 ^ 32
to_uint32 (negsuc n) = 2 ^ 32 - 1 - n % 2 ^ 32

-- `s ? s : ""`.
abbrev pub or_empty : Option Bytes → Bytes
or_empty none = []
or_empty (some s) = s

module _ (m : Cmp) where
  -- A socket address as a member.
  abbrev pub encode_address_member : Address → Encode
  encode_address_member a = encode_object m (encode_address m a)

  abbrev pub decode_address_member : Decode Address
  decode_address_member = decode_object m (give unspec) (decode_address m)

  unfoldable pub encode_addrinfo : AddrInfo → Encode
  encode_addrinfo ai =
      mpack_write_type_begin m 2
      >>> encode_address_member ai.address
      >>> mpack_write_string m (or_empty ai.name)
      >>> mpack_write_type_end m

  unfoldable pub decode_addrinfo : Allocator → Decode AddrInfo
  decode_addrinfo alloc = do
    _ ← mpack_read_type_begin m
    address ← decode_address_member
    name ← decode_string_default m alloc
    _ ← mpack_read_type_end m
    give (record { address = address; name = some name })

  unfoldable pub encode_ifaddrinfo : IfAddrInfo → Encode
  encode_ifaddrinfo ifa =
      mpack_write_type_begin m 6
      >>> encode_address_member ifa.address
      >>> mpack_write_uinteger m ifa.prefix
      >>> mpack_write_uinteger m ifa.flags
      >>> mpack_write_string m ifa.name
      >>> mpack_write_integer m ifa.index
      >>> encode_address_member ifa.broadcast_addr
      >>> mpack_write_type_end m

  unfoldable pub decode_ifaddrinfo : Decode IfAddrInfo
  decode_ifaddrinfo = do
    _ ← mpack_read_type_begin m
    address ← decode_address_member
    prefix ← decode_uint8 m
    flags ← decode_uint8 m
    name ← decode_string_fixed m max_interface
    index ← decode_int32 m
    broadcast_addr ← decode_address_member
    _ ← mpack_read_type_end m
    give (record {
      address = address;
      prefix = prefix;
      flags = flags;
      name = name;
      index = index;
      broadcast_addr = broadcast_addr;
    })

  unfoldable pub encode_file_info : FileInfo → Encode
  encode_file_info fi =
      mpack_write_type_begin m 6
      >>> mpack_write_uinteger m fi.inode_number
      >>> mpack_write_uinteger m fi.device_id
      >>> mpack_write_integer m fi.type
      >>> mpack_write_uinteger m fi.total_size
      >>> mpack_write_uinteger m fi.last_atime
      >>> mpack_write_uinteger m fi.last_mtime
      >>> mpack_write_type_end m

  unfoldable pub decode_file_info : Decode FileInfo
  decode_file_info = do
    _ ← mpack_read_type_begin m
    inode_number ← mpack_read_uinteger m
    device_id ← mpack_read_uinteger m
    type ← decode_int32 m
    total_size ← mpack_read_uinteger m
    last_atime ← mpack_read_uinteger m
    last_mtime ← mpack_read_uinteger m
    _ ← mpack_read_type_end m
    give (record {
      inode_number = inode_number;
      device_id = device_id;
      type = type;
      total_size = total_size;
      last_atime = last_atime;
      last_mtime = last_mtime;
    })

  -- With another family the members before it have been written already.
  unfoldable pub encode_multicast : Multicast → Encode
  encode_multicast (group itf_index addr) =
      mpack_write_type_begin m 3
      >>> mpack_write_integer m af_inet
      >>> mpack_write_integer m itf_index
      >>> mpack_write_bin m addr
      >>> mpack_write_type_end m
  encode_multicast (group6 itf_index addr scope_id) =
      mpack_write_type_begin m 3
      >>> mpack_write_integer m af_inet6
      >>> mpack_write_integer m itf_index
      >>> mpack_write_bin m addr
      >>> mpack_write_type_end m
  encode_multicast (no_group family itf_index) =
      mpack_write_type_begin m 3
      >>> mpack_write_integer m family
      >>> mpack_write_integer m itf_index
      >>> (λ c. fails Error.invalid_format)

  -- The decoder ends with `__io_encode_type_end`.
  unfoldable pub decoded_type_end : Decode (Unit {0})
  unfolding mpack_write_type_end
  decoded_type_end c = elim (mpack_write_type_end m c) [
    | done c' ↦ done (tt, c')
    | fails r ↦ fails r
  ]

  unfoldable pub decode_group : ℤ → Decode Multicast
  unfolding decoded_type_end
  decode_group itf_index = do
    addr ← decode_bin_fixed m (zeros 4)
    _ ← decoded_type_end
    give (group itf_index addr)

  unfoldable pub decode_group6 : ℤ → Decode Multicast
  unfolding decoded_type_end
  decode_group6 itf_index = do
    addr ← decode_bin_fixed m (zeros 16)
    _ ← decoded_type_end
    give (group6 itf_index addr (to_uint32 itf_index))

  unfoldable pub decode_multicast : Decode Multicast
  unfolding decode_group decode_group6
  decode_multicast = do
    _ ← mpack_read_type_begin m
    family ← decode_int32 m
    itf_index ← decode_int32 m
    if eqb_ℤ family af_inet
        then decode_group itf_index
        else if eqb_ℤ family af_inet6
        then decode_group6 itf_index
        else give_up Error.invalid_format
