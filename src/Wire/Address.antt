-- ===== src/Wire/Address.antt =====
-- Socket addresses: `prx_socket_address_t` of inc/prx_types.h and its encoding in src/io_types.c.
pub mod RoundTrip
use iot_edge_opc_proxy.Base.{ℕ, List, replicate, if◌then◌else◌}
use iot_edge_opc_proxy.Base.Int.{ℤ, pos, eqb_ℤ}
use iot_edge_opc_proxy.Error.{Error}
use iot_edge_opc_proxy.Wire.{Bytes, Encode, Decode, fails, ◌>>=◌, ◌>>>◌, give, give_up}
use iot_edge_opc_proxy.Wire.Cmp.{Cmp}
use iot_edge_opc_proxy.Wire.Codec.{
  mpack_write_integer, mpack_write_uinteger, mpack_write_string, mpack_write_bin,
  mpack_write_type_begin, mpack_write_type_end, mpack_read_type_begin, mpack_read_type_end,
}
use iot_edge_opc_proxy.Wire.Fields.{
  decode_int32, decode_uint16, decode_uint32, decode_bin_fixed, decode_string_fixed,
}

-- The members of the union that each family has; `family` is any other one.
pub data Address : Type 0 where
  unspec : Address
  inet : (port : ℕ) (addr : Bytes) → Address
  inet6 : (port flow : ℕ) (addr : Bytes) (scope_id : ℕ) → Address
  proxy : (port flags : ℕ) (itf_index : ℤ) (host : Bytes) → Address
  unix : (path : Bytes) → Address
  family : ℤ → Address

-- MAX_HOST_LENGTH and MAX_UNIX_PATH_LENGTH.
abbrev pub max_host : ℕ
max_host = 1025

abbrev pub max_path : ℕ
max_path = 108

-- An array of `n` bytes of a message, which starts as zeros.
abbrev pub zeros : ℕ → Bytes
zeros n = replicate n 0

-- `prx_address_family_t`.
abbrev pub af_unspec : ℤ
af_unspec = pos 0

abbrev pub af_unix : ℤ
af_unix = pos 1

abbrev pub af_inet : ℤ
af_inet = pos 2

abbrev pub af_inet6 : ℤ
af_inet6 = pos 23

abbrev pub af_proxy : ℤ
af_proxy = pos 28165

module _ (m : Cmp) where
  unfoldable pub encode_inet : (port : ℕ) (addr : Bytes) → Encode
  encode_inet port addr =
      mpack_write_type_begin m 3
      >>> mpack_write_integer m af_inet
      >>> mpack_write_uinteger m port
      >>> mpack_write_bin m addr
      >>> mpack_write_type_end m

  unfoldable pub encode_inet6 : (port flow : ℕ) (addr : Bytes) (scope_id : ℕ) → Encode
  encode_inet6 port flow addr scope_id =
      mpack_write_type_begin m 5
      >>> mpack_write_integer m af_inet6
      >>> mpack_write_uinteger m port
      >>> mpack_write_uinteger m flow
      >>> mpack_write_bin m addr
      >>> mpack_write_uinteger m scope_id
      >>> mpack_write_type_end m

  unfoldable pub encode_proxy : (port flags : ℕ) (itf_index : ℤ) (host : Bytes) → Encode
  encode_proxy port flags itf_index host =
      mpack_write_type_begin m 5
      >>> mpack_write_integer m af_proxy
      >>> mpack_write_uinteger m port
      >>> mpack_write_uinteger m flags
      >>> mpack_write_integer m itf_index
      >>> mpack_write_string m host
      >>> mpack_write_type_end m

  unfoldable pub encode_unix : Bytes → Encode
  encode_unix path =
      mpack_write_type_begin m 2
      >>> mpack_write_integer m af_unix
      >>> mpack_write_string m path
      >>> mpack_write_type_end m

  -- `io_encode_prx_socket_address`.
  unfoldable pub encode_address : Address → Encode
  unfolding encode_inet encode_inet6 encode_proxy encode_unix
  encode_address unspec =
      mpack_write_type_begin m 1 >>> mpack_write_integer m af_unspec >>> mpack_write_type_end m
  encode_address (inet port addr) = encode_inet port addr
  encode_address (inet6 port flow addr scope_id) = encode_inet6 port flow addr scope_id
  encode_address (proxy port flags itf_index host) = encode_proxy port flags itf_index host
  encode_address (unix path) = encode_unix path
  encode_address (family f) = λ c. fails Error.arg

  -- The two branches of `io_decode_prx_socket_address_inet`, behind the port.
  unfoldable pub decode_in4 : ℕ → Decode Address
  decode_in4 port = do
    addr ← decode_bin_fixed m (zeros 4)
    _ ← mpack_read_type_end m
    give (inet port addr)

  unfoldable pub decode_in6 : ℕ → Decode Address
  decode_in6 port = do
    flow ← decode_uint32 m
    addr ← decode_bin_fixed m (zeros 16)
    scope_id ← decode_uint32 m
    _ ← mpack_read_type_end m
    give (inet6 port flow addr scope_id)

  unfoldable pub decode_inet : ℤ → Decode Address
  unfolding decode_in4 decode_in6
  decode_inet f = do
    port ← decode_uint16 m
    if eqb_ℤ f af_inet then decode_in4 port else decode_in6 port

  unfoldable pub decode_proxy : Decode Address
  decode_proxy = do
    port ← decode_uint16 m
    flags ← decode_uint16 m
    itf_index ← decode_int32 m
    host ← decode_string_fixed m max_host
    _ ← mpack_read_type_end m
    give (proxy port flags itf_index host)

  unfoldable pub decode_unix : Decode Address
  decode_unix = do
    path ← decode_string_fixed m max_path
    _ ← mpack_read_type_end m
    give (unix path)

  -- The `switch` of `io_decode_prx_socket_address`.
  unfoldable pub decode_family : ℤ → Decode Address
  unfolding decode_inet decode_proxy decode_unix
  decode_family f =
      if eqb_ℤ f af_unspec
      then (do _ ← mpack_read_type_end m; give unspec)
      else if eqb_ℤ f af_inet
      then decode_inet f
      else if eqb_ℤ f af_inet6
      then decode_inet f
      else if eqb_ℤ f af_proxy
      then decode_proxy
      else if eqb_ℤ f af_unix
      then decode_unix
      else give_up Error.invalid_format

  -- `io_decode_prx_socket_address`.
  unfoldable pub decode_address : Decode Address
  unfolding decode_family
  decode_address = do _ ← mpack_read_type_begin m; f ← decode_int32 m; decode_family f
