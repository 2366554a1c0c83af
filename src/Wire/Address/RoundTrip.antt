-- ===== src/Wire/Address/RoundTrip.antt =====
-- A socket address is decoded as it was encoded.
use Prim.Native.Nat.{◌^◌}
use iot_edge_opc_proxy.Base.{ℕ, ◌<◌, ◌≤◌, ◌≡◌, arith, length}
use iot_edge_opc_proxy.Base.Int.{pos}
use iot_edge_opc_proxy.Wire.Cmp.{Cmp, IsCmp}
use iot_edge_opc_proxy.Wire.Chain.{IsInt32, member, finish, uint16, uint32, int32}
use iot_edge_opc_proxy.Wire.Parts.{bin_fixed, string_fixed}
use iot_edge_opc_proxy.Wire.Object.{IsType, is_type}
use iot_edge_opc_proxy.Wire.Address.{
  Address, unspec, inet, inet6, proxy, unix, family, max_host, max_path, zeros, encode_address,
  decode_address, encode_inet, encode_inet6, encode_proxy, encode_unix, decode_inet, decode_in4,
  decode_in6, decode_proxy, decode_unix, decode_family,
}

-- The members are in range, and the family is one that is encoded.
abbrev pub IsAddress : Address → Type 0
IsAddress unspec = Unit {0}
IsAddress (inet port addr) = (port < 2 ^ 16) × (length addr ≡ 4)
IsAddress (inet6 port flow addr scope_id) =
    (port < 2 ^ 16) × (flow < 2 ^ 32) × (length addr ≡ 16) × (scope_id < 2 ^ 32)
IsAddress (proxy port flags itf_index host) =
    (port < 2 ^ 16) × (flags < 2 ^ 16) × IsInt32 itf_index × (length host < max_host)
IsAddress (unix path) = length path < max_path
IsAddress (family f) = 1 ≤ 0

abbrev pub members : Address → ℕ
members unspec = 1
members (inet port addr) = 3
members (inet6 port flow addr scope_id) = 5
members (proxy port flags itf_index host) = 5
members (unix path) = 2
members (family f) = 1

module _ (m : Cmp) (law : IsCmp m) where
  pub address-IsType :
      (a : Address)
      → IsAddress a
      → IsType m law (members a) (encode_address m a) (decode_address m) a
  unfolding encode_address decode_address decode_family encode_inet encode_inet6 encode_proxy
      encode_unix decode_inet decode_in4 decode_in6 decode_proxy decode_unix
  address-IsType unspec h =
      is_type m law (omega arith) (member _ (int32 m law (pos 0) (omega arith)) (finish m unspec))
  address-IsType (inet port addr) h = is_type m law (omega arith) (
      member _ (int32 m law (pos 2) (omega arith)) (
        member _ (uint16 m law port h.0) (
          member _ (bin_fixed m law (zeros 4) addr h.1 (omega (arith, h.1)))
            (finish m (inet port addr)))))
  address-IsType (inet6 port flow addr scope_id) h = is_type m law (omega arith) (
      member _ (int32 m law (pos 23) (omega arith)) (
        member _ (uint16 m law port h.0) (
          member _ (uint32 m law flow h.1) (
            member _ (bin_fixed m law (zeros 16) addr h.2 (omega (arith, h.2)))
              (member _ (uint32 m law scope_id h.3) (finish m (inet6 port flow addr scope_id)))))))
  address-IsType (proxy port flags itf_index host) h = is_type m law (omega arith) (
      member _ (int32 m law (pos 28165) (omega arith)) (
        member _ (uint16 m law port h.0) (
          member _ (uint16 m law flags h.1) (
            member _ (int32 m law itf_index h.2) (
              member _ (string_fixed m law max_host host h.3 (omega arith))
                (finish m (proxy port flags itf_index host)))))))
  address-IsType (unix path) h = is_type m law (omega arith) (
      member _ (int32 m law (pos 1) (omega arith))
        (member _ (string_fixed m law max_path path h (omega arith)) (finish m (unix path))))
  address-IsType (family f) h = absurd (omega arith)
