-- ===== src/Wire/Info/RoundTrip.antt =====
-- Each of these types is decoded as it was encoded.
use Prim.Native.Nat.{◌^◌}
use iot_edge_opc_proxy.Base.{
  ℕ, suc, ◌+◌, ◌<◌, ◌≤◌, ◌≡◌, refl, arith, length, some, [], append-nil, sym, ap, subst,
}
use iot_edge_opc_proxy.Base.Int.{ℤ, pos}
use iot_edge_opc_proxy.Wire.{Bytes, done, ◌>>=◌, give}
use iot_edge_opc_proxy.Wire.Cmp.{Cmp, IsCmp}
use iot_edge_opc_proxy.Wire.Codec.{Allocator, mpack_write_type_end}
use iot_edge_opc_proxy.Wire.Chain.{IsInt32, Codes, member, finish, uinteger, uint8, int32}
use iot_edge_opc_proxy.Wire.Parts.{bin_fixed, string_fixed, string_default, Grants}
use iot_edge_opc_proxy.Wire.Object.{IsType, is_type, object}
use iot_edge_opc_proxy.Wire.Address.{Address, zeros}
use iot_edge_opc_proxy.Wire.Address.RoundTrip.{IsAddress, address-IsType}
use iot_edge_opc_proxy.Wire.Info.{
  IfAddrInfo, FileInfo, Multicast, group, group6, no_group, max_interface, to_uint32,
  encode_address_member, decode_address_member, encode_addrinfo, decode_addrinfo, encode_ifaddrinfo,
  decode_ifaddrinfo, encode_file_info, decode_file_info, encode_multicast, decode_multicast,
  decode_group, decode_group6, decoded_type_end,
}

abbrev pub IsText32 : Bytes → Type 0
IsText32 s = length s + 1 < 2 ^ 32

pub record IsIfAddrInfo (ifa : IfAddrInfo) : Type 0 where
  pub address : IsAddress ifa.address
  pub prefix : ifa.prefix < 2 ^ 8
  pub flags : ifa.flags < 2 ^ 8
  pub name : length ifa.name < max_interface
  pub index : IsInt32 ifa.index
  pub broadcast_addr : IsAddress ifa.broadcast_addr

pub record IsFileInfo (fi : FileInfo) : Type 0 where
  pub inode_number : fi.inode_number < 2 ^ 64
  pub device_id : fi.device_id < 2 ^ 64
  pub type : IsInt32 fi.type
  pub total_size : fi.total_size < 2 ^ 64
  pub last_atime : fi.last_atime < 2 ^ 64
  pub last_mtime : fi.last_mtime < 2 ^ 64

abbrev pub IsMulticast : Multicast → Type 0
IsMulticast (group itf_index addr) = IsInt32 itf_index × (length addr ≡ 4)
IsMulticast (group6 itf_index addr scope_id) =
    IsInt32 itf_index × (length addr ≡ 16) × (scope_id ≡ to_uint32 itf_index)
IsMulticast (no_group family itf_index) = 1 ≤ 0

module _ (m : Cmp) (law : IsCmp m) where
  pub address_member :
      {i : ℕ} (a : Address)
      → IsAddress a
      → Codes (suc i) i (encode_address_member m a) (decode_address_member m) a
  address_member a h = object m law _ (address-IsType m law a h)

  pub addrinfo-IsType :
      (alloc : Allocator) (a : Address) (name : Bytes)
      → Grants alloc
      → IsAddress a
      → IsText32 name
      → IsType m law 2
          (encode_addrinfo m (record { address = a; name = some name }))
          (decode_addrinfo m alloc)
          (record { address = a; name = some name })
  unfolding encode_addrinfo decode_addrinfo
  addrinfo-IsType alloc a name g h t =
      is_type m law (omega arith) (
        member _ (address_member a h) (member _ (string_default m law alloc name g t) (finish m _)))

  pub ifaddrinfo-IsType :
      (ifa : IfAddrInfo)
      → IsIfAddrInfo ifa
      → IsType m law 6 (encode_ifaddrinfo m ifa) (decode_ifaddrinfo m) ifa
  unfolding encode_ifaddrinfo decode_ifaddrinfo
  ifaddrinfo-IsType ifa h = is_type m law (omega arith) (
      member _ (address_member ifa.address h.address) (
        member _ (uint8 m law ifa.prefix h.prefix) (
          member _ (uint8 m law ifa.flags h.flags) (
            member _ (string_fixed m law max_interface ifa.name h.name (omega arith)) (
              member _ (int32 m law ifa.index h.index)
                (member _ (address_member ifa.broadcast_addr h.broadcast_addr) (finish m ifa)))))))

  pub file_info-IsType :
      (fi : FileInfo)
      → IsFileInfo fi
      → IsType m law 6 (encode_file_info m fi) (decode_file_info m) fi
  unfolding encode_file_info decode_file_info
  file_info-IsType fi h = is_type m law (omega arith) (
      member _ (uinteger m law fi.inode_number h.inode_number) (
        member _ (uinteger m law fi.device_id h.device_id) (
          member _ (int32 m law fi.type h.type) (
            member _ (uinteger m law fi.total_size h.total_size) (
              member _ (uinteger m law fi.last_atime h.last_atime)
                (member _ (uinteger m law fi.last_mtime h.last_mtime) (finish m fi)))))))

  -- The end of a multicast group is that of the encoder.
  finish_group :
      {i : ℕ} (g : Multicast)
      → Codes i i (mpack_write_type_end m) (decoded_type_end m >>= λ _. give g) g
  unfolding decoded_type_end mpack_write_type_end ◌>>=◌ give
  finish_group g = record {
    item = [];
    puts = λ c. (
      c.index,
      ap (λ s. done (record { stream = s; index = c.index })) (sym (append-nil c.stream)),
    );
    takes = λ rest. refl;
  }

  group6-IsType :
      (itf_index : ℤ) (addr : Bytes)
      → IsInt32 itf_index
      → length addr ≡ 16
      → IsType m law 3
          (encode_multicast m (group6 itf_index addr (to_uint32 itf_index)))
          (decode_multicast m)
          (group6 itf_index addr (to_uint32 itf_index))
  unfolding encode_multicast decode_multicast decode_group6
  group6-IsType itf_index addr h l = is_type m law (omega arith) (
      member _ (int32 m law (pos 23) (omega arith)) (
        member _ (int32 m law itf_index h) (
          member _ (bin_fixed m law (zeros 16) addr l (omega (arith, l)))
            (finish_group (group6 itf_index addr (to_uint32 itf_index))))))

  pub multicast-IsType :
      (g : Multicast) → IsMulticast g → IsType m law 3 (encode_multicast m g) (decode_multicast m) g
  unfolding encode_multicast decode_multicast decode_group decode_group6
  multicast-IsType (group itf_index addr) h = is_type m law (omega arith) (
      member _ (int32 m law (pos 2) (omega arith)) (
        member _ (int32 m law itf_index h.0) (
          member _ (bin_fixed m law (zeros 4) addr h.1 (omega (arith, h.1)))
            (finish_group (group itf_index addr)))))
  multicast-IsType (group6 itf_index addr scope_id) h =
      subst
        (λ s.
          IsType m law 3 (encode_multicast m (group6 itf_index addr s)) (decode_multicast m)
            (group6 itf_index addr s))
        (sym h.2) (group6-IsType itf_index addr h.0 h.1)
  multicast-IsType (no_group family itf_index) h = absurd (omega arith)
