-- ===== src/Wire/Property/RoundTrip.antt =====
-- A property is decoded as it was encoded.
use Prim.Native.Nat.{◌^◌}
use iot_edge_opc_proxy.Base.{ℕ, suc, ◌<◌, arith, length, some}
use iot_edge_opc_proxy.Wire.{Bytes}
use iot_edge_opc_proxy.Wire.Cmp.{Cmp, IsCmp}
use iot_edge_opc_proxy.Wire.Codec.{Allocator}
use iot_edge_opc_proxy.Wire.Chain.{IsInt32, Codes, member, finish, uinteger, int32}
use iot_edge_opc_proxy.Wire.Parts.{bin_default, Grants}
use iot_edge_opc_proxy.Wire.Object.{IsType, is_type, object, mapped}
use iot_edge_opc_proxy.Wire.Address.{Address}
use iot_edge_opc_proxy.Wire.Address.RoundTrip.{IsAddress}
use iot_edge_opc_proxy.Wire.Info.RoundTrip.{
  IsText32, IsIfAddrInfo, IsFileInfo, IsMulticast, addrinfo-IsType, ifaddrinfo-IsType,
  file_info-IsType, multicast-IsType,
}
use iot_edge_opc_proxy.Wire.Property.{
  Value, number, mcast, bin, file_info, addr_info, itf_info, Property, Kind, of_mcast, of_addr_info,
  of_itf_info, of_file_info, of_bin, of_number, kind_of, encode_value, decode_value,
  encode_property, decode_property,
}
use iot_edge_opc_proxy.Wire.Info.{Multicast, IfAddrInfo, FileInfo}

-- A value of the kind that its type asks for, with members in range.
pub data Fits : Kind → Value → Type 0 where
  fits_mcast : {x : Multicast} → IsMulticast x → Fits of_mcast (mcast x)
  fits_addr_info :
      {a : Address} {name : Bytes}
      → IsAddress a
      → IsText32 name
      → Fits of_addr_info (addr_info (record { address = a; name = some name }))
  fits_itf_info : {x : IfAddrInfo} → IsIfAddrInfo x → Fits of_itf_info (itf_info x)
  fits_file_info : {x : FileInfo} → IsFileInfo x → Fits of_file_info (file_info x)
  fits_bin : {x : Bytes} → length x < 2 ^ 32 → Fits of_bin (bin x)
  fits_number : {x : ℕ} → x < 2 ^ 64 → Fits of_number (number x)

pub record IsProperty (p : Property) : Type 0 where
  pub type : IsInt32 p.type
  pub property : Fits (kind_of p.type) p.property

module _ (m : Cmp) (law : IsCmp m) (alloc : Allocator) (g : Grants alloc) where
  value-Codes :
      {i : ℕ} (k : Kind) (x : Value)
      → Fits k x
      → Codes (suc i) i (encode_value m k x) (decode_value m alloc k) x
  unfolding encode_value decode_value
  value-Codes _ _ (fits_mcast {x = y} h) =
      mapped mcast (object m law _ (multicast-IsType m law y h))
  value-Codes _ _ (fits_addr_info {a} {name} h t) =
      mapped addr_info (object m law _ (addrinfo-IsType m law alloc a name g h t))
  value-Codes _ _ (fits_itf_info {x = y} h) =
      mapped itf_info (object m law _ (ifaddrinfo-IsType m law y h))
  value-Codes _ _ (fits_file_info {x = y} h) =
      mapped file_info (object m law _ (file_info-IsType m law y h))
  value-Codes _ _ (fits_bin {x = y} h) = mapped bin (bin_default m law alloc y g h)
  value-Codes _ _ (fits_number {x = y} h) = mapped number (uinteger m law y h)

  pub property-IsType :
      (p : Property)
      → IsProperty p
      → IsType m law 2 (encode_property m p) (decode_property m alloc) p
  unfolding encode_property decode_property
  property-IsType p h = is_type m law (omega arith) (
      member _ (int32 m law p.type h.type)
        (member _ (value-Codes (kind_of p.type) p.property h.property) (finish m p)))
