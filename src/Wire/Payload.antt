-- ===== src/Wire/Payload.antt =====
-- What the messages hold: the types of inc/io_proto.h, and their codecs in src/io_proto.c.
pub mod Codec
pub mod RoundTrip
use iot_edge_opc_proxy.Base.{ℕ, Bool, [], ◌∷◌}
use iot_edge_opc_proxy.Base.Int.{ℤ, pos}
use iot_edge_opc_proxy.Error.{Error}
use iot_edge_opc_proxy.Wire.{Bytes, Encode, Decode, ◌>>=◌, ◌>>>◌, give, give_up}
use iot_edge_opc_proxy.Wire.Cmp.{Cmp}
use iot_edge_opc_proxy.Wire.Codec.{
  Allocator, mpack_write_integer, mpack_write_uinteger, mpack_write_bool, mpack_write_string,
  mpack_write_bin, mpack_read_uinteger, mpack_read_bool, mpack_write_type_begin,
  mpack_write_type_end, mpack_read_type_begin, mpack_read_type_end,
}
use iot_edge_opc_proxy.Wire.Fields.{
  decode_int32, decode_uint32, decode_uint8, decode_bin_fixed, decode_bin_default,
  decode_string_default, encode_object, decode_object,
}
use iot_edge_opc_proxy.Wire.Address.{Address, unspec, zeros}
use iot_edge_opc_proxy.Wire.Info.{encode_address_member, decode_address_member}
use iot_edge_opc_proxy.Wire.Property.{Property, encode_property, decode_property}
use iot_edge_opc_proxy.Wire.Ref.{Ref, encode_ref_member, decode_ref_member}
use iot_edge_opc_proxy.Wire.Socket.{
  SocketProperties, no_option, no_options, encode_socket_properties, decode_socket_properties,
}

pub record PingRequest : Type 0 where
  pub address : Address

pub record PingResponse : Type 0 where
  pub address : Address
  pub physical_address : Bytes
  pub time_ms : ℕ

pub record LinkRequest : Type 0 where
  pub version : ℕ
  pub props : SocketProperties

pub record LinkResponse : Type 0 where
  pub link_id : Ref
  pub local_address : Address
  pub peer_address : Address

pub record SetoptRequest : Type 0 where
  pub so_val : Property

pub record GetoptRequest : Type 0 where
  pub so_opt : ℤ

pub record GetoptResponse : Type 0 where
  pub so_val : Property

-- `max_send` is not encoded.
pub record OpenRequest : Type 0 where
  pub stream_id : Ref
  pub type : ℤ
  pub connection_string : Bytes
  pub polled : Bool
  pub max_send : ℕ
  pub max_recv : ℕ

pub record PollMessage : Type 0 where
  pub sequence_number : ℕ
  pub timeout : ℕ

pub record DataMessage : Type 0 where
  pub sequence_number : ℕ
  pub source_address : Address
  pub control_buffer : Bytes
  pub buffer : Bytes

pub record CloseResponse : Type 0 where
  pub time_open : ℕ
  pub bytes_sent : ℕ
  pub bytes_received : ℕ
  pub error_code : ℤ

-- Socket properties that `memset` has made.
abbrev pub no_props : SocketProperties
no_props = record {
  family = pos 0;
  sock_type = pos 0;
  proto_type = pos 0;
  flags = 0;
  timeout = 0;
  address = unspec;
  options = no_options;
}
