-- ===== src/Wire.antt =====
-- The protocol messages on the wire: src/io_codec.c with inc/io_codec.h (the message pack codec),
-- src/io_types.c and src/io_proto.c (what the messages hold), src/io_ref.c (references) and, of
-- src/io_transport.c, how a message goes into and comes out of a stream.
pub mod Cmp
pub mod Codec
pub mod Fields
pub mod Chain
pub mod Parts
pub mod Object
pub mod Address
pub mod Info
pub mod Property
pub mod Socket
pub mod Ref
pub mod Payload
pub mod Content
pub mod Message
mod Tests
use iot_edge_opc_proxy.Base.{ℕ, List}
use iot_edge_opc_proxy.Error.{Error}

abbrev pub Bytes : Type 0
Bytes = List ℕ

-- What a call that returns a result code leaves when the code is er_ok, or the code.
pub data Result {ℓ} (A : Type ℓ) : Type ℓ where
  done : A → Result A
  fails : Error → Result A

-- `io_codec_ctx_t`: the bytes behind the stream, written so far or still to be read, and `index`.
-- Contexts of one message have the same stream, so it goes from one to the other.
pub record Ctx : Type 0 where
  pub stream : Bytes
  pub index : ℕ

-- An encoding call, and one after the other: `if (result != er_ok) return result;`.
abbrev pub Encode : Type 0
Encode = Ctx → Result Ctx

abbrev pub encode_then : Result Ctx → Encode → Result Ctx
encode_then (done c) f = f c
encode_then (fails r) f = fails r

infixr 3 ◌>>>◌
unfoldable pub ◌>>>◌ : Encode → Encode → Encode
(e >>> f) c = encode_then (e c) f

-- A decoding call gives what it stores as well.
abbrev pub Decode : Type 0 → Type 0
Decode A = Ctx → Result (A × Ctx)

abbrev pub decode_then : {A B : Type 0} → Result (A × Ctx) → (A → Decode B) → Result (B × Ctx)
decode_then (done (a, c)) f = f a c
decode_then (fails r) f = fails r

infixl 1 ◌>>=◌
unfoldable pub ◌>>=◌ : {A B : Type 0} → Decode A → (A → Decode B) → Decode B
(d >>= f) c = decode_then (d c) f

unfoldable pub give : {A : Type 0} → A → Decode A
give a c = done (a, c)

unfoldable pub give_up : {A : Type 0} → Error → Decode A
give_up e c = fails e
