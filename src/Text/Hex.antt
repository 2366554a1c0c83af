-- ===== src/Text/Hex.antt =====
-- Base 16: `string_from_buf`, `string_to_buf`, and `string_base16_to_byte_array` and
-- `STRING_construct_base16`, which use them.
mod Digits
pub mod Accept
pub mod RoundTrip
use Prim.Native.Nat.{bit_and, bit_or}
use iot_edge_opc_proxy.Base.{
  ℕ, zero, suc, ◌+◌, ◌-◌, ◌*◌, ◌/◌, ◌%◌, Bool, ◌&&◌, List, [], ◌∷◌, ◌++◌, Option, none, some, ltb,
  leb, if◌then◌else◌, get_or, set, length,
}
use iot_edge_opc_proxy.Text.{Str, char_at, next}

-- `(c < 10) ? ('0' + c) : ('a' + c) - 10`.
unfoldable pub digit : ℕ → ℕ
digit c = if ltb c 10 then b'0' + c else b'a' + c - 10

-- `_byte_to_string`: the two digits of a byte.
unfoldable pub byte_to_string : ℕ → Str
unfolding digit
byte_to_string b = digit (bit_and b 0xf0 / 16) ∷ digit (bit_and b 0x0f) ∷ []

-- The loops of `string_from_buf`: over the bytes from the `i`-th on, and over those below it
-- backwards. The result is what is written to `string`.
from_buf_up : List ℕ → ℕ → ℕ → Str
from_buf_up buf i zero = []
from_buf_up buf i (suc k) = byte_to_string (get_or buf i 0) ++ from_buf_up buf (suc i) k

from_buf_down : List ℕ → ℕ → Str
from_buf_down buf zero = []
from_buf_down buf (suc i) = byte_to_string (get_or buf i 0) ++ from_buf_down buf i

unfoldable pub from_buf : List ℕ → ℕ → Bool → Str
unfolding from_buf_up from_buf_down byte_to_string
from_buf buf len swap = if swap then from_buf_down buf (len / 2) else from_buf_up buf 0 (len / 2)

-- The value of a digit, `none` where `_string_to_byte` returns `er_invalid_format`.
unfoldable pub digit_value : ℕ → Option ℕ
digit_value c =
    if leb b'0' c && leb c b'9'
    then some (c - b'0')
    else if leb b'a' c && leb c b'f'
    then some (10 + (c - b'a'))
    else if leb b'A' c && leb c b'F'
    then some (10 + (c - b'A'))
    else none

-- What a decoding loop leaves: the rest of the string and the buffer, or `er_invalid_format` and
-- the buffer as it stands.
pub data Decoded : Type 0 where
  decoded : Str → List ℕ → Decoded
  invalid : List ℕ → Decoded

-- `_string_to_byte`: the first digit is stored alone, then the second one is put in.
string_to_byte_low : Str → List ℕ → ℕ → ℕ → Option ℕ → Decoded
string_to_byte_low s buf i high none = invalid (set buf i high)
string_to_byte_low s buf i high (some low) =
    decoded (next s) (set (set buf i high) i (bit_or high low))

string_to_byte_high : Str → List ℕ → ℕ → Option ℕ → Decoded
unfolding string_to_byte_low
string_to_byte_high s buf i none = invalid buf
string_to_byte_high s buf i (some high) =
    string_to_byte_low (next s) buf i (high * 16 % 256) (digit_value (char_at (next s)))

pub string_to_byte : Str → List ℕ → ℕ → Decoded
unfolding string_to_byte_high digit_value
string_to_byte s buf i = string_to_byte_high s buf i (digit_value (char_at s))

-- The loops of `string_to_buf`, over `k` bytes from the `i`-th on and over the first `i` backwards.
to_buf_up : Str → List ℕ → ℕ → ℕ → Decoded
to_buf_up s buf i zero = decoded s buf
to_buf_up s buf i (suc k) = elim (string_to_byte s buf i) [
  | invalid buf' ↦ invalid buf'
  | decoded s' buf' ↦ to_buf_up s' buf' (suc i) k
]

to_buf_down : Str → List ℕ → ℕ → Decoded
to_buf_down s buf zero = decoded s buf
to_buf_down s buf (suc i) = elim (string_to_byte s buf i) [
  | invalid buf' ↦ invalid buf'
  | decoded s' buf' ↦ to_buf_down s' buf' i
]

unfoldable pub to_buf : Str → List ℕ → ℕ → Bool → Decoded
unfolding to_buf_up to_buf_down string_to_byte
to_buf s buf len swap = if swap then to_buf_down s buf len else to_buf_up s buf 0 len
