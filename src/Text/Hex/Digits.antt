-- ===== src/Text/Hex/Digits.antt =====
-- One byte through its two digits, checked at every byte.
use Prim.Native.Nat.{bit_and, bit_or}
use iot_edge_opc_proxy.Base.{
  ℕ, ◌*◌, ◌/◌, ◌%◌, ◌<◌, ◌≡◌, refl, ap, Bool, true, false, List, ◌++◌, Option, none, some, ◌==◌,
  ==_iff, set, set-set,
}
use iot_edge_opc_proxy.Text.{Str}
use iot_edge_opc_proxy.Text.Byte.{at_bytes, at_byte}
use iot_edge_opc_proxy.Text.Hex.{
  digit, byte_to_string, digit_value, decoded, string_to_byte, string_to_byte_high,
  string_to_byte_low,
}

gives : Option ℕ → ℕ → Bool
gives none v = false
gives (some u) v = u == v

gives→eq : (o : Option ℕ) (v : ℕ) → gives o v ≡ true → o ≡ some v
unfolding gives
gives→eq none v h = cc
gives→eq (some u) v h = ap some ((==_iff u v).0 h)

high_table :
    at_bytes 256 (λ b. gives (digit_value (digit (bit_and b 0xf0 / 16))) (bit_and b 0xf0 / 16))
    ≡ true
unfolding at_bytes gives digit_value digit
high_table = refl

low_table : at_bytes 256 (λ b. gives (digit_value (digit (bit_and b 0x0f))) (bit_and b 0x0f)) ≡ true
unfolding at_bytes gives digit_value digit
low_table = refl

join_table :
    at_bytes 256 (λ b. bit_or (bit_and b 0xf0 / 16 * 16 % 256) (bit_and b 0x0f) == b) ≡ true
unfolding at_bytes
join_table = refl

module _ (b : ℕ) (h : b < 256) where
  high_digit : digit_value (digit (bit_and b 0xf0 / 16)) ≡ some (bit_and b 0xf0 / 16)
  high_digit = gives→eq _ _ (at_byte 256 _ b high_table h)

  low_digit : digit_value (digit (bit_and b 0x0f)) ≡ some (bit_and b 0x0f)
  low_digit = gives→eq _ _ (at_byte 256 _ b low_table h)

  join_digits : bit_or (bit_and b 0xf0 / 16 * 16 % 256) (bit_and b 0x0f) ≡ b
  join_digits = (==_iff _ b).0 (at_byte 256 _ b join_table h)

  -- The two digits of a byte store that byte.
  pub string_to_byte-byte_to_string :
      (rest : Str) (buf : List ℕ) (i : ℕ)
      → string_to_byte (byte_to_string b ++ rest) buf i ≡ decoded rest (set buf i b)
  unfolding string_to_byte byte_to_string string_to_byte_high string_to_byte_low
  string_to_byte-byte_to_string rest buf i =
      rw (high_digit, string_to_byte_high, low_digit, string_to_byte_low, join_digits, set-set)
