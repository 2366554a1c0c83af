-- ===== src/Text/Hex/Accept.antt =====
-- Which strings `string_to_buf` accepts.
use Prim.Native.Nat.{bit_or, ◌%◌}
use iot_edge_opc_proxy.Base.{
  ℕ, zero, suc, ◌*◌, sym, ◌≡◌, refl, ap, ◌∙◌, Bool, true, false, ◌&&◌, ◌||◌, List, Option, none,
  some, arith, leb, set,
}
use iot_edge_opc_proxy.Text.{Str, char_at, next}
use iot_edge_opc_proxy.Text.Hex.{
  digit_value, Decoded, decoded, invalid, to_buf, to_buf_up, to_buf_down, string_to_byte,
  string_to_byte_high, string_to_byte_low,
}

-- 0-9, a-f, A-F.
abbrev pub is_hex : ℕ → Bool
is_hex c = leb 48 c && leb c 57 || leb 97 c && leb c 102 || leb 65 c && leb c 70

-- The first `n` characters, the closing 0 among them, are digits.
unfoldable pub hex_prefix : Str → ℕ → Bool
hex_prefix s zero = true
hex_prefix s (suc n) = is_hex (char_at s) && hex_prefix (next s) n

abbrev pub accepted : Decoded → Bool
accepted (decoded s buf) = true
accepted (invalid buf) = false

abbrev pub is_some : Option ℕ → Bool
is_some none = false
is_some (some v) = true

digit_value-is_hex : (c : ℕ) → is_some (digit_value c) ≡ is_hex c
unfolding digit_value
digit_value-is_hex c = ground arith

-- The two characters of a byte.
abbrev pair_is_hex : Str → Bool
pair_is_hex s = is_hex (char_at s) && is_hex (char_at (next s))

-- What one byte does: refused, or stored with two characters gone.
data Byte (s : Str) (r : Decoded) : Type 0 where
  refused : (buf' : List ℕ) → r ≡ invalid buf' → pair_is_hex s ≡ false → Byte s r
  stored : (buf' : List ℕ) → r ≡ decoded (next (next s)) buf' → pair_is_hex s ≡ true → Byte s r

string_to_byte-Byte : (s : Str) (buf : List ℕ) (i : ℕ) → Byte s (string_to_byte s buf i)
unfolding string_to_byte string_to_byte_high string_to_byte_low
string_to_byte-Byte s buf i =
    go (digit_value (char_at s)) (digit_value (char_at (next s))) refl refl
  where
    go :
        (h l : Option ℕ)
        → digit_value (char_at s) ≡ h
        → digit_value (char_at (next s)) ≡ l
        → Byte s (string_to_byte s buf i)
    go none l p q =
        refused buf (rw (p, string_to_byte_high))
          (ground (arith, digit_value-is_hex (char_at s), p))
    go (some h) none p q =
        refused (set buf i (h * 16 % 256)) (rw (p, string_to_byte_high, q, string_to_byte_low)) (
          ground
            (arith, digit_value-is_hex (char_at s), digit_value-is_hex (char_at (next s)), p, q))
    go (some h) (some l) p q =
        stored (set (set buf i (h * 16 % 256)) i (bit_or (h * 16 % 256) l))
          (rw (p, string_to_byte_high, q, string_to_byte_low))
          (ground
            (arith, digit_value-is_hex (char_at s), digit_value-is_hex (char_at (next s)), p, q))

-- The pairs of `k` bytes.
pairs : Str → ℕ → Bool
pairs s zero = true
pairs s (suc k) = pair_is_hex s && pairs (next (next s)) k

hex_prefix-double : (s : Str) (k : ℕ) → hex_prefix s (2 * k) ≡ pairs s k
unfolding hex_prefix pairs
hex_prefix-double s zero = refl
hex_prefix-double s (suc k) =
    ap (hex_prefix s) {y = suc (suc (2 * k))} (omega arith)
    ∙ ground (arith, hex_prefix-double (next (next s)) k)

up : (s : Str) (buf : List ℕ) (i k : ℕ) → accepted (to_buf_up s buf i k) ≡ pairs s k
unfolding to_buf_up pairs
up s buf i zero = refl
up s buf i (suc k) = elim (string_to_byte-Byte s buf i) [
  | refused buf' e f ↦ rw (e, to_buf_up, f)
  | stored buf' e f ↦ rw (e, to_buf_up, f) (up (next (next s)) buf' (suc i) k)
]

down : (s : Str) (buf : List ℕ) (i : ℕ) → accepted (to_buf_down s buf i) ≡ pairs s i
unfolding to_buf_down pairs
down s buf zero = refl
down s buf (suc i) = elim (string_to_byte-Byte s buf i) [
  | refused buf' e f ↦ rw (e, to_buf_down, f)
  | stored buf' e f ↦ rw (e, to_buf_down, f) (down (next (next s)) buf' i)
]

-- `string_to_buf` for `len` bytes accepts a string exactly when its first 2 * `len` characters are
-- digits of base 16, of either case; any other string, a shorter one too, is er_invalid_format.
pub to_buf-accepted :
    (s : Str) (buf : List ℕ) (len : ℕ) (swap : Bool)
    → accepted (to_buf s buf len swap) ≡ hex_prefix s (2 * len)
unfolding to_buf
to_buf-accepted s buf len false = up s buf 0 len ∙ sym (hex_prefix-double s len)
to_buf-accepted s buf len true = down s buf len ∙ sym (hex_prefix-double s len)
