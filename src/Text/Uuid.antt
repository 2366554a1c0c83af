-- ===== src/Text/Uuid.antt =====
-- `string_to_uuid` and `string_from_uuid`: a uuid in its form 8-4-4-4-12.
pub mod RoundTrip
use iot_edge_opc_proxy.Base.{
  ℕ, zero, suc, ◌+◌, Bool, true, false, not, List, [], ◌∷◌, ◌++◌, Option, none, some, ltb, ◌==◌,
  if◌then◌else◌, length, take, drop,
}
use iot_edge_opc_proxy.Error.{Error}
use iot_edge_opc_proxy.Text.{Str, char_at}
use iot_edge_opc_proxy.Text.Hex.{Decoded, decoded, invalid, from_buf, to_buf}

-- UUID_PRINTABLE_STRING_LENGTH, the closing 0 included.
abbrev pub printable_length : ℕ
printable_length = 37

-- The loop of `string_from_uuid` from round `i` on, with `k` rounds to go, and the last group.
unfoldable pub from_groups : List ℕ → ℕ → ℕ → Str
from_groups uuid i zero = from_buf uuid 12 false
from_groups uuid i (suc k) =
    from_buf uuid 4 (not (i == 2)) ++ (b'-' ∷ from_groups (drop 2 uuid) (suc i) k)

-- The text written, or the error; `len` is the room for it.
unfoldable pub from_uuid : Option (List ℕ) → Bool → ℕ → Error × Str
from_uuid uuid false len = (Error.fault, [])
from_uuid none true len = (Error.fault, [])
from_uuid (some uuid) true len =
    if ltb len printable_length
    then (Error.arg, [])
    else (Error.ok, from_buf uuid 8 true ++ (b'-' ∷ from_groups (drop 4 uuid) 0 3))

-- What was stored before the place that a later call works on.
abbrev pub behind : List ℕ → Decoded → Decoded
behind p (decoded s b) = decoded s (p ++ b)
behind p (invalid b) = invalid (p ++ b)

-- `if (*string++ != '-') return er_invalid_format;`, with the buffer and what follows.
abbrev pub dash : Str → List ℕ → Decoded → Decoded
dash s b rest = if char_at s == b'-' then rest else invalid b

-- The loop of `string_to_uuid` from round `i` on, and the last group.
pub to_groups : Str → List ℕ → ℕ → ℕ → Decoded
to_groups s uuid i zero = to_buf s uuid 6 false
to_groups s uuid i (suc k) = elim (to_buf s uuid 2 (not (i == 2))) [
  | invalid b ↦ invalid b
  | decoded _ b ↦ dash (drop 4 s) b (behind (take 2 b) (to_groups (drop 5 s) (drop 2 b) (suc i) k))
]

parse_uuid : Str → List ℕ → Decoded
parse_uuid s uuid = elim (to_buf s uuid 4 true) [
  | invalid b ↦ invalid b
  | decoded _ b ↦ dash (drop 8 s) b (behind (take 4 b) (to_groups (drop 9 s) (drop 4 b) 0 3))
]

-- The result code, with the buffer as the code leaves it.
abbrev pub outcome : Decoded → Error × List ℕ
outcome (decoded s b) = (Error.ok, b)
outcome (invalid b) = (Error.invalid_format, b)

pub to_uuid : Option Str → Option (List ℕ) → Error × List ℕ
to_uuid none none = (Error.fault, [])
to_uuid none (some uuid) = (Error.fault, uuid)
to_uuid (some s) none = (Error.fault, [])
to_uuid (some s) (some uuid) =
    if ltb (length s + 1) printable_length then (Error.arg, uuid) else outcome (parse_uuid s uuid)
