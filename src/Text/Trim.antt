-- ===== src/Text/Trim.antt =====
-- `string_trim_front`, `string_trim_back_len`, `string_trim_back` and `string_trim`.
pub mod Core
use iot_edge_opc_proxy.Base.{
  ℕ, zero, suc, ◌-◌, Bool, true, false, not, List, [], ◌∷◌, Option, none, some, ◌==◌, if◌then◌else◌,
  length, get_or, take,
}
use iot_edge_opc_proxy.Text.{Str}

-- `while (*trim && c != *trim) trim++;` ends at a character of `trim_chars`, not at their end.
unfoldable pub is_trimmed : ℕ → Str → Bool
is_trimmed c [] = false
is_trimmed c (t ∷ trim) = if c == t then true else is_trimmed c trim

trim_front_loop : Str → Str → Str
trim_front_loop [] trim = []
trim_front_loop (c ∷ val) trim =
    let rest = trim_front_loop val trim in if is_trimmed c trim then rest else c ∷ val

-- The pointer returned, as the text from there on.
unfoldable pub trim_front : Option Str → Option Str → Option Str
unfolding trim_front_loop
trim_front none trim = none
trim_front (some val) none = some val
trim_front (some val) (some trim) = some (trim_front_loop val trim)

trim_back_loop : Str → ℕ → Str → ℕ
trim_back_loop val zero trim = zero
trim_back_loop val (suc len) trim =
    let rest = trim_back_loop val len trim in
    if is_trimmed (get_or val len 0) trim then rest else suc len

unfoldable pub trim_back_len : Option Str → ℕ → Option Str → ℕ
unfolding trim_back_loop
trim_back_len none len trim = 0
trim_back_len (some val) len none = len
trim_back_len (some val) len (some trim) = trim_back_loop val len trim

-- The text left in `val`: `val[len] = 0` cuts it.
unfoldable pub trim_back : Option Str → Option Str → Option Str
unfolding trim_back_len
trim_back none trim = none
trim_back (some val) none = some val
trim_back (some val) (some trim) =
    if length val == 0
    then some val
    else some (take (trim_back_len (some val) (length val) (some trim)) val)

unfoldable pub trim : Option Str → Option Str → Option Str
unfolding trim_front trim_back
trim val trim_chars = trim_back (trim_front val trim_chars) trim_chars
