-- ===== src/Text/Find.antt =====
-- Comparing and finding: `string_is_equal`, `string_find`, `string_starts_with_nocase` and their
-- kin. `strncmp`, `strncasecmp` and `tolower` are those of the C library, in its "C" locale.
pub mod First
use iot_edge_opc_proxy.Base.{
  ℕ, zero, suc, ◌+◌, ◌≡◌, refl, Bool, true, false, ◌&&◌, ◌||◌, List, [], ◌∷◌, Option, none, some,
  ltb, leb, ◌==◌, if◌then◌else◌, length,
}
use iot_edge_opc_proxy.Text.{Str, char_at, next}

-- `tolower`.
abbrev pub lower : ℕ → ℕ
lower c = if leb b'A' c && leb c b'Z' then c + 32 else c

-- `0 == strncmp(v, t, n)`, on characters that `same` compares.
pub same_prefix : (ℕ → ℕ → Bool) → Str → Str → ℕ → Bool
same_prefix same v t zero = true
same_prefix same v t (suc n) =
    same (char_at v) (char_at t) && (char_at v == 0 || same_prefix same (next v) (next t) n)

abbrev pub same_case : ℕ → ℕ → Bool
same_case a b = a == b

abbrev pub same_nocase : ℕ → ℕ → Bool
same_nocase a b = lower a == lower b

-- `string_is_equal` and `string_is_equal_nocase`.
is_equal_by : (ℕ → ℕ → Bool) → Option Str → ℕ → Option Str → Bool
is_equal_by same none len none = true
is_equal_by same none len (some t) = false
is_equal_by same (some v) len none = false
is_equal_by same (some v) len (some t) = len == length t && same_prefix same v t len

unfoldable pub is_equal : Option Str → ℕ → Option Str → Bool
unfolding is_equal_by same_prefix
is_equal = is_equal_by same_case

unfoldable pub is_equal_nocase : Option Str → ℕ → Option Str → Bool
unfolding is_equal_by same_prefix
is_equal_nocase = is_equal_by same_nocase

-- The loop of `string_find` at `next`, with `val_len` characters left; the test is either of the
-- two above.
find_loop : (Option Str → ℕ → Option Str → Bool) → Str → ℕ → Str → Option Str
find_loop equal v zero f = none
find_loop equal v (suc val_len) f =
    let rest = find_loop equal (next v) val_len f in
    if leb (length f) (suc val_len)
    then (if equal (some v) (length f) (some f) then some v else rest)
    else none

find_by : (Option Str → ℕ → Option Str → Bool) → Option Str → Option Str → Option Str
find_by equal none f = none
find_by equal (some v) none = none
find_by equal (some v) (some f) =
    if length v == 0 || length f == 0 then none else find_loop equal v (length v) f

-- The pointer returned, as the text from there on.
unfoldable pub find : Option Str → Option Str → Option Str
unfolding find_by find_loop is_equal
find = find_by is_equal

unfoldable pub find_nocase : Option Str → Option Str → Option Str
unfolding find_by find_loop is_equal_nocase
find_nocase = find_by is_equal_nocase

unfoldable pub starts_with_nocase : Option Str → Option Str → Bool
unfolding is_equal_nocase
starts_with_nocase none f = false
starts_with_nocase (some v) none = false
starts_with_nocase (some v) (some f) =
    if ltb (length v) (length f) then false else is_equal_nocase (some v) (length f) (some f)
