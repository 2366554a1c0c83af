-- ===== src/Text.antt =====
-- src/util_string.c. A C string is the list of its bytes before the closing 0, so reading at its end
-- gives 0; a `char*` that may be NULL is an `Option`.
pub mod Byte
pub mod Hex
pub mod Uuid
pub mod Find
pub mod KeyValue
pub mod Trim
pub mod Utf8
pub mod Remove
pub mod ServiceName
pub mod RangeList
mod Tests
use iot_edge_opc_proxy.Base.{ℕ, ◌<◌, List, [], ◌∷◌, Each}

abbrev pub Str : Type 0
Str = List ℕ

-- `*s` and `s + 1`.
abbrev pub char_at : Str → ℕ
char_at [] = 0
char_at (c ∷ s) = c

abbrev pub next : Str → Str
next [] = []
next (c ∷ s) = s

-- The bytes of a C string are not 0.
abbrev pub IsText : Str → Type 0
IsText = Each (λ c. 0 < c)
