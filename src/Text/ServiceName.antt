-- ===== src/Text/ServiceName.antt =====
-- `string_copy_service_full_name`: the name of a service from its components.
pub mod Copy
use iot_edge_opc_proxy.Base.{
  ℕ, ◌-◌, Bool, true, false, ◌&&◌, ◌||◌, not, List, [], ◌∷◌, ◌++◌, Option, none, some, leb, ◌==◌,
  if◌then◌else◌, length, take,
}
use iot_edge_opc_proxy.Error.{Error}
use iot_edge_opc_proxy.Text.{Str}

-- `full_size`, what is before `full_name`, and `trailing_dot`.
abbrev pub Cursor : Type 0
Cursor = ℕ × Str × Bool

-- The copying loops, and the storing of a dot: `none` is er_fault.
unfoldable pub put : ℕ → Str → Str → Option (ℕ × Str)
put room out [] = some (room, out)
put room out (c ∷ s) =
    let rest = put (room - 1) (out ++ (c ∷ [])) s in if room - 1 == 0 then none else rest

-- What the loops that assign `trailing_dot` leave in it.
unfoldable pub ends_in_dot : Bool → Str → Bool
ends_in_dot dot [] = dot
ends_in_dot dot (c ∷ s) = ends_in_dot (c == b'.') s

abbrev pub with_dot : Bool → Option (ℕ × Str) → Option Cursor
with_dot dot none = none
with_dot dot (some (room, out)) = some (room, out, dot)

abbrev pub put_dot : Option (ℕ × Str) → Option Cursor
put_dot none = none
put_dot (some (room, out)) = with_dot true (put room out (b'.' ∷ []))

abbrev pub name_part : Str → Cursor → Option Cursor
name_part [] k = some k
name_part (c ∷ s) (room, out, dot) = put_dot (put room out (c ∷ s))

abbrev pub type_part : Str → Cursor → Option Cursor
type_part [] k = some k
type_part (c ∷ s) (room, out, dot) =
    if ends_in_dot dot (c ∷ s)
    then with_dot true (put room out (c ∷ s))
    else put_dot (put room out (c ∷ s))

abbrev pub domain_part : Str → Cursor → Option Cursor
domain_part [] k = some k
domain_part (c ∷ s) (room, out, dot) = with_dot (ends_in_dot dot (c ∷ s)) (put room out (c ∷ s))

abbrev pub and_then : Option Cursor → (Cursor → Option Cursor) → Option Cursor
and_then none f = none
and_then (some k) f = f k

-- `if (trailing_dot) full_name--; *full_name = 0;`.
abbrev pub close : Option Cursor → Error × Str
close none = (Error.fault, [])
close (some (room, out, dot)) = (Error.ok, if dot then take (length out - 1) out else out)

abbrev pub given : Option Str → Bool
given none = false
given (some s) = true

abbrev pub text_of : Option Str → Str
text_of none = []
text_of (some s) = s

-- `domain` after its default.
abbrev pub domain_of : Option Str → Option Str → Option Str → Str
domain_of name type (some domain) = domain
domain_of name type none =
    if given name || given type then b'l' ∷ b'o' ∷ b'c' ∷ b'a' ∷ b'l' ∷ [] else []

-- The result code, and the text before the closing 0, unless the call fails; `place` is whether
-- `full_name` is not NULL.
unfoldable pub copy_full_name : Bool → Option Str → Option Str → Option Str → ℕ → Error × Str
copy_full_name false name type domain full_size = (Error.fault, [])
copy_full_name true name type domain full_size =
    if given name && given domain && not (given type)
    then (Error.arg, [])
    else if leb full_size 1
    then (Error.arg, [])
    else close (
        and_then
          (and_then (name_part (text_of name) (full_size, [], false)) (type_part (text_of type)))
          (domain_part (domain_of name type domain)))
