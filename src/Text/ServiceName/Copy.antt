-- ===== src/Text/ServiceName/Copy.antt =====
-- The name that is written, and the room that it takes.
use iot_edge_opc_proxy.Base.{
  ℕ, ◌-◌, ◌≤◌, ◌<◌, ◌≡◌, refl, sym, subst, lt→ltb, le→ltb_false, ap, ap₂, ◌∙◌, Bool, true, false,
  ◌&&◌, ◌||◌, not, [], ◌∷◌, ◌++◌, append_assoc, append-nil, Option, none, some, arith, ltb, leb,
  ◌==◌, if◌then◌else◌, length, length-append, take, ◌⊎◌, inl, inr, Bool-cases,
}
use iot_edge_opc_proxy.Error.{Error}
use iot_edge_opc_proxy.Text.{Str}
use iot_edge_opc_proxy.Text.ServiceName.{
  Cursor, put, ends_in_dot, with_dot, put_dot, name_part, type_part, domain_part, and_then, close,
  given, text_of, domain_of, copy_full_name,
}

-- The text is stored if there is room behind it, else there is no result.
abbrev Puts : ℕ → Str → Str → Option (ℕ × Str) → Type 0
Puts room out text r =
    ((length text < room) × (r ≡ some (room - length text, out ++ text)))
    ⊎ ((room ≤ length text) × (r ≡ none))

put-Puts : (room : ℕ) (out s : Str) → 0 < room → Puts room out s (put room out s)
unfolding put
put-Puts room out [] h = inl (h, ap some (ap₂ (λ n o. (n, o)) (omega arith) (sym (append-nil out))))
put-Puts room out (c ∷ s) h = elim (Bool-cases (room - 1 == 0)) [
  | inl e ↦ rw e (inr (ground arith, refl))
  | inr e ↦ rw e (elim (put-Puts (room - 1) (out ++ (c ∷ [])) s (ground arith)) [
    | inl (l, r) ↦
        inl (
          omega arith,
          r ∙ ap some (ap₂ (λ n o. (n, o)) (omega arith) (append_assoc out (c ∷ []) s)),
        )
    | inr (l, r) ↦ inr (omega arith, r)
  ])
]

-- The same of a part of the name, which leaves `dot`.
abbrev Parts : ℕ → Str → Str → Bool → Option Cursor → Type 0
Parts room out text dot r =
    ((length text < room) × (r ≡ some (room - length text, out ++ text, dot)))
    ⊎ ((room ≤ length text) × (r ≡ none))

with_dot-Parts :
    (room : ℕ) (out s : Str) (dot : Bool) (r : Option (ℕ × Str))
    → Puts room out s r
    → Parts room out s dot (with_dot dot r)
with_dot-Parts room out s dot r (inl (l, e)) = inl (l, ap (with_dot dot) e)
with_dot-Parts room out s dot r (inr (l, e)) = inr (l, ap (with_dot dot) e)

and_then-Parts :
    (room : ℕ) (out a b : Str) (dot dot' : Bool) (r : Option Cursor) (f : Cursor → Option Cursor)
    → Parts room out a dot r
    → ((room' : ℕ) (out' : Str) → 0 < room' → Parts room' out' b dot' (f (room', out', dot)))
    → Parts room out (a ++ b) dot' (and_then r f)
and_then-Parts room out a b dot dot' r f (inr (l, e)) h =
    inr (omega (arith, length-append a b), ap (λ x. and_then x f) e)
and_then-Parts room out a b dot dot' r f (inl (l, e)) h =
    elim (h (room - length a) (out ++ a) (omega arith)) [
      | inl (m, g) ↦ inl (
        omega (arith, length-append a b),
        ap (λ x. and_then x f) e
            ∙ g
            ∙ ap some (
                ap₂ (λ n o. (n, o, dot')) (omega (arith, length-append a b))
                  (append_assoc out a b)),
      )
      | inr (m, g) ↦ inr (omega (arith, length-append a b), ap (λ x. and_then x f) e ∙ g)
    ]

-- A text with a dot behind it.
abbrev dotted : Str → Str
dotted s = s ++ (b'.' ∷ [])

abbrev then_dot : Option (ℕ × Str) → Option Cursor
then_dot r = and_then (with_dot true r) (λ k. with_dot true (put k.0 k.1 (b'.' ∷ [])))

then_dot-put_dot : (r : Option (ℕ × Str)) → then_dot r ≡ put_dot r
then_dot-put_dot none = refl
then_dot-put_dot (some k) = refl

put_dot-Parts :
    (room : ℕ) (out s : Str) (r : Option (ℕ × Str))
    → Puts room out s r
    → Parts room out (dotted s) true (put_dot r)
put_dot-Parts room out s r p = subst (Parts room out (dotted s) true) (then_dot-put_dot r) (
    and_then-Parts room out s (b'.' ∷ []) true true (with_dot true r) _
      (with_dot-Parts room out s true r p)
      (λ room' out' h.
        with_dot-Parts room' out' (b'.' ∷ []) true _ (put-Puts room' out' (b'.' ∷ []) h)))

-- The parts of the name: a service name or type that is not empty ends in a dot.
unfoldable pub named : Str → Str
named [] = []
named (c ∷ s) = dotted (c ∷ s)

unfoldable pub typed : Str → Str
typed [] = []
typed (c ∷ s) = if ends_in_dot false (c ∷ s) then c ∷ s else dotted (c ∷ s)

abbrev pub is_given : Str → Bool
is_given [] = false
is_given (c ∷ s) = true

nothing :
    (room : ℕ) (out : Str) (dot : Bool) → 0 < room → Parts room out [] dot (some (room, out, dot))
nothing room out dot h =
    inl (h, ap some (ap₂ (λ n o. (n, o, dot)) (omega arith) (sym (append-nil out))))

name-Parts :
    (room : ℕ) (out s : Str)
    → 0 < room
    → Parts room out (named s) (is_given s) (name_part s (room, out, false))
unfolding named
name-Parts room out [] h = nothing room out false h
name-Parts room out (c ∷ s) h = put_dot-Parts room out (c ∷ s) _ (put-Puts room out (c ∷ s) h)

type-Parts :
    (room : ℕ) (out s : Str) (dot : Bool)
    → 0 < room
    → Parts room out (typed s) (is_given s || dot) (type_part s (room, out, dot))
unfolding typed ends_in_dot
type-Parts room out [] dot h = nothing room out dot h
type-Parts room out (c ∷ s) dot h = elim (Bool-cases (ends_in_dot (c == b'.') s)) [
  | inl e ↦ rw e (with_dot-Parts room out (c ∷ s) true _ (put-Puts room out (c ∷ s) h))
  | inr e ↦ rw e (put_dot-Parts room out (c ∷ s) _ (put-Puts room out (c ∷ s) h))
]

domain-Parts :
    (room : ℕ) (out s : Str) (dot : Bool)
    → 0 < room
    → Parts room out s (ends_in_dot dot s) (domain_part s (room, out, dot))
unfolding ends_in_dot
domain-Parts room out [] dot h = nothing room out dot h
domain-Parts room out (c ∷ s) dot h =
    with_dot-Parts room out (c ∷ s) _ _ (put-Puts room out (c ∷ s) h)

-- The whole of it, before the last dot goes.
abbrev pub full_name : Str → Str → Str → Str
full_name name type domain = (named name ++ typed type) ++ domain

abbrev pub without_dot : Bool → Str → Str
without_dot dot s = if dot then take (length s - 1) s else s

closed :
    (room : ℕ) (text : Str) (dot : Bool) (r : Option Cursor)
    → Parts room [] text dot r
    → close r
      ≡ (if ltb (length text) room then (Error.ok, without_dot dot text) else (Error.fault, []))
closed room text dot r (inl (l, e)) = rw (lt→ltb (length text) room l) (ap close e)
closed room text dot r (inr (l, e)) = rw (le→ltb_false (length text) room l) (ap close e)

-- `string_copy_service_full_name` with more than one byte of room, and with a service type if there
-- are a service name and a domain: the service name with a dot, the type with a dot unless it ends in
-- one, and the domain, which is "local" when only the others are there, follow each other. If that
-- is shorter than the room, it is written without a dot at its end, which leaves room for the closing
-- 0; otherwise the call returns er_fault.
pub copy_full_name_lem :
    (name type domain : Option Str) (full_size : ℕ)
    → (given name && given domain && not (given type)) ≡ false
    → 1 < full_size
    → let last = domain_of name type domain in
      let full = full_name (text_of name) (text_of type) last in
      copy_full_name true name type domain full_size ≡ (
        if ltb (length full) full_size
        then (
          Error.ok,
          without_dot (ends_in_dot (is_given (text_of type) || is_given (text_of name)) last) full,
        )
        else (Error.fault, []))
unfolding copy_full_name
copy_full_name_lem name type domain full_size g h =
    let last = domain_of name type domain in
    let dot = is_given (text_of type) || is_given (text_of name) in
    let room : leb full_size 1 ≡ false = ground arith in
    rw (g, room)
      (closed full_size (full_name (text_of name) (text_of type) last) (ends_in_dot dot last) _ (
        and_then-Parts full_size [] (named (text_of name) ++ typed (text_of type)) last dot
          (ends_in_dot dot last) _ _
          (and_then-Parts full_size [] (named (text_of name)) (typed (text_of type))
            (is_given (text_of name)) dot _ _ (name-Parts full_size [] (text_of name) (omega arith))
            (λ room' out' k. type-Parts room' out' (text_of type) (is_given (text_of name)) k))
          (λ room' out' k. domain-Parts room' out' last dot k)))
