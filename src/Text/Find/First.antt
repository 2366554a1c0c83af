-- ===== src/Text/Find/First.antt =====
-- `string_find` and `string_find_nocase` give the first occurrence, and NULL where there is none.
use iot_edge_opc_proxy.Base.{
  ℕ, zero, suc, ◌<◌, ◌≤◌, ◌≡◌, refl, inl, inr, Bool, true, false, ◌&&◌, ◌||◌, [], ◌∷◌, Option, none,
  some, leb, ◌==◌, length, length-drop, drop, arith, Bool-cases,
}
use iot_edge_opc_proxy.Text.{Str, IsText}
use iot_edge_opc_proxy.Text.Find.{
  same_prefix, same_case, same_nocase, is_equal, is_equal_nocase, is_equal_by, find_loop, find_by,
  find, find_nocase, starts_with_nocase,
}

-- `f` stands at the front of `v`, character by character.
abbrev pub begins : (ℕ → ℕ → Bool) → Str → Str → Bool
begins same [] v = true
begins same (c ∷ f) [] = false
begins same (c ∷ f) (d ∷ v) = same d c && begins same f v

-- A comparison that takes the closing 0 for no character.
abbrev Apart : (ℕ → ℕ → Bool) → Type 0
Apart same = (c d : ℕ) → 0 < c → same d c ≡ true → 0 < d

case-Apart : Apart same_case
case-Apart c d p h = ground arith

nocase-Apart : Apart same_nocase
nocase-Apart c d p h = ground arith

same_prefix-begins :
    (same : ℕ → ℕ → Bool) (f v : Str)
    → Apart same
    → IsText f
    → same_prefix same v f (length f) ≡ begins same f v
unfolding same_prefix
same_prefix-begins same [] v p t = refl
same_prefix-begins same (c ∷ f) [] p t = ground (arith, p c 0 t.0)
same_prefix-begins same (c ∷ f) (d ∷ v) p t =
    ground (arith, p c d t.0, same_prefix-begins same f v p t.1)

-- Where a search ends: nowhere, or at the first place where `f` begins.
pub data First (same : ℕ → ℕ → Bool) (v f : Str) (r : Option Str) : Type 0 where
  absent : r ≡ none → ((i : ℕ) → i < length v → begins same f (drop i v) ≡ false) → First same v f r
  at :
      (i : ℕ)
      → r ≡ some (drop i v)
      → i < length v
      → begins same f (drop i v) ≡ true
      → ((j : ℕ) → j < i → begins same f (drop j v) ≡ false)
      → First same v f r

pub begins-length : (same : ℕ → ℕ → Bool) (f v : Str) → begins same f v ≡ true → length f ≤ length v
begins-length same [] v h = omega arith
begins-length same (c ∷ f) [] h = cc
begins-length same (c ∷ f) (d ∷ v) h = ground (arith, begins-length same f v)

begins_too_long : (same : ℕ → ℕ → Bool) (f v : Str) → length v < length f → begins same f v ≡ false
begins_too_long same f v h = ground (arith, begins-length same f v)

module _ (same : ℕ → ℕ → Bool) (equal : Option Str → ℕ → Option Str → Bool) (f : Str)
    (tests : (v : Str) → equal (some v) (length f) (some f) ≡ begins same f v)
    (some_char : 0 < length f) where
  later :
      (d : ℕ) (v : Str) {r : Option Str}
      → begins same f (d ∷ v) ≡ false
      → First same v f r
      → First same (d ∷ v) f r
  later d v no_match (absent e none_at) = absent e (λ i. at_place i)
    where
      at_place : (i : ℕ) → i < suc (length v) → begins same f (drop i (d ∷ v)) ≡ false
      at_place zero h = no_match
      at_place (suc i) h = none_at i (omega arith)
  later d v no_match (at i e within here before) = at (suc i) e (omega arith) here (λ j. at_place j)
    where
      at_place : (j : ℕ) → j < suc i → begins same f (drop j (d ∷ v)) ≡ false
      at_place zero h = no_match
      at_place (suc j) h = before j (omega arith)

  find_loop-First : (v : Str) → First same v f (find_loop equal v (length v) f)
  unfolding find_loop
  find_loop-First [] = absent refl (λ i h. absurd (omega arith))
  find_loop-First (d ∷ v) = elim (Bool-cases (leb (length f) (suc (length v)))) [
    | inr short ↦ rw short (
        absent refl
          λ i h. begins_too_long same f (drop i (d ∷ v)) (ground (arith, length-drop i (d ∷ v))))
    | inl room ↦ elim (Bool-cases (begins same f (d ∷ v))) [
      | inl here ↦
          rw (room, tests (d ∷ v), here)
            (at 0 refl (omega arith) here (λ j h. absurd (omega arith)))
      | inr no_match ↦ rw (room, tests (d ∷ v), no_match) (later d v no_match (find_loop-First v))
    ]
  ]

  find_by-First : (v : Str) → First same v f (find_by equal (some v) (some f))
  unfolding find_by
  find_by-First [] = absent refl (λ i h. absurd (omega arith))
  find_by-First (d ∷ v) =
      let nonempty : (suc (length v) == 0 || length f == 0) ≡ false = ground arith in
      rw nonempty (find_loop-First (d ∷ v))

equal-begins :
    (same : ℕ → ℕ → Bool) (f : Str)
    → Apart same
    → IsText f
    → (v : Str) → is_equal_by same (some v) (length f) (some f) ≡ begins same f v
unfolding is_equal_by
equal-begins same f p t v = ground (arith, same_prefix-begins same f v p t)

-- `string_find` of a text that is not empty returns the first place of the value at which that text
-- begins, and NULL exactly where it begins at none.
pub find-First :
    (v f : Str) → IsText f → 0 < length f → First same_case v f (find (some v) (some f))
unfolding find is_equal
find-First v f t h =
    find_by-First same_case (is_equal_by same_case) f (equal-begins same_case f case-Apart t) h v

-- `string_find_nocase` does so up to the case of ASCII letters.
pub find_nocase-First :
    (v f : Str) → IsText f → 0 < length f → First same_nocase v f (find_nocase (some v) (some f))
unfolding find_nocase is_equal_nocase
find_nocase-First v f t h =
    find_by-First same_nocase (is_equal_by same_nocase) f
      (equal-begins same_nocase f nocase-Apart t) h v

-- `string_starts_with_nocase` holds exactly where `f` begins the value, up to case.
pub starts_with_nocase-begins :
    (v f : Str) → IsText f → starts_with_nocase (some v) (some f) ≡ begins same_nocase f v
unfolding starts_with_nocase is_equal_nocase
starts_with_nocase-begins v f t =
    ground (arith, equal-begins same_nocase f nocase-Apart t v, begins-length same_nocase f v)

pub is_equal_nocase-begins :
    (f : Str)
    → IsText f
    → (v : Str) → is_equal_nocase (some v) (length f) (some f) ≡ begins same_nocase f v
unfolding is_equal_nocase
is_equal_nocase-begins f t v = equal-begins same_nocase f nocase-Apart t v
