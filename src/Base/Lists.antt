-- ===== src/Base/Lists.antt =====
-- Lists measured and indexed by native numbers, under the library's names, and how `take` and
-- `drop` go through `++`.
use Prim.Native.Nat.{ℕ, zero, suc, ◌+◌, ◌-◌, ◌≤◌, ◌<◌, min}
use mathlib.Core.Path.{◌≡◌, refl, ap, ◌∙◌}
use mathlib.Core.Logic.{◌≢◌}
use mathlib.Core.List.{List, [], ◌∷◌, ◌++◌, map}
use mathlib.Core.Option.{Option, none, some}
use native.Mathlib.Omega.{arith}

module _ {ℓ} {A : Type ℓ} where
  abbrev pub length : List A → ℕ
  length [] = 0
  length (x ∷ xs) = suc (length xs)

  abbrev pub get_elem? : List A → ℕ → Option A
  get_elem? [] i = none
  get_elem? (x ∷ xs) zero = some x
  get_elem? (x ∷ xs) (suc i) = get_elem? xs i

  -- A write out of bounds changes nothing.
  abbrev pub set : List A → ℕ → A → List A
  set [] i v = []
  set (x ∷ xs) zero v = v ∷ xs
  set (x ∷ xs) (suc i) v = x ∷ set xs i v

  pub length-append : (xs ys : List A) → length (xs ++ ys) ≡ length xs + length ys
  length-append [] ys = omega arith
  length-append (x ∷ xs) ys = omega (arith, length-append xs ys)

module _ {ℓ} {A : Type ℓ} where
  pub length-set : (xs : List A) (i : ℕ) (v : A) → length (set xs i v) ≡ length xs
  length-set [] i v = refl
  length-set (x ∷ xs) zero v = refl
  length-set (x ∷ xs) (suc i) v = ap suc (length-set xs i v)

  pub get_elem?-set_self :
      (xs : List A) (i : ℕ) (v : A) → i < length xs → get_elem? (set xs i v) i ≡ some v
  get_elem?-set_self [] i v h = elim h [ ]
  get_elem?-set_self (x ∷ xs) zero v h = refl
  get_elem?-set_self (x ∷ xs) (suc i) v h = get_elem?-set_self xs i v (omega arith)

  pub get_elem?-set_ne :
      (xs : List A) {i j : ℕ} (v : A) → i ≢ j → get_elem? (set xs i v) j ≡ get_elem? xs j
  get_elem?-set_ne [] v h = refl
  get_elem?-set_ne (x ∷ xs) {i = zero} {j = zero} v h = absurd (h refl)
  get_elem?-set_ne (x ∷ xs) {i = zero} {j = suc j} v h = refl
  get_elem?-set_ne (x ∷ xs) {i = suc i} {j = zero} v h = refl
  get_elem?-set_ne (x ∷ xs) {i = suc i} {j = suc j} v h = get_elem?-set_ne xs v (λ e. h (ap suc e))

module _ {ℓ} {A : Type ℓ} where
  abbrev pub get_or : List A → ℕ → A → A
  get_or [] i d = d
  get_or (x ∷ xs) zero d = x
  get_or (x ∷ xs) (suc i) d = get_or xs i d

  abbrev pub take : ℕ → List A → List A
  take zero xs = []
  take (suc n) [] = []
  take (suc n) (x ∷ xs) = x ∷ take n xs

  abbrev pub drop : ℕ → List A → List A
  drop zero xs = xs
  drop (suc n) [] = []
  drop (suc n) (x ∷ xs) = drop n xs

  abbrev pub replicate : ℕ → A → List A
  replicate zero a = []
  replicate (suc n) a = a ∷ replicate n a

  pub take-append-drop : (n : ℕ) (xs : List A) → take n xs ++ drop n xs ≡ xs
  take-append-drop zero xs = refl
  take-append-drop (suc n) [] = refl
  take-append-drop (suc n) (x ∷ xs) = rw (take-append-drop n xs)

  pub length-take : (n : ℕ) (xs : List A) → length (take n xs) ≡ min n (length xs)
  length-take zero xs = omega arith
  length-take (suc n) [] = omega arith
  length-take (suc n) (x ∷ xs) = omega (arith, length-take n xs)

  pub length-drop : (n : ℕ) (xs : List A) → length (drop n xs) ≡ length xs - n
  length-drop zero xs = omega arith
  length-drop (suc n) [] = omega arith
  length-drop (suc n) (x ∷ xs) = omega (arith, length-drop n xs)

  pub length-replicate : (n : ℕ) (a : A) → length (replicate n a) ≡ n
  length-replicate zero a = refl
  length-replicate (suc n) a = ap suc (length-replicate n a)

  pub length-map {κ} : {B : Type κ} (xs : List A) (f : A → B) → length (map f xs) ≡ length xs
  length-map [] f = refl
  length-map (x ∷ xs) f = ap suc (length-map xs f)

module _ {ℓ} {A : Type ℓ} where
  pub take_append_left : (n : ℕ) (xs ys : List A) → n ≤ length xs → take n (xs ++ ys) ≡ take n xs
  take_append_left zero xs ys h = refl
  take_append_left (suc n) [] ys h = absurd (omega arith)
  take_append_left (suc n) (x ∷ xs) ys h = ap (◌∷◌ x) (take_append_left n xs ys (omega arith))

  pub take_append_right :
      (n : ℕ) (xs ys : List A) → length xs ≤ n → take n (xs ++ ys) ≡ xs ++ take (n - length xs) ys
  take_append_right n [] ys h = ap (λ k. take k ys) (omega arith)
  take_append_right zero (x ∷ xs) ys h = absurd (omega arith)
  take_append_right (suc n) (x ∷ xs) ys h = ap (◌∷◌ x) (
      take_append_right n xs ys (omega arith)
      ∙ ap (λ k. xs ++ take k ys) {y = suc n - suc (length xs)} (omega arith))

  pub drop_append_left :
      (n : ℕ) (xs ys : List A) → n ≤ length xs → drop n (xs ++ ys) ≡ drop n xs ++ ys
  drop_append_left zero xs ys h = refl
  drop_append_left (suc n) [] ys h = absurd (omega arith)
  drop_append_left (suc n) (x ∷ xs) ys h = drop_append_left n xs ys (omega arith)

  pub drop_append_right :
      (n : ℕ) (xs ys : List A) → length xs ≤ n → drop n (xs ++ ys) ≡ drop (n - length xs) ys
  drop_append_right n [] ys h = ap (λ k. drop k ys) (omega arith)
  drop_append_right zero (x ∷ xs) ys h = absurd (omega arith)
  drop_append_right (suc n) (x ∷ xs) ys h =
      drop_append_right n xs ys (omega arith)
      ∙ ap (λ k. drop k ys) {y = suc n - suc (length xs)} (omega arith)

  pub take_all : (n : ℕ) (xs : List A) → length xs ≤ n → take n xs ≡ xs
  take_all zero [] h = refl
  take_all zero (x ∷ xs) h = absurd (omega arith)
  take_all (suc n) [] h = refl
  take_all (suc n) (x ∷ xs) h = ap (◌∷◌ x) (take_all n xs (omega arith))

  pub drop_all : (n : ℕ) (xs : List A) → length xs ≤ n → drop n xs ≡ []
  drop_all zero [] h = refl
  drop_all zero (x ∷ xs) h = absurd (omega arith)
  drop_all (suc n) [] h = refl
  drop_all (suc n) (x ∷ xs) h = drop_all n xs (omega arith)

  take-nil : (n : ℕ) → take {A = A} n [] ≡ []
  take-nil n = take_all n [] (omega arith)

  drop-nil : (n : ℕ) → drop {A = A} n [] ≡ []
  drop-nil n = drop_all n [] (omega arith)

  -- The first `n` of the elements from the `i`-th on.
  pub drop-take : (i n : ℕ) (xs : List A) → drop i (take (i + n) xs) ≡ take n (drop i xs)
  drop-take zero n xs = ap (λ k. take k xs) (omega arith)
  drop-take (suc i) n [] = simp (take-nil, drop-nil)
  drop-take (suc i) n (x ∷ xs) =
      ap (λ k. drop (suc i) (take k (x ∷ xs))) {y = suc (i + n)} (omega arith) ∙ drop-take i n xs

  pub drop-drop : (i n : ℕ) (xs : List A) → drop n (drop i xs) ≡ drop (i + n) xs
  drop-drop zero n xs = ap (λ k. drop k xs) (omega arith)
  drop-drop (suc i) n [] = simp drop-nil
  drop-drop (suc i) n (x ∷ xs) =
      drop-drop i n xs ∙ ap (λ k. drop k (x ∷ xs)) {x = suc (i + n)} (omega arith)

  pub take-take_le : (k w : ℕ) (xs : List A) → k ≤ w → take k (take w xs) ≡ take k xs
  take-take_le zero w xs h = refl
  take-take_le (suc k) zero xs h = absurd (omega arith)
  take-take_le (suc k) (suc w) [] h = refl
  take-take_le (suc k) (suc w) (x ∷ xs) h = ap (◌∷◌ x) (take-take_le k w xs (omega arith))

  pub take-drop-take :
      (i n w : ℕ) (xs : List A) → i + n ≤ w → take n (drop i (take w xs)) ≡ take n (drop i xs)
  take-drop-take i n w xs h =
      rw (← drop-take i n (take w xs), take-take_le (i + n) w xs h) (drop-take i n xs)

  -- The elements from the `i`-th on begin with the next `n`.
  pub drop-split : (i n : ℕ) (xs : List A) → drop i xs ≡ take n (drop i xs) ++ drop (i + n) xs
  drop-split i n xs = rw (← drop-drop i n xs, take-append-drop n (drop i xs))

  pub take-append-take : (i n : ℕ) (xs : List A) → take i xs ++ take n (drop i xs) ≡ take (i + n) xs
  take-append-take zero n xs = ap (λ k. take k xs) (omega arith)
  take-append-take (suc i) n [] = simp take-nil
  take-append-take (suc i) n (x ∷ xs) =
      ap (◌∷◌ x) (take-append-take i n xs)
      ∙ ap (λ k. take k (x ∷ xs)) {x = suc (i + n)} (omega arith)

  -- `take` and `drop` see no more of a list than there is.
  pub take-min : (n : ℕ) (xs : List A) → take (min n (length xs)) xs ≡ take n xs
  take-min zero xs = ap (λ k. take k xs) {y = 0} (omega arith)
  take-min (suc n) [] = take-nil (min (suc n) 0)
  take-min (suc n) (x ∷ xs) =
      ap (λ k. take k (x ∷ xs)) {y = suc (min n (length xs))} (omega arith)
      ∙ ap (◌∷◌ x) (take-min n xs)

  pub drop-min : (n : ℕ) (xs : List A) → drop (min n (length xs)) xs ≡ drop n xs
  drop-min zero xs = ap (λ k. drop k xs) {y = 0} (omega arith)
  drop-min (suc n) [] = drop-nil (min (suc n) 0)
  drop-min (suc n) (x ∷ xs) =
      ap (λ k. drop k (x ∷ xs)) {y = suc (min n (length xs))} (omega arith) ∙ drop-min n xs

  -- A list split after its first `length xs` elements.
  pub take-append : (xs ys : List A) → take (length xs) (xs ++ ys) ≡ xs
  take-append [] ys = refl
  take-append (x ∷ xs) ys = ap (◌∷◌ x) (take-append xs ys)

  pub drop-append : (xs ys : List A) → drop (length xs) (xs ++ ys) ≡ ys
  drop-append [] ys = refl
  drop-append (x ∷ xs) ys = drop-append xs ys

  pub length-eq-zero : (xs : List A) → length xs ≡ 0 → xs ≡ []
  length-eq-zero [] h = refl
  length-eq-zero (x ∷ xs) h = absurd (omega arith)

-- Writing one element of a list.
module _ {ℓ} {A : Type ℓ} where
  pub set-set : (xs : List A) (i : ℕ) (u v : A) → set (set xs i u) i v ≡ set xs i v
  set-set [] i u v = refl
  set-set (x ∷ xs) zero u v = refl
  set-set (x ∷ xs) (suc i) u v = ap (◌∷◌ x) (set-set xs i u v)

  pub take-set :
      (xs : List A) (i : ℕ) (v : A)
      → i < length xs
      → take (suc i) (set xs i v) ≡ take i xs ++ v ∷ []
  take-set [] i v h = absurd (omega arith)
  take-set (x ∷ xs) zero v h = refl
  take-set (x ∷ xs) (suc i) v h = ap (◌∷◌ x) (take-set xs i v (omega arith))

  pub drop-set : (xs : List A) (i j : ℕ) (v : A) → i < j → drop j (set xs i v) ≡ drop j xs
  drop-set [] i j v h = refl
  drop-set (x ∷ xs) i zero v h = absurd (omega arith)
  drop-set (x ∷ xs) zero (suc j) v h = refl
  drop-set (x ∷ xs) (suc i) (suc j) v h = drop-set xs i j v (omega arith)

  pub drop-set_self :
      (xs : List A) (i : ℕ) (v : A) → i < length xs → drop i (set xs i v) ≡ v ∷ drop (suc i) xs
  drop-set_self [] i v h = absurd (omega arith)
  drop-set_self (x ∷ xs) zero v h = refl
  drop-set_self (x ∷ xs) (suc i) v h = drop-set_self xs i v (omega arith)

  pub drop-cons :
      (xs : List A) (i : ℕ) (d : A) → i < length xs → drop i xs ≡ get_or xs i d ∷ drop (suc i) xs
  drop-cons [] i d h = absurd (omega arith)
  drop-cons (x ∷ xs) zero d h = refl
  drop-cons (x ∷ xs) (suc i) d h = drop-cons xs i d (omega arith)

  pub take-snoc :
      (xs : List A) (i : ℕ) (d : A)
      → i < length xs
      → take (suc i) xs ≡ take i xs ++ get_or xs i d ∷ []
  take-snoc [] i d h = absurd (omega arith)
  take-snoc (x ∷ xs) zero d h = refl
  take-snoc (x ∷ xs) (suc i) d h = ap (◌∷◌ x) (take-snoc xs i d (omega arith))

-- `P` holds of each element.
abbrev pub Each {ℓ κ} : {A : Type ℓ} (P : A → Type κ) (elements : List A) → Type κ
Each P [] = Unit
Each P (first ∷ others) = P first × Each P others

pub Each-get_or {ℓ κ} :
    {A : Type ℓ} (P : A → Type κ) (elements : List A) (i : ℕ) (other : A)
    → Each P elements
    → P other
    → P (get_or elements i other)
Each-get_or P [] i other e p = p
Each-get_or P (first ∷ others) zero other e p = e.0
Each-get_or P (first ∷ others) (suc i) other e p = Each-get_or P others i other e.1 p

pub get_or-append {ℓ} :
    {A : Type ℓ} (xs : List A) (y : A) (ys : List A) (d : A)
    → get_or (xs ++ (y ∷ ys)) (length xs) d ≡ y
get_or-append [] y ys d = refl
get_or-append (x ∷ xs) y ys d = get_or-append xs y ys d

pub set-append {ℓ} :
    {A : Type ℓ} (xs : List A) (y z : A) (ys : List A)
    → set (xs ++ (y ∷ ys)) (length xs) z ≡ xs ++ (z ∷ ys)
set-append [] y z ys = refl
set-append (x ∷ xs) y z ys = ap (◌∷◌ x) (set-append xs y z ys)
