-- ===== src/Text/RangeList/Ordered.antt =====
-- What comes of a list of ranges.
use iot_edge_opc_proxy.Base.{
  ℕ, zero, suc, ◌≤◌, ◌<◌, ◌≡◌, inl, inr, refl, subst, arith, Bool, true, false, Bool-cases, not,
  ◌||◌, List, [], ◌∷◌, Option, none, some, drop, length, ◌==◌,
}
use iot_edge_opc_proxy.Base.Int.{ℤ, ◌≤ℤ◌, ltb_ℤ}
use iot_edge_opc_proxy.Error.{Error, is_ok}
use iot_edge_opc_proxy.Text.{Str, char_at, next}
use iot_edge_opc_proxy.Text.RangeList.{
  Item, Pass, tuple, read_item, add_item, ends_with, fail, after_item, scan, stored,
  parse_range_list,
}

abbrev pub AllOrdered : List (ℤ × ℤ) → Type 0
AllOrdered [] = Unit
AllOrdered ((lo, hi) ∷ l) = (lo ≤ℤ hi) × AllOrdered l

tuple-ordered : (a b : ℤ) → (tuple a b).0 ≤ℤ (tuple a b).1
unfolding tuple
tuple-ordered a b = elim (Bool-cases (ltb_ℤ a b)) [
  | inl h ↦ rw h (ground (arith, h))
  | inr h ↦ rw h (ground (arith, h))
]

length-drop : (n : ℕ) (s : Str) → length (drop n s) ≤ length s
length-drop zero s = omega arith
length-drop (suc n) [] = omega arith
length-drop (suc n) (c ∷ s) = let h = length-drop n s in omega (arith, h)

next-shorter : (s : Str) → (char_at s == 0) ≡ false → length (next s) < length s
next-shorter [] h = absurd cc
next-shorter (c ∷ s) h = omega arith

length-next : (s : Str) → length (next s) ≤ length s
length-next [] = omega arith
length-next (c ∷ s) = omega arith

-- A pass is sound: its tuples are in order, and there are as many as it counts, or one more.
pub record IsSound (p : Pass) : Type 0 where
  pub ordered : AllOrdered p.tuples
  pub at_least : p.index ≤ length p.tuples
  pub at_most : length p.tuples ≤ suc p.index

abbrev pub Sound : Option Pass → Type 0
Sound none = Unit
Sound (some p) = IsSound p

abbrev is_there : Option Pass → Bool
is_there none = false
is_there (some p) = true

or_valid : (a b : Bool) → (a || not b) ≡ false → b ≡ true
or_valid true b h = absurd cc
or_valid false true h = refl
or_valid false false h = absurd cc

module _ (strtol : Str → ℤ × ℕ) where
  last-IsSound : (i : Item) (e : Error) → IsSound (add_item strtol i (ends_with strtol e))
  last-IsSound i e = elim (Bool-cases i.is_valid) [
    | inl h ↦ record {
      ordered = (tuple-ordered i.low i.high, tt);
      at_least = rw h (omega arith);
      at_most = rw h (omega arith);
    }
    | inr h ↦ record {
      ordered = (tuple-ordered i.low i.high, tt);
      at_least = rw h (omega arith);
      at_most = rw h (omega arith);
    }
  ]

  item-IsSound :
      (i : Item) (p : Pass) → i.is_valid ≡ true → IsSound p → IsSound (add_item strtol i p)
  item-IsSound i p h s = record {
    ordered = (tuple-ordered i.low i.high, s.ordered);
    at_least = let k = s.at_least in rw h (omega (arith, k));
    at_most = let k = s.at_most in rw h (omega (arith, k));
  }

  item-Sound :
      (i : Item) (o : Option Pass)
      → i.is_valid ≡ true
      → Sound o
      → Sound (elim o [ none ↦ none | some p ↦ some (add_item strtol i p) ])
  item-Sound i none h s = tt
  item-Sound i (some p) h s = item-IsSound i p h s

  item_there :
      (i : Item) (o : Option Pass)
      → is_there o ≡ true
      → is_there (elim o [ none ↦ none | some p ↦ some (add_item strtol i p) ]) ≡ true
  item_there i none h = h
  item_there i (some p) h = refl

  after_item-Sound : (i : Item) (rest : Option Pass) → Sound rest → Sound (after_item strtol i rest)
  unfolding after_item
  after_item-Sound i rest s = elim (Bool-cases (char_at i.ptr == 0)) [
    | inl h ↦ rw h (last-IsSound i Error.ok)
    | inr h1 ↦ elim (Bool-cases (char_at i.ptr == b' ')) [
      | inl h ↦ rw (h1, h) (last-IsSound i _)
      | inr h2 ↦ elim (Bool-cases (not (char_at i.ptr == b';') || not i.is_valid)) [
        | inl h ↦ rw (h1, h2, h) (last-IsSound i Error.invalid_format)
        | inr h3 ↦ rw (h1, h2, h3) (item-Sound i rest (or_valid _ i.is_valid h3) s)
      ]
    ]
  ]

  chosen-Sound :
      (o : Option Item) (f : Item → Option Pass)
      → ((i : Item) → Sound (f i))
      → Sound (elim o [ none ↦ some (fail strtol) | some i ↦ f i ])
  chosen-Sound none f h = record { ordered = tt; at_least = omega arith; at_most = omega arith }
  chosen-Sound (some i) f h = h i

  scan-Sound : (fuel : ℕ) (s : Str) → Sound (scan strtol fuel s)
  unfolding scan
  scan-Sound zero s = tt
  scan-Sound (suc fuel) s =
      chosen-Sound (read_item strtol s) (λ i. after_item strtol i (scan strtol fuel (next i.ptr)))
        (λ i. after_item-Sound i _ (scan-Sound fuel (next i.ptr)))

  -- An item leaves no more than the text it is in.
  abbrev left_of : Option Item → Str
  left_of none = []
  left_of (some i) = i.ptr

  left-shorter : (s : Str) → length (left_of (read_item strtol s)) ≤ length s
  unfolding read_item
  left-shorter s =
      let ptr = drop (strtol s).1 s in
      let a = length-drop (strtol s).1 s in
      let b = length-next ptr in
      let n = (strtol (next ptr)).1 in
      let c = length-drop n (next ptr) in
      elim (Bool-cases (char_at ptr == b'-')) [
        | inr h ↦ rw (h, left_of) a
        | inl h ↦ elim (Bool-cases (n == 0)) [
          | inl k ↦ rw (h, k, left_of) (omega arith)
          | inr k ↦ rw (h, k, left_of) (omega (arith, a, b, c))
        ]
      ]

  item-shorter : (s : Str) (i : Item) → read_item strtol s ≡ some i → length i.ptr ≤ length s
  item-shorter s i e = subst (λ o. length (left_of o) ≤ length s) e (left-shorter s)

  there_after :
      (i : Item) (rest : Option Pass)
      → ((char_at i.ptr == 0) ≡ false → is_there rest ≡ true)
      → is_there (after_item strtol i rest) ≡ true
  unfolding after_item
  there_after i rest r = elim (Bool-cases (char_at i.ptr == 0)) [
    | inl h ↦ rw (is_there, h) refl
    | inr h1 ↦ elim (Bool-cases (char_at i.ptr == b' ')) [
      | inl h ↦ rw (is_there, h1, h) refl
      | inr h2 ↦ elim (Bool-cases (not (char_at i.ptr == b';') || not i.is_valid)) [
        | inl h ↦ rw (is_there, h1, h2, h) refl
        | inr h3 ↦ rw (h1, h2, h3) (item_there i rest (r h1))
      ]
    ]
  ]

  there_of :
      (o : Option Item) (f : Item → Option Pass)
      → ((i : Item) → o ≡ some i → is_there (f i) ≡ true)
      → is_there (elim o [ none ↦ some (fail strtol) | some i ↦ f i ]) ≡ true
  there_of none f h = refl
  there_of (some i) f h = h i refl

  scan-is_there : (fuel : ℕ) (s : Str) → length s < fuel → is_there (scan strtol fuel s) ≡ true
  unfolding scan
  scan-is_there zero s k = absurd (omega (arith, k))
  scan-is_there (suc fuel) s k =
      there_of (read_item strtol s) (λ i. after_item strtol i (scan strtol fuel (next i.ptr)))
        (λ i e. there_after i _ (λ h.
          scan-is_there fuel (next i.ptr)
            (let a = next-shorter i.ptr h in let b = item-shorter s i e in omega (arith, k, a, b))))

  nothing-IsSound : (e : Error) → IsSound (ends_with strtol e)
  nothing-IsSound e = record { ordered = tt; at_least = omega arith; at_most = omega arith }

  parsed_of : (mem : Bool) (p : Pass) → IsSound p → IsSound (stored strtol mem p)
  parsed_of mem p s = elim (Bool-cases (is_ok p.result)) [
    | inr h ↦ rw h (nothing-IsSound p.result)
    | inl h ↦ elim (Bool-cases (p.index == 0)) [
      | inl k ↦ rw (h, k) (nothing-IsSound Error.ok)
      | inr k ↦ elim (Bool-cases mem) [
        | inl m ↦ rw (h, k, m) s
        | inr m ↦ rw (h, k, m) (nothing-IsSound Error.out_of_memory)
      ]
    ]
  ]

  parsed_from :
      (mem : Bool) (o : Option Pass)
      → is_there o ≡ true
      → Sound o
      → (p : Pass) × ((elim o [ none ↦ none | some p ↦ some (stored strtol mem p) ]) ≡ some p)
        × IsSound p
  parsed_from mem none h s = absurd cc
  parsed_from mem (some p) h s = (_, refl, parsed_of mem p s)

  -- For every text the parser comes to an end, whatever numbers `strtol` reads. Each range that it stores
  -- is in order, its lower bound first, also when the text has it reversed; and it stores as many ranges
  -- as it has memory for and counts, or one more.
  pub parse_range_list-IsSound :
      (mem : Bool) (s : Str) → (p : Pass) × (parse_range_list strtol mem s ≡ some p) × IsSound p
  unfolding parse_range_list
  parse_range_list-IsSound mem s =
      parsed_from mem (scan strtol (suc (length s)) s)
        (scan-is_there (suc (length s)) s (omega arith)) (scan-Sound (suc (length s)) s)
