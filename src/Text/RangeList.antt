-- ===== src/Text/RangeList.antt =====
-- `string_parse_range_list`, of text as `5;6;4-9;10`. `strtol` of the C library is a parameter: the value,
-- as the int32_t it is stored in, and how many characters it took.
pub mod Ordered
use iot_edge_opc_proxy.Base.{
  ℕ, zero, suc, Bool, true, false, not, ◌||◌, List, [], ◌∷◌, Option, none, some, drop, length, ◌==◌,
  if◌then◌else◌,
}
use iot_edge_opc_proxy.Base.Int.{ℤ, ltb_ℤ}
use iot_edge_opc_proxy.Error.{Error, is_ok}
use iot_edge_opc_proxy.Text.{Str, char_at, next}

-- What `strtol` makes of an item: the range, where it stops, and whether there was a number.
pub record Item : Type 0 where
  pub low : ℤ
  pub high : ℤ
  pub ptr : Str
  pub is_valid : Bool

-- What a pass over the list comes to: its result, the tuples that it would store, and `index`.
pub record Pass : Type 0 where
  pub result : Error
  pub tuples : List (ℤ × ℤ)
  pub index : ℕ

-- `while (*ptr == ' ') ptr++`.
unfoldable pub skip_spaces : Str → Str
skip_spaces [] = []
skip_spaces (c ∷ s) = let rest = skip_spaces s in if c == b' ' then rest else c ∷ s

-- Reverse ranges are put in order.
unfoldable pub tuple : ℤ → ℤ → ℤ × ℤ
tuple low high = (if ltb_ℤ low high then low else high, if ltb_ℤ low high then high else low)

module _ (strtol : Str → ℤ × ℕ) where
  -- none is er_invalid_format.
  unfoldable pub read_item : Str → Option Item
  read_item s =
      let (low, n) = strtol s in
      let ptr = drop n s in
      let (high, m) = strtol (next ptr) in
      if char_at ptr == b'-'
      then if m == 0
        then none
        else some (record { low = low; high = high; ptr = drop m (next ptr); is_valid = true })
      else some (record { low = low; high = low; ptr = ptr; is_valid = not (n == 0) })

  abbrev pub fail : Pass
  fail = record { result = Error.invalid_format; tuples = []; index = 0 }

  -- An item before what follows it.
  abbrev pub add_item : Item → Pass → Pass
  add_item i rest = record {
    result = rest.result;
    tuples = tuple i.low i.high ∷ rest.tuples;
    index = if i.is_valid then suc rest.index else rest.index;
  }

  abbrev pub ends_with : Error → Pass
  ends_with e = record { result = e; tuples = []; index = 0 }

  -- What follows an item, with what the pass would make of the text behind it.
  unfoldable pub after_item : Item → Option Pass → Option Pass
  unfolding skip_spaces tuple
  after_item i rest =
      if char_at i.ptr == 0
      then some (add_item i (ends_with Error.ok))
      else if char_at i.ptr == b' '
      then some (
          add_item i (
            ends_with
              (if char_at (skip_spaces i.ptr) == 0 then Error.ok else Error.invalid_format)))
      else if not (char_at i.ptr == b';') || not i.is_valid
      then some (add_item i (ends_with Error.invalid_format))
      else elim rest [ none ↦ none | some p ↦ some (add_item i p) ]

  -- A pass from `in`, on fuel; none is fuel run out.
  unfoldable pub scan : ℕ → Str → Option Pass
  unfolding read_item after_item
  scan zero s = none
  scan (suc fuel) s = elim (read_item s) [
    | none ↦ some fail
    | some i ↦ after_item i (scan fuel (next i.ptr))
  ]

  -- What the caller has of a pass that ended: its result, what is stored and how many tuples there is
  -- memory for. `has_memory` is whether `mem_alloc` succeeds.
  abbrev pub stored : Bool → Pass → Pass
  stored has_memory p =
      if not (is_ok p.result)
      then ends_with p.result
      else if p.index == 0
      then ends_with Error.ok
      else if not has_memory
      then ends_with Error.out_of_memory
      else p

  -- The pass that counts and the one that stores are the same but for the stores.
  unfoldable pub parse_range_list : Bool → Str → Option Pass
  unfolding scan
  parse_range_list has_memory s = elim (scan (suc (length s)) s) [
    | none ↦ none
    | some p ↦ some (stored has_memory p)
  ]
