-- ===== src/Text/KeyValue/Visits.antt =====
-- What the visitor is handed, and that the parser always returns.
use iot_edge_opc_proxy.Base.{
  ℕ, zero, suc, ◌<◌, ◌≤◌, ◌≡◌, ◌≢◌, refl, inl, inr, false, List, [], ◌∷◌, ◌++◌, Option, none, some,
  if◌then◌else◌, length, length-append, arith, Bool-cases, Each,
}
use iot_edge_opc_proxy.Error.{Error, is_ok}
use iot_edge_opc_proxy.Text.{Str, char_at, next}
use iot_edge_opc_proxy.Text.KeyValue.{
  passed, stops_at, at_end, Round, returns, continues, after_value, round, rounds, parse,
}

-- A key and its value.
abbrev pub Entry : Type 0
Entry = Str × Str

-- The text of one or more entries, `k=v` with `delim` between two.
unfoldable pub print : ℕ → Entry → List Entry → Str
print delim (k, v) [] = k ++ (b'=' ∷ v)
print delim (k, v) (e ∷ es) = k ++ (b'=' ∷ (v ++ (delim ∷ print delim e es)))

-- The visitor is handed the entries in turn, up to the first that it does not accept.
unfoldable pub visit_all :
    {S : Type 0} → (S → Str → Str → Error × S) → S → Entry → List Entry → Error × S
visit_all visitor s (k, v) [] = visitor s k v
visit_all visitor s (k, v) (e ∷ es) =
    let (r, s') = visitor s k v in
    let rest = visit_all visitor s' e es in if is_ok r then rest else (r, s')

-- No character is `stop`.
abbrev pub Free : ℕ → Str → Type 0
Free stop = Each (λ c. (0 < c) × (c ≢ stop))

passed-append : (stop : ℕ) (t rest : Str) → Free stop t → passed stop (t ++ (stop ∷ rest)) ≡ t
unfolding passed
passed-append stop [] rest h = ground arith
passed-append stop (c ∷ t) rest h = ground (arith, passed-append stop t rest h.1)

stops_at-append :
    (stop : ℕ) (t rest : Str) → Free stop t → stops_at stop (t ++ (stop ∷ rest)) ≡ stop ∷ rest
unfolding stops_at
stops_at-append stop [] rest h = ground arith
stops_at-append stop (c ∷ t) rest h = ground (arith, stops_at-append stop t rest h.1)

passed_all : (stop : ℕ) (t : Str) → Free stop t → passed stop t ≡ t
unfolding passed
passed_all stop [] h = refl
passed_all stop (c ∷ t) h = ground (arith, passed_all stop t h.1)

stops_at_end : (stop : ℕ) (t : Str) → Free stop t → stops_at stop t ≡ []
unfolding stops_at
stops_at_end stop [] h = refl
stops_at_end stop (c ∷ t) h = ground (arith, stops_at_end stop t h.1)

length-stops_at : (stop : ℕ) (t : Str) → length (stops_at stop t) ≤ length t
unfolding stops_at
length-stops_at stop [] = omega arith
length-stops_at stop (c ∷ t) = ground (arith, length-stops_at stop t)

-- What an entry may be: no `=` in the key, no `delim` in the value.
abbrev pub IsEntry : ℕ → Entry → Type 0
IsEntry delim (k, v) = Free b'=' k × Free delim v

print_first :
    (delim : ℕ) (e : Entry) (es : List Entry) → IsEntry delim e → 0 < char_at (print delim e es)
unfolding print
print_first delim ([], v) [] h = omega arith
print_first delim ([], v) (e ∷ es) h = omega arith
print_first delim (c ∷ k, v) [] h = h.0.0.0
print_first delim (c ∷ k, v) (e ∷ es) h = h.0.0.0

after_first : (delim : ℕ) (v p : Str) → 0 < delim → Free delim v → 0 < char_at (v ++ (delim ∷ p))
after_first delim [] p h f = h
after_first delim (c ∷ v) p h f = f.0.0

length-print_rest :
    (delim : ℕ) (k v : Str) (e : Entry) (es : List Entry)
    → length (print delim e es) < length (print delim (k, v) (e ∷ es))
unfolding print
length-print_rest delim k v e es = omega (
  arith,
  length-append k (b'=' ∷ (v ++ (delim ∷ print delim e es))),
  length-append v (delim ∷ print delim e es),
)

next-shorter : (s : Str) → at_end s ≡ false → length (next s) < length s
next-shorter [] h = cc
next-shorter (c ∷ s) h = omega arith

module _ {S : Type 0} (visitor : S → Str → Str → Error × S) (delim : ℕ) where
  -- The last entry: the round returns what the visitor does.
  round_last :
      (k v : Str) (s : S)
      → IsEntry delim (k, v)
      → round visitor delim (k ++ (b'=' ∷ v)) s ≡ returns (visitor s k v).0 (visitor s k v).1
  unfolding round after_value
  round_last k [] s h = rw (stops_at-append b'=' k [] h.0, round, passed-append b'=' k [] h.0)
  round_last k (c ∷ v) s h =
      rw
        (
          stops_at-append b'=' k (c ∷ v) h.0,
          round,
          passed-append b'=' k (c ∷ v) h.0,
          stops_at_end delim (c ∷ v) h.1,
          passed_all delim (c ∷ v) h.1,
        )
        (ground arith)

  round_more :
      (k v p : Str) (s : S)
      → IsEntry delim (k, v)
      → 0 < delim
      → 0 < char_at p
      → round visitor delim (k ++ (b'=' ∷ (v ++ (delim ∷ p)))) s
        ≡ (let (e, s') = visitor s k v in if is_ok e then continues p s' else returns e s')
  unfolding round after_value
  round_more k v p s h d f =
      rw
        (
          stops_at-append b'=' k (v ++ (delim ∷ p)) h.0,
          round,
          passed-append b'=' k (v ++ (delim ∷ p)) h.0,
          stops_at-append delim v p h.1,
          passed-append delim v p h.1,
        )
        (ground (arith, after_first delim v p d h.1))

  -- One round more than there are characters is enough to read a print.
  rounds-print :
      (fuel : ℕ) (e : Entry) (es : List Entry) (s : S)
      → 0 < delim
      → IsEntry delim e
      → Each (IsEntry delim) es
      → length (print delim e es) < fuel
      → rounds visitor delim fuel (print delim e es) s ≡ some (visit_all visitor s e es)
  unfolding rounds visit_all print
  rounds-print zero e es s d h hs l = elim l [ ]
  rounds-print (suc fuel) (k, v) [] s d h hs l = rw (round_last k v s h, rounds)
  rounds-print (suc fuel) (k, v) (e ∷ es) s d h hs l = elim (Bool-cases (is_ok (visitor s k v).0)) [
    | inl goes ↦
        rw (round_more k v (print delim e es) s h d (print_first delim e es hs.0), goes, rounds)
          (rounds-print fuel e es (visitor s k v).1 d hs.0 hs.1
            (omega (arith, length-print_rest delim k v e es)))
    | inr stops ↦
        rw (round_more k v (print delim e es) s h d (print_first delim e es hs.0), stops, rounds)
  ]

  -- `string_key_value_parser` on the text of one or more entries, `k=v` separated by `delim`, with no
  -- `=` in a key and no `delim` in a value, hands the visitor exactly these entries in order, up to
  -- the first that it does not accept, and returns what its last call returned.
  pub parse-print :
      (e : Entry) (es : List Entry) (s : S)
      → 0 < delim
      → IsEntry delim e
      → Each (IsEntry delim) es
      → parse visitor delim (some (print delim e es)) s ≡ some (visit_all visitor s e es)
  unfolding parse
  parse-print e es s d h hs =
      rounds-print (suc (length (print delim e es))) e es s d h hs (omega arith)

  -- A round that goes on has gone at least one character further.
  Shrinks : ℕ → Round S → Type 0
  Shrinks n (returns e s) = Unit {0}
  Shrinks n (continues key s) = length key < n

  after_value-Shrinks :
      (n : ℕ) (cstr : Str) (r : Error × S)
      → length cstr < n
      → Shrinks n (after_value visitor delim cstr r)
  unfolding after_value Shrinks
  after_value-Shrinks n cstr (e, s) h = elim (Bool-cases (is_ok e)) [
    | inr stops ↦ rw stops tt
    | inl goes ↦ elim (Bool-cases (at_end cstr)) [
      | inl last ↦ rw (goes, last) tt
      | inr more ↦ rw (goes, more) (omega (arith, next-shorter cstr more))
    ]
  ]

  round-Shrinks : (key : Str) (s : S) → Shrinks (length key) (round visitor delim key s)
  unfolding round
  round-Shrinks key s = elim (Bool-cases (at_end (stops_at b'=' key))) [
    | inl last ↦ rw last (unfold Shrinks in tt)
    | inr more ↦ rw more (
        after_value-Shrinks (length key) (stops_at delim (next (stops_at b'=' key))) _ (
          omega (
            arith,
            length-stops_at delim (next (stops_at b'=' key)),
            next-shorter (stops_at b'=' key) more,
            length-stops_at b'=' key,
          )))
  ]

  rounds_return :
      (fuel : ℕ) (key : Str) (s : S)
      → length key < fuel
      → (r : Error × S) × (rounds visitor delim fuel key s ≡ some r)
  unfolding rounds Shrinks
  rounds_return zero key s h = elim h [ ]
  rounds_return (suc fuel) key s h =
      go (round visitor delim key s) (round-Shrinks key s)
        (λ key' s' l. rounds_return fuel key' s' (omega arith))
    where
      go :
          (r : Round S)
          → Shrinks (length key) r
          → ((key' : Str) (s' : S)
              → length key' < length key
              → (r : Error × S) × (rounds visitor delim fuel key' s' ≡ some r))
          → (x : Error × S) × ((elim r [
            | returns e s' ↦ some (e, s')
            | continues key' s' ↦ rounds visitor delim fuel key' s'
          ])
              ≡ some x)
      go (returns e s') l rest = ((e, s'), refl)
      go (continues key' s') l rest = rest key' s' l

  -- `string_key_value_parser` always returns, whatever the string and the visitor.
  pub parse_returns :
      (cstr : Option Str) (s : S) → (r : Error × S) × (parse visitor delim cstr s ≡ some r)
  unfolding parse
  parse_returns none s = ((Error.fault, s), refl)
  parse_returns (some cstr) s = rounds_return (suc (length cstr)) cstr s (omega arith)
