-- ===== src/Text/Uuid/RoundTrip.antt =====
-- A uuid printed by `string_from_uuid` is read back by `string_to_uuid`.
use iot_edge_opc_proxy.Base.{
  ℕ, zero, suc, ◌+◌, ◌*◌, ◌≤◌, ◌≡◌, refl, ap, sym, ◌∙◌, Bool, true, false, not, List, [], ◌∷◌, ◌++◌,
  some, append_assoc, arith, ◌==◌, le→ltb_false, length, take, drop, take_all, drop_all,
  take-append-drop, take-append, drop-append, length-append, drop-drop, append-nil, length-take,
  length-drop,
}
use iot_edge_opc_proxy.Error.{Error}
use iot_edge_opc_proxy.Text.{Str}
use iot_edge_opc_proxy.Text.Byte.{IsBytes}
use iot_edge_opc_proxy.Text.Hex.{decoded, from_buf}
use iot_edge_opc_proxy.Text.Hex.RoundTrip.{to_buf-from_buf, length-from_buf}
use iot_edge_opc_proxy.Text.Uuid.{from_groups, to_groups, from_uuid, to_uuid, parse_uuid, behind}

IsBytes-drop : (n : ℕ) (bs : List ℕ) → IsBytes bs → IsBytes (drop n bs)
IsBytes-drop zero bs a = a
IsBytes-drop (suc n) [] a = a
IsBytes-drop (suc n) (b ∷ bs) a = IsBytes-drop n bs a.1

-- One group of `len` bytes, read from its text.
module _ (u b : List ℕ) (a : IsBytes u) (len : ℕ) where
  group_text :
      (swap : Bool) (rest : Str) → drop (2 * len) (from_buf u (2 * len) swap ++ rest) ≡ rest
  group_text swap rest =
      ap (λ k. drop k (from_buf u (2 * len) swap ++ rest)) (sym (length-from_buf u len swap))
      ∙ drop-append (from_buf u (2 * len) swap) rest

  group_taken : len ≤ length u → take len (take len u ++ drop len b) ≡ take len u
  group_taken h =
      ap (λ k. take k (take len u ++ drop len b)) {y = length (take len u)}
        (omega (arith, length-take len u))
      ∙ take-append (take len u) (drop len b)

  group_left : len ≤ length u → drop len (take len u ++ drop len b) ≡ drop len b
  group_left h =
      ap (λ k. drop k (take len u ++ drop len b)) {y = length (take len u)}
        (omega (arith, length-take len u))
      ∙ drop-append (take len u) (drop len b)

-- A list of `n` bytes replaced whole.
replaced : (n : ℕ) (u b : List ℕ) → length u ≡ n → length b ≡ n → take n u ++ drop n b ≡ u
replaced n u b hu hb = rw (take_all n u (omega arith), drop_all n b (omega arith)) (append-nil u)

to_groups-from_groups :
    (k i : ℕ) (u b : List ℕ) (rest : Str)
    → IsBytes u
    → length u ≡ 2 * k + 6
    → length b ≡ 2 * k + 6
    → to_groups (from_groups u i k ++ rest) b i k ≡ decoded rest u
unfolding to_groups from_groups
to_groups-from_groups zero i u b rest a hu hb =
    to_buf-from_buf u a rest b 6 false (omega arith) (omega arith)
    ∙ ap (decoded rest) (replaced 6 u b (omega arith) (omega arith))
to_groups-from_groups (suc k) i u b rest a hu hb =
    ap (λ t. to_groups t b i (suc k)) (append_assoc (from_buf u 4 (not (i == 2))) _ rest)
    ∙ rw
        (
          to_buf-from_buf u a tail b 2 (not (i == 2)) l2 m2,
          to_groups,
          text,
          text_next,
          group_taken u b a 2 l2,
          group_left u b a 2 l2,
        )
        (ap (behind (take 2 u)) (
            to_groups-from_groups k (suc i) (drop 2 u) (drop 2 b) rest (IsBytes-drop 2 u a)
              (omega (arith, length-drop 2 u)) (omega (arith, length-drop 2 b)))
          ∙ ap (decoded rest) (take-append-drop 2 u))
  where
    tail : Str
    tail = b'-' ∷ (from_groups (drop 2 u) (suc i) k ++ rest)

    l2 : 2 ≤ length u
    l2 = omega arith

    m2 : 2 ≤ length b
    m2 = omega arith

    text : drop 4 (from_buf u 4 (not (i == 2)) ++ tail) ≡ tail
    text = group_text u b a 2 (not (i == 2)) tail

    text_next :
        drop 5 (from_buf u 4 (not (i == 2)) ++ tail) ≡ from_groups (drop 2 u) (suc i) k ++ rest
    text_next = sym (drop-drop 4 1 (from_buf u 4 (not (i == 2)) ++ tail)) ∙ ap (drop 1) text

length-from_groups : (u : List ℕ) (i k : ℕ) → length (from_groups u i k) ≡ 5 * k + 12
unfolding from_groups
length-from_groups u i zero = length-from_buf u 6 false
length-from_groups u i (suc k) = omega (
  arith,
  length-append (from_buf u 4 (not (i == 2))) (b'-' ∷ from_groups (drop 2 u) (suc i) k),
  length-from_buf u 2 (not (i == 2)),
  length-from_groups (drop 2 u) (suc i) k,
)

module _ (u b : List ℕ) (a : IsBytes u) (hu : length u ≡ 16) (hb : length b ≡ 16) where
  text : Str
  text = from_buf u 8 true ++ (b'-' ∷ from_groups (drop 4 u) 0 3)

  length-text : length text ≡ 36
  unfolding text
  length-text = omega (
    arith,
    length-append (from_buf u 8 true) (b'-' ∷ from_groups (drop 4 u) 0 3),
    length-from_buf u 4 true,
    length-from_groups (drop 4 u) 0 3,
  )

  parse-text : parse_uuid text b ≡ decoded [] u
  unfolding parse_uuid text
  parse-text =
      rw
        (
          to_buf-from_buf u a tail b 4 true l4 m4,
          parse_uuid,
          group_text u b a 4 true tail,
          skipped,
          group_taken u b a 4 l4,
          group_left u b a 4 l4,
          ← append-nil (from_groups (drop 4 u) 0 3),
        )
        (ap (behind (take 4 u)) (
            to_groups-from_groups 3 0 (drop 4 u) (drop 4 b) [] (IsBytes-drop 4 u a)
              (omega (arith, length-drop 4 u)) (omega (arith, length-drop 4 b)))
          ∙ ap (decoded []) (take-append-drop 4 u))
    where
      tail : Str
      tail = b'-' ∷ from_groups (drop 4 u) 0 3

      l4 : 4 ≤ length u
      l4 = omega arith

      m4 : 4 ≤ length b
      m4 = omega arith

      skipped : drop 9 (from_buf u 8 true ++ tail) ≡ from_groups (drop 4 u) 0 3
      skipped =
          sym (drop-drop 8 1 (from_buf u 8 true ++ tail))
          ∙ ap (drop 1) (group_text u b a 4 true tail)

  to_uuid-text : to_uuid (some text) (some b) ≡ (Error.ok, u)
  unfolding to_uuid
  to_uuid-text = rw (length-text, to_uuid, parse-text)

  -- For 16 bytes and room for at least 37 characters, `string_from_uuid` writes 36 characters, and
  -- `string_to_uuid` gives the 16 bytes back from them.
  pub to_uuid-from_uuid :
      (len : ℕ)
      → 37 ≤ len
      → let (e, s) = from_uuid (some u) true len in
        (e ≡ Error.ok) × (length s ≡ 36) × (to_uuid (some s) (some b) ≡ (Error.ok, u))
  unfolding from_uuid text
  to_uuid-from_uuid len h = rw (le→ltb_false len 37 h) (refl, length-text, to_uuid-text)
