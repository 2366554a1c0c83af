-- ===== src/Text/Remove/Bounds.antt =====
-- Where `string_remove_nocase` works, and where it leaves its memory.
use iot_edge_opc_proxy.Base.{
  ℕ, zero, suc, ◌+◌, ◌^◌, ◌<◌, ◌≤◌, ◌≡◌, refl, ap, ◌∙◌, inl, inr, true, false, ◌||◌, List, [], ◌∷◌,
  ◌++◌, none, some, ltb, leb, ◌==◌, length, length-append, length-drop, drop, drop_append_left,
  set-append, arith, Bool-cases, dec_lt,
}
use iot_edge_opc_proxy.Ring.{size_sub}
use iot_edge_opc_proxy.Text.{Str, IsText}
use iot_edge_opc_proxy.Text.Find.{is_equal_nocase, same_nocase}
use iot_edge_opc_proxy.Text.Find.First.{begins, begins-length, is_equal_nocase-begins}
use iot_edge_opc_proxy.Text.Remove.{move, cut, remove_loop, remove_nocase}

-- The closing 0 is no part of an occurrence.
begins-closed :
    (f v : Str) → IsText f → begins same_nocase f (v ++ (0 ∷ [])) ≡ begins same_nocase f v
begins-closed [] v t = refl
begins-closed (c ∷ f) [] t = ground arith
begins-closed (c ∷ f) (d ∷ v) t = ground (arith, begins-closed f v t.1)

module _ (v f : Str) (t : IsText f) (some_char : 0 < length f) (size : length v < 2 ^ 63) where
  closed : List ℕ
  closed = v ++ (0 ∷ [])

  -- The test of the loop at `next`, before anything was moved.
  test_at :
      (next : ℕ)
      → next ≤ length v
      → is_equal_nocase (some (drop next closed)) (length f) (some f)
        ≡ begins same_nocase f (drop next v)
  unfolding closed
  test_at next h =
      is_equal_nocase-begins f t (drop next (v ++ (0 ∷ [])))
      ∙ ap (begins same_nocase f) (drop_append_left next v (0 ∷ []) h)
      ∙ begins-closed f (drop next v) t

  passes :
      (next remain : ℕ)
      → next + suc remain ≡ length v
      → begins same_nocase f (drop next v) ≡ false
      → length f ≤ suc remain
      → remove_loop closed next (length v) (suc remain) f
        ≡ remove_loop closed (next + 1) (length v) remain f
  unfolding remove_loop
  passes next remain e no_match h =
      let room : leb (length f) (suc remain) ≡ true = ground arith in
      rw (room, test_at next (omega arith), no_match)

  module _ (i : ℕ) (here : begins same_nocase f (drop i v) ≡ true)
      (before : (j : ℕ) → j < i → begins same_nocase f (drop j v) ≡ false) (late : 2 ≤ i) where
    fits : i + length f ≤ length v
    fits = ground (arith, begins-length same_nocase f (drop i v), length-drop i v)

    outside :
        (next : ℕ)
        → next ≡ i
        → move closed next (next + length f) (size_sub (length v) (length f)) ≡ none
    unfolding closed
    outside next e = ground (arith, fits, length-append v (0 ∷ []))

    at_place :
        (next remain : ℕ)
        → next + suc remain ≡ length v
        → next ≡ i
        → remove_loop closed next (length v) (suc remain) f ≡ none
    unfolding remove_loop
    at_place next remain e same =
        let room : leb (length f) (suc remain) ≡ true = ground (arith, fits) in
        let match : begins same_nocase f (drop next v) ≡ true =
          ap (λ k. begins same_nocase f (drop k v)) same ∙ here in
        rw (room, test_at next (omega arith), match, outside next same)

    leaves :
        (next remain : ℕ)
        → next + remain ≡ length v
        → next ≤ i
        → remove_loop closed next (length v) remain f ≡ none
    leaves next zero e h = absurd (omega (arith, fits))
    leaves next (suc remain) e h = elim (dec_lt next i) [
      | yes earlier ↦
          passes next remain e (before next earlier) (omega (arith, fits))
          ∙ leaves (next + 1) remain (omega arith) (omega arith)
      | no now ↦ at_place next remain e (omega arith)
    ]

  -- `string_remove_nocase` leaves the memory of its string, of fewer than 2 ^ 63 bytes, whenever the
  -- first place at which the text to remove, not empty, begins is behind the second character: its
  -- `memmove` copies the length of the whole remaining value from behind that place.
  pub remove_nocase-outside :
      (i : ℕ)
      → 2 ≤ i
      → begins same_nocase f (drop i v) ≡ true
      → ((j : ℕ) → j < i → begins same_nocase f (drop j v) ≡ false)
      → remove_nocase v (some f) ≡ none
  unfolding remove_nocase closed
  remove_nocase-outside i late here before =
      let nonempty : (length v == 0 || length f == 0) ≡ false =
        ground (arith, fits i here before late) in
      rw nonempty (leaves i here before late 0 (length v) (omega arith) (omega arith))

  stays :
      ((j : ℕ) → j ≤ length v → begins same_nocase f (drop j v) ≡ false)
      → (next remain : ℕ) → next + remain ≡ length v
      → remove_loop closed next (length v) remain f ≡ cut closed (length v)
  unfolding remove_loop
  stays absent next zero e = refl
  stays absent next (suc remain) e = elim (Bool-cases (leb (length f) (suc remain))) [
    | inr short ↦ rw short
    | inl room ↦
        passes next remain e (absent next (omega arith)) (ground arith)
        ∙ stays absent (next + 1) remain (omega arith)
  ]

  cut-closed : cut closed (length v) ≡ some closed
  unfolding closed
  cut-closed =
      let inside : ltb (length v) (length (v ++ (0 ∷ []))) ≡ true =
        ground (arith, length-append v (0 ∷ [])) in
      rw inside (ap some (set-append v 0 0 []))

  -- It changes nothing where the text begins at no place.
  pub remove_nocase-absent :
      ((j : ℕ) → j ≤ length v → begins same_nocase f (drop j v) ≡ false)
      → remove_nocase v (some f) ≡ some (v ++ (0 ∷ []))
  unfolding remove_nocase closed
  remove_nocase-absent absent = elim (Bool-cases (length v == 0 || length f == 0)) [
    | inl none_to ↦ rw none_to
    | inr some_to ↦ rw some_to (stays absent 0 (length v) (omega arith) ∙ cut-closed)
  ]
