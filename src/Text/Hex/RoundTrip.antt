-- ===== src/Text/Hex/RoundTrip.antt =====
-- What `string_from_buf` writes, `string_to_buf` reads back.
use iot_edge_opc_proxy.Base.{
  ℕ, zero, suc, ◌+◌, ◌*◌, ◌/◌, ◌≤◌, ◌<◌, ◌≡◌, refl, ap, ◌∙◌, sym, Bool, true, false, List, [], ◌∷◌,
  ◌++◌, append_assoc, arith, get_or, set, length, take, drop, take-append-drop, take-set, drop-set,
  drop-set_self, length-set, drop-cons, take-snoc, Each-get_or,
}
use iot_edge_opc_proxy.Text.{Str}
use iot_edge_opc_proxy.Text.Byte.{IsBytes}
use iot_edge_opc_proxy.Text.Hex.{
  byte_to_string, from_buf, from_buf_up, from_buf_down, decoded, to_buf, to_buf_up, to_buf_down,
}
use iot_edge_opc_proxy.Text.Hex.Digits.{string_to_byte-byte_to_string}

module _ (bs : List ℕ) (a : IsBytes bs) where
  byte : (i : ℕ) → get_or bs i 0 < 256
  byte i = Each-get_or (λ b. b < 256) bs i 0 a (omega arith)

  -- One more byte stored by the loop that goes up, or by the one that goes down.
  arrange_up :
      (buf : List ℕ) (i k : ℕ)
      → i + suc k ≤ length bs
      → i + suc k ≤ length buf
      → let buf' = set buf i (get_or bs i 0) in
        take (suc i) buf' ++ (take k (drop (suc i) bs) ++ drop (suc i + k) buf')
        ≡ take i buf ++ (take (suc k) (drop i bs) ++ drop (i + suc k) buf)
  arrange_up buf i k hs hb =
      rw
        (
          take-set buf i (get_or bs i 0) (omega arith),
          drop-set buf i (suc i + k) (get_or bs i 0) (omega arith),
          drop-cons bs i 0 (omega arith),
          append_assoc (take i buf) (get_or bs i 0 ∷ []),
        )
        (ap (λ j. take i buf ++ (get_or bs i 0 ∷ take k (drop (suc i) bs) ++ drop j buf))
          {x = suc i + k} {y = i + suc k} (omega arith))

  arrange_down :
      (buf : List ℕ) (i : ℕ)
      → i < length bs
      → i < length buf
      → take i bs ++ drop i (set buf i (get_or bs i 0)) ≡ take (suc i) bs ++ drop (suc i) buf
  arrange_down buf i hs hb = rw (
    drop-set_self buf i (get_or bs i 0) hb,
    take-snoc bs i 0 hs,
    append_assoc (take i bs) (get_or bs i 0 ∷ []),
  )

  up :
      (rest : Str) (buf : List ℕ) (i k : ℕ)
      → i + k ≤ length bs
      → i + k ≤ length buf
      → to_buf_up (from_buf_up bs i k ++ rest) buf i k
        ≡ decoded rest (take i buf ++ (take k (drop i bs) ++ drop (i + k) buf))
  unfolding to_buf_up from_buf_up
  up rest buf i zero hs hb =
      ap (decoded rest) (
        sym (ap (λ j. take i buf ++ drop j buf) {x = i + 0} (omega arith) ∙ take-append-drop i buf))
  up rest buf i (suc k) hs hb =
      ap (λ s. to_buf_up s buf i (suc k))
        (append_assoc (byte_to_string (get_or bs i 0)) (from_buf_up bs (suc i) k) rest)
      ∙ rw (string_to_byte-byte_to_string (get_or bs i 0) (byte i), to_buf_up)
          (up rest (set buf i (get_or bs i 0)) (suc i) k (omega arith)
              (omega (arith, length-set buf i (get_or bs i 0)))
            ∙ ap (decoded rest) (arrange_up buf i k hs hb))

  down :
      (rest : Str) (buf : List ℕ) (i : ℕ)
      → i ≤ length bs
      → i ≤ length buf
      → to_buf_down (from_buf_down bs i ++ rest) buf i ≡ decoded rest (take i bs ++ drop i buf)
  unfolding to_buf_down from_buf_down
  down rest buf zero hs hb = refl
  down rest buf (suc i) hs hb =
      ap (λ s. to_buf_down s buf (suc i))
        (append_assoc (byte_to_string (get_or bs i 0)) (from_buf_down bs i) rest)
      ∙ rw (string_to_byte-byte_to_string (get_or bs i 0) (byte i), to_buf_down)
          (down rest (set buf i (get_or bs i 0)) i (omega arith)
              (omega (arith, length-set buf i (get_or bs i 0)))
            ∙ ap (decoded rest) (arrange_down buf i hs hb))

  -- `string_to_buf` reads the first `len` bytes back from the 2 * `len` digits that
  -- `string_from_buf` writes for them, in either byte order, with both arrays of at least `len` bytes:
  -- it stores them at the front of its buffer, leaves the rest of the buffer, and stops behind the
  -- digits.
  pub to_buf-from_buf :
      (rest : Str) (buf : List ℕ) (len : ℕ) (swap : Bool)
      → len ≤ length bs
      → len ≤ length buf
      → to_buf (from_buf bs (2 * len) swap ++ rest) buf len swap
        ≡ decoded rest (take len bs ++ drop len buf)
  unfolding to_buf from_buf
  to_buf-from_buf rest buf len false hs hb =
      ap (λ k. to_buf_up (from_buf_up bs 0 k ++ rest) buf 0 len) {y = len} (omega arith)
      ∙ up rest buf 0 len (omega arith) (omega arith)
      ∙ ap (λ k. decoded rest (take len bs ++ drop k buf)) (omega arith)
  to_buf-from_buf rest buf len true hs hb =
      ap (λ k. to_buf_down (from_buf_down bs k ++ rest) buf len) {y = len} (omega arith)
      ∙ down rest buf len hs hb

-- A byte takes two characters.
length-up : (bs : List ℕ) (i k : ℕ) → length (from_buf_up bs i k) ≡ 2 * k
unfolding from_buf_up byte_to_string
length-up bs i zero = omega arith
length-up bs i (suc k) = omega (arith, length-up bs (suc i) k)

length-down : (bs : List ℕ) (i : ℕ) → length (from_buf_down bs i) ≡ 2 * i
unfolding from_buf_down byte_to_string
length-down bs zero = omega arith
length-down bs (suc i) = omega (arith, length-down bs i)

pub length-from_buf :
    (bs : List ℕ) (len : ℕ) (swap : Bool) → length (from_buf bs (2 * len) swap) ≡ 2 * len
unfolding from_buf
length-from_buf bs len false = omega (arith, length-up bs 0 (2 * len / 2))
length-from_buf bs len true = omega (arith, length-down bs (2 * len / 2))
