-- ===== src/Text/Utf8/Decode.antt =====
-- The text that `STRING_construct_utf8` makes is the UTF-8 form of its bytes, each taken for a code
-- point below 256.
use iot_edge_opc_proxy.Base.{
  ℕ, ◌+◌, ◌*◌, ◌-◌, ◌/◌, ◌%◌, ◌<◌, ◌≤◌, ◌≡◌, refl, ap, true, ◌&&◌, List, [], ◌∷◌, Option, none,
  some, ltb, leb, ◌==◌, ==_iff, if◌then◌else◌, length, arith, inl, inr, Bool-cases,
}
use mathlib.Core.Option
use iot_edge_opc_proxy.Text.Byte.{at_bytes, at_byte, IsBytes}
use iot_edge_opc_proxy.Text.Utf8.{alloc_size, lead, trail, write_utf8}

-- UTF-8 of at most two bytes for a code point, as RFC 3629 has it: 0xxxxxxx, or 110xxxxx 10xxxxxx.
pub decode : List ℕ → Option (List ℕ)
decode [] = some []
decode (a ∷ []) = if ltb a 0x80 then some (a ∷ []) else none
decode (a ∷ b ∷ bs) =
    let one = decode (b ∷ bs) in
    let two = decode bs in
    if ltb a 0x80
    then Option.map (◌∷◌ a) one
    else if leb 0xc0 a && ltb a 0xe0 && leb 0x80 b && ltb b 0xc0
    then Option.map (◌∷◌ ((a - 0xc0) * 64 + (b - 0x80))) two
    else none

lead_table : at_bytes 256 (λ b. lead b == 0xc0 + b / 64) ≡ true
unfolding at_bytes lead
lead_table = refl

trail_table : at_bytes 256 (λ b. trail b == 0x80 + b % 64) ≡ true
unfolding at_bytes trail
trail_table = refl

lead_lem : (b : ℕ) → b < 256 → lead b ≡ 0xc0 + b / 64
lead_lem b h = (==_iff _ _).0 (at_byte 256 _ b lead_table h)

trail_lem : (b : ℕ) → b < 256 → trail b ≡ 0x80 + b % 64
trail_lem b h = (==_iff _ _).0 (at_byte 256 _ b trail_table h)

-- The text takes exactly the room that was counted for it.
pub length-write_utf8 : (bs : List ℕ) → length (write_utf8 bs) ≡ alloc_size bs
unfolding write_utf8 alloc_size
length-write_utf8 [] = refl
length-write_utf8 (b ∷ bs) = ground (arith, length-write_utf8 bs)

decode-low : (b : ℕ) (t : List ℕ) → b < 0x80 → decode (b ∷ t) ≡ Option.map (◌∷◌ b) (decode t)
unfolding decode
decode-low b [] h = ground arith
decode-low b (c ∷ t) h = ground arith

decode-pair :
    (a b : ℕ) (t : List ℕ)
    → 0xc0 ≤ a
    → a < 0xe0
    → 0x80 ≤ b
    → b < 0xc0
    → decode (a ∷ b ∷ t) ≡ Option.map (◌∷◌ ((a - 0xc0) * 64 + (b - 0x80))) (decode t)
unfolding decode
decode-pair a b t h k l m = ground arith

-- `STRING_construct_utf8` writes valid UTF-8 that decodes to its bytes.
pub decode-write_utf8 : (bs : List ℕ) → IsBytes bs → decode (write_utf8 bs) ≡ some bs
unfolding write_utf8
decode-write_utf8 [] a = unfold decode in refl
decode-write_utf8 (b ∷ bs) a = elim (Bool-cases (leb b 0x7f)) [
  | inl low ↦ rw (low, decode-low b (write_utf8 bs) (ground arith), decode-write_utf8 bs a.1)
  | inr high ↦
      rw
        (
          high,
          lead_lem b a.0,
          trail_lem b a.0,
          decode-pair (0xc0 + b / 64) (0x80 + b % 64) (write_utf8 bs) (omega arith) (omega arith)
              (omega arith) (omega arith),
          decode-write_utf8 bs a.1,
        )
        (ap (λ c. some (c ∷ bs)) (ground arith))
]
