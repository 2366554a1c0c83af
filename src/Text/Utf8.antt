-- ===== src/Text/Utf8.antt =====
-- `STRING_construct_utf8`: the bytes that it hands to `STRING_new_with_memory`, and the room that it
-- allocates for them.
pub mod Decode
use Prim.Native.Nat.{bit_and, bit_or}
use iot_edge_opc_proxy.Base.{
  ℕ, ◌+◌, ◌*◌, ◌/◌, ◌%◌, ◌==◌, Bool, List, [], ◌∷◌, Option, none, some, ltb, leb, if◌then◌else◌,
  length,
}

-- The first loop: one byte more for each byte above 0x7f.
unfoldable pub alloc_size : List ℕ → ℕ
alloc_size [] = 0
alloc_size (b ∷ bs) = (if ltb 0x7f b then 2 else 1) + alloc_size bs

-- `(uint8_t)((0xff << 6) | (b >> 6))` and `(uint8_t)(0x80 | (b & 0x3f))`.
unfoldable pub lead : ℕ → ℕ
lead b = bit_or (0xff * 64) (b / 64) % 256

unfoldable pub trail : ℕ → ℕ
trail b = bit_or 0x80 (bit_and b 0x3f) % 256

-- The second loop.
unfoldable pub write_utf8 : List ℕ → List ℕ
unfolding lead trail
write_utf8 [] = []
write_utf8 (b ∷ bs) =
    let rest = write_utf8 bs in if leb b 0x7f then b ∷ rest else lead b ∷ trail b ∷ rest

-- NULL for no buffer and for no byte; `memory` is false for a failed allocation.
pub construct_utf8 : Option (List ℕ) → Bool → Option (List ℕ)
unfolding write_utf8
construct_utf8 none memory = none
construct_utf8 (some bs) memory =
    if length bs == 0 then none else if memory then some (write_utf8 bs) else none
