-- ===== src/Text/Byte.antt =====
-- Facts about bytes are checked at all 256 values.
use iot_edge_opc_proxy.Base.{
  ℕ, zero, suc, ◌<◌, ◌≡◌, inl, inr, Bool, true, false, if◌then◌else◌, Bool-cases, dec_lt, arith,
  List, Each,
}

-- The test `check` passes at each of the `count` least numbers.
unfoldable pub at_bytes : ℕ → (ℕ → Bool) → Bool
at_bytes zero check = true
at_bytes (suc count) check =
    let smaller = at_bytes count check in if check count then smaller else false

pub at_byte :
    (count : ℕ) (check : ℕ → Bool) (b : ℕ)
    → at_bytes count check ≡ true
    → b < count
    → check b ≡ true
unfolding at_bytes
at_byte zero check b passed small = elim small [ ]
at_byte (suc count) check b passed small = elim (Bool-cases (check count)) [
  | inr fails ↦ ground arith
  | inl holds ↦ elim (dec_lt b count) [
    | yes lower ↦ at_byte count check b (ground arith) lower
    | no top ↦ ground arith
  ]
]

-- A list of `uint8_t`.
abbrev pub IsBytes : List ℕ → Type 0
IsBytes = Each (λ b. b < 256)
