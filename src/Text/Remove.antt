-- ===== src/Text/Remove.antt =====
-- `string_remove_nocase`, on the memory of its string: the bytes, and the closing 0 as the last byte
-- that may be touched. `none` is a `memmove` or a store outside that memory.
pub mod Bounds
use iot_edge_opc_proxy.Base.{
  ℕ, zero, suc, ◌+◌, ◌-◌, ◌^◌, Bool, ◌&&◌, ◌||◌, List, [], ◌∷◌, ◌++◌, Option, none, some, ltb, leb,
  ◌==◌, if◌then◌else◌, length, take, drop, set,
}
use iot_edge_opc_proxy.Ring.{size_sub}
use iot_edge_opc_proxy.Text.{Str}
use iot_edge_opc_proxy.Text.Find.{is_equal_nocase}

-- `memmove(&m[to], &m[from], n)`.
abbrev pub move : List ℕ → ℕ → ℕ → ℕ → Option (List ℕ)
move m to from n =
    if leb (from + n) (length m) && leb (to + n) (length m)
    then some (take to m ++ (take n (drop from m) ++ drop (to + n) m))
    else none

-- `m[i] = 0`.
abbrev pub cut : List ℕ → ℕ → Option (List ℕ)
cut m i = if ltb i (length m) then some (set m i 0) else none

-- The loop at `next` with `remain` characters to go, of a value of `val_len`.
pub remove_loop : List ℕ → ℕ → ℕ → ℕ → Str → Option (List ℕ)
remove_loop m next val_len zero find = cut m val_len
remove_loop m next val_len (suc remain) find =
    let left = size_sub val_len (length find) in
    let moved : Option (List ℕ) = elim (move m next (next + length find) left) [
      | none ↦ none
      | some m' ↦ remove_loop m' next left remain find
    ] in
    let passed = remove_loop m (next + 1) val_len remain find in
    if leb (length find) (suc remain)
    then (if is_equal_nocase (some (drop next m)) (length find) (some find) then moved else passed)
    else cut m val_len

-- The memory that the call leaves.
unfoldable pub remove_nocase : Str → Option Str → Option (List ℕ)
unfolding remove_loop
remove_nocase value none = some (value ++ (0 ∷ []))
remove_nocase value (some find) =
    if length value == 0 || length find == 0
    then some (value ++ (0 ∷ []))
    else remove_loop (value ++ (0 ∷ [])) 0 (length value) (length value) find
