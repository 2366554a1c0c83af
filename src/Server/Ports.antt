-- ===== src/Server/Ports.antt =====
-- The ports that the server does not connect to: `prx_server_check_restricted_port` of src/prx_server.c,
-- over the array of tuples that `string_parse_range_list` makes.
use iot_edge_opc_proxy.Base.{
  ℕ, ◌≡◌, inl, inr, refl, sym, subst, ◌∙◌, arith, Bool, true, false, Bool-cases, not, ◌&&◌, ◌||◌,
  List, [], ◌∷◌, Option, none, some, take, zero, suc, if◌then◌else◌,
}
use iot_edge_opc_proxy.Base.Int.{ℤ, pos, ◌≤ℤ◌, ltb_ℤ}
use iot_edge_opc_proxy.Error.{Error}
use iot_edge_opc_proxy.Text.{Str}
use iot_edge_opc_proxy.Text.RangeList.{Pass, parse_range_list}
use iot_edge_opc_proxy.Text.RangeList.Ordered.{AllOrdered, Sound, parse_range_list-IsSound}

-- The array, as the tuples are stored in it.
abbrev pub flat : List (ℤ × ℤ) → List ℤ
flat [] = []
flat ((low, high) ∷ l) = low ∷ high ∷ flat l

-- The loop from an index on: it steps over one number if the port is below it, and otherwise over two.
-- none is a read behind the array.
unfoldable pub is_restricted : ℤ → List ℤ → Option Bool
is_restricted port [] = some false
is_restricted port (a ∷ []) = if not (ltb_ℤ port a) then none else some false
is_restricted port (a ∷ b ∷ rest) =
    let behind = is_restricted port rest in
    let at_b = is_restricted port (b ∷ rest) in
    if not (ltb_ℤ port a) then (if not (ltb_ℤ b port) then some true else behind) else at_b

-- `prx_server_check_restricted_port`, of so many tuples.
unfoldable pub check_restricted_port : List (ℤ × ℤ) → ℕ → ℕ → Option Error
unfolding is_restricted
check_restricted_port tuples count port =
    elim (is_restricted (pos port) (flat (take count tuples))) [
      | none ↦ none
      | some true ↦ some Error.refused
      | some false ↦ some Error.ok
    ]

-- A port is in one of the ranges.
abbrev pub is_in_ranges : ℤ → List (ℤ × ℤ) → Bool
is_in_ranges port [] = false
is_in_ranges port ((low, high) ∷ l) =
    (not (ltb_ℤ port low) && not (ltb_ℤ high port)) || is_in_ranges port l

behind_high :
    (port high : ℤ) (l : List ℤ)
    → ltb_ℤ port high ≡ true
    → is_restricted port (high ∷ l) ≡ is_restricted port l
unfolding is_restricted
behind_high port high [] h = rw h refl
behind_high port high (b ∷ rest) h = rw h refl

below : (port low high : ℤ) → ltb_ℤ port low ≡ true → low ≤ℤ high → ltb_ℤ port high ≡ true
below port low high h o = ground (arith, h, o)

pub is_restricted_lem :
    (port : ℤ) (l : List (ℤ × ℤ))
    → AllOrdered l
    → is_restricted port (flat l) ≡ some (is_in_ranges port l)
unfolding is_restricted
is_restricted_lem port [] o = refl
is_restricted_lem port ((low, high) ∷ l) (o, os) = elim (Bool-cases (ltb_ℤ port low)) [
  | inl h ↦
      rw (h, behind_high port high (flat l) (below port low high h o)) (is_restricted_lem port l os)
  | inr h ↦ elim (Bool-cases (ltb_ℤ high port)) [
    | inl k ↦ rw (h, k) (is_restricted_lem port l os)
    | inr k ↦ rw (h, k) refl
  ]
]

take-AllOrdered : (n : ℕ) (l : List (ℤ × ℤ)) → AllOrdered l → AllOrdered (take n l)
take-AllOrdered zero l o = tt
take-AllOrdered (suc n) [] o = tt
take-AllOrdered (suc n) ((low, high) ∷ l) (o, os) = (o, take-AllOrdered n l os)

pub verdict :
    (o : Option Bool) (b : Bool)
    → o ≡ some b
    → (elim o [ none ↦ none | some true ↦ some Error.refused | some false ↦ some Error.ok ])
      ≡ some (if b then Error.refused else Error.ok)
verdict o true e = rw e refl
verdict o false e = rw e refl

-- With the ranges of any text that the parser accepts, as many as it counts, the check of a port does not
-- read behind them, and refuses the port exactly when it is in one of the ranges.
pub check_restricted_port-parse_range_list :
    (strtol : Str → ℤ × ℕ) (mem : Bool) (s : Str) (p : Pass) (port : ℕ)
    → parse_range_list strtol mem s ≡ some p
    → check_restricted_port p.tuples p.index port
      ≡ some (if is_in_ranges (pos port) (take p.index p.tuples) then Error.refused else Error.ok)
unfolding check_restricted_port
check_restricted_port-parse_range_list strtol mem s p port e =
    let (p', e', sound) = parse_range_list-IsSound strtol mem s in
    let sound_p : Sound (some p) = subst Sound (sym e' ∙ e) sound in
    verdict _ _ (
      is_restricted_lem (pos port) (take p.index p.tuples)
        (take-AllOrdered p.index p.tuples sound_p.ordered))
