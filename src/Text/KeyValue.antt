-- ===== src/Text/KeyValue.antt =====
-- `string_key_value_parser`, by which a connection string is read. The visitor is the caller's, with
-- the state that it keeps behind `ctx`; it is handed the characters of its two arguments.
pub mod Visits
use iot_edge_opc_proxy.Base.{
  ℕ, zero, suc, Bool, true, false, ◌&&◌, ◌||◌, List, [], ◌∷◌, Option, none, some, ◌==◌,
  if◌then◌else◌, not, length,
}
use iot_edge_opc_proxy.Error.{Error, is_ok}
use iot_edge_opc_proxy.Text.{Str, char_at, next}

-- `while (*cstr != '\0' && *cstr != stop) cstr++;`: the characters passed, and where it stops.
unfoldable pub passed : ℕ → Str → Str
passed stop [] = []
passed stop (c ∷ s) = let rest = passed stop s in if c == stop then [] else c ∷ rest

unfoldable pub stops_at : ℕ → Str → Str
stops_at stop [] = []
stops_at stop (c ∷ s) = let rest = stops_at stop s in if c == stop then c ∷ s else rest

-- `*cstr == '\0' || cstr[1] == '\0'`.
abbrev pub at_end : Str → Bool
at_end s = char_at s == 0 || char_at (next s) == 0

-- One round of the loop: what it returns, or where the next round starts.
pub data Round (S : Type 0) : Type 0 where
  returns : Error → S → Round S
  continues : Str → S → Round S

module _ {S : Type 0} (visitor : S → Str → Str → Error × S) (delim : ℕ) where
  -- The end of a round, at the character behind the value.
  pub after_value : Str → Error × S → Round S
  after_value cstr (e, s) =
      if is_ok e
      then (if at_end cstr then returns e s else continues (next cstr) s)
      else returns e s

  pub round : Str → S → Round S
  unfolding after_value passed stops_at
  round key s =
      let cstr = stops_at b'=' key in
      if at_end cstr
      then (let (e, s') = visitor s (passed b'=' key) [] in returns e s')
      else after_value (stops_at delim (next cstr))
          (visitor s (passed b'=' key) (passed delim (next cstr)))

  -- The loop on fuel; `none` is fuel run out.
  pub rounds : ℕ → Str → S → Option (Error × S)
  unfolding round
  rounds zero key s = none
  rounds (suc fuel) key s = elim (round key s) [
    | returns e s' ↦ some (e, s')
    | continues key' s' ↦ rounds fuel key' s'
  ]

  -- `Visits.enough`: one round more than there are characters is enough.
  unfoldable pub parse : Option Str → S → Option (Error × S)
  unfolding rounds
  parse none s = some (Error.fault, s)
  parse (some cstr) s = rounds (suc (length cstr)) cstr s
