-- ===== src/Text/Tests.antt =====
-- Runs on small strings, and the theorems at inputs that meet their hypotheses.
use Prim.Native.String.{String}
use Prim.Native.Char.{code}
use iot_edge_opc_proxy.Base.{
  ℕ, zero, suc, ◌<◌, ◌≤◌, drop, ◌≡◌, refl, true, false, List, [], ◌∷◌, ◌++◌, none, some, arith,
  length, if◌then◌else◌, ltb,
}
use iot_edge_opc_proxy.Error.{Error, is_ok}
use iot_edge_opc_proxy.Text.ServiceName.{copy_full_name, put, ends_in_dot}
use iot_edge_opc_proxy.Text.ServiceName.Copy.{copy_full_name_lem, full_name, without_dot}
use iot_edge_opc_proxy.Text.{Str}
use iot_edge_opc_proxy.Text.Hex.{from_buf, to_buf, decoded}
use iot_edge_opc_proxy.Text.Hex.Accept.{accepted, hex_prefix, to_buf-accepted}
use iot_edge_opc_proxy.Text.Hex.RoundTrip.{to_buf-from_buf}
use iot_edge_opc_proxy.Text.Uuid.{from_uuid, from_groups, to_uuid}
use iot_edge_opc_proxy.Text.Uuid.RoundTrip.{to_uuid-from_uuid}
use iot_edge_opc_proxy.Text.Find.{
  find, find_nocase, is_equal_nocase, starts_with_nocase, same_case, same_nocase,
}
use iot_edge_opc_proxy.Text.Find.First.{
  First, begins, find-First, find_nocase-First, starts_with_nocase-begins,
}
use iot_edge_opc_proxy.Text.KeyValue.{parse}
use iot_edge_opc_proxy.Text.KeyValue.Visits.{Entry, print, visit_all, parse-print, parse_returns}
use iot_edge_opc_proxy.Text.Trim.{trim}
use iot_edge_opc_proxy.Text.Trim.Core.{Trimmed, trim-Trimmed}
use iot_edge_opc_proxy.Text.Utf8.{write_utf8, alloc_size}
use iot_edge_opc_proxy.Text.Utf8.Decode.{decode, decode-write_utf8, length-write_utf8}
use iot_edge_opc_proxy.Text.Remove.{remove_nocase}
use iot_edge_opc_proxy.Text.Remove.Bounds.{remove_nocase-outside, remove_nocase-absent}

abbrev codes : String → Str
codes String.[] = []
codes (String.◌∷◌ c s) = code c ∷ codes s

abbrev bytes : List ℕ
bytes = 0x12 ∷ 0xab ∷ 0xff ∷ []

abbrev blank : List ℕ
blank = 0 ∷ 0 ∷ 0 ∷ 7 ∷ []

from_buf-swapped : from_buf bytes 6 true ≡ codes "ffab12"
unfolding from_buf
from_buf-swapped = refl

to_buf-from_buf_example :
    to_buf (from_buf bytes 6 true ++ codes "-x") blank 3 true
    ≡ decoded (codes "-x") (0x12 ∷ 0xab ∷ 0xff ∷ 7 ∷ [])
to_buf-from_buf_example =
    to_buf-from_buf bytes (omega arith) (codes "-x") blank 3 true (omega arith) (omega arith)

to_buf-accepted_example : accepted (to_buf (codes "1aG0") blank 2 false) ≡ false
unfolding hex_prefix
to_buf-accepted_example = to_buf-accepted (codes "1aG0") blank 2 false

abbrev uuid : List ℕ
uuid = 1 ∷ 2 ∷ 3 ∷ 4 ∷ 5 ∷ 6 ∷ 7 ∷ 8 ∷ 9 ∷ 10 ∷ 11 ∷ 12 ∷ 13 ∷ 14 ∷ 15 ∷ 255 ∷ []

abbrev room : List ℕ
room = 0 ∷ 0 ∷ 0 ∷ 0 ∷ 0 ∷ 0 ∷ 0 ∷ 0 ∷ 0 ∷ 0 ∷ 0 ∷ 0 ∷ 0 ∷ 0 ∷ 0 ∷ 0 ∷ []

from_uuid-text : (from_uuid (some uuid) true 37).1 ≡ codes "04030201-0605-0807-090a-0b0c0d0e0fff"
unfolding from_uuid from_groups from_buf
from_uuid-text = refl

to_uuid-from_uuid_example :
    let (e, s) = from_uuid (some uuid) true 40 in
    (e ≡ Error.ok) × (length s ≡ 36) × (to_uuid (some s) (some room) ≡ (Error.ok, uuid))
to_uuid-from_uuid_example = to_uuid-from_uuid uuid room (omega arith) refl refl 40 (omega arith)

find-First_example :
    First same_case (codes "xabab") (codes "ab") (find (some (codes "xabab")) (some (codes "ab")))
find-First_example = find-First (codes "xabab") (codes "ab") (omega arith) (omega arith)

find_nocase-First_example :
    First same_nocase
      (codes "xAbab")
      (codes "ab")
      (find_nocase (some (codes "xAbab")) (some (codes "ab")))
find_nocase-First_example =
    find_nocase-First (codes "xAbab") (codes "ab") (omega arith) (omega arith)

starts_with_nocase-begins_example :
    starts_with_nocase (some (codes "HostName")) (some (codes "host")) ≡ true
starts_with_nocase-begins_example =
    starts_with_nocase-begins (codes "HostName") (codes "host") (omega arith)

-- A visitor that keeps what it is handed, and refuses an empty key.
collect : List Entry → Str → Str → Error × List Entry
collect seen [] v = (Error.arg, seen)
collect seen (c ∷ k) v = (Error.ok, seen ++ ((c ∷ k, v) ∷ []))

abbrev host : Entry
host = (codes "host", codes "a=b")

abbrev key : Entry
key = (codes "key", [])

parse-collect :
    parse collect b';' (some (codes "host=a=b;key=;")) [] ≡ some (Error.ok, host ∷ key ∷ [])
unfolding collect parse is_ok
parse-collect = refl

parse-print_example :
    parse collect b';' (some (codes "host=a=b;key=")) [] ≡ some (Error.ok, host ∷ key ∷ [])
unfolding print visit_all collect is_ok
parse-print_example =
    parse-print collect b';' host (key ∷ []) [] (omega arith) (omega arith) (omega arith)

parse_returns_example :
    (r : Error × List Entry) × (parse collect b';' (some (codes "a;;==")) [] ≡ some r)
parse_returns_example = parse_returns collect b';' (some (codes "a;;==")) []

trim-Trimmed_example :
    (r : Str) × (trim (some (codes " .a b. ")) (some (codes " .")) ≡ some r)
    × Trimmed (codes " .") (codes " .a b. ") r
trim-Trimmed_example = trim-Trimmed (codes " .") (codes " .a b. ")

decode-write_utf8_example : decode (write_utf8 (0x41 ∷ 0xe9 ∷ [])) ≡ some (0x41 ∷ 0xe9 ∷ [])
decode-write_utf8_example = decode-write_utf8 (0x41 ∷ 0xe9 ∷ []) (omega arith)

length-write_utf8_example : length (write_utf8 (0x41 ∷ 0xe9 ∷ [])) ≡ 3
unfolding alloc_size
length-write_utf8_example = length-write_utf8 (0x41 ∷ 0xe9 ∷ [])

remove_nocase-front :
    remove_nocase (codes "abc") (some (codes "AB"))
    ≡ some (codes "c" ++ (0 ∷ codes "c" ++ (0 ∷ [])))
unfolding remove_nocase is_equal_nocase
remove_nocase-front = refl

late : (j : ℕ) → j < 2 → begins same_nocase (codes "AB") (drop j (codes "xyab")) ≡ false
late zero h = refl
late (suc zero) h = refl
late (suc (suc j)) h = absurd (omega arith)

remove_nocase-outside_example : remove_nocase (codes "xyab") (some (codes "AB")) ≡ none
remove_nocase-outside_example =
    remove_nocase-outside (codes "xyab") (codes "AB") (omega arith) (omega arith) (omega arith) 2
      (omega arith) refl late

nowhere : (j : ℕ) → j ≤ 2 → begins same_nocase (codes "b") (drop j (codes "xy")) ≡ false
nowhere zero h = refl
nowhere (suc zero) h = refl
nowhere (suc (suc zero)) h = refl
nowhere (suc (suc (suc j))) h = absurd (omega arith)

remove_nocase-absent_example :
    remove_nocase (codes "xy") (some (codes "b")) ≡ some (codes "xy" ++ (0 ∷ []))
remove_nocase-absent_example =
    remove_nocase-absent (codes "xy") (codes "b") (omega arith) (omega arith) (omega arith) nowhere

-- "a" and "_b" in the default domain.
copy_full_name_lem_example :
    let full = full_name (b'a' ∷ []) (b'_' ∷ b'b' ∷ []) (b'l' ∷ b'o' ∷ b'c' ∷ b'a' ∷ b'l' ∷ []) in
    copy_full_name true (some (b'a' ∷ [])) (some (b'_' ∷ b'b' ∷ [])) none 64 ≡ (
      if ltb (length full) 64
      then (Error.ok, without_dot (ends_in_dot true (b'l' ∷ b'o' ∷ b'c' ∷ b'a' ∷ b'l' ∷ [])) full)
      else (Error.fault, []))
copy_full_name_lem_example =
    copy_full_name_lem (some (b'a' ∷ [])) (some (b'_' ∷ b'b' ∷ [])) none 64 refl (omega arith)

trailing_dot_goes :
    copy_full_name true (some (b'a' ∷ [])) (some (b'_' ∷ b'b' ∷ [])) (some []) 64
    ≡ (Error.ok, b'a' ∷ b'.' ∷ b'_' ∷ b'b' ∷ [])
unfolding copy_full_name put ends_in_dot
trailing_dot_goes = refl

no_room :
    copy_full_name true (some (b'a' ∷ [])) (some (b'_' ∷ b'b' ∷ [])) none 10 ≡ (Error.fault, [])
unfolding copy_full_name put ends_in_dot
no_room = refl
