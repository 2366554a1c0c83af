-- ===== src/Error.antt =====
-- inc/prx_err.h and src/prx_err.c: the error codes, and their names as text.
use Prim.Native.String.{String}
use iot_edge_opc_proxy.Base.{Bool, true, false, List, [], ◌∷◌, Option, none, some, if◌then◌else◌}
use iot_edge_opc_proxy.Base.Int.{ℤ, pos, negsuc, eqb_ℤ}
pub mod Names
mod Tests

-- `prx_error_t`, in the order of the header.
pub data Error : Type 0 where
  unknown fatal arg fault bad_state out_of_memory already_exists not_found not_supported : Error
  not_impl permission retry nomore network connecting busy writing reading waiting : Error
  timeout aborted closed shutdown refused no_address no_host host_unknown address_family : Error
  reserved2 bad_flags invalid_format disk_io reserved1 prop_get prop_set reset : Error
  undelivered crypto comm ok : Error

-- The value of an enumerator: `er_unknown` is -1001 and each next one is one more, but `er_ok`.
pub code : Error → ℤ
code unknown = negsuc 1000
code fatal = negsuc 999
code arg = negsuc 998
code fault = negsuc 997
code bad_state = negsuc 996
code out_of_memory = negsuc 995
code already_exists = negsuc 994
code not_found = negsuc 993
code not_supported = negsuc 992
code not_impl = negsuc 991
code permission = negsuc 990
code retry = negsuc 989
code nomore = negsuc 988
code network = negsuc 987
code connecting = negsuc 986
code busy = negsuc 985
code writing = negsuc 984
code reading = negsuc 983
code waiting = negsuc 982
code timeout = negsuc 981
code aborted = negsuc 980
code closed = negsuc 979
code shutdown = negsuc 978
code refused = negsuc 977
code no_address = negsuc 976
code no_host = negsuc 975
code host_unknown = negsuc 974
code address_family = negsuc 973
code reserved2 = negsuc 972
code bad_flags = negsuc 971
code invalid_format = negsuc 970
code disk_io = negsuc 969
code reserved1 = negsuc 968
code prop_get = negsuc 967
code prop_set = negsuc 966
code reset = negsuc 965
code undelivered = negsuc 964
code crypto = negsuc 963
code comm = negsuc 962
code ok = pos 0

-- The cases of the `switch` in `prx_err_string`.
pub case_name : Error → String
case_name unknown = "er_unknown"
case_name fatal = "er_fatal"
case_name arg = "er_arg"
case_name fault = "er_fault"
case_name bad_state = "er_bad_state"
case_name out_of_memory = "er_out_of_memory"
case_name already_exists = "er_already_exists"
case_name not_found = "er_not_found"
case_name not_supported = "er_not_supported"
case_name not_impl = "er_not_impl"
case_name permission = "er_permission"
case_name retry = "er_retry"
case_name nomore = "er_nomore"
case_name network = "er_network"
case_name connecting = "er_connecting"
case_name busy = "er_busy"
case_name writing = "er_writing"
case_name reading = "er_reading"
case_name waiting = "er_waiting"
case_name timeout = "er_timeout"
case_name aborted = "er_aborted"
case_name closed = "er_closed"
case_name shutdown = "er_shutdown"
case_name refused = "er_refused"
case_name no_address = "er_no_address"
case_name no_host = "er_no_host"
case_name host_unknown = "er_host_unknown"
case_name address_family = "er_address_family"
case_name reserved2 = "er_reserved2"
case_name bad_flags = "er_bad_flags"
case_name invalid_format = "er_invalid_format"
case_name disk_io = "er_disk_io"
case_name reserved1 = "er_reserved1"
case_name prop_get = "er_prop_get"
case_name prop_set = "er_prop_set"
case_name reset = "er_reset"
case_name undelivered = "er_undelivered"
case_name crypto = "er_crypto"
case_name comm = "er_comm"
case_name ok = "er_ok"

-- The enumerators.
pub errors : List Error
errors =
    unknown ∷ fatal ∷ arg ∷ fault ∷ bad_state ∷ out_of_memory ∷ already_exists ∷ not_found
    ∷ not_supported ∷ not_impl ∷ permission ∷ retry ∷ nomore ∷ network ∷ connecting ∷ busy ∷ writing
    ∷ reading ∷ waiting ∷ timeout ∷ aborted ∷ closed ∷ shutdown ∷ refused ∷ no_address ∷ no_host
    ∷ host_unknown ∷ address_family ∷ reserved2 ∷ bad_flags ∷ invalid_format ∷ disk_io ∷ reserved1
    ∷ prop_get ∷ prop_set ∷ reset ∷ undelivered ∷ crypto ∷ comm ∷ ok ∷ []

-- The case of a value, if there is one.
case_of : ℤ → List Error → Option Error
unfolding code
case_of v [] = none
case_of v (e ∷ es) = if eqb_ℤ v (code e) then some e else case_of v es

unfoldable pub err_string : ℤ → String
unfolding case_of errors case_name
err_string v = elim (case_of v errors) [ some e ↦ case_name e | none ↦ "<unknown>" ]

-- `result == er_ok`.
unfoldable pub is_ok : Error → Bool
is_ok Error.ok = true
is_ok e = false
