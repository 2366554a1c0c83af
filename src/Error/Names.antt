-- ===== src/Error/Names.antt =====
-- The texts of the error codes tell the codes apart.
use Prim.Native.String.{String}
use text.Mathlib.Text.{◌==◌ as str_eq}
use iot_edge_opc_proxy.Base.{
  ◌≡◌, refl, sym, ap, ◌∙◌, List, [], ◌∷◌, Option, none, some, if◌then◌else◌,
}
use iot_edge_opc_proxy.Error.{Error, code, case_name, case_of, errors, err_string}

-- The error of a text, read back off the table.
read_name : String → List Error → Option Error
unfolding case_name
read_name s [] = none
read_name s (e ∷ es) = if str_eq s (case_name e) then some e else read_name s es

case_of-code : (e : Error) → case_of (code e) errors ≡ some e
unfolding case_of errors code
case_of-code Error.unknown = refl
case_of-code Error.fatal = refl
case_of-code Error.arg = refl
case_of-code Error.fault = refl
case_of-code Error.bad_state = refl
case_of-code Error.out_of_memory = refl
case_of-code Error.already_exists = refl
case_of-code Error.not_found = refl
case_of-code Error.not_supported = refl
case_of-code Error.not_impl = refl
case_of-code Error.permission = refl
case_of-code Error.retry = refl
case_of-code Error.nomore = refl
case_of-code Error.network = refl
case_of-code Error.connecting = refl
case_of-code Error.busy = refl
case_of-code Error.writing = refl
case_of-code Error.reading = refl
case_of-code Error.waiting = refl
case_of-code Error.timeout = refl
case_of-code Error.aborted = refl
case_of-code Error.closed = refl
case_of-code Error.shutdown = refl
case_of-code Error.refused = refl
case_of-code Error.no_address = refl
case_of-code Error.no_host = refl
case_of-code Error.host_unknown = refl
case_of-code Error.address_family = refl
case_of-code Error.reserved2 = refl
case_of-code Error.bad_flags = refl
case_of-code Error.invalid_format = refl
case_of-code Error.disk_io = refl
case_of-code Error.reserved1 = refl
case_of-code Error.prop_get = refl
case_of-code Error.prop_set = refl
case_of-code Error.reset = refl
case_of-code Error.undelivered = refl
case_of-code Error.crypto = refl
case_of-code Error.comm = refl
case_of-code Error.ok = refl

err_string-code : (e : Error) → err_string (code e) ≡ case_name e
unfolding err_string
err_string-code e = rw (err_string, case_of-code e)

read_name-case_name : (e : Error) → read_name (case_name e) errors ≡ some e
unfolding read_name errors case_name
read_name-case_name Error.unknown = refl
read_name-case_name Error.fatal = refl
read_name-case_name Error.arg = refl
read_name-case_name Error.fault = refl
read_name-case_name Error.bad_state = refl
read_name-case_name Error.out_of_memory = refl
read_name-case_name Error.already_exists = refl
read_name-case_name Error.not_found = refl
read_name-case_name Error.not_supported = refl
read_name-case_name Error.not_impl = refl
read_name-case_name Error.permission = refl
read_name-case_name Error.retry = refl
read_name-case_name Error.nomore = refl
read_name-case_name Error.network = refl
read_name-case_name Error.connecting = refl
read_name-case_name Error.busy = refl
read_name-case_name Error.writing = refl
read_name-case_name Error.reading = refl
read_name-case_name Error.waiting = refl
read_name-case_name Error.timeout = refl
read_name-case_name Error.aborted = refl
read_name-case_name Error.closed = refl
read_name-case_name Error.shutdown = refl
read_name-case_name Error.refused = refl
read_name-case_name Error.no_address = refl
read_name-case_name Error.no_host = refl
read_name-case_name Error.host_unknown = refl
read_name-case_name Error.address_family = refl
read_name-case_name Error.reserved2 = refl
read_name-case_name Error.bad_flags = refl
read_name-case_name Error.invalid_format = refl
read_name-case_name Error.disk_io = refl
read_name-case_name Error.reserved1 = refl
read_name-case_name Error.prop_get = refl
read_name-case_name Error.prop_set = refl
read_name-case_name Error.reset = refl
read_name-case_name Error.undelivered = refl
read_name-case_name Error.crypto = refl
read_name-case_name Error.comm = refl
read_name-case_name Error.ok = refl

-- `prx_err_string` gives two error codes one text only if they are one code.
pub err_string_injective : (e f : Error) → err_string (code e) ≡ err_string (code f) → e ≡ f
err_string_injective e f h =
    let same : some e ≡ some f =
      sym (read_name-case_name e)
      ∙ ap (λ s. read_name s errors) (sym (err_string-code e) ∙ h ∙ err_string-code f)
      ∙ read_name-case_name f in
    cc same
