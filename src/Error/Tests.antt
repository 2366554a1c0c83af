-- ===== src/Error/Tests.antt =====
-- A text, and the theorem on the texts at two codes.
use iot_edge_opc_proxy.Base.{◌≡◌, refl}
use iot_edge_opc_proxy.Base.Int.{negsuc}
use iot_edge_opc_proxy.Error.{Error, err_string}
use iot_edge_opc_proxy.Error.Names.{err_string_injective}

err_string-fatal : err_string (negsuc 999) ≡ "er_fatal"
unfolding err_string
err_string-fatal = refl

err_string-gap : err_string (negsuc 4) ≡ "<unknown>"
unfolding err_string
err_string-gap = refl

err_string_injective_example : Error.fault ≡ Error.fault
err_string_injective_example = err_string_injective Error.fault Error.fault refl
