-- ===== src/Server/Table/Links.antt =====
-- What becomes of a link request.
use iot_edge_opc_proxy.Base.{ℕ, ◌≡◌, refl, ap, ◌∙◌, true, false, some, take, if◌then◌else◌}
use iot_edge_opc_proxy.Base.Int.{pos}
use iot_edge_opc_proxy.Error.{Error, is_ok}
use iot_edge_opc_proxy.Wire.Socket.{SocketProperties}
use iot_edge_opc_proxy.Server.{Queued, World, listener, send, respond}
use iot_edge_opc_proxy.Server.Ports.{
  is_in_ranges, is_restricted_lem, check_restricted_port, verdict,
}
use iot_edge_opc_proxy.Text.RangeList.Ordered.{AllOrdered}
use iot_edge_opc_proxy.Server.Table.{
  Server, LinkOutside, port_of, props_of, is_internal, is_passive, port_result, link_fails,
  link_with, checked, handle_linkrequest,
}

port_checked :
    (server : Server) (props : SocketProperties)
    → is_internal props ≡ false
    → is_passive props ≡ false
    → port_result server props
      ≡ check_restricted_port server.restricted_ports server.restricted_port_count
          (port_of props.address)
port_checked server props i a = rw (port_result, i, a) refl

-- A link request to connect to a port in one of the restricted ranges, which are in order, is answered
-- with er_refused, and no socket is made for it.
pub handle_linkrequest-restricted :
    (p : LinkOutside) (now : ℕ) (q : Queued) (server : Server) (w : World)
    → AllOrdered (take server.restricted_port_count server.restricted_ports)
    → is_internal (props_of q.message.content) ≡ false
    → is_passive (props_of q.message.content) ≡ false
    → is_in_ranges
        (pos (port_of (props_of q.message.content).address))
        (take server.restricted_port_count server.restricted_ports)
      ≡ true
    → handle_linkrequest p now q server w
      ≡ some (server, (send (some listener) (respond Error.refused q) w).1)
unfolding handle_linkrequest check_restricted_port link_fails is_ok
handle_linkrequest-restricted p now q server w o i a r =
    let port = pos (port_of (props_of q.message.content).address) in
    let l = take server.restricted_port_count server.restricted_ports in
    let refused =
      verdict _ _ (is_restricted_lem port l o)
      ∙ ap (λ b. some (if b then Error.refused else Error.ok)) r in
    ap (λ x. checked x (link_with p now q server w))
      (port_checked server (props_of q.message.content) i a ∙ refused)
