-- ===== src/Server/Table.antt =====
-- The server and its table of sockets: the messages that its listener takes, `prx_server_handler` and the
-- handlers of link requests and of messages to no socket, and `prx_server_socket_create`.
pub mod Links
use Prim.Native.Nat.{◌/◌, ◌%◌}
use iot_edge_opc_proxy.Base.{
  ℕ, zero, suc, ◌+◌, ◌*◌, Bool, true, false, not, ◌&&◌, ◌||◌, List, [], ◌∷◌, ◌++◌, Option, none,
  some, ltb, ◌==◌, if◌then◌else◌,
}
use iot_edge_opc_proxy.Base.Int.{ℤ}
use iot_edge_opc_proxy.Error.{Error, is_ok}
use iot_edge_opc_proxy.Dlist.{Dlist}
use iot_edge_opc_proxy.Wire.{Bytes}
use iot_edge_opc_proxy.Wire.Ref.{Ref, no_ref, copy, low, high}
use iot_edge_opc_proxy.Wire.Address.{Address, unspec, inet, inet6, proxy, unix, family}
use iot_edge_opc_proxy.Wire.Socket.{SocketProperties}
use iot_edge_opc_proxy.Wire.Payload.{no_props}
use iot_edge_opc_proxy.Wire.Content.{Content, link_request, type_link}
use iot_edge_opc_proxy.Server.{
  State, created, Socket, Queued, World, Connection, listener, send, respond,
}
use iot_edge_opc_proxy.Server.Requests.{Outside, control_handler}
use iot_edge_opc_proxy.Server.Ports.{check_restricted_port}

-- A socket of the table, with the link request that waits for it to open; whether its memory was freed.
pub record Entry : Type 0 where
  pub socket : Socket
  pub link_message : Option Queued
  pub is_freed : Bool

-- `restricted_ports` and `restricted_port_count`, the table, and the id of the server. The listener is there.
pub record Server : Type 0 where
  pub id : Ref
  pub restricted_ports : List (ℤ × ℤ)
  pub restricted_port_count : ℕ
  pub sockets : List Entry

abbrev equal_bytes : Bytes → Bytes → Bool
equal_bytes [] [] = true
equal_bytes [] (y ∷ ys) = false
equal_bytes (x ∷ xs) [] = false
equal_bytes (x ∷ xs) (y ∷ ys) = let rest = equal_bytes xs ys in if x == y then rest else false

-- `io_ref_equals` of two references that are there.
abbrev pub equals : Ref → Ref → Bool
equals a b = equal_bytes (low a) (low b) && equal_bytes (high a) (high b)

-- `prx_server_get`: the entry with an id.
abbrev pub get : Ref → List Entry → Option Entry
get id [] = none
get id (e ∷ es) = let rest = get id es in if equals id e.socket.id then some e else rest

-- A socket of the table changes in its place.
abbrev pub put : Ref → Socket → List Entry → List Entry
put id s [] = []
put id s (e ∷ es) =
    let rest = put id s es in
    if equals id e.socket.id then record e { socket = s } ∷ es else e ∷ rest

-- `un.ip.port` and `un.proxy.host[0]` of an address, which lie at the same place in each member of the
-- union: of a path, its bytes at 0 and 1, and at 8.
abbrev byte_at : ℕ → Bytes → ℕ
byte_at n [] = 0
byte_at zero (x ∷ xs) = x
byte_at (suc n) (x ∷ xs) = byte_at n xs

unfoldable pub port_of : Address → ℕ
port_of (inet port addr) = port
port_of (inet6 port flow addr scope) = port
port_of (proxy port flags itf host) = port
port_of (unix path) = byte_at 0 path + 256 * byte_at 1 path
port_of x = 0

unfoldable pub first_of_host : Address → ℕ
first_of_host (inet port addr) = byte_at 0 addr
first_of_host (inet6 port flow addr scope) = byte_at 0 addr
first_of_host (proxy port flags itf host) = byte_at 0 host
first_of_host (unix path) = byte_at 8 path
first_of_host x = 0

-- What the calls of `prx_server_handle_linkrequest` and of `prx_server_socket_create` return: the memory and
-- the locks and the scheduler of the socket, its new id, and what the platform and the browse server say.
pub record LinkOutside : Type 0 where
  pub create : Error
  pub new_id : Ref
  pub socket_create : Error
  pub socket_open : Error
  pub accept : Error
  pub pair : Error

abbrev pub props_of : Content → SocketProperties
props_of (link_request r) = r.props
props_of x = no_props

-- prx_socket_flag_passive and prx_socket_flag_internal.
abbrev pub is_passive : SocketProperties → Bool
is_passive p = p.flags % 2 == 1

abbrev pub is_internal : SocketProperties → Bool
is_internal p = p.flags / 2 % 2 == 1

-- 0 stands for DEFAULT_GC_TIMEOUT, and a timeout is MIN_GC_TIMEOUT at least.
unfoldable pub gc_timeout : ℕ → ℕ
gc_timeout t = if t == 0 then 120000 else if ltb t 30000 then 30000 else t

-- The socket that `prx_server_socket_create` makes, with the properties of the request.
unfoldable pub new_socket : Server → Ref → Ref → SocketProperties → Socket
unfolding gc_timeout
new_socket server id owner props = record {
  state = created;
  last_activity = 0;
  time_opened = 0;
  server_id = server.id;
  id = id;
  owner = copy owner no_ref;
  stream_id = no_ref;
  server_stream = false;
  stream = none;
  polled = false;
  has_sock = false;
  timeout = gc_timeout props.timeout;
  buffer_size = 0;
  pool_size = 0;
  bytes_sent = 0;
  bytes_recvd = 0;
  read_queue = [];
  write_queue = [];
  send_queue = [];
  recv_queue = [];
}

-- The `pal_socket_*` calls: their result, and whether `sock` was stored.
unfoldable pub make_sock : LinkOutside → SocketProperties → Error × Bool
unfolding port_of first_of_host
make_sock p props =
    if not (is_internal props)
    then if not (is_ok p.socket_create) then (p.socket_create, false) else (p.socket_open, true)
    else if not (first_of_host props.address == 0)
    then (Error.invalid_format, false)
    else if not (port_of props.address == 1)
    then (Error.not_supported, false)
    else if not (is_ok p.accept)
    then (p.accept, false)
    else (p.pair, is_ok p.pair)

abbrev pub port_result : Server → SocketProperties → Option Error
port_result server props =
    if not (is_internal props) && not (is_passive props)
    then check_restricted_port server.restricted_ports server.restricted_port_count
        (port_of props.address)
    else some Error.ok

unfoldable pub link_fails : Error → Queued → Server → World → Server × World
link_fails e q server w = (server, (send (some listener) (respond e q) w).1)

-- What follows the check of the port. A socket that was made is freed when the platform fails, and stays in
-- the table.
unfoldable pub link_with : LinkOutside → ℕ → Queued → Server → World → Error → Server × World
unfolding new_socket make_sock link_fails
link_with p now q server w port =
    let props = props_of q.message.content in
    let s = new_socket server p.new_id q.message.source_id props in
    let (result, has_sock) = make_sock p props in
    let waiting : Entry = record {
      socket = record s { has_sock = has_sock; last_activity = now };
      link_message = some q;
      is_freed = false;
    } in
    let freed : Entry = record {
      socket = record s { has_sock = has_sock };
      link_message = none;
      is_freed = true;
    } in
    if not (is_ok port)
    then link_fails port q server w
    else if not (is_ok p.create)
    then link_fails p.create q server w
    else if not (is_ok result)
    then link_fails result q (record server { sockets = freed ∷ server.sockets }) w
    else (record server { sockets = waiting ∷ server.sockets }, w)

-- `prx_server_handle_linkrequest`; none is a read behind the array of the ports.
abbrev pub checked : Option Error → (Error → Server × World) → Option (Server × World)
checked none f = none
checked (some e) f = some (f e)

unfoldable pub handle_linkrequest :
    LinkOutside → ℕ → Queued → Server → World → Option (Server × World)
unfolding link_with
handle_linkrequest p now q server w =
    checked (port_result server (props_of q.message.content)) (link_with p now q server w)

-- `prx_server_handle_invalid_socket`: the error code is set before the message is made a response.
unfoldable pub handle_invalid_socket : Queued → World → World
handle_invalid_socket q w = (send (some listener) (respond Error.closed q) w).1

module _ (d : Dlist Queued) where
  -- `prx_server_handler` for a message to a socket; none for one to the server.
  unfoldable pub dispatch : Outside → ℕ → Queued → Server → World → Option (Error × Server × World)
  unfolding handle_invalid_socket
  dispatch p now q server w =
      if equals q.message.target_id no_ref
      then none
      else elim (get q.message.target_id server.sockets) [
        | none ↦ some (Error.ok, server, handle_invalid_socket q w)
        | some e ↦
            let (result, s, w1) = control_handler d p now q e.socket w in
            some (result, record server { sockets = put q.message.target_id s server.sockets }, w1)
      ]
