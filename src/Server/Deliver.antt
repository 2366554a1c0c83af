-- ===== src/Server/Deliver.antt =====
-- What a socket sends from its queues: `prx_server_socket_manage_read_queue` and
-- `prx_server_socket_deliver_results`, with the ends of the asynchronous operations that fill the queues.
pub mod Conserved
pub mod Kept
pub mod Polls
pub mod Polled
use Prim.Native.Nat.{◌^◌, ◌%◌}
use iot_edge_opc_proxy.Base.{
  ℕ, zero, suc, ◌+◌, Bool, true, false, not, ◌&&◌, ◌||◌, List, [], ◌∷◌, ◌++◌, Option, none, some,
  ltb, leb, if◌then◌else◌, length,
}
use iot_edge_opc_proxy.Error.{Error, code, is_ok}
use iot_edge_opc_proxy.Dlist.{Dlist}
use iot_edge_opc_proxy.Wire.Message.{Message, as_response}
use iot_edge_opc_proxy.Wire.Content.{Content, zeroed, poll_message, data_message, type_poll}
use iot_edge_opc_proxy.Wire.Address.{Address, unspec}
use iot_edge_opc_proxy.Server.{Socket, Queued, World, Connection, own_stream, send, respond}

-- `content.poll_message.timeout`. A poll that has been made a response has a content of zeros.
unfoldable pub poll_timeout : Content → ℕ
poll_timeout (poll_message p) = p.timeout
poll_timeout x = 0

-- `(long)next->content.poll_message.timeout >= now`, on 64 bits, for a time that is not negative.
unfoldable pub is_pending : ℕ → Queued → Bool
unfolding poll_timeout
is_pending now q = let t = poll_timeout q.message.content in ltb t (2 ^ 63) && leb now t

-- The socket id and the addresses that a received message is sent with: `io_ref_copy` of each.
unfoldable pub stamp : Socket → Queued → Queued
stamp s q = record q {
  message = record q.message { proxy_id = s.server_id; target_id = s.stream_id; source_id = s.id };
}

-- A received message that is sent, and the poll that it answers, if the socket is polled.
unfoldable pub pick_poll : Bool → List Queued → Option Queued
pick_poll false polls = none
pick_poll true [] = none
pick_poll true (p ∷ ps) = some (record p { message = as_response p.message })

unfoldable pub with_id : Option Queued → Queued → Queued
with_id none q = q
with_id (some p) q = record q { correlation_id = p.correlation_id }

abbrev pub is_nil : List Queued → Bool
is_nil [] = true
is_nil (q ∷ qs) = false

module _ (d : Dlist Queued) where
  -- The loop of `prx_server_socket_manage_read_queue` over what is left of the queue, which starts at
  -- place `i`.
  unfoldable pub manage : Bool → ℕ → List Queued → ℕ → Socket → World → Socket × World
  unfolding is_pending
  manage close now [] i s w = (s, w)
  manage close now (q ∷ qs) i s w =
      let answered =
        manage close now qs i (record s { read_queue = d.remove s.read_queue i })
          (send s.stream (respond (if close then Error.closed else Error.timeout) q) w).1 in
      let waiting = manage close now qs (suc i) s w in
      if close || is_pending now q then answered else waiting

  unfoldable pub manage_read_queue : Bool → ℕ → Socket → World → Socket × World
  unfolding manage
  manage_read_queue close now s w = manage close now s.read_queue 0 s w

  unfoldable pub without_poll : Option Queued → List Queued → List Queued
  without_poll none polls = polls
  without_poll (some p) polls = d.remove polls 0

  unfoldable pub poll_back : Option Queued → List Queued → List Queued
  poll_back none polls = polls
  poll_back (some p) polls = d.insert_head polls p

  -- The message and the poll go back to the front of their queues.
  unfoldable pub put_back : Option Queued → Queued → Socket → Socket
  unfolding poll_back
  put_back poll q s = record s {
    recv_queue = d.insert_head s.recv_queue q;
    read_queue = poll_back poll s.read_queue;
  }

  -- The first loop of `prx_server_socket_deliver_results`, for at most so many rounds.
  unfoldable pub deliver_recv : ℕ → Socket → World → Socket × World
  unfolding pick_poll without_poll with_id put_back stamp
  deliver_recv zero s w = (s, w)
  deliver_recv (suc k) s w = elim (s.recv_queue) [
    | [] ↦ (s, w)
    | q ∷ qs ↦
        let poll = pick_poll s.polled s.read_queue in
        let s' = record s {
          recv_queue = d.remove (q ∷ qs) 0;
          read_queue = without_poll poll s.read_queue;
        } in
        let q' = stamp s (with_id poll q) in
        let (result, w') = send s.stream q' w in
        let rest = deliver_recv k s' w' in
        if s.polled && is_nil s.read_queue
        then (s, w)
        else if is_ok result
        then rest
        else (put_back poll q' s', w')
  ]

  -- The second loop.
  unfoldable pub deliver_write : ℕ → Socket → World → Socket × World
  deliver_write zero s w = (s, w)
  deliver_write (suc k) s w = elim (s.write_queue) [
    | [] ↦ (s, w)
    | q ∷ qs ↦
        let s' = record s { write_queue = d.remove (q ∷ qs) 0 } in
        let (result, w') = send s.stream q w in
        let rest = deliver_write k s' w' in
        if is_ok result
        then rest
        else (record s' { write_queue = d.insert_head s'.write_queue q }, w')
  ]

  -- Each round takes a message off its queue or is the last one.
  unfoldable pub deliver_results : Socket → World → Socket × World
  unfolding deliver_recv deliver_write
  deliver_results s w =
      let (s', w') = deliver_recv (length s.recv_queue) s w in
      deliver_write (length s'.write_queue) s' w'
