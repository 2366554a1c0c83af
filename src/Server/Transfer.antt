-- ===== src/Server/Transfer.antt =====
-- The data that the platform moves for a socket of the server: the begin and the end of its sends and
-- receives, prx_server_socket_on_begin_receive, _end_receive, _begin_send and _end_send of src/prx_server.c.
pub mod Sends
use Prim.Native.Nat.{◌^◌, ◌%◌}
use iot_edge_opc_proxy.Base.{
  ℕ, ◌+◌, Bool, true, false, not, ◌||◌, ◌&&◌, List, [], ◌∷◌, Option, none, some, take,
  if◌then◌else◌,
}
use iot_edge_opc_proxy.Base.Int.{pos}
use iot_edge_opc_proxy.Error.{Error, code, is_ok}
use iot_edge_opc_proxy.Dlist.{Dlist}
use iot_edge_opc_proxy.Wire.{Bytes}
use iot_edge_opc_proxy.Wire.Ref.{no_ref}
use iot_edge_opc_proxy.Wire.Address.{Address, unspec}
use iot_edge_opc_proxy.Wire.Payload.{DataMessage}
use iot_edge_opc_proxy.Wire.Message.{Message, as_response}
use iot_edge_opc_proxy.Wire.Content.{Content, data_message, type_data, type_poll}
use iot_edge_opc_proxy.Server.{Socket, Queued, World, run_deliver, ask, respond}

abbrev pub is_retry : Error → Bool
is_retry Error.retry = true
is_retry x = false

abbrev pub is_aborted : Error → Bool
is_aborted Error.aborted = true
is_aborted x = false

-- A message to receive into, of a buffer that the pool gives: the results of `io_message_create` and of
-- `io_message_allocate_buffer`, with the bytes that are in the buffer.
unfoldable pub begin_receive : Error → Error → Bytes → Socket → Option Queued
begin_receive message allocated buffer s =
    if not (is_ok message && is_ok allocated)
    then none
    else some (record {
      message = record {
        source_id = s.id;
        proxy_id = no_ref;
        target_id = s.stream_id;
        error_code = pos 0;
        is_response = false;
        type = type_data;
        content = data_message (record {
          sequence_number = 0;
          source_address = unspec;
          control_buffer = [];
          buffer = buffer;
        });
      };
      correlation_id = 0;
    })

-- `buffer_length` and, if the receive succeeded, `source_address`.
unfoldable pub received_data : Error → ℕ → Option Address → DataMessage → DataMessage
received_data outcome size none m = record m {
  buffer = take size m.buffer;
  source_address = if is_ok outcome then unspec else m.source_address;
}
received_data outcome size (some a) m = record m {
  buffer = take size m.buffer;
  source_address = if is_ok outcome then a else m.source_address;
}

unfoldable pub received_content : Error → ℕ → Option Address → Content → Content
received_content outcome size address (data_message m) =
    data_message (received_data outcome size address m)
received_content outcome size address x = x

-- `io_message_as_response`, and then `message->type = io_message_type_poll`.
unfoldable pub poll_response : Error → Queued → Queued
poll_response outcome q = record q {
  message = record (as_response q.message) { type = type_poll; error_code = code outcome };
}

module _ (d : Dlist Queued) where
  unfoldable pub end_receive :
      Error → ℕ → ℕ → Option Address → Queued → Socket → World → Socket × World
  unfolding received_content
  end_receive outcome now size address q s w =
      let content = received_content outcome size address q.message.content in
      let q' = record q {
        message = record q.message { content = content; error_code = code outcome };
      } in
      if is_aborted outcome || is_retry outcome then (s, w) else (
        record s {
          last_activity = now;
          bytes_recvd = (s.bytes_recvd + size) % 2 ^ 64;
          recv_queue = d.insert_tail s.recv_queue q';
        },
        ask run_deliver w,
      )

  -- The message to send, and the socket without it.
  unfoldable pub begin_send : Socket → Option Queued × Socket
  begin_send s = elim (s.send_queue) [
    | [] ↦ (none, s)
    | q ∷ qs ↦ (some q, record s { send_queue = d.remove (q ∷ qs) 0 })
  ]

  unfoldable pub end_send : Error → ℕ → Queued → Socket → World → Socket × World
  unfolding poll_response
  end_send outcome now q s w =
      let answered : Socket → Socket =
        λ x. record x { write_queue = d.insert_tail x.write_queue (poll_response outcome q) } in
      let active = if is_ok outcome then record s { last_activity = now } else s in
      if is_retry outcome
      then (record s { send_queue = d.insert_head s.send_queue q }, w)
      else if not (is_ok outcome) && not (is_aborted outcome)
      then (answered s, ask run_deliver w)
      else if not s.polled
      then (active, w)
      else (answered active, ask run_deliver w)
