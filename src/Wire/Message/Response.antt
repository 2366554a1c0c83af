-- ===== src/Wire/Message/Response.antt =====
-- What becomes of a message that `io_message_as_response` has turned into a response.
use Prim.Native.Nat.{◌^◌}
use iot_edge_opc_proxy.Base.{inl, ℕ, suc, ◌<◌, ◌≡◌, refl, sym, ap, subst, ◌∙◌, arith, true, ◌++◌}
use iot_edge_opc_proxy.Base.Int.{ℤ, pos}
use iot_edge_opc_proxy.Error.{Error}
use iot_edge_opc_proxy.Wire.{Bytes, done, fails, Ctx, Encode, ◌>>>◌}
use iot_edge_opc_proxy.Wire.Cmp.{Cmp, IsCmp}
use iot_edge_opc_proxy.Wire.Codec.{Memory, mpack_write_object, open_object, mpack_write_type_begin}
use iot_edge_opc_proxy.Wire.Fields.{encode_object, in_object}
use iot_edge_opc_proxy.Wire.Chain.{ctx, IsInt32, Puts, boolean, integer, uinteger, uint32, int32}
use iot_edge_opc_proxy.Wire.Parts.{Grants}
use iot_edge_opc_proxy.Wire.Object.{begin-Puts}
use iot_edge_opc_proxy.Wire.Ref.RoundTrip.{ref_member, swap_lem}
use iot_edge_opc_proxy.Wire.Property.{encode_property, encode_value, kind_of}
use iot_edge_opc_proxy.Wire.Socket.{no_option}
use iot_edge_opc_proxy.Wire.Payload.Codec.{encode_getopt_response}
use iot_edge_opc_proxy.Wire.Message.{
  Message, as_response, encode_message, send_handler, sent_stream, receive_handler,
}
use iot_edge_opc_proxy.Wire.Content.{
  Content, zeroed, ContentKind, of_data_message, of_close_response, of_ping_response,
  of_link_response, of_null, content_kind, response_kind, zero_content, seen_as, encode_content,
  encode_message_content, type_getopt,
}
use iot_edge_opc_proxy.Wire.Message.RoundTrip.{
  IsHead, IsMessage, as_received, Holds, holds_data_message, holds_close_response,
  holds_ping_response, holds_link_response, holds_nothing, receive_handler-send_handler,
}

-- An encoder that fails on every stream.
abbrev Stops : Encode → Error → Type 0
Stops e r = (c : Ctx) → e c ≡ fails r

Stops-then : {r : Error} {a : Bytes} (e f : Encode) → Puts e a → Stops f r → Stops (e >>> f) r
unfolding ◌>>>◌
Stops-then {a = a} e f p s c = rw ((p c).1) (s (ctx (c.stream ++ a) (p c).0))

Stops-at : {r : Error} (e f : Encode) → Stops e r → Stops (e >>> f) r
unfolding ◌>>>◌
Stops-at e f s c = rw (s c) refl

module _ (m : Cmp) where
  Stops-object : {r : Error} (e : Encode) → Stops e r → Stops (encode_object m e) r
  unfolding encode_object mpack_write_object open_object
  Stops-object e s c = rw (in_object, s (ctx c.stream 0)) refl

  module _ (law : IsCmp m) where
    Stops-type :
        {r : Error} (members : ℕ) (e : Encode)
        → suc members < 2 ^ 32
        → Stops e r
        → Stops (mpack_write_type_begin m members >>> e) r
    Stops-type members e h s = Stops-then _ e (begin-Puts m law members (omega (arith, h))) s

    -- A property without a type.
    no_option-Stops : Stops (encode_property m no_option) Error.writing
    unfolding encode_property encode_value kind_of
    no_option-Stops = Stops-type 2 _ (omega arith) (
        Stops-then _ _ (integer m law {i = 0} (pos 0) (omega arith)).puts
          (Stops-at _ _ (λ c. refl)))

    getopt-Stops : Stops (encode_message_content m true type_getopt zeroed) Error.writing
    unfolding encode_message_content content_kind response_kind seen_as zero_content encode_content
        encode_getopt_response
    getopt-Stops =
        Stops-object _
          (Stops-type 1 _ (omega arith) (Stops-at _ _ (Stops-object _ no_option-Stops)))

    module _ (version : ℕ) (low_version : version < 2 ^ 32) where
      message-Stops :
          (msg : Message)
          → IsHead msg
          → Stops (encode_message_content m msg.is_response msg.type msg.content) Error.writing
          → Stops (encode_message m version msg) Error.writing
      unfolding encode_message
      message-Stops msg h s = Stops-type 8 _ (omega arith) (
          Stops-then _ _ (uinteger m law {i = 0} version (omega arith)).puts (
            Stops-then _ _ (ref_member m law {i = 0} msg.source_id h.source_id).puts (
              Stops-then _ _ (ref_member m law {i = 0} msg.proxy_id h.proxy_id).puts (
                Stops-then _ _ (ref_member m law {i = 0} msg.target_id h.target_id).puts (
                  Stops-then _ _ (int32 m law {i = 0} msg.error_code h.error_code).puts (
                    Stops-then _ _ (boolean m law {i = 0} msg.is_response).puts (
                      Stops-then _ _ (uint32 m law {i = 0} msg.type h.type).puts
                        (Stops-at _ _ s))))))))

-- What the server does to a request that it cannot serve: `io_message_as_response`, and then
-- `message->error_code = result`.
abbrev pub error_response : ℤ → Message → Message
error_response e msg = record (as_response msg) { error_code = e }

-- The same, with its references in their places.
abbrev answer : ℤ → Content → Message → Message
answer e content msg = record {
  source_id = msg.target_id;
  proxy_id = msg.proxy_id;
  target_id = msg.source_id;
  error_code = e;
  is_response = true;
  type = msg.type;
  content = content;
}

error_response-answer :
    (e : ℤ) (msg : Message) → IsHead msg → error_response e msg ≡ answer e zeroed msg
unfolding as_response
error_response-answer e msg h =
    ap (λ refs. record (answer e zeroed msg) { source_id = refs.0; target_id = refs.1 })
      (swap_lem msg.source_id msg.target_id h.source_id h.target_id)

answer-IsHead :
    (e : ℤ) (content : Content) (msg : Message)
    → IsHead msg
    → IsInt32 e
    → IsHead (answer e content msg)
answer-IsHead e content msg h i = record {
  source_id = h.target_id;
  proxy_id = h.proxy_id;
  target_id = h.source_id;
  error_code = i;
  type = h.type;
}

-- The kinds of response whose content can be all 0.
pub data Answers : ContentKind → Type 0 where
  answers_data : Answers of_data_message
  answers_close : Answers of_close_response
  answers_ping : Answers of_ping_response
  answers_link : Answers of_link_response
  answers_null : Answers of_null

zero_content-Holds : (k : ContentKind) → Answers k → Holds k (zero_content k)
unfolding zero_content
zero_content-Holds _ answers_data = holds_data_message (record {
  sequence_number = omega arith;
  source_address = tt;
  control_buffer = omega arith;
  buffer = omega arith;
  one_buffer = inl refl;
})
zero_content-Holds _ answers_close = holds_close_response (record {
  time_open = omega arith;
  bytes_sent = omega arith;
  bytes_received = omega arith;
  error_code = omega arith;
})
zero_content-Holds _ answers_ping =
    holds_ping_response (record { address = tt; physical_address = refl; time_ms = omega arith })
zero_content-Holds _ answers_link =
    holds_link_response (record { link_id = refl; local_address = tt; peer_address = tt })
zero_content-Holds _ answers_null = holds_nothing

as_received-zero_content :
    (k : ContentKind) → Answers k → as_received (zero_content k) ≡ zero_content k
unfolding zero_content
as_received-zero_content _ answers_data = refl
as_received-zero_content _ answers_close = refl
as_received-zero_content _ answers_ping = refl
as_received-zero_content _ answers_link = refl
as_received-zero_content _ answers_null = refl

seen_as-zero_content : (k : ContentKind) → Answers k → seen_as k (zero_content k) ≡ seen_as k zeroed
unfolding zero_content seen_as
seen_as-zero_content _ answers_data = refl
seen_as-zero_content _ answers_close = refl
seen_as-zero_content _ answers_ping = refl
seen_as-zero_content _ answers_link = refl
seen_as-zero_content _ answers_null = refl

module _ (m : Cmp) (law : IsCmp m) (version : ℕ) (low_version : version < 2 ^ 32) where
  send-answer :
      (e : ℤ) (msg : Message) (stream : Bytes)
      → Answers (response_kind msg.type)
      → send_handler m version (answer e (zero_content (response_kind msg.type)) msg) stream
        ≡ send_handler m version (answer e zeroed msg) stream
  unfolding send_handler encode_message encode_message_content content_kind
  send-answer e msg stream k = rw (seen_as-zero_content (response_kind msg.type) k) refl

  -- The response to a request that the server cannot serve, for every type of request but one for an
  -- option, with the references and the numbers in range: it is put behind whatever the stream has, and,
  -- given an allocator that finds the room, it is received with the source and the target exchanged, the
  -- error, the proxy and the type as they are, and a content of the response's kind that is all 0.
  pub receive_handler-error_response :
      (memory : Memory) (e : ℤ) (msg : Message)
      → Grants memory.allocator
      → IsHead msg
      → IsInt32 e
      → Answers (response_kind msg.type)
      → (item : Bytes) × ((stream : Bytes)
          → send_handler m version (error_response e msg) stream ≡ done (stream ++ item))
        × ((rest : Bytes)
            → receive_handler m version memory (item ++ rest)
              ≡ done (
                record {
                  source_id = msg.target_id;
                  proxy_id = msg.proxy_id;
                  target_id = msg.source_id;
                  error_code = e;
                  is_response = true;
                  type = msg.type;
                  content = zero_content (response_kind msg.type);
                },
                ctx rest 0,
              ))
  unfolding content_kind
  receive_handler-error_response memory e msg g h i k =
      let k' = response_kind msg.type in
      let valid : IsMessage (answer e (zero_content k') msg) = record {
        head = answer-IsHead e (zero_content k') msg h i;
        content = zero_content-Holds k' k;
      } in
      let (item, sends, receives) =
        receive_handler-send_handler m law memory g version version low_version
          (answer e (zero_content k') msg) valid refl in
      (
        item,
        (λ stream.
            rw (error_response-answer e msg h) (sym (send-answer e msg stream k) ∙ sends stream)),
        (λ rest.
            receives rest
            ∙ ap (λ x. done (answer e x msg, ctx rest 0)) (as_received-zero_content k' k)),
      )

  -- The response to a request for an option that the server cannot serve, with the references and the
  -- numbers in range, is never sent: whatever the stream has, the handler fails with er_writing.
  pub send_handler-error_response :
      (e : ℤ) (msg : Message) (stream : Bytes)
      → IsHead msg
      → IsInt32 e
      → msg.type ≡ type_getopt
      → send_handler m version (error_response e msg) stream ≡ fails Error.writing
  unfolding send_handler sent_stream
  send_handler-error_response e msg stream h i t =
      let content : Stops (encode_message_content m true msg.type zeroed) Error.writing =
        subst (λ n. Stops (encode_message_content m true n zeroed) Error.writing) (sym t)
          (getopt-Stops m law) in
      let stops = Stops-object m _ (
        message-Stops m law version low_version (answer e zeroed msg)
          (answer-IsHead e zeroed msg h i) content) in
      rw (error_response-answer e msg h, sent_stream, stops (ctx stream 1)) refl
