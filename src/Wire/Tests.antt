-- ===== src/Wire/Tests.antt =====
-- A link request from one reference to another, through a third, and its answers.
use iot_edge_opc_proxy.Base.{
  ℕ, ◌+◌, ◌^◌, subst, replicate, ◌≡◌, refl, arith, true, false, [], ◌∷◌, ◌++◌, length, ◌<◌, ◌≤◌,
}
use iot_edge_opc_proxy.Base.Int.{pos, negsuc}
use iot_edge_opc_proxy.Error.{Error}
use iot_edge_opc_proxy.Wire.{Bytes, done, fails, ◌>>=◌, give, give_up}
use iot_edge_opc_proxy.Wire.Cmp.{plain, plain-IsCmp, Outcome, good, bad}
use iot_edge_opc_proxy.Wire.Codec.{
  Allocator, Memory, fixed_validator, mpack_read_string, mpack_read_object, object_kind,
  object_holder, mpack_read_type_begin, mpack_read_type_end, mpack_read_integer,
  mpack_read_uinteger, mpack_read_bool, mpack_read_bin, bin_size, bin_alloc, bin_body,
  cmp_stream_read, stored,
}
use iot_edge_opc_proxy.Wire.Fields.{
  decode_object, from_object, back, decode_bin_fixed, decode_int32, decode_uint32, narrow,
  narrow_int,
}
use iot_edge_opc_proxy.Wire.Codec.Strings.{mpack_read_string-stored, mpack_read_string-wrapped}
use iot_edge_opc_proxy.Wire.Chain.{ctx}
use iot_edge_opc_proxy.Wire.Parts.{Grants}
use iot_edge_opc_proxy.Wire.Address.{inet, zeros}
use iot_edge_opc_proxy.Wire.Property.{Property, number}
use iot_edge_opc_proxy.Wire.Ref.{Ref, decode_ref}
use iot_edge_opc_proxy.Wire.Socket.{SocketProperties, no_option}
use iot_edge_opc_proxy.Wire.Payload.Codec.{decode_getopt_request}
use iot_edge_opc_proxy.Wire.Message.{
  Message, send_handler, receive_handler, decode_message, check_version,
}
use iot_edge_opc_proxy.Wire.Content.{
  link_request, getopt_request, type_link, type_getopt, content_kind, request_kind, response_kind,
  zero_content, decode_message_content, decode_content,
}
use iot_edge_opc_proxy.Wire.Message.RoundTrip.{IsHead}
use iot_edge_opc_proxy.Wire.Message.Version.{receive_handler-other}
use iot_edge_opc_proxy.Wire.Message.Response.{
  error_response, answers_link, receive_handler-error_response, send_handler-error_response,
}

abbrev grants : Allocator
grants n = done n

grants-Grants : Grants grants
grants-Grants n = refl

-- Where a buffer was moved away, other bytes are read.
abbrev memory : Memory
memory = record { allocator = grants; moved = λ bytes. 1 ∷ bytes }

-- 0.2.1, 0.2.2 and 0.3.0.
abbrev version : ℕ
version = 131328

abbrev patched : ℕ
patched = 131584

abbrev later : ℕ
later = 196608

abbrev available_option : Property
available_option = record { type = pos 2; property = number 1 }

abbrev props : SocketProperties
props = record {
  family = pos 2;
  sock_type = pos 1;
  proto_type = pos 6;
  flags = 0;
  timeout = 5000;
  address = inet 443 (10 ∷ 0 ∷ 0 ∷ 1 ∷ []);
  options = no_option ∷ no_option ∷ available_option ∷ replicate 31 no_option;
}

abbrev sender : Ref
sender = 1 ∷ zeros 15

abbrev receiver : Ref
receiver = 2 ∷ zeros 15

abbrev message : Message
message = record {
  source_id = sender;
  proxy_id = zeros 16;
  target_id = receiver;
  error_code = pos 0;
  is_response = false;
  type = type_link;
  content = link_request (record { version = 7; props = props });
}

message-IsHead : IsHead message
message-IsHead = record {
  source_id = refl;
  proxy_id = refl;
  target_id = refl;
  error_code = omega arith;
  type = omega arith;
}

abbrev asks : Message
asks = record {
  source_id = sender;
  proxy_id = zeros 16;
  target_id = receiver;
  error_code = pos 0;
  is_response = false;
  type = type_getopt;
  content = getopt_request (record { so_opt = pos 2 });
}

asks-IsHead : IsHead asks
asks-IsHead = record {
  source_id = refl;
  proxy_id = refl;
  target_id = refl;
  error_code = omega arith;
  type = omega arith;
}

receive_handler-error_response_example :
    (item : Bytes) × ((stream : Bytes)
      → send_handler plain version (error_response (negsuc 4) message) stream
        ≡ done (stream ++ item))
    × ((rest : Bytes)
        → receive_handler plain version memory (item ++ rest)
          ≡ done (
            record {
              source_id = receiver;
              proxy_id = zeros 16;
              target_id = sender;
              error_code = negsuc 4;
              is_response = true;
              type = type_link;
              content = zero_content (response_kind type_link);
            },
            ctx rest 0,
          ))
unfolding response_kind
receive_handler-error_response_example =
    receive_handler-error_response plain plain-IsCmp version (omega arith) memory (negsuc 4) message
      grants-Grants message-IsHead (omega arith) answers_link

send_handler-error_response_example :
    send_handler plain version (error_response (negsuc 4) asks) [] ≡ fails Error.writing
send_handler-error_response_example =
    send_handler-error_response plain plain-IsCmp version (omega arith) (negsuc 4) asks []
      asks-IsHead (omega arith) refl

-- Three bytes behind the header of a string.
abbrev long_string : Bytes
long_string = 4 ∷ 4294967295 ∷ 65 ∷ 66 ∷ 67 ∷ []

mpack_read_string-wrapped_example :
    mpack_read_string plain (fixed_validator 2) (ctx long_string 1)
    ≡ (65 ∷ 66 ∷ 67 ∷ [], fails Error.reading)
mpack_read_string-wrapped_example =
    mpack_read_string-wrapped plain 2 (ctx long_string 1) 4294967295 (65 ∷ 66 ∷ 67 ∷ [])
      (omega arith) refl refl (omega arith)

abbrev short_string : Bytes
short_string = 4 ∷ 3 ∷ 65 ∷ 66 ∷ 67 ∷ []

abbrev size_of : Outcome (ℕ × Bytes) → ℕ
size_of (good (n, s)) = n
size_of (bad e) = 0

short_string_size :
    (len32 : ℕ) (s : Bytes)
    → plain.read_str_size short_string ≡ good (len32, s)
    → len32 + 1 < 2 ^ 32
short_string_size len32 s h = subst (λ o. size_of o + 1 < 2 ^ 32) h (omega arith)

mpack_read_string-stored_example :
    length (mpack_read_string plain (fixed_validator 4) (ctx short_string 1)).0 ≤ 4
mpack_read_string-stored_example =
    mpack_read_string-stored plain 4 (ctx short_string 1) short_string_size

-- The bytes of `asks`.
abbrev sent_ref : ℕ → Bytes
sent_ref n = 7 ∷ 2 ∷ 6 ∷ 0 ∷ 5 ∷ 16 ∷ n ∷ zeros 15

abbrev sent_bytes : Bytes
sent_bytes =
    (7 ∷ 9 ∷ 6 ∷ 0 ∷ 2 ∷ 131328 ∷ [])
    ++ (sent_ref 1
        ++ (sent_ref 0 ++ (sent_ref 2 ++ (0 ∷ 0 ∷ 3 ∷ 0 ∷ 2 ∷ 14 ∷ 7 ∷ 2 ∷ 6 ∷ 0 ∷ 0 ∷ 2 ∷ []))))

received : receive_handler plain version memory sent_bytes ≡ done (asks, ctx [] 0)
unfolding receive_handler decode_object from_object back decode_message check_version
    decode_message_content decode_content decode_getopt_request content_kind request_kind decode_ref
    decode_bin_fixed decode_int32 decode_uint32 narrow narrow_int mpack_read_object object_kind
    object_holder mpack_read_type_begin mpack_read_type_end mpack_read_integer mpack_read_uinteger
    mpack_read_bool mpack_read_bin bin_size bin_alloc bin_body cmp_stream_read fixed_validator
    stored ◌>>=◌ give give_up
received = refl

receive_handler-other_example :
    receive_handler plain later memory sent_bytes ≡ fails Error.invalid_format
receive_handler-other_example =
    receive_handler-other plain version later memory sent_bytes asks (ctx [] 0) received
      (omega arith)
