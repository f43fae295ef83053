-- ===== src/Server/Tests.antt =====
-- Runs of the server messages over the plain implementation of the crates, and the theorems at
-- concrete inputs.
use edgedb_rust.Base.{ℕ, ◌≡◌, refl, ◌≢◌, List, [], ◌∷◌, ◌++◌, ok, panic, inl, inr, arith}
use edgedb_rust.Wire.{is_utf8, to_be_bytes}
use edgedb_rust.Wire.Encoding.{Annotations}
use edgedb_rust.Wire.Encoding.RoundTrip.{wire_annotations, wire_frame}
use edgedb_rust.Wire.Reference.{crates}
use edgedb_rust.Protocol.{ProtocolVersion, is_1, Cardinality}
use edgedb_rust.Server.Types.{
  ServerMessage, ParameterStatus, error_response, ErrorSeverity, command_data_description1,
  data_chunks,
}
use edgedb_rust.Server.Encode.{encode_server_message, error_severity_to_u8}
use edgedb_rust.Server.Decode.{error_severity_from_u8}
use edgedb_rust.Server.Message.{decode_server_message}
use edgedb_rust.Server.RoundTrip.{
  IsSendable, code_of, body_of, encode_server_message-wire_frame,
  decode_server_message-encode_server_message,
}
use edgedb_rust.Server.Typedescs.{parse_system_config, parse_system_config-Returns}
use edgedb_rust.Descriptors.Termination.{Returns}
use edgedb_rust.Server.Safety.{ReadsUnchecked, decode_server_message-ne-panic}
use edgedb_rust.Server.Faults.{
  cut_handshake, decode_server_message-handshake_cut, decode_server_message-command_complete_cut,
}

abbrev v1 : ProtocolVersion
v1 = record { major_ver = 1; minor_ver = 0 }

abbrev zero_id : List ℕ
zero_id = 0 ∷ 0 ∷ 0 ∷ 0 ∷ 0 ∷ 0 ∷ 0 ∷ 0 ∷ 0 ∷ 0 ∷ 0 ∷ 0 ∷ 0 ∷ 0 ∷ 0 ∷ 0 ∷ []

abbrev failure : ServerMessage
failure = error_response (record {
  severity = ErrorSeverity.fatal;
  code = 0x04010000;
  message = 0x6f ∷ 0x68 ∷ [];
  attributes = (2, 0x68 ∷ []) ∷ [];
})

abbrev description : ServerMessage
description = command_data_description1 (record {
  proto = v1;
  annotations = (0x61 ∷ [], 0x62 ∷ []) ∷ [];
  capabilities = 1;
  result_cardinality = Cardinality.many;
  input_typedesc_id = zero_id;
  input_typedesc = [];
  output_typedesc_id = zero_id;
  output_typedesc = 7 ∷ [];
})

abbrev rows : ServerMessage
rows = data_chunks (record { chunks = (1 ∷ 2 ∷ []) ∷ [] ∷ [] })

failure-IsSendable : IsSendable v1 failure
unfolding IsSendable is_utf8 error_severity_to_u8 error_severity_from_u8
failure-IsSendable = record {
  severity = tt;
  code = omega arith;
  message_fits = (omega arith, refl);
  attributes_fit = (omega arith, (omega arith, tt), (tt, tt));
}

description-IsSendable : IsSendable v1 description
unfolding IsSendable is_utf8 is_1
description-IsSendable = (
  refl,
  record {
    version = refl;
    annotations_fit = (omega arith, (((omega arith, refl), (omega arith, refl)), tt), (tt, tt));
    capabilities = omega arith;
    input_id = refl;
    input_fits = omega arith;
    output_id = refl;
    output_fits = omega arith;
  },
)

encode_server_message-wire_frame_example :
    encode_server_message rows (9 ∷ []) ≡ ok (9 ∷ wire_frame (code_of rows) (body_of rows))
unfolding IsSendable body_of to_be_bytes
encode_server_message-wire_frame_example =
    encode_server_message-wire_frame v1 rows (9 ∷ [])
      (omega arith, (omega arith, (omega arith, tt))) (omega arith)

decode_server_message-encode_server_message_example :
    (frame : List ℕ) × (encode_server_message description [] ≡ ok frame)
    × (decode_server_message v1 frame ≡ ok description)
unfolding body_of to_be_bytes
decode_server_message-encode_server_message_example =
    decode_server_message-encode_server_message v1 description description-IsSendable (omega arith)

failure_round_trip :
    (frame : List ℕ) × (encode_server_message failure [] ≡ ok frame)
    × (decode_server_message v1 frame ≡ ok failure)
unfolding body_of to_be_bytes
failure_round_trip =
    decode_server_message-encode_server_message v1 failure failure-IsSendable (omega arith)

authentication-checked : ¬ (ReadsUnchecked v1 0x52)
authentication-checked (inl e) = omega arith
authentication-checked (inr (e, new)) = omega arith

decode_server_message-ne-panic_example :
    decode_server_message v1 (0x52 ∷ 0 ∷ 0 ∷ 0 ∷ 8 ∷ 0 ∷ 0 ∷ 0 ∷ 10 ∷ []) ≢ panic
decode_server_message-ne-panic_example =
    decode_server_message-ne-panic v1 0x52 (0 ∷ 0 ∷ 0 ∷ 8 ∷ 0 ∷ 0 ∷ 0 ∷ 10 ∷ [])
      authentication-checked (omega arith)

decode_server_message-handshake_cut_example :
    decode_server_message v1 (wire_frame 0x76 (cut_handshake 1 0 2 (0x78 ∷ []) 1 (7 ∷ []))) ≡ panic
unfolding is_utf8
decode_server_message-handshake_cut_example =
    decode_server_message-handshake_cut v1 1 0 1 (0x78 ∷ []) 0 (7 ∷ []) (omega arith) (omega arith)
      (omega arith) (omega arith, refl) (omega arith) (omega arith)

-- 27 bytes of body, and the capabilities cut off.
abbrev long_annotation : Annotations
long_annotation =
    (0x61 ∷ 0x61 ∷ 0x61 ∷ 0x61 ∷ 0x61 ∷ 0x61 ∷ 0x61 ∷ 0x61 ∷ [], 0x62 ∷ 0x62 ∷ []) ∷ []

decode_server_message-command_complete_cut_example :
    decode_server_message v1
      (wire_frame 0x43 (wire_annotations long_annotation ++ (1 ∷ 2 ∷ 3 ∷ 4 ∷ 5 ∷ 6 ∷ 7 ∷ [])))
    ≡ panic
unfolding is_utf8 is_1 to_be_bytes
decode_server_message-command_complete_cut_example =
    decode_server_message-command_complete_cut v1 long_annotation (1 ∷ 2 ∷ 3 ∷ 4 ∷ 5 ∷ 6 ∷ 7 ∷ [])
      refl (omega arith, (((omega arith, refl), (omega arith, refl)), tt), (tt, tt)) (omega arith)
      (omega arith)

-- The value of `system_config`, cut inside the identifier of its type.
abbrev cut_config : ParameterStatus
cut_config = record {
  proto = v1;
  name = 0x63 ∷ [];
  value = to_be_bytes 4 3 ++ (1 ∷ 2 ∷ 3 ∷ []) ++ to_be_bytes 4 0;
}

parse_system_config-Returns_example : Returns (parse_system_config ⦃C = crates⦄ cut_config)
parse_system_config-Returns_example = parse_system_config-Returns ⦃C = crates⦄ cut_config
