-- ===== src/Client/Tests.antt =====
-- Runs of the client messages over the plain implementation of the crates, and the theorems at
-- concrete inputs.
use edgedb_rust.Base.{ℕ, ◌≡◌, refl, ◌≢◌, List, [], ◌∷◌, ◌++◌, some, ok, err, panic, inl, inr, arith}
use edgedb_rust.Wire.{underflow, extra_data, is_utf8, to_be_bytes}
use edgedb_rust.Wire.Decoder.{pure}
use edgedb_rust.Wire.Frame.{decode_frame}
use edgedb_rust.Wire.Encoding.{KeyValues}
use edgedb_rust.Wire.Encoding.RoundTrip.{wire_headers, wire_frame}
use edgedb_rust.Wire.Reference.{crates}
use edgedb_rust.Protocol.{ProtocolVersion, is_1, IoFormat, Cardinality, data_description}
use edgedb_rust.Client.Types.{
  ClientMessage, DescribeStatement, client_handshake, parse, sync, describe_statement,
}
use edgedb_rust.Client.Encode.{encode_message}
use edgedb_rust.Client.Message.{decode_message, decode_body}
use edgedb_rust.Client.RoundTrip.{
  IsSendable, code_of, body_of, encode_message-wire_frame, decode_message-encode_message,
}
use edgedb_rust.Client.Safety.{ReadsUnchecked, decode_message-ne-panic}
use edgedb_rust.Client.Faults.{
  decode_message-restore_cut, decode_message-optimistic_execute_cut, decode_message-short,
  encode_message-describe_headers,
}

abbrev v1 : ProtocolVersion
v1 = record { major_ver = 1; minor_ver = 0 }

abbrev v0 : ProtocolVersion
v0 = record { major_ver = 0; minor_ver = 13 }

-- `user` = `edgedb`, and one extension with one header.
abbrev hello : ClientMessage
hello = client_handshake (record {
  major_ver = 1;
  minor_ver = 0;
  params = (0x75 ∷ 0x73 ∷ 0x65 ∷ 0x72 ∷ [], 0x65 ∷ 0x64 ∷ 0x67 ∷ 0x65 ∷ 0x64 ∷ 0x62 ∷ []) ∷ [];
  extensions = (0x78 ∷ [], (1, 7 ∷ []) ∷ []) ∷ [];
})

-- `SELECT` with a limit.
abbrev select : ClientMessage
select = parse (record {
  annotations = [];
  allowed_capabilities = 0b101;
  compilation_flags = 1;
  implicit_limit = some 100;
  output_format = IoFormat.binary;
  expected_cardinality = Cardinality.many;
  command_text = 0x53 ∷ 0x45 ∷ 0x4c ∷ 0x45 ∷ 0x43 ∷ 0x54 ∷ [];
  state_typedesc_id = 0 ∷ 0 ∷ 0 ∷ 0 ∷ 0 ∷ 0 ∷ 0 ∷ 0 ∷ 0 ∷ 0 ∷ 0 ∷ 0 ∷ 0 ∷ 0 ∷ 0 ∷ 0 ∷ [];
  state_data = [];
})

hello-IsSendable : IsSendable v1 hello
unfolding IsSendable is_utf8
hello-IsSendable = record {
  major = omega arith;
  minor = omega arith;
  params_fit = (omega arith, (((omega arith, refl), (omega arith, refl)), tt), (tt, tt));
  extensions_fit = (omega arith, (((omega arith, refl), omega arith), tt), (tt, tt));
}

select-IsSendable : IsSendable v1 select
unfolding IsSendable is_utf8 is_1
select-IsSendable = (
  refl,
  record {
    annotations_fit = omega arith;
    capabilities = omega arith;
    flags = omega arith;
    limit = omega arith;
    format = λ e. cc;
    text_fits = (omega arith, refl);
    state_id = refl;
    state_fits = omega arith;
  },
)

sync_frame : encode_message sync [] ≡ ok (0x53 ∷ 0 ∷ 0 ∷ 0 ∷ 4 ∷ [])
unfolding IsSendable to_be_bytes code_of body_of
sync_frame = encode_message-wire_frame v1 sync [] tt (omega arith)

-- A frame that is longer than its message.
extra : decode_message v1 (0x53 ∷ 0 ∷ 0 ∷ 0 ∷ 5 ∷ 9 ∷ []) ≡ err extra_data
unfolding decode_message decode_frame decode_body pure
extra = refl

encode_message-wire_frame_example :
    encode_message sync (1 ∷ 2 ∷ []) ≡ ok (1 ∷ 2 ∷ wire_frame (code_of sync) (body_of sync))
unfolding IsSendable body_of
encode_message-wire_frame_example = encode_message-wire_frame v1 sync (1 ∷ 2 ∷ []) tt (omega arith)

decode_message-encode_message_example :
    (frame : List ℕ) × (encode_message select [] ≡ ok frame) × (decode_message v1 frame ≡ ok select)
unfolding body_of to_be_bytes
decode_message-encode_message_example =
    decode_message-encode_message v1 select select-IsSendable (omega arith)

hello_round_trip :
    (frame : List ℕ) × (encode_message hello [] ≡ ok frame) × (decode_message v1 frame ≡ ok hello)
unfolding body_of to_be_bytes
hello_round_trip = decode_message-encode_message v1 hello hello-IsSendable (omega arith)

select-checked : ¬ (ReadsUnchecked v1 0x50)
select-checked (inl e) = omega arith
select-checked (inr (e, old)) = omega arith

decode_message-ne-panic_example : decode_message v1 (0x50 ∷ 0 ∷ 0 ∷ 0 ∷ 5 ∷ 0xff ∷ []) ≢ panic
decode_message-ne-panic_example =
    decode_message-ne-panic v1 0x50 (0 ∷ 0 ∷ 0 ∷ 5 ∷ 0xff ∷ []) select-checked (omega arith)

abbrev one_header : KeyValues
one_header = (1, 2 ∷ 3 ∷ 4 ∷ 5 ∷ []) ∷ []

decode_message-restore_cut_example :
    decode_message v1 (wire_frame 0x3c (wire_headers one_header ++ (9 ∷ []))) ≡ panic
unfolding to_be_bytes
decode_message-restore_cut_example =
    decode_message-restore_cut v1 one_header (9 ∷ []) (omega arith, omega arith, (tt, tt))
      (omega arith) (omega arith)

decode_message-optimistic_execute_cut_example :
    decode_message v0 (wire_frame 0x4f (wire_headers one_header)) ≡ panic
unfolding to_be_bytes is_1
decode_message-optimistic_execute_cut_example =
    decode_message-optimistic_execute_cut v0 one_header refl (omega arith, omega arith, (tt, tt))
      (omega arith)

-- A Dump without headers.
decode_message-short_example :
    (decode_message v1 (wire_frame 0x3e (0 ∷ 0 ∷ [])) ≡ err underflow)
    × (decode_message v1 (wire_frame 0x45 (0 ∷ 0 ∷ [])) ≡ err underflow)
    × (decode_message v1 (wire_frame 0x44 (0 ∷ 0 ∷ [])) ≡ err underflow)
decode_message-short_example = decode_message-short v1 (0 ∷ 0 ∷ []) (omega arith)

abbrev described : List ℕ → DescribeStatement
described value = record {
  headers = (1, value) ∷ [];
  aspect = data_description;
  statement_name = [];
}

encode_message-describe_headers_example :
    encode_message (describe_statement (described (1 ∷ []))) []
    ≡ encode_message (describe_statement (described (2 ∷ 3 ∷ []))) []
encode_message-describe_headers_example =
    encode_message-describe_headers (described (1 ∷ [])) (described (2 ∷ 3 ∷ [])) [] refl refl refl
