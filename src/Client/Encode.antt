-- ===== src/Client/Encode.antt =====
-- edgedb-protocol/src/client_message.rs: the `Encode` of each message and `ClientMessage::encode`.
-- The `debug_assert!`s on the version do nothing in a release build, and are left out.
use edgedb_rust.Base.{◌^◌, length}
use mathlib.Core.Option.{get_or}
use edgedb_rust.Wire.Extensions.{encode_extension}
use edgedb_rust.Wire.{
  unknown_message_cant_be_encoded, too_many_headers, too_many_params, too_many_extensions, Crates,
}
use edgedb_rust.Wire.Encoder.{Encoder, put, done, refuse, put_checked, for_each, ◌>>◌}
use edgedb_rust.Wire.Encoding.{
  encode_string, encode_bytes, encode_uuid, encode_headers, encode_annotation, encode_annotations,
  encode,
}
use edgedb_rust.Protocol.{cardinality_u8, io_format_u8, aspect_u8}
use edgedb_rust.Client.Types.{
  ClientHandshake, SaslInitialResponse, SaslResponse, ExecuteScript, Prepare, DescribeStatement,
  Execute0, Execute1, OptimisticExecute, Dump, Restore, RestoreBlock, Parse, ClientMessage,
  client_handshake, execute_script, prepare, parse, describe_statement, execute0, execute1,
  optimistic_execute, unknown_message, sasl_initial_response, sasl_response, dump, restore,
  restore_block, restore_eof, sync, flush, terminate,
}

module _ ⦃C : Crates⦄ where
  unfoldable pub encode_client_handshake : ClientHandshake → Encoder
  encode_client_handshake h = do
    put (C.put_u16 h.major_ver)
    put (C.put_u16 h.minor_ver)
    put_checked (2 ^ 16) too_many_params C.put_u16 (length h.params)
    for_each encode_annotation h.params
    put_checked (2 ^ 16) too_many_extensions C.put_u16 (length h.extensions)
    for_each encode_extension h.extensions

  unfoldable pub encode_sasl_initial_response : SaslInitialResponse → Encoder
  encode_sasl_initial_response r = do encode_string r.method; encode_bytes r.payload

  unfoldable pub encode_sasl_response : SaslResponse → Encoder
  encode_sasl_response r = encode_bytes r.payload

  unfoldable pub encode_execute_script : ExecuteScript → Encoder
  encode_execute_script s = do encode_headers s.headers; encode_string s.script_text

  unfoldable pub encode_prepare : Prepare → Encoder
  encode_prepare p = do
    encode_headers p.headers
    put (C.put_u8 (io_format_u8 p.io_format))
    put (C.put_u8 (cardinality_u8 p.expected_cardinality))
    encode_bytes p.statement_name
    encode_string p.command_text

  -- Only the count of the headers is written.
  unfoldable pub encode_describe_statement : DescribeStatement → Encoder
  encode_describe_statement d = do
    put_checked (2 ^ 16) too_many_headers C.put_u16 (length d.headers)
    put (C.put_u8 (aspect_u8 d.aspect))
    encode_bytes d.statement_name

  unfoldable pub encode_execute0 : Execute0 → Encoder
  encode_execute0 e = do
    encode_headers e.headers
    encode_bytes e.statement_name
    encode_bytes e.arguments

  unfoldable pub encode_optimistic_execute : OptimisticExecute → Encoder
  encode_optimistic_execute e = do
    encode_headers e.headers
    put (C.put_u8 (io_format_u8 e.io_format))
    put (C.put_u8 (cardinality_u8 e.expected_cardinality))
    encode_string e.command_text
    encode_uuid e.input_typedesc_id
    encode_uuid e.output_typedesc_id
    encode_bytes e.arguments

  unfoldable pub encode_execute1 : Execute1 → Encoder
  encode_execute1 e = do
    encode_annotations e.annotations
    put (C.put_u64 e.allowed_capabilities)
    put (C.put_u64 e.compilation_flags)
    put (C.put_u64 (get_or e.implicit_limit 0))
    put (C.put_u8 (io_format_u8 e.output_format))
    put (C.put_u8 (cardinality_u8 e.expected_cardinality))
    encode_string e.command_text
    encode_uuid e.state_typedesc_id
    encode_bytes e.state_data
    encode_uuid e.input_typedesc_id
    encode_uuid e.output_typedesc_id
    encode_bytes e.arguments

  unfoldable pub encode_dump : Dump → Encoder
  encode_dump d = encode_headers d.headers

  unfoldable pub encode_restore : Restore → Encoder
  encode_restore r = do encode_headers r.headers; put (C.put_u16 r.jobs); put (C.extend r.payload)

  unfoldable pub encode_restore_block : RestoreBlock → Encoder
  encode_restore_block b = put (C.extend b.payload)

  unfoldable pub encode_parse : Parse → Encoder
  encode_parse p = do
    encode_annotations p.annotations
    put (C.put_u64 p.allowed_capabilities)
    put (C.put_u64 p.compilation_flags)
    put (C.put_u64 (get_or p.implicit_limit 0))
    put (C.put_u8 (io_format_u8 p.output_format))
    put (C.put_u8 (cardinality_u8 p.expected_cardinality))
    encode_string p.command_text
    encode_uuid p.state_typedesc_id
    encode_bytes p.state_data

  -- `ClientMessage::encode`
  unfoldable pub encode_message : ClientMessage → Encoder
  encode_message (client_handshake h) = encode 0x56 (encode_client_handshake h)
  encode_message (sasl_initial_response h) = encode 0x70 (encode_sasl_initial_response h)
  encode_message (sasl_response h) = encode 0x72 (encode_sasl_response h)
  encode_message (execute_script h) = encode 0x51 (encode_execute_script h)
  encode_message (prepare h) = encode 0x50 (encode_prepare h)
  encode_message (parse h) = encode 0x50 (encode_parse h)
  encode_message (describe_statement h) = encode 0x44 (encode_describe_statement h)
  encode_message (execute0 h) = encode 0x45 (encode_execute0 h)
  encode_message (optimistic_execute h) = encode 0x4f (encode_optimistic_execute h)
  encode_message (execute1 h) = encode 0x4f (encode_execute1 h)
  encode_message (dump h) = encode 0x3e (encode_dump h)
  encode_message (restore h) = encode 0x3c (encode_restore h)
  encode_message (restore_block h) = encode 0x3d (encode_restore_block h)
  encode_message restore_eof = encode 0x2e done
  encode_message sync = encode 0x53 done
  encode_message flush = encode 0x48 done
  encode_message terminate = encode 0x58 done
  encode_message (unknown_message _ _) = refuse unknown_message_cant_be_encoded
