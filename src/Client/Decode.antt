-- ===== src/Client/Decode.antt =====
-- edgedb-protocol/src/client_message.rs: the `Decode` of each message and `ClientMessage::decode`.
use edgedb_rust.Base.{ℕ, [], Option, none, some, if◌then◌else◌}
use edgedb_rust.Base.HashMap.{insert, list_eq, nat_eq, ◌==◌}
use edgedb_rust.Wire.Extensions.{Extensions}
use edgedb_rust.Wire.{Crates}
use edgedb_rust.Wire.Decoder.{
  Decoder, pure, take_or_panic, lift, ensure_remaining, copy_remaining, repeat, ◌>>=◌, ◌>>◌,
}
use edgedb_rust.Wire.Encoding.{
  decode_string, decode_bytes, decode_uuid, decode_headers, decode_param, decode_annotation,
}
use edgedb_rust.Protocol.{
  try_from_u8, io_format_from_u8, aspect_from_u8, decode_capabilities, decode_compilation_flags,
}
use edgedb_rust.Client.Types.{
  ClientHandshake, SaslInitialResponse, SaslResponse, ExecuteScript, Prepare, DescribeStatement,
  Execute0, Execute1, OptimisticExecute, Dump, Restore, RestoreBlock, Parse,
}

-- `match buf.get_u64() { 0 => None, val => Some(val) }`
unfoldable pub limit_of : ℕ → Option ℕ
limit_of val = if val == 0 then none else some val

module _ ⦃C : Crates⦄ where
  unfoldable pub decode_extension : Extensions → Decoder Extensions
  decode_extension extensions = do
    name ← decode_string
    ensure_remaining 2
    num_headers ← take_or_panic C.get_u16
    headers ← decode_headers num_headers
    pure (insert name headers extensions)

  unfoldable pub decode_client_handshake : Decoder ClientHandshake
  decode_client_handshake = do
    ensure_remaining 8
    major_ver ← take_or_panic C.get_u16
    minor_ver ← take_or_panic C.get_u16
    num_params ← take_or_panic C.get_u16
    params ← repeat num_params decode_param []
    ensure_remaining 2
    num_ext ← take_or_panic C.get_u16
    extensions ← repeat num_ext decode_extension []
    pure (record {
      major_ver = major_ver;
      minor_ver = minor_ver;
      params = params;
      extensions = extensions;
    })

  unfoldable pub decode_sasl_initial_response : Decoder SaslInitialResponse
  decode_sasl_initial_response = do
    method ← decode_string
    payload ← decode_bytes
    pure (record { method = method; payload = payload })

  unfoldable pub decode_sasl_response : Decoder SaslResponse
  decode_sasl_response = do payload ← decode_bytes; pure (record { payload = payload })

  unfoldable pub decode_execute_script : Decoder ExecuteScript
  decode_execute_script = do
    ensure_remaining 6
    num_headers ← take_or_panic C.get_u16
    headers ← decode_headers num_headers
    script_text ← decode_string
    pure (record { script_text = script_text; headers = headers })

  unfoldable pub decode_prepare : Decoder Prepare
  decode_prepare = do
    ensure_remaining 12
    num_headers ← take_or_panic C.get_u16
    headers ← decode_headers num_headers
    ensure_remaining 8
    format ← take_or_panic C.get_u8
    io_format ← lift (io_format_from_u8 format)
    cardinality ← take_or_panic C.get_u8
    expected_cardinality ← lift (try_from_u8 cardinality)
    statement_name ← decode_bytes
    command_text ← decode_string
    pure (record {
      headers = headers;
      io_format = io_format;
      expected_cardinality = expected_cardinality;
      statement_name = statement_name;
      command_text = command_text;
    })

  unfoldable pub decode_describe_statement : Decoder DescribeStatement
  decode_describe_statement = do
    ensure_remaining 12
    num_headers ← take_or_panic C.get_u16
    headers ← decode_headers num_headers
    ensure_remaining 8
    c ← take_or_panic C.get_u8
    aspect ← lift (aspect_from_u8 c)
    statement_name ← decode_bytes
    pure (record { headers = headers; aspect = aspect; statement_name = statement_name })

  unfoldable pub decode_execute0 : Decoder Execute0
  decode_execute0 = do
    ensure_remaining 12
    num_headers ← take_or_panic C.get_u16
    headers ← decode_headers num_headers
    statement_name ← decode_bytes
    arguments ← decode_bytes
    pure (record { headers = headers; statement_name = statement_name; arguments = arguments })

  unfoldable pub decode_optimistic_execute : Decoder OptimisticExecute
  decode_optimistic_execute = do
    ensure_remaining 12
    num_headers ← take_or_panic C.get_u16
    headers ← decode_headers num_headers
    format ← take_or_panic C.get_u8
    io_format ← lift (io_format_from_u8 format)
    cardinality ← take_or_panic C.get_u8
    expected_cardinality ← lift (try_from_u8 cardinality)
    command_text ← decode_string
    input_typedesc_id ← decode_uuid
    output_typedesc_id ← decode_uuid
    arguments ← decode_bytes
    pure (record {
      headers = headers;
      io_format = io_format;
      expected_cardinality = expected_cardinality;
      command_text = command_text;
      input_typedesc_id = input_typedesc_id;
      output_typedesc_id = output_typedesc_id;
      arguments = arguments;
    })

  unfoldable pub decode_execute1 : Decoder Execute1
  decode_execute1 = do
    ensure_remaining 88
    num_annotations ← take_or_panic C.get_u16
    annotations ← repeat num_annotations (decode_annotation 4) []
    ensure_remaining 86
    capabilities ← take_or_panic C.get_u64
    allowed_capabilities ← lift (decode_capabilities capabilities)
    flags ← take_or_panic C.get_u64
    compilation_flags ← lift (decode_compilation_flags flags)
    limit ← take_or_panic C.get_u64
    format ← take_or_panic C.get_u8
    output_format ← lift (io_format_from_u8 format)
    cardinality ← take_or_panic C.get_u8
    expected_cardinality ← lift (try_from_u8 cardinality)
    command_text ← decode_string
    state_typedesc_id ← decode_uuid
    state_data ← decode_bytes
    input_typedesc_id ← decode_uuid
    output_typedesc_id ← decode_uuid
    arguments ← decode_bytes
    pure (record {
      annotations = annotations;
      allowed_capabilities = allowed_capabilities;
      compilation_flags = compilation_flags;
      implicit_limit = limit_of limit;
      output_format = output_format;
      expected_cardinality = expected_cardinality;
      command_text = command_text;
      state_typedesc_id = state_typedesc_id;
      state_data = state_data;
      input_typedesc_id = input_typedesc_id;
      output_typedesc_id = output_typedesc_id;
      arguments = arguments;
    })

  unfoldable pub decode_dump : Decoder Dump
  decode_dump = do
    ensure_remaining 12
    num_headers ← take_or_panic C.get_u16
    headers ← decode_headers num_headers
    pure (record { headers = headers })

  unfoldable pub decode_restore : Decoder Restore
  decode_restore = do
    ensure_remaining 4
    num_headers ← take_or_panic C.get_u16
    headers ← decode_headers num_headers
    jobs ← take_or_panic C.get_u16
    payload ← copy_remaining
    pure (record { jobs = jobs; headers = headers; payload = payload })

  unfoldable pub decode_restore_block : Decoder RestoreBlock
  decode_restore_block = do payload ← copy_remaining; pure (record { payload = payload })

  unfoldable pub decode_parse : Decoder Parse
  decode_parse = do
    ensure_remaining 52
    num_headers ← take_or_panic C.get_u16
    annotations ← repeat num_headers (decode_annotation 8) []
    ensure_remaining 50
    capabilities ← take_or_panic C.get_u64
    allowed_capabilities ← lift (decode_capabilities capabilities)
    flags ← take_or_panic C.get_u64
    compilation_flags ← lift (decode_compilation_flags flags)
    limit ← take_or_panic C.get_u64
    format ← take_or_panic C.get_u8
    output_format ← lift (io_format_from_u8 format)
    cardinality ← take_or_panic C.get_u8
    expected_cardinality ← lift (try_from_u8 cardinality)
    command_text ← decode_string
    state_typedesc_id ← decode_uuid
    state_data ← decode_bytes
    pure (record {
      annotations = annotations;
      allowed_capabilities = allowed_capabilities;
      compilation_flags = compilation_flags;
      implicit_limit = limit_of limit;
      output_format = output_format;
      expected_cardinality = expected_cardinality;
      command_text = command_text;
      state_typedesc_id = state_typedesc_id;
      state_data = state_data;
    })
