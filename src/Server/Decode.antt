-- ===== src/Server/Decode.antt =====
-- edgedb-protocol/src/server_message.rs: the `Decode` of each message.
use edgedb_rust.Base.{ℕ, [], Result, ok, err, if◌then◌else◌}
use edgedb_rust.Base.HashMap.{insert, list_eq, nat_eq, ◌==◌}
use edgedb_rust.Wire.{DecodeError, auth_status_invalid, invalid_transaction_state, Crates}
use edgedb_rust.Wire.Decoder.{
  Decoder, pure, fail, take_or_panic, lift, ensure_remaining, copy_remaining, repeat, push_decoded,
  ◌>>=◌, ◌>>◌,
}
use edgedb_rust.Wire.Encoding.{
  KeyValues, decode_string, decode_bytes, decode_uuid, decode_headers, decode_param,
  decode_annotation,
}
use edgedb_rust.Wire.Extensions.{Extensions}
use edgedb_rust.Protocol.{ProtocolVersion, try_from_u8}
use edgedb_rust.Server.Types.{
  TransactionState, not_in_transaction, in_transaction, in_failed_transaction, ReadyForCommand,
  Authentication, sasl, sasl_continue, sasl_final, ErrorSeverity, MessageSeverity, ErrorResponse,
  LogMessage, ServerHandshake, ServerKeyData, ParameterStatus, CommandComplete0, CommandComplete1,
  PrepareComplete, CommandDataDescription0, CommandDataDescription1, StateDataDescription,
  DataChunks, RestoreReady, RawPacket,
}

unfoldable pub transaction_state_from_u8 : ℕ → Result DecodeError TransactionState
transaction_state_from_u8 s =
    if s == 0x49
    then ok not_in_transaction
    else if s == 0x54
    then ok in_transaction
    else if s == 0x45
    then ok in_failed_transaction
    else err (invalid_transaction_state s)

unfoldable pub error_severity_from_u8 : ℕ → ErrorSeverity
error_severity_from_u8 code =
    if code == 120
    then ErrorSeverity.error
    else if code == 200
    then ErrorSeverity.fatal
    else if code == 255
    then ErrorSeverity.panic
    else ErrorSeverity.unknown code

unfoldable pub message_severity_from_u8 : ℕ → MessageSeverity
message_severity_from_u8 code =
    if code == 20
    then MessageSeverity.debug
    else if code == 40
    then MessageSeverity.info
    else if code == 60
    then MessageSeverity.notice
    else if code == 80
    then MessageSeverity.warning
    else MessageSeverity.unknown code

module _ ⦃C : Crates⦄ where
  -- `headers.insert(buf.get_u16(), Bytes::decode(buf)?)` with no check before it.
  unfoldable pub decode_header_unchecked : KeyValues → Decoder KeyValues
  decode_header_unchecked headers = do
    name ← take_or_panic C.get_u16
    value ← decode_bytes
    pure (insert name value headers)

  unfoldable pub decode_extension : Extensions → Decoder Extensions
  decode_extension extensions = do
    name ← decode_string
    ensure_remaining 2
    num_headers ← take_or_panic C.get_u16
    headers ← repeat num_headers decode_header_unchecked []
    pure (insert name headers extensions)

  unfoldable pub decode_server_handshake : Decoder ServerHandshake
  decode_server_handshake = do
    ensure_remaining 6
    major_ver ← take_or_panic C.get_u16
    minor_ver ← take_or_panic C.get_u16
    num_ext ← take_or_panic C.get_u16
    extensions ← repeat num_ext decode_extension []
    pure (record { major_ver = major_ver; minor_ver = minor_ver; extensions = extensions })

  unfoldable pub decode_error_response : Decoder ErrorResponse
  decode_error_response = do
    ensure_remaining 11
    severity ← take_or_panic C.get_u8
    code ← take_or_panic C.get_u32
    message ← decode_string
    ensure_remaining 2
    num_attributes ← take_or_panic C.get_u16
    attributes ← decode_headers num_attributes
    pure (record {
      severity = error_severity_from_u8 severity;
      code = code;
      message = message;
      attributes = attributes;
    })

  unfoldable pub decode_log_message : Decoder LogMessage
  decode_log_message = do
    ensure_remaining 11
    severity ← take_or_panic C.get_u8
    code ← take_or_panic C.get_u32
    text ← decode_string
    ensure_remaining 2
    num_attributes ← take_or_panic C.get_u16
    attributes ← decode_headers num_attributes
    pure (record {
      severity = message_severity_from_u8 severity;
      code = code;
      text = text;
      attributes = attributes;
    })

  unfoldable pub decode_sasl : Decoder Authentication
  decode_sasl = do
    ensure_remaining 4
    num_methods ← take_or_panic C.get_u32
    methods ← repeat num_methods (push_decoded decode_string) []
    pure (sasl methods)

  unfoldable pub authentication_body : (auth_status : ℕ) → Decoder Authentication
  unfolding decode_sasl
  authentication_body c =
      if c == 0
      then pure Authentication.done
      else if c == 0x0a
      then decode_sasl
      else if c == 0x0b
      then (decode_bytes >>= λ payload. pure (sasl_continue payload))
      else if c == 0x0c
      then (decode_bytes >>= λ payload. pure (sasl_final payload))
      else fail (auth_status_invalid c)

  unfoldable pub decode_authentication : Decoder Authentication
  decode_authentication = do ensure_remaining 4; c ← take_or_panic C.get_u32; authentication_body c

  unfoldable pub decode_ready_for_command : Decoder ReadyForCommand
  decode_ready_for_command = do
    ensure_remaining 3
    num_headers ← take_or_panic C.get_u16
    headers ← decode_headers num_headers
    ensure_remaining 1
    s ← take_or_panic C.get_u8
    transaction_state ← lift (transaction_state_from_u8 s)
    pure (record { headers = headers; transaction_state = transaction_state })

  unfoldable pub decode_server_key_data : Decoder ServerKeyData
  decode_server_key_data = do
    ensure_remaining 32
    payload ← take_or_panic (C.copy_to_slice 32)
    pure (record { payload = payload })

  unfoldable pub decode_parameter_status : ProtocolVersion → Decoder ParameterStatus
  decode_parameter_status proto = do
    name ← decode_bytes
    value ← decode_bytes
    pure (record { proto = proto; name = name; value = value })

  unfoldable pub decode_command_complete0 : Decoder CommandComplete0
  decode_command_complete0 = do
    ensure_remaining 6
    num_headers ← take_or_panic C.get_u16
    headers ← decode_headers num_headers
    status_data ← decode_bytes
    pure (record { status_data = status_data; headers = headers })

  unfoldable pub decode_command_complete1 : Decoder CommandComplete1
  decode_command_complete1 = do
    ensure_remaining 26
    num_annotations ← take_or_panic C.get_u16
    annotations ← repeat num_annotations decode_param []
    capabilities ← take_or_panic C.get_u64
    status_data ← decode_bytes
    state_typedesc_id ← decode_uuid
    state_data ← decode_bytes
    pure (record {
      annotations = annotations;
      capabilities = C.from_bits_unchecked capabilities;
      status_data = status_data;
      state_typedesc_id = state_typedesc_id;
      state_data = state_data;
    })

  unfoldable pub decode_prepare_complete : Decoder PrepareComplete
  decode_prepare_complete = do
    ensure_remaining 35
    num_headers ← take_or_panic C.get_u16
    headers ← decode_headers num_headers
    ensure_remaining 33
    c ← take_or_panic C.get_u8
    cardinality ← lift (try_from_u8 c)
    input_typedesc_id ← decode_uuid
    output_typedesc_id ← decode_uuid
    pure (record {
      headers = headers;
      cardinality = cardinality;
      input_typedesc_id = input_typedesc_id;
      output_typedesc_id = output_typedesc_id;
    })

  unfoldable pub decode_command_data_description0 :
      ProtocolVersion → Decoder CommandDataDescription0
  decode_command_data_description0 proto = do
    ensure_remaining 43
    num_headers ← take_or_panic C.get_u16
    headers ← decode_headers num_headers
    ensure_remaining 41
    c ← take_or_panic C.get_u8
    result_cardinality ← lift (try_from_u8 c)
    input_typedesc_id ← decode_uuid
    input_typedesc ← decode_bytes
    output_typedesc_id ← decode_uuid
    output_typedesc ← decode_bytes
    pure (record {
      proto = proto;
      headers = headers;
      result_cardinality = result_cardinality;
      input_typedesc_id = input_typedesc_id;
      input_typedesc = input_typedesc;
      output_typedesc_id = output_typedesc_id;
      output_typedesc = output_typedesc;
    })

  unfoldable pub decode_command_data_description1 :
      ProtocolVersion → Decoder CommandDataDescription1
  decode_command_data_description1 proto = do
    ensure_remaining 51
    num_annotations ← take_or_panic C.get_u16
    annotations ← repeat num_annotations (decode_annotation 4) []
    ensure_remaining 49
    capabilities ← take_or_panic C.get_u64
    c ← take_or_panic C.get_u8
    result_cardinality ← lift (try_from_u8 c)
    input_typedesc_id ← decode_uuid
    input_typedesc ← decode_bytes
    output_typedesc_id ← decode_uuid
    output_typedesc ← decode_bytes
    pure (record {
      proto = proto;
      annotations = annotations;
      capabilities = C.from_bits_unchecked capabilities;
      result_cardinality = result_cardinality;
      input_typedesc_id = input_typedesc_id;
      input_typedesc = input_typedesc;
      output_typedesc_id = output_typedesc_id;
      output_typedesc = output_typedesc;
    })

  unfoldable pub decode_state_data_description : Decoder StateDataDescription
  decode_state_data_description = do
    typedesc_id ← decode_uuid
    typedesc ← decode_bytes
    pure (record { typedesc_id = typedesc_id; typedesc = typedesc })

  unfoldable pub decode_data : Decoder DataChunks
  decode_data = do
    ensure_remaining 2
    num_chunks ← take_or_panic C.get_u16
    chunks ← repeat num_chunks (push_decoded decode_bytes) []
    pure (record { chunks = chunks })

  unfoldable pub decode_restore_ready : Decoder RestoreReady
  decode_restore_ready = do
    ensure_remaining 4
    num_headers ← take_or_panic C.get_u16
    headers ← decode_headers num_headers
    ensure_remaining 2
    jobs ← take_or_panic C.get_u16
    pure (record { jobs = jobs; headers = headers })

  unfoldable pub decode_raw_packet : Decoder RawPacket
  decode_raw_packet = do payload ← copy_remaining; pure (record { payload = payload })
