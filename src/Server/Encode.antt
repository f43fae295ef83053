-- ===== src/Server/Encode.antt =====
-- edgedb-protocol/src/server_message.rs: the `Encode` of each message and `ServerMessage::encode`.
-- The `debug_assert!`s on the version do nothing in a release build, and are left out.
use edgedb_rust.Base.{ℕ, ◌^◌, length}
use edgedb_rust.Wire.{
  unknown_message_cant_be_encoded, too_many_headers, too_many_extensions, too_many_methods, Crates,
}
use edgedb_rust.Wire.Encoder.{Encoder, put, refuse, put_checked, for_each, ◌>>◌}
use edgedb_rust.Wire.Encoding.{
  encode_string, encode_bytes, encode_uuid, encode_headers, encode_annotations, encode,
}
use edgedb_rust.Wire.Extensions.{encode_extension}
use edgedb_rust.Protocol.{cardinality_u8}
use edgedb_rust.Server.Types.{
  TransactionState, not_in_transaction, in_transaction, in_failed_transaction, ReadyForCommand,
  Authentication, sasl, sasl_continue, sasl_final, ErrorSeverity, MessageSeverity, ErrorResponse,
  LogMessage, ServerHandshake, ServerKeyData, ParameterStatus, CommandComplete0, CommandComplete1,
  PrepareComplete, CommandDataDescription0, CommandDataDescription1, StateDataDescription,
  DataChunks, RestoreReady, RawPacket, ServerMessage, server_handshake, unknown_message,
  log_message, error_response, authentication, ready_for_command, server_key_data, parameter_status,
  command_complete0, command_complete1, prepare_complete, command_data_description0,
  command_data_description1, state_data_description, data_chunks, restore_ready, dump_header,
  dump_block,
}

-- `transaction_state as u8`
unfoldable pub transaction_state_u8 : TransactionState → ℕ
transaction_state_u8 not_in_transaction = 0x49
transaction_state_u8 in_transaction = 0x54
transaction_state_u8 in_failed_transaction = 0x45

unfoldable pub error_severity_to_u8 : ErrorSeverity → ℕ
error_severity_to_u8 ErrorSeverity.error = 120
error_severity_to_u8 ErrorSeverity.fatal = 200
error_severity_to_u8 ErrorSeverity.panic = 255
error_severity_to_u8 (ErrorSeverity.unknown code) = code

unfoldable pub message_severity_to_u8 : MessageSeverity → ℕ
message_severity_to_u8 MessageSeverity.debug = 20
message_severity_to_u8 MessageSeverity.info = 40
message_severity_to_u8 MessageSeverity.notice = 60
message_severity_to_u8 MessageSeverity.warning = 80
message_severity_to_u8 (MessageSeverity.unknown code) = code

module _ ⦃C : Crates⦄ where
  unfoldable pub encode_server_handshake : ServerHandshake → Encoder
  encode_server_handshake h = do
    put (C.put_u16 h.major_ver)
    put (C.put_u16 h.minor_ver)
    put_checked (2 ^ 16) too_many_extensions C.put_u16 (length h.extensions)
    for_each encode_extension h.extensions

  unfoldable pub encode_error_response : ErrorResponse → Encoder
  encode_error_response r = do
    put (C.put_u8 (error_severity_to_u8 r.severity))
    put (C.put_u32 r.code)
    encode_string r.message
    encode_headers r.attributes

  unfoldable pub encode_log_message : LogMessage → Encoder
  encode_log_message r = do
    put (C.put_u8 (message_severity_to_u8 r.severity))
    put (C.put_u32 r.code)
    encode_string r.text
    encode_headers r.attributes

  unfoldable pub encode_authentication : Authentication → Encoder
  encode_authentication Authentication.done = put (C.put_u32 0)
  encode_authentication (sasl methods) = do
    put (C.put_u32 0x0a)
    put_checked (2 ^ 32) too_many_methods C.put_u32 (length methods)
    for_each encode_string methods
  encode_authentication (sasl_continue payload) = do put (C.put_u32 0x0b); encode_bytes payload
  encode_authentication (sasl_final payload) = do put (C.put_u32 0x0c); encode_bytes payload

  unfoldable pub encode_ready_for_command : ReadyForCommand → Encoder
  encode_ready_for_command r = do
    encode_headers r.headers
    put (C.put_u8 (transaction_state_u8 r.transaction_state))

  unfoldable pub encode_server_key_data : ServerKeyData → Encoder
  encode_server_key_data k = put (C.extend k.payload)

  unfoldable pub encode_parameter_status : ParameterStatus → Encoder
  encode_parameter_status s = do encode_bytes s.name; encode_bytes s.value

  unfoldable pub encode_command_complete0 : CommandComplete0 → Encoder
  encode_command_complete0 c = do encode_headers c.headers; encode_bytes c.status_data

  unfoldable pub encode_command_complete1 : CommandComplete1 → Encoder
  encode_command_complete1 c = do
    encode_annotations c.annotations
    put (C.put_u64 c.capabilities)
    encode_bytes c.status_data
    encode_uuid c.state_typedesc_id
    encode_bytes c.state_data

  unfoldable pub encode_prepare_complete : PrepareComplete → Encoder
  encode_prepare_complete c = do
    encode_headers c.headers
    put (C.put_u8 (cardinality_u8 c.cardinality))
    encode_uuid c.input_typedesc_id
    encode_uuid c.output_typedesc_id

  unfoldable pub encode_command_data_description0 : CommandDataDescription0 → Encoder
  encode_command_data_description0 d = do
    encode_headers d.headers
    put (C.put_u8 (cardinality_u8 d.result_cardinality))
    encode_uuid d.input_typedesc_id
    encode_bytes d.input_typedesc
    encode_uuid d.output_typedesc_id
    encode_bytes d.output_typedesc

  unfoldable pub encode_command_data_description1 : CommandDataDescription1 → Encoder
  encode_command_data_description1 d = do
    encode_annotations d.annotations
    put (C.put_u64 d.capabilities)
    put (C.put_u8 (cardinality_u8 d.result_cardinality))
    encode_uuid d.input_typedesc_id
    encode_bytes d.input_typedesc
    encode_uuid d.output_typedesc_id
    encode_bytes d.output_typedesc

  unfoldable pub encode_state_data_description : StateDataDescription → Encoder
  encode_state_data_description d = do encode_uuid d.typedesc_id; encode_bytes d.typedesc

  unfoldable pub encode_data : DataChunks → Encoder
  encode_data d = do
    put_checked (2 ^ 16) too_many_headers C.put_u16 (length d.chunks)
    for_each encode_bytes d.chunks

  unfoldable pub encode_restore_ready : RestoreReady → Encoder
  encode_restore_ready r = do encode_headers r.headers; put (C.put_u16 r.jobs)

  unfoldable pub encode_raw_packet : RawPacket → Encoder
  encode_raw_packet p = put (C.extend p.payload)

  -- `ServerMessage::encode`
  unfoldable pub encode_server_message : ServerMessage → Encoder
  encode_server_message (server_handshake h) = encode 0x76 (encode_server_handshake h)
  encode_server_message (error_response h) = encode 0x45 (encode_error_response h)
  encode_server_message (log_message h) = encode 0x4c (encode_log_message h)
  encode_server_message (authentication h) = encode 0x52 (encode_authentication h)
  encode_server_message (ready_for_command h) = encode 0x5a (encode_ready_for_command h)
  encode_server_message (server_key_data h) = encode 0x4b (encode_server_key_data h)
  encode_server_message (parameter_status h) = encode 0x53 (encode_parameter_status h)
  encode_server_message (command_complete0 h) = encode 0x43 (encode_command_complete0 h)
  encode_server_message (command_complete1 h) = encode 0x43 (encode_command_complete1 h)
  encode_server_message (prepare_complete h) = encode 0x31 (encode_prepare_complete h)
  encode_server_message (command_data_description0 h) =
      encode 0x54 (encode_command_data_description0 h)
  encode_server_message (command_data_description1 h) =
      encode 0x54 (encode_command_data_description1 h)
  encode_server_message (state_data_description h) = encode 0x73 (encode_state_data_description h)
  encode_server_message (data_chunks h) = encode 0x44 (encode_data h)
  encode_server_message (restore_ready h) = encode 0x2b (encode_restore_ready h)
  encode_server_message (dump_header h) = encode 0x40 (encode_raw_packet h)
  encode_server_message (dump_block h) = encode 0x3d (encode_raw_packet h)
  encode_server_message (unknown_message _ _) = refuse unknown_message_cant_be_encoded
