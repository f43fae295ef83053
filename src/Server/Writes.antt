-- ===== src/Server/Writes.antt =====
-- The encoders of server_message.rs and the bytes of Server.Wire.
use edgedb_rust.Base.{◌++◌, length, All}
use edgedb_rust.Wire.{Crates}
use edgedb_rust.Wire.Encoder.Writes.{
  Writes, Writes->>, Writes-for_each, Writes-put_checked, Writes-u8, Writes-u16, Writes-u32,
  Writes-u64, Writes-extend,
}
use edgedb_rust.Wire.Encoding.{encode_string, encode_bytes}
use edgedb_rust.Wire.Encoding.RoundTrip.{
  IsU16, IsBytes, IsText, IsKeyValues, Writes-string, Writes-bytes, Writes-uuid, Writes-headers,
  Writes-annotations, wire_bytes,
}
use edgedb_rust.Wire.Extensions.{IsExtension, encode_extension, wire_extension, Writes-extension}
use edgedb_rust.Server.Types.{
  Authentication, sasl, sasl_continue, sasl_final, ReadyForCommand, ErrorResponse, LogMessage,
  ServerHandshake, ServerKeyData, ParameterStatus, CommandComplete0, CommandComplete1,
  PrepareComplete, CommandDataDescription0, CommandDataDescription1, StateDataDescription,
  DataChunks, RestoreReady, RawPacket,
}
use edgedb_rust.Server.Encode.{
  encode_server_handshake, encode_error_response, encode_log_message, encode_authentication,
  encode_ready_for_command, encode_server_key_data, encode_parameter_status,
  encode_command_complete0, encode_command_complete1, encode_prepare_complete,
  encode_command_data_description0, encode_command_data_description1, encode_state_data_description,
  encode_data, encode_restore_ready, encode_raw_packet,
}
use edgedb_rust.Protocol.{ProtocolVersion}
use edgedb_rust.Server.Wire.{
  IsServerHandshake, IsErrorResponse, IsLogMessage, IsAuthentication, IsCommandComplete1,
  IsPrepareComplete, IsCommandDataDescription0, IsCommandDataDescription1, wire_server_handshake,
  wire_error_response, wire_log_message, wire_authentication, wire_ready_for_command,
  wire_command_complete0, wire_command_complete1, wire_prepare_complete,
  wire_command_data_description0, wire_command_data_description1, wire_data, wire_restore_ready,
}

module _ ⦃C : Crates⦄ where
  pub Writes-server_handshake :
      (h : ServerHandshake)
      → IsServerHandshake h
      → Writes (encode_server_handshake h) (wire_server_handshake h)
  unfolding encode_server_handshake
  Writes-server_handshake h v = Writes->> (Writes-u16 h.major_ver) (
      Writes->> (Writes-u16 h.minor_ver) (
        Writes->> (Writes-put_checked 2 _ _ C.put_u16 _ C.put_u16-PutsBe v.extensions_fit.0) (
          Writes-for_each encode_extension wire_extension IsExtension Writes-extension h.extensions
            v.extensions_fit.1)))

  pub Writes-error_response :
      (r : ErrorResponse)
      → IsErrorResponse r
      → Writes (encode_error_response r) (wire_error_response r)
  unfolding encode_error_response
  Writes-error_response r v = Writes->> (Writes-u8 _) (
      Writes->> (Writes-u32 r.code) (
        Writes->> (Writes-string r.message v.message_fits.0)
          (Writes-headers r.attributes v.attributes_fit)))

  pub Writes-log_message :
      (r : LogMessage) → IsLogMessage r → Writes (encode_log_message r) (wire_log_message r)
  unfolding encode_log_message
  Writes-log_message r v = Writes->> (Writes-u8 _) (
      Writes->> (Writes-u32 r.code) (
        Writes->> (Writes-string r.text v.text_fits.0)
          (Writes-headers r.attributes v.attributes_fit)))

  pub Writes-authentication :
      (a : Authentication)
      → IsAuthentication a
      → Writes (encode_authentication a) (wire_authentication a)
  unfolding encode_authentication
  Writes-authentication Authentication.done v = Writes-u32 0
  Writes-authentication (sasl methods) (few, each) = Writes->> (Writes-u32 0x0a) (
      Writes->> (Writes-put_checked 4 _ _ C.put_u32 _ C.put_u32-PutsBe few)
        (Writes-for_each encode_string wire_bytes IsText (λ s h. Writes-string s h.0) methods each))
  Writes-authentication (sasl_continue payload) v =
      Writes->> (Writes-u32 0x0b) (Writes-bytes payload v)
  Writes-authentication (sasl_final payload) v =
      Writes->> (Writes-u32 0x0c) (Writes-bytes payload v)

  pub Writes-ready_for_command :
      (r : ReadyForCommand)
      → IsKeyValues r.headers
      → Writes (encode_ready_for_command r) (wire_ready_for_command r)
  unfolding encode_ready_for_command
  Writes-ready_for_command r h = Writes->> (Writes-headers r.headers h) (Writes-u8 _)

  pub Writes-server_key_data : (k : ServerKeyData) → Writes (encode_server_key_data k) k.payload
  unfolding encode_server_key_data
  Writes-server_key_data k = Writes-extend k.payload

  pub Writes-parameter_status :
      (s : ParameterStatus)
      → IsBytes s.name
      → IsBytes s.value
      → Writes (encode_parameter_status s) (wire_bytes s.name ++ wire_bytes s.value)
  unfolding encode_parameter_status
  Writes-parameter_status s hn hv = Writes->> (Writes-bytes s.name hn) (Writes-bytes s.value hv)

  pub Writes-command_complete0 :
      (c : CommandComplete0)
      → IsKeyValues c.headers
      → IsBytes c.status_data
      → Writes (encode_command_complete0 c) (wire_command_complete0 c)
  unfolding encode_command_complete0
  Writes-command_complete0 c hh hs =
      Writes->> (Writes-headers c.headers hh) (Writes-bytes c.status_data hs)

  pub Writes-command_complete1 :
      (c : CommandComplete1)
      → IsCommandComplete1 c
      → Writes (encode_command_complete1 c) (wire_command_complete1 c)
  unfolding encode_command_complete1
  Writes-command_complete1 c v = Writes->> (Writes-annotations c.annotations v.annotations_fit) (
      Writes->> (Writes-u64 c.capabilities) (
        Writes->> (Writes-bytes c.status_data v.status_fits)
          (Writes->> (Writes-uuid c.state_typedesc_id) (Writes-bytes c.state_data v.state_fits))))

  pub Writes-prepare_complete :
      (c : PrepareComplete)
      → IsPrepareComplete c
      → Writes (encode_prepare_complete c) (wire_prepare_complete c)
  unfolding encode_prepare_complete
  Writes-prepare_complete c v = Writes->> (Writes-headers c.headers v.headers_fit) (
      Writes->> (Writes-u8 _)
        (Writes->> (Writes-uuid c.input_typedesc_id) (Writes-uuid c.output_typedesc_id)))

  pub Writes-command_data_description0 :
      (p : ProtocolVersion) (d : CommandDataDescription0)
      → IsCommandDataDescription0 p d
      → Writes (encode_command_data_description0 d) (wire_command_data_description0 d)
  unfolding encode_command_data_description0
  Writes-command_data_description0 p d v = Writes->> (Writes-headers d.headers v.headers_fit) (
      Writes->> (Writes-u8 _) (
        Writes->> (Writes-uuid d.input_typedesc_id) (
          Writes->> (Writes-bytes d.input_typedesc v.input_fits) (
            Writes->> (Writes-uuid d.output_typedesc_id)
              (Writes-bytes d.output_typedesc v.output_fits)))))

  pub Writes-command_data_description1 :
      (p : ProtocolVersion) (d : CommandDataDescription1)
      → IsCommandDataDescription1 p d
      → Writes (encode_command_data_description1 d) (wire_command_data_description1 d)
  unfolding encode_command_data_description1
  Writes-command_data_description1 p d v =
      Writes->> (Writes-annotations d.annotations v.annotations_fit) (
        Writes->> (Writes-u64 d.capabilities) (
          Writes->> (Writes-u8 _) (
            Writes->> (Writes-uuid d.input_typedesc_id) (
              Writes->> (Writes-bytes d.input_typedesc v.input_fits) (
                Writes->> (Writes-uuid d.output_typedesc_id)
                  (Writes-bytes d.output_typedesc v.output_fits))))))

  pub Writes-state_data_description :
      (d : StateDataDescription)
      → IsBytes d.typedesc
      → Writes (encode_state_data_description d) (d.typedesc_id ++ wire_bytes d.typedesc)
  unfolding encode_state_data_description
  Writes-state_data_description d h =
      Writes->> (Writes-uuid d.typedesc_id) (Writes-bytes d.typedesc h)

  pub Writes-data :
      (d : DataChunks)
      → IsU16 (length d.chunks)
      → All IsBytes d.chunks
      → Writes (encode_data d) (wire_data d)
  unfolding encode_data
  Writes-data d few each =
      Writes->> (Writes-put_checked 2 _ _ C.put_u16 _ C.put_u16-PutsBe few)
        (Writes-for_each encode_bytes wire_bytes IsBytes Writes-bytes d.chunks each)

  pub Writes-restore_ready :
      (r : RestoreReady)
      → IsKeyValues r.headers
      → Writes (encode_restore_ready r) (wire_restore_ready r)
  unfolding encode_restore_ready
  Writes-restore_ready r h = Writes->> (Writes-headers r.headers h) (Writes-u16 r.jobs)

  pub Writes-raw_packet : (p : RawPacket) → Writes (encode_raw_packet p) p.payload
  unfolding encode_raw_packet
  Writes-raw_packet p = Writes-extend p.payload
