-- ===== src/Server/Wire.antt =====
-- The bytes of each server message behind its frame's length, and the messages that fit the widths
-- of the format.
use edgedb_rust.Base.{◌≢◌, ℕ, ◌<◌, ◌^◌, ◌≡◌, List, ◌++◌, length, All}
use edgedb_rust.Wire.{to_be_bytes}
use edgedb_rust.Wire.Encoder.Writes.{bytes_of_all}
use edgedb_rust.Wire.Encoding.RoundTrip.{
  IsU16, IsU32, IsU64, IsBytes, IsText, IsUuid, IsKeyValues, IsAnnotations, wire_bytes,
  wire_headers, wire_annotations,
}
use edgedb_rust.Wire.Extensions.{IsExtensions, wire_extension}
use edgedb_rust.Protocol.{ProtocolVersion, cardinality_u8}
use edgedb_rust.Server.Types.{
  Authentication, sasl, sasl_continue, sasl_final, ErrorSeverity, MessageSeverity, ReadyForCommand,
  ErrorResponse, LogMessage, ServerHandshake, CommandComplete0, CommandComplete1, PrepareComplete,
  CommandDataDescription0, CommandDataDescription1, DataChunks, RestoreReady,
}
use edgedb_rust.Server.Encode.{transaction_state_u8, error_severity_to_u8, message_severity_to_u8}

abbrev pub wire_server_handshake : ServerHandshake → List ℕ
wire_server_handshake h =
    to_be_bytes 2 h.major_ver
    ++ (to_be_bytes 2 h.minor_ver
        ++ (to_be_bytes 2 (length h.extensions) ++ bytes_of_all wire_extension h.extensions))

abbrev pub wire_error_response : ErrorResponse → List ℕ
wire_error_response r =
    to_be_bytes 1 (error_severity_to_u8 r.severity)
    ++ (to_be_bytes 4 r.code ++ (wire_bytes r.message ++ wire_headers r.attributes))

abbrev pub wire_log_message : LogMessage → List ℕ
wire_log_message r =
    to_be_bytes 1 (message_severity_to_u8 r.severity)
    ++ (to_be_bytes 4 r.code ++ (wire_bytes r.text ++ wire_headers r.attributes))

abbrev pub wire_authentication : Authentication → List ℕ
wire_authentication Authentication.done = to_be_bytes 4 0
wire_authentication (sasl methods) =
    to_be_bytes 4 0x0a ++ (to_be_bytes 4 (length methods) ++ bytes_of_all wire_bytes methods)
wire_authentication (sasl_continue payload) = to_be_bytes 4 0x0b ++ wire_bytes payload
wire_authentication (sasl_final payload) = to_be_bytes 4 0x0c ++ wire_bytes payload

abbrev pub wire_ready_for_command : ReadyForCommand → List ℕ
wire_ready_for_command r =
    wire_headers r.headers ++ to_be_bytes 1 (transaction_state_u8 r.transaction_state)

abbrev pub wire_command_complete0 : CommandComplete0 → List ℕ
wire_command_complete0 c = wire_headers c.headers ++ wire_bytes c.status_data

abbrev pub wire_command_complete1 : CommandComplete1 → List ℕ
wire_command_complete1 c =
    wire_annotations c.annotations
    ++ (to_be_bytes 8 c.capabilities
        ++ (wire_bytes c.status_data ++ (c.state_typedesc_id ++ wire_bytes c.state_data)))

abbrev pub wire_prepare_complete : PrepareComplete → List ℕ
wire_prepare_complete c =
    wire_headers c.headers
    ++ (to_be_bytes 1 (cardinality_u8 c.cardinality)
        ++ (c.input_typedesc_id ++ c.output_typedesc_id))

abbrev pub wire_command_data_description0 : CommandDataDescription0 → List ℕ
wire_command_data_description0 d =
    wire_headers d.headers
    ++ (to_be_bytes 1 (cardinality_u8 d.result_cardinality)
        ++ (d.input_typedesc_id
            ++ (wire_bytes d.input_typedesc
                ++ (d.output_typedesc_id ++ wire_bytes d.output_typedesc))))

abbrev pub wire_command_data_description1 : CommandDataDescription1 → List ℕ
wire_command_data_description1 d =
    wire_annotations d.annotations
    ++ (to_be_bytes 8 d.capabilities
        ++ (to_be_bytes 1 (cardinality_u8 d.result_cardinality)
            ++ (d.input_typedesc_id
                ++ (wire_bytes d.input_typedesc
                    ++ (d.output_typedesc_id ++ wire_bytes d.output_typedesc)))))

abbrev pub wire_data : DataChunks → List ℕ
wire_data d = to_be_bytes 2 (length d.chunks) ++ bytes_of_all wire_bytes d.chunks

abbrev pub wire_restore_ready : RestoreReady → List ℕ
wire_restore_ready r = wire_headers r.headers ++ to_be_bytes 2 r.jobs

-- A severity that one byte stands for: `unknown` is not used for a byte that has a name.
abbrev pub IsErrorSeverity : ErrorSeverity → Type 0
IsErrorSeverity (ErrorSeverity.unknown code) =
    (code < 2 ^ 8) × (code ≢ 120) × (code ≢ 200) × (code ≢ 255)
IsErrorSeverity _ = Unit {0}

abbrev pub IsMessageSeverity : MessageSeverity → Type 0
IsMessageSeverity (MessageSeverity.unknown code) =
    (code < 2 ^ 8) × (code ≢ 20) × (code ≢ 40) × (code ≢ 60) × (code ≢ 80)
IsMessageSeverity _ = Unit {0}

pub record IsServerHandshake (h : ServerHandshake) : Type 0 where
  pub major : IsU16 h.major_ver
  pub minor : IsU16 h.minor_ver
  pub extensions_fit : IsExtensions h.extensions

pub record IsErrorResponse (r : ErrorResponse) : Type 0 where
  pub severity : IsErrorSeverity r.severity
  pub code : IsU32 r.code
  pub message_fits : IsText r.message
  pub attributes_fit : IsKeyValues r.attributes

pub record IsLogMessage (r : LogMessage) : Type 0 where
  pub severity : IsMessageSeverity r.severity
  pub code : IsU32 r.code
  pub text_fits : IsText r.text
  pub attributes_fit : IsKeyValues r.attributes

abbrev pub IsAuthentication : Authentication → Type 0
IsAuthentication Authentication.done = Unit {0}
IsAuthentication (sasl methods) = IsU32 (length methods) × All IsText methods
IsAuthentication (sasl_continue payload) = IsBytes payload
IsAuthentication (sasl_final payload) = IsBytes payload

pub record IsCommandComplete1 (c : CommandComplete1) : Type 0 where
  pub annotations_fit : IsAnnotations c.annotations
  pub capabilities : IsU64 c.capabilities
  pub status_fits : IsBytes c.status_data
  pub state_id : IsUuid c.state_typedesc_id
  pub state_fits : IsBytes c.state_data

pub record IsPrepareComplete (c : PrepareComplete) : Type 0 where
  pub headers_fit : IsKeyValues c.headers
  pub input_id : IsUuid c.input_typedesc_id
  pub output_id : IsUuid c.output_typedesc_id

-- The version is the one at which the message was decoded.
pub record IsCommandDataDescription0 (p : ProtocolVersion) (d : CommandDataDescription0)
    : Type 0 where
  pub version : d.proto ≡ p
  pub headers_fit : IsKeyValues d.headers
  pub input_id : IsUuid d.input_typedesc_id
  pub input_fits : IsBytes d.input_typedesc
  pub output_id : IsUuid d.output_typedesc_id
  pub output_fits : IsBytes d.output_typedesc

pub record IsCommandDataDescription1 (p : ProtocolVersion) (d : CommandDataDescription1)
    : Type 0 where
  pub version : d.proto ≡ p
  pub annotations_fit : IsAnnotations d.annotations
  pub capabilities : IsU64 d.capabilities
  pub input_id : IsUuid d.input_typedesc_id
  pub input_fits : IsBytes d.input_typedesc
  pub output_id : IsUuid d.output_typedesc_id
  pub output_fits : IsBytes d.output_typedesc
