-- ===== src/Server/Types.antt =====
-- edgedb-protocol/src/server_message.rs: the messages that a server sends. A number stands for an
-- unsigned integer of the width that the source names, a `Uuid` is its 16 bytes.
use edgedb_rust.Base.{ℕ, List}
use edgedb_rust.Wire.Encoding.{KeyValues, Annotations}
use edgedb_rust.Wire.Extensions.{Extensions}
use edgedb_rust.Protocol.{ProtocolVersion, Cardinality}

pub data TransactionState : Type 0 where
  not_in_transaction in_transaction in_failed_transaction : TransactionState

pub record ReadyForCommand : Type 0 where
  pub headers : KeyValues
  pub transaction_state : TransactionState

pub data Authentication : Type 0 where
  done : Authentication
  sasl : (methods : List (List ℕ)) → Authentication
  sasl_continue : (payload : List ℕ) → Authentication
  sasl_final : (payload : List ℕ) → Authentication

pub data ErrorSeverity : Type 0 where
  error fatal panic : ErrorSeverity
  unknown : ℕ → ErrorSeverity

pub data MessageSeverity : Type 0 where
  debug info notice warning : MessageSeverity
  unknown : ℕ → MessageSeverity

pub record ErrorResponse : Type 0 where
  pub severity : ErrorSeverity
  pub code : ℕ
  pub message : List ℕ
  pub attributes : KeyValues

pub record LogMessage : Type 0 where
  pub severity : MessageSeverity
  pub code : ℕ
  pub text : List ℕ
  pub attributes : KeyValues

pub record ServerHandshake : Type 0 where
  pub major_ver : ℕ
  pub minor_ver : ℕ
  pub extensions : Extensions

pub record ServerKeyData : Type 0 where
  pub payload : List ℕ

pub record ParameterStatus : Type 0 where
  pub proto : ProtocolVersion
  pub name : List ℕ
  pub value : List ℕ

pub record CommandComplete0 : Type 0 where
  pub headers : KeyValues
  pub status_data : List ℕ

pub record CommandComplete1 : Type 0 where
  pub annotations : Annotations
  pub capabilities : ℕ
  pub status_data : List ℕ
  pub state_typedesc_id : List ℕ
  pub state_data : List ℕ

pub record PrepareComplete : Type 0 where
  pub headers : KeyValues
  pub cardinality : Cardinality
  pub input_typedesc_id : List ℕ
  pub output_typedesc_id : List ℕ

pub record CommandDataDescription0 : Type 0 where
  pub proto : ProtocolVersion
  pub headers : KeyValues
  pub result_cardinality : Cardinality
  pub input_typedesc_id : List ℕ
  pub input_typedesc : List ℕ
  pub output_typedesc_id : List ℕ
  pub output_typedesc : List ℕ

pub record CommandDataDescription1 : Type 0 where
  pub proto : ProtocolVersion
  pub annotations : Annotations
  pub capabilities : ℕ
  pub result_cardinality : Cardinality
  pub input_typedesc_id : List ℕ
  pub input_typedesc : List ℕ
  pub output_typedesc_id : List ℕ
  pub output_typedesc : List ℕ

pub record StateDataDescription : Type 0 where
  pub typedesc_id : List ℕ
  pub typedesc : List ℕ

-- `Data` of the source.
pub record DataChunks : Type 0 where
  pub chunks : List (List ℕ)

pub record RestoreReady : Type 0 where
  pub headers : KeyValues
  pub jobs : ℕ

pub record RawPacket : Type 0 where
  pub payload : List ℕ

pub data ServerMessage : Type 0 where
  server_handshake : ServerHandshake → ServerMessage
  unknown_message : (code : ℕ) → (bytes : List ℕ) → ServerMessage
  log_message : LogMessage → ServerMessage
  error_response : ErrorResponse → ServerMessage
  authentication : Authentication → ServerMessage
  ready_for_command : ReadyForCommand → ServerMessage
  server_key_data : ServerKeyData → ServerMessage
  parameter_status : ParameterStatus → ServerMessage
  command_complete0 : CommandComplete0 → ServerMessage
  command_complete1 : CommandComplete1 → ServerMessage
  prepare_complete : PrepareComplete → ServerMessage
  command_data_description0 : CommandDataDescription0 → ServerMessage
  command_data_description1 : CommandDataDescription1 → ServerMessage
  state_data_description : StateDataDescription → ServerMessage
  data_chunks : DataChunks → ServerMessage
  restore_ready : RestoreReady → ServerMessage
  dump_header : RawPacket → ServerMessage
  dump_block : RawPacket → ServerMessage
