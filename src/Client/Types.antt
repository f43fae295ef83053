-- ===== src/Client/Types.antt =====
-- edgedb-protocol/src/client_message.rs: the messages that a client sends. A number stands for an
-- unsigned integer of the width that the source names, a `Uuid` is its 16 bytes.
use edgedb_rust.Base.{ℕ, List, Option}
use edgedb_rust.Wire.Extensions.{Extensions}
use edgedb_rust.Wire.Encoding.{KeyValues, Annotations}
use edgedb_rust.Protocol.{Cardinality, IoFormat, DescribeAspect}

pub record SaslInitialResponse : Type 0 where
  pub method : List ℕ
  pub payload : List ℕ

pub record SaslResponse : Type 0 where
  pub payload : List ℕ

pub record ClientHandshake : Type 0 where
  pub major_ver : ℕ
  pub minor_ver : ℕ
  pub params : Annotations
  pub extensions : Extensions

pub record ExecuteScript : Type 0 where
  pub headers : KeyValues
  pub script_text : List ℕ

pub record Prepare : Type 0 where
  pub headers : KeyValues
  pub io_format : IoFormat
  pub expected_cardinality : Cardinality
  pub statement_name : List ℕ
  pub command_text : List ℕ

pub record Parse : Type 0 where
  pub annotations : Annotations
  pub allowed_capabilities : ℕ
  pub compilation_flags : ℕ
  pub implicit_limit : Option ℕ
  pub output_format : IoFormat
  pub expected_cardinality : Cardinality
  pub command_text : List ℕ
  pub state_typedesc_id : List ℕ
  pub state_data : List ℕ

pub record DescribeStatement : Type 0 where
  pub headers : KeyValues
  pub aspect : DescribeAspect
  pub statement_name : List ℕ

pub record Execute0 : Type 0 where
  pub headers : KeyValues
  pub statement_name : List ℕ
  pub arguments : List ℕ

pub record Execute1 : Type 0 where
  pub annotations : Annotations
  pub allowed_capabilities : ℕ
  pub compilation_flags : ℕ
  pub implicit_limit : Option ℕ
  pub output_format : IoFormat
  pub expected_cardinality : Cardinality
  pub command_text : List ℕ
  pub state_typedesc_id : List ℕ
  pub state_data : List ℕ
  pub input_typedesc_id : List ℕ
  pub output_typedesc_id : List ℕ
  pub arguments : List ℕ

pub record OptimisticExecute : Type 0 where
  pub headers : KeyValues
  pub io_format : IoFormat
  pub expected_cardinality : Cardinality
  pub command_text : List ℕ
  pub input_typedesc_id : List ℕ
  pub output_typedesc_id : List ℕ
  pub arguments : List ℕ

pub record Dump : Type 0 where
  pub headers : KeyValues

pub record Restore : Type 0 where
  pub headers : KeyValues
  pub jobs : ℕ
  pub payload : List ℕ

pub record RestoreBlock : Type 0 where
  pub payload : List ℕ

pub data ClientMessage : Type 0 where
  client_handshake : ClientHandshake → ClientMessage
  execute_script : ExecuteScript → ClientMessage
  prepare : Prepare → ClientMessage
  parse : Parse → ClientMessage
  describe_statement : DescribeStatement → ClientMessage
  execute0 : Execute0 → ClientMessage
  execute1 : Execute1 → ClientMessage
  optimistic_execute : OptimisticExecute → ClientMessage
  unknown_message : (code : ℕ) → (bytes : List ℕ) → ClientMessage
  sasl_initial_response : SaslInitialResponse → ClientMessage
  sasl_response : SaslResponse → ClientMessage
  dump : Dump → ClientMessage
  restore : Restore → ClientMessage
  restore_block : RestoreBlock → ClientMessage
  restore_eof sync flush terminate : ClientMessage
