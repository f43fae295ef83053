-- ===== src/Server/Typedescs.antt =====
-- edgedb-protocol/src/server_message.rs: the methods that read the type descriptions in a message.
use edgedb_rust.Base.{ℕ, List, Option, none, some, Result, ok, err, panic, map_ok, arith}
use edgedb_rust.Wire.{DecodeError, Crates}
use edgedb_rust.Wire.Decoder.{Decoder, pure, ◌>>=◌}
use edgedb_rust.Wire.Decoder.Safe.{Safe, Leaves, Safe-pure, Safe->>=}
use edgedb_rust.Wire.Encoding.Safety.{Safe-bytes, Safe-uuid}
use edgedb_rust.Wire.Encoding.{decode_bytes, decode_uuid}
use edgedb_rust.Protocol.{ProtocolVersion}
use edgedb_rust.Descriptors.Typedesc.{OutputTypedesc, InputTypedesc, decode_with_id, decode_input}
use edgedb_rust.Descriptors.Termination.{Returns, decode_with_root-Returns}
use edgedb_rust.Server.Types.{
  CommandDataDescription0, CommandDataDescription1, StateDataDescription, ParameterStatus,
}

module _ ⦃C : Crates⦄ where
  -- `CommandDataDescription0::output` and `input`, and those of `CommandDataDescription1`.
  unfoldable pub output0 : CommandDataDescription0 → Option (Result DecodeError OutputTypedesc)
  output0 d = decode_with_id d.output_typedesc_id d.proto d.output_typedesc

  unfoldable pub input0 : CommandDataDescription0 → Option (Result DecodeError InputTypedesc)
  input0 d = decode_input d.input_typedesc_id d.proto d.input_typedesc

  unfoldable pub output1 : CommandDataDescription1 → Option (Result DecodeError OutputTypedesc)
  output1 d = decode_with_id d.output_typedesc_id d.proto d.output_typedesc

  unfoldable pub input1 : CommandDataDescription1 → Option (Result DecodeError InputTypedesc)
  input1 d = decode_input d.input_typedesc_id d.proto d.input_typedesc

  -- `StateDataDescription::parse`
  unfoldable pub parse_state :
      StateDataDescription → ProtocolVersion → Option (Result DecodeError OutputTypedesc)
  parse_state d proto = decode_with_id d.typedesc_id proto d.typedesc

  -- `Bytes::decode` twice: the two byte strings in the value of a status.
  unfoldable pub decode_pair : Decoder (List ℕ × List ℕ)
  decode_pair =
      decode_bytes >>= λ typedesc_data. decode_bytes >>= λ config. pure (typedesc_data, config)

  with_config :
      List ℕ
      → Option (Result DecodeError OutputTypedesc)
      → Option (Result DecodeError (OutputTypedesc × List ℕ))
  with_config config none = none
  with_config config (some r) = some (map_ok (λ typedesc. (typedesc, config)) r)

  -- `ParameterStatus::parse_system_config`
  unfoldable pub parse_system_config :
      ParameterStatus → Option (Result DecodeError (OutputTypedesc × List ℕ))
  unfolding decode_pair with_config
  parse_system_config s = elim (decode_pair s.value) [
    | err e ↦ some (err e)
    | panic ↦ some panic
    | ok ((typedesc_data, config), rest) ↦ elim (decode_uuid typedesc_data) [
      | err e ↦ some (err e)
      | panic ↦ some panic
      | ok (typedesc_id, typedesc_buf) ↦
          with_config config (decode_with_id typedesc_id s.proto typedesc_buf)
    ]
  ]

  with_config-Returns :
      (config : List ℕ) (o : Option (Result DecodeError OutputTypedesc))
      → Returns o
      → Returns (with_config config o)
  unfolding with_config
  with_config-Returns config none h = h
  with_config-Returns config (some (err e)) h = tt
  with_config-Returns config (some panic) h = h
  with_config-Returns config (some (ok typedesc)) h = tt

  Safe-pair : Safe 0 0 decode_pair
  unfolding decode_pair
  Safe-pair = Safe->>= _ Safe-bytes λ first. Safe->>= _ Safe-bytes λ second. Safe-pure 0 _

  identified-Returns :
      (s : ParameterStatus) (config : List ℕ) (r : Result DecodeError (List ℕ × List ℕ))
      → Leaves 0 r
      → Returns (elim r [
        | err e ↦ some (err e)
        | panic ↦ some panic
        | ok (typedesc_id, typedesc_buf) ↦
            with_config config (decode_with_id typedesc_id s.proto typedesc_buf)
      ])
  identified-Returns s config (err e) h = tt
  identified-Returns s config panic h = h
  identified-Returns s config (ok (id, buf)) h =
      with_config-Returns config _ (decode_with_root-Returns id s.proto buf).0

  -- `ParameterStatus::parse_system_config` returns a result or an error for every value of the
  -- parameter, and does not panic.
  pub parse_system_config-Returns : (s : ParameterStatus) → Returns (parse_system_config s)
  unfolding parse_system_config
  parse_system_config-Returns s =
      paired (decode_pair s.value) (Safe-pair.leaves s.value (omega arith))
    where
      paired :
          (r : Result DecodeError ((List ℕ × List ℕ) × List ℕ))
          → Leaves 0 r
          → Returns (elim r [
            | err e ↦ some (err e)
            | panic ↦ some panic
            | ok ((typedesc_data, config), rest) ↦ elim (decode_uuid typedesc_data) [
              | err e ↦ some (err e)
              | panic ↦ some panic
              | ok (typedesc_id, typedesc_buf) ↦
                  with_config config (decode_with_id typedesc_id s.proto typedesc_buf)
            ]
          ])
      paired (err e) h = tt
      paired panic h = h
      paired (ok ((typedesc_data, config), rest)) h =
          identified-Returns s config (decode_uuid typedesc_data)
            (Safe-uuid.leaves typedesc_data (omega arith))
