-- ===== src/Client/Message.antt =====
-- edgedb-protocol/src/client_message.rs: `ClientMessage::decode`.
use edgedb_rust.Base.{ℕ, List, Result, if◌then◌else◌}
use edgedb_rust.Base.HashMap.{nat_eq, ◌==◌}
use edgedb_rust.Wire.{DecodeError, Crates}
use edgedb_rust.Wire.Decoder.{Decoder, pure, copy_remaining}
use edgedb_rust.Wire.Frame.{read_as, decode_frame}
use edgedb_rust.Protocol.{ProtocolVersion, is_1}
use edgedb_rust.Client.Types.{
  ClientMessage, client_handshake, execute_script, prepare, parse, describe_statement, execute0,
  execute1, optimistic_execute, unknown_message, sasl_initial_response, sasl_response, dump,
  restore, restore_block, restore_eof, sync, flush, terminate,
}
use edgedb_rust.Client.Decode.{
  decode_client_handshake, decode_sasl_initial_response, decode_sasl_response,
  decode_execute_script, decode_prepare, decode_describe_statement, decode_execute0,
  decode_optimistic_execute, decode_execute1, decode_dump, decode_restore, decode_restore_block,
  decode_parse,
}

module _ ⦃C : Crates⦄ where
  -- The message that the code announces.
  unfoldable pub decode_body : ProtocolVersion → (code : ℕ) → Decoder ClientMessage
  decode_body proto code =
      if code == 0x56
      then read_as client_handshake decode_client_handshake
      else if code == 0x70
      then read_as sasl_initial_response decode_sasl_initial_response
      else if code == 0x72
      then read_as sasl_response decode_sasl_response
      else if code == 0x51
      then read_as execute_script decode_execute_script
      else if code == 0x50
      then (if is_1 proto then read_as parse decode_parse else read_as prepare decode_prepare)
      else if code == 0x45
      then read_as execute0 decode_execute0
      else if code == 0x4f
      then (if is_1 proto
          then read_as execute1 decode_execute1
          else read_as optimistic_execute decode_optimistic_execute)
      else if code == 0x3e
      then read_as dump decode_dump
      else if code == 0x3c
      then read_as restore decode_restore
      else if code == 0x3d
      then read_as restore_block decode_restore_block
      else if code == 0x2e
      then pure restore_eof
      else if code == 0x53
      then pure sync
      else if code == 0x48
      then pure flush
      else if code == 0x58
      then pure terminate
      else if code == 0x44
      then read_as describe_statement decode_describe_statement
      else read_as (unknown_message code) copy_remaining

-- `ClientMessage::decode`
unfoldable pub decode_message :
    ⦃C : Crates⦄ → ProtocolVersion → List ℕ → Result DecodeError ClientMessage
decode_message proto buf = decode_frame (decode_body proto) buf
