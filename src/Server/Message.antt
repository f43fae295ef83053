-- ===== src/Server/Message.antt =====
-- edgedb-protocol/src/server_message.rs: `ServerMessage::decode`.
use edgedb_rust.Base.{ℕ, List, Result, if◌then◌else◌}
use edgedb_rust.Base.HashMap.{nat_eq, ◌==◌}
use edgedb_rust.Wire.{DecodeError, Crates}
use edgedb_rust.Wire.Decoder.{Decoder, copy_remaining}
use edgedb_rust.Wire.Frame.{read_as, decode_frame}
use edgedb_rust.Protocol.{ProtocolVersion, is_1}
use edgedb_rust.Server.Types.{
  ServerMessage, server_handshake, unknown_message, log_message, error_response, authentication,
  ready_for_command, server_key_data, parameter_status, command_complete0, command_complete1,
  prepare_complete, command_data_description0, command_data_description1, state_data_description,
  data_chunks, restore_ready, dump_header, dump_block,
}
use edgedb_rust.Server.Decode.{
  decode_server_handshake, decode_error_response, decode_log_message, decode_authentication,
  decode_ready_for_command, decode_server_key_data, decode_parameter_status,
  decode_command_complete0, decode_command_complete1, decode_prepare_complete,
  decode_command_data_description0, decode_command_data_description1, decode_state_data_description,
  decode_data, decode_restore_ready, decode_raw_packet,
}

module _ ⦃C : Crates⦄ where
  -- The message that the code announces.
  unfoldable pub decode_server_body : ProtocolVersion → (code : ℕ) → Decoder ServerMessage
  decode_server_body proto code =
      if code == 0x76
      then read_as server_handshake decode_server_handshake
      else if code == 0x45
      then read_as error_response decode_error_response
      else if code == 0x4c
      then read_as log_message decode_log_message
      else if code == 0x52
      then read_as authentication decode_authentication
      else if code == 0x5a
      then read_as ready_for_command decode_ready_for_command
      else if code == 0x4b
      then read_as server_key_data decode_server_key_data
      else if code == 0x53
      then read_as parameter_status (decode_parameter_status proto)
      else if code == 0x43
      then (if is_1 proto
          then read_as command_complete1 decode_command_complete1
          else read_as command_complete0 decode_command_complete0)
      else if code == 0x31
      then read_as prepare_complete decode_prepare_complete
      else if code == 0x44
      then read_as data_chunks decode_data
      else if code == 0x2b
      then read_as restore_ready decode_restore_ready
      else if code == 0x40
      then read_as dump_header decode_raw_packet
      else if code == 0x3d
      then read_as dump_block decode_raw_packet
      else if code == 0x54
      then (if is_1 proto
          then read_as command_data_description1 (decode_command_data_description1 proto)
          else read_as command_data_description0 (decode_command_data_description0 proto))
      else if code == 0x73
      then read_as state_data_description decode_state_data_description
      else read_as (unknown_message code) copy_remaining

-- `ServerMessage::decode`
unfoldable pub decode_server_message :
    ⦃C : Crates⦄ → ProtocolVersion → List ℕ → Result DecodeError ServerMessage
decode_server_message proto buf = decode_frame (decode_server_body proto) buf
