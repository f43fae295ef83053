-- ===== src/Server/RoundTrip.antt =====
-- `ServerMessage::decode` after `ServerMessage::encode`.
use edgedb_rust.Base.{ℕ, ◌+◌, ◌%◌, ◌≡◌, List, [], ◌++◌, true, false, ok, length, All}
use edgedb_rust.Wire.{Crates}
use edgedb_rust.Wire.Encoder.Writes.{Writes}
use edgedb_rust.Wire.Decoder.Reads.{ReadsAll}
use edgedb_rust.Wire.Encoding.RoundTrip.{
  IsU16, IsU32, IsBytes, IsUuid, IsKeyValues, Writes-encode, wire_bytes, wire_frame,
}
use edgedb_rust.Wire.Frame.{ReadsAll-read_as, Reads-read_as, decode_frame-wire_frame}
use edgedb_rust.Protocol.{ProtocolVersion, is_1}
use edgedb_rust.Server.Types.{
  ServerMessage, server_handshake, unknown_message, log_message, error_response, authentication,
  ready_for_command, server_key_data, parameter_status, command_complete0, command_complete1,
  prepare_complete, command_data_description0, command_data_description1, state_data_description,
  data_chunks, restore_ready, dump_header, dump_block,
}
use edgedb_rust.Server.Wire
use edgedb_rust.Server.Wire.{
  IsServerHandshake, IsErrorResponse, IsLogMessage, IsAuthentication, IsCommandComplete1,
  IsPrepareComplete, IsCommandDataDescription0, IsCommandDataDescription1,
}
use edgedb_rust.Server.Encode.{encode_server_message}
use edgedb_rust.Server.Message.{decode_server_body, decode_server_message}
use edgedb_rust.Server.Writes.{
  Writes-server_handshake, Writes-error_response, Writes-log_message, Writes-authentication,
  Writes-ready_for_command, Writes-server_key_data, Writes-parameter_status,
  Writes-command_complete0, Writes-command_complete1, Writes-prepare_complete,
  Writes-command_data_description0, Writes-command_data_description1, Writes-state_data_description,
  Writes-data, Writes-restore_ready, Writes-raw_packet,
}
use edgedb_rust.Server.Reads.{
  Reads-server_handshake, Reads-error_response, Reads-log_message, Reads-authentication,
  Reads-ready_for_command, Reads-server_key_data, Reads-parameter_status,
}
use edgedb_rust.Server.ReadsCommands.{
  Reads-command_complete0, Reads-command_complete1, Reads-prepare_complete,
  Reads-command_data_description0, Reads-command_data_description1, Reads-state_data_description,
  Reads-data, Reads-restore_ready, ReadsAll-raw_packet,
}

-- The first byte of the frame.
unfoldable pub code_of : ServerMessage → ℕ
code_of (server_handshake h) = 0x76
code_of (error_response h) = 0x45
code_of (log_message h) = 0x4c
code_of (authentication h) = 0x52
code_of (ready_for_command h) = 0x5a
code_of (server_key_data h) = 0x4b
code_of (parameter_status h) = 0x53
code_of (command_complete0 h) = 0x43
code_of (command_complete1 h) = 0x43
code_of (prepare_complete h) = 0x31
code_of (command_data_description0 h) = 0x54
code_of (command_data_description1 h) = 0x54
code_of (state_data_description h) = 0x73
code_of (data_chunks h) = 0x44
code_of (restore_ready h) = 0x2b
code_of (dump_header h) = 0x40
code_of (dump_block h) = 0x3d
code_of (unknown_message code bytes) = code

-- The bytes behind the length.
unfoldable pub body_of : ServerMessage → List ℕ
body_of (server_handshake h) = Wire.wire_server_handshake h
body_of (error_response h) = Wire.wire_error_response h
body_of (log_message h) = Wire.wire_log_message h
body_of (authentication h) = Wire.wire_authentication h
body_of (ready_for_command h) = Wire.wire_ready_for_command h
body_of (server_key_data h) = h.payload
body_of (parameter_status h) = wire_bytes h.name ++ wire_bytes h.value
body_of (command_complete0 h) = Wire.wire_command_complete0 h
body_of (command_complete1 h) = Wire.wire_command_complete1 h
body_of (prepare_complete h) = Wire.wire_prepare_complete h
body_of (command_data_description0 h) = Wire.wire_command_data_description0 h
body_of (command_data_description1 h) = Wire.wire_command_data_description1 h
body_of (state_data_description h) = h.typedesc_id ++ wire_bytes h.typedesc
body_of (data_chunks h) = Wire.wire_data h
body_of (restore_ready h) = Wire.wire_restore_ready h
body_of (dump_header h) = h.payload
body_of (dump_block h) = h.payload
body_of (unknown_message code bytes) = bytes

-- The messages that a server of this version may send: every number, text, byte string and map
-- fits its width, an identifier has its 16 bytes and a key its 32, no severity is `unknown` with a
-- byte that has a name, and the message and the version that it keeps belong to the version.
unfoldable pub IsSendable : ProtocolVersion → ServerMessage → Type 0
IsSendable p (server_handshake h) = IsServerHandshake h
IsSendable p (error_response h) = IsErrorResponse h
IsSendable p (log_message h) = IsLogMessage h
IsSendable p (authentication h) = IsAuthentication h
IsSendable p (ready_for_command h) = IsKeyValues h.headers
IsSendable p (server_key_data h) = length h.payload ≡ 32
IsSendable p (parameter_status h) = (h.proto ≡ p) × IsBytes h.name × IsBytes h.value
IsSendable p (command_complete0 h) =
    (is_1 p ≡ false) × IsKeyValues h.headers × IsBytes h.status_data
IsSendable p (command_complete1 h) = (is_1 p ≡ true) × IsCommandComplete1 h
IsSendable p (prepare_complete h) = IsPrepareComplete h
IsSendable p (command_data_description0 h) = (is_1 p ≡ false) × IsCommandDataDescription0 p h
IsSendable p (command_data_description1 h) = (is_1 p ≡ true) × IsCommandDataDescription1 p h
IsSendable p (state_data_description h) = IsUuid h.typedesc_id × IsBytes h.typedesc
IsSendable p (data_chunks h) = IsU16 (length h.chunks) × All IsBytes h.chunks
IsSendable p (restore_ready h) = IsKeyValues h.headers × IsU16 h.jobs
IsSendable p (dump_header h) = Unit
IsSendable p (dump_block h) = Unit
IsSendable p (unknown_message code bytes) = ⊥

module _ ⦃C : Crates⦄ (p : ProtocolVersion) where
  body_read :
      (m : ServerMessage)
      → IsSendable p m
      → ReadsAll (decode_server_body p (code_of m % 256)) (body_of m) m
  unfolding IsSendable code_of body_of decode_server_body
  body_read (server_handshake h) v = Reads-read_as _ (Reads-server_handshake h v)
  body_read (error_response h) v = Reads-read_as _ (Reads-error_response h v)
  body_read (log_message h) v = Reads-read_as _ (Reads-log_message h v)
  body_read (authentication h) v = Reads-read_as _ (Reads-authentication h v)
  body_read (ready_for_command h) v = Reads-read_as _ (Reads-ready_for_command h v)
  body_read (server_key_data h) v = Reads-read_as _ (Reads-server_key_data h v)
  body_read (parameter_status h) v = Reads-read_as _ (Reads-parameter_status p h v.0 v.1 v.2)
  body_read (command_complete0 h) v = rw v.0 (Reads-read_as _ (Reads-command_complete0 h v.1 v.2))
  body_read (command_complete1 h) v = rw v.0 (Reads-read_as _ (Reads-command_complete1 h v.1))
  body_read (prepare_complete h) v = Reads-read_as _ (Reads-prepare_complete h v)
  body_read (command_data_description0 h) v =
      rw v.0 (Reads-read_as _ (Reads-command_data_description0 p h v.1))
  body_read (command_data_description1 h) v =
      rw v.0 (Reads-read_as _ (Reads-command_data_description1 p h v.1))
  body_read (state_data_description h) v = Reads-read_as _ (Reads-state_data_description h v.0 v.1)
  body_read (data_chunks h) v = Reads-read_as _ (Reads-data h v.0 v.1)
  body_read (restore_ready h) v = Reads-read_as _ (Reads-restore_ready h v.0 v.1)
  body_read (dump_header h) v = ReadsAll-read_as _ (ReadsAll-raw_packet h)
  body_read (dump_block h) v = ReadsAll-read_as _ (ReadsAll-raw_packet h)
  body_read (unknown_message code bytes) v = absurd v

  body_written :
      (m : ServerMessage)
      → IsSendable p m
      → IsU32 (4 + length (body_of m))
      → Writes (encode_server_message m) (wire_frame (code_of m) (body_of m))
  unfolding IsSendable code_of body_of encode_server_message
  body_written (server_handshake h) v n = Writes-encode _ n (Writes-server_handshake h v)
  body_written (error_response h) v n = Writes-encode _ n (Writes-error_response h v)
  body_written (log_message h) v n = Writes-encode _ n (Writes-log_message h v)
  body_written (authentication h) v n = Writes-encode _ n (Writes-authentication h v)
  body_written (ready_for_command h) v n = Writes-encode _ n (Writes-ready_for_command h v)
  body_written (server_key_data h) v n = Writes-encode _ n (Writes-server_key_data h)
  body_written (parameter_status h) v n = Writes-encode _ n (Writes-parameter_status h v.1 v.2)
  body_written (command_complete0 h) v n = Writes-encode _ n (Writes-command_complete0 h v.1 v.2)
  body_written (command_complete1 h) v n = Writes-encode _ n (Writes-command_complete1 h v.1)
  body_written (prepare_complete h) v n = Writes-encode _ n (Writes-prepare_complete h v)
  body_written (command_data_description0 h) v n =
      Writes-encode _ n (Writes-command_data_description0 p h v.1)
  body_written (command_data_description1 h) v n =
      Writes-encode _ n (Writes-command_data_description1 p h v.1)
  body_written (state_data_description h) v n =
      Writes-encode _ n (Writes-state_data_description h v.1)
  body_written (data_chunks h) v n = Writes-encode _ n (Writes-data h v.0 v.1)
  body_written (restore_ready h) v n = Writes-encode _ n (Writes-restore_ready h v.0)
  body_written (dump_header h) v n = Writes-encode _ n (Writes-raw_packet h)
  body_written (dump_block h) v n = Writes-encode _ n (Writes-raw_packet h)
  body_written (unknown_message code bytes) v n = absurd v

  -- `ServerMessage::encode` adds the frame of a sendable message to the output: its code, its
  -- length and its body, if the length fits 32 bits. What the output held before stays.
  pub encode_server_message-wire_frame :
      (m : ServerMessage) (buf : List ℕ)
      → IsSendable p m
      → IsU32 (4 + length (body_of m))
      → encode_server_message m buf ≡ ok (buf ++ wire_frame (code_of m) (body_of m))
  encode_server_message-wire_frame m buf v n = (body_written m v n).written buf

  -- `ServerMessage::decode` reads back every sendable message that `ServerMessage::encode` wrote,
  -- at the same protocol version, if its length fits 32 bits.
  pub decode_server_message-encode_server_message :
      (m : ServerMessage)
      → IsSendable p m
      → IsU32 (4 + length (body_of m))
      → (frame : List ℕ) × (encode_server_message m [] ≡ ok frame)
        × (decode_server_message p frame ≡ ok m)
  unfolding decode_server_message
  decode_server_message-encode_server_message m v n = (
    wire_frame (code_of m) (body_of m),
    encode_server_message-wire_frame m [] v n,
    decode_frame-wire_frame (decode_server_body p) (code_of m) (body_of m) m (body_read m v),
  )
