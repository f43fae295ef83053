-- ===== src/Client/RoundTrip.antt =====
-- `ClientMessage::decode` after `ClientMessage::encode`.
use edgedb_rust.Base.{ℕ, ◌+◌, ◌%◌, ◌≤◌, ◌≡◌, ap, List, [], ◌++◌, true, false, ok, length, arith}
use edgedb_rust.Wire.{Crates}
use edgedb_rust.Wire.Decoder.Reads.{ReadsAll, ReadsAll-Reads, Reads-pure}
use edgedb_rust.Wire.Encoder.Writes.{Writes, Writes-done}
use edgedb_rust.Wire.Encoding.RoundTrip.{
  IsU16, IsU32, IsBytes, IsText, IsKeyValues, Writes-encode, wire_bytes, wire_headers, wire_frame,
}
use edgedb_rust.Wire.Frame.{ReadsAll-read_as, Reads-read_as, decode_frame-wire_frame}
use edgedb_rust.Protocol.{ProtocolVersion, is_1}
use edgedb_rust.Client.Types.{
  ClientMessage, client_handshake, execute_script, prepare, parse, describe_statement, execute0,
  execute1, optimistic_execute, unknown_message, sasl_initial_response, sasl_response, dump,
  restore, restore_block, restore_eof, sync, flush, terminate,
}
use edgedb_rust.Client.Wire
use edgedb_rust.Client.Wire.{IsClientHandshake, IsPrepare, IsParse, IsExecute1, IsOptimisticExecute}
use edgedb_rust.Client.Encode.{encode_message}
use edgedb_rust.Client.Message.{decode_body, decode_message}
use edgedb_rust.Client.Writes.{
  Writes-client_handshake, Writes-sasl_initial_response, Writes-sasl_response,
  Writes-execute_script, Writes-prepare, Writes-parse, Writes-describe_statement, Writes-execute0,
  Writes-optimistic_execute, Writes-execute1, Writes-dump, Writes-restore, Writes-restore_block,
}
use edgedb_rust.Client.Reads.{
  Reads-client_handshake, Reads-sasl_initial_response, Reads-sasl_response, Reads-execute_script,
  Reads-prepare, Reads-parse, Reads-describe_statement, Reads-execute0, Reads-optimistic_execute,
  Reads-execute1, Reads-dump, ReadsAll-restore, ReadsAll-restore_block,
}

-- The first byte of the frame.
unfoldable pub code_of : ClientMessage → ℕ
code_of (client_handshake h) = 0x56
code_of (sasl_initial_response h) = 0x70
code_of (sasl_response h) = 0x72
code_of (execute_script h) = 0x51
code_of (prepare h) = 0x50
code_of (parse h) = 0x50
code_of (describe_statement h) = 0x44
code_of (execute0 h) = 0x45
code_of (optimistic_execute h) = 0x4f
code_of (execute1 h) = 0x4f
code_of (dump h) = 0x3e
code_of (restore h) = 0x3c
code_of (restore_block h) = 0x3d
code_of restore_eof = 0x2e
code_of sync = 0x53
code_of flush = 0x48
code_of terminate = 0x58
code_of (unknown_message code bytes) = code

-- The bytes behind the length.
unfoldable pub body_of : ClientMessage → List ℕ
body_of (client_handshake h) = Wire.wire_client_handshake h
body_of (sasl_initial_response h) = wire_bytes h.method ++ wire_bytes h.payload
body_of (sasl_response h) = wire_bytes h.payload
body_of (execute_script h) = Wire.wire_execute_script h
body_of (prepare h) = Wire.wire_prepare h
body_of (parse h) = Wire.wire_parse h
body_of (describe_statement h) = Wire.wire_describe_statement h
body_of (execute0 h) = Wire.wire_execute0 h
body_of (optimistic_execute h) = Wire.wire_optimistic_execute h
body_of (execute1 h) = Wire.wire_execute1 h
body_of (dump h) = wire_headers h.headers
body_of (restore h) = Wire.wire_restore h
body_of (restore_block h) = h.payload
body_of restore_eof = []
body_of sync = []
body_of flush = []
body_of terminate = []
body_of (unknown_message code bytes) = bytes

-- The messages that a client of this version may send: every number, text, byte string and map
-- fits its width, and the message belongs to the version. DescribeStatement, Execute0 and Dump must
-- besides be as long as their decoders demand, and DescribeStatement has no header.
unfoldable pub IsSendable : ProtocolVersion → ClientMessage → Type 0
IsSendable p (client_handshake h) = IsClientHandshake h
IsSendable p (sasl_initial_response h) = IsText h.method × IsBytes h.payload
IsSendable p (sasl_response h) = IsBytes h.payload
IsSendable p (execute_script h) = IsKeyValues h.headers × IsText h.script_text
IsSendable p (prepare h) = (is_1 p ≡ false) × IsPrepare h
IsSendable p (parse h) = (is_1 p ≡ true) × IsParse h
IsSendable p (describe_statement h) =
    (h.headers ≡ []) × IsBytes h.statement_name × (5 ≤ length h.statement_name)
IsSendable p (execute0 h) =
    IsKeyValues h.headers
    × IsBytes h.statement_name
    × IsBytes h.arguments
    × (12 ≤ length (Wire.wire_execute0 h))
IsSendable p (optimistic_execute h) = (is_1 p ≡ false) × IsOptimisticExecute h
IsSendable p (execute1 h) = (is_1 p ≡ true) × IsExecute1 h
IsSendable p (dump h) = IsKeyValues h.headers × (12 ≤ length (wire_headers h.headers))
IsSendable p (restore h) = IsKeyValues h.headers × IsU16 h.jobs
IsSendable p (restore_block h) = Unit
IsSendable p restore_eof = Unit
IsSendable p sync = Unit
IsSendable p flush = Unit
IsSendable p terminate = Unit
IsSendable p (unknown_message code bytes) = ⊥

module _ ⦃C : Crates⦄ (p : ProtocolVersion) where
  body_read :
      (m : ClientMessage)
      → IsSendable p m
      → ReadsAll (decode_body p (code_of m % 256)) (body_of m) m
  unfolding IsSendable code_of body_of decode_body
  body_read (client_handshake h) v = Reads-read_as _ (Reads-client_handshake h v)
  body_read (sasl_initial_response h) v = Reads-read_as _ (Reads-sasl_initial_response h v.0 v.1)
  body_read (sasl_response h) v = Reads-read_as _ (Reads-sasl_response h v)
  body_read (execute_script h) v = Reads-read_as _ (Reads-execute_script h v.0 v.1)
  body_read (prepare h) v = rw v.0 (Reads-read_as _ (Reads-prepare h v.1))
  body_read (parse h) v = rw v.0 (Reads-read_as _ (Reads-parse h v.1))
  body_read (describe_statement h) v = Reads-read_as _ (Reads-describe_statement h v.0 v.1 v.2)
  body_read (execute0 h) v = Reads-read_as _ (Reads-execute0 h v.0 v.1 v.2 v.3)
  body_read (optimistic_execute h) v = rw v.0 (Reads-read_as _ (Reads-optimistic_execute h v.1))
  body_read (execute1 h) v = rw v.0 (Reads-read_as _ (Reads-execute1 h v.1))
  body_read (dump h) v = Reads-read_as _ (Reads-dump h v.0 v.1)
  body_read (restore h) v = ReadsAll-read_as _ (ReadsAll-restore h v.0 v.1)
  body_read (restore_block h) v = ReadsAll-read_as _ (ReadsAll-restore_block h)
  body_read restore_eof v = ReadsAll-Reads (Reads-pure restore_eof)
  body_read sync v = ReadsAll-Reads (Reads-pure sync)
  body_read flush v = ReadsAll-Reads (Reads-pure flush)
  body_read terminate v = ReadsAll-Reads (Reads-pure terminate)
  body_read (unknown_message code bytes) v = absurd v

  body_written :
      (m : ClientMessage)
      → IsSendable p m
      → IsU32 (4 + length (body_of m))
      → Writes (encode_message m) (wire_frame (code_of m) (body_of m))
  unfolding IsSendable code_of body_of encode_message
  body_written (client_handshake h) v n = Writes-encode _ n (Writes-client_handshake h v)
  body_written (sasl_initial_response h) v n =
      Writes-encode _ n (Writes-sasl_initial_response h v.0 v.1)
  body_written (sasl_response h) v n = Writes-encode _ n (Writes-sasl_response h v)
  body_written (execute_script h) v n = Writes-encode _ n (Writes-execute_script h v.0 v.1)
  body_written (prepare h) v n = Writes-encode _ n (Writes-prepare h v.1)
  body_written (parse h) v n = Writes-encode _ n (Writes-parse h v.1)
  body_written (describe_statement h) v n =
      Writes-encode _ n (Writes-describe_statement h (omega (arith, ap length v.0)) v.1)
  body_written (execute0 h) v n = Writes-encode _ n (Writes-execute0 h v.0 v.1 v.2)
  body_written (optimistic_execute h) v n = Writes-encode _ n (Writes-optimistic_execute h v.1)
  body_written (execute1 h) v n = Writes-encode _ n (Writes-execute1 h v.1)
  body_written (dump h) v n = Writes-encode _ n (Writes-dump h v.0)
  body_written (restore h) v n = Writes-encode _ n (Writes-restore h v.0)
  body_written (restore_block h) v n = Writes-encode _ n (Writes-restore_block h)
  body_written restore_eof v n = Writes-encode _ n Writes-done
  body_written sync v n = Writes-encode _ n Writes-done
  body_written flush v n = Writes-encode _ n Writes-done
  body_written terminate v n = Writes-encode _ n Writes-done
  body_written (unknown_message code bytes) v n = absurd v

  -- `ClientMessage::encode` adds the frame of a sendable message to the output: its code, its
  -- length and its body, if the length fits 32 bits. What the output held before stays.
  pub encode_message-wire_frame :
      (m : ClientMessage) (buf : List ℕ)
      → IsSendable p m
      → IsU32 (4 + length (body_of m))
      → encode_message m buf ≡ ok (buf ++ wire_frame (code_of m) (body_of m))
  encode_message-wire_frame m buf v n = (body_written m v n).written buf

  -- `ClientMessage::decode` reads back every sendable message that `ClientMessage::encode` wrote,
  -- at the same protocol version, if its length fits 32 bits.
  pub decode_message-encode_message :
      (m : ClientMessage)
      → IsSendable p m
      → IsU32 (4 + length (body_of m))
      → (frame : List ℕ) × (encode_message m [] ≡ ok frame) × (decode_message p frame ≡ ok m)
  unfolding decode_message
  decode_message-encode_message m v n = (
    wire_frame (code_of m) (body_of m),
    encode_message-wire_frame m [] v n,
    decode_frame-wire_frame (decode_body p) (code_of m) (body_of m) m (body_read m v),
  )
