-- ===== src/Server/Reads.antt =====
-- The decoders of server_message.rs on the bytes of Server.Wire. A decoder that checks for
-- more bytes than its message may have asks for them here too.
use edgedb_rust.Base.{ℕ, ◌<◌, ◌^◌, ◌≡◌, refl, sym, ap, ◌∙◌, List, [], ◌++◌, ok, length, arith}
use edgedb_rust.Base.HashMap.{insert, insert_all-nil, list_eq, nat_eq}
use edgedb_rust.Wire.Extensions.{Extensions, IsExtension, IsExtensions, wire_extension}
use edgedb_rust.Wire.{Crates, to_be_bytes}
use edgedb_rust.Wire.Decoder.{repeat}
use edgedb_rust.Wire.Decoder.Reads.{
  Reads, Reads-pure, Reads-pure_eq, Reads->>=, Reads-map, Reads-pass, Reads-ensure, Reads-copy,
  Reads-u8, Reads-u16, Reads-u32, Reads-repeat, Reads-pushed,
}
use edgedb_rust.Wire.Encoder.Writes.{bytes_of_all}
use edgedb_rust.Wire.Encoding.{KeyValues, decode_string}
use edgedb_rust.Wire.Encoding.RoundTrip.{
  IsBytes, IsText, IsHeader, IsKeyValues, Reads-string, Reads-bytes, Reads-headers,
  Reads-counted_headers, all_inserted, wire_bytes, wire_header, lengths,
}
use edgedb_rust.Protocol.{ProtocolVersion}
use edgedb_rust.Server.Types.{
  TransactionState, not_in_transaction, in_transaction, in_failed_transaction, Authentication, sasl,
  sasl_continue, sasl_final, ReadyForCommand, ErrorResponse, LogMessage, ErrorSeverity,
  MessageSeverity, ServerHandshake, ServerKeyData, ParameterStatus,
}
use edgedb_rust.Server.Encode.{transaction_state_u8, error_severity_to_u8, message_severity_to_u8}
use edgedb_rust.Server.Decode.{
  error_severity_from_u8, message_severity_from_u8, transaction_state_from_u8,
  decode_header_unchecked, decode_extension, decode_server_handshake, decode_error_response,
  decode_log_message, decode_sasl, authentication_body, decode_authentication,
  decode_ready_for_command, decode_server_key_data, decode_parameter_status,
}
use edgedb_rust.Server.Wire.{
  IsErrorSeverity, IsMessageSeverity, IsServerHandshake, IsErrorResponse, IsLogMessage,
  IsAuthentication, wire_server_handshake, wire_error_response, wire_log_message,
  wire_authentication, wire_ready_for_command,
}

transaction_state_read :
    (s : TransactionState) → transaction_state_from_u8 (transaction_state_u8 s) ≡ ok s
unfolding transaction_state_from_u8 transaction_state_u8
transaction_state_read not_in_transaction = refl
transaction_state_read in_transaction = refl
transaction_state_read in_failed_transaction = refl

transaction_state-lt : (s : TransactionState) → transaction_state_u8 s < 2 ^ 8
unfolding transaction_state_u8
transaction_state-lt s = ground arith

error_severity_fits : (s : ErrorSeverity) → IsErrorSeverity s → error_severity_to_u8 s < 2 ^ 8
unfolding error_severity_to_u8
error_severity_fits ErrorSeverity.error h = omega arith
error_severity_fits ErrorSeverity.fatal h = omega arith
error_severity_fits ErrorSeverity.panic h = omega arith
error_severity_fits (ErrorSeverity.unknown code) h = h.0

error_severity_from_u8-to_u8 :
    (s : ErrorSeverity) → IsErrorSeverity s → error_severity_from_u8 (error_severity_to_u8 s) ≡ s
unfolding error_severity_to_u8 error_severity_from_u8
error_severity_from_u8-to_u8 ErrorSeverity.error h = refl
error_severity_from_u8-to_u8 ErrorSeverity.fatal h = refl
error_severity_from_u8-to_u8 ErrorSeverity.panic h = refl
error_severity_from_u8-to_u8 (ErrorSeverity.unknown code) (w, a, b, c) = ground arith

message_severity_fits :
    (s : MessageSeverity) → IsMessageSeverity s → message_severity_to_u8 s < 2 ^ 8
unfolding message_severity_to_u8
message_severity_fits MessageSeverity.debug h = omega arith
message_severity_fits MessageSeverity.info h = omega arith
message_severity_fits MessageSeverity.notice h = omega arith
message_severity_fits MessageSeverity.warning h = omega arith
message_severity_fits (MessageSeverity.unknown code) h = h.0

message_severity_from_u8-to_u8 :
    (s : MessageSeverity)
    → IsMessageSeverity s
    → message_severity_from_u8 (message_severity_to_u8 s) ≡ s
unfolding message_severity_to_u8 message_severity_from_u8
message_severity_from_u8-to_u8 MessageSeverity.debug h = refl
message_severity_from_u8-to_u8 MessageSeverity.info h = refl
message_severity_from_u8-to_u8 MessageSeverity.notice h = refl
message_severity_from_u8-to_u8 MessageSeverity.warning h = refl
message_severity_from_u8-to_u8 (MessageSeverity.unknown code) (w, a, b, c, d) = ground arith

module _ ⦃C : Crates⦄ where
  abbrev insert_header : KeyValues → ℕ × List ℕ → KeyValues
  insert_header m x = insert x.0 x.1 m

  abbrev insert_extension : Extensions → List ℕ × KeyValues → Extensions
  insert_extension m x = insert x.0 x.1 m

  Reads-header_unchecked :
      (m : KeyValues) (h : ℕ × List ℕ)
      → IsHeader h
      → Reads (decode_header_unchecked m) (wire_header h) (insert_header m h)
  unfolding decode_header_unchecked
  Reads-header_unchecked m h (hn, hv) =
      Reads->>= _ (Reads-u16 h.0 hn) (Reads-map _ (Reads-bytes h.1 hv) (Reads-pure _))

  Reads-headers_unchecked :
      (m : KeyValues)
      → IsKeyValues m
      → Reads (repeat (length m) decode_header_unchecked []) (bytes_of_all wire_header m) m
  Reads-headers_unchecked m (few, each, keys) = rw (all_inserted [] m ∙ insert_all-nil m keys) at (
      Reads-repeat decode_header_unchecked wire_header insert_header IsHeader Reads-header_unchecked
        m [] each)

  Reads-extension :
      (m : Extensions) (x : List ℕ × KeyValues)
      → IsExtension x
      → Reads (decode_extension m) (wire_extension x) (insert_extension m x)
  unfolding decode_extension
  Reads-extension m x (hn, hh) = Reads->>= _ (Reads-string x.0 hn) (
      Reads-ensure (omega lengths) (
        Reads->>= _ (Reads-u16 _ hh.0)
          (Reads-map _ (Reads-headers_unchecked x.1 hh) (Reads-pure _))))

  Reads-extensions :
      (m : Extensions)
      → IsExtensions m
      → Reads (repeat (length m) decode_extension []) (bytes_of_all wire_extension m) m
  Reads-extensions m (few, each, keys) = rw (all_inserted [] m ∙ insert_all-nil m keys) at (
      Reads-repeat decode_extension wire_extension insert_extension IsExtension Reads-extension m []
        each)

  pub Reads-server_handshake :
      (h : ServerHandshake)
      → IsServerHandshake h
      → Reads decode_server_handshake (wire_server_handshake h) h
  unfolding decode_server_handshake
  Reads-server_handshake h v = Reads-ensure (omega lengths) (
      Reads->>= _ (Reads-u16 h.major_ver v.major) (
        Reads->>= _ (Reads-u16 h.minor_ver v.minor) (
          Reads->>= _ (Reads-u16 _ v.extensions_fit.0)
            (Reads-map _ (Reads-extensions h.extensions v.extensions_fit) (Reads-pure h)))))

  pub Reads-error_response :
      (r : ErrorResponse)
      → IsErrorResponse r
      → Reads decode_error_response (wire_error_response r) r
  unfolding decode_error_response
  Reads-error_response r v = Reads-ensure (omega lengths) (
      Reads->>= _ (Reads-u8 _ (error_severity_fits r.severity v.severity)) (
        Reads->>= _ (Reads-u32 r.code v.code) (
          Reads->>= _ (Reads-string r.message v.message_fits) (
            Reads-ensure (omega lengths) (
              Reads->>= _ (Reads-u16 _ v.attributes_fit.0) (
                Reads-map _ (Reads-headers r.attributes v.attributes_fit) (
                  Reads-pure_eq (
                    ap (λ s. record r { severity = s })
                      (error_severity_from_u8-to_u8 r.severity v.severity)))))))))

  pub Reads-log_message :
      (r : LogMessage) → IsLogMessage r → Reads decode_log_message (wire_log_message r) r
  unfolding decode_log_message
  Reads-log_message r v = Reads-ensure (omega lengths) (
      Reads->>= _ (Reads-u8 _ (message_severity_fits r.severity v.severity)) (
        Reads->>= _ (Reads-u32 r.code v.code) (
          Reads->>= _ (Reads-string r.text v.text_fits) (
            Reads-ensure (omega lengths) (
              Reads->>= _ (Reads-u16 _ v.attributes_fit.0) (
                Reads-map _ (Reads-headers r.attributes v.attributes_fit) (
                  Reads-pure_eq (
                    ap (λ s. record r { severity = s })
                      (message_severity_from_u8-to_u8 r.severity v.severity)))))))))

  -- A loop that pushes what it reads gives the list of what was written.
  Reads-sasl :
      (methods : List (List ℕ))
      → IsAuthentication (sasl methods)
      → Reads decode_sasl
          (to_be_bytes 4 (length methods) ++ bytes_of_all wire_bytes methods)
          (sasl methods)
  unfolding decode_sasl
  Reads-sasl methods (few, each) = Reads-ensure (omega lengths) (
      Reads->>= _ (Reads-u32 _ few) (
        Reads-map _ (Reads-pushed decode_string wire_bytes IsText Reads-string methods each)
          (Reads-pure _)))

  pub Reads-authentication :
      (a : Authentication)
      → IsAuthentication a
      → Reads decode_authentication (wire_authentication a) a
  unfolding decode_authentication authentication_body
  Reads-authentication Authentication.done v =
      Reads-ensure (omega lengths) (Reads-map _ (Reads-u32 0 (omega arith)) (Reads-pure _))
  Reads-authentication (sasl methods) v =
      Reads-ensure (omega lengths)
        (Reads->>= _ (Reads-u32 0x0a (omega arith)) (Reads-sasl methods v))
  Reads-authentication (sasl_continue payload) v = Reads-ensure (omega lengths) (
      Reads->>= _ (Reads-u32 0x0b (omega arith))
        (Reads-map _ (Reads-bytes payload v) (Reads-pure _)))
  Reads-authentication (sasl_final payload) v = Reads-ensure (omega lengths) (
      Reads->>= _ (Reads-u32 0x0c (omega arith))
        (Reads-map _ (Reads-bytes payload v) (Reads-pure _)))

  pub Reads-ready_for_command :
      (r : ReadyForCommand)
      → IsKeyValues r.headers
      → Reads decode_ready_for_command (wire_ready_for_command r) r
  unfolding decode_ready_for_command
  Reads-ready_for_command r hh = Reads-ensure (omega lengths) (
      Reads-counted_headers r.headers _ hh (
        Reads-ensure (omega lengths) (
          Reads-map _ (Reads-u8 _ (transaction_state-lt r.transaction_state))
            (Reads-pass _ (transaction_state_read r.transaction_state) (Reads-pure r)))))

  pub Reads-server_key_data :
      (k : ServerKeyData) → length k.payload ≡ 32 → Reads decode_server_key_data k.payload k
  unfolding decode_server_key_data
  Reads-server_key_data k h = Reads-ensure (omega arith) (
      Reads-map _ (rw h at (Reads-copy C.copy_to_slice k.payload C.copy_to_slice-Copies))
        (Reads-pure k))

  pub Reads-parameter_status :
      (p : ProtocolVersion) (s : ParameterStatus)
      → s.proto ≡ p
      → IsBytes s.name
      → IsBytes s.value
      → Reads (decode_parameter_status p) (wire_bytes s.name ++ wire_bytes s.value) s
  unfolding decode_parameter_status
  Reads-parameter_status p s e hn hv = Reads->>= _ (Reads-bytes s.name hn) (
      Reads-map _ (Reads-bytes s.value hv)
        (Reads-pure_eq (ap (λ v. record s { proto = v }) (sym e))))
