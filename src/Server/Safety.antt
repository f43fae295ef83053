-- ===== src/Server/Safety.antt =====
-- Which server messages can be decoded from any input without a panic.
use edgedb_rust.Base.{
  ℕ, ◌≤◌, ◌≡◌, ◌≢◌, List, ◌∷◌, true, ◌⊎◌, ==_iff, inl, inr, panic, length, arith,
}
use edgedb_rust.Base.HashMap.{nat_eq, ◌==◌}
use edgedb_rust.Wire.{Crates}
use edgedb_rust.Wire.Decoder.{Decoder, take_or_panic, lift, ◌>>=◌, ◌>>◌, ensure_remaining}
use edgedb_rust.Wire.Decoder.Safe.{
  Safe, Safe-pure, Safe-fail, Safe-lift, Safe-weaken, Safe->>=, Safe->>, Safe-ensure, Safe-u8,
  Safe-u16, Safe-u32, Safe-u64, Safe-copy_remaining, Safe-copy_all, Safe-repeat, Safe-pushed,
  if-Safe,
}
use edgedb_rust.Wire.Frame.{Safe-read_as, decode_frame-ne-panic}
use edgedb_rust.Wire.Encoding.{decode_string, decode_bytes}
use edgedb_rust.Wire.Encoding.Safety.{
  Safe-string, Safe-bytes, Safe-uuid, Safe-annotation, Safe-count, Safe-counted_headers,
}
use edgedb_rust.Protocol.{ProtocolVersion, Cardinality, is_1, try_from_u8, cardinality-ne-panic}
use edgedb_rust.Server.Decode.{
  transaction_state_from_u8, decode_error_response, decode_log_message, decode_sasl,
  authentication_body, decode_authentication, decode_ready_for_command, decode_server_key_data,
  decode_parameter_status, decode_command_complete0, decode_prepare_complete,
  decode_command_data_description0, decode_command_data_description1, decode_state_data_description,
  decode_data, decode_restore_ready, decode_raw_packet,
}
use edgedb_rust.Server.Message.{decode_server_body, decode_server_message}

transaction_state-ne-panic : (s : ℕ) → transaction_state_from_u8 s ≢ panic
unfolding transaction_state_from_u8
transaction_state-ne-panic s e = ground arith

module _ ⦃C : Crates⦄ where
  -- The byte and the number before the text of an error or a log message, and its attributes.
  Safe-report :
      {B : Type 0} {f : ℕ → ℕ → Decoder B}
      → ((severity code : ℕ) → Safe 0 0 (f severity code))
      → Safe 0 0
          (ensure_remaining 11 >> (take_or_panic C.get_u8 >>= λ s. take_or_panic C.get_u32 >>= f s))
  Safe-report s = Safe->> (Safe-ensure 0 11) (
      Safe->>= _ (Safe-u8 10)
        λ i. Safe->>= _ (Safe-weaken 10 0 (omega arith) (omega arith) (Safe-u32 6)) λ j. s i j)

  Safe-error_response : Safe 0 0 decode_error_response
  unfolding decode_error_response
  Safe-error_response = Safe-report λ severity code.
      Safe->>= _ Safe-string
        λ message. Safe-counted_headers 2 (omega arith) λ attributes. Safe-pure 0 _

  Safe-log_message : Safe 0 0 decode_log_message
  unfolding decode_log_message
  Safe-log_message = Safe-report λ severity code.
      Safe->>= _ Safe-string
        λ text. Safe-counted_headers 2 (omega arith) λ attributes. Safe-pure 0 _

  Safe-sasl : Safe 0 0 decode_sasl
  unfolding decode_sasl
  Safe-sasl = Safe->> (Safe-ensure 0 4) (
      Safe->>= _ (Safe-u32 0)
        λ n. Safe->>= _ (Safe-pushed decode_string n Safe-string) λ methods. Safe-pure 0 _)

  Safe-authentication_body : (c : ℕ) → Safe 0 0 (authentication_body c)
  unfolding authentication_body
  Safe-authentication_body c =
      if-Safe (c == 0) (λ _. Safe-pure 0 _)
        λ _.
          if-Safe (c == 0x0a) (λ _. Safe-sasl)
            λ _.
              if-Safe (c == 0x0b) (λ _. Safe->>= _ Safe-bytes λ payload. Safe-pure 0 _)
                λ _.
                  if-Safe (c == 0x0c) (λ _. Safe->>= _ Safe-bytes λ payload. Safe-pure 0 _)
                    λ _. Safe-fail 0 0 _

  Safe-authentication : Safe 0 0 decode_authentication
  unfolding decode_authentication
  Safe-authentication =
      Safe->> (Safe-ensure 0 4) (Safe->>= _ (Safe-u32 0) λ c. Safe-authentication_body c)

  Safe-ready_for_command : Safe 0 0 decode_ready_for_command
  unfolding decode_ready_for_command
  Safe-ready_for_command = Safe-counted_headers 3 (omega arith) λ headers.
      Safe->> (Safe-ensure 0 1) (
        Safe->>= _ (Safe-u8 0)
          λ s. Safe->>= _ (Safe-lift 0 (transaction_state-ne-panic s)) λ state. Safe-pure 0 _)

  Safe-server_key_data : Safe 0 0 decode_server_key_data
  unfolding decode_server_key_data
  Safe-server_key_data = Safe->> (Safe-ensure 0 32) (
      Safe->>= _ (Safe-copy_all 32 C.copy_to_slice C.copy_to_slice-Copies) λ payload. Safe-pure 0 _)

  Safe-parameter_status : (p : ProtocolVersion) → Safe 0 0 (decode_parameter_status p)
  unfolding decode_parameter_status
  Safe-parameter_status p =
      Safe->>= _ Safe-bytes λ name. Safe->>= _ Safe-bytes λ value. Safe-pure 0 _

  Safe-command_complete0 : Safe 0 0 decode_command_complete0
  unfolding decode_command_complete0
  Safe-command_complete0 =
      Safe-counted_headers 6 (omega arith) λ headers. Safe->>= _ Safe-bytes λ status. Safe-pure 0 _

  -- The byte of a cardinality, where one byte is known to be there.
  Safe-cardinality :
      {B : Type 0} {f : Cardinality → Decoder B}
      → ((c : Cardinality) → Safe 0 0 (f c))
      → Safe 1 0 (take_or_panic C.get_u8 >>= λ i. lift (try_from_u8 i) >>= f)
  Safe-cardinality s =
      Safe->>= _ (Safe-u8 0) λ i. Safe->>= _ (Safe-lift 0 (cardinality-ne-panic i)) s

  Safe-prepare_complete : Safe 0 0 decode_prepare_complete
  unfolding decode_prepare_complete
  Safe-prepare_complete = Safe-counted_headers 35 (omega arith) λ headers.
      Safe->> (Safe-ensure 0 33) (
        Safe-weaken 33 0 (omega arith) (omega arith) (
          Safe-cardinality
            λ c. Safe->>= _ Safe-uuid λ input. Safe->>= _ Safe-uuid λ output. Safe-pure 0 _))

  Safe-command_data_description0 :
      (p : ProtocolVersion) → Safe 0 0 (decode_command_data_description0 p)
  unfolding decode_command_data_description0
  Safe-command_data_description0 p = Safe-counted_headers 43 (omega arith) λ headers.
      Safe->> (Safe-ensure 0 41) (
        Safe-weaken 41 0 (omega arith) (omega arith) (
          Safe-cardinality λ c. Safe->>= _ Safe-uuid λ input. Safe->>= _ Safe-bytes λ input_desc.
            Safe->>= _ Safe-uuid λ output. Safe->>= _ Safe-bytes λ output_desc. Safe-pure 0 _))

  Safe-command_data_description1 :
      (p : ProtocolVersion) → Safe 0 0 (decode_command_data_description1 p)
  unfolding decode_command_data_description1
  Safe-command_data_description1 p = Safe-count 51 (omega arith) λ n.
      Safe->>= _ (Safe-repeat n _ _ (Safe-annotation 4)) λ annotations. Safe->> (Safe-ensure 0 49) (
        Safe->>= _ (Safe-weaken 49 1 (omega arith) (omega arith) (Safe-u64 41)) λ capabilities.
          Safe-cardinality λ c. Safe->>= _ Safe-uuid λ input. Safe->>= _ Safe-bytes λ input_desc.
            Safe->>= _ Safe-uuid λ output. Safe->>= _ Safe-bytes λ output_desc. Safe-pure 0 _)

  Safe-state_data_description : Safe 0 0 decode_state_data_description
  unfolding decode_state_data_description
  Safe-state_data_description =
      Safe->>= _ Safe-uuid λ id. Safe->>= _ Safe-bytes λ desc. Safe-pure 0 _

  Safe-data : Safe 0 0 decode_data
  unfolding decode_data
  Safe-data =
      Safe-count 2 (omega arith)
        λ n. Safe->>= _ (Safe-pushed decode_bytes n Safe-bytes) λ chunks. Safe-pure 0 _

  Safe-restore_ready : Safe 0 0 decode_restore_ready
  unfolding decode_restore_ready
  Safe-restore_ready =
      Safe-counted_headers 4 (omega arith)
        λ headers. Safe->> (Safe-ensure 0 2) (Safe->>= _ (Safe-u16 0) λ jobs. Safe-pure 0 _)

  Safe-raw_packet : Safe 0 0 decode_raw_packet
  unfolding decode_raw_packet
  Safe-raw_packet = Safe->>= _ Safe-copy_remaining λ payload. Safe-pure 0 _

  -- The codes whose decoders can be left without the bytes that they read unchecked:
  -- ServerHandshake, and CommandComplete from version 1 on.
  abbrev pub ReadsUnchecked : ProtocolVersion → (code : ℕ) → Type 0
  ReadsUnchecked p code = (code ≡ 0x76) ⊎ ((code ≡ 0x43) × (is_1 p ≡ true))

  body-Safe :
      (p : ProtocolVersion) (code : ℕ)
      → ¬ (ReadsUnchecked p code)
      → Safe 0 0 (decode_server_body p code)
  unfolding decode_server_body
  body-Safe p code checked =
      if-Safe (code == 0x76) (λ c. absurd (checked (inl ((==_iff _ _).0 c))))
        λ _.
          if-Safe (code == 0x45) (λ _. Safe-read_as _ Safe-error_response)
            λ _.
              if-Safe (code == 0x4c) (λ _. Safe-read_as _ Safe-log_message)
                λ _.
                  if-Safe (code == 0x52) (λ _. Safe-read_as _ Safe-authentication)
                    λ _.
                      if-Safe (code == 0x5a) (λ _. Safe-read_as _ Safe-ready_for_command)
                        λ _.
                          if-Safe (code == 0x4b) (λ _. Safe-read_as _ Safe-server_key_data)
                            λ _.
                              if-Safe (code == 0x53) (λ _. Safe-read_as _ (Safe-parameter_status p))
                                λ _.
                                  if-Safe (code == 0x43)
                                    (λ c.
                                      if-Safe (is_1 p)
                                        (λ new. absurd (checked (inr ((==_iff _ _).0 c, new))))
                                        λ _. Safe-read_as _ Safe-command_complete0)
                                    λ _.
                                      if-Safe (code == 0x31)
                                        (λ _. Safe-read_as _ Safe-prepare_complete)
                                        λ _.
                                          if-Safe (code == 0x44) (λ _. Safe-read_as _ Safe-data)
                                            λ _.
                                              if-Safe (code == 0x2b)
                                                (λ _. Safe-read_as _ Safe-restore_ready)
                                                λ _.
                                                  if-Safe (code == 0x40)
                                                    (λ _. Safe-read_as _ Safe-raw_packet)
                                                    λ _.
                                                      if-Safe (code == 0x3d)
                                                        (λ _. Safe-read_as _ Safe-raw_packet)
                                                        λ _.
                                                          if-Safe (code == 0x54)
                                                            (λ _.
                                                            if-Safe (is_1 p)
                                                            (λ _.
                                                            Safe-read_as _
                                                            (Safe-command_data_description1 p))
                                                            λ _.
                                                            Safe-read_as _
                                                            (Safe-command_data_description0 p))
                                                            λ _.
                                                            if-Safe (code == 0x73)
                                                            (λ _.
                                                            Safe-read_as _
                                                            Safe-state_data_description)
                                                            λ _. Safe-read_as _ Safe-copy_remaining

  -- Whatever bytes stand behind the code, `ServerMessage::decode` does not panic on a frame of five
  -- bytes or more, but for ServerHandshake, and for CommandComplete from version 1 on.
  pub decode_server_message-ne-panic :
      (p : ProtocolVersion) (code : ℕ) (bytes : List ℕ)
      → ¬ (ReadsUnchecked p code)
      → 4 ≤ length bytes
      → decode_server_message p (code ∷ bytes) ≢ panic
  unfolding decode_server_message
  decode_server_message-ne-panic p code bytes checked h =
      decode_frame-ne-panic (decode_server_body p) code bytes (body-Safe p code checked) h
