-- ===== src/Client/Safety.antt =====
-- Which client messages can be decoded from any input without a panic.
use edgedb_rust.Base.{
  ℕ, ◌≤◌, ◌≡◌, ◌≢◌, List, ◌∷◌, false, ◌⊎◌, ==_iff, inl, inr, panic, length, arith,
}
use edgedb_rust.Base.HashMap.{nat_eq, ◌==◌}
use edgedb_rust.Wire.Extensions.{Extensions}
use edgedb_rust.Wire.{Crates}
use edgedb_rust.Wire.Decoder.{Decoder, take_or_panic, lift, ◌>>=◌}
use edgedb_rust.Wire.Decoder.Safe.{
  Safe, Safe-pure, Safe-lift, Safe-weaken, Safe->>=, Safe->>, Safe-ensure, Safe-u8, Safe-u16,
  Safe-u64, Safe-copy_remaining, Safe-repeat, if-Safe,
}
use edgedb_rust.Wire.Frame.{Safe-read_as, decode_frame-ne-panic}
use edgedb_rust.Wire.Encoding.Safety.{
  Safe-count, Safe-counted_headers, Safe-string, Safe-bytes, Safe-uuid, Safe-param, Safe-annotation,
}
use edgedb_rust.Protocol.{
  ProtocolVersion, IoFormat, Cardinality, is_1, try_from_u8, io_format_from_u8, aspect_from_u8,
  cardinality-ne-panic, decode_capabilities, decode_compilation_flags,
}
use edgedb_rust.Client.Decode.{
  decode_extension, decode_client_handshake, decode_sasl_initial_response, decode_sasl_response,
  decode_execute_script, decode_prepare, decode_describe_statement, decode_execute0,
  decode_execute1, decode_dump, decode_restore_block, decode_parse,
}
use edgedb_rust.Client.Message.{decode_body, decode_message}

format-ne-panic : (c : ℕ) → io_format_from_u8 c ≢ panic
unfolding io_format_from_u8
format-ne-panic c e = ground arith

aspect-ne-panic : (c : ℕ) → aspect_from_u8 c ≢ panic
unfolding aspect_from_u8
aspect-ne-panic c e = ground arith

module _ ⦃C : Crates⦄ where
  capabilities-ne-panic : (n : ℕ) → decode_capabilities n ≢ panic
  unfolding decode_capabilities
  capabilities-ne-panic n e = ground arith

  flags-ne-panic : (n : ℕ) → decode_compilation_flags n ≢ panic
  unfolding decode_compilation_flags
  flags-ne-panic n e = ground arith

  Safe-extension : (m : Extensions) → Safe 0 0 (decode_extension m)
  unfolding decode_extension
  Safe-extension m =
      Safe->>= _ Safe-string λ name. Safe-counted_headers 2 (omega arith) (λ headers. Safe-pure 0 _)

  Safe-client_handshake : Safe 0 0 decode_client_handshake
  unfolding decode_client_handshake
  Safe-client_handshake = Safe->> (Safe-ensure 0 8) (
      Safe->>= _ (Safe-u16 6) λ major. Safe->>= _ (Safe-u16 4) λ minor.
        Safe->>= _ (Safe-weaken 4 0 (omega arith) (omega arith) (Safe-u16 2)) λ num_params.
          Safe->>= _ (Safe-repeat num_params _ _ Safe-param) λ params.
            Safe-count 2 (omega arith) (λ num_ext.
              Safe->>= _ (Safe-repeat num_ext _ _ Safe-extension) (λ extensions. Safe-pure 0 _)))

  Safe-sasl_initial_response : Safe 0 0 decode_sasl_initial_response
  unfolding decode_sasl_initial_response
  Safe-sasl_initial_response =
      Safe->>= _ Safe-string λ method. Safe->>= _ Safe-bytes λ payload. Safe-pure 0 _

  Safe-sasl_response : Safe 0 0 decode_sasl_response
  unfolding decode_sasl_response
  Safe-sasl_response = Safe->>= _ Safe-bytes λ payload. Safe-pure 0 _

  Safe-execute_script : Safe 0 0 decode_execute_script
  unfolding decode_execute_script
  Safe-execute_script =
      Safe-counted_headers 6 (omega arith) λ headers. Safe->>= _ Safe-string λ text. Safe-pure 0 _

  -- The bytes of a format and a cardinality, where two bytes are known to be there.
  Safe-format :
      {B : Type 0} {f : IoFormat → Cardinality → Decoder B}
      → ((x : IoFormat) (c : Cardinality) → Safe 0 0 (f x c))
      → Safe 2 0 (
          take_or_panic C.get_u8 >>= λ i. lift (io_format_from_u8 i) >>= λ x.
          take_or_panic C.get_u8 >>= λ j. lift (try_from_u8 j) >>= λ c. f x c)
  Safe-format s = Safe->>= _ (Safe-u8 1) λ i.
      Safe->>= _ (Safe-lift 1 (format-ne-panic i)) λ x.
        Safe->>= _ (Safe-u8 0) λ j. Safe->>= _ (Safe-lift 0 (cardinality-ne-panic j)) λ c. s x c

  Safe-prepare : Safe 0 0 decode_prepare
  unfolding decode_prepare
  Safe-prepare = Safe-counted_headers 12 (omega arith) λ headers. Safe->> (Safe-ensure 0 8) (
      Safe-weaken 8 0 (omega arith) (omega arith) (
        Safe-format
          λ x c. Safe->>= _ Safe-bytes λ name. Safe->>= _ Safe-string λ text. Safe-pure 0 _))

  Safe-describe_statement : Safe 0 0 decode_describe_statement
  unfolding decode_describe_statement
  Safe-describe_statement = Safe-counted_headers 12 (omega arith) λ headers.
      Safe->> (Safe-ensure 0 8) (
        Safe->>= _ (Safe-weaken 8 0 (omega arith) (omega arith) (Safe-u8 7)) λ c.
          Safe->>= _ (Safe-lift 0 (aspect-ne-panic c))
            λ aspect. Safe->>= _ Safe-bytes λ name. Safe-pure 0 _)

  Safe-execute0 : Safe 0 0 decode_execute0
  unfolding decode_execute0
  Safe-execute0 =
      Safe-counted_headers 12 (omega arith)
        λ headers. Safe->>= _ Safe-bytes λ name. Safe->>= _ Safe-bytes λ arguments. Safe-pure 0 _

  -- The three integers that Parse and Execute1 have before the output format, and the two bytes of
  -- the latter.
  Safe-flags :
      {B : Type 0} {f : ℕ → ℕ → ℕ → Decoder B}
      → ((c g l : ℕ) → Safe 2 0 (f c g l))
      → Safe 26 0 (
          take_or_panic C.get_u64 >>= λ i. lift (decode_capabilities i) >>= λ c.
          take_or_panic C.get_u64 >>= λ j.
          lift (decode_compilation_flags j) >>= λ g. take_or_panic C.get_u64 >>= λ l. f c g l)
  Safe-flags s = Safe->>= _ (Safe-u64 18) λ i.
      Safe->>= _ (Safe-lift 18 (capabilities-ne-panic i)) λ c.
        Safe->>= _ (Safe-u64 10) λ j.
          Safe->>= _ (Safe-lift 10 (flags-ne-panic j)) λ g. Safe->>= _ (Safe-u64 2) λ l. s c g l

  Safe-parse : Safe 0 0 decode_parse
  unfolding decode_parse
  Safe-parse = Safe-count 52 (omega arith) λ n.
      Safe->>= _ (Safe-repeat n _ _ (Safe-annotation 8)) λ annotations. Safe->> (Safe-ensure 0 50) (
        Safe-weaken 50 0 (omega arith) (omega arith) (
          Safe-flags λ c g l. Safe-format λ x k.
            Safe->>= _ Safe-string
              λ text. Safe->>= _ Safe-uuid λ id. Safe->>= _ Safe-bytes λ state. Safe-pure 0 _))

  Safe-execute1 : Safe 0 0 decode_execute1
  unfolding decode_execute1
  Safe-execute1 = Safe-count 88 (omega arith) λ n.
      Safe->>= _ (Safe-repeat n _ _ (Safe-annotation 4)) λ annotations. Safe->> (Safe-ensure 0 86) (
        Safe-weaken 86 0 (omega arith) (omega arith) (
          Safe-flags λ c g l. Safe-format λ x k. Safe->>= _ Safe-string λ text.
            Safe->>= _ Safe-uuid λ id. Safe->>= _ Safe-bytes λ state. Safe->>= _ Safe-uuid λ input.
              Safe->>= _ Safe-uuid λ output. Safe->>= _ Safe-bytes λ arguments. Safe-pure 0 _))

  Safe-dump : Safe 0 0 decode_dump
  unfolding decode_dump
  Safe-dump = Safe-counted_headers 12 (omega arith) λ headers. Safe-pure 0 _

  Safe-restore_block : Safe 0 0 decode_restore_block
  unfolding decode_restore_block
  Safe-restore_block = Safe->>= _ Safe-copy_remaining λ payload. Safe-pure 0 _

  -- The codes whose decoders can be left without the bytes that they read unchecked: Restore, and
  -- OptimisticExecute, which is decoded below version 1.
  abbrev pub ReadsUnchecked : ProtocolVersion → (code : ℕ) → Type 0
  ReadsUnchecked p code = (code ≡ 0x3c) ⊎ ((code ≡ 0x4f) × (is_1 p ≡ false))

  body-Safe :
      (p : ProtocolVersion) (code : ℕ) → ¬ (ReadsUnchecked p code) → Safe 0 0 (decode_body p code)
  unfolding decode_body
  body-Safe p code checked =
      if-Safe (code == 0x56) (λ _. Safe-read_as _ Safe-client_handshake)
        λ _.
          if-Safe (code == 0x70) (λ _. Safe-read_as _ Safe-sasl_initial_response)
            λ _.
              if-Safe (code == 0x72) (λ _. Safe-read_as _ Safe-sasl_response)
                λ _.
                  if-Safe (code == 0x51) (λ _. Safe-read_as _ Safe-execute_script)
                    λ _.
                      if-Safe (code == 0x50)
                        (λ _.
                          if-Safe (is_1 p) (λ _. Safe-read_as _ Safe-parse)
                            λ _. Safe-read_as _ Safe-prepare)
                        λ _.
                          if-Safe (code == 0x45) (λ _. Safe-read_as _ Safe-execute0)
                            λ _.
                              if-Safe (code == 0x4f)
                                (λ c.
                                  if-Safe (is_1 p) (λ _. Safe-read_as _ Safe-execute1)
                                    λ old. absurd (checked (inr ((==_iff _ _).0 c, old))))
                                λ _.
                                  if-Safe (code == 0x3e) (λ _. Safe-read_as _ Safe-dump)
                                    λ _.
                                      if-Safe (code == 0x3c)
                                        (λ c. absurd (checked (inl ((==_iff _ _).0 c))))
                                        λ _.
                                          if-Safe (code == 0x3d)
                                            (λ _. Safe-read_as _ Safe-restore_block)
                                            λ _.
                                              if-Safe (code == 0x2e) (λ _. Safe-pure 0 _)
                                                λ _.
                                                  if-Safe (code == 0x53) (λ _. Safe-pure 0 _)
                                                    λ _.
                                                      if-Safe (code == 0x48) (λ _. Safe-pure 0 _)
                                                        λ _.
                                                          if-Safe (code == 0x58)
                                                            (λ _. Safe-pure 0 _)
                                                            λ _.
                                                            if-Safe (code == 0x44)
                                                            (λ _.
                                                            Safe-read_as _ Safe-describe_statement)
                                                            λ _. Safe-read_as _ Safe-copy_remaining

  -- Whatever bytes stand behind the code, `ClientMessage::decode` does not panic on a frame of five
  -- bytes or more, but for Restore, and for OptimisticExecute below version 1.
  pub decode_message-ne-panic :
      (p : ProtocolVersion) (code : ℕ) (bytes : List ℕ)
      → ¬ (ReadsUnchecked p code)
      → 4 ≤ length bytes
      → decode_message p (code ∷ bytes) ≢ panic
  unfolding decode_message
  decode_message-ne-panic p code bytes checked h =
      decode_frame-ne-panic (decode_body p) code bytes (body-Safe p code checked) h
