-- ===== src/Client/Faults.antt =====
-- Where the client messages' encoders and decoders do not match, and where a decoder reads bytes
-- that it has not checked for.
use edgedb_rust.Base.{
  ℕ, ◌≤◌, ◌<◌, ◌≡◌, List, ◌++◌, append_assoc, append-nil, err, panic, false, length,
}
use edgedb_rust.Wire.{Crates, underflow, to_be_bytes}
use edgedb_rust.Wire.Decoder.Reads.{Reads-u16}
use edgedb_rust.Wire.Encoding.{KeyValues}
use edgedb_rust.Wire.Encoding.RoundTrip.{
  IsKeyValues, Reads-headers, wire_headers, wire_header, wire_frame,
}
use edgedb_rust.Wire.Encoder.Writes.{bytes_of_all}
use edgedb_rust.Wire.Decoder.Stops.{
  Panics-first, Panics-then, Panics-ensure, Underflows-ensure, Panics-u8, Panics-u16,
}
use edgedb_rust.Wire.Frame.{frame-panic, frame-underflow, read_as-Panics, read_as-Underflows}
use edgedb_rust.Protocol.{ProtocolVersion, is_1}
use edgedb_rust.Client.Types.{DescribeStatement, describe_statement}
use edgedb_rust.Client.Encode.{encode_describe_statement, encode_message}
use edgedb_rust.Client.Decode.{
  decode_restore, decode_optimistic_execute, decode_dump, decode_execute0,
  decode_describe_statement,
}
use edgedb_rust.Client.Message.{decode_body, decode_message}

module _ ⦃C : Crates⦄ where
  -- A Restore frame that ends behind its headers, or one byte later, makes `ClientMessage::decode`
  -- panic, once its headers pass the check for four bytes.
  pub decode_message-restore_cut :
      (p : ProtocolVersion) (m : KeyValues) (bs : List ℕ)
      → IsKeyValues m
      → length bs < 2
      → 4 ≤ length (wire_headers m ++ bs)
      → decode_message p (wire_frame 0x3c (wire_headers m ++ bs)) ≡ panic
  unfolding decode_message decode_body decode_restore
  decode_message-restore_cut p m bs hm h long =
      frame-panic (decode_body p) 0x3c (wire_headers m ++ bs) (
        read_as-Panics _ (
          Panics-ensure long (
            rw (append_assoc (to_be_bytes 2 (length m)) (bytes_of_all wire_header m) bs) (
              Panics-then _ _ (Reads-u16 _ hm.0)
                (Panics-then _ _ (Reads-headers m hm) (Panics-first _ (Panics-u16 bs h)))))))

  -- An OptimisticExecute frame that ends behind its headers makes `ClientMessage::decode` panic
  -- below version 1, once its headers pass the check for twelve bytes.
  pub decode_message-optimistic_execute_cut :
      (p : ProtocolVersion) (m : KeyValues)
      → is_1 p ≡ false
      → IsKeyValues m
      → 12 ≤ length (wire_headers m)
      → decode_message p (wire_frame 0x4f (wire_headers m)) ≡ panic
  unfolding decode_message decode_body decode_optimistic_execute
  decode_message-optimistic_execute_cut p m old hm long =
      frame-panic (decode_body p) 0x4f (wire_headers m) (
        rw old (
          read_as-Panics _ (
            Panics-ensure long (
              Panics-then _ _ (Reads-u16 _ hm.0) (
                rw (← append-nil (bytes_of_all wire_header m))
                  (Panics-then _ _ (Reads-headers m hm) (Panics-first _ Panics-u8)))))))

  -- `ClientMessage::decode` answers a Dump, Execute0 or DescribeStatement whose body is shorter than
  -- twelve bytes with an underflow, though such messages are encoded: a Dump without headers is two
  -- bytes, an Execute0 with empty fields ten, a DescribeStatement with an empty name seven.
  pub decode_message-short :
      (p : ProtocolVersion) (bs : List ℕ)
      → length bs < 12
      → (decode_message p (wire_frame 0x3e bs) ≡ err underflow)
        × (decode_message p (wire_frame 0x45 bs) ≡ err underflow)
        × (decode_message p (wire_frame 0x44 bs) ≡ err underflow)
  unfolding decode_message decode_body decode_dump decode_execute0 decode_describe_statement
  decode_message-short p bs h = (
    frame-underflow (decode_body p) 0x3e bs (read_as-Underflows _ (Underflows-ensure _ h)),
    frame-underflow (decode_body p) 0x45 bs (read_as-Underflows _ (Underflows-ensure _ h)),
    frame-underflow (decode_body p) 0x44 bs (read_as-Underflows _ (Underflows-ensure _ h)),
  )

  -- The encoder of DescribeStatement writes how many headers there are, and none of them: two
  -- statements that differ in the headers' names and values alone have the same frame.
  pub encode_message-describe_headers :
      (d d' : DescribeStatement) (buf : List ℕ)
      → length d.headers ≡ length d'.headers
      → d.aspect ≡ d'.aspect
      → d.statement_name ≡ d'.statement_name
      → encode_message (describe_statement d) buf ≡ encode_message (describe_statement d') buf
  unfolding encode_message encode_describe_statement
  encode_message-describe_headers d d' buf hh ha hn = rw (hh, ha, hn)
