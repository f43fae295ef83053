-- ===== src/Server/Faults.antt =====
-- Where a decoder of the server's messages reads bytes that it has not checked for.
use edgedb_rust.Base.{ℕ, suc, ◌≤◌, ◌<◌, ◌≡◌, List, ◌++◌, append_assoc, panic, true, length}
use edgedb_rust.Wire.{Crates, to_be_bytes}
use edgedb_rust.Wire.Decoder.{repeat}
use edgedb_rust.Wire.Decoder.Reads.{Reads-u16}
use edgedb_rust.Wire.Decoder.Stops.{
  Panics-first, Panics-then, Panics-ensure, Panics-u16, Panics-u64,
}
use edgedb_rust.Wire.Encoding.{Annotations}
use edgedb_rust.Wire.Encoding.RoundTrip.{
  IsU16, IsText, IsAnnotations, Reads-params, Reads-string, wire_annotations, wire_annotation,
  wire_bytes, wire_frame, lengths,
}
use edgedb_rust.Wire.Encoder.Writes.{bytes_of_all}
use edgedb_rust.Wire.Frame.{frame-panic, read_as-Panics}
use edgedb_rust.Protocol.{ProtocolVersion, is_1}
use edgedb_rust.Server.Decode.{
  decode_server_handshake, decode_extension, decode_header_unchecked, decode_command_complete1,
}
use edgedb_rust.Server.Message.{decode_server_body, decode_server_message}

module _ ⦃C : Crates⦄ where
  -- A handshake that announces extensions, and of the first of them `count` headers.
  abbrev pub cut_handshake :
      (major minor extensions : ℕ) (name : List ℕ) (count : ℕ) → List ℕ → List ℕ
  cut_handshake major minor extensions name count bs =
      to_be_bytes 2 major
      ++ (to_be_bytes 2 minor
          ++ (to_be_bytes 2 extensions ++ (wire_bytes name ++ (to_be_bytes 2 count ++ bs))))

  -- A ServerHandshake frame that announces an extension or more, and a header or more of the first of
  -- them, and ends before that header or one byte later, makes `ServerMessage::decode` panic.
  pub decode_server_message-handshake_cut :
      (p : ProtocolVersion) (major minor extensions : ℕ) (name : List ℕ) (count : ℕ) (bs : List ℕ)
      → IsU16 major
      → IsU16 minor
      → IsU16 (suc extensions)
      → IsText name
      → IsU16 (suc count)
      → length bs < 2
      → decode_server_message p
          (wire_frame 0x76 (cut_handshake major minor (suc extensions) name (suc count) bs))
        ≡ panic
  unfolding decode_server_message decode_server_body decode_server_handshake decode_extension repeat
      decode_header_unchecked
  decode_server_message-handshake_cut p major minor extensions name count bs hm hn he ht hc h =
      frame-panic (decode_server_body p) 0x76 _ (
        read_as-Panics _ (
          Panics-ensure (omega lengths) (
            Panics-then _ _ (Reads-u16 major hm) (
              Panics-then _ _ (Reads-u16 minor hn) (
                Panics-then _ _ (Reads-u16 (suc extensions) he) (
                  Panics-first _ (
                    Panics-first _ (
                      Panics-then _ _ (Reads-string name ht) (
                        Panics-ensure (omega lengths) (
                          Panics-then _ _ (Reads-u16 (suc count) hc) (
                            Panics-first _
                              (Panics-first _ (Panics-first _ (Panics-u16 bs h))))))))))))))

  -- A CommandComplete frame that ends behind its annotations, or before the eighth byte after
  -- them, makes `ServerMessage::decode` panic from version 1 on, once its annotations pass the
  -- check for 26 bytes.
  pub decode_server_message-command_complete_cut :
      (p : ProtocolVersion) (m : Annotations) (bs : List ℕ)
      → is_1 p ≡ true
      → IsAnnotations m
      → length bs < 8
      → 26 ≤ length (wire_annotations m ++ bs)
      → decode_server_message p (wire_frame 0x43 (wire_annotations m ++ bs)) ≡ panic
  unfolding decode_server_message decode_server_body decode_command_complete1
  decode_server_message-command_complete_cut p m bs new hm h long =
      frame-panic (decode_server_body p) 0x43 (wire_annotations m ++ bs) (
        rw new (
          read_as-Panics _ (
            Panics-ensure long (
              rw (append_assoc (to_be_bytes 2 (length m)) (bytes_of_all wire_annotation m) bs) (
                Panics-then _ _ (Reads-u16 _ hm.0)
                  (Panics-then _ _ (Reads-params m hm) (Panics-first _ (Panics-u64 bs h))))))))
