-- ===== src/Wire/Encoding.antt =====
-- edgedb-protocol/src/encoding.rs: texts, byte strings, identifiers and maps, and the frame round a
-- message. A `String` and a `Bytes` are lists of bytes.
pub mod RoundTrip
pub mod Safety
use edgedb_rust.Base.{
  ℕ, ◌-◌, ◌+◌, ◌^◌, List, [], ◌∷◌, ◌++◌, Result, ok, err, panic, ok_or, length, take, drop,
}
use edgedb_rust.Base.HashMap.{insert, nat_eq, list_eq}
use edgedb_rust.Wire.{
  DecodeError, invalid_utf8, invalid_uuid, EncodeError, string_too_long, too_many_headers,
  message_too_long, to_be_bytes, from_utf8, Crates,
}
use edgedb_rust.Wire.Decoder.{
  Decoder, pure, take_or_panic, lift, ensure_remaining, repeat, ◌>>=◌, ◌>>◌,
}
use edgedb_rust.Wire.Encoder
use edgedb_rust.Wire.Encoder.{Encoder, put, put_checked, for_each, try_from}

abbrev pub KeyValues : Type 0
KeyValues = List (ℕ × List ℕ)

abbrev pub Annotations : Type 0
Annotations = List (List ℕ × List ℕ)

-- `buf[base..base+4].copy_from_slice(&size.to_be_bytes()[..])`, where `size` is the length from
-- `base` on.
patch_length : (base : ℕ) → List ℕ → Result EncodeError (List ℕ)
patch_length base out = elim (ok_or message_too_long (try_from (2 ^ 32) (length out - base))) [
  | ok size ↦ ok (take base out ++ (to_be_bytes 4 size ++ drop (base + 4) out))
  | err e ↦ err e
  | panic ↦ panic
]

module _ ⦃C : Crates⦄ where
  unfoldable pub encode_string : List ℕ → Encoder
  encode_string s =
      Encoder.◌>>◌ (put_checked (2 ^ 32) string_too_long C.put_u32 (length s)) (put (C.extend s))

  unfoldable pub encode_bytes : List ℕ → Encoder
  encode_bytes b =
      Encoder.◌>>◌ (put_checked (2 ^ 32) string_too_long C.put_u32 (length b)) (put (C.extend b))

  unfoldable pub encode_uuid : List ℕ → Encoder
  encode_uuid u = put (C.extend u)

  unfoldable pub decode_string : Decoder (List ℕ)
  decode_string = do
    ensure_remaining 4
    len ← take_or_panic C.get_u32
    ensure_remaining len
    text ← take_or_panic (C.copy_to_slice len)
    lift (ok_or invalid_utf8 (from_utf8 text))

  unfoldable pub decode_bytes : Decoder (List ℕ)
  decode_bytes = do
    ensure_remaining 4
    len ← take_or_panic C.get_u32
    ensure_remaining len
    take_or_panic (C.copy_to_bytes len)

  unfoldable pub decode_uuid : Decoder (List ℕ)
  decode_uuid = do
    ensure_remaining 16
    bytes ← take_or_panic (C.copy_to_slice 16)
    lift (ok_or invalid_uuid (C.from_slice bytes))

  -- `for (&name, value) in &headers { buf.put_u16(name); value.encode(buf)?; }`
  unfoldable pub encode_header : ℕ × List ℕ → Encoder
  encode_header (name, value) = Encoder.◌>>◌ (put (C.put_u16 name)) (encode_bytes value)

  -- The count of the headers, then the headers.
  unfoldable pub encode_headers : KeyValues → Encoder
  encode_headers headers =
      Encoder.◌>>◌ (put_checked (2 ^ 16) too_many_headers C.put_u16 (length headers))
        (for_each encode_header headers)

  -- `headers.insert(buf.get_u16(), Bytes::decode(buf)?)` behind its length check.
  unfoldable pub decode_header : KeyValues → Decoder KeyValues
  decode_header headers = do
    ensure_remaining 4
    name ← take_or_panic C.get_u16
    value ← decode_bytes
    pure (insert name value headers)

  unfoldable pub decode_headers : (count : ℕ) → Decoder KeyValues
  decode_headers count = repeat count decode_header []

  unfoldable pub encode_annotation : List ℕ × List ℕ → Encoder
  encode_annotation (name, value) = Encoder.◌>>◌ (encode_string name) (encode_string value)

  unfoldable pub encode_annotations : Annotations → Encoder
  encode_annotations annotations =
      Encoder.◌>>◌ (put_checked (2 ^ 16) too_many_headers C.put_u16 (length annotations))
        (for_each encode_annotation annotations)

  -- `annotations.insert(String::decode(buf)?, String::decode(buf)?)` with no check before it.
  unfoldable pub decode_param : Annotations → Decoder Annotations
  decode_param annotations = do
    name ← decode_string
    value ← decode_string
    pure (insert name value annotations)

  -- The same behind a check for `least` bytes.
  unfoldable pub decode_annotation : (least : ℕ) → Annotations → Decoder Annotations
  decode_annotation least annotations = do ensure_remaining least; decode_param annotations

  -- `encode(buf, code, msg)`: the code, then the length of what follows it, patched in at the end.
  unfoldable pub encode : (code : ℕ) → (msg : Encoder) → Encoder
  unfolding patch_length
  encode code msg buf =
      let start = C.put_u8 code buf in
      elim (msg (C.put_slice (0 ∷ 0 ∷ 0 ∷ 0 ∷ []) start)) [
        | ok out ↦ patch_length (length start) out
        | err e ↦ err e
        | panic ↦ panic
      ]
