-- ===== src/Wire/Extensions.antt =====
-- The extensions of a handshake, which the client's and the server's messages write in one form.
use edgedb_rust.Base.{ℕ, ◌++◌, List, All, length}
use edgedb_rust.Base.HashMap.{IsMap, list_eq}
use edgedb_rust.Wire.{Crates}
use edgedb_rust.Wire.Encoder.{Encoder, ◌>>◌}
use edgedb_rust.Wire.Encoder.Writes.{Writes, Writes->>}
use edgedb_rust.Wire.Encoding.{KeyValues, encode_string, encode_headers}
use edgedb_rust.Wire.Encoding.RoundTrip.{
  IsU16, IsText, IsKeyValues, Writes-string, Writes-headers, wire_bytes, wire_headers,
}

-- `HashMap<String, KeyValues>`
abbrev pub Extensions : Type 0
Extensions = List (List ℕ × KeyValues)

abbrev pub IsExtension : List ℕ × KeyValues → Type 0
IsExtension x = IsText x.0 × IsKeyValues x.1

abbrev pub IsExtensions : Extensions → Type 0
IsExtensions m = IsU16 (length m) × All IsExtension m × IsMap m

abbrev pub wire_extension : List ℕ × KeyValues → List ℕ
wire_extension x = wire_bytes x.0 ++ wire_headers x.1

module _ ⦃C : Crates⦄ where
  unfoldable pub encode_extension : List ℕ × KeyValues → Encoder
  encode_extension (name, headers) = do encode_string name; encode_headers headers

  pub Writes-extension :
      (x : List ℕ × KeyValues) → IsExtension x → Writes (encode_extension x) (wire_extension x)
  unfolding encode_extension
  Writes-extension (name, headers) (hn, hh) =
      Writes->> (Writes-string name hn.0) (Writes-headers headers hh)
