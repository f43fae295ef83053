-- ===== src/Codecs/Typedesc.antt =====
-- edgedb-protocol/src/descriptors.rs: the methods of `OutputTypedesc` and `InputTypedesc` that turn
-- to codec.rs. A position fits two bytes, so that as many rounds as there are positions are enough.
pub mod Built
mod Tests
use edgedb_rust.Base.{ℕ, ◌^◌, Option, none, some, Result, ok, err, get_elem?}
use edgedb_rust.Wire.{Crates}
use edgedb_rust.Descriptors.{Descriptor, TypePos}
use edgedb_rust.Descriptors.Typedesc.{OutputTypedesc, InputTypedesc}
use edgedb_rust.Codecs.{Codec}
use edgedb_rust.Codecs.Scalars.{CodecError, unexpected_type_pos}
use edgedb_rust.Codecs.Build.{Build, build_codec}

-- `OutputTypedesc::build_codec`
unfoldable pub build_output_codec : ⦃C : Crates⦄ → OutputTypedesc → Build Codec
build_output_codec d = build_codec (2 ^ 16) d.root_pos d.descriptors

-- `InputTypedesc::build_codec`
unfoldable pub build_input_codec : ⦃C : Crates⦄ → InputTypedesc → Build Codec
build_input_codec d = build_codec (2 ^ 16) d.root_pos d.descriptors

-- `InputTypedesc::get`
unfoldable pub get : InputTypedesc → TypePos → Result CodecError Descriptor
get d type_pos = elim (get_elem? d.descriptors type_pos) [
  | none ↦ err (unexpected_type_pos type_pos)
  | some x ↦ ok x
]
