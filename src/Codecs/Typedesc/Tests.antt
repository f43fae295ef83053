-- ===== src/Codecs/Typedesc/Tests.antt =====
-- The description of a tuple, from its bytes to a codec.
use edgedb_rust.Base.{◌≡◌, refl, List, [], ◌∷◌, none, some, ok, err}
use edgedb_rust.Protocol.{ProtocolVersion}
use edgedb_rust.Descriptors.{Descriptor, base_scalar, tuple, array}
use edgedb_rust.Descriptors.Typedesc.{OutputTypedesc, InputTypedesc, uuid_of_byte}
use edgedb_rust.Codecs.Scalars.{uuid_of, unexpected_type_pos}
use edgedb_rust.Codecs.Typedesc.{get}

abbrev v1 : ProtocolVersion
v1 = record { major_ver = 1; minor_ver = 0 }

-- `std::int16`, an array of it, and a tuple of both.
abbrev types : List Descriptor
types =
    base_scalar (record { id = uuid_of 0x103 })
    ∷ array (record { id = uuid_of_byte 6; type_pos = 0; dimensions = none ∷ [] })
    ∷ tuple (record { id = uuid_of_byte 8; element_types = 0 ∷ 1 ∷ [] })
    ∷ []

abbrev typedesc : OutputTypedesc
typedesc = record { proto = v1; descriptors = types; root_id = uuid_of_byte 8; root_pos = some 2 }

abbrev arguments : InputTypedesc
arguments = record { proto = v1; descriptors = types; root_id = uuid_of_byte 8; root_pos = some 2 }

arguments_get :
    (get arguments 0 ≡ ok (base_scalar (record { id = uuid_of 0x103 })))
    × (get arguments 3 ≡ err (unexpected_type_pos 3))
unfolding get
arguments_get = (refl, refl)
