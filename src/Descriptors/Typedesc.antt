-- ===== src/Descriptors/Typedesc.antt =====
-- edgedb-protocol/src/descriptors.rs: `OutputTypedesc` and `InputTypedesc`, and the methods of
-- server_message.rs that read an `InputTypedesc`.
use edgedb_rust.Base.{
  ℕ, zero, suc, ◌^◌, Bool, true, false, leb, ltb, ◌&&◌, List, [], ◌∷◌, ◌++◌, Option, none, some,
  Result, ok, err, panic, length, get_elem?, if◌then◌else◌,
}
use edgedb_rust.Base.HashMap.{◌==◌, nat_eq, list_eq}
use edgedb_rust.Wire.{DecodeError, uuid_not_found, too_many_descriptors, Crates}
use edgedb_rust.Protocol.{ProtocolVersion}
use edgedb_rust.Descriptors.{TypePos, Descriptor, descriptor_id, tuple, type_annotation}
use edgedb_rust.Descriptors.Decode.{decode_descriptor}

pub record OutputTypedesc : Type 0 where
  pub proto : ProtocolVersion
  pub descriptors : List Descriptor
  pub root_id : List ℕ
  pub root_pos : Option TypePos

pub record InputTypedesc : Type 0 where
  pub proto : ProtocolVersion
  pub descriptors : List Descriptor
  pub root_id : List ℕ
  pub root_pos : Option TypePos

-- `Uuid::from_u128(n)` of a number of one byte.
abbrev pub uuid_of_byte : ℕ → List ℕ
uuid_of_byte n = 0 ∷ 0 ∷ 0 ∷ 0 ∷ 0 ∷ 0 ∷ 0 ∷ 0 ∷ 0 ∷ 0 ∷ 0 ∷ 0 ∷ 0 ∷ 0 ∷ 0 ∷ n ∷ []

-- The `match` in the loop: an annotation is dropped, any other descriptor is pushed.
unfoldable pub push_descriptor : List Descriptor → Descriptor → List Descriptor
push_descriptor ds (type_annotation a) = ds
push_descriptor ds item = ds ++ (item ∷ [])

-- `iter().position(|x| *x.id() == id)`
unfoldable pub position : List ℕ → List Descriptor → Option ℕ
position id [] = none
position id (d ∷ ds) =
    let rest = position id ds in
    if descriptor_id d == id then some 0 else elim rest [ none ↦ none | some i ↦ some (suc i) ]

-- The position of the root, which the identifier zero does not have.
unfoldable pub root_position : List ℕ → List Descriptor → Result DecodeError (Option TypePos)
root_position root_id ds =
    if root_id == uuid_of_byte 0 then ok none else elim (position root_id ds) [
      | none ↦ err (uuid_not_found root_id)
      | some idx ↦ if ltb idx (2 ^ 16) then ok (some idx) else err (too_many_descriptors idx)
    ]

module _ ⦃C : Crates⦄ where
  -- `while buf.remaining() > 0`, for at most `fuel` rounds; `none` says that they were too few.
  unfoldable pub decode_descriptors :
      (fuel : ℕ)
      → ProtocolVersion
      → List Descriptor
      → List ℕ
      → Option (Result DecodeError (List Descriptor))
  unfolding push_descriptor
  decode_descriptors zero proto ds bs = none
  decode_descriptors (suc fuel) proto ds bs = elim (leb 1 (length bs)) [
    | false ↦ some (ok ds)
    | true ↦ elim (decode_descriptor proto bs) [
      | ok (d, rest) ↦ decode_descriptors fuel proto (push_descriptor ds d) rest
      | err e ↦ some (err e)
      | panic ↦ some panic
    ]
  ]

  -- What `OutputTypedesc::decode_with_id` and `input` share: the descriptors and the root's
  -- position. One round more than there are bytes is enough.
  unfoldable pub decode_with_root :
      {A : Type 0}
      → (List Descriptor → Option TypePos → A)
      → List ℕ
      → ProtocolVersion
      → List ℕ
      → Option (Result DecodeError A)
  unfolding decode_descriptors
  decode_with_root build root_id proto bs =
      elim (decode_descriptors (suc (length bs)) proto [] bs) [
        | none ↦ none
        | some (err e) ↦ some (err e)
        | some panic ↦ some panic
        | some (ok ds) ↦ elim (root_position root_id ds) [
          | ok root_pos ↦ some (ok (build ds root_pos))
          | err e ↦ some (err e)
          | panic ↦ some panic
        ]
      ]

  -- `OutputTypedesc::decode_with_id`
  unfoldable pub decode_with_id :
      List ℕ → ProtocolVersion → List ℕ → Option (Result DecodeError OutputTypedesc)
  decode_with_id root_id proto bs =
      decode_with_root
        (λ ds pos. record { proto = proto; descriptors = ds; root_id = root_id; root_pos = pos })
        root_id proto bs

  -- `CommandDataDescription0::input`, and the same of `CommandDataDescription1`, over their fields.
  unfoldable pub decode_input :
      List ℕ → ProtocolVersion → List ℕ → Option (Result DecodeError InputTypedesc)
  decode_input root_id proto bs =
      decode_with_root
        (λ ds pos. record { proto = proto; descriptors = ds; root_id = root_id; root_pos = pos })
        root_id proto bs

-- `InputTypedesc::root`
unfoldable pub root : InputTypedesc → Option Descriptor
root t = elim t.root_pos [ none ↦ none | some pos ↦ get_elem? t.descriptors pos ]

unfoldable pub is_nil : {A : Type 0} → List A → Bool
is_nil [] = true
is_nil (x ∷ xs) = false

-- `InputTypedesc::is_empty_tuple`
unfoldable pub is_empty_tuple : InputTypedesc → Bool
is_empty_tuple t = elim (root t) [
  | some (tuple d) ↦ d.id == uuid_of_byte 0xFF && is_nil d.element_types
  | _ ↦ false
]
