-- ===== src/Descriptors/RoundTrip.antt =====
-- Descriptors and type descriptions on their bytes in the protocol.
use edgedb_rust.Base.{
  ℕ, zero, suc, ◌<◌, ◌≤◌, ◌≡◌, refl, ap, sym, ◌∙◌, Bool, true, false, leb, Bool-cases, inl, inr,
  if◌then◌else◌, List, [], ◌∷◌, ◌++◌, append-nil, append_assoc, Option, some, Result, ok, err,
  panic, map_ok, length, length-append, All, arith,
}
use edgedb_rust.Base.HashMap.{nat_eq, list_eq}
use edgedb_rust.Wire.{Crates, DecodeError}
use edgedb_rust.Wire.Frame.{read_as}
use edgedb_rust.Wire.Encoder.Writes.{bytes_of_all}
use edgedb_rust.Wire.Decoder.{Decoder}
use edgedb_rust.Wire.Decoder.Reads.{Reads, Reads-pure, Reads-map, Reads-ensure, Reads-peek}
use edgedb_rust.Wire.Encoding.RoundTrip.{lengths}
use edgedb_rust.Protocol.{ProtocolVersion}
use edgedb_rust.Descriptors.{
  Descriptor, TypePos, set, object_shape, input_shape, base_scalar, scalar, tuple, named_tuple,
  array, range, enumeration, type_annotation,
}
use edgedb_rust.Descriptors.Wire.{IsDescriptor, wire_descriptor}
use edgedb_rust.Descriptors.Decode.{
  decode_descriptor, decode_descriptor_body, decode_type_annotation_descriptor,
}
use edgedb_rust.Descriptors.Reads.{
  Reads-set, Reads-object_shape, Reads-input_shape, Reads-base_scalar, Reads-scalar, Reads-tuple,
  Reads-named_tuple, Reads-array, Reads-range, Reads-enumeration, Reads-type_annotation,
}
use edgedb_rust.Descriptors.Typedesc.{
  OutputTypedesc, push_descriptor, root_position, decode_descriptors, decode_with_root,
  decode_with_id,
}

abbrev is_annotation : Descriptor → Bool
is_annotation (type_annotation a) = true
is_annotation _ = false

-- The descriptors without the annotations among them.
unfoldable pub kept : List Descriptor → List Descriptor
kept [] = []
kept (d ∷ ds) = if is_annotation d then kept ds else d ∷ kept ds

push_descriptor_lem :
    (ds : List Descriptor) (d : Descriptor)
    → push_descriptor ds d ≡ (if is_annotation d then ds else ds ++ (d ∷ []))
unfolding push_descriptor
push_descriptor_lem ds d = ground arith

pushed-kept :
    (acc ds : List Descriptor) (d : Descriptor)
    → push_descriptor acc d ++ kept ds ≡ acc ++ kept (d ∷ ds)
unfolding kept
pushed-kept acc ds d = elim (Bool-cases (is_annotation d)) [
  | inl drops ↦ rw (push_descriptor_lem acc d, drops) refl
  | inr keeps ↦ rw (push_descriptor_lem acc d, keeps) (append_assoc acc (d ∷ []) (kept ds))
]

length-wire_descriptor : (d : Descriptor) → 1 ≤ length (wire_descriptor d)
unfolding wire_descriptor
length-wire_descriptor d = ground arith

-- The description that a list of descriptors and the place of its root make.
abbrev pub described : List ℕ → ProtocolVersion → List Descriptor → Option TypePos → OutputTypedesc
described id p ds pos = record { proto = p; descriptors = ds; root_id = id; root_pos = pos }

module _ ⦃C : Crates⦄ where
  -- A descriptor is chosen by its tag.
  Reads-tagged :
      (p : ProtocolVersion) (t : ℕ) (bs : List ℕ) {A : Type 0} (f : A → Descriptor) {d : Decoder A}
      {a : A}
      → decode_descriptor_body p t ≡ read_as f d
      → Reads d (t ∷ bs) a
      → Reads (decode_descriptor p) (t ∷ bs) (f a)
  unfolding decode_descriptor read_as
  Reads-tagged p t bs f e r =
      Reads-ensure (omega lengths)
        (Reads-peek (decode_descriptor_body p) t bs (rw e (Reads-map _ r (Reads-pure _))))

  annotation_body :
      (p : ProtocolVersion) (t : ℕ)
      → 0x7F ≤ t
      → t ≤ 0xFF
      → decode_descriptor_body p t ≡ read_as type_annotation decode_type_annotation_descriptor
  unfolding decode_descriptor_body
  annotation_body p t lo hi = ground arith

  -- `Descriptor::decode` reads back every descriptor from its bytes.
  pub Reads-descriptor :
      (p : ProtocolVersion) (d : Descriptor)
      → IsDescriptor p d
      → Reads (decode_descriptor p) (wire_descriptor d) d
  unfolding decode_descriptor_body wire_descriptor IsDescriptor
  Reads-descriptor p (set d) v = Reads-tagged p 0 _ set refl (Reads-set d v)
  Reads-descriptor p (object_shape d) v =
      Reads-tagged p 1 _ object_shape refl (Reads-object_shape p d v)
  Reads-descriptor p (base_scalar d) v = Reads-tagged p 2 _ base_scalar refl (Reads-base_scalar d v)
  Reads-descriptor p (scalar d) v = Reads-tagged p 3 _ scalar refl (Reads-scalar d v)
  Reads-descriptor p (tuple d) v = Reads-tagged p 4 _ tuple refl (Reads-tuple d v)
  Reads-descriptor p (named_tuple d) v = Reads-tagged p 5 _ named_tuple refl (Reads-named_tuple d v)
  Reads-descriptor p (array d) v = Reads-tagged p 6 _ array refl (Reads-array d v)
  Reads-descriptor p (enumeration d) v = Reads-tagged p 7 _ enumeration refl (Reads-enumeration d v)
  Reads-descriptor p (input_shape d) v =
      Reads-tagged p 8 _ input_shape refl (Reads-input_shape p d v)
  Reads-descriptor p (range d) v = Reads-tagged p 9 _ range refl (Reads-range d v)
  Reads-descriptor p (type_annotation d) v =
      Reads-tagged p d.annotated_type _ type_annotation (annotation_body p _ v.1 v.2)
        (Reads-type_annotation d v)

  kept_nil : kept [] ≡ []
  unfolding kept
  kept_nil = refl

  descriptors_read :
      (fuel : ℕ) (p : ProtocolVersion) (acc ds : List Descriptor)
      → All (IsDescriptor p) ds
      → length (bytes_of_all wire_descriptor ds) < fuel
      → decode_descriptors fuel p acc (bytes_of_all wire_descriptor ds) ≡ some (ok (acc ++ kept ds))
  unfolding decode_descriptors
  descriptors_read zero p acc ds v h = absurd (omega arith)
  descriptors_read (suc fuel) p acc [] v h =
      ap (λ x. some (ok x)) (sym (append-nil acc) ∙ ap (◌++◌ acc) (sym kept_nil))
  descriptors_read (suc fuel) p acc (d ∷ ds) (vd, vs) h =
      rw
        (more, (Reads-descriptor p d vd).read (bytes_of_all wire_descriptor ds), decode_descriptors)
        (descriptors_read fuel p (push_descriptor acc d) ds vs
            (omega (lengths, length-wire_descriptor d))
          ∙ ap (λ x. some (ok x)) (pushed-kept acc ds d))
    where
      more : leb 1 (length (wire_descriptor d ++ bytes_of_all wire_descriptor ds)) ≡ true
      more = ground (
        arith,
        length-append (wire_descriptor d) (bytes_of_all wire_descriptor ds),
        length-wire_descriptor d,
      )

  rooted_read :
      {A : Type 0} (build : List Descriptor → Option TypePos → A) (ds : List Descriptor)
      (r : Result DecodeError (Option TypePos))
      → ◌≡◌ {A = Option (Result DecodeError A)}
          (elim r [ ok pos ↦ some (ok (build ds pos)) | err e ↦ some (err e) | panic ↦ some panic ])
          (some (map_ok (build ds) r))
  rooted_read build ds (ok pos) = refl
  rooted_read build ds (err e) = refl
  rooted_read build ds panic = refl

  pub decode_with_id_lem :
      (id : List ℕ) (p : ProtocolVersion) (ds : List Descriptor)
      → All (IsDescriptor p) ds
      → decode_with_id id p (bytes_of_all wire_descriptor ds)
        ≡ some (map_ok (described id p (kept ds)) (root_position id (kept ds)))
  unfolding decode_with_id decode_with_root
  decode_with_id_lem id p ds v =
      rw
        (
          decode_with_id,
          decode_with_root,
          descriptors_read (suc (length (bytes_of_all wire_descriptor ds))) p [] ds v (omega arith),
        )
        (rooted_read (described id p) (kept ds) (root_position id (kept ds)))
