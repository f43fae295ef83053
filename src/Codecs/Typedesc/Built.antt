-- ===== src/Codecs/Typedesc/Built.antt =====
-- From the bytes of a type description to a codec, and to the values that the codec decodes.
use edgedb_rust.Base.{
  ℕ, zero, suc, ◌^◌, ◌<◌, ◌≡◌, ◌≢◌, refl, Bool, true, false, leb, List, [], ◌∷◌, Option, none, some,
  some-injective, Result, ok, err, panic, length, All, All-append,
}
use edgedb_rust.Wire.{DecodeError, Crates}
use edgedb_rust.Protocol.{ProtocolVersion}
use edgedb_rust.Descriptors
use edgedb_rust.Descriptors.{Descriptor, TypePos}
use edgedb_rust.Descriptors.Decode.{decode_descriptor}
use edgedb_rust.Descriptors.Typedesc.{
  OutputTypedesc, push_descriptor, decode_descriptors, root_position, decode_with_root,
  decode_with_id,
}
use edgedb_rust.Descriptors.Root.{IsRoot, root_position-IsRoot}
use edgedb_rust.Codecs.{Codec, Value}
use edgedb_rust.Codecs.Build.{Build, build_codec}
use edgedb_rust.Codecs.Termination.{IsType, IsBackward, refers, Built, build-Built}
use edgedb_rust.Codecs.Typing.{HasRootType}
use edgedb_rust.Codecs.Size.{size}
use edgedb_rust.Codecs.Encodes.{Encodes}
use edgedb_rust.Codecs.Typedesc.{build_output_codec}

abbrev pub RefersBack : ℕ → List Descriptor → Type 0
RefersBack n [] = Unit {0}
RefersBack n (d ∷ ds) = All (λ t. t < n) (refers d) × RefersBack (suc n) ds

IsBackward-of : (n : ℕ) (ds : List Descriptor) → All IsType ds → RefersBack n ds → IsBackward n ds
IsBackward-of n [] h k = tt
IsBackward-of n (d ∷ ds) (h, hs) (k, ks) = ((h, k), IsBackward-of (suc n) ds hs ks)

push-IsType :
    (ds : List Descriptor) (d : Descriptor) → All IsType ds → All IsType (push_descriptor ds d)
unfolding push_descriptor
push-IsType ds (Descriptors.type_annotation a) h = h
push-IsType ds (Descriptors.base_scalar a) h = All-append ds _ IsType h (tt, tt)
push-IsType ds (Descriptors.set a) h = All-append ds _ IsType h (tt, tt)
push-IsType ds (Descriptors.object_shape a) h = All-append ds _ IsType h (tt, tt)
push-IsType ds (Descriptors.scalar a) h = All-append ds _ IsType h (tt, tt)
push-IsType ds (Descriptors.tuple a) h = All-append ds _ IsType h (tt, tt)
push-IsType ds (Descriptors.named_tuple a) h = All-append ds _ IsType h (tt, tt)
push-IsType ds (Descriptors.array a) h = All-append ds _ IsType h (tt, tt)
push-IsType ds (Descriptors.range a) h = All-append ds _ IsType h (tt, tt)
push-IsType ds (Descriptors.enumeration a) h = All-append ds _ IsType h (tt, tt)
push-IsType ds (Descriptors.input_shape a) h = All-append ds _ IsType h (tt, tt)

none-ne-some : {t : TypePos} → ◌≢◌ {A = Option TypePos} none (some t)
none-ne-some h = cc

-- If descriptors come out, they have the property.
abbrev Yields : {A : Type 0} → (A → Type 0) → Option (Result DecodeError A) → Type 0
Yields P none = Unit {0}
Yields P (some (ok a)) = P a
Yields P (some (err e)) = Unit {0}
Yields P (some panic) = Unit {0}

module _ ⦃C : Crates⦄ where
  decoded-IsType :
      (fuel : ℕ) (proto : ProtocolVersion) (ds : List Descriptor) (bs : List ℕ)
      → All IsType ds
      → Yields (All IsType) (decode_descriptors fuel proto ds bs)
  unfolding decode_descriptors
  decoded-IsType zero proto ds bs h = tt
  decoded-IsType (suc fuel) proto ds bs h =
      more (leb 1 (length bs)) (decode_descriptor proto bs)
        (λ ds bs h. decoded-IsType fuel proto ds bs h)
    where
      more :
          (b : Bool) (x : Result DecodeError (Descriptor × List ℕ))
          → ((ds : List Descriptor) (bs : List ℕ)
              → All IsType ds
              → Yields (All IsType) (decode_descriptors fuel proto ds bs))
          → Yields (All IsType) (elim b [
            | false ↦ some (ok ds)
            | true ↦ elim x [
              | ok (d, rest) ↦ decode_descriptors fuel proto (push_descriptor ds d) rest
              | err e ↦ some (err e)
              | panic ↦ some panic
            ]
          ])
      more false x k = h
      more true (ok (d, rest)) k = k (push_descriptor ds d) rest (push-IsType ds d h)
      more true (err e) k = tt
      more true panic k = tt

  -- No annotation, and a root at a position of two bytes.
  abbrev IsTypedesc : OutputTypedesc → Type 0
  IsTypedesc d = All IsType d.descriptors × ((t : TypePos) → d.root_pos ≡ some t → t < 2 ^ 16)

  decode_with_id-IsTypedesc :
      (root_id : List ℕ) (proto : ProtocolVersion) (bs : List ℕ)
      → Yields IsTypedesc (decode_with_id root_id proto bs)
  unfolding decode_with_id decode_with_root
  decode_with_id-IsTypedesc root_id proto bs =
      read (decode_descriptors (suc (length bs)) proto [] bs)
        (decoded-IsType (suc (length bs)) proto [] bs tt)
    where
      made : List Descriptor → Option TypePos → OutputTypedesc
      made ds pos = record { proto = proto; descriptors = ds; root_id = root_id; root_pos = pos }

      rooted :
          (ds : List Descriptor) (r : Result DecodeError (Option TypePos))
          → All IsType ds
          → IsRoot root_id ds r
          → Yields IsTypedesc (elim r [
            | ok root_pos ↦ some (ok (made ds root_pos))
            | err e ↦ some (err e)
            | panic ↦ some panic
          ])
      rooted ds (ok none) h k = (h, λ t e. absurd (none-ne-some e))
      rooted ds (ok (some i)) h k = (h, λ t e. rw (some-injective e) at (k.1))
      rooted ds (err e) h k = tt
      rooted ds panic h k = tt

      read :
          (o : Option (Result DecodeError (List Descriptor)))
          → Yields (All IsType) o
          → Yields IsTypedesc (elim o [
            | none ↦ none
            | some (err e) ↦ some (err e)
            | some panic ↦ some panic
            | some (ok ds) ↦ elim (root_position root_id ds) [
              | ok root_pos ↦ some (ok (made ds root_pos))
              | err e ↦ some (err e)
              | panic ↦ some panic
            ]
          ])
      read none h = tt
      read (some (err e)) h = tt
      read (some panic) h = tt
      read (some (ok ds)) h =
          rooted ds (root_position root_id ds) h (root_position-IsRoot root_id ds)

  root-Built :
      (root_pos : Option TypePos) (ds : List Descriptor)
      → IsBackward 0 ds
      → ((t : TypePos) → root_pos ≡ some t → t < 2 ^ 16)
      → Built (build_codec (2 ^ 16) root_pos ds)
  unfolding build_codec
  root-Built none ds back h = tt
  root-Built (some t) ds back h = build-Built (2 ^ 16) ds t back (h t refl)

  -- From any bytes of a type description: if they decode, and each descriptor refers to earlier
  -- ones only, then `OutputTypedesc::build_codec` comes back with a codec or an error, and does not
  -- panic.
  pub build_output_codec-Built :
      (root_id : List ℕ) (proto : ProtocolVersion) (bs : List ℕ) (d : OutputTypedesc)
      → decode_with_id root_id proto bs ≡ some (ok d)
      → RefersBack 0 d.descriptors
      → Built (build_output_codec d)
  unfolding build_output_codec
  build_output_codec-Built root_id proto bs d e back =
      let (types, root) = rw e at (decode_with_id-IsTypedesc root_id proto bs) in
      root-Built d.root_pos d.descriptors (IsBackward-of 0 d.descriptors types back) root

  -- What a codec makes of bytes: an error, or a value of the type that it encodes, unless the value
  -- takes so many bytes that a part of it can be too long.
  abbrev Reads : OutputTypedesc → Codec → Result DecodeError Value → Type 0
  Reads d c (ok v) = HasRootType d.descriptors d.root_pos v × Encodes (size v) (size v) (c.encode v)
  Reads d c (err e) = Unit {0}
  Reads d c panic = ⊥

  -- A codec that makes this of any bytes, or an error.
  abbrev pub Serves : OutputTypedesc → Build Codec → Type 0
  Serves d none = ⊥
  Serves d (some (ok c)) = (buf : List ℕ) → Reads d c (c.decode buf)
  Serves d (some (err e)) = Unit {0}
  Serves d (some panic) = ⊥
