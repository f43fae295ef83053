-- ===== src/Codecs/FieldTyping.antt =====
-- What the decoder of sparse objects in codec.rs gives: the loop over the fields keeps each field at
-- its index, and of the type that belongs to the index.
use edgedb_rust.Base.{
  ℕ, zero, suc, ◌≡◌, refl, List, [], ◌∷◌, Option, none, some, some-injective, Result, ok, err,
  panic, map_ok, length, get_elem?, leb,
}
use edgedb_rust.Base.HashMap.{nat_eq}
use edgedb_rust.Wire.{DecodeError, Crates}
use edgedb_rust.Wire.Decoder.{Decoder, pure, take_or_panic, ensure_remaining}
use edgedb_rust.Time.Int.{ℤ, pos, negsuc}
use edgedb_rust.Descriptors
use edgedb_rust.Descriptors.{Descriptor, TypePos}
use edgedb_rust.Codecs.{Codec, Value, Slot, present, Fields}
use edgedb_rust.Codecs.Raw.{get_i32}
use edgedb_rust.Codecs.Objects.{
  all_absent, set_field, decode_present, decode_marked, decode_field, decode_fields, decode_sparse,
}
use edgedb_rust.Codecs.Build.{shape_of}
use edgedb_rust.Codecs.Gives.{
  Gives, Gives-eq_ok, Gives-all, Gives-map_ok, GivesDecoded, Gives->>=, Gives->>, Gives-repeat,
  GivesDecoded-if,
}
use edgedb_rust.Codecs.Typing.{
  HasType, SlotHasType, FieldsHaveTypes, sparse_object_of, not_there, there, no_field, absent_field,
  one_field, element_positions,
}
use edgedb_rust.Codecs.DecodedTyping.{GivesTyped, AllTyped}

module _ ⦃C : Crates⦄ (ds : List Descriptor) where
  -- The value at an index has the type at the index.
  SlotFits : List TypePos → ℕ → Slot → Type 0
  SlotFits ts i x = (t : TypePos) → get_elem? ts i ≡ some t → SlotHasType ds t x

  set_field-HaveTypes :
      (ts : List TypePos) (i : ℕ) (x : Slot) (fs : Fields)
      → SlotFits ts i x
      → FieldsHaveTypes ds ts fs
      → FieldsHaveTypes ds ts (set_field i x fs)
  unfolding set_field SlotFits
  set_field-HaveTypes _ i x _ h no_field = no_field
  set_field-HaveTypes _ zero x _ h (absent_field k) = one_field (h _ refl) k
  set_field-HaveTypes _ zero x _ h (one_field y k) = one_field (h _ refl) k
  set_field-HaveTypes _ (suc i) x _ h (absent_field k) =
      absent_field (set_field-HaveTypes _ i x _ h k)
  set_field-HaveTypes _ (suc i) x _ h (one_field y k) =
      one_field y (set_field-HaveTypes _ i x _ h k)

  all_absent-HaveTypes :
      (ts : List TypePos) (cs : List Codec)
      → AllTyped ds ts cs
      → FieldsHaveTypes ds ts (all_absent (length cs))
  unfolding all_absent
  all_absent-HaveTypes [] [] h = no_field
  all_absent-HaveTypes [] (c ∷ cs) h = absurd h
  all_absent-HaveTypes (t ∷ ts) [] h = absurd h
  all_absent-HaveTypes (t ∷ ts) (c ∷ cs) (h, hs) = absent_field (all_absent-HaveTypes ts cs hs)

  typed_at :
      (ts : List TypePos) (cs : List Codec) (i : ℕ) (t : TypePos) (c : Codec)
      → AllTyped ds ts cs
      → get_elem? ts i ≡ some t
      → get_elem? cs i ≡ some c
      → GivesTyped ds t c.decode
  typed_at [] cs i t c h e k = absurd (cc)
  typed_at (u ∷ ts) [] i t c h e k = absurd h
  typed_at (u ∷ ts) (d ∷ cs) zero t c (h, hs) e k = rw (some-injective e, some-injective k) at h
  typed_at (u ∷ ts) (d ∷ cs) (suc i) t c (h, hs) e k = typed_at ts cs i t c hs e k

  Gives-present :
      (ts : List TypePos) (cs : List Codec) (i n : ℕ)
      → AllTyped ds ts cs
      → GivesDecoded (SlotFits ts i) (decode_present cs i n)
  unfolding decode_present SlotFits
  Gives-present ts cs i n hs buf = copied (C.copy_to_slice n buf)
    where
      at_index :
          (o : Option Codec) (element rest : List ℕ)
          → get_elem? cs i ≡ o
          → Gives {E = DecodeError}
              (λ (r : Slot × List ℕ). SlotFits ts i r.0)
              (elim o [
                | none ↦ panic
                | some codec ↦ map_ok (λ v. (present v, rest)) (codec.decode element)
              ])
      at_index none element rest k = tt
      at_index (some c) element rest k = each (c.decode element) refl
        where
          each :
              (r : Result DecodeError Value)
              → c.decode element ≡ r
              → Gives (λ (r : Slot × List ℕ). SlotFits ts i r.0) (map_ok (λ v. (present v, rest)) r)
          each (ok v) q =
              λ t e. there (Gives-eq_ok (HasType ds t) _ v (typed_at ts cs i t c hs e k element) q)
          each (err x) q = tt
          each panic q = tt

      copied :
          (o : Option (List ℕ × List ℕ))
          → Gives {E = DecodeError}
              (λ (r : Slot × List ℕ). SlotFits ts i r.0)
              (elim o [
                | none ↦ panic
                | some (element, rest) ↦ elim (get_elem? cs i) [
                  | none ↦ panic
                  | some codec ↦ map_ok (λ v. (present v, rest)) (codec.decode element)
                ]
              ])
      copied none = tt
      copied (some (element, rest)) = at_index (get_elem? cs i) element rest refl

  Gives-marked :
      (ts : List TypePos) (cs : List Codec) (i : ℕ) (len : ℤ)
      → AllTyped ds ts cs
      → GivesDecoded (SlotFits ts i) (decode_marked cs i len)
  unfolding decode_marked SlotFits pure
  Gives-marked ts cs i (pos n) hs buf = Gives-present ts cs i n hs buf
  Gives-marked ts cs i (negsuc n) hs buf = λ t e. not_there

  -- A decoder of which only what follows counts.
  Gives-any : {A : Type 0} (d : Decoder A) → GivesDecoded (λ _. Unit {0}) d
  Gives-any d bs = Gives-all _ (d bs) (λ _. tt)

  Gives-field :
      (ts : List TypePos) (cs : List Codec) (fs : Fields)
      → AllTyped ds ts cs
      → FieldsHaveTypes ds ts fs
      → GivesDecoded (FieldsHaveTypes ds ts) (decode_field cs fs)
  unfolding decode_field pure
  Gives-field ts cs fs hs k =
      Gives->> (λ _. Unit {0}) Fits (ensure_remaining 8) _
        (Gives->>= (λ _. Unit {0}) Fits (take_or_panic C.get_u32) _ (Gives-any _)
          λ i _. GivesDecoded-if Fits (leb (suc i) (length cs)) _ _ (
            Gives->>= (λ _. Unit {0}) Fits get_i32 _ (Gives-any _)
              λ len _.
                Gives->>= (SlotFits ts i) Fits (decode_marked cs i len) _
                  (Gives-marked ts cs i len hs) λ x hx bs. set_field-HaveTypes ts i x fs hx k))
    where
      Fits : Fields → Type 0
      Fits fs = FieldsHaveTypes ds ts fs

  pub Gives-sparse :
      (t : TypePos) (d : Descriptors.InputShapeTypeDescriptor) (cs : List Codec)
      → get_elem? ds t ≡ some (Descriptors.input_shape d)
      → AllTyped ds (element_positions d.elements) cs
      → GivesTyped ds t (decode_sparse (shape_of d.elements) cs)
  unfolding decode_sparse decode_fields
  Gives-sparse t d cs q hs buf =
      Gives-map_ok (λ (r : Fields × List ℕ). Fits r.0) (HasType ds t) _ _ (read buf)
        λ r k. sparse_object_of d q k
    where
      Fits : Fields → Type 0
      Fits fs = FieldsHaveTypes ds (element_positions d.elements) fs

      read : GivesDecoded Fits (decode_fields cs)
      read =
          Gives->> (λ _. Unit {0}) Fits (ensure_remaining 4) _
            (Gives->>= (λ _. Unit {0}) Fits (take_or_panic C.get_u32) _ (Gives-any _)
              λ count _.
                Gives-repeat Fits count (decode_field cs) _ (λ fs k. Gives-field _ cs fs hs k)
                  (all_absent-HaveTypes _ cs hs))
