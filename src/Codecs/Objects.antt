-- ===== src/Codecs/Objects.antt =====
-- edgedb-protocol/src/codec.rs: the codecs of objects and of sparse objects (`Object` and `Input`),
-- over the codecs of their elements.
use edgedb_rust.Base.{
  ℕ, zero, suc, ◌-◌, ◌%◌, ◌^◌, Bool, true, false, ◌&&◌, List, [], ◌∷◌, Option, none, some, Result,
  ok, panic, map_ok, length, get_elem?, leb, if◌then◌else◌,
}
use edgedb_rust.Base.HashMap.{◌==◌, nat_eq, list_eq}
use edgedb_rust.Wire.{
  DecodeError, invalid_value, too_many_elements, object_shape_mismatch, invalid_index, Crates,
}
use edgedb_rust.Wire.Encoder.{Encoder, put, put_checked, done, refuse, for_each, ◌>>◌}
use edgedb_rust.Wire.Decoder
use edgedb_rust.Wire.Decoder.{Decoder, ensure_remaining, take_or_panic, pure, fail, lift, repeat}
use edgedb_rust.Time.Int.{ℤ, pos, negsuc}
use edgedb_rust.Protocol.{Cardinality, cardinality_u8}
use edgedb_rust.Codecs.{
  Value, Slot, missing, present, Slots, no_slots, slot, Fields, no_fields, absent, field, object,
  sparse_object, Element, ObjectShape, Codec,
}
use edgedb_rust.Codecs.Raw.{get_i32}
use edgedb_rust.Codecs.Composite.{
  Reader, and_then, computed, behind_header, read_object_element, new_object,
}
use edgedb_rust.Codecs.Collections.{put_element}

unfoldable pub equal_bools : Bool → Bool → Bool
equal_bools true b = b
equal_bools false true = false
equal_bools false false = true

unfoldable pub equal_cardinalities : Option Cardinality → Option Cardinality → Bool
equal_cardinalities none none = true
equal_cardinalities none (some d) = false
equal_cardinalities (some c) none = false
equal_cardinalities (some c) (some d) = cardinality_u8 c == cardinality_u8 d

-- `ShapeElement` derives its equality.
unfoldable pub equal_elements : Element → Element → Bool
unfolding equal_bools equal_cardinalities
equal_elements a b =
    equal_bools a.flag_implicit b.flag_implicit
    && equal_bools a.flag_link_property b.flag_link_property
    && equal_bools a.flag_link b.flag_link
    && equal_cardinalities a.cardinality b.cardinality
    && a.name == b.name

unfoldable pub equal_shapes : ObjectShape → ObjectShape → Bool
unfolding equal_elements
equal_shapes [] [] = true
equal_shapes [] (y ∷ ys) = false
equal_shapes (x ∷ xs) [] = false
equal_shapes (x ∷ xs) (y ∷ ys) = equal_elements x y && equal_shapes xs ys

unfoldable pub count_slots : Slots → ℕ
count_slots no_slots = 0
count_slots (slot x xs) = suc (count_slots xs)

-- `elements.read()?.map(|element| codec.decode(element)).transpose()`
unfoldable pub decode_slot : Codec → Option (List ℕ) → Result DecodeError Slot
decode_slot codec none = ok missing
decode_slot codec (some element) = map_ok present (codec.decode element)

-- `vec![None; n]`
unfoldable pub all_absent : ℕ → Fields
all_absent zero = no_fields
all_absent (suc n) = absent (all_absent n)

-- `fields[index] = Some(value)`, for an index in range.
unfoldable pub set_field : ℕ → Slot → Fields → Fields
set_field i x no_fields = no_fields
set_field zero x (absent fs) = field x fs
set_field zero x (field y fs) = field x fs
set_field (suc i) x (absent fs) = absent (set_field i x fs)
set_field (suc i) x (field y fs) = field y (set_field i x fs)

-- `dest_els.iter().position(|x| x.name == el.name)`
unfoldable pub position_of : List ℕ → ObjectShape → Option ℕ
position_of name [] = none
position_of name (e ∷ es) =
    let rest = position_of name es in
    if e.name == name then some 0 else elim rest [ none ↦ none | some i ↦ some (suc i) ]

-- The fields that are there and that the destination has, with their indexes in it.
unfoldable pub items_of : ObjectShape → Fields → ObjectShape → List (ℕ × Slot)
unfolding position_of
items_of dest (field x fs) (e ∷ es) =
    let rest = items_of dest fs es in
    elim (position_of e.name dest) [ none ↦ rest | some index ↦ (index, x) ∷ rest ]
items_of dest (absent fs) (e ∷ es) = items_of dest fs es
items_of dest fs es = []

module _ ⦃C : Crates⦄ where
  unfoldable pub decode_slots : List Codec → Reader Slots
  unfolding read_object_element and_then computed decode_slot
  decode_slots [] = computed (ok no_slots)
  decode_slots (codec ∷ codecs) = and_then read_object_element λ element.
      and_then (computed (decode_slot codec element))
        λ x. and_then (decode_slots codecs) λ xs. computed (ok (slot x xs))

  -- A missing value is written as the length -1.
  unfoldable pub encode_slot : (Value → Encoder) → Slot → Encoder
  unfolding put_element
  encode_slot one missing = put (C.put_u32 (2 ^ 32 - 1))
  encode_slot one (present v) = put_element (2 ^ 31) (one v)

  unfoldable pub encode_slots : List Codec → Slots → Encoder
  unfolding encode_slot
  encode_slots (codec ∷ codecs) (slot x xs) =
      put (C.put_u32 0) >> (encode_slot codec.encode x >> encode_slots codecs xs)
  encode_slots codecs xs = done

  unfoldable pub encode_object_value : ObjectShape → List Codec → Value → Encoder
  unfolding equal_shapes count_slots encode_slots
  encode_object_value shape codecs (object other fields) =
      if equal_shapes other shape && length codecs == count_slots fields
      then (put_checked (2 ^ 32) too_many_elements C.put_u32 (length codecs)
          >> encode_slots codecs fields)
      else refuse object_shape_mismatch
  encode_object_value shape codecs _ = refuse invalid_value

  unfoldable pub decode_object : ObjectShape → List Codec → List ℕ → Result DecodeError Value
  unfolding new_object decode_slots behind_header
  decode_object shape codecs buf =
      map_ok (object shape) (behind_header (new_object (length codecs) buf) (decode_slots codecs))

  -- `Object`
  unfoldable pub object_codec : ObjectShape → List Codec → Codec
  unfolding decode_object encode_object_value
  object_codec shape codecs = record {
    decode = decode_object shape codecs;
    encode = encode_object_value shape codecs;
  }

  -- `self.codecs[index].decode(&buf[..length])`, and what is left behind the `length` bytes: the
  -- slice panics if there are fewer.
  unfoldable pub decode_present : List Codec → (index length : ℕ) → Decoder Slot
  decode_present codecs index len buf = elim (C.copy_to_slice len buf) [
    | none ↦ panic
    | some (element, rest) ↦ elim (get_elem? codecs index) [
      | none ↦ panic
      | some codec ↦ map_ok (λ v. (present v, rest)) (codec.decode element)
    ]
  ]

  unfoldable pub decode_marked : List Codec → (index : ℕ) → ℤ → Decoder Slot
  unfolding decode_present
  decode_marked codecs index (pos len) = decode_present codecs index len
  decode_marked codecs index (negsuc n) = pure missing

  -- One round of the loop in `Input::decode`.
  unfoldable pub decode_field : List Codec → Fields → Decoder Fields
  unfolding get_i32 decode_marked set_field
  decode_field codecs fields = Decoder.◌>>◌ (ensure_remaining 8) (
      Decoder.◌>>=◌ (take_or_panic C.get_u32) (λ index.
        if leb (suc index) (length codecs)
        then (Decoder.◌>>=◌ get_i32 (λ len.
            Decoder.◌>>=◌ (decode_marked codecs index len) (λ x. pure (set_field index x fields))))
        else fail (invalid_index index)))

  unfoldable pub decode_fields : List Codec → Decoder Fields
  unfolding decode_field all_absent
  decode_fields codecs = Decoder.◌>>◌ (ensure_remaining 4) (
      Decoder.◌>>=◌ (take_or_panic C.get_u32)
        (λ count. repeat count (decode_field codecs) (all_absent (length codecs))))

  unfoldable pub decode_sparse : ObjectShape → List Codec → List ℕ → Result DecodeError Value
  unfolding decode_fields
  decode_sparse shape codecs buf = map_ok (λ r. sparse_object shape r.0) (decode_fields codecs buf)

  -- `self.codecs[index].encode(buf, value)`
  unfoldable pub encode_at : List Codec → ℕ → Value → Encoder
  encode_at codecs index v buf = elim (get_elem? codecs index) [
    | none ↦ panic
    | some codec ↦ codec.encode v buf
  ]

  unfoldable pub encode_item : List Codec → ℕ × Slot → Encoder
  unfolding encode_slot encode_at
  encode_item codecs (index, x) =
      put (C.put_u32 (index % 2 ^ 32)) >> encode_slot (encode_at codecs index) x

  unfoldable pub encode_sparse_value : ObjectShape → List Codec → Value → Encoder
  unfolding items_of encode_item
  encode_sparse_value shape codecs (sparse_object other fields) =
      let items = items_of shape fields other in
      put_checked (2 ^ 32) too_many_elements C.put_u32 (length items)
      >> for_each (encode_item codecs) items
  encode_sparse_value shape codecs _ = refuse invalid_value

  -- `Input`
  unfoldable pub input_codec : ObjectShape → List Codec → Codec
  unfolding decode_sparse encode_sparse_value
  input_codec shape codecs = record {
    decode = decode_sparse shape codecs;
    encode = encode_sparse_value shape codecs;
  }
