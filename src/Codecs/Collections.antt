-- ===== src/Codecs/Collections.antt =====
-- edgedb-protocol/src/codec.rs: the codecs of sets, arrays, tuples, named tuples, ranges and
-- enumerations, over the codecs of what they hold.
use Prim.Native.Nat.{bit_and}
use edgedb_rust.Base.{
  ℕ, zero, suc, ◌+◌, ◌-◌, ◌^◌, Bool, true, false, not, ◌&&◌, ◌||◌, List, [], ◌∷◌, ◌++◌, Option,
  none, some, Result, ok, err, panic, map_ok, ok_or, length, take, drop, leb, if◌then◌else◌,
}
use edgedb_rust.Base.HashMap.{◌==◌, nat_eq, list_eq}
use edgedb_rust.Wire.{
  DecodeError, EncodeError, invalid_value, element_too_long, array_too_long, too_many_elements,
  tuple_shape_mismatch, object_shape_mismatch, missing_enum_value, extra_enum_value,
  missing_required_element, underflow, extra_data, invalid_array_shape, invalid_set_shape,
  to_be_bytes, Crates,
}
use edgedb_rust.Wire.Encoder.{Encoder, put, put_checked, done, refuse, try_from, ◌>>◌}
use edgedb_rust.Wire.Decoder
use edgedb_rust.Wire.Decoder.{Decoder, ensure_remaining, take_or_panic, pure, fail}
use edgedb_rust.Bignum.BigInt.{as_unsigned}
use edgedb_rust.Codecs.{
  Value, Values, nil, cons, Slot, missing, present, set, tuple, array, named_tuple, range, enum,
  NamedTupleShape, Codec,
}
use edgedb_rust.Codecs.Raw.{raw_str, get_i32}
use edgedb_rust.Codecs.Composite.{
  Inner, Reader, and_then, computed, behind_header, read_object_element, read_array_like_element,
  new_object, new_tuple, new_range, read_array_like_header,
}

-- `iter().position`, `HashSet::get`
unfoldable pub contains : List (List ℕ) → List ℕ → Bool
contains [] name = false
contains (x ∷ xs) name = x == name || contains xs name

unfoldable pub count_values : Values → ℕ
count_values nil = 0
count_values (cons v vs) = suc (count_values vs)

-- `buf[pos..pos+4].copy_from_slice(...)` with the length of what was written behind it.
unfoldable pub patch_element : (bound pos : ℕ) → List ℕ → Result EncodeError (List ℕ)
unfolding try_from
patch_element bound pos out =
    elim (ok_or element_too_long (try_from bound (length out - pos - 4))) [
      | ok len ↦ ok (take pos out ++ (to_be_bytes 4 len ++ drop (pos + 4) out))
      | err e ↦ err e
      | panic ↦ panic
    ]

unfoldable pub equal_names : NamedTupleShape → NamedTupleShape → Bool
equal_names [] [] = true
equal_names [] (y ∷ ys) = false
equal_names (x ∷ xs) [] = false
equal_names (x ∷ xs) (y ∷ ys) = x == y && equal_names xs ys

-- `element.ok_or_else(|| errors::MissingRequiredElement.build())`, and the codec on the element.
unfoldable pub decode_required : Codec → Option (List ℕ) → Result DecodeError Value
decode_required codec none = err missing_required_element
decode_required codec (some element) = codec.decode element

-- The flags of a range.
unfoldable pub has : (flag flags : ℕ) → Bool
has flag flags = not (bit_and flags flag == 0)

unfoldable pub is_missing : Slot → Bool
is_missing missing = true
is_missing (present v) = false

-- The bits are disjoint, and their union is their sum.
unfoldable pub range_flags : (lower upper : Slot) → (inc_lower inc_upper empty : Bool) → ℕ
unfolding is_missing
range_flags lower upper inc_lower inc_upper empty =
    if empty
    then 0x01
    else (if inc_lower then 0x02 else 0)
      + (if inc_upper then 0x04 else 0)
      + (if is_missing lower then 0x08 else 0)
      + (if is_missing upper then 0x10 else 0)

-- The members of an enumeration, which are a set of names.
unfoldable pub decode_member : List (List ℕ) → List ℕ → Result DecodeError Value
unfolding raw_str contains
decode_member members buf = elim (raw_str buf) [
  | ok name ↦ if contains members name then ok (enum name) else err extra_enum_value
  | err e ↦ err e
  | panic ↦ panic
]

-- `Scalar`
unfoldable pub derived_scalar_codec : Codec → Codec
derived_scalar_codec inner = record {
  decode = λ buf. inner.decode buf;
  encode = λ v. inner.encode v;
}

module _ ⦃C : Crates⦄ where
  -- A length, and what it is the length of.
  unfoldable pub put_element : (bound : ℕ) → Encoder → Encoder
  unfolding patch_element
  put_element bound e buf = elim (e (C.put_u32 0 buf)) [
    | ok out ↦ patch_element bound (length buf) out
    | err x ↦ err x
    | panic ↦ panic
  ]

  unfoldable pub encode_items : (Value → Encoder) → Values → Encoder
  unfolding put_element
  encode_items one nil = done
  encode_items one (cons v vs) = put_element (2 ^ 32) (one v) >> encode_items one vs

  -- What `Set::encode` and `Array::encode` write behind the match on their value.
  unfoldable pub encode_array_like : (Value → Encoder) → Values → Encoder
  unfolding encode_items count_values
  encode_array_like one nil = put (C.put_u32 0) >> (put (C.put_u32 0) >> put (C.put_u32 0))
  encode_array_like one (cons v vs) =
      put (C.put_u32 1)
      >> (put (C.put_u32 0)
          >> (put (C.put_u32 0)
              >> (put_checked (2 ^ 32) array_too_long C.put_u32 (count_values (cons v vs))
                  >> (put (C.put_u32 1) >> encode_items one (cons v vs)))))

  -- The iterator reads as long as its count is not zero, and each read takes one from it.
  unfoldable pub decode_items : (count : ℕ) → (List ℕ → Result DecodeError Value) → Reader Values
  unfolding read_array_like_element and_then computed
  decode_items zero one = computed (ok nil)
  decode_items (suc count) one = and_then read_array_like_element λ element.
      and_then (computed (one element))
        λ v. and_then (decode_items count one) λ vs. computed (ok (cons v vs))

  -- `decode_array_like`, behind `new_array` or `new_set`.
  unfoldable pub decode_array_like :
      DecodeError → (List ℕ → Result DecodeError Value) → List ℕ → Result DecodeError Values
  unfolding decode_items read_array_like_header
  decode_array_like error one buf = elim (read_array_like_header error buf) [
    | ok (s, rest) ↦ (decode_items s.count one s).0
    | err e ↦ err e
    | panic ↦ panic
  ]

  unfoldable pub encode_set_value : (Value → Encoder) → Value → Encoder
  unfolding encode_array_like
  encode_set_value one (set items) = encode_array_like one items
  encode_set_value one _ = refuse invalid_value

  -- `Set`
  unfoldable pub set_codec : Codec → Codec
  unfolding encode_set_value decode_array_like
  set_codec element = record {
    decode = λ buf. map_ok set (decode_array_like invalid_set_shape element.decode buf);
    encode = encode_set_value element.encode;
  }

  unfoldable pub encode_array_value : (Value → Encoder) → Value → Encoder
  unfolding encode_array_like
  encode_array_value one (array items) = encode_array_like one items
  encode_array_value one _ = refuse invalid_value

  -- `Array`
  unfoldable pub array_codec : Codec → Codec
  unfolding encode_array_value decode_array_like
  array_codec element = record {
    decode = λ buf. map_ok array (decode_array_like invalid_array_shape element.decode buf);
    encode = encode_array_value element.encode;
  }

  -- The header of `ArrayAdapter::decode`: the length that it announces.
  unfoldable pub adapter_header : Decoder ℕ
  unfolding get_i32 as_unsigned
  adapter_header = Decoder.◌>>◌ (ensure_remaining 12) (
      Decoder.◌>>=◌ (take_or_panic C.get_u32) (λ count.
        if count == 1
        then (Decoder.◌>>◌ get_i32 (Decoder.◌>>=◌ get_i32 (λ len. pure (as_unsigned 64 len))))
        else fail invalid_array_shape))

  -- `ArrayAdapter`
  unfoldable pub array_adapter_codec : Codec → Codec
  unfolding adapter_header put_element
  array_adapter_codec inner = record {
    decode = λ buf. elim (adapter_header buf) [
      | ok (len, rest) ↦
          if leb len (length rest)
          then (if leb (length rest) len then inner.decode rest else err extra_data)
          else err underflow
      | err e ↦ err e
      | panic ↦ panic
    ];
    encode = λ v. put (C.put_u32 1) >> (put (C.put_u32 0) >> put_element (2 ^ 31) (inner.encode v));
  }

  unfoldable pub decode_tuple : List Codec → Reader Values
  unfolding read_object_element and_then computed decode_required
  decode_tuple [] = computed (ok nil)
  decode_tuple (codec ∷ codecs) = and_then read_object_element λ element.
      and_then (computed (decode_required codec element))
        λ v. and_then (decode_tuple codecs) λ vs. computed (ok (cons v vs))

  unfoldable pub encode_elements : List Codec → Values → Encoder
  unfolding put_element
  encode_elements (codec ∷ codecs) (cons v vs) =
      put (C.put_u32 0) >> (put_element (2 ^ 32) (codec.encode v) >> encode_elements codecs vs)
  encode_elements codecs vs = done

  -- The count of the elements, and the elements.
  unfoldable pub encode_tuple : List Codec → Values → Encoder
  unfolding encode_elements
  encode_tuple codecs vs =
      put_checked (2 ^ 32) too_many_elements C.put_u32 (length codecs) >> encode_elements codecs vs

  unfoldable pub encode_tuple_value : List Codec → Value → Encoder
  unfolding encode_tuple count_values
  encode_tuple_value codecs (tuple items) =
      if length codecs == count_values items
      then encode_tuple codecs items
      else refuse tuple_shape_mismatch
  encode_tuple_value codecs _ = refuse invalid_value

  unfoldable pub decode_tuple_with :
      (List ℕ → Result DecodeError Inner) → List Codec → List ℕ → Result DecodeError Values
  unfolding decode_tuple behind_header
  decode_tuple_with header codecs buf = behind_header (header buf) (decode_tuple codecs)

  -- `Tuple`, which asks for the count with `new_object`.
  unfoldable pub tuple_codec : List Codec → Codec
  unfolding encode_tuple_value decode_tuple_with new_object
  tuple_codec elements = record {
    decode = λ buf. map_ok tuple (decode_tuple_with (new_object (length elements)) elements buf);
    encode = encode_tuple_value elements;
  }

  unfoldable pub encode_named_tuple_value : NamedTupleShape → List Codec → Value → Encoder
  unfolding encode_tuple count_values equal_names
  encode_named_tuple_value shape codecs (named_tuple other fields) =
      if equal_names other shape
      then (if length codecs == count_values fields
          then encode_tuple codecs fields
          else refuse object_shape_mismatch)
      else refuse tuple_shape_mismatch
  encode_named_tuple_value shape codecs _ = refuse invalid_value

  -- `NamedTuple`
  unfoldable pub named_tuple_codec : NamedTupleShape → List Codec → Codec
  unfolding encode_named_tuple_value decode_tuple_with new_tuple
  named_tuple_codec shape codecs = record {
    decode = λ buf.
        map_ok (named_tuple shape) (decode_tuple_with (new_tuple (length codecs)) codecs buf);
    encode = encode_named_tuple_value shape codecs;
  }

  unfoldable pub decode_bound : Bool → (List ℕ → Result DecodeError Value) → Reader Slot
  unfolding read_array_like_element and_then computed
  decode_bound false one = computed (ok missing)
  decode_bound true one =
      and_then read_array_like_element λ element. computed (map_ok present (one element))

  -- The bounds that the flags announce, and the range.
  unfoldable pub decode_bounds : (List ℕ → Result DecodeError Value) → (flags : ℕ) → Reader Value
  unfolding has decode_bound
  decode_bounds one flags = and_then (decode_bound (bit_and flags (0x01 + 0x08) == 0) one) λ lower.
      and_then (decode_bound (bit_and flags (0x01 + 0x10) == 0) one) λ upper.
        computed (ok (range lower upper (has 0x02 flags) (has 0x04 flags) (has 0x01 flags)))

  unfoldable pub decode_range :
      (List ℕ → Result DecodeError Value) → List ℕ → Result DecodeError Value
  unfolding decode_bounds new_range
  decode_range one buf = elim (Decoder.◌>>◌ (ensure_remaining 1) (take_or_panic C.get_u8) buf) [
    | ok (flags, rest) ↦ (decode_bounds one flags (new_range rest)).0
    | err e ↦ err e
    | panic ↦ panic
  ]

  unfoldable pub encode_bound : (Value → Encoder) → Slot → Encoder
  unfolding put_element
  encode_bound one missing = done
  encode_bound one (present v) = put_element (2 ^ 32) (one v)

  unfoldable pub encode_range_value : (Value → Encoder) → Value → Encoder
  unfolding range_flags encode_bound
  encode_range_value one (range lower upper inc_lower inc_upper empty) =
      put (C.put_u8 (range_flags lower upper inc_lower inc_upper empty))
      >> (encode_bound one lower >> encode_bound one upper)
  encode_range_value one _ = refuse invalid_value

  -- `Range`
  unfoldable pub range_codec : Codec → Codec
  unfolding encode_range_value decode_range
  range_codec element = record {
    decode = λ buf. decode_range element.decode buf;
    encode = encode_range_value element.encode;
  }

  unfoldable pub encode_enum_value : List (List ℕ) → Value → Encoder
  unfolding contains
  encode_enum_value members (enum name) =
      if contains members name then put (C.extend name) else refuse missing_enum_value
  encode_enum_value members _ = refuse invalid_value

  -- `Enum`
  unfoldable pub enum_codec : List (List ℕ) → Codec
  unfolding decode_member encode_enum_value
  enum_codec members = record { decode = decode_member members; encode = encode_enum_value members }
