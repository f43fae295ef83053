-- ===== src/Codecs/CompositeTyping.antt =====
-- What the decoders of tuples, objects, ranges and enumerations in codec.rs give: values of the type,
-- if what they hold is decoded to values of its type.
use Prim.Native.Nat.{bit_and}
use edgedb_rust.Base.{
  ℕ, ◌+◌, ◌≡◌, refl, Bool, true, false, List, some, Result, ok, err, map_ok, length, get_elem?,
  if◌then◌else◌,
}
use edgedb_rust.Base.HashMap.{◌==◌, nat_eq}
use edgedb_rust.Wire.{DecodeError, Crates, extra_enum_value}
use edgedb_rust.Wire.Decoder.{Decoder, pure, take_or_panic, ensure_remaining}
use edgedb_rust.Wire.Decoder
use edgedb_rust.Descriptors
use edgedb_rust.Descriptors.{Descriptor, TypePos}
use edgedb_rust.Codecs.{Codec, Value, tuple, enum, Slot, present, range}
use edgedb_rust.Codecs.Raw.{raw_str}
use edgedb_rust.Codecs.Composite.{
  Inner, Reader, and_then, computed, read_array_like_element, new_range, new_object, new_tuple,
}
use edgedb_rust.Codecs.Collections.{
  set_codec, array_codec, array_adapter_codec, decode_tuple, decode_tuple_with, tuple_codec,
  named_tuple_codec, decode_bound, decode_bounds, decode_range, decode_member, contains, has,
}
use edgedb_rust.Codecs.Objects.{decode_slots, decode_object}
use edgedb_rust.Codecs.Build.{shape_of, names_of}
use edgedb_rust.Codecs.Gives.{
  Gives, Gives-all, Gives-map_ok, Gives-then, GivesRead, Gives-and_then, Gives-behind,
}
use edgedb_rust.Codecs.Typing.{
  HasType, HaveTypes, SlotHasType, SlotsHaveTypes, enumeration, tuple_of, named_tuple_of, object_of,
  range_of, not_there, there, element_positions, field_positions,
}
use edgedb_rust.Codecs.DecodedTyping.{
  GivesTyped, AllTyped, Gives-set, Gives-array, Gives-adapter, Gives-tuple, Gives-slots,
}

module _ ⦃C : Crates⦄ (ds : List Descriptor) where
  Gives-tuple_with :
      (header : List ℕ → Result DecodeError Inner) (ts : List TypePos) (cs : List Codec)
      (buf : List ℕ)
      → AllTyped ds ts cs
      → Gives (HaveTypes ds ts) (decode_tuple_with header cs buf)
  unfolding decode_tuple_with
  Gives-tuple_with header ts cs buf hs =
      Gives-behind (HaveTypes ds ts) (header buf) (decode_tuple cs) (Gives-tuple ds ts cs hs)

  pub Gives-tuple_codec :
      (t : TypePos) (d : Descriptors.TupleTypeDescriptor) (cs : List Codec)
      → get_elem? ds t ≡ some (Descriptors.tuple d)
      → AllTyped ds d.element_types cs
      → GivesTyped ds t (tuple_codec cs).decode
  unfolding tuple_codec
  Gives-tuple_codec t d cs q hs buf =
      Gives-map_ok (HaveTypes ds d.element_types) (HasType ds t) tuple _
        (Gives-tuple_with (new_object (length cs)) d.element_types cs buf hs) λ vs h. tuple_of d q h

  pub Gives-named_tuple :
      (t : TypePos) (d : Descriptors.NamedTupleTypeDescriptor) (cs : List Codec)
      → get_elem? ds t ≡ some (Descriptors.named_tuple d)
      → AllTyped ds (field_positions d.elements) cs
      → GivesTyped ds t (named_tuple_codec (names_of d.elements) cs).decode
  unfolding named_tuple_codec
  Gives-named_tuple t d cs q hs buf =
      Gives-map_ok (HaveTypes ds (field_positions d.elements)) (HasType ds t) _ _
        (Gives-tuple_with (new_tuple (length cs)) _ cs buf hs) λ vs h. named_tuple_of d q h

  pub Gives-array_set :
      (t : TypePos) (d : Descriptors.SetDescriptor) (a : Descriptors.ArrayTypeDescriptor)
      (c : Codec)
      → get_elem? ds t ≡ some (Descriptors.set d)
      → get_elem? ds d.type_pos ≡ some (Descriptors.array a)
      → GivesTyped ds a.type_pos c.decode
      → GivesTyped ds t (set_codec (array_adapter_codec (array_codec c))).decode
  unfolding set_codec array_codec
  Gives-array_set t d a c q e h =
      Gives-set ds t d _ q
        (Gives-adapter ds d.type_pos (array_codec c) (Gives-array ds d.type_pos a c.decode e h _)) _

  pub Gives-object :
      (t : TypePos) (d : Descriptors.ObjectShapeDescriptor) (cs : List Codec)
      → get_elem? ds t ≡ some (Descriptors.object_shape d)
      → AllTyped ds (element_positions d.elements) cs
      → GivesTyped ds t (decode_object (shape_of d.elements) cs)
  unfolding decode_object
  Gives-object t d cs q hs buf =
      Gives-map_ok (SlotsHaveTypes ds (element_positions d.elements)) (HasType ds t) _ _
        (Gives-behind _ (new_object (length cs) buf) (decode_slots cs) (Gives-slots ds _ cs hs))
        λ xs hxs. object_of d q hxs

  Gives-bound :
      (t : TypePos) (b : Bool) (one : List ℕ → Result DecodeError Value)
      → GivesTyped ds t one
      → GivesRead (SlotHasType ds t) (decode_bound b one)
  unfolding decode_bound computed
  Gives-bound t false one h s = not_there
  Gives-bound t true one h s =
      Gives-and_then (λ _. Unit {0}) (SlotHasType ds t) read_array_like_element
        (λ element. computed (map_ok present (one element)))
        (λ s. Gives-all _ (read_array_like_element s).0 (λ _. tt))
        (λ element _ s.
          Gives-map_ok (HasType ds t) (SlotHasType ds t) present (one element) (h element)
            λ v hv. there hv)
        s

  Gives-bounds :
      (t : TypePos) (d : Descriptors.RangeTypeDescriptor) (one : List ℕ → Result DecodeError Value)
      (flags : ℕ)
      → get_elem? ds t ≡ some (Descriptors.range d)
      → GivesTyped ds d.type_pos one
      → GivesRead (HasType ds t) (decode_bounds one flags)
  unfolding decode_bounds computed
  Gives-bounds t d one flags q h =
      Gives-and_then Bound (HasType ds t) lower_bound behind_lower (Gives-bound d.type_pos _ one h)
        λ lower hl.
          Gives-and_then Bound (HasType ds t) upper_bound (made lower)
            (Gives-bound d.type_pos _ one h) λ upper hu s. range_of d q hl hu
    where
      Bound : Slot → Type 0
      Bound x = SlotHasType ds d.type_pos x

      lower_bound : Reader Slot
      lower_bound = decode_bound (bit_and flags (0x01 + 0x08) == 0) one

      upper_bound : Reader Slot
      upper_bound = decode_bound (bit_and flags (0x01 + 0x10) == 0) one

      made : Slot → Slot → Reader Value
      made lower upper =
          computed (ok (range lower upper (has 0x02 flags) (has 0x04 flags) (has 0x01 flags)))

      behind_lower : Slot → Reader Value
      behind_lower lower = and_then upper_bound (made lower)

  pub Gives-range :
      (t : TypePos) (d : Descriptors.RangeTypeDescriptor) (one : List ℕ → Result DecodeError Value)
      → get_elem? ds t ≡ some (Descriptors.range d)
      → GivesTyped ds d.type_pos one
      → GivesTyped ds t (decode_range one)
  unfolding decode_range
  Gives-range t d one q h buf =
      Gives-then (λ _. Unit {0}) (HasType ds t) (λ r. (decode_bounds one r.0 (new_range r.1)).0)
        flags (Gives-all _ flags (λ _. tt)) λ r _. Gives-bounds t d one r.0 q h (new_range r.1)
    where
      flags : Result DecodeError (ℕ × List ℕ)
      flags = Decoder.◌>>◌ (ensure_remaining 1) (take_or_panic C.get_u8) buf

  pub Gives-enum :
      (t : TypePos) (d : Descriptors.EnumerationTypeDescriptor)
      → get_elem? ds t ≡ some (Descriptors.enumeration d)
      → GivesTyped ds t (decode_member d.members)
  unfolding decode_member
  Gives-enum t d q buf =
      Gives-then (λ _. Unit {0}) (HasType ds t) _ (raw_str buf)
        (Gives-all _ (raw_str buf) (λ _. tt)) λ name _. known (contains d.members name) name refl
    where
      known :
          (b : Bool) (name : List ℕ)
          → contains d.members name ≡ b
          → Gives (HasType ds t) (if b then ok (enum name) else err extra_enum_value)
      known true name e = enumeration d q e
      known false name e = tt
