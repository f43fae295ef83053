-- ===== src/Codecs/DecodedTyping.antt =====
-- What the decoders that codec.rs builds give: values of the type that they are built for, on any
-- bytes.
use edgedb_rust.Base.{
  ℕ, zero, suc, ◌≡◌, Bool, true, false, List, [], ◌∷◌, Option, none, some, Result, err, map_ok,
  length, get_elem?, leb, if◌then◌else◌,
}
use edgedb_rust.Wire.{DecodeError, Crates}
use edgedb_rust.Descriptors
use edgedb_rust.Descriptors.{Descriptor, TypePos}
use edgedb_rust.Codecs.{Codec, Value, cons, set, array, present, slot}
use edgedb_rust.Codecs.Composite.{
  computed, read_array_like_element, read_object_element, read_array_like_header,
}
use edgedb_rust.Codecs.Collections.{
  decode_items, decode_array_like, array_adapter_codec, adapter_header, decode_required,
  decode_tuple,
}
use edgedb_rust.Codecs.Objects.{decode_slot, decode_slots}
use edgedb_rust.Codecs.Gives.{Gives, Gives-all, Gives-map_ok, Gives-then, GivesRead, Gives-item}
use edgedb_rust.Codecs.Typing.{
  HasType, HaveType, HaveTypes, SlotHasType, SlotsHaveTypes, set_of, array_of, none_left, one_more,
  no_value, value, not_there, there, no_slot, one_slot,
}

module _ ⦃C : Crates⦄ (ds : List Descriptor) where
  -- A decoder that gives values of the type, and decoders one for each type.
  abbrev pub GivesTyped : TypePos → (List ℕ → Result DecodeError Value) → Type 0
  GivesTyped t one = (buf : List ℕ) → Gives (HasType ds t) (one buf)

  abbrev pub AllTyped : List TypePos → List Codec → Type 0
  AllTyped [] [] = Unit {0}
  AllTyped [] (c ∷ cs) = ⊥
  AllTyped (t ∷ ts) [] = ⊥
  AllTyped (t ∷ ts) (c ∷ cs) = GivesTyped t c.decode × AllTyped ts cs

  Gives-items :
      (count : ℕ) (t : TypePos) (one : List ℕ → Result DecodeError Value)
      → GivesTyped t one
      → GivesRead (HaveType ds t) (decode_items count one)
  unfolding decode_items computed
  Gives-items zero t one h s = none_left
  Gives-items (suc count) t one h s =
      Gives-item (HasType ds t) (HaveType ds t) (HaveType ds t) read_array_like_element one
        (decode_items count one) cons h (Gives-items count t one h) (λ v vs hv hvs. one_more hv hvs)
        s

  Gives-array_like :
      (e : DecodeError) (t : TypePos) (one : List ℕ → Result DecodeError Value) (buf : List ℕ)
      → GivesTyped t one
      → Gives (HaveType ds t) (decode_array_like e one buf)
  unfolding decode_array_like
  Gives-array_like e t one buf h =
      Gives-then (λ _. Unit {0}) (HaveType ds t) _ (read_array_like_header e buf)
        (Gives-all _ (read_array_like_header e buf) (λ _. tt))
        λ r _. Gives-items r.0.count t one h r.0

  pub Gives-set :
      (t : TypePos) (d : Descriptors.SetDescriptor) (one : List ℕ → Result DecodeError Value)
      → get_elem? ds t ≡ some (Descriptors.set d)
      → GivesTyped d.type_pos one
      → (e : DecodeError) → GivesTyped t (λ buf. map_ok set (decode_array_like e one buf))
  Gives-set t d one q h e buf =
      Gives-map_ok (HaveType ds d.type_pos) (HasType ds t) set (decode_array_like e one buf)
        (Gives-array_like e d.type_pos one buf h) λ vs hvs. set_of d q hvs

  pub Gives-array :
      (t : TypePos) (d : Descriptors.ArrayTypeDescriptor) (one : List ℕ → Result DecodeError Value)
      → get_elem? ds t ≡ some (Descriptors.array d)
      → GivesTyped d.type_pos one
      → (e : DecodeError) → GivesTyped t (λ buf. map_ok array (decode_array_like e one buf))
  Gives-array t d one q h e buf =
      Gives-map_ok (HaveType ds d.type_pos) (HasType ds t) array (decode_array_like e one buf)
        (Gives-array_like e d.type_pos one buf h) λ vs hvs. array_of d q hvs

  pub Gives-adapter :
      (t : TypePos) (c : Codec)
      → GivesTyped t c.decode
      → GivesTyped t (array_adapter_codec c).decode
  unfolding array_adapter_codec
  Gives-adapter t c h buf =
      Gives-then (λ _. Unit {0}) (HasType ds t) _ (adapter_header buf)
        (Gives-all _ (adapter_header buf) (λ _. tt))
        λ r _. fits (leb r.0 (length r.1)) (leb (length r.1) r.0) r.1
    where
      fits :
          (b d : Bool) (rest : List ℕ)
          → Gives (HasType ds t) (
              if b
              then (if d then c.decode rest else err DecodeError.extra_data)
              else err DecodeError.underflow)
      fits true true rest = h rest
      fits true false rest = tt
      fits false d rest = tt

  Gives-required :
      (t : TypePos) (c : Codec) (element : Option (List ℕ))
      → GivesTyped t c.decode
      → Gives (HasType ds t) (decode_required c element)
  unfolding decode_required
  Gives-required t c none h = tt
  Gives-required t c (some element) h = h element

  pub Gives-tuple :
      (ts : List TypePos) (cs : List Codec)
      → AllTyped ts cs
      → GivesRead (HaveTypes ds ts) (decode_tuple cs)
  unfolding decode_tuple computed
  Gives-tuple [] [] h s = no_value
  Gives-tuple [] (c ∷ cs) h s = absurd h
  Gives-tuple (t ∷ ts) [] h s = absurd h
  Gives-tuple (t ∷ ts) (c ∷ cs) (h, hs) s =
      Gives-item (HasType ds t) (HaveTypes ds ts) (HaveTypes ds (t ∷ ts)) read_object_element
        (decode_required c) (decode_tuple cs) cons (λ e. Gives-required t c e h)
        (Gives-tuple ts cs hs) (λ v vs hv hvs. value hv hvs) s

  Gives-slot :
      (t : TypePos) (c : Codec) (element : Option (List ℕ))
      → GivesTyped t c.decode
      → Gives (SlotHasType ds t) (decode_slot c element)
  unfolding decode_slot
  Gives-slot t c none h = not_there
  Gives-slot t c (some element) h =
      Gives-map_ok (HasType ds t) (SlotHasType ds t) present _ (h element) λ v hv. there hv

  pub Gives-slots :
      (ts : List TypePos) (cs : List Codec)
      → AllTyped ts cs
      → GivesRead (SlotsHaveTypes ds ts) (decode_slots cs)
  unfolding decode_slots computed
  Gives-slots [] [] h s = no_slot
  Gives-slots [] (c ∷ cs) h s = absurd h
  Gives-slots (t ∷ ts) [] h s = absurd h
  Gives-slots (t ∷ ts) (c ∷ cs) (h, hs) s =
      Gives-item (SlotHasType ds t) (SlotsHaveTypes ds ts) (SlotsHaveTypes ds (t ∷ ts))
        read_object_element (decode_slot c) (decode_slots cs) slot (λ e. Gives-slot t c e h)
        (Gives-slots ts cs hs) (λ x xs hx hxs. one_slot hx hxs) s
