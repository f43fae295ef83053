-- ===== src/Codecs/EncodedTyping.antt =====
-- The codecs that codec.rs builds on the values of the types that they are built for: what their
-- encoders do.
use edgedb_rust.Base.{ℕ, ◌+◌, ◌≤◌, ◌^◌, ◌≡◌, refl, true, List, [], ◌∷◌, length, ==_iff, arith}
use edgedb_rust.Base.HashMap.{◌==◌, nat_eq, list_eq}
use edgedb_rust.Wire.{Crates, array_too_long, too_many_elements}
use edgedb_rust.Wire.Encoder.{Encoder}
use edgedb_rust.Descriptors.{Descriptor, TypePos}
use edgedb_rust.Codecs.{Codec, Value, Values, nil, cons, Slot, Slots, tuple}
use edgedb_rust.Codecs.Collections.{
  put_element, count_values, encode_items, encode_array_like, array_adapter_codec, encode_elements,
  encode_tuple, encode_tuple_value,
}
use edgedb_rust.Codecs.Objects.{count_slots, encode_slot, encode_slots}
use edgedb_rust.Codecs.Size.{size, sizes, slot_size, slot_sizes, sizes-le, count_values-le}
use edgedb_rust.Codecs.Encodes.{
  Encodes, Encodes-mono, Encodes-u32, Encodes-done, Encodes->>, Encodes-checked, Encodes-element,
}
use edgedb_rust.Codecs.Typing.{
  HasType, HaveType, HaveTypes, SlotHasType, SlotsHaveTypes, none_left, one_more, no_value, value,
  not_there, there, no_slot, one_slot,
}

module _ ⦃C : Crates⦄ (ds : List Descriptor) where
  -- An encoder that writes the values of the type, with so many bytes before each, and encoders
  -- one for each type.
  abbrev pub EncodesBehind : (extra : ℕ) → TypePos → (Value → Encoder) → Type 0
  EncodesBehind extra t one =
      (v : Value) → HasType ds t v → Encodes (extra + size v) (extra + size v) (one v)

  abbrev pub EncodesTyped : TypePos → (Value → Encoder) → Type 0
  EncodesTyped t one = (v : Value) → HasType ds t v → Encodes (size v) (size v) (one v)

  abbrev pub AllEncode : List TypePos → List Codec → Type 0
  AllEncode [] [] = Unit {0}
  AllEncode [] (c ∷ cs) = ⊥
  AllEncode (t ∷ ts) [] = ⊥
  AllEncode (t ∷ ts) (c ∷ cs) = EncodesTyped t c.encode × AllEncode ts cs

  -- An element that is a part of a value.
  pub Encodes-part :
      {whole : ℕ} (bound part : ℕ) {e : Encoder}
      → 2 ^ 31 ≤ bound
      → part ≤ whole
      → Encodes part part e
      → Encodes whole (4 + part) (put_element bound e)
  Encodes-part bound part b h k = Encodes-element _ bound b h (Encodes-mono h (omega arith) k)

  Encodes-items :
      (whole extra : ℕ) (t : TypePos) (one : Value → Encoder) (vs : Values)
      → sizes (4 + extra) vs ≤ whole
      → EncodesBehind extra t one
      → HaveType ds t vs
      → Encodes whole (sizes (4 + extra) vs) (encode_items one vs)
  unfolding encode_items
  Encodes-items whole extra t one _ l h none_left = Encodes-done whole
  Encodes-items whole extra t one _ l h (one_more {v = v} {vs = vs} k ks) =
      Encodes-mono (omega arith) (omega arith) (
        Encodes->> whole
          (Encodes-part (2 ^ 32) (extra + size v) (omega arith) (omega arith) (h _ k))
          (Encodes-items whole extra t one vs (omega arith) h ks))

  pub Encodes-array_like :
      (extra : ℕ) (t : TypePos) (one : Value → Encoder) (vs : Values)
      → EncodesBehind extra t one
      → HaveType ds t vs
      → Encodes (20 + sizes (4 + extra) vs) (20 + sizes (4 + extra) vs) (encode_array_like one vs)
  unfolding encode_array_like
  Encodes-array_like extra t one nil h k =
      Encodes-mono (omega arith) (omega arith)
        (Encodes->> 20 (Encodes-u32 _ _) (Encodes->> _ (Encodes-u32 _ _) (Encodes-u32 _ _)))
  Encodes-array_like extra t one (cons v vs) h k =
      let whole = 20 + sizes (4 + extra) (cons v vs) in
      let many = count_values-le (4 + extra) (cons v vs) (omega arith) in
      Encodes-mono (omega arith) (omega arith) (
        Encodes->> whole (Encodes-u32 _ _) (
          Encodes->> whole (Encodes-u32 _ _) (
            Encodes->> whole (Encodes-u32 _ _) (
              Encodes->> whole
                (Encodes-checked whole 4 (2 ^ 32) array_too_long C.put_u32
                  (count_values (cons v vs)) C.put_u32-PutsBe (λ long. omega (arith, many)))
                (Encodes->> whole (Encodes-u32 _ _)
                  (Encodes-items whole extra t one (cons v vs) (omega arith) h k))))))

  pub Encodes-array_items :
      (t : TypePos) (one : Value → Encoder) (vs : Values)
      → EncodesTyped t one
      → HaveType ds t vs
      → Encodes (20 + sizes 4 vs) (20 + sizes 4 vs) (encode_array_like one vs)
  Encodes-array_items t one vs h k =
      Encodes-array_like 0 t one vs (λ v l. Encodes-mono (omega arith) (omega arith) (h v l)) k

  -- Of a set whose elements may be arrays there is room for twelve bytes around each.
  pub Encodes-set_like :
      (t : TypePos) (one : Value → Encoder) (vs : Values)
      → EncodesTyped t one
      → HaveType ds t vs
      → Encodes (20 + sizes 16 vs) (20 + sizes 16 vs) (encode_array_like one vs)
  Encodes-set_like t one vs h k =
      let smaller = sizes-le 4 16 vs (omega arith) in
      Encodes-mono (omega (arith, smaller)) (omega (arith, smaller))
        (Encodes-array_items t one vs h k)

  pub Encodes-adapter :
      (t : TypePos) (c : Codec)
      → EncodesTyped t c.encode
      → EncodesBehind 12 t (array_adapter_codec c).encode
  unfolding array_adapter_codec
  Encodes-adapter t c h v k = Encodes-mono (omega arith) (omega arith) (
      Encodes->> (12 + size v) (Encodes-u32 _ _) (
        Encodes->> _ (Encodes-u32 _ _)
          (Encodes-part (2 ^ 31) (size v) (omega arith) (omega arith) (h v k))))

  Encodes-elements :
      (whole : ℕ) (ts : List TypePos) (cs : List Codec) (vs : Values)
      → sizes 8 vs ≤ whole
      → HaveTypes ds ts vs
      → AllEncode ts cs
      → Encodes whole (sizes 8 vs) (encode_elements cs vs)
  unfolding encode_elements
  Encodes-elements whole _ [] _ l k h =
      Encodes-mono (omega arith) (omega arith) (Encodes-done whole)
  Encodes-elements whole _ (c ∷ cs) _ l no_value h = Encodes-done whole
  Encodes-elements whole _ (c ∷ cs) _ l (value {v = v} {vs = vs} k ks) (h, hs) =
      Encodes-mono (omega arith) (omega arith) (
        Encodes->> whole (Encodes-u32 _ _) (
          Encodes->> whole (Encodes-part (2 ^ 32) (size v) (omega arith) (omega arith) (h _ k))
            (Encodes-elements whole _ cs vs (omega arith) ks hs)))

  -- There are as many values as codecs.
  pub count_lem :
      (ts : List TypePos) (cs : List Codec) (vs : Values)
      → HaveTypes ds ts vs
      → AllEncode ts cs
      → (length cs == count_values vs) ≡ true
  unfolding count_values
  count_lem _ [] _ no_value h = refl
  count_lem _ (c ∷ cs) _ no_value h = absurd h
  count_lem _ [] _ (value k ks) h = absurd h
  count_lem _ (c ∷ cs) _ (value {ts = ts} {vs = vs} k ks) (h, hs) =
      (==_iff _ _).1 (omega (arith, (==_iff _ _).0 (count_lem ts cs vs ks hs)))

  pub Encodes-tuple :
      (ts : List TypePos) (cs : List Codec) (vs : Values)
      → HaveTypes ds ts vs
      → AllEncode ts cs
      → Encodes (4 + sizes 8 vs) (4 + sizes 8 vs) (encode_tuple cs vs)
  unfolding encode_tuple
  Encodes-tuple ts cs vs k h =
      let whole = 4 + sizes 8 vs in
      let same = (==_iff _ _).0 (count_lem ts cs vs k h) in
      let many = count_values-le 8 vs (omega arith) in
      Encodes->> whole
        (Encodes-checked whole 4 (2 ^ 32) too_many_elements C.put_u32 (length cs) C.put_u32-PutsBe
          (λ long. omega (arith, many, same)))
        (Encodes-elements whole ts cs vs (omega arith) k h)

  pub Encodes-tuple_value :
      (ts : List TypePos) (cs : List Codec) (vs : Values)
      → HaveTypes ds ts vs
      → AllEncode ts cs
      → Encodes (4 + sizes 8 vs) (4 + sizes 8 vs) (encode_tuple_value cs (tuple vs))
  unfolding encode_tuple_value
  Encodes-tuple_value ts cs vs k h =
      rw (count_lem ts cs vs k h, encode_tuple_value) (Encodes-tuple ts cs vs k h)

  Encodes-slot :
      (whole : ℕ) (t : TypePos) (c : Codec) (x : Slot)
      → slot_size x ≤ whole
      → SlotHasType ds t x
      → EncodesTyped t c.encode
      → Encodes whole (slot_size x) (encode_slot c.encode x)
  unfolding encode_slot
  Encodes-slot whole t c _ l not_there h = Encodes-u32 whole _
  Encodes-slot whole t c _ l (there {v = v} k) h =
      Encodes-part (2 ^ 31) (size v) (omega arith) (omega arith) (h _ k)

  pub Encodes-slots :
      (whole : ℕ) (ts : List TypePos) (cs : List Codec) (xs : Slots)
      → slot_sizes xs ≤ whole
      → SlotsHaveTypes ds ts xs
      → AllEncode ts cs
      → Encodes whole (slot_sizes xs) (encode_slots cs xs)
  unfolding encode_slots
  Encodes-slots whole _ [] _ l k h = Encodes-mono (omega arith) (omega arith) (Encodes-done whole)
  Encodes-slots whole _ (c ∷ cs) _ l no_slot h = Encodes-done whole
  Encodes-slots whole _ (c ∷ cs) _ l (one_slot {x = x} {xs = xs} k ks) (h, hs) =
      Encodes-mono (omega arith) (omega arith) (
        Encodes->> whole (Encodes-u32 _ _) (
          Encodes->> whole (Encodes-slot whole _ c x (omega arith) k h)
            (Encodes-slots whole _ cs xs (omega arith) ks hs)))

  pub count_slots_lem :
      (ts : List TypePos) (cs : List Codec) (xs : Slots)
      → SlotsHaveTypes ds ts xs
      → AllEncode ts cs
      → (length cs == count_slots xs) ≡ true
  unfolding count_slots
  count_slots_lem _ [] _ no_slot h = refl
  count_slots_lem _ (c ∷ cs) _ no_slot h = absurd h
  count_slots_lem _ [] _ (one_slot k ks) h = absurd h
  count_slots_lem _ (c ∷ cs) _ (one_slot {ts = ts} {xs = xs} k ks) (h, hs) =
      (==_iff _ _).1 (omega (arith, (==_iff _ _).0 (count_slots_lem ts cs xs ks hs)))
