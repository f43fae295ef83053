-- ===== src/Codecs/ObjectRoundTrip.antt =====
-- The codec of an object in codec.rs on the bytes that it has written, missing elements included.
use edgedb_rust.Base.{
  ℕ, zero, suc, ◌-◌, ◌^◌, ◌<◌, ◌≤◌, ◌≡◌, refl, sym, ap, ◌∙◌, Bool, true, false, ◌&&◌, List, [], ◌∷◌,
  ◌++◌, Option, none, some, ok, map_ok, length, All, ==_iff, and_both, ok-injective, arith,
}
use edgedb_rust.Base.HashMap.{◌==◌, nat_eq, list_eq, list_beq_iff}
use edgedb_rust.Wire.{too_many_elements, object_size_mismatch, to_be_bytes, Crates}
use edgedb_rust.Wire.Encoder.Writes.{Writes-done, Writes-u32}
use edgedb_rust.Wire.Encoding.RoundTrip.{lengths}
use edgedb_rust.Protocol.{Cardinality, cardinality_u8, try_from_u8_iff}
use edgedb_rust.Codecs.{
  object, ObjectShape, Element, Codec, Slot, missing, present, Slots, no_slots, slot,
}
use edgedb_rust.Codecs.Composite.{computed, behind_header, read_object_element, new_object}
use edgedb_rust.Codecs.Objects.{
  equal_bools, equal_cardinalities, equal_elements, equal_shapes, count_slots, decode_slot,
  decode_slots, encode_slot, encode_slots, encode_object_value, decode_object, object_codec,
}
use edgedb_rust.Codecs.Appends.{
  AreSlots, Appends, Appends-Writes, Appends-refuse, Appends-if, Appends->>, Appends-behind,
  Appends-put_checked, Appends-put_element,
}
use edgedb_rust.Codecs.ScalarRoundTrip.{RoundTrips}
use edgedb_rust.Codecs.ReadingBack.{inner, wire_element, object_element_read, missing_read}
use edgedb_rust.Codecs.CollectionRoundTrip.{Empties, Ends-of, item_read}
use edgedb_rust.Codecs.TupleRoundTrip.{counted}

equal_bools_eq : (a b : Bool) → equal_bools a b ≡ true → a ≡ b
unfolding equal_bools
equal_bools_eq true b h = sym h
equal_bools_eq false true h = cc
equal_bools_eq false false h = refl

cardinality_u8-injective : (c d : Cardinality) → cardinality_u8 c ≡ cardinality_u8 d → c ≡ d
unfolding cardinality_u8
cardinality_u8-injective c d h = ok-injective (
    sym ((try_from_u8_iff (cardinality_u8 d) c).1 h)
    ∙ (try_from_u8_iff (cardinality_u8 d) d).1 refl)

equal_cardinalities_eq : (a b : Option Cardinality) → equal_cardinalities a b ≡ true → a ≡ b
unfolding equal_cardinalities
equal_cardinalities_eq none none h = refl
equal_cardinalities_eq none (some d) h = cc
equal_cardinalities_eq (some c) none h = cc
equal_cardinalities_eq (some c) (some d) h =
    ap some (cardinality_u8-injective c d ((==_iff _ _).0 h))

equal_elements_eq : (a b : Element) → equal_elements a b ≡ true → a ≡ b
unfolding equal_elements
equal_elements_eq a b h =
    let (h3, t) = and_both _ (a.name == b.name) h in
    let (h2, s) = and_both _ (equal_cardinalities a.cardinality b.cardinality) h3 in
    let (h1, r) = and_both _ (equal_bools a.flag_link b.flag_link) h2 in
    let (p, q) = and_both _ (equal_bools a.flag_link_property b.flag_link_property) h1 in
    same (equal_bools_eq _ _ p) (equal_bools_eq _ _ q) (equal_bools_eq _ _ r)
      (equal_cardinalities_eq _ _ s) ((list_beq_iff a.name b.name).0 t)
  where
    element_of : Bool → Bool → Bool → Option Cardinality → List ℕ → Element
    element_of i p l c n = record {
      flag_implicit = i;
      flag_link_property = p;
      flag_link = l;
      cardinality = c;
      name = n;
    }

    same :
        a.flag_implicit ≡ b.flag_implicit
        → a.flag_link_property ≡ b.flag_link_property
        → a.flag_link ≡ b.flag_link
        → a.cardinality ≡ b.cardinality
        → a.name ≡ b.name
        → a ≡ b
    same p q r s t =
        ap (λ x. element_of x a.flag_link_property a.flag_link a.cardinality a.name) p
        ∙ ap (λ x. element_of b.flag_implicit x a.flag_link a.cardinality a.name) q
        ∙ ap (λ x. element_of b.flag_implicit b.flag_link_property x a.cardinality a.name) r
        ∙ ap (λ x. element_of b.flag_implicit b.flag_link_property b.flag_link x a.name) s
        ∙ ap (λ x. element_of b.flag_implicit b.flag_link_property b.flag_link b.cardinality x) t

equal_shapes_eq : (xs ys : ObjectShape) → equal_shapes xs ys ≡ true → xs ≡ ys
unfolding equal_shapes
equal_shapes_eq [] [] h = refl
equal_shapes_eq [] (y ∷ ys) h = cc
equal_shapes_eq (x ∷ xs) [] h = cc
equal_shapes_eq (x ∷ xs) (y ∷ ys) h =
    let (p, q) = and_both (equal_elements x y) (equal_shapes xs ys) h in
    rw (equal_elements_eq x y p, equal_shapes_eq xs ys q) refl

module _ ⦃C : Crates⦄ where
  -- The bytes of the elements of an object. A missing one leaves the count as it was, so that the
  -- count may be larger than what is left to read.
  abbrev ReadSlots : List Codec → Slots → List ℕ → Type 0
  ReadSlots codecs xs bs =
      Empties (length codecs) bs
      × (length bs < 2 ^ 31
          → (k : ℕ) → length codecs ≤ k
          → (decode_slots codecs (inner bs k)).0 ≡ ok xs)

  ReadSlots-present :
      (c : Codec) (codecs : List Codec) (x : Slot) (xs : Slots) (bs cs : List ℕ)
      → (length bs < 2 ^ 31 → decode_slot c (some bs) ≡ ok x)
      → ReadSlots codecs xs cs
      → ReadSlots (c ∷ codecs) (slot x xs) (to_be_bytes 4 0 ++ (wire_element bs ++ cs))
  unfolding decode_slots
  ReadSlots-present c codecs x xs bs cs h (e, r) = (tt, λ short. read short)
    where
      read :
          length (to_be_bytes 4 0 ++ (wire_element bs ++ cs)) < 2 ^ 31
          → (k : ℕ) → suc (length codecs) ≤ k
          → (decode_slots (c ∷ codecs) (inner (to_be_bytes 4 0 ++ (wire_element bs ++ cs)) k)).0
            ≡ ok (slot x xs)
      read short zero l = absurd (omega arith)
      read short (suc k) l =
          let b : length bs < 2 ^ 31 = omega (lengths, short) in
          item_read read_object_element (decode_slot c) (decode_slots codecs) slot _ (inner cs k)
            (some bs) x xs
            (object_element_read bs cs k b (Ends-of (length codecs) k cs (omega arith) e)) (h b)
            (r (omega (lengths, short)) k (omega arith))

  ReadSlots-missing :
      (c : Codec) (codecs : List Codec) (xs : Slots) (cs : List ℕ)
      → ReadSlots codecs xs cs
      → ReadSlots
          (c ∷ codecs)
          (slot missing xs)
          (to_be_bytes 4 0 ++ (to_be_bytes 4 (2 ^ 32 - 1) ++ cs))
  unfolding decode_slots decode_slot
  ReadSlots-missing c codecs xs cs (e, r) = (
    tt,
    λ short k l.
        item_read read_object_element (decode_slot c) (decode_slots codecs) slot _ (inner cs k) none
          missing xs (missing_read cs k) refl (r (omega (lengths, short)) k (omega arith)),
  )

  slots_RoundTrip :
      (codecs : List Codec)
      → All RoundTrips codecs
      → (xs : Slots) → AreSlots xs
      → length codecs ≡ count_slots xs
      → Appends (encode_slots codecs xs) (ReadSlots codecs xs)
  unfolding encode_slots encode_slot count_slots decode_slots decode_slot computed
  slots_RoundTrip [] h no_slots k e = Appends-Writes _ Writes-done (refl, λ _ _ _. refl)
  slots_RoundTrip [] h (slot x xs) k e = absurd (omega (arith, e))
  slots_RoundTrip (c ∷ codecs) h no_slots k e = absurd (omega (arith, e))
  slots_RoundTrip (c ∷ codecs) (h, hs) (slot missing xs) (k, ks) e =
      Appends-behind (λ x. ReadSlots (c ∷ codecs) (slot missing xs) (to_be_bytes 4 0 ++ x)) _
        (Writes-u32 0)
        (Appends-behind (ReadSlots codecs xs) _ (Writes-u32 (2 ^ 32 - 1))
          (slots_RoundTrip codecs hs xs ks (omega (arith, e)))
          λ cs r. ReadSlots-missing c codecs xs cs r)
        λ cs r. r
  slots_RoundTrip (c ∷ codecs) (h, hs) (slot (present v) xs) (k, ks) e =
      Appends-behind (λ x. ReadSlots (c ∷ codecs) (slot (present v) xs) (to_be_bytes 4 0 ++ x)) _
        (Writes-u32 0)
        (Appends->>
          (λ x. (bs : List ℕ) × (x ≡ wire_element bs) × (length bs < 2 ^ 31 → c.decode bs ≡ ok v))
          (ReadSlots codecs xs) _
          (Appends-put_element (2 ^ 31) _ _ (h v k) (λ bs q short. (bs, refl, q)))
          (slots_RoundTrip codecs hs xs ks (omega (arith, e)))
          λ x cs (bs, e, q) r.
            rw e
              (ReadSlots-present c codecs (present v) xs bs cs (λ b. ap (map_ok present) (q b)) r))
        λ cs r. r

  pub object_codec-RoundTrips :
      (shape : ObjectShape) (codecs : List Codec)
      → All RoundTrips codecs
      → RoundTrips (object_codec shape codecs)
  unfolding object_codec encode_object_value decode_object new_object behind_header
  object_codec-RoundTrips shape codecs h (object other xs) k =
      Appends-if (equal_shapes other shape && length codecs == count_slots xs) _ _ λ both.
        let (p, q) = and_both (equal_shapes other shape) _ both in
        Appends->> (λ x. (x ≡ to_be_bytes 4 (length codecs)) × (length codecs < 2 ^ 32))
          (ReadSlots codecs xs) _
          (Appends-put_checked 4 (2 ^ 32) too_many_elements C.put_u32 (length codecs)
            C.put_u32-PutsBe)
          (slots_RoundTrip codecs h xs k ((==_iff _ _).0 q))
          λ x cs (w, small) r. rw w λ short.
            rw (counted object_size_mismatch (length codecs) cs small, behind_header)
              (ap (map_ok (object shape))
                  (r.1 (omega (lengths, short)) (length codecs) (omega arith))
                ∙ ap (λ s. ok (object s xs)) (sym (equal_shapes_eq other shape p)))
  object_codec-RoundTrips shape codecs h _ k = Appends-refuse _ _
