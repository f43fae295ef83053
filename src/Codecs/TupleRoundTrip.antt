-- ===== src/Codecs/TupleRoundTrip.antt =====
-- The codecs of tuples and named tuples in codec.rs on the bytes that they have written.
use edgedb_rust.Base.{
  ℕ, ◌^◌, ◌<◌, ◌≡◌, refl, sym, ap, ◌∙◌, true, List, [], ◌∷◌, ◌++◌, some, ok, map_ok, length, All,
  ==_iff, and_both, arith,
}
use edgedb_rust.Base.HashMap.{◌==◌, nat_eq, list_eq, list_beq_iff}
use edgedb_rust.Wire.{DecodeError, too_many_elements, to_be_bytes, Crates}
use edgedb_rust.Wire.Decoder.Reads.{Reads-u32}
use edgedb_rust.Wire.Encoder.Writes.{Writes-done, Writes-u32}
use edgedb_rust.Wire.Encoding.RoundTrip.{lengths}
use edgedb_rust.Codecs.{Value, Values, nil, cons, tuple, named_tuple, NamedTupleShape, Codec}
use edgedb_rust.Codecs.Composite.{
  computed, behind_header, read_object_element, inner_of, new_object, new_tuple, new_with,
  expect_count, read_tuple_like_header,
}
use edgedb_rust.Codecs.Collections.{
  count_values, decode_required, decode_tuple, encode_elements, encode_tuple, encode_tuple_value,
  tuple_codec, decode_tuple_with, encode_named_tuple_value, named_tuple_codec, equal_names,
}
use edgedb_rust.Codecs.Appends.{
  AreValues, Appends, Appends-Writes, Appends-refuse, Appends-if, Appends-map, Appends->>,
  Appends-behind, Appends-put_checked, Appends-put_element,
}
use edgedb_rust.Codecs.ScalarRoundTrip.{RoundTrips}
use edgedb_rust.Codecs.ReadingBack.{inner, wire_element, Ends, object_element_read}
use edgedb_rust.Codecs.CollectionRoundTrip.{Empties, Ends-of, item_read, then_read, ensured}

equal_names_eq : (xs ys : NamedTupleShape) → equal_names xs ys ≡ true → xs ≡ ys
unfolding equal_names
equal_names_eq [] [] h = refl
equal_names_eq [] (y ∷ ys) h = cc
equal_names_eq (x ∷ xs) [] h = cc
equal_names_eq (x ∷ xs) (y ∷ ys) h =
    let (p, q) = and_both (x == y) (equal_names xs ys) h in
    rw ((list_beq_iff x y).0 p, equal_names_eq xs ys q) refl

module _ ⦃C : Crates⦄ where
  -- The bytes of the elements of a tuple.
  abbrev ReadElements : List Codec → Values → List ℕ → Type 0
  ReadElements codecs vs bs =
      Empties (length codecs) bs
      × (length bs < 2 ^ 31 → (decode_tuple codecs (inner bs (length codecs))).0 ≡ ok vs)

  ReadElements-cons :
      (c : Codec) (codecs : List Codec) (v : Value) (vs : Values) (bs cs : List ℕ)
      → (length bs < 2 ^ 31 → c.decode bs ≡ ok v)
      → ReadElements codecs vs cs
      → ReadElements (c ∷ codecs) (cons v vs) (to_be_bytes 4 0 ++ (wire_element bs ++ cs))
  unfolding decode_tuple decode_required
  ReadElements-cons c codecs v vs bs cs h (e, r) = (
    tt,
    λ short.
        let b : length bs < 2 ^ 31 = omega (lengths, short) in
        let e' : Ends (length codecs) cs = Ends-of (length codecs) _ cs (omega arith) e in
        item_read read_object_element (decode_required c) (decode_tuple codecs) cons _
          (inner cs (length codecs)) (some bs) v vs (object_element_read bs cs (length codecs) b e')
          (h b) (r (omega (lengths, short))),
  )

  elements_RoundTrip :
      (codecs : List Codec)
      → All RoundTrips codecs
      → (vs : Values) → AreValues vs
      → length codecs ≡ count_values vs
      → Appends (encode_elements codecs vs) (ReadElements codecs vs)
  unfolding encode_elements count_values decode_tuple computed
  elements_RoundTrip [] h nil k e = Appends-Writes _ Writes-done (refl, λ _. refl)
  elements_RoundTrip [] h (cons v vs) k e = absurd (omega (arith, e))
  elements_RoundTrip (c ∷ codecs) h nil k e = absurd (omega (arith, e))
  elements_RoundTrip (c ∷ codecs) (h, hs) (cons v vs) (k, ks) e =
      Appends-behind (λ x. ReadElements (c ∷ codecs) (cons v vs) (to_be_bytes 4 0 ++ x)) _
        (Writes-u32 0)
        (Appends->>
          (λ x. (bs : List ℕ) × (x ≡ wire_element bs) × (length bs < 2 ^ 31 → c.decode bs ≡ ok v))
          (ReadElements codecs vs) _
          (Appends-put_element (2 ^ 32) _ _ (h v k) (λ bs q short. (bs, refl, q)))
          (elements_RoundTrip codecs hs vs ks (omega (arith, e)))
          λ x cs (bs, e, q) r. rw e (ReadElements-cons c codecs v vs bs cs q r))
        λ cs r. r

  pub counted :
      (mismatch : DecodeError) (n : ℕ) (rest : List ℕ)
      → n < 2 ^ 32
      → new_with mismatch n (to_be_bytes 4 n ++ rest) ≡ ok (inner rest n)
  unfolding new_with expect_count read_tuple_like_header inner_of
  counted mismatch n rest h = rw (read, new_with, same, expect_count) refl
    where
      read : read_tuple_like_header (to_be_bytes 4 n ++ rest) ≡ ok (inner rest n, [])
      read = ensured 4 _ _ (omega lengths) ∙ then_read _ _ (to_be_bytes 4 n) _ n (Reads-u32 n h)

      same : (n == n) ≡ true
      same = ground arith

  -- A count, and the elements.
  tuple_RoundTrip :
      (mismatch : DecodeError) (codecs : List Codec)
      → All RoundTrips codecs
      → (vs : Values) → AreValues vs
      → length codecs ≡ count_values vs
      → Appends (encode_tuple codecs vs) (λ bs.
        length bs < 2 ^ 31
        → decode_tuple_with (new_with mismatch (length codecs)) codecs bs ≡ ok vs)
  unfolding encode_tuple decode_tuple_with behind_header
  tuple_RoundTrip mismatch codecs h vs k e =
      Appends->> (λ x. (x ≡ to_be_bytes 4 (length codecs)) × (length codecs < 2 ^ 32))
        (ReadElements codecs vs) _
        (Appends-put_checked 4 (2 ^ 32) too_many_elements C.put_u32 (length codecs)
          C.put_u32-PutsBe)
        (elements_RoundTrip codecs h vs k e)
        λ x cs (q, small) r. rw q λ short.
          rw (counted mismatch (length codecs) cs small, behind_header)
            (r.1 (omega (lengths, short)))

  pub tuple_codec-RoundTrips :
      (codecs : List Codec) → All RoundTrips codecs → RoundTrips (tuple_codec codecs)
  unfolding tuple_codec encode_tuple_value new_object
  tuple_codec-RoundTrips codecs h (tuple vs) k =
      Appends-if (length codecs == count_values vs) _ _ λ same.
        Appends-map _ _ (λ bs r short. ap (map_ok tuple) (r short))
          (tuple_RoundTrip _ codecs h vs k ((==_iff _ _).0 same))
  tuple_codec-RoundTrips codecs h _ k = Appends-refuse _ _

  pub named_tuple_codec-RoundTrips :
      (shape : NamedTupleShape) (codecs : List Codec)
      → All RoundTrips codecs
      → RoundTrips (named_tuple_codec shape codecs)
  unfolding named_tuple_codec encode_named_tuple_value new_tuple
  named_tuple_codec-RoundTrips shape codecs h (named_tuple other vs) k =
      Appends-if (equal_names other shape) _ _ λ same_names.
        Appends-if (length codecs == count_values vs) _ _ λ same.
          let e : shape ≡ other = sym (equal_names_eq other shape same_names) in
          Appends-map _ _
            (λ bs r short.
              ap (map_ok (named_tuple shape)) (r short) ∙ ap (λ s. ok (named_tuple s vs)) e)
            (tuple_RoundTrip _ codecs h vs k ((==_iff _ _).0 same))
  named_tuple_codec-RoundTrips shape codecs h _ k = Appends-refuse _ _
