-- ===== src/Codecs/CollectionRoundTrip.antt =====
-- The codecs of sets and arrays in codec.rs on the bytes that they have written.
use edgedb_rust.Base.{
  ℕ, zero, suc, ◌%◌, ◌^◌, ◌<◌, ◌≤◌, ◌≡◌, refl, ap, ◌∙◌, true, List, [], ◌++◌, append-nil, Result,
  ok, map_ok, length, leb, arith,
}
use edgedb_rust.Base.HashMap.{nat_eq, list_eq}
use edgedb_rust.Wire.{
  DecodeError, array_too_long, invalid_set_shape, invalid_array_shape, to_be_bytes, Crates,
}
use edgedb_rust.Wire.Decoder
use edgedb_rust.Wire.Decoder.{Decoder, pure, ensure_remaining, ◌>>=◌}
use edgedb_rust.Wire.Decoder.Reads.{Reads, Reads-u32}
use edgedb_rust.Wire.Encoder.Writes.{Writes-done, Writes->>, Writes-u32}
use edgedb_rust.Wire.Encoding.RoundTrip.{lengths}
use edgedb_rust.Codecs.{Value, Values, nil, cons, set, array, Codec}
use edgedb_rust.Codecs.Composite.{
  Inner, Reader, and_then, computed, read_array_like_element, read_array_like_header,
  read_dimension, inner_of,
}
use edgedb_rust.Time.Int.{pos}
use edgedb_rust.Bignum.BigInt.{as_unsigned}
use edgedb_rust.Codecs.Collections.{
  encode_set_value, encode_array_value, adapter_header, array_adapter_codec, count_values,
  encode_items, encode_array_like, decode_items, decode_array_like, set_codec, array_codec,
  derived_scalar_codec,
}
use edgedb_rust.Codecs.Appends.{
  AreValues, Appends, Appends-Writes, Appends-refuse, Appends-map, Appends->>, Appends-behind,
  Appends-put_checked, Appends-put_element,
}
use edgedb_rust.Codecs.ScalarRoundTrip.{RoundTrips}
use edgedb_rust.Codecs.ReadingBack.{inner, wire_element, Ends, Reads-pos, array_element_read}

-- No elements leave no bytes.
abbrev pub Empties : ℕ → List ℕ → Type 0
Empties zero bs = bs ≡ []
Empties (suc n) bs = Unit {0}

pub Ends-of : (n k : ℕ) (bs : List ℕ) → n ≤ k → Empties n bs → Ends k bs
Ends-of zero zero bs h e = e
Ends-of zero (suc k) bs h e = tt
Ends-of (suc n) zero bs h e = absurd (omega arith)
Ends-of (suc n) (suc k) bs h e = tt

-- An element that is read, decoded and put before the rest.
pub item_read :
    {E V W : Type 0} (r : Reader E) (one : E → Result DecodeError V) (more : Reader W)
    (join : V → W → W) (s s' : Inner) (e : E) (v : V) (w : W)
    → r s ≡ (ok e, s')
    → one e ≡ ok v
    → (more s').0 ≡ ok w
    → (and_then r
        (λ element.
          and_then (computed (one element)) λ x. and_then more λ xs. computed (ok (join x xs)))
        s).0
      ≡ ok (join v w)
unfolding and_then computed
item_read r one more join s s' e v w h k l =
    rw (and_then, h, computed, k, computed, h, and_then, l) refl

module _ ⦃C : Crates⦄ where
  -- The bytes of the items of a set or an array.
  abbrev ReadItems : (List ℕ → Result DecodeError Value) → Values → List ℕ → Type 0
  ReadItems one vs bs =
      Empties (count_values vs) bs
      × (length bs < 2 ^ 31
          → (decode_items (count_values vs) one (inner bs (count_values vs))).0 ≡ ok vs)

  ReadItems-cons :
      (one : List ℕ → Result DecodeError Value) (v : Value) (vs : Values) (bs cs : List ℕ)
      → (length bs < 2 ^ 31 → one bs ≡ ok v)
      → ReadItems one vs cs
      → ReadItems one (cons v vs) (wire_element bs ++ cs)
  unfolding count_values decode_items
  ReadItems-cons one v vs bs cs h (e, r) = (
    tt,
    λ short.
        let b : length bs < 2 ^ 31 = omega (lengths, short) in
        let e' : Ends (count_values vs) cs = Ends-of (count_values vs) _ cs (omega arith) e in
        item_read read_array_like_element one (decode_items (count_values vs) one) cons _
          (inner cs (count_values vs)) bs v vs (array_element_read bs cs (count_values vs) b e')
          (h b) (r (omega (lengths, short))),
  )

  items_RoundTrip :
      (c : Codec)
      → RoundTrips c
      → (vs : Values) → AreValues vs
      → Appends (encode_items c.encode vs) (ReadItems c.decode vs)
  unfolding encode_items count_values decode_items computed
  items_RoundTrip c h nil k = Appends-Writes _ Writes-done (refl, λ _. refl)
  items_RoundTrip c h (cons v vs) (k, ks) =
      Appends->>
        (λ x. (bs : List ℕ) × (x ≡ wire_element bs) × (length bs < 2 ^ 31 → c.decode bs ≡ ok v))
        (ReadItems c.decode vs) (ReadItems c.decode (cons v vs))
        (Appends-put_element (2 ^ 32) _ _ (h v k) (λ bs q short. (bs, refl, q)))
        (items_RoundTrip c h vs ks)
        λ x cs (bs, e, q) r. rw e (ReadItems-cons c.decode v vs bs cs q r)

  pub then_read :
      {A B : Type 0} (d : Decoder A) (f : A → Decoder B) (bs rest : List ℕ) (a : A)
      → Reads d bs a
      → (d >>= f) (bs ++ rest) ≡ f a rest
  unfolding ◌>>=◌
  then_read d f bs rest a r = rw (r.read rest, ◌>>=◌) refl

  pub next_read :
      {A B : Type 0} (d : Decoder A) (f : Decoder B) (bs rest : List ℕ) (a : A)
      → Reads d bs a
      → Decoder.◌>>◌ d f (bs ++ rest) ≡ f rest
  unfolding Decoder.◌>>◌
  next_read d f bs rest a r = rw (r.read rest, Decoder.◌>>◌) refl

  pub ensured :
      {A : Type 0} (n : ℕ) (d : Decoder A) (buf : List ℕ)
      → n ≤ length buf
      → Decoder.◌>>◌ (ensure_remaining n) d buf ≡ d buf
  unfolding Decoder.◌>>◌ ensure_remaining
  ensured n d buf h =
      let there : leb n (length buf) ≡ true = ground arith in
      rw (Decoder.◌>>◌, there, ensure_remaining) refl

  header_read :
      (error : DecodeError) (n : ℕ) (rest : List ℕ)
      → n < 2 ^ 32
      → read_array_like_header error (
          to_be_bytes 4 1
          ++ (to_be_bytes 4 0
              ++ (to_be_bytes 4 0 ++ (to_be_bytes 4 n ++ (to_be_bytes 4 1 ++ rest)))))
        ≡ ok (inner rest n, [])
  unfolding read_array_like_header read_dimension inner_of
  header_read error n rest h =
      ensured 12 _ _ (omega lengths)
      ∙ then_read _ _ (to_be_bytes 4 1) _ 1 (Reads-u32 1 (omega arith))
      ∙ then_read _ _ (to_be_bytes 4 0) _ 0 (Reads-u32 0 (omega arith))
      ∙ then_read _ _ (to_be_bytes 4 0) _ 0 (Reads-u32 0 (omega arith))
      ∙ ensured 8 _ _ (omega lengths)
      ∙ then_read _ _ (to_be_bytes 4 n) _ n (Reads-u32 n h)
      ∙ then_read _ _ (to_be_bytes 4 1) _ 1 (Reads-u32 1 (omega arith))

  empty_header_read :
      (error : DecodeError)
      → read_array_like_header error (to_be_bytes 4 0 ++ (to_be_bytes 4 0 ++ to_be_bytes 4 0))
        ≡ ok (inner [] 0, [])
  unfolding read_array_like_header inner_of
  empty_header_read error = rw (append-nil (to_be_bytes 4 0)) at from
    where
      from :
          read_array_like_header error
            (to_be_bytes 4 0 ++ (to_be_bytes 4 0 ++ (to_be_bytes 4 0 ++ [])))
          ≡ ok (inner [] 0, [])
      from =
          ensured 12 _ _ (omega lengths)
          ∙ then_read _ _ (to_be_bytes 4 0) _ 0 (Reads-u32 0 (omega arith))
          ∙ then_read _ _ (to_be_bytes 4 0) _ 0 (Reads-u32 0 (omega arith))
          ∙ then_read _ _ (to_be_bytes 4 0) _ 0 (Reads-u32 0 (omega arith))

  -- An empty array has no dimension, any other has one.
  array_like_RoundTrip :
      (error : DecodeError) (c : Codec)
      → RoundTrips c
      → (vs : Values) → AreValues vs
      → Appends
          (encode_array_like c.encode vs)
          (λ bs. length bs < 2 ^ 31 → decode_array_like error c.decode bs ≡ ok vs)
  unfolding encode_array_like decode_array_like decode_items computed
  array_like_RoundTrip error c h nil k =
      Appends-Writes _ (Writes->> (Writes-u32 0) (Writes->> (Writes-u32 0) (Writes-u32 0)))
        λ short. rw (empty_header_read error, decode_array_like) refl
  array_like_RoundTrip error c h (cons v vs) k =
      let all : Values = cons v vs in
      let n : ℕ = count_values all in
      let Q : List ℕ → Type 0 =
        (λ bs. length bs < 2 ^ 31 → decode_array_like error c.decode bs ≡ ok all) in
      Appends-behind (λ bs. Q (to_be_bytes 4 1 ++ bs)) Q (Writes-u32 1)
        (Appends-behind (λ bs. Q (to_be_bytes 4 1 ++ (to_be_bytes 4 0 ++ bs))) _ (Writes-u32 0)
          (Appends-behind
            (λ bs. Q (to_be_bytes 4 1 ++ (to_be_bytes 4 0 ++ (to_be_bytes 4 0 ++ bs)))) _
            (Writes-u32 0)
            (Appends->> (λ x. (x ≡ to_be_bytes 4 n) × (n < 2 ^ 32))
              (λ bs.
                n < 2 ^ 32
                → Q (
                    to_be_bytes 4 1
                    ++ (to_be_bytes 4 0 ++ (to_be_bytes 4 0 ++ (to_be_bytes 4 n ++ bs)))))
              _ (Appends-put_checked 4 (2 ^ 32) array_too_long C.put_u32 n C.put_u32-PutsBe)
              (Appends-behind (ReadItems c.decode all) _ (Writes-u32 1) (items_RoundTrip c h all k)
                λ cs r small short.
                  rw (header_read error n cs small, decode_array_like)
                    (r.1 (omega (lengths, short))))
              λ x cs (e, small) r. rw e (r small))
            λ cs r. r)
          λ cs r. r)
        λ cs r. r

  pub set_codec-RoundTrips : (c : Codec) → RoundTrips c → RoundTrips (set_codec c)
  unfolding set_codec encode_set_value
  set_codec-RoundTrips c h (set vs) k =
      Appends-map _ _ (λ bs r short. ap (map_ok set) (r short))
        (array_like_RoundTrip invalid_set_shape c h vs k)
  set_codec-RoundTrips c h _ k = Appends-refuse _ _

  pub array_codec-RoundTrips : (c : Codec) → RoundTrips c → RoundTrips (array_codec c)
  unfolding array_codec encode_array_value
  array_codec-RoundTrips c h (array vs) k =
      Appends-map _ _ (λ bs r short. ap (map_ok array) (r short))
        (array_like_RoundTrip invalid_array_shape c h vs k)
  array_codec-RoundTrips c h _ k = Appends-refuse _ _

  pub derived_scalar_codec-RoundTrips :
      (c : Codec) → RoundTrips c → RoundTrips (derived_scalar_codec c)
  unfolding derived_scalar_codec
  derived_scalar_codec-RoundTrips c h = h

  adapter_header_read :
      (n : ℕ) (rest : List ℕ)
      → n < 2 ^ 31
      → adapter_header (to_be_bytes 4 1 ++ (to_be_bytes 4 0 ++ (to_be_bytes 4 n ++ rest)))
        ≡ ok (n, rest)
  unfolding adapter_header as_unsigned pure
  adapter_header_read n rest h =
      let same : n % 2 ^ 64 ≡ n = omega arith in
      ensured 12 _ _ (omega lengths)
      ∙ then_read _ _ (to_be_bytes 4 1) _ 1 (Reads-u32 1 (omega arith))
      ∙ next_read _ _ (to_be_bytes 4 0) _ (pos 0) (Reads-pos 0 (omega arith))
      ∙ then_read _ _ (to_be_bytes 4 n) _ (pos n) (Reads-pos n h)
      ∙ rw same refl

  pub array_adapter_codec-RoundTrips :
      (c : Codec) → RoundTrips c → RoundTrips (array_adapter_codec c)
  unfolding array_adapter_codec
  array_adapter_codec-RoundTrips c h v k =
      let Q : List ℕ → Type 0 =
        (λ bs. length bs < 2 ^ 31 → (array_adapter_codec c).decode bs ≡ ok v) in
      Appends-behind (λ bs. Q (to_be_bytes 4 1 ++ bs)) Q (Writes-u32 1)
        (Appends-behind (λ bs. Q (to_be_bytes 4 1 ++ (to_be_bytes 4 0 ++ bs))) _ (Writes-u32 0)
          (Appends-put_element (2 ^ 31) _ _ (h v k) λ bs r small short.
            let all : leb (length bs) (length bs) ≡ true = ground arith in
            rw (adapter_header_read (length bs) bs small, all, array_adapter_codec)
              (r (omega (lengths, short))))
          λ cs r. r)
        λ cs r. r
