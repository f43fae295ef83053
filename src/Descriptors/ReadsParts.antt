-- ===== src/Descriptors/ReadsParts.antt =====
-- What the decoders of descriptors.rs read of the parts of a descriptor: elements, flags, dimensions.
use edgedb_rust.Base.{
  ℕ, ◌+◌, ◌*◌, ◌-◌, ◌^◌, ◌<◌, ◌≤◌, ◌≡◌, refl, Bool, true, false, if◌then◌else◌, List, [], ◌∷◌, ◌++◌,
  Option, none, some, ok, length, length-append, arith,
}
use edgedb_rust.Base.HashMap.{nat_eq}
use edgedb_rust.Wire.{Crates, to_be_bytes}
use edgedb_rust.Wire.Encoder.Writes.{bytes_of_all}
use edgedb_rust.Wire.Decoder.Reads.{
  Reads, Reads-pure, Reads-pure_eq, Reads->>=, Reads-map, Reads-pass, Reads-lift, Reads-ensure,
  Reads-u8, Reads-u16, Reads-u32,
}
use edgedb_rust.Wire.Encoding.RoundTrip.{IsU16, Reads-string, lengths}
use edgedb_rust.Protocol.{
  ProtocolVersion, Cardinality, cardinality_u8, is_at_least, try_from_u8_iff,
}
use edgedb_rust.Time.Int.{pos, as_i32}
use edgedb_rust.Descriptors.{ShapeElement, TupleElement}
use edgedb_rust.Descriptors.Wire.{
  flags_of, wire_flags, wire_shape_element, wire_tuple_element, wire_type_pos, wire_dimension,
  is_some, IsShapeElement, IsTupleElement, IsDimension,
}
use edgedb_rust.Descriptors.Decode.{
  dimension, has_flag, decode_type_pos, decode_element_flags, decode_shape_element,
  decode_tuple_element, decode_dimension,
}

cardinality_lt : (c : Cardinality) → cardinality_u8 c < 2 ^ 8
unfolding cardinality_u8
cardinality_lt c = ground arith

flags_lt : (e : ShapeElement) → flags_of e < 8
flags_lt e = ground arith

-- The three flags are found again in their number.
flags_read :
    (a b c : Bool)
    → (has_flag 0b001 ((if a then 1 else 0) + (if b then 2 else 0) + (if c then 4 else 0)) ≡ a)
      × (has_flag 0b010 ((if a then 1 else 0) + (if b then 2 else 0) + (if c then 4 else 0)) ≡ b)
      × (has_flag 0b100 ((if a then 1 else 0) + (if b then 2 else 0) + (if c then 4 else 0)) ≡ c)
unfolding has_flag
flags_read true true true = (refl, refl, refl)
flags_read true true false = (refl, refl, refl)
flags_read true false true = (refl, refl, refl)
flags_read true false false = (refl, refl, refl)
flags_read false true true = (refl, refl, refl)
flags_read false true false = (refl, refl, refl)
flags_read false false true = (refl, refl, refl)
flags_read false false false = (refl, refl, refl)

element_read :
    (e : ShapeElement)
    → ◌≡◌ {A = ShapeElement}
        (record {
          flag_implicit = has_flag 0b001 (flags_of e);
          flag_link_property = has_flag 0b010 (flags_of e);
          flag_link = has_flag 0b100 (flags_of e);
          cardinality = e.cardinality;
          name = e.name;
          type_pos = e.type_pos;
        })
        e
element_read e =
    let (a, b, c) = flags_read e.flag_implicit e.flag_link_property e.flag_link in rw (a, b, c) refl

dimension_read : (n : ℕ) → 0 < n → n < 2 ^ 31 → dimension (as_i32 (pos n)) ≡ ok (some n)
unfolding dimension as_i32
dimension_read n h k = ground arith

length-wire_flags : (e : ShapeElement) → 1 ≤ length (wire_flags e)
unfolding wire_flags
length-wire_flags e = by_cardinality e.cardinality
  where
    by_cardinality :
        (o : Option Cardinality)
        → 1
          ≤ length (elim o [
            | none ↦ to_be_bytes 1 (flags_of e)
            | some c ↦ to_be_bytes 4 (flags_of e) ++ to_be_bytes 1 (cardinality_u8 c)
          ])
    by_cardinality none = omega lengths
    by_cardinality (some c) = omega lengths

pub length-dimension : (o : Option ℕ) → 4 ≤ length (wire_dimension o)
length-dimension none = omega lengths
length-dimension (some n) = omega lengths

pub length-all :
    {A : Type 0} (k : ℕ) (wire : A → List ℕ) (xs : List A)
    → ((x : A) → k ≤ length (wire x))
    → k * length xs ≤ length (bytes_of_all wire xs)
length-all k wire [] h = omega arith
length-all k wire (x ∷ xs) h =
    grind (lengths, length-append (wire x) (bytes_of_all wire xs), h x, length-all k wire xs h)

module _ ⦃C : Crates⦄ where
  pub Reads-type_pos : (t : ℕ) → IsU16 t → Reads decode_type_pos (wire_type_pos t) t
  unfolding decode_type_pos
  Reads-type_pos t h = Reads-u16 t h

  Reads-element_flags :
      (p : ProtocolVersion) (flags : ℕ) (o : Option Cardinality)
      → flags < 8
      → is_some o ≡ is_at_least p 0 11
      → Reads
          (decode_element_flags p)
          (elim o [
            | none ↦ to_be_bytes 1 flags
            | some c ↦ to_be_bytes 4 flags ++ to_be_bytes 1 (cardinality_u8 c)
          ])
          (flags, o)
  unfolding decode_element_flags
  Reads-element_flags p flags none h v =
      rw (← v) (Reads-map _ (Reads-u8 flags (omega arith)) (Reads-pure _))
  Reads-element_flags p flags (some c) h v = rw (← v) (
      Reads->>= _ (Reads-u32 flags (omega arith)) (
        Reads-map _ (Reads-u8 (cardinality_u8 c) (cardinality_lt c))
          (Reads-pass _ ((try_from_u8_iff _ c).1 refl) (Reads-pure _))))

  pub Reads-shape_element :
      (p : ProtocolVersion) (e : ShapeElement)
      → IsShapeElement p e
      → Reads (decode_shape_element p) (wire_shape_element e) e
  unfolding decode_shape_element wire_flags
  Reads-shape_element p e (v, hn, ht) = Reads-ensure (omega (lengths, length-wire_flags e)) (
      Reads->>= _ (Reads-element_flags p (flags_of e) e.cardinality (flags_lt e) v) (
        Reads->>= _ (Reads-string e.name hn) (
          Reads-ensure (omega lengths)
            (Reads-map _ (Reads-type_pos e.type_pos ht) (Reads-pure_eq (element_read e))))))

  pub Reads-tuple_element :
      (e : TupleElement) → IsTupleElement e → Reads decode_tuple_element (wire_tuple_element e) e
  unfolding decode_tuple_element
  Reads-tuple_element e (hn, ht) =
      Reads->>= _ (Reads-string e.name hn)
        (Reads-ensure (omega lengths) (Reads-map _ (Reads-type_pos e.type_pos ht) (Reads-pure e)))

  pub Reads-dimension : (o : Option ℕ) → IsDimension o → Reads decode_dimension (wire_dimension o) o
  unfolding decode_dimension as_i32
  Reads-dimension none h = Reads-map _ (Reads-u32 _ (omega arith)) (Reads-lift no_bound)
    where
      no_bound : dimension (as_i32 (pos (2 ^ 32 - 1))) ≡ ok none
      no_bound = refl
  Reads-dimension (some n) (h, k) =
      Reads-map _ (Reads-u32 n (omega arith)) (Reads-lift (dimension_read n h k))
