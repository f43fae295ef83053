-- ===== src/Codecs.antt =====
-- edgedb-protocol/src/value.rs and codec.rs: the values of the data model, and what a codec is. A
-- field that may be missing is a `Slot`. A string is the list of its bytes, a float the number that
-- its bits are, and a date or a time the number that it holds.
pub mod Raw
pub mod Composite
pub mod Scalars
pub mod Collections
pub mod Objects
pub mod Build
pub mod Termination
pub mod Safety
pub mod Reading
pub mod Total
pub mod TotalComposite
pub mod ReadingParts
pub mod BuiltTotal
pub mod Appends
pub mod ScalarRoundTrip
pub mod NumberRoundTrip
pub mod TableRoundTrip
pub mod ReadingBack
pub mod CollectionRoundTrip
pub mod TupleRoundTrip
pub mod ObjectRoundTrip
pub mod RangeRoundTrip
pub mod BuiltRoundTrip
pub mod Faults
pub mod Gives
pub mod Typing
pub mod Derivation
pub mod ScalarTyping
pub mod DecodedTyping
pub mod CompositeTyping
pub mod FieldTyping
pub mod Soundness
pub mod Size
pub mod Encodes
pub mod Inversion
pub mod ScalarEncodes
pub mod EncodedTyping
pub mod Completeness
pub mod Typedesc
mod Tests
use edgedb_rust.Base.{ℕ, List, Option, Bool, Result, ◌≡◌}
use edgedb_rust.Wire.{DecodeError}
use edgedb_rust.Wire.Encoder.{Encoder}
use edgedb_rust.Protocol.{Cardinality}
use edgedb_rust.Time.Int.{ℤ}
pub use edgedb_rust.Time.RelativeDuration.{RelativeDuration}
pub use edgedb_rust.Time.DateDuration.{DateDuration}
use edgedb_rust.Bignum.BigInt.{BigInt}

pub record Decimal : Type 0 where
  pub negative : Bool
  pub weight : ℤ
  pub decimal_digits : ℕ
  pub digits : List ℕ

-- The element of a shape, without the position of its type.
pub record Element : Type 0 where
  pub flag_implicit : Bool
  pub flag_link_property : Bool
  pub flag_link : Bool
  pub cardinality : Option Cardinality
  pub name : List ℕ

-- A shape is the list of its elements; that of a named tuple has their names.
abbrev pub ObjectShape : Type 0
ObjectShape = List Element

abbrev pub NamedTupleShape : Type 0
NamedTupleShape = List (List ℕ)

mutual
  pub data Value : Type 0 where
    nothing : Value
    uuid str bytes json enum : List ℕ → Value
    int16 int32 int64 config_memory : ℤ → Value
    float32 float64 : ℕ → Value
    big_int : BigInt → Value
    decimal : Decimal → Value
    bool : Bool → Value
    datetime local_datetime local_date duration : ℤ → Value
    local_time : ℕ → Value
    relative_duration : RelativeDuration → Value
    date_duration : DateDuration → Value
    set tuple array : Values → Value
    object : (shape : ObjectShape) → (fields : Slots) → Value
    sparse_object : (shape : ObjectShape) → (fields : Fields) → Value
    named_tuple : (shape : NamedTupleShape) → (fields : Values) → Value
    range : (lower upper : Slot) → (inc_lower inc_upper empty : Bool) → Value

  pub data Values : Type 0 where
    nil : Values
    cons : Value → Values → Values

  -- `Option<Value>`
  pub data Slot : Type 0 where
    missing : Slot
    present : Value → Slot

  pub data Slots : Type 0 where
    no_slots : Slots
    slot : Slot → Slots → Slots

  -- The fields of a `SparseObject`: one may be absent altogether.
  pub data Fields : Type 0 where
    no_fields : Fields
    absent : Fields → Fields
    field : Slot → Fields → Fields

-- `dyn Codec`: what a codec does with bytes and with values.
pub record Codec : Type 0 where
  pub decode : List ℕ → Result DecodeError Value
  pub encode : Value → Encoder
