-- ===== src/Codecs/Size.antt =====
-- How many bytes the values of value.rs take at most in the data of a message, by the layout that
-- codec.rs writes and independently of its codecs.
use edgedb_rust.Base.{ℕ, ◌+◌, ◌*◌, ◌≤◌, length, arith}
use edgedb_rust.Codecs.{
  Value, nothing, uuid, str, bytes, json, enum, int16, int32, int64, config_memory, float32,
  float64, big_int, decimal, bool, datetime, local_datetime, local_date, local_time, duration,
  relative_duration, date_duration, set, tuple, array, object, sparse_object, named_tuple, range,
  Values, nil, cons, Slot, missing, present, Slots, no_slots, slot, Fields, no_fields, absent,
  field,
}
use edgedb_rust.Codecs.Collections.{count_values}
use edgedb_rust.Codecs.Objects.{count_slots}

-- An element of a set may be an array, around which there are twelve bytes more. A missing bound of
-- a range takes no bytes, and is counted with the length of four bytes that it does not have.
abbrev mutual
  pub size : Value → ℕ
  size nothing = 0
  size (uuid u) = length u
  size (str s) = length s
  size (bytes b) = length b
  size (json s) = 1 + length s
  size (enum s) = length s
  size (int16 v) = 2
  size (int32 v) = 4
  size (int64 v) = 8
  size (config_memory v) = 8
  size (float32 n) = 4
  size (float64 n) = 8
  size (big_int b) = 8 + length b.digits * 2
  size (decimal d) = 8 + length d.digits * 2
  size (bool b) = 1
  size (datetime v) = 8
  size (local_datetime v) = 8
  size (local_date v) = 4
  size (local_time n) = 8
  size (duration v) = 16
  size (relative_duration d) = 16
  size (date_duration d) = 16
  size (set vs) = 20 + sizes 16 vs
  size (array vs) = 20 + sizes 4 vs
  size (tuple vs) = 4 + sizes 8 vs
  size (named_tuple shape vs) = 4 + sizes 8 vs
  size (object shape xs) = 4 + slot_sizes xs
  size (sparse_object shape fs) = 4 + field_sizes fs
  size (range lower upper inc_lower inc_upper empty) = 1 + (slot_size lower + slot_size upper)

  -- With so many bytes before each of the values.
  pub sizes : ℕ → Values → ℕ
  sizes k nil = 0
  sizes k (cons v vs) = (k + size v) + sizes k vs

  pub slot_size : Slot → ℕ
  slot_size missing = 4
  slot_size (present v) = 4 + size v

  pub slot_sizes : Slots → ℕ
  slot_sizes no_slots = 0
  slot_sizes (slot x xs) = (4 + slot_size x) + slot_sizes xs

  pub field_sizes : Fields → ℕ
  field_sizes no_fields = 0
  field_sizes (absent fs) = field_sizes fs
  field_sizes (field x fs) = (4 + slot_size x) + field_sizes fs

pub sizes-le : (j k : ℕ) (vs : Values) → j ≤ k → sizes j vs ≤ sizes k vs
sizes-le j k nil h = omega arith
sizes-le j k (cons v vs) h = omega (arith, sizes-le j k vs h)

pub count_values-le : (k : ℕ) (vs : Values) → 4 ≤ k → 4 * count_values vs ≤ sizes k vs
unfolding count_values
count_values-le k nil h = omega arith
count_values-le k (cons v vs) h = omega (arith, count_values-le k vs h)

pub count_slots-le : (xs : Slots) → 4 * count_slots xs ≤ slot_sizes xs
unfolding count_slots
count_slots-le no_slots = omega arith
count_slots-le (slot missing xs) = omega (arith, count_slots-le xs)
count_slots-le (slot (present v) xs) = omega (arith, count_slots-le xs)
