-- ===== src/Codecs/Appends.antt =====
-- `Appends e Q`: where the encoder `e` succeeds it has added bytes to the output, and `Q` holds of
-- them. And what a value of the data model can hold.
use edgedb_rust.Base.{
  ℕ, ◌+◌, ◌-◌, ◌^◌, ◌<◌, ◌≡◌, refl, ap, ◌∙◌, Bool, true, false, Bool-cases, inl, inr, if◌then◌else◌,
  List, ◌++◌, append_assoc, some, Result, ok, err, panic, length, length-append, take, drop,
  take-append_length, drop-append_length, ltb, ltb→lt, All, arith,
}
use edgedb_rust.Wire.{EncodeError, to_be_bytes, length-to_be_bytes, IsUtf8, Crates, PutsBe}
use edgedb_rust.Wire.Encoder.{Encoder, put, put_checked, refuse, try_from, ◌>>◌}
use edgedb_rust.Wire.Encoder.Writes.{Writes}
use edgedb_rust.Wire.Encoding.RoundTrip.{IsU16, IsU32, IsU64, IsUuid}
use edgedb_rust.Time.Int.{ℤ, pos, negsuc}
use edgedb_rust.Time.LocalTime.{micros_per_day}
use edgedb_rust.Time.LocalDatetime.{try_from_datetime_micros}
use edgedb_rust.Codecs.{
  Value, nothing, uuid, str, bytes, json, enum, int16, int32, int64, config_memory, float32,
  float64, big_int, decimal, bool, datetime, local_datetime, local_date, local_time, duration,
  relative_duration, date_duration, set, tuple, array, object, sparse_object, named_tuple, range,
  Values, nil, cons, Slot, missing, present, Slots, no_slots, slot,
}
use edgedb_rust.Codecs.Collections.{patch_element, put_element}

-- An integer of `suc bits` bits.
abbrev pub IsInt : ℕ → ℤ → Type 0
IsInt bits (pos n) = n < 2 ^ bits
IsInt bits (negsuc n) = n < 2 ^ bits

-- An empty range without bounds and flags, which is the one that is read back: an encoder writes of
-- an empty range that it is empty, and neither its flags nor, in them, which bounds it has.
abbrev pub IsRange : (lower upper : Slot) → (inc_lower inc_upper empty : Bool) → Type 0
IsRange lower upper inc_lower inc_upper false = Unit {0}
IsRange missing missing false false true = Unit {0}
IsRange _ _ _ _ true = ⊥

-- What the fields of a value can hold in the source; sparse objects are left out, which are not
-- read back as they were written.
abbrev mutual
  pub IsValue : Value → Type 0
  IsValue nothing = Unit {0}
  IsValue (uuid u) = IsUuid u
  IsValue (str s) = IsUtf8 s
  IsValue (bytes b) = Unit {0}
  IsValue (json s) = IsUtf8 s
  IsValue (enum s) = IsUtf8 s
  IsValue (int16 v) = IsInt 15 v
  IsValue (int32 v) = IsInt 31 v
  IsValue (int64 v) = IsInt 63 v
  IsValue (config_memory v) = IsInt 63 v
  IsValue (float32 n) = IsU32 n
  IsValue (float64 n) = IsU64 n
  IsValue (big_int b) = IsInt 15 b.weight × All IsU16 b.digits
  IsValue (decimal d) = IsInt 15 d.weight × IsU16 d.decimal_digits × All IsU16 d.digits
  IsValue (bool b) = Unit {0}
  IsValue (datetime v) = IsInt 63 v × (try_from_datetime_micros v ≡ some v)
  IsValue (local_datetime v) = IsInt 63 v
  IsValue (local_date v) = IsInt 31 v
  IsValue (duration v) = IsInt 63 v
  IsValue (local_time n) = n < micros_per_day
  IsValue (relative_duration d) = IsInt 63 d.micros × IsInt 31 d.days × IsInt 31 d.months
  IsValue (date_duration d) = IsInt 31 d.days × IsInt 31 d.months
  IsValue (set vs) = AreValues vs
  IsValue (tuple vs) = AreValues vs
  IsValue (array vs) = AreValues vs
  IsValue (object shape xs) = AreSlots xs
  IsValue (sparse_object shape fs) = ⊥
  IsValue (named_tuple shape vs) = AreValues vs
  IsValue (range lower upper inc_lower inc_upper empty) =
      IsSlot lower × IsSlot upper × IsRange lower upper inc_lower inc_upper empty

  pub AreValues : Values → Type 0
  AreValues nil = Unit {0}
  AreValues (cons v vs) = IsValue v × AreValues vs

  pub IsSlot : Slot → Type 0
  IsSlot missing = Unit {0}
  IsSlot (present v) = IsValue v

  pub AreSlots : Slots → Type 0
  AreSlots no_slots = Unit {0}
  AreSlots (slot x xs) = IsSlot x × AreSlots xs

-- What was added to an output.
abbrev Added : (List ℕ → Type 0) → List ℕ → Result EncodeError (List ℕ) → Type 0
Added Q buf (ok out) = (bs : List ℕ) × (out ≡ buf ++ bs) × Q bs
Added Q buf (err e) = Unit {0}
Added Q buf panic = Unit {0}

pub record Appends (e : Encoder) (Q : List ℕ → Type 0) : Type 0 where
  pub added : (buf : List ℕ) → Added Q buf (e buf)

pub Appends-Writes :
    {e : Encoder} {bs : List ℕ} (Q : List ℕ → Type 0) → Writes e bs → Q bs → Appends e Q
Appends-Writes {bs} Q w q = record { added = λ buf. rw (w.written buf, Added) (bs, refl, q) }

pub Appends-refuse : (x : EncodeError) (Q : List ℕ → Type 0) → Appends (refuse x) Q
unfolding refuse
Appends-refuse x Q = record { added = λ buf. tt }

pub Appends-if :
    (b : Bool) (x : EncodeError) {e : Encoder} (Q : List ℕ → Type 0)
    → (b ≡ true → Appends e Q)
    → Appends (if b then e else refuse x) Q
Appends-if true x Q h = h refl
Appends-if false x Q h = Appends-refuse x Q

Added-map :
    (Q R : List ℕ → Type 0) (buf : List ℕ) (r : Result EncodeError (List ℕ))
    → ((bs : List ℕ) → Q bs → R bs)
    → Added Q buf r
    → Added R buf r
Added-map Q R buf (ok out) k (bs, e, q) = (bs, e, k bs q)
Added-map Q R buf (err x) k h = tt
Added-map Q R buf panic k h = tt

pub Appends-map :
    {e : Encoder} (Q R : List ℕ → Type 0)
    → ((bs : List ℕ) → Q bs → R bs)
    → Appends e Q
    → Appends e R
Appends-map {e} Q R k a = record { added = λ buf. Added-map Q R buf (e buf) k (a.added buf) }

Added-behind :
    (R S : List ℕ → Type 0) (buf bs mid : List ℕ) (r : Result EncodeError (List ℕ))
    → mid ≡ buf ++ bs
    → ((cs : List ℕ) → R cs → S (bs ++ cs))
    → Added R mid r
    → Added S buf r
Added-behind R S buf bs mid (ok out) m k (cs, e, q) =
    (bs ++ cs, e ∙ ap (λ x. x ++ cs) m ∙ append_assoc buf bs cs, k cs q)
Added-behind R S buf bs mid (err x) m k h = tt
Added-behind R S buf bs mid panic m k h = tt

Added->> :
    (Q R S : List ℕ → Type 0) (buf : List ℕ) (r : Result EncodeError (List ℕ)) (f : Encoder)
    → Added Q buf r
    → Appends f R
    → ((bs cs : List ℕ) → Q bs → R cs → S (bs ++ cs))
    → Added S buf (elim r [ ok out ↦ f out | err x ↦ err x | panic ↦ panic ])
Added->> Q R S buf (ok out) f (bs, e, q) a k =
    Added-behind R S buf bs out (f out) e (λ cs. k bs cs q) (a.added out)
Added->> Q R S buf (err x) f h a k = tt
Added->> Q R S buf panic f h a k = tt

pub Appends->> :
    {e f : Encoder} (Q R S : List ℕ → Type 0)
    → Appends e Q
    → Appends f R
    → ((bs cs : List ℕ) → Q bs → R cs → S (bs ++ cs))
    → Appends (e >> f) S
unfolding ◌>>◌
Appends->> {e} {f} Q R S a b k = record {
  added = λ buf. Added->> Q R S buf (e buf) f (a.added buf) b k;
}

-- Where the bytes that come first are known.
pub Appends-behind :
    {e f : Encoder} {bs : List ℕ} (R S : List ℕ → Type 0)
    → Writes e bs
    → Appends f R
    → ((cs : List ℕ) → R cs → S (bs ++ cs))
    → Appends (e >> f) S
Appends-behind {bs} R S w b k =
    Appends->> (λ x. x ≡ bs) R S (Appends-Writes (λ x. x ≡ bs) w refl) b (λ x cs q r. rw q (k cs r))

pub Appends-put_checked :
    (width bound : ℕ) (x : EncodeError) (write : ℕ → List ℕ → List ℕ) (n : ℕ)
    → PutsBe width write
    → Appends (put_checked bound x write n) (λ bs. (bs ≡ to_be_bytes width n) × (n < bound))
unfolding put_checked try_from put
Appends-put_checked width bound x write n law = record {
  added = λ buf. elim (Bool-cases (ltb n bound)) [
    | inl fits ↦
        rw (fits, put_checked, Added) (to_be_bytes width n, law n buf, (refl, ltb→lt _ _ fits))
    | inr large ↦ rw (large, put_checked, Added) tt
  ];
}

Added-patched :
    (bound : ℕ) (Q R : List ℕ → Type 0) (buf zeros : List ℕ) (r : Result EncodeError (List ℕ))
    → length zeros ≡ 4
    → ((bs : List ℕ) → Q bs → length bs < bound → R (to_be_bytes 4 (length bs) ++ bs))
    → Added Q (buf ++ zeros) r
    → Added R buf
        (elim r [ ok out ↦ patch_element bound (length buf) out | err x ↦ err x | panic ↦ panic ])
unfolding patch_element try_from
Added-patched bound Q R buf zeros (ok out) four k (bs, e, q) =
    rw e (elim (Bool-cases (ltb (length bs) bound)) [
      | inl fits ↦
          rw (size, fits, patch_element, before, behind, Added)
            (to_be_bytes 4 (length bs) ++ bs, refl, k bs q (ltb→lt _ _ fits))
      | inr large ↦ rw (size, large, patch_element, Added) tt
    ])
  where
    size : length ((buf ++ zeros) ++ bs) - length buf - 4 ≡ length bs
    size = omega (arith, length-append (buf ++ zeros) bs, length-append buf zeros)

    before : take (length buf) ((buf ++ zeros) ++ bs) ≡ buf
    before = rw (append_assoc buf zeros bs) (take-append_length buf (zeros ++ bs))

    behind : drop (length buf + 4) ((buf ++ zeros) ++ bs) ≡ bs
    behind =
        let h : length buf + 4 ≡ length (buf ++ zeros) = omega (arith, length-append buf zeros) in
        rw h (drop-append_length (buf ++ zeros) bs)
Added-patched bound Q R buf zeros (err x) four k h = tt
Added-patched bound Q R buf zeros panic four k h = tt

-- A length, and what it is the length of.
pub Appends-put_element :
    ⦃C : Crates⦄ (bound : ℕ) {e : Encoder} (Q R : List ℕ → Type 0)
    → Appends e Q
    → ((bs : List ℕ) → Q bs → length bs < bound → R (to_be_bytes 4 (length bs) ++ bs))
    → Appends (put_element bound e) R
unfolding put_element
Appends-put_element ⦃C⦄ bound {e} Q R a k = record {
  added = λ buf.
      rw (C.put_u32-PutsBe 0 buf, put_element)
        (Added-patched bound Q R buf (to_be_bytes 4 0) (e (buf ++ to_be_bytes 4 0))
          (length-to_be_bytes 4 0) k (a.added (buf ++ to_be_bytes 4 0)));
}
