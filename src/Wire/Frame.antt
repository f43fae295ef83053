-- ===== src/Wire/Frame.antt =====
-- What `ClientMessage::decode` and `ServerMessage::decode` of edgedb-protocol have in common.
use edgedb_rust.Base.{
  ℕ, ◌%◌, ◌≡◌, ◌≤◌, ◌≢◌, List, [], ◌∷◌, none, some, Result, ok, err, panic, length, drop, arith,
}
use edgedb_rust.Wire.{DecodeError, extra_data, underflow, Crates, to_be_bytes}
use edgedb_rust.Wire.Decoder.Stops.{Panics, Underflows, Panics-first}
use edgedb_rust.Wire.Decoder.{Decoder, pure, ◌>>=◌}
use edgedb_rust.Wire.Decoder.Reads.{Reads, ReadsAll, ReadsAll-Reads, ReadsAll-map}
use edgedb_rust.Wire.Decoder.Safe.{Safe, Safe-pure, Safe->>=, Leaves}
use edgedb_rust.Wire.Encoding.RoundTrip.{wire_frame}

-- `X::decode(&mut data).map(M::x)?`
unfoldable pub read_as : {A B : Type 0} → (A → B) → Decoder A → Decoder B
read_as f d = d >>= λ a. pure (f a)

-- `ensure!(data.remaining() == 0, errors::ExtraData); Ok(result)`
unfoldable pub all_read : {A : Type 0} → Result DecodeError (A × List ℕ) → Result DecodeError A
all_read (ok (a, [])) = ok a
all_read (ok (a, _ ∷ _)) = err extra_data
all_read (err e) = err e
all_read panic = panic

-- What `ClientMessage::decode` and `ServerMessage::decode` share: the body starts behind five
-- bytes, the code is the first, and nothing may be left.
unfoldable pub decode_frame :
    {A : Type 0} ⦃C : Crates⦄ → (ℕ → Decoder A) → List ℕ → Result DecodeError A
unfolding all_read
decode_frame ⦃C⦄ body [] = panic
decode_frame ⦃C⦄ body (code ∷ bytes) = elim (C.slice_from 5 (code ∷ bytes)) [
  | none ↦ panic
  | some payload ↦ all_read (body code payload)
]

pub ReadsAll-read_as :
    {A B : Type 0} (f : A → B) {d : Decoder A} {bs : List ℕ} {a : A}
    → ReadsAll d bs a
    → ReadsAll (read_as f d) bs (f a)
unfolding read_as
ReadsAll-read_as f r = ReadsAll-map f r

pub Reads-read_as :
    {A B : Type 0} (f : A → B) {d : Decoder A} {bs : List ℕ} {a : A}
    → Reads d bs a
    → ReadsAll (read_as f d) bs (f a)
Reads-read_as f r = ReadsAll-read_as f (ReadsAll-Reads r)

pub Safe-read_as :
    {A B : Type 0} (f : A → B) {d : Decoder A} {n m : ℕ} → Safe n m d → Safe n m (read_as f d)
unfolding read_as
Safe-read_as f s = Safe->>= _ s (λ a. Safe-pure _ _)

pub Leaves-read_as :
    {A B : Type 0} (f : A → B) (d : Decoder A) (bs : List ℕ)
    → Leaves 0 (d bs)
    → Leaves 0 (read_as f d bs)
unfolding read_as ◌>>=◌ pure
Leaves-read_as {A = A} f d bs h = mapped (d bs) h
  where
    mapped :
        (r : Result DecodeError (A × List ℕ))
        → Leaves 0 r
        → Leaves 0 (elim r [ ok (a, rest) ↦ ok (f a, rest) | err e ↦ err e | panic ↦ panic ])
    mapped (ok (a, rest)) h = h
    mapped (err e) h = tt
    mapped panic h = h

-- A frame decodes to what its body decodes to. (The code is a byte.)
pub decode_frame-wire_frame :
    {A : Type 0} ⦃C : Crates⦄ (body : ℕ → Decoder A) (code : ℕ) (bs : List ℕ) (a : A)
    → ReadsAll (body (code % 256)) bs a
    → decode_frame body (wire_frame code bs) ≡ ok a
unfolding decode_frame to_be_bytes
decode_frame-wire_frame ⦃C⦄ body code bs a r =
    rw (C.slice_from-eq_some 5 (wire_frame code bs) (omega arith), decode_frame, r.read_all)

all_read-ne-panic :
    {A : Type 0} (r : Result DecodeError (A × List ℕ)) → Leaves 0 r → all_read r ≢ panic
unfolding all_read
all_read-ne-panic (ok (a, [])) h e = cc
all_read-ne-panic (ok (a, x ∷ xs)) h e = cc
all_read-ne-panic (err e') h e = cc
all_read-ne-panic panic h e = h

-- A frame of five bytes or more, whose body is safe to decode, does not make the decoder panic.
pub decode_frame-ne-panic :
    {A : Type 0} ⦃C : Crates⦄ (body : ℕ → Decoder A) (code : ℕ) (bytes : List ℕ)
    → Safe 0 0 (body code)
    → 4 ≤ length bytes
    → decode_frame body (code ∷ bytes) ≢ panic
unfolding decode_frame
decode_frame-ne-panic ⦃C⦄ body code bytes s h =
    rw (C.slice_from-eq_some 5 (code ∷ bytes) (omega arith), decode_frame)
      (all_read-ne-panic (body code (drop 4 bytes)) (s.leaves (drop 4 bytes) (omega arith)))

module _ ⦃C : Crates⦄ where
  -- What a frame's body does, the frame does.
  pub frame-panic :
      {A : Type 0} (body : ℕ → Decoder A) (code : ℕ) (bs : List ℕ)
      → Panics (body (code % 256)) bs
      → decode_frame body (wire_frame code bs) ≡ panic
  unfolding decode_frame to_be_bytes
  frame-panic body code bs p =
      rw (C.slice_from-eq_some 5 (wire_frame code bs) (omega arith), decode_frame, p.panics)

  pub frame-underflow :
      {A : Type 0} (body : ℕ → Decoder A) (code : ℕ) (bs : List ℕ)
      → Underflows (body (code % 256)) bs
      → decode_frame body (wire_frame code bs) ≡ err underflow
  unfolding decode_frame to_be_bytes
  frame-underflow body code bs p =
      rw (C.slice_from-eq_some 5 (wire_frame code bs) (omega arith), decode_frame, p.underflows)

  pub read_as-Panics :
      {A B : Type 0} (f : A → B) {d : Decoder A} {bs : List ℕ}
      → Panics d bs
      → Panics (read_as f d) bs
  unfolding read_as
  read_as-Panics f p = Panics-first _ p

  pub read_as-Underflows :
      {A B : Type 0} (f : A → B) {d : Decoder A} {bs : List ℕ}
      → Underflows d bs
      → Underflows (read_as f d) bs
  unfolding read_as ◌>>=◌
  read_as-Underflows f p = record { underflows = rw (p.underflows, ◌>>=◌) }
