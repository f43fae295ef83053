-- ===== src/Descriptors/Termination.antt =====
-- The loop of descriptors.rs over the descriptors of a message, on any bytes.
use edgedb_rust.Base.{
  ℕ, zero, suc, ◌<◌, ◌≤◌, refl, ◌≢◌, leb, Bool-cases, inl, inr, List, [], Option, none, some,
  Result, ok, err, panic, length, arith,
}
use edgedb_rust.Base.HashMap.{list_eq}
use edgedb_rust.Wire.{DecodeError, Crates}
use edgedb_rust.Wire.Decoder.Takes.{Within}
use edgedb_rust.Protocol.{ProtocolVersion}
use edgedb_rust.Descriptors.{Descriptor, TypePos}
use edgedb_rust.Descriptors.Decode.{decode_descriptor}
use edgedb_rust.Descriptors.Takes.{Takes-descriptor}
use edgedb_rust.Descriptors.Safety.{decode_descriptor-ne-panic}
use edgedb_rust.Descriptors.Typedesc.{
  push_descriptor, root_position, decode_descriptors, decode_with_root, decode_with_id,
  decode_input,
}

-- The result is there, and is no panic.
abbrev pub Returns : {A : Type 0} → Option (Result DecodeError A) → Type 0
Returns none = ⊥
Returns (some (ok a)) = Unit {0}
Returns (some (err e)) = Unit {0}
Returns (some panic) = ⊥

root_position-ne-panic : (id : List ℕ) (ds : List Descriptor) → root_position id ds ≢ panic
unfolding root_position
root_position-ne-panic id ds e = ground arith

module _ ⦃C : Crates⦄ where
  -- What one round hands on is shorter, and the rounds that are left are enough for it.
  round-Returns :
      (n : ℕ) (bs : List ℕ)
      (next : Descriptor → List ℕ → Option (Result DecodeError (List Descriptor)))
      (r : Result DecodeError (Descriptor × List ℕ))
      → length bs ≤ n
      → ((d : Descriptor) (rest : List ℕ) → length rest < n → Returns (next d rest))
      → Within 1 bs r
      → r ≢ panic
      → Returns (elim r [ ok (d, rest) ↦ next d rest | err e ↦ some (err e) | panic ↦ some panic ])
  round-Returns n bs next (ok (d, rest)) h s w p = s d rest (omega arith)
  round-Returns n bs next (err e) h s w p = tt
  round-Returns n bs next panic h s w p = p refl

  descriptors-Returns :
      (fuel : ℕ) (p : ProtocolVersion) (ds : List Descriptor) (bs : List ℕ)
      → length bs < fuel
      → Returns (decode_descriptors fuel p ds bs)
  unfolding decode_descriptors
  descriptors-Returns zero p ds bs h = absurd (omega arith)
  descriptors-Returns (suc fuel) p ds bs h = elim (Bool-cases (leb 1 (length bs))) [
    | inr none_left ↦ rw (none_left, decode_descriptors, Returns) tt
    | inl more ↦
        rw (more, decode_descriptors, Returns)
          (round-Returns fuel bs _ (decode_descriptor p bs) (omega arith)
            (λ d rest short. descriptors-Returns fuel p (push_descriptor ds d) rest short)
            ((Takes-descriptor p).takes bs) (decode_descriptor-ne-panic p bs))
  ]

  rooted-Returns :
      {A : Type 0} (build : List Descriptor → Option TypePos → A) (id : List ℕ)
      (o : Option (Result DecodeError (List Descriptor)))
      → Returns o
      → Returns (elim o [
        | none ↦ none
        | some (err e) ↦ some (err e)
        | some panic ↦ some panic
        | some (ok ds) ↦ elim (root_position id ds) [
          | ok pos ↦ some (ok (build ds pos))
          | err e ↦ some (err e)
          | panic ↦ some panic
        ]
      ])
  rooted-Returns build id none h = h
  rooted-Returns build id (some (err e)) h = tt
  rooted-Returns build id (some panic) h = h
  rooted-Returns {A} build id (some (ok ds)) h =
      placed (root_position id ds) (root_position-ne-panic id ds)
    where
      placed :
          (r : Result DecodeError (Option TypePos))
          → r ≢ panic
          → Returns {A = A} (elim r [
            | ok pos ↦ some (ok (build ds pos))
            | err e ↦ some (err e)
            | panic ↦ some panic
          ])
      placed (ok pos) n = tt
      placed (err e) n = tt
      placed panic n = n refl

  -- Reading a type description ends on every input: `OutputTypedesc::decode_with_id` and `input`
  -- return a description or an error, and do not panic.
  pub decode_with_root-Returns :
      (root_id : List ℕ) (p : ProtocolVersion) (bs : List ℕ)
      → Returns (decode_with_id root_id p bs) × Returns (decode_input root_id p bs)
  unfolding decode_with_id decode_input decode_with_root
  decode_with_root-Returns id p bs =
      let loop : Returns (decode_descriptors (suc (length bs)) p [] bs) =
        descriptors-Returns (suc (length bs)) p [] bs (omega arith) in
      (rooted-Returns _ id _ loop, rooted-Returns _ id _ loop)
