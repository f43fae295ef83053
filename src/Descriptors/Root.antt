-- ===== src/Descriptors/Root.antt =====
-- Where the root of a type description is.
use edgedb_rust.Base.{
  ℕ, suc, ◌^◌, ◌<◌, ◌≤◌, ◌≡◌, refl, ◌⊎◌, inl, inr, false, ltb, Bool-cases, ltb→lt, if◌then◌else◌,
  List, [], ◌∷◌, Option, none, some, Result, ok, err, panic, get_elem?, take, All, arith,
}
use edgedb_rust.Base.HashMap.{◌==◌, list_eq, list_beq_iff}
use edgedb_rust.Wire.{DecodeError, uuid_not_found, too_many_descriptors}
use edgedb_rust.Descriptors.{Descriptor, descriptor_id, TypePos}
use edgedb_rust.Descriptors.Typedesc.{uuid_of_byte, position, root_position}

-- The descriptor at this place has the identifier, and none before it has.
abbrev pub IsFirst : List ℕ → List Descriptor → ℕ → Type 0
IsFirst id ds i =
    (d : Descriptor) × (get_elem? ds i ≡ some d)
    × (descriptor_id d ≡ id)
    × All (λ x. (descriptor_id x == id) ≡ false) (take i ds)

abbrev pub IsAbsent : List ℕ → List Descriptor → Type 0
IsAbsent id ds = All (λ x. (descriptor_id x == id) ≡ false) ds

abbrev Placed : List ℕ → List Descriptor → Option ℕ → Type 0
Placed id ds none = IsAbsent id ds
Placed id ds (some i) = IsFirst id ds i

Placed-cons :
    (id : List ℕ) (d : Descriptor) (ds : List Descriptor) (o : Option ℕ)
    → (descriptor_id d == id) ≡ false
    → Placed id ds o
    → Placed id (d ∷ ds) (elim o [ none ↦ none | some i ↦ some (suc i) ])
Placed-cons id d ds none n h = (n, h)
Placed-cons id d ds (some i) n (x, at, same, before) = (x, at, same, (n, before))

position-Placed : (id : List ℕ) (ds : List Descriptor) → Placed id ds (position id ds)
unfolding position
position-Placed id [] = tt
position-Placed id (d ∷ ds) = elim (Bool-cases (descriptor_id d == id)) [
  | inl here ↦ rw (here, position, Placed) (d, refl, (list_beq_iff _ _).0 here, tt)
  | inr further ↦
      rw (further, position) (Placed-cons id d ds (position id ds) further (position-Placed id ds))
]

-- What each outcome says about the root.
abbrev pub IsRoot : List ℕ → List Descriptor → Result DecodeError (Option TypePos) → Type 0
IsRoot id ds (ok none) = id ≡ uuid_of_byte 0
IsRoot id ds (ok (some i)) = IsFirst id ds i × (i < 2 ^ 16)
IsRoot id ds (err e) =
    ((e ≡ uuid_not_found id) × IsAbsent id ds)
    ⊎ ((i : ℕ) × (e ≡ too_many_descriptors i) × IsFirst id ds i × (2 ^ 16 ≤ i))
IsRoot id ds panic = ⊥

found-IsRoot :
    (id : List ℕ) (ds : List Descriptor) (o : Option ℕ)
    → Placed id ds o
    → IsRoot id ds (elim o [
      | none ↦ err (uuid_not_found id)
      | some i ↦ if ltb i (2 ^ 16) then ok (some i) else err (too_many_descriptors i)
    ])
found-IsRoot id ds none h = inl (refl, h)
found-IsRoot id ds (some i) h = elim (Bool-cases (ltb i (2 ^ 16))) [
  | inl fits ↦ rw (fits, IsRoot) (h, ltb→lt _ _ fits)
  | inr large ↦ rw (large, IsRoot) (inr (i, refl, h, ground arith))
]

-- The root of a type description: no place for the identifier zero; else the first descriptor with
-- the identifier, if its place fits two bytes; else the error that says which of the two it was.
pub root_position-IsRoot : (id : List ℕ) (ds : List Descriptor) → IsRoot id ds (root_position id ds)
unfolding root_position
root_position-IsRoot id ds = elim (Bool-cases (id == uuid_of_byte 0)) [
  | inl no_root ↦ rw (no_root, root_position, IsRoot) ((list_beq_iff _ _).0 no_root)
  | inr rooted ↦
      rw (rooted, root_position) (found-IsRoot id ds (position id ds) (position-Placed id ds))
]
