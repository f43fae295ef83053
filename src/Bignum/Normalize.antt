-- ===== src/Bignum/Normalize.antt =====
-- edgedb-protocol/src/model/bignum.rs: the number of a `BigInt` and its groups, before and after
-- `normalize`.
use edgedb_rust.Base.{
  ℕ, zero, suc, ◌+◌, ◌-◌, ◌*◌, ◌^◌, ◌≤◌, ◌≡◌, refl, sym, ap, ◌∙◌, ◌≢◌, List, [], ◌∷◌, Bool,
  Bool-cases, ==_iff, inl, inr, length, arith,
}
use edgedb_rust.Base.HashMap.{nat_eq, ◌==◌}
use edgedb_rust.Time.Int.{ℤ, pos}
use edgedb_rust.Bignum.BigInt.{BigInt, pop_zero, pop_zeros, lower, remove_zeros, normalize}

-- The number that the groups stand for, if none is below the units.
unfoldable pub value : (weight : ℕ) → List ℕ → ℕ
value w [] = 0
value w (x ∷ xs) = x * 10000 ^ w + value (w - 1) xs

abbrev pub IsFirstNonzero : List ℕ → Type 0
IsFirstNonzero [] = Unit {0}
IsFirstNonzero (x ∷ xs) = x ≢ 0

abbrev pub IsLastNonzero : List ℕ → Type 0
IsLastNonzero [] = Unit {0}
IsLastNonzero (x ∷ []) = x ≢ 0
IsLastNonzero (x ∷ y ∷ ys) = IsLastNonzero (y ∷ ys)

pop_zero-IsLastNonzero : (x : ℕ) (ys : List ℕ) → IsLastNonzero ys → IsLastNonzero (pop_zero x ys)
unfolding pop_zero
pop_zero-IsLastNonzero x [] h = elim (Bool-cases (x == 0)) [
  | inl e ↦ rw e tt
  | inr e ↦ rw e (λ z. ground (arith, ==_iff x 0))
]
pop_zero-IsLastNonzero x (y ∷ ys) h = h

pop_zeros-IsLastNonzero : (xs : List ℕ) → IsLastNonzero (pop_zeros xs)
unfolding pop_zeros
pop_zeros-IsLastNonzero [] = tt
pop_zeros-IsLastNonzero (x ∷ xs) =
    pop_zero-IsLastNonzero x (pop_zeros xs) (pop_zeros-IsLastNonzero xs)

value-pop_zero :
    (w x : ℕ) (ys : List ℕ) → value w (pop_zero x ys) ≡ x * 10000 ^ w + value (w - 1) ys
unfolding value pop_zero
value-pop_zero w x [] = elim (Bool-cases (x == 0)) [
  | inl e ↦ let z : x ≡ 0 = (==_iff x 0).0 e in rw (e, z) (omega arith)
  | inr e ↦ rw e refl
]
value-pop_zero w x (y ∷ ys) = refl

value-pop_zeros : (w : ℕ) (xs : List ℕ) → value w (pop_zeros xs) ≡ value w xs
unfolding value pop_zeros
value-pop_zeros w [] = refl
value-pop_zeros w (x ∷ xs) =
    value-pop_zero w x (pop_zeros xs) ∙ ap (λ n. x * 10000 ^ w + n) (value-pop_zeros (w - 1) xs)

length-pop_zero : (x : ℕ) (ys : List ℕ) → length (pop_zero x ys) ≤ suc (length ys)
unfolding pop_zero
length-pop_zero x [] = ground arith
length-pop_zero x (y ∷ ys) = omega arith

length-pop_zeros : (xs : List ℕ) → length (pop_zeros xs) ≤ length xs
unfolding pop_zeros
length-pop_zeros [] = omega arith
length-pop_zeros (x ∷ xs) = omega (arith, length-pop_zero x (pop_zeros xs), length-pop_zeros xs)

-- What is left when the zeros in front are gone.
record IsRemoved (w : ℕ) (xs : List ℕ) (r : ℤ × List ℕ) : Type 0 where
  new_weight : ℕ
  weight_kept : r.0 ≡ pos new_weight
  value_kept : value new_weight r.1 ≡ value w xs
  groups_fit : length r.1 ≤ suc new_weight
  first : IsFirstNonzero r.1
  last : IsLastNonzero r.1

IsLastNonzero-tail : (x : ℕ) (xs : List ℕ) → IsLastNonzero (x ∷ xs) → IsLastNonzero xs
IsLastNonzero-tail x [] h = tt
IsLastNonzero-tail x (y ∷ ys) h = h

-- The loop ends.
nothing-IsRemoved :
    (w : ℕ) (xs : List ℕ)
    → length xs ≤ suc w
    → IsFirstNonzero xs
    → IsLastNonzero xs
    → IsRemoved w xs (pos w, xs)
nothing-IsRemoved w xs fits front back = record {
  new_weight = w;
  weight_kept = refl;
  value_kept = refl;
  groups_fit = fits;
  first = front;
  last = back;
}

-- The loop removes a zero and goes on.
value-zero : (w x : ℕ) (xs : List ℕ) → x ≡ 0 → value (suc w) (x ∷ xs) ≡ value w xs
unfolding value
value-zero w x xs z = let e : suc w - 1 ≡ w = omega arith in rw (z, e) (omega arith)

zero-IsRemoved :
    (w x : ℕ) (xs : List ℕ) (r : ℤ × List ℕ)
    → x ≡ 0
    → IsRemoved w xs r
    → IsRemoved (suc w) (x ∷ xs) r
zero-IsRemoved w x xs r z v = record {
  new_weight = v.new_weight;
  weight_kept = v.weight_kept;
  value_kept = v.value_kept ∙ sym (value-zero w x xs z);
  groups_fit = v.groups_fit;
  first = v.first;
  last = v.last;
}

remove_zeros-IsRemoved :
    (w : ℕ) (xs : List ℕ)
    → length xs ≤ suc w
    → IsLastNonzero xs
    → IsRemoved w xs (remove_zeros (pos w) xs)
unfolding remove_zeros lower
remove_zeros-IsRemoved w [] fits back = nothing-IsRemoved w [] fits tt tt
remove_zeros-IsRemoved zero (x ∷ []) fits back = elim (Bool-cases (x == 0)) [
  | inl e ↦ absurd (back ((==_iff x 0).0 e))
  | inr e ↦ rw e (nothing-IsRemoved zero (x ∷ []) fits back back)
]
remove_zeros-IsRemoved zero (x ∷ y ∷ ys) fits back =
    let none_fit : ⊥ = omega arith in absurd none_fit
remove_zeros-IsRemoved (suc w) (x ∷ xs) fits back = elim (Bool-cases (x == 0)) [
  | inl e ↦ rw e (
      zero-IsRemoved w x xs _ ((==_iff x 0).0 e)
        (remove_zeros-IsRemoved w xs (omega arith) (IsLastNonzero-tail x xs back)))
  | inr e ↦ rw e (nothing-IsRemoved (suc w) (x ∷ xs) fits (λ z. ground (arith, ==_iff x 0)) back)
]

-- A whole number in groups.
abbrev pub grouped : Bool → ℕ → List ℕ → BigInt
grouped negative w digits = record { negative = negative; weight = pos w; digits = digits }

-- A number without zeros at its ends that stands for `n`.
pub record IsNormal (n : ℕ) (b : BigInt) : Type 0 where
  pub units : ℕ
  pub weight_is : b.weight ≡ pos units
  pub value_is : value units b.digits ≡ n
  pub groups_fit : length b.digits ≤ suc units
  pub first_nonzero : IsFirstNonzero b.digits
  pub last_nonzero : IsLastNonzero b.digits

-- `BigInt::normalize` keeps the sign and the number of a whole number, whose groups are none below
-- the units, and leaves no zero group first or last.
pub normalize-IsNormal :
    (negative : Bool) (w : ℕ) (digits : List ℕ)
    → length digits ≤ suc w
    → ((normalize (grouped negative w digits)).negative ≡ negative)
      × IsNormal (value w digits) (normalize (grouped negative w digits))
unfolding normalize
normalize-IsNormal negative w digits fits =
    let v : IsRemoved w (pop_zeros digits) (remove_zeros (pos w) (pop_zeros digits)) =
      remove_zeros-IsRemoved w (pop_zeros digits) (omega (arith, length-pop_zeros digits))
        (pop_zeros-IsLastNonzero digits) in
    (
      refl,
      record {
        units = v.new_weight;
        weight_is = v.weight_kept;
        value_is = v.value_kept ∙ value-pop_zeros w digits;
        groups_fit = v.groups_fit;
        first_nonzero = v.first;
        last_nonzero = v.last;
      },
    )
