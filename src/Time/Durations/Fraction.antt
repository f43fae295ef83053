-- ===== src/Time/Durations/Fraction.antt =====
-- The digits behind the point of a `Duration`, and what the parser in time.rs reads of them.
use edgedb_rust.Base.{
  ℕ, zero, suc, ◌+◌, ◌-◌, ◌*◌, ◌/◌, ◌%◌, ◌^◌, ◌<◌, ◌≤◌, ◌≡◌, refl, sym, ap, ◌∙◌, true, Bool-cases,
  inl, inr, ltb, lt→ltb, List, [], ◌∷◌, ◌++◌, append_assoc, ok, length, All, All-append, arith,
}
use edgedb_rust.Base.HashMap.{◌==◌, nat_eq}
use edgedb_rust.Time.Int.{pos, abs, quot, rem, ◌+ℤ◌}
use edgedb_rust.Time.Durations.Text.{digits, decimal}
use edgedb_rust.Time.Durations.Show.{zeros, pad_left, drop_zeros, show_fraction}
use edgedb_rust.Time.Durations.Parse.{add_fraction}
use edgedb_rust.Time.Durations.Digits.{IsDigit, to_digit_lem}

-- So many digits of a number.
abbrev fixed : (width : ℕ) → ℕ → List ℕ
fixed zero k = []
fixed (suc w) k = fixed w (k / 10) ++ ((48 + k % 10) ∷ [])

-- Digits behind the point.
places : (i : ℕ) → List ℕ → ℕ
places i [] = 0
places i (x ∷ xs) = (x - 48) * 10 ^ (5 - i) + places (suc i) xs

add_fraction_lem :
    (i v : ℕ) (xs : List ℕ)
    → All IsDigit xs
    → i + length xs ≤ 6
    → add_fraction i (pos v) xs ≡ ok (pos (v + places i xs))
unfolding add_fraction ◌+ℤ◌ places
add_fraction_lem i v [] h l = ap (λ x. ok (pos x)) (omega arith)
add_fraction_lem i v (x ∷ xs) (h, hs) l =
    let a : ltb i 6 ≡ true = lt→ltb _ _ (omega arith) in
    rw (to_digit_lem x h, add_fraction, a)
      (add_fraction_lem (suc i) (v + (x - 48) * 10 ^ (5 - i)) xs hs (omega arith)
        ∙ ap (λ x. ok (pos x)) (omega arith))

fixed_zero : (w : ℕ) → fixed w 0 ≡ zeros w
fixed_zero zero = refl
fixed_zero (suc w) = rw (fixed_zero w) (snoc w)
  where
    snoc : (w : ℕ) → zeros w ++ (48 ∷ []) ≡ 48 ∷ zeros w
    snoc zero = refl
    snoc (suc w) = ap (λ xs. 48 ∷ xs) (snoc w)

length_snoc : (xs : List ℕ) (c : ℕ) → length (xs ++ (c ∷ [])) ≡ suc (length xs)
length_snoc [] c = refl
length_snoc (x ∷ xs) c = ap suc (length_snoc xs c)

pad_left-snoc :
    (w : ℕ) (xs : List ℕ) (c : ℕ) → pad_left (suc w) (xs ++ (c ∷ [])) ≡ pad_left w xs ++ (c ∷ [])
unfolding pad_left
pad_left-snoc w xs c =
    let e : suc w - suc (length xs) ≡ w - length xs = omega arith in
    rw (length_snoc xs c, e) (sym (append_assoc (zeros (w - length xs)) xs (c ∷ [])))

pad_left_one : (w c : ℕ) → pad_left (suc w) (c ∷ []) ≡ zeros w ++ (c ∷ [])
unfolding pad_left
pad_left_one w c = let e : suc w - 1 ≡ w = omega arith in rw (e) refl

pad_left-digits :
    (w fuel k : ℕ)
    → k < 10 ^ suc w
    → w ≤ fuel
    → pad_left (suc w) (digits (suc fuel) k) ≡ fixed (suc w) k
unfolding digits
pad_left-digits zero fuel k h l =
    let a : ltb k 10 ≡ true = lt→ltb _ _ (omega arith) in
    let e : k % 10 ≡ k = omega arith in rw (a, pad_left_one 0 (48 + k), e) refl
pad_left-digits (suc w) zero k h l = absurd (omega arith)
pad_left-digits (suc w) (suc fuel) k h l = elim (Bool-cases (ltb k 10)) [
  | inl small ↦
      let z : k / 10 ≡ 0 = ground arith in
      let e : k % 10 ≡ k = ground arith in
      rw (small, digits, pad_left_one (suc w) (48 + k), z, e, fixed_zero (suc w)) refl
  | inr large ↦
      rw
        (
          large,
          digits,
          pad_left-snoc (suc w) (digits (suc fuel) (k / 10)) (48 + k % 10),
          pad_left-digits w fuel (k / 10) (omega arith) (omega arith),
        )
        refl
]

fixed-IsDigit : (w k : ℕ) → All IsDigit (fixed w k)
fixed-IsDigit zero k = tt
fixed-IsDigit (suc w) k =
    All-append (fixed w (k / 10)) _ IsDigit (fixed-IsDigit w (k / 10))
      ((omega arith, omega arith), tt)

-- Digits behind the point that stand for so many microseconds.
abbrev pub IsFraction : ℕ → List ℕ → Type 0
IsFraction u xs = All IsDigit xs × ((v : ℕ) → add_fraction 0 (pos v) xs ≡ ok (pos (v + u)))

fixed-IsFraction :
    (w k u : ℕ) → length (fixed w k) ≤ 6 → places 0 (fixed w k) ≡ u → IsFraction u (fixed w k)
fixed-IsFraction w k u l e = (
  fixed-IsDigit w k,
  λ v.
      add_fraction_lem 0 v (fixed w k) (fixed-IsDigit w k) (omega (arith, l))
      ∙ ap (λ x. ok (pos (v + x))) e,
)

-- The digits of a number with so many zeros left out.
padded-IsFraction :
    (w k u : ℕ)
    → w ≤ 19
    → k < 10 ^ suc w
    → length (fixed (suc w) k) ≤ 6
    → places 0 (fixed (suc w) k) ≡ u
    → IsFraction u (pad_left (suc w) (decimal (pos k)))
unfolding decimal
padded-IsFraction w k u l h m e = rw (pad_left-digits w 19 k h l) (fixed-IsFraction (suc w) k u m e)

pub show_fraction-IsFraction : (u : ℕ) → 0 < u → u < 1000000 → IsFraction u (show_fraction (pos u))
unfolding show_fraction drop_zeros quot rem abs places
show_fraction-IsFraction u h l = elim (Bool-cases (u % 10 == 0)) [
  | inr a ↦
      rw (a, drop_zeros)
        (padded-IsFraction 5 (u) u (omega arith) (omega arith) (omega arith) (ground arith))
  | inl a ↦ elim (Bool-cases (u / 10 % 10 == 0)) [
    | inr b ↦
        rw (a, b, drop_zeros)
          (padded-IsFraction 4 (u / 10) u (omega arith) (omega arith) (omega arith) (ground arith))
    | inl b ↦ elim (Bool-cases (u / 10 / 10 % 10 == 0)) [
      | inr c ↦
          rw (a, b, c, drop_zeros)
            (padded-IsFraction 3 (u / 10 / 10) u (omega arith) (omega arith) (omega arith)
              (ground arith))
      | inl c ↦ elim (Bool-cases (u / 10 / 10 / 10 % 10 == 0)) [
        | inr d ↦
            rw (a, b, c, d, drop_zeros)
              (padded-IsFraction 2 (u / 10 / 10 / 10) u (omega arith) (omega arith) (omega arith)
                (ground arith))
        | inl d ↦ elim (Bool-cases (u / 10 / 10 / 10 / 10 % 10 == 0)) [
          | inr e ↦
              rw (a, b, c, d, e, drop_zeros)
                (padded-IsFraction 1 (u / 10 / 10 / 10 / 10) u (omega arith) (omega arith)
                  (omega arith) (ground arith))
          | inl e ↦ elim (Bool-cases (u / 10 / 10 / 10 / 10 / 10 % 10 == 0)) [
            | inr f ↦
                rw (a, b, c, d, e, f, drop_zeros)
                  (padded-IsFraction 0 (u / 10 / 10 / 10 / 10 / 10) u (omega arith) (omega arith)
                    (omega arith) (ground arith))
            | inl f ↦ absurd (ground arith)
          ]
        ]
      ]
    ]
  ]
]
