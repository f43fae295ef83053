-- ===== src/Time/Durations/Digits.antt =====
-- The numbers in the text of a `Duration`, and what the parser in time.rs reads of them.
use edgedb_rust.Base.{
  ℕ, zero, suc, ◌+◌, ◌-◌, ◌*◌, ◌/◌, ◌%◌, ◌^◌, ◌<◌, ◌≤◌, ◌≡◌, refl, ◌∙◌, true, false, Bool-cases,
  inl, inr, ltb, lt→ltb, List, [], ◌∷◌, ◌++◌, none, some, ok, length, All, All-append, arith,
}
use edgedb_rust.Base.HashMap.{◌==◌, nat_eq}
use edgedb_rust.Time.Int.{pos}
use edgedb_rust.Time.Durations.Text.{digits}
use edgedb_rust.Time.Durations.Show.{zeros, pad_left, two_digits}
use edgedb_rust.Time.Durations.Parse.{
  to_digit, read_digits, read_number, below, as_pos, parse_i32, parse_u8, parse_sixty,
}

-- A digit.
abbrev pub IsDigit : ℕ → Type 0
IsDigit c = (48 ≤ c) × (c < 58)

pub digits-IsDigit : (fuel k : ℕ) → All IsDigit (digits fuel k)
unfolding digits
digits-IsDigit zero k = tt
digits-IsDigit (suc fuel) k = elim (Bool-cases (ltb k 10)) [
  | inl small ↦ rw (small, digits) ((omega arith, ground arith), tt)
  | inr large ↦
      rw (large, digits)
        (All-append (digits fuel (k / 10)) _ IsDigit (digits-IsDigit fuel (k / 10))
          ((omega arith, omega arith), tt))
]

pub to_digit_lem : (c : ℕ) → IsDigit c → to_digit c ≡ some (c - 48)
unfolding to_digit
to_digit_lem c (h, k) = ground arith

-- The number that digits stand for, behind one that is read already.
abbrev pub digits_value : ℕ → List ℕ → ℕ
digits_value n [] = n
digits_value n (x ∷ xs) = digits_value (10 * n + (x - 48)) xs

digits_value-append :
    (n : ℕ) (xs : List ℕ) (c : ℕ)
    → digits_value n (xs ++ (c ∷ [])) ≡ 10 * digits_value n xs + (c - 48)
digits_value-append n [] c = refl
digits_value-append n (x ∷ xs) c = digits_value-append (10 * n + (x - 48)) xs c

read_digits_lem :
    (n : ℕ) (xs : List ℕ) → All IsDigit xs → read_digits n xs ≡ some (digits_value n xs)
unfolding read_digits
read_digits_lem n [] h = refl
read_digits_lem n (x ∷ xs) (h, hs) =
    rw (to_digit_lem x h, read_digits) (read_digits_lem (10 * n + (x - 48)) xs hs)

pub digits_value-digits : (fuel k : ℕ) → k < 10 ^ fuel → digits_value 0 (digits fuel k) ≡ k
unfolding digits
digits_value-digits zero k h = omega arith
digits_value-digits (suc fuel) k h = elim (Bool-cases (ltb k 10)) [
  | inl small ↦ rw (small, digits) (omega arith)
  | inr large ↦
      let e = digits_value-digits fuel (k / 10) (omega arith) in
      rw (large, digits, digits_value-append 0 (digits fuel (k / 10)) (48 + k % 10), e)
        (omega arith)
]

abbrev pub IsFilled : List ℕ → Type 0
IsFilled [] = ⊥
IsFilled (x ∷ xs) = Unit {0}

read_number_lem :
    (xs : List ℕ) → All IsDigit xs → IsFilled xs → read_number xs ≡ some (digits_value 0 xs)
unfolding read_number
read_number_lem [] h k = absurd k
read_number_lem (x ∷ xs) h k = read_digits_lem 0 (x ∷ xs) h

pub digits-IsFilled : (fuel k : ℕ) → IsFilled (digits (suc fuel) k)
unfolding digits
digits-IsFilled fuel k = elim (Bool-cases (ltb k 10)) [
  | inl small ↦ rw (small, digits) tt
  | inr large ↦ rw (large, digits) (filled (digits fuel (k / 10)) (48 + k % 10))
]
  where
    filled : (xs : List ℕ) (c : ℕ) → IsFilled (xs ++ (c ∷ []))
    filled [] c = tt
    filled (x ∷ xs) c = tt

-- A text of digits as a number of a machine type.
pub parse_i32_lem :
    (xs : List ℕ) (k : ℕ)
    → All IsDigit xs
    → IsFilled xs
    → digits_value 0 xs ≡ k
    → k < 2 ^ 31
    → parse_i32 xs ≡ some (pos k)
unfolding parse_i32 below as_pos
parse_i32_lem [] k h f e l = absurd f
parse_i32_lem (x ∷ xs) k (h, hs) f e l =
    let a : (x == 45) ≡ false = ground arith in
    let b : (x == 43) ≡ false = ground arith in
    let c : ltb k (2 ^ 31) ≡ true = lt→ltb _ _ l in
    rw (a, b, read_number_lem (x ∷ xs) (h, hs) tt, e, c) refl

pub parse_i32-eq_none :
    (xs : List ℕ) (k : ℕ)
    → All IsDigit xs
    → digits_value 0 xs ≡ k
    → 2 ^ 31 ≤ k
    → parse_i32 xs ≡ none
unfolding parse_i32 below as_pos
parse_i32-eq_none [] k h e l = refl
parse_i32-eq_none (x ∷ xs) k (h, hs) e l =
    let a : (x == 45) ≡ false = ground arith in
    let b : (x == 43) ≡ false = ground arith in
    let c : ltb k (2 ^ 31) ≡ false = ground arith in
    rw (a, b, read_number_lem (x ∷ xs) (h, hs) tt, e, c) refl

parse_sixty_lem :
    (xs : List ℕ) (k : ℕ)
    → All IsDigit xs
    → IsFilled xs
    → digits_value 0 xs ≡ k
    → k < 60
    → parse_sixty xs ≡ ok k
unfolding parse_sixty parse_u8 below
parse_sixty_lem [] k h f e l = absurd f
parse_sixty_lem (x ∷ xs) k (h, hs) f e l =
    let b : (x == 43) ≡ false = ground arith in
    let c : ltb k 256 ≡ true = lt→ltb _ _ (omega arith) in
    let d : ltb k 60 ≡ true = lt→ltb _ _ l in
    rw (b, read_number_lem (x ∷ xs) (h, hs) tt, e, c, d) refl

zeros-IsDigit : (n : ℕ) (xs : List ℕ) → All IsDigit xs → All IsDigit (zeros n ++ xs)
zeros-IsDigit zero xs h = h
zeros-IsDigit (suc n) xs h = ((omega arith, omega arith), zeros-IsDigit n xs h)

zeros-IsFilled : (n : ℕ) (xs : List ℕ) → IsFilled xs → IsFilled (zeros n ++ xs)
zeros-IsFilled zero xs h = h
zeros-IsFilled (suc n) xs h = tt

digits_value-zeros : (n : ℕ) (xs : List ℕ) → digits_value 0 (zeros n ++ xs) ≡ digits_value 0 xs
digits_value-zeros zero xs = refl
digits_value-zeros (suc n) xs = digits_value-zeros n xs

-- Two digits of a number below sixty are read as that number.
pub two_digits-IsDigit : (k : ℕ) → All IsDigit (two_digits (pos k))
unfolding two_digits pad_left
two_digits-IsDigit k = zeros-IsDigit _ (digits 20 k) (digits-IsDigit 20 k)

pub parse_sixty-two_digits : (k : ℕ) → k < 60 → parse_sixty (two_digits (pos k)) ≡ ok k
unfolding two_digits pad_left
parse_sixty-two_digits k h =
    let n = 2 - length (digits 20 k) in
    parse_sixty_lem (zeros n ++ digits 20 k) k (zeros-IsDigit n (digits 20 k) (digits-IsDigit 20 k))
      (zeros-IsFilled n (digits 20 k) (digits-IsFilled 19 k))
      (digits_value-zeros n (digits 20 k) ∙ digits_value-digits 20 k (omega arith)) h

pub two_digits-IsFilled : (k : ℕ) → IsFilled (two_digits (pos k))
unfolding two_digits pad_left
two_digits-IsFilled k = zeros-IsFilled _ (digits 20 k) (digits-IsFilled 19 k)
