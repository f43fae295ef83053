-- ===== src/Base/HashMap.antt =====
-- The standard library's `HashMap`: the list of its entries in the order in which an iteration
-- meets them, each key once. A new key is met last here; the order of a real map is not fixed.
use Prim.Native.Nat.{ℕ}
use mathlib.Core.Path.{◌≡◌, refl, ap}
use mathlib.Core.Logic.{◌↔◌, inl, inr}
use mathlib.Core.Bool.{Bool, true, false, ◌&&◌, ◌||◌}
use mathlib.Core.List.{List, [], ◌∷◌, ◌++◌, append-nil, append_assoc}
use native.Mathlib.Omega.{arith}
use edgedb_rust.Base.Tests.{if◌then◌else◌, ==_iff, Bool-cases, ◌==◌ as nat_beq}
use edgedb_rust.Base.Lists.{All}

pub record Eq (K : Type 0) : Type 0 where
  pub beq : K → K → Bool
  pub beq_iff : (a b : K) → (beq a b ≡ true) ↔ (a ≡ b)

infix 50 ◌==◌
abbrev pub ◌==◌ : {K : Type 0} ⦃e : Eq K⦄ (a b : K) → Bool
◌==◌ ⦃e⦄ a b = e.beq a b

instance abbrev pub nat_eq : Eq ℕ
nat_eq = record { beq = nat_beq; beq_iff = ==_iff }

unfoldable pub list_beq : List ℕ → List ℕ → Bool
list_beq [] [] = true
list_beq [] (y ∷ ys) = false
list_beq (x ∷ xs) [] = false
list_beq (x ∷ xs) (y ∷ ys) = nat_beq x y && list_beq xs ys

pub list_beq_iff : (xs ys : List ℕ) → (list_beq xs ys ≡ true) ↔ (xs ≡ ys)
unfolding list_beq
list_beq_iff [] [] = (λ _. refl, λ _. refl)
list_beq_iff [] (y ∷ ys) = (λ h. cc, λ h. cc)
list_beq_iff (x ∷ xs) [] = (λ h. cc, λ h. cc)
list_beq_iff (x ∷ xs) (y ∷ ys) =
    (λ h. ground (arith, list_beq_iff xs ys), λ h. ground (arith, list_beq_iff xs ys))

-- Texts and byte strings are lists of bytes.
instance abbrev pub list_eq : Eq (List ℕ)
list_eq = record { beq = list_beq; beq_iff = list_beq_iff }

module _ {K V : Type 0} ⦃e : Eq K⦄ where
  unfoldable pub insert : K → V → List (K × V) → List (K × V)
  insert key value [] = (key, value) ∷ []
  insert key value (entry ∷ rest) =
      if entry.0 == key then (entry.0, value) ∷ rest else entry ∷ insert key value rest

  unfoldable pub contains : K → List (K × V) → Bool
  contains k [] = false
  contains k ((j, v) ∷ m) = j == k || contains k m

  -- `for (k, v) in entries { m.insert(k, v); }`
  unfoldable pub insert_all : List (K × V) → List (K × V) → List (K × V)
  insert_all m [] = m
  insert_all m ((k, v) ∷ xs) = insert_all (insert k v m) xs

  -- No key twice: the condition on a list that stands for a map.
  abbrev pub IsMap : List (K × V) → Type 0
  IsMap [] = Unit {0}
  IsMap ((k, v) ∷ m) = All (λ x. (k == x.0) ≡ false) m × IsMap m

  insert_new :
      (k : K) (v : V) (m : List (K × V)) → contains k m ≡ false → insert k v m ≡ m ++ ((k, v) ∷ [])
  unfolding insert contains
  insert_new k v [] h = refl
  insert_new k v ((j, w) ∷ m) h = elim (Bool-cases (j == k)) [
    | inl same ↦ ground arith
    | inr other ↦ rw other (ap (◌∷◌ (j, w)) (insert_new k v m (ground arith)))
  ]

  contains-snoc :
      (k j : K) (v : V) (m : List (K × V))
      → contains k m ≡ false
      → (j == k) ≡ false
      → contains k (m ++ ((j, v) ∷ [])) ≡ false
  unfolding contains
  contains-snoc k j v [] h n = ground arith
  contains-snoc k j v ((i, w) ∷ m) h n = ground (arith, contains-snoc k j v m)

  Fresh-snoc :
      (j : K) (v : V) (m xs : List (K × V))
      → All (λ x. contains x.0 m ≡ false) xs
      → All (λ x. (j == x.0) ≡ false) xs
      → All (λ x. contains x.0 (m ++ ((j, v) ∷ [])) ≡ false) xs
  Fresh-snoc j v m [] h n = tt
  Fresh-snoc j v m ((k, w) ∷ xs) h n = (contains-snoc k j v m h.0 n.0, Fresh-snoc j v m xs h.1 n.1)

  insert_all_new :
      (m xs : List (K × V))
      → All (λ x. contains x.0 m ≡ false) xs
      → IsMap xs
      → insert_all m xs ≡ m ++ xs
  unfolding insert_all
  insert_all_new m [] h d = ground (arith, append-nil m)
  insert_all_new m ((k, v) ∷ xs) h d =
      rw
        (
          insert_new k v m h.0,
          insert_all_new (m ++ ((k, v) ∷ [])) xs (Fresh-snoc k v m xs h.1 d.0) d.1,
        )
        (append_assoc m ((k, v) ∷ []) xs)

  Fresh-nil : (xs : List (K × V)) → All (λ x. contains x.0 [] ≡ false) xs
  unfolding contains
  Fresh-nil [] = tt
  Fresh-nil (x ∷ xs) = (refl, Fresh-nil xs)

  -- Inserting the entries of a map into an empty one gives the map.
  pub insert_all-nil : (xs : List (K × V)) → IsMap xs → insert_all [] xs ≡ xs
  insert_all-nil xs d = insert_all_new [] xs (Fresh-nil xs) d
