-- ===== src/Pool/Counters.antt =====
-- The pool's two counters, and the commands that will change them.
use edgedb_rust.Base.{ℕ, suc, ◌+◌, ◌-◌, ◌≤◌, ◌<◌, ◌^◌, ◌≡◌, List, [], ◌∷◌, ◌++◌, arith}
use edgedb_rust.Pool.Inner.{
  Command, release, connection_canceled, connection_established, close, increment, decrement,
}
use edgedb_rust.Pool.System.{releases}

pub increment_lem : (n : ℕ) → n < 2 ^ 63 → increment n ≡ suc n
unfolding increment
increment_lem n h = omega arith

pub decrement_lem : (n : ℕ) → 1 ≤ n → n < 2 ^ 63 → decrement n ≡ n - 1
unfolding decrement
decrement_lem n h small = omega arith

-- The commands that end an `InProgress`.
abbrev pub ended : List Command → ℕ
ended [] = 0
ended (release c ∷ q) = ended q
ended (connection_canceled ∷ q) = suc (ended q)
ended (connection_established ∷ q) = suc (ended q)
ended (close ∷ q) = ended q

pub ended-append : (p q : List Command) → ended (p ++ q) ≡ ended p + ended q
ended-append [] q = omega arith
ended-append (release c ∷ p) q = ended-append p q
ended-append (connection_canceled ∷ p) q = omega (arith, ended-append p q)
ended-append (connection_established ∷ p) q = omega (arith, ended-append p q)
ended-append (close ∷ p) q = ended-append p q

pub releases-append : (p q : List Command) → releases (p ++ q) ≡ releases p + releases q
releases-append [] q = omega arith
releases-append (release c ∷ p) q = omega (arith, releases-append p q)
releases-append (connection_canceled ∷ p) q = releases-append p q
releases-append (connection_established ∷ p) q = releases-append p q
releases-append (close ∷ p) q = releases-append p q

-- `Covered held a q`: if every release in the channel lowered a counter that is now `a`, the
-- counter would not fall below zero, and would end at the number of held connections or above.
abbrev pub Covered : (held a : ℕ) → List Command → Type 0
Covered held a [] = held ≤ a
Covered held a (release c ∷ q) = (1 ≤ a) × Covered held (a - 1) q
Covered held a (connection_canceled ∷ q) = Covered held a q
Covered held a (connection_established ∷ q) = Covered held (suc a) q
Covered held a (close ∷ q) = Covered held a q

pub Covered-weaken :
    (held a held' a' : ℕ) (q : List Command)
    → held' ≤ held
    → a ≤ a'
    → Covered held a q
    → Covered held' a' q
Covered-weaken held a held' a' [] hh ha v = omega arith
Covered-weaken held a held' a' (release c ∷ q) hh ha (v, w) =
    (omega arith, Covered-weaken held (a - 1) held' (a' - 1) q hh (omega arith) w)
Covered-weaken held a held' a' (connection_canceled ∷ q) hh ha v =
    Covered-weaken held a held' a' q hh ha v
Covered-weaken held a held' a' (connection_established ∷ q) hh ha v =
    Covered-weaken held (suc a) held' (suc a') q hh (omega arith) v
Covered-weaken held a held' a' (close ∷ q) hh ha v = Covered-weaken held a held' a' q hh ha v

-- One more connection is held and counted.
pub Covered-suc : (held a : ℕ) (q : List Command) → Covered held a q → Covered (suc held) (suc a) q
Covered-suc held a [] v = omega arith
Covered-suc held a (release c ∷ q) (v, w) = (
  omega arith,
  Covered-weaken (suc held) (suc (a - 1)) (suc held) (suc a - 1) q (omega arith) (omega arith)
      (Covered-suc held (a - 1) q w),
)
Covered-suc held a (connection_canceled ∷ q) v = Covered-suc held a q v
Covered-suc held a (connection_established ∷ q) v = Covered-suc held (suc a) q v
Covered-suc held a (close ∷ q) v = Covered-suc held a q v

-- What is sent last is covered if it is covered once the rest is done.
pub Covered-append :
    (held held' a : ℕ) (q r : List Command)
    → ((b : ℕ) → held ≤ b → Covered held' b r)
    → Covered held a q
    → Covered held' a (q ++ r)
Covered-append held held' a [] r f v = f a v
Covered-append held held' a (release c ∷ q) r f (v, w) =
    (v, Covered-append held held' (a - 1) q r f w)
Covered-append held held' a (connection_canceled ∷ q) r f v = Covered-append held held' a q r f v
Covered-append held held' a (connection_established ∷ q) r f v =
    Covered-append held held' (suc a) q r f v
Covered-append held held' a (close ∷ q) r f v = Covered-append held held' a q r f v

abbrev pub established : List Command → ℕ
established [] = 0
established (release c ∷ q) = established q
established (connection_canceled ∷ q) = established q
established (connection_established ∷ q) = suc (established q)
established (close ∷ q) = established q

pub established-le : (q : List Command) → established q ≤ ended q
established-le [] = omega arith
established-le (release c ∷ q) = established-le q
established-le (connection_canceled ∷ q) = omega (arith, established-le q)
established-le (connection_established ∷ q) = omega (arith, established-le q)
established-le (close ∷ q) = established-le q

-- A covered counter counts the held and the returned connections, but for those not counted yet.
pub Covered-le :
    (held a : ℕ) (q : List Command) → Covered held a q → held + releases q ≤ a + established q
Covered-le held a [] v = omega arith
Covered-le held a (release c ∷ q) (v, w) = omega (arith, Covered-le held (a - 1) q w)
Covered-le held a (connection_canceled ∷ q) v = Covered-le held a q v
Covered-le held a (connection_established ∷ q) v = omega (arith, Covered-le held (suc a) q v)
Covered-le held a (close ∷ q) v = Covered-le held a q v

-- No tail of the channel counts more connections than it releases: whoever sends that a
-- connection is established drops it next.
abbrev pub Paired : List Command → Type 0
Paired [] = Unit {0}
Paired (x ∷ q) = (established (x ∷ q) ≤ releases (x ∷ q)) × Paired q

pub Paired-le : (q : List Command) → Paired q → established q ≤ releases q
Paired-le [] v = omega arith
Paired-le (x ∷ q) (h, v) = h

established-append : (p q : List Command) → established (p ++ q) ≡ established p + established q
established-append [] q = omega arith
established-append (release c ∷ p) q = established-append p q
established-append (connection_canceled ∷ p) q = established-append p q
established-append (connection_established ∷ p) q = omega (arith, established-append p q)
established-append (close ∷ p) q = established-append p q

pub Paired-append : (p q : List Command) → Paired p → Paired q → Paired (p ++ q)
Paired-append [] q v w = w
Paired-append (x ∷ p) q (h, v) w = (
  omega (arith, established-append (x ∷ p) q, releases-append (x ∷ p) q, Paired-le q w),
  Paired-append p q v w,
)
