-- ===== src/Wire/Encoder/Writes.antt =====
-- `Writes e bs`: whatever the output holds, `e` adds `bs` to its end and does not fail.
use edgedb_rust.Base.{
  ℕ, ◌<◌, ◌≡◌, sym, ap, ◌∙◌, List, [], ◌∷◌, ◌++◌, append_assoc, append-nil, ok, lt→ltb, All,
}
use edgedb_rust.Wire.Errors.{EncodeError}
use edgedb_rust.Wire.Bytes.{to_be_bytes}
use edgedb_rust.Wire.External.{Crates, PutsBe}
use edgedb_rust.Wire.Encoder.{Encoder, put, done, ◌>>◌, for_each, put_checked}

pub record Writes (e : Encoder) (bs : List ℕ) : Type 0 where
  pub written : (buf : List ℕ) → e buf ≡ ok (buf ++ bs)

pub Writes-done : Writes done []
unfolding done
Writes-done = record { written = λ buf. ap ok (sym (append-nil buf)) }

pub Writes->> :
    {e f : Encoder} {bs cs : List ℕ} → Writes e bs → Writes f cs → Writes (e >> f) (bs ++ cs)
unfolding ◌>>◌
Writes->> {e} {f} {bs} {cs} we wf = record {
  written =
      λ buf. rw (we.written buf, ◌>>◌) (wf.written (buf ++ bs) ∙ ap ok (append_assoc buf bs cs));
}

-- The bytes of a list of entries, one after the other.
abbrev pub bytes_of_all : {A : Type 0} → (A → List ℕ) → List A → List ℕ
bytes_of_all f [] = []
bytes_of_all f (x ∷ xs) = f x ++ bytes_of_all f xs

pub Writes-for_each :
    {A : Type 0} (body : A → Encoder) (f : A → List ℕ) (P : A → Type 0)
    → ((x : A) → P x → Writes (body x) (f x))
    → (xs : List A) → All P xs
    → Writes (for_each body xs) (bytes_of_all f xs)
unfolding for_each
Writes-for_each body f P one [] h = Writes-done
Writes-for_each body f P one (x ∷ xs) (hx, hxs) =
    Writes->> (one x hx) (Writes-for_each body f P one xs hxs)

pub Writes-put_be :
    (width : ℕ) (write : ℕ → List ℕ → List ℕ) (n : ℕ)
    → PutsBe width write
    → Writes (put (write n)) (to_be_bytes width n)
unfolding put
Writes-put_be width write n law = record { written = λ buf. ap ok (law n buf) }

pub Writes-put_checked :
    (width bound : ℕ) (x : EncodeError) (write : ℕ → List ℕ → List ℕ) (n : ℕ)
    → PutsBe width write
    → n < bound
    → Writes (put_checked bound x write n) (to_be_bytes width n)
unfolding put_checked
Writes-put_checked width bound x write n law h = record {
  written = λ buf. rw (lt→ltb n bound h, put_checked) (ap ok (law n buf));
}

module _ ⦃C : Crates⦄ where
  pub Writes-u8 : (n : ℕ) → Writes (put (C.put_u8 n)) (to_be_bytes 1 n)
  Writes-u8 n = Writes-put_be 1 C.put_u8 n C.put_u8-PutsBe

  pub Writes-u16 : (n : ℕ) → Writes (put (C.put_u16 n)) (to_be_bytes 2 n)
  Writes-u16 n = Writes-put_be 2 C.put_u16 n C.put_u16-PutsBe

  pub Writes-u32 : (n : ℕ) → Writes (put (C.put_u32 n)) (to_be_bytes 4 n)
  Writes-u32 n = Writes-put_be 4 C.put_u32 n C.put_u32-PutsBe

  pub Writes-u64 : (n : ℕ) → Writes (put (C.put_u64 n)) (to_be_bytes 8 n)
  Writes-u64 n = Writes-put_be 8 C.put_u64 n C.put_u64-PutsBe

  pub Writes-extend : (bs : List ℕ) → Writes (put (C.extend bs)) bs
  unfolding put
  Writes-extend bs = record { written = λ buf. ap ok (C.extend-eq_append bs buf) }
