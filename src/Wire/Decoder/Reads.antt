-- ===== src/Wire/Decoder/Reads.antt =====
-- `Reads d bs a`: on `bs`, with whatever behind it, `d` returns `a` and leaves what is behind.
use edgedb_rust.Base.{
  ℕ, ◌^◌, ◌≤◌, ◌<◌, ◌≡◌, refl, List, [], ◌∷◌, ◌++◌, append_assoc, append-nil, Option, ok, Result,
  Bool, true, ◌∙◌, leb, length, length-append, take-append_length, drop-append_length,
  take-length_self, drop-length_self, All, arith,
}
use edgedb_rust.Wire.Errors.{DecodeError}
use edgedb_rust.Wire.Bytes.{to_be_bytes, length-to_be_bytes, from-to_be_bytes}
use edgedb_rust.Wire.External.{Crates, GetsBe, Copies}
use edgedb_rust.Wire.Decoder.Tag.{tag_read}
use edgedb_rust.Wire.Decoder.{
  Decoder, pure, take_or_panic, lift, ◌>>=◌, ◌>>◌, ensure_remaining, copy_remaining, repeat,
  push_decoded, assert, peek,
}
use edgedb_rust.Wire.Encoder.Writes.{bytes_of_all}

pub record Reads {A : Type 0} (d : Decoder A) (bs : List ℕ) (a : A) : Type 0 where
  pub read : (rest : List ℕ) → d (bs ++ rest) ≡ ok (a, rest)

module _ {A : Type 0} where
  pub Reads-pure : (a : A) → Reads (pure a) [] a
  unfolding pure
  Reads-pure a = record { read = λ rest. refl }

  pub Reads-pure_eq : {x a : A} → x ≡ a → Reads (pure x) [] a
  unfolding pure
  Reads-pure_eq e = record { read = λ rest. rw e }

  pub Reads-lift : {r : Result DecodeError A} {a : A} → r ≡ ok a → Reads (lift r) [] a
  unfolding lift
  Reads-lift e = record { read = λ rest. rw e }

module _ {A B : Type 0} where
  pub Reads->>= :
      {d : Decoder A} (f : A → Decoder B) {bs cs : List ℕ} {a : A} {b : B}
      → Reads d bs a
      → Reads (f a) cs b
      → Reads (d >>= f) (bs ++ cs) b
  unfolding ◌>>=◌
  Reads->>= f {bs} {cs} rd rf = record {
    read = λ rest. rw (append_assoc bs cs rest, rd.read (cs ++ rest), ◌>>=◌) (rf.read rest);
  }

  -- Where the value is computed from what was read, and nothing more is read.
  pub Reads-map :
      {d : Decoder A} (f : A → Decoder B) {bs : List ℕ} {a : A} {b : B}
      → Reads d bs a
      → Reads (f a) [] b
      → Reads (d >>= f) bs b
  unfolding ◌>>=◌
  Reads-map f rd rf = record { read = λ rest. rw (rd.read rest, ◌>>=◌) (rf.read rest) }

  -- Where the first of two decoders reads nothing.
  pub Reads-skip :
      {d : Decoder A} (f : A → Decoder B) {cs : List ℕ} {a : A} {b : B}
      → Reads d [] a
      → Reads (f a) cs b
      → Reads (d >>= f) cs b
  Reads-skip f rd rf = Reads->>= f rd rf

  -- A computed value reads nothing.
  pub Reads-pass :
      (f : A → Decoder B) {r : Result DecodeError A} {cs : List ℕ} {a : A} {b : B}
      → r ≡ ok a
      → Reads (f a) cs b
      → Reads (lift r >>= f) cs b
  unfolding ◌>>=◌ lift
  Reads-pass f e rf = record { read = λ rest. rw (e, ◌>>=◌, lift) (rf.read rest) }

module _ {B : Type 0} where
  pub Reads-assoc :
      {d : Decoder B} (xs bs cs : List ℕ) {b : B}
      → Reads d (xs ++ (bs ++ cs)) b
      → Reads d ((xs ++ bs) ++ cs) b
  Reads-assoc xs bs cs r = rw (append_assoc xs bs cs) r

  -- A length check passes on the bytes that the rest of the decoder reads.
  pub Reads-ensure :
      {n : ℕ} {d : Decoder B} {bs : List ℕ} {b : B}
      → n ≤ length bs
      → Reads d bs b
      → Reads (ensure_remaining n >> d) bs b
  unfolding ensure_remaining ◌>>◌
  Reads-ensure {n} {d} {bs} h rd = record { read = λ rest. rw (enough rest, ◌>>◌) (rd.read rest) }
    where
      enough : (rest : List ℕ) → leb n (length (bs ++ rest)) ≡ true
      enough rest = ground (arith, length-append bs rest)

pub Reads-be :
    (width n : ℕ) (get : List ℕ → Option (ℕ × List ℕ))
    → GetsBe width get
    → n < 256 ^ width
    → Reads (take_or_panic get) (to_be_bytes width n) n
unfolding take_or_panic
Reads-be width n get law h = record {
  read = λ rest.
      rw
        (law.0 (to_be_bytes width n) rest (length-to_be_bytes width n), from-to_be_bytes width n h);
}

module _ ⦃C : Crates⦄ where
  pub Reads-u8 : (n : ℕ) → n < 2 ^ 8 → Reads (take_or_panic C.get_u8) (to_be_bytes 1 n) n
  Reads-u8 n h = Reads-be 1 n C.get_u8 C.get_u8-GetsBe h

  pub Reads-u16 : (n : ℕ) → n < 2 ^ 16 → Reads (take_or_panic C.get_u16) (to_be_bytes 2 n) n
  Reads-u16 n h = Reads-be 2 n C.get_u16 C.get_u16-GetsBe h

  pub Reads-u32 : (n : ℕ) → n < 2 ^ 32 → Reads (take_or_panic C.get_u32) (to_be_bytes 4 n) n
  Reads-u32 n h = Reads-be 4 n C.get_u32 C.get_u32-GetsBe h

  pub Reads-u64 : (n : ℕ) → n < 2 ^ 64 → Reads (take_or_panic C.get_u64) (to_be_bytes 8 n) n
  Reads-u64 n h = Reads-be 8 n C.get_u64 C.get_u64-GetsBe h

pub Reads-copy :
    (copy : ℕ → List ℕ → Option (List ℕ × List ℕ)) (bs : List ℕ)
    → Copies copy
    → Reads (take_or_panic (copy (length bs))) bs bs
unfolding take_or_panic
Reads-copy copy bs law = record {
  read = λ rest. rw (
    law.0 (length bs) (bs ++ rest) (omega (arith, length-append bs rest)),
    take-append_length bs rest,
    drop-append_length bs rest,
  );
}

abbrev pub add_all : {A X : Type 0} → (A → X → A) → A → List X → A
add_all add a [] = a
add_all add a (x ∷ xs) = add_all add (add a x) xs

-- `d` reads the whole of `bs`, and may read on if there were more.
pub record ReadsAll {A : Type 0} (d : Decoder A) (bs : List ℕ) (a : A) : Type 0 where
  pub read_all : d bs ≡ ok (a, [])

pub ReadsAll-Reads :
    {A : Type 0} {d : Decoder A} {bs : List ℕ} {a : A} → Reads d bs a → ReadsAll d bs a
ReadsAll-Reads {bs} r = record { read_all = rw (append-nil bs) at (r.read []) }

module _ {A B : Type 0} where
  pub ReadsAll->>= :
      {d : Decoder A} (f : A → Decoder B) (bs : List ℕ) {cs : List ℕ} {a : A} {b : B}
      → Reads d bs a
      → ReadsAll (f a) cs b
      → ReadsAll (d >>= f) (bs ++ cs) b
  unfolding ◌>>=◌
  ReadsAll->>= f bs {cs} rd rf = record { read_all = rw (rd.read cs, ◌>>=◌) rf.read_all }

  pub ReadsAll-map :
      {d : Decoder A} (f : A → B) {bs : List ℕ} {a : A}
      → ReadsAll d bs a
      → ReadsAll (d >>= λ a. pure (f a)) bs (f a)
  unfolding ◌>>=◌ pure
  ReadsAll-map f r = record { read_all = rw (r.read_all, ◌>>=◌) }

pub ReadsAll-ensure :
    {B : Type 0} {n : ℕ} {d : Decoder B} {bs : List ℕ} {b : B}
    → n ≤ length bs
    → ReadsAll d bs b
    → ReadsAll (ensure_remaining n >> d) bs b
unfolding ensure_remaining ◌>>◌
ReadsAll-ensure {n} {d} {bs} h r = record { read_all = rw (enough, ◌>>◌) r.read_all }
  where
    enough : leb n (length bs) ≡ true
    enough = ground arith

pub ReadsAll-copy_remaining : ⦃C : Crates⦄ (bs : List ℕ) → ReadsAll copy_remaining bs bs
unfolding copy_remaining take_or_panic
ReadsAll-copy_remaining ⦃C⦄ bs = record {
  read_all = rw (
    C.copy_to_bytes-Copies.0 (length bs) bs (omega arith),
    take-length_self bs,
    drop-length_self bs,
  );
}

-- A loop that adds one entry to a value in each round reads the entries one after the other.
module _ {A X : Type 0} (body : A → Decoder A) (f : X → List ℕ) (add : A → X → A) (P : X → Type 0)
    (one : (a : A) (x : X) → P x → Reads (body a) (f x) (add a x)) where
  pub Reads-repeat :
      (xs : List X) (a : A)
      → All P xs
      → Reads (repeat (length xs) body a) (bytes_of_all f xs) (add_all add a xs)
  unfolding repeat
  Reads-repeat [] a h = Reads-pure a
  Reads-repeat (x ∷ xs) a (hx, hxs) = Reads->>= _ (one a x hx) (Reads-repeat xs (add a x) hxs)

-- Pushing one item after the other gives the items.
all_pushed :
    {X : Type 0} (m xs : List X) → add_all (λ (m : List X) (x : X). m ++ (x ∷ [])) m xs ≡ m ++ xs
all_pushed m [] = rw (append-nil m)
all_pushed m (x ∷ xs) = all_pushed (m ++ (x ∷ [])) xs ∙ append_assoc m (x ∷ []) xs

-- A loop that pushes what it decodes.
pub Reads-pushed :
    {X : Type 0} (d : Decoder X) (f : X → List ℕ) (P : X → Type 0)
    → ((x : X) → P x → Reads d (f x) x)
    → (xs : List X) → All P xs
    → Reads (repeat (length xs) (push_decoded d) []) (bytes_of_all f xs) xs
unfolding push_decoded
Reads-pushed d f P one xs each = rw (all_pushed [] xs) at (
    Reads-repeat (push_decoded d) f (λ m x. m ++ (x ∷ [])) P
      (λ m x h. Reads-map _ (one x h) (Reads-pure _)) xs [] each)

-- A look at the first byte takes nothing.
pub Reads-peek :
    ⦃C : Crates⦄ {A : Type 0} (f : ℕ → Decoder A) (b : ℕ) (bs : List ℕ) {a : A}
    → Reads (f b) (b ∷ bs) a
    → Reads (peek >>= f) (b ∷ bs) a
unfolding peek ◌>>=◌
Reads-peek ⦃C⦄ f b bs r = record {
  read = λ rest. rw ((C.chunk-cons b (bs ++ rest)).1, ◌>>=◌, peek) (r.read rest);
}

-- An assertion that holds.
pub Reads-assert :
    {B : Type 0} {t : Bool} {f : Decoder B} {bs : List ℕ} {b : B}
    → t ≡ true
    → Reads f bs b
    → Reads (assert t >> f) bs b
unfolding assert ◌>>◌
Reads-assert e r = record { read = λ rest. rw (e, ◌>>◌, assert) (r.read rest) }

-- A tag that passes its test.
pub Reads-tag :
    ⦃C : Crates⦄ {A : Type 0} (test : ℕ → Bool) (f : ℕ → Decoder A) (t : ℕ) {bs : List ℕ} {a : A}
    → test t ≡ true
    → Reads (f t) bs a
    → Reads (take_or_panic C.get_u8 >>= λ k. assert (test k) >> f k) (t ∷ bs) a
unfolding ◌>>=◌ ◌>>◌ take_or_panic assert
Reads-tag ⦃C⦄ test f t {bs} e r = record {
  read = λ rest. rw (tag_read t (bs ++ rest), ◌>>=◌, e, ◌>>◌, assert) (r.read rest);
}
