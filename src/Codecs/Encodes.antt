-- ===== src/Codecs/Encodes.antt =====
-- Encoders of codec.rs that either write no more than so many bytes, or find something that is too
-- long for the field that it goes into.
use edgedb_rust.Base.{
  ℕ, ◌-◌, ◌+◌, ◌*◌, ◌^◌, ◌≤◌, ◌≡◌, Bool-cases, inl, inr, List, [], ◌∷◌, ◌++◌, Result, ok, err,
  panic, length, length-append, length-take, length-drop, take, drop, ltb, arith,
}
use edgedb_rust.Wire.{
  EncodeError, element_too_long, array_too_long, too_many_elements, big_int_too_long, to_be_bytes,
  length-to_be_bytes, Crates, PutsBe,
}
use edgedb_rust.Wire.Encoder.{Encoder, put, put_checked, done, for_each, try_from, ◌>>◌}
use edgedb_rust.Wire.Encoder.Writes.{
  Writes, Writes-done, Writes-u8, Writes-u16, Writes-u32, Writes-u64, Writes-extend,
}
use edgedb_rust.Codecs.Collections.{put_element, patch_element}

-- What the refusal of a value of so many bytes says: an element has more bytes than an `i32` holds,
-- there are more elements than a `u32` holds, or more digits than a `u16` holds. An element has
-- four bytes at least, and a digit two.
abbrev pub IsTooLong : ℕ → EncodeError → Type 0
IsTooLong size element_too_long = 2 ^ 31 ≤ size
IsTooLong size array_too_long = 4 * 2 ^ 32 ≤ size
IsTooLong size too_many_elements = 4 * 2 ^ 32 ≤ size
IsTooLong size big_int_too_long = 2 * 2 ^ 16 ≤ size
IsTooLong size _ = ⊥

abbrev pub Encoded : (size room : ℕ) → List ℕ → Result EncodeError (List ℕ) → Type 0
Encoded size room buf (ok out) = length out ≤ length buf + room
Encoded size room buf (err e) = IsTooLong size e
Encoded size room buf panic = ⊥

-- As a part of a value of `size` bytes the encoder writes at most `room` bytes, or refuses.
pub record Encodes (size room : ℕ) (e : Encoder) : Type 0 where
  pub encoded : (buf : List ℕ) → Encoded size room buf (e buf)

IsTooLong-mono : (m n : ℕ) (e : EncodeError) → m ≤ n → IsTooLong m e → IsTooLong n e
IsTooLong-mono m n element_too_long h k = omega arith
IsTooLong-mono m n array_too_long h k = omega arith
IsTooLong-mono m n too_many_elements h k = omega arith
IsTooLong-mono m n big_int_too_long h k = omega arith
IsTooLong-mono m n _ h k = absurd k

pub Encodes-mono : {m n j k : ℕ} {e : Encoder} → m ≤ n → j ≤ k → Encodes m j e → Encodes n k e
Encodes-mono {m} {n} {j} {k} {e} a b h = record { encoded = λ buf. go buf (e buf) (h.encoded buf) }
  where
    go : (buf : List ℕ) (r : Result EncodeError (List ℕ)) → Encoded m j buf r → Encoded n k buf r
    go buf (ok out) p = omega arith
    go buf (err x) p = IsTooLong-mono m n x a p
    go buf panic p = p

module _ (size : ℕ) where
  Encodes-Writes : {e : Encoder} (bs : List ℕ) → Writes e bs → Encodes size (length bs) e
  Encodes-Writes bs w = record {
    encoded = λ buf. rw (w.written buf, Encoded) (omega (arith, length-append buf bs));
  }

  pub Encodes-done : Encodes size 0 done
  Encodes-done = Encodes-Writes [] Writes-done

  pub Encodes->> :
      {j k : ℕ} {e f : Encoder}
      → Encodes size j e
      → Encodes size k f
      → Encodes size (j + k) (e >> f)
  unfolding ◌>>◌
  Encodes->> {j} {k} {e} {f} h i = record { encoded = λ buf. go buf (e buf) (h.encoded buf) }
    where
      behind :
          (buf out : List ℕ) (r : Result EncodeError (List ℕ))
          → length out ≤ length buf + j
          → Encoded size k out r
          → Encoded size (j + k) buf r
      behind buf out (ok out') a p = omega arith
      behind buf out (err x) a p = p
      behind buf out panic a p = p

      go :
          (buf : List ℕ) (r : Result EncodeError (List ℕ))
          → Encoded size j buf r
          → Encoded size (j + k) buf (elim r [ ok buf' ↦ f buf' | err x ↦ err x | panic ↦ panic ])
      go buf (ok out) p = behind buf out (f out) p (i.encoded out)
      go buf (err x) p = p
      go buf panic p = p

  -- A number in so many bytes, checked against a bound.
  pub Encodes-checked :
      (width bound : ℕ) (x : EncodeError) (write : ℕ → List ℕ → List ℕ) (n : ℕ)
      → PutsBe width write
      → (bound ≤ n → IsTooLong size x)
      → Encodes size width (put_checked bound x write n)
  unfolding put_checked try_from put
  Encodes-checked width bound x write n law h = record {
    encoded = λ buf. elim (Bool-cases (ltb n bound)) [
      | inl fits ↦
          rw (fits, put_checked, law n buf, Encoded)
            (omega (arith, length-append buf (to_be_bytes width n), length-to_be_bytes width n))
      | inr large ↦ rw (large, put_checked, Encoded) (h (ground arith))
    ];
  }

  pub Encodes-for_each :
      {A : Type 0} (k : ℕ) (body : A → Encoder) (xs : List A)
      → ((x : A) → Encodes size k (body x))
      → Encodes size (length xs * k) (for_each body xs)
  unfolding for_each
  Encodes-for_each k body [] h = Encodes-mono (omega arith) (omega arith) Encodes-done
  Encodes-for_each k body (x ∷ xs) h =
      Encodes-mono (omega arith) (omega arith) (Encodes->> (h x) (Encodes-for_each k body xs h))

  Encoded-patch :
      (bound room : ℕ) (buf out : List ℕ)
      → 2 ^ 31 ≤ bound
      → room ≤ size
      → length out ≤ length buf + 4 + room
      → Encoded size (4 + room) buf (patch_element bound (length buf) out)
  unfolding patch_element try_from
  Encoded-patch bound room buf out b l h =
      elim (Bool-cases (ltb (length out - length buf - 4) bound)) [
        | inl fits ↦
            rw (fits, patch_element, Encoded)
              (omega (
                arith,
                length-append (take (length buf) out)
                    (to_be_bytes 4 (length out - length buf - 4) ++ drop (length buf + 4) out),
                length-append (to_be_bytes 4 (length out - length buf - 4))
                    (drop (length buf + 4) out),
                length-to_be_bytes 4 (length out - length buf - 4),
                length-take (length buf) out,
                length-drop (length buf + 4) out,
              ))
        | inr large ↦
            rw (large, patch_element, Encoded)
              (let long : bound ≤ length out - length buf - 4 = ground arith in omega arith)
      ]

module _ ⦃C : Crates⦄ (size : ℕ) where
  pub Encodes-u8 : (n : ℕ) → Encodes size 1 (put (C.put_u8 n))
  Encodes-u8 n =
      Encodes-mono (omega arith) (omega (arith, length-to_be_bytes 1 n))
        (Encodes-Writes size _ (Writes-u8 n))

  pub Encodes-u16 : (n : ℕ) → Encodes size 2 (put (C.put_u16 n))
  Encodes-u16 n =
      Encodes-mono (omega arith) (omega (arith, length-to_be_bytes 2 n))
        (Encodes-Writes size _ (Writes-u16 n))

  pub Encodes-u32 : (n : ℕ) → Encodes size 4 (put (C.put_u32 n))
  Encodes-u32 n =
      Encodes-mono (omega arith) (omega (arith, length-to_be_bytes 4 n))
        (Encodes-Writes size _ (Writes-u32 n))

  pub Encodes-u64 : (n : ℕ) → Encodes size 8 (put (C.put_u64 n))
  Encodes-u64 n =
      Encodes-mono (omega arith) (omega (arith, length-to_be_bytes 8 n))
        (Encodes-Writes size _ (Writes-u64 n))

  pub Encodes-extend : (bs : List ℕ) → Encodes size (length bs) (put (C.extend bs))
  Encodes-extend bs = Encodes-Writes size bs (Writes-extend bs)

  -- A length, and what it is the length of.
  pub Encodes-element :
      {room : ℕ} {e : Encoder} (bound : ℕ)
      → 2 ^ 31 ≤ bound
      → room ≤ size
      → Encodes size room e
      → Encodes size (4 + room) (put_element bound e)
  unfolding put_element
  Encodes-element {room} {e} bound b l h = record {
    encoded = λ buf. go buf (e (C.put_u32 0 buf)) (h.encoded (C.put_u32 0 buf));
  }
    where
      longer : (buf : List ℕ) → length (C.put_u32 0 buf) ≡ length buf + 4
      longer buf =
          rw (C.put_u32-PutsBe 0 buf)
            (omega (arith, length-append buf (to_be_bytes 4 0), length-to_be_bytes 4 0))

      go :
          (buf : List ℕ) (r : Result EncodeError (List ℕ))
          → Encoded size room (C.put_u32 0 buf) r
          → Encoded size (4 + room) buf (elim r [
            | ok out ↦ patch_element bound (length buf) out
            | err x ↦ err x
            | panic ↦ panic
          ])
      go buf (ok out) p = Encoded-patch size bound room buf out b l (omega (arith, longer buf))
      go buf (err x) p = p
      go buf panic p = p
