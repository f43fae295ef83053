-- ===== src/Codecs/Gives.antt =====
-- `Gives Q r`: where the result `r` is a value, `Q` holds of it; and the same of a reader and of a
-- decoder.
use edgedb_rust.Base.{
  ℕ, zero, suc, ◌≡◌, Bool, true, false, List, Result, ok, err, panic, map_ok, if◌then◌else◌,
}
use edgedb_rust.Wire.{DecodeError}
use edgedb_rust.Wire.Decoder
use edgedb_rust.Wire.Decoder.{Decoder, pure, fail, lift, repeat, ◌>>=◌}
use edgedb_rust.Codecs.Composite.{Inner, Reader, and_then, computed, behind_header}

abbrev pub Gives : {E A : Type 0} → (A → Type 0) → Result E A → Type 0
Gives Q (ok a) = Q a
Gives Q (err e) = Unit {0}
Gives Q panic = Unit {0}

pub Gives-eq_ok :
    {E A : Type 0} (Q : A → Type 0) (r : Result E A) (a : A) → Gives Q r → r ≡ ok a → Q a
Gives-eq_ok Q r a h e = rw e at h

pub Gives-all : {E A : Type 0} (Q : A → Type 0) (r : Result E A) → ((a : A) → Q a) → Gives Q r
Gives-all Q (ok a) h = h a
Gives-all Q (err e) h = tt
Gives-all Q panic h = tt

pub Gives-every :
    {E A : Type 0} (P Q : A → Type 0) (r : Result E A)
    → Gives P r
    → ((a : A) → P a → Q a)
    → Gives Q r
Gives-every P Q (ok a) h k = k a h
Gives-every P Q (err e) h k = tt
Gives-every P Q panic h k = tt

module _ {E A B : Type 0} (P : A → Type 0) (Q : B → Type 0) where
  pub Gives-map_ok :
      (f : A → B) (r : Result E A) → Gives P r → ((a : A) → P a → Q (f a)) → Gives Q (map_ok f r)
  Gives-map_ok f (ok a) h k = k a h
  Gives-map_ok f (err e) h k = tt
  Gives-map_ok f panic h k = tt

  -- A value, and what is done with it.
  pub Gives-then :
      (f : A → Result E B) (r : Result E A)
      → Gives P r
      → ((a : A) → P a → Gives Q (f a))
      → Gives Q (elim r [ ok a ↦ f a | err e ↦ err e | panic ↦ panic ])
  Gives-then f (ok a) h k = k a h
  Gives-then f (err e) h k = tt
  Gives-then f panic h k = tt

abbrev pub GivesRead : {A : Type 0} → (A → Type 0) → Reader A → Type 0
GivesRead Q r = (s : Inner) → Gives Q (r s).0

module _ {A B : Type 0} (P : A → Type 0) (Q : B → Type 0) where
  abbrev GivesState : Result DecodeError A × Inner → (A → Reader B) → Type 0
  GivesState p f =
      let (x, s') = p in
      Gives Q
        (elim x as (λ _. Result DecodeError B × Inner) [
          | ok a ↦ f a s'
          | err e ↦ (err e, s')
          | panic ↦ (panic, s')
        ]).0

  of_state :
      (p : Result DecodeError A × Inner) (f : A → Reader B)
      → Gives P p.0
      → ((a : A) → P a → GivesRead Q (f a))
      → GivesState p f
  of_state (ok a, s) f h k = k a h s
  of_state (err e, s) f h k = tt
  of_state (panic, s) f h k = tt

  pub Gives-and_then :
      (r : Reader A) (f : A → Reader B)
      → GivesRead P r
      → ((a : A) → P a → GivesRead Q (f a))
      → GivesRead Q (and_then r f)
  unfolding and_then
  Gives-and_then r f h k s = of_state (r s) f (h s) k

pub Gives-behind :
    {A : Type 0} (Q : A → Type 0) (o : Result DecodeError Inner) (r : Reader A)
    → GivesRead Q r
    → Gives Q (behind_header o r)
unfolding behind_header
Gives-behind Q (ok s) r h = h s
Gives-behind Q (err e) r h = tt
Gives-behind Q panic r h = tt

-- An element that is read, decoded and put before the rest.
pub Gives-item :
    {E V W : Type 0} (Pv : V → Type 0) (Pw Q : W → Type 0) (r : Reader E)
    (one : E → Result DecodeError V) (more : Reader W) (join : V → W → W)
    → ((e : E) → Gives Pv (one e))
    → GivesRead Pw more
    → ((v : V) (w : W) → Pv v → Pw w → Q (join v w))
    → GivesRead Q (
        and_then r (λ element.
          and_then (computed (one element)) λ x. and_then more λ xs. computed (ok (join x xs))))
unfolding computed
Gives-item Pv Pw Q r one more join h k l =
    Gives-and_then (λ _. Unit {0}) Q r _ (λ s. Gives-all _ (r s).0 (λ _. tt))
      λ e _.
        Gives-and_then Pv Q (computed (one e)) _ (λ s. h e)
          λ v hv. Gives-and_then Pw Q more _ k λ w hw s. l v w hv hw

abbrev pub GivesDecoded : {A : Type 0} → (A → Type 0) → Decoder A → Type 0
GivesDecoded Q d = (bs : List ℕ) → Gives (λ r. Q r.0) (d bs)

module _ {A B : Type 0} (P : A → Type 0) (Q : B → Type 0) where
  pub Gives->>= :
      (d : Decoder A) (f : A → Decoder B)
      → GivesDecoded P d
      → ((a : A) → P a → GivesDecoded Q (f a))
      → GivesDecoded Q (d >>= f)
  unfolding ◌>>=◌
  Gives->>= d f h k bs = Gives-then (λ r. P r.0) (λ r. Q r.0) _ (d bs) (h bs) λ r p. k r.0 p r.1

  pub Gives->> :
      (d : Decoder A) (f : Decoder B) → GivesDecoded Q f → GivesDecoded Q (Decoder.◌>>◌ d f)
  unfolding Decoder.◌>>◌
  Gives->> d f k bs =
      Gives-then (λ _. Unit {0}) (λ r. Q r.0) _ (d bs) (Gives-all _ (d bs) (λ _. tt)) λ r _. k r.1

pub Gives-repeat :
    {A : Type 0} (Q : A → Type 0) (n : ℕ) (body : A → Decoder A) (a : A)
    → ((a : A) → Q a → GivesDecoded Q (body a))
    → Q a
    → GivesDecoded Q (repeat n body a)
unfolding repeat pure
Gives-repeat Q zero body a h q bs = q
Gives-repeat Q (suc n) body a h q bs =
    Gives->>= Q Q (body a) _ (h a q) (λ b k. Gives-repeat Q n body b h k) bs

pub GivesDecoded-if :
    {A : Type 0} (Q : A → Type 0) (b : Bool) (d : Decoder A) (e : DecodeError)
    → GivesDecoded Q d
    → GivesDecoded Q (if b then d else fail e)
unfolding fail
GivesDecoded-if Q true d e h = h
GivesDecoded-if Q false d e h = λ bs. tt
