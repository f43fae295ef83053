-- ===== src/Codecs/Termination.antt =====
-- `CodecBuilder::build` on descriptors that refer to earlier ones only, and on one that does not.
use edgedb_rust.Base.{
  ℕ, zero, suc, ◌+◌, ◌<◌, ◌≤◌, ◌≡◌, refl, List, [], ◌∷◌, map, Option, none, some, ok, err, panic,
  get_elem?, All, arith,
}
use edgedb_rust.Base.HashMap.{list_eq}
use edgedb_rust.Wire.{Crates}
use edgedb_rust.Descriptors
use edgedb_rust.Descriptors.{Descriptor, TypePos, scalar}
use edgedb_rust.Codecs.{Codec}
use edgedb_rust.Codecs.Scalars.{unexpected_type_pos, scalar_codec, find_scalar, scalars}
use edgedb_rust.Codecs.Collections.{array_codec, array_adapter_codec}
use edgedb_rust.Codecs.Build.{
  Build, map_built, try_built, collect, build_element, build_descriptor, build,
}

-- The positions that a descriptor refers to.
abbrev pub refers : Descriptor → List TypePos
refers (Descriptors.base_scalar d) = []
refers (Descriptors.set d) = d.type_pos ∷ []
refers (Descriptors.object_shape d) = map (λ (e : Descriptors.ShapeElement). e.type_pos) d.elements
refers (Descriptors.scalar d) = d.base_type_pos ∷ []
refers (Descriptors.tuple d) = d.element_types
refers (Descriptors.named_tuple d) = map (λ (e : Descriptors.TupleElement). e.type_pos) d.elements
refers (Descriptors.array d) = d.type_pos ∷ []
refers (Descriptors.range d) = d.type_pos ∷ []
refers (Descriptors.enumeration d) = []
refers (Descriptors.input_shape d) = map (λ (e : Descriptors.ShapeElement). e.type_pos) d.elements
refers (Descriptors.type_annotation d) = []

abbrev pub IsType : Descriptor → Type 0
IsType (Descriptors.type_annotation d) = ⊥
IsType _ = Unit {0}

-- No annotations, and each descriptor refers to positions before its own; the first has this one.
abbrev pub IsBackward : ℕ → List Descriptor → Type 0
IsBackward n [] = Unit {0}
IsBackward n (d ∷ ds) = (IsType d × All (λ t. t < n) (refers d)) × IsBackward (suc n) ds

All-weaken : (n m : ℕ) (ts : List TypePos) → n ≤ m → All (λ t. t < n) ts → All (λ t. t < m) ts
All-weaken n m [] le h = tt
All-weaken n m (t ∷ ts) le (h, hs) = (omega arith, All-weaken n m ts le hs)

backward_at :
    (n i : ℕ) (ds : List Descriptor) (d : Descriptor)
    → IsBackward n ds
    → get_elem? ds i ≡ some d
    → IsType d × All (λ t. t < n + i) (refers d)
backward_at n i [] d h e = absurd (none_ne e)
  where
    none_ne : ¬ (◌≡◌ {A = Option Descriptor} none (some d))
    none_ne x = cc
backward_at n zero (x ∷ ds) d h e = moved x d (some_eq e) h.0
  where
    some_eq : some x ≡ some d → x ≡ d
    some_eq q = cc

    moved :
        (x d : Descriptor)
        → x ≡ d
        → IsType x × All (λ t. t < n) (refers x)
        → IsType d × All (λ t. t < n + 0) (refers d)
    moved x d q (a, b) = rw (← q) (a, All-weaken n (n + 0) (refers x) (omega arith) b)
backward_at n (suc i) (x ∷ ds) d h e =
    let (a, b) = backward_at (suc n) i ds d h.1 e in
    (a, All-weaken (suc n + i) (n + suc i) (refers d) (omega arith) b)

-- A result that is there and is no panic.
abbrev pub Built : {A : Type 0} → Build A → Type 0
Built none = ⊥
Built (some (ok a)) = Unit {0}
Built (some (err e)) = Unit {0}
Built (some panic) = ⊥

module _ {A B : Type 0} where
  map_built-Built : (f : A → B) (b : Build A) → Built b → Built (map_built f b)
  unfolding map_built
  map_built-Built f none h = h
  map_built-Built f (some (ok a)) h = tt
  map_built-Built f (some (err e)) h = tt
  map_built-Built f (some panic) h = h

  try_built-Built :
      (b : Build A) (f : A → Build B) → Built b → ((a : A) → Built (f a)) → Built (try_built b f)
  unfolding try_built
  try_built-Built none f h k = h
  try_built-Built (some (ok a)) f h k = k a
  try_built-Built (some (err e)) f h k = tt
  try_built-Built (some panic) f h k = h

collect-Built :
    (build : TypePos → Build Codec) (ts : List TypePos) (n : ℕ)
    → ((t : TypePos) → t < n → Built (build t))
    → All (λ t. t < n) ts
    → Built (collect build ts)
unfolding collect
collect-Built build [] n k h = tt
collect-Built build (t ∷ ts) n k (h, hs) =
    try_built-Built (build t) _ (k t h) λ c. map_built-Built _ _ (collect-Built build ts n k hs)

find_scalar-Built : (id : List ℕ) (table : List (ℕ × Codec)) → Built (some (find_scalar id table))
unfolding find_scalar
find_scalar-Built id [] = tt
find_scalar-Built id (entry ∷ rest) = ground (arith, find_scalar-Built id rest)

module _ ⦃C : Crates⦄ where
  element-Built :
      (build : TypePos → Build Codec) (ds : List Descriptor) (n t : ℕ)
      → IsBackward 0 ds
      → ((t : TypePos) → t < n → Built (build t))
      → t < n
      → Built (build_element build ds t)
  unfolding build_element
  element-Built build ds n t back k h = found (get_elem? ds t) refl
    where
      adapted :
          (d : Descriptor)
          → get_elem? ds t ≡ some d
          → Built (elim d [
            | Descriptors.array a ↦
                map_built (λ c. array_adapter_codec (array_codec c)) (build a.type_pos)
            | _ ↦ build t
          ])
      adapted (Descriptors.array a) e =
          map_built-Built _ _
            (k a.type_pos (omega (arith, (backward_at 0 t ds (Descriptors.array a) back e).1.0)))
      adapted (Descriptors.base_scalar d) e = k t h
      adapted (Descriptors.set d) e = k t h
      adapted (Descriptors.object_shape d) e = k t h
      adapted (Descriptors.scalar d) e = k t h
      adapted (Descriptors.tuple d) e = k t h
      adapted (Descriptors.named_tuple d) e = k t h
      adapted (Descriptors.range d) e = k t h
      adapted (Descriptors.enumeration d) e = k t h
      adapted (Descriptors.input_shape d) e = k t h
      adapted (Descriptors.type_annotation d) e = k t h

      found :
          (o : Option Descriptor)
          → get_elem? ds t ≡ o
          → Built (elim o [
            | none ↦ build t
            | some d ↦ elim d [
              | Descriptors.array a ↦
                  map_built (λ c. array_adapter_codec (array_codec c)) (build a.type_pos)
              | _ ↦ build t
            ]
          ])
      found none e = k t h
      found (some d) e = adapted d e

  descriptor-Built :
      (build : TypePos → Build Codec) (ds : List Descriptor) (n : ℕ) (d : Descriptor)
      → IsBackward 0 ds
      → ((t : TypePos) → t < n → Built (build t))
      → IsType d
      → All (λ t. t < n) (refers d)
      → Built (build_descriptor build ds d)
  unfolding build_descriptor scalar_codec
  descriptor-Built build ds n (Descriptors.base_scalar d) back k y h =
      find_scalar-Built d.id scalars
  descriptor-Built build ds n (Descriptors.set d) back k y (h, _) =
      map_built-Built _ _ (element-Built build ds n d.type_pos back k h)
  descriptor-Built build ds n (Descriptors.object_shape d) back k y h =
      map_built-Built _ _ (collect-Built build _ n k h)
  descriptor-Built build ds n (Descriptors.scalar d) back k y (h, _) =
      map_built-Built _ _ (k d.base_type_pos h)
  descriptor-Built build ds n (Descriptors.tuple d) back k y h =
      map_built-Built _ _ (collect-Built build _ n k h)
  descriptor-Built build ds n (Descriptors.named_tuple d) back k y h =
      map_built-Built _ _ (collect-Built build _ n k h)
  descriptor-Built build ds n (Descriptors.array d) back k y (h, _) =
      map_built-Built _ _ (k d.type_pos h)
  descriptor-Built build ds n (Descriptors.range d) back k y (h, _) =
      map_built-Built _ _ (k d.type_pos h)
  descriptor-Built build ds n (Descriptors.enumeration d) back k y h = tt
  descriptor-Built build ds n (Descriptors.input_shape d) back k y h =
      map_built-Built _ _ (collect-Built build _ n k h)
  descriptor-Built build ds n (Descriptors.type_annotation d) back k y h = y

  found-Built :
      (rec : TypePos → Build Codec) (ds : List Descriptor) (t : TypePos) (o : Option Descriptor)
      → IsBackward 0 ds
      → get_elem? ds t ≡ o
      → ((t' : TypePos) → t' < t → Built (rec t'))
      → Built (elim o [
        | none ↦ some (err (unexpected_type_pos t))
        | some d ↦ build_descriptor rec ds d
      ])
  found-Built rec ds t none back e k = tt
  found-Built rec ds t (some d) back e k =
      let (y, refs) = backward_at 0 t ds d back e in
      descriptor-Built rec ds t d back k y (All-weaken _ _ (refers d) (omega arith) refs)

  -- Where every descriptor refers to earlier ones, building the codec of a type comes back with a
  -- codec or an error as soon as there are more rounds than the type's position, and does not
  -- panic.
  pub build-Built :
      (fuel : ℕ) (ds : List Descriptor) (t : TypePos)
      → IsBackward 0 ds
      → t < fuel
      → Built (build fuel ds t)
  unfolding build
  build-Built zero ds t back h = absurd (omega arith)
  build-Built (suc fuel) ds t back h =
      found-Built (build fuel ds) ds t (get_elem? ds t) back refl
        (λ t' h'. build-Built fuel ds t' back (omega arith))

  -- A scalar that is its own base: no number of rounds is enough.
  pub build-eq_none :
      (fuel : ℕ) (id : List ℕ)
      → build fuel (scalar (record { id = id; base_type_pos = 0 }) ∷ []) 0 ≡ none
  unfolding build build_descriptor map_built
  build-eq_none zero id = refl
  build-eq_none (suc fuel) id = rw (build-eq_none fuel id, map_built) refl
