-- ===== src/Wire/Encoding/RoundTrip.antt =====
-- What the encoders of encoding.rs write, and its decoders on it.
use edgedb_rust.Base.{
  ℕ, zero, suc, ◌+◌, ◌-◌, ◌^◌, ◌≤◌, ◌<◌, ◌≡◌, refl, sym, ap, ◌∙◌, List, [], ◌∷◌, ◌++◌, append_assoc,
  append-nil, ok, ok_or, some, length, length-append, take, drop, take-append_length,
  drop-append_length, All, lt→ltb, arith,
}
use edgedb_rust.Base.HashMap.{Eq, insert, insert_all, insert_all-nil, IsMap, nat_eq, list_eq}
use edgedb_rust.Wire.{
  DecodeError, EncodeError, invalid_utf8, to_be_bytes, length-to_be_bytes, from_utf8, IsUtf8,
  Crates,
}
use edgedb_rust.Wire.Decoder.{Decoder, repeat, take_or_panic, ◌>>=◌}
use edgedb_rust.Wire.Decoder.Reads.{
  Reads, Reads-pure, Reads-lift, Reads->>=, Reads-map, Reads-ensure, Reads-assoc, Reads-u16,
  Reads-u32, Reads-copy, Reads-repeat, add_all,
}
use edgedb_rust.Wire.Encoder.{for_each, try_from, Encoder}
use edgedb_rust.Wire.Encoder.Writes.{
  Writes, Writes->>, Writes-for_each, Writes-put_checked, Writes-u16, Writes-extend, bytes_of_all,
}
use edgedb_rust.Wire.Encoding.{
  KeyValues, Annotations, encode_string, encode_bytes, encode_uuid, decode_string, decode_bytes,
  decode_uuid, encode_header, encode_headers, decode_header, decode_headers, encode_annotation,
  encode_annotations, decode_param, decode_annotation, encode, patch_length,
}

abbrev pub IsU16 : ℕ → Type 0
IsU16 n = n < 2 ^ 16

abbrev pub IsU32 : ℕ → Type 0
IsU32 n = n < 2 ^ 32

abbrev pub IsU64 : ℕ → Type 0
IsU64 n = n < 2 ^ 64

-- A byte string whose length fits its prefix, a text that does, an identifier.
abbrev pub IsBytes : List ℕ → Type 0
IsBytes b = IsU32 (length b)

abbrev pub IsText : List ℕ → Type 0
IsText s = IsU32 (length s) × IsUtf8 s

abbrev pub IsUuid : List ℕ → Type 0
IsUuid u = length u ≡ 16

abbrev pub IsHeader : ℕ × List ℕ → Type 0
IsHeader h = IsU16 h.0 × IsBytes h.1

abbrev pub IsAnnotation : List ℕ × List ℕ → Type 0
IsAnnotation a = IsText a.0 × IsText a.1

abbrev pub IsKeyValues : KeyValues → Type 0
IsKeyValues m = IsU16 (length m) × All IsHeader m × IsMap m

abbrev pub IsAnnotations : Annotations → Type 0
IsAnnotations m = IsU16 (length m) × All IsAnnotation m × IsMap m

-- The bytes on the wire.
abbrev pub wire_bytes : List ℕ → List ℕ
wire_bytes b = to_be_bytes 4 (length b) ++ b

abbrev pub wire_header : ℕ × List ℕ → List ℕ
wire_header h = to_be_bytes 2 h.0 ++ wire_bytes h.1

abbrev pub wire_headers : KeyValues → List ℕ
wire_headers m = to_be_bytes 2 (length m) ++ bytes_of_all wire_header m

abbrev pub wire_annotation : List ℕ × List ℕ → List ℕ
wire_annotation a = wire_bytes a.0 ++ wire_bytes a.1

abbrev pub wire_annotations : Annotations → List ℕ
wire_annotations m = to_be_bytes 2 (length m) ++ bytes_of_all wire_annotation m

module _ ⦃C : Crates⦄ where
  pub Writes-string : (s : List ℕ) → IsBytes s → Writes (encode_string s) (wire_bytes s)
  unfolding encode_string
  Writes-string s h =
      Writes->> (Writes-put_checked 4 _ _ C.put_u32 _ C.put_u32-PutsBe h) (Writes-extend s)

  pub Writes-bytes : (b : List ℕ) → IsBytes b → Writes (encode_bytes b) (wire_bytes b)
  unfolding encode_bytes
  Writes-bytes b h =
      Writes->> (Writes-put_checked 4 _ _ C.put_u32 _ C.put_u32-PutsBe h) (Writes-extend b)

  pub Writes-uuid : (u : List ℕ) → Writes (encode_uuid u) u
  unfolding encode_uuid
  Writes-uuid u = Writes-extend u

  Writes-header : (h : ℕ × List ℕ) → IsHeader h → Writes (encode_header h) (wire_header h)
  unfolding encode_header
  Writes-header (name, value) (hn, hv) = Writes->> (Writes-u16 name) (Writes-bytes value hv)

  pub Writes-headers : (m : KeyValues) → IsKeyValues m → Writes (encode_headers m) (wire_headers m)
  unfolding encode_headers
  Writes-headers m (few, each, _) =
      Writes->> (Writes-put_checked 2 _ _ C.put_u16 _ C.put_u16-PutsBe few)
        (Writes-for_each encode_header wire_header IsHeader Writes-header m each)

  Writes-annotation :
      (a : List ℕ × List ℕ) → IsAnnotation a → Writes (encode_annotation a) (wire_annotation a)
  unfolding encode_annotation
  Writes-annotation (name, value) (hn, hv) =
      Writes->> (Writes-string name hn.0) (Writes-string value hv.0)

  pub Writes-annotation_list :
      (m : Annotations)
      → All IsAnnotation m
      → Writes (for_each encode_annotation m) (bytes_of_all wire_annotation m)
  Writes-annotation_list m each =
      Writes-for_each encode_annotation wire_annotation IsAnnotation Writes-annotation m each

  pub Writes-annotations :
      (m : Annotations) → IsAnnotations m → Writes (encode_annotations m) (wire_annotations m)
  unfolding encode_annotations
  Writes-annotations m (few, each, _) =
      Writes->> (Writes-put_checked 2 _ _ C.put_u16 _ C.put_u16-PutsBe few)
        (Writes-annotation_list m each)

prefixed : (b : List ℕ) → 4 ≤ length (wire_bytes b)
prefixed b =
    omega (arith, length-append (to_be_bytes 4 (length b)) b, length-to_be_bytes 4 (length b))

pub all_inserted :
    {K V : Type 0} ⦃e : Eq K⦄ (m : List (K × V)) (xs : List (K × V))
    → add_all (λ m x. insert x.0 x.1 m) m xs ≡ insert_all m xs
unfolding insert_all
all_inserted m [] = refl
all_inserted m (x ∷ xs) = all_inserted (insert x.0 x.1 m) xs

headers_added :
    (m : KeyValues)
    → IsMap m
    → add_all (λ (m : KeyValues) (x : ℕ × List ℕ). insert x.0 x.1 m) [] m ≡ m
headers_added m keys = all_inserted [] m ∙ insert_all-nil m keys

params_added :
    (m : Annotations)
    → IsMap m
    → add_all (λ (m : Annotations) (x : List ℕ × List ℕ). insert x.0 x.1 m) [] m ≡ m
params_added m keys = all_inserted [] m ∙ insert_all-nil m keys

module _ ⦃C : Crates⦄ where
  pub Reads-string : (s : List ℕ) → IsText s → Reads decode_string (wire_bytes s) s
  unfolding decode_string
  Reads-string s (h, u) = Reads-ensure (prefixed s) (
      Reads->>= _ (Reads-u32 (length s) h) (
        Reads-ensure (omega arith) (
          Reads-map _ (Reads-copy C.copy_to_slice s C.copy_to_slice-Copies)
            (Reads-lift (unfold from_utf8 in rw u)))))

  pub Reads-bytes : (b : List ℕ) → IsBytes b → Reads decode_bytes (wire_bytes b) b
  unfolding decode_bytes
  Reads-bytes b h = Reads-ensure (prefixed b) (
      Reads->>= _ (Reads-u32 (length b) h)
        (Reads-ensure (omega arith) (Reads-copy C.copy_to_bytes b C.copy_to_bytes-Copies)))

  pub Reads-uuid : (u : List ℕ) → IsUuid u → Reads decode_uuid u u
  unfolding decode_uuid
  Reads-uuid u h = Reads-ensure (omega arith) (
      Reads-map _ (rw h at (Reads-copy C.copy_to_slice u C.copy_to_slice-Copies))
        (Reads-lift (rw (C.from_slice-eq_some u h))))

  abbrev insert_header : KeyValues → ℕ × List ℕ → KeyValues
  insert_header m h = insert h.0 h.1 m

  Reads-header :
      (m : KeyValues) (h : ℕ × List ℕ)
      → IsHeader h
      → Reads (decode_header m) (wire_header h) (insert_header m h)
  unfolding decode_header
  Reads-header m h (hn, hv) =
      Reads-ensure (omega (arith, length-append (to_be_bytes 2 h.0) (wire_bytes h.1), prefixed h.1))
        (Reads->>= _ (Reads-u16 h.0 hn) (Reads-map _ (Reads-bytes h.1 hv) (Reads-pure _)))

  -- Reading the headers of a map gives the map.
  pub Reads-headers :
      (m : KeyValues)
      → IsKeyValues m
      → Reads (decode_headers (length m)) (bytes_of_all wire_header m) m
  unfolding decode_headers
  Reads-headers m (few, each, keys) =
      rw (headers_added m keys) at
        (Reads-repeat decode_header wire_header insert_header IsHeader Reads-header m [] each)

  abbrev insert_param : Annotations → List ℕ × List ℕ → Annotations
  insert_param m a = insert a.0 a.1 m

  pub Reads-param :
      (m : Annotations) (a : List ℕ × List ℕ)
      → IsAnnotation a
      → Reads (decode_param m) (wire_annotation a) (insert_param m a)
  unfolding decode_param
  Reads-param m a (hn, hv) =
      Reads->>= _ (Reads-string a.0 hn) (Reads-map _ (Reads-string a.1 hv) (Reads-pure _))

  pub Reads-annotation :
      (least : ℕ) (m : Annotations) (a : List ℕ × List ℕ)
      → least ≤ 8
      → IsAnnotation a
      → Reads (decode_annotation least m) (wire_annotation a) (insert_param m a)
  unfolding decode_annotation
  Reads-annotation least m a le h =
      Reads-ensure
        (omega (arith, length-append (wire_bytes a.0) (wire_bytes a.1), prefixed a.0, prefixed a.1))
        (Reads-param m a h)

  pub Reads-params :
      (m : Annotations)
      → IsAnnotations m
      → Reads (repeat (length m) decode_param []) (bytes_of_all wire_annotation m) m
  Reads-params m (few, each, keys) =
      rw (params_added m keys) at
        (Reads-repeat decode_param wire_annotation insert_param IsAnnotation Reads-param m [] each)

  pub Reads-annotations :
      (least : ℕ) (m : Annotations)
      → least ≤ 8
      → IsAnnotations m
      → Reads (repeat (length m) (decode_annotation least) []) (bytes_of_all wire_annotation m) m
  Reads-annotations least m le (few, each, keys) = rw (params_added m keys) at (
      Reads-repeat (decode_annotation least) wire_annotation insert_param IsAnnotation
        (λ a x h. Reads-annotation least a x le h) m [] each)

-- A count and the entries that it counts, before the rest of a message.
module _ ⦃C : Crates⦄ {B : Type 0} {cs : List ℕ} {b : B} where
  pub Reads-counted_headers :
      (m : KeyValues) (f : KeyValues → Decoder B)
      → IsKeyValues m
      → Reads (f m) cs b
      → Reads (take_or_panic C.get_u16 >>= λ n. decode_headers n >>= f) (wire_headers m ++ cs) b
  Reads-counted_headers m f h r =
      Reads-assoc (to_be_bytes 2 (length m)) (bytes_of_all wire_header m) cs
        (Reads->>= _ (Reads-u16 _ h.0) (Reads->>= _ (Reads-headers m h) r))

  pub Reads-counted_annotations :
      (least : ℕ) (m : Annotations) (f : Annotations → Decoder B)
      → least ≤ 8
      → IsAnnotations m
      → Reads (f m) cs b
      → Reads
          (take_or_panic C.get_u16 >>= λ n. repeat n (decode_annotation least) [] >>= f)
          (wire_annotations m ++ cs)
          b
  Reads-counted_annotations least m f le h r =
      Reads-assoc (to_be_bytes 2 (length m)) (bytes_of_all wire_annotation m) cs
        (Reads->>= _ (Reads-u16 _ h.0) (Reads->>= _ (Reads-annotations least m le h) r))

-- The frame round what a message writes.
abbrev pub wire_frame : ℕ → List ℕ → List ℕ
wire_frame code bs = to_be_bytes 1 code ++ (to_be_bytes 4 (4 + length bs) ++ bs)

patch_length_lem :
    (start zeros bs : List ℕ)
    → length zeros ≡ 4
    → IsU32 (4 + length bs)
    → patch_length (length start) ((start ++ zeros) ++ bs)
      ≡ ok (start ++ (to_be_bytes 4 (4 + length bs) ++ bs))
unfolding patch_length try_from
patch_length_lem start zeros bs four short =
    rw (size, lt→ltb _ _ short, patch_length, before, behind)
  where
    size : length ((start ++ zeros) ++ bs) - length start ≡ 4 + length bs
    size = omega (arith, length-append (start ++ zeros) bs, length-append start zeros)

    before : take (length start) ((start ++ zeros) ++ bs) ≡ start
    before = rw (append_assoc start zeros bs) (take-append_length start (zeros ++ bs))

    behind : drop (length start + 4) ((start ++ zeros) ++ bs) ≡ bs
    behind =
        let e : length start + 4 ≡ length (start ++ zeros) =
          omega (arith, length-append start zeros) in
        rw e (drop-append_length (start ++ zeros) bs)

-- `encode` writes the frame: its length counts itself and the body, and not the code.
pub Writes-encode :
    ⦃C : Crates⦄ (code : ℕ) {msg : Encoder} {bs : List ℕ}
    → IsU32 (4 + length bs)
    → Writes msg bs
    → Writes (encode code msg) (wire_frame code bs)
unfolding encode
Writes-encode ⦃C⦄ code {msg} {bs} short w = record {
  written = λ buf.
      rw
        (
          C.put_u8-PutsBe code buf,
          C.put_slice-eq_append (0 ∷ 0 ∷ 0 ∷ 0 ∷ []) (buf ++ to_be_bytes 1 code),
          w.written ((buf ++ to_be_bytes 1 code) ++ (0 ∷ 0 ∷ 0 ∷ 0 ∷ [])),
          encode,
          C.put_u8-PutsBe code buf,
        )
        (patch_length_lem (buf ++ to_be_bytes 1 code) (0 ∷ 0 ∷ 0 ∷ 0 ∷ []) bs refl short
          ∙ ap ok (append_assoc buf (to_be_bytes 1 code) (to_be_bytes 4 (4 + length bs) ++ bs)));
}

-- The lengths of what is on the wire, for the length checks of the decoders.
pub length-bytes : (xs ys : List ℕ) → length (xs ++ ys) ≡ length xs + length ys
length-bytes = length-append

pub ruleset lengths = (arith, length-bytes, length-to_be_bytes)
