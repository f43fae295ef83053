-- ===== src/Wire/Encoding/Safety.antt =====
-- The decoders of encoding.rs on any input.
use edgedb_rust.Base.{ℕ, ◌+◌, ◌≤◌, ◌≢◌, Option, none, some, panic, ok_or, arith}
use edgedb_rust.Wire.{DecodeError, Crates}
use edgedb_rust.Wire.Decoder.{Decoder, take_or_panic, ensure_remaining, ◌>>=◌, ◌>>◌}
use edgedb_rust.Wire.Decoder.Safe.{
  Safe, Safe-pure, Safe-lift, Safe->>=, Safe->>, Safe-ensure, Safe-ensure_within, Safe-copy,
  Safe-weaken, Safe-u16, Safe-u32, Safe-copy_all, Safe-repeat,
}
use edgedb_rust.Wire.Encoding.{
  KeyValues, Annotations, decode_string, decode_bytes, decode_uuid, decode_header, decode_headers,
  decode_param, decode_annotation,
}

ok_or-ne-panic : {A : Type 0} (e : DecodeError) (o : Option A) → ok_or e o ≢ panic
ok_or-ne-panic e none h = cc
ok_or-ne-panic e (some a) h = cc

module _ ⦃C : Crates⦄ where
  pub Safe-string : Safe 0 0 decode_string
  unfolding decode_string
  Safe-string = Safe->> (Safe-ensure 0 4) (
      Safe->>= _ (Safe-u32 0) λ len. Safe->> (Safe-ensure 0 len) (
        Safe->>= _ (Safe-copy_all len C.copy_to_slice C.copy_to_slice-Copies)
          λ text. Safe-lift 0 (ok_or-ne-panic _ _)))

  pub Safe-bytes : Safe 0 0 decode_bytes
  unfolding decode_bytes
  Safe-bytes = Safe->> (Safe-ensure 0 4) (
      Safe->>= _ (Safe-u32 0) λ len.
        Safe->> (Safe-ensure 0 len) (Safe-copy_all len C.copy_to_bytes C.copy_to_bytes-Copies))

  -- An identifier takes sixteen bytes.
  pub Safe-uuid_exact : (m : ℕ) → Safe (16 + m) m decode_uuid
  unfolding decode_uuid
  Safe-uuid_exact m = Safe->> (Safe-ensure_within (16 + m) 16) (
      Safe->>= _ (Safe-copy 16 m C.copy_to_slice C.copy_to_slice-Copies)
        λ bytes. Safe-lift m (ok_or-ne-panic _ _))

  pub Safe-uuid : Safe 0 0 decode_uuid
  unfolding decode_uuid
  Safe-uuid = Safe->> (Safe-ensure 0 16) (
      Safe->>= _ (Safe-copy_all 16 C.copy_to_slice C.copy_to_slice-Copies)
        λ bytes. Safe-lift 0 (ok_or-ne-panic _ _))

  Safe-header : (m : KeyValues) → Safe 0 0 (decode_header m)
  unfolding decode_header
  Safe-header m = Safe->> (Safe-ensure 0 4) (
      Safe->>= _ (Safe-weaken 4 0 (omega arith) (omega arith) (Safe-u16 2))
        λ name. Safe->>= _ Safe-bytes λ value. Safe-pure 0 _)

  pub Safe-headers : (count : ℕ) → Safe 0 0 (decode_headers count)
  unfolding decode_headers
  Safe-headers count = Safe-repeat count decode_header _ Safe-header

  pub Safe-param : (m : Annotations) → Safe 0 0 (decode_param m)
  unfolding decode_param
  Safe-param m = Safe->>= _ Safe-string λ name. Safe->>= _ Safe-string λ value. Safe-pure 0 _

  pub Safe-annotation : (least : ℕ) (m : Annotations) → Safe 0 0 (decode_annotation least m)
  unfolding decode_annotation
  Safe-annotation least m =
      Safe->> (Safe-ensure 0 least) (Safe-weaken least 0 (omega arith) (omega arith) (Safe-param m))

  -- A count behind its length check, and the entries that it counts.
  pub Safe-count :
      {B : Type 0} (least : ℕ) {f : ℕ → Decoder B}
      → 2 ≤ least
      → ((n : ℕ) → Safe 0 0 (f n))
      → Safe 0 0 (ensure_remaining least >> (take_or_panic C.get_u16 >>= f))
  Safe-count least h s =
      Safe->> (Safe-ensure 0 least)
        (Safe->>= _ (Safe-weaken least 0 h (omega arith) (Safe-u16 0)) s)

  pub Safe-counted_headers :
      {B : Type 0} (least : ℕ) {f : KeyValues → Decoder B}
      → 2 ≤ least
      → ((m : KeyValues) → Safe 0 0 (f m))
      → Safe 0 0
          (ensure_remaining least >> (take_or_panic C.get_u16 >>= λ n. decode_headers n >>= f))
  Safe-counted_headers least h s = Safe-count least h (λ n. Safe->>= _ (Safe-headers n) s)
