-- ===== src/Codecs/Faults.antt =====
-- `Input::decode` in codec.rs on a field that is shorter than it says.
use edgedb_rust.Base.{
  ℕ, suc, ◌^◌, ◌<◌, ◌≡◌, refl, ap, ◌∙◌, true, List, ◌++◌, none, panic, map_ok, length, leb, arith,
}
use edgedb_rust.Wire.{to_be_bytes, Crates}
use edgedb_rust.Wire.Decoder.{Decoder, pure, ◌>>=◌, repeat}
use edgedb_rust.Wire.Decoder.Reads.{Reads-u32}
use edgedb_rust.Wire.Encoding.RoundTrip.{lengths}
use edgedb_rust.Time.Int.{pos}
use edgedb_rust.Codecs.{Codec, ObjectShape, Fields, sparse_object}
use edgedb_rust.Codecs.Objects.{
  decode_present, decode_marked, decode_field, decode_fields, decode_sparse, all_absent, set_field,
}
use edgedb_rust.Codecs.ReadingBack.{Reads-pos}
use edgedb_rust.Codecs.CollectionRoundTrip.{then_read, ensured}

stopped :
    {A B : Type 0} (d : Decoder A) (f : A → Decoder B) (buf : List ℕ)
    → d buf ≡ panic
    → (d >>= f) buf ≡ panic
unfolding ◌>>=◌
stopped d f buf h = rw (h, ◌>>=◌) refl

module _ ⦃C : Crates⦄ where
  short_field :
      (codecs : List Codec) (fields : Fields) (index n : ℕ) (rest : List ℕ)
      → length codecs < 2 ^ 32
      → index < length codecs
      → n < 2 ^ 31
      → length rest < n
      → decode_field codecs fields (to_be_bytes 4 index ++ (to_be_bytes 4 n ++ rest)) ≡ panic
  unfolding decode_field decode_marked decode_present ◌>>=◌
  short_field codecs fields index n rest small i h l =
      ensured 8 _ _ (omega lengths)
      ∙ then_read _ _ (to_be_bytes 4 index) _ index (Reads-u32 index (omega arith))
      ∙ rw known (then_read _ _ (to_be_bytes 4 n) _ (pos n) (Reads-pos n h) ∙ cut)
    where
      known : leb (suc index) (length codecs) ≡ true
      known = ground arith

      none_there : C.copy_to_slice n rest ≡ none
      none_there = C.copy_to_slice-Copies.1 n rest l

      cut : (decode_present codecs index n >>= λ x. pure (set_field index x fields)) rest ≡ panic
      cut = rw (none_there, ◌>>=◌, decode_present) refl

  -- `Input::decode` panics on a field that announces more bytes than are left, as its slice
  -- `&buf[..length]` does.
  pub decode_sparse-short :
      (shape : ObjectShape) (codecs : List Codec) (more index n : ℕ) (rest : List ℕ)
      → length codecs < 2 ^ 32
      → suc more < 2 ^ 32
      → index < length codecs
      → n < 2 ^ 31
      → length rest < n
      → decode_sparse shape codecs
          (to_be_bytes 4 (suc more) ++ (to_be_bytes 4 index ++ (to_be_bytes 4 n ++ rest)))
        ≡ panic
  unfolding decode_sparse decode_fields repeat
  decode_sparse-short shape codecs more index n rest small m i h l =
      ap (map_ok (λ r. sparse_object shape r.0)) fields_panic
    where
      fields_panic :
          decode_fields codecs
            (to_be_bytes 4 (suc more) ++ (to_be_bytes 4 index ++ (to_be_bytes 4 n ++ rest)))
          ≡ panic
      fields_panic =
          ensured 4 _ _ (omega lengths)
          ∙ then_read _ _ (to_be_bytes 4 (suc more)) _ (suc more) (Reads-u32 (suc more) m)
          ∙ stopped _ (repeat more (decode_field codecs)) _
              (short_field codecs (all_absent (length codecs)) index n rest small i h l)
