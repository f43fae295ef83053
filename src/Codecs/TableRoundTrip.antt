-- ===== src/Codecs/TableRoundTrip.antt =====
-- The codecs that `scalar_codec` in codec.rs finds, on the bytes that they have written.
use edgedb_rust.Base.{ok-injective, ◌≢◌}
use edgedb_rust.Base.{ℕ, ◌≡◌, Bool-cases, inl, inr, List, [], ◌∷◌, Result, ok, err, All}
use edgedb_rust.Base.HashMap.{◌==◌, nat_eq, list_eq}
use edgedb_rust.Wire.{Crates}
use edgedb_rust.Codecs.{Codec}
use edgedb_rust.Codecs.ScalarRoundTrip.{
  RoundTrips, int16_RoundTrips, int32_RoundTrips, int64_RoundTrips, config_memory_RoundTrips,
  float32_RoundTrips, float64_RoundTrips, bool_RoundTrips, local_datetime_RoundTrips,
  local_date_RoundTrips, str_RoundTrips, bytes_RoundTrips, uuid_RoundTrips,
}
use edgedb_rust.Codecs.Scalars.{CodecError, uuid_of, scalars, find_scalar, scalar_codec}
use edgedb_rust.Codecs.NumberRoundTrip.{
  big_int_RoundTrips, date_duration_RoundTrips, datetime_RoundTrips, decimal_RoundTrips,
  duration_RoundTrips, json_RoundTrips, local_time_RoundTrips, relative_duration_RoundTrips,
}

err-ne-ok : {x : CodecError} {c : Codec} → ◌≢◌ {A = Result CodecError Codec} (err x) (ok c)
err-ne-ok h = cc

module _ ⦃C : Crates⦄ where
  scalars_RoundTrip : All (λ (entry : ℕ × Codec). RoundTrips entry.1) scalars
  unfolding scalars
  scalars_RoundTrip = (
    uuid_RoundTrips,
    (
      str_RoundTrips,
      (
        bytes_RoundTrips,
        (
          int16_RoundTrips,
          (
            int32_RoundTrips,
            (
              int64_RoundTrips,
              (
                float32_RoundTrips,
                (
                  float64_RoundTrips,
                  (
                    decimal_RoundTrips,
                    (
                      bool_RoundTrips,
                      (
                        datetime_RoundTrips,
                        (
                          local_datetime_RoundTrips,
                          (
                            local_date_RoundTrips,
                            (
                              local_time_RoundTrips,
                              (
                                duration_RoundTrips,
                                (
                                  json_RoundTrips,
                                  (
                                    big_int_RoundTrips,
                                    (
                                      relative_duration_RoundTrips,
                                      (date_duration_RoundTrips, (config_memory_RoundTrips, tt)),
                                    ),
                                  ),
                                ),
                              ),
                            ),
                          ),
                        ),
                      ),
                    ),
                  ),
                ),
              ),
            ),
          ),
        ),
      ),
    ),
  )

  found_RoundTrips :
      (id : List ℕ) (table : List (ℕ × Codec)) (c : Codec)
      → All (λ (entry : ℕ × Codec). RoundTrips entry.1) table
      → find_scalar id table ≡ ok c
      → RoundTrips c
  unfolding find_scalar
  found_RoundTrips id [] c h e = absurd (err-ne-ok e)
  found_RoundTrips id (entry ∷ rest) c (h, hs) e = elim (Bool-cases (uuid_of entry.0 == id)) [
    | inl this ↦ rw (ok-injective (rw (this, find_scalar) at e)) at h
    | inr other ↦ found_RoundTrips id rest c hs (rw (other, find_scalar) at e)
  ]

  pub scalar_RoundTrips : (id : List ℕ) (c : Codec) → scalar_codec id ≡ ok c → RoundTrips c
  unfolding scalar_codec
  scalar_RoundTrips id c e = found_RoundTrips id scalars c scalars_RoundTrip e
