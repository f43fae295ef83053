-- ===== src/Server/ReadsCommands.antt =====
-- Like Server.Reads, for the messages that answer a command: Prepare, Parse, Execute, Dump and
-- Restore.
use edgedb_rust.Base.{ℕ, ◌<◌, ◌^◌, ◌≡◌, refl, sym, ap, List, [], ◌++◌, ok, length, All, arith}
use edgedb_rust.Wire.{Crates, to_be_bytes}
use edgedb_rust.Wire.Decoder.{Decoder, repeat, take_or_panic, lift, ◌>>=◌}
use edgedb_rust.Wire.Decoder.Reads.{
  ReadsAll, ReadsAll-map, ReadsAll-copy_remaining, Reads, Reads-pure, Reads-pure_eq, Reads->>=,
  Reads-map, Reads-pass, Reads-ensure, Reads-u8, Reads-u16, Reads-u64, Reads-assoc,
}
use edgedb_rust.Wire.Encoder.Writes.{bytes_of_all}
use edgedb_rust.Wire.Encoding.{Annotations, decode_bytes, decode_param}
use edgedb_rust.Wire.Encoding.RoundTrip.{
  IsU16, IsBytes, IsKeyValues, IsAnnotations, Reads-bytes, Reads-uuid, Reads-counted_headers,
  Reads-counted_annotations, Reads-params, wire_bytes, wire_annotation, wire_annotations, lengths,
}
use edgedb_rust.Protocol.{
  ProtocolVersion, Cardinality, cardinality_u8, try_from_u8, try_from_u8_iff,
}
use edgedb_rust.Server.Types.{
  CommandComplete0, CommandComplete1, PrepareComplete, CommandDataDescription0,
  CommandDataDescription1, StateDataDescription, DataChunks, RestoreReady, RawPacket,
}
use edgedb_rust.Server.Decode.{
  decode_command_complete0, decode_command_complete1, decode_prepare_complete,
  decode_command_data_description0, decode_command_data_description1, decode_state_data_description,
  decode_data, decode_restore_ready, decode_raw_packet,
}
use edgedb_rust.Wire.Decoder.Reads.{Reads-pushed}
use edgedb_rust.Server.Wire.{
  IsCommandComplete1, IsPrepareComplete, IsCommandDataDescription0, IsCommandDataDescription1,
  wire_command_complete0, wire_command_complete1, wire_prepare_complete,
  wire_command_data_description0, wire_command_data_description1, wire_data, wire_restore_ready,
}

cardinality_read : (x : Cardinality) → try_from_u8 (cardinality_u8 x) ≡ ok x
cardinality_read x = (try_from_u8_iff _ x).1 refl

cardinality-lt : (x : Cardinality) → cardinality_u8 x < 2 ^ 8
unfolding cardinality_u8
cardinality-lt x = ground arith

module _ ⦃C : Crates⦄ where
  -- The byte of a cardinality.
  Reads-cardinality :
      {B : Type 0} (c : Cardinality) (f : Cardinality → Decoder B) {cs : List ℕ} {b : B}
      → Reads (f c) cs b
      → Reads
          (take_or_panic C.get_u8 >>= λ i. lift (try_from_u8 i) >>= λ c. f c)
          (to_be_bytes 1 (cardinality_u8 c) ++ cs)
          b
  Reads-cardinality c f r =
      Reads->>= _ (Reads-u8 _ (cardinality-lt c)) (Reads-pass _ (cardinality_read c) r)

  -- Annotations that are read with no length check before each.
  Reads-counted_params :
      {B : Type 0} (m : Annotations) (f : Annotations → Decoder B) {cs : List ℕ} {b : B}
      → IsAnnotations m
      → Reads (f m) cs b
      → Reads
          (take_or_panic C.get_u16 >>= λ n. repeat n decode_param [] >>= f)
          (wire_annotations m ++ cs)
          b
  Reads-counted_params m f {cs} h r =
      Reads-assoc (to_be_bytes 2 (length m)) (bytes_of_all wire_annotation m) cs
        (Reads->>= _ (Reads-u16 _ h.0) (Reads->>= _ (Reads-params m h) r))

  pub Reads-command_complete0 :
      (c : CommandComplete0)
      → IsKeyValues c.headers
      → IsBytes c.status_data
      → Reads decode_command_complete0 (wire_command_complete0 c) c
  unfolding decode_command_complete0
  Reads-command_complete0 c hh hs = Reads-ensure (omega lengths) (
      Reads-counted_headers c.headers _ hh
        (Reads-map _ (Reads-bytes c.status_data hs) (Reads-pure c)))

  pub Reads-command_complete1 :
      (c : CommandComplete1)
      → IsCommandComplete1 c
      → Reads decode_command_complete1 (wire_command_complete1 c) c
  unfolding decode_command_complete1
  Reads-command_complete1 c v = Reads-ensure (omega (lengths, v.state_id)) (
      Reads-counted_params c.annotations _ v.annotations_fit (
        Reads->>= _ (Reads-u64 _ v.capabilities) (
          Reads->>= _ (Reads-bytes c.status_data v.status_fits) (
            Reads->>= _ (Reads-uuid c.state_typedesc_id v.state_id) (
              Reads-map _ (Reads-bytes c.state_data v.state_fits) (
                Reads-pure_eq (
                  ap (λ n. record c { capabilities = n })
                    (C.from_bits_unchecked-eq c.capabilities))))))))

  pub Reads-prepare_complete :
      (c : PrepareComplete)
      → IsPrepareComplete c
      → Reads decode_prepare_complete (wire_prepare_complete c) c
  unfolding decode_prepare_complete
  Reads-prepare_complete c v = Reads-ensure (omega (lengths, v.input_id, v.output_id)) (
      Reads-counted_headers c.headers _ v.headers_fit (
        Reads-ensure (omega (lengths, v.input_id, v.output_id)) (
          Reads-cardinality c.cardinality _ (
            Reads->>= _ (Reads-uuid c.input_typedesc_id v.input_id)
              (Reads-map _ (Reads-uuid c.output_typedesc_id v.output_id) (Reads-pure c))))))

  pub Reads-command_data_description0 :
      (p : ProtocolVersion) (d : CommandDataDescription0)
      → IsCommandDataDescription0 p d
      → Reads (decode_command_data_description0 p) (wire_command_data_description0 d) d
  unfolding decode_command_data_description0
  Reads-command_data_description0 p d v = Reads-ensure (omega (lengths, v.input_id, v.output_id)) (
      Reads-counted_headers d.headers _ v.headers_fit (
        Reads-ensure (omega (lengths, v.input_id, v.output_id)) (
          Reads-cardinality d.result_cardinality _ (
            Reads->>= _ (Reads-uuid d.input_typedesc_id v.input_id) (
              Reads->>= _ (Reads-bytes d.input_typedesc v.input_fits) (
                Reads->>= _ (Reads-uuid d.output_typedesc_id v.output_id) (
                  Reads-map _ (Reads-bytes d.output_typedesc v.output_fits)
                    (Reads-pure_eq (ap (λ q. record d { proto = q }) (sym v.version))))))))))

  pub Reads-command_data_description1 :
      (p : ProtocolVersion) (d : CommandDataDescription1)
      → IsCommandDataDescription1 p d
      → Reads (decode_command_data_description1 p) (wire_command_data_description1 d) d
  unfolding decode_command_data_description1
  Reads-command_data_description1 p d v = Reads-ensure (omega (lengths, v.input_id, v.output_id)) (
      Reads-counted_annotations 4 d.annotations _ (omega arith) v.annotations_fit (
        Reads-ensure (omega (lengths, v.input_id, v.output_id)) (
          Reads->>= _ (Reads-u64 _ v.capabilities) (
            Reads-cardinality d.result_cardinality _ (
              Reads->>= _ (Reads-uuid d.input_typedesc_id v.input_id) (
                Reads->>= _ (Reads-bytes d.input_typedesc v.input_fits) (
                  Reads->>= _ (Reads-uuid d.output_typedesc_id v.output_id) (
                    Reads-map _ (Reads-bytes d.output_typedesc v.output_fits) (
                      Reads-pure_eq λ i. record d {
                        proto = sym v.version i;
                        capabilities = C.from_bits_unchecked-eq d.capabilities i;
                      })))))))))

  pub Reads-state_data_description :
      (d : StateDataDescription)
      → length d.typedesc_id ≡ 16
      → IsBytes d.typedesc
      → Reads decode_state_data_description (d.typedesc_id ++ wire_bytes d.typedesc) d
  unfolding decode_state_data_description
  Reads-state_data_description d hi ht =
      Reads->>= _ (Reads-uuid d.typedesc_id hi)
        (Reads-map _ (Reads-bytes d.typedesc ht) (Reads-pure d))

  pub Reads-data :
      (d : DataChunks)
      → IsU16 (length d.chunks)
      → All IsBytes d.chunks
      → Reads decode_data (wire_data d) d
  unfolding decode_data
  Reads-data d few each = Reads-ensure (omega lengths) (
      Reads->>= _ (Reads-u16 _ few) (
        Reads-map _ (Reads-pushed decode_bytes wire_bytes IsBytes Reads-bytes d.chunks each)
          (Reads-pure d)))

  pub Reads-restore_ready :
      (r : RestoreReady)
      → IsKeyValues r.headers
      → IsU16 r.jobs
      → Reads decode_restore_ready (wire_restore_ready r) r
  unfolding decode_restore_ready
  Reads-restore_ready r hh hj = Reads-ensure (omega lengths) (
      Reads-counted_headers r.headers _ hh
        (Reads-ensure (omega lengths) (Reads-map _ (Reads-u16 r.jobs hj) (Reads-pure r))))

  -- A raw packet is whatever the frame has left.
  pub ReadsAll-raw_packet : (p : RawPacket) → ReadsAll decode_raw_packet p.payload p
  unfolding decode_raw_packet
  ReadsAll-raw_packet p = ReadsAll-map _ (ReadsAll-copy_remaining p.payload)
