-- ===== src/Client/Reads.antt =====
-- The decoders of client_message.rs on the bytes of Client.Wire. A decoder that checks for
-- more bytes than its message may have asks for them here too.
use mathlib.Core.Option.{get_or}
use edgedb_rust.Base.{
  ℕ, ◌≤◌, ◌<◌, ◌^◌, ◌≡◌, refl, ap, ◌∙◌, ◌≢◌, List, [], ◌++◌, append_assoc, Option, none, some, ok,
  length, arith,
}
use edgedb_rust.Base.HashMap.{insert, insert_all-nil, list_eq, nat_eq}
use edgedb_rust.Wire.Extensions.{Extensions, IsExtension, IsExtensions, wire_extension}
use edgedb_rust.Wire.{Crates, to_be_bytes}
use edgedb_rust.Wire.Decoder.{Decoder, take_or_panic, lift, repeat, ◌>>=◌}
use edgedb_rust.Wire.Decoder.Reads.{
  ReadsAll, ReadsAll-ensure, ReadsAll->>=, ReadsAll-map, ReadsAll-copy_remaining, Reads, Reads-pure,
  Reads-skip, Reads-pure_eq, Reads->>=, Reads-map, Reads-pass, Reads-ensure, Reads-u8, Reads-u16,
  Reads-u64, Reads-repeat,
}
use edgedb_rust.Wire.Encoding.{KeyValues, decode_headers}
use edgedb_rust.Wire.Encoder.Writes.{bytes_of_all}
use edgedb_rust.Wire.Encoding.RoundTrip.{
  IsU16, IsU64, IsBytes, IsText, IsKeyValues, Reads-string, Reads-bytes, Reads-uuid, Reads-headers,
  Reads-counted_headers, Reads-counted_annotations, Reads-params, all_inserted, wire_bytes,
  wire_headers, wire_header, lengths,
}
use edgedb_rust.Protocol.{
  DescribeAspect, data_description, aspect_u8, aspect_from_u8, IoFormat, Cardinality,
  cardinality_u8, try_from_u8, try_from_u8_iff, io_format_u8, io_format_from_u8,
  io_format_from_u8_iff, decode_capabilities, decode_compilation_flags, capabilities_all,
  compilation_flags_all,
}
use edgedb_rust.Client.Types.{
  ClientHandshake, SaslInitialResponse, ExecuteScript, Prepare, DescribeStatement, Execute0,
  Execute1, OptimisticExecute, Restore, Parse, SaslResponse, Dump, RestoreBlock,
}
use edgedb_rust.Client.Decode.{
  decode_extension, decode_client_handshake, decode_sasl_initial_response, decode_execute_script,
  decode_prepare, decode_describe_statement, decode_execute0, decode_optimistic_execute,
  decode_execute1, decode_dump, decode_restore, decode_parse, decode_sasl_response,
  decode_restore_block, limit_of,
}
use edgedb_rust.Client.Wire.{
  IsClientHandshake, IsPrepare, IsOptimisticExecute, IsLimit, IsFlags, IsParse, IsExecute1,
  wire_client_handshake, wire_execute_script, wire_prepare, wire_describe_statement, wire_execute0,
  wire_optimistic_execute, wire_execute1, wire_restore, wire_parse,
}

module _ ⦃C : Crates⦄ where
  abbrev insert_extension : Extensions → List ℕ × KeyValues → Extensions
  insert_extension m x = insert x.0 x.1 m

  Reads-extension :
      (m : Extensions) (x : List ℕ × KeyValues)
      → IsExtension x
      → Reads (decode_extension m) (wire_extension x) (insert_extension m x)
  unfolding decode_extension
  Reads-extension m x (hn, hh) = Reads->>= _ (Reads-string x.0 hn) (
      Reads-ensure (omega lengths)
        (Reads->>= _ (Reads-u16 _ hh.0) (Reads-map _ (Reads-headers x.1 hh) (Reads-pure _))))

  pub Reads-extensions :
      (m : Extensions)
      → IsExtensions m
      → Reads (repeat (length m) decode_extension []) (bytes_of_all wire_extension m) m
  Reads-extensions m (few, each, keys) = rw (all_inserted [] m ∙ insert_all-nil m keys) at (
      Reads-repeat decode_extension wire_extension insert_extension IsExtension Reads-extension m []
        each)

  pub Reads-client_handshake :
      (h : ClientHandshake)
      → IsClientHandshake h
      → Reads decode_client_handshake (wire_client_handshake h) h
  unfolding decode_client_handshake
  Reads-client_handshake h v = Reads-ensure (omega lengths) (
      Reads->>= _ (Reads-u16 h.major_ver v.major) (
        Reads->>= _ (Reads-u16 h.minor_ver v.minor) (
          Reads->>= _ (Reads-u16 _ v.params_fit.0) (
            Reads->>= _ (Reads-params h.params v.params_fit) (
              Reads-ensure (omega lengths) (
                Reads->>= _ (Reads-u16 _ v.extensions_fit.0) (
                  Reads-map _ (Reads-extensions h.extensions v.extensions_fit) (Reads-pure h))))))))

  pub Reads-sasl_initial_response :
      (r : SaslInitialResponse)
      → IsText r.method
      → IsBytes r.payload
      → Reads decode_sasl_initial_response (wire_bytes r.method ++ wire_bytes r.payload) r
  unfolding decode_sasl_initial_response
  Reads-sasl_initial_response r hm hp =
      Reads->>= _ (Reads-string r.method hm) (Reads-map _ (Reads-bytes r.payload hp) (Reads-pure r))

  pub Reads-execute_script :
      (s : ExecuteScript)
      → IsKeyValues s.headers
      → IsText s.script_text
      → Reads decode_execute_script (wire_execute_script s) s
  unfolding decode_execute_script
  Reads-execute_script s hh ht = Reads-ensure (omega lengths) (
      Reads-counted_headers s.headers _ hh
        (Reads-map _ (Reads-string s.script_text ht) (Reads-pure s)))

module _ ⦃C : Crates⦄ where
  format_read : (x : IoFormat) → x ≢ IoFormat.none → io_format_from_u8 (io_format_u8 x) ≡ ok x
  format_read x h = (io_format_from_u8_iff _ x).1 (refl, h)

  cardinality_read : (x : Cardinality) → try_from_u8 (cardinality_u8 x) ≡ ok x
  cardinality_read x = (try_from_u8_iff _ x).1 refl

  format-lt : (x : IoFormat) → io_format_u8 x < 2 ^ 8
  unfolding io_format_u8
  format-lt x = ground arith

  cardinality-lt : (x : Cardinality) → cardinality_u8 x < 2 ^ 8
  unfolding cardinality_u8
  cardinality-lt x = ground arith

  -- The two bytes of an output format and a cardinality.
  Reads-format :
      {B : Type 0} (x : IoFormat) (c : Cardinality) (f : IoFormat → Cardinality → Decoder B)
      {cs : List ℕ} {b : B}
      → x ≢ IoFormat.none
      → Reads (f x c) cs b
      → Reads
          (take_or_panic C.get_u8 >>= λ i. lift (io_format_from_u8 i) >>= λ x.
            take_or_panic C.get_u8 >>= λ j. lift (try_from_u8 j) >>= λ c. f x c)
          (to_be_bytes 1 (io_format_u8 x) ++ (to_be_bytes 1 (cardinality_u8 c) ++ cs))
          b
  Reads-format x c f h r = Reads->>= _ (Reads-u8 _ (format-lt x)) (
      Reads-pass _ (format_read x h)
        (Reads->>= _ (Reads-u8 _ (cardinality-lt c)) (Reads-pass _ (cardinality_read c) r)))

  pub Reads-prepare : (p : Prepare) → IsPrepare p → Reads decode_prepare (wire_prepare p) p
  unfolding decode_prepare
  Reads-prepare p v = Reads-ensure (omega lengths) (
      Reads-counted_headers p.headers _ v.headers_fit (
        Reads-ensure (omega lengths) (
          Reads-format p.io_format p.expected_cardinality _ v.format (
            Reads->>= _ (Reads-bytes p.statement_name v.name_fits)
              (Reads-map _ (Reads-string p.command_text v.text_fits) (Reads-pure p))))))

  Reads-no_headers : (m : KeyValues) → m ≡ [] → Reads (decode_headers (length m)) [] m
  Reads-no_headers m e = rw e (Reads-headers [] (omega arith))

  aspect_read : (a : DescribeAspect) → aspect_from_u8 (aspect_u8 a) ≡ ok a
  unfolding aspect_from_u8 aspect_u8
  aspect_read data_description = refl

  aspect-lt : (a : DescribeAspect) → aspect_u8 a < 2 ^ 8
  unfolding aspect_u8
  aspect-lt data_description = omega arith

  -- The headers of a DescribeStatement are not written, so it is read back if it has none.
  pub Reads-describe_statement :
      (d : DescribeStatement)
      → d.headers ≡ []
      → IsBytes d.statement_name
      → 5 ≤ length d.statement_name
      → Reads decode_describe_statement (wire_describe_statement d) d
  unfolding decode_describe_statement
  Reads-describe_statement d e hn h = Reads-ensure (omega lengths) (
      Reads->>= _ (Reads-u16 _ (omega (arith, ap length e))) (
        Reads-skip _ (Reads-no_headers d.headers e) (
          Reads-ensure (omega lengths) (
            Reads->>= _ (Reads-u8 _ (aspect-lt d.aspect)) (
              Reads-pass _ (aspect_read d.aspect)
                (Reads-map _ (Reads-bytes d.statement_name hn) (Reads-pure d)))))))

  pub Reads-execute0 :
      (e : Execute0)
      → IsKeyValues e.headers
      → IsBytes e.statement_name
      → IsBytes e.arguments
      → 12 ≤ length (wire_execute0 e)
      → Reads decode_execute0 (wire_execute0 e) e
  unfolding decode_execute0
  Reads-execute0 e hh hn ha long = Reads-ensure long (
      Reads-counted_headers e.headers _ hh (
        Reads->>= _ (Reads-bytes e.statement_name hn)
          (Reads-map _ (Reads-bytes e.arguments ha) (Reads-pure e))))

  pub Reads-optimistic_execute :
      (e : OptimisticExecute)
      → IsOptimisticExecute e
      → Reads decode_optimistic_execute (wire_optimistic_execute e) e
  unfolding decode_optimistic_execute
  Reads-optimistic_execute e v = Reads-ensure (omega lengths) (
      Reads-counted_headers e.headers _ v.headers_fit (
        Reads-format e.io_format e.expected_cardinality _ v.format (
          Reads->>= _ (Reads-string e.command_text v.text_fits) (
            Reads->>= _ (Reads-uuid e.input_typedesc_id v.input_id) (
              Reads->>= _ (Reads-uuid e.output_typedesc_id v.output_id)
                (Reads-map _ (Reads-bytes e.arguments v.arguments_fit) (Reads-pure e)))))))

  limit_read : (l : Option ℕ) → IsLimit l → limit_of (get_or l 0) ≡ l
  unfolding limit_of
  limit_read none h = refl
  limit_read (some n) h = ground arith

  limit-IsU64 : (l : Option ℕ) → IsLimit l → IsU64 (get_or l 0)
  limit-IsU64 none h = omega arith
  limit-IsU64 (some n) h = h.1

  -- The three integers that Parse and Execute1 have before the output format.
  Reads-flags :
      {B : Type 0} (c g : ℕ) (l : Option ℕ) (f : ℕ → ℕ → ℕ → Decoder B) {cs : List ℕ} {b : B}
      → IsFlags capabilities_all c
      → IsFlags compilation_flags_all g
      → IsLimit l
      → Reads (f c g (get_or l 0)) cs b
      → Reads
          (take_or_panic C.get_u64 >>= λ i. lift (decode_capabilities i) >>= λ c.
            take_or_panic C.get_u64 >>= λ j.
            lift (decode_compilation_flags j) >>= λ g. take_or_panic C.get_u64 >>= λ l. f c g l)
          (to_be_bytes 8 c ++ (to_be_bytes 8 g ++ (to_be_bytes 8 (get_or l 0) ++ cs)))
          b
  unfolding decode_capabilities decode_compilation_flags
  Reads-flags c g l f hc hg hl r = Reads->>= _ (Reads-u64 c hc.0) (
      Reads-pass _ (rw (C.from_bits-eq_some capabilities_all c hc.1)) (
        Reads->>= _ (Reads-u64 g hg.0) (
          Reads-pass _ (rw (C.from_bits-eq_some compilation_flags_all g hg.1))
            (Reads->>= _ (Reads-u64 _ (limit-IsU64 l hl)) r))))

  pub Reads-parse : (p : Parse) → IsParse p → Reads decode_parse (wire_parse p) p
  unfolding decode_parse
  Reads-parse p v = Reads-ensure (omega lengths) (
      Reads-counted_annotations 8 p.annotations _ (omega arith) v.annotations_fit (
        Reads-ensure (omega lengths) (
          Reads-flags p.allowed_capabilities p.compilation_flags p.implicit_limit _ v.capabilities
            v.flags v.limit
            (Reads-format p.output_format p.expected_cardinality _ v.format (
              Reads->>= _ (Reads-string p.command_text v.text_fits) (
                Reads->>= _ (Reads-uuid p.state_typedesc_id v.state_id) (
                  Reads-map _ (Reads-bytes p.state_data v.state_fits) (
                    Reads-pure_eq (
                      ap (λ l. record p { implicit_limit = l })
                        (limit_read p.implicit_limit v.limit))))))))))

  pub Reads-execute1 : (p : Execute1) → IsExecute1 p → Reads decode_execute1 (wire_execute1 p) p
  unfolding decode_execute1
  Reads-execute1 p v = Reads-ensure (omega lengths) (
      Reads-counted_annotations 4 p.annotations _ (omega arith) v.annotations_fit (
        Reads-ensure (omega lengths) (
          Reads-flags p.allowed_capabilities p.compilation_flags p.implicit_limit _ v.capabilities
            v.flags v.limit
            (Reads-format p.output_format p.expected_cardinality _ v.format (
              Reads->>= _ (Reads-string p.command_text v.text_fits) (
                Reads->>= _ (Reads-uuid p.state_typedesc_id v.state_id) (
                  Reads->>= _ (Reads-bytes p.state_data v.state_fits) (
                    Reads->>= _ (Reads-uuid p.input_typedesc_id v.input_id) (
                      Reads->>= _ (Reads-uuid p.output_typedesc_id v.output_id) (
                        Reads-map _ (Reads-bytes p.arguments v.arguments_fit) (
                          Reads-pure_eq (
                            ap (λ l. record p { implicit_limit = l })
                              (limit_read p.implicit_limit v.limit)))))))))))))

  pub Reads-sasl_response :
      (r : SaslResponse) → IsBytes r.payload → Reads decode_sasl_response (wire_bytes r.payload) r
  unfolding decode_sasl_response
  Reads-sasl_response r h = Reads-map _ (Reads-bytes r.payload h) (Reads-pure r)

  pub Reads-dump :
      (d : Dump)
      → IsKeyValues d.headers
      → 12 ≤ length (wire_headers d.headers)
      → Reads decode_dump (wire_headers d.headers) d
  unfolding decode_dump
  Reads-dump d hh long =
      Reads-ensure long
        (Reads->>= _ (Reads-u16 _ hh.0) (Reads-map _ (Reads-headers d.headers hh) (Reads-pure d)))

  -- The data of a RestoreBlock, and of a Restore, is whatever the frame has left.
  pub ReadsAll-restore_block : (b : RestoreBlock) → ReadsAll decode_restore_block b.payload b
  unfolding decode_restore_block
  ReadsAll-restore_block b = ReadsAll-map _ (ReadsAll-copy_remaining b.payload)

  pub ReadsAll-restore :
      (r : Restore)
      → IsKeyValues r.headers
      → IsU16 r.jobs
      → ReadsAll decode_restore (wire_restore r) r
  unfolding decode_restore
  ReadsAll-restore r hh hj = ReadsAll-ensure (omega lengths) (
      rw
        (append_assoc (to_be_bytes 2 (length r.headers)) (bytes_of_all wire_header r.headers)
          (to_be_bytes 2 r.jobs ++ r.payload))
        (ReadsAll->>= _ (to_be_bytes 2 (length r.headers)) (Reads-u16 _ hh.0) (
          ReadsAll->>= _ _ (Reads-headers r.headers hh) (
            ReadsAll->>= _ _ (Reads-u16 r.jobs hj)
              (ReadsAll-map _ (ReadsAll-copy_remaining r.payload))))))
