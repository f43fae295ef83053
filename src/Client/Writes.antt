-- ===== src/Client/Writes.antt =====
-- The encoders of client_message.rs and the bytes of Client.Wire.
use edgedb_rust.Base.{ℕ, ◌^◌, ◌++◌, length}
use edgedb_rust.Wire.Extensions.{IsExtension, encode_extension, wire_extension, Writes-extension}
use edgedb_rust.Wire.{Crates, EncodeError, to_be_bytes}
use edgedb_rust.Wire.Encoder.{put_checked}
use edgedb_rust.Wire.Encoder.Writes.{
  Writes, Writes->>, Writes-for_each, Writes-put_checked, Writes-u8, Writes-u16, Writes-u64,
  Writes-extend,
}
use edgedb_rust.Wire.Encoding.RoundTrip.{
  IsU16, IsBytes, IsText, IsKeyValues, Writes-string, Writes-bytes, Writes-uuid, Writes-headers,
  Writes-annotation_list, Writes-annotations, wire_bytes, wire_headers,
}
use edgedb_rust.Client.Types.{
  ClientHandshake, SaslInitialResponse, ExecuteScript, Prepare, DescribeStatement, Execute0,
  Execute1, OptimisticExecute, Restore, Parse, SaslResponse, Dump, RestoreBlock,
}
use edgedb_rust.Client.Encode.{
  encode_client_handshake, encode_sasl_initial_response, encode_execute_script, encode_prepare,
  encode_describe_statement, encode_execute0, encode_optimistic_execute, encode_execute1,
  encode_restore, encode_parse, encode_sasl_response, encode_dump, encode_restore_block,
}
use edgedb_rust.Client.Wire.{
  IsClientHandshake, IsPrepare, IsOptimisticExecute, IsParse, IsExecute1, wire_client_handshake,
  wire_execute_script, wire_prepare, wire_describe_statement, wire_execute0,
  wire_optimistic_execute, wire_execute1, wire_restore, wire_parse,
}

module _ ⦃C : Crates⦄ where
  Writes-count :
      (n : ℕ) (x : EncodeError)
      → IsU16 n
      → Writes (put_checked (2 ^ 16) x C.put_u16 n) (to_be_bytes 2 n)
  Writes-count n x h = Writes-put_checked 2 _ _ C.put_u16 n C.put_u16-PutsBe h

  pub Writes-client_handshake :
      (h : ClientHandshake)
      → IsClientHandshake h
      → Writes (encode_client_handshake h) (wire_client_handshake h)
  unfolding encode_client_handshake
  Writes-client_handshake h v = Writes->> (Writes-u16 h.major_ver) (
      Writes->> (Writes-u16 h.minor_ver) (
        Writes->> (Writes-count (length h.params) _ v.params_fit.0) (
          Writes->> (Writes-annotation_list h.params v.params_fit.1) (
            Writes->> (Writes-count (length h.extensions) _ v.extensions_fit.0) (
              Writes-for_each encode_extension wire_extension IsExtension Writes-extension
                h.extensions v.extensions_fit.1)))))

  pub Writes-sasl_initial_response :
      (r : SaslInitialResponse)
      → IsText r.method
      → IsBytes r.payload
      → Writes (encode_sasl_initial_response r) (wire_bytes r.method ++ wire_bytes r.payload)
  unfolding encode_sasl_initial_response
  Writes-sasl_initial_response r hm hp =
      Writes->> (Writes-string r.method hm.0) (Writes-bytes r.payload hp)

  pub Writes-execute_script :
      (s : ExecuteScript)
      → IsKeyValues s.headers
      → IsText s.script_text
      → Writes (encode_execute_script s) (wire_execute_script s)
  unfolding encode_execute_script
  Writes-execute_script s hh ht =
      Writes->> (Writes-headers s.headers hh) (Writes-string s.script_text ht.0)

  pub Writes-prepare : (p : Prepare) → IsPrepare p → Writes (encode_prepare p) (wire_prepare p)
  unfolding encode_prepare
  Writes-prepare p v = Writes->> (Writes-headers p.headers v.headers_fit) (
      Writes->> (Writes-u8 _) (
        Writes->> (Writes-u8 _) (
          Writes->> (Writes-bytes p.statement_name v.name_fits)
            (Writes-string p.command_text v.text_fits.0))))

  pub Writes-describe_statement :
      (d : DescribeStatement)
      → IsU16 (length d.headers)
      → IsBytes d.statement_name
      → Writes (encode_describe_statement d) (wire_describe_statement d)
  unfolding encode_describe_statement
  Writes-describe_statement d hh hn =
      Writes->> (Writes-count (length d.headers) _ hh)
        (Writes->> (Writes-u8 _) (Writes-bytes d.statement_name hn))

  pub Writes-execute0 :
      (e : Execute0)
      → IsKeyValues e.headers
      → IsBytes e.statement_name
      → IsBytes e.arguments
      → Writes (encode_execute0 e) (wire_execute0 e)
  unfolding encode_execute0
  Writes-execute0 e hh hn ha =
      Writes->> (Writes-headers e.headers hh)
        (Writes->> (Writes-bytes e.statement_name hn) (Writes-bytes e.arguments ha))

  pub Writes-optimistic_execute :
      (e : OptimisticExecute)
      → IsOptimisticExecute e
      → Writes (encode_optimistic_execute e) (wire_optimistic_execute e)
  unfolding encode_optimistic_execute
  Writes-optimistic_execute e v = Writes->> (Writes-headers e.headers v.headers_fit) (
      Writes->> (Writes-u8 _) (
        Writes->> (Writes-u8 _) (
          Writes->> (Writes-string e.command_text v.text_fits.0) (
            Writes->> (Writes-uuid e.input_typedesc_id) (
              Writes->> (Writes-uuid e.output_typedesc_id)
                (Writes-bytes e.arguments v.arguments_fit))))))

  pub Writes-execute1 : (p : Execute1) → IsExecute1 p → Writes (encode_execute1 p) (wire_execute1 p)
  unfolding encode_execute1
  Writes-execute1 p v = Writes->> (Writes-annotations p.annotations v.annotations_fit) (
      Writes->> (Writes-u64 _) (
        Writes->> (Writes-u64 _) (
          Writes->> (Writes-u64 _) (
            Writes->> (Writes-u8 _) (
              Writes->> (Writes-u8 _) (
                Writes->> (Writes-string p.command_text v.text_fits.0) (
                  Writes->> (Writes-uuid p.state_typedesc_id) (
                    Writes->> (Writes-bytes p.state_data v.state_fits) (
                      Writes->> (Writes-uuid p.input_typedesc_id) (
                        Writes->> (Writes-uuid p.output_typedesc_id)
                          (Writes-bytes p.arguments v.arguments_fit)))))))))))

  pub Writes-restore :
      (r : Restore) → IsKeyValues r.headers → Writes (encode_restore r) (wire_restore r)
  unfolding encode_restore
  Writes-restore r hh =
      Writes->> (Writes-headers r.headers hh)
        (Writes->> (Writes-u16 r.jobs) (Writes-extend r.payload))

  pub Writes-parse : (p : Parse) → IsParse p → Writes (encode_parse p) (wire_parse p)
  unfolding encode_parse
  Writes-parse p v = Writes->> (Writes-annotations p.annotations v.annotations_fit) (
      Writes->> (Writes-u64 _) (
        Writes->> (Writes-u64 _) (
          Writes->> (Writes-u64 _) (
            Writes->> (Writes-u8 _) (
              Writes->> (Writes-u8 _) (
                Writes->> (Writes-string p.command_text v.text_fits.0) (
                  Writes->> (Writes-uuid p.state_typedesc_id)
                    (Writes-bytes p.state_data v.state_fits))))))))

  pub Writes-sasl_response :
      (r : SaslResponse)
      → IsBytes r.payload
      → Writes (encode_sasl_response r) (wire_bytes r.payload)
  unfolding encode_sasl_response
  Writes-sasl_response r h = Writes-bytes r.payload h

  pub Writes-dump :
      (d : Dump) → IsKeyValues d.headers → Writes (encode_dump d) (wire_headers d.headers)
  unfolding encode_dump
  Writes-dump d h = Writes-headers d.headers h

  pub Writes-restore_block : (b : RestoreBlock) → Writes (encode_restore_block b) b.payload
  unfolding encode_restore_block
  Writes-restore_block b = Writes-extend b.payload
