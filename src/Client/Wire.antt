-- ===== src/Client/Wire.antt =====
-- The bytes of each client message behind its frame's length, and the messages that fit the widths
-- of the format.
use Prim.Native.Nat.{bit_and}
use mathlib.Core.Option.{get_or}
use edgedb_rust.Base.{ℕ, ◌<◌, ◌≡◌, ◌≢◌, List, ◌++◌, Option, length}
use edgedb_rust.Base.HashMap.{list_eq}
use edgedb_rust.Wire.Extensions.{IsExtensions, wire_extension}
use edgedb_rust.Wire.{to_be_bytes}
use edgedb_rust.Wire.Encoder.Writes.{bytes_of_all}
use edgedb_rust.Wire.Encoding.RoundTrip.{
  IsU16, IsU64, IsBytes, IsText, IsUuid, IsKeyValues, IsAnnotations, wire_bytes, wire_headers,
  wire_annotation, wire_annotations,
}
use edgedb_rust.Protocol.{
  IoFormat, cardinality_u8, io_format_u8, aspect_u8, capabilities_all, compilation_flags_all,
}
use edgedb_rust.Client.Types.{
  ClientHandshake, ExecuteScript, Prepare, DescribeStatement, Execute0, Execute1, OptimisticExecute,
  Restore, Parse,
}

abbrev pub wire_client_handshake : ClientHandshake → List ℕ
wire_client_handshake h =
    to_be_bytes 2 h.major_ver
    ++ (to_be_bytes 2 h.minor_ver
        ++ (to_be_bytes 2 (length h.params)
            ++ (bytes_of_all wire_annotation h.params
                ++ (to_be_bytes 2 (length h.extensions)
                    ++ bytes_of_all wire_extension h.extensions))))

abbrev pub wire_execute_script : ExecuteScript → List ℕ
wire_execute_script s = wire_headers s.headers ++ wire_bytes s.script_text

abbrev pub wire_prepare : Prepare → List ℕ
wire_prepare p =
    wire_headers p.headers
    ++ (to_be_bytes 1 (io_format_u8 p.io_format)
        ++ (to_be_bytes 1 (cardinality_u8 p.expected_cardinality)
            ++ (wire_bytes p.statement_name ++ wire_bytes p.command_text)))

abbrev pub wire_describe_statement : DescribeStatement → List ℕ
wire_describe_statement d =
    to_be_bytes 2 (length d.headers)
    ++ (to_be_bytes 1 (aspect_u8 d.aspect) ++ wire_bytes d.statement_name)

abbrev pub wire_execute0 : Execute0 → List ℕ
wire_execute0 e = wire_headers e.headers ++ (wire_bytes e.statement_name ++ wire_bytes e.arguments)

abbrev pub wire_optimistic_execute : OptimisticExecute → List ℕ
wire_optimistic_execute e =
    wire_headers e.headers
    ++ (to_be_bytes 1 (io_format_u8 e.io_format)
        ++ (to_be_bytes 1 (cardinality_u8 e.expected_cardinality)
            ++ (wire_bytes e.command_text
                ++ (e.input_typedesc_id ++ (e.output_typedesc_id ++ wire_bytes e.arguments)))))

abbrev pub wire_parse : Parse → List ℕ
wire_parse p =
    wire_annotations p.annotations
    ++ (to_be_bytes 8 p.allowed_capabilities
        ++ (to_be_bytes 8 p.compilation_flags
            ++ (to_be_bytes 8 (get_or p.implicit_limit 0)
                ++ (to_be_bytes 1 (io_format_u8 p.output_format)
                    ++ (to_be_bytes 1 (cardinality_u8 p.expected_cardinality)
                        ++ (wire_bytes p.command_text
                            ++ (p.state_typedesc_id ++ wire_bytes p.state_data)))))))

abbrev pub wire_execute1 : Execute1 → List ℕ
wire_execute1 p =
    wire_annotations p.annotations
    ++ (to_be_bytes 8 p.allowed_capabilities
        ++ (to_be_bytes 8 p.compilation_flags
            ++ (to_be_bytes 8 (get_or p.implicit_limit 0)
                ++ (to_be_bytes 1 (io_format_u8 p.output_format)
                    ++ (to_be_bytes 1 (cardinality_u8 p.expected_cardinality)
                        ++ (wire_bytes p.command_text
                            ++ (p.state_typedesc_id
                                ++ (wire_bytes p.state_data
                                    ++ (p.input_typedesc_id
                                        ++ (p.output_typedesc_id ++ wire_bytes p.arguments))))))))))

abbrev pub wire_restore : Restore → List ℕ
wire_restore r = wire_headers r.headers ++ (to_be_bytes 2 r.jobs ++ r.payload)

pub record IsClientHandshake (h : ClientHandshake) : Type 0 where
  pub major : IsU16 h.major_ver
  pub minor : IsU16 h.minor_ver
  pub params_fit : IsAnnotations h.params
  pub extensions_fit : IsExtensions h.extensions

pub record IsPrepare (p : Prepare) : Type 0 where
  pub headers_fit : IsKeyValues p.headers
  pub format : p.io_format ≢ IoFormat.none
  pub name_fits : IsBytes p.statement_name
  pub text_fits : IsText p.command_text

pub record IsOptimisticExecute (e : OptimisticExecute) : Type 0 where
  pub headers_fit : IsKeyValues e.headers
  pub format : e.io_format ≢ IoFormat.none
  pub text_fits : IsText e.command_text
  pub input_id : IsUuid e.input_typedesc_id
  pub output_id : IsUuid e.output_typedesc_id
  pub arguments_fit : IsBytes e.arguments

-- A limit that is there is not 0, which is how none is written.
abbrev pub IsLimit : Option ℕ → Type 0
IsLimit Option.none = Unit {0}
IsLimit (Option.some n) = (0 < n) × IsU64 n

-- A set of flags that are all known.
abbrev pub IsFlags : (known bits : ℕ) → Type 0
IsFlags known bits = IsU64 bits × (bit_and bits known ≡ bits)

pub record IsParse (p : Parse) : Type 0 where
  pub annotations_fit : IsAnnotations p.annotations
  pub capabilities : IsFlags capabilities_all p.allowed_capabilities
  pub flags : IsFlags compilation_flags_all p.compilation_flags
  pub limit : IsLimit p.implicit_limit
  pub format : p.output_format ≢ IoFormat.none
  pub text_fits : IsText p.command_text
  pub state_id : IsUuid p.state_typedesc_id
  pub state_fits : IsBytes p.state_data

pub record IsExecute1 (p : Execute1) : Type 0 where
  pub annotations_fit : IsAnnotations p.annotations
  pub capabilities : IsFlags capabilities_all p.allowed_capabilities
  pub flags : IsFlags compilation_flags_all p.compilation_flags
  pub limit : IsLimit p.implicit_limit
  pub format : p.output_format ≢ IoFormat.none
  pub text_fits : IsText p.command_text
  pub state_id : IsUuid p.state_typedesc_id
  pub state_fits : IsBytes p.state_data
  pub input_id : IsUuid p.input_typedesc_id
  pub output_id : IsUuid p.output_typedesc_id
  pub arguments_fit : IsBytes p.arguments
