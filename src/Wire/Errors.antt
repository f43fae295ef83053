-- ===== src/Wire/Errors.antt =====
-- edgedb-protocol/src/errors.rs: why a frame cannot be read or written. A backtrace is left out,
-- and a source error too.
use edgedb_rust.Base.{ℕ, List}

pub data DecodeError : Type 0 where
  underflow extra_data invalid_utf8 : DecodeError
  auth_status_invalid : (auth_status : ℕ) → DecodeError
  invalid_transaction_state : (transaction_state : ℕ) → DecodeError
  invalid_io_format : (io_format : ℕ) → DecodeError
  invalid_cardinality : (cardinality : ℕ) → DecodeError
  invalid_capabilities : (capabilities : ℕ) → DecodeError
  invalid_compilation_flags : (compilation_flags : ℕ) → DecodeError
  invalid_aspect : (aspect : ℕ) → DecodeError
  invalid_type_descriptor : (descriptor : ℕ) → DecodeError
  invalid_uuid non_zero_reserved_bytes object_size_mismatch tuple_size_mismatch : DecodeError
  invalid_marker invalid_set_shape invalid_array_shape invalid_array_or_set_shape : DecodeError
  bad_sign invalid_bool invalid_date invalid_json_format extra_enum_value : DecodeError
  too_many_descriptors : (index : ℕ) → DecodeError
  invalid_index : (index : ℕ) → DecodeError
  uuid_not_found : (uuid : List ℕ) → DecodeError
  decode_value missing_required_element : DecodeError

pub data EncodeError : Type 0 where
  message_too_long string_too_long too_many_extensions too_many_headers : EncodeError
  too_many_params too_many_attributes too_many_methods too_many_elements : EncodeError
  element_too_long array_too_long big_int_too_long decimal_too_long : EncodeError
  unknown_message_cant_be_encoded invalid_value object_shape_mismatch datetime_range : EncodeError
  tuple_shape_mismatch missing_enum_value : EncodeError
