-- ===== src/Protocol/Tests.antt =====
-- The theorems on versions and enumerations at concrete inputs.
use edgedb_rust.Base.{◌≡◌, ◌≢◌, ◌↔◌, ok}
use edgedb_rust.Protocol.{
  ProtocolVersion, IoFormat, io_format_u8, io_format_from_u8, io_format_from_u8_iff,
}

abbrev v0 : ProtocolVersion
v0 = record { major_ver = 0; minor_ver = 9 }

io_format_from_u8_iff_example :
    (io_format_from_u8 0x6e ≡ ok IoFormat.none)
    ↔ ((io_format_u8 IoFormat.none ≡ 0x6e) × (IoFormat.none ≢ IoFormat.none))
io_format_from_u8_iff_example = io_format_from_u8_iff 0x6e IoFormat.none
