-- ===== src/Format.antt =====
-- storage/format.go: the constants of the on-disk format, the byte order, and the segment header.
pub mod LittleEndian
pub mod Checksum
pub mod Utf8
pub mod Segment
use immulog.Prelude.{ℕ, ◌+◌, ◌-◌, ◌*◌, ◌%◌, ◌^◌, Bool, ◌&&◌, List, length, ltb, leb}
use Utf8.{valid_utf8}

abbrev pub segment_header_bytes : ℕ
segment_header_bytes = 72

abbrev pub batch_header_bytes : ℕ
batch_header_bytes = 48

abbrev pub batch_trailer_bytes : ℕ
batch_trailer_bytes = 4

abbrev pub record_prefix_bytes : ℕ
record_prefix_bytes = 28

abbrev pub format_version : ℕ
format_version = 1

abbrev pub max_batch_bytes : ℕ
max_batch_bytes = 64 * 1024 * 1024

abbrev pub max_record_bytes : ℕ
max_record_bytes = 16 * 1024 * 1024

abbrev pub max_batch_records : ℕ
max_batch_records = 65536

abbrev pub max_record_headers : ℕ
max_record_headers = 1024

abbrev pub max_header_name_bytes : ℕ
max_header_name_bytes = 65535

abbrev pub max_uint32 : ℕ
max_uint32 = 2 ^ 32 - 1

abbrev pub max_uint64 : ℕ
max_uint64 = 2 ^ 64 - 1

abbrev pub max_int32 : ℕ
max_int32 = 2 ^ 31 - 1

abbrev pub null_bytes_length : ℕ
null_bytes_length = 2 ^ 32 - 1

abbrev pub max_offset : ℕ
max_offset = 2 ^ 63 - 1

unfoldable pub valid_header_name : List ℕ → Bool
valid_header_name name = valid_utf8 name && leb (length name) max_header_name_bytes

-- `base + uint64(count)` is a uint64 sum; the test on `base` before it keeps it from wrapping.
unfoldable pub valid_offset_range : ℕ → ℕ → Bool
valid_offset_range base count =
    leb base max_offset && ltb 0 count && leb ((base + count) % 2 ^ 64) max_offset
