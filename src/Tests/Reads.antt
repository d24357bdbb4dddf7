-- ===== src/Tests/Reads.antt =====
-- Fetches from the partition with the sample batch.
use immulog.Prelude.{
  ℕ, ◌+◌, ◌-◌, ◌<◌, arith, subst, sym, ◌≡◌, refl, false, List, [], ◌∷◌, ◌++◌, length, if◌then◌else◌,
}
use immulog.Prelude.Int.{pos}
use immulog.Api.{FetchResult}
use immulog.Api.Errors.{ok}
use immulog.Format.Segment.{encode_segment_header}
use immulog.Codec.Batch.{decode_batch}
use immulog.Partition.{Segment, segments}
use immulog.Fetch.{FetchOptions}
use immulog.Fetch.Scan.{fetch_batches, OffsetIndexEntry, fetch}
use immulog.Fetch.Reader.{Reader, reader_fetch}
use immulog.Fetch.Serve.{Served, fetch-Served, IsOnward, reader_fetch-IsOnward}
use immulog.Fetch.Fuel.{fetch_batches-enough}
use immulog.Tests.Samples.{first_partition, first_record, appended_partition, batch_length}

abbrev no_hints : Segment → List OffsetIndexEntry
no_hints s = []

abbrev defaults : FetchOptions
defaults = record { max_records = 0; max_bytes = 0; max_wait = pos 0 }

abbrev reader : Reader
reader = record { next = 0; closed = false }

abbrev limited : FetchOptions
limited = record { max_records = 16; max_bytes = 4096; max_wait = pos 0 }

abbrev nothing : FetchResult
nothing = record { records = []; next_offset = 0 }

active_size : appended_partition.active.size - 72 < 500
unfolding immulog.Codec.Batch.encode_batch
active_size = omega (arith, batch_length)

fetch-Served_example :
    Served appended_partition 0 defaults (fetch no_hints appended_partition 0 defaults)
fetch-Served_example = fetch-Served no_hints appended_partition 0 defaults

reader_fetch-IsOnward_example : IsOnward (reader_fetch no_hints first_partition reader defaults) (
    reader_fetch no_hints appended_partition
      (reader_fetch no_hints first_partition reader defaults).1
      defaults)
reader_fetch-IsOnward_example =
    reader_fetch-IsOnward no_hints first_partition appended_partition reader defaults defaults

fetch_batches-enough_example :
    fetch_batches (1000 + 500) appended_partition appended_partition.active limited 0 72 nothing 0
    ≡ fetch_batches 500 appended_partition appended_partition.active limited 0 72 nothing 0
fetch_batches-enough_example =
    fetch_batches-enough 1000 500 appended_partition appended_partition.active limited 0 72 nothing
      0 active_size

-- The fetch finds the record.
fetch_run :
    fetch no_hints appended_partition 0 defaults
    ≡ (ok (record { records = first_record ∷ []; next_offset = 1 }), appended_partition)
unfolding fetch immulog.Fetch.normalize_fetch_options immulog.Fetch.Scan.validate_read_offset
    immulog.Fetch.Scan.fetch_segments immulog.Fetch.Scan.start_position
    immulog.Fetch.Scan.fetch_batches immulog.Codec.Batch.encode_batch immulog.Api.is_zero
    immulog.Format.valid_offset_range immulog.Codec.Batch.encode_records
    immulog.Codec.Batch.misplaced immulog.Codec.Record.encode_record
    immulog.Codec.Cursor.append_nullable immulog.Codec.Record.append_headers
    immulog.Format.valid_header_name immulog.Format.Utf8.valid_utf8
    immulog.Codec.Record.append_value_length immulog.Codec.Record.append_value
    immulog.Codec.Batch.check_batch_frame immulog.Codec.Batch.check_batch_sizes decode_batch
    immulog.Codec.Batch.decode_records immulog.Codec.Batch.later immulog.Codec.Cursor.append_u32
    immulog.Codec.Cursor.read_bytes immulog.Codec.Cursor.read_nullable immulog.Codec.Cursor.read_u32
    immulog.Codec.Record.decode_prefixed immulog.Codec.Record.read_fields
    immulog.Codec.Record.read_headers immulog.Codec.Record.read_value
    immulog.Codec.Record.unexpected immulog.Fetch.Scan.read_batch immulog.Fetch.take_records
    immulog.Format.Checksum.crc32c immulog.Format.LittleEndian.bytes_eq
    immulog.Format.LittleEndian.slice immulog.Format.LittleEndian.u16
    immulog.Format.LittleEndian.u32 immulog.Format.LittleEndian.u64
    immulog.Partition.Sizes.add_header_sizes immulog.Partition.Sizes.checked_add
    immulog.Partition.Sizes.record_encoded_bytes immulog.Prelude.Arrays.array_eq
    immulog.Prelude.Int.int_of_uint64 immulog.Prelude.Int.uint64_of_int encode_segment_header
fetch_run = refl
