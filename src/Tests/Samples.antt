-- ===== src/Tests/Samples.antt =====
-- Sample data: a topic, a record, a batch, a segment and a partition.
use immulog.Prelude.{
  ℕ, ◌+◌, ◌^◌, ◌≡◌, refl, subst, Bool, true, false, Option, none, some, List, [], ◌∷◌, length,
  arith,
}
use immulog.Prelude.Arrays.{Array, of_bytes}
use immulog.Prelude.Int.{ℤ, pos, min_int64}
use immulog.Api.{TopicId, SegmentId, Record, RecordBatch, is_zero}
use immulog.Api.Errors.{Result, ok, err}
use immulog.Format.LittleEndian.{slice, u64}
use immulog.Format.Checksum.{crc32c}
use immulog.Format.Utf8.{valid_utf8}
use immulog.Format.Segment.{SegmentHeader, encode_segment_header}
use immulog.Codec.Batch.{encode_batch}
use immulog.Codec.Record.{encode_record}
use immulog.Partition.{Segment, Limits, Partition}
use immulog.Partition.Append.{append_batch, extend, Answers, create_segment}
use immulog.Partition.Invariant.{IsValid}
use immulog.Codec.BatchTrip.Records.{IsTimed}
use immulog.Partition.Appends.{Outcome}
use immulog.Partition.Batches.{append_batch-Outcome}
use immulog.Partition.Open.{opened_partition, open_partition, open_files, sort_by_base}
use immulog.Partition.Names.{discover_segments}
use immulog.Partition.Reopen.{open_partition-empty}

-- The check value of CRC-32C, over the text "123456789".
crc32c_check :
    crc32c (0x31 ∷ 0x32 ∷ 0x33 ∷ 0x34 ∷ 0x35 ∷ 0x36 ∷ 0x37 ∷ 0x38 ∷ 0x39 ∷ []) ≡ 0xe3069283
unfolding crc32c
crc32c_check = refl

-- "aé€" is valid; a surrogate and an overlong form are not.
valid_utf8_runs :
    (valid_utf8 (0x61 ∷ 0xc3 ∷ 0xa9 ∷ 0xe2 ∷ 0x82 ∷ 0xac ∷ []) ≡ true)
    × (valid_utf8 (0xed ∷ 0xa0 ∷ 0x80 ∷ []) ≡ false)
    × (valid_utf8 (0xe0 ∷ 0x80 ∷ 0x80 ∷ []) ≡ false)
unfolding valid_utf8
valid_utf8_runs = (refl, refl, refl)

abbrev pub value_of : Result (List ℕ) → List ℕ
value_of (ok d) = d
value_of (err e) = []

abbrev pub topic : TopicId
topic = of_bytes 16 (7 ∷ 1 ∷ [])

abbrev pub segment_id : SegmentId
segment_id = of_bytes 16 (9 ∷ [])

abbrev pub first_record : Record
first_record = record {
  topic = topic;
  partition = 0;
  offset = 0;
  timestamp = pos 5;
  key = none;
  value = some (1 ∷ 2 ∷ []);
  headers = record { name = 104 ∷ []; value = none } ∷ [];
}

abbrev pub first_batch : RecordBatch
first_batch = record { topic = topic; partition = 0; base_offset = 0; records = first_record ∷ [] }

abbrev pub first_header : SegmentHeader
first_header = record { topic = topic; partition = 0; base_offset = 0; id = segment_id }

abbrev pub limits : Limits
limits = record { segment_bytes = 4096; batch_bytes = 1024; batch_records = 16; record_bytes = 512 }

abbrev pub answers : Answers
answers = record { created = some segment_id; written = 99; write_failed = false; synced = true }

-- The partition that opening an empty directory makes.
abbrev pub first_segment : Segment
first_segment = record {
  header = first_header;
  end = 0;
  size = 72;
  records = 0;
  max_time = min_int64;
  batches = [];
  content = value_of (encode_segment_header first_header);
}

abbrev pub first_partition : Partition
first_partition = opened_partition topic 0 limits [] first_segment

pub encoded_header :
    encode_segment_header first_header ≡ ok (value_of (encode_segment_header first_header))
unfolding encode_segment_header is_zero crc32c slice
encoded_header = refl

pub first_opened : open_partition topic 0 limits 0 (some segment_id) [] ≡ ok first_partition
unfolding open_partition open_files discover_segments sort_by_base create_segment
first_opened = rw encoded_header refl

pub first-IsValid : IsValid 0 first_partition
first-IsValid =
    (open_partition-empty topic 0 limits 0 (some segment_id) first_partition first_opened).0

pub encoded_first_record :
    encode_record first_record 0 ≡ ok (value_of (encode_record first_record 0))
unfolding encode_record immulog.Codec.Cursor.append_nullable immulog.Codec.Record.append_headers
    immulog.Format.valid_header_name valid_utf8 immulog.Codec.Record.append_value_length
    immulog.Codec.Record.append_value
encoded_first_record = refl

pub encoded_first_batch : encode_batch first_batch ≡ ok (value_of (encode_batch first_batch))
unfolding encode_batch is_zero immulog.Format.valid_offset_range immulog.Codec.Batch.encode_records
    immulog.Codec.Batch.misplaced encode_record immulog.Codec.Cursor.append_nullable
    immulog.Codec.Record.append_headers immulog.Format.valid_header_name valid_utf8
    immulog.Codec.Record.append_value_length immulog.Codec.Record.append_value
encoded_first_batch = refl

abbrev pub record_bytes : List ℕ
record_bytes = value_of (encode_record first_record 0)

abbrev pub batch_bytes : List ℕ
batch_bytes = value_of (encode_batch first_batch)

pub timed : IsTimed first_batch.records
timed = (omega arith, tt)

-- The partition behind an append of the batch.
abbrev pub appended_partition : Partition
appended_partition = record first_partition {
  active = extend first_segment first_batch batch_bytes;
  log_end = 1;
}

pub appended : append_batch first_partition first_batch answers ≡ (ok 0, appended_partition)
unfolding append_batch immulog.Partition.Sizes.batch_encoded_bytes
    immulog.Partition.Sizes.add_record_sizes immulog.Partition.Sizes.record_encoded_bytes
    immulog.Partition.Sizes.add_header_sizes immulog.Format.valid_header_name valid_utf8
    immulog.Partition.Sizes.checked_add encode_batch is_zero immulog.Format.valid_offset_range
    immulog.Codec.Batch.encode_records immulog.Codec.Batch.misplaced encode_record
    immulog.Codec.Cursor.append_nullable immulog.Codec.Record.append_headers
    immulog.Codec.Record.append_value_length immulog.Codec.Record.append_value
    immulog.Codec.Batch.later immulog.Codec.Cursor.append_u32 crc32c slice u64 encode_segment_header
    immulog.Partition.Append.append_encoded immulog.Partition.Append.check_append
    immulog.Partition.Append.check_record_sizes create_segment immulog.Partition.Append.roll
    immulog.Partition.Append.write_batch immulog.Partition.Recover.latest
    immulog.Prelude.Arrays.array_eq immulog.Prelude.Int.int_of_uint64
    immulog.Prelude.Int.uint64_of_int
appended = refl

pub appended-IsValid : IsValid 0 appended_partition
appended-IsValid =
    (subst (Outcome 0 first_partition first_batch) appended
      (append_batch-Outcome 0 first_partition first_batch answers first-IsValid timed)).3

pub batch_length : length batch_bytes ≡ 99
unfolding encode_batch is_zero immulog.Format.valid_offset_range immulog.Codec.Batch.encode_records
    immulog.Codec.Batch.misplaced encode_record immulog.Codec.Cursor.append_nullable
    immulog.Codec.Record.append_headers immulog.Format.valid_header_name valid_utf8
    immulog.Codec.Record.append_value_length immulog.Codec.Record.append_value
batch_length = refl
