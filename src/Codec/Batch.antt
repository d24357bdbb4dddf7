-- ===== src/Codec/Batch.antt =====
-- `EncodeBatch` and `DecodeBatch` of storage/codec.go.
use immulog.Prelude.{
  ℕ, zero, suc, ◌+◌, ◌-◌, ◌*◌, ◌%◌, ◌^◌, Bool, not, ◌||◌, some, List, [], ◌∷◌, ◌++◌, length, drop,
  replicate, ltb, ◌==◌, ◌!=◌, if◌then◌else◌,
}
use immulog.Prelude.Arrays.{array_eq}
use immulog.Prelude.Int.{ℤ, int_lt, int_eq, min_int64, uint64_of_int, int_of_uint64}
use immulog.Api.{Record, RecordBatch, TopicId, is_zero}
use immulog.Api.Errors.{
  Result, ok, corrupt, invalid, join, unsupported, record_too_large, invalid_batch, reject_if,
  ◌>>=◌, ◌>>◌,
}
use immulog.Format.{
  max_uint32, max_batch_records, max_batch_bytes, batch_header_bytes, batch_trailer_bytes,
  record_prefix_bytes, format_version, valid_offset_range,
}
use immulog.Format.LittleEndian.{le, write, slice, u16, u32, u64, bytes_eq}
use immulog.Format.Checksum.{crc32c}
use immulog.Codec.Record.{encode_record, decode_prefixed}

-- "IELB"
abbrev pub batch_magic : List ℕ
batch_magic = b'I' ∷ b'E' ∷ b'L' ∷ b'B' ∷ []

-- `if record.Timestamp > maxTimestamp { maxTimestamp = record.Timestamp }`
unfoldable pub later : ℤ → ℤ → ℤ
later t max_timestamp = if int_lt max_timestamp t then t else max_timestamp

-- The test that ties a record to its batch; the sum of offsets is a uint64.
unfoldable pub misplaced : RecordBatch → ℕ → Record → Bool
misplaced b index r =
    not (array_eq 16 r.topic b.topic)
    || r.partition != b.partition
    || r.offset != (b.base_offset + index) % 2 ^ 64

-- The loop of `EncodeBatch`: the records' bytes and the largest timestamp.
unfoldable pub encode_records : RecordBatch → ℕ → ℤ → List ℕ → List Record → Result (List ℕ × ℤ)
encode_records b index max_timestamp body [] = ok (body, max_timestamp)
encode_records b index max_timestamp body (r ∷ rs) = do
  reject_if (misplaced b index r)
      (invalid invalid_batch "records do not match batch identity or order")
  encoded ← encode_record r b.base_offset
  encode_records b (index + 1) (later r.timestamp max_timestamp) (body ++ encoded) rs

-- `data[:48]` before and after its checksum is written.
abbrev pub unsealed_batch_header : RecordBatch → ℤ → ℕ → List ℕ
unsealed_batch_header b max_timestamp total =
    let d0 = write 0 batch_magic (replicate batch_header_bytes 0) in
    let d1 = write 4 (le 2 format_version) d0 in
    let d2 = write 6 (le 2 batch_header_bytes) d1 in
    let d3 = write 8 (le 4 total) d2 in
    let d4 = write 12 (le 4 (length b.records)) d3 in
    let d5 = write 16 (le 8 b.base_offset) d4 in
    let d6 = write 24 (le 8 (uint64_of_int max_timestamp)) d5 in write 36 (le 2 format_version) d6

abbrev pub batch_header : RecordBatch → ℤ → ℕ → List ℕ
batch_header b max_timestamp total =
    let d = unsealed_batch_header b max_timestamp total in write 44 (le 4 (crc32c (slice 0 44 d))) d

-- `data` is made `total` bytes long: header, records and trailer fill it exactly.
unfoldable pub encode_batch : RecordBatch → Result (List ℕ)
encode_batch b = do
  reject_if (is_zero b.topic || length b.records == 0 || ltb max_batch_records (length b.records))
      (invalid invalid_batch "invalid topic or record count")
  reject_if (not (valid_offset_range b.base_offset (length b.records)))
      (invalid invalid_batch "batch offset range is outside v1 limits")
  (body, max_timestamp) ← encode_records b 0 min_int64 [] b.records
  let total = batch_header_bytes + length body + batch_trailer_bytes
  reject_if (ltb max_batch_bytes total || ltb max_uint32 total)
      (join (record_too_large ∷ invalid_batch ∷ []) "")
  let front = batch_header b max_timestamp total ++ body
  ok (front ++ le 4 (crc32c front))

-- The tests of `DecodeBatch` on the header alone, up to the topic's.
unfoldable pub check_batch_frame : List ℕ → TopicId → Result (Unit {0})
check_batch_frame d topic = do
  reject_if (ltb (length d) batch_header_bytes) (corrupt invalid_batch "incomplete batch header")
  reject_if (not (bytes_eq (slice 0 4 d) batch_magic))
      (corrupt invalid_batch "batch magic mismatch")
  reject_if (u16 6 d != batch_header_bytes) (corrupt invalid_batch "batch header size mismatch")
  reject_if (u32 44 d != crc32c (slice 0 44 d))
      (corrupt invalid_batch "batch header checksum mismatch")
  reject_if (u16 4 d != format_version || u16 36 d != format_version)
      (unsupported "unsupported batch or record encoding version")
  reject_if (u32 32 d != 0 || u16 38 d != 0 || u32 40 d != 0)
      (corrupt invalid_batch "nonzero reserved or required batch attributes")
  reject_if (is_zero topic) (corrupt invalid_batch "batch topic identity is zero")

-- The tests on the declared sizes, and the checksum over the whole batch. The third subtracts
-- only where the first has shown that `total` is large enough.
unfoldable pub check_batch_sizes : List ℕ → Result (Unit {0})
check_batch_sizes d = do
  let total = u32 8 d
  let count = u32 12 d
  reject_if
      (count == 0
        || ltb max_batch_records count
        || ltb total (batch_header_bytes + batch_trailer_bytes + record_prefix_bytes)
        || ltb max_batch_bytes total)
      (corrupt invalid_batch "batch length or record count outside v1 limits")
  reject_if (not (valid_offset_range (u64 16 d) count))
      (corrupt invalid_batch "batch offset range is outside v1 limits")
  reject_if (ltb (total - batch_header_bytes - batch_trailer_bytes) (count * record_prefix_bytes))
      (corrupt invalid_batch "batch cannot contain its declared records")
  reject_if (total != length d) (corrupt invalid_batch "batch has incomplete or trailing bytes")
  let trailer = length d - batch_trailer_bytes
  reject_if (u32 trailer d != crc32c (slice 0 trailer d))
      (corrupt invalid_batch "batch checksum mismatch")

-- The loop of `DecodeBatch` over the `count` records that are left. `body` is
-- `data[position : len(data)-4]`; the result holds what is left of it.
unfoldable pub decode_records :
    ℕ → TopicId → ℕ → ℕ → ℕ → ℤ → List ℕ → Result (List Record × ℤ × List ℕ)
decode_records base topic partition index zero max_timestamp body = ok ([], max_timestamp, body)
decode_records base topic partition index (suc count) max_timestamp body = do
  reject_if (ltb (length body) record_prefix_bytes)
      (corrupt invalid_batch "record prefix exceeds batch body")
  let n = u32 0 body
  reject_if (ltb n record_prefix_bytes || ltb (length body) n)
      (corrupt invalid_batch "record length exceeds batch body")
  (r, consumed) ← decode_prefixed (slice 0 n body) base topic partition (some index)
  reject_if (consumed != n) (corrupt invalid_batch "record decoder consumed unexpected bytes")
  (rs, m, rest) ←
      decode_records base topic partition (index + 1) count (later r.timestamp max_timestamp)
        (drop n body)
  ok (r ∷ rs, m, rest)

unfoldable pub decode_batch : List ℕ → TopicId → ℕ → Result RecordBatch
decode_batch d topic partition = do
  check_batch_frame d topic
  check_batch_sizes d
  (rs, max_timestamp, rest) ←
      decode_records (u64 16 d) topic partition 0 (u32 12 d) min_int64
        (slice batch_header_bytes (length d - batch_trailer_bytes - batch_header_bytes) d)
  reject_if (length rest != 0) (corrupt invalid_batch "trailing bytes after declared records")
  reject_if (not (int_eq (int_of_uint64 (u64 24 d)) max_timestamp))
      (corrupt invalid_batch "batch maximum timestamp mismatch")
  ok (record { topic = topic; partition = partition; base_offset = u64 16 d; records = rs })
