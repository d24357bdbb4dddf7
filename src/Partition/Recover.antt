-- ===== src/Partition/Recover.antt =====
-- `recoverSegment` and `canTruncateTail` of storage/partition.go, over the bytes of the file. The
-- base offset in the file's name stands for the name, which is the 20 digits of that offset.
use immulog.Prelude.{
  ℕ, zero, suc, ◌+◌, Bool, true, false, not, ◌&&◌, ◌||◌, List, [], ◌∷◌, ◌++◌, length, drop, ltb,
  leb, ◌==◌, ◌!=◌, if◌then◌else◌,
}
use immulog.Prelude.Int.{ℤ, min_int64, int_of_uint64}
use immulog.Api.{Record, RecordBatch, TopicId}
use immulog.Api.Errors.{
  Result, ok, err, corrupt, invalid_batch, invalid_segment, reject_if, ◌>>=◌, ◌>>◌,
}
use immulog.Format.{
  batch_header_bytes, batch_trailer_bytes, record_prefix_bytes, max_batch_bytes, max_batch_records,
  segment_header_bytes, format_version, valid_offset_range,
}
use immulog.Format.LittleEndian.{slice, u16, u32, u64, bytes_eq}
use immulog.Format.Checksum.{crc32c}
use immulog.Format.Segment.{decode_segment_header}
use immulog.Codec.Batch.{batch_magic, later, decode_batch}
use immulog.Partition.{BatchInfo, Segment}

-- A complete, valid batch header whose declared end lies behind the end of the file.
unfoldable pub can_truncate_tail : List ℕ → ℕ → Bool
can_truncate_tail d expected_offset =
    leb batch_header_bytes (length d)
    && bytes_eq (slice 0 4 d) batch_magic
    && u16 6 d == batch_header_bytes
    && u32 44 d == crc32c (slice 0 44 d)
    && u16 4 d == format_version
    && u16 36 d == format_version
    && u32 32 d == 0
    && u16 38 d == 0
    && u32 40 d == 0
    && leb (batch_header_bytes + batch_trailer_bytes + record_prefix_bytes) (u32 8 d)
    && leb (u32 8 d) max_batch_bytes
    && ltb 0 (u32 12 d)
    && leb (u32 12 d) max_batch_records
    && valid_offset_range (u64 16 d) (u32 12 d)
    && u64 16 d == expected_offset
    && ltb (length d) (u32 8 d)

-- The loop over a batch's records that keeps the largest timestamp.
unfoldable pub latest : ℤ → List Record → ℤ
latest m [] = m
latest m (r ∷ rs) = latest (later r.timestamp m) rs

-- The variables of the loop.
pub record Scan : Type 0 where
  pub current : ℕ
  pub position : ℕ
  pub records : ℕ
  pub max_time : ℤ
  pub batches : List BatchInfo

-- The state behind a decoded batch of `n` bytes.
abbrev pub advance : Scan → ℕ → RecordBatch → ℤ → Scan
advance s n b max_time = record {
  current = s.current + length b.records;
  position = s.position + n;
  records = s.records + length b.records;
  max_time = latest s.max_time b.records;
  batches =
      s.batches
      ++ (record {
        base = b.base_offset;
        position = s.position;
        bytes = n;
        records = length b.records;
        max_time = max_time;
      }
          ∷ []);
}

-- The scan, and whether a torn tail was cut off. `d` is `data[position:]`. Each round takes at
-- least 52 bytes, so more fuel than there are bytes changes nothing.
unfoldable pub scan_batches : ℕ → TopicId → ℕ → Bool → Scan → List ℕ → Result (Scan × Bool)
scan_batches zero topic partition final s d = ok (s, false)
scan_batches (suc fuel) topic partition final s [] = ok (s, false)
scan_batches (suc fuel) topic partition final s (x ∷ xs) = do
  let d = x ∷ xs
  let n = u32 8 d
  reject_if (ltb (length d) batch_header_bytes) (corrupt invalid_batch "partial batch header")
  if ltb (length d) n
      then (if final && can_truncate_tail d s.current
          then ok (s, true)
          else err (corrupt invalid_batch "incomplete batch body"))
      else (do
        reject_if (ltb n (batch_header_bytes + batch_trailer_bytes))
            (corrupt invalid_batch "invalid batch length")
        b ← decode_batch (slice 0 n d) topic partition
        reject_if (b.base_offset != s.current)
            (corrupt invalid_batch "batch base offset is not the expected next offset")
        scan_batches fuel topic partition final (advance s n b (int_of_uint64 (u64 24 d)))
            (drop n d))

abbrev pub scan_start : ℕ → Scan
scan_start base = record {
  current = base;
  position = segment_header_bytes;
  records = 0;
  max_time = min_int64;
  batches = [];
}

-- The recovered segment and the file's bytes, without a torn tail. The file is read as a whole and a
-- truncation takes place; what fails of that in the file system is left out.
unfoldable pub recover_segment : List ℕ → ℕ → TopicId → ℕ → Bool → ℕ → Result Segment
recover_segment d name_base topic partition final expected = do
  reject_if (ltb (length d) segment_header_bytes)
      (corrupt invalid_segment "segment is shorter than its header")
  header ← decode_segment_header (slice 0 segment_header_bytes d) topic partition
  reject_if (name_base != header.base_offset || header.base_offset != expected)
      (corrupt invalid_segment "segment header/path/order mismatch")
  (s, torn) ←
      scan_batches (suc (length d)) topic partition final (scan_start header.base_offset)
        (drop segment_header_bytes d)
  reject_if (not final && s.records == 0) (corrupt invalid_segment "non-final segment is empty")
  ok (record {
    header = header;
    end = s.current;
    size = s.position;
    records = s.records;
    max_time = s.max_time;
    batches = s.batches;
    content = slice 0 s.position d;
  })
