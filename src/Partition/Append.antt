-- ===== src/Partition/Append.antt =====
-- `appendEncodedLocked` of storage/append_encoded.go and `AppendBatch` of storage/partition.go.
-- What the file system answers is an argument: the identifier of a segment that `createSegment`
-- makes, how many bytes `fileWriteAt` writes, whether it reports an error, and whether `fileSync`
-- succeeds.
use immulog.Prelude.{
  ℕ, ◌+◌, Bool, true, not, ◌||◌, Option, none, some, List, [], ◌∷◌, ◌++◌, length, take, ltb, ◌==◌,
  ◌!=◌, if◌then◌else◌,
}
use immulog.Prelude.Arrays.{array_eq}
use immulog.Prelude.Int.{min_int64, int_of_uint64}
use immulog.Api.{Record, RecordBatch, SegmentId, TopicId}
use immulog.Api.Errors.{
  Result, ok, err, join, closed, closing, partition_unavailable, append_outcome_unknown,
  invalid_argument, record_too_large, system, reject_if, ◌>>=◌, ◌>>◌,
}
use immulog.Format.{segment_header_bytes}
use immulog.Format.LittleEndian.{u64}
use immulog.Format.Segment.{SegmentHeader, encode_segment_header}
use immulog.Codec.Batch.{encode_batch}
use immulog.Partition.{Segment, Partition}
use immulog.Partition.Sizes.{record_encoded_bytes, batch_encoded_bytes}
use immulog.Partition.Recover.{latest}

-- The answers of the file system in one append.
pub record Answers : Type 0 where
  pub created : Option SegmentId
  pub written : ℕ
  pub write_failed : Bool
  pub synced : Bool

-- `createSegment`: a fresh segment whose file holds its header. The identifier is random and is
-- never zero; `none` is any failure of the file system, or a file that is there already.
unfoldable pub create_segment : TopicId → ℕ → ℕ → Option SegmentId → Result Segment
create_segment topic partition base none = err (join (system ∷ []) "create segment")
create_segment topic partition base (some id) = do
  let header : SegmentHeader = record {
    topic = topic;
    partition = partition;
    base_offset = base;
    id = id;
  }
  encoded ← encode_segment_header header
  ok (record {
    header = header;
    end = base;
    size = segment_header_bytes;
    records = 0;
    max_time = min_int64;
    batches = [];
    content = encoded;
  })

unfoldable pub check_record_sizes : ℕ → List Record → Result (Unit {0})
check_record_sizes limit [] = ok tt
check_record_sizes limit (r ∷ rs) = do
  size ← record_encoded_bytes r
  reject_if (ltb limit size) (join (record_too_large ∷ []) "record exceeds configured writer limit")
  check_record_sizes limit rs

-- The tests before anything is written.
unfoldable pub check_append : Partition → RecordBatch → List ℕ → Result (Unit {0})
check_append p b encoded = do
  reject_if p.closed (join (closed ∷ []) "")
  reject_if p.unavailable (join (partition_unavailable ∷ []) "")
  reject_if
      (not (array_eq 16 b.topic p.topic)
        || b.partition != p.partition
        || b.base_offset != p.log_end)
      (join (invalid_argument ∷ []) "batch does not match partition next offset")
  reject_if
      (length b.records == 0
        || ltb p.limits.batch_records (length b.records)
        || ltb p.limits.batch_bytes (length encoded))
      (join (record_too_large ∷ []) "batch exceeds configured writer limits")
  check_record_sizes p.limits.record_bytes b.records

-- `p.unavailable = true`
abbrev pub fence : Partition → Partition
fence p = record p { unavailable = true }

-- The active segment behind a batch that was written and synchronized.
abbrev pub extend : Segment → RecordBatch → List ℕ → Segment
extend s b encoded = record s {
  end = s.end + length b.records;
  size = s.size + length encoded;
  records = s.records + length b.records;
  max_time = latest s.max_time b.records;
  batches =
      s.batches
      ++ (record {
        base = b.base_offset;
        position = s.size;
        bytes = length encoded;
        records = length b.records;
        max_time = int_of_uint64 (u64 24 encoded);
      }
          ∷ []);
  content = s.content ++ encoded;
}

-- The write and the synchronization at the end of the active segment. Whatever was written stays
-- in the file, and a failure fences the partition.
unfoldable pub write_batch : Partition → RecordBatch → List ℕ → Answers → Result ℕ × Partition
write_batch p b encoded a =
    if a.write_failed || a.written != length encoded
    then (
      err (join (append_outcome_unknown ∷ partition_unavailable ∷ []) "short write"),
      fence (record p {
        active = record p.active { content = p.active.content ++ take a.written encoded };
      }),
    )
    else if not a.synced
    then (
      err (join (append_outcome_unknown ∷ partition_unavailable ∷ []) "sync"),
      fence (record p { active = record p.active { content = p.active.content ++ encoded } }),
    )
    else (
      ok b.base_offset,
      record p { active = extend p.active b encoded; log_end = p.active.end + length b.records },
    )

-- The rollover: the active segment is sealed and a new one takes the batch.
unfoldable pub roll : Partition → Segment → Partition
roll p rolled = record p { sealed = p.sealed ++ (p.active ∷ []); active = rolled }

unfoldable pub append_encoded : Partition → RecordBatch → List ℕ → Answers → Result ℕ × Partition
append_encoded p b encoded a = elim (check_append p b encoded) [
  | err e ↦ (err e, p)
  | ok _ ↦
      if ltb p.limits.segment_bytes (length encoded + p.active.size)
      then (if p.active.records == 0
          then (err (join (record_too_large ∷ []) "batch cannot fit in configured segment"), p)
          else (elim (create_segment p.topic p.partition p.log_end a.created) [
            | err e ↦ (err (join (partition_unavailable ∷ []) "create segment"), fence p)
            | ok rolled ↦ write_batch (roll p rolled) b encoded a
          ]))
      else write_batch p b encoded a
]

-- `AppendBatch` of a partition that stands alone: without the store's closing flag, the queue's
-- own flags, which `closing` and `closed` stand for, and the disk reservation.
unfoldable pub append_batch : Partition → RecordBatch → Answers → Result ℕ × Partition
append_batch p b a =
    elim (do
      reject_if p.closed (join (closed ∷ []) "")
      reject_if p.closing (join (closing ∷ []) "")
      estimated ← batch_encoded_bytes b.records
      reject_if (ltb p.limits.batch_bytes estimated)
          (join (record_too_large ∷ []) "batch exceeds configured writer limit")
      encode_batch b) [ err e ↦ (err e, p) | ok encoded ↦ append_encoded p b encoded a ]
