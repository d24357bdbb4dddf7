-- ===== src/Retention.antt =====
-- storage/retention.go: the plan of one retention pass over a partition, and what it leaves.
pub mod Plan
pub mod Loop
pub mod Courses
pub mod Keep
pub mod Elapsed
use immulog.Prelude.{
  ℕ, zero, suc, ◌+◌, ◌-◌, ◌*◌, ◌/◌, ◌%◌, ◌^◌, Bool, true, false, not, ◌&&◌, ◌||◌, List, [], ◌∷◌,
  ◌++◌, ltb, leb, ◌==◌, ◌!=◌, if◌then◌else◌,
}
use immulog.Prelude.Int.{ℤ, min_int64, int_lt, int_eq, uint64_of_int}
use immulog.Api.Errors.{Result, ok, err, corrupt, invalid_segment, reject_if, ◌>>=◌, ◌>>◌}
use immulog.Format.{max_uint64, max_record_bytes, record_prefix_bytes}
use immulog.Config.{PartitionConfig, has_time, has_size}
use immulog.Partition.{Segment}

abbrev pub event_envelope_bytes : ℕ
event_envelope_bytes = 16

abbrev pub max_topic_partitions : ℕ
max_topic_partitions = 65536

-- `maxRetiredSegmentsPerEvent`
unfoldable pub max_retired_segments : ℕ
max_retired_segments =
    let available = max_record_bytes - record_prefix_bytes - 8 - event_envelope_bytes - 160 in
    if ltb available 72
    then 1
    else if ltb max_topic_partitions (available / 72)
    then max_topic_partitions
    else available / 72

-- `elapsedAtLeast`: the difference is one of uint64 values.
unfoldable pub elapsed_at_least : ℤ → ℤ → ℕ → Bool
elapsed_at_least now timestamp duration =
    if int_eq timestamp min_int64 || int_lt now timestamp
    then false
    else leb duration ((uint64_of_int now + (2 ^ 64 - uint64_of_int timestamp)) % 2 ^ 64)

-- `retainedSegmentBytes`
unfoldable pub retained_segment_bytes : ℕ → List Segment → Result ℕ
retained_segment_bytes total [] = ok total
retained_segment_bytes total (s ∷ ss) = do
  reject_if (ltb (max_uint64 - total) s.size)
      (corrupt invalid_segment "retained segment has invalid logical size")
  retained_segment_bytes (total + s.size) ss

-- `retentionNeedsRoll`
unfoldable pub retention_needs_roll : Segment → ℕ → PartitionConfig → ℤ → Bool
retention_needs_roll active total c now =
    (has_size c.retention_mask && ltb c.retention_bytes total)
    || (has_time c.retention_mask && elapsed_at_least now active.max_time c.max_segment_age_millis)

-- `timeEligible` and `sizeEligible` of a segment.
unfoldable pub time_eligible : PartitionConfig → ℤ → Segment → Bool
time_eligible c now s =
    has_time c.retention_mask && elapsed_at_least now s.max_time c.retention_millis

unfoldable pub size_eligible : PartitionConfig → ℕ → Bool
size_eligible c total = has_size c.retention_mask && ltb c.retention_bytes total

-- What the loop has found: the retired segments, the sealed ones it keeps, the bytes that remain and
-- the two bits of the reason.
pub record Retirement : Type 0 where
  pub retired : List Segment
  pub kept : List Segment
  pub total : ℕ
  pub by_time : Bool
  pub by_size : Bool

-- The loop over the segments in front of the active one, of which at most `limit` are retired.
unfoldable pub retire : ℕ → PartitionConfig → ℤ → ℕ → Bool → Bool → List Segment → Result Retirement
retire zero c now total by_time by_size ss =
    ok (record { retired = []; kept = ss; total = total; by_time = by_time; by_size = by_size })
retire (suc limit) c now total by_time by_size [] =
    ok (record { retired = []; kept = []; total = total; by_time = by_time; by_size = by_size })
retire (suc limit) c now total by_time by_size (s ∷ ss) =
    if not (time_eligible c now s) && not (size_eligible c total)
    then ok (record {
      retired = [];
      kept = s ∷ ss;
      total = total;
      by_time = by_time;
      by_size = by_size;
    })
    else (do
      reject_if (ltb total s.size)
          (corrupt invalid_segment "retired segment has invalid logical size")
      r ←
          retire limit c now (total - s.size) (by_time || time_eligible c now s)
            (by_size || size_eligible c total) ss
      ok (record r { retired = s ∷ r.retired }))
