-- ===== src/Config.antt =====
-- `PartitionConfigV1` of storage/config.go: the policy that a catalog event records.
pub mod Wire
use immulog.Prelude.{
  ℕ, ◌+◌, ◌-◌, ◌*◌, ◌/◌, ◌%◌, ◌^◌, Bool, true, false, not, ◌&&◌, ◌||◌, List, [], ◌∷◌, ltb, ◌==◌,
  ◌!=◌, if◌then◌else◌,
}
use immulog.Prelude.Int.{ℤ}
use immulog.Api.Errors.{
  Result, ok, err, join, invalid_argument, unsupported_format, reject_if, ◌>>=◌, ◌>>◌,
}
use immulog.Format.{
  batch_header_bytes, batch_trailer_bytes, record_prefix_bytes, segment_header_bytes,
  max_batch_bytes, max_batch_records, max_record_bytes,
}

-- A duration in nanoseconds is a 64-bit integer.
pub record PartitionConfig : Type 0 where
  pub max_record_bytes : ℕ
  pub max_batch_bytes : ℕ
  pub max_batch_records : ℕ
  pub segment_max_bytes : ℕ
  pub batch_linger : ℤ
  pub retention_mask : ℕ
  pub retention_millis : ℕ
  pub retention_bytes : ℕ
  pub max_segment_age_millis : ℕ
  pub retention_check_millis : ℕ

abbrev pub max_int64 : ℕ
max_int64 = 2 ^ 63 - 1

-- `mask&1 != 0` and `mask&2 != 0`
abbrev pub has_time : ℕ → Bool
has_time mask = mask % 2 != 0

abbrev pub has_size : ℕ → Bool
has_size mask = (mask / 2) % 2 != 0

abbrev pub minimum_batch : ℕ
minimum_batch = batch_header_bytes + batch_trailer_bytes + record_prefix_bytes

-- The tests of the three durations, in their order.
unfoldable pub check_durations : List ℕ → Result (Unit {0})
check_durations [] = ok tt
check_durations (m ∷ ms) = do
  reject_if (ltb (max_int64 / 1000000) m)
      (join (invalid_argument ∷ []) "configured duration is outside Go duration range")
  check_durations ms

-- The limits of records, batches and segments.
unfoldable pub validate_sizes : PartitionConfig → Result (Unit {0})
validate_sizes c = do
  reject_if (ltb c.max_record_bytes record_prefix_bytes || ltb max_record_bytes c.max_record_bytes)
      (join (invalid_argument ∷ []) "configured maximum record bytes are outside v1 limits")
  reject_if
      (ltb c.max_batch_bytes minimum_batch
        || ltb max_batch_bytes c.max_batch_bytes
        || ltb c.max_batch_bytes
            ((c.max_record_bytes + batch_header_bytes + batch_trailer_bytes) % 2 ^ 32))
      (join (invalid_argument ∷ []) "configured maximum batch bytes are outside v1 limits")
  reject_if (c.max_batch_records == 0 || ltb max_batch_records c.max_batch_records)
      (join (invalid_argument ∷ []) "configured maximum batch records are outside v1 limits")
  reject_if
      (ltb c.segment_max_bytes (segment_header_bytes + c.max_batch_bytes)
        || ltb max_int64 c.segment_max_bytes)
      (join (invalid_argument ∷ []) "configured segment bytes are outside v1 limits")

-- The retention policy.
unfoldable pub validate_retention : PartitionConfig → Bool → Result (Unit {0})
validate_retention c system = do
  reject_if (c.retention_mask / 4 != 0)
      (join (unsupported_format ∷ []) "unsupported retention policy bit")
  reject_if (system && c.retention_mask != 0)
      (join (invalid_argument ∷ []) "system-log retention is disabled")
  reject_if (c.retention_mask != 0 && c.retention_check_millis == 0)
      (join (invalid_argument ∷ []) "retention requires a positive check interval")
  reject_if (has_time c.retention_mask && c.max_segment_age_millis == 0)
      (join (invalid_argument ∷ []) "time retention requires a segment age")
  check_durations (c.retention_millis ∷ c.max_segment_age_millis ∷ c.retention_check_millis ∷ [])
  reject_if (ltb max_int64 c.retention_bytes)
      (join (invalid_argument ∷ []) "configured retention bytes are outside v1 limits")
  reject_if (not (has_time c.retention_mask) && c.retention_millis != 0)
      (join (invalid_argument ∷ []) "disabled time retention has a nonzero duration")
  reject_if (not (has_size c.retention_mask) && c.retention_bytes != 0)
      (join (invalid_argument ∷ []) "disabled size retention has a nonzero byte limit")
  reject_if (c.retention_mask == 0 && c.retention_check_millis != 0)
      (join (invalid_argument ∷ []) "disabled retention has a nonzero check interval")

unfoldable pub validate : PartitionConfig → Bool → Result (Unit {0})
validate c system = do validate_sizes c; validate_retention c system
