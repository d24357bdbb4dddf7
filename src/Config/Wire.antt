-- ===== src/Config/Wire.antt =====
-- The 64 bytes of a partition's configuration in a catalog event, in storage/config.go.
use immulog.Prelude.{
  ℕ, ◌+◌, ◌-◌, ◌*◌, ◌/◌, ◌%◌, ◌^◌, Bool, true, false, not, ◌&&◌, ◌||◌, List, [], ◌∷◌, ltb,
  replicate, ◌==◌, ◌!=◌, if◌then◌else◌,
}
use immulog.Prelude.Int.{ℤ, pos, negsuc}
use immulog.Api.Errors.{
  Result, ok, err, corrupt, join, unsupported, invalid_argument, invalid_record, reject_if, ◌>>=◌,
  ◌>>◌,
}
use immulog.Format.{max_uint32}
use immulog.Format.LittleEndian.{le, un_le, write, slice, u16, u32, u64}
use immulog.Events.Cursor.{take_field}
use immulog.Config.{PartitionConfig, validate}
pub mod Trip

abbrev pub partition_config_bytes : ℕ
partition_config_bytes = 64

-- `durationMillis`, of nanoseconds.
unfoldable pub duration_millis : ℤ → Result ℕ
duration_millis (negsuc n) =
    err (join (invalid_argument ∷ []) "duration must be a nonnegative whole millisecond")
duration_millis (pos n) = do
  reject_if (n % 1000000 != 0)
      (join (invalid_argument ∷ []) "duration must be a nonnegative whole millisecond")
  reject_if (ltb max_uint32 (n / 1000000))
      (join (invalid_argument ∷ []) "batch linger exceeds v1 range")
  ok (n / 1000000)

abbrev pub config_bytes : PartitionConfig → ℕ → List ℕ
config_bytes c linger =
    let d0 = write 0 (le 2 1) (replicate partition_config_bytes 0) in
    let d1 = write 2 (le 2 partition_config_bytes) d0 in
    let d2 = write 4 (le 4 c.max_record_bytes) d1 in
    let d3 = write 8 (le 4 c.max_batch_bytes) d2 in
    let d4 = write 12 (le 4 c.max_batch_records) d3 in
    let d5 = write 16 (le 8 c.segment_max_bytes) d4 in
    let d6 = write 24 (le 4 linger) d5 in
    let d7 = write 28 (le 1 c.retention_mask) d6 in
    let d8 = write 32 (le 8 c.retention_millis) d7 in
    let d9 = write 40 (le 8 c.retention_bytes) d8 in
    let d10 = write 48 (le 8 c.max_segment_age_millis) d9 in
    write 56 (le 8 c.retention_check_millis) d10

unfoldable pub encode_partition_config : PartitionConfig → Result (List ℕ)
encode_partition_config c = do
  validate c false
  linger ← duration_millis c.batch_linger
  ok (config_bytes c linger)

abbrev pub read_config : List ℕ → PartitionConfig
read_config d = record {
  max_record_bytes = u32 4 d;
  max_batch_bytes = u32 8 d;
  max_batch_records = u32 12 d;
  segment_max_bytes = u64 16 d;
  batch_linger = pos (u32 24 d * 1000000);
  retention_mask = un_le (slice 28 1 d);
  retention_millis = u64 32 d;
  retention_bytes = u64 40 d;
  max_segment_age_millis = u64 48 d;
  retention_check_millis = u64 56 d;
}

-- Any failure of the validation is a corrupt record.
abbrev pub as_corrupt : Result (Unit {0}) → Result (Unit {0})
as_corrupt (ok u) = ok u
as_corrupt (err e) = err (corrupt invalid_record e.detail)

unfoldable pub check_config_frame : List ℕ → Result (Unit {0})
check_config_frame d = do
  reject_if (u16 0 d != 1) (unsupported "unsupported partition configuration version")
  reject_if (u16 2 d != partition_config_bytes || un_le (slice 29 1 d) != 0 || u16 30 d != 0)
      (corrupt invalid_record "invalid partition configuration encoding")

-- The configuration and the bytes left.
unfoldable pub decode_partition_config : List ℕ → Bool → Result (PartitionConfig × List ℕ)
decode_partition_config cursor system = do
  (d, rest) ← take_field partition_config_bytes cursor
  check_config_frame d
  let config = read_config d
  as_corrupt (validate config system)
  ok (config, rest)
