-- ===== src/Config/Wire/Trip.antt =====
-- A configuration survives its encoding.
use immulog.Prelude.{ℕ, ◌+◌, ◌*◌, ◌%◌, ◌^◌, ◌<◌, ◌≡◌, refl, Bool, false, List, ◌++◌, length, arith}
use immulog.Prelude.Int.{ℤ, pos, negsuc}
use immulog.Api.Errors.{ok, >>=-eq-ok, ok-injective}
use immulog.Format.LittleEndian.{slice, u16, u32, u64, un_le-le_4, un_le-le_8}
use immulog.Events.Cursor.{take_field-append}
use immulog.Config.{PartitionConfig, validate, validate_sizes, validate_retention, check_durations}
use immulog.Config.Wire.{
  duration_millis, config_bytes, encode_partition_config, read_config, check_config_frame,
  decode_partition_config,
}

-- The widths that the validation leaves for the fields.
record Fits (c : PartitionConfig) : Type 0 where
  pub record_bytes : c.max_record_bytes < 2 ^ 32
  pub batch_bytes : c.max_batch_bytes < 2 ^ 32
  pub batch_records : c.max_batch_records < 2 ^ 32
  pub segment_bytes : c.segment_max_bytes < 2 ^ 64
  pub mask : c.retention_mask < 4
  pub millis : c.retention_millis < 2 ^ 64
  pub bytes : c.retention_bytes < 2 ^ 64
  pub age : c.max_segment_age_millis < 2 ^ 64
  pub check : c.retention_check_millis < 2 ^ 64

sizes-fit :
    (c : PartitionConfig)
    → validate_sizes c ≡ ok tt
    → (c.max_record_bytes < 2 ^ 32)
      × (c.max_batch_bytes < 2 ^ 32)
      × (c.max_batch_records < 2 ^ 32)
      × (c.segment_max_bytes < 2 ^ 64)
unfolding validate_sizes
sizes-fit c h = ground arith

retention-fits :
    (c : PartitionConfig) (system : Bool)
    → validate_retention c system ≡ ok tt
    → (c.retention_mask < 4)
      × (c.retention_millis < 2 ^ 64)
      × (c.retention_bytes < 2 ^ 64)
      × (c.max_segment_age_millis < 2 ^ 64)
      × (c.retention_check_millis < 2 ^ 64)
unfolding validate_retention check_durations
retention-fits c system h = ground arith

validate-Fits : (c : PartitionConfig) (system : Bool) → validate c system ≡ ok tt → Fits c
unfolding validate
validate-Fits c system h =
    let (_, s, r) = >>=-eq-ok (validate_sizes c) _ h in
    let sizes = sizes-fit c s in
    let retention = retention-fits c system r in
    record {
      record_bytes = sizes.0;
      batch_bytes = sizes.1;
      batch_records = sizes.2;
      segment_bytes = sizes.3;
      mask = retention.0;
      millis = retention.1;
      bytes = retention.2;
      age = retention.3;
      check = retention.4;
    }

linger-exact : (z : ℤ) (n : ℕ) → duration_millis z ≡ ok n → (n < 2 ^ 32) × (pos (n * 1000000) ≡ z)
unfolding duration_millis
linger-exact (negsuc k) n h = cc
linger-exact (pos k) n h = ground arith

length-config_bytes : (c : PartitionConfig) (linger : ℕ) → length (config_bytes c linger) ≡ 64
length-config_bytes c linger = refl

frame-config_bytes :
    (c : PartitionConfig) (linger : ℕ) → check_config_frame (config_bytes c linger) ≡ ok tt
unfolding check_config_frame u16 slice
frame-config_bytes c linger = ground arith

mask_byte : (m : ℕ) → m < 4 → m % 256 + 0 ≡ m
mask_byte m h = omega arith

read-config_bytes :
    (c : PartitionConfig) (linger : ℕ)
    → Fits c
    → linger < 2 ^ 32
    → pos (linger * 1000000) ≡ c.batch_linger
    → read_config (config_bytes c linger) ≡ c
unfolding slice u32 u64
read-config_bytes c linger f l z =
    rw
      (
        un_le-le_4 c.max_record_bytes f.record_bytes,
        un_le-le_4 c.max_batch_bytes f.batch_bytes,
        un_le-le_4 c.max_batch_records f.batch_records,
        un_le-le_8 c.segment_max_bytes f.segment_bytes,
        un_le-le_4 linger l,
        un_le-le_8 c.retention_millis f.millis,
        un_le-le_8 c.retention_bytes f.bytes,
        un_le-le_8 c.max_segment_age_millis f.age,
        un_le-le_8 c.retention_check_millis f.check,
        z,
      )
      (rw (mask_byte c.retention_mask f.mask) refl)

-- A configuration that the code encodes is read back in front of anything, by a reader whose rules
-- for system logs it meets.
pub decode-encode_partition_config :
    (c : PartitionConfig) (system : Bool) {d : List ℕ} (rest : List ℕ)
    → encode_partition_config c ≡ ok d
    → validate c system ≡ ok tt
    → decode_partition_config (d ++ rest) system ≡ ok (c, rest)
unfolding encode_partition_config decode_partition_config
decode-encode_partition_config c system {d = d} rest e v =
    let (_, v0, e1) = >>=-eq-ok (validate c false) _ e in
    let (linger, z, e2) = >>=-eq-ok (duration_millis c.batch_linger) _ e1 in
    let (l, exact) = linger-exact c.batch_linger linger z in
    let same : config_bytes c linger ≡ d = ok-injective e2 in
    rw⁻¹ same (
      rw
        (
          take_field-append 64 (config_bytes c linger) rest refl,
          frame-config_bytes c linger,
          read-config_bytes c linger (validate-Fits c system v) l exact,
          v,
        )
        refl)

pub encode-validate :
    (c : PartitionConfig) {d : List ℕ} → encode_partition_config c ≡ ok d → validate c false ≡ ok tt
unfolding encode_partition_config
encode-validate c h = let (_, v, _) = >>=-eq-ok (validate c false) _ h in v
