-- ===== src/Tests/Policies.antt =====
-- Retention and configurations at concrete inputs.
use immulog.Prelude.{
  ℕ, ◌≡◌, ◌↔◌, ◌<◌, refl, Bool, true, false, Option, none, some, List, [], ◌∷◌, ◌++◌, length, arith,
}
use immulog.Prelude.Arrays.{of_bytes}
use immulog.Prelude.Int.{ℤ, pos, negsuc, min_int64}
use immulog.Api.{is_zero}
use immulog.Api.Errors.{ok}
use immulog.Format.Segment.{SegmentHeader, encode_segment_header}
use immulog.Config.{PartitionConfig, validate}
use immulog.Config.Wire.{encode_partition_config, decode_partition_config, config_bytes}
use immulog.Config.Wire.Trip.{decode-encode_partition_config}
use immulog.Partition.{Segment, Partition}
use immulog.Partition.Append.{create_segment, roll}
use immulog.Partition.Invariant.{IsValid}
use immulog.Retention.{elapsed_at_least, retire, Retirement}
use immulog.Retention.Plan.{Proposal, plan_retention}
use immulog.Retention.Loop.{IsRetirement, retire-IsRetirement}
use immulog.Retention.Keep.{IsProposal, plan_retention-IsValid, plan_retention-IsProposal}
use immulog.Retention.Elapsed.{IsElapsed, elapsed_at_least-exact}
use immulog.Tests.Samples.{
  topic, segment_id, value_of, first_segment, appended_partition, appended-IsValid,
}

-- Size retention with a limit of 100 bytes.
abbrev pub sized : PartitionConfig
sized = record {
  max_record_bytes = 1024;
  max_batch_bytes = 2048;
  max_batch_records = 16;
  segment_max_bytes = 4096;
  batch_linger = pos 2000000;
  retention_mask = 2;
  retention_millis = 0;
  retention_bytes = 100;
  max_segment_age_millis = 0;
  retention_check_millis = 10;
}

elapsed_at_least-exact_example :
    (elapsed_at_least (pos 7) (negsuc 1) 9 ≡ true → IsElapsed (pos 7) (negsuc 1) 9)
    × (IsElapsed (pos 7) (negsuc 1) 9 → elapsed_at_least (pos 7) (negsuc 1) 9 ≡ true)
elapsed_at_least-exact_example =
    elapsed_at_least-exact (pos 7) (negsuc 1) 9 (omega arith) (omega arith) refl

sized_valid : validate sized false ≡ ok tt
unfolding validate immulog.Config.validate_sizes immulog.Config.validate_retention
    immulog.Config.check_durations
sized_valid = refl

sized_encoded : encode_partition_config sized ≡ ok (config_bytes sized 2)
unfolding encode_partition_config immulog.Config.Wire.duration_millis
sized_encoded = rw sized_valid refl

decode-encode_partition_config_example :
    decode_partition_config (config_bytes sized 2 ++ (1 ∷ [])) false ≡ ok (sized, 1 ∷ [])
decode-encode_partition_config_example =
    decode-encode_partition_config sized false (1 ∷ []) sized_encoded sized_valid

plan_retention-IsValid_example :
    IsValid 0 (plan_retention appended_partition sized (pos 10) none).1
    × ((plan_retention appended_partition sized (pos 10) none).1.log_end ≡ 1)
plan_retention-IsValid_example =
    plan_retention-IsValid 0 appended_partition sized (pos 10) none appended-IsValid

abbrev second_header : SegmentHeader
second_header = record { topic = topic; partition = 0; base_offset = 1; id = segment_id }

abbrev second_segment : Segment
second_segment = record {
  header = second_header;
  end = 1;
  size = 72;
  records = 0;
  max_time = min_int64;
  batches = [];
  content = value_of (encode_segment_header second_header);
}

-- The plan that rolls the active segment and retires it.
abbrev proposal : Proposal
proposal = record {
  retired = appended_partition.active ∷ [];
  kept = [];
  new_l = 1;
  anchor = second_segment;
  reason_mask = 2;
  remaining_bytes = 72;
}

abbrev rolled_partition : Partition
rolled_partition = record appended_partition {
  sealed = appended_partition.active ∷ [];
  active = second_segment;
}

planned :
    plan_retention appended_partition sized (pos 10) (some segment_id)
    ≡ (ok (some proposal), rolled_partition)
unfolding plan_retention immulog.Retention.retained_segment_bytes immulog.Codec.Batch.encode_batch
    is_zero immulog.Format.valid_offset_range immulog.Codec.Batch.encode_records
    immulog.Codec.Batch.misplaced immulog.Codec.Record.encode_record
    immulog.Codec.Cursor.append_nullable immulog.Codec.Record.append_headers
    immulog.Format.valid_header_name immulog.Format.Utf8.valid_utf8
    immulog.Codec.Record.append_value_length immulog.Codec.Record.append_value
    immulog.Retention.retention_needs_roll create_segment encode_segment_header
    immulog.Retention.Plan.plan_retired roll immulog.Codec.Batch.later
    immulog.Codec.Cursor.append_u32 immulog.Format.Checksum.crc32c immulog.Format.LittleEndian.slice
    immulog.Prelude.Arrays.array_eq immulog.Prelude.Int.uint64_of_int elapsed_at_least
    immulog.Retention.max_retired_segments retire immulog.Retention.size_eligible
    immulog.Retention.time_eligible
planned = refl

plan_retention-IsProposal_example : IsProposal sized (pos 10) rolled_partition proposal
plan_retention-IsProposal_example =
    plan_retention-IsProposal 0 appended_partition sized (pos 10) (some segment_id) proposal
      rolled_partition appended-IsValid planned

abbrev retirement : Retirement
retirement = record {
  retired = first_segment ∷ [];
  kept = first_segment ∷ [];
  total = 100;
  by_time = false;
  by_size = true;
}

retired :
    retire 5 sized (pos 10) 172 false false (first_segment ∷ first_segment ∷ []) ≡ ok retirement
unfolding retire immulog.Retention.time_eligible immulog.Retention.size_eligible
retired = refl

retire-IsRetirement_example :
    IsRetirement 5 sized (pos 10) 172 (first_segment ∷ first_segment ∷ []) retirement
retire-IsRetirement_example =
    retire-IsRetirement 5 sized (pos 10) 172 false false (first_segment ∷ first_segment ∷ [])
      retirement retired
