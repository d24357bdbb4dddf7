-- ===== src/Tests/Logs.antt =====
-- The partition's appends, its recovery and its reopening at the sample data.
use immulog.Prelude.{
  ◌-◌, ◌≡◌, refl, true, some, [], ◌∷◌, ◌++◌, map, length, take, drop, take-drop, length-take,
  length-drop, arith,
}
use immulog.Api.Errors.{Error, ok, err, corrupt, invalid_batch}
use immulog.Codec.Batch.{decode_batch}
use immulog.Codec.BatchTrip.{decode-encode_batch}
use immulog.Partition.{segments}
use immulog.Partition.Recover.{recover_segment}
use immulog.Partition.Append.{append_batch, fence}
use immulog.Partition.Appends.{Outcome}
use immulog.Partition.Batches.{append_batch-Outcome, append_batch-fenced}
use immulog.Partition.Durable.{IsDurable}
use immulog.Partition.Crash.{recover-torn, recover-partial_header}
use immulog.Partition.Invariant.{IsValid}
use immulog.Partition.Names.{segment_base, segment_name, has_base}
use immulog.Partition.Names.Decimal.{segment_base-segment_name}
use immulog.Partition.Open.{open_partition}
use immulog.Partition.Reopen.{open_partition-IsValid, open_partition-empty, entry_of}
use immulog.Tests.Samples.{
  topic, segment_id, limits, answers, first_batch, batch_bytes, batch_length, first_segment,
  first_partition, appended_partition, first_opened, first-IsValid, appended-IsValid,
  encoded_first_batch, timed,
}

append_batch-Outcome_example :
    Outcome 0 first_partition first_batch (append_batch first_partition first_batch answers)
append_batch-Outcome_example =
    append_batch-Outcome 0 first_partition first_batch answers first-IsValid timed

append_batch-fenced_example :
    (e : Error) × (append_batch (fence first_partition) first_batch answers
      ≡ (err e, fence first_partition))
append_batch-fenced_example = append_batch-fenced (fence first_partition) first_batch answers refl

open_partition-IsValid_example :
    open_partition topic 0 limits 0 (some segment_id) (map entry_of (segments appended_partition))
    ≡ ok appended_partition
open_partition-IsValid_example =
    open_partition-IsValid 0 appended_partition (some segment_id) appended-IsValid

open_partition-empty_example :
    IsValid 0 first_partition × (first_partition.log_end ≡ 0) × (first_partition.sealed ≡ [])
open_partition-empty_example =
    open_partition-empty topic 0 limits 0 (some segment_id) first_partition first_opened

segment_base-segment_name_example :
    segment_base (take (length (segment_name 4096) - 4) (segment_name 4096)) [] ≡ ok 4096
segment_base-segment_name_example =
    segment_base-segment_name 4096 [] (omega arith) (unfold has_base in refl)

durable : IsDurable first_segment
durable = first-IsValid.chain.0.durable

torn_batch : decode_batch (take 60 batch_bytes ++ drop 60 batch_bytes) topic 0 ≡ ok first_batch
torn_batch =
    rw (take-drop 60 batch_bytes) (decode-encode_batch first_batch encoded_first_batch timed)

recover-torn_example :
    recover_segment (first_segment.content ++ take 60 batch_bytes) 0 topic 0 true 0
    ≡ ok first_segment
recover-torn_example =
    recover-torn first_segment first_batch (take 60 batch_bytes) (drop 60 batch_bytes) durable
      torn_batch refl (omega (arith, length-take 60 batch_bytes, batch_length))
      (omega (arith, length-drop 60 batch_bytes, batch_length))

recover-partial_header_example :
    recover_segment (first_segment.content ++ (1 ∷ [])) 0 topic 0 true 0
    ≡ err (corrupt invalid_batch "partial batch header")
recover-partial_header_example =
    recover-partial_header first_segment (1 ∷ []) true durable (omega arith) (omega arith)
