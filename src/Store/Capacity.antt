-- ===== src/Store/Capacity.antt =====
-- storage/capacity.go: the growth of a system log within its limit. A partition has an active
-- segment, and a size that the source keeps in an int64 is not negative.
use immulog.Prelude.{
  ℕ, ◌+◌, ◌-◌, ◌^◌, ◌%◌, not, ◌&&◌, ◌||◌, List, [], ◌∷◌, length, ltb, ◌==◌, if◌then◌else◌,
}
use immulog.Api.{TopicId, RecordBatch}
use immulog.Api.Errors.{Result, ok, join, system_log_capacity, reject_if, ◌>>=◌, ◌>>◌}
use immulog.Format.{segment_header_bytes}
use immulog.Codec.Batch.{encode_batch}
use immulog.Partition.{Segment, Partition, segments}
use immulog.Events.Envelope.{event_record}

-- The loop over the sizes of the segments, in a uint64.
unfoldable pub history_bytes : ℕ → List Segment → Result ℕ
history_bytes used [] = ok used
history_bytes used (s ∷ ss) = do
  reject_if (ltb (2 ^ 64 - 1 - used) s.size)
      (join (system_log_capacity ∷ []) "system-log size arithmetic overflow")
  history_bytes (used + s.size) ss

-- The bytes of a batch, with a header where the batch goes to a new segment.
unfoldable pub growth : Partition → ℕ → Result ℕ
growth p incoming =
    if ltb 0 p.active.records && ltb p.limits.segment_bytes ((p.active.size + incoming) % 2 ^ 64)
    then (reject_if (ltb (2 ^ 64 - 1 - segment_header_bytes) incoming)
          (join (system_log_capacity ∷ []) "system-log growth arithmetic overflow")
        >> ok (incoming + segment_header_bytes))
    else ok incoming

unfoldable pub system_log_admission : Partition → ℕ → ℕ → Result (Unit {0})
system_log_admission p incoming limit = do
  reject_if (limit == 0) (join (system_log_capacity ∷ []) "system-log history limit is unavailable")
  more ← growth p incoming
  used ← history_bytes 0 (segments p)
  reject_if (not (more == 0) && (ltb limit used || ltb (limit - used) more))
      (join (system_log_capacity ∷ []) "system-log history capacity exhausted")
  ok tt

-- The batch of one event.
abbrev pub event_batch : TopicId → ℕ → List ℕ → RecordBatch
event_batch topic base value = record {
  topic = topic;
  partition = 0;
  base_offset = base;
  records = event_record topic base value ∷ [];
}

unfoldable pub system_event_batch_bytes : TopicId → ℕ → List ℕ → Result ℕ
system_event_batch_bytes topic base value = do
  encoded ← encode_batch (event_batch topic base value)
  ok (length encoded)

unfoldable pub system_event_admission : Partition → TopicId → ℕ → List ℕ → ℕ → Result (Unit {0})
system_event_admission p topic base value limit = do
  more ← system_event_batch_bytes topic base value
  system_log_admission p more limit
