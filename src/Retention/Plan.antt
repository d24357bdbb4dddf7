-- ===== src/Retention/Plan.antt =====
-- `planRetentionLocked` of storage/retention.go, and what `retainPartitionAt` does with its
-- proposal.
use immulog.Prelude.{
  ℕ, ◌+◌, ◌-◌, Bool, false, ◌&&◌, Option, none, some, List, [], ◌∷◌, ltb, ◌!=◌, if◌then◌else◌,
}
use immulog.Prelude.Int.{ℤ}
use immulog.Api.{SegmentId}
use immulog.Api.Errors.{Result, ok, err, join, partition_unavailable, resource_limit, ◌>>=◌}
use immulog.Format.{max_uint64}
use immulog.Config.{PartitionConfig}
use immulog.Partition.{Segment, Partition, segments}
use immulog.Partition.Append.{create_segment, roll, fence}
use immulog.Retention.{
  Retirement, max_retired_segments, retained_segment_bytes, retention_needs_roll, retire,
}

-- `retentionProposal`. The retained segments are the sealed ones that are kept and the active one.
pub record Proposal : Type 0 where
  pub retired : List Segment
  pub kept : List Segment
  pub new_l : ℕ
  pub anchor : Segment
  pub reason_mask : ℕ
  pub remaining_bytes : ℕ

-- `segments[0]`
abbrev pub oldest : List Segment → Segment → Segment
oldest [] active = active
oldest (s ∷ ss) active = s

-- `retired[len(retired)-1].end`
abbrev pub last_end : Segment → List Segment → ℕ
last_end s [] = s.end
last_end s (t ∷ ss) = last_end t ss

abbrev pub reason_mask : Bool → Bool → ℕ
reason_mask by_time by_size = (if by_time then 1 else 0) + (if by_size then 2 else 0)

-- No proposal where nothing is retired.
abbrev pub proposal_of : Segment → Retirement → Option Proposal
proposal_of active r = elim r.retired [
  | [] ↦ none
  | s ∷ ss ↦ some (record {
    retired = s ∷ ss;
    kept = r.kept;
    new_l = last_end s ss;
    anchor = oldest r.kept active;
    reason_mask = reason_mask r.by_time r.by_size;
    remaining_bytes = r.total;
  })
]

-- The part behind the roll.
unfoldable pub plan_retired : Partition → PartitionConfig → ℤ → ℕ → Result (Option Proposal)
plan_retired p c now total = do
  r ← retire max_retired_segments c now total false false p.sealed
  ok (proposal_of p.active r)

-- The proposal and the partition, which may have been rolled or fenced. `created` is what the file
-- system answers to the creation of a segment.
unfoldable pub plan_retention :
    Partition → PartitionConfig → ℤ → Option SegmentId → Result (Option Proposal) × Partition
plan_retention p c now created = elim (retained_segment_bytes 0 (segments p)) [
  | err e ↦ (err e, p)
  | ok total ↦
      if p.active.records != 0 && retention_needs_roll p.active total c now
      then (elim (create_segment p.topic p.partition p.log_end created) [
        | err e ↦ (err (join (partition_unavailable ∷ []) "create segment"), fence p)
        | ok rolled ↦
            if ltb (max_uint64 - rolled.size) total
            then (err (join (resource_limit ∷ []) "retained segment bytes overflow"), roll p rolled)
            else (plan_retired (roll p rolled) c now (total + rolled.size), roll p rolled)
      ])
      else (plan_retired p c now total, p)
]

-- `partition.segments = proposal.retained`, once the catalog has recorded the event.
abbrev pub retain : Partition → Proposal → Partition
retain p q = record p { sealed = q.kept }
