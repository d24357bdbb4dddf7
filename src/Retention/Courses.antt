-- ===== src/Retention/Courses.antt =====
-- The ways that a retention plan goes.
use immulog.Prelude.{
  ℕ, ◌+◌, ◌-◌, ◌≤◌, ◌≡◌, inl, inr, refl, Bool, true, ◌&&◌, Option, [], ◌∷◌, ltb, ◌!=◌, Bool-cases,
  arith,
}
use immulog.Prelude.Int.{ℤ}
use immulog.Api.{SegmentId}
use immulog.Api.Errors.{
  Error, Result, ok, err, join, partition_unavailable, resource_limit, Result-cases,
}
use immulog.Format.{max_uint64}
use immulog.Config.{PartitionConfig}
use immulog.Partition.{Segment, Partition, segments}
use immulog.Partition.Append.{create_segment, roll, fence}
use immulog.Retention.{retained_segment_bytes, retention_needs_roll}
use immulog.Retention.Plan.{Proposal, plan_retired, plan_retention}

-- What `plan_retention` comes to.
pub data Course (p : Partition) (c : PartitionConfig) (now : ℤ)
    (r : Result (Option Proposal) × Partition) : Type 0 where
  failed : (e : Error) → r ≡ (err e, p) → Course p c now r
  fenced : (e : Error) → r ≡ (err e, fence p) → Course p c now r
  overflow :
      (e : Error) (s : Segment) (id : Option SegmentId)
      → 1 ≤ p.active.records
      → create_segment p.topic p.partition p.log_end id ≡ ok s
      → r ≡ (err e, roll p s)
      → Course p c now r
  planned :
      (total : ℕ)
      → retained_segment_bytes 0 (segments p) ≡ ok total
      → r ≡ (plan_retired p c now total, p)
      → Course p c now r
  rolled :
      (total : ℕ) (s : Segment) (id : Option SegmentId)
      → retained_segment_bytes 0 (segments p) ≡ ok total
      → 1 ≤ p.active.records
      → create_segment p.topic p.partition p.log_end id ≡ ok s
      → r ≡ (plan_retired (roll p s) c now (total + s.size), roll p s)
      → Course p c now r

needs-records : (n : ℕ) (b : Bool) → n != 0 && b ≡ true → 1 ≤ n
needs-records n b h = ground arith

pub plan_retention-Course :
    (p : Partition) (c : PartitionConfig) (now : ℤ) (created : Option SegmentId)
    → Course p c now (plan_retention p c now created)
unfolding plan_retention
plan_retention-Course p c now created =
    elim (Result-cases (retained_segment_bytes 0 (segments p))) [
      | inr (e, h) ↦ failed e (rw (plan_retention, h) refl)
      | inl (total, h) ↦
          elim (Bool-cases (p.active.records != 0 && retention_needs_roll p.active total c now)) [
            | inr still ↦ planned total h (rw (plan_retention, h, still) refl)
            | inl due ↦
                let n =
                  needs-records p.active.records (retention_needs_roll p.active total c now) due in
                elim (Result-cases (create_segment p.topic p.partition p.log_end created)) [
                  | inr (e, g) ↦
                      fenced (join (partition_unavailable ∷ []) "create segment")
                        (rw (plan_retention, h, due, g) refl)
                  | inl (s, g) ↦ elim (Bool-cases (ltb (max_uint64 - s.size) total)) [
                    | inl over ↦
                        overflow (join (resource_limit ∷ []) "retained segment bytes overflow") s
                          created n g (rw (plan_retention, h, due, g, over) refl)
                    | inr fits ↦
                        rolled total s created h n g (rw (plan_retention, h, due, g, fits) refl)
                  ]
                ]
          ]
    ]
