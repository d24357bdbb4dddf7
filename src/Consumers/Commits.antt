-- ===== src/Consumers/Commits.antt =====
-- `Consumer.Commit` of storage/consumer.go.
pub mod Owner
pub mod Appended
pub mod Committed
use immulog.Prelude.{
  ℕ, Bool, true, false, not, ◌&&◌, ◌||◌, Option, none, some, List, [], ◌∷◌, ltb, ◌==◌,
  if◌then◌else◌,
}
use immulog.Prelude.Maps.{lookup}
use immulog.Api.Errors.{
  Sentinel, append_outcome_unknown, partition_unavailable, group_unavailable,
  commit_outcome_unknown, commit_regression, invalid_commit, concurrent_operation, closing, Error,
  Result, ok, err, join, reject_if, ◌>>=◌, ◌>>◌,
}
use immulog.Events.Envelope.{event_offset_committed}
use immulog.Offsets.{OffsetProgress, OffsetGroup, latest_next}
use immulog.Offsets.Keys.{key_eq}
use immulog.Offsets.Bodies.{encode_commit_body}
use immulog.Partition.{Partition}
use immulog.Partition.Append.{Answers}
use immulog.Store.{Store}
use immulog.Store.Events.{end_offset, append_offsets_event, commit_append_error}
use immulog.Consumers.{Consumer}
use immulog.Consumers.Lease.{active_partition, begun, end_operation}

-- A key without a position has the zero one.
abbrev pub progress_of : Option OffsetProgress → OffsetProgress
progress_of none = record { initial_next = 0; has_commit = false; committed_next = 0 }
progress_of (some p) = p

-- The tests on the offset: whether there is anything to write.
unfoldable pub check_commit : Consumer → OffsetProgress → Partition → ℕ → Result Bool
check_commit c progress p next = do
  reject_if (ltb next (latest_next progress)) (join (commit_regression ∷ []) "")
  reject_if (ltb c.delivered next) (join (invalid_commit ∷ []) "")
  end ← end_offset p
  reject_if (ltb end next) (join (invalid_commit ∷ []) "")
  ok (not (progress.has_commit && next == latest_next progress))

-- `commitAppendError` of what the append returns.
unfoldable pub commit_result : Result (Unit {0}) × Store → Result (Unit {0}) × Store
commit_result (ok t, s) = (ok t, s)
commit_result (err e, s) = let (e', s') = commit_append_error s e in (err e', s')

unfoldable pub append_commit :
    Store → Consumer → OffsetProgress → ℕ → Answers → Result (Unit {0}) × Store
append_commit s c progress next a =
    elim (encode_commit_body s.store_id s.catalog_state.revision c.group_id c.session c.generation
      c.key progress next) [
        | err e ↦ (err e, s)
        | ok body ↦ commit_result (append_offsets_event s event_offset_committed body a)
      ]

-- The commit behind the tests on the assignment, with the key's position.
unfoldable pub commit_from :
    Store → Consumer → OffsetProgress → Partition → ℕ → Answers → Result (Unit {0}) × Store
commit_from s c progress p next a = elim (check_commit c progress p next) [
  | err e ↦ (err e, s)
  | ok write ↦ if write then append_commit s c progress next a else (ok tt, s)
]

unfoldable pub commit_held :
    Store → Consumer → OffsetGroup → Partition → ℕ → Answers → Result (Unit {0}) × Store
commit_held s c g p next a = commit_from s c (progress_of (lookup c.key g.progress)) p next a

-- What the calls in front of a commit answer: the context's error, whether another operation has
-- the handle, and why the offsets log is not admitted, if it is not.
pub record Waiting : Type 0 where
  pub cancelled : Option Error
  pub contended : Bool
  pub abandoned : Option Error
  pub now : ℕ
  pub started_before : Bool
  pub finished : ℕ

-- `acquireOffsetsAdmission`
unfoldable pub acquire_admission : Store → Option Error → Option Error
acquire_admission s abandoned = if s.closing then some (join (closing ∷ []) "") else abandoned

-- The commit behind what the test on the lease leaves.
unfoldable pub commit_with :
    Waiting
    → ℕ
    → Answers
    → Result (OffsetGroup × Partition) × Store × Consumer
    → Result (Unit {0}) × Store × Consumer
commit_with w next a (err e, s, c) = (err e, s, c)
commit_with w next a (ok (g, p), s, c) =
    let c' = begun c w.now in
    let (r, s') = commit_held s c' g p next a in (r, s', end_operation s' c' w.finished)

unfoldable pub commit :
    Store → Consumer → Waiting → ℕ → Answers → Result (Unit {0}) × Store × Consumer
commit s c w next a = elim w.cancelled [
  | some e ↦ (err e, s, c)
  | none ↦
      if w.contended
      then (err (join (concurrent_operation ∷ []) ""), s, c)
      else elim (acquire_admission s w.abandoned) [
        | some e ↦ (err e, s, c)
        | none ↦ commit_with w next a (active_partition s c w.now w.started_before)
      ]
]
