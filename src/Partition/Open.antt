-- ===== src/Partition/Open.antt =====
-- `openPartition` of storage/partition.go without the cache of its tail, its derived indexes and its
-- writer.
use immulog.Prelude.{ℕ, true, false, Option, List, [], ◌∷◌, ltb, ◌!=◌, if◌then◌else◌}
use immulog.Api.{TopicId, SegmentId}
use immulog.Api.Errors.{Result, ok, corrupt, invalid_segment, reject_if, ◌>>=◌, ◌>>◌}
use immulog.Partition.{Segment, Limits, Partition}
use immulog.Partition.Recover.{recover_segment}
use immulog.Partition.Append.{create_segment}
use immulog.Partition.Names.{DirEntry, DiscoveredSegment, discover_segments}

-- `sort.Slice(files, by base)`
unfoldable pub insert_by_base : DiscoveredSegment → List DiscoveredSegment → List DiscoveredSegment
insert_by_base f [] = f ∷ []
insert_by_base f (g ∷ gs) = if ltb g.base f.base then g ∷ insert_by_base f gs else f ∷ g ∷ gs

unfoldable pub sort_by_base : List DiscoveredSegment → List DiscoveredSegment
sort_by_base [] = []
sort_by_base (f ∷ fs) = insert_by_base f (sort_by_base fs)

-- The loop over the sorted files behind the first test: the sealed segments and the active one, or
-- the error of the first file that does not follow.
unfoldable pub recover_files :
    TopicId → ℕ → ℕ → DiscoveredSegment → List DiscoveredSegment → Result (List Segment × Segment)
recover_files topic partition expected f [] = do
  reject_if (f.base != expected) (corrupt invalid_segment "segment base does not follow offset")
  active ← recover_segment f.content f.base topic partition true expected
  ok ([], active)
recover_files topic partition expected f (g ∷ gs) = do
  reject_if (f.base != expected) (corrupt invalid_segment "segment base does not follow offset")
  opened ← recover_segment f.content f.base topic partition false expected
  (sealed, active) ← recover_files topic partition opened.end g gs
  ok (opened ∷ sealed, active)

-- A partition whose writer takes appends.
abbrev pub opened_partition : TopicId → ℕ → Limits → List Segment → Segment → Partition
opened_partition topic partition limits sealed active = record {
  topic = topic;
  partition = partition;
  limits = limits;
  sealed = sealed;
  active = active;
  log_end = active.end;
  closed = false;
  closing = false;
  unavailable = false;
}

unfoldable pub open_files :
    TopicId → ℕ → Limits → ℕ → Option SegmentId → List DiscoveredSegment → Result Partition
open_files topic partition limits initial created [] = do
  active ← create_segment topic partition initial created
  ok (opened_partition topic partition limits [] active)
open_files topic partition limits initial created (f ∷ fs) = do
  reject_if (f.base != initial)
      (corrupt invalid_segment "first segment base does not match initial offset")
  (sealed, active) ← recover_files topic partition f.base f fs
  ok (opened_partition topic partition limits sealed active)

-- `created` is the identifier of the segment that is made in an empty directory.
unfoldable pub open_partition :
    TopicId → ℕ → Limits → ℕ → Option SegmentId → List DirEntry → Result Partition
open_partition topic partition limits initial created entries = do
  files ← discover_segments [] entries
  open_files topic partition limits initial created (sort_by_base files)
