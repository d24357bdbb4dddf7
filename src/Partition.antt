-- ===== src/Partition.antt =====
-- storage/partition.go and storage/append_encoded.go: the segments of one partition, recovery of a
-- segment from its bytes, and the durable append.
pub mod Sizes
pub mod Recover
pub mod Append
pub mod Resume
pub mod Durable
pub mod Crash
pub mod Invariant
pub mod Appends
pub mod Batches
pub mod Names
pub mod Open
pub mod Reopen
use immulog.Prelude.{ℕ, ◌+◌, Bool, false, List, [], ◌∷◌, ◌++◌}
use immulog.Prelude.Int.{ℤ, min_int64}
use immulog.Api.{TopicId}
use immulog.Format.Segment.{SegmentHeader}

-- `batchInfo`
pub record BatchInfo : Type 0 where
  pub base : ℕ
  pub position : ℕ
  pub bytes : ℕ
  pub records : ℕ
  pub max_time : ℤ

-- `segment`, with the content of its file. Paths, descriptors, the header's hash and the derived
-- indexes are left out.
pub record Segment : Type 0 where
  pub header : SegmentHeader
  pub end : ℕ
  pub size : ℕ
  pub records : ℕ
  pub max_time : ℤ
  pub batches : List BatchInfo
  pub content : List ℕ

-- The limits of `PartitionOptions` that the durable append reads.
pub record Limits : Type 0 where
  pub segment_bytes : ℕ
  pub batch_bytes : ℕ
  pub batch_records : ℕ
  pub record_bytes : ℕ

-- `Partition`: the sealed segments, oldest first, and the active one behind them.
pub record Partition : Type 0 where
  pub topic : TopicId
  pub partition : ℕ
  pub limits : Limits
  pub sealed : List Segment
  pub active : Segment
  pub log_end : ℕ
  pub closed : Bool
  pub closing : Bool
  pub unavailable : Bool

-- `p.segments`
abbrev pub segments : Partition → List Segment
segments p = p.sealed ++ (p.active ∷ [])
