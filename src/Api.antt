-- ===== src/Api.antt =====
-- api/types.go: the public data types. A byte slice is a list of numbers below 256; a slice that
-- may be nil is an `Option`, since the code tells nil from the empty slice. A Go string is the
-- list of its bytes.
pub mod Errors
use immulog.Prelude.{ℕ, Bool, Option, List, [], ◌∷◌, ◌++◌, replicate}
use immulog.Prelude.Arrays.{Array, array_eq, of_bytes, zeros}
use immulog.Prelude.Int.{ℤ}

abbrev pub TopicId : Type 0
TopicId = Array 16

abbrev pub SegmentId : Type 0
SegmentId = Array 16

-- `IsZero` of both identifiers.
unfoldable pub is_zero : Array 16 → Bool
unfolding array_eq
is_zero id = array_eq 16 id (zeros 16)

abbrev pub cluster_metadata_topic_id : TopicId
cluster_metadata_topic_id = of_bytes 16 (replicate 15 0 ++ 1 ∷ [])

abbrev pub consumer_offsets_topic_id : TopicId
consumer_offsets_topic_id = of_bytes 16 (replicate 15 0 ++ 2 ∷ [])

pub record Header : Type 0 where
  pub name : List ℕ
  pub value : Option (List ℕ)

pub record Record : Type 0 where
  pub topic : TopicId
  pub partition : ℕ
  pub offset : ℕ
  pub timestamp : ℤ
  pub key : Option (List ℕ)
  pub value : Option (List ℕ)
  pub headers : List Header

pub record RecordBatch : Type 0 where
  pub topic : TopicId
  pub partition : ℕ
  pub base_offset : ℕ
  pub records : List Record

pub record FetchResult : Type 0 where
  pub records : List Record
  pub next_offset : ℕ
