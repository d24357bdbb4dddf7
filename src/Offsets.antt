-- ===== src/Offsets.antt =====
-- storage/offsets_projection.go: the groups, assignments and commits that a replay of the offsets
-- log builds, and the bodies of its events in storage/consumer.go and storage/group_consumer.go.
pub mod Keys
pub mod Apply
pub mod Assign
pub mod Replay
pub mod Sources
pub mod Invariant
pub mod Groups
pub mod Positions
pub mod Steps
pub mod History
pub mod Bodies
pub mod Commit
use immulog.Prelude.{ℕ, Bool, List, if◌then◌else◌}
use immulog.Prelude.Arrays.{Array}
use immulog.Events.Fields.{TopicKey}
use immulog.Events.Payloads.{StoreId}

abbrev pub max_group_id_bytes : ℕ
max_group_id_bytes = 255

-- `offsetProgress`
pub record OffsetProgress : Type 0 where
  pub initial_next : ℕ
  pub has_commit : Bool
  pub committed_next : ℕ

unfoldable pub latest_next : OffsetProgress → ℕ
latest_next p = if p.has_commit then p.committed_next else p.initial_next

-- `offsetGroup`
pub record OffsetGroup : Type 0 where
  pub creation_offset : ℕ
  pub creation_body : List ℕ
  pub generation : ℕ
  pub assignment_offset : ℕ
  pub assignment_body : List ℕ
  pub assignment_owner : List (TopicKey × Array 16)
  pub assignment_member : List (Array 16 × Unit {0})
  pub assignment_instance : Array 16
  pub creation_start_mode : ℕ
  pub explicit_starts : List (TopicKey × ℕ)
  pub progress : List (TopicKey × OffsetProgress)

-- `offsetsProjection`
pub record OffsetsProjection : Type 0 where
  pub store_id : StoreId
  pub revision : ℕ
  pub groups : List (List ℕ × OffsetGroup)
