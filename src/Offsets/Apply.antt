-- ===== src/Offsets/Apply.antt =====
-- `applyGroupCreated` and `applyCommit` of storage/offsets_projection.go. An event that is refused
-- leaves the projection as it is, since every test stands in front of the first change.
use immulog.Prelude.{
  ℕ, zero, suc, ◌+◌, ◌^◌, ◌%◌, Bool, false, true, not, ◌&&◌, ◌||◌, Option, none, some, List, [],
  get_elem?, ltb, ◌==◌, ◌!=◌, if◌then◌else◌,
}
use immulog.Prelude.Arrays.{Array, array_eq, zeros}
use immulog.Prelude.Maps.{lookup, insert, has}
use immulog.Api.Errors.{
  Result, ok, err, corrupt, unsupported, invalid_record, reject_if, ◌>>=◌, ◌>>◌,
}
use immulog.Events.Cursor.{read_uint, read_string, require_id, expect_reserved, finish_event}
use immulog.Events.Fields.{TopicKey, decode_topic_key}
use immulog.Catalog.{id_eq, string_eq, TopicPartition, CatalogProjection}
use immulog.Offsets.{OffsetProgress, OffsetGroup, OffsetsProjection, max_group_id_bytes}
use immulog.Offsets.Keys.{key_eq, out_of_order}

-- The partition of the key, where the catalog had its topic at the revision.
unfoldable pub catalog_partition : CatalogProjection → TopicKey → ℕ → Result TopicPartition
catalog_partition c key catalog_next = elim (lookup key.topic c.topics_by_id) [
  | none ↦ err (corrupt invalid_record "offset event references an unknown topic partition")
  | some topic ↦ elim (get_elem? topic.descriptor.partitions key.partition) [
    | none ↦ err (corrupt invalid_record "offset event references an unknown topic partition")
    | some t ↦ do
      reject_if (ltb catalog_next ((topic.creation_offset + 1) % 2 ^ 64)) (
          corrupt invalid_record
            "offset event references a topic created after its catalog revision")
      ok t
  ]
]

-- The loop over the explicit starts.
unfoldable pub read_starts :
    CatalogProjection
    → ℕ
    → ℕ
    → Option TopicKey
    → List (TopicKey × ℕ)
    → List ℕ
    → Result (List (TopicKey × ℕ) × List ℕ)
read_starts c catalog_next zero previous starts d = ok (starts, d)
read_starts c catalog_next (suc count) previous starts d = do
  (key, d1) ← decode_topic_key d
  reject_if (out_of_order previous key)
      (corrupt invalid_record "group explicit starts are not canonical")
  _ ← catalog_partition c key catalog_next
  (next, d2) ← read_uint 8 d1
  read_starts c catalog_next count (some key) (insert key next starts) d2

unfoldable pub apply_group_created :
    OffsetsProjection → ℕ → List ℕ → List ℕ → CatalogProjection → ℕ → Result OffsetsProjection
apply_group_created p offset payload d c catalog_next = do
  (group_id, d1) ← read_string max_group_id_bytes d
  reject_if (has group_id p.groups) (corrupt invalid_record "duplicate GroupCreated event")
  (start_mode, d2) ← read_uint 1 d1
  reject_if (ltb start_mode 1 || ltb 3 start_mode) (unsupported "unsupported group start mode")
  d3 ← expect_reserved d2
  (count, d4) ← read_uint 4 d3
  reject_if
      (((start_mode == 1 || start_mode == 2) && count != 0) || (start_mode == 3 && count == 0))
      (corrupt invalid_record "group start policy and explicit starts disagree")
  (explicit, d5) ← read_starts c catalog_next count none [] d4
  finish_event d5
  let group : OffsetGroup = record {
    creation_offset = offset;
    creation_body = payload;
    generation = 0;
    assignment_offset = 0;
    assignment_body = [];
    assignment_owner = [];
    assignment_member = [];
    assignment_instance = zeros 16;
    creation_start_mode = start_mode;
    explicit_starts = explicit;
    progress = [];
  }
  ok (record p { groups = insert group_id group p.groups; revision = (offset + 1) % 2 ^ 64 })

-- The fields of a commit behind the group's name.
pub record CommitFields : Type 0 where
  pub instance_id : Array 16
  pub session : Array 16
  pub generation : ℕ
  pub key : TopicKey
  pub previous_kind : ℕ
  pub expected_previous : ℕ
  pub next : ℕ

unfoldable pub read_commit : List ℕ → Result CommitFields
read_commit d = do
  (instance_id, d1) ← require_id d
  (session, d2) ← require_id d1
  (generation, d3) ← read_uint 8 d2
  (key, d4) ← decode_topic_key d3
  (previous_kind, d5) ← read_uint 1 d4
  reject_if (ltb 1 previous_kind) (unsupported "unsupported commit previous-state kind")
  d6 ← expect_reserved d5
  (expected_previous, d7) ← read_uint 8 d6
  (next, d8) ← read_uint 8 d7
  finish_event d8
  ok (record {
    instance_id = instance_id;
    session = session;
    generation = generation;
    key = key;
    previous_kind = previous_kind;
    expected_previous = expected_previous;
    next = next;
  })

-- The commit's token is the group's: the generation, the owner of the key and the instance.
unfoldable pub is_owner : OffsetGroup → CommitFields → Bool
is_owner group f = elim (lookup f.key group.assignment_owner) [
  | none ↦ false
  | some owner ↦
      f.generation == group.generation
      && array_eq 16 owner f.session
      && array_eq 16 f.instance_id group.assignment_instance
]

-- The progress behind the commit.
unfoldable pub commit_progress : CommitFields → OffsetProgress → Result OffsetProgress
commit_progress f p = do
  reject_if
      (if f.previous_kind == 0
        then p.has_commit || f.expected_previous != p.initial_next
        else not p.has_commit || f.expected_previous != p.committed_next)
      (corrupt invalid_record (
        if f.previous_kind == 0
        then "commit baseline does not match state"
        else "commit previous position does not match state"))
  reject_if (ltb f.next f.expected_previous) (corrupt invalid_record "commit regresses position")
  ok (record p { has_commit = true; committed_next = f.next })

unfoldable pub commit_group :
    OffsetGroup → CommitFields → CatalogProjection → ℕ → Result OffsetGroup
commit_group group f c catalog_next = do
  _ ← catalog_partition c f.key catalog_next
  elim (lookup f.key group.progress) [
    | none ↦ err (corrupt invalid_record "commit ownership token does not match assignment")
    | some progress ↦ do
      reject_if (not (is_owner group f))
          (corrupt invalid_record "commit ownership token does not match assignment")
      progress' ← commit_progress f progress
      ok (record group { progress = insert f.key progress' group.progress })
  ]

-- The commit in the group of the name.
unfoldable pub commit_in :
    OffsetsProjection → ℕ → List ℕ → List ℕ → CatalogProjection → ℕ → Result OffsetsProjection
commit_in p offset group_id d c catalog_next = elim (lookup group_id p.groups) [
  | none ↦ err (corrupt invalid_record "commit references an unknown group")
  | some group ↦ do
    f ← read_commit d
    group' ← commit_group group f c catalog_next
    ok (record p { groups = insert group_id group' p.groups; revision = (offset + 1) % 2 ^ 64 })
]

unfoldable pub apply_commit :
    OffsetsProjection → ℕ → List ℕ → CatalogProjection → ℕ → Result OffsetsProjection
apply_commit p offset d c catalog_next = do
  (group_id, d1) ← read_string max_group_id_bytes d
  commit_in p offset group_id d1 c catalog_next
