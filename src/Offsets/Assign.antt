-- ===== src/Offsets/Assign.antt =====
-- `applyAssignment` of storage/offsets_projection.go: a membership, its subscriptions and the
-- positions that its assignments resume from.
use immulog.Prelude.{
  ℕ, zero, suc, ◌+◌, ◌^◌, ◌%◌, Bool, false, not, ◌||◌, Option, none, some, List, [], length, ltb,
  ◌==◌, ◌!=◌, if◌then◌else◌,
}
use immulog.Prelude.Arrays.{Array, array_eq, zeros}
use immulog.Prelude.Maps.{lookup, insert, has}
use immulog.Api.Errors.{
  Result, ok, err, corrupt, unsupported, invalid_record, reject_if, ◌>>=◌, ◌>>◌,
}
use immulog.Events.Cursor.{read_uint, read_string, require_id, expect_reserved, finish_event}
use immulog.Events.Fields.{TopicKey, decode_topic_key}
use immulog.Catalog.{id_eq, string_eq, CatalogProjection}
use immulog.Offsets.{
  OffsetProgress, OffsetGroup, OffsetsProjection, latest_next, max_group_id_bytes,
}
use immulog.Offsets.Keys.{key_eq, out_of_order, session_out_of_order}
use immulog.Offsets.Apply.{catalog_partition}

-- The loop over one member's subscriptions.
unfoldable pub read_subscriptions :
    CatalogProjection
    → ℕ
    → Array 16
    → ℕ
    → Option TopicKey
    → List (TopicKey × Array 16)
    → List ℕ
    → Result (List (TopicKey × Array 16) × List ℕ)
read_subscriptions c catalog_next session zero previous subscribed d = ok (subscribed, d)
read_subscriptions c catalog_next session (suc count) previous subscribed d = do
  (key, d1) ← decode_topic_key d
  reject_if (out_of_order previous key)
      (corrupt invalid_record "member subscriptions are not canonical")
  _ ← catalog_partition c key catalog_next
  reject_if (has key subscribed) (corrupt invalid_record "subscription key has multiple owners")
  read_subscriptions c catalog_next session count (some key) (insert key session subscribed) d1

abbrev pub Members : Type 0
Members = List (Array 16 × Unit {0})

-- The loop over the members: their sessions, and the subscriber of each key.
unfoldable pub read_members :
    CatalogProjection
    → ℕ
    → ℕ
    → Option (Array 16)
    → Members
    → List (TopicKey × Array 16)
    → List ℕ
    → Result (Members × List (TopicKey × Array 16) × List ℕ)
read_members c catalog_next zero previous members subscribed d = ok (members, subscribed, d)
read_members c catalog_next (suc count) previous members subscribed d = do
  (session, d1) ← require_id d
  reject_if (session_out_of_order previous session)
      (corrupt invalid_record "assignment members are not canonical")
  (subscriptions, d2) ← read_uint 4 d1
  (subscribed', d3) ← read_subscriptions c catalog_next session subscriptions none subscribed d2
  read_members c catalog_next count (some session) (insert session tt members) subscribed' d3

-- `subscribed[key] != owner`, where a missing key has the zero identifier.
unfoldable pub is_subscriber : TopicKey → Array 16 → List (TopicKey × Array 16) → Bool
is_subscriber key owner subscribed = elim (lookup key subscribed) [
  | none ↦ array_eq 16 (zeros 16) owner
  | some session ↦ array_eq 16 session owner
]

-- The baseline of an assigned key: a new one, or the position where the key stands.
unfoldable pub assign_progress :
    TopicKey
    → ℕ
    → ℕ
    → ℕ
    → List (TopicKey × OffsetProgress)
    → Result (List (TopicKey × OffsetProgress))
assign_progress key action resume initial progress =
    if action == 1
    then (do
      reject_if (has key progress || initial != resume)
          (corrupt invalid_record "assignment creates an existing baseline")
      ok (
          insert key (record { initial_next = initial; has_commit = false; committed_next = 0 })
            progress))
    else elim (lookup key progress) [
      | none ↦ err (corrupt invalid_record "assignment baseline reuse does not match state")
      | some p ↦ do
        reject_if (initial != 0 || resume != latest_next p)
            (corrupt invalid_record "assignment baseline reuse does not match state")
        ok progress
    ]

abbrev pub Assigned : Type 0
Assigned = List (TopicKey × Array 16) × List (TopicKey × OffsetProgress)

-- One round of the loop over the assignments: the key, and the owners and the positions with it.
unfoldable pub read_entry :
    List (TopicKey × Array 16)
    → Option TopicKey
    → Assigned
    → List ℕ
    → Result (TopicKey × Assigned × List ℕ)
read_entry subscribed previous a d = do
  (key, d1) ← decode_topic_key d
  reject_if (out_of_order previous key) (corrupt invalid_record "assignments are not canonical")
  (owner, d2) ← require_id d1
  reject_if (not (is_subscriber key owner subscribed))
      (corrupt invalid_record "assignment owner is not the key subscriber")
  (resume, d3) ← read_uint 8 d2
  (action, d4) ← read_uint 1 d3
  reject_if (ltb 1 action) (unsupported "unsupported assignment baseline action")
  d5 ← expect_reserved d4
  (initial, d6) ← read_uint 8 d5
  progress ← assign_progress key action resume initial a.1
  ok (key, (insert key owner a.0, progress), d6)

unfoldable pub read_assignments :
    List (TopicKey × Array 16)
    → ℕ
    → Option TopicKey
    → Assigned
    → List ℕ
    → Result (Assigned × List ℕ)
read_assignments subscribed zero previous a d = ok (a, d)
read_assignments subscribed (suc count) previous a d = do
  (key, a', d') ← read_entry subscribed previous a d
  read_assignments subscribed count (some key) a' d'

-- What an assignment installs in its group.
pub record Assignment : Type 0 where
  pub instance_id : Array 16
  pub new_generation : ℕ
  pub members : Members
  pub owners : List (TopicKey × Array 16)
  pub progress : List (TopicKey × OffsetProgress)

-- The instance and the generation in front of the members.
unfoldable pub read_generation : OffsetGroup → List ℕ → Result (Array 16 × ℕ × List ℕ)
read_generation group d = do
  (instance_id, d1) ← require_id d
  (expected, d2) ← read_uint 8 d1
  (new_generation, d3) ← read_uint 8 d2
  reject_if (expected != group.generation || new_generation != (expected + 1) % 2 ^ 64)
      (corrupt invalid_record "assignment generation does not match projected state")
  (reason, d4) ← read_uint 1 d3
  d5 ← expect_reserved d4
  ok (instance_id, new_generation, d5)

-- The members and the assignments, which cover every subscription.
unfoldable pub read_membership :
    CatalogProjection
    → ℕ
    → List (TopicKey × OffsetProgress)
    → List ℕ
    → Result (Members × Assigned × List ℕ)
read_membership c catalog_next progress d = do
  (count, d1) ← read_uint 4 d
  (members, subscribed, d2) ← read_members c catalog_next count none [] [] d1
  (assignments, d3) ← read_uint 4 d2
  (assigned, d4) ← read_assignments subscribed assignments none ([], progress) d3
  reject_if (length assigned.0 != length subscribed)
      (corrupt invalid_record "assignment does not cover every subscription")
  ok (members, assigned, d4)

-- The body of an assignment behind the group's name.
unfoldable pub read_assignment : CatalogProjection → ℕ → OffsetGroup → List ℕ → Result Assignment
read_assignment c catalog_next group d = do
  (instance_id, new_generation, d1) ← read_generation group d
  (members, assigned, d2) ← read_membership c catalog_next group.progress d1
  finish_event d2
  ok (record {
    instance_id = instance_id;
    new_generation = new_generation;
    members = members;
    owners = assigned.0;
    progress = assigned.1;
  })

unfoldable pub apply_assignment :
    OffsetsProjection → ℕ → List ℕ → List ℕ → CatalogProjection → ℕ → Result OffsetsProjection
apply_assignment p offset payload d c catalog_next = do
  (group_id, d1) ← read_string max_group_id_bytes d
  elim (lookup group_id p.groups) [
    | none ↦ err (corrupt invalid_record "assignment references an unknown group")
    | some group ↦ do
      a ← read_assignment c catalog_next group d1
      ok (record p {
        groups =
            insert group_id
              (record group {
                progress = a.progress;
                generation = a.new_generation;
                assignment_offset = offset;
                assignment_body = payload;
                assignment_owner = a.owners;
                assignment_member = a.members;
                assignment_instance = a.instance_id;
              })
              p.groups;
        revision = (offset + 1) % 2 ^ 64;
      })
  ]
