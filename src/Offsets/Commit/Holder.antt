-- ===== src/Offsets/Commit/Holder.antt =====
-- The handle of a session, and what its commit does to its group.
use immulog.Prelude.{
  ==_of_eq, ℕ, ◌+◌, ◌^◌, ◌%◌, ◌≤◌, ◌<◌, ◌≡◌, refl, true, false, not, ◌||◌, some, List, ltb, ◌==◌,
  ◌!=◌, if◌then◌else◌, arith,
}
use immulog.Prelude.Arrays.{Array, array_eq, array_eq_refl, zeros}
use immulog.Prelude.Maps.{lookup, insert}
use immulog.Api.{is_zero}
use immulog.Api.Errors.{ok}
use immulog.Format.{max_int32}
use immulog.Events.Fields.{TopicKey}
use immulog.Catalog.{string_eq, CatalogProjection, TopicPartition}
use immulog.Offsets.{OffsetProgress, OffsetGroup, OffsetsProjection, latest_next}
use immulog.Offsets.Keys.{key_eq}
use immulog.Offsets.Apply.{CommitFields, catalog_partition, is_owner, commit_progress, commit_group}

-- The fields that `encodeCommitBody` writes.
abbrev pub commit_fields :
    OffsetsProjection → OffsetGroup → Array 16 → TopicKey → OffsetProgress → ℕ → CommitFields
commit_fields p g session key progress next = record {
  instance_id = p.store_id;
  session = session;
  generation = g.generation;
  key = key;
  previous_kind = if progress.has_commit then 1 else 0;
  expected_previous =
      if progress.has_commit then progress.committed_next else progress.initial_next;
  next = next;
}

-- A group's position behind a commit.
abbrev pub committed : OffsetProgress → ℕ → OffsetProgress
committed progress next = record progress { has_commit = true; committed_next = next }

-- The projection behind it.
abbrev pub committed_projection :
    OffsetsProjection → ℕ → List ℕ → OffsetGroup → TopicKey → OffsetProgress → ℕ → OffsetsProjection
committed_projection p offset group_id g key progress next = record p {
  groups =
      insert group_id (record g { progress = insert key (committed progress next) g.progress })
        p.groups;
  revision = (offset + 1) % 2 ^ 64;
}

-- The handle of a session is live: the group's assignment belongs to this store, the session owns
-- the key, which has a position, and the catalog has the partition at its revision. The numbers fit
-- their fields.
pub record IsHolder (p : OffsetsProjection) (c : CatalogProjection) (group_id : List ℕ)
    (g : OffsetGroup) (session : Array 16) (key : TopicKey) (progress : OffsetProgress)
    : Type 0 where
  pub partition : TopicPartition
  pub group : lookup group_id p.groups ≡ some g
  pub position : lookup key g.progress ≡ some progress
  pub owner : lookup key g.assignment_owner ≡ some session
  pub own : g.assignment_instance ≡ p.store_id
  pub known : catalog_partition c key c.revision ≡ ok partition
  pub store_id : array_eq 16 p.store_id (zeros 16) ≡ false
  pub session_id : array_eq 16 session (zeros 16) ≡ false
  pub topic_id : is_zero key.topic ≡ false
  pub index : key.partition ≤ max_int32
  pub started : 0 < c.revision
  pub revision : c.revision < 2 ^ 64
  pub generation : g.generation < 2 ^ 64
  pub latest : latest_next progress < 2 ^ 64

commit_progress-committed :
    (progress : OffsetProgress) (f : CommitFields)
    → f.previous_kind ≡ (if progress.has_commit then 1 else 0)
    → f.expected_previous
      ≡ (if progress.has_commit then progress.committed_next else progress.initial_next)
    → latest_next progress ≤ f.next
    → commit_progress f progress ≡ ok (committed progress f.next)
unfolding commit_progress latest_next
commit_progress-committed progress f e1 e2 h =
    let matches : (if f.previous_kind == 0
          then progress.has_commit || f.expected_previous != progress.initial_next
          else not progress.has_commit || f.expected_previous != progress.committed_next)
        ≡ false =
      ground arith in
    let forward : ltb f.next f.expected_previous ≡ false = ground arith in
    rw (matches, forward) refl

is_owner-holder :
    (p : OffsetsProjection) (c : CatalogProjection) (group_id : List ℕ) (g : OffsetGroup)
    (session : Array 16) (key : TopicKey) (progress : OffsetProgress) (next : ℕ)
    → IsHolder p c group_id g session key progress
    → is_owner g (commit_fields p g session key progress next) ≡ true
unfolding is_owner
is_owner-holder p c group_id g session key progress next k =
    let token : array_eq 16 p.store_id g.assignment_instance ≡ true =
      rw k.own (array_eq_refl 16 p.store_id) in
    rw (is_owner, k.owner, ==_of_eq g.generation g.generation refl, array_eq_refl 16 session, token)
      refl

pub commit_group-committed :
    (p : OffsetsProjection) (c : CatalogProjection) (group_id : List ℕ) (g : OffsetGroup)
    (session : Array 16) (key : TopicKey) (progress : OffsetProgress) (next : ℕ)
    → IsHolder p c group_id g session key progress
    → latest_next progress ≤ next
    → commit_group g (commit_fields p g session key progress next) c c.revision
      ≡ ok (record g { progress = insert key (committed progress next) g.progress })
unfolding commit_group
commit_group-committed p c group_id g session key progress next k h =
    rw
      (
        k.known,
        k.position,
        is_owner-holder p c group_id g session key progress next k,
        commit_progress-committed progress (commit_fields p g session key progress next) refl refl
            h,
      )
      refl
