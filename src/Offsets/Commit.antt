-- ===== src/Offsets/Commit.antt =====
-- A commit that a consumer encodes is one that the projection accepts.
pub mod Fields
pub mod Holder
use immulog.Prelude.{
  ==_of_eq, ℕ, ◌+◌, ◌^◌, ◌%◌, ◌≤◌, ◌<◌, ◌≡◌, ◌∙◌, refl, sym, subst, ap, Bool, true, false, not,
  ◌||◌, some, List, [], ◌∷◌, ◌++◌, append-nil, ltb, ◌==◌, ◌!=◌, if◌then◌else◌, arith,
}
use immulog.Prelude.Arrays.{Array, bytes, array_eq, array_eq_refl, zeros}
use immulog.Prelude.Maps.{lookup, insert}
use immulog.Api.{is_zero, consumer_offsets_topic_id}
use immulog.Api.Errors.{ok, >>=-eq-ok, ok-injective}
use immulog.Format.{max_int32}
use immulog.Format.LittleEndian.{le}
use immulog.Events.Cursor.{
  read_uint, require_id, expect_reserved, finish_event, string_bytes, take_field-append,
  read_id-append, read_uint-append, read_string-append,
}
use immulog.Events.Fields.{TopicKey, decode_topic_key}
use immulog.Events.Envelope.{
  event_offset_committed, event_record, event_belongs_to_topic, encode_system_event,
  decode-encode_system_event,
}
use immulog.Catalog.{string_eq, CatalogProjection, TopicPartition}
use immulog.Offsets.{
  OffsetProgress, OffsetGroup, OffsetsProjection, latest_next, max_group_id_bytes,
}
use immulog.Offsets.Keys.{key_eq}
use immulog.Offsets.Apply.{
  commit_in, CommitFields, catalog_partition, read_commit, is_owner, commit_progress, commit_group,
  apply_commit,
}
use immulog.Offsets.Bodies.{flag_bytes, encode_commit_body}
use immulog.Offsets.Replay.{dispatch, apply}
use immulog.Offsets.Commit.Fields.{read_commit-append}
use immulog.Offsets.Commit.Holder.{
  commit_fields, committed, committed_projection, IsHolder, commit_group-committed,
}

-- The body in front of the fields of the commit.
abbrev tail_of : OffsetsProjection → OffsetGroup → Array 16 → TopicKey → OffsetProgress → ℕ → List ℕ
tail_of p g session key progress next =
    let f = commit_fields p g session key progress next in
    bytes 16 p.store_id
    ++ (bytes 16 session
        ++ (le 8 g.generation
            ++ (bytes 16 key.topic
                ++ (le 4 key.partition
                    ++ (flag_bytes f.previous_kind ++ (le 8 f.expected_previous ++ le 8 next))))))

flagged :
    (b : Bool) (x y : ℕ) (rest : List ℕ)
    → (if b then flag_bytes 1 ++ le 8 x else flag_bytes 0 ++ le 8 y) ++ rest
      ≡ flag_bytes (if b then 1 else 0) ++ (le 8 (if b then x else y) ++ rest)
flagged true x y rest = refl
flagged false x y rest = refl

encode_commit_body-tail :
    (p : OffsetsProjection) (c : CatalogProjection) (group_id : List ℕ) (g : OffsetGroup)
    (session : Array 16) (key : TopicKey) (progress : OffsetProgress) (next : ℕ) {body : List ℕ}
    → encode_commit_body p.store_id c.revision group_id session g.generation key progress next
      ≡ ok body
    → (name : List ℕ) × (string_bytes max_group_id_bytes group_id ≡ ok name)
      × (body
          ≡ bytes 16 p.store_id
            ++ (le 8 c.revision ++ (name ++ tail_of p g session key progress next)))
unfolding encode_commit_body
encode_commit_body-tail p c group_id g session key progress next h =
    let (name, named, h1) = >>=-eq-ok (string_bytes max_group_id_bytes group_id) _ h in
    (
      name,
      named,
      sym (ok-injective h1)
          ∙ ap
              (λ (xs : List ℕ).
                bytes 16 p.store_id
                ++ (le 8 c.revision
                    ++ (name
                        ++ (bytes 16 p.store_id
                            ++ (bytes 16 session
                                ++ (le 8 g.generation
                                    ++ (bytes 16 key.topic ++ (le 4 key.partition ++ xs))))))))
              (flagged progress.has_commit progress.committed_next progress.initial_next
                (le 8 next)),
    )

expected_small :
    (q : OffsetProgress)
    → latest_next q < 2 ^ 64
    → (if q.has_commit then q.committed_next else q.initial_next) < 2 ^ 64
unfolding latest_next
expected_small q l = l

commit_in-committed :
    (p : OffsetsProjection) (c : CatalogProjection) (offset : ℕ) (group_id : List ℕ)
    (g : OffsetGroup) (session : Array 16) (key : TopicKey) (progress : OffsetProgress) (next : ℕ)
    → IsHolder p c group_id g session key progress
    → latest_next progress ≤ next
    → next < 2 ^ 64
    → commit_in p offset group_id (tail_of p g session key progress next) c c.revision
      ≡ ok (committed_projection p offset group_id g key progress next)
unfolding commit_in
commit_in-committed p c offset group_id g session key progress next k h small =
    let f = commit_fields p g session key progress next in
    let kind : f.previous_kind ≤ 1 = ground arith in
    let fields =
      read_commit-append f k.store_id k.session_id k.topic_id k.index k.generation kind
        (expected_small progress k.latest) small in
    rw
      (
        commit_in,
        k.group,
        fields,
        commit_group-committed p c group_id g session key progress next k h,
      )
      refl

apply_commit-committed :
    (p : OffsetsProjection) (c : CatalogProjection) (offset : ℕ) (group_id name : List ℕ)
    (g : OffsetGroup) (session : Array 16) (key : TopicKey) (progress : OffsetProgress) (next : ℕ)
    → IsHolder p c group_id g session key progress
    → latest_next progress ≤ next
    → next < 2 ^ 64
    → string_bytes max_group_id_bytes group_id ≡ ok name
    → apply_commit p offset (name ++ tail_of p g session key progress next) c c.revision
      ≡ ok (committed_projection p offset group_id g key progress next)
unfolding apply_commit
apply_commit-committed p c offset group_id name g session key progress next k h small named =
    let read =
      read_string-append max_group_id_bytes group_id (tail_of p g session key progress next)
        (omega arith) named in
    rw read (commit_in-committed p c offset group_id g session key progress next k h small)

committed_belongs : event_belongs_to_topic event_offset_committed consumer_offsets_topic_id ≡ true
unfolding event_belongs_to_topic array_eq
committed_belongs = refl

-- A commit from a live handle, to an offset that is not in front of the key's next one, is accepted
-- by the projection when it comes back from the log. The key's next offset is then the committed
-- one, and nothing else of the projection but its revision has changed.
pub apply-encode_commit_body :
    (p : OffsetsProjection) (c : CatalogProjection) (offset : ℕ) (group_id : List ℕ)
    (g : OffsetGroup) (session : Array 16) (key : TopicKey) (progress : OffsetProgress) (next : ℕ)
    {body value : List ℕ}
    → IsHolder p c group_id g session key progress
    → latest_next progress ≤ next
    → next < 2 ^ 64
    → encode_commit_body p.store_id c.revision group_id session g.generation key progress next
      ≡ ok body
    → encode_system_event event_offset_committed body ≡ ok value
    → (apply p (event_record consumer_offsets_topic_id offset value) c
        ≡ ok (committed_projection p offset group_id g key progress next))
      × (latest_next (committed progress next) ≡ next)
unfolding apply dispatch latest_next
apply-encode_commit_body p c offset group_id g session key progress next {body} {value} k h small
      encoded sent =
    let (name, named, same) =
      encode_commit_body-tail p c group_id g session key progress next encoded in
    let read =
      decode-encode_system_event event_offset_committed body consumer_offsets_topic_id offset sent
        committed_belongs in
    let d2 = name ++ tail_of p g session key progress next in
    let known : ltb c.revision c.revision ≡ false = ground arith in
    let started : (c.revision == 0) ≡ false = let s = k.started in ground arith in
    (
      rw
          (
            read,
            same,
            read_id-append p.store_id (le 8 c.revision ++ d2),
            array_eq_refl 16 p.store_id,
            read_uint-append 8 c.revision d2 k.revision,
            started,
            known,
            apply_commit-committed p c offset group_id name g session key progress next k h small
                named,
          )
          refl,
      refl,
    )
