-- ===== src/Consumers/Commits/Appended.antt =====
-- What the event of a commit does to the group's position and to the offsets log.
use immulog.Prelude.{
  ℕ, ◌+◌, ◌^◌, ◌≤◌, ◌<◌, ◌≡◌, refl, sym, ◌∙◌, ap, true, ◌⊎◌, inl, inr, some, List, arith,
}
use immulog.Prelude.Maps.{lookup, insert, lookup-insert_self}
use immulog.Api.{consumer_offsets_topic_id}
use immulog.Api.Errors.{Result, ok, err, ok-injective, >>=-eq-ok, Result-cases}
use immulog.Events.Fields.{TopicKey}
use immulog.Events.Envelope.{event_offset_committed, event_record, encode_system_event}
use immulog.Catalog.{string_eq}
use immulog.Offsets.{OffsetProgress, OffsetGroup, OffsetsProjection, latest_next}
use immulog.Offsets.Keys.{key_eq}
use immulog.Offsets.Replay.{apply}
use immulog.Offsets.Bodies.{encode_commit_body}
use immulog.Offsets.Commit.Holder.{IsHolder, committed, committed_projection}
use immulog.Offsets.Commit.{apply-encode_commit_body}
use immulog.Partition.{Partition}
use immulog.Partition.Append.{Answers, append_batch}
use immulog.Partition.Appends.{Outcome}
use immulog.Partition.Batches.{append_batch-Outcome}
use immulog.Store.{Store}
use immulog.Store.Capacity.{event_batch, system_event_admission}
use immulog.Store.Events.{
  end_offset, project_event, append_event, admit_event, append_offsets_event, group_append_error,
  commit_append_error,
}
use immulog.Consumers.{Consumer}
use immulog.Consumers.Commits.{commit_result, append_commit}
use immulog.Consumers.Commits.Owner.{IsOpened, IsOwner}

-- The key of the handle has a committed position.
pub record IsAt (p : OffsetsProjection) (group_id : List ℕ) (key : TopicKey) (next : ℕ)
    : Type 0 where
  pub group : OffsetGroup
  pub group_eq : lookup group_id p.groups ≡ some group
  pub progress : OffsetProgress
  pub progress_eq : lookup key group.progress ≡ some progress
  pub has_commit : progress.has_commit ≡ true
  pub next_eq : latest_next progress ≡ next

-- A commit that fails leaves the positions and the end of the log as they are. One that returns has
-- the key at the offset, and where it has written anything the log has one event more.
abbrev pub Committed : Store → Consumer → ℕ → Result (Unit {0}) × Store → Type 0
Committed s c next (err e, s') =
    (s'.offsets_state ≡ s.offsets_state) × (s'.offsets.log_end ≡ s.offsets.log_end)
Committed s c next (ok t, s') =
    IsAt s'.offsets_state c.group_id c.key next
    × ((s' ≡ s) ⊎ (s'.offsets.log_end ≡ s.offsets.log_end + 1))

pub commit_result-Committed :
    (s : Store) (c : Consumer) (next : ℕ) (r : Result (Unit {0}) × Store)
    → Committed s c next r
    → Committed s c next (commit_result r)
unfolding commit_result commit_append_error group_append_error
commit_result-Committed s c next (ok t, s') k = k
commit_result-Committed s c next (err e, s') k = ground arith

pub committed-IsAt :
    (p : OffsetsProjection) (offset : ℕ) (group_id : List ℕ) (g : OffsetGroup) (key : TopicKey)
    (q : OffsetProgress) (next : ℕ)
    → IsAt (committed_projection p offset group_id g key q next) group_id key next
unfolding latest_next
committed-IsAt p offset group_id g key q next = record {
  group = record g { progress = insert key (committed q next) g.progress };
  group_eq =
      lookup-insert_self group_id (record g { progress = insert key (committed q next) g.progress })
        p.groups;
  progress = committed q next;
  progress_eq = lookup-insert_self key (committed q next) g.progress;
  has_commit = refl;
  next_eq = refl;
}

pub append_event-Committed :
    (start : ℕ) (s : Store) (c : Consumer) (next base : ℕ) (value : List ℕ) (p : OffsetsProjection)
    (r : Result ℕ × Partition)
    → Outcome start s.offsets (event_batch consumer_offsets_topic_id base value) r
    → apply s.offsets_state (event_record consumer_offsets_topic_id base value) s.catalog_state
      ≡ ok p
    → IsAt p c.group_id c.key next
    → Committed s c next (append_event s base value r)
unfolding append_event project_event
append_event-Committed start s c next base value p (err e, offsets) o applied at = (refl, o.0)
append_event-Committed start s c next base value p (ok first, offsets) o applied at =
    rw (append_event, applied, project_event) (at, inr o.1)

owner-IsHolder :
    (start : ℕ) (s : Store) (c : Consumer) (g : OffsetGroup) (q : OffsetProgress)
    → IsOpened start s c
    → IsOwner s c g
    → lookup c.group_id s.offsets_state.groups ≡ some g
    → lookup c.key g.progress ≡ some q
    → latest_next q < 2 ^ 64
    → IsHolder s.offsets_state s.catalog_state c.group_id g c.session c.key q
owner-IsHolder start s c g q o own there at small = record {
  partition = o.partition;
  group = there;
  position = at;
  owner = own.owner;
  own = own.own ∙ sym o.store;
  known = o.known;
  store_id = rw o.store o.store_id;
  session_id = o.session_id;
  topic_id = o.topic_id;
  index = o.index;
  started = o.started;
  revision = o.revision;
  generation = rw own.generation o.generation;
  latest = small;
}

append_offsets_event-Committed :
    (start : ℕ) (s : Store) (c : Consumer) (g : OffsetGroup) (q : OffsetProgress) (next : ℕ)
    (a : Answers) {body : List ℕ}
    → IsOpened start s c
    → IsOwner s c g
    → lookup c.group_id s.offsets_state.groups ≡ some g
    → lookup c.key g.progress ≡ some q
    → latest_next q ≤ next
    → next < 2 ^ 64
    → encode_commit_body s.store_id s.catalog_state.revision c.group_id c.session c.generation c.key
        q next
      ≡ ok body
    → Committed s c next (append_offsets_event s event_offset_committed body a)
unfolding append_offsets_event admit_event
append_offsets_event-Committed start s c g q next a {body} o own there at onward small encoded =
    elim (Result-cases (admit_event s event_offset_committed body)) [
      | inr (e, refused) ↦ rw (append_offsets_event, refused) (refl, refl)
      | inl ((value, base), admitted) ↦
          let (value', sent, h1) =
            >>=-eq-ok (encode_system_event event_offset_committed body) _ admitted in
          let (base', ended, h2) = >>=-eq-ok (end_offset s.offsets) _ h1 in
          let (t, room, h3) =
            >>=-eq-ok
              (system_event_admission s.offsets consumer_offsets_topic_id base' value'
                s.max_offsets_history_bytes)
              _ h2 in
          let same = ap (λ (x : List ℕ × ℕ). x.0) (ok-injective h3) in
          let holder : IsHolder s.offsets_state s.catalog_state c.group_id g c.session c.key q =
            owner-IsHolder start s c g q o own there at (omega arith) in
          let encoded' : encode_commit_body s.offsets_state.store_id s.catalog_state.revision
                c.group_id c.session g.generation c.key q next
              ≡ ok body =
            rw (o.store, own.generation) encoded in
          let applied =
            apply-encode_commit_body s.offsets_state s.catalog_state base c.group_id g c.session
              c.key q next holder onward small encoded' (sent ∙ ap ok same) in
          rw (append_offsets_event, admitted)
            (append_event-Committed start s c next base value
              (committed_projection s.offsets_state base c.group_id g c.key q next)
              (append_batch s.offsets (event_batch consumer_offsets_topic_id base value) a)
              (append_batch-Outcome start s.offsets
                (event_batch consumer_offsets_topic_id base value) a o.log (omega arith, tt))
              applied.0 (committed-IsAt s.offsets_state base c.group_id g c.key q next))
    ]

pub append_commit-Committed :
    (start : ℕ) (s : Store) (c : Consumer) (g : OffsetGroup) (q : OffsetProgress) (next : ℕ)
    (a : Answers)
    → IsOpened start s c
    → IsOwner s c g
    → lookup c.group_id s.offsets_state.groups ≡ some g
    → lookup c.key g.progress ≡ some q
    → latest_next q ≤ next
    → next < 2 ^ 64
    → Committed s c next (append_commit s c q next a)
unfolding append_commit
append_commit-Committed start s c g q next a o own there at onward small =
    elim (Result-cases (
      encode_commit_body s.store_id s.catalog_state.revision c.group_id c.session c.generation c.key
        q next)) [
          | inr (e, refused) ↦ rw (append_commit, refused) (refl, refl)
          | inl (body, encoded) ↦
              rw (append_commit, encoded)
                (commit_result-Committed s c next
                  (append_offsets_event s event_offset_committed body a)
                  (append_offsets_event-Committed start s c g q next a o own there at onward small
                    encoded))
        ]
