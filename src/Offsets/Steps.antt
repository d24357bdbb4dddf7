-- ===== src/Offsets/Steps.antt =====
-- What each event of the offsets log does to the groups.
pub mod Commits
use immulog.Prelude.{
  ℕ, ◌+◌, ◌^◌, ◌%◌, ◌≤◌, ◌≡◌, ◌∙◌, refl, sym, subst, ap, false, not, ◌&&◌, ◌||◌, Option, none, some,
  some-injective, List, [], ltb, ◌==◌, ◌!=◌, arith, Bool-cases, Option-cases, inl, inr,
}
use immulog.Prelude.Arrays.{array_eq, zeros}
use immulog.Prelude.Maps.{
  lookup, insert, has, is_some, lookup-insert_self, lookup-insert_ne, lookup-insert_cases,
  has-insert,
}
use immulog.Api.Errors.{ok, reject_if-eq-ok, >>=-eq-ok, ok-injective}
use immulog.Events.Cursor.{read_uint, read_id, expect_reserved, finish_event, read_string}
use immulog.Events.Fields.{TopicKey}
use immulog.Catalog.{id_eq, CatalogProjection, string_eq}
use immulog.Offsets.{
  OffsetProgress, OffsetGroup, latest_next, OffsetsProjection, max_group_id_bytes,
}
use immulog.Offsets.Keys.{key_eq, key_beq, key_beq→eq}
use immulog.Offsets.Apply.{
  CommitFields, commit_group, read_starts, read_commit, apply_group_created, apply_commit,
  commit_in,
}
use immulog.Offsets.Assign.{read_assignment, apply_assignment}
use immulog.Api.{Record, consumer_offsets_topic_id}
use immulog.Events.Envelope.{
  event_group_created, event_local_assignment_changed, event_offset_committed, decode_system_event,
}
use immulog.Offsets.Replay.{dispatch, apply}
use immulog.Offsets.Invariant.{IsGroup}
use immulog.Offsets.Groups.{
  IsLater, IsLater-refl, Moves, read_assignment-IsInstalled, IsCommitted, commit_group-IsCommitted,
}
use immulog.Offsets.Positions.{AreGroups, IsLaterGroup, IsStep, absent, no_position}
use immulog.Offsets.Steps.Commits.{apply_commit-IsStep}

apply_group_created-IsStep :
    (p p' : OffsetsProjection) (offset : ℕ) (payload d : List ℕ) (c : CatalogProjection) (next : ℕ)
    → apply_group_created p offset payload d c next ≡ ok p'
    → IsStep p offset p'
unfolding apply_group_created
apply_group_created-IsStep p p' offset payload d c next h =
    let ((id, d1), _, h1) = >>=-eq-ok (read_string max_group_id_bytes d) _ h in
    let (t1, h2) = reject_if-eq-ok (has id p.groups) _ _ h1 in
    let ((mode, d2), _, h3) = >>=-eq-ok (read_uint 1 d1) _ h2 in
    let (t2, h4) = reject_if-eq-ok (ltb mode 1 || ltb 3 mode) _ _ h3 in
    let (d3, _, h5) = >>=-eq-ok (expect_reserved d2) _ h4 in
    let ((count, d4), _, h6) = >>=-eq-ok (read_uint 4 d3) _ h5 in
    let (t3, h7) =
      reject_if-eq-ok (((mode == 1 || mode == 2) && count != 0) || (mode == 3 && count == 0)) _ _
        h6 in
    let ((explicit, d5), _, h8) = >>=-eq-ok (read_starts c next count none [] d4) _ h7 in
    let (u, _, h9) = >>=-eq-ok (finish_event d5) _ h8 in
    record {
      id = id;
      group = record {
        creation_offset = offset;
        creation_body = payload;
        generation = 0;
        assignment_offset = 0;
        assignment_body = [];
        assignment_owner = [];
        assignment_member = [];
        assignment_instance = zeros 16;
        creation_start_mode = mode;
        explicit_starts = explicit;
        progress = [];
      };
      behind = sym (ok-injective h9);
      valid = λ v. record {
        positions = λ key q there. absurd (no_position key q there);
        owners = λ key o there. absurd (no_position key o there);
      };
      later = λ v g there.
          let missing = absent (lookup id p.groups) t1 in absurd (apart g there missing);
    }
  where
    apart : (g : OffsetGroup) {o : Option OffsetGroup} → o ≡ some g → o ≡ none → ⊥
    apart g a b = cc

apply_assignment-IsStep :
    (p p' : OffsetsProjection) (offset : ℕ) (payload d : List ℕ) (c : CatalogProjection) (next : ℕ)
    → apply_assignment p offset payload d c next ≡ ok p'
    → IsStep p offset p'
unfolding apply_assignment
apply_assignment-IsStep p p' offset payload d c next h =
    let ((id, d1), _, h1) = >>=-eq-ok (read_string max_group_id_bytes d) _ h in
    elim (Option-cases (lookup id p.groups)) [
      | inl missing ↦ let h2 = rw missing at h1 in cc
      | inr (g, there) ↦
          let h2 = rw there at h1 in
          let (a, read, h3) = >>=-eq-ok (read_assignment c next g d1) _ h2 in
          record {
            id = id;
            group = record g {
              progress = a.progress;
              generation = a.new_generation;
              assignment_offset = offset;
              assignment_body = payload;
              assignment_owner = a.owners;
              assignment_member = a.members;
              assignment_instance = a.instance_id;
            };
            behind = sym (ok-injective h3);
            valid = λ v.
                let k = read_assignment-IsInstalled c next g d1 a (v id g there) read in
                record { positions = k.positions; owners = k.owners };
            later = λ v f known.
                let k = read_assignment-IsInstalled c next g d1 a (v id g there) read in
                let same : g ≡ f = some-injective (sym there ∙ known) in
                subst
                  (λ (w : OffsetGroup). IsLaterGroup w (record g {
                    progress = a.progress;
                    generation = a.new_generation;
                    assignment_offset = offset;
                    assignment_body = payload;
                    assignment_owner = a.owners;
                    assignment_member = a.members;
                    assignment_instance = a.instance_id;
                  }))
                  same
                  (record {
                    mode = refl;
                    starts = refl;
                    moves = λ key q at_key. (q, k.kept key q at_key, IsLater-refl q);
                  });
          }
    ]

dispatch-IsStep :
    (p p' : OffsetsProjection) (kind offset : ℕ) (payload d : List ℕ) (c : CatalogProjection)
    (next : ℕ)
    → dispatch p kind offset payload d c next ≡ ok p'
    → IsStep p offset p'
unfolding dispatch
dispatch-IsStep p p' kind offset payload d c next h =
    elim (Bool-cases (kind == event_group_created)) [
      | inl a ↦ apply_group_created-IsStep p p' offset payload d c next (rw (dispatch, a) at h)
      | inr a ↦
          let h1 = rw (dispatch, a) at h in
          elim (Bool-cases (kind == event_local_assignment_changed)) [
            | inl b ↦ apply_assignment-IsStep p p' offset payload d c next (rw b at h1)
            | inr b ↦
                let h2 = rw b at h1 in
                elim (Bool-cases (kind == event_offset_committed)) [
                  | inl e ↦ apply_commit-IsStep p p' offset d c next (rw e at h2)
                  | inr e ↦ let h3 = rw e at h2 in cc
                ]
          ]
    ]

pub apply-IsStep :
    (p p' : OffsetsProjection) (r : Record) (c : CatalogProjection)
    → apply p r c ≡ ok p'
    → IsStep p r.offset p'
unfolding apply
apply-IsStep p p' r c h =
    let ((kind, payload), _, h1) =
      >>=-eq-ok (decode_system_event r consumer_offsets_topic_id) _ h in
    let ((store, d1), _, h2) = >>=-eq-ok (read_id payload) _ h1 in
    let (t1, h3) = reject_if-eq-ok (not (array_eq 16 store p.store_id)) _ _ h2 in
    let ((next, d2), _, h4) = >>=-eq-ok (read_uint 8 d1) _ h3 in
    let (t2, h5) = reject_if-eq-ok (next == 0 || ltb c.revision next) _ _ h4 in
    dispatch-IsStep p p' kind r.offset payload d2 c next h5
