-- ===== src/Offsets/Steps/Commits.antt =====
-- A commit moves the position of one key of its group.
use immulog.Prelude.{
  ℕ, ◌+◌, ◌^◌, ◌%◌, ◌≤◌, ◌≡◌, ◌∙◌, refl, sym, subst, ap, some, some-injective, List, arith,
  Bool-cases, Option-cases, inl, inr,
}
use immulog.Prelude.Maps.{
  lookup, insert, lookup-insert_self, lookup-insert_ne, lookup-insert_cases, has-insert,
}
use immulog.Api.Errors.{ok, >>=-eq-ok, ok-injective}
use immulog.Events.Cursor.{read_string}
use immulog.Events.Fields.{TopicKey}
use immulog.Catalog.{id_eq, CatalogProjection, string_eq}
use immulog.Offsets.{
  OffsetProgress, OffsetGroup, latest_next, OffsetsProjection, max_group_id_bytes,
}
use immulog.Offsets.Keys.{key_eq, key_beq, key_beq→eq}
use immulog.Offsets.Apply.{CommitFields, commit_group, read_commit, apply_commit, commit_in}
use immulog.Offsets.Invariant.{IsGroup}
use immulog.Offsets.Groups.{IsLater, IsLater-refl, Moves, IsCommitted, commit_group-IsCommitted}
use immulog.Offsets.Positions.{IsLaterGroup, IsStep}

-- The positions behind a commit.
IsCommitted-Moves :
    (g g' : OffsetGroup) (f : CommitFields) → IsCommitted g f g' → Moves g.progress g'.progress
IsCommitted-Moves g g' f k key p there = elim (Bool-cases (key_beq f.key key)) [
  | inl same ↦
      let e = key_beq→eq f.key key same in
      let both : k.before ≡ p =
        some-injective (sym k.held ∙ ap (λ (i : TopicKey). lookup i g.progress) e ∙ there) in
      (
        k.after,
        subst (λ (w : OffsetGroup). lookup key w.progress ≡ some k.after) (sym k.behind)
            (subst (λ (i : TopicKey). lookup i (insert f.key k.after g.progress) ≡ some k.after) e
              (lookup-insert_self f.key k.after g.progress)),
        subst (λ (q : OffsetProgress). IsLater q k.after) both k.later,
      )
  | inr other ↦ (
    p,
    subst (λ (w : OffsetGroup). lookup key w.progress ≡ some p) (sym k.behind)
        (lookup-insert_ne f.key key k.after g.progress other ∙ there),
    IsLater-refl p,
  )
]

-- A group behind a commit.
committed-IsGroup :
    (g : OffsetGroup) (key : TopicKey) (before after : OffsetProgress)
    → IsGroup g
    → lookup key g.progress ≡ some before
    → IsLater before after
    → IsGroup (record g { progress = insert key after g.progress })
committed-IsGroup g key before after v held later = record {
  positions = λ j p there. elim (lookup-insert_cases key j after p g.progress there) [
    | inl (e, same) ↦
        let start = v.positions key before held in
        subst (λ (q : OffsetProgress). q.initial_next ≤ latest_next q) same
          (omega (arith, start, later.initial, later.forward))
    | inr (apart, old) ↦ v.positions j p old
  ];
  owners = λ j o there.
      ((v.owners j o there).0, has-insert key j after g.progress (v.owners j o there).1);
}

commit-IsStep :
    (p : OffsetsProjection) (offset : ℕ) (id : List ℕ) (g g' : OffsetGroup) (f : CommitFields)
    → lookup id p.groups ≡ some g
    → IsCommitted g f g'
    → IsStep p offset
        (record p { groups = insert id g' p.groups; revision = (offset + 1) % 2 ^ 64 })
commit-IsStep p offset id g g' f there k = record {
  id = id;
  group = g';
  behind = refl;
  valid = λ v.
      subst IsGroup (sym k.behind)
        (committed-IsGroup g f.key k.before k.after (v id g there) k.held k.later);
  later = λ v h known.
      let same : g ≡ h = some-injective (sym there ∙ known) in
      subst (λ (w : OffsetGroup). IsLaterGroup w g') same
        (record {
          mode = ap (λ (w : OffsetGroup). w.creation_start_mode) k.behind;
          starts = ap (λ (w : OffsetGroup). w.explicit_starts) k.behind;
          moves = IsCommitted-Moves g g' f k;
        });
}

pub apply_commit-IsStep :
    (p p' : OffsetsProjection) (offset : ℕ) (d : List ℕ) (c : CatalogProjection) (next : ℕ)
    → apply_commit p offset d c next ≡ ok p'
    → IsStep p offset p'
unfolding apply_commit commit_in
apply_commit-IsStep p p' offset d c next h =
    let ((id, d1), _, h1) = >>=-eq-ok (read_string max_group_id_bytes d) _ h in
    elim (Option-cases (lookup id p.groups)) [
      | inl missing ↦ let h2 = rw (commit_in, missing) at h1 in cc
      | inr (g, there) ↦
          let h2 = rw (commit_in, there) at h1 in
          let (f, _, h3) = >>=-eq-ok (read_commit d1) _ h2 in
          let (g', committed, h4) = >>=-eq-ok (commit_group g f c next) _ h3 in
          subst (IsStep p offset) (ok-injective h4) (
            commit-IsStep p offset id g g' f there
              (commit_group-IsCommitted g g' f c next committed))
    ]
