-- ===== src/Offsets/Groups.antt =====
-- What the events of a group do to it.
use immulog.Prelude.{
  ℕ, ◌+◌, ◌^◌, ◌%◌, ◌≤◌, ◌≡◌, ◌∙◌, refl, sym, subst, false, true, not, ◌||◌, none, some, List, [],
  length, ltb, ◌==◌, ◌!=◌, if◌then◌else◌, arith, Option-cases, inl, inr,
}
use immulog.Prelude.Arrays.{Array}
use immulog.Prelude.Maps.{lookup, insert}
use immulog.Api.Errors.{ok, reject_if-eq-ok, >>=-eq-ok, ok-injective}
use immulog.Events.Cursor.{read_uint, require_id, expect_reserved, finish_event}
use immulog.Events.Fields.{TopicKey}
use immulog.Catalog.{id_eq, CatalogProjection}
use immulog.Offsets.{OffsetProgress, OffsetGroup, latest_next}
use immulog.Offsets.Keys.{key_eq}
use immulog.Offsets.Apply.{CommitFields, catalog_partition, is_owner, commit_progress, commit_group}
use immulog.Offsets.Assign.{
  read_generation, read_membership, Assignment, Members, Assigned, read_assignments, read_members,
  read_assignment,
}
use immulog.Offsets.Sources.{Positions, read_members-SubscribersAre, Preserves}
use immulog.Offsets.Invariant.{ArePositions, AreOwners, IsGroup, read_assignments-IsAssigned}

-- A position behind an event: it starts from where it did, and has not gone back.
pub record IsLater (p p' : OffsetProgress) : Type 0 where
  pub initial : p'.initial_next ≡ p.initial_next
  pub forward : latest_next p ≤ latest_next p'

-- Every position of the one list has its later form in the other.
abbrev pub Moves : Positions → Positions → Type 0
Moves m m' =
    (key : TopicKey) (p : OffsetProgress)
    → lookup key m ≡ some p
    → (p' : OffsetProgress) × (lookup key m' ≡ some p') × IsLater p p'

pub IsLater-refl : (p : OffsetProgress) → IsLater p p
IsLater-refl p = record { initial = refl; forward = omega arith }

pub IsLater-trans : (p q r : OffsetProgress) → IsLater p q → IsLater q r → IsLater p r
IsLater-trans p q r a b = record {
  initial = b.initial ∙ a.initial;
  forward = omega (arith, a.forward, b.forward);
}

-- What an assignment that is read brings.
pub record IsInstalled (g : OffsetGroup) (a : Assignment) : Type 0 where
  pub generation : a.new_generation ≡ (g.generation + 1) % 2 ^ 64
  pub kept : Preserves g.progress a.progress
  pub positions : ArePositions a.progress
  pub owners : AreOwners a.owners a.members a.progress

next_generation :
    (expected now new : ℕ)
    → (expected != now || new != (expected + 1) % 2 ^ 64) ≡ false
    → new ≡ (now + 1) % 2 ^ 64
next_generation expected now new h = ground arith

none_held {ℓ} : {V : Type ℓ} (key : TopicKey) (v : V) → lookup key [] ≡ some v → ⊥
unfolding lookup
none_held key v e = cc

read_generation-next :
    (g : OffsetGroup) (d : List ℕ) (t : Array 16 × ℕ × List ℕ)
    → read_generation g d ≡ ok t
    → t.1 ≡ (g.generation + 1) % 2 ^ 64
unfolding read_generation
read_generation-next g d t h =
    let ((instance_id, d1), _, h1) = >>=-eq-ok (require_id d) _ h in
    let ((expected, d2), _, h2) = >>=-eq-ok (read_uint 8 d1) _ h1 in
    let ((new, d3), _, h3) = >>=-eq-ok (read_uint 8 d2) _ h2 in
    let (t1, h4) =
      reject_if-eq-ok (expected != g.generation || new != (expected + 1) % 2 ^ 64) _ _ h3 in
    let ((reason, d4), _, h5) = >>=-eq-ok (read_uint 1 d3) _ h4 in
    let (d5, _, h6) = >>=-eq-ok (expect_reserved d4) _ h5 in
    subst (λ (u : Array 16 × ℕ × List ℕ). u.1 ≡ (g.generation + 1) % 2 ^ 64) (ok-injective h6)
      (next_generation expected g.generation new t1)

-- What a membership that is read brings.
abbrev IsMembership : Positions → Members × Assigned × List ℕ → Type 0
IsMembership progress t = Preserves progress t.1.1 × ArePositions t.1.1 × AreOwners t.1.0 t.0 t.1.1

read_membership-IsMembership :
    (c : CatalogProjection) (next : ℕ) (progress : Positions) (d : List ℕ)
    (t : Members × Assigned × List ℕ)
    → ArePositions progress
    → read_membership c next progress d ≡ ok t
    → IsMembership progress t
unfolding read_membership
read_membership-IsMembership c next progress d t v h =
    let ((count, d1), _, h1) = >>=-eq-ok (read_uint 4 d) _ h in
    let ((members, subscribed, d2), read, h2) =
      >>=-eq-ok (read_members c next count none [] [] d1) _ h1 in
    let ((n, d3), _, h3) = >>=-eq-ok (read_uint 4 d2) _ h2 in
    let ((assigned, d4), placed, h4) =
      >>=-eq-ok (read_assignments subscribed n none ([], progress) d3) _ h3 in
    let (t2, h5) = reject_if-eq-ok (length assigned.0 != length subscribed) _ _ h4 in
    let subscribers =
      read_members-SubscribersAre c next count none [] [] d1 (members, subscribed, d2)
        (λ key s there. absurd (none_held key s there)) read in
    let k =
      read_assignments-IsAssigned subscribed progress n none ([], progress) d3 (assigned, d4)
        (record {
          kept = λ key p there. there;
          positions = v;
          owners = λ key o there. absurd (none_held key o there);
        })
        placed in
    subst (IsMembership progress) (ok-injective h5) (
      k.kept,
      k.positions,
      λ key o there. (subscribers key o (k.owners key o there).0, (k.owners key o there).1),
    )

pub read_assignment-IsInstalled :
    (c : CatalogProjection) (next : ℕ) (g : OffsetGroup) (d : List ℕ) (a : Assignment)
    → IsGroup g
    → read_assignment c next g d ≡ ok a
    → IsInstalled g a
unfolding read_assignment
read_assignment-IsInstalled c next g d a v h =
    let ((instance_id, new, d1), numbered, h1) = >>=-eq-ok (read_generation g d) _ h in
    let ((members, assigned, d2), read, h2) =
      >>=-eq-ok (read_membership c next g.progress d1) _ h1 in
    let (u, _, h3) = >>=-eq-ok (finish_event d2) _ h2 in
    let (kept, positions, owners) =
      read_membership-IsMembership c next g.progress d1 (members, assigned, d2) v.positions read in
    subst (IsInstalled g) (ok-injective h3) (record {
      generation = read_generation-next g d (instance_id, new, d1) numbered;
      kept = kept;
      positions = positions;
      owners = owners;
    })

-- A position behind a commit.
commit_progress-IsLater :
    (f : CommitFields) (p p' : OffsetProgress)
    → commit_progress f p ≡ ok p'
    → IsLater p p' × (latest_next p' ≡ f.next)
unfolding commit_progress latest_next
commit_progress-IsLater f p p' h =
    let (t1, h1) =
      reject_if-eq-ok
        (if f.previous_kind == 0
          then p.has_commit || f.expected_previous != p.initial_next
          else not p.has_commit || f.expected_previous != p.committed_next)
        _ _ h in
    let (t2, h2) = reject_if-eq-ok (ltb f.next f.expected_previous) _ _ h1 in
    subst (λ (q : OffsetProgress). IsLater p q × (latest_next q ≡ f.next)) (ok-injective h2)
      (record { initial = refl; forward = ground arith }, refl)

-- What a commit that is accepted does: its token is the group's, its key's position becomes the
-- committed one, and nothing else changes.
pub record IsCommitted (g : OffsetGroup) (f : CommitFields) (g' : OffsetGroup) : Type 0 where
  pub before : OffsetProgress
  pub after : OffsetProgress
  pub held : lookup f.key g.progress ≡ some before
  pub token : is_owner g f ≡ true
  pub later : IsLater before after
  pub position : latest_next after ≡ f.next
  pub behind : g' ≡ record g { progress = insert f.key after g.progress }

pub commit_group-IsCommitted :
    (g g' : OffsetGroup) (f : CommitFields) (c : CatalogProjection) (next : ℕ)
    → commit_group g f c next ≡ ok g'
    → IsCommitted g f g'
unfolding commit_group
commit_group-IsCommitted g g' f c next h =
    let (u, _, h1) = >>=-eq-ok (catalog_partition c f.key next) _ h in
    elim (Option-cases (lookup f.key g.progress)) [
      | inl missing ↦ let h2 = rw missing at h1 in cc
      | inr (p, there) ↦
          let h2 = rw there at h1 in
          let (t, h3) = reject_if-eq-ok (not (is_owner g f)) _ _ h2 in
          let (p', moved, h4) = >>=-eq-ok (commit_progress f p) _ h3 in
          let (later, position) = commit_progress-IsLater f p p' moved in
          record {
            before = p;
            after = p';
            held = there;
            token = ground arith;
            later = later;
            position = position;
            behind = sym (ok-injective h4);
          }
    ]
