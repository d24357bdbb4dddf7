-- ===== src/Offsets/Invariant.antt =====
-- What holds of every group that an offsets log builds.
use immulog.Prelude.{
  ℕ, zero, suc, ◌≤◌, ◌≡◌, ◌∙◌, refl, sym, subst, ap, Bool, false, true, not, ◌||◌, Option, some,
  List, ltb, ◌==◌, ◌!=◌, arith, Bool-cases, Option-cases, inl, inr,
}
use immulog.Prelude.Arrays.{Array, array_eq, array_eq→eq, array_eq_refl, zeros}
use immulog.Prelude.Maps.{lookup, insert, has, is_some, lookup-insert_cases}
use immulog.Api.Errors.{ok, reject_if-eq-ok, >>=-eq-ok, ok-injective}
use immulog.Events.Cursor.{read_uint, require_id, read_id, expect_reserved}
use immulog.Events.Fields.{TopicKey, decode_topic_key}
use immulog.Catalog.{id_eq}
use immulog.Offsets.{OffsetProgress, OffsetGroup, latest_next}
use immulog.Offsets.Keys.{key_eq, out_of_order}
use immulog.Offsets.Assign.{
  Members, Assigned, is_subscriber, assign_progress, read_entry, read_assignments,
}
use immulog.Offsets.Sources.{Owners, Positions, Preserves, assign_progress-keeps}

-- No position lies in front of the one that its key started from.
abbrev pub ArePositions : Positions → Type 0
ArePositions m =
    (key : TopicKey) (p : OffsetProgress) → lookup key m ≡ some p → p.initial_next ≤ latest_next p

-- The owner of each key is a member, and the key has a position.
abbrev pub AreOwners : Owners → Members → Positions → Type 0
AreOwners owners members progress =
    (key : TopicKey) (owner : Array 16)
    → lookup key owners ≡ some owner
    → (has owner members ≡ true) × (has key progress ≡ true)

pub record IsGroup (g : OffsetGroup) : Type 0 where
  pub positions : ArePositions g.progress
  pub owners : AreOwners g.assignment_owner g.assignment_member g.progress

assign_progress-ArePositions :
    (key : TopicKey) (action resume initial : ℕ) (m m' : Positions)
    → ArePositions m
    → assign_progress key action resume initial m ≡ ok m'
    → ArePositions m'
unfolding assign_progress latest_next
assign_progress-ArePositions key action resume initial m m' v h j p there =
    elim (Bool-cases (action == 1)) [
      | inl new ↦
          let h1 = rw (assign_progress, new) at h in
          let (t, h2) = reject_if-eq-ok (has key m || initial != resume) _ _ h1 in
          let fresh : OffsetProgress = record {
            initial_next = initial;
            has_commit = false;
            committed_next = 0;
          } in
          elim (lookup-insert_cases key j fresh p m
            (subst (λ (n : Positions). lookup j n ≡ some p) (sym (ok-injective h2)) there)) [
              | inl (e, same) ↦
                  subst (λ (q : OffsetProgress). q.initial_next ≤ latest_next q) same (omega arith)
              | inr (apart, old) ↦ v j p old
            ]
      | inr reuse ↦
          let h1 = rw (assign_progress, reuse) at h in
          elim (Option-cases (lookup key m)) [
            | inl missing ↦ let h2 = rw missing at h1 in cc
            | inr (q, known) ↦
                let h2 = rw known at h1 in
                let (t, h3) = reject_if-eq-ok (initial != 0 || resume != latest_next q) _ _ h2 in
                v j p (subst (λ (n : Positions). lookup j n ≡ some p) (sym (ok-injective h3)) there)
          ]
    ]

not-false : (b : Bool) → not b ≡ false → b ≡ true
not-false true h = refl
not-false false h = cc

require_id-ne-zero :
    (d rest : List ℕ) (id : Array 16)
    → require_id d ≡ ok (id, rest)
    → array_eq 16 id (zeros 16) ≡ false
unfolding require_id
require_id-ne-zero d rest id h =
    let ((i, d1), _, h1) = >>=-eq-ok (read_id d) _ h in
    let (t, h2) = reject_if-eq-ok (array_eq 16 i (zeros 16)) _ _ h1 in
    let same : i ≡ id = ap (λ (u : Array 16 × List ℕ). u.0) (ok-injective h2) in
    subst (λ (j : Array 16). array_eq 16 j (zeros 16) ≡ false) same t

is_subscriber-lookup :
    (key : TopicKey) (owner : Array 16) (subscribed : Owners)
    → array_eq 16 owner (zeros 16) ≡ false
    → is_subscriber key owner subscribed ≡ true
    → lookup key subscribed ≡ some owner
unfolding is_subscriber
is_subscriber-lookup key owner subscribed z h = elim (Option-cases (lookup key subscribed)) [
  | inl missing ↦
      let h1 = rw (is_subscriber, missing) at h in
      let e = array_eq→eq 16 (zeros 16) owner h1 in
      let z' = subst (λ (i : Array 16). array_eq 16 i (zeros 16) ≡ false) (sym e) z in
      let r = array_eq_refl 16 (zeros 16) in cc
  | inr (s, there) ↦
      let h1 = rw (is_subscriber, there) at h in there ∙ ap some (array_eq→eq 16 s owner h1)
]

-- The loops' invariant over the assignments read so far.
pub record IsAssigned (subscribed : Owners) (before : Positions) (a : Assigned) : Type 0 where
  pub kept : Preserves before a.1
  pub positions : ArePositions a.1
  pub owners :
      (key : TopicKey) (owner : Array 16)
      → lookup key a.0 ≡ some owner
      → (lookup key subscribed ≡ some owner) × (has key a.1 ≡ true)

pub has-Preserves :
    (m m' : Positions) (key : TopicKey) → Preserves m m' → has key m ≡ true → has key m' ≡ true
has-Preserves m m' key k h = elim (Option-cases (lookup key m)) [
  | inl missing ↦ let h1 = rw missing at h in cc
  | inr (p, there) ↦ ap is_some (k key p there)
]

-- The lists with one assignment more.
entry-IsAssigned :
    (subscribed : Owners) (before progress : Positions) (a : Assigned) (key : TopicKey)
    (owner : Array 16) (action resume initial : ℕ)
    → IsAssigned subscribed before a
    → lookup key subscribed ≡ some owner
    → assign_progress key action resume initial a.1 ≡ ok progress
    → IsAssigned subscribed before (insert key owner a.0, progress)
entry-IsAssigned subscribed before progress a key owner action resume initial v subscriber placed =
    let (kept, there) = assign_progress-keeps key action resume initial a.1 progress placed in
    record {
      kept = λ j p old. kept j p (v.kept j p old);
      positions =
          assign_progress-ArePositions key action resume initial a.1 progress v.positions placed;
      owners = λ j o found. elim (lookup-insert_cases key j owner o a.0 found) [
        | inl (e, same) ↦ (
          subst (λ (i : TopicKey). lookup i subscribed ≡ some o) e (subscriber ∙ ap some same),
          subst (λ (i : TopicKey). has i progress ≡ true) e there,
        )
        | inr (apart, old) ↦
            ((v.owners j o old).0, has-Preserves a.1 progress j kept (v.owners j o old).1)
      ];
    }

read_entry-IsAssigned :
    (subscribed : Owners) (before : Positions) (previous : Option TopicKey) (a : Assigned)
    (d : List ℕ) (t : TopicKey × Assigned × List ℕ)
    → IsAssigned subscribed before a
    → read_entry subscribed previous a d ≡ ok t
    → IsAssigned subscribed before t.1
unfolding read_entry
read_entry-IsAssigned subscribed before previous a d t v h =
    let ((key, d1), _, h1) = >>=-eq-ok (decode_topic_key d) _ h in
    let (t1, h2) = reject_if-eq-ok (out_of_order previous key) _ _ h1 in
    let ((owner, d2), owned, h3) = >>=-eq-ok (require_id d1) _ h2 in
    let (t2, h4) = reject_if-eq-ok (not (is_subscriber key owner subscribed)) _ _ h3 in
    let ((resume, d3), _, h5) = >>=-eq-ok (read_uint 8 d2) _ h4 in
    let ((action, d4), _, h6) = >>=-eq-ok (read_uint 1 d3) _ h5 in
    let (t3, h7) = reject_if-eq-ok (ltb 1 action) _ _ h6 in
    let (d5, _, h8) = >>=-eq-ok (expect_reserved d4) _ h7 in
    let ((initial, d6), _, h9) = >>=-eq-ok (read_uint 8 d5) _ h8 in
    let (progress, placed, h10) = >>=-eq-ok (assign_progress key action resume initial a.1) _ h9 in
    let subscriber =
      is_subscriber-lookup key owner subscribed (require_id-ne-zero d1 d2 owner owned)
        (not-false (is_subscriber key owner subscribed) t2) in
    subst (λ (u : TopicKey × Assigned × List ℕ). IsAssigned subscribed before u.1)
      (ok-injective h10)
      (entry-IsAssigned subscribed before progress a key owner action resume initial v subscriber
        placed)

pub read_assignments-IsAssigned :
    (subscribed : Owners) (before : Positions) (count : ℕ) (previous : Option TopicKey)
    (a : Assigned) (d : List ℕ) (t : Assigned × List ℕ)
    → IsAssigned subscribed before a
    → read_assignments subscribed count previous a d ≡ ok t
    → IsAssigned subscribed before t.0
unfolding read_assignments
read_assignments-IsAssigned subscribed before zero previous a d t v h =
    subst (λ (u : Assigned × List ℕ). IsAssigned subscribed before u.0) (ok-injective h) v
read_assignments-IsAssigned subscribed before (suc count) previous a d t v h =
    let ((key, a', d'), read, h1) = >>=-eq-ok (read_entry subscribed previous a d) _ h in
    read_assignments-IsAssigned subscribed before count (some key) a' d' t
      (read_entry-IsAssigned subscribed before previous a d (key, a', d') v read) h1
