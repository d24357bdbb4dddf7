-- ===== src/Consumers/Commits/Committed.antt =====
-- What a commit of a handle does, whatever its environment answers.
use immulog.Prelude.{
  ℕ, ◌^◌, ◌≤◌, ◌<◌, ◌≡◌, refl, sym, ap, subst, Bool, true, false, not, ◌&&◌, ◌||◌, ◌⊎◌, inl, inr,
  Bool-cases, Option-cases, some, List, [], ◌∷◌, ltb, ◌==◌, ==→eq, ltb-false→le,
}
use immulog.Prelude.Maps.{lookup, has}
use immulog.Api.Errors.{
  Error, Result, ok, err, join, closed, closing, assignment_lost, ok-injective, reject_if-eq-ok,
  >>=-eq-ok, Result-cases,
}
use immulog.Events.Fields.{TopicKey}
use immulog.Catalog.{string_eq}
use immulog.Offsets.{OffsetProgress, OffsetGroup, OffsetsProjection, latest_next}
use immulog.Offsets.Keys.{key_eq}
use immulog.Partition.{Partition}
use immulog.Partition.Append.{Answers}
use immulog.Store.{Store}
use immulog.Store.Events.{end_offset}
use immulog.Consumers.{Consumer}
use immulog.Consumers.Lease.{is_expired, held_partition, active_partition, begun}
use immulog.Consumers.Commits.{
  Waiting, progress_of, check_commit, append_commit, commit_from, commit_held, commit_with,
  acquire_admission, commit,
}
use immulog.Consumers.Commits.Owner.{
  IsOpened, begun-IsOpened, IsOwner, both_true, is_assigned-IsOwner, held_partition-ok,
}
use immulog.Consumers.Commits.Appended.{IsAt, Committed, append_commit-Committed}

-- The tests on the offset.
check_commit-ok :
    (c : Consumer) (q : OffsetProgress) (p : Partition) (next : ℕ) {write : Bool}
    → check_commit c q p next ≡ ok write
    → (latest_next q ≤ next)
      × (next ≤ c.delivered)
      × (not (q.has_commit && next == latest_next q) ≡ write)
unfolding check_commit
check_commit-ok c q p next h =
    let (onward, h1) = reject_if-eq-ok (ltb next (latest_next q)) _ _ h in
    let (delivered, h2) = reject_if-eq-ok (ltb c.delivered next) _ _ h1 in
    let (end, ended, h3) = >>=-eq-ok (end_offset p) _ h2 in
    let (durable, h4) = reject_if-eq-ok (ltb end next) _ _ h3 in
    (ltb-false→le _ _ onward, ltb-false→le _ _ delivered, ok-injective h4)

-- A commit that returns is within what the handle has delivered.
abbrev pub IsDelivered : Consumer → ℕ → Result (Unit {0}) → Type 0
IsDelivered c next (err e) = Unit
IsDelivered c next (ok t) = next ≤ c.delivered

abbrev pub CommitOutcome : Store → Consumer → ℕ → Result (Unit {0}) × Store → Type 0
CommitOutcome s c next r = Committed s c next r × IsDelivered c next r.0

ok-CommitOutcome :
    (s : Store) (c : Consumer) (next : ℕ) (r : Result (Unit {0}) × Store)
    → next ≤ c.delivered
    → Committed s c next r
    → CommitOutcome s c next r
ok-CommitOutcome s c next (ok t, s') d k = (k, d)
ok-CommitOutcome s c next (err e, s') d k = (k, tt)

-- A commit of the position that the key has already.
again-IsAt :
    (p : OffsetsProjection) (group_id : List ℕ) (g : OffsetGroup) (key : TopicKey)
    (q : OffsetProgress) (next : ℕ)
    → lookup group_id p.groups ≡ some g
    → lookup key g.progress ≡ some q
    → (q.has_commit && next == latest_next q) ≡ true
    → IsAt p group_id key next
again-IsAt p group_id g key q next there at same =
    let (has_one, equal) = both_true q.has_commit (next == latest_next q) same in
    record {
      group = g;
      group_eq = there;
      progress = q;
      progress_eq = at;
      has_commit = has_one;
      next_eq = sym (==→eq next (latest_next q) equal);
    }

some_of_has :
    {V : Type 0} (key : TopicKey) (m : List (TopicKey × V))
    → has key m ≡ true
    → (v : V) × (lookup key m ≡ some v)
some_of_has key m h = elim (Option-cases (lookup key m)) [
  | inl missing ↦ let bad = rw missing at h in cc
  | inr found ↦ found
]

commit_from-CommitOutcome :
    (start : ℕ) (s : Store) (c : Consumer) (g : OffsetGroup) (q : OffsetProgress) (p : Partition)
    (next : ℕ) (a : Answers)
    → IsOpened start s c
    → IsOwner s c g
    → lookup c.group_id s.offsets_state.groups ≡ some g
    → lookup c.key g.progress ≡ some q
    → next < 2 ^ 64
    → CommitOutcome s c next (commit_from s c q p next a)
unfolding commit_from
commit_from-CommitOutcome start s c g q p next a o own there at small =
    elim (Result-cases (check_commit c q p next)) [
      | inr (e, refused) ↦ rw (commit_from, refused) ((refl, refl), tt)
      | inl (true, tested) ↦
          let (onward, delivered, new) = check_commit-ok c q p next tested in
          rw (commit_from, tested)
            (ok-CommitOutcome s c next (append_commit s c q next a) delivered
              (append_commit-Committed start s c g q next a o own there at onward small))
      | inl (false, tested) ↦
          let (onward, delivered, old) = check_commit-ok c q p next tested in
          rw (commit_from, tested)
            (
              (
                again-IsAt s.offsets_state c.group_id g c.key q next there at
                    (not_false (q.has_commit && next == latest_next q) old),
                inl refl,
              ),
              delivered,
            )
    ]
  where
    not_false : (b : Bool) → not b ≡ false → b ≡ true
    not_false true h = refl
    not_false false h = cc

commit_held-CommitOutcome :
    (start : ℕ) (s : Store) (c : Consumer) (g : OffsetGroup) (p : Partition) (next : ℕ)
    (a : Answers)
    → IsOpened start s c
    → IsOwner s c g
    → lookup c.group_id s.offsets_state.groups ≡ some g
    → next < 2 ^ 64
    → CommitOutcome s c next (commit_held s c g p next a)
unfolding commit_held
commit_held-CommitOutcome start s c g p next a o own there small =
    let valid = o.groups c.group_id g there in
    let (q, at) = some_of_has c.key g.progress (valid.owners c.key c.session own.owner).1 in
    subst (λ (x : OffsetProgress). CommitOutcome s c next (commit_from s c x p next a))
      (sym (ap progress_of at))
      (commit_from-CommitOutcome start s c g q p next a o own there at small)

-- A handle that is not active leaves the projection and the log alone.
abbrev Idle : Store → Result (OffsetGroup × Partition) × Store × Consumer → Type 0
Idle s (held, s', c') =
    (e : Error) × (held ≡ err e)
    × (s'.offsets_state ≡ s.offsets_state)
    × (s'.offsets.log_end ≡ s.offsets.log_end)

active_partition-cases :
    (s : Store) (c : Consumer) (now : ℕ) (started_before : Bool)
    → Idle s (active_partition s c now started_before)
      ⊎ (active_partition s c now started_before ≡ (held_partition s c, s, c))
unfolding active_partition
active_partition-cases s c now started_before = elim (Bool-cases (c.closed || s.closed)) [
  | inl ended ↦ inl (rw (active_partition, ended) (join (closed ∷ []) "", refl, refl, refl))
  | inr on ↦ elim (Bool-cases s.closing) [
    | inl ending ↦
        inl (rw (active_partition, on, ending) (join (closing ∷ []) "", refl, refl, refl))
    | inr staying ↦ elim (Bool-cases (is_expired c now started_before)) [
      | inl past ↦ inl (
          rw (active_partition, on, staying, past)
            (join (assignment_lost ∷ []) "", refl, refl, refl))
      | inr timely ↦ inr (rw (active_partition, on, staying, timely) refl)
    ]
  ]
]

-- What a commit answers and leaves in the store.
abbrev pub outcome_of : Result (Unit {0}) × Store × Consumer → Result (Unit {0}) × Store
outcome_of (r, s, c) = (r, s)

Idle-CommitOutcome :
    (s : Store) (c : Consumer) (w : Waiting) (next : ℕ) (a : Answers)
    (x : Result (OffsetGroup × Partition) × Store × Consumer)
    → Idle s x
    → CommitOutcome s c next (outcome_of (commit_with w next a x))
unfolding commit_with
Idle-CommitOutcome s c w next a (held, s1, c1) (e, refused, state, end) =
    rw (commit_with, refused) ((state, end), tt)

commit_with-CommitOutcome :
    (start : ℕ) (s : Store) (c : Consumer) (w : Waiting) (next : ℕ) (a : Answers)
    → IsOpened start s c
    → next < 2 ^ 64
    → CommitOutcome s c next (outcome_of (commit_with w next a (held_partition s c, s, c)))
unfolding commit_with
commit_with-CommitOutcome start s c w next a o small = elim (Result-cases (held_partition s c)) [
  | inr (e, lost) ↦ rw (commit_with, lost) ((refl, refl), tt)
  | inl ((g, p), held) ↦
      let (there, kept) = held_partition-ok s c held in
      let own = is_assigned-IsOwner s c g o.session_id kept in
      rw (commit_with, held)
        (commit_held-CommitOutcome start s (begun c w.now) g p next a
          (begun-IsOpened start s c w.now o)
          (record { generation = own.generation; own = own.own; owner = own.owner }) there small)
]

-- Take a handle that has its identifiers, over a valid offsets log, a projection that a log builds
-- for the store, and a catalog that knows the key's partition. Whatever the locks, the clock and the
-- file system answer, a commit of a 64-bit offset that returns without an error is within what the
-- handle has delivered and has the key's committed position at the offset; it has added one event to
-- the offsets log, or changed nothing in the store. A commit with an error leaves every position and
-- the end of the log as they were. So the positions in memory move exactly when the log does.
pub commit-CommitOutcome :
    (start : ℕ) (s : Store) (c : Consumer) (w : Waiting) (next : ℕ) (a : Answers)
    → IsOpened start s c
    → next < 2 ^ 64
    → CommitOutcome s c next (outcome_of (commit s c w next a))
unfolding commit
commit-CommitOutcome start s c w next a o small = elim (Option-cases w.cancelled) [
  | inr (e, over) ↦ rw (commit, over) ((refl, refl), tt)
  | inl waiting ↦ elim (Bool-cases w.contended) [
    | inl busy ↦ rw (commit, waiting, busy) ((refl, refl), tt)
    | inr free ↦ elim (Option-cases (acquire_admission s w.abandoned)) [
      | inr (e, out) ↦ rw (commit, waiting, free, out) ((refl, refl), tt)
      | inl admitted ↦
          rw (commit, waiting, free, admitted)
            (elim (active_partition-cases s c w.now w.started_before) [
              | inl idle ↦
                  Idle-CommitOutcome s c w next a (active_partition s c w.now w.started_before) idle
              | inr active ↦
                  subst
                    (λ (x : Result (OffsetGroup × Partition) × Store × Consumer).
                      CommitOutcome s c next (outcome_of (commit_with w next a x)))
                    (sym active) (commit_with-CommitOutcome start s c w next a o small)
            ])
    ]
  ]
]
