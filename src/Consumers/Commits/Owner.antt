-- ===== src/Consumers/Commits/Owner.antt =====
-- An opened handle, and what the tests on its assignment establish.
use immulog.Prelude.{
  ℕ, ◌^◌, ◌≤◌, ◌<◌, ◌≡◌, refl, sym, ◌∙◌, ap, subst, Bool, true, false, not, ◌&&◌, inl, inr,
  Bool-cases, Option-cases, some, ◌==◌, ==→eq,
}
use immulog.Prelude.Arrays.{Array, array_eq, array_eq→eq, array_eq_refl, zeros}
use immulog.Prelude.Maps.{lookup}
use immulog.Api.{is_zero}
use immulog.Api.Errors.{ok, ok-injective}
use immulog.Format.{max_int32}
use immulog.Catalog.{string_eq, TopicPartition}
use immulog.Offsets.{OffsetGroup}
use immulog.Offsets.Keys.{key_eq}
use immulog.Offsets.Apply.{catalog_partition}
use immulog.Offsets.Assign.{is_subscriber}
use immulog.Offsets.Positions.{AreGroups}
use immulog.Partition.{Partition}
use immulog.Partition.Invariant.{IsValid}
use immulog.Store.{Store}
use immulog.Consumers.{Consumer}
use immulog.Consumers.Lease.{is_registered, is_assigned, held_partition, begun}

-- What the opening of a handle has established: the projection is one that a log builds for this
-- store, the catalog has the key's partition, and the identifiers are set.
pub record IsOpened (start : ℕ) (s : Store) (c : Consumer) : Type 0 where
  pub log : IsValid start s.offsets
  pub groups : AreGroups s.offsets_state
  pub store : s.offsets_state.store_id ≡ s.store_id
  pub partition : TopicPartition
  pub known : catalog_partition s.catalog_state c.key s.catalog_state.revision ≡ ok partition
  pub store_id : array_eq 16 s.store_id (zeros 16) ≡ false
  pub session_id : array_eq 16 c.session (zeros 16) ≡ false
  pub topic_id : is_zero c.key.topic ≡ false
  pub index : c.key.partition ≤ max_int32
  pub started : 0 < s.catalog_state.revision
  pub revision : s.catalog_state.revision < 2 ^ 64
  pub generation : c.generation < 2 ^ 64

pub begun-IsOpened :
    (start : ℕ) (s : Store) (c : Consumer) (now : ℕ)
    → IsOpened start s c
    → IsOpened start s (begun c now)
begun-IsOpened start s c now o = record {
  log = o.log;
  groups = o.groups;
  store = o.store;
  partition = o.partition;
  known = o.known;
  store_id = o.store_id;
  session_id = o.session_id;
  topic_id = o.topic_id;
  index = o.index;
  started = o.started;
  revision = o.revision;
  generation = o.generation;
}

-- What the tests on the assignment establish.
pub record IsOwner (s : Store) (c : Consumer) (g : OffsetGroup) : Type 0 where
  pub generation : g.generation ≡ c.generation
  pub own : g.assignment_instance ≡ s.store_id
  pub owner : lookup c.key g.assignment_owner ≡ some c.session

pub both_true : (a b : Bool) → (a && b) ≡ true → (a ≡ true) × (b ≡ true)
both_true true b h = (refl, h)
both_true false b h = cc

pub is_assigned-IsOwner :
    (s : Store) (c : Consumer) (g : OffsetGroup)
    → array_eq 16 c.session (zeros 16) ≡ false
    → is_assigned s c g ≡ true
    → IsOwner s c g
unfolding is_assigned is_subscriber
is_assigned-IsOwner s c g set h =
    let (same, h1) = both_true (g.generation == c.generation) _ h in
    let (own, h2) = both_true (array_eq 16 g.assignment_instance s.store_id) _ h1 in
    record {
      generation = ==→eq g.generation c.generation same;
      own = array_eq→eq 16 g.assignment_instance s.store_id own;
      owner = elim (Option-cases (lookup c.key g.assignment_owner)) [
        | inl missing ↦
            let no_session =
              array_eq→eq 16 (zeros 16) c.session (rw (is_subscriber, missing) at h2) in
            let zero_session =
              subst (λ (x : Array 16). array_eq 16 x (zeros 16) ≡ false) (sym no_session) set in
            let all_zero = array_eq_refl 16 (zeros 16) in cc
        | inr (owner, there) ↦
            there ∙ ap some (array_eq→eq 16 owner c.session (rw (is_subscriber, there) at h2))
      ];
    }

pub held_partition-ok :
    (s : Store) (c : Consumer) {g : OffsetGroup} {p : Partition}
    → held_partition s c ≡ ok (g, p)
    → (lookup c.group_id s.offsets_state.groups ≡ some g) × (is_assigned s c g ≡ true)
unfolding held_partition
held_partition-ok s c {g} {p} h = elim (Bool-cases s.offsets_unavailable) [
  | inl off ↦ let bad = rw (held_partition, off) at h in cc
  | inr on ↦
      let h1 = rw (held_partition, on) at h in
      elim (Bool-cases (not (is_registered c.group_id c.key c.handle s.consumers))) [
        | inl other ↦ let bad = rw other at h1 in cc
        | inr here ↦
            let h2 = rw here at h1 in
            elim (Option-cases (lookup c.group_id s.offsets_state.groups)) [
              | inl missing ↦ let bad = rw missing at h2 in cc
              | inr (found, there) ↦
                  let h3 = rw there at h2 in
                  elim (Bool-cases (is_assigned s c found)) [
                    | inr lost ↦ let bad = rw lost at h3 in cc
                    | inl kept ↦
                        let h4 = rw kept at h3 in
                        elim (Option-cases (lookup c.key s.partitions)) [
                          | inl unopened ↦ let bad = rw unopened at h4 in cc
                          | inr (q, open_there) ↦
                              let e =
                                ap (λ (x : OffsetGroup × Partition). x.0)
                                  (ok-injective (rw open_there at h4)) in
                              (
                                there ∙ ap some e,
                                subst (λ (x : OffsetGroup). is_assigned s c x ≡ true) e kept,
                              )
                        ]
                  ]
            ]
      ]
]
