-- ===== src/Offsets/Sources.antt =====
-- What the loops of an assignment keep: who subscribes to a key is a member, and no position that
-- stands is touched.
use immulog.Prelude.{
  ℕ, zero, suc, ◌≡◌, ◌⊎◌, ◌∙◌, sym, subst, ap, false, true, ◌||◌, Option, none, some, List, ◌==◌,
  ◌!=◌, Bool-cases, Option-cases, inl, inr,
}
use immulog.Prelude.Arrays.{Array}
use immulog.Prelude.Maps.{
  lookup, insert, has, lookup-insert_ne, lookup-insert_cases, is_some, has-insert, has-insert_self,
}
use immulog.Api.Errors.{ok, reject_if-eq-ok, >>=-eq-ok, ok-injective}
use immulog.Events.Cursor.{read_uint, require_id}
use immulog.Events.Fields.{TopicKey, decode_topic_key}
use immulog.Catalog.{id_eq, CatalogProjection}
use immulog.Offsets.{OffsetProgress, latest_next}
use immulog.Offsets.Keys.{key_eq, key_beq, key_beq→eq, out_of_order, session_out_of_order}
use immulog.Offsets.Apply.{catalog_partition}
use immulog.Offsets.Assign.{Members, read_subscriptions, read_members, assign_progress}

abbrev pub Owners : Type 0
Owners = List (TopicKey × Array 16)

abbrev pub Positions : Type 0
Positions = List (TopicKey × OffsetProgress)

-- A key behind one member's subscriptions is that member's or was there.
read_subscriptions-from :
    (c : CatalogProjection) (next : ℕ) (session : Array 16) (count : ℕ) (previous : Option TopicKey)
    (subscribed subscribed' : Owners) (d rest : List ℕ)
    → read_subscriptions c next session count previous subscribed d ≡ ok (subscribed', rest)
    → (key : TopicKey) (s : Array 16) → lookup key subscribed' ≡ some s
    → (session ≡ s) ⊎ (lookup key subscribed ≡ some s)
unfolding read_subscriptions
read_subscriptions-from c next session zero previous subscribed subscribed' d rest h key s there =
    inr (
      subst (λ (m : Owners). lookup key m ≡ some s)
        (ap (λ (u : Owners × List ℕ). u.0) (sym (ok-injective h))) there)
read_subscriptions-from c next session (suc count) previous subscribed subscribed' d rest h key s
      there =
    let ((k, d1), _, h1) = >>=-eq-ok (decode_topic_key d) _ h in
    let (t1, h2) = reject_if-eq-ok (out_of_order previous k) _ _ h1 in
    let (u, _, h3) = >>=-eq-ok (catalog_partition c k next) _ h2 in
    let (t2, h4) = reject_if-eq-ok (has k subscribed) _ _ h3 in
    elim (read_subscriptions-from c next session count (some k) (insert k session subscribed)
      subscribed' d1 rest h4 key s there) [
        | inl same ↦ inl same
        | inr old ↦ elim (lookup-insert_cases k key session s subscribed old) [
          | inl (e, same) ↦ inl same
          | inr (apart, older) ↦ inr older
        ]
      ]

-- Whoever subscribes is a member.
abbrev pub SubscribersAre : Owners → Members → Type 0
SubscribersAre subscribed members =
    (key : TopicKey) (s : Array 16) → lookup key subscribed ≡ some s → has s members ≡ true

member-insert :
    (s session : Array 16) (members : Members)
    → (session ≡ s) ⊎ (has s members ≡ true)
    → has s (insert session tt members) ≡ true
member-insert s session members (inl e) =
    subst (λ (i : Array 16). has i (insert session tt members) ≡ true) e
      (has-insert_self session tt members)
member-insert s session members (inr old) = has-insert session s tt members old

pub read_members-SubscribersAre :
    (c : CatalogProjection) (next count : ℕ) (previous : Option (Array 16)) (members : Members)
    (subscribed : Owners) (d : List ℕ) (t : Members × Owners × List ℕ)
    → SubscribersAre subscribed members
    → read_members c next count previous members subscribed d ≡ ok t
    → SubscribersAre t.1 t.0
unfolding read_members
read_members-SubscribersAre c next zero previous members subscribed d t v h =
    subst (λ (u : Members × Owners × List ℕ). SubscribersAre u.1 u.0) (ok-injective h) v
read_members-SubscribersAre c next (suc count) previous members subscribed d t v h =
    let ((session, d1), _, h1) = >>=-eq-ok (require_id d) _ h in
    let (t1, h2) = reject_if-eq-ok (session_out_of_order previous session) _ _ h1 in
    let ((n, d2), _, h3) = >>=-eq-ok (read_uint 4 d1) _ h2 in
    let ((subscribed', d3), read, h4) =
      >>=-eq-ok (read_subscriptions c next session n none subscribed d2) _ h3 in
    read_members-SubscribersAre c next count (some session) (insert session tt members) subscribed'
      d3 t
      (λ key s there.
        member-insert s session members
          (elim (read_subscriptions-from c next session n none subscribed subscribed' d2 d3 read key
            s there) [ inl same ↦ inl same | inr old ↦ inr (v key s old) ]))
      h4

-- Every position of the one list stands unchanged in the other.
abbrev pub Preserves : Positions → Positions → Type 0
Preserves m m' =
    (key : TopicKey) (p : OffsetProgress) → lookup key m ≡ some p → lookup key m' ≡ some p

-- The baseline of a key leaves every position alone, and the key has one.
pub assign_progress-keeps :
    (key : TopicKey) (action resume initial : ℕ) (m m' : Positions)
    → assign_progress key action resume initial m ≡ ok m'
    → Preserves m m' × (has key m' ≡ true)
unfolding assign_progress
assign_progress-keeps key action resume initial m m' h = elim (Bool-cases (action == 1)) [
  | inl new ↦
      let h1 = rw (assign_progress, new) at h in
      let (t, h2) = reject_if-eq-ok (has key m || initial != resume) _ _ h1 in
      let fresh : OffsetProgress = record {
        initial_next = initial;
        has_commit = false;
        committed_next = 0;
      } in
      subst (λ (n : Positions). Preserves m n × (has key n ≡ true)) (ok-injective h2)
        (
          λ j p there. elim (Bool-cases (key_beq key j)) [
            | inl same ↦
                let e = key_beq→eq key j same in
                let known : has key m ≡ true =
                  subst (λ (i : TopicKey). has i m ≡ true) (sym e) (ap is_some there) in
                let t' = rw known at t in cc
            | inr other ↦ lookup-insert_ne key j fresh m other ∙ there
          ],
          has-insert_self key fresh m,
        )
  | inr reuse ↦
      let h1 = rw (assign_progress, reuse) at h in
      elim (Option-cases (lookup key m)) [
        | inl missing ↦ let h2 = rw missing at h1 in cc
        | inr (p, there) ↦
            let h2 = rw there at h1 in
            let (t, h3) = reject_if-eq-ok (initial != 0 || resume != latest_next p) _ _ h2 in
            subst (λ (n : Positions). Preserves m n × (has key n ≡ true)) (ok-injective h3)
              (λ j q there. there, ap is_some there)
      ]
]
