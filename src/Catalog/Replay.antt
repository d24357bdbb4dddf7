-- ===== src/Catalog/Replay.antt =====
-- What a replay of the metadata log keeps.
use immulog.Prelude.{
  ℕ, zero, suc, ◌+◌, ◌^◌, ◌%◌, ◌<◌, ◌≡◌, refl, sym, ap, subst, some, some-injective, List, [], ◌∷◌,
  map, length, get_elem?, ◌==◌, ◌!=◌, !=-false→eq, arith, inl, inr,
}
use immulog.Prelude.Maps.{lookup, insert, lookup-insert_cases}
use immulog.Api.{TopicId, Record}
use immulog.Api.Errors.{ok, reject_if-eq-ok, >>=-eq-ok, ok-injective}
use immulog.Events.Payloads.{TopicCreatedPartition}
use immulog.Catalog.{id_eq, string_eq, number_eq, TopicPartition, CatalogTopic, CatalogProjection}
use immulog.Catalog.Apply.{created_partition, apply, replay_records, new_catalog_projection, replay}
use immulog.Catalog.Apply.LogStart.{retired_of, advanced_topic}
use immulog.Catalog.Covers.{Covers, done}
use immulog.Catalog.Cases.{
  Holds, IsAdvance, IsCreation, Change, initialized, created, advanced, apply-Change,
}
use immulog.Catalog.Advance.{advanced_topic-Covers}

-- The segments recorded as retired cover a partition's offsets from 0 to its retained start.
abbrev pub IsCovered : CatalogProjection → Type 0
IsCovered p =
    (id : TopicId) (i : ℕ) (topic : CatalogTopic) (t : TopicPartition)
    → Holds p id i topic t
    → Covers (retired_of i topic) 0 t.retained_l

-- The partition of a new topic.
created_at :
    (offset i : ℕ) (cs : List TopicCreatedPartition) (t : TopicPartition)
    → get_elem? (map (created_partition offset) cs) i ≡ some t
    → t.retained_l ≡ 0
created_at offset i [] t e = cc
created_at offset zero (c ∷ cs) t e =
    ap (λ (u : TopicPartition). u.retained_l) (sym (some-injective e))
created_at offset (suc i) (c ∷ cs) t e = created_at offset i cs t e

new_topic-Covers :
    (offset i : ℕ) (topic : CatalogTopic) (cs : List TopicCreatedPartition) (t : TopicPartition)
    → topic.descriptor.partitions ≡ map (created_partition offset) cs
    → topic.retired ≡ []
    → get_elem? topic.descriptor.partitions i ≡ some t
    → Covers (retired_of i topic) 0 t.retained_l
unfolding lookup
new_topic-Covers offset i topic cs t parts none_retired at_index =
    let start : t.retained_l ≡ 0 = created_at offset i cs t (rw parts at at_index) in
    rw (none_retired, start) (done 0)

IsCreation-IsCovered :
    {p p' : CatalogProjection} {offset : ℕ} → IsCovered p → IsCreation p offset p' → IsCovered p'
IsCreation-IsCovered {p} {p'} {offset} v k id i topic t (there, at_index) =
    let there' : lookup id (insert k.event.topic_id k.topic p.topics_by_id) ≡ some topic =
      subst (λ (q : CatalogProjection). lookup id q.topics_by_id ≡ some topic) k.behind there in
    elim (lookup-insert_cases k.event.topic_id id k.topic topic p.topics_by_id there') [
      | inl (e, same) ↦
          new_topic-Covers offset i topic k.event.partitions t
            (subst
              (λ (u : CatalogTopic).
                u.descriptor.partitions ≡ map (created_partition offset) k.event.partitions)
              same k.partitions)
            (subst (λ (u : CatalogTopic). u.retired ≡ []) same k.retired) at_index
      | inr (other, old) ↦ v id i topic t (old, at_index)
    ]

IsAdvance-IsCovered :
    {p p' : CatalogProjection} {offset : ℕ} → IsCovered p → IsAdvance p offset p' → IsCovered p'
IsAdvance-IsCovered {p} {p'} {offset} v k id i topic u (there, at_index) =
    let e = k.event in
    let t' = advanced_topic offset e k.partition k.topic in
    let there' : lookup id (insert e.key.topic t' p.topics_by_id) ≡ some topic =
      subst (λ (q : CatalogProjection). lookup id q.topics_by_id ≡ some topic) k.behind there in
    elim (lookup-insert_cases e.key.topic id t' topic p.topics_by_id there') [
      | inl (eq, same) ↦
          subst (λ (w : CatalogTopic). Covers (retired_of i w) 0 u.retained_l) same
            (advanced_topic-Covers e offset i k.partition u k.topic
              (λ j w at_j. v e.key.topic j k.topic w (k.held.0, at_j)) k.checked k.covered k.held.1
              (subst (λ (w : CatalogTopic). get_elem? w.descriptor.partitions i ≡ some u) (sym same)
                at_index))
      | inr (other, old) ↦ v id i topic u (old, at_index)
    ]

Change-IsCovered :
    {p p' : CatalogProjection} {offset : ℕ} → IsCovered p → Change p offset p' → IsCovered p'
Change-IsCovered v (initialized o ids names rev) id i topic t (there, at_index) =
    v id i topic t
      (subst (λ (m : List (TopicId × CatalogTopic)). lookup id m ≡ some topic) ids there, at_index)
Change-IsCovered v (created k) id i topic t held = IsCreation-IsCovered v k id i topic t held
Change-IsCovered v (advanced k) id i topic t held = IsAdvance-IsCovered v k id i topic t held

Change-revision :
    {p p' : CatalogProjection} {offset : ℕ}
    → Change p offset p'
    → p'.revision ≡ (offset + 1) % 2 ^ 64
Change-revision (initialized o ids names rev) = omega (arith, o, rev)
Change-revision (created k) = ap (λ (q : CatalogProjection). q.revision) k.behind
Change-revision (advanced k) = ap (λ (q : CatalogProjection). q.revision) k.behind

replay_records-keeps :
    (p p' : CatalogProjection) (offset : ℕ) (rs : List Record)
    → IsCovered p
    → p.revision ≡ offset
    → offset + length rs < 2 ^ 64
    → replay_records p offset rs ≡ ok p'
    → IsCovered p' × (p'.revision ≡ offset + length rs)
unfolding replay_records
replay_records-keeps p p' offset [] v e h k =
    subst (λ (q : CatalogProjection). IsCovered q × (q.revision ≡ offset + 0)) (ok-injective k)
      (v, omega (arith, e))
replay_records-keeps p p' offset (r ∷ rs) v e h k =
    let (t, k1) = reject_if-eq-ok (r.offset != offset) _ _ k in
    let (q, applied, k2) = >>=-eq-ok (apply p r) _ k1 in
    let change = apply-Change p q r applied in
    let rev = Change-revision change in
    let same = !=-false→eq r.offset offset t in
    let next : (offset + 1) % 2 ^ 64 ≡ offset + 1 = omega (arith, h) in
    let (v', rev') =
      replay_records-keeps q p' (offset + 1) rs (Change-IsCovered v change)
        (omega (arith, rev, same, h)) (omega (arith, h)) (rw next at k2) in
    (v', omega (arith, rev'))

-- Whatever the metadata log holds, as long as its offsets are 64-bit numbers: where its replay
-- succeeds, the catalog has one revision for each record, at least one, and the segments that it
-- records as retired cover the offsets of each partition from 0 to its retained start, without a
-- gap or an overlap.
pub replay-IsCovered :
    (records : List Record) (p : CatalogProjection)
    → length records < 2 ^ 64
    → replay records ≡ ok p
    → IsCovered p × (p.revision ≡ length records) × (0 < p.revision)
unfolding replay lookup
replay-IsCovered records p h k =
    let (q, replayed, k1) = >>=-eq-ok (replay_records new_catalog_projection 0 records) _ k in
    let (t, k2) = reject_if-eq-ok (q.revision == 0) _ _ k1 in
    let (v, rev) =
      replay_records-keeps new_catalog_projection q 0 records
        (λ id i topic u held. absurd (none_held id topic held.0)) refl (omega (arith, h))
        replayed in
    let same = ok-injective k2 in
    (
      subst IsCovered same v,
      subst (λ (w : CatalogProjection). w.revision ≡ length records) same (omega (arith, rev)),
      subst (λ (w : CatalogProjection). 0 < w.revision) same (ground arith),
    )
  where
    none_held : (id : TopicId) (topic : CatalogTopic) → lookup id [] ≡ some topic → ⊥
    none_held id topic e = cc
