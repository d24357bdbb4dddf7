-- ===== src/Catalog/Progress.antt =====
-- The catalog never forgets a partition, and never moves its retained start back.
use immulog.Prelude.{
  ℕ, ◌+◌, ◌^◌, ◌%◌, ◌≤◌, ◌≡◌, ◌≢◌, ◌∙◌, refl, sym, ap, subst, false, some, some-injective, List, [],
  ◌∷◌, get_elem?, set, get_elem?-set_self, get_elem?-set_ne, lt-length_of_get_elem?, ◌==◌, ◌!=◌,
  ==→eq, arith, Bool-cases, inl, inr,
}
use immulog.Prelude.Arrays.{array_eq, array_eq→eq}
use immulog.Prelude.Maps.{lookup, lookup-insert_self, lookup-insert_ne}
use immulog.Api.{TopicId, Record}
use immulog.Api.Errors.{ok, reject_if-eq-ok, >>=-eq-ok, ok-injective}
use immulog.Catalog.{id_eq, string_eq, number_eq, TopicPartition, CatalogTopic, CatalogProjection}
use immulog.Catalog.RetentionEvent.{LogStartAdvancedEvent}
use immulog.Catalog.Apply.{apply, replay_records}
use immulog.Catalog.Apply.LogStart.{check_transition, advanced_partition, advanced_topic}
use immulog.Catalog.Cases.{
  Holds, IsAdvance, IsCreation, Change, initialized, created, advanced, apply-Change,
}
use immulog.Catalog.Advance.{check_transition-starts}

-- A partition behind an event: it keeps its policy, and its retained start and its durable end, as
-- recorded, do not go back.
pub record IsLater (t t' : TopicPartition) : Type 0 where
  pub config : t'.config ≡ t.config
  pub retained : t.retained_l ≤ t'.retained_l
  pub durable : t.maximum_recorded_retirement_h ≤ t'.maximum_recorded_retirement_h

-- Every partition of the one catalog has its later form in the other.
abbrev pub IsOnward : CatalogProjection → CatalogProjection → Type 0
IsOnward p p' =
    (id : TopicId) (i : ℕ) (topic : CatalogTopic) (t : TopicPartition)
    → Holds p id i topic t
    → (topic' : CatalogTopic) × (t' : TopicPartition) × Holds p' id i topic' t' × IsLater t t'

IsLater-refl : (t : TopicPartition) → IsLater t t
IsLater-refl t = record { config = refl; retained = omega arith; durable = omega arith }

IsLater-trans : (t u v : TopicPartition) → IsLater t u → IsLater u v → IsLater t v
IsLater-trans t u v a b = record {
  config = b.config ∙ a.config;
  retained = omega (arith, a.retained, b.retained);
  durable = omega (arith, a.durable, b.durable);
}

IsCreation-IsOnward :
    {p p' : CatalogProjection} {offset : ℕ} → IsCreation p offset p' → IsOnward p p'
IsCreation-IsOnward {p} k id i topic t (there, at_index) =
    let apart : array_eq 16 k.event.topic_id id ≡ false =
      elim (Bool-cases (array_eq 16 k.event.topic_id id)) [
        | inl same ↦
            let e = array_eq→eq 16 k.event.topic_id id same in
            let u = k.unknown in let u' = rw e at u in cc
        | inr other ↦ other
      ] in
    (
      topic,
      t,
      (
        subst (λ (q : CatalogProjection). lookup id q.topics_by_id ≡ some topic) (sym k.behind)
            (lookup-insert_ne k.event.topic_id id k.topic p.topics_by_id apart ∙ there),
        at_index,
      ),
      IsLater-refl t,
    )

advanced-IsLater :
    (offset : ℕ) (e : LogStartAdvancedEvent) (t : TopicPartition)
    → check_transition t e ≡ ok tt
    → IsLater t (advanced_partition offset e t)
advanced-IsLater offset e t h =
    let (a, b, c, d) = check_transition-starts t e h in
    record { config = refl; retained = omega (arith, b); durable = ground arith }

-- The lookup of the event's own topic behind the event.
IsAdvance-topic :
    {p p' : CatalogProjection} {offset : ℕ} (k : IsAdvance p offset p')
    → lookup k.event.key.topic p'.topics_by_id
      ≡ some (advanced_topic offset k.event k.partition k.topic)
IsAdvance-topic {p} {offset = offset} k =
    subst
      (λ (q : CatalogProjection).
        lookup k.event.key.topic q.topics_by_id
        ≡ some (advanced_topic offset k.event k.partition k.topic))
      (sym k.behind)
      (lookup-insert_self k.event.key.topic (advanced_topic offset k.event k.partition k.topic)
        p.topics_by_id)

-- A partition of the event's own topic.
own-IsLater :
    (offset : ℕ) (e : LogStartAdvancedEvent) (t u : TopicPartition) (topic : CatalogTopic) (i : ℕ)
    → check_transition t e ≡ ok tt
    → get_elem? topic.descriptor.partitions e.key.partition ≡ some t
    → get_elem? topic.descriptor.partitions i ≡ some u
    → (u' : TopicPartition) × (get_elem? (advanced_topic offset e t topic).descriptor.partitions i
        ≡ some u')
      × IsLater u u'
own-IsLater offset e t u topic i checked here at_index =
    let parts = topic.descriptor.partitions in
    let t' = advanced_partition offset e t in
    elim (Bool-cases (e.key.partition == i)) [
      | inl same ↦
          let eq = ==→eq e.key.partition i same in
          let both : some t ≡ some u = sym here ∙ ap (get_elem? parts) eq ∙ at_index in
          (
            t',
            subst (λ (j : ℕ). get_elem? (set parts e.key.partition t') j ≡ some t') eq
                (get_elem?-set_self parts e.key.partition t' (lt-length_of_get_elem? parts _ here)),
            subst (λ (w : TopicPartition). IsLater w t') (some-injective both)
                (advanced-IsLater offset e t checked),
          )
      | inr other ↦
          let apart : e.key.partition ≢ i = λ q. ground arith in
          (u, get_elem?-set_ne parts e.key.partition i t' apart ∙ at_index, IsLater-refl u)
    ]

IsAdvance-IsOnward : {p p' : CatalogProjection} {offset : ℕ} → IsAdvance p offset p' → IsOnward p p'
IsAdvance-IsOnward {p} {p'} {offset} k id i topic u (there, at_index) =
    let e = k.event in
    let t' = advanced_topic offset e k.partition k.topic in
    elim (Bool-cases (array_eq 16 e.key.topic id)) [
      | inl same ↦
          let eq = array_eq→eq 16 e.key.topic id same in
          let both : some k.topic ≡ some topic =
            sym k.held.0 ∙ ap (λ (j : TopicId). lookup j p.topics_by_id) eq ∙ there in
          let at_own =
            subst (λ (w : CatalogTopic). get_elem? w.descriptor.partitions i ≡ some u)
              (sym (some-injective both)) at_index in
          let (u', there', later) =
            own-IsLater offset e k.partition u k.topic i k.checked k.held.1 at_own in
          (
            t',
            u',
            (
              subst (λ (j : TopicId). lookup j p'.topics_by_id ≡ some t') eq (IsAdvance-topic k),
              there',
            ),
            later,
          )
      | inr other ↦ (
        topic,
        u,
        (
          subst (λ (q : CatalogProjection). lookup id q.topics_by_id ≡ some topic) (sym k.behind)
              (lookup-insert_ne e.key.topic id t' p.topics_by_id other ∙ there),
          at_index,
        ),
        IsLater-refl u,
      )
    ]

Change-IsOnward : {p p' : CatalogProjection} {offset : ℕ} → Change p offset p' → IsOnward p p'
Change-IsOnward (initialized o ids names rev) id i topic t (there, at_index) = (
  topic,
  t,
  (
    subst (λ (m : List (TopicId × CatalogTopic)). lookup id m ≡ some topic) (sym ids) there,
    at_index,
  ),
  IsLater-refl t,
)
Change-IsOnward (created k) id i topic t held = IsCreation-IsOnward k id i topic t held
Change-IsOnward (advanced k) id i topic t held = IsAdvance-IsOnward k id i topic t held

-- Whatever records a catalog accepts one after another, every partition that it knew is still there
-- with its policy, and neither its retained start nor the durable end that retention has recorded
-- for it goes back.
pub replay_records-IsOnward :
    (p p' : CatalogProjection) (offset : ℕ) (rs : List Record)
    → replay_records p offset rs ≡ ok p'
    → IsOnward p p'
unfolding replay_records
replay_records-IsOnward p p' offset [] h id i topic t held =
    subst (IsOnward p) (ok-injective h) (λ id i topic t held. (topic, t, held, IsLater-refl t)) id i
      topic t held
replay_records-IsOnward p p' offset (r ∷ rs) h id i topic t held =
    let (u1, h1) = reject_if-eq-ok (r.offset != offset) _ _ h in
    let (q, applied, h2) = >>=-eq-ok (apply p r) _ h1 in
    let (topic1, t1, held1, later1) =
      Change-IsOnward (apply-Change p q r applied) id i topic t held in
    let (topic2, t2, held2, later2) =
      replay_records-IsOnward q p' ((offset + 1) % 2 ^ 64) rs h2 id i topic1 t1 held1 in
    (topic2, t2, held2, IsLater-trans t t1 t2 later1 later2)
