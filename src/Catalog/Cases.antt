-- ===== src/Catalog/Cases.antt =====
-- What the events that a catalog accepts have behind them.
use immulog.Prelude.{
  ℕ, ◌+◌, ◌^◌, ◌%◌, ◌≡◌, ◌∙◌, refl, sym, ap, subst, false, true, not, ◌||◌, Option, none, some,
  List, [], map, get_elem?, ◌==◌, ◌!=◌, !=-false→eq, arith, Bool-cases, Option-cases, inl, inr,
}
use immulog.Prelude.Arrays.{array_eq}
use immulog.Prelude.Maps.{lookup, insert, has}
use immulog.Api.{TopicId, Record, cluster_metadata_topic_id}
use immulog.Api.Errors.{ok, reject_if-eq-ok, >>=-eq-ok, ok-injective}
use immulog.Events.Fields.{TopicKey}
use immulog.Events.Envelope.{
  event_store_initialized, event_topic_created, event_partition_log_start_advanced,
  decode_system_event,
}
use immulog.Events.Payloads.{TopicCreatedEvent, decode_store_initialized, decode_topic_created}
use immulog.Catalog.{id_eq, string_eq, number_eq, TopicPartition, CatalogTopic, CatalogProjection}
use immulog.Catalog.RetentionEvent.{LogStartAdvancedEvent, decode_log_start_advanced}
use immulog.Catalog.Apply.{apply_store_initialized, created_partition, apply_topic_created, apply}
use immulog.Catalog.Apply.LogStart.{
  check_retired, check_transition, advanced_topic, known_partition, apply_log_start_advanced,
}

-- The topic has the partition.
abbrev pub Holds : CatalogProjection → TopicId → ℕ → CatalogTopic → TopicPartition → Type 0
Holds p id i topic t =
    (lookup id p.topics_by_id ≡ some topic) × (get_elem? topic.descriptor.partitions i ≡ some t)

known_partition-Holds :
    (p : CatalogProjection) (key : TopicKey) (topic : CatalogTopic) (t : TopicPartition)
    → known_partition p key ≡ ok (topic, t)
    → Holds p key.topic key.partition topic t
unfolding known_partition
known_partition-Holds p key topic t e = elim (Option-cases (lookup key.topic p.topics_by_id)) [
  | inl missing ↦ let e1 = rw (known_partition, missing) at e in cc
  | inr (found, there) ↦
      let e1 = rw (known_partition, there) at e in
      elim (Option-cases (get_elem? found.descriptor.partitions key.partition)) [
        | inl missing ↦ let e2 = rw missing at e1 in cc
        | inr (x, at_index) ↦
            let e2 : ok (found, x) ≡ ok (topic, t) = rw at_index at e1 in
            let same = ok-injective e2 in
            subst (λ (u : CatalogTopic × TopicPartition). Holds p key.topic key.partition u.0 u.1)
              same (there, at_index)
      ]
]

-- What an event that advances a log start has behind it.
pub record IsAdvance (p : CatalogProjection) (offset : ℕ) (p' : CatalogProjection) : Type 0 where
  pub event : LogStartAdvancedEvent
  pub topic : CatalogTopic
  pub partition : TopicPartition
  pub held : Holds p event.key.topic event.key.partition topic partition
  pub checked : check_transition partition event ≡ ok tt
  pub covered : check_retired event event.expected_old_l [] event.retired ≡ ok event.new_l
  pub behind : p' ≡ record p {
    topics_by_id =
        insert event.key.topic (advanced_topic offset event partition topic) p.topics_by_id;
    revision = (offset + 1) % 2 ^ 64;
  }

pub apply_log_start_advanced-IsAdvance :
    (p p' : CatalogProjection) (offset : ℕ) (payload : List ℕ)
    → apply_log_start_advanced p offset payload ≡ ok p'
    → IsAdvance p offset p'
unfolding apply_log_start_advanced
apply_log_start_advanced-IsAdvance p p' offset payload h =
    let (e, h0, h1) = >>=-eq-ok (decode_log_start_advanced payload) _ h in
    let (t1, h2) =
      reject_if-eq-ok (not (array_eq 16 e.store_id p.store_id) || e.expected_catalog_next != offset)
        _ _ h1 in
    let ((topic, t), known, h3) = >>=-eq-ok (known_partition p e.key) _ h2 in
    let (u, checked, h4) = >>=-eq-ok (check_transition t e) _ h3 in
    let (cursor, covered, h5) = >>=-eq-ok (check_retired e e.expected_old_l [] e.retired) _ h4 in
    let (t2, h6) = reject_if-eq-ok (cursor != e.new_l) _ _ h5 in
    record {
      event = e;
      topic = topic;
      partition = t;
      held = known_partition-Holds p e.key topic t known;
      checked = checked;
      covered = covered ∙ ap ok (!=-false→eq cursor e.new_l t2);
      behind = sym (ok-injective h6);
    }

-- What an event that creates a topic has behind it.
pub record IsCreation (p : CatalogProjection) (offset : ℕ) (p' : CatalogProjection) : Type 0 where
  pub event : TopicCreatedEvent
  pub topic : CatalogTopic
  pub unknown : lookup event.topic_id p.topics_by_id ≡ none
  pub unnamed : lookup event.name p.topics_by_name ≡ none
  pub partitions : topic.descriptor.partitions ≡ map (created_partition offset) event.partitions
  pub retired : topic.retired ≡ []
  pub behind : p' ≡ record p {
    topics_by_name = insert event.name event.topic_id p.topics_by_name;
    topics_by_id = insert event.topic_id topic p.topics_by_id;
    revision = (offset + 1) % 2 ^ 64;
  }

absent {ℓ} :
    {V : Type ℓ} (o : Option V) → elim o [ none ↦ false | some v ↦ true ] ≡ false → o ≡ none
absent none h = refl
absent (some v) h = cc

pub apply_topic_created-IsCreation :
    (p p' : CatalogProjection) (offset : ℕ) (payload : List ℕ)
    → apply_topic_created p offset payload ≡ ok p'
    → IsCreation p offset p'
unfolding apply_topic_created
apply_topic_created-IsCreation p p' offset payload h =
    let (t0, h0) = reject_if-eq-ok (p.revision == 0) _ _ h in
    let (e, _, h1) = >>=-eq-ok (decode_topic_created payload) _ h0 in
    let (t1, h2) =
      reject_if-eq-ok (not (array_eq 16 e.store_id p.store_id) || e.expected_catalog_next != offset)
        _ _ h1 in
    let (t2, h3) = reject_if-eq-ok (has e.name p.topics_by_name) _ _ h2 in
    let (t3, h4) = reject_if-eq-ok (has e.topic_id p.topics_by_id) _ _ h3 in
    record {
      event = e;
      topic = record {
        descriptor = record {
          id = e.topic_id;
          name = e.name;
          partitions = map (created_partition offset) e.partitions;
        };
        retired = [];
        creation_offset = offset;
      };
      unknown = absent (lookup e.topic_id p.topics_by_id) t3;
      unnamed = absent (lookup e.name p.topics_by_name) t2;
      partitions = refl;
      retired = refl;
      behind = sym (ok-injective h4);
    }

-- The projection behind an event that is accepted: the first event of a store, which touches no
-- topic, a topic that was not there, or the advance of a partition's start.
pub data Change (p : CatalogProjection) (offset : ℕ) (p' : CatalogProjection) : Type 0 where
  initialized :
      offset ≡ 0
      → p'.topics_by_id ≡ p.topics_by_id
      → p'.topics_by_name ≡ p.topics_by_name
      → p'.revision ≡ 1
      → Change p offset p'
  created : IsCreation p offset p' → Change p offset p'
  advanced : IsAdvance p offset p' → Change p offset p'

apply_store_initialized-Change :
    (p p' : CatalogProjection) (offset : ℕ) (payload : List ℕ)
    → apply_store_initialized p offset payload ≡ ok p'
    → Change p offset p'
unfolding apply_store_initialized
apply_store_initialized-Change p p' offset payload h =
    let (t, h1) = reject_if-eq-ok (offset != 0 || p.revision != 0) _ _ h in
    let (e, _, h2) = >>=-eq-ok (decode_store_initialized payload) _ h1 in
    let same = ok-injective h2 in
    initialized (ground arith) (ap (λ (q : CatalogProjection). q.topics_by_id) (sym same))
      (ap (λ (q : CatalogProjection). q.topics_by_name) (sym same))
      (ap (λ (q : CatalogProjection). q.revision) (sym same))

pub apply-Change :
    (p p' : CatalogProjection) (r : Record) → apply p r ≡ ok p' → Change p r.offset p'
unfolding apply
apply-Change p p' r h =
    let ((kind, payload), _, h1) =
      >>=-eq-ok (decode_system_event r cluster_metadata_topic_id) _ h in
    elim (Bool-cases (kind == event_store_initialized)) [
      | inl a ↦ apply_store_initialized-Change p p' r.offset payload (rw a at h1)
      | inr a ↦
          let h2 = rw a at h1 in
          elim (Bool-cases (kind == event_topic_created)) [
            | inl b ↦ created (apply_topic_created-IsCreation p p' r.offset payload (rw b at h2))
            | inr b ↦
                let h3 = rw b at h2 in
                elim (Bool-cases (kind == event_partition_log_start_advanced)) [
                  | inl c ↦
                      advanced
                        (apply_log_start_advanced-IsAdvance p p' r.offset payload (rw c at h3))
                  | inr c ↦ let h4 = rw c at h3 in cc
                ]
          ]
    ]
