-- ===== src/Catalog/Advance.antt =====
-- The advance of a log start, over the retired segments of its topic.
use immulog.Prelude.{
  ℕ, ◌≤◌, ◌<◌, ◌≡◌, ◌≢◌, ◌∙◌, sym, ap, subst, false, ◌||◌, Option, some, some-injective, List, [],
  get_elem?, get_elem?-set_self, get_elem?-set_ne, lt-length_of_get_elem?, ltb, leb, ◌==◌, ◌!=◌,
  ==→eq, arith, Bool-cases, inl, inr,
}
use immulog.Prelude.Maps.{lookup-insert_self, lookup-insert_ne}
use immulog.Api.Errors.{ok, reject_if-eq-ok}
use immulog.Catalog.{id_eq, string_eq, number_eq, TopicPartition, RetiredSegmentEvent, CatalogTopic}
use immulog.Catalog.RetentionEvent.{has_other_bits, LogStartAdvancedEvent}
use immulog.Catalog.Apply.LogStart.{
  check_retired, check_transition, record_retired, retired_of, or_empty, advanced_partition,
  advanced_topic,
}
use immulog.Catalog.Covers.{Covers, record_retired-Covers}

pub check_transition-starts :
    (t : TopicPartition) (e : LogStartAdvancedEvent)
    → check_transition t e ≡ ok tt
    → (t.retained_l ≡ e.expected_old_l)
      × (t.retained_l < e.new_l)
      × (t.maximum_recorded_retirement_h ≤ e.evaluated_durable_end)
      × (e.new_l ≤ e.evaluated_durable_end)
unfolding check_transition
check_transition-starts t e h =
    let (t1, h1) =
      reject_if-eq-ok
        (t.retained_l != e.expected_old_l
          || leb e.new_l e.expected_old_l
          || ltb e.evaluated_durable_end e.new_l)
        _ _ h in
    let (t2, h2) =
      reject_if-eq-ok (has_other_bits e.reason_mask t.config.retention_mask || e.reason_mask == 0) _
        _ h1 in
    let (t3, h3) =
      reject_if-eq-ok (ltb e.evaluated_durable_end t.maximum_recorded_retirement_h) _ _ h2 in
    (ground arith, ground arith, ground arith, ground arith)

-- The partition that the event advances.
advanced-Covers :
    (e : LogStartAdvancedEvent) (offset : ℕ) (t u : TopicPartition) (topic : CatalogTopic)
    → Covers (retired_of e.key.partition topic) 0 t.retained_l
    → check_transition t e ≡ ok tt
    → check_retired e e.expected_old_l [] e.retired ≡ ok e.new_l
    → get_elem? topic.descriptor.partitions e.key.partition ≡ some t
    → get_elem? (advanced_topic offset e t topic).descriptor.partitions e.key.partition ≡ some u
    → Covers (retired_of e.key.partition (advanced_topic offset e t topic)) 0 u.retained_l
advanced-Covers e offset t u topic k checked covered here at_index =
    let i = e.key.partition in
    let (starts, _, _, _) = check_transition-starts t e checked in
    let in_list = lt-length_of_get_elem? topic.descriptor.partitions i here in
    let written : some (advanced_partition offset e t) ≡ some u =
      sym (get_elem?-set_self topic.descriptor.partitions i (advanced_partition offset e t) in_list)
      ∙ at_index in
    let start : e.new_l ≡ u.retained_l =
      ap (λ (w : TopicPartition). w.retained_l) (some-injective written) in
    let more =
      record_retired-Covers e 0 e.expected_old_l e.new_l [] e.retired (retired_of i topic) covered
        (subst (Covers (retired_of i topic) 0) starts k) in
    subst (λ (o : Option (List (ℕ × RetiredSegmentEvent))). Covers (or_empty o) 0 u.retained_l)
      (sym (lookup-insert_self i (record_retired e.retired (retired_of i topic)) topic.retired))
      (subst (Covers (record_retired e.retired (retired_of i topic)) 0) start more)

-- Another partition of the topic.
other-Covers :
    (e : LogStartAdvancedEvent) (offset i : ℕ) (t u : TopicPartition) (topic : CatalogTopic)
    → (e.key.partition == i) ≡ false
    → Covers (retired_of i topic) 0 u.retained_l
    → Covers (retired_of i (advanced_topic offset e t topic)) 0 u.retained_l
other-Covers e offset i t u topic other k =
    subst (λ (o : Option (List (ℕ × RetiredSegmentEvent))). Covers (or_empty o) 0 u.retained_l)
      (sym (
        lookup-insert_ne e.key.partition i
          (record_retired e.retired (retired_of e.key.partition topic)) topic.retired other))
      k

pub advanced_topic-Covers :
    (e : LogStartAdvancedEvent) (offset i : ℕ) (t u : TopicPartition) (topic : CatalogTopic)
    → ((j : ℕ) (w : TopicPartition)
        → get_elem? topic.descriptor.partitions j ≡ some w
        → Covers (retired_of j topic) 0 w.retained_l)
    → check_transition t e ≡ ok tt
    → check_retired e e.expected_old_l [] e.retired ≡ ok e.new_l
    → get_elem? topic.descriptor.partitions e.key.partition ≡ some t
    → get_elem? (advanced_topic offset e t topic).descriptor.partitions i ≡ some u
    → Covers (retired_of i (advanced_topic offset e t topic)) 0 u.retained_l
advanced_topic-Covers e offset i t u topic all checked covered here at_index =
    elim (Bool-cases (e.key.partition == i)) [
      | inl same ↦
          let eq = ==→eq e.key.partition i same in
          subst (λ (j : ℕ). Covers (retired_of j (advanced_topic offset e t topic)) 0 u.retained_l)
            eq
            (advanced-Covers e offset t u topic (all e.key.partition t here) checked covered here (
              subst
                (λ (j : ℕ).
                  get_elem? (advanced_topic offset e t topic).descriptor.partitions j ≡ some u)
                (sym eq) at_index))
      | inr other ↦
          let apart : e.key.partition ≢ i = λ q. ground arith in
          let old =
            sym (
              get_elem?-set_ne topic.descriptor.partitions e.key.partition i
                (advanced_partition offset e t) apart)
            ∙ at_index in
          other-Covers e offset i t u topic other (all i u old)
    ]
