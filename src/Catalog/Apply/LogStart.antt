-- ===== src/Catalog/Apply/LogStart.antt =====
-- The case of `catalogProjection.apply` of storage/catalog.go for PartitionLogStartAdvanced.
use immulog.Prelude.{
  ℕ, ◌+◌, ◌^◌, ◌%◌, Bool, false, not, ◌&&◌, ◌||◌, Option, none, some, List, [], ◌∷◌, get_elem?, set,
  ltb, leb, ◌==◌, ◌!=◌, if◌then◌else◌,
}
use immulog.Prelude.Arrays.{array_eq}
use immulog.Prelude.Maps.{lookup, insert}
use immulog.Api.{SegmentId}
use immulog.Api.Errors.{Result, ok, err, corrupt, invalid_record, reject_if, ◌>>=◌, ◌>>◌}
use immulog.Events.Fields.{EventAnchor, TopicKey}
use immulog.Catalog.{
  id_eq, string_eq, number_eq, TopicPartition, RetiredSegmentEvent, CatalogTopic, CatalogProjection,
}
use immulog.Catalog.RetentionEvent.{
  LogStartAdvancedEvent, has_other_bits, decode_log_start_advanced,
}

unfoldable pub same_event_anchor : EventAnchor → EventAnchor → Bool
same_event_anchor left right =
    array_eq 16 left.id right.id && array_eq 32 left.header_hash right.header_hash

unfoldable pub contains_id : SegmentId → List SegmentId → Bool
contains_id id [] = false
contains_id id (x ∷ xs) = array_eq 16 x id || contains_id id xs

-- The loop over the retired segments, from `cursor` on, with the identifiers seen.
unfoldable pub check_retired :
    LogStartAdvancedEvent → ℕ → List SegmentId → List RetiredSegmentEvent → Result ℕ
check_retired e cursor seen [] = ok cursor
check_retired e cursor seen (r ∷ rs) = do
  reject_if (r.base != cursor || leb r.end r.base || ltb e.new_l r.end || r.bytes == 0)
      (corrupt invalid_record "retention retirement list has a gap or invalid extent")
  reject_if (contains_id r.anchor.id seen)
      (corrupt invalid_record "retention retirement list repeats a segment identity")
  reject_if (array_eq 16 r.anchor.id e.retained_anchor.id)
      (corrupt invalid_record "retention successor anchor is retired")
  check_retired e r.end (r.anchor.id ∷ seen) rs

-- `len(event.Retired) == 0 || event.Retired[0].Base != base`, negated.
unfoldable pub starts_at : ℕ → List RetiredSegmentEvent → Bool
starts_at base [] = false
starts_at base (r ∷ rs) = r.base == base

-- The first segment is the one that the partition retains.
unfoldable pub is_anchored : TopicPartition → List RetiredSegmentEvent → Bool
is_anchored t [] = false
is_anchored t (r ∷ rs) =
    same_event_anchor r.anchor
      (record { id = t.current_retained_segment; header_hash = t.current_retained_header_hash })

-- The tests on the transition in front of that loop.
unfoldable pub check_transition : TopicPartition → LogStartAdvancedEvent → Result (Unit {0})
check_transition t e = do
  reject_if
      (t.retained_l != e.expected_old_l
        || leb e.new_l e.expected_old_l
        || ltb e.evaluated_durable_end e.new_l)
      (corrupt invalid_record "retention event retained-start transition is invalid")
  reject_if (has_other_bits e.reason_mask t.config.retention_mask || e.reason_mask == 0)
      (corrupt invalid_record "retention event reason is not enabled by partition policy")
  reject_if (ltb e.evaluated_durable_end t.maximum_recorded_retirement_h)
      (corrupt invalid_record "retention event durable end regresses")
  reject_if (not (starts_at e.expected_old_l e.retired))
      (corrupt invalid_record "retention retirement list does not start at the retained boundary")
  reject_if (not (is_anchored t e.retired))
      (corrupt invalid_record "retention retirement list has the wrong retained anchor")

-- The loop that records the retired segments by their base.
unfoldable pub record_retired :
    List RetiredSegmentEvent → List (ℕ × RetiredSegmentEvent) → List (ℕ × RetiredSegmentEvent)
record_retired [] m = m
record_retired (r ∷ rs) m = record_retired rs (insert r.base r m)

abbrev pub or_empty : Option (List (ℕ × RetiredSegmentEvent)) → List (ℕ × RetiredSegmentEvent)
or_empty none = []
or_empty (some m) = m

abbrev pub retired_of : ℕ → CatalogTopic → List (ℕ × RetiredSegmentEvent)
retired_of partition topic = or_empty (lookup partition topic.retired)

-- The partition and its topic behind the event at the offset.
abbrev pub advanced_partition : ℕ → LogStartAdvancedEvent → TopicPartition → TopicPartition
advanced_partition offset e t = record t {
  retained_l = e.new_l;
  current_retained_segment = e.retained_anchor.id;
  current_retained_header_hash = e.retained_anchor.header_hash;
  boundary_catalog_next = (offset + 1) % 2 ^ 64;
  maximum_recorded_retirement_h =
      if ltb t.maximum_recorded_retirement_h e.evaluated_durable_end
      then e.evaluated_durable_end
      else t.maximum_recorded_retirement_h;
}

abbrev pub advanced_topic : ℕ → LogStartAdvancedEvent → TopicPartition → CatalogTopic → CatalogTopic
advanced_topic offset e t topic = record topic {
  descriptor = record (topic.descriptor) {
    partitions = set topic.descriptor.partitions e.key.partition (advanced_partition offset e t);
  };
  retired =
      insert e.key.partition (record_retired e.retired (retired_of e.key.partition topic))
        topic.retired;
}

-- The topic and the partition of the key.
unfoldable pub known_partition :
    CatalogProjection → TopicKey → Result (CatalogTopic × TopicPartition)
known_partition p key = elim (lookup key.topic p.topics_by_id) [
  | none ↦ err (corrupt invalid_record "retention event references an unknown partition")
  | some topic ↦ elim (get_elem? topic.descriptor.partitions key.partition) [
    | none ↦ err (corrupt invalid_record "retention event references an unknown partition")
    | some t ↦ ok (topic, t)
  ]
]

unfoldable pub apply_log_start_advanced : CatalogProjection → ℕ → List ℕ → Result CatalogProjection
apply_log_start_advanced p offset payload = do
  event ← decode_log_start_advanced payload
  reject_if (not (array_eq 16 event.store_id p.store_id) || event.expected_catalog_next != offset)
      (corrupt invalid_record "retention event store or catalog revision mismatch")
  (topic, partition) ← known_partition p event.key
  check_transition partition event
  cursor ← check_retired event event.expected_old_l [] event.retired
  reject_if (cursor != event.new_l)
      (corrupt invalid_record "retention retirement list does not cover the boundary")
  ok (record p {
    topics_by_id =
        insert event.key.topic (advanced_topic offset event partition topic) p.topics_by_id;
    revision = (offset + 1) % 2 ^ 64;
  })
