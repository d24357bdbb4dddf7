-- ===== src/Catalog/Apply.antt =====
-- `catalogProjection.apply` and `replay` of storage/catalog.go. An event that is refused leaves the
-- projection as it is, since every test stands in front of the first change.
pub mod LogStart
use immulog.Prelude.{
  ℕ, ◌+◌, ◌^◌, ◌%◌, Bool, false, not, ◌&&◌, ◌||◌, Option, none, some, List, [], ◌∷◌, map, get_elem?,
  set, ltb, leb, ◌==◌, ◌!=◌, if◌then◌else◌,
}
use immulog.Prelude.Arrays.{array_eq, zeros}
use immulog.Prelude.Int.{pos}
use immulog.Config.{PartitionConfig}
use immulog.Prelude.Maps.{lookup, insert, has}
use immulog.Api.{SegmentId, Record, cluster_metadata_topic_id}
use immulog.Api.Errors.{
  Result, ok, err, corrupt, join, invalid_record, unsupported_format, reject_if, ◌>>=◌, ◌>>◌,
}
use immulog.Events.Fields.{EventAnchor, TopicKey}
use immulog.Events.Envelope.{
  event_store_initialized, event_topic_created, event_partition_log_start_advanced,
  decode_system_event,
}
use immulog.Events.Payloads.{TopicCreatedPartition, decode_store_initialized, decode_topic_created}
use immulog.Catalog.{
  id_eq, string_eq, number_eq, TopicPartition, RetiredSegmentEvent, CatalogTopic, CatalogProjection,
}
use immulog.Catalog.RetentionEvent.{
  LogStartAdvancedEvent, has_other_bits, decode_log_start_advanced,
}
use immulog.Catalog.Apply.LogStart.{apply_log_start_advanced}

unfoldable pub apply_store_initialized : CatalogProjection → ℕ → List ℕ → Result CatalogProjection
apply_store_initialized p offset payload = do
  reject_if (offset != 0 || p.revision != 0)
      (corrupt invalid_record "duplicate or misplaced StoreInitialized")
  event ← decode_store_initialized payload
  ok (record p {
    store_id = event.store_id;
    initialized = event;
    config = event.catalog_config;
    offsets_config = event.offsets_config;
    revision = 1;
  })

-- The partition that a TopicCreated event at the offset describes.
abbrev pub created_partition : ℕ → TopicCreatedPartition → TopicPartition
created_partition offset c = record {
  partition = c.partition;
  config = c.config;
  initial_segment = c.initial.id;
  initial_header_hash = c.initial.header_hash;
  retained_l = 0;
  current_retained_segment = c.initial.id;
  current_retained_header_hash = c.initial.header_hash;
  boundary_catalog_next = (offset + 1) % 2 ^ 64;
  maximum_recorded_retirement_h = 0;
}

unfoldable pub apply_topic_created : CatalogProjection → ℕ → List ℕ → Result CatalogProjection
apply_topic_created p offset payload = do
  reject_if (p.revision == 0) (corrupt invalid_record "TopicCreated precedes StoreInitialized")
  event ← decode_topic_created payload
  reject_if (not (array_eq 16 event.store_id p.store_id) || event.expected_catalog_next != offset)
      (corrupt invalid_record "TopicCreated store or catalog revision mismatch")
  reject_if (has event.name p.topics_by_name)
      (corrupt invalid_record "duplicate topic name in catalog")
  reject_if (has event.topic_id p.topics_by_id)
      (corrupt invalid_record "duplicate topic ID in catalog")
  let topic : CatalogTopic = record {
    descriptor = record {
      id = event.topic_id;
      name = event.name;
      partitions = map (created_partition offset) event.partitions;
    };
    retired = [];
    creation_offset = offset;
  }
  ok (record p {
    topics_by_name = insert event.name event.topic_id p.topics_by_name;
    topics_by_id = insert event.topic_id topic p.topics_by_id;
    revision = (offset + 1) % 2 ^ 64;
  })

unfoldable pub apply : CatalogProjection → Record → Result CatalogProjection
apply p r = do
  (event_type, payload) ← decode_system_event r cluster_metadata_topic_id
  if event_type == event_store_initialized
      then apply_store_initialized p r.offset payload
      else if event_type == event_topic_created
      then apply_topic_created p r.offset payload
      else if event_type == event_partition_log_start_advanced
      then apply_log_start_advanced p r.offset payload
      else err (join (unsupported_format ∷ []) "unsupported catalog event")

-- The loop of `replay` over records that the log returns, which start at the offset.
unfoldable pub replay_records : CatalogProjection → ℕ → List Record → Result CatalogProjection
replay_records p offset [] = ok p
replay_records p offset (r ∷ rs) = do
  reject_if (r.offset != offset) (corrupt invalid_record "catalog replay offset gap")
  p' ← apply p r
  replay_records p' ((offset + 1) % 2 ^ 64) rs

abbrev no_config : PartitionConfig
no_config = record {
  max_record_bytes = 0;
  max_batch_bytes = 0;
  max_batch_records = 0;
  segment_max_bytes = 0;
  batch_linger = pos 0;
  retention_mask = 0;
  retention_millis = 0;
  retention_bytes = 0;
  max_segment_age_millis = 0;
  retention_check_millis = 0;
}

abbrev no_anchor : EventAnchor
no_anchor = record { id = zeros 16; header_hash = zeros 32 }

-- `newCatalogProjection`, with the zero values of the fields that it leaves out.
abbrev pub new_catalog_projection : CatalogProjection
new_catalog_projection = record {
  store_id = zeros 16;
  initialized = record {
    store_id = zeros 16;
    catalog_initial = no_anchor;
    offsets_initial = no_anchor;
    catalog_config = no_config;
    offsets_config = no_config;
  };
  config = no_config;
  offsets_config = no_config;
  revision = 0;
  topics_by_name = [];
  topics_by_id = [];
}

-- `replay` of the records that the log returns, from offset 0 to its end. The errors of `EndOffset`
-- and `Read` are left out.
unfoldable pub replay : List Record → Result CatalogProjection
replay records = do
  p ← replay_records new_catalog_projection 0 records
  reject_if (p.revision == 0) (corrupt invalid_record "catalog is missing StoreInitialized")
  ok p
