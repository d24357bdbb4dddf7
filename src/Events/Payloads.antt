-- ===== src/Events/Payloads.antt =====
-- The payloads of StoreInitialized and TopicCreated in storage/events.go.
use immulog.Prelude.{
  ℕ, zero, suc, ◌-◌, ◌^◌, ◌%◌, Bool, true, false, not, ◌||◌, List, [], ◌∷◌, ◌++◌, length, ltb, ◌==◌,
  ◌!=◌,
}
use immulog.Prelude.Arrays.{Array, bytes, array_eq}
use immulog.Api.{TopicId, is_zero, cluster_metadata_topic_id, consumer_offsets_topic_id}
use immulog.Api.Errors.{
  Result, ok, corrupt, join, invalid_argument, invalid_record, other, record_too_large, reject_if,
  ◌>>=◌, ◌>>◌,
}
use immulog.Format.{max_record_bytes, record_prefix_bytes}
use immulog.Format.LittleEndian.{le}
use immulog.Config.{PartitionConfig}
use immulog.Config.Wire.{encode_partition_config, decode_partition_config}
use immulog.Events.Cursor.{read_id, read_uint, read_string, string_bytes, finish_event}
use immulog.Events.Fields.{EventAnchor, encode_anchor, decode_anchor}
use immulog.Events.TopicNames.{valid_topic_name, max_topic_name_len}
use immulog.Events.Envelope.{event_envelope_len}

abbrev pub max_topic_partitions : ℕ
max_topic_partitions = 65536

abbrev pub StoreId : Type 0
StoreId = Array 16

-- `storeInitializedEvent`
pub record StoreInitializedEvent : Type 0 where
  pub store_id : StoreId
  pub catalog_initial : EventAnchor
  pub offsets_initial : EventAnchor
  pub catalog_config : PartitionConfig
  pub offsets_config : PartitionConfig

-- `topicCreatedPartition`
pub record TopicCreatedPartition : Type 0 where
  pub partition : ℕ
  pub config : PartitionConfig
  pub initial : EventAnchor

-- `topicCreatedEvent`
pub record TopicCreatedEvent : Type 0 where
  pub store_id : StoreId
  pub expected_catalog_next : ℕ
  pub topic_id : TopicId
  pub name : List ℕ
  pub partitions : List TopicCreatedPartition

unfoldable pub encode_store_initialized : StoreInitializedEvent → Result (List ℕ)
encode_store_initialized e = do
  reject_if (is_zero e.store_id) (join (invalid_argument ∷ []) "store ID is zero")
  catalog_config ← encode_partition_config e.catalog_config
  offsets_config ← encode_partition_config e.offsets_config
  catalog_initial ← encode_anchor e.catalog_initial
  offsets_initial ← encode_anchor e.offsets_initial
  let data' =
      bytes 16 e.store_id
      ++ (catalog_initial ++ (offsets_initial ++ (catalog_config ++ offsets_config)))
  reject_if (length data' != 240) (join (other ∷ []) "internal StoreInitialized size mismatch")
  ok data'

unfoldable pub decode_store_initialized : List ℕ → Result StoreInitializedEvent
decode_store_initialized d = do
  reject_if (length d != 240) (corrupt invalid_record "StoreInitialized payload size mismatch")
  (store_id, d1) ← read_id d
  reject_if (is_zero store_id) (corrupt invalid_record "StoreInitialized store ID is zero")
  (catalog_initial, d2) ← decode_anchor d1
  (offsets_initial, d3) ← decode_anchor d2
  (catalog_config, d4) ← decode_partition_config d3 true
  (offsets_config, d5) ← decode_partition_config d4 true
  finish_event d5
  ok (record {
    store_id = store_id;
    catalog_initial = catalog_initial;
    offsets_initial = offsets_initial;
    catalog_config = catalog_config;
    offsets_config = offsets_config;
  })

-- A topic identifier that a user's topic may not have.
unfoldable pub is_reserved_topic : TopicId → Bool
is_reserved_topic id =
    is_zero id
    || array_eq 16 id cluster_metadata_topic_id
    || array_eq 16 id consumer_offsets_topic_id

-- The loop over the partitions, from the given index on.
unfoldable pub encode_topic_partitions : ℕ → List TopicCreatedPartition → Result (List ℕ)
encode_topic_partitions index [] = ok []
encode_topic_partitions index (p ∷ ps) = do
  reject_if (p.partition != index % 2 ^ 32)
      (join (invalid_argument ∷ []) "topic partitions must be canonical")
  config ← encode_partition_config p.config
  initial ← encode_anchor p.initial
  rest ← encode_topic_partitions (suc index) ps
  ok (le 4 p.partition ++ (config ++ (initial ++ rest)))

unfoldable pub encode_topic_created : TopicCreatedEvent → Result (List ℕ)
encode_topic_created e = do
  reject_if (is_zero e.store_id || is_reserved_topic e.topic_id)
      (join (invalid_argument ∷ []) "invalid TopicCreated identity")
  reject_if (length e.partitions == 0 || ltb max_topic_partitions (length e.partitions))
      (join (invalid_argument ∷ []) "topic partition count is outside limits")
  name ← string_bytes max_topic_name_len e.name
  partitions ← encode_topic_partitions 0 e.partitions
  let data' =
      bytes 16 e.store_id
      ++ (le 8 e.expected_catalog_next
          ++ (bytes 16 e.topic_id ++ (name ++ (le 4 (length e.partitions) ++ partitions))))
  reject_if (ltb (max_record_bytes - record_prefix_bytes - 8 - event_envelope_len) (length data'))
      (join (record_too_large ∷ []) "TopicCreated payload is too large")
  ok data'

-- The loop that reads `count` partitions, from the given index on.
unfoldable pub decode_topic_partitions :
    ℕ → ℕ → List ℕ → Result (List TopicCreatedPartition × List ℕ)
decode_topic_partitions zero index d = ok ([], d)
decode_topic_partitions (suc count) index d = do
  (partition, d1) ← read_uint 4 d
  reject_if (partition != index % 2 ^ 32)
      (corrupt invalid_record "TopicCreated partitions are not canonical")
  (config, d2) ← decode_partition_config d1 false
  (initial, d3) ← decode_anchor d2
  (rest, d4) ← decode_topic_partitions count (suc index) d3
  ok (record { partition = partition; config = config; initial = initial } ∷ rest, d4)

unfoldable pub decode_topic_created : List ℕ → Result TopicCreatedEvent
decode_topic_created d = do
  (store_id, d1) ← read_id d
  reject_if (is_zero store_id) (corrupt invalid_record "TopicCreated store ID is zero")
  (expected_catalog_next, d2) ← read_uint 8 d1
  (topic_id, d3) ← read_id d2
  reject_if (is_reserved_topic topic_id)
      (corrupt invalid_record "TopicCreated topic ID is reserved or zero")
  (name, d4) ← read_string max_topic_name_len d3
  reject_if (not (valid_topic_name name)) (corrupt invalid_record "TopicCreated name is invalid")
  (count, d5) ← read_uint 4 d4
  reject_if (count == 0 || ltb max_topic_partitions count)
      (corrupt invalid_record "TopicCreated partition count is outside limits")
  (partitions, d6) ← decode_topic_partitions count 0 d5
  finish_event d6
  ok (record {
    store_id = store_id;
    expected_catalog_next = expected_catalog_next;
    topic_id = topic_id;
    name = name;
    partitions = partitions;
  })
