-- ===== src/Tests/Catalogs.antt =====
-- A metadata log with a topic and a retention, and an offsets log with a group.
use immulog.Prelude.{
  ℕ, ◌+◌, ◌^◌, ◌%◌, ◌≤◌, ◌<◌, ◌≡◌, refl, Bool, true, false, Option, none, some, List, [], ◌∷◌, ◌++◌,
  length, get_elem?, arith,
}
use immulog.Prelude.Arrays.{Array, of_bytes}
use immulog.Prelude.Int.{pos}
use immulog.Prelude.Maps.{lookup}
use immulog.Api.{Record, cluster_metadata_topic_id, consumer_offsets_topic_id}
use immulog.Api.Errors.{Result, ok, err}
use immulog.Events.Fields.{EventAnchor, TopicKey}
use immulog.Events.Envelope.{
  event_store_initialized, event_topic_created, event_partition_log_start_advanced, event_record,
  encode_system_event,
}
use immulog.Catalog.{CatalogProjection}
use immulog.Catalog.RetentionEvent.{LogStartAdvancedEvent, encode_log_start_advanced}
use immulog.Catalog.Replay.{IsCovered, replay-IsCovered}
use immulog.Catalog.Progress.{IsOnward, replay_records-IsOnward}
use immulog.Catalog.Apply.{replay_records, new_catalog_projection, replay}
use immulog.Tests.Samples.{topic, value_of}
use immulog.Tests.EventTrips.{anchor, initialized_bytes, created_bytes}

abbrev next_anchor : EventAnchor
next_anchor = record { id = of_bytes 16 (10 ∷ []); header_hash = of_bytes 32 (2 ∷ []) }

-- The first five records of the topic's partition are retired.
abbrev advance_event : LogStartAdvancedEvent
advance_event = record {
  store_id = of_bytes 16 (5 ∷ []);
  expected_catalog_next = 2;
  key = record { topic = topic; partition = 0 };
  expected_old_l = 0;
  new_l = 5;
  evaluated_durable_end = 9;
  retained_anchor = next_anchor;
  reason_mask = 2;
  evaluated_unix_millis = pos 7;
  evaluated_retained_bytes = 300;
  retired = record { base = 0; end = 5; bytes = 200; anchor = anchor } ∷ [];
}

abbrev event : ℕ → ℕ → List ℕ → Record
event kind offset payload =
    event_record cluster_metadata_topic_id offset (value_of (encode_system_event kind payload))

abbrev first_events : List Record
first_events =
    event event_store_initialized 0 initialized_bytes
    ∷ event event_topic_created 1 created_bytes
    ∷ []

abbrev retention_event : Record
retention_event =
    event event_partition_log_start_advanced 2 (value_of (encode_log_start_advanced advance_event))

abbrev pub metadata_log : List Record
metadata_log = first_events ++ (retention_event ∷ [])

abbrev catalog_of : Result CatalogProjection → CatalogProjection
catalog_of (ok p) = p
catalog_of (err e) = new_catalog_projection

abbrev pub catalog : CatalogProjection
catalog = catalog_of (replay metadata_log)

-- The catalog in front of the retention.
abbrev first_catalog : CatalogProjection
first_catalog = catalog_of (replay first_events)

replayed :
    (replay metadata_log ≡ ok catalog)
    × (replay_records first_catalog 2 (retention_event ∷ []) ≡ ok catalog)
unfolding replay replay_records immulog.Catalog.Apply.apply
    immulog.Events.Envelope.decode_system_event immulog.Events.Envelope.is_event_shape
    immulog.Prelude.Arrays.array_eq immulog.Events.Envelope.decode_event_value encode_system_event
    immulog.Events.Payloads.encode_store_initialized immulog.Api.is_zero
    immulog.Config.Wire.encode_partition_config immulog.Config.validate
    immulog.Config.validate_sizes immulog.Config.validate_retention immulog.Config.check_durations
    immulog.Config.Wire.duration_millis immulog.Events.Fields.encode_anchor
    immulog.Events.Fields.is_zero_hash immulog.Api.Errors.corrupt immulog.Api.Errors.join
    immulog.Catalog.Apply.LogStart.apply_log_start_advanced
    immulog.Catalog.Apply.apply_store_initialized immulog.Catalog.Apply.apply_topic_created
    immulog.Catalog.Apply.LogStart.check_retired immulog.Catalog.Apply.LogStart.check_transition
    immulog.Catalog.Apply.LogStart.contains_id immulog.Catalog.Apply.LogStart.is_anchored
    immulog.Catalog.Apply.LogStart.known_partition immulog.Catalog.Apply.LogStart.record_retired
    immulog.Catalog.Apply.LogStart.same_event_anchor immulog.Catalog.Apply.LogStart.starts_at
    immulog.Catalog.RetentionEvent.decode_log_start_advanced
    immulog.Catalog.RetentionEvent.decode_retired immulog.Catalog.RetentionEvent.goes_back
    immulog.Catalog.RetentionEvent.has_other_bits immulog.Config.Wire.check_config_frame
    immulog.Config.Wire.decode_partition_config immulog.Events.Cursor.contains_zero
    immulog.Events.Cursor.expect_reserved immulog.Events.Cursor.finish_event
    immulog.Events.Cursor.read_id immulog.Events.Cursor.read_string immulog.Events.Cursor.read_uint
    immulog.Events.Cursor.take_field immulog.Events.Envelope.event_belongs_to_topic
    immulog.Events.Fields.decode_anchor immulog.Events.Fields.decode_topic_key
    immulog.Events.Payloads.decode_store_initialized immulog.Events.Payloads.decode_topic_created
    immulog.Events.Payloads.decode_topic_partitions immulog.Events.Payloads.is_reserved_topic
    immulog.Events.TopicNames.are_name_characters immulog.Events.TopicNames.is_name_character
    immulog.Events.TopicNames.valid_topic_name immulog.Format.LittleEndian.bytes_eq
    immulog.Format.LittleEndian.slice immulog.Format.LittleEndian.u16
    immulog.Format.LittleEndian.u32 immulog.Format.LittleEndian.u64 immulog.Format.Utf8.valid_utf8
    immulog.Prelude.Int.int_of_uint64 immulog.Prelude.Maps.insert lookup
    immulog.Prelude.Int.uint64_of_int encode_log_start_advanced
    immulog.Catalog.RetentionEvent.encode_retired immulog.Events.Payloads.encode_topic_created
    immulog.Events.Payloads.encode_topic_partitions immulog.Events.Cursor.string_bytes
replayed = (refl, refl)

replay-IsCovered_example :
    IsCovered catalog × (catalog.revision ≡ length metadata_log) × (0 < catalog.revision)
replay-IsCovered_example = replay-IsCovered metadata_log catalog (omega arith) replayed.0

replay_records-IsOnward_example : IsOnward first_catalog catalog
replay_records-IsOnward_example =
    replay_records-IsOnward first_catalog catalog 2 (retention_event ∷ []) replayed.1
