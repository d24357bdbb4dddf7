-- ===== src/Tests/EventTrips.antt =====
-- Events at concrete inputs.
use immulog.Prelude.{
  ℕ, ◌≡◌, ◌↔◌, ◌<◌, refl, Bool, true, false, Option, none, some, List, [], ◌∷◌, ◌++◌, length, arith,
}
use immulog.Prelude.Arrays.{of_bytes}
use immulog.Api.{cluster_metadata_topic_id, is_zero}
use immulog.Api.Errors.{ok}
use immulog.Config.{PartitionConfig, validate}
use immulog.Config.Wire.{encode_partition_config, decode_partition_config, config_bytes}
use immulog.Events.Fields.{EventAnchor}
use immulog.Events.Envelope.{
  event_topic_created, encode_system_event, decode_system_event, event_belongs_to_topic,
  event_record, decode-encode_system_event,
}
use immulog.Events.TopicNames.{valid_topic_name}
use immulog.Events.Payloads.{
  StoreInitializedEvent, TopicCreatedEvent, encode_store_initialized, decode_store_initialized,
  encode_topic_created, decode_topic_created,
}
use immulog.Events.Trip.{decode-encode_store_initialized}
use immulog.Events.TopicTrip.{decode-encode_topic_created}
use immulog.Tests.Samples.{topic, segment_id, value_of}
use immulog.Tests.Policies.{sized}

-- A configuration of a system log.
abbrev kept_forever : PartitionConfig
kept_forever = record sized { retention_mask = 0; retention_bytes = 0; retention_check_millis = 0 }

system_valid : validate kept_forever true ≡ ok tt
unfolding validate immulog.Config.validate_sizes immulog.Config.validate_retention
    immulog.Config.check_durations
system_valid = refl

abbrev pub anchor : EventAnchor
anchor = record { id = segment_id; header_hash = of_bytes 32 (1 ∷ []) }

abbrev initialized : StoreInitializedEvent
initialized = record {
  store_id = of_bytes 16 (5 ∷ []);
  catalog_initial = anchor;
  offsets_initial = anchor;
  catalog_config = kept_forever;
  offsets_config = kept_forever;
}

abbrev pub initialized_bytes : List ℕ
initialized_bytes = value_of (encode_store_initialized initialized)

initialized_encoded : encode_store_initialized initialized ≡ ok initialized_bytes
unfolding encode_store_initialized is_zero encode_partition_config validate
    immulog.Config.validate_sizes immulog.Config.validate_retention immulog.Config.check_durations
    immulog.Config.Wire.duration_millis immulog.Events.Fields.encode_anchor
    immulog.Events.Fields.is_zero_hash
initialized_encoded = refl

decode-encode_store_initialized_example :
    decode_store_initialized initialized_bytes ≡ ok initialized
decode-encode_store_initialized_example =
    decode-encode_store_initialized initialized initialized_encoded system_valid system_valid

-- "ab"
abbrev created_topic : TopicCreatedEvent
created_topic = record {
  store_id = of_bytes 16 (5 ∷ []);
  expected_catalog_next = 1;
  topic_id = topic;
  name = 97 ∷ 98 ∷ [];
  partitions = record { partition = 0; config = sized; initial = anchor } ∷ [];
}

abbrev pub created_bytes : List ℕ
created_bytes = value_of (encode_topic_created created_topic)

created_encoded : encode_topic_created created_topic ≡ ok created_bytes
unfolding encode_topic_created is_zero immulog.Events.Payloads.is_reserved_topic
    immulog.Events.Cursor.string_bytes immulog.Events.Cursor.contains_zero
    immulog.Format.Utf8.valid_utf8 immulog.Events.Payloads.encode_topic_partitions
    encode_partition_config validate immulog.Config.validate_sizes immulog.Config.validate_retention
    immulog.Config.check_durations immulog.Config.Wire.duration_millis
    immulog.Events.Fields.encode_anchor immulog.Events.Fields.is_zero_hash
created_encoded = refl

created_name : valid_topic_name (97 ∷ 98 ∷ []) ≡ true
unfolding valid_topic_name immulog.Format.LittleEndian.bytes_eq
    immulog.Events.TopicNames.are_name_characters immulog.Events.TopicNames.is_name_character
created_name = refl

decode-encode_topic_created_example : decode_topic_created created_bytes ≡ ok created_topic
decode-encode_topic_created_example =
    decode-encode_topic_created created_topic created_encoded created_name (omega arith)

event_encoded :
    encode_system_event event_topic_created (1 ∷ 2 ∷ [])
    ≡ ok (value_of (encode_system_event event_topic_created (1 ∷ 2 ∷ [])))
unfolding encode_system_event
event_encoded = refl

event_belongs : event_belongs_to_topic event_topic_created cluster_metadata_topic_id ≡ true
unfolding event_belongs_to_topic immulog.Prelude.Arrays.array_eq
event_belongs = refl

decode-encode_system_event_example :
    decode_system_event
      (event_record cluster_metadata_topic_id 7
        (value_of (encode_system_event event_topic_created (1 ∷ 2 ∷ []))))
      cluster_metadata_topic_id
    ≡ ok (event_topic_created, 1 ∷ 2 ∷ [])
decode-encode_system_event_example =
    decode-encode_system_event event_topic_created (1 ∷ 2 ∷ []) cluster_metadata_topic_id 7
      event_encoded event_belongs
