-- ===== src/Tests/Groups.antt =====
-- An offsets log with a group, its assignment and a commit.
use immulog.Prelude.{
  ℕ, ◌+◌, ◌^◌, ◌%◌, ◌≤◌, ◌<◌, ◌≡◌, refl, Bool, true, false, Option, none, some, List, [], ◌∷◌, ◌++◌,
  length, arith,
}
use immulog.Prelude.Arrays.{Array, of_bytes, zeros}
use immulog.Prelude.Maps.{lookup}
use immulog.Api.{Record, consumer_offsets_topic_id}
use immulog.Api.Errors.{Result, ok, err}
use immulog.Events.Fields.{TopicKey}
use immulog.Events.Envelope.{
  event_group_created, event_local_assignment_changed, event_offset_committed, event_record,
  encode_system_event,
}
use immulog.Events.Payloads.{StoreId}
use immulog.Catalog.{string_eq, id_eq, TopicPartition}
use immulog.Offsets.{OffsetProgress, OffsetGroup, OffsetsProjection, latest_next}
use immulog.Offsets.Apply.{catalog_partition}
use immulog.Offsets.Keys.{key_eq}
use immulog.Offsets.Bodies.{encode_group_created_body, encode_assignment_body, encode_commit_body}
use immulog.Offsets.Replay.{
  new_offsets_projection, replay_offset_records, replay_offsets_history, apply,
}
use immulog.Offsets.Positions.{AreGroups}
use immulog.Offsets.History.{
  IsOnward, replay_offset_records-IsOnward, replay_offsets_history-AreGroups,
}
use immulog.Offsets.Commit.Holder.{IsHolder, committed, committed_projection}
use immulog.Offsets.Commit.{apply-encode_commit_body}
use immulog.Tests.Samples.{topic, value_of}
use immulog.Tests.Catalogs.{catalog}

abbrev pub store : StoreId
store = of_bytes 16 (5 ∷ [])

abbrev pub key : TopicKey
key = record { topic = topic; partition = 0 }

-- "g"
abbrev pub group_id : List ℕ
group_id = 103 ∷ []

abbrev pub session : Array 16
session = of_bytes 16 (8 ∷ [])

abbrev event : ℕ → ℕ → List ℕ → Record
event kind offset payload =
    event_record consumer_offsets_topic_id offset (value_of (encode_system_event kind payload))

abbrev pub assignment_log : List Record
assignment_log =
    event event_group_created 0 (value_of (encode_group_created_body store 3 group_id 1 key 0))
    ∷ event event_local_assignment_changed 1
        (value_of (encode_assignment_body store 3 group_id session 0 1 key 5 true))
    ∷ []

abbrev projection_of : Result OffsetsProjection → OffsetsProjection
projection_of (ok p) = p
projection_of (err e) = new_offsets_projection store

abbrev pub assigned : OffsetsProjection
assigned = projection_of (replay_offsets_history store catalog assignment_log)

abbrev pub progress : OffsetProgress
progress = record { initial_next = 5; has_commit = false; committed_next = 0 }

abbrev commit_body : List ℕ
commit_body = value_of (encode_commit_body store 3 group_id session 1 key progress 7)

abbrev commit_event : Record
commit_event = event event_offset_committed 2 commit_body

abbrev no_group : OffsetGroup
no_group = record {
  creation_offset = 0;
  creation_body = [];
  generation = 0;
  assignment_offset = 0;
  assignment_body = [];
  assignment_owner = [];
  assignment_member = [];
  assignment_instance = store;
  creation_start_mode = 0;
  explicit_starts = [];
  progress = [];
}

abbrev group_of : Option OffsetGroup → OffsetGroup
group_of none = no_group
group_of (some g) = g

abbrev pub group : OffsetGroup
group = group_of (lookup group_id assigned.groups)

abbrev no_partition : TopicPartition
no_partition = record {
  partition = 0;
  config = catalog.config;
  initial_segment = session;
  initial_header_hash = zeros 32;
  retained_l = 0;
  current_retained_segment = session;
  current_retained_header_hash = zeros 32;
  boundary_catalog_next = 0;
  maximum_recorded_retirement_h = 0;
}

abbrev partition_of : Result TopicPartition → TopicPartition
partition_of (ok t) = t
partition_of (err e) = no_partition

pub replayed :
    (replay_offsets_history store catalog assignment_log ≡ ok assigned)
    × (replay_offset_records assigned catalog 2 (commit_event ∷ [])
        ≡ ok (committed_projection assigned 2 group_id group key progress 7))
    × IsHolder assigned catalog group_id group session key progress
    × (encode_commit_body assigned.store_id catalog.revision group_id session group.generation key
          progress 7
        ≡ ok commit_body)
    × (encode_system_event event_offset_committed commit_body
        ≡ ok (value_of (encode_system_event event_offset_committed commit_body)))
    × (assigned.store_id ≡ store)
unfolding replay_offsets_history replay_offset_records apply encode_group_created_body
    encode_assignment_body encode_commit_body immulog.Events.Cursor.require_id
    immulog.Offsets.Apply.apply_commit immulog.Offsets.Apply.apply_group_created
    immulog.Offsets.Apply.catalog_partition immulog.Offsets.Apply.commit_group
    immulog.Offsets.Apply.commit_in immulog.Offsets.Apply.commit_progress
    immulog.Offsets.Apply.is_owner immulog.Offsets.Apply.read_commit
    immulog.Offsets.Apply.read_starts immulog.Offsets.Assign.apply_assignment
    immulog.Offsets.Assign.assign_progress immulog.Offsets.Assign.is_subscriber
    immulog.Offsets.Assign.read_assignment immulog.Offsets.Assign.read_assignments
    immulog.Offsets.Assign.read_entry immulog.Offsets.Assign.read_generation
    immulog.Offsets.Assign.read_members immulog.Offsets.Assign.read_membership
    immulog.Offsets.Assign.read_subscriptions immulog.Offsets.Keys.compare_bytes
    immulog.Offsets.Keys.compare_topic_key immulog.Offsets.Keys.key_beq
    immulog.Offsets.Keys.out_of_order immulog.Offsets.Keys.session_out_of_order
    immulog.Offsets.Replay.dispatch latest_next immulog.Catalog.Apply.replay
    immulog.Catalog.Apply.replay_records immulog.Catalog.Apply.apply
    immulog.Events.Envelope.decode_system_event immulog.Events.Envelope.is_event_shape
    immulog.Prelude.Arrays.array_eq immulog.Events.Envelope.decode_event_value encode_system_event
    immulog.Events.Payloads.encode_store_initialized immulog.Api.is_zero
    immulog.Config.Wire.encode_partition_config immulog.Config.validate
    immulog.Config.validate_sizes immulog.Config.validate_retention immulog.Config.check_durations
    immulog.Config.Wire.duration_millis immulog.Events.Fields.encode_anchor
    immulog.Events.Fields.is_zero_hash immulog.Api.Errors.corrupt immulog.Api.Errors.join
    immulog.Catalog.Apply.LogStart.apply_log_start_advanced
    immulog.Catalog.Apply.apply_store_initialized immulog.Catalog.Apply.apply_topic_created
    immulog.Catalog.Apply.LogStart.check_retired immulog.Catalog.Apply.LogStart.check_transition
    immulog.Catalog.Apply.LogStart.contains_id immulog.Catalog.Apply.LogStart.is_anchored
    immulog.Catalog.Apply.LogStart.known_partition immulog.Catalog.Apply.LogStart.record_retired
    immulog.Catalog.Apply.LogStart.same_event_anchor immulog.Catalog.Apply.LogStart.starts_at
    immulog.Catalog.RetentionEvent.decode_log_start_advanced
    immulog.Catalog.RetentionEvent.decode_retired immulog.Catalog.RetentionEvent.goes_back
    immulog.Catalog.RetentionEvent.has_other_bits immulog.Config.Wire.check_config_frame
    immulog.Config.Wire.decode_partition_config immulog.Events.Cursor.contains_zero
    immulog.Events.Cursor.expect_reserved immulog.Events.Cursor.finish_event
    immulog.Events.Cursor.read_id immulog.Events.Cursor.read_string immulog.Events.Cursor.read_uint
    immulog.Events.Cursor.take_field immulog.Events.Envelope.event_belongs_to_topic
    immulog.Events.Fields.decode_anchor immulog.Events.Fields.decode_topic_key
    immulog.Events.Payloads.decode_store_initialized immulog.Events.Payloads.decode_topic_created
    immulog.Events.Payloads.decode_topic_partitions immulog.Events.Payloads.is_reserved_topic
    immulog.Events.TopicNames.are_name_characters immulog.Events.TopicNames.is_name_character
    immulog.Events.TopicNames.valid_topic_name immulog.Format.LittleEndian.bytes_eq
    immulog.Format.LittleEndian.slice immulog.Format.LittleEndian.u16
    immulog.Format.LittleEndian.u32 immulog.Format.LittleEndian.u64 immulog.Format.Utf8.valid_utf8
    immulog.Prelude.Int.int_of_uint64 immulog.Prelude.Maps.insert lookup
    immulog.Prelude.Int.uint64_of_int immulog.Catalog.RetentionEvent.encode_log_start_advanced
    immulog.Catalog.RetentionEvent.encode_retired immulog.Events.Payloads.encode_topic_created
    immulog.Events.Payloads.encode_topic_partitions immulog.Events.Cursor.string_bytes
replayed = (
  refl,
  refl,
  record {
    partition = partition_of (catalog_partition catalog key 3);
    group = refl;
    position = refl;
    owner = refl;
    own = refl;
    known = refl;
    store_id = refl;
    session_id = refl;
    topic_id = refl;
    index = ground arith;
    started = ground arith;
    revision = ground arith;
    generation = ground arith;
    latest = ground arith;
  },
  refl,
  refl,
  refl,
)

replay_offsets_history-AreGroups_example :
    AreGroups assigned × (assigned.revision ≡ length assignment_log)
replay_offsets_history-AreGroups_example =
    replay_offsets_history-AreGroups store catalog assignment_log assigned (omega arith) replayed.0

replay_offset_records-IsOnward_example :
    IsOnward assigned (committed_projection assigned 2 group_id group key progress 7)
replay_offset_records-IsOnward_example =
    replay_offset_records-IsOnward assigned
      (committed_projection assigned 2 group_id group key progress 7) catalog 2 (commit_event ∷ [])
      (replay_offsets_history-AreGroups store catalog assignment_log assigned (omega arith)
        replayed.0).0
      replayed.1

apply-encode_commit_body_example :
    (apply assigned
        (event_record consumer_offsets_topic_id 2
          (value_of (encode_system_event event_offset_committed commit_body)))
        catalog
      ≡ ok (committed_projection assigned 2 group_id group key progress 7))
    × (latest_next (committed progress 7) ≡ 7)
unfolding latest_next
apply-encode_commit_body_example =
    apply-encode_commit_body assigned catalog 2 group_id group session key progress 7 replayed.2
      (ground arith) (ground arith) replayed.3 replayed.4
