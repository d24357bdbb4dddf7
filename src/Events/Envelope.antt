-- ===== src/Events/Envelope.antt =====
-- `encodeSystemEvent`, `decodeSystemEvent` and `eventBelongsToTopic` of storage/events.go.
use immulog.Prelude.{
  ℕ, ◌-◌, ◌^◌, ◌≡◌, ◌<◌, Bool, true, false, not, ◌&&◌, ◌||◌, none, some, List, [], ◌∷◌, ◌++◌,
  length, drop, ltb, ◌==◌, ◌!=◌, if◌then◌else◌, arith,
}
use immulog.Prelude.Arrays.{array_eq, array_eq_refl}
use immulog.Prelude.Int.{pos}
use immulog.Api.{TopicId, Record, cluster_metadata_topic_id, consumer_offsets_topic_id}
use immulog.Api.Errors.{
  Result, ok, err, corrupt, unsupported, join, invalid_argument, invalid_record, reject_if, ◌>>◌,
  reject_if-eq-ok,
}
use immulog.Format.{max_uint32}
use immulog.Format.LittleEndian.{le, slice, u16, u32, bytes_eq, un_le-le_2, un_le-le_4}

-- "IELE"
abbrev pub event_magic : List ℕ
event_magic = 73 ∷ 69 ∷ 76 ∷ 69 ∷ []

abbrev pub event_envelope_len : ℕ
event_envelope_len = 16

-- The values of `EventType` in storage/format.go.
abbrev pub event_topic_created : ℕ
event_topic_created = 1

abbrev pub event_partition_log_start_advanced : ℕ
event_partition_log_start_advanced = 2

abbrev pub event_group_created : ℕ
event_group_created = 3

abbrev pub event_local_assignment_changed : ℕ
event_local_assignment_changed = 4

abbrev pub event_offset_committed : ℕ
event_offset_committed = 5

abbrev pub event_store_initialized : ℕ
event_store_initialized = 6

unfoldable pub event_belongs_to_topic : ℕ → TopicId → Bool
event_belongs_to_topic event_type topic =
    if array_eq 16 topic cluster_metadata_topic_id
    then event_type == event_store_initialized
      || event_type == event_topic_created
      || event_type == event_partition_log_start_advanced
    else if array_eq 16 topic consumer_offsets_topic_id
    then event_type == event_group_created
      || event_type == event_local_assignment_changed
      || event_type == event_offset_committed
    else false

unfoldable pub encode_system_event : ℕ → List ℕ → Result (List ℕ)
encode_system_event event_type payload = do
  reject_if (event_type == 0 || ltb max_uint32 (length payload))
      (join (invalid_argument ∷ []) "invalid system event")
  ok (event_magic ++ le 2 event_type ++ le 2 1 ++ le 4 (length payload) ++ le 4 0 ++ payload)

unfoldable pub is_event_shape : Record → TopicId → Bool
is_event_shape r expected_topic = elim r.key [
  | some k ↦ false
  | none ↦ array_eq 16 r.topic expected_topic && r.partition == 0 && length r.headers == 0
]

unfoldable pub decode_event_value : List ℕ → TopicId → Result (ℕ × List ℕ)
decode_event_value v expected_topic = do
  reject_if (ltb (length v) event_envelope_len || not (bytes_eq (slice 0 4 v) event_magic))
      (corrupt invalid_record "invalid system event envelope")
  reject_if (u16 4 v == 0 || u16 6 v == 0)
      (corrupt invalid_record "zero system event type or schema")
  reject_if (u16 6 v != 1 || u32 12 v != 0) (unsupported "unsupported system event schema or flags")
  reject_if (u32 8 v != length v - event_envelope_len)
      (corrupt invalid_record "system event payload length mismatch")
  reject_if (not (event_belongs_to_topic (u16 4 v) expected_topic))
      (corrupt invalid_record "system event belongs to another log")
  ok (u16 4 v, drop event_envelope_len v)

unfoldable pub decode_system_event : Record → TopicId → Result (ℕ × List ℕ)
decode_system_event r expected_topic = elim r.value [
  | none ↦ err (corrupt invalid_record "invalid system event record shape")
  | some v ↦ do
    reject_if (not (is_event_shape r expected_topic))
        (corrupt invalid_record "invalid system event record shape")
    decode_event_value v expected_topic
]

-- A record of a system log that carries the event.
abbrev pub event_record : TopicId → ℕ → List ℕ → Record
event_record topic offset value = record {
  topic = topic;
  partition = 0;
  offset = offset;
  timestamp = pos 0;
  key = none;
  value = some value;
  headers = [];
}

small :
    (event_type : ℕ) (topic : TopicId)
    → event_belongs_to_topic event_type topic ≡ true
    → event_type < 2 ^ 16
unfolding event_belongs_to_topic
small event_type topic b = ground arith

decoded :
    (event_type : ℕ) (payload : List ℕ) (topic : TopicId)
    → event_type < 2 ^ 16
    → (event_type == 0 || ltb max_uint32 (length payload) ≡ false)
    → event_belongs_to_topic event_type topic ≡ true
    → decode_event_value
        (event_magic ++ le 2 event_type ++ le 2 1 ++ le 4 (length payload) ++ le 4 0 ++ payload)
        topic
      ≡ ok (event_type, payload)
unfolding decode_event_value bytes_eq slice u16 u32
decoded event_type payload topic h r b =
    ground (arith, un_le-le_2 event_type, un_le-le_4 (length payload))

-- An event of a log that the code encodes is read back, its type and payload, from the record that
-- carries it in that log.
pub decode-encode_system_event :
    (event_type : ℕ) (payload : List ℕ) (topic : TopicId) (offset : ℕ) {v : List ℕ}
    → encode_system_event event_type payload ≡ ok v
    → event_belongs_to_topic event_type topic ≡ true
    → decode_system_event (event_record topic offset v) topic ≡ ok (event_type, payload)
unfolding encode_system_event decode_system_event is_event_shape
decode-encode_system_event event_type payload topic offset {v = v} e b =
    let (r, e1) = reject_if-eq-ok (event_type == 0 || ltb max_uint32 (length payload)) _ _ e in
    let same : event_magic
          ++ le 2 event_type
          ++ le 2 1
          ++ le 4 (length payload)
          ++ le 4 0
          ++ payload
        ≡ v =
      ground arith in
    rw⁻¹ same (
      rw (array_eq_refl 16 topic) (decoded event_type payload topic (small event_type topic b) r b))
