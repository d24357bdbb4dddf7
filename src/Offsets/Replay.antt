-- ===== src/Offsets/Replay.antt =====
-- `offsetsProjection.apply` and `replayOffsetsHistory` of storage/offsets_projection.go.
use immulog.Prelude.{ℕ, ◌+◌, ◌^◌, ◌%◌, not, ◌||◌, List, [], ◌∷◌, ltb, ◌==◌, ◌!=◌, if◌then◌else◌}
use immulog.Prelude.Arrays.{array_eq}
use immulog.Api.{Record, consumer_offsets_topic_id}
use immulog.Api.Errors.{Result, ok, err, corrupt, invalid_record, reject_if, ◌>>=◌, ◌>>◌}
use immulog.Events.Cursor.{read_id, read_uint}
use immulog.Events.Envelope.{
  event_group_created, event_local_assignment_changed, event_offset_committed, decode_system_event,
}
use immulog.Events.Payloads.{StoreId}
use immulog.Catalog.{CatalogProjection}
use immulog.Offsets.{OffsetsProjection}
use immulog.Offsets.Apply.{apply_group_created, apply_commit}
use immulog.Offsets.Assign.{apply_assignment}

-- The handler of the event's type.
unfoldable pub dispatch :
    OffsetsProjection → ℕ → ℕ → List ℕ → List ℕ → CatalogProjection → ℕ → Result OffsetsProjection
dispatch p event_type offset payload d c catalog_next =
    if event_type == event_group_created
    then apply_group_created p offset payload d c catalog_next
    else if event_type == event_local_assignment_changed
    then apply_assignment p offset payload d c catalog_next
    else if event_type == event_offset_committed
    then apply_commit p offset d c catalog_next
    else err (corrupt invalid_record "invalid offsets event type")

-- The catalog is there: a store opens it in front of the offsets log.
unfoldable pub apply : OffsetsProjection → Record → CatalogProjection → Result OffsetsProjection
apply p r c = do
  (event_type, payload) ← decode_system_event r consumer_offsets_topic_id
  (encoded_store, d1) ← read_id payload
  reject_if (not (array_eq 16 encoded_store p.store_id))
      (corrupt invalid_record "offset event StoreID mismatch")
  (catalog_next, d2) ← read_uint 8 d1
  reject_if (catalog_next == 0 || ltb c.revision catalog_next)
      (corrupt invalid_record "offset event catalog revision is unavailable")
  dispatch p event_type r.offset payload d2 c catalog_next

-- `newOffsetsProjection`
abbrev pub new_offsets_projection : StoreId → OffsetsProjection
new_offsets_projection store_id = record { store_id = store_id; revision = 0; groups = [] }

-- The loop over the records that the log returns, which start at the offset.
unfoldable pub replay_offset_records :
    OffsetsProjection → CatalogProjection → ℕ → List Record → Result OffsetsProjection
replay_offset_records p c offset [] = ok p
replay_offset_records p c offset (r ∷ rs) = do
  reject_if (r.offset != offset) (corrupt invalid_record "offset replay gap")
  p' ← apply p r c
  replay_offset_records p' c ((offset + 1) % 2 ^ 64) rs

-- `replayOffsetsHistory` of the records that the log returns, from offset 0 to its end. The errors
-- of `EndOffset` and `Read` are left out.
unfoldable pub replay_offsets_history :
    StoreId → CatalogProjection → List Record → Result OffsetsProjection
replay_offsets_history store_id c records =
    replay_offset_records (new_offsets_projection store_id) c 0 records
