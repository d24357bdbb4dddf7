-- ===== src/Store/Events.antt =====
-- `appendOffsetsEventLocked` of storage/consumer.go and the errors that its callers make of its own.
use immulog.Prelude.{ℕ, Bool, true, false, ◌||◌, List, [], ◌∷◌, if◌then◌else◌}
use immulog.Api.{consumer_offsets_topic_id}
use immulog.Api.Errors.{
  Sentinel, append_outcome_unknown, partition_unavailable, group_unavailable,
  commit_outcome_unknown, closed, closing, Error, Result, ok, err, join, reject_if, ◌>>=◌, ◌>>◌,
}
use immulog.Events.Envelope.{encode_system_event, event_record}
use immulog.Offsets.{OffsetsProjection}
use immulog.Offsets.Replay.{apply}
use immulog.Partition.{Partition}
use immulog.Partition.Append.{Answers, append_batch}
use immulog.Store.{Store}
use immulog.Store.Capacity.{event_batch, system_event_admission}

-- `EndOffset`
unfoldable pub end_offset : Partition → Result ℕ
end_offset p = do
  reject_if p.closed (join (closed ∷ []) "")
  reject_if p.closing (join (closing ∷ []) "")
  reject_if p.unavailable (join (partition_unavailable ∷ []) "")
  ok p.log_end

-- `errors.Join(sentinel, err)`
abbrev pub join_with : Sentinel → Error → Error
join_with kind e = record { joined = kind ∷ e.joined; detail = e.detail }

-- The store behind the projection of an event that the log has taken.
unfoldable pub project_event :
    Store → Partition → Result OffsetsProjection → Result (Unit {0}) × Store
project_event s offsets (ok p) = (ok tt, record s { offsets = offsets; offsets_state = p })
project_event s offsets (err e) = (
  err (join_with group_unavailable e),
  record s { offsets = offsets; offsets_unavailable = true },
)

-- The store behind the append of an event at the end of the log.
unfoldable pub append_event : Store → ℕ → List ℕ → Result ℕ × Partition → Result (Unit {0}) × Store
append_event s base value (err e, offsets) = (err e, record s { offsets = offsets })
append_event s base value (ok first, offsets) =
    project_event s offsets
      (apply s.offsets_state (event_record consumer_offsets_topic_id base value) s.catalog_state)

-- The event's bytes and its offset, where the log has room for it.
unfoldable pub admit_event : Store → ℕ → List ℕ → Result (List ℕ × ℕ)
admit_event s kind body = do
  value ← encode_system_event kind body
  base ← end_offset s.offsets
  system_event_admission s.offsets consumer_offsets_topic_id base value s.max_offsets_history_bytes
  ok (value, base)

-- The store's hook in place of `AppendBatch` is absent.
unfoldable pub append_offsets_event : Store → ℕ → List ℕ → Answers → Result (Unit {0}) × Store
append_offsets_event s kind body a = elim (admit_event s kind body) [
  | err e ↦ (err e, s)
  | ok (value, base) ↦
      append_event s base value
        (append_batch s.offsets (event_batch consumer_offsets_topic_id base value) a)
]

-- `errors.Is(err, sentinel)` for the sentinels that these callers test.
unfoldable pub has_unknown_outcome : List Sentinel → Bool
has_unknown_outcome [] = false
has_unknown_outcome (append_outcome_unknown ∷ ks) = true
has_unknown_outcome (_ ∷ ks) = has_unknown_outcome ks

unfoldable pub has_unavailable : List Sentinel → Bool
has_unavailable [] = false
has_unavailable (partition_unavailable ∷ ks) = true
has_unavailable (group_unavailable ∷ ks) = true
has_unavailable (_ ∷ ks) = has_unavailable ks

unfoldable pub group_append_error : Store → Error → Error × Store
group_append_error s e =
    if has_unknown_outcome e.joined || has_unavailable e.joined
    then (join_with group_unavailable e, record s { offsets_unavailable = true })
    else (e, s)

unfoldable pub commit_append_error : Store → Error → Error × Store
commit_append_error s e =
    if has_unknown_outcome e.joined
    then (join_with commit_outcome_unknown e, record s { offsets_unavailable = true })
    else group_append_error s e
