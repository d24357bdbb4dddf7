-- ===== src/Consumers/Lease.antt =====
-- `activePartitionLocked`, `beginOperationLocked` and `endOperationLocked` of storage/consumer.go.
use immulog.Prelude.{
  ℕ, ◌+◌, Bool, true, false, not, ◌&&◌, ◌||◌, Option, none, some, List, [], ◌∷◌, leb, ◌==◌,
  if◌then◌else◌,
}
use immulog.Prelude.Arrays.{array_eq}
use immulog.Prelude.Maps.{lookup, insert}
use immulog.Api.Errors.{Result, ok, err, join, closed, closing, assignment_lost, group_unavailable}
use immulog.Format.LittleEndian.{bytes_eq}
use immulog.Events.Fields.{TopicKey}
use immulog.Catalog.{string_eq}
use immulog.Offsets.{OffsetGroup}
use immulog.Offsets.Keys.{key_beq, key_eq}
use immulog.Offsets.Assign.{is_subscriber}
use immulog.Partition.{Partition}
use immulog.Store.{Store}
use immulog.Consumers.{Consumer}

abbrev pub ConsumerMap : Type 0
ConsumerMap = List ((List ℕ × TopicKey) × ℕ)

abbrev pub is_same_key : List ℕ → TopicKey → List ℕ × TopicKey → Bool
is_same_key group_id key (id, k) = bytes_eq group_id id && key_beq key k

-- `store.consumers[consumerMapKey(group, key)] == consumer`
unfoldable pub is_registered : List ℕ → TopicKey → ℕ → ConsumerMap → Bool
is_registered group_id key handle [] = false
is_registered group_id key handle ((k, h) ∷ m) =
    if is_same_key group_id key k then h == handle else is_registered group_id key handle m

-- `delete(store.consumers, consumerMapKey(group, key))`
unfoldable pub unregister : List ℕ → TopicKey → ConsumerMap → ConsumerMap
unregister group_id key [] = []
unregister group_id key ((k, h) ∷ m) =
    let rest = unregister group_id key m in
    if is_same_key group_id key k then rest else (k, h) ∷ rest

-- `!deadline.IsZero() && !now.Before(deadline)`
unfoldable pub is_past : Option ℕ → ℕ → Bool
is_past none now = false
is_past (some deadline) now = leb deadline now

-- The lease has run out, unless a call that waits began in front of its end.
unfoldable pub is_expired : Consumer → ℕ → Bool → Bool
is_expired c now started_before =
    c.expired || (not c.operation_active && is_past c.deadline now && not started_before)

-- The group's assignment is the one of the handle. A key without an owner has the zero identifier.
unfoldable pub is_assigned : Store → Consumer → OffsetGroup → Bool
is_assigned s c g =
    g.generation == c.generation
    && (array_eq 16 g.assignment_instance s.store_id
        && is_subscriber c.key c.session g.assignment_owner)

-- The tests behind the one on the lease.
unfoldable pub held_partition : Store → Consumer → Result (OffsetGroup × Partition)
held_partition s c =
    let lost = join (assignment_lost ∷ []) "" in
    if s.offsets_unavailable
    then err (join (group_unavailable ∷ []) "")
    else if not (is_registered c.group_id c.key c.handle s.consumers)
    then err lost
    else elim (lookup c.group_id s.offsets_state.groups) [
      | none ↦ err lost
      | some g ↦
          if not (is_assigned s c g)
          then err lost
          else elim (lookup c.key s.partitions) [ none ↦ err lost | some p ↦ ok (g, p) ]
    ]

-- The group comes with the partition, for the callers that look it up again.
unfoldable pub active_partition :
    Store → Consumer → ℕ → Bool → Result (OffsetGroup × Partition) × Store × Consumer
active_partition s c now started_before =
    if c.closed || s.closed
    then (err (join (closed ∷ []) ""), s, c)
    else if s.closing
    then (err (join (closing ∷ []) ""), s, c)
    else if is_expired c now started_before
    then (
      err (join (assignment_lost ∷ []) ""),
      record s {
        consumers = unregister c.group_id c.key s.consumers;
        expired_groups = insert c.group_id true s.expired_groups;
      },
      record c { expired = true },
    )
    else (held_partition s c, s, c)

abbrev pub begun : Consumer → ℕ → Consumer
begun c now = record c { operation_active = true; deadline = some (now + c.progress_timeout) }

-- `endOperationLocked`
unfoldable pub end_operation : Store → Consumer → ℕ → Consumer
end_operation s c now =
    if not c.closed && not s.closed && is_registered c.group_id c.key c.handle s.consumers
    then record c { operation_active = false; deadline = some (now + c.progress_timeout) }
    else record c { operation_active = false }
