-- ===== src/Tail/Ring.antt =====
-- The ring of a partition's tail in storage/tail.go: newPartitionTail, attachBudget, offer,
-- evictionPlan, evict, close and clear. An operation on a tail that is not there does nothing; here
-- the tail is there. The budget is shared with other tails, so it is a state of its own, which is
-- absent where the tail has none. A refused lock is an argument.
pub mod Index
pub mod Contents
pub mod Room
pub mod Offer
pub mod Trace
use immulog.Prelude.{
  ℕ, zero, suc, ◌+◌, ◌-◌, ◌^◌, ◌%◌, Bool, true, false, ◌&&◌, ◌||◌, Option, none, some, List, [],
  ◌∷◌, length, get_elem?, replicate, set, ltb, ◌==◌, ◌!=◌, if◌then◌else◌,
}
use immulog.Api.{TopicId, Record}
use immulog.Api.Errors.{
  Result, ok, err, invalid, invalid_batch, join, resource_limit, reject_if, ◌>>=◌, ◌>>◌,
}
use immulog.Tail.{TailBudget, DeliveredBatch, try_replace, release_budget, new_delivered_batch}

abbrev pub max_tail_slots : ℕ
max_tail_slots = 256

abbrev pub max_tail_bytes : ℕ
max_tail_bytes = 268435456

pub record PartitionTail : Type 0 where
  pub slots : List (Option DeliveredBatch)
  pub head : ℕ
  pub count : ℕ
  pub bytes : ℕ
  pub limit : ℕ
  pub closed : Bool

-- Options without slots and bytes have no tail.
unfoldable pub new_partition_tail : ℕ → ℕ → Result (Option PartitionTail)
new_partition_tail slots bytes = if slots == 0 && bytes == 0 then ok none else do
  reject_if (slots == 0 || bytes == 0)
      (invalid invalid_batch "tail slots and bytes must be configured together")
  reject_if (ltb max_tail_slots slots || ltb max_tail_bytes bytes)
      (join (resource_limit ∷ []) "tail configuration exceeds runtime limits")
  ok (
      some (record {
        slots = replicate slots none;
        head = 0;
        count = 0;
        bytes = 0;
        limit = bytes;
        closed = false;
      }))

-- The budget behind the call, from the one in front of it.
unfoldable pub attach_budget : PartitionTail → Option TailBudget → TailBudget → Option TailBudget
attach_budget t old budget = if t.closed || t.count != 0 then old else some budget

-- `uint32(len(tail.slots))`
abbrev pub capacity : PartitionTail → ℕ
capacity t = length t.slots % 2 ^ 32

-- The place of the slot that is so many places behind the head.
abbrev pub slot_index : PartitionTail → ℕ → ℕ
slot_index t i = (t.head + i) % 2 ^ 32 % capacity t

abbrev pub slot_batch : PartitionTail → ℕ → Option DeliveredBatch
slot_batch t i = elim (get_elem? t.slots i) [ none ↦ none | some slot ↦ slot ]

-- The condition of the loop of `evictionPlan`.
unfoldable pub is_over : PartitionTail → ℕ → ℕ → ℕ → Bool
is_over t incoming count bytes = count == capacity t || ltb (t.limit - incoming) bytes

-- The loop of `evictionPlan`: how many batches go, and how many bytes.
unfoldable pub plan_loop : PartitionTail → ℕ → ℕ → ℕ → ℕ → ℕ → Option (ℕ × ℕ)
plan_loop t incoming zero bytes evictions removed =
    if is_over t incoming 0 bytes then none else some (evictions, removed)
plan_loop t incoming (suc count) bytes evictions removed =
    elim (is_over t incoming (suc count) bytes) [
      | false ↦ some (evictions, removed)
      | true ↦ elim (slot_batch t (slot_index t evictions)) [
        | none ↦ none
        | some b ↦ elim (ltb bytes b.bytes) [
          | true ↦ none
          | false ↦
              plan_loop t incoming count (bytes - b.bytes) ((evictions + 1) % 2 ^ 32)
                ((removed + b.bytes) % 2 ^ 64)
        ]
      ]
    ]

unfoldable pub eviction_plan : PartitionTail → ℕ → Option (ℕ × ℕ)
eviction_plan t incoming =
    if ltb t.limit incoming || length t.slots == 0
    then none
    else plan_loop t incoming t.count t.bytes 0 0

-- One round of `evict`, which has no result where the slot at the head has no batch.
unfoldable pub evict_oldest : PartitionTail → Option PartitionTail
evict_oldest t = elim (slot_batch t t.head) [
  | none ↦ none
  | some b ↦ some (record t {
    slots = set t.slots t.head none;
    head = slot_index t 1;
    count = (t.count + (2 ^ 32 - 1)) % 2 ^ 32;
    bytes = (t.bytes + (2 ^ 64 - b.bytes)) % 2 ^ 64;
  })
]

unfoldable pub evict : PartitionTail → ℕ → Option PartitionTail
evict t zero = some t
evict t (suc count) = elim (evict_oldest t) [ none ↦ none | some t' ↦ evict t' count ]

-- The batch behind the newest one.
unfoldable pub push : PartitionTail → DeliveredBatch → PartitionTail
push t b = record t {
  slots = set t.slots (slot_index t t.count) (some b);
  count = (t.count + 1) % 2 ^ 32;
  bytes = (t.bytes + b.bytes) % 2 ^ 64;
}

-- The budget behind the test on it, where the test lets the batch through.
unfoldable pub reserve : Bool → Option TailBudget → ℕ → ℕ → Option (Option TailBudget)
reserve contended none removed added = some none
reserve contended (some b) removed added =
    if contended
    then none
    else (let (granted, b') = try_replace b removed added in
        if granted then some (some b') else none)

-- The tail with the batch and the budget behind it. An offer that is dropped changes neither, and
-- there is no result where `evict` has none.
unfoldable pub offer_batch :
    Bool
    → PartitionTail
    → Option TailBudget
    → DeliveredBatch
    → Option (PartitionTail × Option TailBudget)
offer_batch budget_contended t budget b = elim (eviction_plan t b.bytes) [
  | none ↦ some (t, budget)
  | some (evictions, removed) ↦ elim (reserve budget_contended budget removed b.bytes) [
    | none ↦ some (t, budget)
    | some budget' ↦ elim (evict t evictions) [ none ↦ none | some t' ↦ some (push t' b, budget') ]
  ]
]

-- The batch, if the records make one that the tail may hold at all.
unfoldable pub offer_made :
    Bool
    → Option DeliveredBatch
    → PartitionTail
    → Option TailBudget
    → Option (PartitionTail × Option TailBudget)
offer_made budget_contended none t budget = some (t, budget)
offer_made budget_contended (some b) t budget =
    if ltb t.limit b.bytes then some (t, budget) else offer_batch budget_contended t budget b

unfoldable pub offer :
    Bool
    → Bool
    → TopicId
    → ℕ
    → List Record
    → ℕ
    → PartitionTail
    → Option TailBudget
    → Option (PartitionTail × Option TailBudget)
offer contended budget_contended topic partition records durable_end t budget =
    if length records == 0 || contended || t.closed
    then some (t, budget)
    else offer_made budget_contended (new_delivered_batch topic partition records durable_end) t
        budget

abbrev pub release_from : Option TailBudget → ℕ → Option TailBudget
release_from none bytes = none
release_from (some b) bytes = some (release_budget b bytes)

-- The tail without its batches.
abbrev pub without_batches : PartitionTail → PartitionTail
without_batches t = record t {
  slots = replicate (length t.slots) none;
  head = 0;
  count = 0;
  bytes = 0;
}

unfoldable pub close : PartitionTail → Option TailBudget → PartitionTail × Option TailBudget
close t budget =
    if t.closed
    then (t, budget)
    else (record (without_batches t) { closed = true }, release_from budget t.bytes)

unfoldable pub clear : PartitionTail → Option TailBudget → PartitionTail × Option TailBudget
clear t budget =
    if t.closed || t.count == 0
    then (t, budget)
    else (without_batches t, release_from budget t.bytes)
