-- ===== src/Tail.antt =====
-- storage/tail.go: the store-wide byte budget, the batches that a partition's tail keeps and the read
-- of them. A refused lock is an argument. The ring is in Tail/Ring.antt.
pub mod Budget
pub mod Delivered
pub mod Prefix
pub mod Answer
pub mod Ring
use immulog.Prelude.{
  ℕ, ◌+◌, ◌-◌, ◌^◌, ◌%◌, Bool, true, false, not, ◌||◌, Option, none, some, List, [], ◌∷◌, length,
  drop, ltb, leb, ◌==◌, ◌!=◌, if◌then◌else◌,
}
use immulog.Prelude.Arrays.{array_eq}
use immulog.Api.{TopicId, Record, FetchResult}
use immulog.Api.Errors.{Error, Result, ok, err, join, fetch_limit_too_small}
use immulog.Format.{max_batch_records, valid_offset_range}
use immulog.Partition.Sizes.{checked_add, record_encoded_bytes}
use immulog.Fetch.{FetchOptions, bytes_left, with_record}

pub record TailBudget : Type 0 where
  pub limit : ℕ
  pub bytes : ℕ

unfoldable pub new_tail_budget : ℕ → TailBudget
new_tail_budget limit = record { limit = limit; bytes = 0 }

-- `used`; a budget that is not there uses nothing.
unfoldable pub used_bytes : Option TailBudget → ℕ
used_bytes none = 0
used_bytes (some b) = b.bytes

unfoldable pub try_replace : TailBudget → ℕ → ℕ → Bool × TailBudget
try_replace b removed added =
    if ltb b.bytes removed
    then (false, b)
    else if ltb ((b.limit + (2 ^ 64 - (b.bytes - removed))) % 2 ^ 64) added
    then (false, b)
    else (true, record { limit = b.limit; bytes = (b.bytes - removed + added) % 2 ^ 64 })

unfoldable pub release_budget : TailBudget → ℕ → TailBudget
release_budget b n =
    if n == 0
    then b
    else if leb b.bytes n
    then record { limit = b.limit; bytes = 0 }
    else record { limit = b.limit; bytes = b.bytes - n }

pub record DeliveredBatch : Type 0 where
  pub topic : TopicId
  pub partition : ℕ
  pub base : ℕ
  pub end : ℕ
  pub durable_end : ℕ
  pub bytes : ℕ
  pub records : List Record

-- The test that ties a record to its place; the sum of offsets is a uint64.
unfoldable pub out_of_place : TopicId → ℕ → ℕ → ℕ → Record → Bool
out_of_place topic partition base index r =
    not (array_eq 16 r.topic topic)
    || r.partition != partition
    || r.offset != (base + index) % 2 ^ 64

-- The loop of `newDeliveredBatch`: the bytes of the records. A copy of a record is the record.
unfoldable pub delivered_bytes : TopicId → ℕ → ℕ → ℕ → ℕ → List Record → Option ℕ
delivered_bytes topic partition base index bytes [] = some bytes
delivered_bytes topic partition base index bytes (r ∷ rs) =
    elim (out_of_place topic partition base index r) [
      | true ↦ none
      | false ↦ elim (record_encoded_bytes r) [
        | err e ↦ none
        | ok n ↦ elim (checked_add bytes n) [
          | err e ↦ none
          | ok next ↦ delivered_bytes topic partition base (index + 1) next rs
        ]
      ]
    ]

unfoldable pub new_delivered_batch : TopicId → ℕ → List Record → ℕ → Option DeliveredBatch
new_delivered_batch topic partition [] durable_end = none
new_delivered_batch topic partition (r ∷ rs) durable_end =
    let records = r ∷ rs in
    let base = r.offset in
    let end = (base + length records) % 2 ^ 64 in
    if ltb max_batch_records (length records)
      || not (valid_offset_range base (length records % 2 ^ 32))
      || ltb durable_end end
    then none
    else elim (delivered_bytes topic partition base 0 0 records) [
      | none ↦ none
      | some bytes ↦ some (record {
        topic = topic;
        partition = partition;
        base = base;
        end = end;
        durable_end = durable_end;
        bytes = bytes;
        records = records;
      })
    ]

-- The loop of `validDeliveredBatch`.
unfoldable pub any_out_of_place : TopicId → ℕ → ℕ → ℕ → List Record → Bool
any_out_of_place topic partition base index [] = false
any_out_of_place topic partition base index (r ∷ rs) =
    out_of_place topic partition base index r
    || any_out_of_place topic partition base (index + 1) rs

unfoldable pub valid_delivered_batch : Option DeliveredBatch → TopicId → ℕ → ℕ → ℕ → Bool
valid_delivered_batch none topic partition offset durable_end = false
valid_delivered_batch (some b) topic partition offset durable_end =
    let count = length b.records in
    if not (array_eq 16 b.topic topic)
      || b.partition != partition
      || ltb offset b.base
      || leb b.end offset
      || ltb b.durable_end b.end
      || ltb durable_end b.durable_end
      || count == 0
      || ltb max_batch_records count
      || not (valid_offset_range b.base (count % 2 ^ 32))
      || b.end != (b.base + count) % 2 ^ 64
    then false
    else not (any_out_of_place topic partition b.base 0 b.records)

-- The result and the error of a read that the tail answers.
abbrev pub TailAnswer : Type 0
TailAnswer = FetchResult × Option Error

-- The loop over the records of the batch from the offset on.
unfoldable pub serve_records : FetchOptions → ℕ → List Record → FetchResult → ℕ → Option TailAnswer
serve_records o offset [] result bytes = some (result, none)
serve_records o offset (r ∷ rs) result bytes = elim (record_encoded_bytes r) [
  | err e ↦ none
  | ok n ↦
      if leb o.max_records (length result.records)
      then some (result, none)
      else if ltb (bytes_left o bytes) n
      then (if length result.records == 0
          then some (
            record { records = []; next_offset = offset },
            some (join (fetch_limit_too_small ∷ []) "record needs more bytes than the limit"),
          )
          else some (result, none))
      else serve_records o offset rs (with_record result r) ((bytes + n) % 2 ^ 64)
]

unfoldable pub serve_slots :
    List (Option DeliveredBatch) → TopicId → ℕ → ℕ → ℕ → FetchOptions → Option TailAnswer
serve_slots [] topic partition offset durable_end o = none
serve_slots (none ∷ slots) topic partition offset durable_end o =
    serve_slots slots topic partition offset durable_end o
serve_slots (some b ∷ slots) topic partition offset durable_end o =
    if valid_delivered_batch (some b) topic partition offset durable_end
    then serve_records o offset (drop (offset - b.base) b.records)
        (record { records = []; next_offset = offset }) 0
    else serve_slots slots topic partition offset durable_end o

-- The two ways a tail with slots stays silent: another holder of its lock, or its end.
unfoldable pub tail_fetch :
    Bool
    → Bool
    → List (Option DeliveredBatch)
    → TopicId
    → ℕ
    → ℕ
    → ℕ
    → FetchOptions
    → Option TailAnswer
tail_fetch contended closed slots topic partition offset durable_end o =
    if contended || closed then none else serve_slots slots topic partition offset durable_end o
