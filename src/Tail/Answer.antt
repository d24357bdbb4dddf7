-- ===== src/Tail/Answer.antt =====
-- The answers of a tail.
use immulog.Prelude.{
  ℕ, ◌-◌, ◌^◌, ◌<◌, ◌≡◌, refl, Bool, true, false, ◌⊎◌, inl, inr, Option, none, some, List, [], ◌∷◌,
  drop, arith, Bool-cases,
}
use immulog.Api.{TopicId}
use immulog.Fetch.{FetchOptions}
use immulog.Tail.{DeliveredBatch, TailAnswer, valid_delivered_batch, serve_slots, tail_fetch}
use immulog.Tail.Prefix.{IsPrefix, serve_records-IsPrefix}

-- A batch in one of the slots.
abbrev pub IsHeld : DeliveredBatch → List (Option DeliveredBatch) → Type 0
IsHeld b [] = true ≡ false
IsHeld b (slot ∷ slots) = (slot ≡ some b) ⊎ IsHeld b slots

-- What an answer of the tail is: the first records from the offset on of a batch in a slot, which
-- holds the offset for this partition, within the limits.
pub record IsAnswer (slots : List (Option DeliveredBatch)) (topic : TopicId)
    (partition offset durable : ℕ) (o : FetchOptions) (a : TailAnswer) : Type 0 where
  pub batch : DeliveredBatch
  pub held : IsHeld batch slots
  pub valid : valid_delivered_batch (some batch) topic partition offset durable ≡ true
  pub first : IsPrefix o offset [] (drop (offset - batch.base) batch.records) a

skip-IsAnswer :
    (slot : Option DeliveredBatch) (slots : List (Option DeliveredBatch)) (topic : TopicId)
    (partition offset durable : ℕ) (o : FetchOptions) (a : TailAnswer)
    → IsAnswer slots topic partition offset durable o a
    → IsAnswer (slot ∷ slots) topic partition offset durable o a
skip-IsAnswer slot slots topic partition offset durable o a k = record {
  batch = k.batch;
  held = inr k.held;
  valid = k.valid;
  first = k.first;
}

serve_slots-IsAnswer :
    (slots : List (Option DeliveredBatch)) (topic : TopicId) (partition offset durable : ℕ)
    (o : FetchOptions) (a : TailAnswer)
    → o.max_bytes < 2 ^ 64
    → serve_slots slots topic partition offset durable o ≡ some a
    → IsAnswer slots topic partition offset durable o a
unfolding serve_slots
serve_slots-IsAnswer [] topic partition offset durable o a w e = cc
serve_slots-IsAnswer (none ∷ slots) topic partition offset durable o a w e =
    skip-IsAnswer none slots topic partition offset durable o a
      (serve_slots-IsAnswer slots topic partition offset durable o a w e)
serve_slots-IsAnswer (some b ∷ slots) topic partition offset durable o a w e =
    elim (Bool-cases (valid_delivered_batch (some b) topic partition offset durable)) [
      | inl valid ↦ record {
        batch = b;
        held = inl refl;
        valid = valid;
        first =
            serve_records-IsPrefix o offset (drop (offset - b.base) b.records)
              (record { records = []; next_offset = offset }) 0 a w
              (record { few = omega arith; small = omega arith; sum = refl; next = refl })
              (rw valid at e);
      }
      | inr other ↦
          skip-IsAnswer (some b) slots topic partition offset durable o a
            (serve_slots-IsAnswer slots topic partition offset durable o a w (rw other at e))
    ]

-- Where the tail answers a read at all, and the byte limit is a 64-bit number, the answer consists
-- of the first records, from the offset on, of a batch in one of its slots that the tests let
-- through. It keeps both limits and its next offset is the one behind its last record. It ends at
-- the end of the batch, at the record limit or where the next record passes the byte limit, and
-- it has an error only where that leaves it empty.
pub tail_fetch-IsAnswer :
    (contended closed : Bool) (slots : List (Option DeliveredBatch)) (topic : TopicId)
    (partition offset durable : ℕ) (o : FetchOptions) (a : TailAnswer)
    → o.max_bytes < 2 ^ 64
    → tail_fetch contended closed slots topic partition offset durable o ≡ some a
    → IsAnswer slots topic partition offset durable o a
unfolding tail_fetch
tail_fetch-IsAnswer true closed slots topic partition offset durable o a w e = cc
tail_fetch-IsAnswer false true slots topic partition offset durable o a w e = cc
tail_fetch-IsAnswer false false slots topic partition offset durable o a w e =
    serve_slots-IsAnswer slots topic partition offset durable o a w e
