-- ===== src/Tests/Tails.antt =====
-- A tail with the sample record.
use immulog.Prelude.{
  ℕ, ◌+◌, ◌-◌, ◌^◌, ◌≡◌, refl, Bool, true, false, ◌&&◌, Option, none, some, List, [], ◌∷◌, arith,
  ltb, leb,
}
use immulog.Prelude.Int.{pos}
use immulog.Fetch.{FetchOptions}
use immulog.Tail.{
  TailBudget, DeliveredBatch, TailAnswer, try_replace, release_budget, new_delivered_batch,
  valid_delivered_batch, tail_fetch,
}
use immulog.Tail.Budget.{IsWithin, Replaced, try_replace-Replaced}
use immulog.Tail.Delivered.{new_delivered_batch-found}
use immulog.Tail.Answer.{IsAnswer, tail_fetch-IsAnswer}
use immulog.Tests.Samples.{topic, first_record}

abbrev budget : TailBudget
budget = record { limit = 100; bytes = 60 }

budget-IsWithin : IsWithin budget
budget-IsWithin = record { held = omega arith; width = omega arith }

try_replace-Replaced_example : Replaced budget 20 50 (try_replace budget 20 50)
try_replace-Replaced_example = try_replace-Replaced budget 20 50 budget-IsWithin

abbrev pub kept_batch : DeliveredBatch
kept_batch = record {
  topic = topic;
  partition = 0;
  base = 0;
  end = 1;
  durable_end = 1;
  bytes = 47;
  records = first_record ∷ [];
}

kept : new_delivered_batch topic 0 (first_record ∷ []) 1 ≡ some kept_batch
unfolding new_delivered_batch immulog.Tail.delivered_bytes immulog.Tail.out_of_place
    immulog.Format.valid_offset_range immulog.Partition.Sizes.add_header_sizes
    immulog.Partition.Sizes.checked_add immulog.Partition.Sizes.record_encoded_bytes
    immulog.Prelude.Arrays.array_eq immulog.Format.valid_header_name immulog.Format.Utf8.valid_utf8
kept = refl

new_delivered_batch-found_example :
    valid_delivered_batch (some kept_batch) topic 0 0 5 ≡ (leb 0 0 && ltb 0 1 && leb 1 5)
new_delivered_batch-found_example =
    new_delivered_batch-found topic 0 (first_record ∷ []) 1 kept_batch kept 0 5

abbrev wide : FetchOptions
wide = record { max_records = 8; max_bytes = 4096; max_wait = pos 0 }

abbrev answer : TailAnswer
answer = (record { records = first_record ∷ []; next_offset = 1 }, none)

answered : tail_fetch false false (none ∷ some kept_batch ∷ []) topic 0 0 5 wide ≡ some answer
unfolding tail_fetch immulog.Tail.serve_slots immulog.Tail.serve_records
    immulog.Tail.any_out_of_place valid_delivered_batch immulog.Tail.out_of_place
    immulog.Format.valid_offset_range immulog.Partition.Sizes.add_header_sizes
    immulog.Partition.Sizes.checked_add immulog.Partition.Sizes.record_encoded_bytes
    immulog.Prelude.Arrays.array_eq immulog.Format.valid_header_name immulog.Format.Utf8.valid_utf8
answered = refl

tail_fetch-IsAnswer_example : IsAnswer (none ∷ some kept_batch ∷ []) topic 0 0 5 wide answer
tail_fetch-IsAnswer_example =
    tail_fetch-IsAnswer false false (none ∷ some kept_batch ∷ []) topic 0 0 5 wide answer
      (omega arith) answered
