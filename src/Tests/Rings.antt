-- ===== src/Tests/Rings.antt =====
-- A tail of one slot, which the sample record fills.
use immulog.Prelude.{
  ℕ, suc, zero, ◌+◌, ◌%◌, ◌<◌, ◌≡◌, refl, true, false, Option, none, some, List, [], ◌∷◌, get_elem?,
  arith,
}
use immulog.Api.Errors.{ok}
use immulog.Tail.{TailBudget, new_delivered_batch}
use immulog.Tail.Budget.{IsWithin}
use immulog.Tail.Ring.{PartitionTail, new_partition_tail, offer}
use immulog.Tail.Ring.Contents.{Holds}
use immulog.Tail.Ring.Offer.{Offered, offer-Offered}
use immulog.Tail.Ring.Trace.{TailOperation, offered, cleared, run, IsRunning, run-IsRunning}
use immulog.Tests.Samples.{topic, first_record}
use immulog.Tests.Tails.{kept_batch}

abbrev budget : TailBudget
budget = record { limit = 200; bytes = 80 }

budget-IsWithin : IsWithin budget
budget-IsWithin = record { held = omega arith; width = omega arith }

abbrev full_tail : PartitionTail
full_tail = record {
  slots = some kept_batch ∷ [];
  head = 0;
  count = 1;
  bytes = 47;
  limit = 100;
  closed = false;
}

full_tail-Holds : Holds full_tail (kept_batch ∷ [])
full_tail-Holds = record {
  places = at_head;
  head_in = omega arith;
  slots_few = omega arith;
  count = refl;
  few = omega arith;
  bytes = refl;
  held = omega arith;
  small = omega arith;
}
  where
    at_head :
        (k : ℕ)
        → k < 1
        → get_elem? (some kept_batch ∷ []) ((0 + k) % 1) ≡ some (get_elem? (kept_batch ∷ []) k)
    at_head zero h = refl
    at_head (suc k) h = absurd (omega arith)

offer-Offered_example :
    (t' : PartitionTail) × (budget' : Option TailBudget) × (offer false false topic 0
        (first_record ∷ [])
        1
        full_tail
        (some budget)
      ≡ some (t', budget'))
    × Offered false false
        (new_delivered_batch topic 0 (first_record ∷ []) 1)
        33
        full_tail
        (kept_batch ∷ [])
        (some budget)
        t'
        budget'
offer-Offered_example =
    offer-Offered false false topic 0 (first_record ∷ []) 1 full_tail (some budget)
      (kept_batch ∷ []) 33 full_tail-Holds (budget-IsWithin, omega arith)

abbrev new_tail : PartitionTail
new_tail = record {
  slots = none ∷ none ∷ [];
  head = 0;
  count = 0;
  bytes = 0;
  limit = 100;
  closed = false;
}

made : new_partition_tail 2 100 ≡ ok (some new_tail)
unfolding new_partition_tail
made = refl

abbrev operations : List TailOperation
operations =
    offered false false topic 0 (first_record ∷ []) 1
    ∷ cleared
    ∷ offered false true topic 0 (first_record ∷ []) 1
    ∷ offered false false topic 0 (first_record ∷ []) 1
    ∷ []

run-IsRunning_example :
    (t' : PartitionTail) × (budget' : Option TailBudget) × (run operations new_tail (some budget)
      ≡ some (t', budget'))
    × IsRunning 80 t' budget'
run-IsRunning_example =
    run-IsRunning 2 100 80 operations new_tail (some budget) made (budget-IsWithin, omega arith)
