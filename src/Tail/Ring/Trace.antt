-- ===== src/Tail/Ring/Trace.antt =====
-- A tail from its start on: what a run of its operations holds.
use immulog.Prelude.{
  ℕ, zero, suc, ◌+◌, ◌%◌, ◌≤◌, ◌<◌, ◌≡◌, refl, sym, ap, subst, Bool, true, false, ◌&&◌, ◌||◌, inl,
  inr, Bool-cases, Option, none, some, some-injective, List, [], ◌∷◌, length, replicate, get_elem?,
  ltb, ◌==◌, arith,
}
use immulog.Api.{TopicId, Record}
use immulog.Api.Errors.{ok, ok-injective, reject_if-eq-ok}
use immulog.Tail.{TailBudget, DeliveredBatch, release_budget}
use immulog.Tail.Ring.{
  PartitionTail, max_tail_slots, max_tail_bytes, new_partition_tail, without_batches, offer, clear,
  close, release_from,
}
use immulog.Tail.Ring.Contents.{total, Holds}
use immulog.Tail.Ring.Index.{round_lt}
use immulog.Tail.Ring.Offer.{IsAccount, batches_with, dropped, taken, offer-Offered}

-- What is done to a tail, with the locks that are refused.
pub data TailOperation : Type 0 where
  offered : Bool → Bool → TopicId → ℕ → List Record → ℕ → TailOperation
  cleared : TailOperation
  closed : TailOperation

unfoldable pub step :
    TailOperation → PartitionTail → Option TailBudget → Option (PartitionTail × Option TailBudget)
step (offered contended budget_contended topic partition records durable_end) t budget =
    offer contended budget_contended topic partition records durable_end t budget
step cleared t budget = some (clear t budget)
step closed t budget = some (close t budget)

-- There is no result where one of the operations has none.
unfoldable pub run :
    List TailOperation
    → PartitionTail
    → Option TailBudget
    → Option (PartitionTail × Option TailBudget)
run [] t budget = some (t, budget)
run (o ∷ os) t budget = elim (step o t budget) [
  | none ↦ none
  | some (t', budget') ↦ run os t' budget'
]

get_elem?-replicate : {A : Type 0} (n i : ℕ) (a : A) → i < n → get_elem? (replicate n a) i ≡ some a
get_elem?-replicate zero i a h = absurd (omega arith)
get_elem?-replicate (suc n) zero a h = refl
get_elem?-replicate (suc n) (suc i) a h = get_elem?-replicate n i a (omega arith)

length-replicate : {A : Type 0} (n : ℕ) (a : A) → length (replicate n a) ≡ n
length-replicate zero a = refl
length-replicate (suc n) a = ap suc (length-replicate n a)

abbrev no_batch : Option DeliveredBatch
no_batch = none

empty-Holds :
    (n limit : ℕ) (ended : Bool)
    → 0 < n
    → n ≤ max_tail_slots
    → limit ≤ max_tail_bytes
    → Holds
        (record {
          slots = replicate n none;
          head = 0;
          count = 0;
          bytes = 0;
          limit = limit;
          closed = ended;
        })
        []
empty-Holds n limit ended some_slot few small =
    let size = length-replicate n no_batch in
    record {
      places = λ k i.
          rw size
            (get_elem?-replicate n ((0 + k) % n) no_batch (round_lt 0 k n some_slot (omega arith)));
      head_in = rw size some_slot;
      slots_few = rw size few;
      count = refl;
      few = omega arith;
      bytes = refl;
      held = omega arith;
      small = small;
    }

released-IsAccount :
    (others held : ℕ) (budget : Option TailBudget)
    → IsAccount others budget held
    → IsAccount others (release_from budget held) 0
unfolding release_budget
released-IsAccount others held none a = tt
released-IsAccount others held (some b) (within, sum) =
    let fits = within.held in
    let width = within.width in (record { held = ground arith; width = ground arith }, ground arith)

-- A ring of batches, and a budget that accounts for them.
pub record IsRunning (others : ℕ) (t : PartitionTail) (budget : Option TailBudget) : Type 0 where
  pub batches : List DeliveredBatch
  pub holds : Holds t batches
  pub account : IsAccount others budget (total batches)

without_batches-IsRunning :
    (others : ℕ) (t : PartitionTail) (budget : Option TailBudget) (ended : Bool)
    → IsRunning others t budget
    → IsRunning others (record (without_batches t) { closed = ended }) (release_from budget t.bytes)
without_batches-IsRunning others t budget ended k =
    let h = k.holds in
    record {
      batches = [];
      holds =
          empty-Holds (length t.slots) t.limit ended (omega (arith, h.head_in)) h.slots_few h.small;
      account =
          released-IsAccount others t.bytes budget
            (subst (IsAccount others budget) (sym h.bytes) k.account);
    }

step-IsRunning :
    (others : ℕ) (o : TailOperation) (t : PartitionTail) (budget : Option TailBudget)
    → IsRunning others t budget
    → (t' : PartitionTail) × (budget' : Option TailBudget) × (step o t budget ≡ some (t', budget'))
      × IsRunning others t' budget'
unfolding step clear close
step-IsRunning others (offered c bc topic partition records durable_end) t budget k =
    let (t', budget', done, outcome) =
      offer-Offered c bc topic partition records durable_end t budget k.batches others k.holds
        k.account in
    (
      t',
      budget',
      done,
      elim outcome [
        | dropped e1 e2 why ↦
            subst (IsRunning others t') (sym e2)
              (subst (λ (x : PartitionTail). IsRunning others x budget) (sym e1) k)
        | taken b made done' ↦ record {
          batches = batches_with t k.batches b;
          holds = done'.holds;
          account = done'.account;
        }
      ],
    )
step-IsRunning others cleared t budget k = elim (Bool-cases (t.closed || t.count == 0)) [
  | inl idle ↦ (t, budget, rw (clear, idle) refl, k)
  | inr busy ↦ (
    without_batches t,
    release_from budget t.bytes,
    rw (clear, busy) refl,
    without_batches-IsRunning others t budget t.closed k,
  )
]
step-IsRunning others closed t budget k = elim (Bool-cases t.closed) [
  | inl idle ↦ (t, budget, rw (close, idle) refl, k)
  | inr busy ↦ (
    record (without_batches t) { closed = true },
    release_from budget t.bytes,
    rw (close, busy) refl,
    without_batches-IsRunning others t budget true k,
  )
]

steps-IsRunning :
    (others : ℕ) (os : List TailOperation) (t : PartitionTail) (budget : Option TailBudget)
    → IsRunning others t budget
    → (t' : PartitionTail) × (budget' : Option TailBudget) × (run os t budget ≡ some (t', budget'))
      × IsRunning others t' budget'
unfolding run
steps-IsRunning others [] t budget k = (t, budget, refl, k)
steps-IsRunning others (o ∷ os) t budget k =
    let (t1, budget1, first, k1) = step-IsRunning others o t budget k in
    let (t2, budget2, rest, k2) = steps-IsRunning others os t1 budget1 k1 in
    (t2, budget2, rw (run, first) rest, k2)

-- A new tail whose budget accounts for the other tails alone never fails, whatever is done to it and
-- whichever locks are refused: no slot is read that has no batch. Behind any run of operations its
-- slots from the head on are a queue of batches and the others are empty, its counts of batches and
-- of bytes are those of the queue and within its limits, and the budget accounts for exactly those
-- bytes beside the other tails'.
pub run-IsRunning :
    (slots bytes others : ℕ) (os : List TailOperation) (t : PartitionTail)
    (budget : Option TailBudget)
    → new_partition_tail slots bytes ≡ ok (some t)
    → IsAccount others budget 0
    → (t' : PartitionTail) × (budget' : Option TailBudget) × (run os t budget ≡ some (t', budget'))
      × IsRunning others t' budget'
unfolding new_partition_tail
run-IsRunning slots bytes others os t budget made a = elim (Bool-cases (slots == 0 && bytes == 0)) [
  | inl off ↦ let no_tail = ok-injective (rw off at made) in cc
  | inr on ↦
      let (both, h1) = reject_if-eq-ok (slots == 0 || bytes == 0) _ _ (rw on at made) in
      let (fits, h2) =
        reject_if-eq-ok (ltb max_tail_slots slots || ltb max_tail_bytes bytes) _ _ h1 in
      let start = some-injective (ok-injective h2) in
      steps-IsRunning others os t budget (
        subst (λ (x : PartitionTail). IsRunning others x budget) start
          (record {
            batches = [];
            holds = empty-Holds slots bytes false (ground arith) (ground arith) (ground arith);
            account = a;
          }))
]
