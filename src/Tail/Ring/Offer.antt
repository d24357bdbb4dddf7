-- ===== src/Tail/Ring/Offer.antt =====
-- An offer to a ring: the ring stays a bounded queue of batches within the shared budget.
use immulog.Prelude.{
  ℕ, ◌+◌, ◌-◌, ◌≤◌, ◌<◌, ◌≡◌, refl, subst, Bool, true, false, ◌||◌, ◌⊎◌, inl, inr, Bool-cases,
  Option, none, some, List, [], ◌∷◌, ◌++◌, length, ltb, ◌==◌, ltb→lt, ltb-false→le, arith,
}
use immulog.Api.{TopicId, Record}
use immulog.Tail.{TailBudget, DeliveredBatch, try_replace, new_delivered_batch}
use immulog.Tail.Budget.{IsWithin, Replaced, try_replace-Replaced}
use immulog.Tail.Ring.{PartitionTail, push, reserve, offer_batch, offer_made, offer}
use immulog.Tail.Ring.Contents.{
  total, total-append, Holds, IsSameRing, IsSameRing-trans, push-IsSameRing, evict-Holds,
  push-Holds,
}
use immulog.Tail.Ring.Room.{make_room, make_room-fits, eviction_plan-IsPlan}

-- A budget, where there is one, is within its limit, and its use is what this tail holds and what
-- the other tails hold.
abbrev pub IsAccount : ℕ → Option TailBudget → ℕ → Type 0
IsAccount others none held = Unit
IsAccount others (some b) held = IsWithin b × (b.bytes ≡ others + held)

-- The batches behind an offer that is taken.
abbrev pub batches_with : PartitionTail → List DeliveredBatch → DeliveredBatch → List DeliveredBatch
batches_with t q b = make_room (length t.slots) t.limit b.bytes q ++ (b ∷ [])

-- The budget's lock is refused, or it has not the bytes.
abbrev pub IsUnfunded : Bool → Option TailBudget → ℕ → Type 0
IsUnfunded contended budget added =
    (contended ≡ true) ⊎ ((x : TailBudget) × (budget ≡ some x) × (x.limit < x.bytes + added))

reserve-IsAccount :
    (contended : Bool) (budget : Option TailBudget) (removed added others held : ℕ)
    → IsAccount others budget held
    → removed ≤ held
    → ((reserve contended budget removed added ≡ none) × IsUnfunded contended budget added)
      ⊎ ((budget' : Option TailBudget) × (reserve contended budget removed added ≡ some budget')
          × IsAccount others budget' (held - removed + added))
unfolding reserve
reserve-IsAccount contended none removed added others held a h = inr (none, refl, tt)
reserve-IsAccount true (some b) removed added others held a h = inl (refl, inl refl)
reserve-IsAccount false (some b) removed added others held a h =
    granted_cases (try_replace b removed added) refl (try_replace-Replaced b removed added a.0)
  where
    granted_cases :
        (r : Bool × TailBudget)
        → try_replace b removed added ≡ r
        → Replaced b removed added r
        → ((reserve false (some b) removed added ≡ none) × IsUnfunded false (some b) added)
          ⊎ ((budget' : Option TailBudget) × (reserve false (some b) removed added ≡ some budget')
              × IsAccount others budget' (held - removed + added))
    granted_cases (true, b') e (enough, sum, limit, within) =
        let before = a.1 in inr (some b', rw (reserve, e) refl, (within, omega arith))
    granted_cases (false, b') e (over, same) =
        let before = a.1 in
        let more = over (omega arith) in inl (rw (reserve, e) refl, inr (b, refl, omega arith))

-- The tail and the budget behind an offer of the batch, if it is taken.
pub record IsTaken (others : ℕ) (t : PartitionTail) (q : List DeliveredBatch) (b : DeliveredBatch)
    (t' : PartitionTail) (budget' : Option TailBudget) : Type 0 where
  pub holds : Holds t' (batches_with t q b)
  pub account : IsAccount others budget' (total (batches_with t q b))
  pub same : IsSameRing t t'

offer_batch-Offered :
    (contended : Bool) (t : PartitionTail) (budget : Option TailBudget) (b : DeliveredBatch)
    (q : List DeliveredBatch) (others : ℕ)
    → Holds t q
    → IsAccount others budget (total q)
    → b.bytes ≤ t.limit
    → (t' : PartitionTail) × (budget' : Option TailBudget) × (offer_batch contended t budget b
        ≡ some (t', budget'))
      × (((t' ≡ t) × (budget' ≡ budget) × IsUnfunded contended budget b.bytes)
          ⊎ IsTaken others t q b t' budget')
unfolding offer_batch
offer_batch-Offered contended t budget b q others h a i =
    let (e, r, planned, plan) = eviction_plan-IsPlan t b.bytes q h i in
    let sum = plan.sum in
    elim (reserve-IsAccount contended budget r b.bytes others (total q) a (omega arith)) [
      | inl refused ↦
          (t, budget, rw (offer_batch, planned, refused.0) refl, inl (refl, refl, refused.1))
      | inr granted ↦
          let (budget', reserved, account) = granted in
          let (t', evicted, h', same) = evict-Holds e t q h plan.few in
          let (slot, room) =
            make_room-fits (length t.slots) t.limit b.bytes q (omega (arith, h.head_in)) h.few i in
          let rest = plan.rest in
          let kept = subst (Holds t') rest h' in
          let limits = same.limit in
          let slots = same.slots in
          let sum' = subst (λ (q' : List DeliveredBatch). r + total q' ≡ total q) rest sum in
          let more = total-append (make_room (length t.slots) t.limit b.bytes q) b in
          (
            push t' b,
            budget',
            rw (offer_batch, planned, reserved, evicted) refl,
            inr (record {
              holds =
                  push-Holds t' (make_room (length t.slots) t.limit b.bytes q) b kept (omega arith)
                    (omega arith);
              account = subst (IsAccount others budget') (omega arith) account;
              same = IsSameRing-trans same (push-IsSameRing t' b);
            }),
          )
    ]

-- Why an offer is dropped: a lock is refused, the tail is closed, the records make no batch, or the
-- batch is more than the tail or the budget may hold.
pub data Refusal (contended budget_contended : Bool) (made : Option DeliveredBatch)
    (t : PartitionTail) (budget : Option TailBudget) : Type 0 where
  lock : contended ≡ true → Refusal contended budget_contended made t budget
  ended : t.closed ≡ true → Refusal contended budget_contended made t budget
  no_batch : made ≡ none → Refusal contended budget_contended made t budget
  large :
      (b : DeliveredBatch)
      → made ≡ some b
      → t.limit < b.bytes
      → Refusal contended budget_contended made t budget
  unfunded :
      (b : DeliveredBatch)
      → made ≡ some b
      → IsUnfunded budget_contended budget b.bytes
      → Refusal contended budget_contended made t budget

-- What an offer to a ring of batches does: it is dropped for one of the reasons, or taken.
pub data Offered (contended budget_contended : Bool) (made : Option DeliveredBatch) (others : ℕ)
    (t : PartitionTail) (q : List DeliveredBatch) (budget : Option TailBudget) (t' : PartitionTail)
    (budget' : Option TailBudget) : Type 0 where
  dropped :
      t' ≡ t
      → budget' ≡ budget
      → Refusal contended budget_contended made t budget
      → Offered contended budget_contended made others t q budget t' budget'
  taken :
      (b : DeliveredBatch)
      → made ≡ some b
      → IsTaken others t q b t' budget'
      → Offered contended budget_contended made others t q budget t' budget'

offer_made-Offered :
    (budget_contended : Bool) (made : Option DeliveredBatch) (t : PartitionTail)
    (budget : Option TailBudget) (q : List DeliveredBatch) (others : ℕ)
    → Holds t q
    → IsAccount others budget (total q)
    → (t' : PartitionTail) × (budget' : Option TailBudget) × (offer_made budget_contended made t
          budget
        ≡ some (t', budget'))
      × Offered false budget_contended made others t q budget t' budget'
unfolding offer_made
offer_made-Offered budget_contended none t budget q others h a =
    (t, budget, refl, dropped refl refl (no_batch refl))
offer_made-Offered budget_contended (some b) t budget q others h a =
    elim (Bool-cases (ltb t.limit b.bytes)) [
      | inl over ↦ (
        t,
        budget,
        rw (offer_made, over) refl,
        dropped refl refl (large b refl (ltb→lt _ _ over)),
      )
      | inr fits ↦
          let (t', budget', run, outcome) =
            offer_batch-Offered budget_contended t budget b q others h a (ltb-false→le _ _ fits) in
          (
            t',
            budget',
            rw (offer_made, fits) run,
            elim outcome [
              | inl (e1, e2, why) ↦ dropped e1 e2 (unfunded b refl why)
              | inr done ↦ taken b refl done
            ],
          )
    ]

-- For a ring that holds a queue of batches and a budget that accounts for them, an offer always has
-- a result. Either neither changes, and there is a reason: a refused lock, a closed tail, records
-- that make no batch, or too many bytes for the tail or the budget. Or the ring behind it holds the
-- queue without its oldest batches, as few as make room, and the new batch as its newest one, and
-- the budget accounts for that.
pub offer-Offered :
    (contended budget_contended : Bool) (topic : TopicId) (partition : ℕ) (records : List Record)
    (durable_end : ℕ) (t : PartitionTail) (budget : Option TailBudget) (q : List DeliveredBatch)
    (others : ℕ)
    → Holds t q
    → IsAccount others budget (total q)
    → (t' : PartitionTail) × (budget' : Option TailBudget) × (offer contended budget_contended topic
          partition records durable_end t budget
        ≡ some (t', budget'))
      × Offered contended budget_contended
          (new_delivered_batch topic partition records durable_end)
          others
          t
          q
          budget
          t'
          budget'
unfolding offer new_delivered_batch
offer-Offered contended bc topic partition [] durable_end t budget q others h a =
    (t, budget, refl, dropped refl refl (no_batch refl))
offer-Offered true bc topic partition (r ∷ rs) durable_end t budget q others h a =
    let guard : (length (r ∷ rs) == 0 || true || t.closed) ≡ true = ground arith in
    (t, budget, rw (offer, guard) refl, dropped refl refl (lock refl))
offer-Offered false bc topic partition (r ∷ rs) durable_end t budget q others h a =
    elim (Bool-cases t.closed) [
      | inl before ↦
          let guard : (length (r ∷ rs) == 0 || false || t.closed) ≡ true = ground arith in
          (t, budget, rw (offer, guard) refl, dropped refl refl (ended before))
      | inr running ↦
          let guard : (length (r ∷ rs) == 0 || false || t.closed) ≡ false = ground arith in
          let made = new_delivered_batch topic partition (r ∷ rs) durable_end in
          let (t', budget', run, outcome) = offer_made-Offered bc made t budget q others h a in
          (t', budget', rw (offer, guard) run, outcome)
    ]
