-- ===== src/Tail/Ring/Contents.antt =====
-- The batches that a ring holds, the oldest first, and what evict and push do to them.
use immulog.Prelude.{
  ℕ, zero, suc, ◌+◌, ◌-◌, ◌^◌, ◌%◌, ◌≤◌, ◌<◌, ◌≡◌, ◌≢◌, refl, sym, ◌∙◌, ap, subst, none, some, List,
  [], ◌∷◌, ◌++◌, length, drop, get_elem?, set, length-set, length-append, get_elem?-set_self,
  get_elem?-set_ne, arith,
}
use native.Mathlib.Decide.{dec_lt, ℕ_discrete}
use immulog.Tail.{DeliveredBatch}
use immulog.Tail.Ring.{
  PartitionTail, max_tail_slots, max_tail_bytes, slot_index, slot_batch, evict_oldest, evict, push,
}
use immulog.Tail.Ring.Index.{
  round_lt, round_zero, round_ne, round_suc, round_all, round_ne_head, index_lem,
}

abbrev pub total : List DeliveredBatch → ℕ
total [] = 0
total (b ∷ q) = b.bytes + total q

-- The batches in the slots from the head on, and nothing in the slots behind them. The counts of
-- batches and of bytes are theirs, and both limits are kept.
pub record Holds (t : PartitionTail) (q : List DeliveredBatch) : Type 0 where
  pub places :
      (k : ℕ)
      → k < length t.slots
      → get_elem? t.slots ((t.head + k) % length t.slots) ≡ some (get_elem? q k)
  pub head_in : t.head < length t.slots
  pub slots_few : length t.slots ≤ max_tail_slots
  pub count : t.count ≡ length q
  pub few : length q ≤ length t.slots
  pub bytes : t.bytes ≡ total q
  pub held : total q ≤ t.limit
  pub small : t.limit ≤ max_tail_bytes

-- What no operation on the batches changes.
pub record IsSameRing (t t' : PartitionTail) : Type 0 where
  pub slots : length t'.slots ≡ length t.slots
  pub limit : t'.limit ≡ t.limit
  pub closed : t'.closed ≡ t.closed

pub IsSameRing-trans :
    {t t' t'' : PartitionTail} → IsSameRing t t' → IsSameRing t' t'' → IsSameRing t t''
IsSameRing-trans s s' = record {
  slots = s'.slots ∙ s.slots;
  limit = s'.limit ∙ s.limit;
  closed = s'.closed ∙ s.closed;
}

pub slot_index_lem :
    (t : PartitionTail) (q : List DeliveredBatch) (k : ℕ)
    → Holds t q
    → k ≤ length t.slots
    → slot_index t k ≡ (t.head + k) % length t.slots
slot_index_lem t q k h i = index_lem t.head k (length t.slots) h.head_in i h.slots_few

pub slot_batch_lem :
    (t : PartitionTail) (q : List DeliveredBatch) (k : ℕ)
    → Holds t q
    → k < length t.slots
    → slot_batch t (slot_index t k) ≡ get_elem? q k
slot_batch_lem t q k h i = rw (slot_index_lem t q k h (omega arith), slot_batch, h.places k i) refl

head_batch :
    (t : PartitionTail) (b : DeliveredBatch) (q : List DeliveredBatch)
    → Holds t (b ∷ q)
    → slot_batch t t.head ≡ some b
head_batch t b q h =
    let first = h.places 0 (omega (arith, h.head_in)) in
    let at_head =
      subst (λ (i : ℕ). get_elem? t.slots i ≡ some (some b))
        (round_zero t.head (length t.slots) h.head_in) first in
    rw (slot_batch, at_head) refl

none_of_short : (q : List DeliveredBatch) (k : ℕ) → length q ≤ k → get_elem? q k ≡ none
none_of_short [] k h = refl
none_of_short (b ∷ q) zero h = absurd (omega arith)
none_of_short (b ∷ q) (suc k) h = none_of_short q k (omega arith)

-- The slots behind the eviction of the oldest batch.
next_places :
    (t : PartitionTail) (b : DeliveredBatch) (q : List DeliveredBatch) (k : ℕ)
    → Holds t (b ∷ q)
    → k < length t.slots
    → get_elem? (set t.slots t.head none) (((t.head + 1) % length t.slots + k) % length t.slots)
      ≡ some (get_elem? q k)
next_places t b q k h i =
    let n = length t.slots in
    rw (round_suc t.head k n h.head_in i) (elim (dec_lt (suc k) n) [
      | yes more ↦
          get_elem?-set_ne t.slots t.head ((t.head + suc k) % n) none
            (round_ne_head t.head k n h.head_in more)
          ∙ h.places (suc k) more
      | no last ↦
          rw
            (
              round_all t.head (suc k) n h.head_in (omega arith),
              get_elem?-set_self t.slots t.head none h.head_in,
              none_of_short q k (omega arith),
            )
            refl
    ])

pub evict_oldest-Holds :
    (t : PartitionTail) (b : DeliveredBatch) (q : List DeliveredBatch)
    → Holds t (b ∷ q)
    → (t' : PartitionTail) × (evict_oldest t ≡ some t') × Holds t' q × IsSameRing t t'
unfolding evict_oldest
evict_oldest-Holds t b q h =
    let n = length t.slots in
    let same = length-set t.slots t.head none in
    let index = slot_index_lem t (b ∷ q) 1 h (omega arith) in
    (
      record t {
        slots = set t.slots t.head none;
        head = slot_index t 1;
        count = (t.count + (2 ^ 32 - 1)) % 2 ^ 32;
        bytes = (t.bytes + (2 ^ 64 - b.bytes)) % 2 ^ 64;
      },
      rw (evict_oldest, head_batch t b q h) refl,
      record {
        places = λ k i. rw (same, index) (next_places t b q k h (rw same at i));
        head_in = rw (same, index) (round_lt t.head 1 n h.head_in (omega arith));
        slots_few = rw same h.slots_few;
        count = ground arith;
        few = rw same (omega arith);
        bytes = ground arith;
        held = omega arith;
        small = h.small;
      },
      record { slots = same; limit = refl; closed = refl },
    )

-- As many evictions as there are batches, or fewer, take that many of the oldest ones away.
pub evict-Holds :
    (e : ℕ) (t : PartitionTail) (q : List DeliveredBatch)
    → Holds t q
    → e ≤ length q
    → (t' : PartitionTail) × (evict t e ≡ some t') × Holds t' (drop e q) × IsSameRing t t'
unfolding evict
evict-Holds zero t q h i = (t, refl, h, record { slots = refl; limit = refl; closed = refl })
evict-Holds (suc e) t [] h i = absurd (omega arith)
evict-Holds (suc e) t (b ∷ q) h i =
    let (t1, e1, h1, s1) = evict_oldest-Holds t b q h in
    let (t2, e2, h2, s2) = evict-Holds e t1 q h1 (omega arith) in
    (t2, rw (evict, e1) e2, h2, IsSameRing-trans s1 s2)

get_elem?-append_self :
    (q : List DeliveredBatch) (b : DeliveredBatch) → get_elem? (q ++ (b ∷ [])) (length q) ≡ some b
get_elem?-append_self [] b = refl
get_elem?-append_self (x ∷ q) b = get_elem?-append_self q b

get_elem?-append_ne :
    (q : List DeliveredBatch) (b : DeliveredBatch) (k : ℕ)
    → length q ≢ k
    → get_elem? (q ++ (b ∷ [])) k ≡ get_elem? q k
get_elem?-append_ne [] b zero ne = absurd (ne refl)
get_elem?-append_ne [] b (suc k) ne = refl
get_elem?-append_ne (x ∷ q) b zero ne = refl
get_elem?-append_ne (x ∷ q) b (suc k) ne = get_elem?-append_ne q b k (λ e. ne (omega arith))

pub total-append :
    (q : List DeliveredBatch) (b : DeliveredBatch) → total (q ++ (b ∷ [])) ≡ total q + b.bytes
total-append [] b = omega arith
total-append (x ∷ q) b = omega (arith, total-append q b)

pushed_places :
    (t : PartitionTail) (q : List DeliveredBatch) (b : DeliveredBatch) (k : ℕ)
    → Holds t q
    → length q < length t.slots
    → k < length t.slots
    → get_elem?
        (set t.slots ((t.head + length q) % length t.slots) (some b))
        ((t.head + k) % length t.slots)
      ≡ some (get_elem? (q ++ (b ∷ [])) k)
pushed_places t q b k h room i =
    let n = length t.slots in
    elim (ℕ_discrete (length q) k) [
      | yes e ↦
          subst
            (λ (j : ℕ).
              get_elem? (set t.slots ((t.head + length q) % n) (some b)) ((t.head + j) % n)
              ≡ some (get_elem? (q ++ (b ∷ [])) j))
            e
            (get_elem?-set_self t.slots ((t.head + length q) % n) (some b)
                (round_lt t.head (length q) n h.head_in (omega arith))
              ∙ ap some (sym (get_elem?-append_self q b)))
      | no ne ↦
          get_elem?-set_ne t.slots ((t.head + length q) % n) ((t.head + k) % n) (some b)
            (round_ne t.head (length q) k n h.head_in room i ne)
          ∙ (h.places k i ∙ ap some (sym (get_elem?-append_ne q b k ne)))
    ]

-- A batch that has a slot and the bytes is the newest one behind the push.
pub push-Holds :
    (t : PartitionTail) (q : List DeliveredBatch) (b : DeliveredBatch)
    → Holds t q
    → length q < length t.slots
    → total q + b.bytes ≤ t.limit
    → Holds (push t b) (q ++ (b ∷ []))
unfolding push
push-Holds t q b h room bytes =
    let index : slot_index t t.count ≡ (t.head + length q) % length t.slots =
      subst (λ (c : ℕ). slot_index t c ≡ (t.head + length q) % length t.slots) (sym h.count)
        (slot_index_lem t q (length q) h (omega arith)) in
    let same = length-set t.slots (slot_index t t.count) (some b) in
    let more = length-append q (b ∷ []) in
    let sum = total-append q b in
    record {
      places = λ k i. rw (same, index) (pushed_places t q b k h room (rw same at i));
      head_in = rw same h.head_in;
      slots_few = rw same h.slots_few;
      count = ground arith;
      few = rw same (omega arith);
      bytes = ground arith;
      held = omega arith;
      small = h.small;
    }

pub push-IsSameRing : (t : PartitionTail) (b : DeliveredBatch) → IsSameRing t (push t b)
unfolding push
push-IsSameRing t b = record {
  slots = length-set t.slots (slot_index t t.count) (some b);
  limit = refl;
  closed = refl;
}
