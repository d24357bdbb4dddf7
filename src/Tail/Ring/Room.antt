-- ===== src/Tail/Ring/Room.antt =====
-- The plan of the evictions that make room for a batch.
use immulog.Prelude.{
  ℕ, zero, suc, ◌+◌, ◌-◌, ◌^◌, ◌%◌, ◌≤◌, ◌<◌, ◌≡◌, refl, sym, ◌∙◌, ap, Bool, true, false, ◌||◌, inl,
  inr, Bool-cases, some, List, [], ◌∷◌, length, drop, drop_all, length-drop, get_elem?, ltb, ◌==◌,
  if◌then◌else◌, arith,
}
use immulog.Tail.{DeliveredBatch}
use immulog.Tail.Ring.{PartitionTail, is_over, slot_index, slot_batch, plan_loop, eviction_plan}
use immulog.Tail.Ring.Contents.{total, Holds, slot_batch_lem}

-- The ring has no slot for one more batch, or not the bytes for it.
unfoldable pub is_full : ℕ → ℕ → ℕ → List DeliveredBatch → Bool
is_full slots limit incoming q = length q == slots || ltb limit (total q + incoming)

-- The batches that stay: the oldest go until one more batch has a slot and its bytes.
unfoldable pub make_room : ℕ → ℕ → ℕ → List DeliveredBatch → List DeliveredBatch
make_room slots limit incoming [] = []
make_room slots limit incoming (b ∷ q) =
    if is_full slots limit incoming (b ∷ q) then make_room slots limit incoming q else b ∷ q

-- A ring with a slot has room behind the evictions.
pub make_room-fits :
    (slots limit incoming : ℕ) (q : List DeliveredBatch)
    → 0 < slots
    → length q ≤ slots
    → incoming ≤ limit
    → (length (make_room slots limit incoming q) < slots)
      × (total (make_room slots limit incoming q) + incoming ≤ limit)
unfolding make_room is_full
make_room-fits slots limit incoming [] some_slot few i = (some_slot, omega arith)
make_room-fits slots limit incoming (b ∷ q) some_slot few i =
    let rest = make_room-fits slots limit incoming q some_slot (omega arith) i in ground arith

drop-cons :
    (q : List DeliveredBatch) (e : ℕ)
    → e < length q
    → (b : DeliveredBatch) × (get_elem? q e ≡ some b) × (drop e q ≡ b ∷ drop (suc e) q)
drop-cons [] e h = absurd (omega arith)
drop-cons (x ∷ q) zero h = (x, refl, refl)
drop-cons (x ∷ q) (suc e) h = drop-cons q e (omega arith)

is_over-is_full :
    (t : PartitionTail) (incoming : ℕ) (q0 q : List DeliveredBatch) (count bytes : ℕ)
    → Holds t q0
    → incoming ≤ t.limit
    → count ≡ length q
    → bytes ≡ total q
    → is_over t incoming count bytes ≡ is_full (length t.slots) t.limit incoming q
unfolding is_full is_over
is_over-is_full t incoming q0 q count bytes h i e1 e2 =
    let few = h.slots_few in let small = h.small in ground arith

make_room-full :
    (slots limit incoming : ℕ) (b : DeliveredBatch) (q : List DeliveredBatch)
    → is_full slots limit incoming (b ∷ q) ≡ true
    → make_room slots limit incoming (b ∷ q) ≡ make_room slots limit incoming q
unfolding make_room
make_room-full slots limit incoming b q e = rw (make_room, e) refl

make_room-stay :
    (slots limit incoming : ℕ) (q : List DeliveredBatch)
    → is_full slots limit incoming q ≡ false
    → make_room slots limit incoming q ≡ q
unfolding make_room
make_room-stay slots limit incoming [] e = refl
make_room-stay slots limit incoming (b ∷ q) e = rw (make_room, e) refl

-- A plan: the batches behind the evictions are those that stay, and the bytes are those of the
-- others.
pub record IsPlan (t : PartitionTail) (incoming : ℕ) (q : List DeliveredBatch) (e removed : ℕ)
    : Type 0 where
  pub rest : drop e q ≡ make_room (length t.slots) t.limit incoming q
  pub few : e ≤ length q
  pub sum : removed + total (drop e q) ≡ total q

empty_fits :
    (slots limit incoming : ℕ)
    → 0 < slots
    → incoming ≤ limit
    → is_full slots limit incoming [] ≡ false
unfolding is_full
empty_fits slots limit incoming h i = ground arith

plan_loop-full :
    (t : PartitionTail) (incoming count bytes e removed : ℕ) (b : DeliveredBatch)
    → is_over t incoming (suc count) bytes ≡ true
    → slot_batch t (slot_index t e) ≡ some b
    → b.bytes ≤ bytes
    → suc e < 2 ^ 32
    → removed + b.bytes < 2 ^ 64
    → plan_loop t incoming (suc count) bytes e removed
      ≡ plan_loop t incoming count (bytes - b.bytes) (suc e) (removed + b.bytes)
unfolding plan_loop
plan_loop-full t incoming count bytes e removed b over slot enough small1 small2 =
    let held : ltb bytes b.bytes ≡ false = ground arith in
    let next : (e + 1) % 2 ^ 32 ≡ suc e = omega arith in
    let sum : (removed + b.bytes) % 2 ^ 64 ≡ removed + b.bytes = omega arith in
    rw (plan_loop, over, slot, held, next, sum) refl

plan_loop-IsPlan :
    (t : PartitionTail) (incoming : ℕ) (q : List DeliveredBatch) (count bytes e removed : ℕ)
    → Holds t q
    → incoming ≤ t.limit
    → e + count ≡ length q
    → bytes ≡ total (drop e q)
    → removed + bytes ≡ total q
    → make_room (length t.slots) t.limit incoming (drop e q)
      ≡ make_room (length t.slots) t.limit incoming q
    → (e' r' : ℕ) × (plan_loop t incoming count bytes e removed ≡ some (e', r'))
      × IsPlan t incoming q e' r'
unfolding plan_loop
plan_loop-IsPlan t incoming q zero bytes e removed h i n1 n2 n3 same =
    let n = length t.slots in
    let none_left = drop_all q e (omega arith) in
    let some_slot = h.head_in in
    let fits = empty_fits n t.limit incoming (omega arith) i in
    let rest : drop e q ≡ make_room n t.limit incoming q =
      none_left
      ∙ (sym (make_room-stay n t.limit incoming [] fits)
          ∙ (sym (ap (make_room n t.limit incoming) none_left) ∙ same)) in
    let here = is_over-is_full t incoming q [] 0 bytes h i refl (n2 ∙ ap total none_left) in
    (
      e,
      removed,
      rw (plan_loop, here ∙ fits) refl,
      record { rest = rest; few = omega arith; sum = rw n2 at n3 },
    )
plan_loop-IsPlan t incoming q (suc count) bytes e removed h i n1 n2 n3 same =
    let n = length t.slots in
    let (b, found, more) = drop-cons q e (omega arith) in
    let few = h.few in
    let slots = h.slots_few in
    let held = h.held in
    let small = h.small in
    let left = length-drop e q in
    let here = is_over-is_full t incoming q (drop e q) (suc count) bytes h i (omega arith) n2 in
    let bytes_more : bytes ≡ b.bytes + total (drop (suc e) q) = n2 ∙ ap total more in
    elim (Bool-cases (is_full n t.limit incoming (drop e q))) [
      | inl full ↦
          let slot = slot_batch_lem t q e h (omega arith) ∙ found in
          let step =
            plan_loop-full t incoming count bytes e removed b (here ∙ full) slot (omega arith)
              (omega arith) (omega arith) in
          let full_more : is_full n t.limit incoming (b ∷ drop (suc e) q) ≡ true =
            sym (ap (is_full n t.limit incoming) more) ∙ full in
          let same_more =
            sym (make_room-full n t.limit incoming b (drop (suc e) q) full_more)
            ∙ (sym (ap (make_room n t.limit incoming) more) ∙ same) in
          let (e', r', run, plan) =
            plan_loop-IsPlan t incoming q count (bytes - b.bytes) (suc e) (removed + b.bytes) h i
              (omega arith) (omega arith) (omega arith) same_more in
          (e', r', step ∙ run, plan)
      | inr stay ↦ (
        e,
        removed,
        rw (plan_loop, here ∙ stay) refl,
        record {
          rest = sym (make_room-stay n t.limit incoming (drop e q) stay) ∙ same;
          few = omega arith;
          sum = rw n2 at n3;
        },
      )
    ]

-- The plan takes the oldest batches away until the incoming one has a slot and its bytes.
pub eviction_plan-IsPlan :
    (t : PartitionTail) (incoming : ℕ) (q : List DeliveredBatch)
    → Holds t q
    → incoming ≤ t.limit
    → (e r : ℕ) × (eviction_plan t incoming ≡ some (e, r)) × IsPlan t incoming q e r
unfolding eviction_plan
eviction_plan-IsPlan t incoming q h i =
    let (e, r, run, plan) =
      plan_loop-IsPlan t incoming q t.count t.bytes 0 0 h i (omega (arith, h.count)) h.bytes
        (omega (arith, h.bytes)) refl in
    let some_slot = h.head_in in
    let guard : (ltb t.limit incoming || length t.slots == 0) ≡ false = ground arith in
    (e, r, rw (eviction_plan, guard) run, plan)
