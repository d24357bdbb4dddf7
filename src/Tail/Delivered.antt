-- ===== src/Tail/Delivered.antt =====
-- The batches that a tail makes.
use immulog.Prelude.{
  some-injective, ℕ, ◌+◌, ◌^◌, ◌%◌, ◌<◌, ◌≡◌, refl, subst, Bool, true, false, not, ◌&&◌, ◌||◌, some,
  List, [], ◌∷◌, length, ltb, leb, ◌==◌, ◌!=◌, if◌then◌else◌, arith, Bool-cases, inl, inr,
  Option-cases,
}
use immulog.Prelude.Arrays.{array_eq, array_eq_refl}
use immulog.Api.{TopicId, Record}
use immulog.Api.Errors.{Result-cases}
use immulog.Format.{max_batch_records, valid_offset_range}
use immulog.Partition.Sizes.{checked_add, record_encoded_bytes}
use immulog.Tail.{
  DeliveredBatch, out_of_place, delivered_bytes, new_delivered_batch, any_out_of_place,
  valid_delivered_batch,
}

-- Records whose bytes were counted stand in their places.
delivered_bytes-in_place :
    (t : TopicId) (p base index bytes n : ℕ) (rs : List Record)
    → delivered_bytes t p base index bytes rs ≡ some n
    → any_out_of_place t p base index rs ≡ false
unfolding delivered_bytes any_out_of_place
delivered_bytes-in_place t p base index bytes n [] e = refl
delivered_bytes-in_place t p base index bytes n (r ∷ rs) e =
    elim (Bool-cases (out_of_place t p base index r)) [
      | inl out ↦ let e1 = rw (delivered_bytes, out) at e in cc
      | inr here ↦
          let e1 = rw (delivered_bytes, here) at e in
          elim (Result-cases (record_encoded_bytes r)) [
            | inr (x, failed) ↦ let e2 = rw failed at e1 in cc
            | inl (m, size) ↦
                let e2 = rw size at e1 in
                elim (Result-cases (checked_add bytes m)) [
                  | inr (x, failed) ↦ let e3 = rw failed at e2 in cc
                  | inl (next, sum) ↦
                      let e3 = rw sum at e2 in
                      rw here (delivered_bytes-in_place t p base (index + 1) next n rs e3)
                ]
          ]
    ]

three : (a b c : Bool) → (a || not b || c) ≡ false → (a ≡ false) × (b ≡ true) × (c ≡ false)
three a b c h = ground arith

-- What the tests of `newDeliveredBatch` establish.
record IsMade (t : TopicId) (p : ℕ) (rs : List Record) (last : ℕ) (b : DeliveredBatch)
    : Type 0 where
  pub topic : b.topic ≡ t
  pub partition : b.partition ≡ p
  pub records : b.records ≡ rs
  pub own_end : b.durable_end ≡ last
  pub nonempty : 0 < length b.records
  pub few : ltb max_batch_records (length b.records) ≡ false
  pub in_range : valid_offset_range b.base (length b.records % 2 ^ 32) ≡ true
  pub end : b.end ≡ (b.base + length b.records) % 2 ^ 64
  pub fresh : ltb b.durable_end b.end ≡ false
  pub in_place : any_out_of_place t p b.base 0 b.records ≡ false

new_delivered_batch-IsMade :
    (t : TopicId) (p : ℕ) (rs : List Record) (durable : ℕ) (b : DeliveredBatch)
    → new_delivered_batch t p rs durable ≡ some b
    → IsMade t p rs durable b
unfolding new_delivered_batch
new_delivered_batch-IsMade t p [] durable b e = cc
new_delivered_batch-IsMade t p (r ∷ rs) durable b e =
    let count = length (r ∷ rs) in
    let end = (r.offset + count) % 2 ^ 64 in
    elim (Bool-cases (
      ltb max_batch_records count
      || not (valid_offset_range r.offset (count % 2 ^ 32))
      || ltb durable end)) [
        | inl bad ↦ let e1 = rw bad at e in cc
        | inr good ↦
            let e1 = rw good at e in
            let (few, range, old) =
              three (ltb max_batch_records count) (valid_offset_range r.offset (count % 2 ^ 32))
                (ltb durable end) good in
            elim (Option-cases (delivered_bytes t p r.offset 0 0 (r ∷ rs))) [
              | inl failed ↦ let e2 = rw failed at e1 in cc
              | inr (n, sum) ↦
                  let e2 = rw sum at e1 in
                  subst (IsMade t p (r ∷ rs) durable) (some-injective e2) (record {
                    topic = refl;
                    partition = refl;
                    records = refl;
                    own_end = refl;
                    nonempty = omega arith;
                    few = few;
                    in_range = range;
                    end = refl;
                    fresh = old;
                    in_place = delivered_bytes-in_place t p r.offset 0 0 n (r ∷ rs) sum;
                  })
            ]
      ]

tests :
    (partition p base offset end own durable visible count sum : ℕ)
    → partition ≡ p
    → own ≡ durable
    → 0 < count
    → ltb max_batch_records count ≡ false
    → ltb own end ≡ false
    → end ≡ sum
    → (if not true
          || partition != p
          || ltb offset base
          || leb end offset
          || ltb own end
          || ltb visible own
          || count == 0
          || ltb max_batch_records count
          || not true
          || end != sum
        then false
        else not false)
      ≡ (leb base offset && ltb offset end && leb durable visible)
tests partition p base offset end own durable visible count sum e1 e2 h1 h2 h3 e3 = ground arith

-- The batch that a tail makes is one that a read takes for exactly the offsets it holds, wherever
-- its own durable end is not past the one of the read.
pub new_delivered_batch-found :
    (t : TopicId) (p : ℕ) (rs : List Record) (durable : ℕ) (b : DeliveredBatch)
    → new_delivered_batch t p rs durable ≡ some b
    → (offset visible : ℕ)
    → valid_delivered_batch (some b) t p offset visible
      ≡ (leb b.base offset && ltb offset b.end && leb durable visible)
unfolding valid_delivered_batch
new_delivered_batch-found t p rs durable b e offset visible =
    let m = new_delivered_batch-IsMade t p rs durable b e in
    let same : array_eq 16 b.topic t ≡ true = rw m.topic (array_eq_refl 16 t) in
    rw (same, m.in_range, m.in_place)
      (tests b.partition p b.base offset b.end b.durable_end durable visible (length b.records)
        ((b.base + length b.records) % 2 ^ 64) m.partition m.own_end m.nonempty m.few m.fresh m.end)
