-- ===== src/Partition/Batches.antt =====
-- `AppendBatch`: the batch it encodes is the one that recovery reads back.
use immulog.Prelude.{ℕ, ◌≡◌, refl, true, List, [], ◌∷◌, ltb, inl, inr, Bool-cases}
use immulog.Api.{RecordBatch}
use immulog.Api.Errors.{
  Error, closed, closing, join, record_too_large, partition_unavailable, Result, ok, err, reject_if,
  ◌>>=◌, ◌>>◌, >>=-eq-ok, reject_if-eq-ok, Result-cases,
}
use immulog.Codec.Batch.{encode_batch}
use immulog.Codec.BatchTrip.{decode-encode_batch}
use immulog.Codec.BatchTrip.Records.{IsTimed}
use immulog.Partition.{Partition}
use immulog.Partition.Append.{Answers, check_append, append_encoded, append_batch}
use immulog.Partition.Sizes.{batch_encoded_bytes}
use immulog.Partition.Invariant.{IsValid}
use immulog.Partition.Appends.{Outcome, append_encoded-Outcome}

-- The part of `append_batch` before the partition's writer.
admit : Partition → RecordBatch → Result (List ℕ)
admit p b = do
  reject_if p.closed (join (closed ∷ []) "")
  reject_if p.closing (join (closing ∷ []) "")
  estimated ← batch_encoded_bytes b.records
  reject_if (ltb p.limits.batch_bytes estimated)
      (join (record_too_large ∷ []) "batch exceeds configured writer limit")
  encode_batch b

admit-encoded :
    (p : Partition) (b : RecordBatch) (encoded : List ℕ)
    → admit p b ≡ ok encoded
    → encode_batch b ≡ ok encoded
unfolding admit
admit-encoded p b encoded h =
    let (_, h1) = reject_if-eq-ok p.closed _ _ h in
    let (_, h2) = reject_if-eq-ok p.closing _ _ h1 in
    let (estimated, _, h3) = >>=-eq-ok (batch_encoded_bytes b.records) _ h2 in
    let (_, h4) = reject_if-eq-ok (ltb p.limits.batch_bytes estimated) _ _ h3 in h4

admit-refused :
    (p : Partition) (b : RecordBatch) (a : Answers) (e : Error)
    → admit p b ≡ err e
    → append_batch p b a ≡ (err e, p)
unfolding admit append_batch
admit-refused p b a e h = rw (append_batch, h) refl

admit-passed :
    (p : Partition) (b : RecordBatch) (a : Answers) (encoded : List ℕ)
    → admit p b ≡ ok encoded
    → append_batch p b a ≡ append_encoded p b encoded a
unfolding admit append_batch append_encoded
admit-passed p b a encoded h = rw (append_batch, h) refl

-- Whatever the file system answers, an append of a batch with 64-bit timestamps to a valid
-- partition succeeds with exactly the next offsets and a valid partition, or fails and takes no
-- offset, and then the partition is unchanged or fenced.
pub append_batch-Outcome :
    (start : ℕ) (p : Partition) (b : RecordBatch) (a : Answers)
    → IsValid start p
    → IsTimed b.records
    → Outcome start p b (append_batch p b a)
append_batch-Outcome start p b a v timed = elim (Result-cases (admit p b)) [
  | inr (x, h) ↦ rw (admit-refused p b a x h) (refl, inl refl)
  | inl (encoded, h) ↦ rw (admit-passed p b a encoded h) (
      append_encoded-Outcome start p b encoded a v
        (decode-encode_batch b (admit-encoded p b encoded h) timed))
]

fenced-check :
    (p : Partition) (b : RecordBatch) (encoded : List ℕ)
    → p.unavailable ≡ true
    → (e : Error) × (check_append p b encoded ≡ err e)
unfolding check_append
fenced-check p b encoded u = elim (Bool-cases p.closed) [
  | inl t ↦ (join (closed ∷ []) "", rw (check_append, t) refl)
  | inr t ↦ (join (partition_unavailable ∷ []) "", rw (check_append, t, u) refl)
]

-- A fenced partition refuses every append and stays as it is.
pub append_batch-fenced :
    (p : Partition) (b : RecordBatch) (a : Answers)
    → p.unavailable ≡ true
    → (e : Error) × (append_batch p b a ≡ (err e, p))
unfolding append_encoded
append_batch-fenced p b a u = elim (Result-cases (admit p b)) [
  | inr (x, h) ↦ (x, admit-refused p b a x h)
  | inl (encoded, h) ↦
      let (e, c) = fenced-check p b encoded u in
      (e, rw (admit-passed p b a encoded h, append_encoded, c) refl)
]
