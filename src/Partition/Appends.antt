-- ===== src/Partition/Appends.antt =====
-- Every append keeps the invariant of the partition, or fences it.
use immulog.Prelude.{
  ℕ, ◌+◌, ◌≤◌, ◌≡◌, ◌⊎◌, ◌∙◌, refl, true, false, not, ◌||◌, List, [], ◌∷◌, length, ltb, ◌!=◌, ◌==◌,
  inl, inr, Bool-cases, arith,
}
use immulog.Prelude.Arrays.{array_eq, array_eq→eq}
use immulog.Api.{RecordBatch}
use immulog.Api.Errors.{
  Error, join, record_too_large, partition_unavailable, Result, ok, err, reject_if-eq-ok,
  Result-cases,
}
use immulog.Codec.Batch.{decode_batch}
use immulog.Partition.{Segment, Partition}
use immulog.Partition.Append.{
  Answers, create_segment, check_append, write_batch, roll, append_encoded, extend, fence,
}
use immulog.Partition.Invariant.{
  IsHeld, IsValid, chain-active, IsChain-replace, IsChain-roll, create_segment-IsHeld,
  extend-IsHeld,
}

-- A success takes exactly the next offsets and keeps the invariant.
abbrev pub Took : ℕ → Partition → RecordBatch → ℕ → Partition → Type 0
Took start p b offset p' =
    (offset ≡ p.log_end)
    × (p'.log_end ≡ p.log_end + length b.records)
    × (p'.unavailable ≡ p.unavailable)
    × IsValid start p'

-- What an append of `b` to `p` may come to. A failure leaves the partition as it was, or fences
-- it; no offset is taken.
abbrev pub Outcome : ℕ → Partition → RecordBatch → Result ℕ × Partition → Type 0
Outcome start p b (ok offset, p') = Took start p b offset p'
Outcome start p b (err e, p') = (p'.log_end ≡ p.log_end) × ((p' ≡ p) ⊎ (p'.unavailable ≡ true))

-- What a write may come to: a failure always fences.
abbrev Written : ℕ → Partition → RecordBatch → Result ℕ × Partition → Type 0
Written start p b (ok offset, p') = Took start p b offset p'
Written start p b (err e, p') = (p'.log_end ≡ p.log_end) × (p'.unavailable ≡ true)

write_batch-Written :
    (start : ℕ) (p : Partition) (b : RecordBatch) (encoded : List ℕ) (a : Answers)
    → IsValid start p
    → decode_batch encoded p.topic p.partition ≡ ok b
    → b.base_offset ≡ p.log_end
    → Written start p b (write_batch p b encoded a)
unfolding write_batch
write_batch-Written start p b encoded a v d next =
    elim (Bool-cases (a.write_failed || a.written != length encoded)) [
      | inl t ↦ rw t (refl, refl)
      | inr t ↦ elim (Bool-cases (not a.synced)) [
        | inl u ↦ rw (t, u) (refl, refl)
        | inr u ↦
            let held = chain-active p.topic p.partition start p.sealed p.active v.chain in
            let grown =
              extend-IsHeld p.topic p.partition p.active b encoded held d (next ∙ v.log_end_eq) in
            rw (t, u)
              (
                next,
                omega (arith, v.log_end_eq),
                refl,
                record {
                  chain =
                      IsChain-replace p.topic p.partition start p.sealed p.active
                        (extend p.active b encoded) v.chain grown refl;
                  log_end_eq = refl;
                },
              )
      ]
    ]

checked :
    (p : Partition) (b : RecordBatch) (encoded : List ℕ)
    → check_append p b encoded ≡ ok tt
    → (b.topic ≡ p.topic) × (b.partition ≡ p.partition) × (b.base_offset ≡ p.log_end)
unfolding check_append
checked p b encoded e =
    let (_, e1) = reject_if-eq-ok p.closed _ _ e in
    let (_, e2) = reject_if-eq-ok p.unavailable _ _ e1 in
    let (t, e3) =
      reject_if-eq-ok
        (not (array_eq 16 b.topic p.topic)
          || b.partition != p.partition
          || b.base_offset != p.log_end)
        _ _ e2 in
    (array_eq→eq 16 b.topic p.topic (ground arith), ground arith, ground arith)

pub roll-IsValid :
    (start : ℕ) (p : Partition) (rolled : Segment)
    → IsValid start p
    → 1 ≤ p.active.records
    → IsHeld p.topic p.partition rolled
      × (rolled.header.base_offset ≡ p.log_end)
      × (rolled.records ≡ 0)
    → IsValid start (roll p rolled)
unfolding roll
roll-IsValid start p rolled v n (held, base, empty) = record {
  chain =
      IsChain-roll p.topic p.partition start p.sealed p.active rolled v.chain n held
        (base ∙ v.log_end_eq);
  log_end_eq = omega (arith, held.counted, base, empty);
}

pub roll-same :
    (p : Partition) (rolled : Segment)
    → ((roll p rolled).log_end ≡ p.log_end) × ((roll p rolled).unavailable ≡ p.unavailable)
unfolding roll
roll-same p rolled = (refl, refl)

Written-Outcome :
    (start : ℕ) (p q : Partition) (b : RecordBatch) (r : Result ℕ × Partition)
    → q.log_end ≡ p.log_end
    → q.unavailable ≡ p.unavailable
    → Written start q b r
    → Outcome start p b r
Written-Outcome start p q b (ok n, p') e u (w0, w1, w2, w3) =
    (w0 ∙ e, omega (arith, w1, e), w2 ∙ u, w3)
Written-Outcome start p q b (err x, p') e u (w0, w1) = (w0 ∙ e, inr w1)

-- What an append comes to behind its tests.
data Course (p : Partition) (b : RecordBatch) (encoded : List ℕ) (a : Answers)
    (r : Result ℕ × Partition) : Type 0 where
  refused : (e : Error) → r ≡ (err e, p) → Course p b encoded a r
  fenced : (e : Error) → r ≡ (err e, fence p) → Course p b encoded a r
  placed : check_append p b encoded ≡ ok tt → r ≡ write_batch p b encoded a → Course p b encoded a r
  rolled :
      (s : Segment)
      → check_append p b encoded ≡ ok tt
      → p.active.records == 0 ≡ false
      → create_segment p.topic p.partition p.log_end a.created ≡ ok s
      → r ≡ write_batch (roll p s) b encoded a
      → Course p b encoded a r

append_encoded-Course :
    (p : Partition) (b : RecordBatch) (encoded : List ℕ) (a : Answers)
    → Course p b encoded a (append_encoded p b encoded a)
unfolding append_encoded
append_encoded-Course p b encoded a = elim (Result-cases (check_append p b encoded)) [
  | inr (x, h) ↦ refused x (rw (append_encoded, h) refl)
  | inl (x, h) ↦ elim (Bool-cases (ltb p.limits.segment_bytes (length encoded + p.active.size))) [
    | inr fits ↦ placed h (rw (append_encoded, h, fits) refl)
    | inl over ↦ elim (Bool-cases (p.active.records == 0)) [
      | inl empty ↦
          refused (join (record_too_large ∷ []) "batch cannot fit in configured segment")
            (rw (append_encoded, h, over, empty) refl)
      | inr full ↦ elim (Result-cases (create_segment p.topic p.partition p.log_end a.created)) [
        | inr (y, g) ↦
            fenced (join (partition_unavailable ∷ []) "create segment")
              (rw (append_encoded, h, over, full, g) refl)
        | inl (s, g) ↦ rolled s h full g (rw (append_encoded, h, over, full, g) refl)
      ]
    ]
  ]
]

-- Whatever the file system answers, an append of a decodable batch to a valid partition succeeds
-- with exactly the next offsets and a valid partition, or fails and takes no offset, and then the
-- partition is unchanged or fenced.
pub append_encoded-Outcome :
    (start : ℕ) (p : Partition) (b : RecordBatch) (encoded : List ℕ) (a : Answers)
    → IsValid start p
    → decode_batch encoded b.topic b.partition ≡ ok b
    → Outcome start p b (append_encoded p b encoded a)
append_encoded-Outcome start p b encoded a v d = elim (append_encoded-Course p b encoded a) [
  | refused e same ↦ rw same (refl, inl refl)
  | fenced e same ↦ rw same (refl, inr refl)
  | placed h same ↦
      let (t, n, next) = checked p b encoded h in
      let e : decode_batch encoded p.topic p.partition ≡ ok b = rw⁻¹ (t, n) d in
      rw same (
        Written-Outcome start p p b (write_batch p b encoded a) refl refl
          (write_batch-Written start p b encoded a v e next))
  | rolled s h full g same ↦
      let (t, n, next) = checked p b encoded h in
      let e : decode_batch encoded p.topic p.partition ≡ ok b = rw⁻¹ (t, n) d in
      let valid =
        roll-IsValid start p s v (ground arith)
          (create_segment-IsHeld p.topic p.partition p.log_end a.created s g) in
      rw same (
        Written-Outcome start p (roll p s) b (write_batch (roll p s) b encoded a) (roll-same p s).0
          (roll-same p s).1
          (write_batch-Written start (roll p s) b encoded a valid (unfold roll in e)
            (unfold roll in next)))
]
