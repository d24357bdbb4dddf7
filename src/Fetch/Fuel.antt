-- ===== src/Fetch/Fuel.antt =====
-- The scan of a segment has enough fuel.
use immulog.Prelude.{
  ℕ, zero, suc, ◌+◌, ◌-◌, ◌≤◌, ◌<◌, ◌≡◌, refl, true, false, Bool, ◌||◌, List, length, ltb, leb,
  ◌!=◌, arith, Bool-cases, !=-false→eq, subst, sym, ap, ◌∙◌, inl, inr, if◌then◌else◌,
}
use immulog.Api.{FetchResult}
use immulog.Api.Errors.{Result, ok, err, reject_if-eq-ok, ok-injective, ◌>>=◌}
use immulog.Format.{batch_header_bytes, batch_trailer_bytes, max_batch_bytes}
use immulog.Format.LittleEndian.{slice, u32}
use immulog.Codec.Batch.{decode_batch}
use immulog.Partition.{Segment, Partition}
use immulog.Fetch.{FetchOptions, take_records}
use immulog.Fetch.Scan.{read_batch, fetch_batches}

long_enough :
    (n left : ℕ)
    → (ltb n (batch_header_bytes + batch_trailer_bytes) || ltb max_batch_bytes n || ltb left n)
      ≡ false
    → 52 ≤ n
long_enough n left h = ground arith

-- A batch that is read has the bytes of a header and a trailer at least.
read_batch-length :
    (s : Segment) (position : ℕ) (d : List ℕ) → read_batch s position ≡ ok d → 52 ≤ length d
unfolding read_batch
read_batch-length s position d e =
    let header = slice position batch_header_bytes s.content in
    let n = u32 8 header in
    let (t1, e1) = reject_if-eq-ok (length header != batch_header_bytes) _ _ e in
    let (t2, e2) =
      reject_if-eq-ok
        (ltb n (batch_header_bytes + batch_trailer_bytes)
          || ltb max_batch_bytes n
          || ltb (s.size - position) n)
        _ _ e1 in
    let (t3, e3) = reject_if-eq-ok (length (slice position n s.content) != n) _ _ e2 in
    let long = long_enough n (s.size - position) t2 in
    subst (λ (d : List ℕ). 52 ≤ length d) (ok-injective e3)
      (subst (λ k. 52 ≤ k) (sym (!=-false→eq (length (slice position n s.content)) n t3)) long)

abbrev Rest : Type 0
Rest = List ℕ → FetchResult → ℕ → Result (Bool × FetchResult × ℕ)

-- One round, with what follows it.
abbrev round :
    Partition
    → Segment
    → FetchOptions
    → ℕ
    → ℕ
    → FetchResult
    → ℕ
    → Rest
    → Result (Bool × FetchResult × ℕ)
round p s o offset position result bytes rest =
    if leb s.size position then ok (false, result, bytes) else (do
      d ← read_batch s position
      b ← decode_batch d p.topic p.partition
      (done, result', bytes') ← take_records o offset b.records result bytes
      if done then ok (true, result', bytes') else rest d result' bytes')

fetch_batches-round :
    (fuel : ℕ) (p : Partition) (s : Segment) (o : FetchOptions) (offset position : ℕ)
    (result : FetchResult) (bytes : ℕ)
    → fetch_batches (suc fuel) p s o offset position result bytes
      ≡ round p s o offset position result bytes
          (λ d r n. fetch_batches fuel p s o offset (position + length d) r n)
unfolding fetch_batches
fetch_batches-round fuel p s o offset position result bytes = refl

after_take :
    (t : Bool × FetchResult × ℕ) (f g : FetchResult → ℕ → Result (Bool × FetchResult × ℕ))
    → ((r : FetchResult) (n : ℕ) → f r n ≡ g r n)
    → (if t.0 then ok (true, t.1, t.2) else f t.1 t.2)
      ≡ (if t.0 then ok (true, t.1, t.2) else g t.1 t.2)
after_take (true, r, n) f g same = refl
after_take (false, r, n) f g same = same r n

same_next {k n} :
    {T : Type k} {U : Type n} (r : Result T) (f g : T → Result U)
    → ((t : T) → r ≡ ok t → f t ≡ g t)
    → (r >>= f) ≡ (r >>= g)
same_next (err e) f g same = refl
same_next (ok t) f g same = same t refl

round-same :
    (p : Partition) (s : Segment) (o : FetchOptions) (offset position : ℕ) (result : FetchResult)
    (bytes : ℕ) (f g : Rest)
    → ((d : List ℕ) (r : FetchResult) (n : ℕ)
        → leb s.size position ≡ false
        → 52 ≤ length d
        → f d r n ≡ g d r n)
    → round p s o offset position result bytes f ≡ round p s o offset position result bytes g
round-same p s o offset position result bytes f g same = elim (Bool-cases (leb s.size position)) [
  | inl past ↦ rw past refl
  | inr more ↦ rw more (
      same_next (read_batch s position) _ _ (λ d read.
        same_next (decode_batch d p.topic p.partition) _ _ (λ b decoded.
          same_next (take_records o offset b.records result bytes) _ _ (λ t took.
            after_take t (f d) (g d)
              (λ r n. same d r n more (read_batch-length s position d read))))))
]

-- A round more changes nothing where the fuel is past the bytes that are left.
fetch_batches-fuel :
    (fuel : ℕ) (p : Partition) (s : Segment) (o : FetchOptions) (offset position : ℕ)
    (result : FetchResult) (bytes : ℕ)
    → s.size - position < fuel
    → fetch_batches (suc fuel) p s o offset position result bytes
      ≡ fetch_batches fuel p s o offset position result bytes
fetch_batches-fuel zero p s o offset position result bytes h = ground arith
fetch_batches-fuel (suc fuel) p s o offset position result bytes h =
    fetch_batches-round (suc fuel) p s o offset position result bytes
    ∙ round-same p s o offset position result bytes _ _ (λ d r n more long.
      fetch_batches-fuel fuel p s o offset (position + length d) r n (ground arith))
    ∙ sym (fetch_batches-round fuel p s o offset position result bytes)

-- Fuel past the bytes that are left is enough: with any more of it, the scan of a segment has the
-- same outcome, so that it ends by itself.
pub fetch_batches-enough :
    (extra fuel : ℕ) (p : Partition) (s : Segment) (o : FetchOptions) (offset position : ℕ)
    (result : FetchResult) (bytes : ℕ)
    → s.size - position < fuel
    → fetch_batches (extra + fuel) p s o offset position result bytes
      ≡ fetch_batches fuel p s o offset position result bytes
fetch_batches-enough zero fuel p s o offset position result bytes h =
    ap (λ n. fetch_batches n p s o offset position result bytes) (omega arith)
fetch_batches-enough (suc extra) fuel p s o offset position result bytes h =
    let more : suc extra + fuel ≡ suc (extra + fuel) = omega arith in
    ap (λ n. fetch_batches n p s o offset position result bytes) more
    ∙ fetch_batches-fuel (extra + fuel) p s o offset position result bytes (omega (arith, h))
    ∙ fetch_batches-enough extra fuel p s o offset position result bytes h
