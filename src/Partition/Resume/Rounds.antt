-- ===== src/Partition/Resume/Rounds.antt =====
-- One round of the scan.
use immulog.Prelude.{
  ℕ, suc, ◌≤◌, ◌≡◌, refl, Bool, true, false, ◌&&◌, List, [], ◌∷◌, ◌++◌, length, drop, ltb,
  ltb_of_le, ltb-false→le, !=-false→eq, !=_of_eq, ◌!=◌, if◌then◌else◌, drop-append_le,
  length-append, arith,
}
use immulog.Prelude.Int.{int_of_uint64}
use immulog.Api.{RecordBatch, TopicId}
use immulog.Api.Errors.{Error, Result, ok, err, reject_if-eq-ok, >>=-eq-ok}
use immulog.Format.LittleEndian.{slice, u32, u64, slice-append_le, un_le}
use immulog.Codec.Batch.{decode_batch}
use immulog.Partition.Recover.{Scan, advance, scan_batches, can_truncate_tail}

-- The scan reads a whole batch at the front of `d`.
pub record Round (topic : TopicId) (partition : ℕ) (s : Scan) (d : List ℕ) (b : RecordBatch)
    : Type 0 where
  pub header : 48 ≤ length d
  pub fits : u32 8 d ≤ length d
  pub sized : 52 ≤ u32 8 d
  pub decoded : decode_batch (slice 0 (u32 8 d) d) topic partition ≡ ok b
  pub next : b.base_offset ≡ s.current

abbrev pub after : Scan → List ℕ → RecordBatch → Scan
after s d b = advance s (u32 8 d) b (int_of_uint64 (u64 24 d))

whole :
    (short torn : Bool) (s s' : Scan) (e : Error) (k : Result (Scan × Bool))
    → (if short then (if torn then ok (s, true) else err e) else k) ≡ ok (s', false)
    → (short ≡ false) × (k ≡ ok (s', false))
whole true true s s' e k h = ground arith
whole true false s s' e k h = cc
whole false torn s s' e k h = (refl, h)

module _ (topic : TopicId) (partition : ℕ) (final : Bool) where
  pub scan-Round :
      (fuel : ℕ) (s : Scan) (d : List ℕ) (b : RecordBatch)
      → Round topic partition s d b
      → scan_batches (suc fuel) topic partition final s d
        ≡ scan_batches fuel topic partition final (after s d b) (drop (u32 8 d) d)
  unfolding scan_batches
  scan-Round fuel s [] b r = absurd (omega (arith, r.header))
  scan-Round fuel s (x ∷ xs) b r =
      let d = x ∷ xs in
      rw (ltb_of_le (length d) 48 r.header, ltb_of_le (length d) (u32 8 d) r.fits)
        (rw (ltb_of_le (u32 8 d) 52 r.sized)
          (rw r.decoded (rw (!=_of_eq b.base_offset s.current r.next))))

  pub scan-inversion :
      (fuel : ℕ) (s s' : Scan) (d : List ℕ)
      → 1 ≤ length d
      → scan_batches (suc fuel) topic partition final s d ≡ ok (s', false)
      → (b : RecordBatch) × Round topic partition s d b
        × (scan_batches fuel topic partition final (after s d b) (drop (u32 8 d) d)
            ≡ ok (s', false))
  unfolding scan_batches
  scan-inversion fuel s s' [] n e = absurd (omega arith)
  scan-inversion fuel s s' (x ∷ xs) n e =
      let d = x ∷ xs in
      let (t1, e1) = reject_if-eq-ok (ltb (length d) 48) _ _ e in
      let (t2, e2) =
        whole (ltb (length d) (u32 8 d)) (final && can_truncate_tail d s.current) s s' _ _ e1 in
      let (t3, e3) = reject_if-eq-ok (ltb (u32 8 d) 52) _ _ e2 in
      let (b, h, e4) = >>=-eq-ok (decode_batch (slice 0 (u32 8 d) d) topic partition) _ e3 in
      let (t4, e5) = reject_if-eq-ok (b.base_offset != s.current) _ _ e4 in
      (
        b,
        record {
          header = ltb-false→le (length d) 48 t1;
          fits = ltb-false→le (length d) (u32 8 d) t2;
          sized = ltb-false→le (u32 8 d) 52 t3;
          decoded = h;
          next = !=-false→eq b.base_offset s.current t4;
        },
        e5,
      )

  -- A batch at the front of `d` is one whatever follows, with the same words.
  pub Round-append :
      (s : Scan) (d more : List ℕ) (b : RecordBatch)
      → Round topic partition s d b
      → Round topic partition s (d ++ more) b
        × (after s (d ++ more) b ≡ after s d b)
        × (drop (u32 8 (d ++ more)) (d ++ more) ≡ drop (u32 8 d) d ++ more)
  unfolding u32 u64
  Round-append s d more b r =
      let size = length-append d more in
      let w : slice 8 4 (d ++ more) ≡ slice 8 4 d =
        slice-append_le 8 4 d more (omega (arith, r.header)) in
      let t : slice 24 8 (d ++ more) ≡ slice 24 8 d =
        slice-append_le 24 8 d more (omega (arith, r.header)) in
      (
        record {
          header = omega (arith, size, r.header);
          fits = rw w (omega (arith, size, r.fits));
          sized = rw w r.sized;
          decoded = rw w (
              rw (slice-append_le 0 (un_le (slice 8 4 d)) d more (omega (arith, r.fits)))
                r.decoded);
          next = r.next;
        },
        rw (w, t),
        rw w (drop-append_le (un_le (slice 8 4 d)) d more r.fits),
      )
