-- ===== src/Partition/Resume.antt =====
-- A scan can be resumed: what `recoverSegment` makes of a file's front does not depend on what
-- follows, and the rest is scanned from there. The fuel of the scan does not matter.
pub mod Rounds
use immulog.Prelude.{
  ℕ, zero, suc, ◌+◌, ◌-◌, ◌≤◌, ◌<◌, ◌≡◌, ◌∙◌, sym, refl, ap, Bool, true, false, not, ◌&&◌, ◌||◌,
  List, [], ◌∷◌, ◌++◌, length, drop, ltb, ltb_of_le, ltb-false→le, ◌!=◌, if◌then◌else◌, Bool-cases,
  inl, inr, length-append, length-drop, arith,
}
use immulog.Prelude.Int.{int_of_uint64}
use immulog.Api.{RecordBatch, TopicId}
use immulog.Api.Errors.{Result, ok, err, reject_if, ◌>>=◌, ◌>>◌, Result-cases}
use immulog.Format.LittleEndian.{slice, u32, u64}
use immulog.Codec.Batch.{decode_batch}
use immulog.Partition.Recover.{Scan, advance, scan_batches, can_truncate_tail}
use Rounds.{Round, after, scan-Round, scan-inversion, Round-append}

module _ (topic : TopicId) (partition : ℕ) (final : Bool) where
  -- More fuel than there are bytes changes nothing.
  pub scan-fuel :
      (f g : ℕ) (s : Scan) (d : List ℕ)
      → length d < f
      → length d < g
      → scan_batches f topic partition final s d ≡ scan_batches g topic partition final s d
  unfolding scan_batches
  scan-fuel zero g s d hf hg = absurd (omega arith)
  scan-fuel (suc f) zero s d hf hg = absurd (omega arith)
  scan-fuel (suc f) (suc g) s [] hf hg = refl
  scan-fuel (suc f) (suc g) s (x ∷ xs) hf hg =
      let d = x ∷ xs in
      let n = u32 8 d in
      elim (Bool-cases (ltb n 52)) [
        | inl t ↦ rw t
        | inr t ↦ elim (Result-cases (decode_batch (slice 0 n d) topic partition)) [
          | inr (e, h) ↦ rw h
          | inl (b, h) ↦ rw (
            h,
            scan-fuel f g (after s d b) (drop n d)
                (omega (arith, length-drop n d, ltb-false→le n 52 t))
                (omega (arith, length-drop n d, ltb-false→le n 52 t)),
          )
        ]
      ]

  -- What was scanned without a torn tail is scanned so in front of anything.
  pub scan-append :
      (f : ℕ) (s s' : Scan) (d more : List ℕ)
      → length d < f
      → scan_batches f topic partition final s d ≡ ok (s', false)
      → (g h : ℕ) → length d + length more < g
      → length more < h
      → scan_batches g topic partition final s (d ++ more)
        ≡ scan_batches h topic partition final s' more
  scan-append zero s s' d more hf e g h hg hh = absurd (omega arith)
  scan-append (suc f) s s' [] more hf e g h hg hh =
      let q : s ≡ s' = unfold scan_batches in ground arith in
      rw q (scan-fuel g h s' more (omega arith) hh)
  scan-append (suc f) s s' (x ∷ xs) more hf e zero h hg hh = absurd (omega arith)
  scan-append (suc f) s s' (x ∷ xs) more hf e (suc g) h hg hh =
      let d = x ∷ xs in
      let (b, r, e1) = scan-inversion topic partition final f s s' d (omega arith) e in
      let (r', same, left) = Round-append topic partition final s d more b r in
      let shorter : length (drop (u32 8 d) d) + 52 ≤ length d =
        omega (arith, length-drop (u32 8 d) d, r.sized, r.fits) in
      scan-Round topic partition final g s (d ++ more) b r'
      ∙ rw (same, left)
          (scan-append f (after s d b) s' (drop (u32 8 d) d) more (omega (arith, shorter)) e1 g h
            (omega (arith, shorter)) hh)
