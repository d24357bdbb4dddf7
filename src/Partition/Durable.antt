-- ===== src/Partition/Durable.antt =====
-- A segment that recovery rebuilds from its file.
use immulog.Prelude.{
  ℕ, suc, ◌≤◌, ◌≡◌, ◌∙◌, sym, refl, Bool, false, not, ◌&&◌, List, [], ◌++◌, length, drop, ltb_of_le,
  !=_of_eq, ◌==◌, length-append, length-drop, drop-append_le, drop-append, append-nil, arith,
}
use immulog.Prelude.Int.{int_of_uint64}
use immulog.Api.{RecordBatch, TopicId}
use immulog.Api.Errors.{ok, >>=-eq-ok}
use immulog.Format.LittleEndian.{slice, u32, u64, slice-append_le, slice-whole, slice-front}
use immulog.Format.Segment.{decode_segment_header}
use immulog.Codec.Batch.{decode_batch, check_batch_sizes, check_batch_frame}
use immulog.Partition.{Segment}
use immulog.Partition.Recover.{Scan, scan_start, advance, scan_batches, recover_segment}
use immulog.Partition.Append.{extend}
use immulog.Partition.Resume.{scan-append}
use immulog.Partition.Resume.Rounds.{Round, after, scan-Round}

-- The scan's variables at the end of a segment.
abbrev pub scan_of : Segment → Scan
scan_of s = record {
  current = s.end;
  position = s.size;
  records = s.records;
  max_time = s.max_time;
  batches = s.batches;
}

-- The file holds the header and whole batches, and scanning it gives the segment's variables.
pub record IsDurable (s : Segment) : Type 0 where
  pub long : 72 ≤ length s.content
  pub sized : s.size ≡ length s.content
  pub header_read :
      decode_segment_header (slice 0 72 s.content) s.header.topic s.header.partition ≡ ok s.header
  pub scanned :
      (final : Bool)
      → scan_batches
          (suc (length s.content))
          s.header.topic
          s.header.partition
          final
          (scan_start s.header.base_offset)
          (drop 72 s.content)
        ≡ ok (scan_of s, false)

-- Recovery of a durable segment returns the segment.
pub recover-IsDurable :
    (s : Segment) (final : Bool)
    → IsDurable s
    → not final && s.records == 0 ≡ false
    → recover_segment s.content s.header.base_offset s.header.topic s.header.partition final
        s.header.base_offset
      ≡ ok s
unfolding recover_segment
recover-IsDurable s final h e =
    rw (ltb_of_le (length s.content) 72 h.long, h.header_read)
      (rw (!=_of_eq s.header.base_offset s.header.base_offset refl, h.scanned final)
        (rw e (rw (slice-whole s.content s.size h.sized))))

encoded_sizes : (d : List ℕ) → check_batch_sizes d ≡ ok tt → (80 ≤ length d) × (length d ≡ u32 8 d)
unfolding check_batch_sizes
encoded_sizes d e = ground arith

pub decoded_sizes :
    (d : List ℕ) (topic : TopicId) (partition : ℕ) {b : RecordBatch}
    → decode_batch d topic partition ≡ ok b
    → (80 ≤ length d) × (length d ≡ u32 8 d)
unfolding decode_batch
decoded_sizes d topic partition e =
    let (_, f, e1) = >>=-eq-ok (check_batch_frame d topic) _ e in
    let (_, s, e2) = >>=-eq-ok (check_batch_sizes d) _ e1 in encoded_sizes d s

-- A decodable batch in front of anything is read whole by the next round of the scan.
pub batch-Round :
    (s : Scan) (e more : List ℕ) (topic : TopicId) (partition : ℕ) (b : RecordBatch)
    → decode_batch e topic partition ≡ ok b
    → b.base_offset ≡ s.current
    → Round topic partition s (e ++ more) b
      × (after s (e ++ more) b ≡ advance s (length e) b (int_of_uint64 (u64 24 e)))
      × (drop (u32 8 (e ++ more)) (e ++ more) ≡ more)
unfolding u32 u64
batch-Round s e more topic partition b h next =
    let (long, size) = decoded_sizes e topic partition h in
    let w : u32 8 (e ++ more) ≡ length e =
      rw (slice-append_le 8 4 e more (omega (arith, long))) (sym size) in
    let t : slice 24 8 (e ++ more) ≡ slice 24 8 e =
      slice-append_le 24 8 e more (omega (arith, long)) in
    let total = length-append e more in
    (
      record {
        header = omega (arith, total, long);
        fits = omega (arith, total, w);
        sized = omega (arith, w, long);
        decoded = rw w (rw (slice-front e more (length e) refl) h);
        next = next;
      },
      rw (w, t),
      rw w (drop-append e more),
    )

scan-one :
    (f : ℕ) (s : Scan) (e : List ℕ) (topic : TopicId) (partition : ℕ) (final : Bool)
    (b : RecordBatch)
    → decode_batch e topic partition ≡ ok b
    → b.base_offset ≡ s.current
    → scan_batches (suc (suc f)) topic partition final s e
      ≡ ok (advance s (length e) b (int_of_uint64 (u64 24 e)), false)
scan-one f s e topic partition final b h next =
    let (r, same, left) = batch-Round s e [] topic partition b h next in
    let step : scan_batches (suc (suc f)) topic partition final s (e ++ [])
        ≡ ok (advance s (length e) b (int_of_uint64 (u64 24 e)), false) =
      scan-Round topic partition final (suc f) s (e ++ []) b r
      ∙ rw (same, left) (unfold scan_batches in refl) in
    rw append-nil at step

-- A segment that is extended by a batch at its end is durable again: recovery finds the batch.
pub extend-IsDurable :
    (s : Segment) (b : RecordBatch) (e : List ℕ)
    → IsDurable s
    → decode_batch e s.header.topic s.header.partition ≡ ok b
    → b.base_offset ≡ s.end
    → IsDurable (extend s b e)
extend-IsDurable s b e h decoded next =
    let whole = length-append s.content e in
    let (long, _) = decoded_sizes e s.header.topic s.header.partition decoded in
    record {
      long = omega (arith, h.long, whole);
      sized = omega (arith, h.sized, whole);
      header_read = rw (slice-append_le 0 72 s.content e h.long) h.header_read;
      scanned = λ final.
          let body = length-drop 72 s.content in
          rw (drop-append_le 72 s.content e h.long) (
            scan-append s.header.topic s.header.partition final (suc (length s.content))
              (scan_start s.header.base_offset) (scan_of s) (drop 72 s.content) e
              (omega (arith, body)) (h.scanned final) (suc (length (s.content ++ e)))
              (suc (suc (length e))) (omega (arith, body, whole)) (omega arith)
            ∙ scan-one (length e) (scan_of s) e s.header.topic s.header.partition final b decoded
                next);
    }
