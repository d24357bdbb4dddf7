-- ===== src/Partition/Crash.antt =====
-- A crash in the middle of an append: the file of the active segment ends in a part of the batch.
use immulog.Prelude.{
  ℕ, suc, ◌-◌, ◌≤◌, ◌<◌, ◌≡◌, ◌∙◌, sym, refl, Bool, true, not, List, [], ◌∷◌, ◌++◌, length, drop,
  ltb_of_le, ltb_of_lt, !=_of_eq, ◌!=◌, ==_of_eq, leb_of_le, length-append, length-drop,
  drop-append_le, arith,
}
use immulog.Prelude.Int.{int_eq, int_of_uint64, min_int64}
use immulog.Api.{RecordBatch, TopicId}
use immulog.Api.Errors.{ok, err, corrupt, invalid_batch, >>=-eq-ok, reject_if-eq-ok}
use immulog.Format.{max_batch_bytes, max_batch_records, valid_offset_range}
use immulog.Format.LittleEndian.{
  slice, u16, u32, u64, bytes_eq, slice-append_le, u16-append_le, u32-append_le, u64-append_le,
  slice-front,
}
use immulog.Format.Checksum.{crc32c}
use immulog.Format.Segment.{decode_segment_header}
use immulog.Codec.Batch.{
  batch_magic, decode_batch, decode_records, check_batch_frame, check_batch_sizes,
}
use immulog.Partition.{Segment}
use immulog.Partition.Recover.{Scan, scan_start, scan_batches, can_truncate_tail, recover_segment}
use immulog.Partition.Resume.{scan-append}
use immulog.Partition.Durable.{IsDurable, scan_of, decoded_sizes}

-- What the header of a valid batch says.
record IsHeader (d : List ℕ) : Type 0 where
  magic : bytes_eq (slice 0 4 d) batch_magic ≡ true
  header_size : u16 6 d ≡ 48
  header_sum : u32 44 d ≡ crc32c (slice 0 44 d)
  version : u16 4 d ≡ 1
  encoding : u16 36 d ≡ 1
  flags : u32 32 d ≡ 0
  reserved : u16 38 d ≡ 0
  attributes : u32 40 d ≡ 0
  least : 80 ≤ u32 8 d
  most : u32 8 d ≤ max_batch_bytes
  some_records : 0 < u32 12 d
  few_records : u32 12 d ≤ max_batch_records
  in_range : valid_offset_range (u64 16 d) (u32 12 d) ≡ true

read-IsHeader :
    (d : List ℕ) (topic : TopicId)
    → check_batch_frame d topic ≡ ok tt
    → check_batch_sizes d ≡ ok tt
    → IsHeader d
unfolding check_batch_frame check_batch_sizes
read-IsHeader d topic f s = record {
  magic = ground arith;
  header_size = ground arith;
  header_sum = ground arith;
  version = ground arith;
  encoding = ground arith;
  flags = ground arith;
  reserved = ground arith;
  attributes = ground arith;
  least = ground arith;
  most = ground arith;
  some_records = ground arith;
  few_records = ground arith;
  in_range = ground arith;
}

-- The header of a batch that is cut behind its header is the batch's.
module _ (front back : List ℕ) (n : 48 ≤ length front) (h : IsHeader (front ++ back)) where
  IsHeader-torn : IsHeader front
  IsHeader-torn = record {
    magic = rw (slice-append_le 0 4 front back (omega (arith, n))) at h.magic;
    header_size = rw (u16-append_le 6 front back (omega (arith, n))) at h.header_size;
    header_sum =
        rw
          (
            u32-append_le 44 front back (omega (arith, n)),
            slice-append_le 0 44 front back (omega (arith, n)),
          )
          at h.header_sum;
    version = rw (u16-append_le 4 front back (omega (arith, n))) at h.version;
    encoding = rw (u16-append_le 36 front back (omega (arith, n))) at h.encoding;
    flags = rw (u32-append_le 32 front back (omega (arith, n))) at h.flags;
    reserved = rw (u16-append_le 38 front back (omega (arith, n))) at h.reserved;
    attributes = rw (u32-append_le 40 front back (omega (arith, n))) at h.attributes;
    least = rw (u32-append_le 8 front back (omega (arith, n))) at h.least;
    most = rw (u32-append_le 8 front back (omega (arith, n))) at h.most;
    some_records = rw (u32-append_le 12 front back (omega (arith, n))) at h.some_records;
    few_records = rw (u32-append_le 12 front back (omega (arith, n))) at h.few_records;
    in_range =
        rw
          (
            u64-append_le 16 front back (omega (arith, n)),
            u32-append_le 12 front back (omega (arith, n)),
          )
          at h.in_range;
  }

can_truncate-torn :
    (d : List ℕ) (expected : ℕ)
    → IsHeader d
    → 48 ≤ length d
    → u64 16 d ≡ expected
    → length d < u32 8 d
    → can_truncate_tail d expected ≡ true
unfolding can_truncate_tail
can_truncate-torn d expected h n base short =
    rw
      (
        leb_of_le 48 (length d) n,
        h.magic,
        ==_of_eq (u16 6 d) 48 h.header_size,
        ==_of_eq (u32 44 d) (crc32c (slice 0 44 d)) h.header_sum,
        ==_of_eq (u16 4 d) 1 h.version,
        ==_of_eq (u16 36 d) 1 h.encoding,
        ==_of_eq (u32 32 d) 0 h.flags,
        ==_of_eq (u16 38 d) 0 h.reserved,
        ==_of_eq (u32 40 d) 0 h.attributes,
      )
      (rw (
        leb_of_le 80 (u32 8 d) h.least,
        leb_of_le (u32 8 d) max_batch_bytes h.most,
        ltb_of_lt 0 (u32 12 d) h.some_records,
        leb_of_le (u32 12 d) max_batch_records h.few_records,
        h.in_range,
        ==_of_eq (u64 16 d) expected base,
        ltb_of_lt (length d) (u32 8 d) short,
      ))

decoded-IsHeader :
    (d : List ℕ) (topic : TopicId) (partition : ℕ) {b : RecordBatch}
    → decode_batch d topic partition ≡ ok b
    → IsHeader d × (u64 16 d ≡ b.base_offset)
unfolding decode_batch
decoded-IsHeader d topic partition e =
    let (_, f, e1) = >>=-eq-ok (check_batch_frame d topic) _ e in
    let (_, s, e2) = >>=-eq-ok (check_batch_sizes d) _ e1 in
    let ((rs, m, rest), e3, e4) =
      >>=-eq-ok
        (decode_records (u64 16 d) topic partition 0 (u32 12 d) min_int64
          (slice 48 (length d - 4 - 48) d))
        _ e2 in
    let (_, e5) = reject_if-eq-ok (length rest != 0) _ _ e4 in
    let (_, e6) = reject_if-eq-ok (not (int_eq (int_of_uint64 (u64 24 d)) m)) _ _ e5 in
    (read-IsHeader d topic f s, ground arith)

-- The scan of the part of a batch that was written.
module _ (topic : TopicId) (partition fuel : ℕ) (s : Scan) where
  scan-torn :
      (d : List ℕ)
      → 48 ≤ length d
      → length d < u32 8 d
      → can_truncate_tail d s.current ≡ true
      → scan_batches (suc fuel) topic partition true s d ≡ ok (s, true)
  unfolding scan_batches
  scan-torn [] n short t = absurd (omega arith)
  scan-torn (x ∷ xs) n short t =
      rw (ltb_of_le (length (x ∷ xs)) 48 n, ltb_of_lt (length (x ∷ xs)) (u32 8 (x ∷ xs)) short, t)

  scan-partial_header :
      (d : List ℕ) (final : Bool)
      → 1 ≤ length d
      → length d < 48
      → scan_batches (suc fuel) topic partition final s d
        ≡ err (corrupt invalid_batch "partial batch header")
  unfolding scan_batches
  scan-partial_header [] final n short = absurd (omega arith)
  scan-partial_header (x ∷ xs) final n short = rw (ltb_of_lt (length (x ∷ xs)) 48 short)

module _ (s : Segment) (h : IsDurable s) (tail : List ℕ) where
  -- Recovery of the file with a tail behind the segment's bytes scans the tail.
  scan-tail :
      (final : Bool)
      → scan_batches
          (suc (length (s.content ++ tail)))
          s.header.topic
          s.header.partition
          final
          (scan_start s.header.base_offset)
          (drop 72 (s.content ++ tail))
        ≡ scan_batches (suc (length tail)) s.header.topic s.header.partition final (scan_of s) tail
  scan-tail final =
      let body = length-drop 72 s.content in
      let whole = length-append s.content tail in
      rw (drop-append_le 72 s.content tail h.long) (
        scan-append s.header.topic s.header.partition final (suc (length s.content))
          (scan_start s.header.base_offset) (scan_of s) (drop 72 s.content) tail
          (omega (arith, body)) (h.scanned final) (suc (length (s.content ++ tail)))
          (suc (length tail)) (omega (arith, body, whole)) (omega arith))

  header-tail :
      (decode_segment_header (slice 0 72 (s.content ++ tail)) s.header.topic s.header.partition
        ≡ ok s.header)
      × (72 ≤ length (s.content ++ tail))
  header-tail = (
    rw (slice-append_le 0 72 s.content tail h.long) h.header_read,
    omega (arith, h.long, length-append s.content tail),
  )

-- A crash that leaves the header of a batch and a part of the rest loses that batch and nothing
-- else: reopening cuts the part off and finds the segment as it was before the append.
pub recover-torn :
    (s : Segment) (b : RecordBatch) (front back : List ℕ)
    → IsDurable s
    → decode_batch (front ++ back) s.header.topic s.header.partition ≡ ok b
    → b.base_offset ≡ s.end
    → 48 ≤ length front
    → 1 ≤ length back
    → recover_segment
        (s.content ++ front)
        s.header.base_offset
        s.header.topic
        s.header.partition
        true
        s.header.base_offset
      ≡ ok s
unfolding recover_segment
recover-torn s b front back h decoded next n m =
    let (read, long) = header-tail s h front in
    let (head, base) = decoded-IsHeader (front ++ back) s.header.topic s.header.partition decoded in
    let (_, size) = decoded_sizes (front ++ back) s.header.topic s.header.partition decoded in
    let word = u32-append_le 8 front back (omega (arith, n)) in
    let short : length front < u32 8 front =
      omega (arith, size, word, length-append front back, m) in
    let at : u64 16 front ≡ s.end =
      sym (u64-append_le 16 front back (omega (arith, n))) ∙ base ∙ next in
    let t = can_truncate-torn front s.end (IsHeader-torn front back n head) n at short in
    rw (ltb_of_le (length (s.content ++ front)) 72 long, read)
      (rw
        (
          !=_of_eq s.header.base_offset s.header.base_offset refl,
          scan-tail s h front true,
          scan-torn s.header.topic s.header.partition (length front) (scan_of s) front n short t,
        )
        (rw (slice-front s.content front s.size h.sized)))

-- A crash that leaves a part of a batch header behind the segment makes recovery refuse the
-- segment as corrupt, whether it is the last one or not.
pub recover-partial_header :
    (s : Segment) (front : List ℕ) (final : Bool)
    → IsDurable s
    → 1 ≤ length front
    → length front < 48
    → recover_segment
        (s.content ++ front)
        s.header.base_offset
        s.header.topic
        s.header.partition
        final
        s.header.base_offset
      ≡ err (corrupt invalid_batch "partial batch header")
unfolding recover_segment
recover-partial_header s front final h n short =
    let (read, long) = header-tail s h front in
    rw (ltb_of_le (length (s.content ++ front)) 72 long, read)
      (rw (
        !=_of_eq s.header.base_offset s.header.base_offset refl,
        scan-tail s h front final,
        scan-partial_header s.header.topic s.header.partition (length front) (scan_of s) front final
            n short,
      ))
