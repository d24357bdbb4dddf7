-- ===== src/Codec/Sound.antt =====
-- What a decoded batch guarantees, whatever the bytes.
use immulog.Prelude.{
  ℕ, zero, suc, ◌+◌, ◌-◌, ◌≤◌, ◌≡◌, refl, true, false, not, ◌||◌, some, List, [], ◌∷◌, length, drop,
  ltb, ◌!=◌, arith,
}
use immulog.Prelude.Int.{ℤ, min_int64, int_eq, int_of_uint64}
use immulog.Api.{Record, RecordBatch, TopicId, is_zero}
use immulog.Api.Errors.{ok, >>=-eq-ok, reject_if-eq-ok}
use immulog.Format.{
  max_offset, max_batch_records, max_batch_bytes, valid_offset_range, record_prefix_bytes,
  max_record_headers,
}
use immulog.Format.LittleEndian.{slice, u32, u64}
use immulog.Format.Checksum.{crc32c}
use immulog.Codec.Cursor.{read_nullable}
use immulog.Codec.Record.{read_fields, read_headers, decode_prefixed, unexpected}
use immulog.Codec.Batch.{later, decode_records, check_batch_frame, check_batch_sizes, decode_batch}

-- The records carry the batch's topic and partition, and their offsets count up from `next`.
abbrev pub Consecutive : TopicId → ℕ → ℕ → List Record → Type 0
Consecutive topic partition next [] = Unit
Consecutive topic partition next (r ∷ rs) =
    (r.topic ≡ topic)
    × (r.partition ≡ partition)
    × (r.offset ≡ next)
    × Consecutive topic partition (next + 1) rs

module _ (base : ℕ) (topic : TopicId) (partition : ℕ) where
  read_fields-identity :
      (body : List ℕ) {r : Record}
      → read_fields body base topic partition ≡ ok r
      → (r.topic ≡ topic) × (r.partition ≡ partition) × (r.offset ≡ base + u32 4 body)
  unfolding read_fields
  read_fields-identity body e =
      let ((key, c1), _, e1) = >>=-eq-ok (read_nullable (drop record_prefix_bytes body)) _ e in
      let ((value, c2), _, e2) = >>=-eq-ok (read_nullable c1) _ e1 in
      let ((hs, c3), _, e3) = >>=-eq-ok (read_headers (u32 24 body) c2) _ e2 in
      let (_, e4) = reject_if-eq-ok (length c3 != 0) _ _ e3 in ground arith

  decode_prefixed-identity :
      (d : List ℕ) (index : ℕ) {r : Record} {n : ℕ}
      → decode_prefixed d base topic partition (some index) ≡ ok (r, n)
      → (r.topic ≡ topic) × (r.partition ≡ partition) × (r.offset ≡ base + index)
  unfolding decode_prefixed
  decode_prefixed-identity d index {r} {n} e =
      let b = slice 0 (u32 0 d) d in
      let (_, e1) = reject_if-eq-ok (ltb (length d) 28) _ _ e in
      let (_, e2) = reject_if-eq-ok (ltb (u32 0 d) 28 || ltb 16777216 (u32 0 d)) _ _ e1 in
      let (_, e3) = reject_if-eq-ok (ltb (length d) (u32 0 d)) _ _ e2 in
      let (x, e4) = reject_if-eq-ok (unexpected (some index) (u32 4 b)) _ _ e3 in
      let (_, e5) =
        reject_if-eq-ok (ltb max_offset base || ltb (max_offset - base) (u32 4 b)) _ _ e4 in
      let (_, e6) = reject_if-eq-ok (ltb max_record_headers (u32 24 b)) _ _ e5 in
      let (r', e7, e8) = >>=-eq-ok (read_fields b base topic partition) _ e6 in
      let delta : u32 4 b ≡ index = unfold unexpected in ground arith in
      let same : r' ≡ r = ground arith in rw (← same, ← delta) (read_fields-identity b e7)

  decode_records-Consecutive :
      (index count : ℕ) (m : ℤ) (body : List ℕ) {rs : List Record} {m' : ℤ} {rest : List ℕ}
      → decode_records base topic partition index count m body ≡ ok (rs, m', rest)
      → (length rs ≡ count) × Consecutive topic partition (base + index) rs
  unfolding decode_records
  decode_records-Consecutive index zero m body {rs} e =
      let q : [] ≡ rs = ground arith in rw (← q) (refl, tt)
  decode_records-Consecutive index (suc count) m body {rs} e =
      let n = u32 0 body in
      let (_, e1) = reject_if-eq-ok (ltb (length body) 28) _ _ e in
      let (_, e2) = reject_if-eq-ok (ltb n 28 || ltb (length body) n) _ _ e1 in
      let ((r, c), e3, e4) =
        >>=-eq-ok (decode_prefixed (slice 0 n body) base topic partition (some index)) _ e2 in
      let (_, e5) = reject_if-eq-ok (c != n) _ _ e4 in
      let ((rs', m', rest'), e6, e7) =
        >>=-eq-ok
          (decode_records base topic partition (index + 1) count (later r.timestamp m)
            (drop n body))
          _ e5 in
      let (size, all) =
        decode_records-Consecutive (index + 1) count (later r.timestamp m) (drop n body) e6 in
      let (tp, pp, op) = decode_prefixed-identity (slice 0 n body) index e3 in
      let q : r ∷ rs' ≡ rs = ground arith in
      let shift : base + index + 1 ≡ base + (index + 1) = omega arith in
      rw (← q) (omega (arith, size), (tp, pp, op, rw shift all))

sizes_hold :
    (d : List ℕ)
    → check_batch_sizes d ≡ ok tt
    → (length d ≡ u32 8 d)
      × (length d ≤ max_batch_bytes)
      × (1 ≤ u32 12 d)
      × (u32 12 d ≤ max_batch_records)
      × (valid_offset_range (u64 16 d) (u32 12 d) ≡ true)
      × (u32 (length d - 4) d ≡ crc32c (slice 0 (length d - 4) d))
unfolding check_batch_sizes
sizes_hold d e = ground arith

range_end :
    (base count : ℕ)
    → count ≤ max_batch_records
    → valid_offset_range base count ≡ true
    → base + count ≤ max_offset
unfolding valid_offset_range
range_end base count h e = ground arith

header_sum :
    (d : List ℕ) (topic : TopicId)
    → check_batch_frame d topic ≡ ok tt
    → (u32 44 d ≡ crc32c (slice 0 44 d)) × (is_zero topic ≡ false)
unfolding check_batch_frame
header_sum d topic e = ground arith

-- What a decoded batch and its bytes have.
abbrev pub IsDecoded : List ℕ → TopicId → ℕ → RecordBatch → Type 0
IsDecoded d topic partition b =
    (b.topic ≡ topic)
    × (b.partition ≡ partition)
    × Consecutive topic partition b.base_offset b.records
    × (1 ≤ length b.records)
    × (length b.records ≤ max_batch_records)
    × (b.base_offset + length b.records ≤ max_offset)
    × (length d ≡ u32 8 d)
    × (u32 44 d ≡ crc32c (slice 0 44 d))
    × (u32 (length d - 4) d ≡ crc32c (slice 0 (length d - 4) d))
    × (is_zero topic ≡ false)

-- A batch that decodes has the given topic and partition, from 1 to 65536 records whose offsets
-- count up from the base offset and end in range, and comes from bytes whose length is the one
-- they declare and whose two checksums hold; the topic is not zero.
pub decode_batch_valid :
    (d : List ℕ) (topic : TopicId) (partition : ℕ) {b : RecordBatch}
    → decode_batch d topic partition ≡ ok b
    → IsDecoded d topic partition b
unfolding decode_batch
decode_batch_valid d topic partition {b} e =
    let (_, f, e1) = >>=-eq-ok (check_batch_frame d topic) _ e in
    let (_, s, e2) = >>=-eq-ok (check_batch_sizes d) _ e1 in
    let ((rs, m, rest), e3, e4) =
      >>=-eq-ok
        (decode_records (u64 16 d) topic partition 0 (u32 12 d) min_int64
          (slice 48 (length d - 4 - 48) d))
        _ e2 in
    let (_, e5) = reject_if-eq-ok (length rest != 0) _ _ e4 in
    let (_, e6) = reject_if-eq-ok (not (int_eq (int_of_uint64 (u64 24 d)) m)) _ _ e5 in
    let (size, all) =
      decode_records-Consecutive (u64 16 d) topic partition 0 (u32 12 d) min_int64 _ e3 in
    let (total, _, lo, hi, range, sum) = sizes_hold d s in
    let (head, named) = header_sum d topic f in
    let zero_in : u64 16 d + 0 ≡ u64 16 d = omega arith in
    let end : u64 16 d + u32 12 d ≤ max_offset = range_end (u64 16 d) (u32 12 d) hi range in
    let q : b
        ≡ record { topic = topic; partition = partition; base_offset = u64 16 d; records = rs } =
      ground arith in
    rw q (
      refl,
      refl,
      rw zero_in at all,
      omega (arith, size),
      omega (arith, size),
      omega (arith, size),
      total,
      head,
      sum,
      named,
    )
