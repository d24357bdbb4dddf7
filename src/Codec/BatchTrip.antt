-- ===== src/Codec/BatchTrip.antt =====
-- Batches survive encoding and decoding.
pub mod Records
pub mod Parts
use immulog.Prelude.{
  ℕ, zero, suc, ◌+◌, ◌-◌, ◌*◌, ◌%◌, ◌<◌, ◌≤◌, ◌≡◌, ◌^◌, refl, sym, ap, ◌∙◌, Bool, true, false, not,
  ◌||◌, Option, none, some, List, [], ◌∷◌, ◌++◌, length, drop, append_assoc, append-nil, ltb, leb,
  ltb_of_le, ltb-false→le, ==_of_ne, !=_of_eq, ◌!=◌, ◌==◌, length-append, take-append, drop-append,
  take-length, Bool-cases, inl, inr, All, arith,
}
use immulog.Prelude.Arrays.{array_eq, array_eq→eq}
use immulog.Prelude.Int.{
  ℤ, IsInt64, min_int64, uint64_of_int, uint64_of_int-lt, int_of_uint64, int_of_uint64_of_int,
  int_eq_refl, int_lt,
}
use immulog.Api.{Record, RecordBatch, TopicId, is_zero}
use immulog.Api.Errors.{Result, ok, reject_if, ◌>>=◌, ◌>>◌, >>=-eq-ok, reject_if-eq-ok}
use immulog.Format.{
  max_offset, record_prefix_bytes, max_batch_records, max_batch_bytes, max_uint32,
  batch_header_bytes, batch_trailer_bytes, valid_offset_range,
}
use immulog.Format.LittleEndian.{
  le, slice, u16, u32, u64, un_le-le_4, un_le-le_8, bytes_eq, slice-front,
}
use immulog.Format.Checksum.{crc32c, crc32c-lt}
use immulog.Codec.Record.{encode_record}
use immulog.Codec.Batch.{
  later, misplaced, encode_records, decode_records, unsealed_batch_header, batch_header,
  encode_batch, check_batch_frame, check_batch_sizes, decode_batch,
}
use Records.{IsTimed, decode-encode_records}
use Parts.{Layout, encode_batch-Layout}

module _ (b : RecordBatch) (m : ℤ) (total : ℕ) (rest : List ℕ) where
  frame :
      is_zero b.topic ≡ false → check_batch_frame (batch_header b m total ++ rest) b.topic ≡ ok tt
  unfolding check_batch_frame bytes_eq u16 u32 slice
  frame h = ground (
    arith,
    un_le-le_4 (crc32c (slice 0 44 (unsealed_batch_header b m total))),
    crc32c-lt (slice 0 44 (unsealed_batch_header b m total)),
  )

  word_total : total < 2 ^ 32 → u32 8 (batch_header b m total ++ rest) ≡ total
  unfolding u32
  word_total h = un_le-le_4 total h

  word_count :
      length b.records < 2 ^ 32 → u32 12 (batch_header b m total ++ rest) ≡ length b.records
  unfolding u32
  word_count h = un_le-le_4 (length b.records) h

  word_base : b.base_offset < 2 ^ 64 → u64 16 (batch_header b m total ++ rest) ≡ b.base_offset
  unfolding u64
  word_base h = un_le-le_8 b.base_offset h

  word_time : IsInt64 m → int_of_uint64 (u64 24 (batch_header b m total ++ rest)) ≡ m
  unfolding u64
  word_time h = rw (un_le-le_8 (uint64_of_int m) (uint64_of_int-lt m)) (int_of_uint64_of_int m h)

trailer-word :
    (front : List ℕ) (c n : ℕ) → n ≡ length front → c < 2 ^ 32 → u32 n (front ++ le 4 c) ≡ c
unfolding u32
trailer-word front c n e h = rw (e, drop-append front (le 4 c)) (un_le-le_4 c h)

body_slice :
    (b : RecordBatch) (m : ℤ) (total : ℕ) (body back : List ℕ) (n : ℕ)
    → n ≡ length body
    → slice 48 n ((batch_header b m total ++ body) ++ back) ≡ body
unfolding slice
body_slice b m total body back n e = rw e (take-append body back)

later-IsInt64 : (t m : ℤ) → IsInt64 t → IsInt64 m → IsInt64 (later t m)
unfolding later
later-IsInt64 t m ht hm = elim (Bool-cases (int_lt m t)) [ inl e ↦ rw e ht | inr e ↦ rw e hm ]

encode_records-IsInt64 :
    (b : RecordBatch) (index : ℕ) (m : ℤ) (front : List ℕ) (rs : List Record) {body : List ℕ}
    {m' : ℤ}
    → encode_records b index m front rs ≡ ok (body, m')
    → IsTimed rs
    → IsInt64 m
    → IsInt64 m'
unfolding encode_records
encode_records-IsInt64 b index m front [] {body} {m'} e t h =
    let q : m ≡ m' = ground arith in rw (← q) h
encode_records-IsInt64 b index m front (r ∷ rs) e t h =
    let (fits, e1) = reject_if-eq-ok (misplaced b index r) _ _ e in
    let (bytes, e2, e3) = >>=-eq-ok (encode_record r b.base_offset) _ e1 in
    encode_records-IsInt64 b (index + 1) (later r.timestamp m) (front ++ bytes) rs e3 t.1
      (later-IsInt64 r.timestamp m t.0 h)

range_bounds :
    (base count : ℕ)
    → count ≤ max_batch_records
    → valid_offset_range base count ≡ true
    → base + count ≤ max_offset
unfolding valid_offset_range
range_bounds base count h e = ground arith

module _ (b : RecordBatch) {d : List ℕ} (l : Layout b d) (timed : IsTimed b.records) where
  abbrev front : List ℕ
  front = batch_header b l.latest l.total ++ l.body

  abbrev back : List ℕ
  back = le 4 (crc32c front)

  range : b.base_offset + length b.records ≤ max_offset
  range = range_bounds b.base_offset (length b.records) l.few_records l.in_range

  front_size : length front + 4 ≡ l.total
  front_size = omega (arith, l.total_eq)

  size : length (front ++ back) ≡ l.total
  size = omega (arith, length-append front back, front_size)

  abbrev tail_of : List ℕ
  tail_of = l.body ++ back

  words :
      (u32 8 (front ++ back) ≡ l.total)
      × (u32 12 (front ++ back) ≡ length b.records)
      × (u64 16 (front ++ back) ≡ b.base_offset)
      × (int_of_uint64 (u64 24 (front ++ back)) ≡ l.latest)
  words = (
    word_total b l.latest l.total tail_of (omega (arith, l.small)),
    word_count b l.latest l.total tail_of (omega (arith, l.few_records)),
    word_base b l.latest l.total tail_of (omega (arith, range)),
    word_time b l.latest l.total tail_of
        (encode_records-IsInt64 b 0 min_int64 [] b.records l.records_eq timed (omega arith)),
  )

  minimal : 28 * length b.records ≤ length l.body
  minimal =
      let (tail, q, _, n) =
        decode-encode_records b 0 min_int64 [] b.records l.records_eq timed
          (omega (arith, range)) in
      omega (arith, n, ap length q)

  sizes : check_batch_sizes (front ++ back) ≡ ok tt
  unfolding check_batch_sizes
  sizes =
      let (wt, wc, wb, _) = words in
      let n : length (front ++ back) - 4 ≡ length front = omega (arith, size, front_size) in
      rw (wt, wc, wb)
        (rw
          (
            ==_of_ne (length b.records) 0 (omega (arith, l.some_records)),
            ltb_of_le max_batch_records (length b.records) l.few_records,
            ltb_of_le l.total 80 (omega (arith, minimal, l.total_eq, l.some_records)),
            ltb_of_le max_batch_bytes l.total l.small,
            l.in_range,
          )
          (rw (
            ltb_of_le (l.total - 48 - 4) (length b.records * 28)
                (omega (arith, minimal, l.total_eq)),
            !=_of_eq l.total (length (front ++ back)) (sym size),
            trailer-word front (crc32c front) (length (front ++ back) - 4) n (crc32c-lt front),
            slice-front front back (length (front ++ back) - 4) n,
            !=_of_eq (crc32c front) (crc32c front) refl,
          )))

  decoded : decode_batch (front ++ back) b.topic b.partition ≡ ok b
  unfolding decode_batch
  decoded =
      let (_, wc, wb, wt) = words in
      let n : length (front ++ back) - 4 - 48 ≡ length l.body = omega (arith, size, l.total_eq) in
      let (tail, q, trip, _) =
        decode-encode_records b 0 min_int64 [] b.records l.records_eq timed
          (omega (arith, range)) in
      let whole = rw (append-nil tail, ← q) at (trip []) in
      rw (frame b l.latest l.total tail_of l.named, sizes)
        (rw
          (
            wc,
            wb,
            wt,
            body_slice b l.latest l.total l.body back (length (front ++ back) - 4 - 48) n,
          )
          (rw whole (rw (int_eq_refl l.latest))))

-- Whatever batch `EncodeBatch` accepts, with int64 timestamps, `DecodeBatch` returns from the
-- bytes, given the batch's topic and partition.
pub decode-encode_batch :
    (b : RecordBatch) {d : List ℕ}
    → encode_batch b ≡ ok d
    → IsTimed b.records
    → decode_batch d b.topic b.partition ≡ ok b
decode-encode_batch b e timed = let l = encode_batch-Layout b e in rw l.bytes_eq (decoded b l timed)
