-- ===== src/Codec/BatchTrip/Records.antt =====
-- The records of a batch: the loops of `EncodeBatch` and `DecodeBatch` undo one another.
use immulog.Prelude.{
  ℕ, suc, ◌+◌, ◌-◌, ◌*◌, ◌≤◌, ◌≡◌, refl, ap, ◌∙◌, false, some, List, [], ◌∷◌, ◌++◌, length, drop,
  append_assoc, append-nil, ltb_of_le, !=_of_eq, length-append, drop-append, All, arith,
}
use immulog.Prelude.Arrays.{array_eq→eq}
use immulog.Prelude.Int.{ℤ, IsInt64}
use immulog.Api.{Record, RecordBatch, TopicId}
use immulog.Api.Errors.{ok, ◌>>=◌, >>=-eq-ok, reject_if-eq-ok}
use immulog.Format.{max_offset, record_prefix_bytes}
use immulog.Format.LittleEndian.{u32, un_le-le_4, slice-front}
use immulog.Codec.Record.{encode_record, unexpected}
use immulog.Codec.RecordTrip.{decode_prefixed-encoded}
use immulog.Codec.RecordTrip.Layout.{Encodable, sealed_prefix, payload, encoded}
use immulog.Codec.Batch.{misplaced, later, encode_records, decode_records}

drop-append_eq : (xs ys : List ℕ) (n : ℕ) → n ≡ length xs → drop n (xs ++ ys) ≡ ys
drop-append_eq xs ys n e = rw e (drop-append xs ys)

-- One round of the decoder's loop on an encoded record.
decode_records_step :
    (r : Record) (base index count : ℕ) (m : ℤ) (more : List ℕ)
    → Encodable r base
    → IsInt64 r.timestamp
    → r.offset - base ≡ index
    → decode_records base r.topic r.partition index
        (suc count)
        m
        ((sealed_prefix r base (28 + length (payload r)) ++ payload r) ++ more)
      ≡ (do
        (rs, m', rest) ←
            decode_records base r.topic r.partition (index + 1) count (later r.timestamp m) more
        ok (r ∷ rs, m', rest))
unfolding decode_records
decode_records_step r base index count m more e h i =
    let n = 28 + length (payload r) in
    let x = sealed_prefix r base n ++ payload r in
    let size : n ≡ length x = omega arith in
    let word : u32 0 (x ++ more) ≡ n = unfold u32 in un_le-le_4 n (omega (arith, e.4)) in
    let total = length-append x more in
    let expected : unexpected (some index) (r.offset - base) ≡ false =
      unfold unexpected in !=_of_eq _ _ i in
    rw (ltb_of_le (length (x ++ more)) record_prefix_bytes (omega (arith, total, size)), word)
      (rw
        (
          ltb_of_le n record_prefix_bytes (omega arith),
          ltb_of_le (length (x ++ more)) n (omega (arith, total, size)),
          slice-front x more n size,
          drop-append_eq x more n size,
        )
        (rw (decode_prefixed-encoded r base (some index) e h expected) (rw (!=_of_eq n n refl))))

-- The same round, for a batch with the record's topic and partition.
decode_records_in_batch :
    (r : Record) (base : ℕ) (topic : TopicId) (partition index count : ℕ) (m : ℤ) {bytes : List ℕ}
    (tail rest : List ℕ) (rs : List Record) (m' : ℤ)
    → r.topic ≡ topic
    → r.partition ≡ partition
    → Encodable r base
    → bytes ≡ sealed_prefix r base (28 + length (payload r)) ++ payload r
    → IsInt64 r.timestamp
    → r.offset - base ≡ index
    → decode_records base topic partition (index + 1) count (later r.timestamp m) (tail ++ rest)
      ≡ ok (rs, m', rest)
    → decode_records base topic partition index (suc count) m ((bytes ++ tail) ++ rest)
      ≡ ok (r ∷ rs, m', rest)
decode_records_in_batch r base topic partition index count m {bytes} tail rest rs m' tp pp v
      bytes-eq h i trip =
    rw (append_assoc bytes tail rest, bytes-eq, ← tp, ← pp)
      (decode_records_step r base index count m (tail ++ rest) v h i ∙ rw (tp, pp) (rw trip))

placed :
    (b : RecordBatch) (index : ℕ) (r : Record)
    → misplaced b index r ≡ false
    → b.base_offset + index ≤ max_offset
    → (r.topic ≡ b.topic) × (r.partition ≡ b.partition) × (r.offset ≡ b.base_offset + index)
unfolding misplaced
placed b index r h le = ground (arith, array_eq→eq 16 r.topic b.topic)

abbrev pub IsTimed : List Record → Type 0
IsTimed = All (λ r. IsInt64 r.timestamp)

-- What the decoder's loop returns on the bytes that the encoder's loop appends.
pub decode-encode_records :
    (b : RecordBatch) (index : ℕ) (m : ℤ) (front : List ℕ) (rs : List Record) {body : List ℕ}
    {m' : ℤ}
    → encode_records b index m front rs ≡ ok (body, m')
    → IsTimed rs
    → b.base_offset + index + length rs ≤ max_offset
    → (tail : List ℕ) × (body ≡ front ++ tail)
      × ((rest : List ℕ)
          → decode_records b.base_offset b.topic b.partition index (length rs) m (tail ++ rest)
            ≡ ok (rs, m', rest))
      × (record_prefix_bytes * length rs ≤ length tail)
unfolding encode_records
decode-encode_records b index m front [] e t le = (
  [],
  ground (arith, append-nil front),
  (λ rest. unfold decode_records in ground arith),
  omega arith,
)
decode-encode_records b index m front (r ∷ rs) {body} {m'} e t le =
    let (fits, e1) = reject_if-eq-ok (misplaced b index r) _ _ e in
    let (bytes, e2, e3) = >>=-eq-ok (encode_record r b.base_offset) _ e1 in
    let (v, bytes-eq) = encoded r b.base_offset e2 in
    let (topic, partition, offset) = placed b index r fits (omega arith) in
    let (tail, body-eq, trip, size) =
      decode-encode_records b (index + 1) (later r.timestamp m) (front ++ bytes) rs e3 t.1
        (omega arith) in
    let at : r.offset - b.base_offset ≡ index = omega (arith, offset) in
    (
      bytes ++ tail,
      body-eq ∙ append_assoc front bytes tail,
      (λ rest.
          decode_records_in_batch r b.base_offset b.topic b.partition index (length rs) m tail rest
            rs m' topic partition v bytes-eq t.0 at (trip rest)),
      omega (arith, size, length-append bytes tail, ap length bytes-eq),
    )
