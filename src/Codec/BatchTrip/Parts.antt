-- ===== src/Codec/BatchTrip/Parts.antt =====
-- The layout of a batch's bytes.
use immulog.Prelude.{
  ℕ, ◌+◌, ◌≤◌, ◌≡◌, sym, Bool, true, false, not, ◌||◌, List, [], ◌++◌, length, ltb, ◌==◌, arith,
}
use immulog.Prelude.Int.{ℤ, min_int64}
use immulog.Api.{RecordBatch, is_zero}
use immulog.Api.Errors.{ok, >>=-eq-ok, reject_if-eq-ok, ok-injective}
use immulog.Format.{max_batch_records, max_batch_bytes, max_uint32, valid_offset_range}
use immulog.Format.LittleEndian.{le}
use immulog.Format.Checksum.{crc32c}
use immulog.Codec.Batch.{encode_records, batch_header, encode_batch}

-- What a batch that encodes satisfies, and the layout of its bytes.
pub record Layout (b : RecordBatch) (d : List ℕ) : Type 0 where
  pub body : List ℕ
  pub latest : ℤ
  pub total : ℕ
  pub total_eq : total ≡ 52 + length body
  pub small : total ≤ max_batch_bytes
  pub named : is_zero b.topic ≡ false
  pub some_records : 1 ≤ length b.records
  pub few_records : length b.records ≤ max_batch_records
  pub in_range : valid_offset_range b.base_offset (length b.records) ≡ true
  pub records_eq : encode_records b 0 min_int64 [] b.records ≡ ok (body, latest)
  pub bytes_eq :
      d
      ≡ (batch_header b latest total ++ body) ++ le 4 (crc32c (batch_header b latest total ++ body))

encodable :
    (zero_topic : Bool) (n : ℕ)
    → zero_topic || n == 0 || ltb max_batch_records n ≡ false
    → (zero_topic ≡ false) × (1 ≤ n) × (n ≤ max_batch_records)
encodable zero_topic n h = ground arith

not-true : (t : Bool) → not t ≡ false → t ≡ true
not-true t h = ground arith

small_total : (n : ℕ) → ltb max_batch_bytes n || ltb max_uint32 n ≡ false → n ≤ max_batch_bytes
small_total n h = ground arith

abbrev parts : RecordBatch → List ℕ → ℤ → List ℕ
parts b body m = batch_header b m (48 + length body + 4) ++ body

encoded-Layout :
    (b : RecordBatch) (d body : List ℕ) (m : ℤ)
    → is_zero b.topic || length b.records == 0 || ltb max_batch_records (length b.records) ≡ false
    → not (valid_offset_range b.base_offset (length b.records)) ≡ false
    → encode_records b 0 min_int64 [] b.records ≡ ok (body, m)
    → ltb max_batch_bytes (48 + length body + 4) || ltb max_uint32 (48 + length body + 4) ≡ false
    → parts b body m ++ le 4 (crc32c (parts b body m)) ≡ d
    → Layout b d
encoded-Layout b d body m t1 t2 e t3 q =
    let (named, some_records, few_records) = encodable (is_zero b.topic) (length b.records) t1 in
    record {
      body = body;
      latest = m;
      total = 48 + length body + 4;
      total_eq = omega arith;
      small = small_total (48 + length body + 4) t3;
      named = named;
      some_records = some_records;
      few_records = few_records;
      in_range = not-true (valid_offset_range b.base_offset (length b.records)) t2;
      records_eq = e;
      bytes_eq = sym q;
    }

pub encode_batch-Layout : (b : RecordBatch) {d : List ℕ} → encode_batch b ≡ ok d → Layout b d
unfolding encode_batch
encode_batch-Layout b {d} e =
    let (t1, e1) =
      reject_if-eq-ok
        (is_zero b.topic || length b.records == 0 || ltb max_batch_records (length b.records)) _ _
        e in
    let (t2, e2) =
      reject_if-eq-ok (not (valid_offset_range b.base_offset (length b.records))) _ _ e1 in
    let ((body, m), e3, e4) = >>=-eq-ok (encode_records b 0 min_int64 [] b.records) _ e2 in
    let (t3, e5) =
      reject_if-eq-ok
        (ltb max_batch_bytes (48 + length body + 4) || ltb max_uint32 (48 + length body + 4)) _ _
        e4 in
    encoded-Layout b d body m t1 t2 e3 t3 (ok-injective e5)
