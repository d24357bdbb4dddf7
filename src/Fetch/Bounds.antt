-- ===== src/Fetch/Bounds.antt =====
-- The limits that a fetch keeps.
use immulog.Prelude.{
  ℕ, zero, suc, ◌+◌, ◌-◌, ◌^◌, ◌%◌, ◌≤◌, ◌<◌, ◌≡◌, refl, sym, subst, Bool, true, false, List, [],
  ◌∷◌, ◌++◌, length, length-append, ltb, leb, ◌==◌, if◌then◌else◌, All, arith, Bool-cases, inl, inr,
}
use immulog.Api.{Record, FetchResult}
use immulog.Api.Errors.{Result, ok, err, >>=-eq-ok, ok-injective}
use immulog.Format.{max_batch_bytes, max_batch_records, segment_header_bytes}
use immulog.Partition.{Segment, Partition}
use immulog.Partition.Sizes.{record_encoded_bytes}
use immulog.Codec.Batch.{decode_batch}
use immulog.Fetch.{FetchOptions, normalize_fetch_options, take_records, with_record, bytes_left}
use immulog.Fetch.Scan.{OffsetIndexEntry, start_position, read_batch, fetch_batches, fetch_segments}

-- The encoded bytes of some records.
abbrev pub size_of : Result ℕ → ℕ
size_of (ok n) = n
size_of (err e) = 0

abbrev pub encoded_bytes : List Record → ℕ
encoded_bytes [] = 0
encoded_bytes (r ∷ rs) = size_of (record_encoded_bytes r) + encoded_bytes rs

pub encoded_bytes-append :
    (xs ys : List Record) → encoded_bytes (xs ++ ys) ≡ encoded_bytes xs + encoded_bytes ys
encoded_bytes-append [] ys = omega arith
encoded_bytes-append (x ∷ xs) ys = omega (arith, encoded_bytes-append xs ys)

-- The next offset behind the records, which is the given one where there are none.
abbrev pub next_behind : ℕ → List Record → ℕ
next_behind offset [] = offset
next_behind offset (r ∷ rs) = next_behind ((r.offset + 1) % 2 ^ 64) rs

pub next_behind-snoc :
    (offset : ℕ) (rs : List Record) (r : Record)
    → next_behind offset (rs ++ (r ∷ [])) ≡ (r.offset + 1) % 2 ^ 64
next_behind-snoc offset [] r = refl
next_behind-snoc offset (x ∷ xs) r = next_behind-snoc ((x.offset + 1) % 2 ^ 64) xs r

All-snoc :
    (offset : ℕ) (rs : List Record) (r : Record)
    → All (λ x. offset ≤ x.offset) rs
    → offset ≤ r.offset
    → All (λ x. offset ≤ x.offset) (rs ++ (r ∷ []))
All-snoc offset [] r a h = (h, tt)
All-snoc offset (x ∷ xs) r a h = (a.0, All-snoc offset xs r a.1 h)

-- What a fetch keeps of its limits: no more records and bytes than asked for, none in front of the
-- offset, and the next offset is the one behind the last record.
pub record IsBounded (o : FetchOptions) (offset : ℕ) (result : FetchResult) : Type 0 where
  pub few : length result.records ≤ o.max_records
  pub small : encoded_bytes result.records ≤ o.max_bytes
  pub ahead : All (λ r. offset ≤ r.offset) result.records
  pub next : result.next_offset ≡ next_behind offset result.records

-- The loops' invariant: the bytes are counted too.
abbrev pub Kept : FetchOptions → ℕ → FetchResult → ℕ → Type 0
Kept o offset result bytes = IsBounded o offset result × (bytes ≡ encoded_bytes result.records)

pub fits :
    (max bytes n : ℕ)
    → max < 2 ^ 64
    → bytes ≤ max
    → ltb ((max + (2 ^ 64 - bytes)) % 2 ^ 64) n ≡ false
    → bytes + n ≤ max
fits max bytes n h l e = ground arith

with_record-Kept :
    (o : FetchOptions) (offset : ℕ) (result : FetchResult) (bytes n : ℕ) (r : Record)
    → o.max_bytes < 2 ^ 64
    → Kept o offset result bytes
    → offset ≤ r.offset
    → length result.records < o.max_records
    → record_encoded_bytes r ≡ ok n
    → ltb (bytes_left o bytes) n ≡ false
    → Kept o offset (with_record result r) ((bytes + n) % 2 ^ 64)
with_record-Kept o offset result bytes n r w (k, c) ahead few size room =
    let sum : bytes + n ≤ o.max_bytes =
      fits o.max_bytes bytes n w (omega (arith, c, k.small)) room in
    let one : size_of (record_encoded_bytes r) ≡ n = rw size refl in
    let total = encoded_bytes-append result.records (r ∷ []) in
    (
      record {
        few = omega (arith, length-append result.records (r ∷ []), few);
        small = omega (arith, total, one, c, sum);
        ahead = All-snoc offset result.records r k.ahead ahead;
        next = sym (next_behind-snoc offset result.records r);
      },
      omega (arith, total, one, c, sum, w),
    )

-- The result of a loop.
abbrev Taken : Type 0
Taken = Bool × FetchResult × ℕ

abbrev KeptBy : FetchOptions → ℕ → Taken → Type 0
KeptBy o offset t = Kept o offset t.1 t.2

take_records-Kept :
    (o : FetchOptions) (offset : ℕ) (rs : List Record) (result : FetchResult) (bytes : ℕ)
    (t : Taken)
    → o.max_bytes < 2 ^ 64
    → Kept o offset result bytes
    → take_records o offset rs result bytes ≡ ok t
    → KeptBy o offset t
unfolding take_records
take_records-Kept o offset [] result bytes t w k e = subst (KeptBy o offset) (ok-injective e) k
take_records-Kept o offset (r ∷ rs) result bytes t w k e = elim (Bool-cases (ltb r.offset offset)) [
  | inl skip ↦ take_records-Kept o offset rs result bytes t w k (rw skip at e)
  | inr ahead ↦
      let e1 = rw ahead at e in
      elim (Bool-cases (leb o.max_records (length result.records))) [
        | inl full ↦ let e2 = rw full at e1 in subst (KeptBy o offset) (ok-injective e2) k
        | inr wanted ↦
            let e2 = rw wanted at e1 in
            let (n, size, e3) = >>=-eq-ok (record_encoded_bytes r) _ e2 in
            elim (Bool-cases (ltb (bytes_left o bytes) n)) [
              | inl over ↦
                  let e4 = rw over at e3 in
                  elim (Bool-cases (length result.records == 0)) [
                    | inl none_taken ↦ let e5 = rw none_taken at e4 in cc
                    | inr some_taken ↦
                        let e5 = rw some_taken at e4 in subst (KeptBy o offset) (ok-injective e5) k
                  ]
              | inr room ↦
                  take_records-Kept o offset rs (with_record result r) ((bytes + n) % 2 ^ 64) t w
                    (with_record-Kept o offset result bytes n r w k (ground arith) (ground arith)
                      size room)
                    (rw room at e3)
            ]
      ]
]

-- A loop that ends where a limit was reached, and goes on otherwise.
stop_or :
    (P : Taken → Type 0) (u t : Taken) (rest : Result Taken)
    → P u
    → (rest ≡ ok t → P t)
    → (if u.0 then ok (true, u.1, u.2) else rest) ≡ ok t
    → P t
stop_or P (true, r, n) t rest k go e = subst P (ok-injective e) k
stop_or P (false, r, n) t rest k go e = go e

fetch_batches-Kept :
    (fuel : ℕ) (p : Partition) (s : Segment) (o : FetchOptions) (offset position : ℕ)
    (result : FetchResult) (bytes : ℕ) (t : Taken)
    → o.max_bytes < 2 ^ 64
    → Kept o offset result bytes
    → fetch_batches fuel p s o offset position result bytes ≡ ok t
    → KeptBy o offset t
unfolding fetch_batches
fetch_batches-Kept zero p s o offset position result bytes t w k e =
    subst (KeptBy o offset) (ok-injective e) k
fetch_batches-Kept (suc fuel) p s o offset position result bytes t w k e =
    elim (Bool-cases (leb s.size position)) [
      | inl end ↦ let e1 = rw end at e in subst (KeptBy o offset) (ok-injective e1) k
      | inr more ↦
          let e1 = rw more at e in
          let (d, _, e2) = >>=-eq-ok (read_batch s position) _ e1 in
          let (b, _, e3) = >>=-eq-ok (decode_batch d p.topic p.partition) _ e2 in
          let (u, taken, e4) = >>=-eq-ok (take_records o offset b.records result bytes) _ e3 in
          let k' = take_records-Kept o offset b.records result bytes u w k taken in
          stop_or (KeptBy o offset) u t
            (fetch_batches fuel p s o offset (position + length d) u.1 u.2) k'
            (fetch_batches-Kept fuel p s o offset (position + length d) u.1 u.2 t w k') e4
    ]

pub fetch_segments-IsBounded :
    (hints : Segment → List OffsetIndexEntry) (p : Partition) (o : FetchOptions) (offset : ℕ)
    (ss : List Segment) (result : FetchResult) (bytes : ℕ) (r : FetchResult)
    → o.max_bytes < 2 ^ 64
    → Kept o offset result bytes
    → fetch_segments hints p o offset ss result bytes ≡ ok r
    → IsBounded o offset r
unfolding fetch_segments
fetch_segments-IsBounded hints p o offset [] result bytes r w k e =
    subst (IsBounded o offset) (ok-injective e) k.0
fetch_segments-IsBounded hints p o offset (s ∷ ss) result bytes r w k e =
    elim (Bool-cases (leb s.end offset)) [
      | inl behind ↦
          fetch_segments-IsBounded hints p o offset ss result bytes r w k (rw behind at e)
      | inr here ↦
          let e1 = rw here at e in
          let (position, _, e2) =
            >>=-eq-ok (start_position offset s.size (hints s) segment_header_bytes) _ e1 in
          let (u, scanned, e3) =
            >>=-eq-ok (fetch_batches (suc s.size) p s o offset position result bytes) _ e2 in
          let k' =
            fetch_batches-Kept (suc s.size) p s o offset position result bytes u w k scanned in
          elim (Bool-cases u.0) [
            | inl done ↦ let e4 = rw done at e3 in subst (IsBounded o offset) (ok-injective e4) k'.0
            | inr going ↦
                fetch_segments-IsBounded hints p o offset ss u.1 u.2 r w k' (rw going at e3)
          ]
    ]

pub normalized :
    (options o : FetchOptions)
    → normalize_fetch_options options ≡ ok o
    → (o.max_records ≤ max_batch_records) × (o.max_bytes ≤ max_batch_bytes)
unfolding normalize_fetch_options
normalized options o e = ground arith
