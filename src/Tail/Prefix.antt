-- ===== src/Tail/Prefix.antt =====
-- The read of one batch of a tail takes the first records within the limits.
use immulog.Prelude.{
  ℕ, suc, ◌+◌, ◌-◌, ◌^◌, ◌%◌, ◌≤◌, ◌<◌, ◌≡◌, ◌≢◌, ◌∙◌, refl, sym, subst, true, false, ◌⊎◌, inl, inr,
  Option, none, some, some-injective, List, [], ◌∷◌, ◌++◌, append_assoc, append-nil, length,
  length-append, take, drop, ltb, leb, leb→le, ◌==◌, if◌then◌else◌, arith, Bool-cases,
}
use immulog.Api.{Record, FetchResult}
use immulog.Api.Errors.{Error, ok, Result-cases}
use immulog.Partition.Sizes.{record_encoded_bytes}
use immulog.Fetch.{FetchOptions, bytes_left, with_record}
use immulog.Fetch.Bounds.{
  size_of, encoded_bytes, encoded_bytes-append, next_behind, next_behind-snoc, fits,
}
use immulog.Tail.{TailAnswer, serve_records}

-- Why the answer ends in front of the records that are left: there are none, it has as many as asked
-- for, or the next one passes the byte limit, which is an error exactly where the answer is empty.
abbrev pub Ends : FetchOptions → TailAnswer → List Record → Type 0
Ends o (result, e) [] = e ≡ none
Ends o (result, e) (r ∷ rs) =
    ((o.max_records ≤ length result.records) × (e ≡ none))
    ⊎ ((o.max_bytes < encoded_bytes result.records + size_of (record_encoded_bytes r))
        × (((0 < length result.records) × (e ≡ none)) ⊎ ((result.records ≡ []) × (e ≢ none))))

-- An answer that goes on from some records by the first ones of a list, within the limits.
pub record IsPrefix (o : FetchOptions) (offset : ℕ) (before rs : List Record) (a : TailAnswer)
    : Type 0 where
  pub count : ℕ
  pub taken : a.0.records ≡ before ++ take count rs
  pub few : length a.0.records ≤ o.max_records
  pub small : encoded_bytes a.0.records ≤ o.max_bytes
  pub next : a.0.next_offset ≡ next_behind offset a.0.records
  pub ends : Ends o a (drop count rs)

-- The loop's invariant.
pub record IsCounted (o : FetchOptions) (offset : ℕ) (result : FetchResult) (bytes : ℕ)
    : Type 0 where
  pub few : length result.records ≤ o.max_records
  pub small : bytes ≤ o.max_bytes
  pub sum : bytes ≡ encoded_bytes result.records
  pub next : result.next_offset ≡ next_behind offset result.records

with_record-IsCounted :
    (o : FetchOptions) (offset : ℕ) (result : FetchResult) (bytes n : ℕ) (r : Record)
    → o.max_bytes < 2 ^ 64
    → IsCounted o offset result bytes
    → leb o.max_records (length result.records) ≡ false
    → record_encoded_bytes r ≡ ok n
    → ltb (bytes_left o bytes) n ≡ false
    → IsCounted o offset (with_record result r) ((bytes + n) % 2 ^ 64)
with_record-IsCounted o offset result bytes n r w k few size room =
    let within : bytes + n ≤ o.max_bytes = fits o.max_bytes bytes n w k.small room in
    let one : size_of (record_encoded_bytes r) ≡ n = rw size refl in
    let total = encoded_bytes-append result.records (r ∷ []) in
    let less : length result.records < o.max_records = ground arith in
    record {
      few = omega (arith, length-append result.records (r ∷ []), less);
      small = omega (arith, within, w);
      sum = omega (arith, total, one, within, w, k.sum);
      next = sym (next_behind-snoc offset result.records r);
    }

over_limit :
    (max bytes n : ℕ)
    → max < 2 ^ 64
    → bytes ≤ max
    → ltb ((max + (2 ^ 64 - bytes)) % 2 ^ 64) n ≡ true
    → max < bytes + n
over_limit max bytes n w h e = ground arith

-- The answer that stops in front of the list.
stop-IsPrefix :
    (o : FetchOptions) (offset : ℕ) (result : FetchResult) (bytes : ℕ) (rs : List Record)
    (e : Option Error)
    → IsCounted o offset result bytes
    → Ends o (result, e) rs
    → IsPrefix o offset result.records rs (result, e)
stop-IsPrefix o offset result bytes rs e k ends = record {
  count = 0;
  taken = sym (append-nil result.records);
  few = k.few;
  small = omega (arith, k.small, k.sum);
  next = k.next;
  ends = ends;
}

-- The answer with one record more.
later-IsPrefix :
    (o : FetchOptions) (offset : ℕ) (before rs : List Record) (r : Record) (a : TailAnswer)
    → IsPrefix o offset (before ++ (r ∷ [])) rs a
    → IsPrefix o offset before (r ∷ rs) a
later-IsPrefix o offset before rs r a k = record {
  count = suc k.count;
  taken = k.taken ∙ append_assoc before (r ∷ []) (take k.count rs);
  few = k.few;
  small = k.small;
  next = k.next;
  ends = k.ends;
}

empty_of_length : (rs : List Record) → (length rs == 0) ≡ true → rs ≡ []
empty_of_length [] e = refl
empty_of_length (r ∷ rs) e = ground arith

some≢none {ℓ} : {A : Type ℓ} {a : A} → some a ≢ none
some≢none e = cc

-- The answer where not one record fits.
refused-IsPrefix :
    (o : FetchOptions) (offset : ℕ) (before rs : List Record) (r : Record) (e : Error)
    → before ≡ []
    → o.max_bytes < encoded_bytes [] + size_of (record_encoded_bytes r)
    → IsPrefix o offset before (r ∷ rs) (record { records = []; next_offset = offset }, some e)
refused-IsPrefix o offset before rs r e none_taken over = record {
  count = 0;
  taken = rw none_taken refl;
  few = omega arith;
  small = omega arith;
  next = refl;
  ends = inr (over, inr (refl, some≢none));
}

over-IsPrefix :
    (o : FetchOptions) (offset : ℕ) (result : FetchResult) (bytes n : ℕ) (rs : List Record)
    (r : Record) (refusal : Error) (a : TailAnswer)
    → o.max_bytes < 2 ^ 64
    → IsCounted o offset result bytes
    → record_encoded_bytes r ≡ ok n
    → ltb (bytes_left o bytes) n ≡ true
    → (if length result.records == 0
        then some (record { records = []; next_offset = offset }, some refusal)
        else some (result, none))
      ≡ some a
    → IsPrefix o offset result.records (r ∷ rs) a
over-IsPrefix o offset result bytes n rs r refusal a w k size over h =
    let P = IsPrefix o offset result.records (r ∷ rs) in
    let one : size_of (record_encoded_bytes r) ≡ n = rw size refl in
    let past : o.max_bytes < encoded_bytes result.records + size_of (record_encoded_bytes r) =
      omega (arith, over_limit o.max_bytes bytes n w k.small over, k.sum, one) in
    elim (Bool-cases (length result.records == 0)) [
      | inl bare ↦
          let no_records = empty_of_length result.records bare in
          subst P (some-injective (rw bare at h)) (
            refused-IsPrefix o offset result.records rs r refusal no_records (
              subst (λ rs. o.max_bytes < encoded_bytes rs + size_of (record_encoded_bytes r))
                no_records past))
      | inr held ↦ subst P (some-injective (rw held at h)) (
          stop-IsPrefix o offset result bytes (r ∷ rs) none k
            (inr (past, inl (ground arith, refl))))
    ]

pub serve_records-IsPrefix :
    (o : FetchOptions) (offset : ℕ) (rs : List Record) (result : FetchResult) (bytes : ℕ)
    (a : TailAnswer)
    → o.max_bytes < 2 ^ 64
    → IsCounted o offset result bytes
    → serve_records o offset rs result bytes ≡ some a
    → IsPrefix o offset result.records rs a
unfolding serve_records
serve_records-IsPrefix o offset [] result bytes a w k e =
    subst (IsPrefix o offset result.records []) (some-injective e)
      (stop-IsPrefix o offset result bytes [] none k refl)
serve_records-IsPrefix o offset (r ∷ rs) result bytes a w k e =
    let P = IsPrefix o offset result.records (r ∷ rs) in
    elim (Result-cases (record_encoded_bytes r)) [
      | inr (x, failed) ↦ let e1 = rw (serve_records, failed) at e in cc
      | inl (n, size) ↦
          let e1 = rw (serve_records, size) at e in
          elim (Bool-cases (leb o.max_records (length result.records))) [
            | inl full ↦
                let e2 = rw full at e1 in
                subst P (some-injective e2) (
                  stop-IsPrefix o offset result bytes (r ∷ rs) none k (inl (leb→le _ _ full, refl)))
            | inr wanted ↦
                let e2 = rw wanted at e1 in
                elim (Bool-cases (ltb (bytes_left o bytes) n)) [
                  | inl over ↦
                      over-IsPrefix o offset result bytes n rs r _ a w k size over (rw over at e2)
                  | inr room ↦ later-IsPrefix o offset result.records rs r a (
                      serve_records-IsPrefix o offset rs (with_record result r)
                        ((bytes + n) % 2 ^ 64) a w
                        (with_record-IsCounted o offset result bytes n r w k wanted size room)
                        (rw room at e2))
                ]
          ]
    ]
