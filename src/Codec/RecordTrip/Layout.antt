-- ===== src/Codec/RecordTrip/Layout.antt =====
-- What `EncodeRecord` writes: the sealed prefix, then the key, the value and the headers.
use immulog.Prelude.{
  ℕ, ◌+◌, ◌-◌, ◌≤◌, ◌≡◌, refl, sym, true, false, not, ◌||◌, Option, none, some, List, [], ◌∷◌, ◌++◌,
  length, append_assoc, append-nil, ltb, ltb-false→le, length-append, All, arith,
}
use immulog.Api.{Header, Record}
use immulog.Api.Errors.{ok, >>=-eq-ok, reject_if-eq-ok}
use immulog.Format.{
  max_uint32, null_bytes_length, max_offset, max_record_headers, max_record_bytes,
  valid_header_name,
}
use immulog.Format.LittleEndian.{le, write}
use immulog.Codec.Cursor.{append_u32, append_nullable, nullable_bytes, Fits, append_nullable-eq}
use immulog.Codec.Record.{
  append_value_length, append_value, append_headers, record_prefix, encode_record,
}

abbrev pub value_length : Option (List ℕ) → ℕ
value_length none = null_bytes_length
value_length (some value) = length value

abbrev pub value_bytes : Option (List ℕ) → List ℕ
value_bytes none = []
value_bytes (some value) = value

abbrev pub header_bytes : Header → List ℕ
header_bytes h =
    le 4 (length h.name) ++ (le 4 (value_length h.value) ++ (h.name ++ value_bytes h.value))

abbrev pub headers_bytes : List Header → List ℕ
headers_bytes [] = []
headers_bytes (h ∷ hs) = header_bytes h ++ headers_bytes hs

abbrev pub Named : Header → Type 0
Named h = valid_header_name h.name ≡ true

abbrev pub FitHeaders : List Header → Type 0
FitHeaders = All (λ h. Named h × Fits h.value)

append_value_length-eq :
    (body : List ℕ) (value : Option (List ℕ)) {d : List ℕ}
    → append_value_length body value ≡ ok d
    → d ≡ body ++ le 4 (value_length value)
unfolding append_value_length append_u32
append_value_length-eq body none h = ground arith
append_value_length-eq body (some v) h = ground arith

append_value-eq :
    (body : List ℕ) (value : Option (List ℕ)) → append_value body value ≡ body ++ value_bytes value
unfolding append_value
append_value-eq body none = sym (append-nil body)
append_value-eq body (some v) = refl

append_headers-eq :
    (body : List ℕ) (hs : List Header) {d : List ℕ}
    → append_headers body hs ≡ ok d
    → (d ≡ body ++ headers_bytes hs) × All Named hs
unfolding append_headers append_u32
append_headers-eq body [] h = (ground (arith, append-nil body), tt)
append_headers-eq body (x ∷ hs) {d} h =
    let (named, h1) = reject_if-eq-ok (not (valid_header_name x.name)) _ _ h in
    let (b, e, h2) =
      >>=-eq-ok (append_value_length (body ++ le 4 (length x.name)) x.value)
        (λ b. append_headers (append_value (b ++ x.name) x.value) hs) h1 in
    let (q, all) = append_headers-eq (append_value (b ++ x.name) x.value) hs h2 in
    (
      rw (q, append_value-eq, append_value_length-eq _ x.value e) (simp append_assoc),
      (ground arith, all),
    )

-- The prefix with the record's length in its first word.
abbrev pub sealed_prefix : Record → ℕ → ℕ → List ℕ
sealed_prefix r base n = write 0 (le 4 n) (record_prefix r base)

abbrev pub payload : Record → List ℕ
payload r = nullable_bytes r.key ++ (nullable_bytes r.value ++ headers_bytes r.headers)

abbrev pub Encodable : Record → ℕ → Type 0
Encodable r base =
    (ltb r.offset base || ltb max_uint32 (r.offset - base) ≡ false)
    × (ltb max_offset base || ltb max_offset r.offset ≡ false)
    × (ltb max_record_headers (length r.headers) ≡ false)
    × All Named r.headers
    × (28 + length (payload r) ≤ max_record_bytes)

pub encoded :
    (r : Record) (base : ℕ) {d : List ℕ}
    → encode_record r base ≡ ok d
    → Encodable r base × (d ≡ sealed_prefix r base (28 + length (payload r)) ++ payload r)
unfolding encode_record
encoded r base {d} h =
    let (t1, h1) = reject_if-eq-ok (ltb r.offset base || ltb max_uint32 (r.offset - base)) _ _ h in
    let (t2, h2) = reject_if-eq-ok (ltb max_offset base || ltb max_offset r.offset) _ _ h1 in
    let (t3, h3) = reject_if-eq-ok (ltb max_record_headers (length r.headers)) _ _ h2 in
    let (b1, e1, h4) = >>=-eq-ok (append_nullable (record_prefix r base) r.key) _ h3 in
    let (b2, e2, h5) = >>=-eq-ok (append_nullable b1 r.value) _ h4 in
    let (b3, e3, h6) = >>=-eq-ok (append_headers b2 r.headers) _ h5 in
    let (t4, h7) = reject_if-eq-ok (ltb max_record_bytes (length b3)) _ _ h6 in
    let (q, all) = append_headers-eq b2 r.headers e3 in
    let b3-eq : b3 ≡ record_prefix r base ++ payload r =
      rw (q, append_nullable-eq b1 r.value e2, append_nullable-eq (record_prefix r base) r.key e1)
        (simp append_assoc) in
    let size : length b3 ≡ 28 + length (payload r) = rw b3-eq (omega arith) in
    let d-eq : d ≡ write 0 (le 4 (length b3)) b3 = ground arith in
    (
      (t1, t2, t3, all, omega (arith, size, ltb-false→le max_record_bytes (length b3) t4)),
      rw (d-eq, size, b3-eq),
    )

nullable-Fits : (o : Option (List ℕ)) → length (nullable_bytes o) ≤ max_record_bytes → Fits o
nullable-Fits none h = tt
nullable-Fits (some v) h = omega arith

value-Fits : (o : Option (List ℕ)) → length (value_bytes o) ≤ max_record_bytes → Fits o
value-Fits none h = tt
value-Fits (some v) h = omega arith

headers-Fit :
    (hs : List Header) → All Named hs → length (headers_bytes hs) ≤ max_record_bytes → FitHeaders hs
headers-Fit [] named h = tt
headers-Fit (x ∷ hs) named h = (
  (named.0, value-Fits x.value (omega (arith, sizes))),
  headers-Fit hs named.1 (omega (arith, sizes)),
)
  where
    sizes :
        length (headers_bytes (x ∷ hs))
        ≡ 8 + length x.name + length (value_bytes x.value) + length (headers_bytes hs)
    sizes = omega (
      arith,
      length-append (x.name ++ value_bytes x.value) (headers_bytes hs),
      length-append x.name (value_bytes x.value),
    )

-- What a record that encodes satisfies, so that its fields can be told apart again.
pub encoded-Fits :
    (r : Record) (base : ℕ) → Encodable r base → Fits r.key × Fits r.value × FitHeaders r.headers
encoded-Fits r base e = (
  nullable-Fits r.key (omega (arith, e.4, sizes)),
  nullable-Fits r.value (omega (arith, e.4, sizes)),
  headers-Fit r.headers e.3 (omega (arith, e.4, sizes)),
)
  where
    sizes :
        length (payload r)
        ≡ length (nullable_bytes r.key)
          + length (nullable_bytes r.value)
          + length (headers_bytes r.headers)
    sizes = omega (
      arith,
      length-append (nullable_bytes r.key) (nullable_bytes r.value ++ headers_bytes r.headers),
      length-append (nullable_bytes r.value) (headers_bytes r.headers),
    )
