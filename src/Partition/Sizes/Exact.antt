-- ===== src/Partition/Sizes/Exact.antt =====
-- The sizes counted without encoding are those of the encoded bytes.
use immulog.Prelude.{
  ℕ, ◌+◌, ◌-◌, ◌≤◌, ◌≡◌, refl, ◌∙◌, ap, Option, none, some, List, [], ◌∷◌, ◌++◌, length, ltb_of_le,
  length-append, All, arith,
}
use immulog.Api.{Header, Record}
use immulog.Api.Errors.{ok}
use immulog.Format.{max_uint64}
use immulog.Codec.Cursor.{nullable_bytes}
use immulog.Codec.Record.{encode_record}
use immulog.Codec.RecordTrip.Layout.{
  value_bytes, headers_bytes, header_bytes, Named, payload, encoded,
}
use immulog.Partition.Sizes.{checked_add, payload_length, add_header_sizes, record_encoded_bytes}

checked_add_small : (a b : ℕ) → a + b ≤ max_uint64 → checked_add a b ≡ ok (a + b)
unfolding checked_add
checked_add_small a b h = rw (ltb_of_le (max_uint64 - a) b (omega arith))

nullable-length : (o : Option (List ℕ)) → length (nullable_bytes o) ≡ 4 + payload_length o
nullable-length none = omega arith
nullable-length (some v) = omega arith

value-length : (o : Option (List ℕ)) → length (value_bytes o) ≡ payload_length o
value-length none = refl
value-length (some v) = refl

header-length : (h : Header) → length (header_bytes h) ≡ 8 + length h.name + payload_length h.value
header-length h = omega (arith, length-append h.name (value_bytes h.value), value-length h.value)

add_header_sizes-length :
    (hs : List Header) (n : ℕ)
    → All Named hs
    → n + length (headers_bytes hs) ≤ max_uint64
    → add_header_sizes n hs ≡ ok (n + length (headers_bytes hs))
unfolding add_header_sizes
add_header_sizes-length [] n named h = ap ok (omega arith)
add_header_sizes-length (x ∷ xs) n (named, all) h =
    let s = length-append (header_bytes x) (headers_bytes xs) in
    let k = 8 + length x.name + payload_length x.value in
    rw (named, checked_add_small n k (omega (arith, s, header-length x)))
      (add_header_sizes-length xs (n + k) all (omega (arith, s, header-length x))
        ∙ ap ok (omega (arith, s, header-length x)))

-- The size that the writer counts for a record is the length of its encoding, for every record
-- that encodes.
pub record_encoded_bytes-length :
    (r : Record) (base : ℕ) {d : List ℕ}
    → encode_record r base ≡ ok d
    → record_encoded_bytes r ≡ ok (length d)
unfolding record_encoded_bytes
record_encoded_bytes-length r base {d} e =
    let (v, q) = encoded r base e in
    let size : length d ≡ 28 + length (payload r) = rw q (omega arith) in
    let parts =
      length-append (nullable_bytes r.key) (nullable_bytes r.value ++ headers_bytes r.headers) in
    let parts' = length-append (nullable_bytes r.value) (headers_bytes r.headers) in
    let fixed = 28 + 4 + payload_length r.key + 4 + payload_length r.value in
    let whole : length (payload r) + 28 ≡ fixed + length (headers_bytes r.headers) =
      omega (arith, parts, parts', nullable-length r.key, nullable-length r.value) in
    rw v.2 (
      add_header_sizes-length r.headers fixed v.3 (omega (arith, v.4, whole))
      ∙ ap ok (omega (arith, whole, size)))
