-- ===== src/Codec/RecordTrip.antt =====
-- Records survive encoding and decoding.
pub mod Layout
use immulog.Prelude.{
  ℕ, zero, suc, ◌+◌, ◌-◌, ◌<◌, ◌≤◌, ◌≡◌, ◌^◌, refl, sym, ap, ◌∙◌, Bool, true, false, not, Option,
  none, some, List, [], ◌∷◌, ◌++◌, length, drop, append_assoc, append-nil, ltb, ltb_of_le,
  ltb-false→le, ltb_of_lt, ==_of_ne, length-append, take-append, drop-append, take-length, All,
  arith,
}
use immulog.Prelude.Int.{
  uint64_of_int, int_of_uint64, IsInt64, int_of_uint64_of_int, uint64_of_int-lt,
}
use immulog.Api.{Header, Record, TopicId}
use immulog.Api.Errors.{Result, ok, reject_if, ◌>>=◌, ◌>>◌}
use immulog.Format.{
  max_uint32, null_bytes_length, max_offset, max_record_headers, max_record_bytes,
  record_prefix_bytes, max_header_name_bytes, valid_header_name,
}
use immulog.Format.LittleEndian.{
  le, un_le, write, slice, u32, u64, un_le-le_4, un_le-le_8, slice-whole,
}
use immulog.Codec.Cursor.{
  Cursor, nullable_bytes, Fits, read_u32-le, read_bytes-append, read_nullable,
  read_nullable-nullable_bytes,
}
use immulog.Codec.Record.{
  encode_record, read_headers, read_value, read_fields, decode_prefixed, decode_record, unexpected,
}
use Layout.{
  value_bytes, value_length, header_bytes, headers_bytes, Named, FitHeaders, Encodable,
  sealed_prefix, payload, encoded, encoded-Fits,
}

read_value-value_bytes :
    (o : Option (List ℕ)) (rest : List ℕ)
    → Fits o
    → read_value (value_length o) (value_bytes o ++ rest) ≡ ok (o, rest)
unfolding read_value
read_value-value_bytes none rest h = refl
read_value-value_bytes (some v) rest h =
    rw (==_of_ne (length v) null_bytes_length (omega arith)) (rw (read_bytes-append v rest))

value_length-lt : (o : Option (List ℕ)) → Fits o → value_length o < 2 ^ 32
value_length-lt none h = omega arith
value_length-lt (some v) h = omega arith

name_short : (name : List ℕ) → valid_header_name name ≡ true → length name ≤ max_header_name_bytes
unfolding valid_header_name
name_short name h = ground arith

read_headers-headers_bytes :
    (hs : List Header) (rest : List ℕ)
    → FitHeaders hs
    → read_headers (length hs) (headers_bytes hs ++ rest) ≡ ok (hs, rest)
unfolding read_headers
read_headers-headers_bytes [] rest h = refl
read_headers-headers_bytes (x ∷ hs) rest ((named, fits), h) =
    let back = (x.name ++ value_bytes x.value) ++ headers_bytes hs ++ rest in
    let short = name_short x.name named in
    rw (read_u32-le (length x.name) (le 4 (value_length x.value) ++ back) (omega arith)) (
      rw
        (
          ltb_of_le max_header_name_bytes (length x.name) short,
          read_u32-le (value_length x.value) back (value_length-lt x.value fits),
        )
        (simp append_assoc (
          rw (
            read_bytes-append x.name (value_bytes x.value ++ (headers_bytes hs ++ rest)),
            named,
            read_value-value_bytes x.value (headers_bytes hs ++ rest) fits,
            read_headers-headers_bytes hs rest h,
          ))))

-- The words of the prefix, read back.
module _ (r : Record) (base n : ℕ) (e : Encodable r base) where
  abbrev body : List ℕ
  body = sealed_prefix r base n ++ payload r

  in_range :
      (base ≤ r.offset)
      × (r.offset - base < 2 ^ 32)
      × (r.offset ≤ max_offset)
      × (base ≤ max_offset)
      × (length r.headers ≤ max_record_headers)
  in_range = ground (arith, e.0, e.1, e.2)

  word_size : n < 2 ^ 32 → u32 0 body ≡ n
  unfolding u32
  word_size h = un_le-le_4 n h

  word_delta : u32 4 body ≡ r.offset - base
  unfolding u32
  word_delta = un_le-le_4 (r.offset - base) in_range.1

  word_time : IsInt64 r.timestamp → int_of_uint64 (u64 8 body) ≡ r.timestamp
  unfolding u64
  word_time h =
      rw (un_le-le_8 (uint64_of_int r.timestamp) (uint64_of_int-lt r.timestamp))
        (int_of_uint64_of_int r.timestamp h)

  word_count : u32 24 body ≡ length r.headers
  unfolding u32
  word_count = un_le-le_4 (length r.headers) (omega (arith, in_range.4))

  read_fields-body : IsInt64 r.timestamp → read_fields body base r.topic r.partition ≡ ok r
  unfolding read_fields
  read_fields-body h =
      let (fk, fv, fh) = encoded-Fits r base e in
      let hs = rw append-nil at (read_headers-headers_bytes r.headers [] fh) in
      let off : base + (r.offset - base) ≡ r.offset = omega (arith, in_range.0) in
      rw (word_delta, word_time h, word_count)
        (rw (
          read_nullable-nullable_bytes r.key (nullable_bytes r.value ++ headers_bytes r.headers) fk,
          read_nullable-nullable_bytes r.value (headers_bytes r.headers) fv,
          hs,
          off,
        ))

-- `decodeRecord` on the bytes of an encoded record, with or without the delta that its caller
-- expects.
pub decode_prefixed-encoded :
    (r : Record) (base : ℕ) (expected : Option ℕ)
    → Encodable r base
    → IsInt64 r.timestamp
    → unexpected expected (r.offset - base) ≡ false
    → let n = 28 + length (payload r) in
      decode_prefixed (sealed_prefix r base n ++ payload r) base r.topic r.partition expected
      ≡ ok (r, n)
unfolding decode_prefixed
decode_prefixed-encoded r base expected e h x =
    let n = 28 + length (payload r) in
    let d = sealed_prefix r base n ++ payload r in
    let (lo, fits, hi, base_hi, count) = in_range r base n e in
    let size : length d ≡ n = omega arith in
    let small : n ≤ max_record_bytes = e.4 in
    rw
      (
        ltb_of_le (length d) record_prefix_bytes (omega (arith, size)),
        word_size r base n e (omega arith),
      )
      (rw
        (
          ltb_of_le n record_prefix_bytes (omega arith),
          ltb_of_le max_record_bytes n small,
          ltb_of_le (length d) n (omega (arith, size)),
          slice-whole d n (sym size),
        )
        (rw (word_delta r base n e, x, word_count r base n e)
          (rw (
            ltb_of_le max_offset base base_hi,
            ltb_of_le (max_offset - base) (r.offset - base) (omega arith),
            ltb_of_le max_record_headers (length r.headers) count,
            read_fields-body r base n e h,
          ))))

-- Whatever record `EncodeRecord` accepts, with an int64 timestamp, `DecodeRecord` returns from the
-- bytes: nil and empty payloads stay apart, and headers keep their order.
pub decode-encode_record :
    (r : Record) (base : ℕ) {d : List ℕ}
    → encode_record r base ≡ ok d
    → IsInt64 r.timestamp
    → decode_record d base r.topic r.partition ≡ ok r
unfolding decode_record
decode-encode_record r base {d} e h =
    let (v, d-eq) = encoded r base e in
    rw (d-eq)
      (rw (decode_prefixed-encoded r base none v h (unfold unexpected in refl)) (ground arith))
