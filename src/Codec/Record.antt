-- ===== src/Codec/Record.antt =====
-- `EncodeRecord`, `DecodeRecord` and `decodeRecord` of storage/codec.go.
use immulog.Prelude.{
  ℕ, zero, suc, ◌+◌, ◌-◌, Bool, false, not, ◌||◌, Option, none, some, List, [], ◌∷◌, ◌++◌, length,
  drop, replicate, ltb, ◌==◌, ◌!=◌, if◌then◌else◌,
}
use immulog.Prelude.Int.{uint64_of_int, int_of_uint64}
use immulog.Api.{Header, Record, TopicId}
use immulog.Api.Errors.{
  Result, ok, corrupt, invalid, join, record_too_large, invalid_record, reject_if, ◌>>=◌, ◌>>◌,
}
use immulog.Format.{
  max_uint32, null_bytes_length, max_offset, max_record_headers, max_record_bytes,
  record_prefix_bytes, max_header_name_bytes, valid_header_name,
}
use immulog.Format.LittleEndian.{le, write, slice, u32, u64}
use immulog.Codec.Cursor.{Cursor, append_u32, append_nullable, read_u32, read_bytes, read_nullable}

-- The length word of a header's value.
unfoldable pub append_value_length : List ℕ → Option (List ℕ) → Result (List ℕ)
unfolding append_u32
append_value_length body none = ok (append_u32 body null_bytes_length)
append_value_length body (some value) = do
  reject_if (ltb max_uint32 (length value)) (join (record_too_large ∷ invalid_record ∷ []) "")
  ok (append_u32 body (length value))

unfoldable pub append_value : List ℕ → Option (List ℕ) → List ℕ
append_value body none = body
append_value body (some value) = body ++ value

-- The loop of `EncodeRecord` over the headers.
unfoldable pub append_headers : List ℕ → List Header → Result (List ℕ)
append_headers body [] = ok body
append_headers body (h ∷ hs) = do
  reject_if (not (valid_header_name h.name))
      (invalid invalid_record "header name is not valid UTF-8 or is too large")
  body' ← append_value_length (append_u32 body (length h.name)) h.value
  append_headers (append_value (body' ++ h.name) h.value) hs

-- The fixed prefix, whose first word, the length, is still zero.
abbrev pub record_prefix : Record → ℕ → List ℕ
record_prefix r base =
    let d0 = write 4 (le 4 (r.offset - base)) (replicate record_prefix_bytes 0) in
    let d1 = write 8 (le 8 (uint64_of_int r.timestamp)) d0 in write 24 (le 4 (length r.headers)) d1

unfoldable pub encode_record : Record → ℕ → Result (List ℕ)
encode_record r base = do
  reject_if (ltb r.offset base || ltb max_uint32 (r.offset - base))
      (invalid invalid_record "offset delta is outside uint32 range")
  reject_if (ltb max_offset base || ltb max_offset r.offset)
      (invalid invalid_record "offset is outside v1 range")
  reject_if (ltb max_record_headers (length r.headers))
      (invalid invalid_record "header count exceeds v1 limit")
  body1 ← append_nullable (record_prefix r base) r.key
  body2 ← append_nullable body1 r.value
  body3 ← append_headers body2 r.headers
  reject_if (ltb max_record_bytes (length body3)) (join (record_too_large ∷ invalid_record ∷ []) "")
  ok (write 0 (le 4 (length body3)) body3)

unfoldable pub read_value : ℕ → Cursor → Result (Option (List ℕ) × Cursor)
read_value n c =
    if n == null_bytes_length
    then ok (none, c)
    else do (value, c') ← read_bytes n c; ok (some value, c')

-- The loop of `decodeRecord` over `count` headers.
unfoldable pub read_headers : ℕ → Cursor → Result (List Header × Cursor)
read_headers zero c = ok ([], c)
read_headers (suc count) c = do
  (name_length, c1) ← read_u32 c
  reject_if (ltb max_header_name_bytes name_length)
      (corrupt invalid_record "header name exceeds v1 limit")
  (value_length, c2) ← read_u32 c1
  (name, c3) ← read_bytes name_length c2
  reject_if (not (valid_header_name name)) (corrupt invalid_record "header name is not valid UTF-8")
  (value, c4) ← read_value value_length c3
  (hs, c5) ← read_headers count c4
  ok (record { name = name; value = value } ∷ hs, c5)

-- `expectedDelta != nil && delta != *expectedDelta`
unfoldable pub unexpected : Option ℕ → ℕ → Bool
unexpected none delta = false
unexpected (some expected) delta = delta != expected

-- The part of `decodeRecord` behind the tests on the prefix. `delta` has passed the range test, so
-- the offset does not wrap.
unfoldable pub read_fields : List ℕ → ℕ → TopicId → ℕ → Result Record
read_fields body base topic partition = do
  (key, c1) ← read_nullable (drop record_prefix_bytes body)
  (value, c2) ← read_nullable c1
  (headers, c3) ← read_headers (u32 24 body) c2
  reject_if (length c3 != 0) (corrupt invalid_record "trailing bytes in record")
  ok (record {
    topic = topic;
    partition = partition;
    offset = base + u32 4 body;
    timestamp = int_of_uint64 (u64 8 body);
    key = key;
    value = value;
    headers = headers;
  })

-- `decodeRecord`: the record and the bytes that it took.
unfoldable pub decode_prefixed : List ℕ → ℕ → TopicId → ℕ → Option ℕ → Result (Record × ℕ)
decode_prefixed d base topic partition expected = do
  reject_if (ltb (length d) record_prefix_bytes)
      (corrupt invalid_record "record is shorter than fixed prefix")
  let record_bytes = u32 0 d
  reject_if (ltb record_bytes record_prefix_bytes || ltb max_record_bytes record_bytes)
      (corrupt invalid_record "record length outside v1 limits")
  reject_if (ltb (length d) record_bytes) (corrupt invalid_record "record body is incomplete")
  let body = slice 0 record_bytes d
  reject_if (unexpected expected (u32 4 body))
      (corrupt invalid_record "record offset delta is not contiguous")
  reject_if (ltb max_offset base || ltb (max_offset - base) (u32 4 body))
      (corrupt invalid_record "record offset is outside v1 range")
  reject_if (ltb max_record_headers (u32 24 body))
      (corrupt invalid_record "record header count outside v1 limits")
  r ← read_fields body base topic partition
  ok (r, record_bytes)

-- `DecodeRecord`
unfoldable pub decode_record : List ℕ → ℕ → TopicId → ℕ → Result Record
decode_record d base topic partition = do
  (r, consumed) ← decode_prefixed d base topic partition none
  reject_if (consumed != length d) (corrupt invalid_record "trailing bytes after record")
  ok r
