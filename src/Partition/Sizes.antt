-- ===== src/Partition/Sizes.antt =====
-- `checkedAdd`, `recordEncodedBytes` and `batchEncodedBytes` of storage/writer.go: the sizes that
-- admission counts with, without encoding anything.
pub mod Exact
use immulog.Prelude.{ℕ, ◌+◌, ◌-◌, not, ◌||◌, Option, none, some, List, [], ◌∷◌, length, ltb, ◌==◌}
use immulog.Api.{Header, Record}
use immulog.Api.Errors.{Result, ok, join, resource_limit, invalid_argument, reject_if, ◌>>=◌, ◌>>◌}
use immulog.Format.{
  max_uint64, record_prefix_bytes, max_record_headers, max_batch_records, batch_header_bytes,
  batch_trailer_bytes, valid_header_name,
}

unfoldable pub checked_add : ℕ → ℕ → Result ℕ
checked_add left right = do
  reject_if (ltb (max_uint64 - left) right)
      (join (resource_limit ∷ []) "writer size arithmetic overflow")
  ok (left + right)

-- `len` of a slice that may be nil.
abbrev pub payload_length : Option (List ℕ) → ℕ
payload_length none = 0
payload_length (some value) = length value

unfoldable pub add_header_sizes : ℕ → List Header → Result ℕ
add_header_sizes size [] = ok size
add_header_sizes size (h ∷ hs) = do
  reject_if (not (valid_header_name h.name))
      (join (invalid_argument ∷ []) "header name is not valid UTF-8 or is too large")
  size' ← checked_add size (8 + length h.name + payload_length h.value)
  add_header_sizes size' hs

unfoldable pub record_encoded_bytes : Record → Result ℕ
record_encoded_bytes r = do
  reject_if (ltb max_record_headers (length r.headers))
      (join (invalid_argument ∷ []) "record header count exceeds v1 limit")
  add_header_sizes (record_prefix_bytes + 4 + payload_length r.key + 4 + payload_length r.value)
      r.headers

unfoldable pub add_record_sizes : ℕ → List Record → Result ℕ
add_record_sizes size [] = ok size
add_record_sizes size (r ∷ rs) = do
  record_size ← record_encoded_bytes r
  size' ← checked_add size record_size
  add_record_sizes size' rs

unfoldable pub batch_encoded_bytes : List Record → Result ℕ
batch_encoded_bytes records = do
  reject_if (length records == 0 || ltb max_batch_records (length records))
      (join (invalid_argument ∷ []) "record count is outside v1 limits")
  add_record_sizes (batch_header_bytes + batch_trailer_bytes) records
