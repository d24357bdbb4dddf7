-- ===== src/Fetch/Scan.antt =====
-- `scanSegmentForFetch`, `Partition.Fetch` and `shouldFenceFetchError` of storage/fetch.go. Files open,
-- and a read returns what its file holds; the sampled index of a segment is an argument.
use immulog.Prelude.{
  ℕ, zero, suc, ◌+◌, ◌-◌, Bool, true, false, not, ◌||◌, List, [], ◌∷◌, length, ltb, leb, ◌!=◌,
  if◌then◌else◌,
}
use immulog.Api.{FetchResult}
use immulog.Api.Errors.{
  Sentinel, Error, Result, ok, err, join, corrupt, invalid_batch, invalid_argument,
  offset_out_of_range, partition_unavailable, fetch_limit_too_small, closing, closed, system,
  reject_if, ◌>>=◌, ◌>>◌,
}
use immulog.Format.{batch_header_bytes, batch_trailer_bytes, segment_header_bytes, max_batch_bytes}
use immulog.Format.LittleEndian.{slice, u32}
use immulog.Codec.Batch.{decode_batch}
use immulog.Partition.{Segment, Partition, segments}
use immulog.Partition.Append.{fence}
use immulog.Fetch.{FetchOptions, normalize_fetch_options, take_records}

-- `offsetIndexEntry` of storage/index.go
pub record OffsetIndexEntry : Type 0 where
  pub base : ℕ
  pub position : ℕ
  pub bytes : ℕ
  pub records : ℕ

-- The position of the last sampled batch at or in front of the offset.
unfoldable pub start_position : ℕ → ℕ → List OffsetIndexEntry → ℕ → Result ℕ
start_position offset size [] position = ok position
start_position offset size (h ∷ hs) position = if ltb offset h.base then ok position else (do
  reject_if (ltb size h.position)
      (corrupt invalid_batch "offset index position exceeds segment size")
  start_position offset size hs h.position)

-- `data` of the batch at the position, from the length in its header.
unfoldable pub read_batch : Segment → ℕ → Result (List ℕ)
read_batch s position = do
  let header = slice position batch_header_bytes s.content
  reject_if (length header != batch_header_bytes) (join (system ∷ []) "read batch header")
  let n = u32 8 header
  reject_if
      (ltb n (batch_header_bytes + batch_trailer_bytes)
        || ltb max_batch_bytes n
        || ltb (s.size - position) n)
      (corrupt invalid_batch "batch length exceeds segment during fetch")
  let data' = slice position n s.content
  reject_if (length data' != n) (join (system ∷ []) "read batch body")
  ok data'

-- The scan of one segment from a position. A round moves on by at least 52 bytes.
unfoldable pub fetch_batches :
    ℕ
    → Partition
    → Segment
    → FetchOptions
    → ℕ
    → ℕ
    → FetchResult
    → ℕ
    → Result (Bool × FetchResult × ℕ)
fetch_batches zero p s o offset position result bytes = ok (false, result, bytes)
fetch_batches (suc fuel) p s o offset position result bytes =
    if leb s.size position then ok (false, result, bytes) else (do
      d ← read_batch s position
      b ← decode_batch d p.topic p.partition
      (done, result', bytes') ← take_records o offset b.records result bytes
      if done
          then ok (true, result', bytes')
          else fetch_batches fuel p s o offset (position + length d) result' bytes')

unfoldable pub fetch_segments :
    (Segment → List OffsetIndexEntry)
    → Partition
    → FetchOptions
    → ℕ
    → List Segment
    → FetchResult
    → ℕ
    → Result FetchResult
fetch_segments hints p o offset [] result bytes = ok result
fetch_segments hints p o offset (s ∷ ss) result bytes =
    if leb s.end offset then fetch_segments hints p o offset ss result bytes else (do
      position ← start_position offset s.size (hints s) segment_header_bytes
      (done, result', bytes') ← fetch_batches (suc s.size) p s o offset position result bytes
      if done then ok result' else fetch_segments hints p o offset ss result' bytes')

-- `segments[0].header.BaseOffset`
abbrev pub first_offset : Partition → ℕ
first_offset p = elim (segments p) [ [] ↦ 0 | s ∷ ss ↦ s.header.base_offset ]

-- `validateReadOffset`, and the same tests in `Fetch`.
unfoldable pub validate_read_offset : Partition → ℕ → Result (Unit {0})
validate_read_offset p offset = do
  reject_if p.closed (join (closed ∷ []) "")
  reject_if p.closing (join (closing ∷ []) "")
  reject_if p.unavailable (join (partition_unavailable ∷ []) "")
  reject_if (ltb offset (first_offset p) || ltb p.log_end offset)
      (join (offset_out_of_range ∷ []) "")

-- The sentinels whose errors leave the partition open.
unfoldable pub is_harmless : Sentinel → Bool
is_harmless invalid_argument = true
is_harmless offset_out_of_range = true
is_harmless fetch_limit_too_small = true
is_harmless closed = true
is_harmless closing = true
is_harmless partition_unavailable = true
is_harmless _ = false

unfoldable pub any_harmless : List Sentinel → Bool
any_harmless [] = false
any_harmless (x ∷ xs) = is_harmless x || any_harmless xs

unfoldable pub should_fence : Error → Bool
should_fence e = not (any_harmless e.joined)

-- The result, and the partition, which an error of its files fences.
unfoldable pub fetch :
    (Segment → List OffsetIndexEntry)
    → Partition
    → ℕ
    → FetchOptions
    → Result FetchResult × Partition
fetch hints p offset options = elim (normalize_fetch_options options) [
  | err e ↦ (err e, p)
  | ok o ↦
      (elim (do
        validate_read_offset p offset
        fetch_segments hints p o offset (segments p) (record { records = []; next_offset = offset })
            0) [
              | ok result ↦ (ok result, p)
              | err e ↦ (err e, if should_fence e then fence p else p)
            ])
]
