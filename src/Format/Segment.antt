-- ===== src/Format/Segment.antt =====
-- `SegmentHeader`, `EncodeSegmentHeader` and `DecodeSegmentHeader` of storage/format.go.
pub mod RoundTrip
pub mod Sound
use immulog.Prelude.{
  ℕ, ◌≡◌, refl, Bool, true, false, not, ◌&&◌, ◌||◌, List, [], ◌∷◌, ◌++◌, length, take, replicate,
  ltb, ◌!=◌, ◌<◌, ◌≤◌, arith, ◌^◌,
}
use immulog.Prelude.Arrays.{Array, bytes, of_bytes, array_eq}
use immulog.Api.{TopicId, SegmentId, is_zero}
use immulog.Api.Errors.{
  Result, ok, err, corrupt, invalid, unsupported, reject_if, invalid_segment, ◌>>=◌, ◌>>◌,
}
use immulog.Format.{segment_header_bytes, format_version, max_int32, max_offset}
use immulog.Format.LittleEndian.{le, write, slice, u16, u32, u64, bytes_eq}
use immulog.Format.Checksum.{crc32c}

pub record SegmentHeader : Type 0 where
  pub topic : TopicId
  pub partition : ℕ
  pub base_offset : ℕ
  pub id : SegmentId

-- "IELSEG00"
abbrev pub segment_magic : List ℕ
segment_magic = b'I' ∷ b'E' ∷ b'L' ∷ b'S' ∷ b'E' ∷ b'G' ∷ b'0' ∷ b'0' ∷ []

-- The header's bytes before its checksum is written.
abbrev unsealed_segment_header : SegmentHeader → List ℕ
unsealed_segment_header h =
    let d0 = write 0 segment_magic (replicate segment_header_bytes 0) in
    let d1 = write 8 (le 2 format_version) d0 in
    let d2 = write 10 (le 2 segment_header_bytes) d1 in
    let d3 = write 16 (bytes 16 h.topic) d2 in
    let d4 = write 32 (le 4 h.partition) d3 in
    let d5 = write 36 (le 2 format_version) d4 in
    let d6 = write 40 (le 8 h.base_offset) d5 in write 48 (bytes 16 h.id) d6

unfoldable pub encode_segment_header : SegmentHeader → Result (List ℕ)
encode_segment_header h = do
  reject_if (is_zero h.topic || is_zero h.id)
      (invalid invalid_segment "segment and topic IDs must be nonzero")
  reject_if (ltb max_int32 h.partition || ltb max_offset h.base_offset)
      (invalid invalid_segment "partition or base offset is outside v1 range")
  let d = unsealed_segment_header h
  ok (write 68 (le 4 (crc32c (slice 0 68 d))) d)

-- The tests that do not depend on the identity.
check_segment_frame : List ℕ → Result (Unit {0})
check_segment_frame d = do
  reject_if (ltb (length d) segment_header_bytes)
      (corrupt invalid_segment "incomplete segment header")
  reject_if (not (bytes_eq (slice 0 8 d) segment_magic))
      (corrupt invalid_segment "segment magic mismatch")
  reject_if (u16 10 d != segment_header_bytes)
      (corrupt invalid_segment "segment header size mismatch")
  reject_if (u32 68 d != crc32c (slice 0 68 d))
      (corrupt invalid_segment "segment header checksum mismatch")
  reject_if (u16 8 d != format_version || u16 36 d != format_version)
      (unsupported "unsupported segment or batch version")
  reject_if (u32 12 d != 0 || u16 38 d != 0 || u32 64 d != 0)
      (corrupt invalid_segment "nonzero reserved segment fields")

abbrev read_segment_header : List ℕ → SegmentHeader
read_segment_header d = record {
  topic = of_bytes 16 (slice 16 16 d);
  partition = u32 32 d;
  base_offset = u64 40 d;
  id = of_bytes 16 (slice 48 16 d);
}

unfoldable pub decode_segment_header : List ℕ → TopicId → ℕ → Result SegmentHeader
unfolding check_segment_frame
decode_segment_header d expected_topic expected_partition = do
  check_segment_frame d
  let h = read_segment_header d
  reject_if
      (is_zero h.topic || is_zero h.id || ltb max_int32 h.partition || ltb max_offset h.base_offset)
      (corrupt invalid_segment "invalid segment identity or range")
  reject_if (not (is_zero expected_topic) && not (array_eq 16 h.topic expected_topic))
      (corrupt invalid_segment "segment topic identity mismatch")
  reject_if (h.partition != expected_partition)
      (corrupt invalid_segment "segment partition identity mismatch")
  ok h
