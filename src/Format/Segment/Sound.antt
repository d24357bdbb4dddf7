-- ===== src/Format/Segment/Sound.antt =====
-- What a decoded segment header guarantees.
use immulog.Prelude.{ℕ, ◌≡◌, ◌⊎◌, ◌≤◌, true, false, List, length, arith}
use immulog.Prelude.Arrays.{array_eq→eq}
use immulog.Api.{TopicId, is_zero}
use immulog.Api.Errors.{ok}
use immulog.Format.{segment_header_bytes, max_int32, max_offset}
use immulog.Format.LittleEndian.{slice, u32}
use immulog.Format.Checksum.{crc32c}
use immulog.Format.Segment.{
  SegmentHeader, read_segment_header, check_segment_frame, decode_segment_header,
}

framed :
    (d : List ℕ)
    → check_segment_frame d ≡ ok tt
    → (segment_header_bytes ≤ length d) × (u32 68 d ≡ crc32c (slice 0 68 d))
unfolding check_segment_frame
framed d h = ground arith

-- What a decoded header and its bytes have.
abbrev pub IsDecoded : List ℕ → TopicId → ℕ → SegmentHeader → Type 0
IsDecoded d topic partition h =
    ((segment_header_bytes ≤ length d) × (u32 68 d ≡ crc32c (slice 0 68 d)))
    × (h.partition ≡ partition)
    × ((is_zero topic ≡ true) ⊎ (h.topic ≡ topic))
    × (is_zero h.topic ≡ false)
    × (is_zero h.id ≡ false)
    × (h.partition ≤ max_int32)
    × (h.base_offset ≤ max_offset)

-- A header that decodes comes from at least 72 bytes whose checksum holds; its identifiers are not
-- zero, its partition and base offset are in range, the partition is the expected one, and the
-- topic is the expected one unless none is expected.
pub decode_segment_header_valid :
    (d : List ℕ) (topic : TopicId) (partition : ℕ) (h : SegmentHeader)
    → decode_segment_header d topic partition ≡ ok h
    → IsDecoded d topic partition h
unfolding decode_segment_header
decode_segment_header_valid d topic partition h e =
    ground (arith, framed d, array_eq→eq 16 (read_segment_header d).topic topic)
