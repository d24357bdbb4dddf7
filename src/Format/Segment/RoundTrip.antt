-- ===== src/Format/Segment/RoundTrip.antt =====
-- The segment header survives encoding and decoding.
use immulog.Prelude.{ltb-false→le, ℕ, ◌≡◌, false, List, length, ltb, ◌<◌, arith, ◌^◌}
use immulog.Prelude.Arrays.{array_eq_refl}
use immulog.Api.{is_zero}
use immulog.Api.Errors.{ok}
use immulog.Format.LittleEndian.{le, write, slice, u16, u32, u64, bytes_eq, un_le-le_4, un_le-le_8}
use immulog.Format.{max_int32, max_offset}
use immulog.Format.Checksum.{crc32c, crc32c-lt}
use immulog.Format.Segment.{
  SegmentHeader, unsealed_segment_header, read_segment_header, check_segment_frame,
  encode_segment_header, decode_segment_header,
}

abbrev sealed : SegmentHeader → List ℕ
sealed h =
    write 68 (le 4 (crc32c (slice 0 68 (unsealed_segment_header h)))) (unsealed_segment_header h)

check-sealed : (h : SegmentHeader) → check_segment_frame (sealed h) ≡ ok tt
unfolding check_segment_frame bytes_eq u16 u32
check-sealed h = ground (
  arith,
  un_le-le_4 (crc32c (slice 0 68 (unsealed_segment_header h))),
  crc32c-lt (slice 0 68 (unsealed_segment_header h)),
)

read-sealed :
    (h : SegmentHeader)
    → h.partition < 2 ^ 32
    → h.base_offset < 2 ^ 64
    → read_segment_header (sealed h) ≡ h
unfolding slice u32 u64
read-sealed h p b = ground (arith, un_le-le_4 h.partition, un_le-le_8 h.base_offset)

-- The tests that `EncodeSegmentHeader` makes.
abbrev Encodable : SegmentHeader → Type 0
Encodable h =
    (is_zero h.topic ≡ false)
    × (is_zero h.id ≡ false)
    × (ltb max_int32 h.partition ≡ false)
    × (ltb max_offset h.base_offset ≡ false)

encoded :
    (h : SegmentHeader) {d : List ℕ} → encode_segment_header h ≡ ok d → Encodable h × (d ≡ sealed h)
unfolding encode_segment_header
encoded h e = ground arith

identity :
    (h : SegmentHeader)
    → Encodable h
    → check_segment_frame (sealed h) ≡ ok tt
    → read_segment_header (sealed h) ≡ h
    → decode_segment_header (sealed h) h.topic h.partition ≡ ok h
unfolding decode_segment_header
identity h v c r = rw (c, r) (ground (arith, array_eq_refl 16 h.topic))

fits : (h : SegmentHeader) → Encodable h → (h.partition < 2 ^ 32) × (h.base_offset < 2 ^ 64)
fits h v = (
  omega (arith, ltb-false→le max_int32 h.partition v.2),
  omega (arith, ltb-false→le max_offset h.base_offset v.3),
)

-- Whatever header `EncodeSegmentHeader` accepts, `DecodeSegmentHeader` reads back from the bytes,
-- expecting the header's own topic and partition.
pub decode-encode_segment_header :
    (h : SegmentHeader) {d : List ℕ}
    → encode_segment_header h ≡ ok d
    → decode_segment_header d h.topic h.partition ≡ ok h
decode-encode_segment_header h e =
    let (v, p) = encoded h e in
    let (np, nb) = fits h v in rw p (identity h v (check-sealed h) (read-sealed h np nb))

-- An encoded header is 72 bytes long.
pub length-encode_segment_header :
    (h : SegmentHeader) {d : List ℕ} → encode_segment_header h ≡ ok d → length d ≡ 72
length-encode_segment_header h e = rw (encoded h e).1
