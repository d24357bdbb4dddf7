-- ===== src/Events/Fields.antt =====
-- The anchors of events and the keys of topic partitions, in storage/events.go and
-- storage/events_validation.go.
use immulog.Prelude.{ℕ, ◌≡◌, refl, append_assoc, arith, Bool, ◌||◌, List, [], ◌∷◌, ◌++◌, ltb}
use immulog.Prelude.Arrays.{Array, bytes, length-bytes, of_bytes, zeros, array_eq}
use immulog.Api.{TopicId, SegmentId, is_zero}
use immulog.Api.Errors.{
  Result, ok, corrupt, join, invalid_argument, invalid_record, reject_if, reject_if-eq-ok, ◌>>=◌,
  ◌>>◌,
}
use immulog.Format.{max_int32}
use immulog.Events.Cursor.{
  take_field, read_id, read_uint, take_field-append, read_id-append, of_bytes-bytes_all,
}

-- `eventAnchor`
pub record EventAnchor : Type 0 where
  pub id : SegmentId
  pub header_hash : Array 32

unfoldable pub is_zero_hash : Array 32 → Bool
is_zero_hash hash = array_eq 32 hash (zeros 32)

-- `encodeAnchor`, without the bytes it appends to.
unfoldable pub encode_anchor : EventAnchor → Result (List ℕ)
encode_anchor a = do
  reject_if (is_zero a.id || is_zero_hash a.header_hash)
      (join (invalid_argument ∷ []) "event anchor is incomplete")
  ok (bytes 16 a.id ++ bytes 32 a.header_hash)

unfoldable pub decode_anchor : List ℕ → Result (EventAnchor × List ℕ)
decode_anchor d = do
  (id, d1) ← read_id d
  (hash, d2) ← take_field 32 d1
  let anchor : EventAnchor = record { id = id; header_hash = of_bytes 32 hash }
  reject_if (is_zero anchor.id || is_zero_hash anchor.header_hash)
      (corrupt invalid_record "event anchor is zero")
  ok (anchor, d2)

-- `topicKey`
pub record TopicKey : Type 0 where
  pub topic : TopicId
  pub partition : ℕ

unfoldable pub decode_topic_key : List ℕ → Result (TopicKey × List ℕ)
decode_topic_key d = do
  (id, d1) ← read_id d
  reject_if (is_zero id) (corrupt invalid_record "event topic key ID is zero")
  (partition, d2) ← read_uint 4 d1
  reject_if (ltb max_int32 partition)
      (corrupt invalid_record "event topic key partition is outside v1 range")
  ok (record { topic = id; partition = partition }, d2)

-- An anchor that is encoded is read back in front of anything.
pub decode-encode_anchor :
    (a : EventAnchor) {d : List ℕ} (rest : List ℕ)
    → encode_anchor a ≡ ok d
    → decode_anchor (d ++ rest) ≡ ok (a, rest)
unfolding encode_anchor decode_anchor
decode-encode_anchor a {d = d} rest e =
    let (r, e1) = reject_if-eq-ok (is_zero a.id || is_zero_hash a.header_hash) _ _ e in
    let same : bytes 16 a.id ++ bytes 32 a.header_hash ≡ d = ground arith in
    rw⁻¹ same (
      rw
        (
          append_assoc (bytes 16 a.id) (bytes 32 a.header_hash) rest,
          read_id-append a.id (bytes 32 a.header_hash ++ rest),
          take_field-append 32 (bytes 32 a.header_hash) rest (length-bytes 32 a.header_hash),
          of_bytes-bytes_all 32 a.header_hash,
          r,
        )
        refl)
