-- ===== src/Events/TopicTrip.antt =====
-- A TopicCreated event survives its encoding.
use immulog.Prelude.{
  ℕ, suc, ◌-◌, ◌^◌, ◌%◌, ◌≡◌, ◌<◌, refl, ap, ◌∙◌, true, false, ◌||◌, List, [], ◌∷◌, ◌++◌, length,
  ltb, ◌==◌, ◌!=◌, append_assoc, append-nil, arith,
}
use immulog.Prelude.Arrays.{bytes}
use immulog.Api.{is_zero}
use immulog.Api.Errors.{ok, >>=-eq-ok, reject_if-eq-ok, ok-injective}
use immulog.Format.{max_record_bytes, record_prefix_bytes}
use immulog.Format.LittleEndian.{le}
use immulog.Config.Wire.{encode_partition_config}
use immulog.Config.Wire.Trip.{decode-encode_partition_config, encode-validate}
use immulog.Events.Cursor.{
  string_bytes, finish_event, read_id-append, read_uint-append, read_string-append,
}
use immulog.Events.Fields.{encode_anchor, decode-encode_anchor}
use immulog.Events.TopicNames.{valid_topic_name, max_topic_name_len}
use immulog.Events.Envelope.{event_envelope_len}
use immulog.Events.Payloads.{
  max_topic_partitions, TopicCreatedPartition, TopicCreatedEvent, is_reserved_topic,
  encode_topic_partitions, encode_topic_created, decode_topic_partitions, decode_topic_created,
}

read_partition :
    (index : ℕ) (p : TopicCreatedPartition) (ps : List TopicCreatedPartition) (c a r rest : List ℕ)
    → (p.partition != index % 2 ^ 32 ≡ false)
    → p.partition < 2 ^ 32
    → encode_partition_config p.config ≡ ok c
    → encode_anchor p.initial ≡ ok a
    → decode_topic_partitions (length ps) (suc index) (r ++ rest) ≡ ok (ps, rest)
    → decode_topic_partitions
        (suc (length ps))
        index
        ((le 4 p.partition ++ (c ++ (a ++ r))) ++ rest)
      ≡ ok (p ∷ ps, rest)
unfolding decode_topic_partitions
read_partition index p ps c a r rest n h ec ea er =
    let moved : (le 4 p.partition ++ (c ++ (a ++ r))) ++ rest
        ≡ le 4 p.partition ++ (c ++ (a ++ (r ++ rest))) =
      append_assoc (le 4 p.partition) (c ++ (a ++ r)) rest
      ∙ ap (λ xs. le 4 p.partition ++ xs)
          (append_assoc c (a ++ r) rest ∙ ap (λ xs. c ++ xs) (append_assoc a r rest)) in
    rw moved (
      rw
        (
          read_uint-append 4 p.partition (c ++ (a ++ (r ++ rest))) h,
          n,
          decode-encode_partition_config p.config false (a ++ (r ++ rest)) ec
              (encode-validate p.config ec),
          decode-encode_anchor p.initial (r ++ rest) ea,
          er,
        )
        refl)

decode-encode_topic_partitions :
    (index : ℕ) (ps : List TopicCreatedPartition) {d : List ℕ} (rest : List ℕ)
    → encode_topic_partitions index ps ≡ ok d
    → decode_topic_partitions (length ps) index (d ++ rest) ≡ ok (ps, rest)
unfolding encode_topic_partitions decode_topic_partitions
decode-encode_topic_partitions index [] rest h = ground arith
decode-encode_topic_partitions index (p ∷ ps) {d = d} rest h =
    let (n, h0) = reject_if-eq-ok (p.partition != index % 2 ^ 32) _ _ h in
    let (c, ec, h1) = >>=-eq-ok (encode_partition_config p.config) _ h0 in
    let (a, ea, h2) = >>=-eq-ok (encode_anchor p.initial) _ h1 in
    let (r, er, h3) = >>=-eq-ok (encode_topic_partitions (suc index) ps) _ h2 in
    let same : le 4 p.partition ++ (c ++ (a ++ r)) ≡ d = ok-injective h3 in
    rw⁻¹ same (
      read_partition index p ps c a r rest n (ground arith) ec ea
        (decode-encode_topic_partitions (suc index) ps rest er))

-- The bytes of the payload, from the bytes of its parts.
abbrev layout : TopicCreatedEvent → List ℕ → List ℕ → List ℕ
layout e name partitions =
    bytes 16 e.store_id
    ++ (le 8 e.expected_catalog_next
        ++ (bytes 16 e.topic_id ++ (name ++ (le 4 (length e.partitions) ++ partitions))))

read_layout :
    (e : TopicCreatedEvent) (name partitions : List ℕ)
    → (is_zero e.store_id || is_reserved_topic e.topic_id ≡ false)
    → (length e.partitions == 0 || ltb max_topic_partitions (length e.partitions) ≡ false)
    → e.expected_catalog_next < 2 ^ 64
    → valid_topic_name e.name ≡ true
    → string_bytes max_topic_name_len e.name ≡ ok name
    → encode_topic_partitions 0 e.partitions ≡ ok partitions
    → decode_topic_created (layout e name partitions) ≡ ok e
unfolding decode_topic_created finish_event
read_layout e name partitions t n next valid en ep =
    let store : is_zero e.store_id ≡ false = ground arith in
    let topic : is_reserved_topic e.topic_id ≡ false = ground arith in
    let whole : decode_topic_partitions (length e.partitions) 0 (partitions ++ [])
        ≡ ok (e.partitions, []) =
      decode-encode_topic_partitions 0 e.partitions [] ep in
    let last : decode_topic_partitions (length e.partitions) 0 partitions ≡ ok (e.partitions, []) =
      rw append-nil at whole in
    rw
      (
        read_id-append e.store_id (
            le 8 e.expected_catalog_next
            ++ (bytes 16 e.topic_id ++ (name ++ (le 4 (length e.partitions) ++ partitions)))),
        store,
        read_uint-append 8 e.expected_catalog_next
            (bytes 16 e.topic_id ++ (name ++ (le 4 (length e.partitions) ++ partitions))) next,
        read_id-append e.topic_id (name ++ (le 4 (length e.partitions) ++ partitions)),
        topic,
        read_string-append max_topic_name_len e.name (le 4 (length e.partitions) ++ partitions)
            (omega arith) en,
        valid,
        read_uint-append 4 (length e.partitions) partitions (ground arith),
        n,
        last,
      )
      refl

-- A TopicCreated event that the code encodes, with a valid topic name and a uint64 catalog offset,
-- is read back.
pub decode-encode_topic_created :
    (e : TopicCreatedEvent) {d : List ℕ}
    → encode_topic_created e ≡ ok d
    → valid_topic_name e.name ≡ true
    → e.expected_catalog_next < 2 ^ 64
    → decode_topic_created d ≡ ok e
unfolding encode_topic_created
decode-encode_topic_created e {d = d} h valid next =
    let (t, h0) = reject_if-eq-ok (is_zero e.store_id || is_reserved_topic e.topic_id) _ _ h in
    let (n, h1) =
      reject_if-eq-ok (length e.partitions == 0 || ltb max_topic_partitions (length e.partitions)) _
        _ h0 in
    let (name, en, h2) = >>=-eq-ok (string_bytes max_topic_name_len e.name) _ h1 in
    let (partitions, ep, h3) = >>=-eq-ok (encode_topic_partitions 0 e.partitions) _ h2 in
    let (_, h4) =
      reject_if-eq-ok
        (ltb (max_record_bytes - record_prefix_bytes - 8 - event_envelope_len)
          (length (layout e name partitions)))
        _ _ h3 in
    let same : layout e name partitions ≡ d = ok-injective h4 in
    rw⁻¹ same (read_layout e name partitions t n next valid en ep)
