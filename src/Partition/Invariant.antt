-- ===== src/Partition/Invariant.antt =====
-- The invariant of a partition: its files rebuild its segments, whose offsets follow one another.
-- Every append keeps it or fences the partition.
use immulog.Prelude.{
  ℕ, ◌+◌, ◌≤◌, ◌≡◌, ◌∙◌, sym, refl, Option, none, some, List, [], ◌∷◌, ◌++◌, subst, drop_all, arith,
}
use immulog.Prelude.Int.{min_int64}
use immulog.Api.{RecordBatch, SegmentId, TopicId}
use immulog.Api.Errors.{ok, >>=-eq-ok}
use immulog.Format.LittleEndian.{slice-whole}
use immulog.Format.Segment.{SegmentHeader, encode_segment_header}
use immulog.Format.Segment.RoundTrip.{decode-encode_segment_header, length-encode_segment_header}
use immulog.Codec.Batch.{decode_batch}
use immulog.Partition.{Segment, Partition}
use immulog.Partition.Recover.{scan_batches}
use immulog.Partition.Append.{create_segment, extend}
use immulog.Partition.Durable.{IsDurable, extend-IsDurable}

-- A segment of the partition, whose offsets are counted by its records.
pub record IsHeld (topic : TopicId) (partition : ℕ) (s : Segment) : Type 0 where
  pub durable : IsDurable s
  pub topic_eq : s.header.topic ≡ topic
  pub partition_eq : s.header.partition ≡ partition
  pub counted : s.end ≡ s.header.base_offset + s.records

-- The sealed segments hold records and follow one another from `next`, and the active one follows
-- them.
abbrev pub IsChain : TopicId → ℕ → ℕ → List Segment → Segment → Type 0
IsChain topic partition next [] active =
    IsHeld topic partition active × (active.header.base_offset ≡ next)
IsChain topic partition next (s ∷ ss) active =
    IsHeld topic partition s
    × (s.header.base_offset ≡ next)
    × (1 ≤ s.records)
    × IsChain topic partition s.end ss active

pub record IsValid (start : ℕ) (p : Partition) : Type 0 where
  pub chain : IsChain p.topic p.partition start p.sealed p.active
  pub log_end_eq : p.log_end ≡ p.active.end

-- The active segment is held.
pub chain-active :
    (topic : TopicId) (partition next : ℕ) (ss : List Segment) (a : Segment)
    → IsChain topic partition next ss a
    → IsHeld topic partition a
chain-active topic partition next [] a h = h.0
chain-active topic partition next (s ∷ ss) a h = chain-active topic partition s.end ss a h.3

-- The active segment may be replaced by one with the same base.
pub IsChain-replace :
    (topic : TopicId) (partition next : ℕ) (ss : List Segment) (a : Segment) (a' : Segment)
    → IsChain topic partition next ss a
    → IsHeld topic partition a'
    → a'.header.base_offset ≡ a.header.base_offset
    → IsChain topic partition next ss a'
IsChain-replace topic partition next [] a a' h held e = (held, e ∙ h.1)
IsChain-replace topic partition next (s ∷ ss) a a' h held e =
    (h.0, h.1, h.2, IsChain-replace topic partition s.end ss a a' h.3 held e)

-- The active segment may be sealed, if it holds a record.
pub IsChain-roll :
    (topic : TopicId) (partition next : ℕ) (ss : List Segment) (a : Segment) (a' : Segment)
    → IsChain topic partition next ss a
    → 1 ≤ a.records
    → IsHeld topic partition a'
    → a'.header.base_offset ≡ a.end
    → IsChain topic partition next (ss ++ (a ∷ [])) a'
IsChain-roll topic partition next [] a a' h n held e = (h.0, h.1, n, (held, e))
IsChain-roll topic partition next (s ∷ ss) a a' h n held e =
    (h.0, h.1, h.2, IsChain-roll topic partition s.end ss a a' h.3 n held e)

-- A segment over a fresh header.
abbrev fresh : SegmentHeader → List ℕ → Segment
fresh h encoded = record {
  header = h;
  end = h.base_offset;
  size = 72;
  records = 0;
  max_time = min_int64;
  batches = [];
  content = encoded;
}

fresh-IsDurable :
    (h : SegmentHeader) (encoded : List ℕ)
    → encode_segment_header h ≡ ok encoded
    → IsDurable (fresh h encoded)
unfolding scan_batches
fresh-IsDurable h encoded e =
    let size = length-encode_segment_header h e in
    record {
      long = omega (arith, size);
      sized = sym size;
      header_read = rw (slice-whole encoded 72 (sym size)) (decode-encode_segment_header h e);
      scanned = λ final. rw (drop_all encoded 72 (omega (arith, size)));
    }

pub create_segment-IsHeld :
    (topic : TopicId) (partition base : ℕ) (id : Option SegmentId) (s : Segment)
    → create_segment topic partition base id ≡ ok s
    → IsHeld topic partition s × (s.header.base_offset ≡ base) × (s.records ≡ 0)
unfolding create_segment
create_segment-IsHeld topic partition base none s e = cc
create_segment-IsHeld topic partition base (some id) s e =
    let h : SegmentHeader = record {
      topic = topic;
      partition = partition;
      base_offset = base;
      id = id;
    } in
    let (encoded, e1, e2) = >>=-eq-ok (encode_segment_header h) _ e in
    let q : fresh h encoded ≡ s = ground arith in
    subst (λ t. IsHeld topic partition t × (t.header.base_offset ≡ base) × (t.records ≡ 0)) q
      (
        record {
          durable = fresh-IsDurable h encoded e1;
          topic_eq = refl;
          partition_eq = refl;
          counted = omega arith;
        },
        refl,
        refl,
      )

pub extend-IsHeld :
    (topic : TopicId) (partition : ℕ) (s : Segment) (b : RecordBatch) (e : List ℕ)
    → IsHeld topic partition s
    → decode_batch e topic partition ≡ ok b
    → b.base_offset ≡ s.end
    → IsHeld topic partition (extend s b e)
extend-IsHeld topic partition s b e h d next = record {
  durable = extend-IsDurable s b e h.durable (rw (h.topic_eq, h.partition_eq) d) next;
  topic_eq = h.topic_eq;
  partition_eq = h.partition_eq;
  counted = omega (arith, h.counted);
}
