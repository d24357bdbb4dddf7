-- ===== src/Partition/Reopen.antt =====
-- Opening a partition's directory after a clean run rebuilds the partition.
use immulog.Prelude.{
  ℕ, suc, ◌≤◌, ◌<◌, ◌≡◌, ◌∙◌, sym, refl, ap, subst, Bool, true, false, not, ◌&&◌, Option, List, [],
  ◌∷◌, ◌++◌, map, ltb_of_le, ◌==◌, !=_of_eq, ==_of_ne, append-nil, append_assoc, arith,
}
use immulog.Api.{TopicId, SegmentId}
use immulog.Api.Errors.{>>=-eq-ok, ok-injective, ok}
use immulog.Format.{max_offset}
use immulog.Format.LittleEndian.{slice}
use immulog.Format.Segment.Sound.{decode_segment_header_valid}
use immulog.Partition.{Segment, Limits, Partition, segments}
use immulog.Partition.Recover.{recover_segment}
use immulog.Partition.Append.{create_segment}
use immulog.Partition.Durable.{recover-IsDurable}
use immulog.Partition.Invariant.{create_segment-IsHeld, IsHeld, IsChain, IsValid}
use immulog.Partition.Names.{DirEntry, DiscoveredSegment, discover_segments, has_base, segment_name}
use immulog.Partition.Names.Decimal.{segment_base-segment_name, has_suffix-segment_name}
use immulog.Partition.Open.{
  insert_by_base, sort_by_base, recover_files, open_files, open_partition, opened_partition,
}

-- The directory entry and the discovered file of a segment.
abbrev pub entry_of : Segment → DirEntry
entry_of s = record {
  is_dir = false;
  name = segment_name s.header.base_offset;
  content = s.content;
}

abbrev pub file_of : Segment → DiscoveredSegment
file_of s = record { base = s.header.base_offset; content = s.content }

-- Bases that grow from `next` on.
abbrev Ascending : ℕ → List Segment → Type 0
Ascending next [] = Unit {0}
Ascending next (s ∷ ss) =
    (next ≤ s.header.base_offset)
    × (s.header.base_offset ≤ max_offset)
    × Ascending (suc s.header.base_offset) ss

abbrev Below : ℕ → List DiscoveredSegment → Type 0
Below next [] = Unit {0}
Below next (f ∷ fs) = (f.base < next) × Below next fs

Below-mono : (a b : ℕ) (fs : List DiscoveredSegment) → a ≤ b → Below a fs → Below b fs
Below-mono a b [] h l = tt
Below-mono a b (f ∷ fs) h l = (omega (arith, l.0), Below-mono a b fs h l.1)

Below-snoc :
    (a : ℕ) (fs : List DiscoveredSegment) (f : DiscoveredSegment)
    → Below a fs
    → f.base < a
    → Below a (fs ++ (f ∷ []))
Below-snoc a [] f l h = (h, tt)
Below-snoc a (g ∷ gs) f l h = (l.0, Below-snoc a gs f l.1 h)

has_base-Below : (base : ℕ) (fs : List DiscoveredSegment) → Below base fs → has_base base fs ≡ false
unfolding has_base
has_base-Below base [] l = refl
has_base-Below base (f ∷ fs) l =
    rw (==_of_ne f.base base (omega (arith, l.0))) (has_base-Below base fs l.1)

discover-Ascending :
    (next : ℕ) (seen : List DiscoveredSegment) (ss : List Segment)
    → Below next seen
    → Ascending next ss
    → discover_segments seen (map entry_of ss) ≡ ok (seen ++ map file_of ss)
unfolding discover_segments
discover-Ascending next seen [] l a = rw append-nil refl
discover-Ascending next seen (s ∷ ss) l a =
    let base = s.header.base_offset in
    let new = has_base-Below base seen (Below-mono next base seen a.0 l) in
    let rest =
      discover-Ascending (suc base) (seen ++ (file_of s ∷ [])) ss
        (Below-snoc (suc base) seen (file_of s)
          (Below-mono next (suc base) seen (omega (arith, a.0)) l) (omega arith))
        a.2 in
    rw (has_suffix-segment_name base, segment_base-segment_name base seen a.1 new)
      (rest ∙ ap ok (append_assoc seen (file_of s ∷ []) (map file_of ss)))

sort-Ascending :
    (next : ℕ) (ss : List Segment)
    → Ascending next ss
    → sort_by_base (map file_of ss) ≡ map file_of ss
unfolding sort_by_base insert_by_base
sort-Ascending next [] a = refl
sort-Ascending next (s ∷ []) a = refl
sort-Ascending next (s ∷ t ∷ ss) a =
    rw (sort-Ascending (suc s.header.base_offset) (t ∷ ss) a.2)
      (rw (ltb_of_le t.header.base_offset s.header.base_offset (omega (arith, a.2.0))) refl)

held_range :
    (topic : TopicId) (partition : ℕ) (s : Segment)
    → IsHeld topic partition s
    → s.header.base_offset ≤ max_offset
held_range topic partition s h =
    (decode_segment_header_valid (slice 0 72 s.content) s.header.topic s.header.partition s.header
      h.durable.header_read).6

Ascending-mono : (m n : ℕ) (ss : List Segment) → m ≤ n → Ascending n ss → Ascending m ss
Ascending-mono m n [] h l = tt
Ascending-mono m n (s ∷ ss) h l = (omega (arith, l.0), l.1, l.2)

chain-Ascending :
    (topic : TopicId) (partition next : ℕ) (ss : List Segment) (a : Segment)
    → IsChain topic partition next ss a
    → Ascending next (ss ++ (a ∷ []))
chain-Ascending topic partition next [] a h =
    (omega (arith, h.1), held_range topic partition a h.0, tt)
chain-Ascending topic partition next (s ∷ ss) a h = (
  omega (arith, h.1),
  held_range topic partition s h.0,
  Ascending-mono (suc s.header.base_offset) s.end (ss ++ (a ∷ [])) (omega (arith, h.0.counted, h.2))
      (chain-Ascending topic partition s.end ss a h.3),
)

-- The oldest segment, and those behind it.
abbrev first : List Segment → Segment → Segment
first [] a = a
first (s ∷ ss) a = s

abbrev others : List Segment → Segment → List Segment
others [] a = []
others (s ∷ ss) a = ss ++ (a ∷ [])

split-first :
    (ss : List Segment) (a : Segment)
    → map file_of (ss ++ (a ∷ [])) ≡ file_of (first ss a) ∷ map file_of (others ss a)
split-first [] a = refl
split-first (s ∷ ss) a = refl

first-base :
    (topic : TopicId) (partition next : ℕ) (ss : List Segment) (a : Segment)
    → IsChain topic partition next ss a
    → (first ss a).header.base_offset ≡ next
first-base topic partition next [] a h = h.1
first-base topic partition next (s ∷ ss) a h = h.1

recover_held :
    (topic : TopicId) (partition : ℕ) (s : Segment) (final : Bool)
    → IsHeld topic partition s
    → not final && s.records == 0 ≡ false
    → recover_segment s.content s.header.base_offset topic partition final s.header.base_offset
      ≡ ok s
recover_held topic partition s final h e =
    let r : recover_segment s.content s.header.base_offset s.header.topic s.header.partition final
          s.header.base_offset
        ≡ ok s =
      recover-IsDurable s final h.durable e in
    rw⁻¹ (h.topic_eq, h.partition_eq) r

recover-chain :
    (topic : TopicId) (partition next : ℕ) (ss : List Segment) (a : Segment)
    → IsChain topic partition next ss a
    → recover_files topic partition next (file_of (first ss a)) (map file_of (others ss a))
      ≡ ok (ss, a)
unfolding recover_files
recover-chain topic partition next [] a h = rw⁻¹ h.1 (
    rw
      (
        !=_of_eq a.header.base_offset a.header.base_offset refl,
        recover_held topic partition a true h.0 refl,
      )
      refl)
recover-chain topic partition next (s ∷ ss) a h = rw⁻¹ h.1 (
    rw (split-first ss a) (
      rw
        (
          !=_of_eq s.header.base_offset s.header.base_offset refl,
          recover_held topic partition s false h.0 (==_of_ne s.records 0 (omega (arith, h.2))),
          recover-chain topic partition s.end ss a h.3,
        )
        refl))

-- A valid partition is rebuilt from its directory: the files of its segments, listed in order, give
-- the same segments, the same log end and a partition that takes appends.
pub open_partition-IsValid :
    (start : ℕ) (p : Partition) (created : Option SegmentId)
    → IsValid start p
    → open_partition p.topic p.partition p.limits start created (map entry_of (segments p))
      ≡ ok (record p { closed = false; closing = false; unavailable = false })
unfolding open_partition open_files
open_partition-IsValid start p created v =
    let ascending = chain-Ascending p.topic p.partition start p.sealed p.active v.chain in
    let base = first-base p.topic p.partition start p.sealed p.active v.chain in
    let recovered =
      subst
        (λ n.
          recover_files p.topic p.partition n (file_of (first p.sealed p.active))
            (map file_of (others p.sealed p.active))
          ≡ ok (p.sealed, p.active))
        (sym base) (recover-chain p.topic p.partition start p.sealed p.active v.chain) in
    rw
      (
        discover-Ascending start [] (segments p) tt ascending,
        sort-Ascending start (segments p) ascending,
        split-first p.sealed p.active,
        !=_of_eq (first p.sealed p.active).header.base_offset start base,
        recovered,
      )
      (rw v.log_end_eq refl)

-- Opening an empty directory makes a valid partition at the initial offset, without records.
pub open_partition-empty :
    (topic : TopicId) (partition : ℕ) (limits : Limits) (initial : ℕ) (created : Option SegmentId)
    (p : Partition)
    → open_partition topic partition limits initial created [] ≡ ok p
    → IsValid initial p × (p.log_end ≡ initial) × (p.sealed ≡ [])
unfolding open_partition open_files discover_segments sort_by_base
open_partition-empty topic partition limits initial created p e =
    let (s, made, e1) = >>=-eq-ok (create_segment topic partition initial created) _ e in
    let (held, base, empty) = create_segment-IsHeld topic partition initial created s made in
    let same : opened_partition topic partition limits [] s ≡ p = ok-injective e1 in
    subst (λ q. IsValid initial q × (q.log_end ≡ initial) × (q.sealed ≡ [])) same
      (
        record { chain = (held, base); log_end_eq = refl },
        omega (arith, held.counted, base, empty),
        refl,
      )
