-- ===== src/Partition/Names.antt =====
-- The file names of segments: `discoverSegments` of storage/partition.go and the "%020d.log" of
-- `createSegment`. A name is its bytes.
pub mod Decimal
use immulog.Prelude.{
  ℕ, zero, suc, ◌+◌, ◌-◌, ◌*◌, ◌/◌, ◌%◌, ◌^◌, ◌≤◌, ◌<◌, ◌≡◌, ◌≢◌, ◌∙◌, sym, refl, ap, Bool, true,
  false, not, ◌&&◌, ◌||◌, List, [], ◌∷◌, ◌++◌, length, drop, take, ltb, leb, ◌!=◌, ◌==◌, All,
  if◌then◌else◌, arith,
}
use immulog.Api.{TopicId}
use immulog.Api.Errors.{Result, ok, err, corrupt, invalid_segment, reject_if, ◌>>=◌, ◌>>◌}
use immulog.Format.{max_offset}
use immulog.Format.LittleEndian.{bytes_eq}

-- An entry of the partition's directory, with the bytes of the file.
pub record DirEntry : Type 0 where
  pub is_dir : Bool
  pub name : List ℕ
  pub content : List ℕ

-- `discoveredSegment`, with the bytes of the file.
pub record DiscoveredSegment : Type 0 where
  pub base : ℕ
  pub content : List ℕ

-- ".log"
abbrev pub log_suffix : List ℕ
log_suffix = 46 ∷ 108 ∷ 111 ∷ 103 ∷ []

-- The decimal digits of `n`, most significant first: `%0{w}d` where `n` has at most `w` digits.
unfoldable pub decimal : ℕ → ℕ → List ℕ
decimal zero n = []
decimal (suc w) n = decimal w (n / 10) ++ ((48 + n % 10) ∷ [])

-- `fmt.Sprintf("%020d.log", base)`
unfoldable pub segment_name : ℕ → List ℕ
segment_name base = decimal 20 base ++ log_suffix

unfoldable pub is_digits : List ℕ → Bool
is_digits [] = true
is_digits (c ∷ cs) = leb 48 c && leb c 57 && is_digits cs

-- `strconv.ParseUint` on digits, before its test of the range.
unfoldable pub parse_digits : ℕ → List ℕ → ℕ
parse_digits n [] = n
parse_digits n (c ∷ cs) = parse_digits (10 * n + (c - 48)) cs

-- `strings.HasSuffix(name, ".log")`
unfoldable pub has_suffix : List ℕ → Bool
has_suffix name = leb 4 (length name) && bytes_eq (drop (length name - 4) name) log_suffix

-- The base offset of a segment's file name, and whether the bases seen so far have it.
unfoldable pub has_base : ℕ → List DiscoveredSegment → Bool
has_base base [] = false
has_base base (f ∷ fs) = f.base == base || has_base base fs

unfoldable pub segment_base : List ℕ → List DiscoveredSegment → Result ℕ
segment_base name seen = do
  reject_if (length name != 20) (corrupt invalid_segment "noncanonical segment filename")
  reject_if (not (is_digits name)) (corrupt invalid_segment "noncanonical segment filename")
  let base = parse_digits 0 name
  reject_if (leb (2 ^ 64) base || ltb max_offset base)
      (corrupt invalid_segment "segment filename offset outside v1 range")
  reject_if (has_base base seen) (corrupt invalid_segment "duplicate segment base")
  ok base

-- `discoverSegments`, where `seen` has the files so far.
unfoldable pub discover_segments :
    List DiscoveredSegment → List DirEntry → Result (List DiscoveredSegment)
discover_segments seen [] = ok seen
discover_segments seen (e ∷ es) =
    if e.is_dir || not (has_suffix e.name) then discover_segments seen es else (do
      base ← segment_base (take (length e.name - 4) e.name) seen
      discover_segments (seen ++ (record { base = base; content = e.content } ∷ [])) es)
