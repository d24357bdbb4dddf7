-- ===== src/SegmentFiles.antt =====
-- storage/segment_files.go: the bounded cache of open descriptors. A handle is a number; the map
-- from paths to entries is a list of entries with different paths. What `fsOpen` answers is an
-- argument, and an operation returns the handles that it closes, in order.
pub mod Entries
pub mod Victim
pub mod Eviction
pub mod Operations
pub mod Trace
use immulog.Prelude.{
  ℕ, zero, suc, ◌+◌, ◌-◌, ◌%◌, ◌^◌, String, Bool, true, false, Option, none, some, List, [], ◌∷◌,
  ◌++◌, length, ltb, ◌==◌, ◌!=◌, if◌then◌else◌, map,
}
use immulog.Api.Errors.{Error, Result, ok, err}
use text.Mathlib.Text.{◌==◌ as str_eq}

pub record SegmentFileEntry : Type 0 where
  pub path : String
  pub file : ℕ
  pub refs : ℕ
  pub used : ℕ

pub record SegmentFileCache : Type 0 where
  pub limit : ℕ
  pub clock : ℕ
  pub entries : List SegmentFileEntry

unfoldable pub new_segment_file_cache : ℕ → SegmentFileCache
new_segment_file_cache limit = record { limit = limit; clock = 0; entries = [] }

-- `cache.entries[path]`
unfoldable pub find : String → List SegmentFileEntry → Option SegmentFileEntry
find path [] = none
find path (e ∷ es) = if str_eq e.path path then some e else find path es

-- `delete(cache.entries, path)`
unfoldable pub remove : String → List SegmentFileEntry → List SegmentFileEntry
remove path [] = []
remove path (e ∷ es) = let rest = remove path es in if str_eq e.path path then rest else e ∷ rest

-- A write through the entry's pointer, or a new entry of the map.
unfoldable pub put : SegmentFileEntry → List SegmentFileEntry → List SegmentFileEntry
put e [] = e ∷ []
put e (x ∷ xs) = let rest = put e xs in if str_eq x.path e.path then e ∷ xs else x ∷ rest

-- One round of the search for a victim.
unfoldable pub better : Option SegmentFileEntry → SegmentFileEntry → Option SegmentFileEntry
better none e = if e.refs != 0 then none else some e
better (some v) e = if e.refs != 0 then some v else if ltb e.used v.used then some e else some v

unfoldable pub victim : Option SegmentFileEntry → List SegmentFileEntry → Option SegmentFileEntry
unfolding better
victim v [] = v
victim v (e ∷ es) = victim (better v e) es

-- The loop of `evictLocked` over the entries, with the handles closed so far. Each round removes
-- an entry, so as many rounds as there are entries are enough.
unfoldable pub evict_loop : ℕ → ℕ → List SegmentFileEntry → List ℕ → List SegmentFileEntry × List ℕ
evict_loop zero limit entries closed = (entries, closed)
evict_loop (suc fuel) limit entries closed =
    if ltb limit (length entries)
    then (elim (victim none entries) [
      | none ↦ (entries, closed)
      | some v ↦ evict_loop fuel limit (remove v.path entries) (closed ++ (v.file ∷ []))
    ])
    else (entries, closed)

-- `evictLocked`
unfoldable pub evict : SegmentFileCache → SegmentFileCache × List ℕ
evict c =
    let (entries, closed) = evict_loop (length c.entries) c.limit c.entries [] in
    (record c { entries = entries }, closed)

-- The entry that `acquire` pins: the cached one, or a new one over the handle that was opened.
unfoldable pub entry_for : SegmentFileCache → String → Result ℕ → Result SegmentFileEntry
entry_for c path opened = elim (find path c.entries) [
  | some e ↦ ok e
  | none ↦ (elim opened [
    | ok file ↦ ok (record { path = path; file = file; refs = 0; used = 0 })
    | err e ↦ err e
  ])
]

-- The state behind `entry.refs++; cache.clock++; entry.used = cache.clock`.
unfoldable pub pin : SegmentFileCache → SegmentFileEntry → SegmentFileCache
pin c e =
    let now = (c.clock + 1) % 2 ^ 64 in
    record c { clock = now; entries = put (record e { refs = e.refs + 1; used = now }) c.entries }

unfoldable pub acquire : SegmentFileCache → String → Result ℕ → Result ℕ × SegmentFileCache × List ℕ
acquire c path opened = elim (entry_for c path opened) [
  | err e ↦ (err e, c, [])
  | ok e ↦ (let (c', closed) = evict (pin c e) in (ok e.file, c', closed))
]

unfoldable pub unpin : SegmentFileEntry → SegmentFileEntry
unpin e = record e { refs = e.refs - 1 }

unfoldable pub release : SegmentFileCache → String → SegmentFileCache × List ℕ
release c path = elim (find path c.entries) [
  | none ↦ (c, [])
  | some e ↦ evict (record c { entries = put (unpin e) c.entries })
]

unfoldable pub forget : SegmentFileCache → String → SegmentFileCache × List ℕ
forget c path = elim (find path c.entries) [
  | none ↦ (c, [])
  | some e ↦ (record c { entries = remove path c.entries }, e.file ∷ [])
]

unfoldable pub close_all : SegmentFileCache → SegmentFileCache × List ℕ
close_all c = (record c { entries = [] }, map (λ e. e.file) c.entries)

unfoldable pub size : SegmentFileCache → ℕ
size c = length c.entries
