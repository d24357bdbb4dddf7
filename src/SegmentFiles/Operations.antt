-- ===== src/SegmentFiles/Operations.antt =====
-- What `acquire` and `release` do to the entry of their path, to pinned entries and to handles.
use immulog.Prelude.{
  ℕ, ◌+◌, ◌-◌, ◌%◌, ◌^◌, ◌≤◌, ◌≡◌, ◌≢◌, ◌⊎◌, inl, inr, refl, String, none, some, List, [], ◌∷◌, All,
  length, if◌then◌else◌, ap, ◌∙◌, sym, arith, Option-cases,
}
use native.Mathlib.Decide.{dec_le}
use text.Mathlib.Text.{◌==◌ as str_eq}
use text.Mathlib.TextEquality.{eq_iff}
use immulog.Api.Errors.{Error, Result, ok, err}
use immulog.SegmentFiles.{
  SegmentFileEntry, SegmentFileCache, find, put, evict, entry_for, pin, acquire, unpin, release,
}
use immulog.SegmentFiles.Entries.{IsDistinct, find-put, put-IsDistinct}
use immulog.SegmentFiles.Eviction.{count, count_files, count-put_old, Evicted, evict-Evicted}

pub find-path :
    (p : String) (es : List SegmentFileEntry) (e : SegmentFileEntry)
    → find p es ≡ some e
    → e.path ≡ p
unfolding find
find-path p [] e h = cc
find-path p (x ∷ xs) e h = ground (arith, eq_iff x.path p, find-path p xs e)

pub find-own :
    (p : String) (es : List SegmentFileEntry) (e : SegmentFileEntry)
    → find p es ≡ some e
    → find e.path es ≡ some e
find-own p es e h = ap (λ (q : String). find q es) (find-path p es e h) ∙ h

-- The entry that `acquire` pins has the path that was asked for.
pub entry_for-path :
    (c : SegmentFileCache) (path : String) (opened : Result ℕ) (e : SegmentFileEntry)
    → entry_for c path opened ≡ ok e
    → e.path ≡ path
unfolding entry_for
entry_for-path c path (ok file) e h = ground (arith, find-path path c.entries e)
entry_for-path c path (err x) e h = ground (arith, find-path path c.entries e)

pub pin-IsDistinct :
    (c : SegmentFileCache) (e : SegmentFileEntry)
    → IsDistinct c.entries
    → IsDistinct (pin c e).entries
unfolding pin
pin-IsDistinct c e d = put-IsDistinct _ c.entries d

abbrev pub pinned : SegmentFileCache → SegmentFileEntry → SegmentFileEntry
pinned c e = record e { refs = e.refs + 1; used = (c.clock + 1) % 2 ^ 64 }

pub find-pin :
    (c : SegmentFileCache) (e : SegmentFileEntry) (p : String)
    → find p (pin c e).entries ≡ (if str_eq e.path p then some (pinned c e) else find p c.entries)
unfolding pin
find-pin c e p = find-put (pinned c e) p c.entries

pub acquire_ok :
    (c : SegmentFileCache) (path : String) (opened : Result ℕ) (e : SegmentFileEntry)
    → entry_for c path opened ≡ ok e
    → acquire c path opened ≡ (ok e.file, (evict (pin c e)).0, (evict (pin c e)).1)
unfolding acquire
acquire_ok c path opened e h = rw (h, acquire)

evict-limit : (c : SegmentFileCache) → (evict c).0.limit ≡ c.limit
unfolding evict
evict-limit c = refl

pin-limit : (c : SegmentFileCache) (e : SegmentFileEntry) → (pin c e).limit ≡ c.limit
unfolding pin
pin-limit c e = refl

-- The cache behind an operation on a path: the pinned entries of other paths are as they were, no
-- other entry is new, and the cache is within its limit or has pinned entries alone.
pub record Leaves (c : SegmentFileCache) (path : String) (es : List SegmentFileEntry) : Type 0 where
  pub distinct : IsDistinct es
  pub others :
      (q : String) (x : SegmentFileEntry)
      → q ≢ path
      → find q c.entries ≡ some x
      → x.refs ≢ 0
      → find q es ≡ some x
  pub only :
      (q : String) (x : SegmentFileEntry)
      → q ≢ path
      → find q es ≡ some x
      → find q c.entries ≡ some x
  pub budget : (length es ≤ c.limit) ⊎ All (λ x. x.refs ≢ 0) es

-- What `acquire` leaves of a handle that had so many references, where it returns the handle.
abbrev pub Pinned :
    SegmentFileCache → String → ℕ → ℕ → Result ℕ × SegmentFileCache × List ℕ → Type 0
Pinned c path file refs (answer, c', closed) =
    (answer ≡ ok file)
    × (find path c'.entries
        ≡ some
            (record { path = path; file = file; refs = refs + 1; used = (c.clock + 1) % 2 ^ 64 }))
    × (c'.clock ≡ (c.clock + 1) % 2 ^ 64)
    × Leaves c path c'.entries

-- What `acquire` does where the path is cached, where it opens a handle, and where it cannot.
abbrev pub IsAcquired : SegmentFileCache → String → Result ℕ → Type 0
IsAcquired c path opened =
    ((e : SegmentFileEntry) × (find path c.entries ≡ some e)
      × Pinned c path e.file e.refs (acquire c path opened))
    ⊎ (find path c.entries ≡ none)
      × (((file : ℕ) × (opened ≡ ok file) × Pinned c path file 0 (acquire c path opened))
          ⊎ ((x : Error) × (opened ≡ err x) × (acquire c path opened ≡ (err x, c, []))))

pin-Leaves :
    (c : SegmentFileCache) (path : String) (e : SegmentFileEntry)
    → IsDistinct c.entries
    → e.path ≡ path
    → Leaves c path (evict (pin c e)).0.entries
unfolding pin
pin-Leaves c path e d here =
    let r = evict-Evicted (pin c e) (pin-IsDistinct c e d) in
    record {
      distinct = r.distinct;
      others = λ q x ne there n. r.keeps q x (ground (arith, find-pin c e q, eq_iff e.path q)) n;
      only = λ q x ne there. ground (arith, r.only q x there, find-pin c e q, eq_iff e.path q);
      budget = r.budget;
    }

pin-Pinned :
    (c : SegmentFileCache) (path : String) (opened : Result ℕ) (e : SegmentFileEntry)
    → IsDistinct c.entries
    → e.path ≡ path
    → entry_for c path opened ≡ ok e
    → Pinned c path e.file e.refs (acquire c path opened)
unfolding pin evict
pin-Pinned c path opened e d here h =
    let r = evict-Evicted (pin c e) (pin-IsDistinct c e d) in
    rw (acquire_ok c path opened e h) (
      refl,
      r.keeps path (pinned c e) (ground (arith, find-pin c e path, eq_iff e.path path))
            (omega arith)
          ∙ ap (λ (q : String). some (record (pinned c e) { path = q })) here,
      refl,
      pin-Leaves c path e d here,
    )

opened_cases :
    (c : SegmentFileCache) (path : String) (opened : Result ℕ)
    → IsDistinct c.entries
    → find path c.entries ≡ none
    → ((file : ℕ) × (opened ≡ ok file) × Pinned c path file 0 (acquire c path opened))
      ⊎ ((x : Error) × (opened ≡ err x) × (acquire c path opened ≡ (err x, c, [])))
unfolding entry_for
opened_cases c path (ok file) d h = inl (
  file,
  refl,
  pin-Pinned c path (ok file) (record { path = path; file = file; refs = 0; used = 0 }) d refl
      (rw (entry_for, h) refl),
)
opened_cases c path (err x) d h =
    let failed : entry_for c path (err x) ≡ err x = rw (entry_for, h) refl in
    inr (x, refl, unfold acquire in rw (failed, acquire) refl)

-- `acquire` of a cached path returns its handle and gives its entry one more reference, whether or
-- not a handle could be opened. Of a path that is not cached it returns the handle that was opened,
-- in an entry with one reference, or fails as the opening did and changes nothing. Where it returns a
-- handle, the clock moves on by one and the entry is stamped with it, every other pinned entry stays
-- as it was, no other entry is new, and the cache ends within its limit or with pinned entries alone.
pub acquire_pins :
    (c : SegmentFileCache) (path : String) (opened : Result ℕ)
    → IsDistinct c.entries
    → IsAcquired c path opened
acquire_pins c path opened d = elim (Option-cases (find path c.entries)) [
  | inr (e, h) ↦ inl (
    e,
    h,
    pin-Pinned c path opened e d (find-path path c.entries e h)
        (unfold entry_for in rw (h, entry_for) refl),
  )
  | inl h ↦ inr (h, opened_cases c path opened d h)
]

pub release-some :
    (c : SegmentFileCache) (path : String) (e : SegmentFileEntry)
    → find path c.entries ≡ some e
    → release c path ≡ evict (record c { entries = put (unpin e) c.entries })
unfolding release
release-some c path e h = rw (h, release)

pub release-none :
    (c : SegmentFileCache) (path : String) → find path c.entries ≡ none → release c path ≡ (c, [])
unfolding release
release-none c path h = rw (h, release)

-- What `release` of a cached path leaves: an entry with a reference less, which stays while there is
-- one left, and the handles that are closed are those that the cache has dropped.
pub record Released (c : SegmentFileCache) (path : String) (e : SegmentFileEntry)
    (es : List SegmentFileEntry) (closed : List ℕ) : Type 0 where
  pub entry :
      ((2 ≤ e.refs) × (find path es ≡ some (record e { refs = e.refs - 1 })))
      ⊎ ((e.refs ≤ 1) × ((find path es ≡ none) ⊎ (find path es ≡ some (record e { refs = 0 }))))
  pub rest : Leaves c path es
  pub handles : (f : ℕ) → count_files f c.entries ≡ count_files f es + count f closed

abbrev pub IsReleased : SegmentFileCache → String → Type 0
IsReleased c path =
    ((find path c.entries ≡ none) × (release c path ≡ (c, [])))
    ⊎ ((e : SegmentFileEntry) × (find path c.entries ≡ some e)
        × Released c path e (release c path).0.entries (release c path).1)

unpinned-Released :
    (c : SegmentFileCache) (path : String) (e : SegmentFileEntry) (es : List SegmentFileEntry)
    (closed : List ℕ)
    → IsDistinct c.entries
    → find path c.entries ≡ some e
    → Evicted c.limit (put (unpin e) c.entries) [] es closed
    → Released c path e es closed
unfolding unpin
unpinned-Released c path e es closed d h r =
    let here = find-path path c.entries e h in
    let lookup = λ (q : String). find-put (unpin e) q c.entries in
    let at_path : find path (put (unpin e) c.entries) ≡ some (unpin e) =
      ground (arith, lookup path, eq_iff e.path path) in
    let entry : ((2 ≤ e.refs) × (find path es ≡ some (record e { refs = e.refs - 1 })))
        ⊎ ((e.refs ≤ 1) × ((find path es ≡ none) ⊎ (find path es ≡ some (record e { refs = 0 })))) =
      elim (dec_le 2 e.refs) [
        | yes more ↦ inl (more, r.keeps path (unpin e) at_path (omega arith))
        | no last ↦ inr (
          omega arith,
          elim (Option-cases (find path es)) [
            | inl gone ↦ inl gone
            | inr (x, there) ↦
                let same = there ∙ (sym (r.only path x there) ∙ at_path) in
                inr (same ∙ ap (λ (n : ℕ). some (record e { refs = n })) (omega arith))
          ],
        )
      ] in
    record {
      entry = entry;
      rest = record {
        distinct = r.distinct;
        others = λ q x ne there n. r.keeps q x (ground (arith, lookup q, eq_iff e.path q)) n;
        only = λ q x ne there. ground (arith, r.only q x there, lookup q, eq_iff e.path q);
        budget = r.budget;
      };
      handles = λ f. omega (
        arith,
        r.handles f,
        count-put_old f (unpin e) c.entries e (find-own path c.entries e h) refl,
      );
    }

-- `release` takes one reference from the entry of its path. While another one is left the entry
-- stays; at none it stays without references or is dropped. Every other pinned entry stays as it
-- was, no other entry is new, the cache ends within its limit or with pinned entries alone, and each
-- handle that is dropped is closed once, and no other. On a path that is not cached it changes
-- nothing.
pub release_unpins :
    (c : SegmentFileCache) (path : String) → IsDistinct c.entries → IsReleased c path
release_unpins c path d = elim (Option-cases (find path c.entries)) [
  | inl h ↦ inl (h, release-none c path h)
  | inr (e, h) ↦ inr (
    e,
    h,
    rw (release-some c path e h) (
        unpinned-Released c path e
          (evict (record c { entries = put (unpin e) c.entries })).0.entries
          (evict (record c { entries = put (unpin e) c.entries })).1 d h
          (evict-Evicted (record c { entries = put (unpin e) c.entries })
            (put-IsDistinct (unpin e) c.entries d))),
  )
]
