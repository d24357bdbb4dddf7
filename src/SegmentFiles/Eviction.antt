-- ===== src/SegmentFiles/Eviction.antt =====
-- The eviction loop.
use immulog.Prelude.{
  ℕ, zero, suc, ◌+◌, ◌≤◌, ◌≡◌, ◌≢◌, ◌⊎◌, inl, inr, refl, String, none, some, List, [], ◌∷◌, ◌++◌,
  All, length, ltb, ◌==◌, ltb-false→le, if◌then◌else◌, arith, Bool-cases, Option-cases,
}
use text.Mathlib.TextEquality.{eq_iff}
use immulog.SegmentFiles.{
  SegmentFileEntry, SegmentFileCache, find, remove, put, victim, evict_loop, evict,
}
use immulog.SegmentFiles.Entries.{IsDistinct, find-remove, remove-IsDistinct, length-remove}
use immulog.SegmentFiles.Victim.{victim-unpinned, victim-none, victim-find}

-- How often a handle stands in a list of handles, and among the cached entries.
abbrev pub count : ℕ → List ℕ → ℕ
count f [] = 0
count f (x ∷ xs) = (if x == f then 1 else 0) + count f xs

abbrev pub count_files : ℕ → List SegmentFileEntry → ℕ
count_files f [] = 0
count_files f (e ∷ es) = (if e.file == f then 1 else 0) + count_files f es

pub count-append : (f : ℕ) (xs ys : List ℕ) → count f (xs ++ ys) ≡ count f xs + count f ys
count-append f [] ys = omega arith
count-append f (x ∷ xs) ys = omega (arith, count-append f xs ys)

pub remove_absent : (p : String) (es : List SegmentFileEntry) → find p es ≡ none → remove p es ≡ es
unfolding find remove
remove_absent p [] h = refl
remove_absent p (e ∷ es) h = ground (arith, remove_absent p es)

pub count-remove :
    (f : ℕ) (p : String) (es : List SegmentFileEntry) (e : SegmentFileEntry)
    → IsDistinct es
    → find p es ≡ some e
    → count_files f es ≡ (if e.file == f then 1 else 0) + count_files f (remove p es)
unfolding find remove
count-remove f p [] e d h = cc
count-remove f p (x ∷ xs) e (d, ds) h =
    ground (arith, eq_iff x.path p, remove_absent p xs, count-remove f p xs e ds)

pub count-put_new :
    (f : ℕ) (e : SegmentFileEntry) (es : List SegmentFileEntry)
    → find e.path es ≡ none
    → count_files f (put e es) ≡ count_files f es + (if e.file == f then 1 else 0)
unfolding find put
count-put_new f e [] h = omega arith
count-put_new f e (x ∷ xs) h = ground (arith, count-put_new f e xs)

pub count-put_old :
    (f : ℕ) (e : SegmentFileEntry) (es : List SegmentFileEntry) (old : SegmentFileEntry)
    → find e.path es ≡ some old
    → old.file ≡ e.file
    → count_files f (put e es) ≡ count_files f es
unfolding find put
count-put_old f e [] old h q = cc
count-put_old f e (x ∷ xs) old h q = ground (arith, count-put_old f e xs old)

-- All that the loop guarantees of its result.
pub record Evicted (limit : ℕ) (es : List SegmentFileEntry) (closed : List ℕ)
    (es' : List SegmentFileEntry) (closed' : List ℕ) : Type 0 where
  pub distinct : IsDistinct es'
  pub budget : (length es' ≤ limit) ⊎ All (λ e. e.refs ≢ 0) es'
  pub keeps :
      (p : String) (e : SegmentFileEntry) → find p es ≡ some e → e.refs ≢ 0 → find p es' ≡ some e
  pub only : (p : String) (e : SegmentFileEntry) → find p es' ≡ some e → find p es ≡ some e
  pub handles : (f : ℕ) → count_files f es + count f closed ≡ count_files f es' + count f closed'

stop :
    (limit : ℕ) (es : List SegmentFileEntry) (closed : List ℕ)
    → IsDistinct es
    → (length es ≤ limit) ⊎ All (λ e. e.refs ≢ 0) es
    → Evicted limit es closed es closed
stop limit es closed d b = record {
  distinct = d;
  budget = b;
  keeps = λ p e h n. h;
  only = λ p e h. h;
  handles = λ f. refl;
}

-- One round, and what the rounds after it guarantee.
round :
    (limit : ℕ) (es : List SegmentFileEntry) (closed : List ℕ) (v : SegmentFileEntry)
    {es' : List SegmentFileEntry} {closed' : List ℕ}
    → IsDistinct es
    → victim none es ≡ some v
    → Evicted limit (remove v.path es) (closed ++ (v.file ∷ [])) es' closed'
    → Evicted limit es closed es' closed'
round limit es closed v d h r =
    let there = victim-find es v d h in
    let free = victim-unpinned none es v tt h in
    record {
      distinct = r.distinct;
      budget = r.budget;
      keeps = λ p e x n. r.keeps p e (ground (arith, find-remove v.path p es, eq_iff v.path p)) n;
      only = λ p e x. ground (arith, r.only p e x, find-remove v.path p es);
      handles = λ f. omega (
        arith,
        r.handles f,
        count-append f closed (v.file ∷ []),
        count-remove f v.path es v d there,
      );
    }

evict_loop-Evicted :
    (fuel limit : ℕ) (es : List SegmentFileEntry) (closed : List ℕ)
    → IsDistinct es
    → length es ≤ fuel
    → Evicted limit es closed
        (evict_loop fuel limit es closed).0
        (evict_loop fuel limit es closed).1
unfolding evict_loop
evict_loop-Evicted zero limit es closed d n = stop limit es closed d (inl (omega arith))
evict_loop-Evicted (suc fuel) limit es closed d n = elim (Bool-cases (ltb limit (length es))) [
  | inr fits ↦ rw fits (stop limit es closed d (inl (ltb-false→le limit (length es) fits)))
  | inl over ↦ elim (Option-cases (victim none es)) [
    | inl h ↦ rw (over, h) (stop limit es closed d (inr (victim-none none es h).1))
    | inr (v, h) ↦
        rw (over, h)
          (round limit es closed v d h (
            evict_loop-Evicted fuel limit (remove v.path es) (closed ++ (v.file ∷ []))
              (remove-IsDistinct v.path es d)
              (omega (arith, length-remove v.path es v (victim-find es v d h)))))
  ]
]

-- Eviction ends with the cache within its limit, or with pinned entries alone. It keeps every
-- pinned entry, adds none, and closes each handle that it drops exactly once, and no other.
pub evict-Evicted :
    (c : SegmentFileCache)
    → IsDistinct c.entries
    → Evicted c.limit c.entries [] (evict c).0.entries (evict c).1
unfolding evict
evict-Evicted c d = evict_loop-Evicted (length c.entries) c.limit c.entries [] d (omega arith)
