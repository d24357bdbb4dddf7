-- ===== src/SegmentFiles/Victim.antt =====
-- The victim of an eviction: an unpinned entry that was used least recently, if there is one.
use immulog.Prelude.{
  ◌≤◌, ◌≡◌, ◌≢◌, ◌⊎◌, inl, inr, refl, Option, none, some, List, [], ◌∷◌, All, arith,
}
use text.Mathlib.TextEquality.{eq_iff}
use immulog.SegmentFiles.{SegmentFileEntry, find, better, victim}
use immulog.SegmentFiles.Entries.{IsDistinct}

-- The entry stands in the list.
abbrev pub In : SegmentFileEntry → List SegmentFileEntry → Type 0
In v [] = ⊥
In v (e ∷ es) = (v ≡ e) ⊎ In v es

abbrev IsUnpinned : Option SegmentFileEntry → Type 0
IsUnpinned none = Unit
IsUnpinned (some v) = v.refs ≡ 0

-- `v` was used no later than the entry.
abbrev Before : SegmentFileEntry → Option SegmentFileEntry → Type 0
Before v none = Unit
Before v (some e) = v.used ≤ e.used

abbrev pub IsLeast : SegmentFileEntry → List SegmentFileEntry → Type 0
IsLeast v = All (λ e. e.refs ≡ 0 → v.used ≤ e.used)

pub victim-unpinned :
    (a : Option SegmentFileEntry) (es : List SegmentFileEntry) (v : SegmentFileEntry)
    → IsUnpinned a
    → victim a es ≡ some v
    → v.refs ≡ 0
unfolding victim better
victim-unpinned none [] v h e = cc
victim-unpinned (some a) [] v h e = ground arith
victim-unpinned none (x ∷ xs) v h e =
    ground (arith, victim-unpinned none xs v, victim-unpinned (some x) xs v)
victim-unpinned (some a) (x ∷ xs) v h e =
    ground (arith, victim-unpinned (some a) xs v, victim-unpinned (some x) xs v)

pub victim-none :
    (a : Option SegmentFileEntry) (es : List SegmentFileEntry)
    → victim a es ≡ none
    → (a ≡ none) × All (λ e. e.refs ≢ 0) es
unfolding victim better
victim-none none [] e = (refl, tt)
victim-none (some a) [] e = cc
victim-none none (x ∷ xs) e = ground (arith, victim-none none xs, victim-none (some x) xs)
victim-none (some a) (x ∷ xs) e = ground (arith, victim-none (some a) xs, victim-none (some x) xs)

victim-In :
    (a : Option SegmentFileEntry) (es : List SegmentFileEntry) (v : SegmentFileEntry)
    → victim a es ≡ some v
    → (a ≡ some v) ⊎ In v es
unfolding victim better
victim-In none [] v e = cc
victim-In (some a) [] v e = inl (ground arith)
victim-In none (x ∷ xs) v e = ground (arith, victim-In none xs v, victim-In (some x) xs v)
victim-In (some a) (x ∷ xs) v e = ground (arith, victim-In (some a) xs v, victim-In (some x) xs v)

pub victim-IsLeast :
    (a : Option SegmentFileEntry) (es : List SegmentFileEntry) (v : SegmentFileEntry)
    → victim a es ≡ some v
    → Before v a × IsLeast v es
unfolding victim better
victim-IsLeast none [] v e = cc
victim-IsLeast (some a) [] v e = ground arith
victim-IsLeast none (x ∷ xs) v e =
    ground (arith, victim-IsLeast none xs v, victim-IsLeast (some x) xs v)
victim-IsLeast (some a) (x ∷ xs) v e =
    ground (arith, victim-IsLeast (some a) xs v, victim-IsLeast (some x) xs v)

In-find :
    (v : SegmentFileEntry) (es : List SegmentFileEntry)
    → In v es
    → IsDistinct es
    → find v.path es ≡ some v
unfolding find
In-find v [] h d = absurd h
In-find v (x ∷ xs) (inl q) d = rw q (ground (arith, eq_iff x.path x.path))
In-find v (x ∷ xs) (inr h) (d, ds) =
    let there = In-find v xs h ds in ground (arith, eq_iff x.path v.path)

-- The victim is found under its own path.
pub victim-find :
    (es : List SegmentFileEntry) (v : SegmentFileEntry)
    → IsDistinct es
    → victim none es ≡ some v
    → find v.path es ≡ some v
victim-find es v d e = elim (victim-In none es v e) [ inl h ↦ cc | inr h ↦ In-find v es h d ]

-- The entry that the search finds is one of those given, is not pinned, and was used no later than
-- every other entry that is not pinned.
pub victim_lem :
    (es : List SegmentFileEntry) (v : SegmentFileEntry)
    → victim none es ≡ some v
    → In v es × (v.refs ≡ 0) × IsLeast v es
victim_lem es v e = (
  elim (victim-In none es v e) [ inl h ↦ cc | inr h ↦ h ],
  victim-unpinned none es v tt e,
  (victim-IsLeast none es v e).1,
)
