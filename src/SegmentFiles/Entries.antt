-- ===== src/SegmentFiles/Entries.antt =====
-- The map from paths to entries: lookups after a write or a deletion, and distinct paths.
use immulog.Prelude.{
  ◌<◌, ◌≤◌, ◌≡◌, refl, String, none, some, List, [], ◌∷◌, length, if◌then◌else◌, arith, Bool-cases,
  inl, inr,
}
use text.Mathlib.Text.{◌==◌ as str_eq}
use text.Mathlib.TextEquality.{eq_iff}
use immulog.SegmentFiles.{SegmentFileEntry, find, remove, put}

-- No two entries have one path.
abbrev pub IsDistinct : List SegmentFileEntry → Type 0
IsDistinct [] = Unit
IsDistinct (e ∷ es) = (find e.path es ≡ none) × IsDistinct es

pub find-remove :
    (q p : String) (es : List SegmentFileEntry)
    → find p (remove q es) ≡ (if str_eq q p then none else find p es)
unfolding find remove
find-remove q p [] = ground arith
find-remove q p (e ∷ es) =
    ground (arith, find-remove q p es, eq_iff e.path q, eq_iff e.path p, eq_iff q p)

pub find-put :
    (e : SegmentFileEntry) (p : String) (es : List SegmentFileEntry)
    → find p (put e es) ≡ (if str_eq e.path p then some e else find p es)
unfolding find put
find-put e p [] = ground arith
find-put e p (x ∷ xs) =
    ground (arith, find-put e p xs, eq_iff x.path e.path, eq_iff x.path p, eq_iff e.path p)

pub remove-IsDistinct :
    (q : String) (es : List SegmentFileEntry) → IsDistinct es → IsDistinct (remove q es)
unfolding remove
remove-IsDistinct q [] h = tt
remove-IsDistinct q (e ∷ es) (h, hs) = elim (Bool-cases (str_eq e.path q)) [
  | inl t ↦ rw t (remove-IsDistinct q es hs)
  | inr f ↦ rw f (ground (arith, find-remove q e.path es), remove-IsDistinct q es hs)
]

pub put-IsDistinct :
    (x : SegmentFileEntry) (es : List SegmentFileEntry) → IsDistinct es → IsDistinct (put x es)
unfolding put
put-IsDistinct x [] h = (unfold find in refl, tt)
put-IsDistinct x (e ∷ es) (h, hs) = elim (Bool-cases (str_eq e.path x.path)) [
  | inl t ↦ rw t (ground (arith, eq_iff e.path x.path), hs)
  | inr f ↦ rw f (
    ground (arith, find-put x e.path es, eq_iff e.path x.path, eq_iff x.path e.path),
    put-IsDistinct x es hs,
  )
]

pub length-remove-le : (q : String) (es : List SegmentFileEntry) → length (remove q es) ≤ length es
unfolding remove
length-remove-le q [] = omega arith
length-remove-le q (e ∷ es) = ground (arith, length-remove-le q es)

pub length-remove :
    (q : String) (es : List SegmentFileEntry) (v : SegmentFileEntry)
    → find q es ≡ some v
    → length (remove q es) < length es
unfolding remove find
length-remove q [] v h = cc
length-remove q (e ∷ es) v h = ground (arith, length-remove q es v, length-remove-le q es)
