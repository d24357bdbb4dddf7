-- ===== src/SegmentFiles/Trace.antt =====
-- Sequences of operations: every handle that was opened is cached or was closed, exactly once.
use immulog.Prelude.{
  ℕ, ◌+◌, ◌≡◌, inl, inr, refl, String, none, some, List, [], ◌∷◌, ◌++◌, map, arith, Option-cases,
}
use immulog.Api.Errors.{Error, Result, ok, err, Result-cases}
use immulog.SegmentFiles.{
  SegmentFileEntry, SegmentFileCache, new_segment_file_cache, find, put, entry_for, pin, acquire,
  unpin, release, forget, close_all,
}
use immulog.SegmentFiles.Entries.{IsDistinct, put-IsDistinct, remove-IsDistinct}
use immulog.SegmentFiles.Eviction.{
  count, count_files, count-append, count-remove, count-put_new, count-put_old, evict-Evicted,
}
use immulog.SegmentFiles.Operations.{
  pin-IsDistinct, pinned, acquire_ok, release-some, release-none, find-own,
}

pub data Operation : Type 0 where
  acquiring : String → Result ℕ → Operation
  releasing forgetting : String → Operation
  closing_all : Operation

-- The handle that `fsOpen` has opened: it is asked only on a miss.
pub opened_by : SegmentFileCache → String → Result ℕ → List ℕ
opened_by c path (err e) = []
opened_by c path (ok file) = elim (find path c.entries) [ none ↦ file ∷ [] | some e ↦ [] ]

-- The state, the handles opened and the handles closed.
pub step : SegmentFileCache → Operation → SegmentFileCache × List ℕ × List ℕ
unfolding opened_by
step c (acquiring path opened) =
    let (r, c', closed) = acquire c path opened in (c', opened_by c path opened, closed)
step c (releasing path) = let (c', closed) = release c path in (c', [], closed)
step c (forgetting path) = let (c', closed) = forget c path in (c', [], closed)
step c closing_all = let (c', closed) = close_all c in (c', [], closed)

pub run : SegmentFileCache → List Operation → SegmentFileCache × List ℕ × List ℕ
run c [] = (c, [], [])
run c (o ∷ os) =
    let (c', opened, closed) = step c o in
    let (c'', opened', closed') = run c' os in (c'', opened ++ opened', closed ++ closed')

record Balanced (es : List SegmentFileEntry) (opened : List ℕ) (es' : List SegmentFileEntry)
    (closed : List ℕ) : Type 0 where
  distinct : IsDistinct es'
  handles : (f : ℕ) → count_files f es + count f opened ≡ count_files f es' + count f closed

count-map : (f : ℕ) (es : List SegmentFileEntry) → count f (map (λ e. e.file) es) ≡ count_files f es
count-map f [] = refl
count-map f (e ∷ es) = omega (arith, count-map f es)

pin-count :
    (c : SegmentFileCache) (path : String) (opened : Result ℕ) (e : SegmentFileEntry) (f : ℕ)
    → entry_for c path opened ≡ ok e
    → count_files f (pin c e).entries ≡ count_files f c.entries + count f (opened_by c path opened)
unfolding entry_for pin opened_by
pin-count c path (ok file) e f h = elim (Option-cases (find path c.entries)) [
  | inl n ↦
      let q : e ≡ record { path = path; file = file; refs = 0; used = 0 } = ground arith in
      rw (n, opened_by, q)
        (omega (
          arith,
          count-put_new f (pinned c (record { path = path; file = file; refs = 0; used = 0 }))
              c.entries n,
        ))
  | inr (x, s) ↦
      let q : e ≡ x = ground arith in
      rw (s, opened_by, q)
        (omega (arith, count-put_old f (pinned c x) c.entries x (find-own path c.entries x s) refl))
]
pin-count c path (err y) e f h = elim (Option-cases (find path c.entries)) [
  | inl n ↦ ground arith
  | inr (x, s) ↦
      let q : e ≡ x = ground arith in
      rw q
        (omega (arith, count-put_old f (pinned c x) c.entries x (find-own path c.entries x s) refl))
]

acquire_err :
    (c : SegmentFileCache) (path : String) (opened : Result ℕ) (x : Error)
    → entry_for c path opened ≡ err x
    → (acquire c path opened ≡ (err x, c, [])) × (opened_by c path opened ≡ [])
unfolding entry_for opened_by
acquire_err c path (ok file) x h = (unfold acquire in rw (h, acquire), ground arith)
acquire_err c path (err y) x h = (unfold acquire in rw (h, acquire), refl)

acquire-Balanced :
    (c : SegmentFileCache) (path : String) (opened : Result ℕ)
    → IsDistinct c.entries
    → Balanced c.entries
        (opened_by c path opened)
        (acquire c path opened).1.entries
        (acquire c path opened).2
acquire-Balanced c path opened d = elim (Result-cases (entry_for c path opened)) [
  | inl (e, h) ↦
      let r = evict-Evicted (pin c e) (pin-IsDistinct c e d) in
      rw (acquire_ok c path opened e h) (record {
        distinct = r.distinct;
        handles = λ f. omega (arith, r.handles f, pin-count c path opened e f h);
      })
  | inr (x, h) ↦
      let (q, n) = acquire_err c path opened x h in
      rw (q, n) (record { distinct = d; handles = λ f. refl })
]

release-Balanced :
    (c : SegmentFileCache) (path : String)
    → IsDistinct c.entries
    → Balanced c.entries [] (release c path).0.entries (release c path).1
release-Balanced c path d = elim (Option-cases (find path c.entries)) [
  | inl n ↦ rw (release-none c path n) (record { distinct = d; handles = λ f. refl })
  | inr (e, s) ↦
      let c' : SegmentFileCache = record c { entries = put (unpin e) c.entries } in
      let r = evict-Evicted c' (put-IsDistinct (unpin e) c.entries d) in
      let same = λ (f : ℕ).
        count-put_old f (unpin e) c.entries e (unfold unpin in find-own path c.entries e s)
          (unfold unpin in refl) in
      rw (release-some c path e s)
        (record { distinct = r.distinct; handles = λ f. omega (arith, r.handles f, same f) })
]

forget-Balanced :
    (c : SegmentFileCache) (path : String)
    → IsDistinct c.entries
    → Balanced c.entries [] (forget c path).0.entries (forget c path).1
unfolding forget
forget-Balanced c path d = elim (Option-cases (find path c.entries)) [
  | inl n ↦ rw (n, forget) (record { distinct = d; handles = λ f. refl })
  | inr (e, s) ↦
      rw (s, forget)
        (record {
          distinct = remove-IsDistinct path c.entries d;
          handles = λ f. omega (arith, count-remove f path c.entries e d s);
        })
]

step-Balanced :
    (c : SegmentFileCache) (o : Operation)
    → IsDistinct c.entries
    → Balanced c.entries (step c o).1 (step c o).0.entries (step c o).2
unfolding step
step-Balanced c (acquiring path opened) d = acquire-Balanced c path opened d
step-Balanced c (releasing path) d = release-Balanced c path d
step-Balanced c (forgetting path) d = forget-Balanced c path d
step-Balanced c closing_all d =
    unfold close_all in
    record { distinct = tt; handles = λ f. omega (arith, count-map f c.entries) }

run-Balanced :
    (c : SegmentFileCache) (os : List Operation)
    → IsDistinct c.entries
    → Balanced c.entries (run c os).1 (run c os).0.entries (run c os).2
unfolding run
run-Balanced c [] d = record { distinct = d; handles = λ f. refl }
run-Balanced c (o ∷ os) d =
    let s = step-Balanced c o d in
    let r = run-Balanced (step c o).0 os s.distinct in
    record {
      distinct = r.distinct;
      handles = λ f. omega (
        arith,
        s.handles f,
        r.handles f,
        count-append f (step c o).1 (run (step c o).0 os).1,
        count-append f (step c o).2 (run (step c o).0 os).2,
      );
    }

-- What holds of a new cache after some operations.
abbrev pub IsCounted : ℕ → List Operation → Type 0
IsCounted limit os =
    IsDistinct (run (new_segment_file_cache limit) os).0.entries
    × ((f : ℕ)
        → count f (run (new_segment_file_cache limit) os).1
          ≡ count_files f (run (new_segment_file_cache limit) os).0.entries
            + count f (run (new_segment_file_cache limit) os).2)

-- After any operations on a new cache, no path is cached twice, and each handle was opened exactly
-- as often as it stands in the cache and was closed together: none leaks and none is closed twice.
pub run-handles : (limit : ℕ) (os : List Operation) → IsCounted limit os
unfolding new_segment_file_cache
run-handles limit os =
    let r = run-Balanced (record { limit = limit; clock = 0; entries = [] }) os tt in
    (r.distinct, λ f. omega (arith, r.handles f))
