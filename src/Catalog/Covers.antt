-- ===== src/Catalog/Covers.antt =====
-- The retired segments that a catalog records for a partition.
use immulog.Prelude.{
  ℕ, ◌≤◌, ◌<◌, ◌≡◌, ◌∙◌, refl, subst, ◌||◌, some, List, [], ◌∷◌, ltb, leb, ◌==◌, ◌!=◌, ==_of_ne,
  arith,
}
use immulog.Prelude.Arrays.{array_eq}
use immulog.Prelude.Maps.{lookup, insert, lookup-insert_self, lookup-insert_ne}
use immulog.Api.{SegmentId}
use immulog.Api.Errors.{ok, reject_if-eq-ok, ok-injective}
use immulog.Catalog.{number_eq, RetiredSegmentEvent}
use immulog.Catalog.RetentionEvent.{LogStartAdvancedEvent}
use immulog.Catalog.Apply.LogStart.{check_retired, record_retired, contains_id}

-- The segments that a map holds by their base follow one another from one offset to another.
pub data Covers (m : List (ℕ × RetiredSegmentEvent)) : ℕ → ℕ → Type 0 where
  done : (a : ℕ) → Covers m a a
  step :
      {a b c : ℕ} (r : RetiredSegmentEvent)
      → lookup a m ≡ some r
      → r.end ≡ b
      → a < b
      → Covers m b c
      → Covers m a c

pub Covers-le : {m : List (ℕ × RetiredSegmentEvent)} {a c : ℕ} → Covers m a c → a ≤ c
Covers-le (done a) = omega arith
Covers-le (step r l e h k) = omega (arith, Covers-le k)

-- A segment that begins at the end or behind does not disturb the cover.
Covers-insert :
    {m : List (ℕ × RetiredSegmentEvent)} {a c : ℕ} (b : ℕ) (r : RetiredSegmentEvent)
    → c ≤ b
    → Covers m a c
    → Covers (insert b r m) a c
Covers-insert b r h (done a) = done a
Covers-insert {m = m} {a = a} b r h (step s l e lt k) =
    let below = Covers-le k in
    step s (lookup-insert_ne b a r m (==_of_ne b a (λ q. omega arith)) ∙ l) e lt
      (Covers-insert b r h k)

Covers-trans :
    {m : List (ℕ × RetiredSegmentEvent)} {a b c : ℕ} → Covers m a b → Covers m b c → Covers m a c
Covers-trans (done a) k = k
Covers-trans (step r l e h j) k = step r l e h (Covers-trans j k)

-- The segments that the loop lets through, recorded, carry the cover on.
pub record_retired-Covers :
    (e : LogStartAdvancedEvent) (start cursor end : ℕ) (seen : List SegmentId)
    (rs : List RetiredSegmentEvent) (m : List (ℕ × RetiredSegmentEvent))
    → check_retired e cursor seen rs ≡ ok end
    → Covers m start cursor
    → Covers (record_retired rs m) start end
unfolding check_retired record_retired
record_retired-Covers e start cursor end seen [] m h k = subst (Covers m start) (ok-injective h) k
record_retired-Covers e start cursor end seen (r ∷ rs) m h k =
    let (t1, h1) =
      reject_if-eq-ok (r.base != cursor || leb r.end r.base || ltb e.new_l r.end || r.bytes == 0) _
        _ h in
    let (t2, h2) = reject_if-eq-ok (contains_id r.anchor.id seen) _ _ h1 in
    let (t3, h3) = reject_if-eq-ok (array_eq 16 r.anchor.id e.retained_anchor.id) _ _ h2 in
    let base : r.base ≡ cursor = ground arith in
    let longer : cursor < r.end = ground arith in
    let here : lookup cursor (insert r.base r m) ≡ some r =
      subst (λ (n : ℕ). lookup n (insert r.base r m) ≡ some r) base
        (lookup-insert_self r.base r m) in
    record_retired-Covers e start r.end end (r.anchor.id ∷ seen) rs (insert r.base r m) h3
      (Covers-trans (Covers-insert r.base r (omega arith) k) (step r here refl longer (done r.end)))
