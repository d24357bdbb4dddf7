-- ===== src/Retention/Loop.antt =====
-- What the loop over the segments retires.
use immulog.Prelude.{
  ℕ, zero, suc, ◌+◌, ◌-◌, ◌≤◌, ◌≡◌, ◌⊎◌, inl, inr, refl, ap, subst, Bool, true, false, not, ◌&&◌,
  ◌||◌, List, [], ◌∷◌, ◌++◌, length, ltb, Bool-cases, arith, ltb-false→le,
}
use immulog.Prelude.Int.{ℤ}
use immulog.Api.Errors.{ok, >>=-eq-ok, reject_if-eq-ok, ok-injective}
use immulog.Format.{max_uint64}
use immulog.Config.{PartitionConfig}
use immulog.Partition.{Segment}
use immulog.Retention.{Retirement, retire, time_eligible, size_eligible, retained_segment_bytes}

-- The bytes of some segments.
abbrev pub total_bytes : List Segment → ℕ
total_bytes [] = 0
total_bytes (s ∷ ss) = s.size + total_bytes ss

pub total_bytes-append :
    (xs ys : List Segment) → total_bytes (xs ++ ys) ≡ total_bytes xs + total_bytes ys
total_bytes-append [] ys = omega arith
total_bytes-append (x ∷ xs) ys = omega (arith, total_bytes-append xs ys)

-- Each segment may be retired when those in front of it are gone.
abbrev pub AreEligible : PartitionConfig → ℤ → ℕ → List Segment → Type 0
AreEligible c now total [] = Unit {0}
AreEligible c now total (s ∷ ss) =
    (time_eligible c now s || size_eligible c total ≡ true) × AreEligible c now (total - s.size) ss

-- The first segment that is kept may not be retired.
abbrev pub IsStuck : PartitionConfig → ℤ → ℕ → List Segment → Type 0
IsStuck c now total [] = Unit {0}
IsStuck c now total (s ∷ ss) = time_eligible c now s || size_eligible c total ≡ false

-- The oldest segments that are eligible, one after the other, and no more than the limit.
pub record IsRetirement (limit : ℕ) (c : PartitionConfig) (now : ℤ) (total : ℕ) (ss : List Segment)
    (r : Retirement) : Type 0 where
  pub split : r.retired ++ r.kept ≡ ss
  pub counted : total ≡ total_bytes r.retired + r.total
  pub bounded : length r.retired ≤ limit
  pub eligible : AreEligible c now total r.retired
  pub stuck : (length r.retired ≡ limit) ⊎ IsStuck c now r.total r.kept

stopped : (t u : Bool) → not t && not u ≡ true → t || u ≡ false
stopped t u h = ground arith

goes_on : (t u : Bool) → not t && not u ≡ false → t || u ≡ true
goes_on t u h = ground arith

retired_one :
    (limit : ℕ) (c : PartitionConfig) (now : ℤ) (total : ℕ) (s : Segment) (ss : List Segment)
    (q : Retirement)
    → s.size ≤ total
    → (time_eligible c now s || size_eligible c total ≡ true)
    → IsRetirement limit c now (total - s.size) ss q
    → IsRetirement (suc limit) c now total (s ∷ ss) (record q { retired = s ∷ q.retired })
retired_one limit c now total s ss q l e h = record {
  split = ap (λ xs. s ∷ xs) h.split;
  counted = omega (arith, h.counted);
  bounded = omega (arith, h.bounded);
  eligible = (e, h.eligible);
  stuck = elim h.stuck [ inl n ↦ inl (omega (arith, n)) | inr n ↦ inr n ];
}

-- The loop retires the oldest segments, each eligible by its time or by the bytes left when its
-- turn comes, counts the bytes that remain, and stops at its limit, at a segment that is not
-- eligible, or where only the active segment is left.
pub retire-IsRetirement :
    (limit : ℕ) (c : PartitionConfig) (now : ℤ) (total : ℕ) (by_time by_size : Bool)
    (ss : List Segment) (r : Retirement)
    → retire limit c now total by_time by_size ss ≡ ok r
    → IsRetirement limit c now total ss r
unfolding retire
retire-IsRetirement zero c now total by_time by_size ss r h =
    subst (IsRetirement zero c now total ss) (ok-injective h) (record {
      split = refl;
      counted = omega arith;
      bounded = omega arith;
      eligible = tt;
      stuck = inl refl;
    })
retire-IsRetirement (suc limit) c now total by_time by_size [] r h =
    subst (IsRetirement (suc limit) c now total []) (ok-injective h) (record {
      split = refl;
      counted = omega arith;
      bounded = omega arith;
      eligible = tt;
      stuck = inr tt;
    })
retire-IsRetirement (suc limit) c now total by_time by_size (s ∷ ss) r h =
    elim (Bool-cases (not (time_eligible c now s) && not (size_eligible c total))) [
      | inl t ↦
          let h' = rw t at h in
          subst (IsRetirement (suc limit) c now total (s ∷ ss)) (ok-injective h') (record {
            split = refl;
            counted = omega arith;
            bounded = omega arith;
            eligible = tt;
            stuck = inr (stopped (time_eligible c now s) (size_eligible c total) t);
          })
      | inr t ↦
          let h' = rw t at h in
          let (l, h1) = reject_if-eq-ok (ltb total s.size) _ _ h' in
          let (q, g, h2) =
            >>=-eq-ok
              (retire limit c now (total - s.size) (by_time || time_eligible c now s)
                (by_size || size_eligible c total) ss)
              _ h1 in
          subst (IsRetirement (suc limit) c now total (s ∷ ss)) (ok-injective h2) (
            retired_one limit c now total s ss q (ltb-false→le total s.size l)
              (goes_on (time_eligible c now s) (size_eligible c total) t)
              (retire-IsRetirement limit c now (total - s.size) (by_time || time_eligible c now s)
                (by_size || size_eligible c total) ss q g))
    ]

pub retained_segment_bytes-exact :
    (total : ℕ) (ss : List Segment) (n : ℕ)
    → retained_segment_bytes total ss ≡ ok n
    → n ≡ total + total_bytes ss
unfolding retained_segment_bytes
retained_segment_bytes-exact total [] n h = ground arith
retained_segment_bytes-exact total (s ∷ ss) n h =
    let (_, h1) = reject_if-eq-ok (ltb (max_uint64 - total) s.size) _ _ h in
    omega (arith, retained_segment_bytes-exact (total + s.size) ss n h1)
