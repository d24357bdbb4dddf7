-- ===== src/Tail/Ring/Index.antt =====
-- Places in the ring: a sum within twice the size, taken round at the size.
use immulog.Prelude.{ℕ, suc, ◌+◌, ◌-◌, ◌^◌, ◌%◌, ◌≤◌, ◌<◌, ◌≡◌, ◌≢◌, ◌⊎◌, inl, inr, refl, arith}
use native.Mathlib.Nat.{mod-eq_of_lt, mod-eq-sub-mod}
use native.Mathlib.Decide.{dec_lt}

-- A sum of two places either fits or has gone round once.
pub round_cases :
    (h k n : ℕ)
    → h < n
    → k ≤ n
    → ((h + k < n) × ((h + k) % n ≡ h + k)) ⊎ ((n ≤ h + k) × ((h + k) % n ≡ h + k - n))
round_cases h k n hh hk = elim (dec_lt (h + k) n) [
  | yes p ↦ inl (p, mod-eq_of_lt p)
  | no p ↦ inr (
    omega arith,
    omega (
      arith,
      mod-eq-sub-mod {n = h + k} {m = n} (omega arith),
      mod-eq_of_lt {n = h + k - n} {m = n} (omega arith),
    ),
  )
]

pub round_lt : (h k n : ℕ) → h < n → k ≤ n → (h + k) % n < n
round_lt h k n hh hk = let c = round_cases h k n hh hk in ground arith

pub round_zero : (h n : ℕ) → h < n → (h + 0) % n ≡ h
round_zero h n hh = let c = round_cases h 0 n hh (omega arith) in ground arith

pub round_all : (h k n : ℕ) → h < n → k ≡ n → (h + k) % n ≡ h
round_all h k n hh e = let c = round_cases h k n hh (omega arith) in ground arith

pub round_ne_head : (h k n : ℕ) → h < n → suc k < n → h ≢ (h + suc k) % n
round_ne_head h k n hh hk = let c = round_cases h (suc k) n hh (omega arith) in ground arith

-- Different places stay different.
pub round_ne : (h i k n : ℕ) → h < n → i < n → k < n → i ≢ k → (h + i) % n ≢ (h + k) % n
round_ne h i k n hh hi hk ne =
    let ci = round_cases h i n hh (omega arith) in
    let ck = round_cases h k n hh (omega arith) in ground arith

-- One place after the head, and so many more, is one more than so many places after the head.
pub round_suc : (h k n : ℕ) → h < n → k < n → ((h + 1) % n + k) % n ≡ (h + suc k) % n
round_suc h k n hh hk =
    let step = round_cases h 1 n hh (omega arith) in
    let next = round_cases ((h + 1) % n) k n (round_lt h 1 n hh (omega arith)) (omega arith) in
    let both = round_cases h (suc k) n hh (omega arith) in ground arith

-- The places of a uint32 in a ring of at most 256 slots.
pub index_lem :
    (h k n : ℕ) → h < n → k ≤ n → n ≤ 256 → (h + k) % 2 ^ 32 % (n % 2 ^ 32) ≡ (h + k) % n
index_lem h k n hh hk small =
    rw
      (
        mod-eq_of_lt {n = h + k} {m = 2 ^ 32} (omega arith),
        mod-eq_of_lt {n = n} {m = 2 ^ 32} (omega arith),
      )
      refl
