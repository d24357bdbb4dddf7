-- ===== src/Retention/Elapsed.antt =====
-- The uint64 difference of two times is the true one.
use immulog.Prelude.{ℕ, suc, ◌+◌, ◌≤◌, ◌≡◌, true, false, arith}
use immulog.Prelude.Int.{ℤ, pos, negsuc, min_int64, IsInt64, int_eq, uint64_of_int}
use immulog.Retention.{elapsed_at_least}

-- `a + n ≤ b` on integers.
abbrev pub IsElapsed : ℤ → ℤ → ℕ → Type 0
IsElapsed (pos b) (pos a) n = a + n ≤ b
IsElapsed (pos b) (negsuc a) n = n ≤ b + a + 1
IsElapsed (negsuc b) (pos a) n = suc b + (a + n) ≤ 0
IsElapsed (negsuc b) (negsuc a) n = b + n ≤ a

-- For every time but the least integer, which stands for "no record", the test holds exactly where
-- the timestamp lies at least the duration before now.
pub elapsed_at_least-exact :
    (now timestamp : ℤ) (duration : ℕ)
    → IsInt64 now
    → IsInt64 timestamp
    → int_eq timestamp min_int64 ≡ false
    → ((elapsed_at_least now timestamp duration ≡ true → IsElapsed now timestamp duration)
        × (IsElapsed now timestamp duration → elapsed_at_least now timestamp duration ≡ true))
unfolding elapsed_at_least uint64_of_int
elapsed_at_least-exact (pos b) (pos a) n hb ha e = (λ h. ground arith, λ h. ground arith)
elapsed_at_least-exact (pos b) (negsuc a) n hb ha e = (λ h. ground arith, λ h. ground arith)
elapsed_at_least-exact (negsuc b) (pos a) n hb ha e = (λ h. ground arith, λ h. ground arith)
elapsed_at_least-exact (negsuc b) (negsuc a) n hb ha e = (λ h. ground arith, λ h. ground arith)
