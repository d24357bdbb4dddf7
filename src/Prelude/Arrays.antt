-- ===== src/Prelude/Arrays.antt =====
-- Go's arrays `[n]byte`: the size stands in the type.
use Prim.Native.Nat.{ℕ, zero, suc}
use mathlib.Core.Path.{◌≡◌, refl, ap}
use mathlib.Core.Bool.{Bool, true, ◌&&◌}
use mathlib.Core.List.{List, [], ◌∷◌, ◌++◌}
use native.Mathlib.Omega.{arith}
use immulog.Prelude.Tests.{◌==◌}
use immulog.Prelude.Lists.{length}

-- `n` numbers.
abbrev pub Array : ℕ → Type 0
Array zero = Unit
Array (suc n) = ℕ × Array n

-- `a[:]`
abbrev pub bytes : (n : ℕ) → Array n → List ℕ
bytes zero a = []
bytes (suc n) a = a.0 ∷ bytes n a.1

-- `copy(a[:], data)` into a zero array.
abbrev pub of_bytes : (n : ℕ) → List ℕ → Array n
of_bytes zero xs = tt
of_bytes (suc n) [] = (0, of_bytes n [])
of_bytes (suc n) (x ∷ xs) = (x, of_bytes n xs)

-- `a == b` on arrays.
unfoldable pub array_eq : (n : ℕ) → Array n → Array n → Bool
array_eq zero a b = true
array_eq (suc n) a b = a.0 == b.0 && array_eq n a.1 b.1

-- The zero value of the type.
abbrev pub zeros : (n : ℕ) → Array n
zeros zero = tt
zeros (suc n) = (0, zeros n)

pub of_bytes-bytes : (n : ℕ) (a : Array n) (rest : List ℕ) → of_bytes n (bytes n a ++ rest) ≡ a
of_bytes-bytes zero a rest = refl
of_bytes-bytes (suc n) a rest = ap (λ (t : Array n). (a.0, t)) (of_bytes-bytes n a.1 rest)

pub length-bytes : (n : ℕ) (a : Array n) → length (bytes n a) ≡ n
length-bytes zero a = refl
length-bytes (suc n) a = omega (arith, length-bytes n a.1)

pub array_eq_refl : (n : ℕ) (a : Array n) → array_eq n a a ≡ true
unfolding array_eq
array_eq_refl zero a = refl
array_eq_refl (suc n) a = ground (arith, array_eq_refl n a.1)

pub array_eq→eq : (n : ℕ) (a b : Array n) → array_eq n a b ≡ true → a ≡ b
unfolding array_eq
array_eq→eq zero a b h = refl
array_eq→eq (suc n) a b h = ground (arith, array_eq→eq n a.1 b.1)
