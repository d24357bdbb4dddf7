-- ===== src/Format/LittleEndian.antt =====
-- `binary.LittleEndian` and the writes and reads at fixed positions of a byte slice.
use immulog.Prelude.{
  ap, ℕ, zero, suc, ◌+◌, ◌*◌, ◌/◌, ◌%◌, ◌^◌, ◌<◌, ◌≤◌, ◌≡◌, refl, List, drop-append_le,
  take-append_le, length-drop, length-take, take-length, take-append, [], ◌∷◌, ◌++◌, length, take,
  drop, arith, Bool, true, false, ◌&&◌, ◌==◌,
}

-- The `w` bytes of an unsigned number, lowest first: `PutUint16`, `PutUint32`, `PutUint64`.
abbrev pub le : ℕ → ℕ → List ℕ
le zero v = []
le (suc w) v = (v % 256) ∷ le w (v / 256)

abbrev pub un_le : List ℕ → ℕ
un_le [] = 0
un_le (b ∷ bs) = b + 256 * un_le bs

-- `copy(data, bs)`
abbrev pub overlay : List ℕ → List ℕ → List ℕ
overlay [] xs = xs
overlay (b ∷ bs) [] = []
overlay (b ∷ bs) (x ∷ xs) = b ∷ overlay bs xs

-- `copy(data[i:], bs)`
abbrev pub write : ℕ → List ℕ → List ℕ → List ℕ
write zero bs xs = overlay bs xs
write (suc i) bs [] = []
write (suc i) bs (x ∷ xs) = x ∷ write i bs xs

-- `data[lo : lo+n]`
unfoldable pub slice : ℕ → ℕ → List ℕ → List ℕ
slice lo n data' = take n (drop lo data')

unfoldable pub u16 : ℕ → List ℕ → ℕ
unfolding slice
u16 at data' = un_le (slice at 2 data')

unfoldable pub u32 : ℕ → List ℕ → ℕ
unfolding slice
u32 at data' = un_le (slice at 4 data')

unfoldable pub u64 : ℕ → List ℕ → ℕ
unfolding slice
u64 at data' = un_le (slice at 8 data')

-- `a == b` on byte slices or strings.
unfoldable pub bytes_eq : List ℕ → List ℕ → Bool
bytes_eq [] [] = true
bytes_eq [] (y ∷ ys) = false
bytes_eq (x ∷ xs) [] = false
bytes_eq (x ∷ xs) (y ∷ ys) = x == y && bytes_eq xs ys

pub un_le-le : (w v : ℕ) → v < 256 ^ w → un_le (le w v) ≡ v
un_le-le zero v h = omega arith
un_le-le (suc w) v h = omega (arith, un_le-le w (v / 256) (omega arith))

pub un_le-le_2 : (v : ℕ) → v < 2 ^ 16 → un_le (le 2 v) ≡ v
un_le-le_2 v h = omega arith

pub un_le-le_4 : (v : ℕ) → v < 2 ^ 32 → un_le (le 4 v) ≡ v
un_le-le_4 v h = omega arith

pub un_le-le_8 : (v : ℕ) → v < 2 ^ 64 → un_le (le 8 v) ≡ v
un_le-le_8 v h = un_le-le 8 v h

pub bytes_eq_refl : (xs : List ℕ) → bytes_eq xs xs ≡ true
unfolding bytes_eq
bytes_eq_refl [] = refl
bytes_eq_refl (x ∷ xs) = ground (arith, bytes_eq_refl xs)

pub bytes_eq→eq : (xs ys : List ℕ) → bytes_eq xs ys ≡ true → xs ≡ ys
unfolding bytes_eq
bytes_eq→eq [] [] h = refl
bytes_eq→eq [] (y ∷ ys) h = cc
bytes_eq→eq (x ∷ xs) [] h = cc
bytes_eq→eq (x ∷ xs) (y ∷ ys) h = ground (arith, bytes_eq→eq xs ys)

-- A read inside the front of the data does not see what follows.
pub slice-append_le :
    (at n : ℕ) (xs ys : List ℕ) → at + n ≤ length xs → slice at n (xs ++ ys) ≡ slice at n xs
unfolding slice
slice-append_le at n xs ys h =
    rw (drop-append_le at xs ys (omega arith))
      (take-append_le n (drop at xs) ys (omega (arith, length-drop at xs)))

pub length-slice : (at n : ℕ) (xs : List ℕ) → at + n ≤ length xs → length (slice at n xs) ≡ n
unfolding slice
length-slice at n xs h = length-take n (drop at xs) (omega (arith, length-drop at xs))

pub slice-whole : (xs : List ℕ) (n : ℕ) → n ≡ length xs → slice 0 n xs ≡ xs
unfolding slice
slice-whole xs n e = rw e (take-length xs)

pub slice-front : (xs ys : List ℕ) (n : ℕ) → n ≡ length xs → slice 0 n (xs ++ ys) ≡ xs
unfolding slice
slice-front xs ys n e = rw e (take-append xs ys)

pub u16-append_le : (at : ℕ) (xs ys : List ℕ) → at + 2 ≤ length xs → u16 at (xs ++ ys) ≡ u16 at xs
unfolding u16
u16-append_le at xs ys h = ap un_le (slice-append_le at 2 xs ys h)

pub u32-append_le : (at : ℕ) (xs ys : List ℕ) → at + 4 ≤ length xs → u32 at (xs ++ ys) ≡ u32 at xs
unfolding u32
u32-append_le at xs ys h = ap un_le (slice-append_le at 4 xs ys h)

pub u64-append_le : (at : ℕ) (xs ys : List ℕ) → at + 8 ≤ length xs → u64 at (xs ++ ys) ≡ u64 at xs
unfolding u64
u64-append_le at xs ys h = ap un_le (slice-append_le at 8 xs ys h)
