-- ===== src/Partition/Names/Decimal.antt =====
-- The canonical file names are read back.
use immulog.Prelude.{
  ℕ, zero, suc, ◌+◌, ◌-◌, ◌*◌, ◌/◌, ◌%◌, ◌^◌, ◌≤◌, ◌<◌, ◌≡◌, ◌∙◌, refl, true, false, ◌||◌, List, [],
  ◌∷◌, ◌++◌, length, drop, take, ltb, leb, length-append, take-append, drop-append, arith,
}
use immulog.Api.Errors.{ok}
use immulog.Format.{max_offset}
use immulog.Format.LittleEndian.{bytes_eq}
use immulog.Partition.Names.{
  DiscoveredSegment, decimal, segment_name, is_digits, parse_digits, has_suffix, has_base,
  segment_base, log_suffix,
}

length-decimal : (w n : ℕ) → length (decimal w n) ≡ w
unfolding decimal
length-decimal zero n = refl
length-decimal (suc w) n =
    omega
      (arith, length-append (decimal w (n / 10)) ((48 + n % 10) ∷ []), length-decimal w (n / 10))

is_digits-snoc :
    (ds : List ℕ) (c : ℕ) → c < 10 → is_digits ds ≡ true → is_digits (ds ++ ((48 + c) ∷ [])) ≡ true
unfolding is_digits
is_digits-snoc [] c l h = ground arith
is_digits-snoc (d ∷ ds) c l h = ground (arith, is_digits-snoc ds c l)

is_digits-decimal : (w n : ℕ) → is_digits (decimal w n) ≡ true
unfolding decimal is_digits
is_digits-decimal zero n = refl
is_digits-decimal (suc w) n =
    is_digits-snoc (decimal w (n / 10)) (n % 10) (omega arith) (is_digits-decimal w (n / 10))

parse_digits-snoc :
    (m : ℕ) (ds : List ℕ) (c : ℕ)
    → parse_digits m (ds ++ ((48 + c) ∷ [])) ≡ 10 * parse_digits m ds + c
unfolding parse_digits
parse_digits-snoc m [] c = omega arith
parse_digits-snoc m (d ∷ ds) c = parse_digits-snoc (10 * m + (d - 48)) ds c

parse_digits-decimal : (w n : ℕ) → n < 10 ^ w → parse_digits 0 (decimal w n) ≡ n
unfolding decimal parse_digits
parse_digits-decimal zero n h = omega arith
parse_digits-decimal (suc w) n h =
    parse_digits-snoc 0 (decimal w (n / 10)) (n % 10)
    ∙ omega (arith, parse_digits-decimal w (n / 10) (omega arith))

-- The name that a segment is published under is read back as its base offset, where no earlier
-- file has it.
pub segment_base-segment_name :
    (base : ℕ) (seen : List DiscoveredSegment)
    → base ≤ max_offset
    → has_base base seen ≡ false
    → segment_base (take (length (segment_name base) - 4) (segment_name base)) seen ≡ ok base
unfolding segment_name segment_base
segment_base-segment_name base seen h new =
    let size = length-decimal 20 base in
    let whole = length-append (decimal 20 base) log_suffix in
    let cut : take (length (decimal 20 base)) (decimal 20 base ++ log_suffix) ≡ decimal 20 base =
      take-append (decimal 20 base) log_suffix in
    let front : take 20 (decimal 20 base ++ log_suffix) ≡ decimal 20 base = rw size at cut in
    let range : leb (2 ^ 64) base || ltb max_offset base ≡ false = ground arith in
    let stem : take (length (decimal 20 base ++ log_suffix) - 4) (decimal 20 base ++ log_suffix)
        ≡ decimal 20 base =
      rw (whole, size) front in
    rw (stem, size, is_digits-decimal 20 base, parse_digits-decimal 20 base (omega arith))
      (rw (range, new) refl)

pub has_suffix-segment_name : (base : ℕ) → has_suffix (segment_name base) ≡ true
unfolding segment_name has_suffix bytes_eq
has_suffix-segment_name base =
    let size = length-decimal 20 base in
    let whole = length-append (decimal 20 base) log_suffix in
    let cut : drop (length (decimal 20 base)) (decimal 20 base ++ log_suffix) ≡ log_suffix =
      drop-append (decimal 20 base) log_suffix in
    let end : drop 20 (decimal 20 base ++ log_suffix) ≡ log_suffix = rw size at cut in
    rw (whole, size, end) refl
