-- ===== src/Format/Utf8.antt =====
-- `utf8.Valid` and `utf8.ValidString`: the byte sequences that encode code points, with no
-- surrogate and no overlong form.
use immulog.Prelude.{
  ℕ, zero, suc, Bool, false, ◌&&◌, Option, none, some, List, [], ◌∷◌, leb, ltb, ◌==◌, if◌then◌else◌,
}

-- For a first byte: how many bytes follow, and the range of the next.
first_byte : ℕ → Option (ℕ × ℕ × ℕ)
first_byte b =
    if ltb b 0x80
    then some (0, 0x80, 0xbf)
    else if ltb b 0xc2
    then none
    else if ltb b 0xe0
    then some (1, 0x80, 0xbf)
    else if b == 0xe0
    then some (2, 0xa0, 0xbf)
    else if b == 0xed
    then some (2, 0x80, 0x9f)
    else if ltb b 0xf0
    then some (2, 0x80, 0xbf)
    else if b == 0xf0
    then some (3, 0x90, 0xbf)
    else if ltb b 0xf4
    then some (3, 0x80, 0xbf)
    else if b == 0xf4
    then some (3, 0x80, 0x8f)
    else none

-- `pending` bytes are still to come, and the next must lie between `lo` and `hi`.
valid_from : List ℕ → ℕ → ℕ → ℕ → Bool
unfolding first_byte
valid_from [] pending lo hi = pending == 0
valid_from (b ∷ bs) zero lo hi = elim (first_byte b) [
  | none ↦ false
  | some (n, lo', hi') ↦ valid_from bs n lo' hi'
]
valid_from (b ∷ bs) (suc pending) lo hi = leb lo b && leb b hi && valid_from bs pending 0x80 0xbf

unfoldable pub valid_utf8 : List ℕ → Bool
unfolding valid_from
valid_utf8 data' = valid_from data' 0 0x80 0xbf
