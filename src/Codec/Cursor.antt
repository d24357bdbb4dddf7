-- ===== src/Codec/Cursor.antt =====
-- The `cursor` of storage/codec.go, `appendU32` and `appendNullable`.
use immulog.Prelude.{
  ℕ, ◌≡◌, ◌<◌, ◌^◌, Option, none, some, List, [], ◌∷◌, ◌++◌, length, drop, ltb, ◌==◌, if◌then◌else◌,
  arith, append_assoc, ltb_of_le, ==_of_ne, length-append, take-append, drop-append,
}
use immulog.Api.Errors.{
  Result, ok, corrupt, join, record_too_large, invalid_record, reject_if, ◌>>=◌, ◌>>◌,
}
use immulog.Format.{max_uint32, null_bytes_length}
use immulog.Format.LittleEndian.{le, slice, u32, un_le-le_4}

abbrev pub Cursor : Type 0
Cursor = List ℕ

unfoldable pub append_u32 : List ℕ → ℕ → List ℕ
append_u32 dst value = dst ++ le 4 value

unfoldable pub append_nullable : List ℕ → Option (List ℕ) → Result (List ℕ)
unfolding append_u32
append_nullable dst none = ok (append_u32 dst null_bytes_length)
append_nullable dst (some value) = do
  reject_if (ltb max_uint32 (length value)) (join (record_too_large ∷ invalid_record ∷ []) "")
  ok (append_u32 dst (length value) ++ value)

-- `u32`
unfoldable pub read_u32 : Cursor → Result (ℕ × Cursor)
read_u32 c = do
  reject_if (ltb (length c) 4) (corrupt invalid_record "truncated uint32")
  ok (u32 0 c, drop 4 c)

-- `bytes`
unfoldable pub read_bytes : ℕ → Cursor → Result (List ℕ × Cursor)
read_bytes n c = do
  reject_if (ltb (length c) n) (corrupt invalid_record "declared field exceeds record")
  ok (slice 0 n c, drop n c)

-- `nullableBytes`
unfoldable pub read_nullable : Cursor → Result (Option (List ℕ) × Cursor)
read_nullable c = do
  (n, c') ← read_u32 c
  if n == null_bytes_length
      then ok (none, c')
      else do (value, c'') ← read_bytes n c'; ok (some value, c'')

-- What a nullable field is written as.
abbrev pub nullable_bytes : Option (List ℕ) → List ℕ
nullable_bytes none = le 4 null_bytes_length
nullable_bytes (some value) = le 4 (length value) ++ value

-- The field's length word does not mean nil.
abbrev pub Fits : Option (List ℕ) → Type 0
Fits none = Unit
Fits (some value) = length value < null_bytes_length

pub append_nullable-eq :
    (dst : List ℕ) (o : Option (List ℕ)) {d : List ℕ}
    → append_nullable dst o ≡ ok d
    → d ≡ dst ++ nullable_bytes o
unfolding append_nullable
append_nullable-eq dst none h = ground arith
append_nullable-eq dst (some value) h = ground (arith, append_assoc dst (le 4 (length value)) value)

pub read_u32-le : (v : ℕ) (rest : List ℕ) → v < 2 ^ 32 → read_u32 (le 4 v ++ rest) ≡ ok (v, rest)
unfolding read_u32 u32
read_u32-le v rest h = ground (arith, un_le-le_4 v)

pub read_bytes-append : (xs rest : List ℕ) → read_bytes (length xs) (xs ++ rest) ≡ ok (xs, rest)
unfolding read_bytes slice
read_bytes-append xs rest = rw (
  ltb_of_le (length (xs ++ rest)) (length xs) (omega (arith, length-append xs rest)),
  take-append xs rest,
  drop-append xs rest,
)

pub read_nullable-nullable_bytes :
    (o : Option (List ℕ)) (rest : List ℕ)
    → Fits o
    → read_nullable (nullable_bytes o ++ rest) ≡ ok (o, rest)
unfolding read_nullable
read_nullable-nullable_bytes none rest h = rw (read_u32-le null_bytes_length rest (omega arith))
read_nullable-nullable_bytes (some value) rest h =
    rw (read_u32-le (length value) (value ++ rest) (omega arith)) (
      rw (==_of_ne (length value) null_bytes_length (omega arith))
        (rw (read_bytes-append value rest)))
