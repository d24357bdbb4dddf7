-- ===== src/Events/Cursor.antt =====
-- `eventCursor` of storage/events.go: the bytes left to read. A read returns its value and the rest.
use immulog.Prelude.{
  ℕ, zero, suc, ◌≡◌, refl, Bool, false, not, ◌||◌, List, [], ◌∷◌, ◌++◌, length, take, drop, ltb,
  ltb_of_le, ◌==◌, ◌!=◌, length-append, take-append, drop-append, append-nil, append_assoc, ◌/◌,
  ◌^◌, ◌<◌, arith,
}
use immulog.Prelude.Arrays.{Array, bytes, of_bytes, of_bytes-bytes, length-bytes, zeros, array_eq}
use immulog.Api.Errors.{
  Result, ok, corrupt, join, invalid_argument, invalid_record, reject_if, reject_if-eq-ok, ◌>>=◌,
  ◌>>◌,
}
use immulog.Format.LittleEndian.{le, un_le, un_le-le}
use immulog.Format.Utf8.{valid_utf8}

-- `eventCursor.take`
unfoldable pub take_field : ℕ → List ℕ → Result (List ℕ × List ℕ)
take_field size d = do
  reject_if (ltb (length d) size) (corrupt invalid_record "event field exceeds payload")
  ok (take size d, drop size d)

-- `u8`, `u16`, `u32` and `u64`, for the width in bytes.
unfoldable pub read_uint : ℕ → List ℕ → Result (ℕ × List ℕ)
read_uint width d = do (value, rest) ← take_field width d; ok (un_le value, rest)

-- `id`
unfoldable pub read_id : List ℕ → Result (Array 16 × List ℕ)
read_id d = do (value, rest) ← take_field 16 d; ok (of_bytes 16 value, rest)

unfoldable pub contains_zero : List ℕ → Bool
contains_zero [] = false
contains_zero (c ∷ cs) = c == 0 || contains_zero cs

-- `stringValue`
unfoldable pub read_string : ℕ → List ℕ → Result (List ℕ × List ℕ)
read_string max d = do
  (n, rest) ← read_uint 4 d
  reject_if (n == 0 || ltb max n) (corrupt invalid_record "event string length is outside limits")
  (value, rest') ← take_field n rest
  reject_if (contains_zero value || not (valid_utf8 value))
      (corrupt invalid_record "event string is not valid UTF-8")
  ok (value, rest')

-- `appendString`, without the bytes it appends to.
unfoldable pub string_bytes : ℕ → List ℕ → Result (List ℕ)
string_bytes max value = do
  reject_if
      (length value == 0 || ltb max (length value) || contains_zero value || not (valid_utf8 value))
      (join (invalid_argument ∷ []) "event string is invalid")
  ok (le 4 (length value) ++ value)

-- `requireID`
unfoldable pub require_id : List ℕ → Result (Array 16 × List ℕ)
require_id d = do
  (id, rest) ← read_id d
  reject_if (array_eq 16 id (zeros 16)) (corrupt invalid_record "id is zero")
  ok (id, rest)

-- `expectReserved`
unfoldable pub expect_reserved : List ℕ → Result (List ℕ)
expect_reserved d = do
  (value, rest) ← take_field 3 d
  reject_if (contains_nonzero value) (corrupt invalid_record "nonzero event reserved bytes")
  ok rest
  where
    contains_nonzero : List ℕ → Bool
    contains_nonzero [] = false
    contains_nonzero (c ∷ cs) = c != 0 || contains_nonzero cs

-- `finishEvent`
unfoldable pub finish_event : List ℕ → Result (Unit {0})
finish_event d = reject_if (length d != 0) (corrupt invalid_record "trailing system event bytes")

-- A field is read whole in front of anything.
pub take_field-append :
    (n : ℕ) (xs rest : List ℕ) → length xs ≡ n → take_field n (xs ++ rest) ≡ ok (xs, rest)
unfolding take_field
take_field-append n xs rest h =
    let size = length-append xs rest in
    rw⁻¹ h (
      rw
        (
          ltb_of_le (length (xs ++ rest)) (length xs) (omega (arith, size)),
          take-append xs rest,
          drop-append xs rest,
        )
        refl)

pub length-le : (w v : ℕ) → length (le w v) ≡ w
length-le zero v = refl
length-le (suc w) v = omega (arith, length-le w (v / 256))

pub read_uint-append :
    (w v : ℕ) (rest : List ℕ) → v < 256 ^ w → read_uint w (le w v ++ rest) ≡ ok (v, rest)
unfolding read_uint
read_uint-append w v rest h =
    rw (take_field-append w (le w v) rest (length-le w v), un_le-le w v h) refl

pub of_bytes-bytes_all : (n : ℕ) (a : Array n) → of_bytes n (bytes n a) ≡ a
of_bytes-bytes_all n a =
    let h : of_bytes n (bytes n a ++ []) ≡ a = of_bytes-bytes n a [] in rw append-nil at h

pub read_id-append : (a : Array 16) (rest : List ℕ) → read_id (bytes 16 a ++ rest) ≡ ok (a, rest)
unfolding read_id
read_id-append a rest =
    rw (take_field-append 16 (bytes 16 a) rest (length-bytes 16 a), of_bytes-bytes_all 16 a) refl

-- A string that is encoded is read back in front of anything.
pub read_string-append :
    (max : ℕ) (v : List ℕ) {d : List ℕ} (rest : List ℕ)
    → max < 2 ^ 32
    → string_bytes max v ≡ ok d
    → read_string max (d ++ rest) ≡ ok (v, rest)
unfolding string_bytes read_string
read_string-append max v {d = d} rest h e =
    let same : le 4 (length v) ++ v ≡ d = ground arith in
    let (t, _) =
      reject_if-eq-ok (length v == 0 || ltb max (length v) || contains_zero v || not (valid_utf8 v))
        _ _ e in
    let size : length v == 0 || ltb max (length v) ≡ false = ground arith in
    let text : contains_zero v || not (valid_utf8 v) ≡ false = ground arith in
    rw⁻¹ same (
      rw
        (
          append_assoc (le 4 (length v)) v rest,
          read_uint-append 4 (length v) (v ++ rest) (ground arith),
          size,
          take_field-append (length v) v rest refl,
          text,
        )
        refl)
