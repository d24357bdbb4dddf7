-- ===== src/Fetch.antt =====
-- storage/fetch.go: the bounded read of a partition that has no tail cache, and the reader that keeps
-- a position. A context is never cancelled, and a call never meets another one. The error of a
-- writer that has failed is folded into `unavailable`.
pub mod Scan
pub mod Bounds
pub mod Reader
pub mod Serve
pub mod Fuel
use immulog.Prelude.{
  ℕ, zero, suc, ◌+◌, ◌-◌, ◌*◌, ◌^◌, ◌%◌, Bool, true, false, not, ◌&&◌, ◌||◌, List, [], ◌∷◌, ◌++◌,
  length, ltb, leb, ◌==◌, ◌!=◌, if◌then◌else◌,
}
use immulog.Prelude.Int.{ℤ, pos, int_lt}
use immulog.Api.{Record, FetchResult}
use immulog.Api.Errors.{
  Sentinel, Error, Result, ok, err, join, invalid_argument, fetch_limit_too_small, reject_if, ◌>>=◌,
  ◌>>◌,
}
use immulog.Format.{max_batch_bytes, max_batch_records}
use immulog.Partition.Sizes.{record_encoded_bytes}

-- `FetchOptions`: a wait in nanoseconds is a 64-bit integer.
pub record FetchOptions : Type 0 where
  pub max_records : ℕ
  pub max_bytes : ℕ
  pub max_wait : ℤ

abbrev pub default_fetch_records : ℕ
default_fetch_records = 1024

abbrev pub default_fetch_bytes : ℕ
default_fetch_bytes = 4 * 2 ^ 20

abbrev pub max_fetch_bytes : ℕ
max_fetch_bytes = max_batch_bytes

-- `24*time.Hour`
abbrev pub one_day : ℤ
one_day = pos (24 * 60 * 60 * 1000000000)

abbrev pub or_default : ℕ → ℕ → ℕ
or_default n value = if n == 0 then value else n

unfoldable pub normalize_fetch_options : FetchOptions → Result FetchOptions
normalize_fetch_options o = do
  let records = or_default o.max_records default_fetch_records
  reject_if (ltb max_batch_records records)
      (join (invalid_argument ∷ []) "fetch record limit exceeds")
  let bytes = or_default o.max_bytes default_fetch_bytes
  reject_if (ltb max_fetch_bytes bytes) (join (invalid_argument ∷ []) "fetch byte limit exceeds")
  reject_if (int_lt o.max_wait (pos 0) || int_lt one_day o.max_wait)
      (join (invalid_argument ∷ []) "fetch wait is outside [0s,24h]")
  ok (record { max_records = records; max_bytes = bytes; max_wait = o.max_wait })

-- `options.MaxBytes - *resultBytes` on uint64.
abbrev pub bytes_left : FetchOptions → ℕ → ℕ
bytes_left o bytes = (o.max_bytes + (2 ^ 64 - bytes)) % 2 ^ 64

-- The result with one more record.
abbrev pub with_record : FetchResult → Record → FetchResult
with_record result r = record {
  records = result.records ++ (r ∷ []);
  next_offset = (r.offset + 1) % 2 ^ 64;
}

-- The loop over the records of one batch: whether a limit was reached, the result and its bytes.
unfoldable pub take_records :
    FetchOptions → ℕ → List Record → FetchResult → ℕ → Result (Bool × FetchResult × ℕ)
take_records o offset [] result bytes = ok (false, result, bytes)
take_records o offset (r ∷ rs) result bytes =
    if ltb r.offset offset
    then take_records o offset rs result bytes
    else if leb o.max_records (length result.records)
    then ok (true, result, bytes)
    else (do
      n ← record_encoded_bytes r
      if ltb (bytes_left o bytes) n
          then (if length result.records == 0
              then err (join (fetch_limit_too_small ∷ []) "record needs more bytes than the limit")
              else ok (true, result, bytes))
          else take_records o offset rs (with_record result r) ((bytes + n) % 2 ^ 64))
