-- ===== src/Fetch/Reader.antt =====
-- `Reader` of storage/fetch.go.
use immulog.Prelude.{ℕ, Bool, true, false, List, [], ◌∷◌, if◌then◌else◌}
use immulog.Api.{FetchResult}
use immulog.Api.Errors.{Result, ok, err, join, closed, ◌>>◌}
use immulog.Partition.{Segment, Partition}
use immulog.Fetch.{FetchOptions}
use immulog.Fetch.Scan.{OffsetIndexEntry, validate_read_offset, fetch}

pub record Reader : Type 0 where
  pub next : ℕ
  pub closed : Bool

unfoldable pub new_reader : Partition → ℕ → Result Reader
new_reader p start = do validate_read_offset p start; ok (record { next = start; closed = false })

-- `Reader.Fetch`: the result, the reader and the partition.
unfoldable pub reader_fetch :
    (Segment → List OffsetIndexEntry)
    → Partition
    → Reader
    → FetchOptions
    → Result FetchResult × Reader × Partition
reader_fetch hints p reader o =
    if reader.closed
    then (err (join (closed ∷ []) ""), reader, p)
    else (let (result, p') = fetch hints p reader.next o in
        elim result [
          | err e ↦ (err e, reader, p')
          | ok r ↦ (ok r, record reader { next = r.next_offset }, p')
        ])

unfoldable pub seek : Partition → Reader → ℕ → Result (Unit {0}) × Reader
seek p reader offset =
    if reader.closed
    then (err (join (closed ∷ []) ""), reader)
    else (elim (validate_read_offset p offset) [
      | err e ↦ (err e, reader)
      | ok _ ↦ (ok tt, record reader { next = offset })
    ])

unfoldable pub next_offset : Reader → Result ℕ
next_offset reader = if reader.closed then err (join (closed ∷ []) "") else ok reader.next

unfoldable pub close_reader : Reader → Reader
close_reader reader = record reader { closed = true }
