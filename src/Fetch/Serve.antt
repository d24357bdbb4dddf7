-- ===== src/Fetch/Serve.antt =====
-- What `Partition.Fetch` and `Reader.Fetch` come to.
use immulog.Prelude.{
  ℕ, ◌^◌, ◌≤◌, ◌<◌, ◌≡◌, refl, subst, false, List, [], if◌then◌else◌, All, arith, Bool-cases, inl,
  inr,
}
use immulog.Api.{FetchResult}
use immulog.Api.Errors.{join, Error, Result, ok, err, ◌>>◌, >>=-eq-ok, ok-injective, Result-cases}
use immulog.Partition.{Segment, Partition, segments}
use immulog.Partition.Append.{fence}
use immulog.Fetch.{FetchOptions, normalize_fetch_options}
use immulog.Fetch.Scan.{
  any_harmless, is_harmless, OffsetIndexEntry, fetch_segments, validate_read_offset, fetch,
  should_fence,
}
use immulog.Fetch.Bounds.{IsBounded, Kept, fetch_segments-IsBounded, normalized}
use immulog.Fetch.Reader.{Reader, reader_fetch}

-- What a fetch may come to. The limits are the normalized ones.
abbrev pub Served : Partition → ℕ → FetchOptions → Result FetchResult × Partition → Type 0
Served p offset options (ok result, p') =
    (p' ≡ p)
    × (o : FetchOptions) × (normalize_fetch_options options ≡ ok o)
    × IsBounded o offset result
Served p offset options (err e, p') = p' ≡ (if should_fence e then fence p else p)

empty-Kept :
    (o : FetchOptions) (offset : ℕ)
    → Kept o offset (record { records = []; next_offset = offset }) 0
empty-Kept o offset =
    (record { few = omega arith; small = omega arith; ahead = tt; next = refl }, refl)

options-harmless :
    (options : FetchOptions) (e : Error)
    → normalize_fetch_options options ≡ err e
    → should_fence e ≡ false
unfolding normalize_fetch_options should_fence any_harmless is_harmless join
options-harmless options e h = ground arith

-- A fetch that succeeds leaves the partition as it is and returns no more records and encoded bytes
-- than its normalized limits, none in front of the offset, with the next offset behind the last
-- record, or the offset itself where there are none. One that fails fences the partition exactly
-- where its error says so, and leaves it as it is otherwise.
pub fetch-Served :
    (hints : Segment → List OffsetIndexEntry) (p : Partition) (offset : ℕ) (options : FetchOptions)
    → Served p offset options (fetch hints p offset options)
unfolding fetch
fetch-Served hints p offset options = elim (Result-cases (normalize_fetch_options options)) [
  | inr (e, h) ↦ rw (fetch, h) (rw (options-harmless options e h) refl)
  | inl (o, h) ↦
      let empty : FetchResult = record { records = []; next_offset = offset } in
      elim (Result-cases
        (validate_read_offset p offset >> fetch_segments hints p o offset (segments p) empty 0)) [
          | inr (e, g) ↦ rw (fetch, h, g) refl
          | inl (result, g) ↦
              let (_, _, scanned) = >>=-eq-ok (validate_read_offset p offset) _ g in
              let w : o.max_bytes < 2 ^ 64 = omega (arith, normalized options o h) in
              rw (fetch, h, g)
                (
                  refl,
                  o,
                  h,
                  fetch_segments-IsBounded hints p o offset (segments p) empty 0 result w
                      (empty-Kept o offset) scanned,
                )
        ]
]

-- The way that a reader's fetch goes.
abbrev pub Reading : Type 0
Reading = Result FetchResult × Reader × Partition

abbrev IsRead : Reader → Reading → Type 0
IsRead reader (ok result, reader', p') =
    (reader'.next ≡ result.next_offset) × (o : FetchOptions) × IsBounded o reader.next result
IsRead reader (err e, reader', p') = reader'.next ≡ reader.next

Served-IsBounded :
    (p : Partition) (offset : ℕ) (options : FetchOptions) (x : Result FetchResult × Partition)
    (result : FetchResult)
    → Served p offset options x
    → x.0 ≡ ok result
    → (o : FetchOptions) × IsBounded o offset result
Served-IsBounded p offset options (ok r, p') result h e =
    (h.1, subst (IsBounded h.1 offset) (ok-injective e) h.3)
Served-IsBounded p offset options (err x, p') result h e = cc

reader_fetch-IsRead :
    (hints : Segment → List OffsetIndexEntry) (p : Partition) (reader : Reader)
    (options : FetchOptions)
    → IsRead reader (reader_fetch hints p reader options)
unfolding reader_fetch
reader_fetch-IsRead hints p reader options = elim (Bool-cases reader.closed) [
  | inl shut ↦ rw (reader_fetch, shut) refl
  | inr usable ↦ elim (Result-cases (fetch hints p reader.next options).0) [
    | inr (e, h) ↦ rw (reader_fetch, usable, h) refl
    | inl (result, h) ↦
        let (o, bounded) =
          Served-IsBounded p reader.next options (fetch hints p reader.next options) result
            (fetch-Served hints p reader.next options) h in
        rw (reader_fetch, usable, h) (refl, o, bounded)
  ]
]

-- What two fetches of one reader may return: the second has no record in front of the position that
-- the first one left.
abbrev pub IsOnward : Reading → Reading → Type 0
IsOnward (ok first, reader', p') (ok second, reader'', p'') =
    All (λ r. first.next_offset ≤ r.offset) second.records
IsOnward (ok first, reader', p') (err e, reader'', p'') = reader''.next ≡ reader'.next
IsOnward (err e, reader', p') y = Unit {0}

onward : (reader : Reader) (x y : Reading) → IsRead reader x → IsRead x.1 y → IsOnward x y
onward reader (ok first, reader', p') (ok second, reader'', p'') hx hy =
    subst (λ n. All (λ r. n ≤ r.offset) second.records) hx.0 hy.2.ahead
onward reader (ok first, reader', p') (err e, reader'', p'') hx hy = hy
onward reader (err e, reader', p') y hx hy = tt

-- Two fetches of one reader, with whatever happens to the partition between them: where the first
-- succeeds, the second returns no record in front of the first one's next offset, or fails and
-- leaves the position where the first one left it.
pub reader_fetch-IsOnward :
    (hints : Segment → List OffsetIndexEntry) (p q : Partition) (reader : Reader)
    (options options' : FetchOptions)
    → IsOnward
        (reader_fetch hints p reader options)
        (reader_fetch hints q (reader_fetch hints p reader options).1 options')
reader_fetch-IsOnward hints p q reader options options' =
    let x = reader_fetch hints p reader options in
    onward reader x (reader_fetch hints q x.1 options') (reader_fetch-IsRead hints p reader options)
      (reader_fetch-IsRead hints q x.1 options')
