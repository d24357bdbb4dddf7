-- ===== src/Events/Trip.antt =====
-- A StoreInitialized event survives its encoding.
use immulog.Prelude.{
  ℕ, ◌≡◌, refl, true, false, List, [], ◌++◌, length, ◌!=◌, !=-false→eq, append-nil,
}
use immulog.Prelude.Arrays.{bytes}
use immulog.Api.{is_zero}
use immulog.Api.Errors.{ok, >>=-eq-ok, reject_if-eq-ok, ok-injective}
use immulog.Config.{validate}
use immulog.Config.Wire.{encode_partition_config, decode_partition_config}
use immulog.Config.Wire.Trip.{decode-encode_partition_config}
use immulog.Events.Cursor.{finish_event, read_id-append}
use immulog.Events.Fields.{encode_anchor, decode-encode_anchor}
use immulog.Events.Payloads.{
  StoreId, StoreInitializedEvent, encode_store_initialized, decode_store_initialized,
}

-- The bytes of the payload, from the bytes of its parts.
abbrev layout : StoreId → List ℕ → List ℕ → List ℕ → List ℕ → List ℕ
layout id a b c d = bytes 16 id ++ (a ++ (b ++ (c ++ d)))

read_layout :
    (e : StoreInitializedEvent) (a b c d : List ℕ)
    → is_zero e.store_id ≡ false
    → length (layout e.store_id a b c d) ≡ 240
    → encode_anchor e.catalog_initial ≡ ok a
    → encode_anchor e.offsets_initial ≡ ok b
    → encode_partition_config e.catalog_config ≡ ok c
    → encode_partition_config e.offsets_config ≡ ok d
    → validate e.catalog_config true ≡ ok tt
    → validate e.offsets_config true ≡ ok tt
    → decode_store_initialized (layout e.store_id a b c d) ≡ ok e
unfolding decode_store_initialized finish_event
read_layout e a b c d z n ea eb ec ed vc vd =
    let whole : decode_partition_config (d ++ []) true ≡ ok (e.offsets_config, []) =
      decode-encode_partition_config e.offsets_config true [] ed vd in
    let last : decode_partition_config d true ≡ ok (e.offsets_config, []) =
      rw append-nil at whole in
    rw n (
      rw
        (
          read_id-append e.store_id (a ++ (b ++ (c ++ d))),
          z,
          decode-encode_anchor e.catalog_initial (b ++ (c ++ d)) ea,
          decode-encode_anchor e.offsets_initial (c ++ d) eb,
          decode-encode_partition_config e.catalog_config true d ec vc,
          last,
        )
        refl)

-- A StoreInitialized event that the code encodes, with configurations that a system log may have,
-- is read back.
pub decode-encode_store_initialized :
    (e : StoreInitializedEvent) {d : List ℕ}
    → encode_store_initialized e ≡ ok d
    → validate e.catalog_config true ≡ ok tt
    → validate e.offsets_config true ≡ ok tt
    → decode_store_initialized d ≡ ok e
unfolding encode_store_initialized
decode-encode_store_initialized e {d = d} h vc vd =
    let (z, h0) = reject_if-eq-ok (is_zero e.store_id) _ _ h in
    let (c, ec, h1) = >>=-eq-ok (encode_partition_config e.catalog_config) _ h0 in
    let (o, eo, h2) = >>=-eq-ok (encode_partition_config e.offsets_config) _ h1 in
    let (a, ea, h3) = >>=-eq-ok (encode_anchor e.catalog_initial) _ h2 in
    let (b, eb, h4) = >>=-eq-ok (encode_anchor e.offsets_initial) _ h3 in
    let (n, h5) = reject_if-eq-ok (length (layout e.store_id a b c o) != 240) _ _ h4 in
    let same : layout e.store_id a b c o ≡ d = ok-injective h5 in
    rw⁻¹ same (
      read_layout e a b c o z (!=-false→eq (length (layout e.store_id a b c o)) 240 n) ea eb ec eo
        vc vd)
