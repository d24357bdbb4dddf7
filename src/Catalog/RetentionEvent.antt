-- ===== src/Catalog/RetentionEvent.antt =====
-- The payload of PartitionLogStartAdvanced, in storage/retention_event.go.
use Prim.Native.Nat.{bit_and}
use immulog.Prelude.{
  ℕ, zero, suc, ◌-◌, Bool, false, ◌||◌, Option, none, some, List, [], ◌∷◌, ◌++◌, length, ltb, leb,
  ◌==◌, ◌!=◌,
}
use immulog.Prelude.Arrays.{bytes}
use immulog.Prelude.Int.{ℤ, int_of_uint64, uint64_of_int}
use immulog.Api.{is_zero}
use immulog.Api.Errors.{
  Result, ok, corrupt, unsupported, join, invalid_argument, invalid_record, record_too_large,
  reject_if, ◌>>=◌, ◌>>◌,
}
use immulog.Format.{max_record_bytes, record_prefix_bytes}
use immulog.Format.LittleEndian.{le}
use immulog.Events.Cursor.{read_id, read_uint, expect_reserved}
use immulog.Events.Fields.{EventAnchor, TopicKey, encode_anchor, decode_anchor, decode_topic_key}
use immulog.Events.Payloads.{StoreId, max_topic_partitions}
use immulog.Events.Envelope.{event_envelope_len}
use immulog.Catalog.{RetiredSegmentEvent}

-- `partitionLogStartAdvancedEvent`
pub record LogStartAdvancedEvent : Type 0 where
  pub store_id : StoreId
  pub expected_catalog_next : ℕ
  pub key : TopicKey
  pub expected_old_l : ℕ
  pub new_l : ℕ
  pub evaluated_durable_end : ℕ
  pub retained_anchor : EventAnchor
  pub reason_mask : ℕ
  pub evaluated_unix_millis : ℤ
  pub evaluated_retained_bytes : ℕ
  pub retired : List RetiredSegmentEvent

-- `mask &^ enabled != 0`
unfoldable pub has_other_bits : ℕ → ℕ → Bool
has_other_bits mask enabled = mask - bit_and mask enabled != 0

-- `index > 0 && retired.Base <= previous`, where a first segment has none in front of it.
unfoldable pub goes_back : Option ℕ → ℕ → Bool
goes_back none base = false
goes_back (some previous) base = leb base previous

unfoldable pub encode_retired : Option ℕ → List RetiredSegmentEvent → Result (List ℕ)
encode_retired previous [] = ok []
encode_retired previous (r ∷ rs) = do
  reject_if (leb r.end r.base || goes_back previous r.base)
      (join (invalid_argument ∷ []) "retired segments are not canonical")
  anchor ← encode_anchor r.anchor
  rest ← encode_retired (some r.base) rs
  ok (le 8 r.base ++ (le 8 r.end ++ (le 8 r.bytes ++ (anchor ++ rest))))

unfoldable pub encode_log_start_advanced : LogStartAdvancedEvent → Result (List ℕ)
encode_log_start_advanced e = do
  reject_if
      (is_zero e.store_id
        || is_zero e.key.topic
        || leb e.new_l e.expected_old_l
        || ltb e.evaluated_durable_end e.new_l)
      (join (invalid_argument ∷ []) "invalid retention boundary transition")
  reject_if
      (e.reason_mask == 0
        || has_other_bits e.reason_mask 3
        || length e.retired == 0
        || ltb max_topic_partitions (length e.retired))
      (join (invalid_argument ∷ []) "invalid retention boundary reason or retirement list")
  anchor ← encode_anchor e.retained_anchor
  retired ← encode_retired none e.retired
  let data' =
      bytes 16 e.store_id
      ++ (le 8 e.expected_catalog_next
          ++ (bytes 16 e.key.topic
              ++ (le 4 e.key.partition
                  ++ (le 8 e.expected_old_l
                      ++ (le 8 e.new_l
                          ++ (le 8 e.evaluated_durable_end
                              ++ (anchor
                                  ++ ((e.reason_mask ∷ 0 ∷ 0 ∷ 0 ∷ [])
                                      ++ (le 8 (uint64_of_int e.evaluated_unix_millis)
                                          ++ (le 8 e.evaluated_retained_bytes
                                              ++ (le 4 (length e.retired) ++ retired)))))))))))
  reject_if (ltb (max_record_bytes - record_prefix_bytes - 8 - event_envelope_len) (length data'))
      (join (record_too_large ∷ []) "retention event is too large")
  ok data'

unfoldable pub decode_retired : ℕ → Option ℕ → List ℕ → Result (List RetiredSegmentEvent × List ℕ)
decode_retired zero previous d = ok ([], d)
decode_retired (suc count) previous d = do
  (base, d1) ← read_uint 8 d
  (end, d2) ← read_uint 8 d1
  (size, d3) ← read_uint 8 d2
  (anchor, d4) ← decode_anchor d3
  reject_if (leb end base || goes_back previous base)
      (corrupt invalid_record "retention retirement list is not canonical")
  (rest, d5) ← decode_retired count (some base) d4
  ok (record { base = base; end = end; bytes = size; anchor = anchor } ∷ rest, d5)

unfoldable pub decode_log_start_advanced : List ℕ → Result LogStartAdvancedEvent
decode_log_start_advanced d = do
  (store_id, d1) ← read_id d
  reject_if (is_zero store_id) (corrupt invalid_record "retention event StoreID is zero")
  (expected_catalog_next, d2) ← read_uint 8 d1
  (key, d3) ← decode_topic_key d2
  (expected_old_l, d4) ← read_uint 8 d3
  (new_l, d5) ← read_uint 8 d4
  (evaluated_durable_end, d6) ← read_uint 8 d5
  (retained_anchor, d7) ← decode_anchor d6
  (reason_mask, d8) ← read_uint 1 d7
  reject_if (reason_mask == 0 || has_other_bits reason_mask 3)
      (unsupported "unsupported retention event reason")
  d9 ← expect_reserved d8
  (timestamp, d10) ← read_uint 8 d9
  (evaluated_retained_bytes, d11) ← read_uint 8 d10
  (count, d12) ← read_uint 4 d11
  reject_if (count == 0 || ltb max_topic_partitions count)
      (corrupt invalid_record "retention retirement count is outside limits")
  (retired, d13) ← decode_retired count none d12
  reject_if (leb new_l expected_old_l || ltb evaluated_durable_end new_l || length d13 != 0)
      (corrupt invalid_record "invalid retention boundary transition")
  ok (record {
    store_id = store_id;
    expected_catalog_next = expected_catalog_next;
    key = key;
    expected_old_l = expected_old_l;
    new_l = new_l;
    evaluated_durable_end = evaluated_durable_end;
    retained_anchor = retained_anchor;
    reason_mask = reason_mask;
    evaluated_unix_millis = int_of_uint64 timestamp;
    evaluated_retained_bytes = evaluated_retained_bytes;
    retired = retired;
  })
