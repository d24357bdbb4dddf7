-- ===== src/Offsets/Bodies.antt =====
-- The bodies of the events that consumers append, in storage/consumer.go.
use immulog.Prelude.{ℕ, ◌+◌, ◌^◌, ◌%◌, Bool, List, [], ◌∷◌, ◌++◌, ◌==◌, if◌then◌else◌}
use immulog.Prelude.Arrays.{Array, bytes}
use immulog.Api.Errors.{Result, ok, ◌>>=◌}
use immulog.Format.LittleEndian.{le}
use immulog.Events.Cursor.{string_bytes}
use immulog.Events.Fields.{TopicKey}
use immulog.Events.Payloads.{StoreId}
use immulog.Offsets.{OffsetProgress, max_group_id_bytes}

-- `api.GroupStartExplicit`
abbrev pub group_start_explicit : ℕ
group_start_explicit = 3

-- A key of a topic partition, as every body has it.
abbrev pub key_bytes : TopicKey → List ℕ
key_bytes key = bytes 16 key.topic ++ le 4 key.partition

-- A byte with the three reserved ones behind it.
abbrev pub flag_bytes : ℕ → List ℕ
flag_bytes flag = flag ∷ 0 ∷ 0 ∷ 0 ∷ []

unfoldable pub encode_group_created_body : StoreId → ℕ → List ℕ → ℕ → TopicKey → ℕ → Result (List ℕ)
encode_group_created_body store catalog_next group_id start key initial = do
  name ← string_bytes max_group_id_bytes group_id
  ok (
      bytes 16 store
      ++ (le 8 catalog_next
          ++ (name
              ++ (flag_bytes (start % 256)
                  ++ (if start == group_start_explicit
                      then le 4 1 ++ (key_bytes key ++ le 8 initial)
                      else le 4 0)))))

unfoldable pub encode_assignment_body :
    StoreId → ℕ → List ℕ → Array 16 → ℕ → ℕ → TopicKey → ℕ → Bool → Result (List ℕ)
encode_assignment_body store catalog_next group_id session generation reason key resume create = do
  name ← string_bytes max_group_id_bytes group_id
  ok (
      bytes 16 store
      ++ (le 8 catalog_next
          ++ (name
              ++ (bytes 16 store
                  ++ (le 8 generation
                      ++ (le 8 ((generation + 1) % 2 ^ 64)
                          ++ (flag_bytes reason
                              ++ (le 4 1
                                  ++ (bytes 16 session
                                      ++ (le 4 1
                                          ++ (key_bytes key
                                              ++ (le 4 1
                                                  ++ (key_bytes key
                                                      ++ (bytes 16 session
                                                          ++ (le 8 resume
                                                            ++ (if create
                                                            then flag_bytes 1 ++ le 8 resume
                                                            else flag_bytes 0
                                                            ++ le 8 0))))))))))))))))

unfoldable pub encode_empty_assignment_body : StoreId → ℕ → List ℕ → ℕ → Result (List ℕ)
encode_empty_assignment_body store catalog_next group_id generation = do
  name ← string_bytes max_group_id_bytes group_id
  ok (
      bytes 16 store
      ++ (le 8 catalog_next
          ++ (name
              ++ (bytes 16 store
                  ++ (le 8 generation
                      ++ (le 8 ((generation + 1) % 2 ^ 64)
                          ++ (flag_bytes 2 ++ (le 4 0 ++ le 4 0))))))))

unfoldable pub encode_commit_body :
    StoreId → ℕ → List ℕ → Array 16 → ℕ → TopicKey → OffsetProgress → ℕ → Result (List ℕ)
encode_commit_body store catalog_next group_id session generation key progress next = do
  name ← string_bytes max_group_id_bytes group_id
  ok (
      bytes 16 store
      ++ (le 8 catalog_next
          ++ (name
              ++ (bytes 16 store
                  ++ (bytes 16 session
                      ++ (le 8 generation
                          ++ (bytes 16 key.topic
                              ++ (le 4 key.partition
                                  ++ ((if progress.has_commit
                                        then flag_bytes 1 ++ le 8 progress.committed_next
                                        else flag_bytes 0 ++ le 8 progress.initial_next)
                                      ++ le 8 next)))))))))
