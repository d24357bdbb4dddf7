-- ===== src/Offsets/Commit/Fields.antt =====
-- The fields of a commit are read back from their bytes.
use immulog.Prelude.{
  ℕ, ◌^◌, ◌%◌, ◌≤◌, ◌<◌, ◌≡◌, refl, subst, false, List, [], ◌∷◌, ◌++◌, append-nil, ltb, arith,
}
use immulog.Prelude.Arrays.{Array, bytes, array_eq, zeros}
use immulog.Api.{is_zero}
use immulog.Api.Errors.{ok}
use immulog.Format.{max_int32}
use immulog.Format.LittleEndian.{le}
use immulog.Events.Cursor.{
  read_uint, require_id, expect_reserved, finish_event, take_field-append, read_id-append,
  read_uint-append,
}
use immulog.Events.Fields.{TopicKey, decode_topic_key}
use immulog.Catalog.{string_eq}
use immulog.Offsets.Keys.{key_eq}
use immulog.Offsets.Apply.{CommitFields, read_commit}
use immulog.Offsets.Bodies.{flag_bytes}

require_id-append :
    (a : Array 16) (rest : List ℕ)
    → array_eq 16 a (zeros 16) ≡ false
    → require_id (bytes 16 a ++ rest) ≡ ok (a, rest)
unfolding require_id
require_id-append a rest h = rw (read_id-append a rest, h) refl

decode_topic_key-append :
    (key : TopicKey) (rest : List ℕ)
    → is_zero key.topic ≡ false
    → key.partition ≤ max_int32
    → decode_topic_key (bytes 16 key.topic ++ (le 4 key.partition ++ rest)) ≡ ok (key, rest)
unfolding decode_topic_key
decode_topic_key-append key rest z h =
    let small : ltb max_int32 key.partition ≡ false = ground arith in
    rw
      (
        read_id-append key.topic (le 4 key.partition ++ rest),
        z,
        read_uint-append 4 key.partition rest (omega arith),
        small,
      )
      refl

expect_reserved-append : (rest : List ℕ) → expect_reserved (0 ∷ 0 ∷ 0 ∷ rest) ≡ ok rest
unfolding expect_reserved
expect_reserved-append rest =
    let read = take_field-append 3 (0 ∷ 0 ∷ 0 ∷ []) rest refl in rw read refl

-- A flag and its reserved bytes in front of a number.
flag-append :
    (flag : ℕ) (rest : List ℕ)
    → flag < 256
    → read_uint 1 (flag ∷ 0 ∷ 0 ∷ 0 ∷ rest) ≡ ok (flag, 0 ∷ 0 ∷ 0 ∷ rest)
flag-append flag rest h =
    let read = read_uint-append 1 flag (0 ∷ 0 ∷ 0 ∷ rest) h in
    let same : flag % 256 ≡ flag = omega (arith, h) in
    subst (λ (k : ℕ). read_uint 1 (k ∷ 0 ∷ 0 ∷ 0 ∷ rest) ≡ ok (flag, 0 ∷ 0 ∷ 0 ∷ rest)) same read

read_last : (v : ℕ) → v < 2 ^ 64 → read_uint 8 (le 8 v) ≡ ok (v, [])
read_last v h =
    subst (λ (d : List ℕ). read_uint 8 d ≡ ok (v, [])) (append-nil (le 8 v))
      (read_uint-append 8 v [] h)

pub read_commit-append :
    (f : CommitFields)
    → array_eq 16 f.instance_id (zeros 16) ≡ false
    → array_eq 16 f.session (zeros 16) ≡ false
    → is_zero f.key.topic ≡ false
    → f.key.partition ≤ max_int32
    → f.generation < 2 ^ 64
    → f.previous_kind ≤ 1
    → f.expected_previous < 2 ^ 64
    → f.next < 2 ^ 64
    → read_commit (
        bytes 16 f.instance_id
        ++ (bytes 16 f.session
            ++ (le 8 f.generation
                ++ (bytes 16 f.key.topic
                    ++ (le 4 f.key.partition
                        ++ (flag_bytes f.previous_kind
                            ++ (le 8 f.expected_previous ++ le 8 f.next)))))))
      ≡ ok f
unfolding read_commit finish_event
read_commit-append f hi hs hz hp hg hk he hn =
    let d7 = le 8 f.expected_previous ++ le 8 f.next in
    let d5 = flag_bytes f.previous_kind ++ d7 in
    let d3 = bytes 16 f.key.topic ++ (le 4 f.key.partition ++ d5) in
    let d2 = le 8 f.generation ++ d3 in
    let kind : ltb 1 f.previous_kind ≡ false = ground arith in
    rw
      (
        require_id-append f.instance_id (bytes 16 f.session ++ d2) hi,
        require_id-append f.session d2 hs,
        read_uint-append 8 f.generation d3 hg,
        decode_topic_key-append f.key d5 hz hp,
        flag-append f.previous_kind d7 (omega (arith, hk)),
        kind,
        expect_reserved-append d7,
        read_uint-append 8 f.expected_previous (le 8 f.next) he,
        read_last f.next hn,
      )
      refl
