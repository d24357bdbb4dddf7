-- ===== src/Offsets/Keys.antt =====
-- The keys of topic partitions: their equality and their order, `compareTopicKey` of
-- storage/events_validation.go.
use Prim.Native.Nat.{compare, Ordering}
use immulog.Prelude.{
  ℕ, ◌≡◌, refl, Bool, true, false, ◌&&◌, Option, none, some, List, [], ◌∷◌, ◌==◌, ==_of_eq, arith,
}
use immulog.Prelude.Arrays.{Array, bytes, array_eq, array_eq_refl, array_eq→eq}
use immulog.Prelude.Maps.{Eq}
use immulog.Events.Fields.{TopicKey}

unfoldable pub key_beq : TopicKey → TopicKey → Bool
key_beq a b = array_eq 16 a.topic b.topic && a.partition == b.partition

pub key_beq_refl : (a : TopicKey) → key_beq a a ≡ true
unfolding key_beq
key_beq_refl a = rw (array_eq_refl 16 a.topic) (==_of_eq a.partition a.partition refl)

pub key_beq→eq : (a b : TopicKey) → key_beq a b ≡ true → a ≡ b
unfolding key_beq
key_beq→eq a b h = ground (arith, array_eq→eq 16 a.topic b.topic)

instance abbrev pub key_eq : Eq TopicKey
key_eq = record { beq = key_beq; refl_lem = key_beq_refl; beq→eq = key_beq→eq }

-- `bytes.Compare`
unfoldable pub compare_bytes : List ℕ → List ℕ → Ordering
compare_bytes [] [] = Ordering.eq
compare_bytes [] (y ∷ ys) = Ordering.lt
compare_bytes (x ∷ xs) [] = Ordering.gt
compare_bytes (x ∷ xs) (y ∷ ys) = elim (compare x y) [
  | Ordering.eq ↦ compare_bytes xs ys
  | Ordering.lt ↦ Ordering.lt
  | Ordering.gt ↦ Ordering.gt
]

unfoldable pub compare_topic_key : TopicKey → TopicKey → Ordering
compare_topic_key a b = elim (compare_bytes (bytes 16 a.topic) (bytes 16 b.topic)) [
  | Ordering.eq ↦ compare a.partition b.partition
  | Ordering.lt ↦ Ordering.lt
  | Ordering.gt ↦ Ordering.gt
]

-- `>= 0`
abbrev pub is_ge : Ordering → Bool
is_ge Ordering.lt = false
is_ge Ordering.eq = true
is_ge Ordering.gt = true

-- `index > 0 && compareTopicKey(previous, key) >= 0`; a first key has none in front of it.
unfoldable pub out_of_order : Option TopicKey → TopicKey → Bool
out_of_order none key = false
out_of_order (some previous) key = is_ge (compare_topic_key previous key)

-- The same for the sessions of members.
unfoldable pub session_out_of_order : Option (Array 16) → Array 16 → Bool
session_out_of_order none session = false
session_out_of_order (some previous) session =
    is_ge (compare_bytes (bytes 16 previous) (bytes 16 session))
