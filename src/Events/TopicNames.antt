-- ===== src/Events/TopicNames.antt =====
-- `validTopicName` of storage/events.go, over the bytes of the name.
use immulog.Prelude.{ℕ, Bool, true, not, ◌&&◌, ◌||◌, List, [], ◌∷◌, length, take, ltb, leb, ◌==◌}
use immulog.Format.LittleEndian.{bytes_eq}

abbrev pub max_topic_name_len : ℕ
max_topic_name_len = 249

-- A letter, a digit, '.', '_' or '-'. Every other code point has a byte that is none of these.
unfoldable pub is_name_character : ℕ → Bool
is_name_character c =
    leb 97 c && leb c 122
    || leb 65 c && leb c 90
    || leb 48 c && leb c 57
    || c == 46
    || c == 95
    || c == 45

unfoldable pub are_name_characters : List ℕ → Bool
are_name_characters [] = true
are_name_characters (c ∷ cs) = is_name_character c && are_name_characters cs

unfoldable pub valid_topic_name : List ℕ → Bool
valid_topic_name name =
    not (
      length name == 0
      || ltb max_topic_name_len (length name)
      || bytes_eq (take 2 name) (95 ∷ 95 ∷ [])
      || bytes_eq name (46 ∷ [])
      || bytes_eq name (46 ∷ 46 ∷ []))
    && are_name_characters name
