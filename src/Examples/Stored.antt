-- ===== src/Examples/Stored.antt =====
-- A disk that is a list of files by path.
use dann.Prelude.{◌≡◌, true, false, none, some, List, [], ◌∷◌, length, arith}
use dann.Dict.{Text, find, assign, erase, text_key}
use dann.Types.{undefined}
use dann.Config.{text}
use dann.LocalStorage.{
  System, LocalStorage, new_local_storage, validate_key, set, get, serialize_vector,
  deserialize_vector,
}
use dann.LocalStorage.Bytes.{deserialize_vector-serialize_vector}
use dann.LocalStorage.Manage.{set_vector, get_vector, initialize}
use dann.LocalStorage.Bare.{IsBare, BareOutcome}
use dann.LocalStorage.Reached.{initialized, Reach, made, next, Reach-nothing_stored}

abbrev Files : Type 0
Files = List (Text × Text)

abbrev in_memory : System Files
in_memory = record {
  create_directories = λ path w. some (w, true);
  parent_path = λ path. path;
  write = λ path bytes w. some (assign path bytes w, true);
  read = λ path w. find path w;
  remove = λ path w. some (erase path w, true);
  copy = λ source target w. (w, true);
  entries = λ path w. none;
  md5 = λ key. key;
  ratio = λ hits total. 0;
  begin = λ cache. 0;
}

abbrev started : LocalStorage Files
started = (initialize in_memory (new_local_storage (text "d") [])).0

started_reached : Reach in_memory started
started_reached = next (made (text "d") []) initialized

Reach-nothing_stored_example :
    IsBare started
    × (set in_memory (text "k") (text "v") started ≡ undefined)
    × BareOutcome in_memory (λ ok. ok ≡ false) (set_vector in_memory (text "k") (1 ∷ []) started)
    × BareOutcome in_memory (λ found. found ≡ []) (get in_memory (text "k") started)
    × BareOutcome in_memory (λ found. found ≡ []) (get_vector in_memory (text "k") started)
unfolding validate_key
Reach-nothing_stored_example =
    Reach-nothing_stored in_memory started (text "k") (text "v") (1 ∷ []) started_reached

deserialize_vector-serialize_vector_example :
    (deserialize_vector (serialize_vector (0x3f800000 ∷ 0xc0490fdb ∷ []))
      ≡ 0x3f800000 ∷ 0xc0490fdb ∷ [])
    × (length (serialize_vector (0x3f800000 ∷ 0xc0490fdb ∷ [])) ≡ 8)
deserialize_vector-serialize_vector_example =
    deserialize_vector-serialize_vector (0x3f800000 ∷ 0xc0490fdb ∷ [])
      (omega arith, (omega arith, tt))
