-- ===== src/RedisClient/Sent.antt =====
-- What a server reads of the commands of src/storage/redis_client.cpp: the words of the text before its
-- first 0.
use dann.Prelude.{
  ℕ, ◌/◌, ◌%◌, ◌≡◌, ◌≢◌, refl, ap, ◌∙◌, sym, Bool, true, false, All, List, [], ◌∷◌, ◌++◌,
  append-nil, append_assoc, length, ◌==◌, if◌then◌else◌, ℤ, arith,
}
use dann.Dict.{Text}
use dann.Types.{Float, Outcome, returned, undefined, thrown, ◌>>=◌}
use dann.Config.{text}
use dann.Metrics.{Double, DoubleOps}
use dann.LocalStorage.Bytes.{serialize_vector}
use dann.RedisClient.{
  RedisClient, Hiredis, c_str, has_percent, send, after_reconnect, execute, execute_command,
  reconnect,
}
use dann.RedisClient.Commands.{
  mset_command, mget_command, build_from, build_command, set, set_vector,
}

abbrev add_word : Text → List Text → List Text
add_word [] words = words
add_word (c ∷ word) words = (c ∷ word) ∷ words

-- The words between blanks, with `word` what has been read of the first.
abbrev pub words_from : Text → Text → List Text
words_from [] word = add_word word []
words_from (c ∷ t) word =
    let next = words_from t [] in
    let same = words_from t (word ++ c ∷ []) in if c == 32 then add_word word next else same

abbrev pub words : Text → List Text
words t = words_from t []

-- Not empty and without a blank.
abbrev pub IsWord : Text → Type 0
IsWord [] = ⊥
IsWord (c ∷ t) = (c ≢ 32) × All (λ c. c ≢ 32) t

abbrev pub flattened : List (Text × Text) → List Text
flattened [] = []
flattened ((key, value) ∷ key_values) = key ∷ value ∷ flattened key_values

abbrev pub IsPair : Text × Text → Type 0
IsPair e = IsWord e.0 × IsWord e.1

words_from-letters :
    (w rest word : Text)
    → All (λ c. c ≢ 32) w
    → words_from (w ++ rest) word ≡ words_from rest (word ++ w)
words_from-letters [] rest word h = rw append-nil
words_from-letters (c ∷ w) rest word h =
    let n : (c == 32) ≡ false = ground (arith, h.0) in
    rw (n, words_from-letters w rest (word ++ c ∷ []) h.1, append_assoc)

words_from-word : (w rest : Text) → IsWord w → words_from (w ++ rest) [] ≡ words_from rest w
words_from-word [] rest h = absurd h
words_from-word (c ∷ w) rest h = words_from-letters (c ∷ w) rest [] h

words_from-blank : (w rest : Text) → IsWord w → words_from (32 ∷ rest) w ≡ w ∷ words_from rest []
words_from-blank [] rest h = absurd h
words_from-blank (c ∷ w) rest h = refl

words_from-end : (w : Text) → IsWord w → words_from [] w ≡ w ∷ []
words_from-end [] h = absurd h
words_from-end (c ∷ w) h = refl

words-mget :
    (w : Text) (keys : List Text)
    → IsWord w
    → All IsWord keys
    → words_from (mget_command keys) w ≡ w ∷ keys
unfolding mget_command
words-mget w [] h k = words_from-end w h
words-mget w (key ∷ keys) h k =
    words_from-blank w (key ++ mget_command keys) h
    ∙ ap (◌∷◌ w) (words_from-word key (mget_command keys) k.0 ∙ words-mget key keys k.0 k.1)

words-mset :
    (w : Text) (key_values : List (Text × Text))
    → IsWord w
    → All IsPair key_values
    → words_from (mset_command key_values) w ≡ w ∷ flattened key_values
unfolding mset_command
words-mset w [] h k = words_from-end w h
words-mset w ((key, value) ∷ key_values) h k =
    words_from-blank w (key ++ 32 ∷ (value ++ mset_command key_values)) h
    ∙ ap (◌∷◌ w) (
        words_from-word key (32 ∷ (value ++ mset_command key_values)) k.0.0
        ∙ (words_from-blank key (value ++ mset_command key_values) k.0.0
            ∙ ap (◌∷◌ key) (
                words_from-word value (mset_command key_values) k.0.1
                ∙ words-mset value key_values k.0.1 k.1)))

build_from-mget :
    (c : ℕ) (command : Text) (args : List Text)
    → build_from (c ∷ command) args ≡ (c ∷ command) ++ mget_command args
unfolding build_from mget_command
build_from-mget c command [] = rw append-nil
build_from-mget c command (arg ∷ args) =
    let full : (length (c ∷ command) == 0) ≡ false = ground arith in
    rw (full, build_from)
      (build_from-mget c ((command ++ 32 ∷ []) ++ arg) args ∙ rw (append_assoc, append_assoc))

words-build_command : (args : List Text) → All IsWord args → words (build_command args) ≡ args
unfolding build_command build_from
words-build_command [] h = refl
words-build_command ([] ∷ args) h = absurd h.0
words-build_command ((c ∷ arg) ∷ args) h =
    ap words (build_from-mget c arg args)
    ∙ (words_from-word (c ∷ arg) (mget_command args) h.0 ∙ words-mget (c ∷ arg) args h.0 h.1)

-- Arguments, keys and values that are not empty and have no blank are what is between the blanks of the
-- text: build_command gives its arguments, the text of mget MGET and the keys, and the text of mset MSET
-- and each key with its value, in their order.
pub words-commands :
    (args keys : List Text) (key_values : List (Text × Text))
    → All IsWord args
    → All IsWord keys
    → All IsPair key_values
    → (words (build_command args) ≡ args)
      × (words (text "MGET" ++ mget_command keys) ≡ text "MGET" ∷ keys)
      × (words (text "MSET" ++ mset_command key_values) ≡ text "MSET" ∷ flattened key_values)
words-commands args keys key_values h k j = (
  words-build_command args h,
  words-mget (text "MGET") keys (omega arith) k,
  words-mset (text "MSET") key_values (omega arith) j,
)

c_str-zero : (l r : Text) → c_str (l ++ 0 ∷ r) ≡ c_str l
unfolding c_str
c_str-zero [] r = refl
c_str-zero (c ∷ l) r = rw (c_str-zero l r)

if_alike {ℓ κ} :
    {A : Type ℓ} {B : Type κ} (f : A → B) (t : Bool) (a c b d : A)
    → f a ≡ f c
    → f b ≡ f d
    → f (if t then a else b) ≡ f (if t then c else d)
if_alike f true a c b d h k = h
if_alike f false a c b d h k = k

-- What a call leaves of the server's state, and whether it succeeded.
abbrev pub served : {W : Type 0} → Outcome (RedisClient × W × Bool) → Outcome (W × Bool)
served (returned (s, w, ok)) = returned (w, ok)
served undefined = undefined
served thrown = thrown

module _ (doubles : DoubleOps) {W : Type 0} (lib : Hiredis W) (to_string : ℤ → Text)
    (time : Double) where
  abbrev sent : Outcome (RedisClient × W × Bool × Text) → Outcome (W × Bool)
  sent (returned (s, w, ok, reply)) = returned (w, ok)
  sent undefined = undefined
  sent thrown = thrown

  send-same :
      (c d : Text) (s : RedisClient) (w : W)
      → c_str c ≡ c_str d
      → sent (send doubles lib to_string false time c s w)
        ≡ sent (send doubles lib to_string false time d s w)
  unfolding send
  send-same c d s w e =
      if_alike sent s.has_context _ _ _ _
        (rw e (if_alike sent (has_percent (c_str d)) undefined undefined _ _ refl refl)) refl

  after_reconnect-same :
      (c d : Text) (r : RedisClient × W × Bool)
      → c_str c ≡ c_str d
      → sent (after_reconnect doubles lib to_string false time c r)
        ≡ sent (after_reconnect doubles lib to_string false time d r)
  after_reconnect-same c d (s, w, true) e = send-same c d s w e
  after_reconnect-same c d (s, w, false) e = refl

  served-sent :
      (o : Outcome (RedisClient × W × Bool × Text))
      → served (o >>= λ (t, v, ok, reply). returned (t, v, ok)) ≡ sent o
  served-sent (returned (s, w, ok, reply)) = refl
  served-sent undefined = refl
  served-sent thrown = refl

  run-same :
      (c d : Text) (s : RedisClient) (w : W)
      → c_str c ≡ c_str d
      → served (execute_command doubles lib to_string time c s w)
        ≡ served (execute_command doubles lib to_string time d s w)
  unfolding execute_command execute
  run-same c d s w e =
      served-sent (execute doubles lib to_string false time c s w)
      ∙ (if_alike sent s.connected _ _ _ _ (send-same c d s w e)
            (after_reconnect-same c d (reconnect doubles lib to_string s w) e)
          ∙ sym (served-sent (execute doubles lib to_string false time d s w)))

  -- A vector whose first float has 0 as its lowest byte reaches the server as if it had no elements, as
  -- the text of the command ends for hiredis at the first 0: the server's state and the result of the
  -- call do not depend on the vector.
  pub set_vector-zero_byte :
      (key : Text) (x : Float) (vector : List Float) (s : RedisClient) (w : W)
      → x % 256 ≡ 0
      → served (set_vector doubles lib to_string time key (x ∷ vector) s w)
        ≡ served (set_vector doubles lib to_string time key [] s w)
  unfolding set_vector set serialize_vector
  set_vector-zero_byte key x vector s w e =
      let rest_bytes = x / 256 % 256 ∷ x / 65536 % 256 ∷ x / 16777216 % 256 ∷ [] in
      run-same (text "SET " ++ (key ++ 32 ∷ serialize_vector (x ∷ vector)))
        (text "SET " ++ (key ++ 32 ∷ serialize_vector [])) s w
        (ap (λ t. text "SET " ++ t)
          (rw e (
            ap c_str (sym (append_assoc key (32 ∷ []) (0 ∷ rest_bytes ++ serialize_vector vector)))
            ∙ c_str-zero (key ++ 32 ∷ []) (rest_bytes ++ serialize_vector vector))))
