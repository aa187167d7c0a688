-- ===== src/RedisClient/Commands.antt =====
-- The commands of src/storage/redis_client.cpp. subscribe, which returns true, is left out.
use dann.Prelude.{
  ℕ, Bool, not, Option, none, some, List, [], ◌∷◌, ◌++◌, length, ◌==◌, if◌then◌else◌, ℤ,
}
use dann.Dict.{Text, same_text}
use dann.Types.{Float, Outcome, returned, thrown, ◌>>=◌}
use dann.Config.{text}
use dann.Metrics.{Double, DoubleOps}
use dann.LocalStorage.Bytes.{serialize_vector, deserialize_vector}
use dann.MessageHandler.Digits.{stoi, stoull}
use dann.RedisClient.{Hiredis, RedisClient, execute_command, execute_command_with_reply}

unfoldable pub mset_command : List (Text × Text) → Text
mset_command [] = []
mset_command ((key, value) ∷ key_values) = 32 ∷ (key ++ 32 ∷ (value ++ mset_command key_values))

unfoldable pub mget_command : List Text → Text
mget_command [] = []
mget_command (key ∷ keys) = 32 ∷ (key ++ mget_command keys)

-- The arguments with a blank between two; an empty command takes no blank.
unfoldable pub build_from : Text → List Text → Text
build_from command [] = command
build_from command (arg ∷ args) =
    build_from ((if length command == 0 then [] else command ++ 32 ∷ []) ++ arg) args

unfoldable pub build_command : List Text → Text
unfolding build_from
build_command args = build_from [] args

abbrev pub or_thrown {ℓ} : {A : Type ℓ} → Option A → Outcome A
or_thrown none = thrown
or_thrown (some a) = returned a

module _ (doubles : DoubleOps) {W : Type 0} (lib : Hiredis W) (to_string : ℤ → Text)
    (time : Double) where
  abbrev pub run : Text → RedisClient → W → Outcome (RedisClient × W × Bool)
  run command s w = execute_command doubles lib to_string time command s w

  abbrev pub ask : Text → RedisClient → W → Outcome (RedisClient × W × Text)
  ask command s w = execute_command_with_reply doubles lib to_string time command s w

  -- `std::vector<std::string>{reply}`
  abbrev ask_list : Text → RedisClient → W → Outcome (RedisClient × W × List Text)
  ask_list command s w = ask command s w >>= λ (t, v, reply). returned (t, v, reply ∷ [])

  abbrev ask_whether : (Text → Bool) → Text → RedisClient → W → Outcome (RedisClient × W × Bool)
  ask_whether test command s w = ask command s w >>= λ (t, v, reply). returned (t, v, test reply)

  unfoldable pub set : Text → Text → RedisClient → W → Outcome (RedisClient × W × Bool)
  unfolding execute_command
  set key value s w = run (text "SET " ++ (key ++ 32 ∷ (value))) s w

  unfoldable pub get : Text → RedisClient → W → Outcome (RedisClient × W × Text)
  unfolding execute_command_with_reply
  get key s w = ask (text "GET " ++ (key)) s w

  unfoldable pub del : Text → RedisClient → W → Outcome (RedisClient × W × Bool)
  unfolding execute_command
  del key s w = run (text "DEL " ++ (key)) s w

  unfoldable pub exists : Text → RedisClient → W → Outcome (RedisClient × W × Bool)
  unfolding execute_command_with_reply
  exists key s w = ask_whether (λ r. same_text r (text "1")) (text "EXISTS " ++ (key)) s w

  unfoldable pub mset : List (Text × Text) → RedisClient → W → Outcome (RedisClient × W × Bool)
  unfolding execute_command mset_command
  mset key_values s w = run (text "MSET" ++ mset_command key_values) s w

  unfoldable pub mget : List Text → RedisClient → W → Outcome (RedisClient × W × List Text)
  unfolding execute_command_with_reply mget_command
  mget keys s w = ask_list (text "MGET" ++ mget_command keys) s w

  unfoldable pub lpush : Text → Text → RedisClient → W → Outcome (RedisClient × W × Bool)
  unfolding execute_command
  lpush key value s w = run (text "LPUSH " ++ (key ++ 32 ∷ (value))) s w

  unfoldable pub rpush : Text → Text → RedisClient → W → Outcome (RedisClient × W × Bool)
  unfolding execute_command
  rpush key value s w = run (text "RPUSH " ++ (key ++ 32 ∷ (value))) s w

  unfoldable pub lpop : Text → RedisClient → W → Outcome (RedisClient × W × Text)
  unfolding execute_command_with_reply
  lpop key s w = ask (text "LPOP " ++ (key)) s w

  unfoldable pub rpop : Text → RedisClient → W → Outcome (RedisClient × W × Text)
  unfolding execute_command_with_reply
  rpop key s w = ask (text "RPOP " ++ (key)) s w

  unfoldable pub lrange : Text → ℤ → ℤ → RedisClient → W → Outcome (RedisClient × W × List Text)
  unfolding execute_command_with_reply
  lrange key first last s w =
      ask_list (text "LRANGE " ++ (key ++ 32 ∷ (to_string first ++ 32 ∷ (to_string last)))) s w

  unfoldable pub hset : Text → Text → Text → RedisClient → W → Outcome (RedisClient × W × Bool)
  unfolding execute_command
  hset key field value s w = run (text "HSET " ++ (key ++ 32 ∷ (field ++ 32 ∷ (value)))) s w

  unfoldable pub hget : Text → Text → RedisClient → W → Outcome (RedisClient × W × Text)
  unfolding execute_command_with_reply
  hget key field s w = ask (text "HGET " ++ (key ++ 32 ∷ (field))) s w

  unfoldable pub hdel : Text → Text → RedisClient → W → Outcome (RedisClient × W × Bool)
  unfolding execute_command
  hdel key field s w = run (text "HDEL " ++ (key ++ 32 ∷ (field))) s w

  unfoldable pub hkeys : Text → RedisClient → W → Outcome (RedisClient × W × List Text)
  unfolding execute_command_with_reply
  hkeys key s w = ask_list (text "HKEYS " ++ (key)) s w

  unfoldable pub hvals : Text → RedisClient → W → Outcome (RedisClient × W × List Text)
  unfolding execute_command_with_reply
  hvals key s w = ask_list (text "HVALS " ++ (key)) s w

  unfoldable pub sadd : Text → Text → RedisClient → W → Outcome (RedisClient × W × Bool)
  unfolding execute_command
  sadd key member s w = run (text "SADD " ++ (key ++ 32 ∷ (member))) s w

  unfoldable pub srem : Text → Text → RedisClient → W → Outcome (RedisClient × W × Bool)
  unfolding execute_command
  srem key member s w = run (text "SREM " ++ (key ++ 32 ∷ (member))) s w

  unfoldable pub smembers : Text → RedisClient → W → Outcome (RedisClient × W × List Text)
  unfolding execute_command_with_reply
  smembers key s w = ask_list (text "SMEMBERS " ++ (key)) s w

  unfoldable pub sismember : Text → Text → RedisClient → W → Outcome (RedisClient × W × Bool)
  unfolding execute_command_with_reply
  sismember key member s w =
      ask_whether (λ r. same_text r (text "1")) (text "SISMEMBER " ++ (key ++ 32 ∷ (member))) s w

  unfoldable pub publish : Text → Text → RedisClient → W → Outcome (RedisClient × W × Bool)
  unfolding execute_command
  publish channel message s w = run (text "PUBLISH " ++ (channel ++ 32 ∷ (message))) s w

  unfoldable pub unsubscribe : Text → RedisClient → W → Outcome (RedisClient × W × Bool)
  unfolding execute_command
  unsubscribe channel s w = run (text "UNSUBSCRIBE " ++ (channel)) s w

  unfoldable pub multi : RedisClient → W → Outcome (RedisClient × W × Bool)
  unfolding execute_command
  multi s w = run (text "MULTI") s w

  unfoldable pub exec : RedisClient → W → Outcome (RedisClient × W × Bool)
  unfolding execute_command_with_reply
  exec s w = ask_whether (λ r. not (length r == 0)) (text "EXEC") s w

  unfoldable pub discard : RedisClient → W → Outcome (RedisClient × W × Bool)
  unfolding execute_command
  discard s w = run (text "DISCARD") s w

  unfoldable pub expire : Text → ℤ → RedisClient → W → Outcome (RedisClient × W × Bool)
  unfolding execute_command
  expire key seconds s w = run (text "EXPIRE " ++ (key ++ 32 ∷ (to_string seconds))) s w

  unfoldable pub persist : Text → RedisClient → W → Outcome (RedisClient × W × Bool)
  unfolding execute_command
  persist key s w = run (text "PERSIST " ++ (key)) s w

  unfoldable pub cluster_nodes : RedisClient → W → Outcome (RedisClient × W × List Text)
  unfolding execute_command_with_reply
  cluster_nodes s w = ask_list (text "CLUSTER NODES") s w

  unfoldable pub cluster_info : RedisClient → W → Outcome (RedisClient × W × Text)
  unfolding execute_command_with_reply
  cluster_info s w = ask (text "CLUSTER INFO") s w

  unfoldable pub cluster_save : RedisClient → W → Outcome (RedisClient × W × Bool)
  unfolding execute_command
  cluster_save s w = run (text "CLUSTER SAVE") s w

  unfoldable pub ping : RedisClient → W → Outcome (RedisClient × W × Bool)
  unfolding execute_command_with_reply
  ping s w = ask_whether (λ r. same_text r (text "PONG")) (text "PING") s w

  unfoldable pub info : RedisClient → W → Outcome (RedisClient × W × Text)
  unfolding execute_command_with_reply
  info s w = ask (text "INFO") s w

  -- Without a number in the reply std::stoull and std::stoi throw.
  unfoldable pub llen : Text → RedisClient → W → Outcome (RedisClient × W × ℕ)
  unfolding execute_command_with_reply stoull
  llen key s w = ask (text "LLEN " ++ key) s w >>= λ (t, v, reply).
      (or_thrown (stoull reply) >>= λ n. returned (t, v, n))

  unfoldable pub ttl : Text → RedisClient → W → Outcome (RedisClient × W × ℤ)
  unfolding execute_command_with_reply stoi
  ttl key s w = ask (text "TTL " ++ key) s w >>= λ (t, v, reply).
      (or_thrown (stoi reply) >>= λ n. returned (t, v, n))

  unfoldable pub set_vector : Text → List Float → RedisClient → W → Outcome (RedisClient × W × Bool)
  unfolding set serialize_vector
  set_vector key vector s w = set key (serialize_vector vector) s w

  unfoldable pub get_vector : Text → RedisClient → W → Outcome (RedisClient × W × List Float)
  unfolding get deserialize_vector
  get_vector key s w = get key s w >>= λ (t, v, bytes).
      returned (t, v, if length bytes == 0 then [] else deserialize_vector bytes)

  unfoldable pub del_vector : Text → RedisClient → W → Outcome (RedisClient × W × Bool)
  unfolding del
  del_vector key s w = del key s w
