-- ===== src/Examples/Remote.antt =====
-- A Redis server that answers every command with its text, and requests to a server.
use dann.Prelude.{
  ℕ, ◌≡◌, refl, Bool, true, Option, none, some, List, [], ◌∷◌, ◌++◌, ◌==◌, if◌then◌else◌, pos,
  arith,
}
use dann.Dict.{Text}
use dann.Types.{returned}
use dann.Config.{text}
use dann.RedisClient.{Hiredis, reply_string, RedisClient, new_redis_client, connect, execute}
use dann.RedisClient.Commands.{build_command, mget_command, mset_command, set_vector}
use dann.RedisClient.Reached.{IsCounted, made, after, connects, Reach-executes}
use dann.RedisClient.Sent.{words, served, words-commands, set_vector-zero_byte}
use dann.RpcClient.{RpcClient, answered, new_rpc_client, send_with_retry}
use dann.RpcClient.Retries.{send_with_retry-ended}
use dann.Examples.Settings.{whole, decimal}

abbrev echo : Hiredis (List Text)
echo = record {
  connect = λ host port w. (w, true);
  select = λ db w. w;
  command = λ command w. (command ∷ w, some (reply_string command));
}

abbrev fresh : RedisClient
fresh = new_redis_client (text "h") (pos 6379) (pos 0)

abbrev linked : RedisClient
linked = (connect whole echo decimal fresh []).0

Reach-executes_example :
    ((r : RedisClient × List Text × Bool × Text) × (execute whole echo decimal true 2
          (text "PING")
          linked
          []
        ≡ returned r))
    × IsCounted linked.metrics
Reach-executes_example =
    Reach-executes whole echo decimal linked true 2 (text "PING") []
      (after (made (text "h") (pos 6379) (pos 0)) (connects [])) (omega arith)

words-commands_example :
    (words (build_command (text "SET" ∷ text "k" ∷ text "v" ∷ []))
      ≡ text "SET" ∷ text "k" ∷ text "v" ∷ [])
    × (words (text "MGET" ++ mget_command (text "k" ∷ text "l" ∷ []))
        ≡ text "MGET" ∷ text "k" ∷ text "l" ∷ [])
    × (words (text "MSET" ++ mset_command ((text "k", text "v") ∷ []))
        ≡ text "MSET" ∷ text "k" ∷ text "v" ∷ [])
words-commands_example =
    words-commands (text "SET" ∷ text "k" ∷ text "v" ∷ []) (text "k" ∷ text "l" ∷ [])
      ((text "k", text "v") ∷ []) (omega arith) (omega arith) (omega arith)

-- The float 1.0.
set_vector-zero_byte_example :
    served (set_vector whole echo decimal 2 (text "k") (0x3f800000 ∷ []) linked [])
    ≡ served (set_vector whole echo decimal 2 (text "k") [] linked [])
set_vector-zero_byte_example =
    set_vector-zero_byte whole echo decimal 2 (text "k") 0x3f800000 [] linked [] (omega arith)

-- The first two attempts fail.
abbrev third : ℕ → Text → Option ℕ
third i reply = if i == 2 then some 7 else none

send_with_retry-ended_example :
    (t : RpcClient) × (send_with_retry whole third 4
        (text "Search")
        (text "q")
        (new_rpc_client (text "h") (pos 1))
      ≡ answered t (100 ∷ 200 ∷ []) 7)
    × (t.metrics.total_requests ≡ 1)
    × (t.metrics.successful_requests ≡ 1)
    × (t.metrics.failed_requests ≡ 0)
    × (t.metrics.bytes_sent ≡ 1)
    × (t.metrics.retries ≡ 0)
unfolding new_rpc_client
send_with_retry-ended_example =
    send_with_retry-ended whole third 4 (text "Search") (text "q")
      (new_rpc_client (text "h") (pos 1)) 2 (some 7) (omega arith) (omega arith)
      (λ j h. ground (arith, h)) refl (λ e. cc)
