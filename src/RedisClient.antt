-- ===== src/RedisClient.antt =====
-- src/storage/redis_client.cpp: the connection to a Redis server, its commands and the metrics. Its header
-- is not in the repository; the fields are those that it names. The hiredis library is a record of
-- operations, and the time of a command is given.
pub mod Commands
pub mod Reached
pub mod Sent
use dann.Prelude.{
  ℕ, ◌+◌, ◌%◌, max, Bool, true, false, Option, none, some, List, [], ◌∷◌, length, ◌==◌,
  if◌then◌else◌, ℤ, pos, negsuc, size_mod, not_positive,
}
use dann.Dict.{Text}
use dann.Types.{Outcome, returned, undefined, ◌>>=◌}
use dann.Metrics.{Double, DoubleOps}
use dann.Averages.{counted}

pub data Reply : Type 0 where
  reply_error : Reply
  reply_string : Text → Reply
  reply_integer : ℤ → Reply
  -- an array, a status or nil
  reply_other : Reply

-- hiredis on machines and servers with states in W. `connect` says whether there is a context without
-- an error; a context with an error is freed at once. `command` gets the text as a format without
-- arguments, and gives no reply when the connection is lost.
pub record Hiredis (W : Type 0) : Type 0 where
  pub connect : Text → ℤ → W → W × Bool
  pub select : ℤ → W → W
  pub command : Text → W → W × Option Reply

pub record RedisMetrics : Type 0 where
  pub commands_sent : ℕ
  pub commands_succeeded : ℕ
  pub commands_failed : ℕ
  pub connection_errors : ℕ
  pub timeout_errors : ℕ
  pub avg_response_time_ms : Double
  pub bytes_sent : ℕ
  pub bytes_received : ℕ

abbrev pub no_commands : RedisMetrics
no_commands = record {
  commands_sent = 0;
  commands_succeeded = 0;
  commands_failed = 0;
  connection_errors = 0;
  timeout_errors = 0;
  avg_response_time_ms = 0;
  bytes_sent = 0;
  bytes_received = 0;
}

-- `has_context` says that redis_context_ is not null.
pub record RedisClient : Type 0 where
  pub host : Text
  pub port : ℤ
  pub db : ℤ
  pub connected : Bool
  pub timeout_ms : ℤ
  pub max_retries : ℤ
  pub pool_size : ℕ
  pub has_context : Bool
  pub metrics : RedisMetrics

unfoldable pub new_redis_client : Text → ℤ → ℤ → RedisClient
new_redis_client host port db = record {
  host = host;
  port = port;
  db = db;
  connected = false;
  timeout_ms = pos 5000;
  max_retries = pos 3;
  pool_size = 10;
  has_context = false;
  metrics = no_commands;
}

-- std::max of a natural number and an int
abbrev pub at_least : ℕ → ℤ → ℤ
at_least m (pos n) = pos (max m n)
at_least m (negsuc n) = pos m

unfoldable pub set_timeout_ms : ℤ → RedisClient → RedisClient
set_timeout_ms timeout_ms s = record s { timeout_ms = at_least 100 timeout_ms }

unfoldable pub set_max_retries : ℤ → RedisClient → RedisClient
set_max_retries max_retries s = record s { max_retries = at_least 0 max_retries }

unfoldable pub set_pool_size : ℕ → RedisClient → RedisClient
set_pool_size pool_size s = record s { pool_size = max 1 pool_size }

unfoldable pub reset_metrics : RedisClient → RedisClient
reset_metrics s = record s { metrics = no_commands }

-- A context is freed.
unfoldable pub close_connection : RedisClient → RedisClient
close_connection s = record s { has_context = false }

unfoldable pub disconnect : RedisClient → RedisClient
unfolding close_connection
disconnect s = if s.connected then close_connection (record s { connected = false }) else s

-- What a C function reads of the text: the characters before the first 0.
unfoldable pub c_str : Text → Text
c_str [] = []
c_str (c ∷ t) = let rest = c_str t in if c == 0 then [] else c ∷ rest

-- Whether the text has a per cent sign, which redisCommand reads as the start of a format.
unfoldable pub has_percent : Text → Bool
has_percent [] = false
has_percent (c ∷ t) = if c == 37 then true else has_percent t

abbrev pub is_success : Option Reply → Bool
is_success none = false
is_success (some reply_error) = false
is_success (some (reply_string t)) = true
is_success (some (reply_integer n)) = true
is_success (some reply_other) = true

-- Without a reply the connection is taken to be lost.
abbrev pub still_connected : Option Reply → Bool
still_connected none = false
still_connected (some r) = true

abbrev pub text_of : (ℤ → Text) → Option Reply → Text
text_of to_string none = []
text_of to_string (some reply_error) = []
text_of to_string (some (reply_string t)) = t
text_of to_string (some (reply_integer n)) = to_string n
text_of to_string (some reply_other) = []

module _ (doubles : DoubleOps) where
  -- The number that the average is multiplied by has the new command in it.
  unfoldable pub update_metrics : Bool → Double → ℕ → ℕ → RedisMetrics → RedisMetrics
  update_metrics success response_time bytes_sent bytes_received metrics =
      let sent = counted metrics.commands_sent in
      record metrics {
        commands_sent = sent;
        commands_succeeded =
            if success then counted metrics.commands_succeeded else metrics.commands_succeeded;
        commands_failed =
            if success then metrics.commands_failed else counted metrics.commands_failed;
        bytes_sent = (metrics.bytes_sent + bytes_sent) % size_mod;
        bytes_received = (metrics.bytes_received + bytes_received) % size_mod;
        avg_response_time_ms =
            doubles.divide
              (doubles.plus (doubles.times metrics.avg_response_time_ms (doubles.of_count sent))
                response_time)
              (doubles.of_count sent);
      }

  abbrev pub with_metrics : Bool → Double → ℕ → ℕ → RedisClient → RedisClient
  with_metrics success time sent received s = record s {
    metrics = update_metrics success time sent received s.metrics;
  }

  -- std::to_string is a parameter.
  module _ {W : Type 0} (lib : Hiredis W) (to_string : ℤ → Text) where
    abbrev pub after_connect : RedisClient → W × Bool → RedisClient × W × Bool
    after_connect s (w, true) = (
      record s { has_context = true; connected = true },
      if not_positive s.db then w else lib.select s.db w,
      true,
    )
    after_connect s (w, false) = (record s { has_context = false }, w, false)

    -- A context that is there is not freed first.
    unfoldable pub create_connection : RedisClient → W → RedisClient × W × Bool
    create_connection s w = after_connect s (lib.connect s.host s.port w)

    unfoldable pub connect : RedisClient → W → RedisClient × W × Bool
    unfolding create_connection
    connect s w = if s.connected then (s, w, true) else create_connection s w

    unfoldable pub reconnect : RedisClient → W → RedisClient × W × Bool
    unfolding create_connection close_connection
    reconnect s w = create_connection (close_connection s) w

    -- What comes of the reply to a command of a given size, and its text where that is wanted.
    abbrev pub after_reply :
        Bool → Double → ℕ → RedisClient → W × Option Reply → RedisClient × W × Bool × Text
    after_reply wanted time size s (w, reply) =
        let answer = if wanted then text_of to_string reply else [] in
        (
          with_metrics (is_success reply) time size (length answer)
              (record s { connected = if still_connected reply then s.connected else false }),
          w,
          is_success reply,
          answer,
        )

    -- Without a context hiredis is called with a null pointer. The text is hiredis' format, without the
    -- arguments that a per cent sign asks for.
    unfoldable pub send :
        Bool → Double → Text → RedisClient → W → Outcome (RedisClient × W × Bool × Text)
    unfolding c_str has_percent update_metrics
    send wanted time command s w =
        if s.has_context
        then (if has_percent (c_str command)
            then undefined
            else returned
                (after_reply wanted time (length command) s (lib.command (c_str command) w)))
        else undefined

    abbrev pub after_reconnect :
        Bool → Double → Text → RedisClient × W × Bool → Outcome (RedisClient × W × Bool × Text)
    after_reconnect wanted time command (s, w, true) = send wanted time command s w
    after_reconnect wanted time command (s, w, false) =
        returned (with_metrics false 0 (length command) 0 s, w, false, [])

    -- Both functions that execute a command; `wanted` says that it is the one that gives the reply.
    unfoldable pub execute :
        Bool → Double → Text → RedisClient → W → Outcome (RedisClient × W × Bool × Text)
    unfolding reconnect send
    execute wanted time command s w =
        if s.connected
        then send wanted time command s w
        else after_reconnect wanted time command (reconnect s w)

    unfoldable pub execute_command :
        Double → Text → RedisClient → W → Outcome (RedisClient × W × Bool)
    unfolding execute
    execute_command time command s w =
        execute false time command s w >>= λ (t, v, ok, reply). returned (t, v, ok)

    unfoldable pub execute_command_with_reply :
        Double → Text → RedisClient → W → Outcome (RedisClient × W × Text)
    unfolding execute
    execute_command_with_reply time command s w =
        execute true time command s w >>= λ (t, v, ok, reply). returned (t, v, reply)
