-- ===== src/RpcClient.antt =====
-- src/network/rpc_client.cpp: the channel, the metrics and the retries of a request. The channel of gRPC
-- and the template deserialize_response, which is not in the repository, are parameters.
pub mod Retries
use dann.Prelude.{
  ℕ, zero, suc, ◌+◌, ◌*◌, ◌^◌, ◌%◌, max, Bool, true, false, Option, none, some, List, [], ◌∷◌, ◌++◌,
  length, leb, ltb, if◌then◌else◌, ℤ, pos, negsuc, size_mod,
}
use dann.Dict.{Text, same_text}
use dann.Types.{Float}
use dann.Config.{text}
use dann.Metrics.{Double, DoubleOps}
use dann.LocalStorage.Bytes.{serialize_vector}
use dann.Averages.{counted, running_average}

pub record ClientMetrics : Type 0 where
  pub total_requests : ℕ
  pub successful_requests : ℕ
  pub failed_requests : ℕ
  pub retries : ℕ
  pub avg_response_time_ms : Double
  pub bytes_sent : ℕ
  pub bytes_received : ℕ

abbrev pub no_requests : ClientMetrics
no_requests = record {
  total_requests = 0;
  successful_requests = 0;
  failed_requests = 0;
  retries = 0;
  avg_response_time_ms = 0;
  bytes_sent = 0;
  bytes_received = 0;
}

-- max_retries_ is never negative. `has_channel` says that channel_ and context_ are not null.
pub record RpcClient : Type 0 where
  pub address : Text
  pub port : ℤ
  pub connected : Bool
  pub timeout_ms : ℕ
  pub max_retries : ℕ
  pub compression_enabled : Bool
  pub has_channel : Bool
  pub metrics : ClientMetrics

unfoldable pub new_rpc_client : Text → ℤ → RpcClient
new_rpc_client address port = record {
  address = address;
  port = port;
  connected = false;
  timeout_ms = 5000;
  max_retries = 3;
  compression_enabled = false;
  has_channel = false;
  metrics = no_requests;
}

-- `created` says whether gRPC gives a channel.
unfoldable pub create_channel : Bool → RpcClient → RpcClient × Bool
create_channel created s = if created then (record s { has_channel = true }, true) else (s, false)

abbrev connected_by : RpcClient × Bool → RpcClient × Bool
connected_by (s, true) = (record s { connected = true }, true)
connected_by (s, false) = (s, false)

unfoldable pub connect : Bool → RpcClient → RpcClient × Bool
unfolding create_channel
connect created s = if s.connected then (s, true) else connected_by (create_channel created s)

unfoldable pub close_channel : RpcClient → RpcClient
close_channel s = record s { has_channel = false }

unfoldable pub disconnect : RpcClient → RpcClient
unfolding close_channel
disconnect s = if s.connected then close_channel (record s { connected = false }) else s

-- `std::max(m, n)`, which is m for a negative n
abbrev at_least : ℕ → ℤ → ℕ
at_least m (pos n) = max m n
at_least m (negsuc n) = m

unfoldable pub set_timeout_ms : ℤ → RpcClient → RpcClient
set_timeout_ms timeout_ms s = record s { timeout_ms = at_least 100 timeout_ms }

unfoldable pub set_max_retries : ℤ → RpcClient → RpcClient
set_max_retries max_retries s = record s { max_retries = at_least 0 max_retries }

unfoldable pub enable_compression : Bool → RpcClient → RpcClient
enable_compression enable s = record s { compression_enabled = enable }

unfoldable pub reset_metrics : RpcClient → RpcClient
reset_metrics s = record s { metrics = no_requests }

-- Without a server: the reply to a method is fixed.
unfoldable pub execute_command_with_reply : Text → Text
execute_command_with_reply command =
    if same_text command (text "HealthCheck")
    then text "pong"
    else if same_text command (text "GetServerInfo")
    then text "DANN Server v1.0.0"
    else []

unfoldable pub get_server_info : Text
unfolding execute_command_with_reply
get_server_info = execute_command_with_reply (text "GetServerInfo")

unfoldable pub deserialize_bool_response : Text → Bool
deserialize_bool_response response = same_text response (text "true")

-- The data of an update; std::to_string is a parameter.
unfoldable pub update_data : (ℤ → Text) → ℤ → List Float → Text
unfolding serialize_vector
update_data to_string id vector = to_string id ++ 58 ∷ serialize_vector vector

-- What a request ends in, with the milliseconds that were waited for between the attempts: a response,
-- an exception, or the overflow of an int.
pub data Answer (R : Type 0) : Type 0 where
  answered : RpcClient → List ℕ → R → Answer R
  failed : RpcClient → List ℕ → Answer R
  overflowed : Answer R

module _ (doubles : DoubleOps) where
  unfoldable pub update_metrics : Bool → Double → ℕ → ℕ → RpcClient → RpcClient
  update_metrics success response_time bytes_sent bytes_received s =
      let total = counted s.metrics.total_requests in
      record s {
        metrics = record s.metrics {
          total_requests = total;
          successful_requests =
              if success
              then counted s.metrics.successful_requests
              else s.metrics.successful_requests;
          failed_requests =
              if success then s.metrics.failed_requests else counted s.metrics.failed_requests;
          bytes_sent = (s.metrics.bytes_sent + bytes_sent) % size_mod;
          bytes_received = (s.metrics.bytes_received + bytes_received) % size_mod;
          avg_response_time_ms =
              running_average doubles s.metrics.avg_response_time_ms total response_time;
        };
      }

  unfoldable pub health_check : Double → RpcClient → RpcClient × Bool
  unfolding update_metrics execute_command_with_reply
  health_check response_time s =
      let response = execute_command_with_reply (text "HealthCheck") in
      let success = same_text response (text "pong") in
      (update_metrics success response_time 4 (length response) s, success)

  -- `deserialize` reads the reply in an attempt, or throws; attempts are counted from 0.
  module _ {R : Type 0} (deserialize : ℕ → Text → Option R) (response_time : Double)
      (method request : Text) where
    abbrev pub reply_of : Text
    reply_of = execute_command_with_reply method

    -- `100 * (1 << (attempts - 1))` is an int, which it exceeds from 100 * 2^25 on.
    abbrev pub after_attempt : RpcClient → ℕ → List ℕ → Answer R → Option R → Answer R
    after_attempt s attempts waits again (some response) =
        answered (update_metrics true response_time (length request) (length reply_of) s) waits
          response
    after_attempt s attempts waits again none =
        if ltb s.max_retries (attempts + 1)
        then failed (update_metrics false 0 0 0 s) waits
        else if leb 25 attempts
        then overflowed
        else again

    -- The rounds that are left; when there are none the last exception of the function is thrown, which
    -- is not reached.
    unfoldable pub retry_from : ℕ → ℕ → List ℕ → RpcClient → Answer R
    unfolding update_metrics execute_command_with_reply
    retry_from zero attempts waits s = failed s waits
    retry_from (suc rounds) attempts waits s =
        let again = retry_from rounds (attempts + 1) (waits ++ 100 * 2 ^ attempts ∷ []) s in
        after_attempt s attempts waits again (deserialize attempts reply_of)

    -- An attempt more than there are retries.
    unfoldable pub send_with_retry : RpcClient → Answer R
    unfolding retry_from
    send_with_retry s = retry_from (s.max_retries + 1) 0 [] s
