-- ===== src/RpcServer.antt =====
-- src/network/rpc_server.cpp: the life of the server, its settings and the metrics of its requests. The
-- gRPC server and the threads, which only sleep, are left out but for whether they are there.
pub mod Requests
use dann.Prelude.{
  ℕ, ◌+◌, max, Bool, true, false, ◌||◌, Option, none, some, List, [], ◌∷◌, if◌then◌else◌, ℤ, pos,
  negsuc,
}
use dann.Dict.{Text, same_text}
use dann.Config.{text}
use dann.Metrics.{Double, DoubleOps}
use dann.Averages.{counted, running_average}

pub record ServerMetrics : Type 0 where
  pub total_requests : ℕ
  pub successful_requests : ℕ
  pub failed_requests : ℕ
  pub avg_response_time_ms : Double
  pub active_connections : ℕ

abbrev pub no_requests : ServerMetrics
no_requests = record {
  total_requests = 0;
  successful_requests = 0;
  failed_requests = 0;
  avg_response_time_ms = 0;
  active_connections = 0;
}

-- `has_service` and `has_server` say that the pointers are not null.
pub record RpcServer : Type 0 where
  pub address : Text
  pub port : ℤ
  pub running : Bool
  pub max_threads : ℕ
  pub timeout_ms : ℕ
  pub has_server : Bool
  pub has_service : Bool
  pub metrics : ServerMetrics
  pub worker_threads : ℕ

unfoldable pub new_rpc_server : Text → ℤ → RpcServer
new_rpc_server address port = record {
  address = address;
  port = port;
  running = false;
  max_threads = 4;
  timeout_ms = 5000;
  has_server = false;
  has_service = false;
  metrics = no_requests;
  worker_threads = 0;
}

unfoldable pub register_service : Bool → RpcServer → RpcServer
register_service given s = record s { has_service = given }

-- `std::max(m, n)`, which is m for a negative n
abbrev at_least : ℕ → ℤ → ℕ
at_least m (pos n) = max m n
at_least m (negsuc n) = m

unfoldable pub set_max_threads : ℤ → RpcServer → RpcServer
set_max_threads max_threads s = record s { max_threads = at_least 1 max_threads }

unfoldable pub set_timeout_ms : ℤ → RpcServer → RpcServer
set_timeout_ms timeout_ms s = record s { timeout_ms = at_least 100 timeout_ms }

unfoldable pub reset_metrics : RpcServer → RpcServer
reset_metrics s = record s { metrics = no_requests }

unfoldable pub start_worker_threads : RpcServer → RpcServer
start_worker_threads s = record s { worker_threads = s.worker_threads + s.max_threads }

unfoldable pub stop_worker_threads : RpcServer → RpcServer
stop_worker_threads s = record s { worker_threads = 0 }

-- `built` says whether gRPC gives a server; without one an exception is thrown and caught.
unfoldable pub start : Bool → RpcServer → RpcServer × Bool
unfolding start_worker_threads
start built s =
    if s.running
    then (s, true)
    else if built
    then (record (start_worker_threads (record s { has_server = true })) { running = true }, true)
    else (record s { has_server = false }, false)

unfoldable pub stop : RpcServer → RpcServer
unfolding stop_worker_threads
stop s = if s.running then stop_worker_threads (record s { running = false }) else s

-- Without a service an exception is thrown and caught.
unfoldable pub is_handled : Bool → Text → Bool
is_handled has_service method =
    if has_service
    then same_text method (text "Search") || same_text method (text "AddVectors")
    else false

module _ (doubles : DoubleOps) where
  unfoldable pub update_metrics : Bool → Double → ServerMetrics → ServerMetrics
  update_metrics success response_time metrics =
      let total = counted metrics.total_requests in
      record metrics {
        total_requests = total;
        successful_requests =
            if success then counted metrics.successful_requests else metrics.successful_requests;
        failed_requests =
            if success then metrics.failed_requests else counted metrics.failed_requests;
        avg_response_time_ms =
            running_average doubles metrics.avg_response_time_ms total response_time;
      }

  -- The data of a request is not read.
  unfoldable pub handle_request : Text → Double → RpcServer → RpcServer
  unfolding is_handled update_metrics
  handle_request method response_time s = record s {
    metrics = update_metrics (is_handled s.has_service method) response_time s.metrics;
  }
