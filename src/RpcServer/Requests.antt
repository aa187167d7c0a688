-- ===== src/RpcServer/Requests.antt =====
-- The metrics of a series of requests to src/network/rpc_server.cpp.
use dann.Prelude.{
  ℕ, suc, ◌+◌, ◌%◌, ◌<◌, ◌≡◌, Bool, true, false, List, [], ◌∷◌, length, if◌then◌else◌, size_mod,
  arith,
}
use dann.Dict.{Text}
use dann.Metrics.{Double, DoubleOps}
use dann.RpcServer.{RpcServer, ServerMetrics, is_handled, update_metrics, handle_request}

-- The methods of a series of requests, each with its time.
handle_all : DoubleOps → List (Text × Double) → RpcServer → RpcServer
unfolding handle_request
handle_all doubles [] s = s
handle_all doubles ((method, time) ∷ requests) s =
    handle_all doubles requests (handle_request doubles method time s)

-- How many of them a server can handle.
abbrev handled_of : Bool → List (Text × Double) → ℕ
handled_of has_service [] = 0
handled_of has_service ((method, time) ∷ requests) =
    (if is_handled has_service method then 1 else 0) + handled_of has_service requests

record IsBounded (metrics : ServerMetrics) : Type 0 where
  total : metrics.total_requests < size_mod
  successful : metrics.successful_requests < size_mod
  failed : metrics.failed_requests < size_mod

update_metrics-IsBounded :
    (doubles : DoubleOps) (success : Bool) (time : Double) (metrics : ServerMetrics)
    → IsBounded metrics
    → IsBounded (update_metrics doubles success time metrics)
unfolding update_metrics
update_metrics-IsBounded doubles true time metrics h = record {
  total = omega arith;
  successful = omega arith;
  failed = h.failed;
}
update_metrics-IsBounded doubles false time metrics h = record {
  total = omega arith;
  successful = h.successful;
  failed = omega arith;
}

successful_more :
    (b : Bool) (t x k : ℕ)
    → t ≡ ((if b then (x + 1) % size_mod else x) + k) % size_mod
    → t ≡ (x + ((if b then 1 else 0) + k)) % size_mod
successful_more true t x k h = omega (arith, h)
successful_more false t x k h = omega (arith, h)

failed_more :
    (b : Bool) (t x l k : ℕ)
    → (t + k) % size_mod ≡ ((if b then x else (x + 1) % size_mod) + l) % size_mod
    → (t + ((if b then 1 else 0) + k)) % size_mod ≡ (x + suc l) % size_mod
failed_more true t x l k h = omega (arith, h)
failed_more false t x l k h = omega (arith, h)

-- Modulo 2^64 a series of requests adds its number to the total, the number of those that the server can
-- handle to the successful ones, and the rest to the failed ones.
handle_all-counts :
    (doubles : DoubleOps) (requests : List (Text × Double)) (s : RpcServer)
    → IsBounded s.metrics
    → let t = handle_all doubles requests s in
      let n = handled_of s.has_service requests in
      (t.metrics.total_requests ≡ (s.metrics.total_requests + length requests) % size_mod)
      × (t.metrics.successful_requests ≡ (s.metrics.successful_requests + n) % size_mod)
      × ((t.metrics.failed_requests + n) % size_mod
          ≡ (s.metrics.failed_requests + length requests) % size_mod)
unfolding handle_all handle_request update_metrics
handle_all-counts doubles [] s h = omega (arith, h.total, h.successful, h.failed)
handle_all-counts doubles ((method, time) ∷ requests) s h =
    let b = is_handled s.has_service method in
    let ih =
      handle_all-counts doubles requests (handle_request doubles method time s)
        (update_metrics-IsBounded doubles b time s.metrics h) in
    (
      omega (arith, ih.0),
      successful_more b _ s.metrics.successful_requests _ ih.1,
      failed_more b _ s.metrics.failed_requests (length requests) _ ih.2,
    )
