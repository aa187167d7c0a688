-- ===== src/Averages.antt =====
-- The counters and the averages that src/core/bulk_loader.cpp, src/core/query_router.cpp,
-- src/network/rpc_server.cpp and src/network/rpc_client.cpp keep of their calls.
use dann.Prelude.{ℕ, ◌+◌, ◌-◌, ◌%◌, size_mod}
use dann.Metrics.{Double, DoubleOps}

-- A uint64_t after `++`.
abbrev pub counted : ℕ → ℕ
counted n = (n + 1) % size_mod

-- `(average * (count - 1) + value) / count`, where the count has the new value in it.
abbrev pub running_average : DoubleOps → Double → ℕ → Double → Double
running_average ops average count value =
    ops.divide
      (ops.plus (ops.times average (ops.of_count ((count + (size_mod - 1)) % size_mod))) value)
      (ops.of_count count)
