-- ===== src/RedisClient/Reached.antt =====
-- What all orders of calls of src/storage/redis_client.cpp leave in the connection and the metrics.
use dann.Prelude.{
  ◌≢◌, ◌==◌, All, [], ◌∷◌, Bool-cases, inl, inr, ℕ, ◌+◌, ◌%◌, ◌≡◌, refl, subst, Bool, true, false,
  if_both, if_split, Option, length, ℤ, size_mod, arith,
}
use dann.Dict.{Text}
use dann.Types.{Outcome, returned, undefined, thrown}
use dann.Metrics.{Double, DoubleOps}
use dann.RedisClient.{
  Reply, RedisMetrics, RedisClient, Hiredis, new_redis_client, set_timeout_ms, set_max_retries,
  set_pool_size, reset_metrics, close_connection, disconnect, c_str, has_percent, is_success,
  update_metrics, create_connection, after_connect, connect, reconnect, after_reply, send,
  after_reconnect, execute,
}

-- The counters of the commands fit each other, and no error of a connection is counted.
pub record IsCounted (metrics : RedisMetrics) : Type 0 where
  pub outcomes :
      metrics.commands_sent ≡ (metrics.commands_succeeded + metrics.commands_failed) % size_mod
  pub no_connection_errors : metrics.connection_errors ≡ 0
  pub no_timeout_errors : metrics.timeout_errors ≡ 0

-- While the client is connected there is a context.
pub record IsLinked (s : RedisClient) : Type 0 where
  pub linked : s.connected ≡ true → s.has_context ≡ true
  pub counted_all : IsCounted s.metrics

abbrev pub Linked : {A : Type 0} → (A → RedisClient) → Outcome A → Type 0
Linked client (returned r) = IsLinked (client r)
Linked client _ = ⊥

-- What is before the first 0 has no per cent sign if the text has none.
has_percent-c_str : (t : Text) → All (λ c. c ≢ 37) t → has_percent (c_str t) ≡ false
unfolding has_percent c_str
has_percent-c_str [] h = refl
has_percent-c_str (c ∷ t) h =
    let letter : (c == 37) ≡ false = ground (arith, h.0) in
    elim (Bool-cases (c == 0)) [ inl y ↦ rw y | inr n ↦ rw (n, letter, has_percent-c_str t h.1) ]

module _ (doubles : DoubleOps) where
  update_metrics-IsCounted :
      (success : Bool) (time : Double) (sent received : ℕ) (metrics : RedisMetrics)
      → IsCounted metrics
      → IsCounted (update_metrics doubles success time sent received metrics)
  unfolding update_metrics
  update_metrics-IsCounted true time sent received metrics h = record {
    outcomes = omega (arith, h.outcomes);
    no_connection_errors = h.no_connection_errors;
    no_timeout_errors = h.no_timeout_errors;
  }
  update_metrics-IsCounted false time sent received metrics h = record {
    outcomes = omega (arith, h.outcomes);
    no_connection_errors = h.no_connection_errors;
    no_timeout_errors = h.no_timeout_errors;
  }

  module _ {W : Type 0} (lib : Hiredis W) (to_string : ℤ → Text) where
    after_connect-IsLinked :
        (s : RedisClient) (r : W × Bool)
        → IsCounted s.metrics
        → s.connected ≡ false
        → let (t, v, ok) = after_connect doubles lib to_string s r in
          IsLinked t × (ok ≡ true → t.has_context ≡ true)
    after_connect-IsLinked s (w, true) h d =
        (record { linked = λ c. refl; counted_all = h }, λ c. refl)
    after_connect-IsLinked s (w, false) h d =
        (record { linked = λ c. ground (arith, c, d); counted_all = h }, λ c. ground (arith, c))

    after_reply-IsLinked :
        (wanted : Bool) (time : Double) (size : ℕ) (s : RedisClient) (r : W × Option Reply)
        → IsCounted s.metrics
        → s.has_context ≡ true
        → IsLinked (after_reply doubles lib to_string wanted time size s r).0
    after_reply-IsLinked wanted time size s (w, reply) h c = record {
      linked = λ e. c;
      counted_all = update_metrics-IsCounted (is_success reply) time size _ s.metrics h;
    }

    send-Linked :
        (wanted : Bool) (time : Double) (command : Text) (s : RedisClient) (w : W)
        → IsCounted s.metrics
        → s.has_context ≡ true
        → All (λ c. c ≢ 37) command
        → Linked (λ r. r.0) (send doubles lib to_string wanted time command s w)
    unfolding send
    send-Linked wanted time command s w h c plain =
        if_split (Linked (λ (r : RedisClient × W × Bool × Text). r.0)) s.has_context _ _
          (λ y. rw (has_percent-c_str command plain) (
            after_reply-IsLinked wanted time (length command) s (lib.command (c_str command) w) h
              c))
          (λ n. ground (arith, c, n))

    after_reconnect-Linked :
        (wanted : Bool) (time : Double) (command : Text) (r : RedisClient × W × Bool)
        → IsLinked r.0
        → (r.2 ≡ true → r.0.has_context ≡ true)
        → All (λ c. c ≢ 37) command
        → Linked (λ t. t.0) (after_reconnect doubles lib to_string wanted time command r)
    after_reconnect-Linked wanted time command (s, w, true) h c plain =
        send-Linked wanted time command s w h.counted_all (c refl) plain
    after_reconnect-Linked wanted time command (s, w, false) h c plain = record {
      linked = h.linked;
      counted_all = update_metrics-IsCounted false 0 (length command) 0 s.metrics h.counted_all;
    }

    -- A command never reaches hiredis without a context.
    execute-Linked :
        (wanted : Bool) (time : Double) (command : Text) (s : RedisClient) (w : W)
        → IsLinked s
        → All (λ c. c ≢ 37) command
        → Linked (λ r. r.0) (execute doubles lib to_string wanted time command s w)
    unfolding execute reconnect create_connection close_connection
    execute-Linked wanted time command s w h plain =
        if_split (Linked (λ (r : RedisClient × W × Bool × Text). r.0)) s.connected _ _
          (λ y. send-Linked wanted time command s w h.counted_all (h.linked y) plain)
          (λ n.
            let made =
              after_connect-IsLinked (record s { has_context = false })
                (lib.connect s.host s.port w) h.counted_all n in
            after_reconnect-Linked wanted time command _ made.0 made.1 plain)

    -- A call; the server's state w may be any, as others change it too.
    pub data Step : RedisClient → RedisClient → Type 0 where
      connects : {s : RedisClient} (w : W) → Step s (connect doubles lib to_string s w).0
      disconnects : {s : RedisClient} → Step s (disconnect s)
      executes :
          {s : RedisClient} (wanted : Bool) (time : Double) (command : Text) (w : W)
          (r : RedisClient × W × Bool × Text)
          → All (λ c. c ≢ 37) command
          → execute doubles lib to_string wanted time command s w ≡ returned r
          → Step s r.0
      resets : {s : RedisClient} → Step s (reset_metrics s)
      times : {s : RedisClient} (timeout_ms : ℤ) → Step s (set_timeout_ms timeout_ms s)
      retries : {s : RedisClient} (max_retries : ℤ) → Step s (set_max_retries max_retries s)
      pools : {s : RedisClient} (pool_size : ℕ) → Step s (set_pool_size pool_size s)

    pub data Reach : RedisClient → Type 0 where
      made : (host : Text) (port db : ℤ) → Reach (new_redis_client host port db)
      after : {s t : RedisClient} → Reach s → Step s t → Reach t

    IsLinked-same :
        (s t : RedisClient)
        → t.connected ≡ s.connected
        → t.has_context ≡ s.has_context
        → t.metrics ≡ s.metrics
        → IsLinked s
        → IsLinked t
    IsLinked-same s t connected has_context metrics h = record {
      linked = rw (connected, has_context) h.linked;
      counted_all = rw metrics h.counted_all;
    }

    connect-IsLinked :
        (s : RedisClient) (w : W) → IsLinked s → IsLinked (connect doubles lib to_string s w).0
    unfolding connect create_connection
    connect-IsLinked s w h =
        if_split (λ (r : RedisClient × W × Bool). IsLinked r.0) s.connected _ _ (λ y. h)
          (λ n. (after_connect-IsLinked s (lib.connect s.host s.port w) h.counted_all n).0)

    Step-IsLinked : {s t : RedisClient} → Step s t → IsLinked s → IsLinked t
    unfolding disconnect close_connection reset_metrics set_timeout_ms set_max_retries set_pool_size
    Step-IsLinked {s} (connects w) h = connect-IsLinked s w h
    Step-IsLinked {s} disconnects h =
        if_both IsLinked s.connected _ _
          (record { linked = λ e. ground (arith, e); counted_all = h.counted_all }) h
    Step-IsLinked {s} (executes wanted time command w r plain e) h =
        subst (Linked (λ (q : RedisClient × W × Bool × Text). q.0)) e
          (execute-Linked wanted time command s w h plain)
    Step-IsLinked resets h = record {
      linked = h.linked;
      counted_all = record {
        outcomes = refl;
        no_connection_errors = refl;
        no_timeout_errors = refl;
      };
    }
    Step-IsLinked {s} (times timeout_ms) h = IsLinked-same s _ refl refl refl h
    Step-IsLinked {s} (retries max_retries) h = IsLinked-same s _ refl refl refl h
    Step-IsLinked {s} (pools pool_size) h = IsLinked-same s _ refl refl refl h

    Reach-IsLinked : {s : RedisClient} → Reach s → IsLinked s
    unfolding new_redis_client
    Reach-IsLinked (made host port db) = record {
      linked = λ e. ground (arith, e);
      counted_all = record {
        outcomes = refl;
        no_connection_errors = refl;
        no_timeout_errors = refl;
      };
    }
    Reach-IsLinked (after path step) = Step-IsLinked step (Reach-IsLinked path)

    Linked-returns :
        (o : Outcome (RedisClient × W × Bool × Text))
        → Linked (λ r. r.0) o
        → (r : RedisClient × W × Bool × Text) × (o ≡ returned r)
    Linked-returns (returned r) h = (r, refl)
    Linked-returns undefined h = absurd h
    Linked-returns thrown h = absurd h

    -- In every order of the calls whose commands have no per cent sign: whether connected or not, a command
    -- without one has a result, as hiredis is never called without a context; the commands that are counted as sent are, modulo 2^64,
    -- those that succeeded and those that failed; and no error of a connection and no timeout is ever
    -- counted.
    pub Reach-executes :
        (s : RedisClient) (wanted : Bool) (time : Double) (command : Text) (w : W)
        → Reach s
        → All (λ c. c ≢ 37) command
        → ((r : RedisClient × W × Bool × Text) × (execute doubles lib to_string wanted time command
                s w
              ≡ returned r))
          × IsCounted s.metrics
    Reach-executes s wanted time command w path plain =
        let h = Reach-IsLinked path in
        (Linked-returns _ (execute-Linked wanted time command s w h plain), h.counted_all)
