-- ===== src/RpcClient/Retries.antt =====
-- The attempts of send_with_retry of src/network/rpc_client.cpp.
use native.Mathlib.Nat.{add-zero, zero-add, suc-add}
use dann.Prelude.{
  ℕ, zero, suc, ◌+◌, ◌-◌, ◌*◌, ◌^◌, ◌≤◌, ◌<◌, ◌≡◌, refl, ap, ◌%◌, Bool, if◌then◌else◌, ◌∙◌, true,
  false, Option, none, some, List, [], ◌∷◌, ◌++◌, append-nil, append_assoc, length, ltb, arith,
}
use dann.Dict.{Text}
use dann.Metrics.{Double, DoubleOps}
use dann.RpcClient.{
  RpcClient, Answer, answered, failed, update_metrics, execute_command_with_reply, after_attempt,
  retry_from, send_with_retry,
}

-- n waits from the i-th on, each twice as long as the one before.
abbrev pub backoffs : ℕ → ℕ → List ℕ
backoffs zero i = []
backoffs (suc n) i = 100 * 2 ^ i ∷ backoffs n (i + 1)

module _ (doubles : DoubleOps) {R : Type 0} (deserialize : ℕ → Text → Option R)
    (response_time : Double) (method request : Text) where
  abbrev reply : Text
  reply = execute_command_with_reply method

  again_if_none :
      (s : RpcClient) (i : ℕ) (waits : List ℕ) (again : Answer R)
      → i < s.max_retries
      → i < 25
      → after_attempt doubles deserialize response_time method request s i waits again none ≡ again
  again_if_none s i waits again h k = ground arith

  -- k attempts that fail.
  retry_from-skip :
      (k i rounds : ℕ) (waits : List ℕ) (s : RpcClient)
      → ((j : ℕ) → j < k → deserialize (i + j) reply ≡ none)
      → i + k ≤ s.max_retries
      → i + k ≤ 25
      → retry_from doubles deserialize response_time method request (k + rounds) i waits s
        ≡ retry_from doubles deserialize response_time method request rounds
            (i + k)
            (waits ++ backoffs k i)
            s
  unfolding retry_from
  retry_from-skip zero i rounds waits s none_of m b = rw (zero-add rounds, add-zero i, append-nil)
  retry_from-skip (suc k) i rounds waits s none_of m b =
      let first : deserialize i reply ≡ none = rw (add-zero i) at (none_of 0 (omega arith)) in
      let shift : (j : ℕ) → i + 1 + j ≡ i + suc j = λ j. omega arith in
      rw (suc-add k rounds) (
        ap (after_attempt doubles deserialize response_time method request s i waits _) first
        ∙ (again_if_none s i waits _ (omega arith) (omega arith)
            ∙ (retry_from-skip k (i + 1) rounds (waits ++ 100 * 2 ^ i ∷ []) s
                  (λ j h. ap (λ n. deserialize n reply) (shift j) ∙ none_of (suc j) (omega arith))
                  (omega arith) (omega arith)
                ∙ rw (shift k, append_assoc))))

  -- What is left when the attempt after k failed ones has ended in o, after k waits.
  abbrev pub ended : RpcClient → ℕ → Option R → Answer R
  ended s k (some response) =
      answered (update_metrics doubles true response_time (length request) (length reply) s)
        (backoffs k 0) response
  ended s k none = failed (update_metrics doubles false 0 0 0 s) (backoffs k 0)

  last_attempt :
      (s : RpcClient) (k : ℕ) (o : Option R) (again : Answer R)
      → (o ≡ none → k ≡ s.max_retries)
      → after_attempt doubles deserialize response_time method request s k (backoffs k 0) again o
        ≡ ended s k o
  last_attempt s k (some response) again h = refl
  last_attempt s k none again h =
      let e : k ≡ s.max_retries = h refl in
      let over : ltb s.max_retries (k + 1) ≡ true = ground arith in rw over

  send_with_retry-lem :
      (s : RpcClient) (k : ℕ) (o : Option R)
      → k ≤ s.max_retries
      → s.max_retries ≤ 25
      → ((j : ℕ) → j < k → deserialize j reply ≡ none)
      → deserialize k reply ≡ o
      → (o ≡ none → k ≡ s.max_retries)
      → send_with_retry doubles deserialize response_time method request s ≡ ended s k o
  unfolding send_with_retry retry_from
  send_with_retry-lem s k o m b fails ends last =
      let rounds : s.max_retries + 1 ≡ k + suc (s.max_retries - k) = omega arith in
      ap (λ n. retry_from doubles deserialize response_time method request n 0 [] s) rounds
      ∙ (retry_from-skip k 0 (suc (s.max_retries - k)) [] s (λ j h. rw (zero-add j) (fails j h))
            (rw (zero-add k) m) (rw (zero-add k) (omega arith))
          ∙ rw (zero-add k, ends) (last_attempt s k o _ last))

  abbrev pub is_response : Option R → Bool
  is_response (some response) = true
  is_response none = false

  abbrev pub with_client : RpcClient → List ℕ → Option R → Answer R
  with_client t waits (some response) = answered t waits response
  with_client t waits none = failed t waits

  -- With at most 25 retries: when the first k attempts have failed and the next one succeeds, or is the
  -- last that is allowed, the request ends there, with its response or as failed, after k waits of 100,
  -- 200, 400 milliseconds and so on. Modulo 2 ^ 64 there is one request more, one success more with a
  -- response and one failure more without, and the bytes sent are more by the request of a success. No
  -- retry is counted.
  pub send_with_retry-ended :
      (s : RpcClient) (k : ℕ) (o : Option R)
      → k ≤ s.max_retries
      → s.max_retries ≤ 25
      → ((j : ℕ) → j < k → deserialize j reply ≡ none)
      → deserialize k reply ≡ o
      → (o ≡ none → k ≡ s.max_retries)
      → (t : RpcClient) × (send_with_retry doubles deserialize response_time method request s
          ≡ with_client t (backoffs k 0) o)
        × (t.metrics.total_requests ≡ (s.metrics.total_requests + 1) % 2 ^ 64)
        × (t.metrics.successful_requests ≡ (
            if is_response o
            then (s.metrics.successful_requests + 1) % 2 ^ 64
            else s.metrics.successful_requests))
        × (t.metrics.failed_requests ≡ (
            if is_response o
            then s.metrics.failed_requests
            else (s.metrics.failed_requests + 1) % 2 ^ 64))
        × (t.metrics.bytes_sent
            ≡ (s.metrics.bytes_sent + (if is_response o then length request else 0)) % 2 ^ 64)
        × (t.metrics.retries ≡ s.metrics.retries)
  unfolding update_metrics
  send_with_retry-ended s k (some response) m b fails ends last = (
    update_metrics doubles true response_time (length request) (length reply) s,
    send_with_retry-lem s k (some response) m b fails ends last,
    refl,
    refl,
    refl,
    refl,
    refl,
  )
  send_with_retry-ended s k none m b fails ends last = (
    update_metrics doubles false 0 0 0 s,
    send_with_retry-lem s k none m b fails ends last,
    refl,
    refl,
    refl,
    refl,
    refl,
  )
