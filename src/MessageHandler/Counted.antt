-- ===== src/MessageHandler/Counted.antt =====
-- What all orders of calls of src/network/message_handler.cpp leave in the counters and the queue.
use dann.Prelude.{
  ℕ, ◌+◌, ◌%◌, ◌≡◌, refl, ap, sym, ◌∙◌, arith, size_mod, Bool, true, false, if_both, subst, inl,
  inr, none, some, Option-cases, List, [], ◌∷◌, drop, length, drop-drop, drop_all, ℤ,
}
use dann.Dict.{Text, find, assign, int_key}
use dann.Metrics.{Double, DoubleOps}
use dann.MessageHandler.{Message}
use dann.MessageHandler.Handling.{
  HandlerMetrics, MessageHandler, new_message_handler, register_handler, unregister_handler,
  count_type, send_message, broadcast_message, start_processing, stop_processing, clear_queue,
  set_max_queue_size, set_processing_threads, reset_metrics, Round, waiting, ended, handled,
  after_wait, update_metrics, process_message, processing_round,
}

-- All messages that are counted, whatever their type.
unfoldable pub total : List (ℤ × ℕ) → ℕ
total [] = 0
total ((kind, n) ∷ counts) = n + total counts

total-assign_new :
    (kind : ℤ) (v : ℕ) (counts : List (ℤ × ℕ))
    → find kind counts ≡ none
    → total (assign kind v counts) ≡ total counts + v
unfolding total find assign
total-assign_new kind v [] h = omega arith
total-assign_new kind v ((j, w) ∷ counts) h = ground (arith, total-assign_new kind v counts)

total-assign_old :
    (kind : ℤ) (v n : ℕ) (counts : List (ℤ × ℕ))
    → find kind counts ≡ some n
    → total (assign kind v counts) + n ≡ total counts + v
unfolding total find assign
total-assign_old kind v n [] h = ground arith
total-assign_old kind v n ((j, w) ∷ counts) h = ground (arith, total-assign_old kind v n counts)

wrap_count : (t old n : ℕ) → t + n ≡ old + (n + 1) % size_mod → t % size_mod ≡ (old + 1) % size_mod
wrap_count t old n h = omega arith

total-count_type :
    (kind : ℤ) (counts : List (ℤ × ℕ))
    → total (count_type kind counts) % size_mod ≡ (total counts + 1) % size_mod
unfolding count_type
total-count_type kind counts = elim (Option-cases (find kind counts)) [
  | inl h ↦ rw (h, count_type) (ap (λ t. t % size_mod) (total-assign_new kind 1 counts h))
  | inr (n, h) ↦
      rw (h, count_type)
        (wrap_count _ (total counts) n (total-assign_old kind ((n + 1) % size_mod) n counts h))
]

-- The counters fit each other.
pub record IsCounted (metrics : HandlerMetrics) : Type 0 where
  pub outcomes :
      metrics.messages_received ≡ (metrics.messages_processed + metrics.messages_dropped) % size_mod
  pub types :
      total metrics.message_counts % size_mod
      ≡ (metrics.messages_sent + metrics.messages_received) % size_mod

wrap_sum :
    (a b c : ℕ) → a ≡ (b + c) % size_mod → (a + 1) % size_mod ≡ ((b + 1) % size_mod + c) % size_mod
wrap_sum a b c h = omega arith

wrap_sum_right :
    (a b c : ℕ) → a ≡ (b + c) % size_mod → (a + 1) % size_mod ≡ (b + (c + 1) % size_mod) % size_mod
wrap_sum_right a b c h = omega arith

wrap_one_more_right :
    (t u a b : ℕ)
    → t % size_mod ≡ (u + 1) % size_mod
    → u % size_mod ≡ (a + b) % size_mod
    → t % size_mod ≡ (a + (b + 1) % size_mod) % size_mod
wrap_one_more_right t u a b h k = omega arith

wrap_one_more :
    (t u a b : ℕ)
    → t % size_mod ≡ (u + 1) % size_mod
    → u % size_mod ≡ (a + b) % size_mod
    → t % size_mod ≡ ((a + 1) % size_mod + b) % size_mod
wrap_one_more t u a b h k = omega arith

send_message-IsCounted :
    (m : Message) (s : MessageHandler)
    → IsCounted s.metrics
    → IsCounted (send_message m s).0.metrics
unfolding send_message
send_message-IsCounted m s h = record {
  outcomes = h.outcomes;
  types =
      wrap_one_more _ (total s.metrics.message_counts) s.metrics.messages_sent
        s.metrics.messages_received (total-count_type m.kind s.metrics.message_counts) h.types;
}

module _ (ops : DoubleOps) where
  update_metrics-IsCounted :
      (m : Message) (processed : Bool) (time : Double) (metrics : HandlerMetrics)
      → IsCounted metrics
      → IsCounted (update_metrics ops m processed time metrics)
  unfolding update_metrics
  update_metrics-IsCounted m true time metrics h = record {
    outcomes = wrap_sum _ metrics.messages_processed metrics.messages_dropped h.outcomes;
    types =
        wrap_one_more_right _ (total metrics.message_counts) metrics.messages_sent
          metrics.messages_received (total-count_type m.kind metrics.message_counts) h.types;
  }
  update_metrics-IsCounted m false time metrics h = record {
    outcomes = wrap_sum_right _ metrics.messages_processed metrics.messages_dropped h.outcomes;
    types =
        wrap_one_more_right _ (total metrics.message_counts) metrics.messages_sent
          metrics.messages_received (total-count_type m.kind metrics.message_counts) h.types;
  }

  process_message-IsCounted :
      (calls : ℕ → Message → Bool) (time : Double) (m : Message) (s : MessageHandler)
      → IsCounted s.metrics
      → IsCounted (process_message ops calls time m s).metrics
  unfolding process_message
  process_message-IsCounted calls time m s h =
      update_metrics-IsCounted m _ time _ (record { outcomes = h.outcomes; types = h.types })

  -- A call, or a round in which a thread takes a message.
  pub data Step : MessageHandler → MessageHandler → Type 0 where
    registers :
        {s : MessageHandler} (kind : ℤ) (callback : ℕ) → Step s (register_handler kind callback s)
    unregisters : {s : MessageHandler} (kind : ℤ) → Step s (unregister_handler kind s)
    sends : {s : MessageHandler} (m : Message) → Step s (send_message m s).0
    broadcasts : {s : MessageHandler} (m : Message) → Step s (broadcast_message m s).0
    starts : {s : MessageHandler} → Step s (start_processing s)
    stops : {s : MessageHandler} → Step s (stop_processing s)
    clears : {s : MessageHandler} → Step s (clear_queue s)
    bounds_queue : {s : MessageHandler} (max_size : ℕ) → Step s (set_max_queue_size max_size s)
    sets_threads :
        {s : MessageHandler} (num_threads : ℕ) → Step s (set_processing_threads num_threads s)
    resets : {s : MessageHandler} → Step s (reset_metrics s)
    handles :
        {s : MessageHandler} (calls : ℕ → Message → Bool) (time : Double) (t : MessageHandler)
        → processing_round ops calls time s ≡ handled t
        → Step s t

  pub data Reach (s : MessageHandler) : MessageHandler → Type 0 where
    here : Reach s s
    after : {t u : MessageHandler} → Reach s t → Step t u → Reach s u

  -- The counters fit, and the queue is the end of the one at the start.
  record IsKept (queue : List Message) (s : MessageHandler) : Type 0 where
    counted : IsCounted s.metrics
    left : (n : ℕ) × (s.message_queue ≡ drop n queue)

  IsKept-same :
      (queue : List Message) (s t : MessageHandler)
      → t.metrics ≡ s.metrics
      → t.message_queue ≡ s.message_queue
      → IsKept queue s
      → IsKept queue t
  IsKept-same queue s t metrics same h = record {
    counted = rw metrics h.counted;
    left = (h.left.0, same ∙ h.left.1);
  }

  unfoldable RoundKept : List Message → Round → Type 0
  RoundKept queue waiting = Unit
  RoundKept queue ended = Unit
  RoundKept queue (handled t) = IsKept queue t

  after_wait-kept :
      (queue : List Message) (calls : ℕ → Message → Bool) (time : Double) (s : MessageHandler)
      (l : List Message)
      → s.message_queue ≡ l
      → IsKept queue s
      → RoundKept queue (after_wait ops calls time s l)
  unfolding RoundKept process_message
  after_wait-kept queue calls time s [] e h = tt
  after_wait-kept queue calls time s (m ∷ l) e h = record {
    counted = process_message-IsCounted calls time m (record s { message_queue = l }) h.counted;
    left = (
      h.left.0 + 1,
      ap (drop 1) (sym e) ∙ (ap (drop 1) h.left.1 ∙ sym (drop-drop h.left.0 1 queue)),
    );
  }

  processing_round-kept :
      (queue : List Message) (calls : ℕ → Message → Bool) (time : Double) (s : MessageHandler)
      → IsKept queue s
      → RoundKept queue (processing_round ops calls time s)
  unfolding processing_round RoundKept
  processing_round-kept queue calls time s h =
      if_both (RoundKept queue) s.processing _ _
        (after_wait-kept queue calls time s s.message_queue refl h) tt

  Step-IsKept :
      {queue : List Message} {s t : MessageHandler} → Step s t → IsKept queue s → IsKept queue t
  unfolding register_handler unregister_handler send_message broadcast_message clear_queue
      set_max_queue_size set_processing_threads reset_metrics start_processing stop_processing
      RoundKept total
  Step-IsKept {queue} {s} (registers kind callback) h = IsKept-same queue s _ refl refl h
  Step-IsKept {queue} {s} (unregisters kind) h = IsKept-same queue s _ refl refl h
  Step-IsKept {queue} {s} (sends m) h = record {
    counted = send_message-IsCounted m s h.counted;
    left = h.left;
  }
  Step-IsKept {queue} {s} (broadcasts m) h = record {
    counted = send_message-IsCounted m s h.counted;
    left = h.left;
  }
  Step-IsKept {queue} {s} starts h =
      if_both (IsKept queue) s.processing _ _ h (IsKept-same queue s _ refl refl h)
  Step-IsKept {queue} {s} stops h =
      if_both (IsKept queue) s.processing _ _ (IsKept-same queue s _ refl refl h) h
  Step-IsKept {queue} {s} clears h = record {
    counted = h.counted;
    left = (length queue, sym (drop_all (length queue) queue (omega arith)));
  }
  Step-IsKept {queue} {s} (bounds_queue max_size) h = IsKept-same queue s _ refl refl h
  Step-IsKept {queue} {s} (sets_threads num_threads) h = IsKept-same queue s _ refl refl h
  Step-IsKept resets h = record {
    counted = record { outcomes = refl; types = refl };
    left = h.left;
  }
  Step-IsKept {queue} {s} (handles calls time t e) h =
      subst (RoundKept queue) e (processing_round-kept queue calls time s h)

  new_message_handler-IsKept :
      (node_id : Text) (queue : List Message)
      → IsKept queue (record (new_message_handler node_id) { message_queue = queue })
  unfolding new_message_handler total
  new_message_handler-IsKept node_id queue = record {
    counted = record { outcomes = refl; types = refl };
    left = (0, refl);
  }

  Reach-IsKept :
      {queue : List Message} {s t : MessageHandler} → Reach s t → IsKept queue s → IsKept queue t
  Reach-IsKept here h = h
  Reach-IsKept (after path step) h = Step-IsKept step (Reach-IsKept path h)

  -- In every order of the calls and rounds, for a new handler with any messages in its queue: modulo
  -- 2^64 the received messages are the processed and the dropped ones, and the counts by type add up
  -- to the sent and the received ones; what waits in the queue is the end of what was there at first.
  pub Reach-counted :
      (node_id : Text) (queue : List Message) (t : MessageHandler)
      → Reach (record (new_message_handler node_id) { message_queue = queue }) t
      → (t.metrics.messages_received
          ≡ (t.metrics.messages_processed + t.metrics.messages_dropped) % size_mod)
        × (total t.metrics.message_counts % size_mod
            ≡ (t.metrics.messages_sent + t.metrics.messages_received) % size_mod)
        × ((n : ℕ) × (t.message_queue ≡ drop n queue))
  Reach-counted node_id queue t path =
      let h : IsKept queue t = Reach-IsKept path (new_message_handler-IsKept node_id queue) in
      (h.counted.outcomes, h.counted.types, h.left)
