-- ===== src/MessageHandler/Handling.antt =====
-- src/network/message_handler.cpp: handlers, the queue, the worker threads and the metrics.
use dann.Prelude.{
  ℕ, ◌+◌, ◌%◌, max, Bool, true, false, Option, none, some, List, [], ◌∷◌, ◌++◌, if◌then◌else◌, ℤ,
  size_mod,
}
use dann.Dict.{Text, find, assign, erase, int_key}
use dann.Metrics.{Double, DoubleOps}
use dann.Config.{text}
use dann.MessageHandler.{Message}

pub record HandlerMetrics : Type 0 where
  pub messages_sent : ℕ
  pub messages_received : ℕ
  pub messages_processed : ℕ
  pub messages_dropped : ℕ
  pub processing_errors : ℕ
  pub avg_processing_time_ms : Double
  pub message_counts : List (ℤ × ℕ)

abbrev pub no_metrics : HandlerMetrics
no_metrics = record {
  messages_sent = 0;
  messages_received = 0;
  messages_processed = 0;
  messages_dropped = 0;
  processing_errors = 0;
  avg_processing_time_ms = 0;
  message_counts = [];
}

-- A callback is a number.
pub record MessageHandler : Type 0 where
  pub node_id : Text
  pub processing : Bool
  pub max_queue_size : ℕ
  pub num_processing_threads : ℕ
  pub handlers : List (ℤ × ℕ)
  pub message_queue : List Message
  pub threads : ℕ
  pub metrics : HandlerMetrics

unfoldable pub new_message_handler : Text → MessageHandler
new_message_handler node_id = record {
  node_id = node_id;
  processing = false;
  max_queue_size = 10000;
  num_processing_threads = 4;
  handlers = [];
  message_queue = [];
  threads = 0;
  metrics = no_metrics;
}

unfoldable pub register_handler : ℤ → ℕ → MessageHandler → MessageHandler
register_handler kind callback s = record s { handlers = assign kind callback s.handlers }

unfoldable pub unregister_handler : ℤ → MessageHandler → MessageHandler
unregister_handler kind s = record s { handlers = erase kind s.handlers }

abbrev next : ℕ → ℕ
next n = (n + 1) % size_mod

-- A type that has not been counted begins at 0.
unfoldable pub count_type : ℤ → List (ℤ × ℕ) → List (ℤ × ℕ)
count_type kind counts = elim (find kind counts) [
  | none ↦ assign kind 1 counts
  | some n ↦ assign kind (next n) counts
]

-- Every message is taken as sent.
unfoldable pub send_message : Message → MessageHandler → MessageHandler × Bool
unfolding count_type
send_message m s = (
  record s {
    metrics = record s.metrics {
      messages_sent = next s.metrics.messages_sent;
      message_counts = count_type m.kind s.metrics.message_counts;
    };
  },
  true,
)

unfoldable pub broadcast_message : Message → MessageHandler → MessageHandler × Bool
unfolding send_message
broadcast_message m s = send_message m s

unfoldable pub start_processing : MessageHandler → MessageHandler
start_processing s =
    if s.processing
    then s
    else record s { processing = true; threads = s.threads + s.num_processing_threads }

-- All threads have been joined when it returns.
unfoldable pub stop_processing : MessageHandler → MessageHandler
stop_processing s = if s.processing then record s { processing = false; threads = 0 } else s

unfoldable pub clear_queue : MessageHandler → MessageHandler
clear_queue s = record s { message_queue = [] }

unfoldable pub set_max_queue_size : ℕ → MessageHandler → MessageHandler
set_max_queue_size max_size s = record s { max_queue_size = max 1 max_size }

unfoldable pub set_processing_threads : ℕ → MessageHandler → MessageHandler
set_processing_threads num_threads s = record s { num_processing_threads = max 1 num_threads }

unfoldable pub reset_metrics : MessageHandler → MessageHandler
reset_metrics s = record s { metrics = no_metrics }

unfoldable pub get_destination_address : Text → Text
get_destination_address node_id = node_id ++ text ":8080"

-- What a thread does in a round of its loop.
pub data Round : Type 0 where
  waiting : Round
  ended : Round
  handled : MessageHandler → Round

module _ (ops : DoubleOps) where
  -- The number of messages that the average is multiplied by has the new message in it.
  unfoldable pub update_metrics : Message → Bool → Double → HandlerMetrics → HandlerMetrics
  unfolding count_type
  update_metrics m processed processing_time metrics =
      let received = next metrics.messages_received in
      let total_time = ops.times metrics.avg_processing_time_ms (ops.of_count received) in
      record metrics {
        messages_received = received;
        messages_processed =
            if processed then next metrics.messages_processed else metrics.messages_processed;
        messages_dropped =
            if processed then metrics.messages_dropped else next metrics.messages_dropped;
        avg_processing_time_ms =
            ops.divide (ops.plus total_time processing_time) (ops.of_count received);
        message_counts = count_type m.kind metrics.message_counts;
      }

  -- `calls` says whether a callback returns, and does not throw.
  abbrev handled_by : (ℕ → Message → Bool) → Message → Option ℕ → Bool × ℕ
  handled_by calls m none = (false, 0)
  handled_by calls m (some callback) = if calls callback m then (true, 0) else (false, 1)

  unfoldable pub process_message :
      (ℕ → Message → Bool) → Double → Message → MessageHandler → MessageHandler
  unfolding update_metrics
  process_message calls processing_time m s =
      let (processed, errors) = handled_by calls m (find m.kind s.handlers) in
      record s {
        metrics = update_metrics m processed processing_time (record s.metrics {
          processing_errors = (s.metrics.processing_errors + errors) % size_mod;
        });
      }

  abbrev pub after_wait : (ℕ → Message → Bool) → Double → MessageHandler → List Message → Round
  after_wait calls processing_time s [] = waiting
  after_wait calls processing_time s (m ∷ queue) =
      handled (process_message calls processing_time m (record s { message_queue = queue }))

  -- A thread waits while the queue is empty and the processing goes on.
  unfoldable pub processing_round : (ℕ → Message → Bool) → Double → MessageHandler → Round
  unfolding process_message
  processing_round calls processing_time s =
      if s.processing then after_wait calls processing_time s s.message_queue else ended
