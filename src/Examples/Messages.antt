-- ===== src/Examples/Messages.antt =====
-- A message whose numbers are read back as others, with the data cut short.
use dann.Prelude.{ℕ, true, [], ◌∷◌, drop, size_mod, ◌+◌, ◌%◌, ◌≡◌, refl, replicate, pos}
use dann.Dict.{find, assign, int_key}
use dann.Config.{text}
use dann.MessageHandler.{Message}
use dann.MessageHandler.Handling.{
  MessageHandler, new_message_handler, register_handler, start_processing, count_type,
  update_metrics, process_message, processing_round,
}
use dann.MessageHandler.Counted.{total, here, after, registers, starts, handles, Reach-counted}
use dann.Examples.Settings.{whole}

abbrev sixteen : Message
sixteen = record {
  kind = pos 8;
  sender_id = text "a";
  receiver_id = text "b";
  data_text = replicate 16 120;
  timestamp = 16;
  message_id = 31;
}

-- A message of a type that no handler is registered for.
abbrev unhandled : Message
unhandled = record sixteen { kind = pos 3 }

-- What a thread leaves when it has taken both messages.
abbrev both_taken : MessageHandler
both_taken = record (new_message_handler (text "n")) {
  processing = true;
  threads = 4;
  handlers = (pos 8, 1) ∷ [];
  metrics = record {
    messages_sent = 0;
    messages_received = 2;
    messages_processed = 1;
    messages_dropped = 1;
    processing_errors = 0;
    avg_processing_time_ms = 10;
    message_counts = (pos 8, 1) ∷ (pos 3, 1) ∷ [];
  };
}

abbrev one_taken : MessageHandler
one_taken = record both_taken {
  message_queue = unhandled ∷ [];
  metrics = record {
    messages_sent = 0;
    messages_received = 1;
    messages_processed = 1;
    messages_dropped = 0;
    processing_errors = 0;
    avg_processing_time_ms = 5;
    message_counts = (pos 8, 1) ∷ [];
  };
}

Reach-counted_example :
    (2 ≡ (1 + 1) % size_mod)
    × (total ((pos 8, 1) ∷ (pos 3, 1) ∷ []) % size_mod ≡ (0 + 2) % size_mod)
    × ((n : ℕ) × ([] ≡ drop n (sixteen ∷ unhandled ∷ [])))
unfolding new_message_handler register_handler start_processing processing_round process_message
    update_metrics count_type find assign
Reach-counted_example = Reach-counted whole (text "n") (sixteen ∷ unhandled ∷ []) both_taken (
    after
      (after (after (after here (registers (pos 8) 1)) starts)
        (handles (λ c m. true) 5 one_taken refl))
      (handles (λ c m. true) 5 both_taken refl))
