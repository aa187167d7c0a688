-- ===== src/MessageHandler/RoundTrip.antt =====
-- What deserialize_message of src/network/message_handler.cpp makes of the text of serialize_message.
use dann.Prelude.{ℕ, ◌≢◌, [], All, length}
use dann.Dict.{Text}
use dann.Types.{Outcome, returned, ◌>>=◌}
use dann.MessageHandler.Digits.{hex_of_size, hex_of_int, stoi, stoull}
use dann.MessageHandler.{Message, parsed, keep_data}

-- A text that a field can hold.
abbrev pub IsField : Text → Type 0
IsField t = All (λ c. c ≢ 58) t

-- The numbers are written in hexadecimal and read in decimal; `total` is the length of the whole text.
unfoldable pub reread : ℕ → Message → Outcome Message
reread total m = parsed (stoi (hex_of_int m.kind)) >>= λ kind.
    parsed (stoull (hex_of_size m.timestamp)) >>= λ timestamp.
    parsed (stoull (hex_of_size m.message_id)) >>= λ message_id.
    parsed (stoull (hex_of_size (length m.data_text))) >>= λ data_length. returned (
      keep_data total
        (record m { kind = kind; data_text = []; timestamp = timestamp; message_id = message_id })
        m.data_text data_length)
