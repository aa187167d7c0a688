-- ===== src/MessageHandler.antt =====
-- src/network/message_handler.cpp and include/dann/message_handler.h: messages as text, the handlers by
-- type, the queue and the metrics. A MessageType is its number, as any int is cast to one.
pub mod Counted
pub mod Digits
pub mod Handling
pub mod RoundTrip
use dann.Prelude.{
  ℕ, zero, suc, ◌+◌, ◌-◌, ◌*◌, ◌%◌, ◌^◌, max, Bool, true, false, Option, none, some, List, [], ◌∷◌,
  ◌++◌, take, drop, length, leb, ◌==◌, if◌then◌else◌, ℤ, pos, size_mod,
}
use dann.Dict.{Text, same_text, find, assign, erase, int_key}
use dann.Types.{Outcome, returned, thrown, ◌>>=◌}
use dann.Metrics.{Double, DoubleOps}
use dann.Config.{text}
use dann.MessageHandler.Digits.{hex_of_size, hex_of_int, stoi, stoull}

pub record Message : Type 0 where
  pub kind : ℤ
  pub sender_id : Text
  pub receiver_id : Text
  pub data_text : Text
  pub timestamp : ℕ
  pub message_id : ℕ

-- MessageType::ERROR
abbrev pub error_kind : ℤ
error_kind = pos 13

-- `counter` is the static counter; the result has the 20 bits of the counter behind the milliseconds.
unfoldable pub generate_message_id : ℕ → ℕ → ℕ × ℕ
generate_message_id timestamp counter =
    ((timestamp * 2 ^ 20 + counter % 2 ^ 20) % size_mod, (counter + 1) % size_mod)

-- The fields with a ':' behind each.
abbrev pub joined : Text → Text → Text → Text → Text → Text → Text → Text
joined kind sender receiver timestamp message_id data_length bytes =
    kind
    ++ 58
      ∷ (sender
          ++ 58
            ∷ (receiver
                ++ 58 ∷ (timestamp ++ 58 ∷ (message_id ++ 58 ∷ (data_length ++ 58 ∷ bytes)))))

unfoldable pub serialize_message : Message → Text
serialize_message m =
    text "msg:"
    ++ joined (hex_of_int m.kind) m.sender_id m.receiver_id (hex_of_size m.timestamp)
        (hex_of_size m.message_id) (hex_of_size (length m.data_text)) m.data_text

-- What is before the first ':' and what is behind it.
unfoldable pub split_field : Text → Option (Text × Text)
split_field [] = none
split_field (c ∷ t) =
    let rest = split_field t in
    if c == 58 then some ([], t) else elim rest [ none ↦ none | some (l, r) ↦ some (c ∷ l, r) ]

-- The number in a field, or the exception of std::stoi or std::stoull.
abbrev parsed {ℓ} : {A : Type ℓ} → Option A → Outcome A
parsed none = thrown
parsed (some a) = returned a

-- From the length on; `total` is the length of the whole text. The sum that is compared may wrap round.
abbrev keep_data : ℕ → Message → Text → ℕ → Message
keep_data total m rest data_length =
    if leb ((total - length rest + data_length) % size_mod) total
    then record m { data_text = take data_length rest }
    else m

unfoldable pub read_data : ℕ → Message → Option (Text × Text) → Outcome Message
read_data total m none = returned m
read_data total m (some (field, rest)) =
    parsed (stoull field) >>= λ n. returned (keep_data total m rest n)

unfoldable pub read_id : ℕ → Message → Option (Text × Text) → Outcome Message
unfolding split_field read_data
read_id total m none = returned m
read_id total m (some (field, rest)) =
    parsed (stoull field) >>= λ n. read_data total (record m { message_id = n }) (split_field rest)

unfoldable pub read_timestamp : ℕ → Message → Option (Text × Text) → Outcome Message
unfolding split_field read_id
read_timestamp total m none = returned m
read_timestamp total m (some (field, rest)) =
    parsed (stoull field) >>= λ n. read_id total (record m { timestamp = n }) (split_field rest)

unfoldable pub read_receiver : ℕ → Message → Option (Text × Text) → Outcome Message
unfolding split_field read_timestamp
read_receiver total m none = returned m
read_receiver total m (some (field, rest)) =
    read_timestamp total (record m { receiver_id = field }) (split_field rest)

unfoldable pub read_sender : ℕ → Message → Option (Text × Text) → Outcome Message
unfolding split_field read_receiver
read_sender total m none = returned m
read_sender total m (some (field, rest)) =
    read_receiver total (record m { sender_id = field }) (split_field rest)

unfoldable pub read_type : ℕ → Message → Option (Text × Text) → Outcome Message
unfolding split_field read_sender
read_type total m none = returned m
read_type total m (some (field, rest)) =
    parsed (stoi field) >>= λ n. read_sender total (record m { kind = n }) (split_field rest)

-- The message that is filled in is made first, with the clock's time and a number of its own.
unfoldable pub deserialize_message : ℕ → ℕ → Text → Outcome Message
unfolding split_field read_type
deserialize_message now message_id bytes =
    let m : Message = record {
      kind = error_kind;
      sender_id = [];
      receiver_id = [];
      data_text = [];
      timestamp = now;
      message_id = message_id;
    } in
    if same_text (take 4 bytes) (text "msg:")
    then read_type (length bytes) m (split_field (drop 4 bytes))
    else returned m
