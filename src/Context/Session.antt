-- ===== src/Context/Session.antt =====
-- `Session` of zen_claw/session/manager.py, with the keys of its metadata that the compression of
-- the context uses. Its times are not modelled.
use zen_claw.Base.{ℕ, ◌-◌, String, Bool, List, [], ◌∷◌, ◌++◌, drop, length}

-- A message with its role and content; `role` and `content` are always there.
pub record Message : Type 0 where
  pub role : String
  pub content : String

-- an entry of `compression_events`; `by_tokens` stands for the reason "token_budget"
pub record CompressionEvent : Type 0 where
  pub at_turn : ℕ
  pub by_tokens : Bool
  pub summarized_upto : ℕ

-- A missing number is 0 and a missing text is empty: the code reads them so.
pub record Metadata : Type 0 where
  pub rolling_summary : String
  pub rolling_summary_upto : ℕ
  pub compression_last_trigger_turn : ℕ
  pub compression_events : List CompressionEvent

pub record Session : Type 0 where
  pub messages : List Message
  pub metadata : Metadata

abbrev pub new_session : Session
new_session = record {
  messages = [];
  metadata = record {
    rolling_summary = "";
    rolling_summary_upto = 0;
    compression_last_trigger_turn = 0;
    compression_events = [];
  };
}

-- `add_message`
unfoldable pub add_message : Session → String → String → Session
add_message s role content = record s {
  messages = s.messages ++ (record { role = role; content = content }) ∷ [];
}

-- `xs[-n:] if len(xs) > n else xs`, for `n` above 0
unfoldable pub last_of {ℓ} : {A : Type ℓ} → ℕ → List A → List A
last_of n xs = drop (length xs - n) xs

-- `get_history`
unfoldable pub get_history : Session → ℕ → List Message
get_history s max_messages = last_of max_messages s.messages

-- `clear`
unfoldable pub clear : Session → Session
clear s = record s { messages = [] }
