-- ===== src/Context/Compressor.antt =====
-- `ContextCompressor` of zen_claw/agent/context_compression.py.
use zen_claw.Base.{
  ℕ, suc, ◌+◌, ◌-◌, ◌/◌, String, Bool, true, false, List, [], ◌∷◌, max, ltb, leb, length, take,
  drop, map, if◌then◌else◌,
}
use zen_claw.Base.Text.{strip}
use zen_claw.Base.Strings.{size, take_chars, join, or_text}
use Prim.Native.String.{◌++◌}
use zen_claw.Node.Payload.{decimal}
use zen_claw.Context.Session.{Message}

pub record ContextCompressor : Type 0 where
  pub trigger_messages : ℕ
  pub keep_recent : ℕ
  pub min_new_messages : ℕ
  pub max_summary_chars : ℕ

-- the defaults, which the agent's loop uses
abbrev pub compressor : ContextCompressor
compressor = record {
  trigger_messages = 30;
  keep_recent = 14;
  min_new_messages = 8;
  max_summary_chars = 1200;
}

pub record CompressionPlan : Type 0 where
  pub should_compress : Bool
  pub prefix_messages : List Message
  pub recent_messages : List Message
  pub summarized_upto : ℕ

abbrev pub quiet : List Message → ℕ → CompressionPlan
quiet messages upto = record {
  should_compress = false;
  prefix_messages = [];
  recent_messages = messages;
  summarized_upto = upto;
}

-- `plan`
unfoldable pub plan : ContextCompressor → List Message → ℕ → CompressionPlan
plan c messages upto =
    let total = length messages in
    let cutoff = total - c.keep_recent in
    let prefix = drop upto (take cutoff messages) in
    if leb total c.trigger_messages
    then quiet messages upto
    else if leb cutoff upto
    then quiet messages upto
    else if ltb (length prefix) c.min_new_messages
    then quiet messages upto
    else record {
      should_compress = true;
      prefix_messages = prefix;
      recent_messages = drop cutoff messages;
      summarized_upto = cutoff;
    }

abbrev line_of : Message → String
line_of m = m.role ++ ": " ++ take_chars 600 m.content

-- `build_prompt`
unfoldable pub build_prompt : ContextCompressor → List Message → String → String
build_prompt c prefix previous_summary =
    "Summarize the conversation context for future turns.\n"
    ++ "Output concise bullet points covering:\n"
    ++ "- user goals and constraints\n"
    ++ "- confirmed decisions\n"
    ++ "- unresolved tasks\n"
    ++ "- important facts to preserve\n"
    ++ "Keep output under "
    ++ decimal (suc c.max_summary_chars) c.max_summary_chars
    ++ " characters.\n\n"
    ++ "Previous rolling summary:\n"
    ++ or_text previous_summary "(none)"
    ++ "\n\nNew conversation segment:\n"
    ++ join "\n" (map line_of prefix)

-- `build_summary_message`
unfoldable pub build_summary_message : ContextCompressor → String → Message
build_summary_message c summary = record {
  role = "assistant";
  content = "[Rolling Summary]\n" ++ strip (take_chars c.max_summary_chars summary);
}

-- the characters of the messages, and four more for each
unfoldable pub chars_of : List Message → ℕ
chars_of [] = 0
chars_of (m ∷ ms) = size m.content + (size m.role + 4) + chars_of ms

-- `estimate_tokens_from_messages`, for contents that are texts
unfoldable pub estimate_tokens_from_messages : List Message → ℕ
estimate_tokens_from_messages messages = max 1 (chars_of messages / 4)
