-- ===== src/Context/History.antt =====
-- `_build_history_with_compression` of zen_claw/agent/loop.py, and what the loop calls on the way.
-- The trigger ratio is counted in thousandths.
use zen_claw.Base.{
  ℕ, ◌+◌, ◌-◌, ◌*◌, String, Bool, false, not, ◌&&◌, Option, none, some, List, [], ◌∷◌, ◌++◌, ◌==◌,
  eqb, ltb, leb, length, take, drop, if◌then◌else◌,
}
use zen_claw.Base.Text.{strip}
use zen_claw.Context.Session.{Message, Session, add_message, last_of, get_history, clear}
use zen_claw.Context.Compressor.{
  ContextCompressor, CompressionPlan, plan, build_prompt, build_summary_message,
  estimate_tokens_from_messages,
}

-- The fields of `AgentLoop` that are used here.
pub record AgentLoop : Type 0 where
  pub compressor : ContextCompressor
  pub max_context_tokens : ℕ
  pub trigger_ratio : ℕ
  pub cooldown_turns : ℕ

-- `_estimate_context_tokens`; `counted` is what the provider's own counter gives, if it has one that
-- does not raise
unfoldable pub estimate_context_tokens : Option ℕ → List Message → ℕ
estimate_context_tokens none messages = estimate_tokens_from_messages messages
estimate_context_tokens (some counted) messages =
    if ltb 0 counted then counted else estimate_tokens_from_messages messages

-- `_should_compress_by_token_budget`; a last turn 0 is read as none
unfoldable pub should_compress_by_token_budget : AgentLoop → Session → Option ℕ → Bool
should_compress_by_token_budget a s counted =
    let last_turn = s.metadata.compression_last_trigger_turn in
    if eqb a.max_context_tokens 0
    then false
    else if ltb 0 last_turn && ltb (length s.messages) (last_turn + a.cooldown_turns)
    then false
    else leb (a.trigger_ratio * a.max_context_tokens)
        (estimate_context_tokens counted s.messages * 1000)

-- the metadata after a summary
unfoldable pub summarized : Session → CompressionPlan → Bool → String → Session
summarized s p by_tokens summary = record s {
  metadata = record {
    rolling_summary = summary;
    rolling_summary_upto = p.summarized_upto;
    compression_last_trigger_turn = length s.messages;
    compression_events = last_of 50 (
        s.metadata.compression_events
        ++ (record {
          at_turn = length s.messages;
          by_tokens = by_tokens;
          summarized_upto = p.summarized_upto;
        })
          ∷ []);
  };
}

-- the rolling summary, if there is one, and the recent messages
unfoldable pub compressed_history : ContextCompressor → Session → CompressionPlan → List Message
compressed_history c s p =
    let rolling = strip s.metadata.rolling_summary in
    if rolling == "" then p.recent_messages else build_summary_message c rolling ∷ p.recent_messages

abbrev pub answered :
    AgentLoop → Session → CompressionPlan → Bool → Option String → Session × List Message
answered a s p by_tokens none = (s, get_history s 50)
answered a s p by_tokens (some answer) =
    let summary = strip answer in
    let after = if summary == "" then s else summarized s p by_tokens summary in
    (after, compressed_history a.compressor after p)

-- the plan carried out: `chat` is the model, which gives none where the call raises
unfoldable pub carried_out :
    AgentLoop → Session → CompressionPlan → Bool → (String → Option String) → Session × List Message
carried_out a s p by_tokens chat =
    answered a s p by_tokens
      (chat (build_prompt a.compressor p.prefix_messages s.metadata.rolling_summary))

-- the plan that is carried out, if one is
unfoldable pub plan_of : AgentLoop → Session → Bool → Option CompressionPlan
plan_of a s by_tokens =
    let upto = s.metadata.rolling_summary_upto in
    let p = plan a.compressor s.messages upto in
    let cutoff = length s.messages - a.compressor.keep_recent in
    let forced = plan a.compressor (take cutoff s.messages ++ drop cutoff s.messages) upto in
    if not by_tokens && not p.should_compress
    then none
    else if by_tokens && not p.should_compress && ltb a.compressor.keep_recent (length s.messages)
    then if forced.should_compress then some forced else none
    else some p

abbrev pub with_plan :
    AgentLoop
    → Session
    → Bool
    → (String → Option String)
    → Option CompressionPlan
    → Session × List Message
with_plan a s by_tokens chat none = (s, get_history s 50)
with_plan a s by_tokens chat (some p) = carried_out a s p by_tokens chat

-- `_build_history_with_compression`
unfoldable pub build_history :
    AgentLoop → Session → Option ℕ → (String → Option String) → Session × List Message
build_history a s counted chat =
    let by_tokens = should_compress_by_token_budget a s counted in
    with_plan a s by_tokens chat (plan_of a s by_tokens)

-- the command `/clear`
unfoldable pub clear_command : Session → Session
clear_command s = record (clear s) {
  metadata = record s.metadata { rolling_summary = ""; rolling_summary_upto = 0 };
}

-- What happens to a session: a turn adds the user's message and the reply.
pub data Event : Type 0 where
  said : String → String → Event
  asked : Option ℕ → (String → Option String) → Event
  cleared : Event

unfoldable pub step : AgentLoop → Session → Event → Session
step a s (said role content) = add_message s role content
step a s (asked counted chat) = (build_history a s counted chat).0
step a s cleared = clear_command s
