-- ===== src/Context/Tests.antt =====
-- Runs of the compression of a session's context, and instances of its theorems.
use zen_claw.Base.{
  ℕ, zero, suc, ◌≤◌, String, ◌≡◌, refl, true, ◌&&◌, ◌||◌, Option, none, some, List, [], ◌∷◌, ◌++◌,
  length, take, drop, leb, if◌then◌else◌,
}
use zen_claw.Base.Text.{strip}
use zen_claw.Base.Strings.{take_chars, size, or_text, join}
use zen_claw.Node.Payload.{decimal}
use zen_claw.Context.Session.{Session, new_session, add_message, last_of, get_history}
use zen_claw.Context.Compressor.{
  compressor, plan, build_prompt, estimate_tokens_from_messages, chars_of,
}
use zen_claw.Context.History.{
  AgentLoop, Event, said, asked, should_compress_by_token_budget, estimate_context_tokens,
  summarized, carried_out, plan_of, build_history, step,
}
use zen_claw.Context.Rolling.{run, taken_in, segment_of, plan_of-plan, taken_in-run}

-- a loop that does not count tokens
abbrev agent : AgentLoop
agent = record {
  compressor = compressor;
  max_context_tokens = 0;
  trigger_ratio = 800;
  cooldown_turns = 5;
}

abbrev chatter : ℕ → List Event
chatter zero = []
chatter (suc n) = said "user" (decimal 3 n) ∷ chatter n

abbrev brief : String → Option String
brief prompt = some " short "

abbrev events : List Event
events = chatter 31 ++ asked none brief ∷ []

abbrev talk : Session
talk = (run agent new_session [] events).0

-- the compression takes in 17 messages and leaves the summary and the last 14
talk_summary : talk.metadata.rolling_summary_upto ≡ 17
unfolding run step add_message build_history plan_of should_compress_by_token_budget plan
    carried_out summarized strip last_of taken_in segment_of
talk_summary = refl

-- a turn in which nothing is to be compressed sees the last 50 messages, and no summary: six messages
-- that the summary holds are in neither
abbrev long : Session
long = record (run agent new_session [] (chatter 56)).0 {
  metadata = record {
    rolling_summary = "short";
    rolling_summary_upto = 41;
    compression_last_trigger_turn = 55;
    compression_events = [];
  };
}

long_history : (build_history agent long none brief).1 ≡ drop 6 long.messages
unfolding run step add_message build_history plan_of should_compress_by_token_budget plan
    get_history last_of taken_in decimal
long_history = refl

taken_in-run_example :
    let (s, log) = run agent new_session [] events in
    (log ≡ take s.metadata.rolling_summary_upto s.messages)
    × (s.metadata.rolling_summary_upto ≤ length s.messages)
taken_in-run_example = taken_in-run agent events

plan_of-plan_example :
    let p = plan compressor talk.messages talk.metadata.rolling_summary_upto in
    plan_of agent talk true ≡ (
      if p.should_compress || true && leb (length talk.messages) compressor.keep_recent
      then some p
      else none)
plan_of-plan_example = plan_of-plan agent talk true

prompt_runs :
    build_prompt compressor (record { role = "user"; content = "hi" } ∷ []) ""
    ≡ "Summarize the conversation context for future turns.\nOutput concise bullet points covering:\n- user goals and constraints\n- confirmed decisions\n- unresolved tasks\n- important facts to preserve\nKeep output under 1200 characters.\n\nPrevious rolling summary:\n(none)\n\nNew conversation segment:\nuser: hi"
unfolding build_prompt take_chars decimal or_text join
prompt_runs = refl

tokens_run :
    estimate_context_tokens (some 0) (record { role = "user"; content = "hello there" } ∷ []) ≡ 4
unfolding estimate_context_tokens estimate_tokens_from_messages chars_of size
tokens_run = refl
