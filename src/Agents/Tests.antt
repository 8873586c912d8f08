-- ===== src/Agents/Tests.antt =====
-- Runs of the agent router, and instances of its theorems.
use zen_claw.Base.{◌≡◌, refl, true, false, none, some, [], ◌∷◌, ◌⊎◌}
use zen_claw.Base.Text.{norm, strip, lower, lower_char, has_substring, starts_with}
use zen_claw.Base.Strings.{or_text, words, join, size}
use zen_claw.Base.Dict.{get}
use zen_claw.Base.Sets.{contains, add, add_nonempty}
use zen_claw.ToolPolicy.Rules.{normalize_names}
use zen_claw.Agents.Names.{squeeze, starts_low, normalize_agent_id}
use zen_claw.Agents.Router.{
  AgentProfile, Config, normalize_optional_agent_id, is_profile_open, is_profile_allowed_on_channel,
  beats, match_profile, match_profiles, match_keyword, configured, resolve_implicit,
  resolve_explicit, resolve,
}
use zen_claw.Agents.Routes.{IsServed, resolve-IsServed}

abbrev finance : AgentProfile
finance = record {
  routing_keywords = "bank" ∷ "bank campaign" ∷ [];
  allowed_channels = "webchat" ∷ [];
  dev_profile = false;
  trusted_local_only = false;
}

abbrev config : Config
config = record { profiles = ("finance", finance) ∷ []; channels = []; trusted_local_channels = [] }

keyword_runs : resolve config "WebChat" "Need a  Bank campaign" none "" ≡ record {
  agent_id = "finance";
  reason = "keyword";
  matched_keyword = "bank campaign";
  registered = true;
}
unfolding resolve resolve_explicit resolve_implicit normalize_optional_agent_id match_keyword
    match_profiles match_profile beats is_profile_allowed_on_channel is_profile_open
    normalize_agent_id squeeze starts_low norm strip lower lower_char or_text words join size get
    contains add add_nonempty normalize_names has_substring starts_with
keyword_runs = refl

-- the profile bound to a chat may not serve this channel
bound_runs : (resolve config "telegram" "hello" (some "finance") "").agent_id ≡ "default"
unfolding resolve resolve_explicit resolve_implicit normalize_optional_agent_id configured
    is_profile_allowed_on_channel is_profile_open normalize_agent_id squeeze starts_low norm strip
    lower lower_char or_text get contains add add_nonempty normalize_names
bound_runs = refl

resolve-IsServed_example :
    IsServed config "telegram" (resolve config "telegram" "hello" (some "finance") "")
    ⊎ ((resolve config "telegram" "hello" (some "finance") "").registered ≡ false)
resolve-IsServed_example = resolve-IsServed config "telegram" "hello" (some "finance") ""
