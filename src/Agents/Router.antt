-- ===== src/Agents/Router.antt =====
-- `AgentRouter` of zen_claw/agent/router.py. The config is the part of it that the router reads.
use zen_claw.Base.{
  String, Bool, true, false, not, ◌&&◌, ◌||◌, Option, none, some, List, [], ◌∷◌, ◌==◌, ltb, eqb,
  is_some, if◌then◌else◌,
}
use zen_claw.Base.Text.{strip, norm, has_substring}
use zen_claw.Base.Strings.{words, join, size}
use zen_claw.Base.Dict.{Dict, get}
use zen_claw.Base.Sets.{contains}
use zen_claw.ToolPolicy.Rules.{normalize_names}
use zen_claw.Agents.Names.{normalize_agent_id}
use Prim.Native.Nat.{Ordering}
use Prim.Native.String.{compare}

pub record AgentProfile : Type 0 where
  pub routing_keywords : List String
  pub allowed_channels : List String
  pub dev_profile : Bool
  pub trusted_local_only : Bool

pub record Config : Type 0 where
  pub profiles : Dict AgentProfile
  -- `config.channels.<name>.agent_profile`
  pub channels : Dict String
  pub trusted_local_channels : List String

pub record AgentRouteDecision : Type 0 where
  pub agent_id : String
  pub reason : String
  pub matched_keyword : String
  pub registered : Bool

-- `_normalize_optional_agent_id`
unfoldable pub normalize_optional_agent_id : String → Option String
normalize_optional_agent_id agent_id =
    let raw = strip agent_id in if raw == "" then none else some (normalize_agent_id raw)

-- the test of one profile: its channels, and whether it is for trusted local channels alone
unfoldable pub is_profile_open : Config → AgentProfile → String → Bool
is_profile_open config profile channel =
    let channel_key = norm channel in
    let allowed = normalize_names profile.allowed_channels in
    if not (elim allowed [ [] ↦ true | x ∷ xs ↦ false ]) && not (contains channel_key allowed)
    then false
    else if profile.dev_profile || profile.trusted_local_only
    then contains channel_key (normalize_names config.trusted_local_channels)
    else true

abbrev is_profile_open? : Config → Option AgentProfile → String → Bool
is_profile_open? config none channel = false
is_profile_open? config (some profile) channel = is_profile_open config profile channel

-- `_is_profile_allowed_on_channel`
unfoldable pub is_profile_allowed_on_channel : Config → String → String → Bool
is_profile_allowed_on_channel config agent_id channel =
    let normalized = normalize_agent_id agent_id in
    if normalized == "default"
    then true
    else is_profile_open? config (get config.profiles normalized) channel

-- `agent_id == "default" or agent_id in profiles`
unfoldable pub is_registered : Config → String → Bool
is_registered config agent_id = agent_id == "default" || is_some (get config.profiles agent_id)

-- `_channel_profile_for`
unfoldable pub channel_profile_for : Config → String → String
channel_profile_for config channel =
    let key = norm channel in
    if key == "" then "" else elim (get config.channels key) [ none ↦ "" | some p ↦ strip p ]

-- A keyword that the text has, and the agent that it is for.
pub record Candidate : Type 0 where
  pub keyword : String
  pub agent_id : String

abbrev text_lt : String → String → Bool
text_lt a b = elim (compare a b) [ Ordering.lt ↦ true | _ ↦ false ]

-- `candidate > best`, of the tuples `(len(keyword), keyword, agent_id)`
unfoldable pub beats : Candidate → Candidate → Bool
beats candidate best =
    if eqb (size candidate.keyword) (size best.keyword)
    then if candidate.keyword == best.keyword
      then text_lt best.agent_id candidate.agent_id
      else text_lt best.keyword candidate.keyword
    else ltb (size best.keyword) (size candidate.keyword)

abbrev pub better : Option Candidate → Candidate → Option Candidate
better none candidate = some candidate
better (some best) candidate = some (if beats candidate best then candidate else best)

-- `for keyword in profile.routing_keywords`
unfoldable pub match_profile : String → String → Option Candidate → List String → Option Candidate
match_profile text agent_id best [] = best
match_profile text agent_id best (keyword ∷ keywords) =
    match_profile text agent_id
      (if not (keyword == "") && has_substring text keyword
        then better best (record { keyword = keyword; agent_id = agent_id })
        else best)
      keywords

-- `for agent_id, profile in profiles.items()`
unfoldable pub match_profiles :
    Config → String → String → Option Candidate → Dict AgentProfile → Option Candidate
match_profiles config channel text best [] = best
match_profiles config channel text best ((agent_id, profile) ∷ profiles) =
    match_profiles config channel text
      (if is_profile_allowed_on_channel config agent_id channel
        then match_profile text agent_id best profile.routing_keywords
        else best)
      profiles

abbrev pub keyword_decision : Option Candidate → Option AgentRouteDecision
keyword_decision none = none
keyword_decision (some best) = some (record {
  agent_id = normalize_agent_id best.agent_id;
  reason = "keyword";
  matched_keyword = best.keyword;
  registered = true;
})

-- `_match_keyword`
unfoldable pub match_keyword : Config → String → String → Option AgentRouteDecision
match_keyword config content channel =
    let text = join " " (words (norm content)) in
    if text == ""
    then none
    else keyword_decision (match_profiles config channel text none config.profiles)

abbrev pub or_default : Option String → String
or_default none = "default"
or_default (some id) = id

-- a name that the config gives: the default agent if it may not serve the channel
unfoldable pub configured : Config → String → String → String → AgentRouteDecision
configured config name channel reason =
    let named = or_default (normalize_optional_agent_id name) in
    let chosen = if is_profile_allowed_on_channel config named channel then named else "default" in
    record {
      agent_id = chosen;
      reason = reason;
      matched_keyword = "";
      registered = is_registered config chosen;
    }

unfoldable pub explicit_decision : Config → String → String → AgentRouteDecision
explicit_decision config explicit channel =
    if not (is_registered config explicit)
    then record {
      agent_id = explicit;
      reason = "explicit";
      matched_keyword = "";
      registered = false;
    }
    else if not (is_profile_allowed_on_channel config explicit channel)
    then record {
      agent_id = "default";
      reason = "explicit_denied";
      matched_keyword = "";
      registered = true;
    }
    else record {
      agent_id = explicit;
      reason = "explicit";
      matched_keyword = "";
      registered = is_registered config explicit;
    }

unfoldable pub channel_decision : Config → String → AgentRouteDecision
channel_decision config channel =
    let profile = channel_profile_for config channel in
    if not (profile == "") then configured config profile channel "channel_profile" else record {
      agent_id = "default";
      reason = "fallback_default";
      matched_keyword = "";
      registered = true;
    }

abbrev pub keyword_or_channel : Config → String → Option AgentRouteDecision → AgentRouteDecision
keyword_or_channel config channel (some d) = d
keyword_or_channel config channel none = channel_decision config channel

abbrev pub or_nothing : Option String → String
or_nothing none = ""
or_nothing (some s) = s

-- below the explicit agent: the bound one, a keyword, the channel
unfoldable pub resolve_implicit : Config → String → String → Option String → AgentRouteDecision
resolve_implicit config channel content bound =
    if not (or_nothing bound == "")
    then configured config (or_nothing bound) channel "bound_route"
    else keyword_or_channel config channel (match_keyword config content channel)

-- the explicit agent, where there is one
unfoldable pub resolve_explicit :
    Config → String → String → Option String → Option String → AgentRouteDecision
resolve_explicit config channel content bound none = resolve_implicit config channel content bound
resolve_explicit config channel content bound (some explicit) =
    explicit_decision config explicit channel

-- `resolve`; `bound` is what the callback says of the channel, the chat and the user
unfoldable pub resolve : Config → String → String → Option String → String → AgentRouteDecision
resolve config channel content bound explicit_agent_id =
    resolve_explicit config channel content bound (normalize_optional_agent_id explicit_agent_id)
