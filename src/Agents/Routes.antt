-- ===== src/Agents/Routes.antt =====
-- What `AgentRouter.resolve` (zen_claw/agent/router.py) may choose.
use zen_claw.Base.{
  String, ◌≡◌, refl, true, false, not, ◌&&◌, Option, none, some, List, [], ◌∷◌, ◌==◌, arith,
  Bool-cases, inl, inr, ◌∙◌, ◌⊎◌,
}
use zen_claw.Base.Text.{strip, norm, has_substring}
use zen_claw.Base.Strings.{words, join}
use zen_claw.Base.Dict.{Dict}
use zen_claw.Agents.Names.{normalize_agent_id, normalize_agent_id_idem, normalize_default}
use zen_claw.Agents.Router.{
  AgentProfile, Config, AgentRouteDecision, normalize_optional_agent_id,
  is_profile_allowed_on_channel, is_registered, channel_profile_for, Candidate, better,
  match_profile, match_profiles, keyword_decision, match_keyword, or_default, or_nothing, beats,
  configured, explicit_decision, channel_decision, keyword_or_channel, resolve_implicit,
  resolve_explicit, resolve,
}

-- The agent that is chosen may serve the channel, and counts as registered as the config says.
pub record IsServed (config : Config) (channel : String) (d : AgentRouteDecision) : Type 0 where
  pub allowed : is_profile_allowed_on_channel config d.agent_id channel ≡ true
  pub registered : d.registered ≡ true
  pub known : is_registered config d.agent_id ≡ true

-- an agent that may serve a channel is registered under its normalized id
registered_of_allowed :
    (config : Config) (agent_id channel : String)
    → is_profile_allowed_on_channel config agent_id channel ≡ true
    → is_registered config (normalize_agent_id agent_id) ≡ true
unfolding is_profile_allowed_on_channel is_registered
registered_of_allowed config agent_id channel h = ground arith

allowed-normalize :
    (config : Config) (agent_id channel : String)
    → is_profile_allowed_on_channel config (normalize_agent_id agent_id) channel
      ≡ is_profile_allowed_on_channel config agent_id channel
unfolding is_profile_allowed_on_channel
allowed-normalize config agent_id channel = rw normalize_agent_id_idem

allowed_default :
    (config : Config) (channel : String)
    → is_profile_allowed_on_channel config "default" channel ≡ true
unfolding is_profile_allowed_on_channel
allowed_default config channel = rw normalize_default

registered_default : (config : Config) → is_registered config "default" ≡ true
unfolding is_registered
registered_default config = refl

-- what is normalized already
abbrev IsNormal : String → Type 0
IsNormal id = normalize_agent_id id ≡ id

or_default-IsNormal : (name : String) → IsNormal (or_default (normalize_optional_agent_id name))
unfolding normalize_optional_agent_id
or_default-IsNormal name = elim (Bool-cases (strip name == "")) [
  | inl e ↦ rw e normalize_default
  | inr e ↦ rw e (normalize_agent_id_idem (strip name))
]

-- a normalized agent that may serve the channel, named by a decision
known_of_allowed :
    (config : Config) (id channel : String)
    → IsNormal id
    → is_profile_allowed_on_channel config id channel ≡ true
    → is_registered config id ≡ true
known_of_allowed config id channel n h = rw n at (registered_of_allowed config id channel h)

configured-IsServed :
    (config : Config) (name channel reason : String)
    → IsServed config channel (configured config name channel reason)
unfolding configured
configured-IsServed config name channel reason =
    elim (Bool-cases (is_profile_allowed_on_channel config named channel)) [
      | inl e ↦ rw e (record { allowed = e; registered = known_of e; known = known_of e })
      | inr e ↦ rw e (record {
        allowed = allowed_default config channel;
        registered = registered_default config;
        known = registered_default config;
      })
    ]
  where
    named : String
    named = or_default (normalize_optional_agent_id name)

    known_of :
        is_profile_allowed_on_channel config named channel ≡ true
        → is_registered config named ≡ true
    known_of e = known_of_allowed config named channel (or_default-IsNormal name) e

-- the best candidate so far may serve the channel
abbrev IsEligible : Config → String → Option Candidate → Type 0
IsEligible config channel none = true ≡ true
IsEligible config channel (some best) =
    is_profile_allowed_on_channel config best.agent_id channel ≡ true

better-IsEligible :
    (config : Config) (channel : String) (best : Option Candidate) (candidate : Candidate)
    → is_profile_allowed_on_channel config candidate.agent_id channel ≡ true
    → IsEligible config channel best
    → IsEligible config channel (better best candidate)
better-IsEligible config channel none candidate h b = h
better-IsEligible config channel (some best) candidate h b =
    elim (Bool-cases (beats candidate best)) [ inl e ↦ rw e h | inr e ↦ rw e b ]

match_profile-IsEligible :
    (config : Config) (channel text agent_id : String) (keywords : List String)
    (best : Option Candidate)
    → is_profile_allowed_on_channel config agent_id channel ≡ true
    → IsEligible config channel best
    → IsEligible config channel (match_profile text agent_id best keywords)
unfolding match_profile
match_profile-IsEligible config channel text agent_id [] best h b = b
match_profile-IsEligible config channel text agent_id (keyword ∷ keywords) best h b =
    match_profile-IsEligible config channel text agent_id keywords _ h
      (elim (Bool-cases (not (keyword == "") && has_substring text keyword)) [
        | inl e ↦ rw e (better-IsEligible config channel best _ h b)
        | inr e ↦ rw e b
      ])

match_profiles-IsEligible :
    (config : Config) (channel text : String) (profiles : Dict AgentProfile)
    (best : Option Candidate)
    → IsEligible config channel best
    → IsEligible config channel (match_profiles config channel text best profiles)
unfolding match_profiles
match_profiles-IsEligible config channel text [] best b = b
match_profiles-IsEligible config channel text ((agent_id, profile) ∷ profiles) best b =
    match_profiles-IsEligible config channel text profiles _
      (elim (Bool-cases (is_profile_allowed_on_channel config agent_id channel)) [
        | inl e ↦ rw e (
            match_profile-IsEligible config channel text agent_id profile.routing_keywords best e b)
        | inr e ↦ rw e b
      ])

abbrev IsServed? : Config → String → Option AgentRouteDecision → Type 0
IsServed? config channel none = true ≡ true
IsServed? config channel (some d) = IsServed config channel d

keyword_decision-IsServed :
    (config : Config) (channel : String) (best : Option Candidate)
    → IsEligible config channel best
    → IsServed? config channel (keyword_decision best)
keyword_decision-IsServed config channel none b = refl
keyword_decision-IsServed config channel (some best) b = record {
  allowed = allowed-normalize config best.agent_id channel ∙ b;
  registered = refl;
  known = registered_of_allowed config best.agent_id channel b;
}

match_keyword-IsServed :
    (config : Config) (content channel : String)
    → IsServed? config channel (match_keyword config content channel)
unfolding match_keyword
match_keyword-IsServed config content channel =
    elim (Bool-cases (join " " (words (norm content)) == "")) [
      | inl e ↦ rw e
      | inr e ↦ rw e (
          keyword_decision-IsServed config channel _
            (match_profiles-IsEligible config channel _ config.profiles none refl))
    ]

channel_decision-IsServed :
    (config : Config) (channel : String) → IsServed config channel (channel_decision config channel)
unfolding channel_decision
channel_decision-IsServed config channel =
    elim (Bool-cases (channel_profile_for config channel == "")) [
      | inl e ↦ rw e (record {
        allowed = allowed_default config channel;
        registered = refl;
        known = registered_default config;
      })
      | inr e ↦ rw e (
          configured-IsServed config (channel_profile_for config channel) channel "channel_profile")
    ]

keyword_or_channel-IsServed :
    (config : Config) (channel : String) (d : Option AgentRouteDecision)
    → IsServed? config channel d
    → IsServed config channel (keyword_or_channel config channel d)
keyword_or_channel-IsServed config channel none s = channel_decision-IsServed config channel
keyword_or_channel-IsServed config channel (some d) s = s

-- With no explicit agent, whatever is bound to the chat, named by a keyword or set for the channel,
-- the agent chosen is one that may serve the channel, is registered, and is reported as registered.
resolve_implicit-IsServed :
    (config : Config) (channel content : String) (bound : Option String)
    → IsServed config channel (resolve_implicit config channel content bound)
unfolding resolve_implicit
resolve_implicit-IsServed config channel content bound =
    elim (Bool-cases (or_nothing bound == "")) [
      | inl e ↦ rw e (
          keyword_or_channel-IsServed config channel _
            (match_keyword-IsServed config content channel))
      | inr e ↦ rw e (configured-IsServed config (or_nothing bound) channel "bound_route")
    ]

-- A decision for an explicit agent is one for a registered agent that may serve the channel, or
-- repeats an agent that is not registered and says so.
explicit_decision-IsServed :
    (config : Config) (explicit channel : String)
    → IsServed config channel (explicit_decision config explicit channel)
      ⊎ ((explicit_decision config explicit channel).registered ≡ false)
unfolding explicit_decision
explicit_decision-IsServed config explicit channel =
    elim (Bool-cases (is_registered config explicit)) [
      | inl e ↦ rw e (elim (Bool-cases (is_profile_allowed_on_channel config explicit channel)) [
        | inl a ↦ rw a (inl (record { allowed = a; registered = refl; known = e }))
        | inr a ↦ rw a (
            inl (record {
              allowed = allowed_default config channel;
              registered = refl;
              known = registered_default config;
            }))
      ])
      | inr e ↦ rw e (inr refl)
    ]

explicit-IsServed :
    (config : Config) (channel content : String) (bound explicit : Option String)
    → IsServed config channel (resolve_explicit config channel content bound explicit)
      ⊎ ((resolve_explicit config channel content bound explicit).registered ≡ false)
unfolding resolve_explicit
explicit-IsServed config channel content bound none =
    inl (resolve_implicit-IsServed config channel content bound)
explicit-IsServed config channel content bound (some id) =
    explicit_decision-IsServed config id channel

-- Whatever the channel, the text, the binding and the explicit agent of a request are, the agent
-- that `resolve` chooses may serve the channel and is registered, or the decision says that it is
-- not registered.
pub resolve-IsServed :
    (config : Config) (channel content : String) (bound : Option String) (explicit : String)
    → IsServed config channel (resolve config channel content bound explicit)
      ⊎ ((resolve config channel content bound explicit).registered ≡ false)
unfolding resolve
resolve-IsServed config channel content bound explicit =
    explicit-IsServed config channel content bound (normalize_optional_agent_id explicit)
