-- ===== src/Registry/Execute.antt =====
-- `ToolRegistry.execute` and `get_visible_definitions` of zen_claw/agent/tools/registry.py. The
-- keyword arguments that `execute` adds for a tool that takes them, and the log lines, are left out.
use zen_claw.Base.{
  ℕ, String, Bool, true, not, ◌&&◌, Option, none, some, List, [], ◌∷◌, ◌==◌, ltb, length,
  if◌then◌else◌,
}
use zen_claw.Base.Text.{norm, has_substring}
use zen_claw.Base.Strings.{before, join}
use zen_claw.Base.Dict.{Dict, get}
use zen_claw.Capability.Request.{Scope, CapabilityRequest, capability_request_from_tool}
use zen_claw.Capability.Policy.{Library}
use zen_claw.Gateway.Envelope.{Crypto}
use zen_claw.Quota.Window.{Remote, check_quota}
use zen_claw.Registry.Results.{
  ToolResult, parameter, permission, runtime, retryable, ToolError, failure, Texts, RawResult,
  normalize_result,
}
use zen_claw.Registry.State.{
  Answer, returned, permission_error, exception, Tool, SecurityPolicy, limit_for_capability,
  ToolRegistry,
}
use zen_claw.Registry.Selector.{bm25_select}
use zen_claw.Registry.Gates.{
  Gate, opened, raised, closed, lists, lists_or_all, identity_context, gates,
}
use zen_claw.ToolPolicy.Rules as Rules
use zen_claw.ToolPolicy.Rules.{normalize_names}
use Prim.Native.String.{◌++◌}

-- What `execute` calls that is not its own: paths, digests, texts.
pub record World : Type 0 where
  pub lib : Library
  pub crypto : Crypto
  pub texts : Texts

-- What the two checks of the quota read: Redis, and the clock.
pub record Reading : Type 0 where
  pub remote : Remote
  pub now : ℕ
  pub remote₂ : Remote
  pub now₂ : ℕ

pub record AuditEvent : Type 0 where
  pub trace_id : String
  pub event_type : String
  pub tool : String
  pub ok : Bool
  pub error_code : Option String

-- What a call leaves: the registry, the result (`none` if an exception leaves `execute`), the audit
-- events, and the names of the tools whose own `execute` ran.
pub record Outcome : Type 0 where
  pub registry : ToolRegistry
  pub result : Option ToolResult
  pub events : List AuditEvent
  pub runs : List String

abbrev code_of : Option ToolError → Option String
code_of none = none
code_of (some e) = some e.code

-- `_audit_tool_event`
unfoldable pub audit_tool_event :
    ToolRegistry → String → String → String → ToolResult → List AuditEvent
audit_tool_event r trace_id event_type name result =
    if r.has_audit_worker && not (trace_id == "")
    then record {
      trace_id = trace_id;
      event_type = event_type;
      tool = name;
      ok = result.ok;
      error_code = code_of result.error;
    }
      ∷ []
    else []

abbrev done : ToolRegistry → ToolResult → List AuditEvent → List String → Outcome
done r result events runs = record {
  registry = r;
  result = some result;
  events = events;
  runs = runs;
}

-- the end of `execute`, once the tool ran
unfoldable pub finish : ToolRegistry → World → String → String → Answer RawResult → Outcome
finish r w name trace_id (returned raw) =
    let result = normalize_result w.texts name raw in
    done r result (audit_tool_event r trace_id "tool.executed" name result) (name ∷ [])
finish r w name trace_id (permission_error message) =
    done r (failure permission message "permission_denied") [] (name ∷ [])
finish r w name trace_id (exception message) =
    done r (failure runtime message "tool_exception") [] (name ∷ [])

-- the `try` of `execute`: the parameters, and the tool
unfoldable pub run_validated :
    ToolRegistry → World → Tool → String → Scope → String → Answer (List String) → Outcome
run_validated r w tool name params trace_id (returned []) =
    finish r w name trace_id (tool.execute params)
run_validated r w tool name params trace_id (returned (error ∷ errors)) =
    done r (failure parameter (join "; " (error ∷ errors)) "invalid_parameters") [] []
run_validated r w tool name params trace_id (permission_error message) =
    done r (failure permission message "permission_denied") [] []
run_validated r w tool name params trace_id (exception message) =
    done r (failure runtime message "tool_exception") [] []

abbrev or_blank : Option CapabilityRequest → String
or_blank none = ""
or_blank (some request) = request.capability

abbrev limit_of : Option SecurityPolicy → Option CapabilityRequest → Option ℕ
limit_of (some policy) (some request) = elim policy.capability_quotas [
  | none ↦ none
  | some quotas ↦ limit_for_capability quotas request.capability
]
limit_of policy request = none

-- `trace_id.split(":")[0] if trace_id and ":" in trace_id else "default"`
unfoldable pub quota_tenant : String → String
quota_tenant trace_id = if has_substring trace_id ":" then before ":" trace_id else "default"

-- `check_quota`, by the tool and by its capability; with no engine everything is granted
unfoldable pub spend : ToolRegistry → Reading → String → Scope → String → ToolRegistry × Bool
spend r reading name params trace_id = elim r.quota_engine [
  | none ↦ (r, true)
  | some engine ↦
      let request = capability_request_from_tool name params (identity_context r).entries in
      let (engine', granted) =
        check_quota engine (quota_tenant trace_id) name (or_blank request)
          (limit_of r.security_policy request) reading.remote reading.now reading.remote₂
          reading.now₂ in
      (record r { quota_engine = some engine' }, granted)
]

unfoldable pub execute_open :
    ToolRegistry → World → Reading → Tool → String → Scope → String → Outcome
execute_open r w reading tool name params trace_id =
    let (r', granted) = spend r reading name params trace_id in
    if granted
    then run_validated r' w tool name params trace_id (tool.validate_params params)
    else done r'
        (failure retryable
          ("Quota exceeded for tool '" ++ name ++ "' (or quota service unavailable)")
          "quota_exceeded")
        [] []

unfoldable pub execute_gate :
    ToolRegistry → World → Reading → Tool → String → Scope → String → Gate → Outcome
execute_gate r w reading tool name params trace_id opened =
    execute_open r w reading tool name params trace_id
execute_gate r w reading tool name params trace_id raised = record {
  registry = r;
  result = none;
  events = [];
  runs = [];
}
execute_gate r w reading tool name params trace_id (closed result audited) =
    done r result (if audited then audit_tool_event r trace_id "tool.denied" name result else []) []

unfoldable pub execute_tool :
    ToolRegistry → World → Reading → String → Scope → String → Option Tool → Outcome
execute_tool r w reading name params trace_id none =
    done r (failure parameter ("Tool '" ++ name ++ "' not found") "tool_not_found") [] []
execute_tool r w reading name params trace_id (some tool) =
    execute_gate r w reading tool name params trace_id (gates r w.crypto w.lib name params)

-- `execute`
unfoldable pub execute : ToolRegistry → World → Reading → String → Scope → String → Outcome
execute r w reading name params trace_id =
    execute_tool r w reading name params trace_id (get r.tools name)

-- `_is_visible_under_current_policy`
unfoldable pub is_visible : ToolRegistry → String → Bool
is_visible r token =
    not r.kill_switch_enabled
    && lists_or_all r.skill_allowed_tools token
    && not (lists r.profile_denied_tools token)
    && lists_or_all r.profile_allowed_tools token
    && (Rules.evaluate r.policy token).allowed

abbrev pub normalize_option : Option (List String) → Option (List String)
normalize_option none = none
normalize_option (some names) = some (normalize_names names)

abbrev pub deny_names : Option (List String) → List String
deny_names none = []
deny_names (some names) = normalize_names names

unfoldable pub visible_from :
    ToolRegistry → Option (List String) → List String → Dict Tool → List String
visible_from r allow deny [] = []
visible_from r allow deny ((name, tool) ∷ tools) =
    let token = norm name in
    let rest = visible_from r allow deny tools in
    if not (lists deny token) && lists_or_all allow token && is_visible r token
    then name ∷ rest
    else rest

-- The arguments about a query, with the scores of the tools that are visible.
pub record Hint : Type 0 where
  pub query_hint : String
  pub semantic_top_k : ℕ
  pub semantic_threshold : ℕ
  pub scores : List String → ℕ → ℕ

-- `if query_hint and len(visible) > semantic_threshold: …`
unfoldable pub hinted : Hint → List String → List String
hinted h visible =
    if not (h.query_hint == "") && ltb h.semantic_threshold (length visible)
    then bm25_select (h.scores visible) visible h.query_hint h.semantic_top_k
    else visible

-- `get_visible_definitions`: the names under which the schemas stand
unfoldable pub get_visible_definitions :
    ToolRegistry → Option (List String) → Option (List String) → Hint → List String
get_visible_definitions r extra_allow extra_deny h =
    hinted h (visible_from r (normalize_option extra_allow) (deny_names extra_deny) r.tools)
