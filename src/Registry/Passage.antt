-- ===== src/Registry/Passage.antt =====
-- Which calls of `ToolRegistry.execute` (zen_claw/agent/tools/registry.py) reach the tool.
use zen_claw.Base.{
  String, ◌≡◌, refl, Bool, true, false, not, ◌&&◌, ◌||◌, Option, none, some, List, [], ◌∷◌,
  if◌then◌else◌, arith,
}
use zen_claw.Base.Text.{norm}
use zen_claw.Base.Dict.{get}
use zen_claw.Capability.Request.{Scope}
use zen_claw.Gateway.Envelope.{Crypto, Envelope, verify_gateway_envelope}
use zen_claw.Registry.State.{Answer, returned, permission_error, exception, Tool, ToolRegistry}
use zen_claw.Registry.Gates.{
  Gate, opened, raised, closed, then_gate, requires_gateway_envelope, context_gate, envelope_gate,
  resource_gate, name_gates, gates,
}
use zen_claw.Registry.Execute.{
  World, Reading, spend, finish, run_validated, execute_open, execute_gate, execute_tool, execute,
  is_visible,
}
use zen_claw.Registry.Visible.{is_open, is_open-name_gates}

abbrev pub is_valid : Answer (List String) → Bool
is_valid (returned []) = true
is_valid other = false

-- the request stands in an envelope whose hash and signature are its own
abbrev pub has_valid_envelope : Crypto → Option Envelope → Bool
has_valid_envelope k none = false
has_valid_envelope k (some envelope) = (verify_gateway_envelope k envelope).0

-- whether a call is cleared for the tool: its gates, the quota, its parameters
abbrev pub is_cleared : ToolRegistry → World → Reading → String → Scope → String → Tool → Bool
is_cleared r w reading name params trace_id tool =
    is_visible r (norm name)
    && (not (requires_gateway_envelope name) || has_valid_envelope w.crypto r.request_context)
    && is_open (resource_gate r w.lib name params)
    && (spend r reading name params trace_id).1
    && is_valid (tool.validate_params params)

finish-runs :
    (r : ToolRegistry) (w : World) (name trace_id : String) (a : Answer _)
    → (finish r w name trace_id a).runs ≡ name ∷ []
unfolding finish
finish-runs r w name trace_id (returned raw) = refl
finish-runs r w name trace_id (permission_error message) = refl
finish-runs r w name trace_id (exception message) = refl

validated-runs :
    (r : ToolRegistry) (w : World) (tool : Tool) (name : String) (params : Scope)
    (trace_id : String) (a : Answer (List String))
    → (run_validated r w tool name params trace_id a).runs ≡ (if is_valid a then name ∷ [] else [])
unfolding run_validated
validated-runs r w tool name params trace_id (returned []) = finish-runs r w name trace_id _
validated-runs r w tool name params trace_id (returned (error ∷ errors)) = refl
validated-runs r w tool name params trace_id (permission_error message) = refl
validated-runs r w tool name params trace_id (exception message) = refl

open-runs :
    (r : ToolRegistry) (w : World) (reading : Reading) (tool : Tool) (name : String)
    (params : Scope) (trace_id : String)
    → (execute_open r w reading tool name params trace_id).runs ≡ (
        if (spend r reading name params trace_id).1 && is_valid (tool.validate_params params)
        then name ∷ []
        else [])
unfolding execute_open
open-runs r w reading tool name params trace_id = ground (
  arith,
  validated-runs (spend r reading name params trace_id).0 w tool name params trace_id
      (tool.validate_params params),
)

gate-runs :
    (r : ToolRegistry) (w : World) (reading : Reading) (tool : Tool) (name : String)
    (params : Scope) (trace_id : String) (g : Gate)
    → (execute_gate r w reading tool name params trace_id g).runs ≡ (
        if is_open g
          && (spend r reading name params trace_id).1
          && is_valid (tool.validate_params params)
        then name ∷ []
        else [])
unfolding execute_gate
gate-runs r w reading tool name params trace_id opened =
    open-runs r w reading tool name params trace_id
gate-runs r w reading tool name params trace_id raised = refl
gate-runs r w reading tool name params trace_id (closed result audited) = refl

pub is_open-then : (a b : Gate) → is_open (then_gate a b) ≡ (is_open a && is_open b)
is_open-then opened b = refl
is_open-then raised b = refl
is_open-then (closed result audited) b = refl

is_open-context_gate :
    (k : Crypto) (name : String) (context : Option Envelope)
    → is_open (context_gate k name context) ≡ has_valid_envelope k context
unfolding context_gate
is_open-context_gate k name none = refl
is_open-context_gate k name (some envelope) = ground arith

is_open-gates :
    (r : ToolRegistry) (w : World) (name : String) (params : Scope)
    → is_open (gates r w.crypto w.lib name params) ≡ (
        is_visible r (norm name)
        && (not (requires_gateway_envelope name) || has_valid_envelope w.crypto r.request_context)
        && is_open (resource_gate r w.lib name params))
unfolding gates envelope_gate
is_open-gates r w name params = ground (
  arith,
  is_open-then (name_gates r name)
      (then_gate (envelope_gate r w.crypto name) (resource_gate r w.lib name params)),
  is_open-then (envelope_gate r w.crypto name) (resource_gate r w.lib name params),
  is_open-name_gates r name,
  is_open-context_gate w.crypto name r.request_context,
)

abbrev pub runs_of : Option Tool → String → (Tool → Bool) → List String
runs_of none name cleared = []
runs_of (some tool) name cleared = if cleared tool then name ∷ [] else []

tool-runs :
    (r : ToolRegistry) (w : World) (reading : Reading) (name : String) (params : Scope)
    (trace_id : String) (tool : Option Tool)
    → (execute_tool r w reading name params trace_id tool).runs
      ≡ runs_of tool name (is_cleared r w reading name params trace_id)
unfolding execute_tool
tool-runs r w reading name params trace_id none = refl
tool-runs r w reading name params trace_id (some tool) = ground (
  arith,
  gate-runs r w reading tool name params trace_id (gates r w.crypto w.lib name params),
  is_open-gates r w name params,
)

-- A tool's own code runs exactly when it is registered under the called name and the call is
-- cleared: the tool is visible under kill switch, skill, profile and policy, a tool of high risk
-- has a valid envelope, the resource is granted, the quota is not spent, and the parameters are
-- valid; then it runs once.
pub execute-runs :
    (r : ToolRegistry) (w : World) (reading : Reading) (name : String) (params : Scope)
    (trace_id : String)
    → (execute r w reading name params trace_id).runs
      ≡ runs_of (get r.tools name) name (is_cleared r w reading name params trace_id)
unfolding execute
execute-runs r w reading name params trace_id =
    tool-runs r w reading name params trace_id (get r.tools name)
