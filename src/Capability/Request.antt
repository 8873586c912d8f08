-- ===== src/Capability/Request.antt =====
-- `CapabilityRequest`, `capability_request_from_tool` and `connector_capability_request` of
-- zen_claw/agent/tools/capability_policy.py. Parameters, contexts and scopes are dicts of texts,
-- with the one entry that is a dict, `session_owner`, beside them.
use zen_claw.Base.{String, Bool, ◌||◌, Option, none, some, [], ◌∷◌, ◌==◌, if◌then◌else◌}
use zen_claw.Base.Text.{strip, norm, starts_with}
use zen_claw.Base.Strings.{or_text, remove_prefix}
use zen_claw.Base.Dict.{Dict, get}
use Prim.Native.String.{◌++◌}

-- `resource_scope`, and the `params` of a tool call with its `__session_owner`
pub record Scope : Type 0 where
  pub entries : Dict String
  pub session_owner : Dict String

pub record CapabilityRequest : Type 0 where
  pub capability : String
  pub resource_scope : Scope

abbrev pub or_empty : Option String → String
or_empty none = ""
or_empty (some v) = v

-- `d.get(k) or ""`
unfoldable pub text : Dict String → String → String
text d k = or_empty (get d k)

abbrev pub entries_only : Dict String → Scope
entries_only d = record { entries = d; session_owner = [] }

abbrev request : String → Dict String → Option CapabilityRequest
request capability d = some (record { capability = capability; resource_scope = entries_only d })

-- `connector_capability_request`
unfoldable pub connector_capability_request :
    String → String → String → String → String → String → String → CapabilityRequest
connector_capability_request capability connector target tenant workspace tenant_now workspace_now =
    record {
      capability = norm capability;
      resource_scope = entries_only (
          ("connector_name", norm connector)
          ∷ ("action", norm capability)
          ∷ ("target_resource", norm target)
          ∷ ("tenant_id", norm tenant)
          ∷ ("workspace_id", strip workspace)
          ∷ ("current_tenant_id", norm tenant_now)
          ∷ ("current_workspace_id", strip workspace_now)
          ∷ []);
    }

unfoldable pub is_file_tool : String → Bool
is_file_tool tool =
    tool == "read_file" || tool == "write_file" || tool == "edit_file" || tool == "list_dir"

unfoldable pub is_social_tool : String → Bool
is_social_tool tool = tool == "social_platform_post" || tool == "social_platform_like"

unfoldable pub exec_scope_of : Dict String → String → Dict String
exec_scope_of params workspace =
    (
      "working_dir",
      strip (
          or_text (text params "working_dir")
            (or_text (text params "cwd") (or_text (text params "path") workspace))),
    )
    ∷ (
      "command",
      strip
          (or_text (text params "command") (or_text (text params "input") (text params "signal"))),
    )
    ∷ ("workspace_path", workspace)
    ∷ []

unfoldable pub sessions_scope_of : Scope → Dict String → String → String → Scope
sessions_scope_of params ctx workspace op = record {
  entries =
      (
        "working_dir",
        strip (
            or_text (text params.entries "working_dir")
              (or_text (text params.entries "cwd") workspace)),
      )
      ∷ ("command", strip (text params.entries "command"))
      ∷ ("workspace_path", workspace)
      ∷ ("tenant_id", norm (text ctx "tenant_id"))
      ∷ ("workspace_id", strip (text ctx "workspace_id"))
      ∷ ("session_id", strip (text params.entries "session_id"))
      ∷ ("session_op", op)
      ∷ [];
  session_owner = params.session_owner;
}

unfoldable pub social_request_of : Dict String → Dict String → CapabilityRequest
social_request_of params ctx =
    connector_capability_request (norm (or_text (text params "action") "connector.record.create"))
      (norm (text params "connector_name")) (norm (text params "target_resource"))
      (norm (or_text (text params "tenant_id") (text ctx "tenant_id")))
      (strip (or_text (text params "workspace_id") (text ctx "workspace_id")))
      (norm (text ctx "tenant_id")) (strip (text ctx "workspace_id"))

-- `capability_request_from_tool`
unfoldable pub capability_request_from_tool :
    String → Scope → Dict String → Option CapabilityRequest
capability_request_from_tool tool_name params ctx =
    let tool = norm tool_name in
    let workspace = strip (text ctx "workspace_path") in
    let url = ("url", strip (text params.entries "url")) ∷ [] in
    if is_file_tool tool
    then request "filesystem.access" (
        ("filesystem_path", strip (text params.entries "path"))
        ∷ ("workspace_path", workspace)
        ∷ [])
    else if tool == "exec"
    then request "exec.run" (exec_scope_of params.entries workspace)
    else if starts_with tool "sessions_"
    then some (record {
      capability = "sessions." ++ remove_prefix tool "sessions_";
      resource_scope = sessions_scope_of params ctx workspace (remove_prefix tool "sessions_");
    })
    else if tool == "web_fetch"
    then request "network.fetch" url
    else if tool == "web_search"
    then request "network.search" url
    else if starts_with tool "browser_"
    then request "network.browser" url
    else if is_social_tool tool
    then some (social_request_of params.entries ctx)
    else if tool == "message"
    then request "message.send"
        (("channel", norm (or_text (text params.entries "channel") (text ctx "channel"))) ∷ [])
    else if starts_with tool "knowledge_"
    then request "knowledge.read" (
        (
          "tenant_id",
          norm (
              or_text (text params.entries "tenant_id") (or_text (text ctx "tenant_id") "default")),
        )
        ∷ ("notebook_id", norm (or_text (text params.entries "notebook_id") "default"))
        ∷ [])
    else none
