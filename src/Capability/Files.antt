-- ===== src/Capability/Files.antt =====
-- `_evaluate_filesystem` and `_evaluate_exec` of zen_claw/agent/tools/capability_policy.py.
-- `none` is an exception that the evaluator lets through.
use zen_claw.Base.{
  String, Bool, not, ◌&&◌, ◌||◌, Option, none, some, [], ◌∷◌, ◌==◌, any, if◌then◌else◌,
}
use zen_claw.Base.Text.{strip, lower, starts_with}
use zen_claw.Base.Strings.{or_text, words, join, take_chars}
use zen_claw.Capability.Request.{Scope, text}
use zen_claw.Capability.Policy.{
  one, many, CapabilityPolicyDecision, Components, Library, Evaluator, is_within, is_empty,
  with_entry, allow, deny, candidate_of, PathSearch, found, missing, raised, search_paths,
}
use Prim.Native.String.{◌++◌}

-- `str(scope.get("workspace_path") or self._identity.get("workspace_path") or "").strip()`
unfoldable pub workspace_of : Evaluator → Scope → String
workspace_of e scope =
    strip (or_text (text scope.entries "workspace_path") (text e.identity "workspace_path"))

-- What the checks of the working directory leave: a refusal, or the scope so far.
pub data Checked : Type 0 where
  refused : CapabilityPolicyDecision → Checked
  passed : Scope → Checked

unfoldable pub prefix_test : String → String → Bool
prefix_test command prefix = command == prefix || starts_with command (prefix ++ " ")

-- `Path(raw)` is absolute, or there is no workspace: it is resolved as it is
unfoldable pub exec_candidate : Library → String → String → Option Components
exec_candidate lib workspace_path raw =
    if not (workspace_path == "") && not (lib.is_absolute raw)
    then lib.resolve_under workspace_path raw
    else lib.resolve raw

module _ (e : Evaluator) where
  unfoldable pub exec_invalid : Scope → Checked
  exec_invalid scope = refused (
      deny e "exec.run" scope "exec working directory could not be resolved"
        "resource_scope_exec_invalid" [])

  unfoldable pub exec_search : Scope → PathSearch → Checked
  exec_search scope (found candidate) = passed scope
  exec_search scope missing = refused (
      deny e "exec.run" scope "exec working directory is not allowlisted"
        "resource_scope_exec_workdir"
        (("exec_allowed_working_dirs", many e.policy.exec_allowed_working_dirs) ∷ []))
  exec_search scope raised = exec_invalid scope

  -- the part of `_evaluate_exec` below the `try`
  unfoldable pub exec_command : Scope → Checked → CapabilityPolicyDecision
  exec_command scope₀ (refused d) = d
  exec_command scope₀ (passed scope₁) =
      let command = strip (text scope₀.entries "command") in
      let scope = with_entry scope₁ "command" (take_chars 80 command) in
      let prefixes = e.policy.exec_allowed_command_prefixes in
      if not (is_empty prefixes)
      then if not (any (prefix_test (join " " (words (lower command)))) prefixes)
        then deny e "exec.run" scope "exec command is not allowlisted" "resource_scope_exec_prefix"
            (("exec_allowed_command_prefixes", many prefixes) ∷ [])
        else allow e "exec.run" scope []
      else if e.policy.production_hardening
      then deny e "exec.run" scope
          "exec is disabled until command prefixes are explicitly allowlisted"
          "resource_scope_exec_prefix_unconfigured" []
      else allow e "exec.run" scope []

module _ (lib : Library) (e : Evaluator) where
  unfoldable pub filesystem_search :
      Scope → Components → PathSearch → Option CapabilityPolicyDecision
  filesystem_search scope workspace (found candidate) = some (
      allow e "filesystem.access" scope
        (("filesystem_allowed_subpath", one (lib.show candidate)) ∷ []))
  filesystem_search scope workspace missing = some (
      deny e "filesystem.access" scope "filesystem path is not within an allowlisted subpath"
        "resource_scope_filesystem_subpath"
        (("filesystem_allowed_subpaths", many e.policy.filesystem_allowed_subpaths) ∷ []))
  filesystem_search scope workspace raised = none

  -- the part of `_evaluate_filesystem` below the resolution of the two paths
  unfoldable pub filesystem_resolved :
      Scope → Components → Components → Option CapabilityPolicyDecision
  filesystem_resolved scope₀ path workspace =
      let scope =
        with_entry (with_entry scope₀ "filesystem_path" (lib.show path)) "workspace_path"
          (lib.show workspace) in
      if not (is_within workspace path)
      then some (
          deny e "filesystem.access" scope "filesystem path is outside workspace boundary"
            "resource_scope_filesystem_workspace" (("workspace", one (lib.show workspace)) ∷ []))
      else if is_empty e.policy.filesystem_allowed_subpaths
      then if e.policy.production_hardening
        then some (
            deny e "filesystem.access" scope
              "filesystem access is disabled until subpaths are explicitly allowlisted"
              "resource_scope_filesystem_unconfigured" [])
        else some (allow e "filesystem.access" scope [])
      else filesystem_search scope workspace (
          search_paths (candidate_of lib (lib.show workspace)) e.policy.filesystem_allowed_subpaths
            path)

  unfoldable pub filesystem_paths :
      Scope → Option Components → Option Components → Option CapabilityPolicyDecision
  filesystem_paths scope (some path) (some workspace) = filesystem_resolved scope path workspace
  filesystem_paths scope path workspace = some (
      deny e "filesystem.access" scope "filesystem path could not be resolved"
        "resource_scope_filesystem_invalid" [])

  -- `_evaluate_filesystem`
  unfoldable pub evaluate_filesystem : Scope → Option CapabilityPolicyDecision
  evaluate_filesystem scope =
      let path_value = strip (text scope.entries "filesystem_path") in
      let workspace_path = workspace_of e scope in
      if path_value == "" || workspace_path == ""
      then if e.policy.production_hardening
        then some (
            deny e "filesystem.access" scope
              "filesystem path and workspace must be specified under production hardening"
              "resource_scope_filesystem_path_missing" [])
        else some (allow e "filesystem.access" scope [])
      else filesystem_paths scope (lib.expand path_value) (lib.expand workspace_path)

  unfoldable pub exec_dirs : String → Scope → Components → Checked
  exec_dirs workspace_path scope working_dir =
      if not (is_empty e.policy.exec_allowed_working_dirs)
      then exec_search e scope (
          search_paths (exec_candidate lib workspace_path) e.policy.exec_allowed_working_dirs
            working_dir)
      else if e.policy.production_hardening
      then refused (
          deny e "exec.run" scope
            "exec is disabled until working directories are explicitly allowlisted"
            "resource_scope_exec_workdir_unconfigured" [])
      else passed scope

  unfoldable pub exec_workspace : String → Scope → Components → Option Components → Checked
  exec_workspace workspace_path scope working_dir none = exec_invalid e scope
  exec_workspace workspace_path scope₀ working_dir (some workspace) =
      let scope = with_entry scope₀ "workspace_path" (lib.show workspace) in
      if not (is_within workspace working_dir)
      then refused (
          deny e "exec.run" scope "exec working directory is outside workspace boundary"
            "resource_scope_exec_workspace" (("workspace", one (lib.show workspace)) ∷ []))
      else exec_dirs workspace_path scope working_dir

  unfoldable pub exec_resolved : String → Scope → Option Components → Checked
  exec_resolved workspace_path scope none = exec_invalid e scope
  exec_resolved workspace_path scope₀ (some working_dir) =
      let scope = with_entry scope₀ "working_dir" (lib.show working_dir) in
      if workspace_path == ""
      then exec_dirs workspace_path scope working_dir
      else exec_workspace workspace_path scope working_dir (lib.expand workspace_path)

  -- `_evaluate_exec`
  unfoldable pub evaluate_exec : Scope → CapabilityPolicyDecision
  evaluate_exec scope =
      let workspace_path = workspace_of e scope in
      let working_dir = strip (or_text (text scope.entries "working_dir") workspace_path) in
      exec_command e scope (
        if working_dir == ""
        then passed scope
        else exec_resolved workspace_path scope (lib.expand working_dir))
