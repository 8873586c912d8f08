-- ===== src/Capability/HardenedFiles.antt =====
-- What production hardening adds to the decisions on files and commands of
-- zen_claw/agent/tools/capability_policy.py.
use zen_claw.Base.{
  String, ◌≡◌, refl, Bool, true, false, Option, none, some, ◌==◌, arith, Bool-cases, inl, inr,
}
use zen_claw.Base.Text.{strip}
use zen_claw.Base.Strings.{or_text}
use zen_claw.Capability.Request.{Scope, text}
use zen_claw.Capability.Policy.{
  CapabilityPolicyDecision, Components, Library, Evaluator, is_within, is_empty, allow_for,
  deny_for, allow, deny, PathSearch, found, missing, raised,
}
use zen_claw.Capability.Files.{
  workspace_of, filesystem_search, filesystem_resolved, filesystem_paths, evaluate_filesystem,
  Checked, refused, passed, exec_search, exec_dirs, exec_workspace, exec_resolved, exec_command,
  exec_invalid, evaluate_exec,
}

-- whether a decision was reached, and allows the request
abbrev pub allows : Option CapabilityPolicyDecision → Bool
allows none = false
allows (some d) = d.allowed

-- the same evaluator without `production_hardening`
abbrev pub relaxed : Evaluator → Evaluator
relaxed e = record e { policy = record e.policy { production_hardening = false } }

module _ (lib : Library) (e : Evaluator) where
  filesystem_resolved-relaxed :
      (scope : Scope) (path workspace : Components)
      → allows (filesystem_resolved lib e scope path workspace) ≡ true
      → allows (filesystem_resolved lib (relaxed e) scope path workspace) ≡ true
  unfolding filesystem_resolved filesystem_search allow deny allow_for deny_for
  filesystem_resolved-relaxed scope path workspace h = ground arith

  filesystem_paths-relaxed :
      (scope : Scope) (path workspace : Option Components)
      → allows (filesystem_paths lib e scope path workspace) ≡ true
      → allows (filesystem_paths lib (relaxed e) scope path workspace) ≡ true
  unfolding filesystem_paths deny deny_for
  filesystem_paths-relaxed scope none workspace h = cc
  filesystem_paths-relaxed scope (some path) none h = cc
  filesystem_paths-relaxed scope (some path) (some workspace) h =
      filesystem_resolved-relaxed scope path workspace h

  pub filesystem_relaxed :
      (scope : Scope)
      → allows (evaluate_filesystem lib e scope) ≡ true
      → allows (evaluate_filesystem lib (relaxed e) scope) ≡ true
  unfolding evaluate_filesystem allow deny allow_for deny_for workspace_of
  filesystem_relaxed scope h = ground (
    arith,
    filesystem_paths-relaxed scope (lib.expand (strip (text scope.entries "filesystem_path")))
        (lib.expand (workspace_of e scope)),
  )

  exec_command-relaxed :
      (scope scope' : Scope)
      → (exec_command e scope (passed scope')).allowed ≡ true
      → (exec_command (relaxed e) scope (passed scope')).allowed ≡ true
  unfolding exec_command allow deny allow_for deny_for
  exec_command-relaxed scope scope' h = ground arith

  -- one check of a working directory refuses, or the other passes the same scope
  abbrev Follows : Checked → Checked → Type 0
  Follows (refused d) c = d.allowed ≡ false
  Follows (passed scope) c = c ≡ passed scope

  exec_command-Follows :
      (scope : Scope) (c c' : Checked)
      → Follows c c'
      → (exec_command e scope c).allowed ≡ true
      → (exec_command (relaxed e) scope c').allowed ≡ true
  unfolding exec_command
  exec_command-Follows scope (refused d) c' f h = cc
  exec_command-Follows scope (passed scope') c' f h = rw f (exec_command-relaxed scope scope' h)

  exec_search-Follows :
      (scope : Scope) (search : PathSearch)
      → Follows (exec_search e scope search) (exec_search (relaxed e) scope search)
  unfolding exec_search exec_invalid deny deny_for
  exec_search-Follows scope (found candidate) = refl
  exec_search-Follows scope missing = refl
  exec_search-Follows scope raised = refl

  exec_dirs-Follows :
      (workspace_path : String) (scope : Scope) (dir : Components)
      → Follows
          (exec_dirs lib e workspace_path scope dir)
          (exec_dirs lib (relaxed e) workspace_path scope dir)
  unfolding exec_dirs deny deny_for
  exec_dirs-Follows workspace_path scope dir =
      elim (Bool-cases (is_empty e.policy.exec_allowed_working_dirs)) [
        | inl e₁ ↦
            rw e₁
              (elim (Bool-cases e.policy.production_hardening) [ inl e₂ ↦ rw e₂ | inr e₂ ↦ rw e₂ ])
        | inr e₁ ↦ rw e₁ (exec_search-Follows scope _)
      ]

  exec_workspace-Follows :
      (workspace_path : String) (scope : Scope) (dir : Components) (workspace : Option Components)
      → Follows
          (exec_workspace lib e workspace_path scope dir workspace)
          (exec_workspace lib (relaxed e) workspace_path scope dir workspace)
  unfolding exec_workspace exec_invalid deny deny_for
  exec_workspace-Follows workspace_path scope dir none = refl
  exec_workspace-Follows workspace_path scope dir (some workspace) =
      elim (Bool-cases (is_within workspace dir)) [
        | inl e₁ ↦ rw e₁ (exec_dirs-Follows workspace_path _ dir)
        | inr e₁ ↦ rw e₁
      ]

  exec_resolved-Follows :
      (workspace_path : String) (scope : Scope) (dir : Option Components)
      → Follows
          (exec_resolved lib e workspace_path scope dir)
          (exec_resolved lib (relaxed e) workspace_path scope dir)
  unfolding exec_resolved exec_invalid deny deny_for
  exec_resolved-Follows workspace_path scope none = refl
  exec_resolved-Follows workspace_path scope (some dir) = elim (Bool-cases (workspace_path == "")) [
    | inl e₁ ↦ rw e₁ (exec_dirs-Follows workspace_path _ dir)
    | inr e₁ ↦ rw e₁ (exec_workspace-Follows workspace_path _ dir _)
  ]

  pub exec_relaxed :
      (scope : Scope)
      → (evaluate_exec lib e scope).allowed ≡ true
      → (evaluate_exec lib (relaxed e) scope).allowed ≡ true
  unfolding evaluate_exec workspace_of
  exec_relaxed scope = exec_command-Follows scope _ _ (elim (Bool-cases (working_dir == "")) [
    | inl e₁ ↦ rw e₁
    | inr e₁ ↦ rw e₁ (exec_resolved-Follows (workspace_of e scope) scope _)
  ])
    where
      working_dir : String
      working_dir = strip (or_text (text scope.entries "working_dir") (workspace_of e scope))
