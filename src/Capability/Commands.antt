-- ===== src/Capability/Commands.antt =====
-- The checks of a command's working directory end in a refusal or go on
-- (zen_claw/agent/tools/capability_policy.py).
use zen_claw.Base.{
  String, ◌≡◌, refl, true, false, Option, none, some, ◌==◌, if◌then◌else◌, Bool-cases, inl, inr,
}
use zen_claw.Base.Text.{strip}
use zen_claw.Base.Strings.{or_text}
use zen_claw.Capability.Request.{Scope, text}
use zen_claw.Capability.Policy.{
  Components, Library, Evaluator, is_within, is_empty, deny_for, deny, PathSearch, found, missing,
  raised,
}
use zen_claw.Capability.Files.{
  workspace_of, Checked, refused, passed, exec_search, exec_dirs, exec_workspace, exec_resolved,
  exec_invalid,
}

-- what refuses a command does refuse it
abbrev pub Refuses : Checked → Type 0
Refuses (refused d) = d.allowed ≡ false
Refuses (passed scope) = true ≡ true

module _ (lib : Library) (e : Evaluator) where
  search_Refuses : (scope : Scope) (search : PathSearch) → Refuses (exec_search e scope search)
  unfolding exec_search exec_invalid deny deny_for
  search_Refuses scope (found candidate) = refl
  search_Refuses scope missing = refl
  search_Refuses scope raised = refl

  dirs_Refuses :
      (workspace_path : String) (scope : Scope) (dir : Components)
      → Refuses (exec_dirs lib e workspace_path scope dir)
  unfolding exec_dirs deny deny_for
  dirs_Refuses workspace_path scope dir =
      elim (Bool-cases (is_empty e.policy.exec_allowed_working_dirs)) [
        | inl e₁ ↦
            rw e₁
              (elim (Bool-cases e.policy.production_hardening) [ inl e₂ ↦ rw e₂ | inr e₂ ↦ rw e₂ ])
        | inr e₁ ↦ rw e₁ (search_Refuses scope _)
      ]

  workspace_Refuses :
      (workspace_path : String) (scope : Scope) (dir : Components) (workspace : Option Components)
      → Refuses (exec_workspace lib e workspace_path scope dir workspace)
  unfolding exec_workspace exec_invalid deny deny_for
  workspace_Refuses workspace_path scope dir none = refl
  workspace_Refuses workspace_path scope dir (some workspace) =
      elim (Bool-cases (is_within workspace dir)) [
        | inl e₁ ↦ rw e₁ (dirs_Refuses workspace_path _ dir)
        | inr e₁ ↦ rw e₁
      ]

  resolved_Refuses :
      (workspace_path : String) (scope : Scope) (dir : Option Components)
      → Refuses (exec_resolved lib e workspace_path scope dir)
  unfolding exec_resolved exec_invalid deny deny_for
  resolved_Refuses workspace_path scope none = refl
  resolved_Refuses workspace_path scope (some dir) = elim (Bool-cases (workspace_path == "")) [
    | inl e₁ ↦ rw e₁ (dirs_Refuses workspace_path _ dir)
    | inr e₁ ↦ rw e₁ (workspace_Refuses workspace_path _ dir _)
  ]

  -- `if working_dir:`, and the checks
  pub checks_Refuses :
      (scope : Scope)
      → let dir = strip (or_text (text scope.entries "working_dir") (workspace_of e scope)) in
        Refuses (
          if dir == ""
          then passed scope
          else exec_resolved lib e (workspace_of e scope) scope (lib.expand dir))
  checks_Refuses scope = elim (Bool-cases (dir == "")) [
    | inl e₁ ↦ rw e₁
    | inr e₁ ↦ rw e₁ (resolved_Refuses (workspace_of e scope) scope _)
  ]
    where
      dir : String
      dir = strip (or_text (text scope.entries "working_dir") (workspace_of e scope))
