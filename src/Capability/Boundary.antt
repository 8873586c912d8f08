-- ===== src/Capability/Boundary.antt =====
-- Where an allowed file access and an allowed command stay
-- (zen_claw/agent/tools/capability_policy.py).
use zen_claw.Base.{
  String, ◌≡◌, refl, true, false, ◌||◌, Option, none, some, List, [], ◌∷◌, ◌==◌, arith, any,
  Bool-cases, inl, inr, ◌⊎◌,
}
use zen_claw.Base.Text.{strip, lower}
use zen_claw.Base.Strings.{words, join}
use zen_claw.Capability.Request.{Scope, text}
use zen_claw.Capability.Policy.{
  CapabilityPolicyDecision, Components, Library, Evaluator, is_within, allow_for, deny_for, allow,
  deny, candidate_of, PathSearch, found, missing, raised, found_or, search_paths,
}
use zen_claw.Capability.Files.{
  workspace_of, filesystem_search, filesystem_resolved, filesystem_paths, evaluate_filesystem,
  Checked, refused, passed, exec_command, prefix_test, evaluate_exec,
}
use zen_claw.Capability.Commands.{Refuses, checks_Refuses}

-- one of the rules names a path that holds this one
abbrev pub CoveredBy : (String → Option Components) → Components → List String → Type 0
CoveredBy candidate path [] = false ≡ true
CoveredBy candidate path (raw ∷ rest) =
    ((c : Components) × (candidate raw ≡ some c) × (is_within c path ≡ true))
    ⊎ CoveredBy candidate path rest

found_or-cases :
    (o : Option Components) (path : Components) (rest : PathSearch) (c : Components)
    → found_or o path rest ≡ found c
    → ((d : Components) × (o ≡ some d) × (is_within d path ≡ true)) ⊎ (rest ≡ found c)
found_or-cases none path rest c h = cc
found_or-cases (some d) path rest c h = elim (Bool-cases (is_within d path)) [
  | inl e ↦ inl (d, refl, e)
  | inr e ↦ inr (rw e at h)
]

search_paths-CoveredBy :
    (candidate : String → Option Components) (rules : List String) (path c : Components)
    → search_paths candidate rules path ≡ found c
    → CoveredBy candidate path rules
unfolding search_paths
search_paths-CoveredBy candidate [] path c h = cc
search_paths-CoveredBy candidate (raw ∷ rest) path c h =
    elim (found_or-cases (candidate raw) path (search_paths candidate rest path) c h) [
      | inl this ↦ inl this
      | inr later ↦ inr (search_paths-CoveredBy candidate rest path c later)
    ]

PathSearch-cases :
    (s : PathSearch) → ((c : Components) × (s ≡ found c)) ⊎ (s ≡ missing) ⊎ (s ≡ raised)
PathSearch-cases (found c) = inl (c, refl)
PathSearch-cases missing = inr (inl refl)
PathSearch-cases raised = inr (inr refl)

module _ (lib : Library) (e : Evaluator) (hardened : e.policy.production_hardening ≡ true) where
  -- the path lies in the workspace, and under an allowlisted subpath of it
  abbrev pub Contained : Components → Components → Type 0
  Contained path workspace =
      (is_within workspace path ≡ true)
      × CoveredBy (candidate_of lib (lib.show workspace)) path e.policy.filesystem_allowed_subpaths

  resolved-Contained :
      (scope : Scope) (path workspace : Components) (d : CapabilityPolicyDecision)
      → filesystem_resolved lib e scope path workspace ≡ some d
      → d.allowed ≡ true
      → Contained path workspace
  unfolding filesystem_resolved filesystem_search allow deny allow_for deny_for
  resolved-Contained scope path workspace d h a =
      let rules = e.policy.filesystem_allowed_subpaths in
      let search = search_paths (candidate_of lib (lib.show workspace)) rules path in
      elim (PathSearch-cases search) [
        | inl (c, s) ↦ (
          ground (arith, hardened),
          search_paths-CoveredBy (candidate_of lib (lib.show workspace)) rules path c s,
        )
        | inr other ↦
            absurd
              (elim other [ inl s ↦ ground (arith, hardened) | inr s ↦ ground (arith, hardened) ])
      ]

  -- Both texts resolve, to a contained path.
  abbrev pub Resolves : Option Components → Option Components → Type 0
  Resolves path workspace =
      (p : Components) × (w : Components) × (path ≡ some p) × (workspace ≡ some w) × Contained p w

  paths-Resolves :
      (scope : Scope) (path workspace : Option Components) (d : CapabilityPolicyDecision)
      → filesystem_paths lib e scope path workspace ≡ some d
      → d.allowed ≡ true
      → Resolves path workspace
  unfolding filesystem_paths deny deny_for
  paths-Resolves scope none workspace d h a = absurd (ground arith)
  paths-Resolves scope (some path) none d h a = absurd (ground arith)
  paths-Resolves scope (some path) (some workspace) d h a =
      (path, workspace, refl, refl, resolved-Contained scope path workspace d h a)

  -- Under production hardening an allowed file access names a path and a workspace that resolve, the
  -- path lies in the workspace, and one of the allowlisted subpaths resolves to the path or to a
  -- directory above it.
  pub evaluate_filesystem-Resolves :
      (scope : Scope) (d : CapabilityPolicyDecision)
      → evaluate_filesystem lib e scope ≡ some d
      → d.allowed ≡ true
      → Resolves
          (lib.expand (strip (text scope.entries "filesystem_path")))
          (lib.expand (workspace_of e scope))
  unfolding evaluate_filesystem deny deny_for
  evaluate_filesystem-Resolves scope d h a =
      elim (Bool-cases
        (strip (text scope.entries "filesystem_path") == "" || workspace_of e scope == "")) [
          | inl t ↦ absurd (ground (arith, hardened))
          | inr t ↦ paths-Resolves scope _ _ d (rw t at h) a
        ]

  command_prefix :
      (scope : Scope) (c : Checked)
      → Refuses c
      → (exec_command e scope c).allowed ≡ true
      → any
          (prefix_test (join " " (words (lower (strip (text scope.entries "command"))))))
          e.policy.exec_allowed_command_prefixes
        ≡ true
  unfolding exec_command deny deny_for
  command_prefix scope (refused d) r h = cc
  command_prefix scope (passed scope') r h = ground (arith, hardened)

  -- Under production hardening an allowed command, its words joined by single spaces and in lower
  -- case, is an allowlisted prefix or starts with one and a space.
  pub evaluate_exec_prefix :
      (scope : Scope)
      → (evaluate_exec lib e scope).allowed ≡ true
      → any
          (prefix_test (join " " (words (lower (strip (text scope.entries "command"))))))
          e.policy.exec_allowed_command_prefixes
        ≡ true
  unfolding evaluate_exec
  evaluate_exec_prefix scope h = command_prefix scope _ (checks_Refuses lib e scope) h
