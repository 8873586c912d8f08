-- ===== src/Registry/Tests.antt =====
-- Runs of the tool registry, and instances of its theorems.
use zen_claw.Base.{
  ℕ, zero, suc, ◌≤◌, length, max, Option, leb, List, String, ◌≡◌, refl, true, false, not, ◌&&◌,
  none, some, [], ◌∷◌, ◌==◌, any, if◌then◌else◌, Bool-cases, inl, inr,
}
use zen_claw.Base.Text.{norm, strip, lower, lower_char, has_substring, starts_with}
use zen_claw.Base.Strings.{before, drop_chars, size}
use zen_claw.Base.Dict.{get}
use zen_claw.Base.Sets.{contains}
use zen_claw.Capability.Request.{Scope, entries_only, text}
use zen_claw.Capability.Policy.{Library}
use zen_claw.Gateway.Envelope.{Crypto}
use zen_claw.Gateway.Signing.{IsHex}
use zen_claw.Registry.Results.{
  legacy, failure, classify_error_kind, from_legacy_string, after_colon, retryable,
}
use zen_claw.Registry.State.{
  returned, Tool, ToolRegistry, init, register, set_request_context, tool_names,
}
use zen_claw.Registry.Gates.{opened, lists, lists_or_all, name_gates, envelope_gate}
use zen_claw.Registry.Execute.{
  World, Reading, Hint, hinted, execute, get_visible_definitions, normalize_option, deny_names,
}
use zen_claw.Registry.Visible.{is_open, no_hint, contains-get_visible_definitions}
use zen_claw.Registry.Passage.{runs_of, is_cleared, execute-runs}
use zen_claw.Registry.Refusal.{set_request_context-opened}
use zen_claw.Registry.Selector.{has_token, insert_ranked, ranked, is_top, chosen, bm25_select}

abbrev no_library : Library
no_library = record {
  expand = λ s. none;
  resolve = λ s. none;
  resolve_under = λ base s. none;
  is_absolute = λ s. starts_with s "/";
  show = λ c. "/";
  hostname = λ url. none;
}

abbrev crypto : Crypto
crypto = record {
  dumps = λ e. text e.top.entries "trace_id";
  dumps_flags = λ flags. "{}";
  sha256 = λ s. if s == "" then "e3b0c442" else "5feceb66";
  hmac = λ s. if s == "" then "b613679a" else "9ab0d8f3";
  instance_id = "local-gateway";
}

crypto-IsHex : IsHex crypto
unfolding strip
crypto-IsHex = record {
  sha256_strip = λ s. elim (Bool-cases (s == "")) [ inl e ↦ rw e | inr e ↦ rw e ];
  sha256_some = λ s. elim (Bool-cases (s == "")) [ inl e ↦ rw e | inr e ↦ rw e ];
  hmac_strip = λ s. elim (Bool-cases (s == "")) [ inl e ↦ rw e | inr e ↦ rw e ];
  hmac_some = λ s. elim (Bool-cases (s == "")) [ inl e ↦ rw e | inr e ↦ rw e ];
}

abbrev world : World
world = record {
  lib = no_library;
  crypto = crypto;
  texts = record { purify = λ s. s; json_error = λ s. none };
}

abbrev reading : Reading
reading = record { remote = none; now = 1000; remote₂ = none; now₂ = 1001 }

abbrev read_file : Tool
read_file = record {
  name = "read_file";
  validate_params = λ params.
      returned (if text params.entries "path" == "" then "missing required path" ∷ [] else []);
  execute = λ params. returned (legacy "Error: request timed out");
}

abbrev registry : ToolRegistry
registry = register (init none none true) read_file

abbrev params : Scope
params = entries_only (("path", "a.md") ∷ [])

timeout_runs :
    from_legacy_string world.texts "read_file" "Error: request timed out"
    ≡ failure retryable "request timed out" "legacy_error"
unfolding from_legacy_string after_colon classify_error_kind failure any has_substring starts_with
    norm strip lower lower_char before drop_chars size
timeout_runs = refl

execute-runs_example :
    (execute registry world reading "read_file" params "t:1").runs
    ≡ runs_of
        (get registry.tools "read_file")
        "read_file"
        (is_cleared registry world reading "read_file" params "t:1")
execute-runs_example = execute-runs registry world reading "read_file" params "t:1"

abbrev write_file : Tool
write_file = record read_file { name = "write_file" }

abbrev exec_tool : Tool
exec_tool = record read_file { name = "exec" }

abbrev three_tools : ToolRegistry
three_tools = register (register registry write_file) exec_tool

-- a query with a threshold of two and one place, for which the second tool scores best
abbrev hint : Hint
hint = record {
  query_hint = "write";
  semantic_top_k = 1;
  semantic_threshold = 2;
  scores = λ names i. eq_one i;
}
  where
    eq_one : ℕ → ℕ
    eq_one (suc zero) = 5
    eq_one _ = 0

hint_runs : hinted hint ("read_file" ∷ "write_file" ∷ "exec" ∷ []) ≡ "write_file" ∷ []
unfolding hinted bm25_select chosen is_top ranked insert_ranked has_token lower_char
hint_runs = refl

abbrev deny : Option (List String)
deny = some ("EXEC" ∷ [])

contains-get_visible_definitions_example :
    let all = get_visible_definitions three_tools none deny no_hint in
    let shown = get_visible_definitions three_tools none deny hint in
    (contains "read_file" all ≡ (
      contains "read_file" (tool_names three_tools)
      && not (lists (deny_names deny) (norm "read_file"))
      && lists_or_all (normalize_option none) (norm "read_file")
      && is_open (name_gates three_tools "read_file")))
    × (contains "read_file" shown && not (contains "read_file" all) ≡ false)
    × (length shown ≤ max (if "write" == "" then length all else 2) 1)
    × ((if leb (length all) 2 then shown else all) ≡ all)
contains-get_visible_definitions_example =
    contains-get_visible_definitions three_tools none deny hint "read_file"

set_request_context-opened_example :
    envelope_gate (set_request_context crypto registry none) crypto "exec" ≡ opened
set_request_context-opened_example =
    set_request_context-opened crypto crypto-IsHex registry none "exec"
