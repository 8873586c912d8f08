-- ===== src/Registry/Results.antt =====
-- `ToolResult` of zen_claw/agent/tools/result.py without its `meta`, and how the registry reads what
-- a tool returns: `_normalize_result`, `_from_legacy_string`, `_try_parse_json_error` and
-- `_classify_error_kind` of zen_claw/agent/tools/registry.py.
use zen_claw.Base.{
  String, Bool, true, false, not, ◌&&◌, ◌||◌, Option, none, some, List, [], ◌∷◌, ◌==◌, any,
  if◌then◌else◌,
}
use zen_claw.Base.Text.{strip, lower, starts_with, has_substring}
use zen_claw.Base.Strings.{drop_chars, before, size}

pub data ToolErrorKind : Type 0 where
  parameter permission runtime retryable : ToolErrorKind

pub record ToolError : Type 0 where
  pub kind : ToolErrorKind
  pub message : String
  pub code : String
  pub may_retry : Bool

pub record ToolResult : Type 0 where
  pub ok : Bool
  pub content : String
  pub error : Option ToolError

-- `kind == ToolErrorKind.RETRYABLE`
abbrev is_retryable : ToolErrorKind → Bool
is_retryable retryable = true
is_retryable other = false

unfoldable pub success : String → ToolResult
success content = record { ok = true; content = content; error = none }

unfoldable pub failure : ToolErrorKind → String → String → ToolResult
failure kind message code = record {
  ok = false;
  content = "";
  error =
      some (record { kind = kind; message = message; code = code; may_retry = is_retryable kind });
}

-- The substitutions of `purify`, and `json.loads(text).get("error")` where it is there and true.
pub record Texts : Type 0 where
  pub purify : String → String
  pub json_error : String → Option String

abbrev permission_keywords : List String
permission_keywords =
    "permission" ∷ "outside allowed directory" ∷ "blocked by safety guard" ∷ "path traversal"
    ∷ "allowlist" ∷ "forbidden" ∷ "denied" ∷ []

abbrev retryable_keywords : List String
retryable_keywords =
    "timed out" ∷ "timeout" ∷ "temporarily" ∷ "connection reset" ∷ "connection refused" ∷ "network"
    ∷ "rate limit" ∷ "429" ∷ "service unavailable" ∷ "try again" ∷ []

abbrev parameter_keywords : List String
parameter_keywords =
    "invalid parameter" ∷ "missing required" ∷ "required" ∷ "not found" ∷ "unknown action"
    ∷ "validation failed" ∷ "url validation failed" ∷ "old_text not found" ∷ "not a file"
    ∷ "not a directory" ∷ []

-- `_classify_error_kind`
unfoldable pub classify_error_kind : String → String → ToolErrorKind
classify_error_kind name message =
    let msg = lower message in
    let tool = lower name in
    if any (has_substring msg) permission_keywords
    then permission
    else if any (has_substring msg) retryable_keywords
    then retryable
    else if any (has_substring msg) parameter_keywords
    then parameter
    else if (tool == "web_search" || tool == "web_fetch") && has_substring msg "http"
    then retryable
    else runtime

-- `s.split(":", 1)[1].strip() if ":" in s else s`
unfoldable pub after_colon : String → String
after_colon s =
    if has_substring s ":" then strip (drop_chars 1 (drop_chars (size (before ":" s)) s)) else s

abbrev json_failure : String → Option String → ToolResult
json_failure text none = success text
json_failure text (some message) = failure (classify_error_kind "" message) message "json_error"

-- `_from_legacy_string`
unfoldable pub from_legacy_string : Texts → String → String → ToolResult
from_legacy_string t name text =
    let stripped = strip text in
    let low = lower stripped in
    if not (starts_with low "error")
    then if starts_with low "{" && has_substring low "\"error\""
      then json_failure text (t.json_error stripped)
      else success text
    else let message = after_colon stripped in
      failure (classify_error_kind name message) message "legacy_error"

-- What `tool.execute` returns.
pub data RawResult : Type 0 where
  structured : ToolResult → RawResult
  legacy : String → RawResult
  other : String → RawResult

unfoldable pub raw_result : Texts → String → RawResult → ToolResult
raw_result t name (structured result) = result
raw_result t name (legacy text) = from_legacy_string t name text
raw_result t name (other text) = success text

-- `_normalize_result`
unfoldable pub normalize_result : Texts → String → RawResult → ToolResult
normalize_result t name raw =
    let result = raw_result t name raw in record result { content = t.purify result.content }
