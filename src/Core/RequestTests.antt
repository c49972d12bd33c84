-- ===== src/Core/RequestTests.antt =====
-- The theorems on searches, schemas of arguments, tool paths and challenges at concrete inputs.
use zoen_gateway.Prelude.{
  ℕ, zero, suc, ◌+◌, ◌-◌, ◌*◌, ◌/◌, ◌%◌, ◌^◌, ◌≤◌, ◌<◌, String, ◌≡◌, refl, sym, ap, ◌∙◌, subst, ◌≢◌,
  ◌↔◌, ◌⊎◌, inl, inr, Bool, true, false, not, ◌&&◌, ◌||◌, Option, none, some, List, [], ◌∷◌, ◌++◌,
  map, arith, ltb, leb, ◌==◌, if◌then◌else◌, ==_iff, Bool-cases, Option-cases, is_some, unwrap_or,
  and_then, or_else, length, get_elem?, take, drop, any, all, find_first, select, length-append,
  All, In, In-append,
}
use zoen_gateway.Prelude.Effect.{ok, err}
use zoen_gateway.Core.JsonSchema.{validate_against}
use zoen_gateway.Core.JsonSchema.Conforms.{Conforms}
use zoen_gateway.Core.JsonSchema.Validates.{validate_against_iff}
use zoen_gateway.Prelude.Text.{text_eq, text_lt, Text, ascii, split}
use zoen_gateway.Prelude.Map.{text_key, lookup}
use zoen_gateway.Prelude.Json.{null, Value, string, object, end, field, array, bool, cons, nil}
use zoen_gateway.Core.ToolPath.{
  build_tool_path, inspect_tool_path, resolve_invocation, flags, to_segments,
}
use zoen_gateway.Core.ToolPath.Children.{described, children-described}
use zoen_gateway.Core.Challenge.Rounds.{run-parse_challenges}
use zoen_gateway.Core.Scope.{detect_from_challenge, detect_insufficient_scope, tool_error_from_http}
use zoen_gateway.Core.Challenge.{returned, run, new, parse_challenges}
use zoen_gateway.Core.Search.{SearchableTool, search_tools}
use zoen_gateway.Core.Search.Pages.{all_pages, all_pages-all}

all_pages-all_example :
    all_pages {T = ℕ} 9 (1 ∷ 2 ∷ 3 ∷ 4 ∷ 5 ∷ []) 2 0 ≡ (1 ∷ 2 ∷ 3 ∷ 4 ∷ 5 ∷ [], none)
all_pages-all_example =
    all_pages-all {T = ℕ} 9 (1 ∷ 2 ∷ 3 ∷ 4 ∷ 5 ∷ []) 2 (omega arith) (omega arith)

-- Two tools found for one word, the one whose name it is first; what they are called is from the
-- source's tests.
abbrev issue_tool : String → String → SearchableTool
issue_tool path name = record {
  path = ascii path;
  name = ascii name;
  description = ascii "An issue";
  integration = ascii "github";
}

abbrev issue_tools : List SearchableTool
issue_tools =
    issue_tool "tools.github.org.work.issues.listAll" "issues.listAll"
    ∷ issue_tool "tools.github.org.work.issue" "issue"
    ∷ []

search_finds :
    map
      (λ d. d.name)
      (search_tools issue_tools
        (record { query = ascii "issue"; namespace = none; limit = 12; offset = 0 })).items
    ≡ ascii "issue" ∷ ascii "issues.listAll" ∷ []
unfolding search_tools
search_finds = refl

-- A schema that asks for a name, and an object that has it.
abbrev names_schema : Value
names_schema = object (
    field (ascii "required") (array (cons (string (ascii "n")) nil))
      (field (ascii "type") (string (ascii "object")) end))

abbrev named : Value
named = object (field (ascii "n") (bool true) end)

named_accepted : validate_against (λ n. true) names_schema named ≡ ok tt
unfolding validate_against
named_accepted = refl

unnamed_refused :
    validate_against (λ n. true) names_schema (object end)
    ≡ err (ascii "missing required property n")
unfolding validate_against
unnamed_refused = refl

validate_against_iff_example :
    (validate_against (λ n. true) names_schema named ≡ ok tt)
    ↔ Conforms (λ n. true) names_schema named
validate_against_iff_example = validate_against_iff (λ n. true) names_schema named

abbrev browsed_paths : List Text
browsed_paths =
    ascii "tools.github.list" ∷ ascii "tools.github.issues.list" ∷ ascii "tools.echo" ∷ []

github_child :
    (inspect_tool_path browsed_paths (ascii "tools" ∷ [])).children
    ≡ record { segment = ascii "echo"; invokable = true; has_children = false; tool_count = 1 }
      ∷ record { segment = ascii "github"; invokable = false; has_children = true; tool_count = 2 }
      ∷ []
unfolding inspect_tool_path zoen_gateway.Core.ToolPath.browse zoen_gateway.Core.ToolPath.browse_path
    to_segments split text_eq zoen_gateway.Prelude.Trim.trim zoen_gateway.Core.ToolPath.is_prefix
    zoen_gateway.Core.ToolPath.zip_equal zoen_gateway.Core.ToolPath.add_child
    zoen_gateway.Prelude.Map.insert text_lt zoen_gateway.Core.ToolPath.child_of
    zoen_gateway.Core.ToolPath.count_tool lookup
github_child = refl

built :
    build_tool_path (ascii "github" ∷ ascii "issues.create" ∷ [])
    ≡ ok (ascii "github.issues.create")
unfolding build_tool_path to_segments split text_eq zoen_gateway.Prelude.Trim.trim
    zoen_gateway.Core.ToolPath.is_token zoen_gateway.Core.ToolPath.join_dots
built = refl

resolved_flags :
    resolve_invocation (λ p. err []) (λ t. err []) (ascii "github" ∷ ascii "--help" ∷ [])
    ≡ err flags
unfolding resolve_invocation zoen_gateway.Core.ToolPath.last_part zoen_gateway.Prelude.Trim.trim
resolved_flags = refl

children-described_example :
    find_first
      (λ d. text_eq d.segment (ascii "github"))
      (inspect_tool_path browsed_paths (ascii "tools" ∷ [])).children
    ≡ described (to_segments (ascii "tools" ∷ [])) (ascii "github") browsed_paths
children-described_example = children-described browsed_paths (ascii "tools" ∷ []) (ascii "github")

-- `Bearer error="a", scope=b`
abbrev bearer_header : Text
bearer_header = ascii "Bearer error=" ++ (34 ∷ 97 ∷ 34 ∷ ascii ", scope=b")

bearer_parsed :
    parse_challenges bearer_header
    ≡ some (
        record {
          scheme = ascii "bearer";
          params = (ascii "error", ascii "a") ∷ (ascii "scope", ascii "b") ∷ [];
        }
        ∷ [])
unfolding parse_challenges zoen_gateway.Core.Challenge.round
    zoen_gateway.Core.Challenge.consume_token zoen_gateway.Core.Challenge.take_bare_word text_eq
    zoen_gateway.Core.Challenge.take_auth_param zoen_gateway.Core.Challenge.read_param_value
    zoen_gateway.Core.Challenge.read_quoted lookup zoen_gateway.Prelude.Map.insert text_lt
bearer_parsed = refl

unclosed_refused : parse_challenges (ascii "Bearer error=" ++ (34 ∷ ascii "a")) ≡ none
unfolding parse_challenges zoen_gateway.Core.Challenge.round
    zoen_gateway.Core.Challenge.consume_token zoen_gateway.Core.Challenge.take_bare_word text_eq
    zoen_gateway.Core.Challenge.take_auth_param zoen_gateway.Core.Challenge.read_param_value
    zoen_gateway.Core.Challenge.read_quoted
unclosed_refused = refl

run-parse_challenges_example : run 100 bearer_header new ≡ returned (parse_challenges bearer_header)
run-parse_challenges_example = run-parse_challenges bearer_header 100 (omega arith)

-- A challenge that names two scopes, and one whose error is only quoted in a description.
scopes_detected :
    detect_from_challenge
      (ascii "Bearer error=insufficient_scope, scope=" ++ (34 ∷ ascii "a b" ++ (34 ∷ [])))
    ≡ some (record { required_scopes = ascii "a" ∷ ascii "b" ∷ [] })
unfolding detect_from_challenge parse_challenges zoen_gateway.Core.Challenge.round
    zoen_gateway.Core.Challenge.consume_token zoen_gateway.Core.Challenge.take_bare_word text_eq
    zoen_gateway.Core.Challenge.take_auth_param zoen_gateway.Core.Challenge.read_param_value
    zoen_gateway.Core.Challenge.read_quoted zoen_gateway.Prelude.Map.insert text_lt
scopes_detected = refl

description_passes :
    detect_from_challenge
      (ascii "Bearer error_description=" ++ (34 ∷ ascii "error=insufficient_scope" ++ (34 ∷ [])))
    ≡ none
unfolding detect_from_challenge parse_challenges zoen_gateway.Core.Challenge.round
    zoen_gateway.Core.Challenge.consume_token zoen_gateway.Core.Challenge.take_bare_word text_eq
    zoen_gateway.Core.Challenge.take_auth_param zoen_gateway.Core.Challenge.read_param_value
    zoen_gateway.Core.Challenge.read_quoted zoen_gateway.Prelude.Map.insert
description_passes = refl

body_classified :
    detect_insufficient_scope
      (λ t. none)
      (some (
        object (
          field
            (ascii "error")
            (object (field (ascii "reason") (string (ascii "ACCESS_TOKEN_SCOPE_INSUFFICIENT")) end))
            end)))
      []
    ≡ some (record { required_scopes = [] })
unfolding detect_insufficient_scope zoen_gateway.Prelude.Json.get_field text_eq
body_classified = refl

server_error_retries : (tool_error_from_http (λ t. none) 503 [] null).retryable ≡ some true
unfolding tool_error_from_http
server_error_retries = refl
