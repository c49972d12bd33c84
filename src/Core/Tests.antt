-- ===== src/Core/Tests.antt =====
-- The theorems on policies, positions, addresses and the store at concrete inputs.
use zoen_gateway.Prelude.{
  ℕ, zero, suc, ◌+◌, ◌-◌, ◌*◌, ◌/◌, ◌%◌, ◌^◌, ◌≤◌, ◌<◌, String, ◌≡◌, refl, sym, ap, ◌∙◌, subst, ◌≢◌,
  ◌↔◌, ◌⊎◌, inl, inr, Bool, true, false, not, ◌&&◌, ◌||◌, Option, none, some, List, [], ◌∷◌, ◌++◌,
  map, arith, ltb, leb, ◌==◌, if◌then◌else◌, ==_iff, Bool-cases, Option-cases, is_some, unwrap_or,
  and_then, or_else, length, get_elem?, take, drop, any, all, find_first, select, length-append,
  All, In, In-append,
}
use zoen_gateway.Prelude.Text.{
  text_eq_iff, text_eq_refl, starts_with, has_byte, contains, strip_prefix,
}
use zoen_gateway.Prelude.Text.{text_eq, text_lt, Text, ascii, split}
use zoen_gateway.Core.Owner.{org, user, outer_rank}
use zoen_gateway.Core.Policy.{
  compare_policies, approve, block, ToolPolicy, match_of, resolve_tool_policy, effective_policy,
  match_pattern, is_valid_pattern, restriction_rank,
}
use zoen_gateway.Prelude.Sort.{sort_by}
use zoen_gateway.Core.Policy.Flat.{
  flat_row, effective_policy_from_sorted, effective_policy_from_sorted_lem,
}
use zoen_gateway.Core.Policy.Matching.{Matches, match_pattern_iff}
use zoen_gateway.Core.Policy.Grammar.{IsGrammatical, is_valid_pattern_iff}
use zoen_gateway.Core.Policy.Resolution.{
  Speaks, SpeaksAlone, resolve_tool_policy_lem, resolve_tool_policy-none_iff,
  effective_policy-block,
}
use zoen_gateway.Core.Position.{between, before, generate_key_between}
use zoen_gateway.Core.Position.Order.{
  generate_key_between_bounds, between-append_zero, before-not_below,
}
use zoen_gateway.Core.Address.{ToolAddress, parse_tool_address, to_string}
use zoen_gateway.Prelude.Map.{text_key, lookup}
use zoen_gateway.Prelude.Json.{Value, string, object, end, field}
use zoen_gateway.Core.Secret.{strip_secret_refs}
use zoen_gateway.Core.Secret.Strip.{is_clean, strip_secret_refs_lem}
use zoen_gateway.Core.Tool.{Tool}
use zoen_gateway.Core.Connection.{Connection, ConnectionRef}
use zoen_gateway.Core.Execution.{running}
use zoen_gateway.Core.Store.{
  MemoryInner, empty, ref_of, put_connection, remove_integration, get_integration, get_connection,
  put_execution,
}
use zoen_gateway.Core.Store.Cascade.{remove_integration-cascade, remove_integration-overreach}
use zoen_gateway.Core.Address.RoundTrip.{parse_tool_address-to_string}

abbrev org_block : ToolPolicy
org_block = record {
  id = ascii "p1";
  owner = org;
  pattern = ascii "github.*";
  action = block;
  position = ascii "a0";
}

abbrev user_approve : ToolPolicy
user_approve = record {
  id = ascii "p2";
  owner = user;
  pattern = ascii "*";
  action = approve;
  position = ascii "a0";
}

abbrev rows : List ToolPolicy
rows = user_approve ∷ org_block ∷ []

abbrev issues : Text
issues = ascii "github.issues"

resolve_tool_policy_lem_example :
    ((r : ToolPolicy) × Speaks outer_rank issues rows r × (match_of org_block ≡ match_of r))
    × ((r : ToolPolicy) → SpeaksAlone outer_rank issues rows r → restriction_rank r.action ≤ 3)
unfolding resolve_tool_policy zoen_gateway.Prelude.Sort.sort_by outer_rank match_pattern
    zoen_gateway.Prelude.Text.text_eq split
resolve_tool_policy_lem_example =
    resolve_tool_policy_lem outer_rank issues rows (match_of org_block) refl

abbrev default_gate : Bool
default_gate = false

-- In a list of two.
alone : SpeaksAlone outer_rank issues rows org_block
unfolding match_pattern text_eq split
alone = record {
  listed = ground arith;
  matches = refl;
  alone = λ s listed same matches. ground arith;
}

effective_policy-block_example :
    (effective_policy issues rows outer_rank default_gate).action ≡ block
effective_policy-block_example =
    effective_policy-block outer_rank issues rows org_block default_gate alone refl

effective_policy_from_sorted_lem_example :
    effective_policy_from_sorted issues
      (map flat_row (sort_by (compare_policies outer_rank) rows))
      default_gate
    ≡ effective_policy issues rows outer_rank default_gate
effective_policy_from_sorted_lem_example =
    effective_policy_from_sorted_lem issues rows outer_rank default_gate

resolve_tool_policy-none_iff_example :
    (resolve_tool_policy issues rows outer_rank ≡ none)
    ↔ ((r : ToolPolicy) → In r rows → match_pattern r.pattern issues ≡ false)
resolve_tool_policy-none_iff_example = resolve_tool_policy-none_iff outer_rank issues rows

match_pattern_iff_example :
    (match_pattern (ascii "github.*") issues ≡ true)
    ↔ Matches (split b'.' (ascii "github.*")) (split b'.' issues)
match_pattern_iff_example = match_pattern_iff (ascii "github.*") issues

is_valid_pattern_iff_example :
    (is_valid_pattern (ascii "github.*") ≡ true) ↔ IsGrammatical (split b'.' (ascii "github.*"))
is_valid_pattern_iff_example = is_valid_pattern_iff (ascii "github.*")

between-append_zero_example : between (ascii "a1") (ascii "a10") ≡ ascii "a10"
between-append_zero_example = between-append_zero (ascii "a1")

address : ToolAddress
address = record {
  integration = ascii "vercel";
  owner = org;
  connection = ascii "prod";
  tool = ascii "aliases.deleteAlias";
}

parse_tool_address-to_string_example : parse_tool_address (to_string address) ≡ some address
unfolding zoen_gateway.Core.Id.new_slug zoen_gateway.Prelude.Text.text_eq
    zoen_gateway.Prelude.Trim.trim address zoen_gateway.Core.Id.new_opaque
parse_tool_address-to_string_example =
    parse_tool_address-to_string address
      (record { integration_ok = refl; connection_ok = refl; tool_ok = refl })

before-not_below_example : text_lt (ascii "Z0") (before (λ t. true) (ascii "Z0")) ≡ true
unfolding zoen_gateway.Core.Position.change_last text_lt
before-not_below_example = before-not_below (λ t. true) (ascii "Z0") (λ e. ground arith) refl refl

generate_key_between_bounds_example :
    (text_lt (ascii "a0") (generate_key_between (λ t. true) (some (ascii "a0")) (some (ascii "a2")))
      ≡ true)
    × (text_lt
          (generate_key_between (λ t. true) (some (ascii "a0")) (some (ascii "a2")))
          (ascii "a2")
        ≡ true)
unfolding text_lt
generate_key_between_bounds_example =
    generate_key_between_bounds (λ t. true) (some (ascii "a0")) (some (ascii "a2"))
      (ground arith, refl, λ e. ground arith)

abbrev github : Text
github = ascii "github"

abbrev linked : Connection
linked = record {
  owner = org;
  name = ascii "a/github/b";
  integration = ascii "vercel";
  template = ascii "none";
  provider = ascii "default";
  address = ascii "tools.vercel.org.a/github/b";
  identity_label = none;
  description = none;
  secrets = [];
  last_health = none;
}

abbrev store : MemoryInner
store = put_connection linked (put_execution (ascii "e0") running empty)

remove_integration-cascade_example :
    let s' = (remove_integration github store).1 in
    (get_integration github s' ≡ none)
    × ((c : Connection)
        → get_connection (ref_of c) s' ≡ some c
        → text_eq c.integration github ≡ false)
    × ((k : Text) (t : Tool) → lookup k s'.tools ≡ some t → text_eq t.integration github ≡ false)
remove_integration-cascade_example = remove_integration-cascade github store

abbrev work : ConnectionRef
work = record { owner = org; name = ascii "a/github/b"; integration = ascii "vercel" }

remove_integration-overreach_example :
    get_connection work (remove_integration github store).1 ≡ none
remove_integration-overreach_example =
    remove_integration-overreach github (ascii "a") (ascii "b") work store refl

abbrev sent : Value
sent =
    object
      (field (ascii "auth") (object (field (ascii "kind") (string (ascii "provider")) end)) end)

strip_secret_refs_lem_example :
    (is_clean (strip_secret_refs sent) ≡ true)
    × (is_clean sent ≡ true → strip_secret_refs sent ≡ sent)
strip_secret_refs_lem_example = strip_secret_refs_lem sent
