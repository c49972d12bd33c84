-- ===== src/Core/Scope.antt =====
-- crates/executor-core/src/scope.rs: is a refusal by the upstream one for want of a scope? `from_str`
-- is the JSON reader, for a body that is JSON in a text.
use zoen_gateway.Prelude.{
  String, ℕ, ◌+◌, Bool, true, false, not, ◌&&◌, ◌||◌, Option, none, some, List, [], ◌∷◌, ◌++◌, ltb,
  leb, if◌then◌else◌, and_then, or_else,
}
use zoen_gateway.Prelude.Text.{Text, ascii, text_eq}
use zoen_gateway.Prelude.Trim.{white1, white2, white3, decimal}
use zoen_gateway.Prelude.Map.{text_key, lookup}
use zoen_gateway.Prelude.Json.{
  Value, Items, Fields, string, array, object, nil, cons, end, field, get_field,
}
use zoen_gateway.Core.Challenge.{AuthChallenge, parse_challenges, to_ascii_lowercase}
use zoen_gateway.Core.Execution.{ToolError}

abbrev pub oauth_scope_insufficient : Text
oauth_scope_insufficient = ascii "oauth_scope_insufficient"

abbrev pub max_depth : ℕ
max_depth = 8

pub record InsufficientScope : Type 0 where
  pub required_scopes : List Text

close : Text → List Text → List Text
close word rest = if text_eq word [] then rest else word ∷ rest

-- `split_whitespace`, behind the part of a word that is read.
unfoldable pub split_words : Text → Text → List Text
unfolding close
split_words word [] = close word []
split_words word (a ∷ []) = if white1 a then close word [] else close (word ++ (a ∷ [])) []
split_words word (a ∷ b ∷ []) =
    let one = split_words [] (b ∷ []) in
    let more = split_words (word ++ (a ∷ [])) (b ∷ []) in
    if white1 a then close word one else if white2 a b then close word [] else more
split_words word (a ∷ b ∷ c ∷ s) =
    let one = split_words [] (b ∷ c ∷ s) in
    let two = split_words [] (c ∷ s) in
    let three = split_words [] s in
    let more = split_words (word ++ (a ∷ [])) (b ∷ c ∷ s) in
    if white1 a
    then close word one
    else if white2 a b
    then close word two
    else if white3 a b c
    then close word three
    else more

abbrev is_text : String → Option Value → Bool
is_text name none = false
is_text name (some (string s)) = text_eq s (ascii name)
is_text name (some _) = false

abbrev is_nested : Value → Bool
is_nested (object fs) = true
is_nested (array vs) = true
is_nested _ = false

unfoldable mutual
  pub detect_from_structured : ℕ → Value → Bool
  detect_from_structured depth (array items) =
      not (ltb max_depth depth) && any_detected (depth + 1) items
  detect_from_structured depth (object fs) =
      not (ltb max_depth depth)
      && (is_text "insufficient_scope" (get_field (ascii "error") fs)
          || (is_text "ACCESS_TOKEN_SCOPE_INSUFFICIENT" (get_field (ascii "reason") fs)
              || any_field (depth + 1) fs))
  detect_from_structured depth _ = false

  any_detected : ℕ → Items → Bool
  any_detected depth nil = false
  any_detected depth (cons v vs) = detect_from_structured depth v || any_detected depth vs

  any_field : ℕ → Fields → Bool
  any_field depth end = false
  any_field depth (field k v fs) =
      (is_nested v && detect_from_structured depth v) || any_field depth fs

unfoldable pub scopes_of : Option Text → List Text
unfolding split_words
scopes_of none = []
scopes_of (some s) = split_words [] s

is_error : Option Text → Bool
is_error none = false
is_error (some s) = text_eq s (ascii "insufficient_scope")

unfoldable pub first_insufficient : List AuthChallenge → Option InsufficientScope
unfolding is_error scopes_of lookup
first_insufficient [] = none
first_insufficient (c ∷ cs) =
    if not (text_eq c.scheme (ascii "bearer"))
    then first_insufficient cs
    else if not (is_error (lookup (ascii "error") c.params))
    then first_insufficient cs
    else some (record { required_scopes = scopes_of (lookup (ascii "scope") c.params) })

unfoldable pub detect_from_challenge : Text → Option InsufficientScope
unfolding first_insufficient
detect_from_challenge header = and_then (parse_challenges header) first_insufficient

unfoldable pub detect_from_headers : List (Text × Text) → Option InsufficientScope
unfolding detect_from_challenge
detect_from_headers [] = none
detect_from_headers ((name, value) ∷ headers) =
    let rest = detect_from_headers headers in
    if text_eq (to_ascii_lowercase name) (ascii "www-authenticate")
    then or_else (detect_from_challenge value) rest
    else rest

string_items : List Text → Items
string_items [] = nil
string_items (s ∷ ss) = cons (string s) (string_items ss)

join_spaces : List Text → Text
join_spaces [] = []
join_spaces (s ∷ []) = s
join_spaces (s ∷ t ∷ ss) = s ++ (ascii " " ++ join_spaces (t ∷ ss))

abbrev uncovered : Text
uncovered = ascii "The access token does not cover the required scope"

scope_message : List Text → Text
unfolding join_spaces
scope_message [] = uncovered
scope_message (s ∷ ss) = uncovered ++ (ascii ": " ++ join_spaces (s ∷ ss))

unfoldable pub into_tool_error : InsufficientScope → ℕ → Value → ToolError
unfolding scope_message
into_tool_error scope status details = record {
  code = oauth_scope_insufficient;
  message = scope_message scope.required_scopes;
  status = some status;
  details = some details;
  retryable = some false;
}

module _ (from_str : Text → Option Value) where
  parsed_detected : Option Value → Bool
  unfolding detect_from_structured
  parsed_detected none = false
  parsed_detected (some v) = detect_from_structured 0 v

  unfoldable pub detect_from_body : Value → Bool
  unfolding parsed_detected
  detect_from_body (string text) = parsed_detected (from_str text)
  detect_from_body other = detect_from_structured 0 other

  body_detected : Option Value → Bool
  unfolding detect_from_body
  body_detected none = false
  body_detected (some v) = detect_from_body v

  unfoldable pub detect_insufficient_scope :
      Option Value → List (Text × Text) → Option InsufficientScope
  unfolding body_detected detect_from_headers
  detect_insufficient_scope body headers =
      or_else (detect_from_headers headers)
        (if body_detected body then some (record { required_scopes = [] }) else none)

  unfoldable pub tool_error_from_http : ℕ → List (Text × Text) → Value → ToolError
  unfolding detect_insufficient_scope into_tool_error string_items
  tool_error_from_http status headers body =
      classify (detect_insufficient_scope (some body) headers)
    where
      classify : Option InsufficientScope → ToolError
      classify (some detected) = into_tool_error detected status (
          object (
            field (ascii "requiredScopes") (array (string_items detected.required_scopes))
              (field (ascii "upstream") body end)))
      classify none = record {
        code = ascii "http_error";
        message = ascii "HTTP " ++ decimal status;
        status = some status;
        details = some body;
        retryable = some (leb 500 status && ltb status 600);
      }
