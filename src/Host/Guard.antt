-- ===== src/Host/Guard.antt =====
-- crates/executor-host/src/guard.rs: which requests reach the routes. A header is a text, or none
-- where it is not visible ASCII (`to_str` fails); of a response, the status and the granted origin.
pub mod Laws
use zoen_gateway.Prelude.{
  ℕ, ◌∷◌, [], ◌++◌, ◌+◌, Bool, true, false, Option, none, some, List, if◌then◌else◌, ◌==◌, ◌||◌,
  ◌&&◌, not, leb, any, is_some, and_then, or_else, find_first,
}
use zoen_gateway.Prelude.Text.{Text, ascii, text_eq, starts_with, strip_prefix, split}
use zoen_gateway.Prelude.Trim.{trim}
use zoen_gateway.Core.Secret.{split_once}

pub data Method : Type 0 where
  options get_method other_method : Method

abbrev pub Header : Type 0
Header = Option (Option Text)

pub record Request : Type 0 where
  pub method : Method
  pub path : Text
  pub uri : Text
  pub authorization : Header
  pub x_executor_token : Header
  pub x_treg_token : Header
  pub origin : Header
  pub host : Header

-- `get(..).and_then(|v| v.to_str().ok())`
abbrev pub text_of : Header → Option Text
text_of none = none
text_of (some v) = v

unfoldable pub is_public : Text → Bool
is_public path =
    text_eq path (ascii "/health")
    || (text_eq path (ascii "/api/health")
        || (starts_with (ascii "/.well-known/") path
            || (starts_with (ascii "/oauth/client-id-metadata") path
                || (text_eq path (ascii "/api/oauth/callback")
                    || (text_eq path (ascii "/api/auth/cli-login")
                        || (text_eq path (ascii "/api/auth/device/code")
                            || (text_eq path (ascii "/api/auth/device/token")
                                || (text_eq path (ascii "/api/auth/device/verify")
                                    || (text_eq path (ascii "/api/console/bootstrap")
                                        || (text_eq path (ascii "/api/arena/capabilities")
                                            || text_eq path (ascii "/api/stripe/webhook")))))))))))

unfoldable pub is_spa_path : Text → Bool
is_spa_path path =
    not (starts_with (ascii "/api/") path)
    && (not (text_eq path (ascii "/mcp"))
        && (not (starts_with (ascii "/mcp/") path)
            && (not (starts_with (ascii "/executions") path)
                && (not (starts_with (ascii "/call/") path)
                    && (not (text_eq path (ascii "/metrics"))
                        && (not (text_eq path (ascii "/health"))
                            && not (starts_with (ascii "/.well-known") path)))))))

abbrev pub bearer : Text → Option Text
bearer value = or_else (strip_prefix (ascii "Bearer ") value) (strip_prefix (ascii "bearer ") value)

-- `nth(1)` of the pieces.
abbrev pub second : List Text → Option Text
second (a ∷ b ∷ rest) = some b
second _ = none

-- The first pair whose key is `_token`; a piece that is no pair is passed over.
unfoldable pub token_pair : List Text → Option Text
token_pair [] = none
token_pair (pair ∷ pairs) =
    let rest = token_pair pairs in
    elim (split_once 61 pair) [
      | none ↦ rest
      | some (k, v) ↦ if text_eq k (ascii "_token") then some v else rest
    ]

abbrev pub query_token : Text → Option Text
query_token uri = and_then (second (split 63 uri)) (λ query. token_pair (split 38 query))

unfoldable pub request_token : Request → Option Text
request_token r = elim (and_then (text_of r.authorization) bearer) [
  | some token ↦ some (trim token)
  | none ↦ elim (text_of (or_else r.x_executor_token r.x_treg_token)) [
    | some value ↦ some value
    | none ↦ query_token r.uri
  ]
]

abbrev pub head_of : List Text → Text → Text
head_of [] s = s
head_of (a ∷ rest) s = a

abbrev pub host_of_origin : Text → Option Text
host_of_origin origin =
    and_then
      (or_else (strip_prefix (ascii "http://") origin) (strip_prefix (ascii "https://") origin))
      (λ rest. some (head_of (split 47 rest) rest))

unfoldable pub origin_host : Request → Option Text
origin_host r = and_then (text_of r.origin) host_of_origin

abbrev pub lower_byte : ℕ → ℕ
lower_byte a = if leb b'A' a && leb a b'Z' then a + 32 else a

unfoldable pub eq_ignore_ascii_case : Text → Text → Bool
eq_ignore_ascii_case [] [] = true
eq_ignore_ascii_case [] (b ∷ t) = false
eq_ignore_ascii_case (a ∷ s) [] = false
eq_ignore_ascii_case (a ∷ s) (b ∷ t) = lower_byte a == lower_byte b && eq_ignore_ascii_case s t

abbrev pub without_port : Text → Text
without_port s = head_of (split 58 s) s

unfoldable pub host_allowed : Text → List Text → Bool
host_allowed host allowed =
    any
      (λ a.
        eq_ignore_ascii_case (without_port a) (without_port host)
        || text_eq (without_port a) (ascii "*"))
      allowed

pub data Answer : Type 0 where
  no_content forbidden unauthorized passed_on : Answer

pub record Response : Type 0 where
  pub answer : Answer
  pub granted_origin : Option Text

abbrev pub granted : Request → List Text → Option Text
granted r allowed = and_then (text_of r.origin) (λ origin.
    and_then (origin_host r) (λ host. if host_allowed host allowed then some origin else none))

unfoldable pub with_cors : Answer → Request → List Text → Response
with_cors answer r allowed = record { answer = answer; granted_origin = granted r allowed }

abbrev pub plain : Answer → Response
plain answer = record { answer = answer; granted_origin = none }

abbrev pub is_get : Method → Bool
is_get get_method = true
is_get _ = false

-- `!host_allowed(..)` of a host that is there.
abbrev pub foreign : Option Text → List Text → Bool
foreign none allowed = false
foreign (some host) allowed = not (host_allowed host allowed)

abbrev pub needs_token : Request → Bool
needs_token r = not (is_public r.path) && not (is_get r.method && is_spa_path r.path)

abbrev pub presents : Text → Option Text → Bool
presents expected none = false
presents expected (some token) = text_eq token expected

abbrev pub lets_in : Option Text → Request → Bool
lets_in none r = true
lets_in (some expected) r = not (needs_token r) || presents expected (request_token r)

abbrev pub checked : List Text → Option Text → Request → Response
checked allowed auth_token r =
    if foreign (text_of r.host) allowed && foreign (origin_host r) allowed
    then plain forbidden
    else if lets_in auth_token r
    then with_cors passed_on r allowed
    else plain unauthorized

unfoldable pub gate : List Text → Option Text → Request → Response
gate allowed auth_token r = elim r.method [
  | options ↦ with_cors no_content r allowed
  | _ ↦ checked allowed auth_token r
]
