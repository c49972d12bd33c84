-- ===== src/Host/Tests.antt =====
-- The theorems on the gate at concrete requests.
use zoen_gateway.Prelude.{
  ℕ, zero, suc, ◌+◌, ◌-◌, ◌*◌, ◌/◌, ◌%◌, ◌^◌, ◌≤◌, ◌<◌, String, ◌≡◌, refl, sym, ap, ◌∙◌, subst, ◌≢◌,
  ◌↔◌, ◌⊎◌, inl, inr, Bool, true, false, not, ◌&&◌, ◌||◌, Option, none, some, List, [], ◌∷◌, ◌++◌,
  map, arith, ltb, leb, ◌==◌, if◌then◌else◌, ==_iff, Bool-cases, Option-cases, is_some, unwrap_or,
  and_then, or_else, length, get_elem?, take, drop, any, all, find_first, select, length-append,
  All, In, In-append,
}
use zoen_gateway.Prelude.Text.{
  text_eq, text_eq_iff, text_eq_refl, text_lt, starts_with, has_byte, contains, split, strip_prefix,
}
use zoen_gateway.Prelude.Trim.{decimal}
use zoen_gateway.Host.Auth.{
  TokenReply, device_code, device_token, device_approve, grant_ttl, max_grants, exec_token, prune,
}
use zoen_gateway.Host.Auth.Logins.{
  Event, grants_after, user_code_of, ApprovedAfter, device_token-approved,
}
use zoen_gateway.Host.Auth.Completes.{grants_after-length, device_login}
use zoen_gateway.Prelude.Text.{Text, ascii}
use zoen_gateway.Host.Guard.{Request, get_method, is_public, is_spa_path, request_token, gate}
use zoen_gateway.Host.Guard.Laws.{gate-token}

abbrev listing : Request
listing = record {
  method = get_method;
  path = ascii "/api/tools";
  uri = ascii "/api/tools?_token=s3cret";
  authorization = none;
  x_executor_token = none;
  x_treg_token = none;
  origin = none;
  host = some (some (ascii "localhost:8787"));
}

gate-token_example :
    (is_public listing.path ≡ true)
    ⊎ (((listing.method ≡ get_method) × (is_spa_path listing.path ≡ true))
        ⊎ (request_token listing ≡ some (ascii "s3cret")))
unfolding gate zoen_gateway.Host.Guard.host_allowed zoen_gateway.Host.Guard.eq_ignore_ascii_case
    zoen_gateway.Prelude.Text.split is_public zoen_gateway.Prelude.Text.text_eq is_spa_path
    request_token zoen_gateway.Host.Guard.token_pair zoen_gateway.Core.Secret.split_once
    zoen_gateway.Host.Guard.with_cors
gate-token_example = gate-token (ascii "localhost" ∷ []) (ascii "s3cret") listing refl

-- A login from its code to its token, with times in milliseconds.
abbrev login_log : List Event
login_log = Event.approval (ascii "1234") ∷ Event.code 1234 1000 ∷ []

login_token :
    (device_token [] (ascii "dev_1234") 2000 (grants_after decimal decimal login_log)).0
    ≡ TokenReply.token (ascii "exec_1234")
unfolding device_token grants_after decimal
login_token = refl

device_token-approved_example :
    (ms : ℕ) × (issued : ℕ) × (ascii "dev_1234" ≡ ascii "dev_" ++ decimal ms)
    × (ascii "exec_1234" ≡ exec_token (user_code_of decimal decimal ms))
    × (2000 < issued + grant_ttl)
    × ApprovedAfter (user_code_of decimal decimal ms) (Event.code ms issued) login_log
device_token-approved_example =
    device_token-approved decimal decimal login_log [] (ascii "dev_1234") 2000 (ascii "exec_1234")
      login_token

grants_after-length_example : length (grants_after decimal decimal login_log) ≤ max_grants + 1
grants_after-length_example = grants_after-length decimal decimal login_log

device_login_example :
    let ((device, user_code), issued) = device_code decimal decimal 1234 1000 [] in
    ((device_approve user_code issued).0 ≡ true)
    × ((device_token [] device 2000 (device_approve user_code issued).1).0
        ≡ TokenReply.token (exec_token user_code))
unfolding prune device_code decimal text_eq
device_login_example =
    device_login decimal decimal [] 1234 1000 2000 [] (omega arith) refl refl (omega arith)
