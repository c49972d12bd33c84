-- ===== src/Host/Auth.antt =====
-- crates/executor-host/src/auth.rs: the device login. The grants are held under one lock, so each
-- handler is one operation; times are milliseconds of a clock that does not go back.
use zoen_gateway.Prelude.{
  ℕ, zero, suc, ◌+◌, ◌-◌, ◌*◌, ◌/◌, ◌%◌, ◌^◌, ◌≤◌, ◌<◌, String, ◌≡◌, refl, sym, ap, ◌∙◌, subst, ◌≢◌,
  ◌↔◌, ◌⊎◌, inl, inr, Bool, true, false, not, ◌&&◌, ◌||◌, Option, none, some, List, [], ◌∷◌, ◌++◌,
  map, arith, ltb, leb, ◌==◌, if◌then◌else◌, ==_iff, Bool-cases, Option-cases, is_some, unwrap_or,
  and_then, or_else, length, get_elem?, take, drop, any, all, find_first, select, length-append,
  All, In, In-append,
}
use zoen_gateway.Prelude.Text.{
  Text, text_eq, text_eq_iff, text_eq_refl, ascii, text_lt, starts_with, has_byte, contains, split,
  strip_prefix,
}
use zoen_gateway.Prelude.Effect.{Result, ok, err, Result-cases}
pub mod Logins
pub mod Completes
use zoen_gateway.Prelude.Map.{Map, text_key, lookup, insert, retain, remove}

pub record DeviceGrant : Type 0 where
  pub user_code : Text
  pub approved : Bool
  pub expires : ℕ
  pub access_token : Option Text

abbrev pub Grants : Type 0
Grants = Map Text DeviceGrant

abbrev pub max_grants : ℕ
max_grants = 1024

abbrev pub grant_ttl : ℕ
grant_ttl = 300000

-- The loop over a table that is too long: the smallest keys go.
unfoldable pub drop_smallest : Grants → Grants
drop_smallest [] = []
drop_smallest (g ∷ grants) =
    let rest = drop_smallest grants in
    if ltb max_grants (length (g ∷ grants)) then rest else g ∷ grants

unfoldable pub prune : ℕ → Grants → Grants
unfolding drop_smallest retain
prune now grants = drop_smallest (retain (λ _ g. ltb now g.expires) grants)

-- `format!("{:x}")` and `format!("{:08X}")` are parameters: `lower` and `upper` write a number in
-- hexadecimal.
abbrev pub new_grant : Text → ℕ → DeviceGrant
new_grant user_code now = record {
  user_code = user_code;
  approved = false;
  expires = now + grant_ttl;
  access_token = none;
}

unfoldable pub device_code : (ℕ → Text) → (ℕ → Text) → ℕ → ℕ → Grants → (Text × Text) × Grants
unfolding prune insert
device_code lower upper ms now grants =
    let device_code = ascii "dev_" ++ lower ms in
    let user_code = upper (ms % 0xFFFFFFFF) in
    ((device_code, user_code), insert device_code (new_grant user_code now) (prune now grants))

-- The answers: a token, or an error with its code.
pub data TokenReply : Type 0 where
  token : Text → TokenReply
  unsupported_grant_type expired_token authorization_pending : TokenReply

abbrev pub is_device_grant : Text → Bool
is_device_grant grant_type =
    text_eq grant_type (ascii "urn:ietf:params:oauth:grant-type:device_code")
    || text_eq grant_type []
    || text_eq grant_type (ascii "device_code")

abbrev pub exec_token : Text → Text
exec_token user_code = ascii "exec_" ++ user_code

unfoldable pub reply_of : Option DeviceGrant → TokenReply
reply_of none = TokenReply.expired_token
reply_of (some g) =
    if g.approved
    then TokenReply.token (unwrap_or g.access_token (exec_token g.user_code))
    else TokenReply.authorization_pending

-- The answer for a right and for a wrong type of grant.
unfoldable pub token_if : Bool → Text → Grants → Grants → TokenReply × Grants
unfolding lookup reply_of
token_if true device_code pruned grants = (reply_of (lookup device_code pruned), pruned)
token_if false device_code pruned grants = (TokenReply.unsupported_grant_type, grants)

unfoldable pub device_token : Text → Text → ℕ → Grants → TokenReply × Grants
unfolding prune token_if
device_token grant_type device_code now grants =
    token_if (is_device_grant grant_type) device_code (prune now grants) grants

abbrev pub approve : DeviceGrant → DeviceGrant
approve g = record g { approved = true; access_token = some (exec_token g.user_code) }

abbrev pub behind : Text → DeviceGrant → Option Grants → Option Grants
behind k g none = none
behind k g (some rest) = some ((k, g) ∷ rest)

-- The first grant with the user code is approved; `none` where there is none.
unfoldable pub approve_first : Text → Grants → Option Grants
unfolding text_eq
approve_first user_code [] = none
approve_first user_code ((k, g) ∷ grants) =
    if text_eq g.user_code user_code
    then some ((k, approve g) ∷ grants)
    else behind k g (approve_first user_code grants)

-- Whether a grant was found, which is the answer `ok` or `unknown user_code`.
abbrev pub approval_reply : Option Grants → Grants → Bool × Grants
approval_reply none grants = (false, grants)
approval_reply (some approved) grants = (true, approved)

unfoldable pub device_approve : Text → Grants → Bool × Grants
unfolding approve_first
device_approve user_code grants = approval_reply (approve_first user_code grants) grants
