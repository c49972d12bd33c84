-- ===== src/Host/Auth/Completes.antt =====
-- crates/executor-host/src/auth.rs: the size of the table, and a login from its code to its token.
use zoen_gateway.Prelude.{
  ℕ, suc, ◌+◌, ◌%◌, ◌≤◌, ◌<◌, ◌≡◌, refl, inl, inr, Bool, true, false, not, Option, none, some, List,
  [], ◌∷◌, ◌++◌, arith, ltb, Bool-cases, length, all,
}
use zoen_gateway.Prelude.Text.{Text, text_eq, text_eq_iff, text_eq_refl, ascii}
use zoen_gateway.Prelude.Map.{text_key, lookup, insert, retain, lookup-insert_self}
use zoen_gateway.Host.Auth.{
  DeviceGrant, Grants, max_grants, grant_ttl, drop_smallest, prune, new_grant, device_code,
  TokenReply, is_device_grant, exec_token, token_if, device_token, approve, behind, approve_first,
  approval_reply, device_approve,
}
use zoen_gateway.Host.Auth.Logins.{Event, grants_after}

drop_smallest-length : (m : Grants) → length (drop_smallest m) ≤ max_grants
unfolding drop_smallest
drop_smallest-length [] = omega arith
drop_smallest-length (x ∷ m) = ground (arith, drop_smallest-length m)

prune-length : (now : ℕ) (m : Grants) → length (prune now m) ≤ max_grants
unfolding prune
prune-length now m = drop_smallest-length (retain (λ _ g. ltb now g.expires) m)

insert-length : (k : Text) (g : DeviceGrant) (m : Grants) → length (insert k g m) ≤ suc (length m)
unfolding insert
insert-length k g [] = omega arith
insert-length k g ((j, w) ∷ m) = ground (arith, insert-length k g m)

abbrev HasLength : ℕ → Option Grants → Type 0
HasLength n none = Unit
HasLength n (some m) = length m ≡ n

behind-HasLength :
    (n : ℕ) (k : Text) (g : DeviceGrant) (r : Option Grants)
    → HasLength n r
    → HasLength (suc n) (behind k g r)
behind-HasLength n k g none h = tt
behind-HasLength n k g (some m) h = omega arith

approve_first-HasLength :
    (user_code : Text) (m : Grants) → HasLength (length m) (approve_first user_code m)
unfolding approve_first
approve_first-HasLength user_code [] = tt
approve_first-HasLength user_code ((k, g) ∷ m) = elim (Bool-cases (text_eq g.user_code user_code)) [
  | inl at ↦ rw at refl
  | inr past ↦ rw past (
      behind-HasLength (length m) k g (approve_first user_code m)
        (approve_first-HasLength user_code m))
]

approval_reply-length :
    (r : Option Grants) (m : Grants)
    → HasLength (length m) r
    → length (approval_reply r m).1 ≡ length m
approval_reply-length none m h = refl
approval_reply-length (some n) m h = h

token_if-length :
    (b : Bool) (device : Text) (m n : Grants) (k : ℕ)
    → length m ≤ k
    → length n ≤ k
    → length (token_if b device m n).1 ≤ k
unfolding token_if
token_if-length true device m n k h l = h
token_if-length false device m n k h l = l

module _ (lower upper : ℕ → Text) where
  -- However many codes are asked for, the table holds at most one grant more than its limit.
  pub grants_after-length :
      (log : List Event) → length (grants_after lower upper log) ≤ max_grants + 1
  unfolding grants_after device_code device_token device_approve
  grants_after-length [] = omega arith
  grants_after-length (Event.code ms now ∷ log) = omega (
    arith,
    insert-length (ascii "dev_" ++ lower ms) (new_grant (upper (ms % 0xFFFFFFFF)) now)
        (prune now (grants_after lower upper log)),
    prune-length now (grants_after lower upper log),
  )
  grants_after-length (Event.token grant_type device now ∷ log) =
      let table = grants_after lower upper log in
      let pruned : length (prune now table) ≤ max_grants + 1 =
        omega (arith, prune-length now table) in
      token_if-length (is_device_grant grant_type) device (prune now table) table (max_grants + 1)
        pruned (grants_after-length log)
  grants_after-length (Event.approval user_code ∷ log) = omega (
    arith,
    grants_after-length log,
    approval_reply-length (approve_first user_code (grants_after lower upper log))
        (grants_after lower upper log)
        (approve_first-HasLength user_code (grants_after lower upper log)),
  )

-- No grant has the user code.
abbrev pub is_new_code : Text → Grants → Bool
is_new_code user_code m = all (λ x. not (text_eq x.1.user_code user_code)) m

approve_first-insert :
    (k : Text) (g : DeviceGrant) (m : Grants)
    → is_new_code g.user_code m ≡ true
    → approve_first g.user_code (insert k g m) ≡ some (insert k (approve g) m)
unfolding approve_first insert
approve_first-insert k g [] h = ground (arith, text_eq_refl g.user_code)
approve_first-insert k g ((j, w) ∷ m) h =
    ground (arith, text_eq_refl g.user_code, approve_first-insert k g m)

lookup-retain :
    (p : Text → DeviceGrant → Bool) (k : Text) (g : DeviceGrant) (m : Grants)
    → lookup k m ≡ some g
    → p k g ≡ true
    → lookup k (retain p m) ≡ some g
unfolding lookup retain
lookup-retain p k g [] h e = h
lookup-retain p k g ((j, w) ∷ m) h e = ground (arith, lookup-retain p k g m, text_eq_iff j k)

retain-length : (p : Text → DeviceGrant → Bool) (m : Grants) → length (retain p m) ≤ length m
unfolding retain
retain-length p [] = omega arith
retain-length p ((j, w) ∷ m) = ground (arith, retain-length p m)

drop_smallest_all : (m : Grants) → length m ≤ max_grants → drop_smallest m ≡ m
unfolding drop_smallest
drop_smallest_all [] h = refl
drop_smallest_all (x ∷ m) h = ground arith

-- A login that is approved in time gets its token. A code is asked for where the table has room and
-- no other grant has the same user code; the user code is then approved, and the approval is
-- accepted; and the device, asking before the five minutes are over, receives `exec_` with the user
-- code.
pub device_login :
    (lower upper : ℕ → Text) (grants : Grants) (ms now later : ℕ) (grant_type : Text)
    → let ((device, user_code), issued) = device_code lower upper ms now grants in
      length (prune now grants) < max_grants
      → is_new_code user_code (prune now grants) ≡ true
      → is_device_grant grant_type ≡ true
      → later < now + grant_ttl
      → ((device_approve user_code issued).0 ≡ true)
        × ((device_token grant_type device later (device_approve user_code issued).1).0
            ≡ TokenReply.token (exec_token user_code))
unfolding device_code device_approve device_token
device_login lower upper grants ms now later grant_type room fresh right soon =
    let table = prune now grants in
    let device = ascii "dev_" ++ lower ms in
    let g = new_grant (upper (ms % 0xFFFFFFFF)) now in
    let valid = λ (k : Text) (g : DeviceGrant). ltb later g.expires in
    let after = insert device (approve g) table in
    let approved = approve_first-insert device g table fresh in
    let size : length (retain valid after) ≤ max_grants =
      omega (arith, retain-length valid after, insert-length device (approve g) table) in
    let kept : lookup device (retain valid after) ≡ some (approve g) =
      lookup-retain valid device (approve g) after (lookup-insert_self device (approve g) table)
        (ground arith) in
    let found : lookup device (prune later after) ≡ some (approve g) =
      unfold prune in rw (drop_smallest_all (retain valid after) size) kept in
    rw (approved, right) (refl, rw found refl)
