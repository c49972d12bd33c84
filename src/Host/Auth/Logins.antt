-- ===== src/Host/Auth/Logins.antt =====
-- crates/executor-host/src/auth.rs: sequences of requests to the device login.
use zoen_gateway.Prelude.{
  ℕ, ◌+◌, ◌%◌, ◌<◌, ◌≡◌, refl, sym, ap, ◌∙◌, subst, ◌⊎◌, inl, inr, Bool, true, false, Option, none,
  some, List, [], ◌∷◌, ◌++◌, arith, ltb, if◌then◌else◌, Bool-cases, unwrap_or, length, All, In,
}
use zoen_gateway.Prelude.Text.{Text, text_eq, text_eq_iff, ascii, text_lt}
use zoen_gateway.Prelude.Map.{text_key, lookup, insert, retain}
use zoen_gateway.Host.Auth.{
  token_if, DeviceGrant, Grants, max_grants, grant_ttl, drop_smallest, prune, device_code,
  TokenReply, is_device_grant, exec_token, reply_of, device_token, approve, behind, approve_first,
  approval_reply, device_approve,
}

-- A request, with the clock's milliseconds for the code and the time of the expiry clock.
pub data Event : Type 0 where
  code : ℕ → ℕ → Event
  token : Text → Text → ℕ → Event
  approval : Text → Event

-- An approval of the user code, later than an event. The latest event stands first.
abbrev pub ApprovedAfter : Text → Event → List Event → Type 0
ApprovedAfter user_code e [] = ⊥
ApprovedAfter user_code e (f ∷ log) =
    ((f ≡ Event.approval user_code) × In e log) ⊎ ApprovedAfter user_code e log

module _ (lower upper : ℕ → Text) where
  unfoldable pub apply : Event → Grants → Grants
  unfolding device_code device_token device_approve
  apply (Event.code ms now) grants = (device_code lower upper ms now grants).1
  apply (Event.token grant_type device now) grants = (device_token grant_type device now grants).1
  apply (Event.approval user_code) grants = (device_approve user_code grants).1

  -- The table after the events, from the empty one.
  unfoldable pub grants_after : List Event → Grants
  unfolding apply
  grants_after [] = []
  grants_after (e ∷ log) = apply e (grants_after log)

  abbrev pub user_code_of : ℕ → Text
  user_code_of ms = upper (ms % 0xFFFFFFFF)

  -- What the log says of a grant.
  abbrev Granted : List Event → Text × DeviceGrant → Type 0
  Granted log (k, g) =
      (ms : ℕ) × (now : ℕ) × In (Event.code ms now) log
      × (k ≡ ascii "dev_" ++ lower ms)
      × (g.user_code ≡ user_code_of ms)
      × (g.expires ≡ now + grant_ttl)
      × ((g.approved ≡ false) ⊎ ApprovedAfter (user_code_of ms) (Event.code ms now) log)
      × ((g.access_token ≡ none) ⊎ (g.access_token ≡ some (exec_token (user_code_of ms))))

  Granted-cons :
      (e : Event) (log : List Event) (x : Text × DeviceGrant) → Granted log x → Granted (e ∷ log) x
  Granted-cons e log (k, g) (ms, now, i, c, u, x, inl a, t) = (ms, now, inr i, c, u, x, inl a, t)
  Granted-cons e log (k, g) (ms, now, i, c, u, x, inr a, t) =
      (ms, now, inr i, c, u, x, inr (inr a), t)

module _ (P : Text × DeviceGrant → Type 0) where
  All-retain : (p : Text → DeviceGrant → Bool) (m : Grants) → All P m → All P (retain p m)
  unfolding retain
  All-retain p [] h = tt
  All-retain p ((k, g) ∷ m) (h, hs) = elim (Bool-cases (p k g)) [
    | inl e ↦ rw e (h, All-retain p m hs)
    | inr e ↦ rw e (All-retain p m hs)
  ]

  All-drop_smallest : (m : Grants) → All P m → All P (drop_smallest m)
  unfolding drop_smallest
  All-drop_smallest [] h = tt
  All-drop_smallest (x ∷ m) (h, hs) = elim (Bool-cases (ltb max_grants (length (x ∷ m)))) [
    | inl e ↦ rw e (All-drop_smallest m hs)
    | inr e ↦ rw e (h, hs)
  ]

  All-prune : (now : ℕ) (m : Grants) → All P m → All P (prune now m)
  unfolding prune
  All-prune now m h =
      All-drop_smallest (retain (λ _ g. ltb now g.expires) m)
        (All-retain (λ _ g. ltb now g.expires) m h)

  All-if : (b : Bool) (m n : Grants) → All P m → All P n → All P (if b then m else n)
  All-if true m n h k = h
  All-if false m n h k = k

  All-insert : (k : Text) (g : DeviceGrant) (m : Grants) → P (k, g) → All P m → All P (insert k g m)
  unfolding insert
  All-insert k g [] h hs = (h, tt)
  All-insert k g ((j, w) ∷ m) h (a, hs) =
      All-if (text_eq j k) _ _ (h, hs)
        (All-if (text_lt k j) _ _ (h, (a, hs)) (a, All-insert k g m h hs))

  All-lookup : (k : Text) (g : DeviceGrant) (m : Grants) → lookup k m ≡ some g → All P m → P (k, g)
  unfolding lookup
  All-lookup k g [] e hs = cc
  All-lookup k g ((j, w) ∷ m) e (a, hs) = elim (Bool-cases (text_eq j k)) [
    | inl at ↦
        let same : j ≡ k = (text_eq_iff j k).0 at in
        let found : w ≡ g = ground (arith, e) in subst P (λ i. (same i, found i)) a
    | inr past ↦ All-lookup k g m (rw past at e) hs
  ]

All-map :
    {P Q : Text × DeviceGrant → Type 0} (m : Grants)
    → ((x : Text × DeviceGrant) → P x → Q x)
    → All P m
    → All Q m
All-map [] f h = tt
All-map (x ∷ m) f (h, hs) = (f x h, All-map m f hs)

module _ (P : Text × DeviceGrant → Type 0) where
  All-token_if :
      (b : Bool) (device : Text) (m n : Grants)
      → All P m
      → All P n
      → All P (token_if b device m n).1
  unfolding token_if
  All-token_if true device m n h k = h
  All-token_if false device m n h k = k

-- A token is the answer for an approved grant only.
reply_of-token :
    (o : Option DeviceGrant) (t : Text)
    → reply_of o ≡ TokenReply.token t
    → (g : DeviceGrant) × (o ≡ some g)
      × (g.approved ≡ true)
      × (unwrap_or g.access_token (exec_token g.user_code) ≡ t)
unfolding reply_of
reply_of-token none t h = cc
reply_of-token (some g) t h = (g, refl, ground arith, ground arith)

token_if-token :
    (b : Bool) (device : Text) (m n : Grants) (t : Text)
    → (token_if b device m n).0 ≡ TokenReply.token t
    → (g : DeviceGrant) × (lookup device m ≡ some g)
      × (g.approved ≡ true)
      × (unwrap_or g.access_token (exec_token g.user_code) ≡ t)
unfolding token_if
token_if-token true device m n t h = reply_of-token (lookup device m) t h
token_if-token false device m n t h = cc

-- What pruning leaves has not expired.
retain-fresh :
    (now : ℕ) (m : Grants)
    → All (λ x. ltb now x.1.expires ≡ true) (retain (λ _ g. ltb now g.expires) m)
unfolding retain
retain-fresh now [] = tt
retain-fresh now ((k, g) ∷ m) = elim (Bool-cases (ltb now g.expires)) [
  | inl e ↦ rw e (e, retain-fresh now m)
  | inr e ↦ rw e (retain-fresh now m)
]

prune-fresh : (now : ℕ) (m : Grants) → All (λ x. ltb now x.1.expires ≡ true) (prune now m)
unfolding prune
prune-fresh now m = All-drop_smallest _ (retain (λ _ g. ltb now g.expires) m) (retain-fresh now m)

module _ (P Q : Text × DeviceGrant → Type 0) where
  abbrev IfSome : Option Grants → Type 0
  IfSome none = Unit
  IfSome (some m) = All Q m

  IfSome-behind :
      (k : Text) (g : DeviceGrant) (r : Option Grants) → Q (k, g) → IfSome r → IfSome (behind k g r)
  IfSome-behind k g none h hs = tt
  IfSome-behind k g (some m) h hs = (h, hs)

  All-approval_reply :
      (r : Option Grants) (m : Grants) → IfSome r → All Q m → All Q (approval_reply r m).1
  All-approval_reply none m h hs = hs
  All-approval_reply (some n) m h hs = h

  -- The first grant with a user code is approved, the others stay.
  IfSome-approve_first :
      (user_code : Text) (m : Grants)
      → ((k : Text) (g : DeviceGrant) → g.user_code ≡ user_code → P (k, g) → Q (k, approve g))
      → ((x : Text × DeviceGrant) → P x → Q x)
      → All P m
      → IfSome (approve_first user_code m)
  unfolding approve_first
  IfSome-approve_first user_code [] f keep h = tt
  IfSome-approve_first user_code ((k, g) ∷ m) f keep (h, hs) =
      elim (Bool-cases (text_eq g.user_code user_code)) [
        | inl at ↦ rw at (f k g ((text_eq_iff g.user_code user_code).0 at) h, All-map m keep hs)
        | inr past ↦ rw past (
            IfSome-behind k g (approve_first user_code m) (keep (k, g) h)
              (IfSome-approve_first user_code m f keep hs))
      ]

module _ (lower upper : ℕ → Text) where
  Granted-approve :
      (log : List Event) (user_code k : Text) (g : DeviceGrant)
      → g.user_code ≡ user_code
      → Granted lower upper log (k, g)
      → Granted lower upper (Event.approval user_code ∷ log) (k, approve g)
  Granted-approve log user_code k g e (ms, now, i, c, u, x, a, t) =
      let same : user_code_of lower upper ms ≡ user_code = sym u ∙ e in
      (
        ms,
        now,
        inr i,
        c,
        u,
        x,
        inr (inl (ap Event.approval (sym same), i)),
        inr (ap (λ s. some (exec_token s)) u),
      )

  All-Granted : (log : List Event) → All (Granted lower upper log) (grants_after lower upper log)
  unfolding grants_after device_code device_token device_approve
  All-Granted [] = tt
  All-Granted (Event.code ms now ∷ log) =
      let e = Event.code ms now in
      All-insert (Granted lower upper (e ∷ log)) _ _ _
        (ms, now, inl refl, refl, refl, refl, inl refl, inl refl)
        (All-prune _ now _ (All-map _ (Granted-cons lower upper e log) (All-Granted log)))
  All-Granted (Event.token grant_type device now ∷ log) =
      let e = Event.token grant_type device now in
      let before = All-map _ (Granted-cons lower upper e log) (All-Granted log) in
      All-token_if (Granted lower upper (e ∷ log)) (is_device_grant grant_type) device _ _
        (All-prune (Granted lower upper (e ∷ log)) now _ before) before
  All-Granted (Event.approval user_code ∷ log) =
      let e = Event.approval user_code in
      All-approval_reply (Granted lower upper log) (Granted lower upper (e ∷ log)) _ _
        (IfSome-approve_first (Granted lower upper log) (Granted lower upper (e ∷ log)) user_code _
          (Granted-approve log user_code) (Granted-cons lower upper e log) (All-Granted log))
        (All-map _ (Granted-cons lower upper e log) (All-Granted log))

  token_of :
      (kept : Option Text) (u v t : Text)
      → u ≡ v
      → (kept ≡ none) ⊎ (kept ≡ some (exec_token v))
      → unwrap_or kept (exec_token u) ≡ t
      → t ≡ exec_token v
  token_of kept u v t e (inl k) h = sym (rw k at h) ∙ ap exec_token e
  token_of kept u v t e (inr k) h = sym (rw k at h)

  approval_of : (b : Bool) (A : Type 0) → b ≡ true → (b ≡ false) ⊎ A → A
  approval_of b A h (inl e) = absurd (ground arith)
  approval_of b A h (inr a) = a

  -- What a token is given for: in every table that requests lead to, a token for a device code is
  -- answered only where that code was issued less than five minutes before, and its user code was
  -- approved after that; the token is `exec_` and the user code.
  pub device_token-approved :
      (log : List Event) (grant_type device : Text) (now : ℕ) (t : Text)
      → (device_token grant_type device now (grants_after lower upper log)).0 ≡ TokenReply.token t
      → (ms : ℕ) × (issued : ℕ) × (device ≡ ascii "dev_" ++ lower ms)
        × (t ≡ exec_token (user_code_of lower upper ms))
        × (now < issued + grant_ttl)
        × ApprovedAfter (user_code_of lower upper ms) (Event.code ms issued) log
  unfolding device_token
  device_token-approved log grant_type device now t h =
      let table = grants_after lower upper log in
      let (g, found, approved, reply) =
        token_if-token (is_device_grant grant_type) device (prune now table) table t h in
      let fresh =
        All-lookup (λ x. ltb now x.1.expires ≡ true) device g (prune now table) found
          (prune-fresh now table) in
      let (ms, issued, i, c, u, x, a, kept) =
        All-lookup (Granted lower upper log) device g (prune now table) found
          (All-prune (Granted lower upper log) now table (All-Granted log)) in
      (
        ms,
        issued,
        c,
        token_of g.access_token g.user_code _ t u kept reply,
        ground (arith, fresh, x),
        approval_of g.approved _ approved a,
      )
