-- ===== src/Host/Guard/Laws.antt =====
-- What the gate lets through.
use zoen_gateway.Prelude.{
  true, Option, none, some, List, ◌≡◌, refl, ◌&&◌, Bool-cases, ap, ◌⊎◌, inl, inr, arith,
}
use zoen_gateway.Prelude.Text.{Text, text_eq_iff}
use zoen_gateway.Host.Guard.{
  is_public, lets_in, Method, options, get_method, other_method, Request, is_spa_path,
  request_token, passed_on, with_cors, is_get, presents, gate,
}

Method-cases : (m : Method) → (m ≡ options) ⊎ ((m ≡ get_method) ⊎ (m ≡ other_method))
Method-cases options = inl refl
Method-cases get_method = inr (inl refl)
Method-cases other_method = inr (inr refl)

get_of : (m : Method) → is_get m ≡ true → m ≡ get_method
get_of options h = ground arith
get_of get_method h = refl
get_of other_method h = ground arith

presented :
    (expected : Text) (token : Option Text) → presents expected token ≡ true → token ≡ some expected
presented expected none h = ground arith
presented expected (some token) h = ap some ((text_eq_iff token expected).0 h)

admitted :
    (expected : Text) (r : Request)
    → lets_in (some expected) r ≡ true
    → (is_public r.path ≡ true)
      ⊎ (((r.method ≡ get_method) × (is_spa_path r.path ≡ true))
          ⊎ (request_token r ≡ some expected))
admitted expected r h = elim (Bool-cases (is_public r.path)) [
  | inl public ↦ inl public
  | inr private ↦ elim (Bool-cases (is_get r.method && is_spa_path r.path)) [
    | inl reads ↦ inr (inl (ground (arith, reads, get_of r.method), ground (arith, reads)))
    | inr acts ↦ inr (inr (presented expected (request_token r) (ground (arith, h, private, acts))))
  ]
]

-- Where the daemon has a token, a request that the gate passes on has a public path, or reads a path of
-- the console, or presents exactly that token.
pub gate-token :
    (allowed : List Text) (expected : Text) (r : Request)
    → (gate allowed (some expected) r).answer ≡ passed_on
    → (is_public r.path ≡ true)
      ⊎ (((r.method ≡ get_method) × (is_spa_path r.path ≡ true))
          ⊎ (request_token r ≡ some expected))
unfolding gate with_cors
gate-token allowed expected r passed = admitted expected r (elim (Method-cases r.method) [
  | inl preflight ↦ ground (arith, passed, preflight)
  | inr (inl reads) ↦ ground (arith, passed, reads)
  | inr (inr writes) ↦ ground (arith, passed, writes)
])
