-- ===== src/Codemode/Lex/Ends.antt =====
-- crates/executor-codemode/src/lex.rs: the main loop ends, since every round reads a character.
use zoen_gateway.Prelude.{
  ℕ, zero, suc, ◌≤◌, ◌<◌, Bool, true, false, not, Option, none, some, List, [], ◌∷◌, arith, ◌==◌,
  if◌then◌else◌, length,
}
use zoen_gateway.Prelude.Text.{Text}
use zoen_gateway.Prelude.Effect.{Result, ok, err}
use zoen_gateway.Codemode.Lex.{
  one_of, string, number, ident, after_token, push_token, as_string, push_char, skip_line,
  drop_while, one, string_body, tokenize, tokenize_from, unescape, Lexed,
}
use zoen_gateway.Codemode.Token.{Token}
use zoen_gateway.Codemode.Error.{CodeError, IsMessage, Ends}

-- At most `n` characters are left.
abbrev Leaves : {A : Type 0} → ℕ → Result CodeError (A × Text) → Type 0
Leaves n (ok (a, rest)) = length rest ≤ n
Leaves n (err e) = IsMessage e

drop_while-length : (p : ℕ → Bool) (cs : Text) → length (drop_while p cs) ≤ length cs
unfolding drop_while
drop_while-length p [] = omega arith
drop_while-length p (c ∷ cs) = ground (arith, drop_while-length p cs)

push_char-Leaves :
    (n c : ℕ) (r : Result CodeError (Text × Text)) → Leaves n r → Leaves (suc n) (push_char c r)
push_char-Leaves n c (ok (s, rest)) h = omega arith
push_char-Leaves n c (err e) h = h

Leaves-if :
    {A : Type 0} (n : ℕ) (b : Bool) (r s : Result CodeError (A × Text))
    → Leaves n r
    → Leaves n s
    → Leaves n (if b then r else s)
Leaves-if n true r s h k = h
Leaves-if n false r s h k = k

Leaves-mono :
    {A : Type 0} (m n : ℕ) (r : Result CodeError (A × Text)) → Leaves m r → m ≤ n → Leaves n r
Leaves-mono m n (ok (a, rest)) h l = omega arith
Leaves-mono m n (err e) h l = h

string_body-Leaves : (cs : Text) → Leaves (length cs) (string_body cs)
unfolding string_body
string_body-Leaves [] = tt
string_body-Leaves (c ∷ []) = search (Leaves-if, arith)
string_body-Leaves (c ∷ d ∷ cs) =
    let escaped : Leaves (suc (suc (length cs))) (push_char (unescape d) (string_body cs)) =
      Leaves-mono _ _ _ (push_char-Leaves _ (unescape d) _ (string_body-Leaves cs)) (omega arith) in
    search (Leaves-if, escaped, push_char-Leaves, string_body-Leaves (d ∷ cs), arith)

as_string-Leaves :
    (n : ℕ) (r : Result CodeError (Text × Text)) → Leaves n r → Leaves n (as_string r)
as_string-Leaves n (ok (s, rest)) h = h
as_string-Leaves n (err e) h = h

one_of-Leaves : (t : Option Token) (c : ℕ) (cs : Text) → Leaves (length cs) (one_of t c cs)
unfolding one_of string number ident
one_of-Leaves (some t) c cs = omega arith
one_of-Leaves none c cs =
    search (Leaves-if, as_string-Leaves, string_body-Leaves, drop_while-length, arith)

push_token-Ends : (t : Token) (r : Result CodeError (List Token)) → Ends r → Ends (push_token t r)
push_token-Ends t (ok ts) h = tt
push_token-Ends t (err e) h = h

Ends-if :
    {A : Type 0} (b : Bool) (r s : Result CodeError A) → Ends r → Ends s → Ends (if b then r else s)
Ends-if true r s h k = h
Ends-if false r s h k = k

skip_line-length : (cs : Text) → length (skip_line cs) ≤ length cs
skip_line-length [] = drop_while-length _ []
skip_line-length (c ∷ cs) = omega (arith, drop_while-length (λ c. not (c == 10)) cs)

after_token-Ends :
    (n : ℕ) (more : Text → Result CodeError (List Token)) (r : Lexed)
    → Leaves n r
    → ((rest : Text) → length rest ≤ n → Ends (more rest))
    → Ends (after_token more r)
after_token-Ends n more (ok (t, rest)) h k = push_token-Ends t (more rest) (k rest h)
after_token-Ends n more (err e) h k = h

tokenize_from-Ends : (fuel : ℕ) (cs : Text) → length cs < fuel → Ends (tokenize_from fuel cs)
unfolding tokenize_from one
tokenize_from-Ends zero cs h = absurd (omega arith)
tokenize_from-Ends (suc fuel) [] h = tt
tokenize_from-Ends (suc fuel) (c ∷ cs) h =
    let comment = tokenize_from-Ends fuel (skip_line cs) (omega (arith, skip_line-length cs)) in
    let token =
      after_token-Ends (length cs) (tokenize_from fuel) (one c cs) (one_of-Leaves _ c cs)
        λ rest k. tokenize_from-Ends fuel rest (omega arith) in
    search (Ends-if, tokenize_from-Ends fuel cs (omega arith), comment, token)

pub tokenize-Ends : (cs : Text) → Ends (tokenize cs)
unfolding tokenize
tokenize-Ends cs = tokenize_from-Ends (suc (length cs)) cs (omega arith)
