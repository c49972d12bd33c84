-- ===== src/Core/Challenge/Rounds.antt =====
-- The rounds that `parse_challenges` has are enough: every round takes a byte.
use zoen_gateway.Prelude.{
  ◌∙◌, sym, ℕ, zero, suc, ◌+◌, ◌≤◌, ◌≡◌, refl, inl, inr, Bool, true, false, not, ◌&&◌, ◌||◌, Option,
  none, some, List, [], ◌∷◌, arith, ◌==◌, if◌then◌else◌, Bool-cases, and_then, length,
}
use zoen_gateway.Prelude.Text.{Text}
use mathlib.Core.List.{reverse}
use zoen_gateway.Core.Challenge.{
  Ending, returned, endless, next_round, AuthChallenge, Parser, State, span, read_quoted, unquoted,
  read_param_value, put_param, after_equals, take_auth_param, take_token68_padding, take_bare_word,
  consume_token, round, at_byte, run, new, parse_challenges, is_space, is_word_byte, is_blank,
  is_stop, to_ascii_lowercase, is_http_token, is_token_state, is_scheme, is_params, is_token68,
  is_padding_run, peek_equals_after_bws,
}

-- What is left is no longer than a bound.
Within {ℓ} : {A : Type ℓ} → ℕ → Option (Text × A) → Type 0
Within k none = Unit
Within k (some x) = length x.0 ≤ k

Within-none {ℓ} : (A : Type ℓ) (k : ℕ) → Within {A = A} k none
unfolding Within
Within-none A k = tt

Within-some {ℓ} : {A : Type ℓ} (k : ℕ) (x : Text × A) → length x.0 ≤ k → Within k (some x)
unfolding Within
Within-some k x h = h

Within-if {ℓ} :
    {A : Type ℓ} (k : ℕ) (b : Bool) (x y : Option (Text × A))
    → Within k x
    → Within k y
    → Within k (if b then x else y)
Within-if k true x y h l = h
Within-if k false x y h l = l

Within-and_then {ℓ κ} :
    {A : Type ℓ} {B : Type κ} (k : ℕ) (o : Option A) (f : A → Option (Text × B))
    → ((a : A) → Within k (f a))
    → Within k (and_then o f)
Within-and_then k none f h = Within-none _ k
Within-and_then k (some a) f h = h a

Within-weak {ℓ} : {A : Type ℓ} (k j : ℕ) (o : Option (Text × A)) → j ≤ k → Within j o → Within k o
unfolding Within
Within-weak k j none l h = tt
Within-weak k j (some x) l h = omega arith

span-length : (p : ℕ → Bool) (s : Text) → length (span p s).1 ≤ length s
unfolding span
span-length p [] = omega arith
span-length p (b ∷ s) = ground (arith, span-length p s)

span-first : (p : ℕ → Bool) (b : ℕ) (s : Text) → p b ≡ true → length (span p (b ∷ s)).1 ≤ length s
unfolding span
span-first p b s h = rw h (span-length p s)

-- The quoted text on one side, the bytes left on the other.
Leaves : ℕ → Option (Text × Text) → Type 0
Leaves k none = Unit
Leaves k (some x) = length x.1 ≤ k

Leaves-none : (k : ℕ) → Leaves k none
unfolding Leaves
Leaves-none k = tt

Leaves-some : (k : ℕ) (x : Text × Text) → length x.1 ≤ k → Leaves k (some x)
unfolding Leaves
Leaves-some k x h = h

Leaves-push :
    (b : ℕ) (k j : ℕ) (o : Option (Text × Text))
    → j ≤ k
    → Leaves j o
    → Leaves k (zoen_gateway.Core.Challenge.push_first b o)
unfolding Leaves
Leaves-push b k j none l h = tt
Leaves-push b k j (some x) l h = omega arith

Leaves-if :
    (k : ℕ) (b : Bool) (x y : Option (Text × Text))
    → Leaves k x
    → Leaves k y
    → Leaves k (if b then x else y)
Leaves-if k true x y h l = h
Leaves-if k false x y h l = l

read_quoted-length : (s : Text) → Leaves (length s) (read_quoted s)
unfolding read_quoted
read_quoted-length [] = Leaves-none 0
read_quoted-length (ch ∷ []) =
    Leaves-if 1 (ch == b'"') _ _ (Leaves-some _ _ (omega arith)) (Leaves-none _)
read_quoted-length (ch ∷ next ∷ s) =
    Leaves-if _ (ch == b'"') _ _ (Leaves-if _ _ _ _ (Leaves-some _ _ (omega arith)) (Leaves-none _))
      (Leaves-if _ (ch == 92) _ _
        (Leaves-push next _ (length s) (read_quoted s) (omega arith) (read_quoted-length s))
        (Leaves-push ch _ (length (next ∷ s)) (read_quoted (next ∷ s)) (omega arith)
          (read_quoted-length (next ∷ s))))

Leaves-weak : (k j : ℕ) (o : Option (Text × Text)) → j ≤ k → Leaves j o → Leaves k o
unfolding Leaves
Leaves-weak k j none l h = tt
Leaves-weak k j (some x) l h = omega arith

unquoted-length :
    (name : Text) (x : Text × Text) (k : ℕ) → length x.1 ≤ k → Leaves k (unquoted name x)
unfolding unquoted
unquoted-length name (value, rest) k h = Leaves-if k _ _ _ (Leaves-some _ _ h) (Leaves-none _)

read_param_value-length : (name s : Text) → Leaves (length s) (read_param_value name s)
unfolding read_param_value
read_param_value-length name [] = Leaves-none _
read_param_value-length name (b ∷ s) =
    Leaves-if _ (b == b'"') _ _
      (Leaves-weak _ _ (read_quoted s) (omega arith) (read_quoted-length s))
      (unquoted-length name _ (length (b ∷ s)) (span-length (λ c. not (is_stop c)) (b ∷ s)))

after_equals-length : (word s : Text) (p : Parser) → Within (length s) (after_equals word s p)
unfolding after_equals Leaves
after_equals-length word s p = kept (read_param_value word s) (read_param_value-length word s)
  where
    leaves : (x : Text × Text) → Leaves (length s) (some x) → length x.1 ≤ length s
    leaves x h = h

    kept :
        (o : Option (Text × Text))
        → Leaves (length s) o
        → Within {A = Parser} (length s) (
            and_then o (λ x.
              and_then (put_param (to_ascii_lowercase word) x.0 p.challenges) (λ challenges. some (
                x.1,
                record { challenges = challenges; state = State.params; saw_comma = false },
              ))))
    kept none h = Within-none _ _
    kept (some x) h =
        Within-and_then _ (put_param (to_ascii_lowercase word) x.0 p.challenges) _
          (λ c. Within-some _ _ (leaves x h))

at_equals-length :
    (k : ℕ) (word : Text) (p : Parser) (t : Text)
    → length t ≤ k
    → Within k (zoen_gateway.Core.Challenge.at_equals word p t)
unfolding zoen_gateway.Core.Challenge.at_equals
at_equals-length k word p [] h = Within-none _ _
at_equals-length k word p (b ∷ t) h =
    Within-if k (b == b'=') _ _
      (Within-weak k (length (span is_blank t).1) (after_equals word (span is_blank t).1 p)
        (omega (arith, span-length is_blank t)) (after_equals-length word (span is_blank t).1 p))
      (Within-none _ _)

take_auth_param-length : (word s : Text) (p : Parser) → Within (length s) (take_auth_param word s p)
unfolding take_auth_param
take_auth_param-length word s p =
    Within-if _ (not (is_http_token word) || length p.challenges == 0) _ _ (Within-none _ _) (
      Within-if _ (is_token_state p.state) _ _ (Within-none _ _) (
        Within-if _ (is_scheme p.state && p.saw_comma) _ _ (Within-none _ _) (
          Within-if _ (is_params p.state && not p.saw_comma) _ _ (Within-none _ _)
            (at_equals-length _ word p (span is_blank s).1 (span-length is_blank s)))))

take_token68_padding-length :
    (word s : Text) (p : Parser) → Within (length s) (take_token68_padding word s p)
unfolding take_token68_padding
take_token68_padding-length word s p =
    Within-if _ (not (is_scheme p.state) || p.saw_comma) _ _ (Within-none _ _) (
      Within-if _ (is_token68 word) _ _ (Within-some _ _ (span-length (λ b. b == b'=') s))
        (Within-none _ _))

consume_token-length :
    (b : ℕ) (s : Text) (p : Parser)
    → is_word_byte b ≡ true
    → Within (length s) (consume_token (b ∷ s) p)
unfolding consume_token
consume_token-length b s p h =
    let word = (span is_word_byte (b ∷ s)).0 in
    let rest = (span is_word_byte (b ∷ s)).1 in
    let short : length rest ≤ length s = span-first is_word_byte b s h in
    Within-if _ (is_padding_run rest) _ _
      (Within-weak _ (length rest) (take_token68_padding word rest p) short
        (take_token68_padding-length word rest p))
      (Within-if _ (peek_equals_after_bws rest) _ _
        (Within-weak _ (length rest) (take_auth_param word rest p) short
          (take_auth_param-length word rest p))
        (Within-and_then _ (take_bare_word word p) _ (λ q. Within-some _ (rest, q) short)))

round-length : (b : ℕ) (s : Text) (p : Parser) → Within (length s) (round b s p)
unfolding round
round-length b s p = elim (Bool-cases (is_word_byte b)) [
  | inl word ↦ rw word (
      Within-if _ (b == b',') _ _ (Within-some _ _ (omega arith)) (consume_token-length b s p word))
  | inr other ↦
      rw other (Within-if _ (b == b',') _ _ (Within-some _ _ (omega arith)) (Within-none _ _))
]

-- The loop returns.
abbrev Returns : Ending → Type 0
Returns r = (challenges : Option (List AuthChallenge)) × (r ≡ returned challenges)

next_round-agree :
    (j : ℕ) (f g : Text → Parser → Ending) (o : Option (Text × Parser))
    → Within j o
    → ((r : Text) (q : Parser) → length r ≤ j → (f r q ≡ g r q) × Returns (f r q))
    → (next_round f o ≡ next_round g o) × Returns (next_round f o)
unfolding Within
next_round-agree j f g none h e = (refl, (none, refl))
next_round-agree j f g (some x) h e = e x.0 x.1 h

at_byte-agree :
    (f g : Text → Parser → Ending) (p : Parser) (t : Text)
    → ((r : Text) (q : Parser) → length r + 1 ≤ length t → (f r q ≡ g r q) × Returns (f r q))
    → (at_byte f p t ≡ at_byte g p t) × Returns (at_byte f p t)
unfolding at_byte
at_byte-agree f g p [] e = (refl, (some (reverse p.challenges), refl))
at_byte-agree f g p (b ∷ t) e =
    next_round-agree (length t) f g (round b t p) (round-length b t p)
      (λ r q h. e r q (omega arith))

run-run :
    (n m : ℕ) (s : Text) (p : Parser)
    → length s + 1 ≤ n
    → length s + 1 ≤ m
    → (run n s p ≡ run m s p) × Returns (run n s p)
unfolding run
run-run zero m s p h l = absurd (omega arith)
run-run (suc n) zero s p h l = absurd (omega arith)
run-run (suc n) (suc m) s p h l = at_byte-agree (run n) (run m) p (span is_space s).1 (λ r q e.
    run-run n m r q (omega (arith, span-length is_space s)) (omega (arith, span-length is_space s)))

-- The loop of `parse_challenges` comes to its end on every header, at the latest in one round for each
-- byte and one more: with these or more rounds it returns, and what it returns is the result of
-- `parse_challenges`.
pub run-parse_challenges :
    (header : Text) (rounds : ℕ)
    → length header + 1 ≤ rounds
    → run rounds header new ≡ returned (parse_challenges header)
unfolding parse_challenges
run-parse_challenges header rounds h =
    let (same, (challenges, ends)) =
      run-run (length header + 1) rounds header new (omega arith) h in
    sym same ∙ rw ends refl
