-- ===== src/Core/Challenge.antt =====
-- crates/executor-core/src/www_authenticate.rs: the parser of `WWW-Authenticate`. The bytes that are
-- left stand for the index into the header; the challenges are kept newest first.
pub mod Rounds
use zoen_gateway.Prelude.{
  ℕ, zero, suc, ◌+◌, ◌/◌, ◌%◌, Bool, true, false, not, ◌&&◌, ◌||◌, Option, none, some, List, [],
  ◌∷◌, map, ltb, ◌==◌, if◌then◌else◌, and_then, is_some, length, any, all,
}
use zoen_gateway.Prelude.Text.{Text, ascii, text_eq, has_byte}
use zoen_gateway.Prelude.Chars.{is_alphabetic, is_alphanumeric, to_lowercase}
use mathlib.Core.List.{reverse}
use zoen_gateway.Prelude.Map.{Map, text_key, lookup, insert}

pub record AuthChallenge : Type 0 where
  pub scheme : Text
  pub params : Map Text Text

pub data State : Type 0 where
  boundary scheme token68 params : State

abbrev pub is_scheme : State → Bool
is_scheme State.scheme = true
is_scheme _ = false

abbrev pub is_token_state : State → Bool
is_token_state State.token68 = true
is_token_state _ = false

abbrev pub is_params : State → Bool
is_params State.params = true
is_params _ = false

pub record Parser : Type 0 where
  pub challenges : List AuthChallenge
  pub state : State
  pub saw_comma : Bool

abbrev pub is_http_token_byte : ℕ → Bool
is_http_token_byte b = is_alphanumeric b || has_byte b (ascii "!#$%&'*+-.^_`|~")

abbrev pub is_word_byte : ℕ → Bool
is_word_byte b = is_http_token_byte b || b == b'/'

abbrev pub is_token68_byte : ℕ → Bool
is_token68_byte b = is_alphanumeric b || has_byte b (ascii "._~+/-")

abbrev pub is_http_token : Text → Bool
is_http_token word = not (text_eq word []) && all is_http_token_byte word

abbrev pub is_token68 : Text → Bool
is_token68 word = not (text_eq word []) && all is_token68_byte word

-- `u8::is_ascii_whitespace`
abbrev pub is_space : ℕ → Bool
is_space b = b == 32 || (b == 9 || (b == 10 || (b == 12 || b == 13)))

abbrev pub is_blank : ℕ → Bool
is_blank b = b == 32 || b == 9

-- What may follow a value: `' ' | '\t' | '\n' | '\r' | ','`.
abbrev pub is_stop : ℕ → Bool
is_stop b = is_blank b || (b == 10 || (b == 13 || b == b','))

-- The bytes up to the first that fails a test, and the others.
unfoldable pub span : (ℕ → Bool) → Text → Text × Text
span p [] = ([], [])
span p (b ∷ s) = let rest = span p s in if p b then (b ∷ rest.0, rest.1) else ([], b ∷ s)

abbrev pub to_ascii_lowercase : Text → Text
to_ascii_lowercase s = map to_lowercase s

starts_byte : ℕ → Text → Bool
starts_byte c [] = false
starts_byte c (b ∷ s) = b == c

ends_or : (ℕ → Bool) → Text → Bool
ends_or p [] = true
ends_or p (b ∷ s) = p b

peek_equals_after_bws : Text → Bool
unfolding span starts_byte
peek_equals_after_bws s = starts_byte b'=' (span is_blank s).1

is_padding_run : Text → Bool
unfolding span starts_byte ends_or
is_padding_run s =
    starts_byte b'=' s && ends_or (λ b. b == b',') (span is_blank (span (λ b. b == b'=') s).1).1

-- `self.bytes[..] as char` pushed on a string.
push_char : ℕ → Text → Text
push_char b s = if ltb b 128 then b ∷ s else (0xc0 + b / 64) ∷ (0x80 + b % 64) ∷ s

abbrev push_first : ℕ → Option (Text × Text) → Option (Text × Text)
push_first b r = and_then r (λ x. some (push_char b x.0, x.1))

-- After the opening quote: the value, and the bytes behind the closing quote.
unfoldable pub read_quoted : Text → Option (Text × Text)
unfolding ends_or push_char
read_quoted [] = none
read_quoted (ch ∷ []) = if ch == b'"' then some ([], []) else none
read_quoted (ch ∷ next ∷ s) =
    let escaped = push_first next (read_quoted s) in
    let plain = push_first ch (read_quoted (next ∷ s)) in
    if ch == b'"'
    then (if ends_or is_stop (next ∷ s) then some ([], next ∷ s) else none)
    else if ch == 92
    then escaped
    else plain

no_url_byte : ℕ → Bool
no_url_byte b = is_space b || (b == b',' || b == b'"')

-- The front part up to the first colon, and the bytes from it.
unfoldable pub is_urlish : Text → Bool
unfolding span no_url_byte
is_urlish word = parts (span (λ b. not (b == b':')) word)
  where
    after : Text → Bool
    after (a ∷ b ∷ c ∷ d ∷ s) = b == b'/' && (c == b'/' && not (any no_url_byte (d ∷ s)))
    after _ = false

    parts : Text × Text → Bool
    parts ([], rest) = false
    parts (b ∷ s, rest) =
        is_alphabetic b
        && (all (λ c. is_alphanumeric c || has_byte c (ascii "+.-")) s && after rest)

unquoted : Text → Text × Text → Option (Text × Text)
unfolding is_urlish
unquoted name (value, rest) =
    if is_http_token value
      || (text_eq (to_ascii_lowercase name) (ascii "resource_metadata") && is_urlish value)
    then some (value, rest)
    else none

unfoldable pub read_param_value : Text → Text → Option (Text × Text)
unfolding unquoted
read_param_value name [] = none
read_param_value name (b ∷ s) =
    if b == b'"' then read_quoted s else unquoted name (span (λ c. not (is_stop c)) (b ∷ s))

abbrev is_signal : Text → Bool
is_signal key = text_eq key (ascii "error") || text_eq key (ascii "scope")

-- The newest challenge with one more parameter.
put_param : Text → Text → List AuthChallenge → Option (List AuthChallenge)
put_param key value [] = none
put_param key value (c ∷ cs) =
    if is_some (lookup key c.params)
    then (if is_signal key then none else some (c ∷ cs))
    else some (record c { params = insert key value c.params } ∷ cs)

after_equals : Text → Text → Parser → Option (Text × Parser)
unfolding put_param
after_equals word s p = and_then (read_param_value word s) (λ x.
    and_then (put_param (to_ascii_lowercase word) x.0 p.challenges) (λ challenges.
      some (x.1, record { challenges = challenges; state = State.params; saw_comma = false })))

at_equals : Text → Parser → Text → Option (Text × Parser)
unfolding after_equals span
at_equals word p [] = none
at_equals word p (b ∷ t) = if b == b'=' then after_equals word (span is_blank t).1 p else none

unfoldable pub take_auth_param : Text → Text → Parser → Option (Text × Parser)
unfolding at_equals span
take_auth_param word s p =
    if not (is_http_token word) || length p.challenges == 0
    then none
    else if is_token_state p.state
    then none
    else if is_scheme p.state && p.saw_comma
    then none
    else if is_params p.state && not p.saw_comma
    then none
    else at_equals word p (span is_blank s).1

unfoldable pub take_token68_padding : Text → Text → Parser → Option (Text × Parser)
unfolding span
take_token68_padding word s p =
    if not (is_scheme p.state) || p.saw_comma
    then none
    else if is_token68 word
    then some ((span (λ b. b == b'=') s).1, record p { state = State.token68; saw_comma = false })
    else none

unfoldable pub take_bare_word : Text → Parser → Option Parser
take_bare_word word p =
    if p.saw_comma
    then (if is_http_token word
        then some (record {
          challenges = record { scheme = to_ascii_lowercase word; params = [] } ∷ p.challenges;
          state = State.scheme;
          saw_comma = false;
        })
        else none)
    else if is_scheme p.state && is_token68 word
    then some (record p { state = State.token68 })
    else none

unfoldable pub consume_token : Text → Parser → Option (Text × Parser)
unfolding peek_equals_after_bws is_padding_run span
consume_token s p =
    let word = (span is_word_byte s).0 in
    let rest = (span is_word_byte s).1 in
    if is_padding_run rest
    then take_token68_padding word rest p
    else if peek_equals_after_bws rest
    then take_auth_param word rest p
    else and_then (take_bare_word word p) (λ q. some (rest, q))

-- One round of `run` on bytes that do not begin with white space.
unfoldable pub round : ℕ → Text → Parser → Option (Text × Parser)
round b s p =
    if b == b','
    then some (s, record p { saw_comma = true })
    else if is_word_byte b
    then consume_token (b ∷ s) p
    else none

-- How the loop ends: with what `run` returns, or not in the rounds that it is given.
pub data Ending : Type 0 where
  endless : Ending
  returned : Option (List AuthChallenge) → Ending

abbrev pub result_of : Ending → Option (List AuthChallenge)
result_of endless = none
result_of (returned challenges) = challenges

-- What follows a round, the rounds after it being `rest`.
abbrev pub next_round : (Text → Parser → Ending) → Option (Text × Parser) → Ending
next_round rest none = returned none
next_round rest (some x) = rest x.0 x.1

-- What is done with the bytes behind white space.
unfoldable pub at_byte : (Text → Parser → Ending) → Parser → Text → Ending
at_byte rest p [] = returned (some (reverse p.challenges))
at_byte rest p (b ∷ t) = next_round rest (round b t p)

-- The loop, for so many rounds.
unfoldable pub run : ℕ → Text → Parser → Ending
unfolding span at_byte
run zero s p = endless
run (suc fuel) s p = at_byte (run fuel) p (span is_space s).1

abbrev pub new : Parser
new = record { challenges = []; state = State.boundary; saw_comma = true }

-- A round for each byte and one more.
unfoldable pub parse_challenges : Text → Option (List AuthChallenge)
unfolding run
parse_challenges header = result_of (run (length header + 1) header new)
