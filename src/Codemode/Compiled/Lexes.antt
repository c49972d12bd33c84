-- ===== src/Codemode/Compiled/Lexes.antt =====
-- The compact text of a plain value is read as its tokens.
use zoen_gateway.Prelude.{
  ℕ, zero, suc, ◌≤◌, ◌<◌, ◌≡◌, refl, ◌∙◌, Bool, true, false, not, ◌||◌, Option, none, some, List,
  [], ◌∷◌, ◌++◌, arith, ◌==◌, length, all, length-append,
}
use zoen_gateway.Prelude.Text.{Text, ascii}
use zoen_gateway.Prelude.Effect.{ok}
use zoen_gateway.Prelude.Json.{Value, Items, Fields}
use zoen_gateway.Codemode.Token.{Token}
use zoen_gateway.Prelude.Chars.{is_digit, is_whitespace}
use zoen_gateway.Codemode.Lex.{
  is_number_cont, is_ident_cont, is_ident_start, take_while, drop_while, keyword, one, one_of,
  punctuation, string, string_body, unescape, push_char, number, ident, tokenize_from,
}
use zoen_gateway.Codemode.Compiled.{
  escape, escaped, quote, compact, compact_items, compact_fields, value_tokens, items_tokens,
  fields_tokens, IsNumber, IsPlain, ArePlain, FieldsArePlain,
}

-- With enough fuel the text reads as the tokens.
abbrev pub Lexes : Text → List Token → Type 0
Lexes cs ts = (fuel : ℕ) → length cs < fuel → tokenize_from fuel cs ≡ ok ts

-- What ends a word or a number.
abbrev pub ends_word : Text → Bool
ends_word [] = true
ends_word (c ∷ cs) = not (is_ident_cont c || is_number_cont c)

pub Lexes-token :
    (c : ℕ) (cs rest : Text) (t : Token) (ts : List Token)
    → is_whitespace c ≡ false
    → (c == b'/') ≡ false
    → one c cs ≡ ok (t, rest)
    → length rest ≤ length cs
    → Lexes rest ts
    → Lexes (c ∷ cs) (t ∷ ts)
unfolding tokenize_from
Lexes-token c cs rest t ts w s e l h zero k = absurd (omega arith)
Lexes-token c cs rest t ts w s e l h (suc fuel) k = rw (w, s, e) (rw (h fuel (omega arith)) refl)

pub Lexes-blank : (cs : Text) (ts : List Token) → Lexes cs ts → Lexes (b' ' ∷ cs) ts
unfolding tokenize_from is_whitespace
Lexes-blank cs ts h zero k = absurd (omega arith)
Lexes-blank cs ts h (suc fuel) k = h fuel (omega arith)

string_body-escape :
    (c d : ℕ) (ds : Text) → string_body (escape c (d ∷ ds)) ≡ push_char c (string_body (d ∷ ds))
unfolding string_body escape unescape
string_body-escape c d ds = ground arith

string_body-quote : (rest : Text) → string_body (b'"' ∷ rest) ≡ ok ([], rest)
unfolding string_body
string_body-quote [] = refl
string_body-quote (c ∷ cs) = refl

first_of : (cs : Text) → 0 < length cs → (d : ℕ) × (ds : Text) × (cs ≡ d ∷ ds)
first_of [] h = absurd (omega arith)
first_of (d ∷ ds) h = (d, ds, refl)

escape-length : (c : ℕ) (cs : Text) → length cs < length (escape c cs)
unfolding escape
escape-length c cs = ground arith

escaped-length : (s rest : Text) → length rest ≤ length (escaped s rest)
unfolding escaped
escaped-length [] rest = omega arith
escaped-length (c ∷ cs) rest =
    omega (arith, escape-length c (escaped cs rest), escaped-length cs rest)

string_body-escaped : (s rest : Text) → string_body (escaped s (b'"' ∷ rest)) ≡ ok (s, rest)
unfolding escaped
string_body-escaped [] rest = string_body-quote rest
string_body-escaped (c ∷ cs) rest =
    let (d, ds, e) =
      first_of (escaped cs (b'"' ∷ rest)) (omega (arith, escaped-length cs (b'"' ∷ rest))) in
    rw e (string_body-escape c d ds ∙ rw (← e) (rw (string_body-escaped cs rest) refl))

pub Lexes-quote :
    (s rest : Text) (ts : List Token) → Lexes rest ts → Lexes (quote s rest) (Token.string s ∷ ts)
unfolding quote one one_of punctuation string is_whitespace
Lexes-quote s rest ts h =
    Lexes-token b'"' (escaped s (b'"' ∷ rest)) rest (Token.string s) ts refl refl
      (rw (string_body-escaped s rest) refl) (omega (arith, escaped-length s (b'"' ∷ rest))) h

-- A loop that reads characters stops where the text after them says so.
take_while-stops :
    (p : ℕ → Bool) (w rest : Text)
    → all p w ≡ true
    → (take_while p rest ≡ [])
    → take_while p (w ++ rest) ≡ w
unfolding take_while
take_while-stops p [] rest h k = k
take_while-stops p (c ∷ w) rest h k = ground (arith, take_while-stops p w rest)

drop_while-stops :
    (p : ℕ → Bool) (w rest : Text)
    → all p w ≡ true
    → (take_while p rest ≡ [])
    → drop_while p (w ++ rest) ≡ rest
unfolding take_while drop_while
drop_while-stops p [] [] h k = refl
drop_while-stops p [] (c ∷ rest) h k = ground arith
drop_while-stops p (c ∷ w) rest h k = ground (arith, drop_while-stops p w rest)

take_while-ends_word :
    (rest : Text)
    → ends_word rest ≡ true
    → (take_while is_ident_cont rest ≡ []) × (take_while is_number_cont rest ≡ [])
unfolding take_while
take_while-ends_word [] h = (refl, refl)
take_while-ends_word (c ∷ cs) h = ground arith

punctuation_start :
    (c : ℕ) (t : Token) → punctuation c ≡ some t → (is_whitespace c ≡ false) × ((c == b'/') ≡ false)
unfolding is_whitespace punctuation
punctuation_start c t h = ground arith

number_start :
    (c : ℕ)
    → (is_digit c || c == b'-') ≡ true
    → (is_whitespace c ≡ false)
      × ((c == b'/') ≡ false)
      × (punctuation c ≡ none)
      × ((c == b'"') ≡ false)
unfolding is_whitespace punctuation
number_start c h = ground arith

word_start :
    (c : ℕ)
    → is_ident_start c ≡ true
    → (is_whitespace c ≡ false)
      × ((c == b'/') ≡ false)
      × (punctuation c ≡ none)
      × ((c == b'"') ≡ false)
      × ((is_digit c || c == b'-') ≡ false)
unfolding is_whitespace punctuation is_ident_start
word_start c h = ground arith

Lexes-number :
    (number_of : Text → Option Text) (n rest : Text) (ts : List Token)
    → IsNumber number_of n
    → ends_word rest ≡ true
    → Lexes rest ts
    → Lexes (n ++ rest) (Token.number n ∷ ts)
unfolding one one_of number
Lexes-number number_of [] rest ts n w h = absurd n
Lexes-number number_of (c ∷ cs) rest ts (start, more, _) w h =
    let stop = (take_while-ends_word rest w).1 in
    let (blank, slash, mark, quotes) = number_start c start in
    Lexes-token c (cs ++ rest) rest (Token.number (c ∷ cs)) ts blank slash
      (rw
        (
          mark,
          quotes,
          start,
          take_while-stops is_number_cont cs rest more stop,
          drop_while-stops is_number_cont cs rest more stop,
        )
        refl)
      (omega (arith, length-append cs rest)) h

pub Lexes-word :
    (c : ℕ) (cs rest : Text) (ts : List Token)
    → is_ident_start c ≡ true
    → all is_ident_cont cs ≡ true
    → ends_word rest ≡ true
    → Lexes rest ts
    → Lexes (c ∷ cs ++ rest) (keyword (c ∷ cs) ∷ ts)
unfolding one one_of ident
Lexes-word c cs rest ts start more w h =
    let stop = (take_while-ends_word rest w).0 in
    let (blank, slash, mark, quotes, digit) = word_start c start in
    Lexes-token c (cs ++ rest) rest (keyword (c ∷ cs)) ts blank slash
      (rw
        (
          mark,
          quotes,
          digit,
          start,
          take_while-stops is_ident_cont cs rest more stop,
          drop_while-stops is_ident_cont cs rest more stop,
        )
        refl)
      (omega (arith, length-append cs rest)) h

pub Lexes-punctuation :
    (c : ℕ) (rest : Text) (t : Token) (ts : List Token)
    → punctuation c ≡ some t
    → Lexes rest ts
    → Lexes (c ∷ rest) (t ∷ ts)
unfolding one one_of
Lexes-punctuation c rest t ts e h =
    let (blank, slash) = punctuation_start c t e in
    Lexes-token c rest rest t ts blank slash (rw e refl) (omega arith) h

module _ (number_of : Text → Option Text) where
  mutual
    unfolding compact value_tokens IsPlain is_ident_start is_ident_cont is_number_cont keyword
        punctuation quote

    pub Lexes-compact :
        (v : Value) (rest : Text) (ts : List Token)
        → IsPlain number_of v
        → ends_word rest ≡ true
        → Lexes rest ts
        → Lexes (compact v rest) (value_tokens v ts)
    Lexes-compact Value.null rest ts p w h = Lexes-word b'n' (ascii "ull") rest ts refl refl w h
    Lexes-compact (Value.bool true) rest ts p w h =
        Lexes-word b't' (ascii "rue") rest ts refl refl w h
    Lexes-compact (Value.bool false) rest ts p w h =
        Lexes-word b'f' (ascii "alse") rest ts refl refl w h
    Lexes-compact (Value.number n) rest ts p w h = Lexes-number number_of n rest ts p w h
    Lexes-compact (Value.string s) rest ts p w h = Lexes-quote s rest ts h
    Lexes-compact (Value.array xs) rest ts p w h = Lexes-punctuation b'[' _ Token.lbrack _ refl (
        Lexes-compact_items xs (b']' ∷ rest) _ p refl
          (Lexes-punctuation b']' rest Token.rbrack ts refl h))
    Lexes-compact (Value.object fs) rest ts p w h = Lexes-punctuation b'{' _ Token.lbrace _ refl (
        Lexes-compact_fields fs (b'}' ∷ rest) _ p refl
          (Lexes-punctuation b'}' rest Token.rbrace ts refl h))

    pub Lexes-compact_items :
        (xs : Items) (rest : Text) (ts : List Token)
        → ArePlain number_of xs
        → ends_word rest ≡ true
        → Lexes rest ts
        → Lexes (compact_items xs rest) (items_tokens xs ts)
    Lexes-compact_items Items.nil rest ts p w h = h
    Lexes-compact_items (Items.cons v Items.nil) rest ts p w h = Lexes-compact v rest ts p.0 w h
    Lexes-compact_items (Items.cons v (Items.cons u xs)) rest ts (p, q) w h =
        Lexes-compact v _ _ p refl (
          Lexes-punctuation b',' _ Token.comma _ refl
            (Lexes-compact_items (Items.cons u xs) rest ts q w h))

    pub Lexes-compact_fields :
        (fs : Fields) (rest : Text) (ts : List Token)
        → FieldsArePlain number_of fs
        → ends_word rest ≡ true
        → Lexes rest ts
        → Lexes (compact_fields fs rest) (fields_tokens fs ts)
    Lexes-compact_fields Fields.end rest ts p w h = h
    Lexes-compact_fields (Fields.field k v Fields.end) rest ts (_, _, p, _) w h =
        Lexes-quote k _ _
          (Lexes-punctuation b':' _ Token.colon _ refl (Lexes-compact v rest ts p w h))
    Lexes-compact_fields (Fields.field k v (Fields.field j u fs)) rest ts (_, _, p, q) w h =
        Lexes-quote k _ _ (
          Lexes-punctuation b':' _ Token.colon _ refl (
            Lexes-compact v _ _ p refl (
              Lexes-punctuation b',' _ Token.comma _ refl
                (Lexes-compact_fields (Fields.field j u fs) rest ts q w h))))
