-- ===== src/Core/Secret/Strip.antt =====
-- What is left of arguments after their secret references are taken out.
use zoen_gateway.Prelude.{Bool, true, Option, none, some, ◌≡◌, refl, arith, ◌&&◌, not, is_some, ap}
use zoen_gateway.Prelude.Text.{Text, ascii}
use zoen_gateway.Prelude.Json.{
  Value, null, bool, number, string, array, object, Items, nil, cons, Fields, end, field, get_field,
}
use zoen_gateway.Core.Secret.{kind_is, looks_secret, strip_secret_refs, strip_items, strip_fields}

-- No object in a value looks like a secret reference.
mutual
  pub is_clean : Value → Bool
  is_clean null = true
  is_clean (bool b) = true
  is_clean (number n) = true
  is_clean (string s) = true
  is_clean (array xs) = clean_items xs
  is_clean (object fs) = let inside = clean_fields fs in not (looks_secret fs) && inside

  pub clean_items : Items → Bool
  clean_items nil = true
  clean_items (cons v xs) = let rest = clean_items xs in is_clean v && rest

  pub clean_fields : Fields → Bool
  clean_fields end = true
  clean_fields (field k v fs) = let rest = clean_fields fs in is_clean v && rest

stripped : Option Value → Option Value
stripped none = none
stripped (some v) = some (strip_secret_refs v)

get_field-strip_fields :
    (k : Text) (fs : Fields) → get_field k (strip_fields fs) ≡ stripped (get_field k fs)
unfolding get_field strip_secret_refs stripped
get_field-strip_fields k end = refl
get_field-strip_fields k (field j v fs) = ground (arith, get_field-strip_fields k fs)

kind_is-stripped : (kind : Text) (v : Option Value) → kind_is kind (stripped v) ≡ kind_is kind v
unfolding strip_secret_refs stripped
kind_is-stripped kind none = refl
kind_is-stripped kind (some null) = refl
kind_is-stripped kind (some (bool b)) = refl
kind_is-stripped kind (some (number n)) = refl
kind_is-stripped kind (some (string s)) = refl
kind_is-stripped kind (some (array xs)) = refl
kind_is-stripped kind (some (object fs)) = ground arith

is_some-stripped : (v : Option Value) → is_some (stripped v) ≡ is_some v
unfolding stripped
is_some-stripped none = refl
is_some-stripped (some v) = refl

looks_secret-strip_fields : (fs : Fields) → looks_secret (strip_fields fs) ≡ looks_secret fs
looks_secret-strip_fields fs =
    rw
      (
        get_field-strip_fields (ascii "kind") fs,
        get_field-strip_fields (ascii "name") fs,
        kind_is-stripped (ascii "provider") (get_field (ascii "kind") fs),
        kind_is-stripped (ascii "env") (get_field (ascii "kind") fs),
        is_some-stripped (get_field (ascii "name") fs),
      )
      refl

mutual
  unfolding strip_secret_refs is_clean

  clean_value_lem : (v : Value) → is_clean (strip_secret_refs v) ≡ true
  clean_value_lem null = refl
  clean_value_lem (bool b) = refl
  clean_value_lem (number n) = refl
  clean_value_lem (string s) = refl
  clean_value_lem (array xs) = clean_items_lem xs
  clean_value_lem (object fs) = ground (arith, looks_secret-strip_fields fs, clean_fields_lem fs)

  clean_items_lem : (xs : Items) → clean_items (strip_items xs) ≡ true
  clean_items_lem nil = refl
  clean_items_lem (cons v xs) = ground (arith, clean_value_lem v, clean_items_lem xs)

  clean_fields_lem : (fs : Fields) → clean_fields (strip_fields fs) ≡ true
  clean_fields_lem end = refl
  clean_fields_lem (field k v fs) = ground (arith, clean_value_lem v, clean_fields_lem fs)

mutual
  unfolding strip_secret_refs is_clean

  strip_clean : (v : Value) → is_clean v ≡ true → strip_secret_refs v ≡ v
  strip_clean null h = refl
  strip_clean (bool b) h = refl
  strip_clean (number n) h = refl
  strip_clean (string s) h = refl
  strip_clean (array xs) h = ap array (strip_clean_items xs h)
  strip_clean (object fs) h = ground (arith, strip_clean_fields fs)

  strip_clean_items : (xs : Items) → clean_items xs ≡ true → strip_items xs ≡ xs
  strip_clean_items nil h = refl
  strip_clean_items (cons v xs) h = ground (arith, strip_clean v, strip_clean_items xs)

  strip_clean_fields : (fs : Fields) → clean_fields fs ≡ true → strip_fields fs ≡ fs
  strip_clean_fields end h = refl
  strip_clean_fields (field k v fs) h = ground (arith, strip_clean v, strip_clean_fields fs)

-- Stripping leaves no object that looks like a reference to a provider or to the environment, at any
-- depth; and a value without one is left as it is.
pub strip_secret_refs_lem :
    (v : Value)
    → (is_clean (strip_secret_refs v) ≡ true) × (is_clean v ≡ true → strip_secret_refs v ≡ v)
strip_secret_refs_lem v = (clean_value_lem v, strip_clean v)
