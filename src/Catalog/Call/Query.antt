-- ===== src/Catalog/Call/Query.antt =====
-- The check of a strict endpoint's query: only declared parameters, only allowed values, every
-- required one, and no body.
use zoen_gateway.Prelude.{
  Bool, true, false, Option, none, some, [], ◌∷◌, if◌then◌else◌, is_some, and_then, unwrap_or, ◌||◌,
  ◌&&◌, not,
}
use zoen_gateway.Prelude.Text.{Text, ascii, text_eq}
use zoen_gateway.Prelude.Trim.{trim}
use zoen_gateway.Prelude.Map.{Map, text_key, lookup}
use zoen_gateway.Prelude.Json.{
  Value, Items, nil, cons, Fields, end, field, as_object, as_array, as_str, as_bool, get, get_field,
}
use zoen_gateway.Prelude.Effect.{Result, ok, err}
use zoen_gateway.Catalog.Error.{
  CatalogError, parameter_invalid, no_declared_query, body_given, undeclared, not_allowed, missing,
}
use zoen_gateway.Catalog.Service.{Endpoint}
use zoen_gateway.Catalog.Call.Ladder.{CallInput}

abbrev is_text : Text → Option Text → Bool
is_text value none = false
is_text value (some s) = text_eq s value

-- `allowed.iter().any(|item| item.as_str() == Some(value))`
unfoldable pub any_text : Text → Items → Bool
any_text value nil = false
any_text value (cons item items) = is_text value (as_str item) || any_text value items

abbrev allowed_by : Option Items → Text → Bool
allowed_by none value = true
allowed_by (some items) value = any_text value items

abbrev pub value_of : Text → Map Text Text → Text
value_of key query = unwrap_or (lookup key query) []

-- The loop over the keys of the query.
unfoldable pub check_given : Fields → Map Text Text → Map Text Text → Result CatalogError (Unit {0})
check_given fields query [] = ok tt
check_given fields query ((key, value) ∷ rest) =
    let later = check_given fields query rest in
    elim (get_field key fields) [
      | none ↦ err (parameter_invalid (undeclared key))
      | some spec ↦
          if allowed_by (and_then (get (ascii "enum") spec) as_array) (value_of key query)
          then later
          else err (parameter_invalid (not_allowed key))
    ]

abbrev is_true : Option Bool → Bool
is_true none = false
is_true (some b) = b

abbrev pub is_required : Value → Bool
is_required spec = is_true (and_then (get (ascii "required") spec) as_bool)

abbrev pub is_empty : Option Text → Bool
is_empty none = true
is_empty (some value) = text_eq (trim value) []

-- The loop over the declared fields.
unfoldable pub check_required : Fields → Map Text Text → Result CatalogError (Unit {0})
check_required end query = ok tt
check_required (field name spec fields) query =
    let later = check_required fields query in
    if is_required spec && is_empty (lookup name query)
    then err (parameter_invalid (missing name))
    else later

abbrev both :
    Result CatalogError (Unit {0}) → Result CatalogError (Unit {0}) → Result CatalogError (Unit {0})
both (ok u) r = r
both (err e) r = err e

unfoldable pub enforce_strict_query : Endpoint → CallInput → Result CatalogError (Unit {0})
unfolding check_given check_required
enforce_strict_query endpoint input =
    if not endpoint.strict_query then ok tt else elim (as_object endpoint.query) [
      | none ↦ err (parameter_invalid no_declared_query)
      | some fields ↦
          if is_some input.body
          then err (parameter_invalid body_given)
          else both (check_given fields input.query input.query) (check_required fields input.query)
    ]
