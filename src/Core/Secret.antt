-- ===== src/Core/Secret.antt =====
-- crates/executor-core/src/secret.rs: a secret's reference in a text, and the values that are taken
-- out of a tool's arguments.
pub mod Strip
use zoen_gateway.Prelude.{
  ℕ, Bool, false, Option, none, some, [], ◌∷◌, if◌then◌else◌, ◌==◌, ◌&&◌, ◌||◌, is_some,
}
use zoen_gateway.Prelude.Text.{Text, ascii, text_eq, strip_prefix}
use zoen_gateway.Prelude.Json.{
  Value, null, bool, number, string, array, object, Items, nil, cons, Fields, end, field, get_field,
}
use zoen_gateway.Prelude.Effect.{Result, ok, err}
use zoen_gateway.Core.Id.{InvalidId, new_opaque, new_slug}
use zoen_gateway.Core.Connection.{SecretRef, env, file, memory, provider}

pub data BadSecretRef : Type 0 where
  needs_a_name needs_a_path needs_an_id needs_an_item : BadSecretRef
  invalid_id : InvalidId → BadSecretRef
  unknown_ref : Text → BadSecretRef

-- `split_once` at a byte.
unfoldable pub split_once : ℕ → Text → Option (Text × Text)
split_once c [] = none
split_once c (a ∷ s) =
    let rest = split_once c s in
    if a == c then some ([], s) else elim rest [ none ↦ none | some (h, t) ↦ some (a ∷ h, t) ]

abbrev non_empty : BadSecretRef → (Text → SecretRef) → Text → Result BadSecretRef SecretRef
non_empty e make s = if text_eq s [] then err e else ok (make s)

abbrev provider_of : Option (Text × Text) → Result BadSecretRef SecretRef
provider_of none = err needs_an_item
provider_of (some (key, item)) = elim (new_slug key) [
  | err e ↦ err (invalid_id e)
  | ok key' ↦ elim (new_opaque item) [
    | err e ↦ err (invalid_id e)
    | ok item' ↦ ok (provider key' item')
  ]
]

unfoldable pub parse_ref : Text → Result BadSecretRef SecretRef
parse_ref raw = elim (strip_prefix (ascii "env:") raw) [
  | some name ↦ non_empty needs_a_name env name
  | none ↦ elim (strip_prefix (ascii "file:") raw) [
    | some path ↦ non_empty needs_a_path file path
    | none ↦ elim (strip_prefix (ascii "memory:") raw) [
      | some id ↦ non_empty needs_an_id memory id
      | none ↦ elim (strip_prefix (ascii "provider:") raw) [
        | some rest ↦ provider_of (split_once 58 rest)
        | none ↦ err (unknown_ref raw)
      ]
    ]
  ]
]

-- A text under the key `kind`.
abbrev pub kind_is : Text → Option Value → Bool
kind_is kind (some (string s)) = text_eq s kind
kind_is kind _ = false

abbrev pub looks_secret : Fields → Bool
looks_secret fs =
    kind_is (ascii "provider") (get_field (ascii "kind") fs)
    || (kind_is (ascii "env") (get_field (ascii "kind") fs)
        && is_some (get_field (ascii "name") fs))

unfoldable mutual
  pub strip_secret_refs : Value → Value
  strip_secret_refs null = null
  strip_secret_refs (bool b) = bool b
  strip_secret_refs (number n) = number n
  strip_secret_refs (string s) = string s
  strip_secret_refs (array xs) = array (strip_items xs)
  strip_secret_refs (object fs) =
      let cleaned = strip_fields fs in if looks_secret fs then null else object cleaned

  pub strip_items : Items → Items
  strip_items nil = nil
  strip_items (cons v xs) = cons (strip_secret_refs v) (strip_items xs)

  pub strip_fields : Fields → Fields
  strip_fields end = end
  strip_fields (field k v fs) = field k (strip_secret_refs v) (strip_fields fs)
