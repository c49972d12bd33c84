-- ===== src/Core/JsonSchema.antt =====
-- crates/executor-core/src/json_schema.rs: validation against a part of JSON Schema. `is_integer`
-- says whether a number's literal fits an `i64` or a `u64`.
pub mod Conforms
pub mod Validates
use zoen_gateway.Prelude.{
  ℕ, ◌+◌, Bool, true, false, not, ◌&&◌, ◌||◌, Option, none, some, [], ◌∷◌, ◌++◌, map, if◌then◌else◌,
  is_some, any,
}
use zoen_gateway.Prelude.Text.{Text, text_eq, ascii}
use zoen_gateway.Prelude.Effect.{Result, ok, err}
use zoen_gateway.Prelude.Json.{Value, Items, Fields, get_field}
use zoen_gateway.Prelude.Trim.{decimal}

-- `==` of `serde_json::Number`: numbers are equal where they are written alike, but that the two zeros
-- among the floating-point numbers are equal.
abbrev pub is_float_zero : Text → Bool
is_float_zero n = text_eq n (ascii "0.0") || text_eq n (ascii "-0.0")

abbrev pub number_eq : Text → Text → Bool
number_eq m n = text_eq m n || (is_float_zero m && is_float_zero n)

-- `PartialEq` of JSON values.
unfoldable mutual
  unfolding text_eq

  pub value_eq : Value → Value → Bool
  value_eq Value.null Value.null = true
  value_eq (Value.bool true) (Value.bool true) = true
  value_eq (Value.bool false) (Value.bool false) = true
  value_eq (Value.number m) (Value.number n) = number_eq m n
  value_eq (Value.string s) (Value.string t) = text_eq s t
  value_eq (Value.array xs) (Value.array ys) = items_eq xs ys
  value_eq (Value.object fs) (Value.object gs) = fields_eq fs gs
  value_eq _ _ = false

  pub items_eq : Items → Items → Bool
  items_eq Items.nil Items.nil = true
  items_eq (Items.cons v xs) (Items.cons w ys) = value_eq v w && items_eq xs ys
  items_eq _ _ = false

  pub fields_eq : Fields → Fields → Bool
  fields_eq Fields.end Fields.end = true
  fields_eq (Fields.field k v fs) (Fields.field j w gs) =
      text_eq k j && (value_eq v w && fields_eq fs gs)
  fields_eq _ _ = false

abbrev pub any_item : (Value → Bool) → Items → Bool
any_item p Items.nil = false
any_item p (Items.cons v xs) = p v || any_item p xs

abbrev pub Checked : Type 0
Checked = Result Text (Unit {0})

abbrev pub then_check : Checked → Checked → Checked
then_check (ok u) r = r
then_check (err e) r = err e

-- `SchemaError::at`.
unfoldable pub at : Text → Text → Checked
at [] message = err message
at (c ∷ path) message = err ((c ∷ path) ++ (ascii ": " ++ message))

unfoldable pub join_path : Text → Text → Text
join_path [] key = key
join_path (c ∷ path) key = (c ∷ path) ++ b'.' ∷ key

abbrev pub item_path : Text → ℕ → Text
item_path path i = path ++ b'[' ∷ decimal i ++ b']' ∷ []

unfoldable pub check_enum : Option Value → Value → Text → Checked
unfolding value_eq at
check_enum (some (Value.array vs)) v path =
    if any_item (value_eq v) vs then ok tt else at path (ascii "value is not in enum")
check_enum _ v path = ok tt

module _ (is_integer : Text → Bool) where
  unfoldable pub is_kind : Value → Text → Bool
  unfolding text_eq
  is_kind Value.null t = text_eq t (ascii "null")
  is_kind (Value.bool b) t = text_eq t (ascii "boolean")
  is_kind (Value.number n) t =
      text_eq t (ascii "number") || (text_eq t (ascii "integer") && is_integer n)
  is_kind (Value.string s) t = text_eq t (ascii "string")
  is_kind (Value.array xs) t = text_eq t (ascii "array")
  is_kind (Value.object fs) t = text_eq t (ascii "object")

  -- An unknown name of a type accepts everything.
  unfoldable pub has_type : Text → Value → Bool
  unfolding is_kind text_eq
  has_type t v =
      is_kind v t
      || not (
          any (text_eq t) (
            map ascii
              ("object" ∷ "array" ∷ "string" ∷ "number" ∷ "integer" ∷ "boolean" ∷ "null" ∷ [])))

  unfoldable pub check_one_type : Text → Value → Text → Checked
  unfolding has_type at
  check_one_type t v path = if has_type t v then ok tt else at path (ascii "expected " ++ t)

  abbrev pub names_type : Value → Value → Bool
  names_type v (Value.string t) = has_type t v
  names_type v _ = false

  unfoldable pub check_type : Option Value → Value → Text → Checked
  unfolding check_one_type at
  check_type (some (Value.string t)) v path = check_one_type t v path
  check_type (some (Value.array types)) v path =
      if any_item (names_type v) types then ok tt else at path (ascii "type mismatch")
  check_type _ v path = ok tt

unfoldable pub required_names : Items → Fields → Text → Checked
unfolding get_field at
required_names Items.nil map path = ok tt
required_names (Items.cons (Value.string name) names) map path =
    let rest = required_names names map path in
    if is_some (get_field name map)
    then rest
    else at path (ascii "missing required property " ++ name)
required_names (Items.cons _ names) map path = required_names names map path

unfoldable pub check_required : Option Value → Value → Text → Checked
unfolding required_names
check_required (some (Value.array names)) (Value.object map) path = required_names names map path
check_required _ v path = ok tt

unfoldable pub each_item : (Value → Text → Checked) → Items → ℕ → Text → Checked
each_item check Items.nil i path = ok tt
each_item check (Items.cons v vs) i path =
    then_check (check v (item_path path i)) (each_item check vs (i + 1) path)

abbrev pub check_items : (Value → Text → Checked) → Value → Text → Checked
check_items check (Value.array vs) path = each_item check vs 0 path
check_items check _ path = ok tt

abbrev pub check_child : (Value → Text → Checked) → Text → Option Value → Text → Checked
check_child check key none path = ok tt
check_child check key (some child) path = check child (join_path path key)

module _ (is_integer : Text → Bool) where
  -- The schema of `properties` and that of `items` are parts of the object that they are found in.
  unfoldable mutual
    unfolding check_enum check_type check_required get_field each_item join_path

    pub validate_inner : Value → Value → Text → Checked
    validate_inner (Value.object obj) v path =
        then_check (check_enum (get_field (ascii "enum") obj) v path) (
          then_check (check_type is_integer (get_field (ascii "type") obj) v path) (
            then_check (find_properties obj v path) (
              then_check (check_required (get_field (ascii "required") obj) v path)
                (find_items obj v path))))
    validate_inner _ v path = ok tt

    pub find_properties : Fields → Value → Text → Checked
    find_properties Fields.end v path = ok tt
    find_properties (Fields.field k s fs) v path =
        let here = properties_of s v path in
        let later = find_properties fs v path in
        if text_eq k (ascii "properties") then here else later

    pub properties_of : Value → Value → Text → Checked
    properties_of (Value.object props) (Value.object map) path = each_property props map path
    properties_of _ v path = ok tt

    pub each_property : Fields → Fields → Text → Checked
    each_property Fields.end map path = ok tt
    each_property (Fields.field k sub props) map path =
        then_check (check_child (validate_inner sub) k (get_field k map) path)
          (each_property props map path)

    pub find_items : Fields → Value → Text → Checked
    find_items Fields.end v path = ok tt
    find_items (Fields.field k s fs) v path =
        let here = check_items (validate_inner s) v path in
        let later = find_items fs v path in if text_eq k (ascii "items") then here else later

  unfoldable pub validate_against : Value → Value → Checked
  unfolding validate_inner
  validate_against schema v = validate_inner schema v []
