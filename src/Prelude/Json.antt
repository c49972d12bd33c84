-- ===== src/Prelude/Json.antt =====
-- `serde_json::Value`. A number is kept as the literal that `serde_json` writes for it; an object's
-- fields are in key order.
use mathlib.Core.Bool.{Bool}
use mathlib.Core.Option.{Option, none, some}
use zoen_gateway.Prelude.Tests.{if◌then◌else◌, and_then}
use zoen_gateway.Prelude.Text.{Text, text_eq, text_lt}

mutual
  pub data Value : Type 0 where
    null : Value
    bool : Bool → Value
    number : Text → Value
    string : Text → Value
    array : Items → Value
    object : Fields → Value

  pub data Items : Type 0 where
    nil : Items
    cons : Value → Items → Items

  pub data Fields : Type 0 where
    end : Fields
    field : Text → Value → Fields → Fields

abbrev pub as_str : Value → Option Text
as_str (string s) = some s
as_str _ = none

abbrev pub as_bool : Value → Option Bool
as_bool (bool b) = some b
as_bool _ = none

abbrev pub as_array : Value → Option Items
as_array (array xs) = some xs
as_array _ = none

abbrev pub as_object : Value → Option Fields
as_object (object fs) = some fs
as_object _ = none

-- `Map::get`
unfoldable pub get_field : Text → Fields → Option Value
get_field k end = none
get_field k (field j v fs) = if text_eq j k then some v else get_field k fs

-- `Value::get` by a key
abbrev pub get : Text → Value → Option Value
get k v = and_then (as_object v) (get_field k)

-- `Map::insert`
unfoldable pub insert_field : Text → Value → Fields → Fields
insert_field k v end = field k v end
insert_field k v (field j w fs) =
    if text_eq j k
    then field k v fs
    else if text_lt k j
    then field k v (field j w fs)
    else field j w (insert_field k v fs)

-- `Map::remove`
unfoldable pub remove_field : Text → Fields → Fields
remove_field k end = end
remove_field k (field j v fs) =
    let rest = remove_field k fs in if text_eq j k then rest else field j v rest
