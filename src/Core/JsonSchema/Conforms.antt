-- ===== src/Core/JsonSchema/Conforms.antt =====
-- crates/executor-core/src/json_schema.rs: what validation accepts.
use zoen_gateway.Prelude.{
  ℕ, ◌+◌, ◌≡◌, refl, sym, subst, ◌≢◌, ◌⊎◌, inl, inr, Bool, true, false, Option, none, some, [], ◌∷◌,
  map, arith, if◌then◌else◌, Bool-cases, is_some,
}
use zoen_gateway.Prelude.Text.{Text, ascii}
use zoen_gateway.Prelude.Effect.{ok, err}
use zoen_gateway.Prelude.Json.{Value, Items, Fields, get_field, as_object}
use zoen_gateway.Core.JsonSchema.{
  Checked, then_check, at, any_item, value_eq, check_enum, has_type, names_type, check_one_type,
  check_type, required_names, each_item, check_items, check_child, join_path, item_path,
}

-- Membership in a list of values, and in an object's fields.
abbrev pub ItemIn : Value → Items → Type 0
ItemIn v Items.nil = ⊥
ItemIn v (Items.cons w xs) = (v ≡ w) ⊎ ItemIn v xs

abbrev pub FieldIn : Text → Value → Fields → Type 0
FieldIn k v Fields.end = ⊥
FieldIn k v (Fields.field j w fs) = ((k ≡ j) × (v ≡ w)) ⊎ FieldIn k v fs

module _ (is_integer : Text → Bool) where
  -- The type is the one named, or one of those named; other schemas of a type say nothing.
  abbrev pub HasType : Option Value → Value → Type 0
  HasType (some (Value.string t)) v = has_type is_integer t v ≡ true
  HasType (some (Value.array types)) v =
      (t : Text) × ItemIn (Value.string t) types × (has_type is_integer t v ≡ true)
  HasType _ v = Unit

  pub data Conforms : Value → Value → Type 0 where
    anything : (s v : Value) → as_object s ≡ none → Conforms s v
    object :
        (obj : Fields) (v : Value)
        → ((vs : Items)
            → get_field (ascii "enum") obj ≡ some (Value.array vs)
            → any_item (value_eq v) vs ≡ true)
        → HasType (get_field (ascii "type") obj) v
        → ((props map : Fields) (k : Text) (sub child : Value)
            → get_field (ascii "properties") obj ≡ some (Value.object props)
            → v ≡ Value.object map
            → FieldIn k sub props
            → get_field k map ≡ some child
            → Conforms sub child)
        → ((names : Items) (map : Fields) (name : Text)
            → get_field (ascii "required") obj ≡ some (Value.array names)
            → v ≡ Value.object map
            → ItemIn (Value.string name) names
            → is_some (get_field name map) ≡ true)
        → ((s : Value) (vs : Items) (w : Value)
            → get_field (ascii "items") obj ≡ some s
            → v ≡ Value.array vs
            → ItemIn w vs
            → Conforms s w)
        → Conforms (Value.object obj) v

pub then_check-ok : (r s : Checked) → then_check r s ≡ ok tt → (r ≡ ok tt) × (s ≡ ok tt)
then_check-ok (ok u) s h = (refl, h)
then_check-ok (err e) s h = cc

pub at-ne : (path message : Text) → at path message ≢ ok tt
unfolding at
at-ne [] message h = cc
at-ne (c ∷ path) message h = cc

pub if-ok : (b : Bool) (r : Checked) → r ≢ ok tt → (if b then ok tt else r) ≡ ok tt → b ≡ true
if-ok true r h k = refl
if-ok false r h k = absurd (h k)

pub if_true : (b : Bool) (r s : Checked) → b ≡ true → r ≡ ok tt → (if b then r else s) ≡ ok tt
if_true b r s h e = rw h e

pub array_inj : (vs ws : Items) → some (Value.array vs) ≡ some (Value.array ws) → vs ≡ ws
array_inj vs ws h = cc

pub object_inj : (fs gs : Fields) → some (Value.object fs) ≡ some (Value.object gs) → fs ≡ gs
object_inj fs gs h = cc

pub some_inj : (v w : Value) → some v ≡ some w → v ≡ w
some_inj v w h = cc

pub check_enum-ok :
    (o : Option Value) (v : Value) (path : Text)
    → check_enum o v path ≡ ok tt
    → (vs : Items) → o ≡ some (Value.array vs)
    → any_item (value_eq v) vs ≡ true
unfolding check_enum
check_enum-ok (some (Value.array vs)) v path h ws e =
    subst (λ (us : Items). any_item (value_eq v) us ≡ true) (array_inj vs ws e)
      (if-ok _ _ (at-ne path _) h)
check_enum-ok none v path h ws e = cc
check_enum-ok (some _) v path h ws e = cc

pub enum-check :
    (o : Option Value) (v : Value) (path : Text)
    → ((vs : Items) → o ≡ some (Value.array vs) → any_item (value_eq v) vs ≡ true)
    → check_enum o v path ≡ ok tt
unfolding check_enum
enum-check (some (Value.array vs)) v path h = if_true _ _ _ (h vs refl) refl
enum-check none v path h = refl
enum-check (some _) v path h = refl

pub required_names-ok :
    (names : Items) (map : Fields) (path : Text)
    → required_names names map path ≡ ok tt
    → (name : Text) → ItemIn (Value.string name) names
    → is_some (get_field name map) ≡ true
unfolding required_names
required_names-ok Items.nil map path h name i = absurd i
required_names-ok (Items.cons (Value.string n) names) map path h name i =
    elim (Bool-cases (is_some (get_field n map))) [
      | inl e ↦ elim i [
        | inl same ↦
            let k : name ≡ n = cc in subst (λ t. is_some (get_field t map) ≡ true) (sym k) e
        | inr later ↦ required_names-ok names map path (rw e at h) name later
      ]
      | inr e ↦ absurd (at-ne path _ (rw e at h))
    ]
required_names-ok (Items.cons Value.null names) map path h name (inr i) =
    required_names-ok names map path h name i
required_names-ok (Items.cons (Value.bool b) names) map path h name (inr i) =
    required_names-ok names map path h name i
required_names-ok (Items.cons (Value.number n) names) map path h name (inr i) =
    required_names-ok names map path h name i
required_names-ok (Items.cons (Value.array vs) names) map path h name (inr i) =
    required_names-ok names map path h name i
required_names-ok (Items.cons (Value.object fs) names) map path h name (inr i) =
    required_names-ok names map path h name i
required_names-ok (Items.cons _ names) map path h name (inl e) = cc

pub names-required :
    (names : Items) (map : Fields) (path : Text)
    → ((name : Text) → ItemIn (Value.string name) names → is_some (get_field name map) ≡ true)
    → required_names names map path ≡ ok tt
unfolding required_names
names-required Items.nil map path h = refl
names-required (Items.cons (Value.string n) names) map path h =
    if_true _ _ _ (h n (inl refl)) (names-required names map path (λ m i. h m (inr i)))
names-required (Items.cons _ names) map path h = names-required names map path (λ m i. h m (inr i))

pub each_item-ok :
    (check : Value → Text → Checked) (vs : Items) (i : ℕ) (path : Text)
    → each_item check vs i path ≡ ok tt
    → (w : Value) → ItemIn w vs
    → (q : Text) × (check w q ≡ ok tt)
unfolding each_item
each_item-ok check Items.nil i path h w m = absurd m
each_item-ok check (Items.cons v vs) i path h w (inl e) = (
  item_path path i,
  subst (λ u. check u (item_path path i) ≡ ok tt) (sym e) (then_check-ok _ _ h).0,
)
each_item-ok check (Items.cons v vs) i path h w (inr m) =
    each_item-ok check vs (i + 1) path (then_check-ok _ _ h).1 w m

pub item-check :
    (check : Value → Text → Checked) (vs : Items) (i : ℕ) (path : Text)
    → ((w : Value) (q : Text) → ItemIn w vs → check w q ≡ ok tt)
    → each_item check vs i path ≡ ok tt
unfolding each_item
item-check check Items.nil i path h = refl
item-check check (Items.cons v vs) i path h =
    rw (h v (item_path path i) (inl refl))
      (item-check check vs (i + 1) path (λ w q m. h w q (inr m)))

pub child-check :
    (check : Value → Text → Checked) (k : Text) (o : Option Value) (path : Text)
    → ((child : Value) (q : Text) → o ≡ some child → check child q ≡ ok tt)
    → check_child check k o path ≡ ok tt
child-check check k none path h = refl
child-check check k (some child) path h = h child (join_path path k) refl

pub all_items-check :
    (check : Value → Text → Checked) (v : Value) (path : Text)
    → ((vs : Items) (w : Value) (q : Text) → v ≡ Value.array vs → ItemIn w vs → check w q ≡ ok tt)
    → check_items check v path ≡ ok tt
all_items-check check (Value.array vs) path h =
    item-check check vs 0 path (λ w q i. h vs w q refl i)
all_items-check check _ path h = refl

module _ (is_integer : Text → Bool) where
  pub any_item-names :
      (v : Value) (types : Items)
      → any_item (names_type is_integer v) types ≡ true
      → (t : Text) × ItemIn (Value.string t) types × (has_type is_integer t v ≡ true)
  any_item-names v Items.nil h = cc
  any_item-names v (Items.cons (Value.string t) types) h =
      elim (Bool-cases (has_type is_integer t v)) [
        | inl e ↦ (t, inl refl, e)
        | inr e ↦ let (u, i, k) = any_item-names v types (rw e at h) in (u, inr i, k)
      ]
  any_item-names v (Items.cons _ types) h =
      let (u, i, k) = any_item-names v types h in (u, inr i, k)

  pub names-any_item :
      (v : Value) (types : Items) (t : Text)
      → ItemIn (Value.string t) types
      → has_type is_integer t v ≡ true
      → any_item (names_type is_integer v) types ≡ true
  names-any_item v Items.nil t i h = absurd i
  names-any_item v (Items.cons w types) t (inl e) h = rw (← e, h) refl
  names-any_item v (Items.cons w types) t (inr i) h = ground (arith, names-any_item v types t i h)

  pub check_type-ok :
      (o : Option Value) (v : Value) (path : Text)
      → check_type is_integer o v path ≡ ok tt
      → HasType is_integer o v
  unfolding check_type check_one_type
  check_type-ok none v path h = tt
  check_type-ok (some (Value.string t)) v path h = if-ok _ _ (at-ne path _) h
  check_type-ok (some (Value.array types)) v path h =
      any_item-names v types (if-ok _ _ (at-ne path _) h)
  check_type-ok (some _) v path h = tt

  pub type-check :
      (o : Option Value) (v : Value) (path : Text)
      → HasType is_integer o v
      → check_type is_integer o v path ≡ ok tt
  unfolding check_type check_one_type
  type-check none v path h = refl
  type-check (some (Value.string t)) v path h = if_true _ _ _ h refl
  type-check (some (Value.array types)) v path (t, i, e) =
      if_true _ _ _ (names-any_item v types t i e) refl
  type-check (some _) v path h = refl
