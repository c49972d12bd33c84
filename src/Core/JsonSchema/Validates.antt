-- ===== src/Core/JsonSchema/Validates.antt =====
-- crates/executor-core/src/json_schema.rs: validation accepts what conforms, and nothing else.
use zoen_gateway.Prelude.{
  ◌≡◌, refl, sym, ap, subst, ◌↔◌, inl, inr, Bool, true, Option, some, [], map, Bool-cases, is_some,
}
use zoen_gateway.Prelude.Text.{Text, text_eq, ascii}
use zoen_gateway.Prelude.Effect.{ok}
use zoen_gateway.Prelude.Json.{Value, Items, Fields, get_field}
use zoen_gateway.Core.JsonSchema.{
  at, check_required, check_items, check_child, validate_inner, find_properties, properties_of,
  each_property, find_items, validate_against, join_path,
}
use zoen_gateway.Core.JsonSchema.Conforms.{
  Conforms, FieldIn, ItemIn, all_items-check, array_inj, check_enum-ok, check_type-ok, child-check,
  each_item-ok, enum-check, names-required, object_inj, required_names-ok, some_inj, then_check-ok,
  type-check,
}

module _ (is_integer : Text → Bool) where
  check_required-ok :
      (o : Option Value) (v : Value) (path : Text)
      → check_required o v path ≡ ok tt
      → (names : Items) (map : Fields) (name : Text) → o ≡ some (Value.array names)
      → v ≡ Value.object map
      → ItemIn (Value.string name) names
      → is_some (get_field name map) ≡ true
  unfolding check_required
  check_required-ok (some (Value.array ns)) (Value.object m) path h names map name e f i =
      subst (λ o. is_some (get_field name o) ≡ true) (object_inj m map (ap some f))
        (required_names-ok ns m path h name
          (subst (ItemIn (Value.string name)) (sym (array_inj ns names e)) i))
  check_required-ok _ _ path h names map name e f i = cc

  mutual
    unfolding validate_inner get_field

    pub validate_inner-Conforms :
        (s v : Value) (path : Text)
        → validate_inner is_integer s v path ≡ ok tt
        → Conforms is_integer s v
    validate_inner-Conforms (Value.object obj) v path h =
        let (allowed, h1) = then_check-ok _ _ h in
        let (typed, h2) = then_check-ok _ _ h1 in
        let (props, h3) = then_check-ok _ _ h2 in
        let (required, items) = then_check-ok _ _ h3 in
        Conforms.object obj v (check_enum-ok (get_field (ascii "enum") obj) v path allowed)
          (check_type-ok is_integer (get_field (ascii "type") obj) v path typed)
          (find_properties-Conforms obj v path props)
          (check_required-ok (get_field (ascii "required") obj) v path required)
          (find_items-Conforms obj v path items)
    validate_inner-Conforms Value.null v path h = Conforms.anything _ v refl
    validate_inner-Conforms (Value.bool b) v path h = Conforms.anything _ v refl
    validate_inner-Conforms (Value.number n) v path h = Conforms.anything _ v refl
    validate_inner-Conforms (Value.string t) v path h = Conforms.anything _ v refl
    validate_inner-Conforms (Value.array vs) v path h = Conforms.anything _ v refl

    find_properties-Conforms :
        (fs : Fields) (v : Value) (path : Text)
        → find_properties is_integer fs v path ≡ ok tt
        → (props map : Fields) (k : Text) (sub child : Value)
        → get_field (ascii "properties") fs ≡ some (Value.object props)
        → v ≡ Value.object map
        → FieldIn k sub props
        → get_field k map ≡ some child
        → Conforms is_integer sub child
    find_properties-Conforms Fields.end v path h props map k sub child e f i g = cc
    find_properties-Conforms (Fields.field j s fs) v path h props map k sub child e f i g =
        elim (Bool-cases (text_eq j (ascii "properties"))) [
          | inl at ↦
              properties_of-Conforms s v path (rw at at h) props map k sub child (rw at at e) f i g
          | inr past ↦
              find_properties-Conforms fs v path (rw past at h) props map k sub child (rw past at e)
                f i g
        ]

    properties_of-Conforms :
        (s v : Value) (path : Text)
        → properties_of is_integer s v path ≡ ok tt
        → (props map : Fields) (k : Text) (sub child : Value) → some s ≡ some (Value.object props)
        → v ≡ Value.object map
        → FieldIn k sub props
        → get_field k map ≡ some child
        → Conforms is_integer sub child
    properties_of-Conforms (Value.object ps) (Value.object m) path h props map k sub child e f i g =
        each_property-Conforms ps m path h k sub child
          (subst (FieldIn k sub) (sym (object_inj ps props e)) i)
          (subst (λ o. get_field k o ≡ some child) (sym (object_inj m map (ap some f))) g)
    properties_of-Conforms (Value.object ps) _ path h props map k sub child e f i g = cc
    properties_of-Conforms _ _ path h props map k sub child e f i g = cc

    each_property-Conforms :
        (props map : Fields) (path : Text)
        → each_property is_integer props map path ≡ ok tt
        → (k : Text) (sub child : Value) → FieldIn k sub props
        → get_field k map ≡ some child
        → Conforms is_integer sub child
    each_property-Conforms Fields.end map path h k sub child i g = absurd i
    each_property-Conforms (Fields.field j s props) map path h k sub child (inl (e, f)) g =
        let found : get_field j map ≡ some child = rw (← e) g in
        let checked : check_child (validate_inner is_integer s) j (get_field j map) path ≡ ok tt =
          (then_check-ok _ _ h).0 in
        subst (λ u. Conforms is_integer u child) (sym f)
          (validate_inner-Conforms s child (join_path path j)
            (subst (λ o. check_child (validate_inner is_integer s) j o path ≡ ok tt) found checked))
    each_property-Conforms (Fields.field j s props) map path h k sub child (inr i) g =
        each_property-Conforms props map path (then_check-ok _ _ h).1 k sub child i g

    find_items-Conforms :
        (fs : Fields) (v : Value) (path : Text)
        → find_items is_integer fs v path ≡ ok tt
        → (s : Value) (vs : Items) (w : Value) → get_field (ascii "items") fs ≡ some s
        → v ≡ Value.array vs
        → ItemIn w vs
        → Conforms is_integer s w
    find_items-Conforms Fields.end v path h s vs w e f i = cc
    find_items-Conforms (Fields.field j t fs) v path h s vs w e f i =
        elim (Bool-cases (text_eq j (ascii "items"))) [
          | inl at ↦
              let same : t ≡ s = some_inj t s (rw at at e) in
              let (q, checked) =
                each_item-ok (validate_inner is_integer t) vs 0 path
                  (subst (λ u. check_items (validate_inner is_integer t) u path ≡ ok tt) f
                    (rw at at h))
                  w i in
              subst (λ u. Conforms is_integer u w) same (validate_inner-Conforms t w q checked)
          | inr past ↦ find_items-Conforms fs v path (rw past at h) s vs w (rw past at e) f i
        ]

  required-check :
      (o : Option Value) (v : Value) (path : Text)
      → ((names : Items) (map : Fields) (name : Text)
          → o ≡ some (Value.array names)
          → v ≡ Value.object map
          → ItemIn (Value.string name) names
          → is_some (get_field name map) ≡ true)
      → check_required o v path ≡ ok tt
  unfolding check_required
  required-check (some (Value.array ns)) (Value.object m) path h =
      names-required ns m path (λ name i. h ns m name refl refl i)
  required-check _ _ path h = refl

  mutual
    unfolding validate_inner get_field

    pub Conforms-validate_inner :
        (s v : Value) (path : Text)
        → Conforms is_integer s v
        → validate_inner is_integer s v path ≡ ok tt
    Conforms-validate_inner (Value.object obj) v path (Conforms.object _ _ e t p r i) =
        rw
          (
            enum-check (get_field (ascii "enum") obj) v path e,
            type-check is_integer (get_field (ascii "type") obj) v path t,
            properties-check obj v path p,
            required-check (get_field (ascii "required") obj) v path r,
          )
          (items-check obj v path i)
    Conforms-validate_inner (Value.object obj) v path (Conforms.anything _ _ e) = cc
    Conforms-validate_inner Value.null v path c = refl
    Conforms-validate_inner (Value.bool b) v path c = refl
    Conforms-validate_inner (Value.number n) v path c = refl
    Conforms-validate_inner (Value.string t) v path c = refl
    Conforms-validate_inner (Value.array vs) v path c = refl

    properties-check :
        (fs : Fields) (v : Value) (path : Text)
        → ((props map : Fields) (k : Text) (sub child : Value)
            → get_field (ascii "properties") fs ≡ some (Value.object props)
            → v ≡ Value.object map
            → FieldIn k sub props
            → get_field k map ≡ some child
            → Conforms is_integer sub child)
        → find_properties is_integer fs v path ≡ ok tt
    properties-check Fields.end v path h = refl
    properties-check (Fields.field j s fs) v path h =
        elim (Bool-cases (text_eq j (ascii "properties"))) [
          | inl found ↦ rw found (
              property_schema-check s v path
                (λ props m k sub child e. h props m k sub child (rw found (ap some e))))
          | inr past ↦ rw past (
              properties-check fs v path
                (λ props m k sub child e. h props m k sub child (rw past e)))
        ]

    property_schema-check :
        (s v : Value) (path : Text)
        → ((props map : Fields) (k : Text) (sub child : Value)
            → s ≡ Value.object props
            → v ≡ Value.object map
            → FieldIn k sub props
            → get_field k map ≡ some child
            → Conforms is_integer sub child)
        → properties_of is_integer s v path ≡ ok tt
    property_schema-check (Value.object ps) (Value.object m) path h =
        each_property-check ps m path (λ k sub child. h ps m k sub child refl refl)
    property_schema-check (Value.object ps) _ path h = refl
    property_schema-check _ _ path h = refl

    each_property-check :
        (props map : Fields) (path : Text)
        → ((k : Text) (sub child : Value)
            → FieldIn k sub props
            → get_field k map ≡ some child
            → Conforms is_integer sub child)
        → each_property is_integer props map path ≡ ok tt
    each_property-check Fields.end map path h = refl
    each_property-check (Fields.field j s props) map path h =
        rw
          (child-check (validate_inner is_integer s) j (get_field j map) path
            (λ child q e. Conforms-validate_inner s child q (h j s child (inl (refl, refl)) e)))
          (each_property-check props map path (λ k sub child i. h k sub child (inr i)))

    items-check :
        (fs : Fields) (v : Value) (path : Text)
        → ((s : Value) (vs : Items) (w : Value)
            → get_field (ascii "items") fs ≡ some s
            → v ≡ Value.array vs
            → ItemIn w vs
            → Conforms is_integer s w)
        → find_items is_integer fs v path ≡ ok tt
    items-check Fields.end v path h = refl
    items-check (Fields.field j s fs) v path h = elim (Bool-cases (text_eq j (ascii "items"))) [
      | inl found ↦ rw found (
          all_items-check (validate_inner is_integer s) v path
            (λ vs w q e m. Conforms-validate_inner s w q (h s vs w (rw found refl) e m)))
      | inr past ↦ rw past (items-check fs v path (λ t vs w e. h t vs w (rw past e)))
    ]

  -- Validation accepts exactly the values that conform to the schema. A schema that is no object
  -- accepts everything. Another asks that the value is one of its `enum`, has its `type` or one of its
  -- types, has the `required` names, and that each of its fields conforms to the schema that
  -- `properties` gives for the name, and each of its items to the schema `items`, where the schema
  -- says these things and the value is an object or an array.
  pub validate_against_iff :
      (s v : Value) → (validate_against is_integer s v ≡ ok tt) ↔ Conforms is_integer s v
  unfolding validate_against
  validate_against_iff s v = (validate_inner-Conforms s v [], Conforms-validate_inner s v [])
