-- ===== src/Core/Store/Cascade.antt =====
-- What goes with an integration that is removed.
use zoen_gateway.Prelude.{
  ◌∷◌, [], ◌++◌, Bool, true, false, none, some, ◌≡◌, refl, sym, subst, arith, Bool-cases, inl, inr,
  not,
}
use zoen_gateway.Prelude.Text.{Text, text_eq, text_eq_iff, contains, starts_with}
use zoen_gateway.Prelude.Map.{Map, text_key, lookup, retain, lookup-remove}
use zoen_gateway.Core.Owner
use zoen_gateway.Core.Tool.{Tool}
use zoen_gateway.Core.Connection.{ConnectionRef, as_key, Connection, ◌//◌}
use zoen_gateway.Core.Store.{
  MemoryInner, ref_of, remove_integration, get_connection, get_integration,
}

-- What is found after a `retain` passed the test.
lookup-retain :
    {V : Type 0} (p : Text → V → Bool) (k : Text) (v : V) (m : Map Text V)
    → lookup k (retain p m) ≡ some v
    → p k v ≡ true
unfolding lookup retain
lookup-retain p k v [] h = ground arith
lookup-retain p k v ((j, w) ∷ m) h = ground (arith, lookup-retain p k v m, text_key.beq_iff j k)

starts_with-append : (s t : Text) → starts_with s (s ++ t) ≡ true
starts_with-append [] t = refl
starts_with-append (a ∷ s) t = ground (arith, starts_with-append s t)

-- A text is found behind any other.
contains-append : (n s t : Text) → contains n (s ++ (n ++ t)) ≡ true
unfolding contains
contains-append n (a ∷ s) t = ground (arith, contains-append n s t)
contains-append [] [] [] = refl
contains-append [] [] (b ∷ t) = refl
contains-append (a ∷ n) [] t = ground (arith, starts_with-append n t)

assoc : (s t u : Text) → (s ++ t) ++ u ≡ s ++ (t ++ u)
assoc [] t u = refl
assoc (a ∷ s) t u = rw (assoc s t u) refl

-- The key of a connection holds the slug of its integration between slashes.
contains-as_key :
    (id : ConnectionRef) → contains (47 ∷ id.integration ++ 47 ∷ []) (as_key id) ≡ true
unfolding as_key
contains-as_key id =
    rw⁻¹ (assoc id.integration (47 ∷ []) id.name)
      (contains-append (47 ∷ id.integration ++ 47 ∷ []) (Owner.as_str id.owner) id.name)

unlinked :
    (slug : Text) (c : Connection)
    → not (contains (47 ∷ slug ++ 47 ∷ []) (as_key (ref_of c))) ≡ true
    → text_eq c.integration slug ≡ false
unlinked slug c kept = elim (Bool-cases (text_eq c.integration slug)) [
  | inr other ↦ other
  | inl same ↦
      let e : c.integration ≡ slug = (text_eq_iff c.integration slug).0 same in
      let kept' =
        subst (λ n. not (contains (47 ∷ n ++ 47 ∷ []) (as_key (ref_of c))) ≡ true) (sym e) kept in
      let held = contains-as_key (ref_of c) in ground (arith, kept', held)
]

-- Once an integration is removed, it is not found, no connection to it is found under its own key, and
-- no tool of it is found at all.
pub remove_integration-cascade :
    (slug : Text) (s : MemoryInner)
    → let s' = (remove_integration slug s).1 in
      (get_integration slug s' ≡ none)
      × ((c : Connection)
          → get_connection (ref_of c) s' ≡ some c
          → text_eq c.integration slug ≡ false)
      × ((k : Text) (t : Tool) → lookup k s'.tools ≡ some t → text_eq t.integration slug ≡ false)
unfolding remove_integration get_integration get_connection
remove_integration-cascade slug s = (
  ground (arith, lookup-remove slug slug s.integrations, text_eq_iff slug slug),
  λ c found. unlinked slug c (
      lookup-retain (λ k _. not (contains (47 ∷ slug ++ 47 ∷ []) k)) (as_key (ref_of c)) c
        s.connections found),
  λ k t found.
      ground (arith, lookup-retain (λ _ t. not (text_eq t.integration slug)) k t s.tools found),
)

-- Nothing is found under a key that a `retain` drops.
lookup-retain-none :
    {V : Type 0} (p : Text → V → Bool) (k : Text) (m : Map Text V)
    → ((v : V) → p k v ≡ false)
    → lookup k (retain p m) ≡ none
unfolding lookup retain
lookup-retain-none p k [] drops = refl
lookup-retain-none p k ((j, w) ∷ m) drops =
    let d = drops w in ground (arith, lookup-retain-none p k m drops, text_key.beq_iff j k)

-- What is behind a text is searched too.
contains-skip : (n s t : Text) → contains n t ≡ true → contains n (s ++ t) ≡ true
unfolding contains
contains-skip n [] t h = h
contains-skip n (a ∷ s) t h = ground (arith, contains-skip n s t h)

held :
    (n owner integration before behind : Text)
    → not (contains n (owner // integration // (before ++ (n ++ behind)))) ≡ false
held n owner integration before behind =
    rw
      (contains-skip n owner _ (
        contains-skip n (47 ∷ []) _ (
          contains-skip n integration _
            (contains-skip n (47 ∷ []) _ (contains-append n before behind)))))
      refl

-- A connection whose name holds the slug of an integration between slashes goes with that
-- integration, whatever integration it belongs to itself.
pub remove_integration-overreach :
    (slug before behind : Text) (id : ConnectionRef) (s : MemoryInner)
    → id.name ≡ before ++ ((47 ∷ slug ++ 47 ∷ []) ++ behind)
    → get_connection id (remove_integration slug s).1 ≡ none
unfolding remove_integration get_connection as_key
remove_integration-overreach slug before behind id s named =
    lookup-retain-none (λ k _. not (contains (47 ∷ slug ++ 47 ∷ []) k)) _ s.connections
      (λ v.
        rw named (held (47 ∷ slug ++ 47 ∷ []) (Owner.as_str id.owner) id.integration before behind))
