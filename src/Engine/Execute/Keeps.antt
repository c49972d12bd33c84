-- ===== src/Engine/Execute/Keeps.antt =====
-- What an execution leaves of the store, where what it calls leaves it.
use zoen_gateway.Prelude.{List, ◌≡◌, refl, inl, inr, Bool-cases, Option-cases}
use zoen_gateway.Prelude.Text.{Text}
use zoen_gateway.Prelude.Map.{Map, text_key}
use zoen_gateway.Prelude.Json.{Value}
use zoen_gateway.Prelude.Effect.{Result, ok, err, ◌>>=◌, Result-cases}
use zoen_gateway.Core.Tool.{Tool, cli_path}
use zoen_gateway.Core.Connection.{ConnectionRef, IntegrationRecord, AuthMethod, Connection}
use zoen_gateway.Core.Execution.{Outcome}
use zoen_gateway.Core.Store.{MemoryInner, get_integration, get_connection}
use zoen_gateway.Engine.Lookup.{Resolved, static, dynamic}
use zoen_gateway.Engine.Execute.{
  resolve_secrets, invoke_row, Engine, Run, Runtime, invoke, invoke_dynamic, call_plugin,
}

module _ {W X : Type 0} (part : MemoryInner → X) where
  -- An operation that leaves a part of the store as it is.
  abbrev pub Keeps : {A : Type 0} → Run W A → Type 0
  Keeps op = (e : Engine W) → part (op e).1.store ≡ part e.store

  pub Keeps-bind :
      {A B : Type 0} (m : Run W A) (n : A → Run W B)
      → Keeps m
      → ((a : A) → Keeps (n a))
      → Keeps (m >>= n)
  Keeps-bind m n km kn e = elim (Result-cases (m e).0) [
    | inl (a, found) ↦ rw (found, kn a (m e).1) (km e)
    | inr (x, failed) ↦ rw failed (km e)
  ]

-- Secrets, plugins and built-in tools leave a part of the store as it is.
pub record IsTidy {W X : Type 0} (part : MemoryInner → X) (rt : Runtime W) : Type 0 where
  pub prepares :
      (methods : List AuthMethod) (template : Text) (values : Map Text Text) (path : Text)
      (args : Value) (id : Text)
      → Keeps part (rt.prepare methods template values path args id)
  pub plugins :
      (row : IntegrationRecord) (ref : ConnectionRef) (template : Text) (t : Tool) (args : Value)
      (values : Map Text Text) (e : Engine W)
      → part (rt.invoke_plugin row ref template t args values e).1.store ≡ part e.store
  pub statics : (path : Text) (args : Value) → Keeps part (rt.invoke_static path args)

module _ {W X : Type 0} (part : MemoryInner → X) (rt : Runtime W) (tidy : IsTidy part rt) where
  call_plugin-Keeps :
      (row : IntegrationRecord) (ref : ConnectionRef) (conn : Connection) (t : Tool) (args : Value)
      (id : Text) (ready : Result Outcome (Map Text Text))
      → Keeps part (call_plugin rt row ref conn t args id ready)
  unfolding call_plugin
  call_plugin-Keeps row ref conn t args id (err pause) e = refl
  call_plugin-Keeps row ref conn t args id (ok values) e =
      tidy.plugins row ref conn.template t args values e

  invoke_row-Keeps :
      (row : IntegrationRecord) (ref : ConnectionRef) (conn : Connection) (t : Tool) (args : Value)
      (id : Text)
      → Keeps part (invoke_row rt row ref conn t args id)
  unfolding invoke_row
  invoke_row-Keeps row ref conn t args id e =
      elim (Bool-cases (rt.has_plugin row.integration.kind)) [
        | inr missing ↦ rw missing refl
        | inl loaded ↦ elim (Result-cases (resolve_secrets rt conn.secrets)) [
          | inr (x, failed) ↦ rw (loaded, failed) refl
          | inl (values, resolved) ↦
              let prepare =
                rt.prepare row.integration.auth_methods conn.template values (cli_path t) args id in
              let kept =
                tidy.prepares row.integration.auth_methods conn.template values (cli_path t) args id
                  e in
              elim (Result-cases (prepare e).0) [
                | inr (x, unready) ↦ rw (loaded, resolved, unready) kept
                | inl (ready, prepared) ↦
                    rw
                      (
                        loaded,
                        resolved,
                        prepared,
                        call_plugin-Keeps row ref conn t args id ready (prepare e).1,
                      )
                      kept
              ]
        ]
      ]

  invoke_dynamic-Keeps :
      (t : Tool) (args : Value) (id : Text) → Keeps part (invoke_dynamic rt t args id)
  unfolding invoke_dynamic
  invoke_dynamic-Keeps t args id e =
      let ref : ConnectionRef = record {
        owner = t.owner;
        name = t.connection;
        integration = t.integration;
      } in
      elim (Option-cases (get_connection ref e.store)) [
        | inl unconnected ↦ rw unconnected refl
        | inr (conn, connected) ↦ elim (Option-cases (get_integration t.integration e.store)) [
          | inl unknown ↦ rw (connected, unknown) refl
          | inr (row, known) ↦ rw (connected, known) (invoke_row-Keeps row ref conn t args id e)
        ]
      ]

  pub invoke-Keeps :
      (resolved : Resolved) (args : Value) (id : Text) → Keeps part (invoke rt resolved args id)
  invoke-Keeps (static t) args id =
      Keeps-bind part _ _ (tidy.statics (cli_path t) args) (λ result e. refl)
  invoke-Keeps (dynamic t) args id = invoke_dynamic-Keeps t args id
