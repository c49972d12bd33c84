-- ===== src/Core/Store.antt =====
-- crates/executor-core/src/store.rs: `MemoryCatalog`, the store of a process without a database. None
-- of its operations fails, so each gives its value, or the state it leaves, or both.
pub mod Cascade
pub mod Laws
use zoen_gateway.Prelude.{
  ℕ, Bool, true, false, Option, none, some, List, [], ◌∷◌, ◌++◌, if◌then◌else◌, ◌&&◌, ◌||◌, not,
  is_some, select,
}
use zoen_gateway.Prelude.Text.{Text, text_eq, contains}
use zoen_gateway.Prelude.Map.{Map, text_key, pair_key, lookup, insert, retain, remove, values}
use zoen_gateway.Prelude.Json.{Value}
use zoen_gateway.Core.Owner
use zoen_gateway.Core.Owner.{Owner}
use zoen_gateway.Core.Policy.{ToolPolicy}
use zoen_gateway.Core.Address.{ToolAddress, to_string}
use zoen_gateway.Core.Tool.{Tool}
use zoen_gateway.Core.Connection.{ConnectionRef, as_key, Connection, IntegrationRecord}
use zoen_gateway.Core.Execution.{ExecutionState}

pub record MemoryInner : Type 0 where
  pub integrations : Map Text IntegrationRecord
  pub connections : Map Text Connection
  pub tools : Map Text Tool
  pub policies : Map Text ToolPolicy
  pub executions : Map Text ExecutionState
  pub idempotency : Map Text Text
  pub blobs : Map (Text × Text) (List ℕ)
  pub kv : Map (Text × Text) Value

abbrev pub empty : MemoryInner
empty = record {
  integrations = [];
  connections = [];
  tools = [];
  policies = [];
  executions = [];
  idempotency = [];
  blobs = [];
  kv = [];
}

abbrev pub tool_belongs : Tool → ConnectionRef → Bool
tool_belongs tool id =
    Owner.same tool.owner id.owner
    && (text_eq tool.integration id.integration && text_eq tool.connection id.name)

unfoldable pub put_integration : IntegrationRecord → MemoryInner → MemoryInner
put_integration row s = record s { integrations = insert row.integration.slug row s.integrations }

unfoldable pub get_integration : Text → MemoryInner → Option IntegrationRecord
get_integration slug s = lookup slug s.integrations

unfoldable pub list_integrations : MemoryInner → List IntegrationRecord
list_integrations s = values s.integrations

unfoldable pub remove_integration : Text → MemoryInner → Bool × MemoryInner
remove_integration slug s = (
  is_some (lookup slug s.integrations),
  record s {
    integrations = remove slug s.integrations;
    connections = retain (λ k _. not (contains (47 ∷ slug ++ 47 ∷ []) k)) s.connections;
    tools = retain (λ _ t. not (text_eq t.integration slug)) s.tools;
  },
)

abbrev pub ref_of : Connection → ConnectionRef
ref_of row = record { owner = row.owner; name = row.name; integration = row.integration }

unfoldable pub put_connection : Connection → MemoryInner → MemoryInner
put_connection row s = record s { connections = insert (as_key (ref_of row)) row s.connections }

unfoldable pub get_connection : ConnectionRef → MemoryInner → Option Connection
get_connection id s = lookup (as_key id) s.connections

abbrev pub none_or : {A : Type 0} → (A → Bool) → Option A → Bool
none_or p none = true
none_or p (some a) = p a

unfoldable pub list_connections : Option Text → Option Owner → MemoryInner → List Connection
list_connections integration owner s =
    select
      (λ c.
        none_or (λ slug. text_eq c.integration slug) integration
        && none_or (λ o. Owner.same c.owner o) owner)
      (values s.connections)

unfoldable pub remove_connection : ConnectionRef → MemoryInner → Bool × MemoryInner
remove_connection id s = (
  is_some (lookup (as_key id) s.connections),
  record s {
    connections = remove (as_key id) s.connections;
    tools = retain (λ _ t. not (tool_belongs t id)) s.tools;
  },
)

unfoldable pub insert_tools : List Tool → Map Text Tool → Map Text Tool
insert_tools [] m = m
insert_tools (tool ∷ tools) m = insert_tools tools (insert (to_string tool.address) tool m)

unfoldable pub replace_tools : ConnectionRef → List Tool → MemoryInner → MemoryInner
replace_tools id tools s = record s {
  tools = insert_tools tools (retain (λ _ t. not (tool_belongs t id) || t.static_tool) s.tools);
}

unfoldable pub get_tool : ToolAddress → MemoryInner → Option Tool
get_tool address s = lookup (to_string address) s.tools

unfoldable pub list_tools : MemoryInner → List Tool
list_tools s = values s.tools

unfoldable pub put_policy : ToolPolicy → MemoryInner → MemoryInner
put_policy row s = record s { policies = insert row.id row s.policies }

unfoldable pub list_policies : MemoryInner → List ToolPolicy
list_policies s = values s.policies

unfoldable pub remove_policy : Text → MemoryInner → Bool × MemoryInner
remove_policy id s = (is_some (lookup id s.policies), record s { policies = remove id s.policies })

unfoldable pub put_execution : Text → ExecutionState → MemoryInner → MemoryInner
put_execution id state s = record s { executions = insert id state s.executions }

unfoldable pub get_execution : Text → MemoryInner → Option ExecutionState
get_execution id s = lookup id s.executions

unfoldable pub take_execution : Text → MemoryInner → Option ExecutionState × MemoryInner
take_execution id s = (lookup id s.executions, record s { executions = remove id s.executions })

-- The first writer wins.
unfoldable pub put_idempotency : Text → Text → MemoryInner → MemoryInner
put_idempotency key id s =
    if is_some (lookup key s.idempotency)
    then s
    else record s { idempotency = insert key id s.idempotency }

unfoldable pub get_idempotency : Text → MemoryInner → Option Text
get_idempotency key s = lookup key s.idempotency

unfoldable pub put_kv : Text → Text → Value → MemoryInner → MemoryInner
put_kv collection id body s = record s { kv = insert (collection, id) body s.kv }

unfoldable pub get_kv : Text → Text → MemoryInner → Option Value
get_kv collection id s = lookup (collection, id) s.kv

unfoldable pub list_kv : Text → MemoryInner → List Value
list_kv collection s = values (retain (λ k _. text_eq k.0 collection) s.kv)

unfoldable pub delete_kv : Text → Text → MemoryInner → Bool × MemoryInner
delete_kv collection id s =
    (is_some (lookup (collection, id) s.kv), record s { kv = remove (collection, id) s.kv })

unfoldable pub put_blob : Text → Text → List ℕ → MemoryInner → MemoryInner
put_blob namespace key value s = record s { blobs = insert (namespace, key) value s.blobs }

unfoldable pub get_blob : Text → Text → MemoryInner → Option (List ℕ)
get_blob namespace key s = lookup (namespace, key) s.blobs

unfoldable pub delete_blob : Text → Text → MemoryInner → MemoryInner
delete_blob namespace key s = record s { blobs = remove (namespace, key) s.blobs }
