-- ===== src/Engine/Tests.antt =====
-- The theorems on executions at concrete inputs: a world that counts what acts on it, one built-in
-- tool, and policies that block it or ask for an approval.
use zoen_gateway.Prelude.{
  ℕ, zero, suc, ◌+◌, ◌-◌, ◌*◌, ◌/◌, ◌%◌, ◌^◌, ◌≤◌, ◌<◌, String, ◌≡◌, refl, sym, ap, ◌∙◌, subst, ◌≢◌,
  ◌↔◌, ◌⊎◌, inl, inr, Bool, true, false, not, ◌&&◌, ◌||◌, Option, none, some, List, [], ◌∷◌, ◌++◌,
  map, arith, ltb, leb, ◌==◌, if◌then◌else◌, ==_iff, Bool-cases, Option-cases, is_some, unwrap_or,
  and_then, or_else, length, get_elem?, take, drop, any, all, find_first, select, length-append,
  All, In, In-append,
}
use zoen_gateway.Prelude.Text.{
  text_eq, text_eq_iff, text_eq_refl, text_lt, starts_with, has_byte, contains, split, strip_prefix,
}
use zoen_gateway.Core.Limits.{Limits, production}
use zoen_gateway.Engine.Error.{overloaded}
use zoen_gateway.Engine.Permits.{
  Permits, new_permits, capacity, read_in_flight, acquire_permit, Stage, arriving, sized, permitted,
  ended,
}
use zoen_gateway.Engine.Permits.Capacity.{
  Reach, start, arrive, move, measure, acquire, count, has_permit, is_counted, Reach-capacity,
  acquire_permit-overloaded,
}
use zoen_gateway.Prelude.Text.{Text, ascii}
use zoen_gateway.Prelude.Map.{text_key}
use zoen_gateway.Prelude.Json.{null}
use zoen_gateway.Prelude.Effect.{ok, err, is_ok}
use zoen_gateway.Core.Owner.{org}
use zoen_gateway.Core.Policy.{PolicyAction, approve, block, require_approval, ToolPolicy}
use zoen_gateway.Core.Tool.{Tool, cli_path}
use zoen_gateway.Core.Execution.{
  completed, success, paused, waiting, ResumeRequest, accept, decline,
}
use zoen_gateway.Core.Store.{
  MemoryInner, empty, put_policy, put_execution, get_execution, put_idempotency,
}
use zoen_gateway.Engine.Error.{execution_not_found}
use zoen_gateway.Engine.Lookup.{static, resolve_path}
use zoen_gateway.Engine.Execute.{
  Engine, Runtime, approval_of, session_approved, touch_subject, effective_of, execute_gated,
  resume_gated,
}
use zoen_gateway.Engine.Execute.Gate.{execute_gated-block, execute_gated-require_approval}
use zoen_gateway.Engine.Execute.Resume.{
  stored_executions, resume_gated-refused, resume_gated-consumes,
}
use zoen_gateway.Engine.Execute.Keeps.{IsTidy}
use zoen_gateway.Engine.Execute.Again.{stored_keys, execute_gated-execute_gated}
use zoen_gateway.Engine.Execute.Resumed.{execute_gated-resume_gated}

abbrev list_tool : Tool
list_tool = record {
  address = record {
    integration = ascii "executor";
    owner = org;
    connection = ascii "core";
    tool = ascii "list";
  };
  owner = org;
  integration = ascii "executor";
  connection = ascii "core";
  name = ascii "core.list";
  plugin_id = ascii "core-tools";
  description = [];
  input_schema = none;
  output_schema = none;
  annotations = none;
  static_tool = true;
  plugin_meta = none;
}

abbrev counting : Runtime ℕ
counting = record {
  static_tools = (ascii "core.list", list_tool) ∷ [];
  max_arg_bytes = 1024;
  approval_ttl_ms = 900_000;
  size = λ v. 4;
  is_integer = λ n. true;
  from_utf8 = λ t. true;
  resolve_secret = λ r. ok [];
  has_plugin = λ kind. false;
  prepare = λ methods template values path args id e. (ok (ok values), e);
  invoke_plugin = λ row ref template t args values e. (ok (success null none), e);
  invoke_static = λ path args e. (ok (success null none), record e { world = suc e.world });
  sleep = λ e. e;
}

abbrev ruled : PolicyAction → Engine ℕ
ruled action = record {
  store =
      put_policy
        (record {
          id = ascii "p1";
          owner = org;
          pattern = ascii "core.*";
          action = action;
          position = ascii "a0";
        })
        empty;
  world = 0;
}

abbrev path : Text
path = ascii "core.list"

abbrev e1 : Text
e1 = ascii "exec_1"

execute_gated-block_example :
    (is_ok (execute_gated counting path null true none e1 7 (ruled block)).0 ≡ false)
    × ((execute_gated counting path null true none e1 7 (ruled block)).1.world ≡ 0)
unfolding resolve_path zoen_gateway.Prelude.Map.lookup zoen_gateway.Prelude.Text.text_eq
    zoen_gateway.Core.Policy.effective_policy zoen_gateway.Core.Policy.resolve_tool_policy
    zoen_gateway.Core.Store.list_policies zoen_gateway.Prelude.Map.values put_policy
    zoen_gateway.Prelude.Map.insert zoen_gateway.Prelude.Sort.sort_by
    zoen_gateway.Core.Policy.match_pattern zoen_gateway.Prelude.Text.split cli_path
execute_gated-block_example =
    execute_gated-block counting path null true e1 7 (ruled block) (static list_tool) refl refl

unapproved : session_approved list_tool (touch_subject 7 (ruled require_approval).store) ≡ false
unfolding session_approved zoen_gateway.Core.Store.get_kv zoen_gateway.Prelude.Map.lookup
    touch_subject zoen_gateway.Core.Store.put_kv zoen_gateway.Prelude.Map.insert put_policy
    zoen_gateway.Prelude.Text.text_eq
unapproved = refl

unmet : (effective_of list_tool (ruled require_approval).store).action ≡ require_approval
unfolding zoen_gateway.Core.Policy.effective_policy zoen_gateway.Core.Policy.resolve_tool_policy
    zoen_gateway.Core.Store.list_policies zoen_gateway.Prelude.Map.values put_policy
    zoen_gateway.Prelude.Map.insert zoen_gateway.Prelude.Sort.sort_by
    zoen_gateway.Core.Policy.match_pattern zoen_gateway.Prelude.Text.text_eq
    zoen_gateway.Prelude.Text.split cli_path
unmet = refl

execute_gated-require_approval_example :
    let r = execute_gated counting path null false none e1 7 (ruled require_approval) in
    let execution = approval_of counting list_tool null e1 7 in
    (r.0 ≡ ok (paused execution))
    × (r.1.world ≡ 0)
    × (get_execution e1 r.1.store ≡ some (waiting execution (cli_path list_tool) null false))
unfolding resolve_path zoen_gateway.Prelude.Map.lookup zoen_gateway.Prelude.Text.text_eq
    zoen_gateway.Engine.Execute.reject_oversize zoen_gateway.Engine.Execute.validate_args
execute_gated-require_approval_example =
    execute_gated-require_approval counting path null e1 7 (ruled require_approval)
      (static list_tool) refl refl refl unmet unapproved

abbrev paused_one : Engine ℕ
paused_one = record {
  store =
      put_execution e1 (waiting (approval_of counting list_tool null e1 7) path null false)
        (put_idempotency (ascii "k") e1 empty);
  world = 0;
}

abbrev yes : ResumeRequest
yes = record { action = accept; content = none; persist = none }

abbrev no : ResumeRequest
no = record { action = decline; content = none; persist = none }

resume_gated-refused_example :
    let e' = (resume_gated counting e1 no 8 paused_one).1 in
    (e'.world ≡ 0)
    × (get_execution e1 e'.store ≡ none)
    × (resume_gated counting e1 yes 9 e' ≡ (err (execution_not_found e1), e'))
resume_gated-refused_example = resume_gated-refused counting e1 no yes 8 9 paused_one (λ e. cc)

counting-IsTidy : IsTidy stored_executions counting
counting-IsTidy = record {
  prepares = λ methods template values path args id e. refl;
  plugins = λ row ref template t args values e. refl;
  statics = λ path args e. refl;
}

resume_gated-consumes_example :
    let e' = (resume_gated counting e1 yes 8 paused_one).1 in
    resume_gated counting e1 yes 9 e' ≡ (err (execution_not_found e1), e')
resume_gated-consumes_example =
    resume_gated-consumes counting e1 yes yes 8 9 paused_one counting-IsTidy

execute_gated-resume_gated_example :
    let e' = (resume_gated counting e1 yes 8 paused_one).1 in
    execute_gated counting path null false (some (ascii "k")) (ascii "exec_2") 9 e'
    ≡ execute_gated counting path null false none (ascii "exec_2") 9 e'
unfolding resume_gated zoen_gateway.Core.Store.get_idempotency zoen_gateway.Prelude.Map.lookup
    zoen_gateway.Core.Store.take_execution put_execution zoen_gateway.Prelude.Map.insert
    put_idempotency text_eq zoen_gateway.Engine.Execute.accepted
    zoen_gateway.Engine.Execute.split_persist resolve_path zoen_gateway.Engine.Execute.dispatch
    zoen_gateway.Engine.Execute.gate zoen_gateway.Core.Policy.effective_policy
    zoen_gateway.Core.Policy.resolve_tool_policy zoen_gateway.Core.Store.list_policies
    zoen_gateway.Prelude.Map.values
execute_gated-resume_gated_example =
    execute_gated-resume_gated counting (ascii "k") e1 yes path null false (ascii "exec_2") 8 9
      paused_one counting-IsTidy (λ e. refl) refl refl

counting-keeps_keys : IsTidy stored_keys counting
counting-keeps_keys = record {
  prepares = λ methods template values path args id e. refl;
  plugins = λ row ref template t args values e. refl;
  statics = λ path args e. refl;
}

abbrev bare : Engine ℕ
bare = record { store = empty; world = 0 }

abbrev k1 : Text
k1 = ascii "k1"

abbrev ran : Engine ℕ
ran = (execute_gated counting path null false (some k1) e1 7 bare).1

answered :
    (execute_gated counting path null false (some k1) e1 7 bare).0
    ≡ ok (completed (success null none) e1)
unfolding zoen_gateway.Engine.Execute.execute_gated zoen_gateway.Engine.Execute.reject_oversize
    zoen_gateway.Engine.Execute.replay_idempotent zoen_gateway.Engine.Execute.start
    zoen_gateway.Engine.Execute.validate_args zoen_gateway.Engine.Execute.claim_idempotent
    zoen_gateway.Engine.Execute.touch_subject zoen_gateway.Engine.Execute.run_tool
    zoen_gateway.Engine.Execute.gate zoen_gateway.Engine.Execute.session_approved
    zoen_gateway.Engine.Execute.dispatch zoen_gateway.Engine.Execute.persist_outcome
    zoen_gateway.Core.Store.get_idempotency zoen_gateway.Core.Store.put_idempotency
    zoen_gateway.Core.Store.put_kv zoen_gateway.Core.Store.get_kv
    zoen_gateway.Core.Store.put_execution zoen_gateway.Core.Store.list_policies
    zoen_gateway.Prelude.Map.lookup zoen_gateway.Prelude.Map.insert zoen_gateway.Prelude.Map.values
    zoen_gateway.Engine.Lookup.resolve_path zoen_gateway.Prelude.Text.text_eq
    zoen_gateway.Prelude.Text.text_lt zoen_gateway.Core.Tool.cli_path
    zoen_gateway.Core.Secret.strip_secret_refs zoen_gateway.Prelude.Sort.sort_by
    zoen_gateway.Core.Policy.effective_policy zoen_gateway.Core.Policy.resolve_tool_policy
answered = refl

-- Other tools have run since.
abbrev ran_on : Engine ℕ
ran_on = record ran { world = 5 }

execute_gated-execute_gated_example :
    execute_gated counting path null false (some k1) (ascii "exec_2") 9 ran_on
    ≡ (ok (completed (success null none) e1), ran_on)
unfolding zoen_gateway.Core.Store.get_idempotency zoen_gateway.Prelude.Map.lookup put_policy
    zoen_gateway.Engine.Execute.reject_oversize
execute_gated-execute_gated_example =
    execute_gated-execute_gated counting k1 path path null null false false e1 (ascii "exec_2") 7 9
      bare ran_on (completed (success null none) e1) counting-keeps_keys refl answered refl refl
      refl

-- One permit: the first task takes it, and the second is refused.
abbrev one_permit : Limits
one_permit = record production { max_in_flight = 1 }

abbrev taken : Permits
taken = record { available = 0; in_flight = 0 }

-- Both tasks read the free permit, and one takes it.
abbrev second_waits : List Stage
second_waits = sized 0 ∷ permitted ∷ []

both_read : Reach one_permit taken second_waits
unfolding new_permits read_in_flight acquire_permit
both_read =
    let fresh = new_permits one_permit in
    let both = arrive fresh (arriving ∷ []) (arrive fresh [] start) in
    let first_read = move fresh fresh [] (arriving ∷ []) arriving (sized 0) both (measure fresh) in
    let read = move fresh fresh (sized 0 ∷ []) [] arriving (sized 0) first_read (measure fresh) in
    move fresh taken (sized 0 ∷ []) [] (sized 0) permitted read (acquire fresh 0)

Reach-capacity_example :
    (0 + count has_permit second_waits ≡ capacity one_permit)
    × (1 ≤ capacity one_permit)
    × (0 % 2 ^ 64 ≡ count is_counted second_waits % 2 ^ 64)
Reach-capacity_example = Reach-capacity both_read

-- The error names no run in flight, though the only permit is taken.
second_refused : (acquire_permit one_permit 0 taken).0 ≡ ended (err (overloaded 0 1 50))
unfolding acquire_permit
second_refused = refl

acquire_permit-overloaded_example :
    (count has_permit second_waits ≡ capacity one_permit)
    × (one_permit.acquire_timeout ≡ 0)
    × (◌≡◌ {A = ℕ} 0 0)
    × (0 ≤ one_permit.max_in_flight)
    × (1 ≡ one_permit.max_in_flight)
acquire_permit-overloaded_example =
    acquire_permit-overloaded [] (permitted ∷ []) 0 0 1 50 both_read second_refused
