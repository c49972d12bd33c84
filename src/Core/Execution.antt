-- ===== src/Core/Execution.antt =====
-- crates/executor-core/src/execution.rs: the results of tools, paused executions and outcomes.
use zoen_gateway.Prelude.{ℕ, Bool, Option, none, some, List, [], ◌∷◌, String}
use zoen_gateway.Prelude.Text.{Text, ascii}
use zoen_gateway.Prelude.Json.{Value, Items, Fields, insert_field}
use zoen_gateway.Prelude.Trim.{decimal}

pub record ToolHttpMeta : Type 0 where
  pub status : ℕ
  pub headers : List (Text × Text)

pub record ToolError : Type 0 where
  pub code : Text
  pub message : Text
  pub status : Option ℕ
  pub details : Option Value
  pub retryable : Option Bool

-- How the data are written in JSON; an absent field is left out.
abbrev pub put : String → Value → Fields → Fields
put k = insert_field (ascii k)

abbrev pub put_some : {A : Type 0} → String → (A → Value) → Option A → Fields → Fields
put_some k f none fs = fs
put_some k f (some a) fs = put k (f a) fs

abbrev pub number_of : ℕ → Value
unfolding decimal
number_of n = Value.number (decimal n)

unfoldable pub headers_json : List (Text × Text) → Items
headers_json [] = Items.nil
headers_json ((k, v) ∷ rest) =
    Items.cons (Value.array (Items.cons (Value.string k) (Items.cons (Value.string v) Items.nil)))
      (headers_json rest)

unfoldable pub http_json : ToolHttpMeta → Value
unfolding headers_json insert_field
http_json meta = Value.object (
    put "headers" (Value.array (headers_json meta.headers))
      (put "status" (number_of meta.status) Fields.end))

unfoldable pub error_json : ToolError → Value
unfolding insert_field
error_json e = Value.object (
    put "code" (Value.string e.code) (
      put "message" (Value.string e.message) (
        put_some "status" number_of e.status (
          put_some "details" (λ v. v) e.details
            (put_some "retryable" Value.bool e.retryable Fields.end)))))

pub data ToolResult : Type 0 where
  success : Value → Option ToolHttpMeta → ToolResult
  failure : ToolError → ToolResult

unfoldable pub envelope : ToolResult → Value
unfolding http_json error_json insert_field
envelope (success v http) =
    Value.object
      (put_some "http" http_json http (put "data" v (put "ok" (Value.bool Bool.true) Fields.end)))
envelope (failure e) =
    Value.object (put "error" (error_json e) (put "ok" (Value.bool Bool.false) Fields.end))

-- A form has a message, its schema, and the address and the arguments to go on with.
pub data PauseReason : Type 0 where
  approval : Text → Value → Option Text → Option Value → PauseReason
  auth : Text → Option Text → Option Text → Option Value → PauseReason
  elicitation : Text → Value → Option Text → Option Value → PauseReason

pub record PausedExecution : Type 0 where
  pub id : Text
  pub reason : PauseReason
  pub expires_at_ms : ℕ

pub data ResumeAction : Type 0 where
  accept decline cancel : ResumeAction

pub data PersistChoice : Type 0 where
  session always : PersistChoice

pub record ResumeRequest : Type 0 where
  pub action : ResumeAction
  pub content : Option Value
  pub persist : Option PersistChoice

pub data Outcome : Type 0 where
  completed : ToolResult → Text → Outcome
  paused : PausedExecution → Outcome

-- What is stored of an execution: a paused one with the address and the arguments to invoke on
-- accept, and whether it was approved.
pub data ExecutionState : Type 0 where
  running : ExecutionState
  done : ToolResult → ExecutionState
  waiting : PausedExecution → Text → Value → Bool → ExecutionState
