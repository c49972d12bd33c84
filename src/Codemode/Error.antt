-- ===== src/Codemode/Error.antt =====
-- crates/executor-codemode/src/lib.rs: the failures, one constructor for each message.
use zoen_gateway.Prelude.{ℕ, subst, ◌≢◌}
use zoen_gateway.Prelude.Text.{Text}
use zoen_gateway.Prelude.Effect.{Result, ok, err}
use zoen_gateway.Codemode.Token.{Token}

-- `out_of_fuel` stands for no message: it marks a loop of the model that was given too few rounds.
-- `host` is a message of the catalog's side.
pub data CodeError : Type 0 where
  out_of_fuel : CodeError
  unexpected_character : ℕ → CodeError
  unterminated_escape unterminated_string : CodeError
  too_many_statements : CodeError
  expected_binding_name expected_property_name : CodeError
  expected_object_key : Token → CodeError
  expected : Token → CodeError
  unexpected_token : Token → CodeError
  invalid_number : Text → CodeError
  step_limit_exceeded : CodeError
  unknown_identifier : Text → CodeError
  tools_not_json paused_cannot_bind : CodeError
  missing_property : Text → CodeError
  property_on_non_object illegal_index can_only_call_tools : CodeError
  max_tool_calls_exceeded : ℕ → CodeError
  describe_expects_object describe_requires_path describe_no_schemas : CodeError
  source_too_large : ℕ → ℕ → CodeError
  host : Text → CodeError

-- Not the mark of a loop out of fuel.
abbrev pub IsMessage : CodeError → Type 0
IsMessage out_of_fuel = ⊥
IsMessage _ = Unit

abbrev pub Ends : {A : Type 0} → Result CodeError A → Type 0
Ends (ok a) = Unit
Ends (err e) = IsMessage e

pub not_out_of_fuel : {A : Type 0} (r : Result CodeError A) → Ends r → r ≢ err out_of_fuel
not_out_of_fuel r h k = subst Ends k h
