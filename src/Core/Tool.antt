-- ===== src/Core/Tool.antt =====
-- crates/executor-core/src/tool.rs: a persisted tool.
use zoen_gateway.Prelude.{Bool, Option, if◌then◌else◌}
use zoen_gateway.Prelude.Text.{Text}
use zoen_gateway.Prelude.Json.{Value}
use zoen_gateway.Core.Owner.{Owner}
use zoen_gateway.Core.Address.{ToolAddress, sandbox_path}

pub record ToolAnnotations : Type 0 where
  pub requires_approval : Option Bool
  pub approval_description : Option Text
  pub may_elicit : Option Bool

pub record Tool : Type 0 where
  pub address : ToolAddress
  pub owner : Owner
  pub integration : Text
  pub connection : Text
  pub name : Text
  pub plugin_id : Text
  pub description : Text
  pub input_schema : Option Value
  pub output_schema : Option Value
  pub annotations : Option ToolAnnotations
  pub static_tool : Bool
  pub plugin_meta : Option Value

unfoldable pub cli_path : Tool → Text
cli_path t = if t.static_tool then t.name else sandbox_path t.address
