-- ===== src/Catalog/Error.antt =====
-- crates/executor-catalog/src/lib.rs: `CatalogError`. A message is kept as what it is made from.
use zoen_gateway.Prelude.Int.{ℤ}
use zoen_gateway.Prelude.Text.{Text}

-- The constant texts of `Invalid`.
pub data Reason : Type 0 where
  grant_must_be_positive reserve_cannot_be_negative call_already_reserved : Reason
  cli_name_must_be_a_basename cli_is_denylisted : Reason

-- The texts of `ParameterInvalid`, with the parameter that they name.
pub data BadParameter : Type 0 where
  no_declared_query body_given : BadParameter
  undeclared not_allowed missing : Text → BadParameter

pub data CatalogError : Type 0 where
  not_found : Text → CatalogError
  connect_your_key : Text → Text → CatalogError
  payment_required : ℤ → ℤ → CatalogError
  invalid : Reason → CatalogError
  parameter_invalid : BadParameter → CatalogError
  invalid_doc upstream : Text → CatalogError
