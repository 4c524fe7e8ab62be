-- ===== src/Actions/Types.antt =====
-- The entries of the action registry (packages/action-registry/src/index.ts) and the result of
-- src/enforcement/normalize.ts.
use clawthority.Base.{String, Option, List}
use clawthority.Enforcement.Types.{RiskLevel, HitlMode}

pub record ActionRegistryEntry : Type 0 where
  pub action_class : String
  pub default_risk : RiskLevel
  pub default_hitl_mode : HitlMode
  pub aliases : List String
  pub intent_group : Option String

pub record NormalizedAction : Type 0 where
  pub action_class : String
  pub risk : RiskLevel
  pub hitl_mode : HitlMode
  pub target : String
  pub intent_group : Option String

-- A parameter of a tool call: a string, or a value of another type, which is not looked into.
pub data Param : Type 0 where
  string_param : String → Param
  other_param : Param
