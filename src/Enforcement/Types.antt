-- ===== src/Enforcement/Types.antt =====
-- The types of src/enforcement/pipeline.ts and src/adapter/types.ts that the stages share.
use clawthority.Permits.Words.{Text}
use clawthority.Base.{ℕ, String, Option, none, some}
use clawthority.Base.Results.{Result}
use clawthority.Policy.Types.{Effect, RuleContext}

pub data RiskLevel : Type 0 where
  low medium high critical : RiskLevel

pub data HitlMode : Type 0 where
  no_hitl per_request session_approval : HitlMode

pub record PipelineContext : Type 0 where
  pub action_class : String
  pub target : String
  pub payload_hash : String
  pub approval_id : Option String
  pub session_id : Option String
  pub hitl_mode : HitlMode
  pub rule_context : RuleContext
  pub source_trust_level : Option String
  pub source : Option String
  pub risk : Option RiskLevel
  pub intent_group : Option String

pub record CeeDecision : Type 0 where
  pub effect : Effect
  pub reason : String
  pub stage : Option String
  pub priority : Option ℕ
  pub rule : Option Text

-- A decision with a reason and a stage only.
abbrev pub decision : Effect → String → String → CeeDecision
decision effect reason stage = record {
  effect = effect;
  reason = reason;
  stage = some stage;
  priority = none;
  rule = none;
}

-- src/adapter/types.ts
pub record Capability : Type 0 where
  pub approval_id : String
  pub binding : String
  pub action_class : String
  pub target : String
  pub issued_at : ℕ
  pub expires_at : ℕ
  pub session_id : Option String

-- An asynchronous stage over a world `W` that it reads and may change; its promise may reject.
abbrev pub Stage : Type 0 → Type 0
Stage W = PipelineContext → W → Result CeeDecision × W
