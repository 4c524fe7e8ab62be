-- ===== src/Hitl/Types.antt =====
-- src/hitl/types.ts: the policies. Telegram's and Slack's settings, which only the adapters read, are
-- left out.
use clawthority.Base.{ℕ, String, Option, List}

pub data HitlFallback : Type 0 where
  deny auto_approve : HitlFallback

-- `timeout` is in seconds.
pub record HitlApprovalConfig : Type 0 where
  pub channel : String
  pub timeout : ℕ
  pub fallback : HitlFallback

pub record HitlPolicy : Type 0 where
  pub name : String
  pub description : Option String
  pub actions : List String
  pub approval : HitlApprovalConfig
  pub tags : Option (List String)

pub record HitlPolicyConfig : Type 0 where
  pub version : String
  pub policies : List HitlPolicy
