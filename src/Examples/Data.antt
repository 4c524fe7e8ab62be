-- ===== src/Examples/Data.antt =====
-- The rules, contexts and requests that the examples share.
use clawthority.Base.{ℕ, String, none, some, [], ◌∷◌}
use clawthority.Policy.Types.{Effect, permit, forbid, Rule, RuleContext, RateLimit, tool, literal}
use clawthority.Policy.Engine.{PolicyEngine}
use clawthority.Hitl.Types.{HitlPolicy, HitlPolicyConfig, deny}
use clawthority.Hitl.Approvals.{CreateApprovalOpts, session_approval}
use clawthority.Enforcement.Types.{PipelineContext, Capability, no_hitl}
use clawthority.Enforcement.Stage2.{Engines}
use clawthority.Enforcement.Pipeline.{Env}

abbrev pub same_case : String → String
same_case s = s

abbrev pub agent : RuleContext
agent = record {
  agent_id = "a1";
  channel = "chat";
  verified = none;
  user_id = none;
  session_id = none;
}

abbrev pub blank_rule : ℕ → Effect → Rule
blank_rule ref effect = record {
  ref = ref;
  effect = effect;
  resource = none;
  match = none;
  condition = none;
  reason = none;
  tags = none;
  rate_limit = none;
  action_class = none;
  intent_group = none;
  target_match = none;
  target_in = none;
  priority = none;
}

abbrev pub allow_read : Rule
allow_read = record (blank_rule 0 permit) { action_class = some "filesystem.read" }

abbrev pub gated_delete : Rule
gated_delete = record (blank_rule 1 forbid) {
  action_class = some "filesystem.delete";
  priority = some 90;
}

abbrev pub forbid_tool : Rule
forbid_tool = record (blank_rule 2 forbid) { resource = some tool; match = some (literal "rm") }

abbrev pub twice_a_second : RateLimit
twice_a_second = record { max_calls = 2; window_seconds = 1 }

abbrev pub limited_read : Rule
limited_read = record (blank_rule 3 permit) {
  resource = some tool;
  match = some (literal "*");
  rate_limit = some twice_a_second;
}

abbrev pub cedar : PolicyEngine
cedar = record {
  rules = allow_read ∷ gated_delete ∷ [];
  default_effect = forbid;
  rate_limit_tracking = [];
}

abbrev pub tools_engine : PolicyEngine
tools_engine = record {
  rules = forbid_tool ∷ limited_read ∷ [];
  default_effect = permit;
  rate_limit_tracking = [];
}

abbrev pub engines : Engines
engines = record { cedar = cedar; json = none }

abbrev pub call : String → PipelineContext
call action_class = record {
  action_class = action_class;
  target = "/tmp/a";
  payload_hash = "h";
  approval_id = none;
  session_id = some "s1";
  hitl_mode = no_hitl;
  rule_context = agent;
  source_trust_level = none;
  source = some "user";
  risk = none;
  intent_group = none;
}

abbrev pub running : Env
running = record { openauth_force_active = none; npm_lifecycle_event = none }

abbrev pub deletes : HitlPolicy
deletes = record {
  name = "deletes";
  description = none;
  actions = "filesystem.*" ∷ [];
  approval = record { channel = "telegram"; timeout = 60; fallback = deny };
  tags = none;
}

abbrev pub config : HitlPolicyConfig
config = record { version = "1"; policies = deletes ∷ [] }

abbrev pub request : CreateApprovalOpts
request = record {
  tool_name = "rm";
  agent_id = "a1";
  channel_id = "chat";
  policy = deletes;
  payload_hash = some "h";
  action_class = some "filesystem.delete";
  target = some "/tmp/a";
  summary = none;
  session_id = some "s1";
  mode = some session_approval;
}

abbrev pub capability : Capability
capability = record {
  approval_id = "cap1";
  binding = "filesystem.delete|/tmp/a|h";
  action_class = "filesystem.delete";
  target = "/tmp/a";
  issued_at = 0;
  expires_at = 1000;
  session_id = none;
}
