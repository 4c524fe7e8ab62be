-- ===== src/Actions/Gate.antt =====
-- src/validation/mcp-tool-gate.ts: `MCPToolGate`, without its audit entries. Its index of the aliases
-- is built as that of src/enforcement/normalize.ts.
pub mod Admitted
use clawthority.Base.{String, Bool, true, false, Option, none, some, List, map, ◌==◌, if◌then◌else◌}
use clawthority.Base.Maps.{get, string_key}
use clawthority.Base.Sets.{has}
use clawthority.Policy.Types.{Effect, permit, forbid}
use clawthority.Enforcement.Types.{RiskLevel, HitlMode}
use clawthority.Actions.Types.{ActionRegistryEntry}
use clawthority.Actions.Registry.{unknown_entry}
use clawthority.Actions.Normalize.{alias_index}

pub data GateReason : Type 0 where
  registered_tool exec_wrapper_blocked operator_allowlisted unregistered_tool : GateReason

pub record GateDecision : Type 0 where
  pub effect : Effect
  pub action_class : String
  pub risk : RiskLevel
  pub hitl_mode : HitlMode
  pub reason : GateReason
  pub registered : Bool
  pub allowlisted : Bool

-- The operator's allowlist, in lower case.
pub record ToolGate : Type 0 where
  pub allowlist : List String

unfoldable pub new_gate : (String → String) → List String → ToolGate
new_gate lower names = record { allowlist = map lower names }

-- A decision with the class, the risk and the mode of an entry.
abbrev pub gate_decision : ActionRegistryEntry → Effect → GateReason → Bool → Bool → GateDecision
gate_decision entry effect reason registered allowlisted = record {
  effect = effect;
  action_class = entry.action_class;
  risk = entry.default_risk;
  hitl_mode = entry.default_hitl_mode;
  reason = reason;
  registered = registered;
  allowlisted = allowlisted;
}

abbrev pub decide_entry : Option ActionRegistryEntry → Bool → GateDecision
decide_entry (some entry) listed =
    if entry.action_class == "shell.exec"
    then gate_decision entry forbid exec_wrapper_blocked true false
    else gate_decision entry permit registered_tool true false
decide_entry none true = gate_decision unknown_entry permit operator_allowlisted false true
decide_entry none false = gate_decision unknown_entry forbid unregistered_tool false false

unfoldable pub evaluate_tool : (String → String) → ToolGate → String → GateDecision
unfolding get has
evaluate_tool lower gate tool_name =
    decide_entry (get (lower tool_name) alias_index) (has (lower tool_name) gate.allowlist)
