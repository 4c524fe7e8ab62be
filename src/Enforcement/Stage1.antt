-- ===== src/Enforcement/Stage1.antt =====
-- src/enforcement/stage1-capability.ts: the capability gate. `sha256` and the look-up of a capability
-- are arguments; the consumption check is that of the approval manager.
pub mod Gate
use clawthority.Permits.Words.{codes}
use clawthority.Base.{
  ℕ, String, Bool, true, false, ◌&&◌, ◌||◌, not, Option, none, some, ◌==◌, ltb, or_else,
  if◌then◌else◌, absent_or, present_and,
}
use Prim.Native.String
use clawthority.Base.Results.{Result, ok, threw, or_catch, ◌>>=◌}
use clawthority.Policy.Types.{permit, forbid}
use clawthority.Enforcement.Types.{
  RiskLevel, low, medium, high, critical, HitlMode, no_hitl, per_request, session_approval,
  PipelineContext, CeeDecision, Capability, decision,
}
use clawthority.Hitl.Approvals.{ApprovalManager, is_consumed, compute_binding}

unfoldable pub determine_source_trust_level : Option String → String
determine_source_trust_level none = "agent"
determine_source_trust_level (some source) =
    if source == "user" then "user" else if source == "agent" then "agent" else "untrusted"

abbrev pub risk_name : RiskLevel → String
risk_name low = "low"
risk_name medium = "medium"
risk_name high = "high"
risk_name critical = "critical"

abbrev pub is_high_risk : RiskLevel → Bool
is_high_risk high = true
is_high_risk critical = true
is_high_risk _ = false

-- The risk of an untrusted call that is denied whatever its mode (check 0).
unfoldable pub untrusted_risk : PipelineContext → Option RiskLevel
unfolding determine_source_trust_level
untrusted_risk ctx =
    if or_else ctx.source_trust_level (determine_source_trust_level ctx.source) == "untrusted"
    then elim ctx.risk [ none ↦ none | some r ↦ if is_high_risk r then some r else none ]
    else none

abbrev untrusted_decision : RiskLevel → CeeDecision
untrusted_decision r = record (decision forbid "untrusted_source_high_risk" "stage1-trust") {
  rule = some (codes (String.◌++◌ "trust:untrusted+" (risk_name r)));
}

abbrev pub stage1_forbid : String → CeeDecision
stage1_forbid reason = decision forbid reason "stage1"

-- `capability.session_id !== undefined && capability.session_id !== ctx.session_id`
abbrev pub same_session : Option String → Option String → Bool
same_session none session = true
same_session (some s) none = false
same_session (some s) (some t) = s == t

-- `ctx.approval_id`, where the empty string counts as absent
abbrev pub present_id : Option String → Option String
present_id none = none
present_id (some a) = if a == "" then none else some a

module _ (sha256 : String → String) (now : ℕ) (manager : ApprovalManager) where
  -- Checks 3 to 6, on the capability that was found.
  unfoldable pub check_capability : PipelineContext → String → Capability → CeeDecision
  unfolding compute_binding is_consumed
  check_capability ctx approval_id capability =
      if ltb capability.expires_at now
      then stage1_forbid "capability expired"
      else if not (
          compute_binding sha256 ctx.action_class ctx.target ctx.payload_hash == capability.binding)
      then stage1_forbid "payload binding mismatch"
      else if is_consumed approval_id manager
      then stage1_forbid "capability already consumed"
      else if not (same_session capability.session_id ctx.session_id)
      then stage1_forbid "session scope mismatch"
      else decision permit "capability valid" "stage1"

module _ (sha256 : String → String) (get_capability : String → Result (Option Capability)) (now : ℕ)
    (manager : ApprovalManager) where
  -- Checks 2 to 6.
  unfoldable pub check_approval : PipelineContext → Result CeeDecision
  unfolding check_capability
  check_approval ctx = elim (present_id ctx.approval_id) [
    | none ↦ ok (stage1_forbid "approval_id required")
    | some approval_id ↦ do
      found ← get_capability approval_id
      elim found [
        | none ↦ ok (stage1_forbid "capability not found")
        | some capability ↦ ok (check_capability sha256 now manager ctx approval_id capability)
      ]
  ]

  abbrev pub check_mode : HitlMode → PipelineContext → Result CeeDecision
  check_mode no_hitl ctx = ok (decision permit "hitl_mode none; capability gate bypassed" "stage1")
  check_mode per_request ctx = check_approval ctx
  check_mode session_approval ctx = check_approval ctx

  -- `validateCapability(ctx, approvalManager, getCapability)`
  unfoldable pub validate_capability : PipelineContext → CeeDecision
  unfolding untrusted_risk check_approval
  validate_capability ctx = elim (untrusted_risk ctx) [
    | some r ↦ untrusted_decision r
    | none ↦ or_catch (check_mode ctx.hitl_mode ctx) (stage1_forbid "stage1_error")
  ]
