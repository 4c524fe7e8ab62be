-- ===== src/Enforcement/Dispatch.antt =====
-- src/enforcement/hitl-dispatch.ts: `runWithHitl`. The operator's answer (`await handle.promise`, during
-- which other events change the world) and the issue of a capability are parameters; the latter may
-- reject, and then the call rejects.
pub mod Release
pub mod Hard
use clawthority.Permits.Words.{Text}
use clawthority.Base.{
  ℕ, String, Bool, true, false, ◌&&◌, not, Option, none, some, List, [], ◌∷◌, or_else,
  if◌then◌else◌,
}
use clawthority.Base.Results.{Result, ok, threw}
use clawthority.Policy.Types.{Effect, permit, forbid}
use clawthority.Policy.Engine.{is_permit, is_forbid}
use clawthority.Hitl.Types.{HitlPolicy, HitlPolicyConfig}
use clawthority.Hitl.Matcher.{check_action}
use clawthority.Hitl.Approvals.{
  HitlDecision, approved, denied, expired, ApprovalManager, CreateApprovalOpts,
  create_approval_request,
}
use clawthority.Enforcement.Types.{
  PipelineContext, CeeDecision, decision, Capability, Stage, HitlMode, no_hitl, per_request,
}
use clawthority.Enforcement.Stage1.{validate_capability}
use clawthority.Enforcement.Stage2.{Engines, below_threshold, combined_stage2}
use clawthority.Enforcement.Pipeline.{Env, run_pipeline}

-- What the stages and the dispatch read and change.
pub record World : Type 0 where
  pub manager : ApprovalManager
  pub capabilities : List (String × Capability)
  pub engines : Engines

pub record HitlDispatchOpts : Type 0 where
  pub hitl_config : HitlPolicyConfig
  pub issue_capability :
      String → String → String → Option String → World → Result Capability × World
  pub agent_id : String
  pub channel_id : String

-- A forbid below the threshold is released: the operator has approved the call.
unfoldable pub release : Result CeeDecision → Result CeeDecision
release threw = threw
release (ok d) =
    if is_forbid d.effect && below_threshold d.priority
    then ok (decision permit "hitl_approved" "hitl")
    else ok d

unfoldable pub approved_stage2 : Stage World → Stage World
unfolding release
approved_stage2 stage2 ctx w = let (r, w') = stage2 ctx w in (release r, w')

abbrev pub first_ctx : PipelineContext → PipelineContext
first_ctx ctx = record ctx { hitl_mode = no_hitl }

abbrev pub rerun_ctx : PipelineContext → Capability → PipelineContext
rerun_ctx ctx capability = record ctx {
  hitl_mode = per_request;
  approval_id = some capability.approval_id;
}

-- The request that is made; `mode` is not given, so the token is the random identifier.
abbrev pub approval_opts : HitlDispatchOpts → PipelineContext → HitlPolicy → CreateApprovalOpts
approval_opts opts ctx policy = record {
  tool_name = ctx.action_class;
  agent_id = opts.agent_id;
  channel_id = opts.channel_id;
  policy = policy;
  payload_hash = some ctx.payload_hash;
  action_class = some ctx.action_class;
  target = some ctx.target;
  summary = none;
  session_id = ctx.session_id;
  mode = none;
}

abbrev pub Run : Type 0
Run = Result CeeDecision × (World × List CeeDecision)

module _ (env : Env) (sha256 : String → String) (await_decision : ℕ → World → HitlDecision × World)
    (uuid : String) (now : ℕ) (stage1 stage2 : Stage World) (opts : HitlDispatchOpts)
    (ctx : PipelineContext) where
  -- Once a capability is issued: the pipeline once more, with the stage that releases.
  unfoldable pub rerun : Result Capability → World → List CeeDecision → Run
  unfolding run_pipeline approved_stage2
  rerun threw w events = (threw, (w, events))
  rerun (ok capability) w events =
      let (d, s) =
        run_pipeline env stage1 (approved_stage2 stage2) (rerun_ctx ctx capability) (w, events) in
      (ok d, s)

  abbrev pub uphold : CeeDecision → World → List CeeDecision → Run
  uphold first w events = (ok (decision forbid first.reason "hitl"), (w, events))

  -- What follows the operator's decision.
  unfoldable pub after_decision : CeeDecision → HitlDecision → World → List CeeDecision → Run
  unfolding rerun
  after_decision first approved w events =
      let (issued, w') =
        opts.issue_capability ctx.action_class ctx.target ctx.payload_hash ctx.session_id w in
      rerun issued w' events
  after_decision first denied w events = uphold first w events
  after_decision first expired w events = uphold first w events

  -- The request for approval, and the wait for its decision.
  unfoldable pub dispatch : HitlPolicy → CeeDecision → World → List CeeDecision → Run
  unfolding after_decision create_approval_request
  dispatch policy first w events =
      let (handle, m) =
        create_approval_request sha256 (approval_opts opts ctx policy) uuid now w.manager in
      let (answer, w') = await_decision handle.promise (record w { manager = m }) in
      after_decision first answer w' events

  -- `runWithHitl(ctx, stage1, stage2, emitter, opts)`
  unfoldable pub run_with_hitl : World → List CeeDecision → Run
  unfolding run_pipeline dispatch check_action
  run_with_hitl w events =
      let (first, s) = run_pipeline env stage1 stage2 (first_ctx ctx) (w, events) in
      if is_permit first.effect
      then (ok first, s)
      else if not (below_threshold first.priority)
      then (ok first, s)
      else elim (check_action opts.hitl_config ctx.action_class) [
        | none ↦ (ok first, s)
        | some policy ↦ dispatch policy first s.0 s.1
      ]

-- `validateCapability` as a stage of the world.
unfoldable pub world_stage1 :
    (String → String) → (World → String → Result (Option Capability)) → ℕ → Stage World
unfolding validate_capability
world_stage1 sha256 get_capability now ctx w =
    (ok (validate_capability sha256 (get_capability w) now w.manager ctx), w)

-- `createCombinedStage2` as a stage of the world.
unfoldable pub world_stage2 :
    (String → String)
    → ℕ
    → String
    → Option (String → String → Bool)
    → Option (String → Option Text)
    → Stage World
unfolding combined_stage2
world_stage2 lower now tool_name auto_permit auto_permit_rules ctx w =
    let (d, es) = combined_stage2 lower now tool_name auto_permit auto_permit_rules ctx w.engines in
    (ok d, record w { engines = es })
