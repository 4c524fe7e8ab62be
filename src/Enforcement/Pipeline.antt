-- ===== src/Enforcement/Pipeline.antt =====
-- src/enforcement/pipeline.ts: the orchestrator of the two stages and the engine that maps
-- action-class prefixes to resources. A world `W` stands for what the stages read and change. The
-- emitter is the list of the decisions emitted; its listeners are taken not to throw. The latency and
-- the timestamps are left out.
pub mod Outcome
use clawthority.Base.{
  ℕ, String, Bool, true, false, ◌&&◌, ◌||◌, not, Option, none, some, List, [], ◌∷◌, ◌==◌, or_else,
  if◌then◌else◌, any, ◌++◌,
}
use clawthority.Base.Text.{first_prefix}
use clawthority.Base.Results.{Result, ok, threw}
use clawthority.Policy.Types.{
  Effect, permit, forbid, RuleContext, Resource, tool, channel, command, prompt, model,
}
use clawthority.Policy.Engine.{PolicyEngine, EvaluationDecision, evaluate, is_forbid}
use clawthority.Enforcement.Types.{
  PipelineContext, CeeDecision, decision, Stage, HitlMode, no_hitl, per_request, session_approval,
}
use clawthority.Enforcement.Stage1.{present_id}

-- The variables of the process environment that are read.
pub record Env : Type 0 where
  pub openauth_force_active : Option String
  pub npm_lifecycle_event : Option String

unfoldable pub is_install_phase : Env → Bool
is_install_phase env =
    if or_else env.openauth_force_active "" == "1"
    then false
    else any (λ e. e == or_else env.npm_lifecycle_event "")
        ("install" ∷ "preinstall" ∷ "postinstall" ∷ "prepare" ∷ [])

abbrev pub is_mode_none : HitlMode → Bool
is_mode_none no_hitl = true
is_mode_none per_request = false
is_mode_none session_approval = false

abbrev pub is_absent : Option String → Bool
is_absent o = elim (present_id o) [ none ↦ true | some _ ↦ false ]

unfoldable pub pipeline_error : CeeDecision
pipeline_error = decision forbid "pipeline_error" "pipeline"

-- `catch { return finish(pipeline_error) }` around what a stage returned
abbrev pub catch_error : {W : Type 0} → Result CeeDecision → W → CeeDecision × W
catch_error (ok d) w = (d, w)
catch_error threw w = (pipeline_error, w)

-- Stage 2, after what stage 1 returned.
abbrev pub second_stage :
    {W : Type 0} → Stage W → PipelineContext → Result CeeDecision → W → CeeDecision × W
second_stage stage2 ctx threw w = (pipeline_error, w)
second_stage stage2 ctx (ok s1) w =
    if is_forbid s1.effect then (s1, w) else let (r, w') = stage2 ctx w in catch_error r w'

-- The decision of `runPipeline`, before it is emitted.
unfoldable pub decide_pipeline :
    {W : Type 0} → Env → Stage W → Stage W → PipelineContext → W → CeeDecision × W
unfolding is_install_phase pipeline_error
decide_pipeline env stage1 stage2 ctx w =
    if is_install_phase env
    then (decision permit "install_phase_bypass" "pipeline", w)
    else if not (is_mode_none ctx.hitl_mode) && is_absent ctx.approval_id
    then (decision forbid "pending_hitl_approval" "hitl", w)
    else let (r, w') = stage1 ctx w in second_stage stage2 ctx r w'

-- `runPipeline(ctx, stage1, stage2, emitter)`
unfoldable pub run_pipeline :
    {W : Type 0}
    → Env
    → Stage W
    → Stage W
    → PipelineContext
    → W × List CeeDecision
    → CeeDecision × (W × List CeeDecision)
unfolding decide_pipeline
run_pipeline env stage1 stage2 ctx (w, events) =
    let (d, w') = decide_pipeline env stage1 stage2 ctx w in (d, (w', events ++ d ∷ []))

abbrev pub action_class_prefixes : List (String × Resource)
action_class_prefixes =
    ("communication.", channel)
    ∷ ("command.", command)
    ∷ ("prompt.", prompt)
    ∷ ("model.", model)
    ∷ []

-- `EnforcementPolicyEngine.evaluateByActionClass`
unfoldable pub enforcement_evaluate_by_action_class :
    (String → String)
    → String
    → String
    → RuleContext
    → ℕ
    → PolicyEngine
    → Result EvaluationDecision × PolicyEngine
unfolding evaluate
enforcement_evaluate_by_action_class lower action_class target ctx now e =
    evaluate lower (first_prefix action_class_prefixes action_class tool) target ctx none now e
