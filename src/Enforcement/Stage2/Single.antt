-- ===== src/Enforcement/Stage2/Single.antt =====
-- When `createStage2` of src/enforcement/stage2-policy.ts permits, over the engine of
-- src/enforcement/pipeline.ts that maps action-class prefixes to resources.
use clawthority.Base.{ℕ, String, ◌≡◌, refl, true, none, some, inl, inr, Bool-cases, arith}
use clawthority.Base.Text.{first_prefix}
use clawthority.Base.Results.{or_catch, Result-cases}
use clawthority.Policy.Types.{permit, forbid, tool, Resource}
use clawthority.Policy.Engine.{
  EvaluationDecision, PolicyEngine, evaluate, evaluate_by_intent_group, is_forbid, decide_by,
}
use clawthority.Policy.Engine.Cedar.{NoRule, ByResource, evaluate-Verdict, Verdict-NoRule}
use clawthority.Policy.Engine.Groups.{ByGroup, evaluate_by_intent_group-cases}
use clawthority.Policy.Engine.Frame.{evaluate-SamePolicy}
use clawthority.Enforcement.Types.{PipelineContext}
use clawthority.Enforcement.Stage2.{
  stage2, stage2_result, stage2_error, stage2_forbid, intent_group_result,
}
use clawthority.Enforcement.Stage2.Permits.{NoRule-SamePolicy}
use clawthority.Enforcement.Pipeline.{action_class_prefixes, enforcement_evaluate_by_action_class}

-- The resource that the prefix of the class stands for.
abbrev pub prefix_resource : String → Resource
prefix_resource action_class = first_prefix action_class_prefixes action_class tool

stage2_result-permit :
    (ctx : PipelineContext) (e : PolicyEngine) (d : EvaluationDecision)
    → (or_catch (stage2_result ctx e d) stage2_error).effect ≡ permit
    → (d.effect ≡ permit)
      × ((group : String)
          → ctx.intent_group ≡ some group
          → NoRule e (ByGroup group ctx.rule_context) forbid)
unfolding stage2_result stage2_error stage2_forbid intent_group_result
stage2_result-permit ctx e d h = elim (Bool-cases (is_forbid d.effect)) [
  | inl f ↦ let bad : forbid ≡ permit = rw (f, stage2_result) at h in cc
  | inr f ↦ (
    ground arith,
    (λ group p. elim (Result-cases (evaluate_by_intent_group group ctx.rule_context e)) [
      | inl q ↦ let bad : forbid ≡ permit = rw (f, p, q, stage2_result) at h in cc
      | inr (g, q) ↦ elim (evaluate_by_intent_group-cases group ctx.rule_context e g q) [
        | inr (clear, _) ↦ clear
        | inl (r, same, forbids) ↦
            let fg : is_forbid g.effect ≡ true = rw same (unfold decide_by in rw forbids refl) in
            let bad : forbid ≡ permit = rw (f, p, q, fg, stage2_result) at h in cc
      ]
    ]),
  )
]

-- `createStage2` over the prefix-mapping engine permits only where no forbid rule applies: none on the
-- resource that the prefix of the action class stands for, and none of the call's intent group.
pub stage2-permit :
    (lower : String → String) (now : ℕ) (ctx : PipelineContext) (e : PolicyEngine)
    → (stage2 lower now (enforcement_evaluate_by_action_class lower) ctx e).0.effect ≡ permit
    → NoRule e
        (ByResource lower (prefix_resource ctx.action_class) ctx.target ctx.target ctx.rule_context)
        forbid
      × ((group : String)
          → ctx.intent_group ≡ some group
          → NoRule e (ByGroup group ctx.rule_context) forbid)
unfolding stage2 enforcement_evaluate_by_action_class stage2_error
stage2-permit lower now ctx e h =
    let resource = prefix_resource ctx.action_class in
    let run = evaluate lower resource ctx.target ctx.rule_context none now e in
    elim (Result-cases run.0) [
      | inl p ↦ let bad : forbid ≡ permit = rw p at h in cc
      | inr (d, p) ↦
          let (permits, group) = stage2_result-permit ctx run.1 d (rw p at h) in
          (
            Verdict-NoRule e (ByResource lower resource ctx.target ctx.target ctx.rule_context) d
                (evaluate-Verdict lower resource ctx.target ctx.rule_context none now e d p)
                (inl permits),
            (λ g q.
                NoRule-SamePolicy e run.1 (ByGroup g ctx.rule_context)
                  (evaluate-SamePolicy lower resource ctx.target ctx.rule_context none now e)
                  (group g q)),
          )
    ]
