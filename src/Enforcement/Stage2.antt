-- ===== src/Enforcement/Stage2.antt =====
-- src/enforcement/stage2-policy.ts: the policy stage. `createCombinedStage2` runs two engines; its
-- `try … catch` is `finish`, and an engine's evaluation may throw.
pub mod Steps
pub mod Forbids
pub mod Quiet
pub mod Captured
pub mod Permits
pub mod Single
use clawthority.Permits.Words.{Text}
use clawthority.Base.{
  ℕ, String, Bool, true, false, ◌&&◌, ◌||◌, not, Option, none, some, List, [], ◌∷◌, ◌==◌, ltb,
  or_else, if◌then◌else◌, any,
}
use clawthority.Base.Results.{Result, ok, threw, or_catch, ◌>>=◌}
use clawthority.Policy.Types.{Effect, permit, forbid, Rule, RuleContext, tool, Resource}
use clawthority.Policy.Engine.{
  EvaluationDecision, PolicyEngine, evaluate, evaluate_by_action_class, evaluate_by_intent_group,
  add_rules, new_engine, is_permit, is_forbid,
}
use clawthority.Enforcement.Types.{PipelineContext, CeeDecision, decision}

abbrev pub hitl_priority_threshold : ℕ
hitl_priority_threshold = 100

abbrev pub implicit_deny_priority : ℕ
implicit_deny_priority = 0

abbrev pub effect_name : Effect → String
effect_name permit = "permit"
effect_name forbid = "forbid"

-- `result.matchedRule?.priority`
abbrev pub rule_priority : EvaluationDecision → Option ℕ
rule_priority d = elim d.matched_rule [ none ↦ none | some r ↦ r.priority ]

-- `p !== undefined && p < HITL_PRIORITY_THRESHOLD`
abbrev pub below_threshold : Option ℕ → Bool
below_threshold none = false
below_threshold (some p) = ltb p hitl_priority_threshold

unfoldable pub is_hitl_gated_decision : EvaluationDecision → Bool
is_hitl_gated_decision d = elim d.matched_rule [ none ↦ true | some r ↦ below_threshold r.priority ]

unfoldable pub to_staged_forbid : EvaluationDecision → String → CeeDecision
to_staged_forbid d stage = record {
  effect = forbid;
  reason = or_else d.reason "forbid";
  stage = some stage;
  priority = elim d.matched_rule [ none ↦ some implicit_deny_priority | some r ↦ r.priority ];
  rule = none;
}

-- The forbid that `createStage2` returns, with the priority of the rule if it has one.
unfoldable pub stage2_forbid : EvaluationDecision → CeeDecision
stage2_forbid d = record (decision forbid (or_else d.reason "forbid") "stage2") {
  priority = rule_priority d;
}

unfoldable pub stage2_error : CeeDecision
stage2_error = decision forbid "stage2_error" "stage2"

unfoldable pub intent_group_result :
    Option String → RuleContext → PolicyEngine → Result (Option EvaluationDecision)
intent_group_result none ctx e = ok none
intent_group_result (some group) ctx e = do d ← evaluate_by_intent_group group ctx e; ok (some d)

unfoldable pub stage2_result :
    PipelineContext → PolicyEngine → EvaluationDecision → Result CeeDecision
unfolding stage2_forbid intent_group_result
stage2_result ctx e result = if is_forbid result.effect then ok (stage2_forbid result) else (do
  group ← intent_group_result ctx.intent_group ctx.rule_context e
  let passed = decision result.effect (or_else result.reason (effect_name result.effect)) "stage2"
  elim group [
    | none ↦ ok passed
    | some d ↦ ok (if is_forbid d.effect then stage2_forbid d else passed)
  ])

-- The two engines of the combined stage; the second is absent where no JSON rules are configured.
pub record Engines : Type 0 where
  pub cedar : PolicyEngine
  pub json : Option PolicyEngine

-- How far the body of the combined stage has come: it has returned, or it goes on with the forbid that
-- it has captured.
pub data Flow : Type 0 where
  done : CeeDecision → Flow
  going : Option CeeDecision → Flow

-- An explicit or implicit forbid either ends the evaluation or is captured, unless one was before.
unfoldable pub absorb : EvaluationDecision → String → Option CeeDecision → Flow
unfolding is_hitl_gated_decision to_staged_forbid
absorb d stage pending =
    if is_forbid d.effect
    then if is_hitl_gated_decision d
      then going (some (or_else pending (to_staged_forbid d stage)))
      else done (to_staged_forbid d stage)
    else going pending

abbrev pub State : Type 0
State = Result Flow × Engines

-- The next part of the body, unless it has thrown or returned.
abbrev pub next_from : Result Flow → Engines → (Option CeeDecision → Engines → State) → State
next_from threw es k = (threw, es)
next_from (ok (done d)) es k = (ok (done d), es)
next_from (ok (going pending)) es k = k pending es

infixl 5 ◌then_do◌
abbrev pub ◌then_do◌ : State → (Option CeeDecision → Engines → State) → State
s then_do k = next_from s.0 s.1 k

-- The intent-group rules of one engine: a forbid that a rule decided ends the loop.
unfoldable pub absorb_group : EvaluationDecision → String → Option Flow
unfolding is_hitl_gated_decision to_staged_forbid
absorb_group d stage =
    if is_forbid d.effect
    then elim d.matched_rule [
      | none ↦ none
      | some r ↦
          if is_hitl_gated_decision d
          then some (going (some (to_staged_forbid d stage)))
          else some (done (to_staged_forbid d stage))
    ]
    else none

-- `break`, or on to the next engine
abbrev pub rest_of_loop : Option Flow → Result Flow → Result Flow
rest_of_loop (some flow) rest = ok flow
rest_of_loop none rest = rest

unfoldable pub intent_loop : String → RuleContext → List (PolicyEngine × String) → Result Flow
unfolding absorb_group
intent_loop group ctx [] = ok (going none)
intent_loop group ctx ((engine, stage) ∷ rest) = do
  d ← evaluate_by_intent_group group ctx engine
  rest_of_loop (absorb_group d stage) (intent_loop group ctx rest)

abbrev pub engine_entries : Engines → List (PolicyEngine × String)
engine_entries es =
    (es.cedar, "cedar") ∷ elim es.json [ none ↦ [] | some j ↦ (j, "json-rules") ∷ [] ]

-- The intent-group part: skipped where a forbid has been captured.
unfoldable pub intent_part : PipelineContext → Option CeeDecision → Engines → State
unfolding intent_loop
intent_part ctx (some d) es = (ok (going (some d)), es)
intent_part ctx none es = elim ctx.intent_group [
  | none ↦ (ok (going none), es)
  | some group ↦ (intent_loop group ctx.rule_context (engine_entries es), es)
]

unfoldable pub finish : Result Flow → CeeDecision
unfolding stage2_error
finish threw = stage2_error
finish (ok (done d)) = d
finish (ok (going (some d))) = d
finish (ok (going none)) = decision permit "all_policies_passed" "stage2"

abbrev pub is_exec_class : String → Bool
is_exec_class c = c == "shell.exec" || (c == "code.execute" || c == "unknown_sensitive_action")

-- The checks before the engines: the session's approvals, then the stored patterns, of which the
-- checker returns the one that matches.
unfoldable pub early_permit :
    String
    → Option (String → String → Bool)
    → Option (String → Option Text)
    → PipelineContext
    → Option CeeDecision
early_permit tool_name auto_permit auto_permit_rules ctx =
    let by_rules : Option CeeDecision = elim auto_permit_rules [
      | none ↦ none
      | some match_command ↦
          let cmd = if is_exec_class ctx.action_class then ctx.target else tool_name in
          if cmd == "" then none else elim (match_command cmd) [
            | none ↦ none
            | some pattern ↦
                some (record (decision permit "auto_permit_rule" "auto-permit") {
                  rule = some pattern;
                })
          ]
    ] in
    elim auto_permit [
      | none ↦ by_rules
      | some approved ↦
          if approved ctx.rule_context.channel ctx.action_class
          then some (decision permit "session_auto_approved" "stage2")
          else by_rules
    ]

module _ (lower : String → String) (now : ℕ) where
  -- `createStage2(engine)` over an engine that evaluates action classes by `by_class`.
  unfoldable pub stage2 :
      (String → String → RuleContext → ℕ → PolicyEngine → Result EvaluationDecision × PolicyEngine)
      → PipelineContext
      → PolicyEngine
      → CeeDecision × PolicyEngine
  unfolding stage2_result stage2_error
  stage2 by_class ctx e =
      let (r, e') = by_class ctx.action_class ctx.target ctx.rule_context now e in
      (or_catch (do d ← r; stage2_result ctx e' d) stage2_error, e')

  unfoldable pub cedar_part : PipelineContext → Engines → State
  unfolding absorb
  cedar_part ctx es =
      let (r, e) =
        evaluate_by_action_class lower ctx.action_class ctx.target ctx.rule_context now es.cedar in
      ((do d ← r; ok (absorb d "cedar" none)), record es { cedar = e })

  unfoldable pub json_class_part : PipelineContext → Option CeeDecision → Engines → State
  unfolding absorb
  json_class_part ctx pending es = elim es.json [
    | none ↦ (ok (going pending), es)
    | some j ↦
        let (r, e) =
          evaluate_by_action_class lower ctx.action_class ctx.target ctx.rule_context now j in
        ((do d ← r; ok (absorb d "json-rules" pending)), record es { json = some e })
  ]

  unfoldable pub json_tool_part : String → PipelineContext → Option CeeDecision → Engines → State
  unfolding absorb
  json_tool_part tool_name ctx pending es = elim es.json [
    | none ↦ (ok (going pending), es)
    | some j ↦
        let (r, e) = evaluate lower tool tool_name ctx.rule_context (some ctx.target) now j in
        ((do d ← r; ok (absorb d "json-rules" pending)), record es { json = some e })
  ]

  -- The body below the early permits.
  unfoldable pub engines_part : String → PipelineContext → Engines → State
  unfolding cedar_part json_class_part json_tool_part intent_part
  engines_part tool_name ctx es =
      cedar_part ctx es
      then_do json_class_part ctx
      then_do json_tool_part tool_name ctx
      then_do intent_part ctx

  -- `createCombinedStage2(cedarEngine, jsonEngine, toolName, autoPermit?, autoPermitRules?)`
  unfoldable pub combined_stage2 :
      String
      → Option (String → String → Bool)
      → Option (String → Option Text)
      → PipelineContext
      → Engines
      → CeeDecision × Engines
  unfolding early_permit engines_part finish
  combined_stage2 tool_name auto_permit auto_permit_rules ctx es =
      elim (early_permit tool_name auto_permit auto_permit_rules ctx) [
        | some d ↦ (d, es)
        | none ↦ let (r, es') = engines_part tool_name ctx es in (finish r, es')
      ]
