-- ===== src/Enforcement/Stage2/Quiet.antt =====
-- All the evaluations of `createCombinedStage2` (src/enforcement/stage2-policy.ts), those of the
-- intent group included, where the stage permits or captures a forbid below the threshold.
use mathlib.Core.Path.{subst}
use clawthority.Base.{
  ℕ, String, ◌≡◌, refl, sym, ap, ◌∙◌, Bool, true, false, Option, none, some, List, [], ◌∷◌, ◌⊎◌,
  inl, inr, Option-cases, Bool-cases, eq_of_some, not, ◌&&◌,
}
use clawthority.Base.Results.{Result, ok, threw, ok_injective, Result-cases}
use clawthority.Policy.Types.{Rule, permit, RuleContext}
use clawthority.Policy.Engine.{
  EvaluationDecision, PolicyEngine, evaluate_by_intent_group, is_forbid,
}
use clawthority.Enforcement.Types.{PipelineContext, CeeDecision}
use clawthority.Enforcement.Stage2.{
  Flow, done, going, Engines, State, next_from, absorb, absorb_group, intent_loop, intent_part,
  cedar_part, json_class_part, json_tool_part, engine_entries, engines_part, is_hitl_gated_decision,
  to_staged_forbid, finish, early_permit, combined_stage2, below_threshold,
}
use clawthority.Enforcement.Stage2.Steps.{absorbed, intent_loop-cons}
use clawthority.Enforcement.Stage2.Forbids.{
  Soft, by_class, by_tool, AllSoft, engines_part-AllSoft, engines_part-Hard, finish-gated,
}
use clawthority.Enforcement.Stage2.Permits.{finish-permit, engines_part-Held}
use clawthority.Permits.Words.{Text}

-- The evaluation returned a permit.
abbrev pub Passes : Result EvaluationDecision → Type 0
Passes r = (d : EvaluationDecision) × (r ≡ ok d) × (d.effect ≡ permit)

-- The evaluation returned a forbid of a rule.
abbrev pub RuleForbids : Result EvaluationDecision → Type 0
RuleForbids r =
    (d : EvaluationDecision) × (r ≡ ok d)
    × (is_forbid d.effect ≡ true)
    × ((x : Rule) × (d.matched_rule ≡ some x))

absorbed-Passes :
    (r : Result EvaluationDecision) (stage : String) (pending : Option CeeDecision)
    → Passes r
    → absorbed r stage pending ≡ ok (going pending)
unfolding absorb
absorbed-Passes r stage pending (d, e, p) =
    let clear : is_forbid d.effect ≡ false = rw p refl in rw e (rw (clear, absorb) refl)

no_rule-is_hitl_gated :
    (d : EvaluationDecision) → d.matched_rule ≡ none → is_hitl_gated_decision d ≡ true
unfolding is_hitl_gated_decision
no_rule-is_hitl_gated d p = rw (p, is_hitl_gated_decision) refl

-- A forbid of the intent group that does not end the evaluation is no unconditional one.
absorb_group-none :
    (d : EvaluationDecision) (stage : String)
    → absorb_group d stage ≡ none
    → (is_forbid d.effect && not (is_hitl_gated_decision d)) ≡ false
unfolding absorb_group
absorb_group-none d stage h = elim (Bool-cases (is_forbid d.effect)) [
  | inr p ↦ rw p refl
  | inl p ↦ elim (Option-cases d.matched_rule) [
    | inl q ↦ rw (p, no_rule-is_hitl_gated d q) refl
    | inr (r, q) ↦ elim (Bool-cases (is_hitl_gated_decision d)) [
      | inl g ↦ rw (p, g) refl
      | inr g ↦ absurd (cc (rw (p, q, g, absorb_group) at h))
    ]
  ]
]

absorb_group-going :
    (d : EvaluationDecision) (stage : String) (q : Option CeeDecision)
    → absorb_group d stage ≡ some (going q)
    → ((is_forbid d.effect && not (is_hitl_gated_decision d)) ≡ false)
      × ((is_forbid d.effect ≡ true) × ((x : Rule) × (d.matched_rule ≡ some x)))
unfolding absorb_group
absorb_group-going d stage q h = elim (Bool-cases (is_forbid d.effect)) [
  | inr p ↦ absurd (cc (rw (p, absorb_group) at h))
  | inl p ↦ elim (Option-cases d.matched_rule) [
    | inl w ↦ absurd (cc (rw (p, w, absorb_group) at h))
    | inr (r, w) ↦ elim (Bool-cases (is_hitl_gated_decision d)) [
      | inl g ↦ (rw (p, g) refl, (p, (r, w)))
      | inr g ↦
          let bad : some (done (to_staged_forbid d stage)) ≡ some (going q) =
            rw (p, w, g, absorb_group) at h in
          absurd (cc (eq_of_some bad))
    ]
  ]
]

-- The evaluation of the first engine, and of the next ones unless it ended the loop.
intent_loop-going :
    (group : String) (ctx : RuleContext) (e : PolicyEngine) (stage : String)
    (es : List (PolicyEngine × String)) (q : Option CeeDecision)
    → intent_loop group ctx ((e, stage) ∷ es) ≡ ok (going q)
    → Soft (evaluate_by_intent_group group ctx e)
      × (RuleForbids (evaluate_by_intent_group group ctx e)
          ⊎ (intent_loop group ctx es ≡ ok (going q)))
unfolding intent_loop
intent_loop-going group ctx e stage es q h =
    elim (Result-cases (evaluate_by_intent_group group ctx e)) [
      | inl p ↦ let bad : threw ≡ ok (going q) = rw (p, intent_loop) at h in cc
      | inr (d, p) ↦
          let h' = rw (intent_loop-cons group ctx e stage es d p) at h in
          elim (Option-cases (absorb_group d stage)) [
            | inl w ↦ ((d, p, absorb_group-none d stage w), inr (rw w at h'))
            | inr (f, w) ↦
                let same : f ≡ going q = ok_injective (rw w at h') in
                let (soft, (forbids, rule)) = absorb_group-going d stage q (w ∙ ap some same) in
                ((d, p, soft), inl (d, p, forbids, rule))
          ]
    ]

module _ (lower : String → String) (now : ℕ) (tool_name : String) (ctx : PipelineContext) where
  abbrev class_of : PolicyEngine → Result EvaluationDecision × PolicyEngine
  class_of e = by_class lower now tool_name ctx e

  abbrev tool_of : PolicyEngine → Result EvaluationDecision × PolicyEngine
  tool_of e = by_tool lower now tool_name ctx e

  abbrev pub json_after : Option PolicyEngine → Option PolicyEngine
  json_after none = none
  json_after (some j) = some (tool_of (class_of j).1).1

  -- The engines behind the evaluations by class and by tool.
  abbrev pub engines_after : Engines → Engines
  engines_after es = record { cedar = (class_of es.cedar).1; json = json_after es.json }

  -- Each evaluation by class and by tool returned a permit.
  abbrev pub AllPass : Engines → Type 0
  AllPass es =
      Passes (class_of es.cedar).0
      × ((j : PolicyEngine)
          → es.json ≡ some j
          → Passes (class_of j).0 × Passes (tool_of (class_of j).1).0)

  -- The evaluations by the intent group returned, with no unconditional forbid; that of the second
  -- engine is made unless the first gave a forbid of a rule.
  abbrev pub GroupsSoft : String → Engines → Type 0
  GroupsSoft group es =
      Soft (evaluate_by_intent_group group ctx.rule_context es.cedar)
      × (RuleForbids (evaluate_by_intent_group group ctx.rule_context es.cedar)
          ⊎ ((j : PolicyEngine)
              → es.json ≡ some j
              → Soft (evaluate_by_intent_group group ctx.rule_context j)))

  -- Every evaluation that was made returned, with no unconditional forbid: those by class and by tool,
  -- and, where these were permits, those by the intent group of the call.
  abbrev pub Quiet : Engines → Type 0
  Quiet es =
      AllSoft lower now tool_name ctx es
      × (AllPass es
          → (group : String) → ctx.intent_group ≡ some group
          → GroupsSoft group (engines_after es))

  json_parts :
      (cedar : PolicyEngine) (json : Option PolicyEngine)
      → ((j : PolicyEngine)
          → json ≡ some j
          → Passes (class_of j).0 × Passes (tool_of (class_of j).1).0)
      → let s1 = json_class_part lower now ctx none (record { cedar = cedar; json = json }) in
        next_from s1.0 s1.1 (json_tool_part lower now tool_name ctx)
        ≡ (ok (going none), record { cedar = cedar; json = json_after json })
  unfolding json_class_part json_tool_part
  json_parts cedar none h = refl
  json_parts cedar (some j) h =
      let (by_its_class, by_its_tool) = h j refl in
      let class_clean = absorbed-Passes (class_of j).0 "json-rules" none by_its_class in
      let tool_clean = absorbed-Passes (tool_of (class_of j).1).0 "json-rules" none by_its_tool in
      ap
        (λ f.
          next_from f (record { cedar = cedar; json = some (class_of j).1 })
            (json_tool_part lower now tool_name ctx))
        class_clean
      ∙ ap (λ f. (f, record { cedar = cedar; json = some (tool_of (class_of j).1).1 })) tool_clean

  -- Where all of these pass, what remains is the part of the intent group.
  engines_part-AllPass :
      (es : Engines)
      → AllPass es
      → engines_part lower now tool_name ctx es ≡ intent_part ctx none (engines_after es)
  unfolding engines_part cedar_part
  engines_part-AllPass es (cedar, json) =
      let rest : Result Flow → State = λ f.
        let s1 =
          next_from f (record es { cedar = (class_of es.cedar).1 })
            (json_class_part lower now ctx) in
        let s2 = next_from s1.0 s1.1 (json_tool_part lower now tool_name ctx) in
        next_from s2.0 s2.1 (intent_part ctx) in
      ap rest (absorbed-Passes (class_of es.cedar).0 "cedar" none cedar)
      ∙ ap (λ s. next_from s.0 s.1 (intent_part ctx))
          (json_parts (class_of es.cedar).1 es.json json)

  intent_part-GroupsSoft :
      (es : Engines) (q : Option CeeDecision) (group : String)
      → ctx.intent_group ≡ some group
      → (intent_part ctx none es).0 ≡ ok (going q)
      → GroupsSoft group es
  unfolding intent_part
  intent_part-GroupsSoft es q group p h =
      let looped : intent_loop group ctx.rule_context (engine_entries es) ≡ ok (going q) =
        rw (p, intent_part) at h in
      elim (Option-cases es.json) [
        | inl w ↦
            let (soft, _) =
              intent_loop-going group ctx.rule_context es.cedar "cedar" [] q (rw w at looped) in
            (soft, inr (λ j e. cc))
        | inr (j, w) ↦
            let (soft, more) =
              intent_loop-going group ctx.rule_context es.cedar "cedar" ((j, "json-rules") ∷ []) q
                (rw w at looped) in
            (
              soft,
              elim more [
                | inl stops ↦ inl stops
                | inr later ↦
                    let (json_soft, _) =
                      intent_loop-going group ctx.rule_context j "json-rules" [] q later in
                    inr (λ k e.
                      subst (λ x. Soft (evaluate_by_intent_group group ctx.rule_context x))
                        (eq_of_some (sym w ∙ e)) json_soft)
              ],
            )
      ]

  pub engines_part-Quiet :
      (es : Engines) (q : Option CeeDecision)
      → (engines_part lower now tool_name ctx es).0 ≡ ok (going q)
      → Quiet es
  engines_part-Quiet es q h = (
    engines_part-AllSoft lower now tool_name ctx es q h,
    (λ passes group p.
        intent_part-GroupsSoft (engines_after es) q group p
          (sym (ap (λ s. s.0) (engines_part-AllPass es passes)) ∙ h)),
  )

  -- A permit that no approval gave, and a forbid that may go to an operator, come from such a run.
  pub combined_stage2-Quiet :
      (auto_permit : Option (String → String → Bool))
      (auto_permit_rules : Option (String → Option Text)) (es : Engines)
      → let d = (combined_stage2 lower now tool_name auto_permit auto_permit_rules ctx es).0 in
        (d.effect ≡ permit) ⊎ (below_threshold d.priority ≡ true)
        → ((x : CeeDecision) × (early_permit tool_name auto_permit auto_permit_rules ctx ≡ some x))
          ⊎ Quiet es
  unfolding combined_stage2
  combined_stage2-Quiet auto_permit auto_permit_rules es h =
      elim (Option-cases (early_permit tool_name auto_permit auto_permit_rules ctx)) [
        | inr (x, p) ↦ inl (x, p)
        | inl p ↦
            let f = (engines_part lower now tool_name ctx es).0 in
            let outcome : ((finish f).effect ≡ permit)
                ⊎ (below_threshold (finish f).priority ≡ true) =
              rw (p, combined_stage2) at h in
            inr (elim outcome [
              | inl permits ↦
                  engines_part-Quiet es none
                    (finish-permit f (engines_part-Held lower now tool_name ctx es) permits)
              | inr gated ↦
                  let (q, e) =
                    finish-gated f (engines_part-Hard lower now tool_name ctx es) gated in
                  engines_part-Quiet es q e
            ])
      ]
