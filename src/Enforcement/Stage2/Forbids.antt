-- ===== src/Enforcement/Stage2/Forbids.antt =====
-- The forbids of `createCombinedStage2` of src/enforcement/stage2-policy.ts: those with a priority
-- below the threshold, and the unconditional ones.
use mathlib.Core.Path.{subst}
use clawthority.Permits.Words.{Text}
use clawthority.Base.{
  ℕ, String, ◌≡◌, refl, sym, ◌∙◌, Bool, true, false, Option, none, some, List, [], ◌∷◌, arith, inl,
  inr, Option-cases, Bool-cases, eq_of_some, not, ◌&&◌,
}
use clawthority.Base.Results.{Result, ok, threw, ok_injective, Result-cases}
use clawthority.Policy.Types.{RuleContext, tool}
use clawthority.Policy.Engine.{
  EvaluationDecision, PolicyEngine, evaluate, evaluate_by_action_class, evaluate_by_intent_group,
  is_forbid,
}
use clawthority.Enforcement.Types.{PipelineContext, CeeDecision}
use clawthority.Enforcement.Stage2.{
  Flow, done, going, Engines, State, next_from, absorb, absorb_group, intent_loop, intent_part,
  cedar_part, json_class_part, json_tool_part, engine_entries, engines_part, finish, early_permit,
  combined_stage2, is_hitl_gated_decision, to_staged_forbid, below_threshold, stage2_error,
}
use clawthority.Enforcement.Stage2.Steps.{absorbed, intent_loop-cons}

-- A forbid that ends the evaluation is not below the threshold.
abbrev pub Hard : Result Flow → Type 0
Hard threw = Unit
Hard (ok (done d)) = below_threshold d.priority ≡ false
Hard (ok (going pending)) = Unit

-- The evaluation returned a decision, which is not an unconditional forbid.
abbrev pub Soft : Result EvaluationDecision → Type 0
Soft r =
    (d : EvaluationDecision) × (r ≡ ok d)
    × ((is_forbid d.effect && not (is_hitl_gated_decision d)) ≡ false)

to_staged_forbid-Hard :
    (d : EvaluationDecision) (stage : String)
    → is_hitl_gated_decision d ≡ false
    → below_threshold (to_staged_forbid d stage).priority ≡ false
unfolding is_hitl_gated_decision to_staged_forbid
to_staged_forbid-Hard d stage h = elim (Option-cases d.matched_rule) [
  | inl p ↦ let bad : true ≡ false = rw (p, is_hitl_gated_decision) at h in cc
  | inr (r, p) ↦ rw (p, to_staged_forbid) (rw (p, is_hitl_gated_decision) at h)
]

absorb-Hard :
    (d : EvaluationDecision) (stage : String) (pending : Option CeeDecision)
    → Hard (ok (absorb d stage pending))
      × ((q : Option CeeDecision)
          → absorb d stage pending ≡ going q
          → (is_forbid d.effect && not (is_hitl_gated_decision d)) ≡ false)
unfolding absorb
absorb-Hard d stage pending = elim (Bool-cases (is_forbid d.effect)) [
  | inr f ↦ rw (f, absorb) (tt, (λ q h. refl))
  | inl f ↦ elim (Bool-cases (is_hitl_gated_decision d)) [
    | inl g ↦ rw (f, g, absorb) (tt, (λ q h. refl))
    | inr g ↦ rw (f, g, absorb) (to_staged_forbid-Hard d stage g, (λ q h. cc))
  ]
]

absorbed-Hard :
    (r : Result EvaluationDecision) (stage : String) (pending : Option CeeDecision)
    → Hard (absorbed r stage pending)
      × ((q : Option CeeDecision) → absorbed r stage pending ≡ ok (going q) → Soft r)
absorbed-Hard threw stage pending = (tt, (λ q h. cc))
absorbed-Hard (ok d) stage pending =
    let (hard, soft) = absorb-Hard d stage pending in
    (hard, (λ q h. (d, refl, soft q (ok_injective h))))

absorb_group-Hard :
    (d : EvaluationDecision) (stage : String) {f : Flow}
    → absorb_group d stage ≡ some f
    → Hard (ok f)
unfolding absorb_group
absorb_group-Hard d stage {f} h = elim (Bool-cases (is_forbid d.effect)) [
  | inr clear ↦ let bad : none ≡ some f = rw (clear, absorb_group) at h in cc
  | inl forbids ↦ elim (Option-cases d.matched_rule) [
    | inl p ↦ let bad : none ≡ some f = rw (forbids, p, absorb_group) at h in cc
    | inr (r, p) ↦ elim (Bool-cases (is_hitl_gated_decision d)) [
      | inl g ↦
          let e : some (going (some (to_staged_forbid d stage))) ≡ some f =
            rw (forbids, p, g, absorb_group) at h in
          rw (← eq_of_some e) tt
      | inr g ↦
          let e : some (done (to_staged_forbid d stage)) ≡ some f =
            rw (forbids, p, g, absorb_group) at h in
          rw (← eq_of_some e) (to_staged_forbid-Hard d stage g)
    ]
  ]
]

intent_loop-Hard :
    (group : String) (ctx : RuleContext) (es : List (PolicyEngine × String))
    → Hard (intent_loop group ctx es)
unfolding intent_loop
intent_loop-Hard group ctx [] = tt
intent_loop-Hard group ctx ((e, stage) ∷ es) =
    elim (Result-cases (evaluate_by_intent_group group ctx e)) [
      | inl p ↦ rw (p, intent_loop) tt
      | inr (d, p) ↦
          rw (intent_loop-cons group ctx e stage es d p)
            (elim (Option-cases (absorb_group d stage)) [
              | inl q ↦ rw q (intent_loop-Hard group ctx es)
              | inr (f, q) ↦ rw q (absorb_group-Hard d stage q)
            ])
    ]

next_from-Hard :
    (f : Result Flow) (es : Engines) (k : Option CeeDecision → Engines → State)
    → Hard f
    → ((p : Option CeeDecision) (e : Engines) → Hard (k p e).0)
    → Hard (next_from f es k).0
next_from-Hard threw es k h s = tt
next_from-Hard (ok (done d)) es k h s = h
next_from-Hard (ok (going pending)) es k h s = s pending es

next_from-going :
    (s : State) (k : Option CeeDecision → Engines → State) (q : Option CeeDecision)
    → (next_from s.0 s.1 k).0 ≡ ok (going q)
    → (p : Option CeeDecision) × (s.0 ≡ ok (going p))
      × ((k p s.1).0 ≡ ok (going q))
      × (next_from s.0 s.1 k ≡ k p s.1)
next_from-going (threw, es) k q h = cc
next_from-going (ok (done d), es) k q h = cc
next_from-going (ok (going pending), es) k q h = (pending, refl, h, refl)

pub finish-gated :
    (f : Result Flow)
    → Hard f
    → below_threshold (finish f).priority ≡ true
    → (q : Option CeeDecision) × (f ≡ ok (going q))
unfolding finish stage2_error
finish-gated threw hard h = cc
finish-gated (ok (done d)) hard h = absurd (cc (sym hard ∙ h))
finish-gated (ok (going q)) hard h = (q, refl)

module _ (lower : String → String) (now : ℕ) (tool_name : String) (ctx : PipelineContext) where
  abbrev pub by_class : PolicyEngine → Result EvaluationDecision × PolicyEngine
  by_class e = evaluate_by_action_class lower ctx.action_class ctx.target ctx.rule_context now e

  abbrev pub by_tool : PolicyEngine → Result EvaluationDecision × PolicyEngine
  by_tool e = evaluate lower tool tool_name ctx.rule_context (some ctx.target) now e

  json_class_part-Hard :
      (p : Option CeeDecision) (es : Engines)
      → Hard (json_class_part lower now ctx p es).0
        × ((q : Option CeeDecision) (j : PolicyEngine)
            → (json_class_part lower now ctx p es).0 ≡ ok (going q)
            → es.json ≡ some j
            → Soft (by_class j).0
              × ((json_class_part lower now ctx p es).1.json ≡ some (by_class j).1))
  unfolding json_class_part
  json_class_part-Hard p es = elim (Option-cases es.json) [
    | inl w ↦ rw (w, json_class_part) (tt, (λ q j h e. cc))
    | inr (j, w) ↦
        let (hard, soft) = absorbed-Hard (by_class j).0 "json-rules" p in
        rw (w, json_class_part)
          (
            hard,
            (λ q k h e.
                subst (λ x. Soft (by_class x).0 × (some (by_class j).1 ≡ some (by_class x).1))
                  (eq_of_some e) (soft q h, refl)),
          )
  ]

  json_tool_part-Hard :
      (p : Option CeeDecision) (es : Engines)
      → Hard (json_tool_part lower now tool_name ctx p es).0
        × ((q : Option CeeDecision) (j : PolicyEngine)
            → (json_tool_part lower now tool_name ctx p es).0 ≡ ok (going q)
            → es.json ≡ some j
            → Soft (by_tool j).0)
  unfolding json_tool_part
  json_tool_part-Hard p es = elim (Option-cases es.json) [
    | inl w ↦ rw (w, json_tool_part) (tt, (λ q j h e. cc))
    | inr (j, w) ↦
        let (hard, soft) = absorbed-Hard (by_tool j).0 "json-rules" p in
        rw (w, json_tool_part)
          (hard, (λ q k h e. subst (λ x. Soft (by_tool x).0) (eq_of_some e) (soft q h)))
  ]

  intent_part-Hard : (p : Option CeeDecision) (es : Engines) → Hard (intent_part ctx p es).0
  unfolding intent_part
  intent_part-Hard (some d) es = tt
  intent_part-Hard none es = elim (Option-cases ctx.intent_group) [
    | inl p ↦ rw (p, intent_part) tt
    | inr (group, p) ↦
        rw (p, intent_part) (intent_loop-Hard group ctx.rule_context (engine_entries es))
  ]

  cedar_part-Hard :
      (es : Engines)
      → Hard (cedar_part lower now ctx es).0
        × ((q : Option CeeDecision)
            → (cedar_part lower now ctx es).0 ≡ ok (going q)
            → Soft (by_class es.cedar).0)
  unfolding cedar_part
  cedar_part-Hard es = absorbed-Hard (by_class es.cedar).0 "cedar" none

  -- Every evaluation returned a decision that is not an unconditional forbid.
  abbrev pub AllSoft : Engines → Type 0
  AllSoft es =
      Soft (by_class es.cedar).0
      × ((j : PolicyEngine)
          → es.json ≡ some j
          → Soft (by_class j).0 × Soft (by_tool (by_class j).1).0)

  pub engines_part-Hard : (es : Engines) → Hard (engines_part lower now tool_name ctx es).0
  unfolding engines_part
  engines_part-Hard es =
      let s0 = cedar_part lower now ctx es in
      let s1 = next_from s0.0 s0.1 (json_class_part lower now ctx) in
      let s2 = next_from s1.0 s1.1 (json_tool_part lower now tool_name ctx) in
      next_from-Hard s2.0 s2.1 (intent_part ctx)
        (next_from-Hard s1.0 s1.1 (json_tool_part lower now tool_name ctx)
          (next_from-Hard s0.0 s0.1 (json_class_part lower now ctx) (cedar_part-Hard es).0
            (λ p e. (json_class_part-Hard p e).0))
          (λ p e. (json_tool_part-Hard p e).0))
        intent_part-Hard

  pub engines_part-AllSoft :
      (es : Engines) (q : Option CeeDecision)
      → (engines_part lower now tool_name ctx es).0 ≡ ok (going q)
      → AllSoft es
  unfolding engines_part cedar_part
  engines_part-AllSoft es q h =
      let s0 = cedar_part lower now ctx es in
      let s1 = next_from s0.0 s0.1 (json_class_part lower now ctx) in
      let s2 = next_from s1.0 s1.1 (json_tool_part lower now tool_name ctx) in
      let (p2, e2, _, _) = next_from-going s2 (intent_part ctx) q h in
      let (p1, e1, t1, _) = next_from-going s1 (json_tool_part lower now tool_name ctx) p2 e2 in
      let (p0, e0, j0, same) = next_from-going s0 (json_class_part lower now ctx) p1 e1 in
      (
        (cedar_part-Hard es).1 p0 e0,
        (λ j p.
            let (soft, left) = (json_class_part-Hard p0 s0.1).1 p1 j j0 p in
            (
              soft,
              (json_tool_part-Hard p1 s1.1).1 p2 (by_class j).1 t1
                  (subst (λ s. s.1.json ≡ some (by_class j).1) (sym same) left),
            )),
      )

  early_permit-Hard :
      (auto_permit : Option (String → String → Bool))
      (auto_permit_rules : Option (String → Option Text)) {d : CeeDecision}
      → early_permit tool_name auto_permit auto_permit_rules ctx ≡ some d
      → below_threshold d.priority ≡ false
  unfolding early_permit
  early_permit-Hard auto_permit auto_permit_rules h = ground arith

  -- A decision of the stage that the dispatch may hand to an operator (its priority is below the
  -- threshold) hides no unconditional forbid of the action-class and tool rules: each of those
  -- evaluations returned, with a permit or with a forbid below the threshold.
  pub combined_stage2-gated :
      (auto_permit : Option (String → String → Bool))
      (auto_permit_rules : Option (String → Option Text)) (es : Engines)
      → below_threshold
          (combined_stage2 lower now tool_name auto_permit auto_permit_rules ctx es).0.priority
        ≡ true
      → AllSoft es
  unfolding combined_stage2
  combined_stage2-gated auto_permit auto_permit_rules es h =
      elim (Option-cases (early_permit tool_name auto_permit auto_permit_rules ctx)) [
        | inr (d, p) ↦
            let gated : below_threshold d.priority ≡ true = rw (p, combined_stage2) at h in
            absurd (cc (sym (early_permit-Hard auto_permit auto_permit_rules p) ∙ gated))
        | inl p ↦
            let f = (engines_part lower now tool_name ctx es).0 in
            let gated : below_threshold (finish f).priority ≡ true = rw (p, combined_stage2) at h in
            let (q, e) = finish-gated f (engines_part-Hard es) gated in engines_part-AllSoft es q e
      ]
