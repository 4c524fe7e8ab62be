-- ===== src/Policy/Engine/ActionClass.antt =====
-- The decisions of `evaluateByActionClass` and `evaluateByIntentGroup` of src/policy/engine.ts.
use clawthority.Base.{
  ℕ, String, ◌≡◌, refl, sym, Option, none, some, List, arith, ◌⊎◌, inl, inr, Option-cases,
}
use clawthority.Base.Results.{ok, threw, ok_injective, Result-cases}
use clawthority.Policy.Types.{permit, forbid, RuleContext, Rule}
use clawthority.Policy.Engine.{
  EvaluationDecision, PolicyEngine, collect, first_with, decide_by, selects_action_class, evaluate,
  evaluate_by_action_class, map_action_class_to_resource, prefer_direct, prefer_over,
}
use clawthority.Policy.Engine.Matching.{
  Applies, collect_complete, collect_sound, first_with-some, first_with-none,
}
use clawthority.Policy.Engine.Cedar.{
  Chosen, NoRule, Verdict, ByResource, evaluate-Verdict, Verdict-NoRule, Verdict-Chosen,
}

prefer_over-permit :
    (direct matched : Option Rule) (result : EvaluationDecision)
    → (prefer_over direct matched result).effect ≡ permit
    → (result.effect ≡ permit) ⊎ ((matched ≡ none) × ((r : Rule) × (direct ≡ some r)))
unfolding prefer_over
prefer_over-permit none none result h = inl h
prefer_over-permit (some r) none result h = inr (refl, (r, refl))
prefer_over-permit none (some x) result h = inl (ground arith)
prefer_over-permit (some r) (some x) result h = inl (ground arith)

-- A permit is the resource result's own, or that of a direct rule where no rule gave the result.
prefer_direct-permit :
    (direct : List Rule) (result : EvaluationDecision)
    → (prefer_direct direct result).effect ≡ permit
    → (result.effect ≡ permit)
      ⊎ ((result.matched_rule ≡ none) × ((r : Rule) × (first_with permit direct ≡ some r)))
unfolding prefer_direct
prefer_direct-permit direct result h =
    prefer_over-permit (first_with permit direct) result.matched_rule result h

module _ (lower : String → String) where
  -- A rule passes the tests of the first loop of `evaluateByActionClass` and its condition holds.
  abbrev pub ByClass : String → String → RuleContext → Rule → Type 0
  ByClass action_class name ctx = Applies (selects_action_class lower action_class name) ctx

  abbrev pub ByMapped : String → String → RuleContext → Rule → Type 0
  ByMapped action_class name ctx =
      ByResource lower (map_action_class_to_resource action_class) name name ctx

-- What a returned decision of `evaluateByActionClass` was made of.
data Parts (lower : String → String) (action_class name : String) (ctx : RuleContext) (now : ℕ)
    (e : PolicyEngine) (d : EvaluationDecision) : Type 0 where
  direct_forbid :
      (r : Rule)
      → Chosen e (ByClass lower action_class name ctx) forbid r
      → d ≡ decide_by r
      → Parts lower action_class name ctx now e d
  preferred :
      (direct : List Rule) (result : EvaluationDecision)
      → collect (selects_action_class lower action_class name) ctx e.rules ≡ ok direct
      → NoRule e (ByClass lower action_class name ctx) forbid
      → Verdict e (ByMapped lower action_class name ctx) result
      → d ≡ prefer_direct direct result
      → Parts lower action_class name ctx now e d

evaluate_by_action_class-Parts :
    (lower : String → String) (action_class name : String) (ctx : RuleContext) (now : ℕ)
    (e : PolicyEngine) (d : EvaluationDecision)
    → (evaluate_by_action_class lower action_class name ctx now e).0 ≡ ok d
    → Parts lower action_class name ctx now e d
unfolding evaluate_by_action_class
evaluate_by_action_class-Parts lower c name ctx now e d h =
    let sel = selects_action_class lower c name in
    elim (Result-cases (collect sel ctx e.rules)) [
      | inl p ↦ let bad : threw ≡ ok d = rw (p, evaluate_by_action_class) at h in cc
      | inr (ms, p) ↦ elim (Option-cases (first_with forbid ms)) [
        | inr (r, q) ↦
            let same : ok (decide_by r) ≡ ok d = rw (p, q, evaluate_by_action_class) at h in
            let (m, w) = first_with-some forbid ms q in
            let (l, a) = collect_sound sel ctx e.rules ms p r m in
            direct_forbid r (l, a, w) (sym (ok_injective same))
        | inl q ↦
            let clear : NoRule e (ByClass lower c name ctx) forbid = λ r l a.
              first_with-none forbid ms q r (collect_complete sel ctx e.rules ms p r l a) in
            let mapped = evaluate lower (map_action_class_to_resource c) name ctx none now e in
            elim (Result-cases mapped.0) [
              | inl w ↦ let bad : threw ≡ ok d = rw (p, q, w, evaluate_by_action_class) at h in cc
              | inr (result, w) ↦
                  let same : ok (prefer_direct ms result) ≡ ok d =
                    rw (p, q, w, evaluate_by_action_class) at h in
                  preferred ms result p clear
                    (evaluate-Verdict lower (map_action_class_to_resource c) name ctx none now e
                      result w)
                    (sym (ok_injective same))
            ]
      ]
    ]

module _ (lower : String → String) (c name : String) (ctx : RuleContext) (now : ℕ)
    (e : PolicyEngine) (d : EvaluationDecision)
    (h : (evaluate_by_action_class lower c name ctx now e).0 ≡ ok d)
    (permits : d.effect ≡ permit) where
  -- A permit of `evaluateByActionClass` means that no forbid rule applies, neither one that names
  -- the action class nor one that matches the resource that the class is mapped to.
  pub action_class_permit-NoRule :
      NoRule e (ByClass lower c name ctx) forbid × NoRule e (ByMapped lower c name ctx) forbid
  action_class_permit-NoRule = elim (evaluate_by_action_class-Parts lower c name ctx now e d h) [
    | direct_forbid r (l, a, q) p ↦ absurd (unfold decide_by in ground arith)
    | preferred ms result p clear verdict same ↦ (
      clear,
      Verdict-NoRule e (ByMapped lower c name ctx) result verdict
          (elim (prefer_direct-permit ms result (rw same at permits)) [
            | inl g ↦ inl g
            | inr (g, _) ↦ inr g
          ]),
    )
  ]

  -- In closed mode, where the engine denies by default, a permit of `evaluateByActionClass` comes
  -- from a permit rule that applies.
  action_class_permit-Chosen :
      e.default_effect ≡ forbid
      → ((r : Rule) × Chosen e (ByClass lower c name ctx) permit r)
        ⊎ ((r : Rule) × Chosen e (ByMapped lower c name ctx) permit r)
  action_class_permit-Chosen closed =
      elim (evaluate_by_action_class-Parts lower c name ctx now e d h) [
        | direct_forbid r (l, a, q) p ↦ absurd (unfold decide_by in ground arith)
        | preferred ms result p clear verdict same ↦
            elim (prefer_direct-permit ms result (rw same at permits)) [
              | inl g ↦ inr (Verdict-Chosen e (ByMapped lower c name ctx) result verdict closed g)
              | inr (_, (r, q)) ↦
                  let (m, w) = first_with-some permit ms q in
                  let (l, a) =
                    collect_sound (selects_action_class lower c name) ctx e.rules ms p r m in
                  inl (r, (l, a, w))
            ]
      ]
