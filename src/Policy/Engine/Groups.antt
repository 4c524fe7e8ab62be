-- ===== src/Policy/Engine/Groups.antt =====
-- The decision of `evaluateByIntentGroup` of src/policy/engine.ts.
use clawthority.Base.{
  String, ◌≡◌, refl, sym, Bool, none, some, List, inl, inr, ◌⊎◌, Option-cases, present_and, ◌==◌,
}
use clawthority.Base.Results.{Result, ok, threw, Result-cases, ok_injective}
use clawthority.Policy.Types.{permit, forbid, RuleContext, Rule}
use clawthority.Policy.Engine.{
  EvaluationDecision, PolicyEngine, collect, first_with, decide_by, evaluate_by_intent_group,
  no_group_decision,
}
use clawthority.Policy.Engine.Matching.{Applies, collect_complete, first_with-none, first_with-some}
use clawthority.Policy.Engine.Cedar.{NoRule}

-- A rule of the intent group whose condition holds.
abbrev pub ByGroup : String → RuleContext → Rule → Type 0
ByGroup group ctx = Applies (λ r. present_and (λ g. g == group) r.intent_group) ctx

group_decision : List Rule → Result EvaluationDecision
group_decision matching = elim (first_with forbid matching) [
  | some r ↦ ok (decide_by r)
  | none ↦ elim (first_with permit matching) [
    | some r ↦ ok (decide_by r)
    | none ↦ ok no_group_decision
  ]
]

-- Either the first forbid rule of the group decides, or the group has no forbid rule that applies and
-- the decision is a permit.
pub evaluate_by_intent_group-cases :
    (group : String) (ctx : RuleContext) (e : PolicyEngine) (d : EvaluationDecision)
    → evaluate_by_intent_group group ctx e ≡ ok d
    → ((r : Rule) × (d ≡ decide_by r) × (r.effect ≡ forbid))
      ⊎ (NoRule e (ByGroup group ctx) forbid × (d.effect ≡ permit))
unfolding evaluate_by_intent_group group_decision
evaluate_by_intent_group-cases group ctx e d h =
    let sel : Rule → Bool = λ r. present_and (λ g. g == group) r.intent_group in
    elim (Result-cases (collect sel ctx e.rules)) [
      | inl p ↦ let bad : threw ≡ ok d = rw (p, evaluate_by_intent_group) at h in cc
      | inr (ms, p) ↦
          let h' : group_decision ms ≡ ok d = rw (p, evaluate_by_intent_group) at h in
          elim (Option-cases (first_with forbid ms)) [
            | inr (r, q) ↦
                let same : ok (decide_by r) ≡ ok d = rw (q, group_decision) at h' in
                inl (r, sym (ok_injective same), (first_with-some forbid ms q).1)
            | inl q ↦
                let clear : NoRule e (ByGroup group ctx) forbid = λ r l a.
                  first_with-none forbid ms q r (collect_complete sel ctx e.rules ms p r l a) in
                elim (Option-cases (first_with permit ms)) [
                  | inr (r, w) ↦
                      let same : ok (decide_by r) ≡ ok d = rw (q, w, group_decision) at h' in
                      let (_, effect) = first_with-some permit ms w in
                      inr (clear, rw (← ok_injective same) (unfold decide_by in effect))
                  | inl w ↦
                      let same : ok no_group_decision ≡ ok d = rw (q, w, group_decision) at h' in
                      inr (clear, rw (← ok_injective same) (unfold no_group_decision in refl))
                ]
          ]
    ]
