-- ===== src/Policy/Engine/Frame.antt =====
-- The rules and the mode of an engine of src/policy/engine.ts across its evaluations.
use clawthority.Base.{ℕ, String, ◌≡◌, refl, Option, none, List, inl, inr, Option-cases, or_else}
use clawthority.Base.Results.{Result-cases}
use clawthority.Policy.Types.{permit, forbid, Resource, RuleContext, Rule}
use clawthority.Policy.Engine.{
  PolicyEngine, collect, first_with, permit_by, decide_among, evaluate, evaluate_by_action_class,
  check_and_record_rate_limit, selects_resource, selects_action_class, map_action_class_to_resource,
}

-- An engine with the same rules, in the same mode.
abbrev pub SamePolicy : PolicyEngine → PolicyEngine → Type 0
SamePolicy e f = (e.rules ≡ f.rules) × (e.default_effect ≡ f.default_effect)

permit_by-SamePolicy :
    (r : Rule) (name : String) (ctx : RuleContext) (now : ℕ) (e : PolicyEngine)
    → SamePolicy (permit_by r name ctx now e).1 e
unfolding permit_by check_and_record_rate_limit
permit_by-SamePolicy r name ctx now e = elim (Option-cases r.rate_limit) [
  | inl p ↦ rw (p, permit_by) (refl, refl)
  | inr (rl, p) ↦ rw (p, permit_by) (refl, refl)
]

decide_among-SamePolicy :
    (ms : List Rule) (name : String) (ctx : RuleContext) (now : ℕ) (e : PolicyEngine)
    → SamePolicy (decide_among ms name ctx now e).1 e
unfolding decide_among
decide_among-SamePolicy ms name ctx now e = elim (Option-cases (first_with forbid ms)) [
  | inr (r, p) ↦ rw (p, decide_among) (refl, refl)
  | inl p ↦ elim (Option-cases (first_with permit ms)) [
    | inr (r, q) ↦ rw (p, q, decide_among) (permit_by-SamePolicy r name ctx now e)
    | inl q ↦ rw (p, q, decide_among) (refl, refl)
  ]
]

module _ (lower : String → String) where
  pub evaluate-SamePolicy :
      (resource : Resource) (name : String) (ctx : RuleContext) (target : Option String) (now : ℕ)
      (e : PolicyEngine)
      → SamePolicy (evaluate lower resource name ctx target now e).1 e
  unfolding evaluate
  evaluate-SamePolicy resource name ctx target now e =
      elim (Result-cases
        (collect (selects_resource lower resource name (or_else target name)) ctx e.rules)) [
          | inl p ↦ rw (p, evaluate) (refl, refl)
          | inr (ms, p) ↦ rw (p, evaluate) (decide_among-SamePolicy ms name ctx now e)
        ]

  pub evaluate_by_action_class-SamePolicy :
      (c name : String) (ctx : RuleContext) (now : ℕ) (e : PolicyEngine)
      → SamePolicy (evaluate_by_action_class lower c name ctx now e).1 e
  unfolding evaluate_by_action_class
  evaluate_by_action_class-SamePolicy c name ctx now e =
      elim (Result-cases (collect (selects_action_class lower c name) ctx e.rules)) [
        | inl p ↦ rw (p, evaluate_by_action_class) (refl, refl)
        | inr (ms, p) ↦ elim (Option-cases (first_with forbid ms)) [
          | inr (r, q) ↦ rw (p, q, evaluate_by_action_class) (refl, refl)
          | inl q ↦
              rw (p, q, evaluate_by_action_class)
                (evaluate-SamePolicy (map_action_class_to_resource c) name ctx none now e)
        ]
      ]
