-- ===== src/Policy/Engine/Cedar.antt =====
-- The decisions of src/policy/engine.ts against a declarative reading of the rules.
use clawthority.Base.{
  ℕ, String, ◌≡◌, ◌≢◌, refl, Bool, Option, none, some, List, Memᴰ, arith, ◌⊎◌, inl, inr, or_else,
  Option-cases,
}
use clawthority.Base.Results.{ok, threw, ok_injective, Result-cases}
use clawthority.Policy.Types.{Effect, permit, forbid, Resource, RuleContext, Rule, RateLimit}
use clawthority.Policy.Engine.{
  EvaluationDecision, PolicyEngine, collect, first_with, decide_by, decide_among, permit_by,
  default_decision, selects_resource, evaluate,
}
use clawthority.Policy.Engine.Matching.{
  Applies, collect_complete, collect_sound, first_with-some, first_with-none,
}

-- A rule of the engine that applies.
abbrev pub Chosen : PolicyEngine → (Rule → Type 0) → Effect → Rule → Type 0
Chosen e App effect r = Memᴰ r e.rules × App r × (r.effect ≡ effect)

-- No rule of the engine that applies has the effect.
abbrev pub NoRule : PolicyEngine → (Rule → Type 0) → Effect → Type 0
NoRule e App effect = (r : Rule) → Memᴰ r e.rules → App r → r.effect ≢ effect

-- The reading of Cedar: which decision the rules that apply justify.
pub data Verdict (e : PolicyEngine) (App : Rule → Type 0) (d : EvaluationDecision) : Type 0 where
  forbidden : (r : Rule) → Chosen e App forbid r → d ≡ decide_by r → Verdict e App d
  permitted :
      (r : Rule)
      → NoRule e App forbid
      → Chosen e App permit r
      → d.effect ≡ permit
      → d.matched_rule ≡ some r
      → Verdict e App d
  limited :
      (r : Rule) (rl : RateLimit)
      → NoRule e App forbid
      → Chosen e App permit r
      → r.rate_limit ≡ some rl
      → d.effect ≡ forbid
      → d.matched_rule ≡ some r
      → Verdict e App d
  by_default : NoRule e App forbid → NoRule e App permit → d ≡ default_decision e → Verdict e App d

-- A permit rule decides by itself; its rate limit may turn the decision into a forbid.
permit_by-effect :
    (r : Rule) (name : String) (ctx : RuleContext) (now : ℕ) (e : PolicyEngine)
    → r.effect ≡ permit
    → let d = (permit_by r name ctx now e).0 in
      (d.matched_rule ≡ some r)
      × ((d.effect ≡ permit) ⊎ ((rl : RateLimit) × (r.rate_limit ≡ some rl) × (d.effect ≡ forbid)))
unfolding permit_by
permit_by-effect r name ctx now e h = ground arith

module _ (selects : Rule → Bool) (ctx : RuleContext) (e : PolicyEngine) where
  decide_among-Verdict :
      (ms : List Rule) (name : String) (now : ℕ)
      → collect selects ctx e.rules ≡ ok ms
      → Verdict e (Applies selects ctx) (decide_among ms name ctx now e).0
  unfolding decide_among
  decide_among-Verdict ms name now h = elim (Option-cases (first_with forbid ms)) [
    | inr (r, p) ↦
        let (m, q) = first_with-some forbid ms p in
        let (l, a) = collect_sound selects ctx e.rules ms h r m in
        rw (p, decide_among) (forbidden r (l, a, q) refl)
    | inl p ↦
        let none_forbids : NoRule e (Applies selects ctx) forbid = λ r l a.
          first_with-none forbid ms p r (collect_complete selects ctx e.rules ms h r l a) in
        elim (Option-cases (first_with permit ms)) [
          | inr (r, q) ↦
              let (m, w) = first_with-some permit ms q in
              let (l, a) = collect_sound selects ctx e.rules ms h r m in
              let (same, side) = permit_by-effect r name ctx now e w in
              rw (p, q, decide_among)
                (elim side [
                  | inl ok_effect ↦ permitted r none_forbids (l, a, w) ok_effect same
                  | inr (rl, has, effect) ↦ limited r rl none_forbids (l, a, w) has effect same
                ])
          | inl q ↦
              rw (p, q, decide_among)
                (by_default none_forbids
                  (λ r l a.
                    first_with-none permit ms q r (collect_complete selects ctx e.rules ms h r l a))
                  refl)
        ]
  ]

-- A decision that permits, or that no rule decided, leaves no forbid rule that applies.
pub Verdict-NoRule :
    (e : PolicyEngine) (App : Rule → Type 0) (d : EvaluationDecision)
    → Verdict e App d
    → (d.effect ≡ permit) ⊎ (d.matched_rule ≡ none)
    → NoRule e App forbid
unfolding decide_by
Verdict-NoRule e App d (forbidden r (l, a, q) p) (inl h) = absurd (ground arith)
Verdict-NoRule e App d (forbidden r (l, a, q) p) (inr h) = absurd (ground arith)
Verdict-NoRule e App d (permitted r n c p m) h = n
Verdict-NoRule e App d (limited r rl n c has p m) h = n
Verdict-NoRule e App d (by_default n n' p) h = n

-- A permit of an engine that denies by default comes from a permit rule that applies.
pub Verdict-Chosen :
    (e : PolicyEngine) (App : Rule → Type 0) (d : EvaluationDecision)
    → Verdict e App d
    → e.default_effect ≡ forbid
    → d.effect ≡ permit
    → (r : Rule) × Chosen e App permit r
unfolding decide_by default_decision
Verdict-Chosen e App d (forbidden r (l, a, q) p) closed h = absurd (ground arith)
Verdict-Chosen e App d (permitted r n c p m) closed h = (r, c)
Verdict-Chosen e App d (limited r rl n c has p m) closed h = absurd (ground arith)
Verdict-Chosen e App d (by_default n n' p) closed h = absurd (ground arith)

module _ (lower : String → String) where
  -- A rule passes the tests of `evaluate` and its condition holds.
  abbrev pub ByResource : Resource → String → String → RuleContext → Rule → Type 0
  ByResource resource name target ctx = Applies (selects_resource lower resource name target) ctx

  pub evaluate-Verdict :
      (resource : Resource) (name : String) (ctx : RuleContext) (target : Option String) (now : ℕ)
      (e : PolicyEngine) (d : EvaluationDecision)
      → (evaluate lower resource name ctx target now e).0 ≡ ok d
      → Verdict e (ByResource resource name (or_else target name) ctx) d
  unfolding evaluate
  evaluate-Verdict resource name ctx target now e d h =
      let sel = selects_resource lower resource name (or_else target name) in
      elim (Result-cases (collect sel ctx e.rules)) [
        | inl p ↦ let bad : threw ≡ ok d = rw (p, evaluate) at h in cc
        | inr (ms, p) ↦
            let same : ok (decide_among ms name ctx now e).0 ≡ ok d = rw (p, evaluate) at h in
            rw (ok_injective same) at (decide_among-Verdict sel ctx e ms name now p)
      ]
