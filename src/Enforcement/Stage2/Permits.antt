-- ===== src/Enforcement/Stage2/Permits.antt =====
-- When `createCombinedStage2` of src/enforcement/stage2-policy.ts permits.
use clawthority.Permits.Words.{Text}
use clawthority.Base.{
  ℕ, String, ◌≡◌, ◌≢◌, refl, sym, ◌∙◌, Bool, Option, none, some, Memᴰ, ◌⊎◌, inl, inr, Option-cases,
  Bool-cases, eq_of_some,
}
use mathlib.Core.Path.{subst}
use clawthority.Base.Results.{Result, ok, threw}
use clawthority.Policy.Types.{permit, forbid, Rule, RuleContext, tool}
use clawthority.Policy.Engine.{
  EvaluationDecision, PolicyEngine, evaluate, evaluate_by_action_class, evaluate_by_intent_group,
  decide_by,
}
use clawthority.Policy.Engine.Cedar.{NoRule, ByResource, evaluate-Verdict, Verdict-NoRule}
use clawthority.Policy.Engine.ActionClass.{ByClass, ByMapped, action_class_permit-NoRule}
use clawthority.Policy.Engine.Groups.{ByGroup, evaluate_by_intent_group-cases}
use clawthority.Policy.Engine.Frame.{
  SamePolicy, evaluate-SamePolicy, evaluate_by_action_class-SamePolicy,
}
use clawthority.Enforcement.Types.{PipelineContext, CeeDecision}
use clawthority.Enforcement.Stage2.{
  Flow, done, going, Engines, State, next_from, absorb_group, intent_loop, intent_part, cedar_part,
  json_class_part, json_tool_part, engine_entries, engines_part, finish, is_hitl_gated_decision,
  early_permit, combined_stage2,
}
use clawthority.Enforcement.Stage2.Steps.{
  Held, Captured, IsClean, absorbed, absorbed-Held, absorbed-IsClean, next_from-IsClean,
  next_from-Held, intent_loop-Held, intent_loop-IsClean,
}

-- A clean end of the body is the only one that permits.
pub finish-permit : (f : Result Flow) → Held f → (finish f).effect ≡ permit → IsClean f
unfolding finish
finish-permit threw held h = cc
finish-permit (ok (done d)) held h = absurd (cc (sym held ∙ h))
finish-permit (ok (going (some d))) held h = absurd (cc (sym held ∙ h))
finish-permit (ok (going none)) held h = refl

absorb_group-rule :
    (r : Rule) (stage : String) → r.effect ≡ forbid → absorb_group (decide_by r) stage ≢ none
unfolding absorb_group decide_by
absorb_group-rule r stage forbids h = elim (Bool-cases (is_hitl_gated_decision (decide_by r))) [
  | inl g ↦ absurd (cc (rw (forbids, g) at h))
  | inr g ↦ absurd (cc (rw (forbids, g) at h))
]

absorb_group-permit :
    (group : String) (ctx : RuleContext) (e : PolicyEngine) (d : EvaluationDecision)
    (stage : String)
    → evaluate_by_intent_group group ctx e ≡ ok d
    → absorb_group d stage ≡ none
    → NoRule e (ByGroup group ctx) forbid
absorb_group-permit group ctx e d stage h a =
    elim (evaluate_by_intent_group-cases group ctx e d h) [
      | inr (clear, _) ↦ clear
      | inl (r, same, forbids) ↦
          absurd
            (absorb_group-rule r stage forbids (subst (λ x. absorb_group x stage ≡ none) same a))
    ]

-- The engines after a part, which may have recorded calls.
abbrev Frame : Engines → Engines → Type 0
Frame new old =
    SamePolicy new.cedar old.cedar
    × ((j : PolicyEngine)
        → old.json ≡ some j
        → (k : PolicyEngine) × (new.json ≡ some k) × SamePolicy k j)

Frame-refl : (es : Engines) → Frame es es
Frame-refl es = ((refl, refl), (λ j p. (j, p, (refl, refl))))

pub NoRule-SamePolicy :
    (e f : PolicyEngine) (App : Rule → Type 0)
    → SamePolicy f e
    → NoRule f App forbid
    → NoRule e App forbid
NoRule-SamePolicy e f App (same, _) n r m = n r (subst (λ rs. Memᴰ r rs) (sym same) m)

Frame-trans : (a b c : Engines) → Frame a b → Frame b c → Frame a c
Frame-trans a b c ((r, d), j) ((r', d'), j') = (
  (r ∙ r', d ∙ d'),
  (λ x p. let (y, q, (m, n)) = j' x p in let (z, w, (m', n')) = j y q in (z, w, (m' ∙ m, n' ∙ n))),
)

-- What the engines of a part say of rules, they say of the engines before the part.
pull_json :
    (P : PolicyEngine → Type 0) (new old : Engines)
    → ((e f : PolicyEngine) → SamePolicy f e → P f → P e)
    → Frame new old
    → ((j : PolicyEngine) → new.json ≡ some j → P j)
    → (j : PolicyEngine) → old.json ≡ some j
    → P j
pull_json P new old moves (_, frame) clear j p =
    let (k, q, same) = frame j p in moves j k same (clear k q)

-- A part that is clean only where nothing was captured before it.
IsClean-step :
    (s : State) (k : Option CeeDecision → Engines → State)
    → ((p : Option CeeDecision) (es : Engines) → IsClean (k p es).0 → p ≡ none)
    → IsClean (next_from s.0 s.1 k).0
    → IsClean s.0 × IsClean (k none s.1).0 × (next_from s.0 s.1 k ≡ k none s.1)
IsClean-step s k strict h =
    let (p, e, c, same) = next_from-IsClean s.0 s.1 k h in
    let q = strict p s.1 c in
    (
      subst (λ x. s.0 ≡ ok (going x)) q e,
      subst (λ x. IsClean (k x s.1).0) q c,
      subst (λ x. next_from s.0 s.1 k ≡ k x s.1) q same,
    )

module _ (lower : String → String) (now : ℕ) (tool_name : String) (ctx : PipelineContext) where
  -- No forbid rule of the engine applies to the action class of the call.
  abbrev pub ClassClear : PolicyEngine → Type 0
  ClassClear e =
      NoRule e (ByClass lower ctx.action_class ctx.target ctx.rule_context) forbid
      × NoRule e (ByMapped lower ctx.action_class ctx.target ctx.rule_context) forbid

  -- Nor one of the intent group of the call.
  abbrev pub GroupClear : PolicyEngine → Type 0
  GroupClear e =
      (group : String)
      → ctx.intent_group ≡ some group
      → NoRule e (ByGroup group ctx.rule_context) forbid

  -- Nor one that matches the tool.
  abbrev pub ToolClear : PolicyEngine → Type 0
  ToolClear e = NoRule e (ByResource lower tool tool_name ctx.target ctx.rule_context) forbid

  abbrev by_class : PolicyEngine → Result EvaluationDecision × PolicyEngine
  by_class e = evaluate_by_action_class lower ctx.action_class ctx.target ctx.rule_context now e

  abbrev by_tool : PolicyEngine → Result EvaluationDecision × PolicyEngine
  by_tool e = evaluate lower tool tool_name ctx.rule_context (some ctx.target) now e

  by_class-IsClean :
      (e : PolicyEngine) (stage : String) (pending : Option CeeDecision)
      → IsClean (absorbed (by_class e).0 stage pending)
      → ClassClear e × (pending ≡ none)
  by_class-IsClean e stage pending h =
      let (d, p, permits, q) = absorbed-IsClean (by_class e).0 stage pending h in
      (
        action_class_permit-NoRule lower ctx.action_class ctx.target ctx.rule_context now e d p
            permits,
        q,
      )

  by_tool-IsClean :
      (e : PolicyEngine) (stage : String) (pending : Option CeeDecision)
      → IsClean (absorbed (by_tool e).0 stage pending)
      → ToolClear e × (pending ≡ none)
  by_tool-IsClean e stage pending h =
      let (d, p, permits, q) = absorbed-IsClean (by_tool e).0 stage pending h in
      let verdict =
        evaluate-Verdict lower tool tool_name ctx.rule_context (some ctx.target) now e d p in
      (
        Verdict-NoRule e (ByResource lower tool tool_name ctx.target ctx.rule_context) d verdict
            (inl permits),
        q,
      )

  cedar_part-IsClean :
      (es : Engines)
      → (IsClean (cedar_part lower now ctx es).0 → ClassClear es.cedar)
        × Held (cedar_part lower now ctx es).0
        × Frame (cedar_part lower now ctx es).1 es
  unfolding cedar_part
  cedar_part-IsClean es = (
    (λ h. (by_class-IsClean es.cedar "cedar" none h).0),
    absorbed-Held (by_class es.cedar).0 "cedar" none tt,
    (
      evaluate_by_action_class-SamePolicy lower ctx.action_class ctx.target ctx.rule_context now
          es.cedar,
      (λ j p. (j, p, (refl, refl))),
    ),
  )

  -- A part over the JSON engine, if there is one, with what its clean end says of that engine.
  abbrev JsonPart : (PolicyEngine → Type 0) → Option CeeDecision → Engines → State → Type 0
  JsonPart P pending es s =
      (IsClean s.0 → (pending ≡ none) × ((j : PolicyEngine) → es.json ≡ some j → P j))
      × (Captured pending → Held s.0)
      × Frame s.1 es

  json_class_part-IsClean :
      (pending : Option CeeDecision) (es : Engines)
      → JsonPart ClassClear pending es (json_class_part lower now ctx pending es)
  unfolding json_class_part
  json_class_part-IsClean pending es = elim (Option-cases es.json) [
    | inl p ↦
        rw (p, json_class_part) ((λ h. (cc, (λ j q. cc))), (λ c. c), ((refl, refl), (λ j q. cc)))
    | inr (j, p) ↦
        let frame =
          evaluate_by_action_class-SamePolicy lower ctx.action_class ctx.target ctx.rule_context now
            j in
        rw (p, json_class_part)
          (
            (λ h.
                let (clear, q) = by_class-IsClean j "json-rules" pending h in
                (q, (λ k e. subst (λ x. ClassClear x) (eq_of_some e) clear))),
            (λ c. absorbed-Held (by_class j).0 "json-rules" pending c),
            (
              (refl, refl),
              (λ k e. (
                (by_class j).1,
                refl,
                subst (λ x. SamePolicy (by_class j).1 x) (eq_of_some e) frame,
              )),
            ),
          )
  ]

  json_tool_part-IsClean :
      (pending : Option CeeDecision) (es : Engines)
      → JsonPart ToolClear pending es (json_tool_part lower now tool_name ctx pending es)
  unfolding json_tool_part
  json_tool_part-IsClean pending es = elim (Option-cases es.json) [
    | inl p ↦
        rw (p, json_tool_part) ((λ h. (cc, (λ j q. cc))), (λ c. c), ((refl, refl), (λ j q. cc)))
    | inr (j, p) ↦
        let frame =
          evaluate-SamePolicy lower tool tool_name ctx.rule_context (some ctx.target) now j in
        rw (p, json_tool_part)
          (
            (λ h.
                let (clear, q) = by_tool-IsClean j "json-rules" pending h in
                (q, (λ k e. subst (λ x. ToolClear x) (eq_of_some e) clear))),
            (λ c. absorbed-Held (by_tool j).0 "json-rules" pending c),
            (
              (refl, refl),
              (λ k e. (
                (by_tool j).1,
                refl,
                subst (λ x. SamePolicy (by_tool j).1 x) (eq_of_some e) frame,
              )),
            ),
          )
  ]

  intent_part-IsClean :
      (pending : Option CeeDecision) (es : Engines)
      → IsClean (intent_part ctx pending es).0
      → (pending ≡ none)
        × GroupClear es.cedar
        × ((j : PolicyEngine) → es.json ≡ some j → GroupClear j)
  unfolding intent_part
  intent_part-IsClean (some d) es h = cc
  intent_part-IsClean none es h = elim (Option-cases ctx.intent_group) [
    | inl p ↦ (refl, (λ g q. cc), (λ j w g q. cc))
    | inr (group, p) ↦
        let clean : IsClean (intent_loop group ctx.rule_context (engine_entries es)) =
          rw (p, intent_part) at h in
        let clear : (e : PolicyEngine) (stage : String)
            → Memᴰ (e, stage) (engine_entries es)
            → GroupClear e =
          λ e stage m g q.
            let (d, w, a) =
              intent_loop-IsClean group ctx.rule_context (engine_entries es) clean e stage m in
            subst (λ x. NoRule e (ByGroup x ctx.rule_context) forbid) (eq_of_some (sym p ∙ q))
              (absorb_group-permit group ctx.rule_context e d stage w a) in
        (
          refl,
          clear es.cedar "cedar" (Memᴰ.head refl),
          (λ j q. clear j "json-rules" (rw q (Memᴰ.tail (Memᴰ.head refl)))),
        )
  ]

  intent_part-Held :
      (pending : Option CeeDecision) (es : Engines)
      → Captured pending
      → Held (intent_part ctx pending es).0
  unfolding intent_part
  intent_part-Held (some d) es c = c
  intent_part-Held none es c = elim (Option-cases ctx.intent_group) [
    | inl p ↦ rw (p, intent_part) tt
    | inr (group, p) ↦
        rw (p, intent_part) (intent_loop-Held group ctx.rule_context (engine_entries es))
  ]

  pub engines_part-Held : (es : Engines) → Held (engines_part lower now tool_name ctx es).0
  unfolding engines_part
  engines_part-Held es =
      let s0 = cedar_part lower now ctx es in
      let s1 = next_from s0.0 s0.1 (json_class_part lower now ctx) in
      let s2 = next_from s1.0 s1.1 (json_tool_part lower now tool_name ctx) in
      next_from-Held s2.0 s2.1 (intent_part ctx)
        (next_from-Held s1.0 s1.1 (json_tool_part lower now tool_name ctx)
          (next_from-Held s0.0 s0.1 (json_class_part lower now ctx) ((cedar_part-IsClean es).1)
            (λ p c. (json_class_part-IsClean p s0.1).1 c))
          (λ p c. (json_tool_part-IsClean p s1.1).1 c))
        (λ p c. intent_part-Held p s2.1 c)

  -- No forbid rule of the two engines applies to the call.
  pub record AllClear (es : Engines) : Type 0 where
    pub cedar_class : ClassClear es.cedar
    pub cedar_group : GroupClear es.cedar
    pub json_class : (j : PolicyEngine) → es.json ≡ some j → ClassClear j
    pub json_tool : (j : PolicyEngine) → es.json ≡ some j → ToolClear j
    pub json_group : (j : PolicyEngine) → es.json ≡ some j → GroupClear j

  ClassClear-moves : (e f : PolicyEngine) → SamePolicy f e → ClassClear f → ClassClear e
  ClassClear-moves e f same (a, b) = (
    NoRule-SamePolicy e f (ByClass lower ctx.action_class ctx.target ctx.rule_context) same a,
    NoRule-SamePolicy e f (ByMapped lower ctx.action_class ctx.target ctx.rule_context) same b,
  )

  GroupClear-moves : (e f : PolicyEngine) → SamePolicy f e → GroupClear f → GroupClear e
  GroupClear-moves e f same clear g p =
      NoRule-SamePolicy e f (ByGroup g ctx.rule_context) same (clear g p)

  ToolClear-moves : (e f : PolicyEngine) → SamePolicy f e → ToolClear f → ToolClear e
  ToolClear-moves e f same clear =
      NoRule-SamePolicy e f (ByResource lower tool tool_name ctx.target ctx.rule_context) same clear

  engines_part-IsClean :
      (es : Engines) → IsClean (engines_part lower now tool_name ctx es).0 → AllClear es
  unfolding engines_part
  engines_part-IsClean es h =
      let s0 = cedar_part lower now ctx es in
      let s1 = next_from s0.0 s0.1 (json_class_part lower now ctx) in
      let s2 = next_from s1.0 s1.1 (json_tool_part lower now tool_name ctx) in
      let (c2, i2, _) =
        IsClean-step s2 (intent_part ctx) (λ p e c. (intent_part-IsClean p e c).0) h in
      let (c1, t1, same2) =
        IsClean-step s1 (json_tool_part lower now tool_name ctx)
          (λ p e c. ((json_tool_part-IsClean p e).0 c).0) c2 in
      let (c0, j0, same1) =
        IsClean-step s0 (json_class_part lower now ctx)
          (λ p e c. ((json_class_part-IsClean p e).0 c).0) c1 in
      let (class_json, _, frame1) = json_class_part-IsClean none s0.1 in
      let (tool_json, _, frame2) = json_tool_part-IsClean none s1.1 in
      let (class_cedar, _, frame0) = cedar_part-IsClean es in
      let (_, group_cedar, group_json) = intent_part-IsClean none s2.1 i2 in
      let to0 : Frame s1.1 es =
        Frame-trans s1.1 s0.1 es (subst (λ s. Frame s.1 s0.1) (sym same1) frame1) frame0 in
      let to1 : Frame s2.1 es =
        Frame-trans s2.1 s1.1 es (subst (λ s. Frame s.1 s1.1) (sym same2) frame2) to0 in
      record {
        cedar_class = class_cedar c0;
        cedar_group = GroupClear-moves es.cedar s2.1.cedar to1.0 group_cedar;
        json_class = pull_json ClassClear s0.1 es ClassClear-moves frame0 (class_json j0).1;
        json_tool = pull_json ToolClear s1.1 es ToolClear-moves to0 (tool_json t1).1;
        json_group = pull_json GroupClear s2.1 es GroupClear-moves to1 group_json;
      }

  -- The stage permits only by a session approval or a stored pattern, or where no forbid rule of
  -- the two engines applies to the call: none that names its action class, none on the resource the
  -- class is mapped to, none of its intent group, and in the JSON engine none on its tool.
  pub combined_stage2-permit :
      (auto_permit : Option (String → String → Bool))
      (auto_permit_rules : Option (String → Option Text)) (es : Engines)
      → (combined_stage2 lower now tool_name auto_permit auto_permit_rules ctx es).0.effect ≡ permit
      → ((d : CeeDecision) × (early_permit tool_name auto_permit auto_permit_rules ctx ≡ some d))
        ⊎ AllClear es
  unfolding combined_stage2
  combined_stage2-permit auto_permit auto_permit_rules es h =
      elim (Option-cases (early_permit tool_name auto_permit auto_permit_rules ctx)) [
        | inr (d, p) ↦ inl (d, p)
        | inl p ↦
            let f = (engines_part lower now tool_name ctx es).0 in
            let permits : (finish f).effect ≡ permit = rw (p, combined_stage2) at h in
            inr (engines_part-IsClean es (finish-permit f (engines_part-Held es) permits))
      ]
