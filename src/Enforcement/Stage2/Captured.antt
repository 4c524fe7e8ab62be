-- ===== src/Enforcement/Stage2/Captured.antt =====
-- The intent group of a call in `createCombinedStage2` of src/enforcement/stage2-policy.ts, once a
-- forbid is captured.
use clawthority.Permits.Words.{Text}
use clawthority.Base.{
  ℕ, String, ◌≡◌, refl, ◌∙◌, Bool, true, Option, none, some, inl, inr, Option-cases,
}
use clawthority.Base.Results.{Result, ok, threw}
use clawthority.Enforcement.Types.{PipelineContext, CeeDecision}
use clawthority.Enforcement.Stage2.{
  Flow, done, going, Engines, State, next_from, intent_part, cedar_part, json_class_part,
  json_tool_part, engines_part, finish, early_permit, combined_stage2, below_threshold,
  stage2_error,
}
use clawthority.Enforcement.Stage2.Forbids.{Hard, finish-gated, engines_part-Hard}

finish-captured :
    (f : Result Flow)
    → Hard f
    → below_threshold (finish f).priority ≡ true
    → (d : CeeDecision) × (f ≡ ok (going (some d)))
unfolding finish stage2_error
finish-captured f hard h =
    let (q, e) = finish-gated f hard h in
    elim (Option-cases q) [
      | inr (d, p) ↦ (d, e ∙ cc)
      | inl p ↦ let bad : below_threshold none ≡ true = rw (e, p, finish) at h in cc
    ]

intent_part-captured :
    (ctx : PipelineContext) (s : State) (d : CeeDecision)
    → (next_from s.0 s.1 (intent_part (record ctx { intent_group = none }))).0 ≡ ok (going (some d))
    → next_from s.0 s.1 (intent_part ctx)
      ≡ next_from s.0 s.1 (intent_part (record ctx { intent_group = none }))
unfolding intent_part
intent_part-captured ctx (threw, es) d h = cc
intent_part-captured ctx (ok (done x), es) d h = cc
intent_part-captured ctx (ok (going none), es) d h = cc
intent_part-captured ctx (ok (going (some x)), es) d h = refl

body-cong :
    (s : State) (f g : Option CeeDecision → Engines → State)
    → next_from s.0 s.1 f ≡ next_from s.0 s.1 g
    → ◌≡◌ {A = CeeDecision × Engines}
        (finish (next_from s.0 s.1 f).0, (next_from s.0 s.1 f).1)
        (finish (next_from s.0 s.1 g).0, (next_from s.0 s.1 g).1)
body-cong s f g h = cc

-- Once the other rules give a forbid that the dispatch may hand to an operator, the intent group of
-- the call makes no difference: even an unconditional forbid of the group is not looked at.
pub combined_stage2-ignores_group :
    (lower : String → String) (now : ℕ) (tool_name : String)
    (auto_permit : Option (String → String → Bool))
    (auto_permit_rules : Option (String → Option Text)) (ctx : PipelineContext) (es : Engines)
    → let alone =
        combined_stage2 lower now tool_name auto_permit auto_permit_rules
          (record ctx { intent_group = none })
          es in
      below_threshold alone.0.priority ≡ true
      → combined_stage2 lower now tool_name auto_permit auto_permit_rules ctx es ≡ alone
unfolding combined_stage2 early_permit engines_part cedar_part json_class_part json_tool_part
combined_stage2-ignores_group lower now tool_name auto_permit auto_permit_rules ctx es h =
    let bare : PipelineContext = record ctx { intent_group = none } in
    elim (Option-cases (early_permit tool_name auto_permit auto_permit_rules bare)) [
      | inr (d, p) ↦ rw (p, combined_stage2) refl
      | inl p ↦
          let f = (engines_part lower now tool_name bare es).0 in
          let gated : below_threshold (finish f).priority ≡ true = rw (p, combined_stage2) at h in
          let (d, e) = finish-captured f (engines_part-Hard lower now tool_name bare es) gated in
          let s0 = cedar_part lower now ctx es in
          let s1 = next_from s0.0 s0.1 (json_class_part lower now ctx) in
          let s2 = next_from s1.0 s1.1 (json_tool_part lower now tool_name ctx) in
          let same = intent_part-captured ctx s2 d e in
          rw (p, combined_stage2) (body-cong s2 (intent_part ctx) (intent_part bare) same)
    ]
