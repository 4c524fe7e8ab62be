-- ===== src/Enforcement/Pipeline/Outcome.antt =====
-- The decision of `runPipeline` (src/enforcement/pipeline.ts).
use clawthority.Base.{
  ◌≡◌, refl, sym, ◌∙◌, Bool, true, false, ◌&&◌, not, List, Bool-cases, inl, inr, ◌⊎◌, ◌↔◌, arith,
}
use clawthority.Base.Results.{Result, ok, threw, ok_injective}
use clawthority.Policy.Types.{permit, forbid}
use clawthority.Enforcement.Types.{
  PipelineContext, CeeDecision, Stage, HitlMode, no_hitl, per_request, session_approval,
}
use clawthority.Enforcement.Pipeline.{
  Env, is_install_phase, is_mode_none, is_absent, catch_error, pipeline_error, second_stage,
  decide_pipeline, run_pipeline,
}

-- Both stages were run and permitted, the second in the world that the first left.
pub record BothPermit {W : Type 0} (stage1 stage2 : Stage W) (ctx : PipelineContext) (w : W)
    : Type 0 where
  pub first : CeeDecision
  pub second : CeeDecision
  pub first_ran : (stage1 ctx w).0 ≡ ok first
  pub second_ran : (stage2 ctx (stage1 ctx w).1).0 ≡ ok second
  pub first_permits : first.effect ≡ permit
  pub second_permits : second.effect ≡ permit

catch_error_iff :
    {W : Type 0} (r : Result CeeDecision) (w : W)
    → ((catch_error r w).0.effect ≡ permit) ↔ ((d : CeeDecision) × (r ≡ ok d) × (d.effect ≡ permit))
unfolding pipeline_error
catch_error_iff (ok d) w = ((λ h. (d, refl, h)), (λ (x, e, h). cc))
catch_error_iff threw w = ((λ h. cc), (λ (x, e, h). cc))

second_stage_iff :
    {W : Type 0} (stage2 : Stage W) (ctx : PipelineContext) (r : Result CeeDecision) (w : W)
    → ((second_stage stage2 ctx r w).0.effect ≡ permit) ↔ (
        (a : CeeDecision) × ((r ≡ ok a) × (a.effect ≡ permit))
        × ((b : CeeDecision) × ((stage2 ctx w).0 ≡ ok b) × (b.effect ≡ permit)))
unfolding pipeline_error
second_stage_iff stage2 ctx threw w = ((λ h. cc), (λ (a, (e, _), _). cc))
second_stage_iff stage2 ctx (ok a) w =
    let s = catch_error_iff (stage2 ctx w).0 (stage2 ctx w).1 in
    (
      (λ h. (a, (refl, ground arith), s.0 (ground arith))),
      (λ (x, (e, p), b). ground (arith, s.1 b, ok_injective e)),
    )

passes_iff :
    (m : HitlMode) (b : Bool)
    → ((not (is_mode_none m) && b) ≡ false) ↔ ((m ≡ no_hitl) ⊎ (b ≡ false))
passes_iff no_hitl b = ((λ h. inl refl), (λ h. refl))
passes_iff per_request b = ((λ h. inr h), (λ h. elim h [ inl e ↦ cc | inr e ↦ e ]))
passes_iff session_approval b = ((λ h. inr h), (λ h. elim h [ inl e ↦ cc | inr e ↦ e ]))

module _ {W : Type 0} (env : Env) (stage1 stage2 : Stage W) (ctx : PipelineContext) where
  both_iff :
      (w : W)
      → ((second_stage stage2 ctx (stage1 ctx w).0 (stage1 ctx w).1).0.effect ≡ permit)
        ↔ BothPermit stage1 stage2 ctx w
  both_iff w =
      let s = second_stage_iff stage2 ctx (stage1 ctx w).0 (stage1 ctx w).1 in
      (
        (λ h.
            let (a, (e, p), (b, f, q)) = s.0 h in
            record {
              first = a;
              second = b;
              first_ran = e;
              second_ran = f;
              first_permits = p;
              second_permits = q;
            }),
        (λ v.
            s.1 (
              v.first,
              (v.first_ran, v.first_permits),
              (v.second, v.second_ran, v.second_permits),
            )),
      )

  -- The check before the stages lets the call pass.
  abbrev pub Passes : Type 0
  Passes = (ctx.hitl_mode ≡ no_hitl) ⊎ (is_absent ctx.approval_id ≡ false)

  -- The pipeline permits exactly in the install phase, or where the call needs no approval or names
  -- one and both stages return and permit. So a stage that throws denies.
  pub run_pipeline_iff :
      (w : W) (events : List CeeDecision)
      → ((run_pipeline env stage1 stage2 ctx (w, events)).0.effect ≡ permit)
        ↔ ((is_install_phase env ≡ true) ⊎ (Passes × BothPermit stage1 stage2 ctx w))
  unfolding run_pipeline decide_pipeline
  run_pipeline_iff w events =
      let passes = passes_iff ctx.hitl_mode (is_absent ctx.approval_id) in
      elim (Bool-cases (is_install_phase env)) [
        | inl p ↦ ((λ h. inl p), (λ h. rw (p, decide_pipeline) refl))
        | inr p ↦
            elim (Bool-cases (not (is_mode_none ctx.hitl_mode) && is_absent ctx.approval_id)) [
              | inl q ↦ (
                (λ h. let bad : forbid ≡ permit = rw (p, q, decide_pipeline) at h in cc),
                (λ c. elim c [
                  | inl i ↦ absurd (cc (sym p ∙ i))
                  | inr (ok_mode, _) ↦ absurd (cc (sym q ∙ passes.1 ok_mode))
                ]),
              )
              | inr q ↦ (
                (λ h. inr (passes.0 q, (both_iff w).0 (rw (p, q, decide_pipeline) at h))),
                (λ c. elim c [
                  | inl i ↦ absurd (cc (sym p ∙ i))
                  | inr (_, both) ↦ rw (p, q, decide_pipeline) ((both_iff w).1 both)
                ]),
              )
            ]
      ]
