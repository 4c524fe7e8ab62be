-- ===== src/Enforcement/Dispatch/Release.antt =====
-- When `runWithHitl` of src/enforcement/hitl-dispatch.ts permits, and when it asks an operator.
use mathlib.Core.Path.{subst}
use clawthority.Base.{
  ℕ, String, ◌≡◌, refl, sym, ◌∙◌, true, false, none, some, List, Option-cases, Bool-cases, ap, inl,
  inr, ◌⊎◌, arith,
}
use clawthority.Base.Results.{Result, ok, threw, ok_injective}
use clawthority.Policy.Types.{permit}
use clawthority.Policy.Engine.{is_permit}
use clawthority.Hitl.Types.{HitlPolicy}
use clawthority.Hitl.Matcher.{check_action}
use clawthority.Hitl.Approvals.{HitlDecision, approved, denied, expired, create_approval_request}
use clawthority.Enforcement.Types.{PipelineContext, CeeDecision, Capability, Stage}
use clawthority.Enforcement.Stage2.{below_threshold}
use clawthority.Enforcement.Pipeline.{Env, is_install_phase, run_pipeline}
use clawthority.Enforcement.Pipeline.Outcome.{BothPermit, run_pipeline_iff}
use clawthority.Enforcement.Dispatch.{
  World, HitlDispatchOpts, approved_stage2, first_ctx, rerun_ctx, approval_opts, rerun,
  after_decision, dispatch, run_with_hitl,
}

module _ (env : Env) (sha256 : String → String) (await_decision : ℕ → World → HitlDecision × World)
    (uuid : String) (now : ℕ) (stage1 stage2 : Stage World) (opts : HitlDispatchOpts)
    (ctx : PipelineContext) (w : World) (events : List CeeDecision) where
  abbrev pub first_run : CeeDecision × (World × List CeeDecision)
  first_run = run_pipeline env stage1 stage2 (first_ctx ctx) (w, events)

  -- The answer of the operator to the request, and the world in which it arrives.
  abbrev pub answer : HitlPolicy → World → HitlDecision × World
  answer policy v =
      let (handle, m) =
        create_approval_request sha256 (approval_opts opts ctx policy) uuid now v.manager in
      await_decision handle.promise (record v { manager = m })

  abbrev pub issue : World → Result Capability × World
  issue v = opts.issue_capability ctx.action_class ctx.target ctx.payload_hash ctx.session_id v

  -- The way of a call that the first run forbade: an operator approved it, a capability was issued, and
  -- the run with the stage that releases permitted.
  pub record Released (policy : HitlPolicy) (v : World) : Type 0 where
    pub approves : (answer policy v).0 ≡ approved
    pub capability : Capability
    pub issued : (issue (answer policy v).1).0 ≡ ok capability
    pub permitted :
        (is_install_phase env ≡ true)
        ⊎ BothPermit stage1
            (approved_stage2 stage2)
            (rerun_ctx ctx capability)
            (issue (answer policy v).1).1

  rerun-permit :
      (issued : Result Capability) (v : World) (log : List CeeDecision) (d : CeeDecision)
      → (rerun env sha256 await_decision uuid now stage1 stage2 opts ctx issued v log).0 ≡ ok d
      → d.effect ≡ permit
      → (c : Capability) × (issued ≡ ok c)
        × ((is_install_phase env ≡ true)
            ⊎ BothPermit stage1 (approved_stage2 stage2) (rerun_ctx ctx c) v)
  unfolding rerun
  rerun-permit threw v log d h p = cc
  rerun-permit (ok c) v log d h p =
      let permits = subst (λ x. x.effect ≡ permit) (sym (ok_injective h)) p in
      (
        c,
        refl,
        elim ((run_pipeline_iff env stage1 (approved_stage2 stage2) (rerun_ctx ctx c) v log).0
            permits) [ inl i ↦ inl i | inr (_, both) ↦ inr both ],
      )

  after_decision-permit :
      (first : CeeDecision) (answered : HitlDecision) (v : World) (log : List CeeDecision)
      (d : CeeDecision)
      → (after_decision env sha256 await_decision uuid now stage1 stage2 opts ctx first answered v
          log).0
        ≡ ok d
      → d.effect ≡ permit
      → (answered ≡ approved)
        × ((c : Capability) × ((issue v).0 ≡ ok c)
            × ((is_install_phase env ≡ true)
                ⊎ BothPermit stage1 (approved_stage2 stage2) (rerun_ctx ctx c) (issue v).1))
  unfolding after_decision
  after_decision-permit first approved v log d h p =
      (refl, rerun-permit (issue v).0 (issue v).1 log d h p)
  after_decision-permit first denied v log d h p =
      absurd (cc (ap (λ x. x.effect) (ok_injective h) ∙ p))
  after_decision-permit first expired v log d h p =
      absurd (cc (ap (λ x. x.effect) (ok_injective h) ∙ p))

  dispatch-permit :
      (policy : HitlPolicy) (first d : CeeDecision) (v : World) (log : List CeeDecision)
      → (dispatch env sha256 await_decision uuid now stage1 stage2 opts ctx policy first v log).0
        ≡ ok d
      → d.effect ≡ permit
      → Released policy v
  unfolding dispatch
  dispatch-permit policy first d v log h p =
      let (yes_approved, (c, issued, ran)) =
        after_decision-permit first (answer policy v).0 (answer policy v).1 log d h p in
      record { approves = yes_approved; capability = c; issued = issued; permitted = ran }

  -- A call that `runWithHitl` permits was permitted by the first run, or its forbid was below the
  -- threshold, a policy covers its class, the operator approved the request, a capability was
  -- issued, and then stage 1 permitted with it and stage 2 permitted or gave a forbid below the
  -- threshold again.
  pub run_with_hitl-permit :
      (d : CeeDecision)
      → (run_with_hitl env sha256 await_decision uuid now stage1 stage2 opts ctx w events).0 ≡ ok d
      → d.effect ≡ permit
      → (first_run.0.effect ≡ permit)
        ⊎ ((below_threshold first_run.0.priority ≡ true)
            × ((policy : HitlPolicy) × (check_action opts.hitl_config ctx.action_class
                  ≡ some policy)
                × Released policy first_run.1.0))
  unfolding run_with_hitl
  run_with_hitl-permit d h p = elim (Bool-cases (is_permit first_run.0.effect)) [
    | inl yes_permit ↦ inl (ground arith)
    | inr no_permit ↦ elim (Bool-cases (below_threshold first_run.0.priority)) [
      | inr hard ↦
          let same : ok first_run.0 ≡ ok d = rw (no_permit, hard, run_with_hitl) at h in
          inl (subst (λ x. x.effect ≡ permit) (sym (ok_injective same)) p)
      | inl gated ↦ elim (Option-cases (check_action opts.hitl_config ctx.action_class)) [
        | inl q ↦
            let same : ok first_run.0 ≡ ok d = rw (no_permit, gated, q, run_with_hitl) at h in
            inl (subst (λ x. x.effect ≡ permit) (sym (ok_injective same)) p)
        | inr (policy, q) ↦ inr (
          gated,
          (
            policy,
            q,
            dispatch-permit policy first_run.0 d first_run.1.0 first_run.1.1
                (rw (no_permit, gated, q, run_with_hitl) at h) p,
          ),
        )
      ]
    ]
  ]

  -- Without a policy for the class of the call, or with an unconditional forbid, the operator is not
  -- asked: the call ends with the first run, its decision and what it changed.
  run_with_hitl-unasked :
      (below_threshold first_run.0.priority ≡ false)
        ⊎ (check_action opts.hitl_config ctx.action_class ≡ none)
      → run_with_hitl env sha256 await_decision uuid now stage1 stage2 opts ctx w events
        ≡ (ok first_run.0, first_run.1)
  unfolding run_with_hitl
  run_with_hitl-unasked side = elim (Bool-cases (is_permit first_run.0.effect)) [
    | inl permits ↦ rw (permits, run_with_hitl) refl
    | inr forbids ↦ elim (Bool-cases (below_threshold first_run.0.priority)) [
      | inr hard ↦ rw (forbids, hard, run_with_hitl) refl
      | inl gated ↦ elim side [
        | inl hard ↦ absurd (cc (sym gated ∙ hard))
        | inr q ↦ rw (forbids, gated, q, run_with_hitl) refl
      ]
    ]
  ]
