-- ===== src/Enforcement/Dispatch/Hard.antt =====
-- `runWithHitl` of src/enforcement/hitl-dispatch.ts with the two stages of the source, and the
-- unconditional forbids.
use clawthority.Permits.Words.{Text}
use clawthority.Base.{
  ℕ, String, ◌≡◌, refl, Bool, true, Option, none, some, List, Option-cases, Bool-cases, inl, inr,
  ◌⊎◌, arith,
}
use clawthority.Base.Results.{Result, ok, Result-cases, or_catch}
use clawthority.Policy.Types.{permit}
use clawthority.Policy.Engine.{is_forbid}
use clawthority.Hitl.Approvals.{HitlDecision, ApprovalManager}
use clawthority.Enforcement.Types.{
  PipelineContext, CeeDecision, Capability, HitlMode, no_hitl, per_request, session_approval,
}
use clawthority.Enforcement.Stage1.{
  validate_capability, untrusted_risk, check_approval, check_capability, check_mode, stage1_forbid,
  present_id,
}
use clawthority.Enforcement.Stage2.{below_threshold, early_permit}
use clawthority.Enforcement.Stage2.Quiet.{Quiet, combined_stage2-Quiet}
use clawthority.Enforcement.Pipeline.{Env, is_install_phase, decide_pipeline, run_pipeline}
use clawthority.Enforcement.Dispatch.{
  World, HitlDispatchOpts, first_ctx, run_with_hitl, world_stage1, world_stage2,
}
use clawthority.Enforcement.Dispatch.Release.{run_with_hitl-permit}

module _ (sha256 : String → String) (get_capability : String → Result (Option Capability)) (now : ℕ)
    (manager : ApprovalManager) (ctx : PipelineContext) where
  check_approval-priority :
      (or_catch
        (check_approval sha256 get_capability now manager ctx)
        (stage1_forbid "stage1_error")).priority
      ≡ none
  unfolding check_approval check_capability
  check_approval-priority = elim (Option-cases (present_id ctx.approval_id)) [
    | inl p ↦ rw (p, check_approval) refl
    | inr (id, p) ↦ elim (Result-cases (get_capability id)) [
      | inl q ↦ rw (p, q, check_approval) refl
      | inr (found, q) ↦ elim (Option-cases found) [
        | inl w ↦ rw (p, q, w, check_approval) refl
        | inr (c, w) ↦ rw (p, q, w, check_approval) (ground arith)
      ]
    ]
  ]

  check_mode-priority :
      (mode : HitlMode)
      → (or_catch
          (check_mode sha256 get_capability now manager mode ctx)
          (stage1_forbid "stage1_error")).priority
        ≡ none
  check_mode-priority no_hitl = refl
  check_mode-priority per_request = check_approval-priority
  check_mode-priority session_approval = check_approval-priority

  -- The decisions of the capability gate carry no priority.
  validate_capability-priority :
      (validate_capability sha256 get_capability now manager ctx).priority ≡ none
  unfolding validate_capability
  validate_capability-priority = elim (Option-cases (untrusted_risk ctx)) [
    | inl p ↦ rw (p, validate_capability) (check_mode-priority ctx.hitl_mode)
    | inr (r, p) ↦ rw (p, validate_capability) refl
  ]

-- A forbid without a priority neither permits nor goes to an operator.
gate_denial :
    (s : CeeDecision)
    → is_forbid s.effect ≡ true
    → s.priority ≡ none
    → ¬ ((s.effect ≡ permit) ⊎ (below_threshold s.priority ≡ true))
gate_denial s f none_priority (inl p) = ground arith
gate_denial s f none_priority (inr g) =
    let bad : below_threshold none ≡ true = rw none_priority at g in cc

module _ (env : Env) (sha256 lower : String → String)
    (get_capability : World → String → Result (Option Capability)) (now : ℕ) (tool_name : String)
    (auto_permit : Option (String → String → Bool))
    (auto_permit_rules : Option (String → Option Text)) (ctx : PipelineContext) (w : World) where
  -- What the first run leaves possible.
  abbrev pub Open : Type 0
  Open =
      (is_install_phase env ≡ true)
      ⊎ (((x : CeeDecision) × (early_permit tool_name auto_permit auto_permit_rules ctx ≡ some x))
          ⊎ Quiet lower now tool_name ctx w.engines)

  first_run-Open :
      (events : List CeeDecision)
      → let d =
          (run_pipeline env
            (world_stage1 sha256 get_capability now)
            (world_stage2 lower now tool_name auto_permit auto_permit_rules)
            (first_ctx ctx)
            (w, events)).0 in
        (d.effect ≡ permit) ⊎ (below_threshold d.priority ≡ true) → Open
  unfolding run_pipeline decide_pipeline world_stage1 world_stage2
  first_run-Open events h = elim (Bool-cases (is_install_phase env)) [
    | inl p ↦ inl p
    | inr p ↦
        let s1 = validate_capability sha256 (get_capability w) now w.manager (first_ctx ctx) in
        elim (Bool-cases (is_forbid s1.effect)) [
          | inl f ↦
              let h' : (s1.effect ≡ permit) ⊎ (below_threshold s1.priority ≡ true) =
                rw (p, f, decide_pipeline) at h in
              absurd (
                gate_denial s1 f
                  (validate_capability-priority sha256 (get_capability w) now w.manager
                    (first_ctx ctx))
                  h')
          | inr f ↦ inr (
              combined_stage2-Quiet lower now tool_name ctx auto_permit auto_permit_rules w.engines
                (rw (p, f, decide_pipeline) at h))
        ]
  ]

  -- With the two stages of the source, whatever the operator answers, whatever capability is issued and
  -- whatever happens meanwhile: a call that `runWithHitl` permits is made in the install phase, or
  -- a session approval or a stored pattern permits it, or each evaluation that the first run made
  -- returned and none of them was an unconditional forbid: those by class and by tool, and, where
  -- these were permits, those by the intent group, of the second engine unless the first gave a
  -- forbid of a rule.
  pub run_with_hitl-Open :
      (await_decision : ℕ → World → HitlDecision × World) (uuid : String) (time : ℕ)
      (opts : HitlDispatchOpts) (events : List CeeDecision) (d : CeeDecision)
      → (run_with_hitl env sha256 await_decision uuid time
          (world_stage1 sha256 get_capability now)
          (world_stage2 lower now tool_name auto_permit auto_permit_rules)
          opts
          ctx
          w
          events).0
        ≡ ok d
      → d.effect ≡ permit
      → Open
  run_with_hitl-Open await_decision uuid time opts events d h p =
      first_run-Open events
        (elim (run_with_hitl-permit env sha256 await_decision uuid time
          (world_stage1 sha256 get_capability now)
          (world_stage2 lower now tool_name auto_permit auto_permit_rules) opts ctx w events d h
          p) [ inl permits ↦ inl permits | inr (gated, _) ↦ inr gated ])
