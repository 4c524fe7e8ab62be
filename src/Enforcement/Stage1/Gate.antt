-- ===== src/Enforcement/Stage1/Gate.antt =====
-- When the capability gate of src/enforcement/stage1-capability.ts permits.
use clawthority.Base.{
  ℕ, ◌≤◌, String, ◌≡◌, ◌≢◌, ◌↔◌, refl, sym, ◌∙◌, true, false, Option, none, some, ◌⊎◌, inl, inr,
  eq_iff, arith, Option-cases, or_else,
}
use clawthority.Base.Results.{Result, ok, threw, or_catch, Result-cases, ok_injective}
use clawthority.Policy.Types.{permit, forbid}
use clawthority.Enforcement.Types.{
  RiskLevel, HitlMode, no_hitl, per_request, session_approval, PipelineContext, CeeDecision,
  Capability, high, critical,
}
use clawthority.Enforcement.Stage1.{
  untrusted_risk, determine_source_trust_level, check_capability, check_approval, check_mode,
  present_id, same_session, validate_capability, stage1_forbid,
}
use clawthority.Hitl.Approvals.{ApprovalManager, is_consumed, compute_binding}

-- The call comes from an untrusted source and its risk is high or critical.
abbrev pub IsUntrusted : PipelineContext → Type 0
IsUntrusted ctx =
    (or_else ctx.source_trust_level (determine_source_trust_level ctx.source) ≡ "untrusted")
    × ((ctx.risk ≡ some high) ⊎ (ctx.risk ≡ some critical))

module _ (sha256 : String → String) (get_capability : String → Result (Option Capability)) (now : ℕ)
    (manager : ApprovalManager) (ctx : PipelineContext) where
  -- The approval that the context names has a capability, in time, bound to the action, the target
  -- and the payload of the call, not consumed, and of the call's session if it has one.
  pub record IsCovered (id : String) (c : Capability) : Type 0 where
    pub named : ctx.approval_id ≡ some id
    pub not_empty : id ≢ ""
    pub stored : get_capability id ≡ ok (some c)
    pub in_time : now ≤ c.expires_at
    pub bound : c.binding ≡ compute_binding sha256 ctx.action_class ctx.target ctx.payload_hash
    pub unused : is_consumed id manager ≡ false
    pub session : (s : String) → c.session_id ≡ some s → ctx.session_id ≡ some s

  same_session_iff :
      (a b : Option String) → (same_session a b ≡ true) ↔ ((s : String) → a ≡ some s → b ≡ some s)
  same_session_iff none b = ((λ h s e. cc), (λ f. refl))
  same_session_iff (some s) none = ((λ h t e. cc), (λ f. absurd (cc (f s refl))))
  same_session_iff (some s) (some t) =
      ((λ h u e. ground (arith, eq_iff s t)), (λ f. ground (arith, eq_iff s t, f s refl)))

  check_capability_iff :
      (id : String) (c : Capability)
      → ctx.approval_id ≡ some id
      → id ≢ ""
      → get_capability id ≡ ok (some c)
      → ((check_capability sha256 now manager ctx id c).effect ≡ permit) ↔ IsCovered id c
  unfolding check_capability
  check_capability_iff id c named not_empty stored =
      let text = compute_binding sha256 ctx.action_class ctx.target ctx.payload_hash in
      let sessions = same_session_iff c.session_id ctx.session_id in
      let bindings = eq_iff text c.binding in
      (
        (λ h. record {
          named = named;
          not_empty = not_empty;
          stored = stored;
          in_time = ground arith;
          bound = ground (arith, bindings);
          unused = ground arith;
          session = sessions.0 (ground arith);
        }),
        (λ v. ground (arith, v.in_time, bindings, v.bound, v.unused, sessions.1 v.session)),
      )

  IsUntrusted-risk : IsUntrusted ctx → (r : RiskLevel) × (untrusted_risk ctx ≡ some r)
  unfolding untrusted_risk
  IsUntrusted-risk (level, inl r) = (
    high,
    ground (
      arith,
      eq_iff (or_else ctx.source_trust_level (determine_source_trust_level ctx.source)) "untrusted",
    ),
  )
  IsUntrusted-risk (level, inr r) = (
    critical,
    ground (
      arith,
      eq_iff (or_else ctx.source_trust_level (determine_source_trust_level ctx.source)) "untrusted",
    ),
  )

  risk-IsUntrusted : {r : RiskLevel} → untrusted_risk ctx ≡ some r → IsUntrusted ctx
  unfolding untrusted_risk
  risk-IsUntrusted h = ground (
    arith,
    eq_iff (or_else ctx.source_trust_level (determine_source_trust_level ctx.source)) "untrusted",
  )

  present_id-some :
      (o : Option String) {id : String} → present_id o ≡ some id → (o ≡ some id) × (id ≢ "")
  present_id-some none h = cc
  present_id-some (some a) h = ground (arith, eq_iff a "")

  some-present_id : (id : String) → id ≢ "" → present_id (some id) ≡ some id
  some-present_id id h = ground (arith, eq_iff id "")

  check_approval-permit :
      {d : CeeDecision}
      → check_approval sha256 get_capability now manager ctx ≡ ok d
      → d.effect ≡ permit
      → (id : String) × (c : Capability) × IsCovered id c
  unfolding check_approval
  check_approval-permit {d} h permits = elim (Option-cases (present_id ctx.approval_id)) [
    | inl p ↦
        let e : ok (stage1_forbid "approval_id required") ≡ ok d = rw (p, check_approval) at h in
        absurd (ground arith)
    | inr (id, p) ↦ elim (Result-cases (get_capability id)) [
      | inl q ↦ let e : threw ≡ ok d = rw (p, q, check_approval) at h in cc
      | inr (found, q) ↦ elim (Option-cases found) [
        | inl w ↦
            let e : ok (stage1_forbid "capability not found") ≡ ok d =
              rw (p, q, w, check_approval) at h in
            absurd (ground arith)
        | inr (c, w) ↦
            let e : ok (check_capability sha256 now manager ctx id c) ≡ ok d =
              rw (p, q, w, check_approval) at h in
            let (named, not_empty) = present_id-some ctx.approval_id p in
            (
              id,
              c,
              (check_capability_iff id c named not_empty (rw w at q)).0
                  (rw (← ok_injective e) at permits),
            )
      ]
    ]
  ]

  IsCovered-permit :
      (id : String) (c : Capability)
      → IsCovered id c
      → (or_catch
          (check_approval sha256 get_capability now manager ctx)
          (stage1_forbid "stage1_error")).effect
        ≡ permit
  unfolding check_approval
  IsCovered-permit id c v =
      let present = some-present_id id v.not_empty in
      rw (v.named, present, v.stored, check_approval)
        ((check_capability_iff id c v.named v.not_empty v.stored).1 v)

  catch_permit :
      (m : Result CeeDecision)
      → (or_catch m (stage1_forbid "stage1_error")).effect ≡ permit
      → (d : CeeDecision) × (m ≡ ok d) × (d.effect ≡ permit)
  catch_permit (ok d) h = (d, refl, h)
  catch_permit threw h = cc

  check_mode_iff :
      (mode : HitlMode)
      → ((or_catch
            (check_mode sha256 get_capability now manager mode ctx)
            (stage1_forbid "stage1_error")).effect
          ≡ permit)
        ↔ ((mode ≡ no_hitl) ⊎ ((id : String) × (c : Capability) × IsCovered id c))
  check_mode_iff no_hitl = ((λ h. inl refl), (λ h. refl))
  check_mode_iff per_request =
      ((λ h. inr (let (d, e, p) = catch_permit _ h in check_approval-permit e p)), covered)
    where
      covered :
          (per_request ≡ no_hitl) ⊎ ((id : String) × (c : Capability) × IsCovered id c)
          → (or_catch
              (check_approval sha256 get_capability now manager ctx)
              (stage1_forbid "stage1_error")).effect
            ≡ permit
      covered (inl e) = cc
      covered (inr (id, c, v)) = IsCovered-permit id c v
  check_mode_iff session_approval =
      ((λ h. inr (let (d, e, p) = catch_permit _ h in check_approval-permit e p)), covered)
    where
      covered :
          (session_approval ≡ no_hitl) ⊎ ((id : String) × (c : Capability) × IsCovered id c)
          → (or_catch
              (check_approval sha256 get_capability now manager ctx)
              (stage1_forbid "stage1_error")).effect
            ≡ permit
      covered (inl e) = cc
      covered (inr (id, c, v)) = IsCovered-permit id c v

  -- The gate permits exactly the calls that are not from an untrusted source at high or critical risk,
  -- and that either need no approval or name one whose capability covers them. In particular it
  -- denies where the look-up of the capability throws.
  pub validate_capability_iff :
      ((validate_capability sha256 get_capability now manager ctx).effect ≡ permit) ↔ (
        (¬ IsUntrusted ctx)
        × ((ctx.hitl_mode ≡ no_hitl) ⊎ ((id : String) × (c : Capability) × IsCovered id c)))
  unfolding validate_capability
  validate_capability_iff = elim (Option-cases (untrusted_risk ctx)) [
    | inr (r, p) ↦ (
      (λ h. let bad : forbid ≡ permit = rw (p, validate_capability) at h in cc),
      (λ (t, _). absurd (t (risk-IsUntrusted p))),
    )
    | inl p ↦ (
      (λ h. (
        (λ u. let (r, q) = IsUntrusted-risk u in let bad : none ≡ some r = sym p ∙ q in cc),
        (check_mode_iff ctx.hitl_mode).0 (rw (p, validate_capability) at h),
      )),
      (λ (t, a). rw (p, validate_capability) ((check_mode_iff ctx.hitl_mode).1 a)),
    )
  ]
