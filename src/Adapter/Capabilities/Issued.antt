-- ===== src/Adapter/Capabilities/Issued.antt =====
-- An issued capability at the gate of src/enforcement/stage1-capability.ts.
use clawthority.Base.{
  ℕ, ◌+◌, ◌≤◌, String, false, ◌≡◌, ◌≢◌, ◌↔◌, refl, sym, ap, ◌∙◌, inl, inr, Option, some, arith,
  eq_of_some,
}
use clawthority.Base.Results.{Result, ok, ok_injective}
use clawthority.Base.Maps.{get, get-put_self, string_key}
use clawthority.Policy.Types.{permit}
use clawthority.Hitl.Approvals.{ApprovalManager, is_consumed}
use clawthority.Enforcement.Types.{Capability, PipelineContext, no_hitl}
use clawthority.Enforcement.Stage1.{validate_capability}
use clawthority.Enforcement.Stage1.Gate.{IsUntrusted, IsCovered, validate_capability_iff}
use clawthority.Adapter.Capabilities.{
  IssueCapabilityOpts, FileAuthorityAdapter, ttl_ms, issue_capability,
}

-- The look-up in the adapter's map.
abbrev pub look_up : FileAuthorityAdapter → String → Result (Option Capability)
look_up a id = ok (get id a.capabilities)

-- The call is the one that the capability was issued for, and names it.
pub record IsFor (id : String) (opts : IssueCapabilityOpts) (ctx : PipelineContext) : Type 0 where
  pub named : ctx.approval_id ≡ some id
  pub same_class : ctx.action_class ≡ opts.action_class
  pub same_target : ctx.target ≡ opts.target
  pub same_payload : ctx.payload_hash ≡ opts.payload_hash
  pub same_session : ctx.session_id ≡ opts.session_id

module _ (sha256 : String → String) (id : String) (issued_at : ℕ) (opts : IssueCapabilityOpts)
    (a : FileAuthorityAdapter) where
  issued_stored :
      get id (issue_capability sha256 id issued_at opts a).1.capabilities
      ≡ some (issue_capability sha256 id issued_at opts a).0
  unfolding issue_capability
  issued_stored = get-put_self id _ a.capabilities

  issued-IsCovered :
      (now : ℕ) (manager : ApprovalManager) (ctx : PipelineContext)
      → IsFor id opts ctx
      → id ≢ ""
      → now ≤ issued_at + ttl_ms opts a
      → is_consumed id manager ≡ false
      → IsCovered sha256
          (look_up (issue_capability sha256 id issued_at opts a).1)
          now
          manager
          ctx
          id
          (issue_capability sha256 id issued_at opts a).0
  issued-IsCovered now manager ctx f not_empty in_time unused = record {
    named = f.named;
    not_empty = not_empty;
    stored = ap ok issued_stored;
    in_time = unfold issue_capability in in_time;
    bound = unfold issue_capability in rw (f.same_class, f.same_target, f.same_payload) refl;
    unused = unused;
    session = unfold issue_capability in λ s e. f.same_session ∙ e;
  }

  expires : (issue_capability sha256 id issued_at opts a).0.expires_at ≡ issued_at + ttl_ms opts a
  unfolding issue_capability
  expires = refl

  covered-issued :
      (now : ℕ) (manager : ApprovalManager) (ctx : PipelineContext) (i : String) (c : Capability)
      → IsFor id opts ctx
      → IsCovered sha256
          (look_up (issue_capability sha256 id issued_at opts a).1)
          now
          manager
          ctx
          i
          c
      → (now ≤ issued_at + ttl_ms opts a) × (is_consumed id manager ≡ false)
  covered-issued now manager ctx i c f v =
      let same : i ≡ id = eq_of_some (sym v.named ∙ f.named) in
      let a' = (issue_capability sha256 id issued_at opts a).1 in
      let one : c ≡ (issue_capability sha256 id issued_at opts a).0 =
        eq_of_some (ok_injective (sym v.stored ∙ ap (look_up a') same ∙ ap ok issued_stored)) in
      let until : c.expires_at ≡ issued_at + ttl_ms opts a = ap (λ x. x.expires_at) one ∙ expires in
      (omega (arith, v.in_time, until), ap (λ x. is_consumed x manager) (sym same) ∙ v.unused)

  -- A capability issued by the adapter lets the call that it was issued for through the gate exactly
  -- until its time to live is over and as long as its identifier is not consumed, where the call
  -- needs an approval and is not untrusted at high or critical risk.
  pub issue-validate_capability :
      (now : ℕ) (manager : ApprovalManager) (ctx : PipelineContext)
      → IsFor id opts ctx
      → id ≢ ""
      → ctx.hitl_mode ≢ no_hitl
      → ¬ IsUntrusted ctx
      → ((validate_capability sha256
            (look_up (issue_capability sha256 id issued_at opts a).1)
            now
            manager
            ctx).effect
          ≡ permit)
        ↔ ((now ≤ issued_at + ttl_ms opts a) × (is_consumed id manager ≡ false))
  issue-validate_capability now manager ctx f not_empty needs trusted =
      let a' = (issue_capability sha256 id issued_at opts a).1 in
      let gate = validate_capability_iff sha256 (look_up a') now manager ctx in
      (
        (λ h. elim (gate.0 h).1 [
          | inl free ↦ absurd (needs free)
          | inr (i, c, v) ↦ covered-issued now manager ctx i c f v
        ]),
        (λ (in_time, unused).
            gate.1
              (trusted, inr (id, _, issued-IsCovered now manager ctx f not_empty in_time unused))),
      )
