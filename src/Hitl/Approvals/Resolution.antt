-- ===== src/Hitl/Approvals/Resolution.antt =====
-- What a call of `resolveApproval` of src/hitl/approval-manager.ts changes.
use clawthority.Base.{
  String, Bool, true, false, not, ◌≡◌, ◌≢◌, refl, sym, ◌∙◌, Option, none, some, ◌⊎◌, inl, inr,
  arith, eq_iff, eq_refl, Option-cases, Bool-cases, present_and, ◌==◌, eq_of_some,
}
use clawthority.Base.Maps.{get, get-remove, nat_key, string_key}
use clawthority.Base.Sets.{has-add}
use clawthority.Hitl.Approvals.{
  HitlDecision, PendingApproval, ApprovalManager, finish, operator_decision, resolve_approval,
  is_consumed,
}
use clawthority.Hitl.Approvals.Invariant.{IsValid, get-settle}

-- The pending entry that a call of `resolveApproval` accepts.
abbrev pub Accepts : ApprovalManager → String → Option String → PendingApproval → Type 0
Accepts m token binding e =
    (get token m.pending ≡ some e) × ((b : String) → binding ≡ some b → b ≡ e.binding)

-- What an accepted decision changes, and what it leaves.
pub record Resolved (m m' : ApprovalManager) (token : String) (e : PendingApproval)
    (d : HitlDecision) : Type 0 where
  pub removed : get token m'.pending ≡ none
  pub others : (t : String) → t ≢ token → get t m'.pending ≡ get t m.pending
  pub used : is_consumed token m' ≡ true
  pub decided : get e.handle m'.settled ≡ some d
  pub disarmed : get e.handle m'.timers ≡ none

binding_test :
    (binding : Option String) (e : PendingApproval)
    → present_and (λ b. not (b == e.binding)) binding ≡ false
    → (b : String) → binding ≡ some b
    → b ≡ e.binding
binding_test none e h b p = cc
binding_test (some c) e h b p = ground (arith, eq_iff c e.binding)

binding_fails :
    (binding : Option String) (e : PendingApproval)
    → present_and (λ b. not (b == e.binding)) binding ≡ true
    → ¬ ((b : String) → binding ≡ some b → b ≡ e.binding)
binding_fails none e h f = cc
binding_fails (some c) e h f = ground (arith, eq_iff c e.binding, f c refl)

finish-Resolved :
    (token : String) (e : PendingApproval) (d : HitlDecision) (m : ApprovalManager)
    → IsValid m
    → get token m.pending ≡ some e
    → Resolved m (finish token e d m) token e d
unfolding finish is_consumed
finish-Resolved token e d m v g = record {
  removed = rw (get-remove token token m.pending, eq_refl token) refl;
  others = λ t differs. ground (arith, get-remove token t m.pending, eq_iff token t);
  used = rw (has-add token token m.consumed, eq_refl token) refl;
  decided =
      let open_ = (v.handles.armed e.handle token (v.entries token e g).1).1 in
      rw (get-settle e.handle e.handle d m.settled, open_) (ground arith);
  disarmed = rw (get-remove e.handle e.handle m.timers) (ground arith);
}

-- A decision is accepted, and `true` returned, exactly if the token has a pending entry and the
-- binding, where one is given, is the entry's. It then settles the entry's promise with that
-- decision, clears its timer, removes the token from the pending ones and marks it consumed, and
-- leaves the other entries. Otherwise nothing changes.
pub resolve_approval_lem :
    (token : String) (approves : Bool) (binding : Option String) (m : ApprovalManager)
    → IsValid m
    → let (done, m') = resolve_approval token approves binding m in
      ((done ≡ true)
        × ((e : PendingApproval) × Accepts m token binding e
            × Resolved m m' token e (operator_decision approves)))
      ⊎ ((done ≡ false) × ((e : PendingApproval) → ¬ Accepts m token binding e) × (m' ≡ m))
unfolding resolve_approval
resolve_approval_lem token approves binding m v = elim (Option-cases (get token m.pending)) [
  | inl p ↦ inr (
    rw (p, resolve_approval) refl,
    (λ e a. let gone : none ≡ some e = sym p ∙ a.0 in cc),
    rw (p, resolve_approval) refl,
  )
  | inr (e, p) ↦ elim (Bool-cases (present_and (λ b. not (b == e.binding)) binding)) [
    | inl t ↦ inr (
      rw (p, resolve_approval) (rw t refl),
      (λ x a.
          binding_fails binding e t
            (let same : x ≡ e = eq_of_some (sym a.0 ∙ p) in rw same at a.1)),
      rw (p, resolve_approval) (rw t refl),
    )
    | inr f ↦ inl (
      rw (p, resolve_approval) (rw f refl),
      (
        e,
        (p, binding_test binding e f),
        rw (p, resolve_approval)
            (rw f (finish-Resolved token e (operator_decision approves) m v p)),
      ),
    )
  ]
]
