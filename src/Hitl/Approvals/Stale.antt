-- ===== src/Hitl/Approvals/Stale.antt =====
-- Requests of src/hitl/approval-manager.ts in `session_approval` mode, which can share a token, and
-- their timers.
use clawthority.Base.{
  ℕ, ◌+◌, String, Bool, false, ◌≡◌, ◌≢◌, refl, Option, none, some, arith, eq_iff, eq_refl,
  Option-cases, inl, inr, or_else, sym, ◌∙◌,
}
use mathlib.Core.Path.{subst}
use clawthority.Base.Maps.{get, put, get-put, get-remove, nat_key, string_key}
use clawthority.Hitl.Approvals.{
  expired, ApprovalManager, CreateApprovalOpts, session_approval, create_approval_request,
  fire_timer, resolve_approval, request_token, settle, join_colon,
}
use clawthority.Hitl.Approvals.Invariant.{IsValid, get-settle}

session_token :
    (opts : CreateApprovalOpts) (s c uuid : String)
    → opts.mode ≡ some session_approval
    → opts.session_id ≡ some s
    → s ≢ ""
    → request_token opts.mode opts.session_id c uuid ≡ join_colon s c
unfolding request_token
session_token opts s c uuid mode session named =
    rw (mode, session, request_token) (ground (arith, eq_iff s ""))

fire_timer-removes :
    (h : ℕ) (t : String) (m : ApprovalManager)
    → get h m.timers ≡ some t
    → (get t (fire_timer h m).pending ≡ none)
      × ((fire_timer h m).settled ≡ settle h expired m.settled)
unfolding fire_timer
fire_timer-removes h t m g =
    rw (g, fire_timer) (rw (get-remove t t m.pending, eq_refl t) refl, refl)

resolve_approval-absent :
    (t : String) (approves : Bool) (binding : Option String) (m : ApprovalManager)
    → get t m.pending ≡ none
    → (resolve_approval t approves binding m).0 ≡ false
unfolding resolve_approval
resolve_approval-absent t approves binding m g = rw (g, resolve_approval) refl

-- The promise of a later request is not settled by the timer of an earlier one.
settle_earlier :
    (m : ApprovalManager)
    → IsValid m
    → get (m.next_handle + 1) (settle m.next_handle expired m.settled) ≡ none
settle_earlier m v =
    let n = m.next_handle in
    rw (get-settle n (n + 1) expired m.settled) (elim (Option-cases (get (n + 1) m.settled)) [
      | inl p ↦ ground arith
      | inr (d, p) ↦ absurd (omega (arith, v.handles.made (n + 1) d p))
    ])

-- Two requests of one session for one action class in `session_approval` mode share their token.
-- When the timer of the first fires, the second one's entry is removed with it: a decision on the
-- token is refused, while the promise of the second request is still open.
pub stale_timer :
    (sha256 : String → String) (opts : CreateApprovalOpts) (s uuid uuid' : String) (now now' : ℕ)
    (m : ApprovalManager) (approves : Bool) (binding : Option String)
    → IsValid m
    → opts.mode ≡ some session_approval
    → opts.session_id ≡ some s
    → s ≢ ""
    → let (first, m1) = create_approval_request sha256 opts uuid now m in
      let (second, m2) = create_approval_request sha256 opts uuid' now' m1 in
      let m3 = fire_timer first.promise m2 in
      (first.token ≡ second.token)
      × ((resolve_approval second.token approves binding m3).0 ≡ false)
      × (get second.promise m3.settled ≡ none)
unfolding create_approval_request
stale_timer sha256 opts s uuid uuid' now now' m approves binding v mode session named =
    let n = m.next_handle in
    let c = or_else opts.action_class opts.tool_name in
    let token = request_token opts.mode opts.session_id c uuid in
    let token' = request_token opts.mode opts.session_id c uuid' in
    let shared : token ≡ token' =
      session_token opts s c uuid mode session named
      ∙ sym (session_token opts s c uuid' mode session named) in
    let m1 = (create_approval_request sha256 opts uuid now m).1 in
    let m2 = (create_approval_request sha256 opts uuid' now' m1).1 in
    let armed : get n m2.timers ≡ some token =
      rw (get-put (n + 1) n token' (put n token m.timers), get-put n n token m.timers)
        (ground arith) in
    let (gone, decided) = fire_timer-removes n token m2 armed in
    let gone' = subst (λ x. get x (fire_timer n m2).pending ≡ none) shared gone in
    (
      shared,
      resolve_approval-absent token' approves binding (fire_timer n m2) gone',
      rw decided (settle_earlier m v),
    )
