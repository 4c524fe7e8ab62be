-- ===== src/Plugin/Approve/Granted.antt =====
-- Which buttons approve for good, and what a second press does.
use clawthority.Base.{
  ℕ, String, Bool, true, false, not, ◌||◌, ◌==◌, ◌≡◌, refl, sym, ap, ◌∙◌, ◌⊎◌, inl, inr, Option,
  none, some, Option-cases, Bool-cases, if◌then◌else◌, present_and,
}
use clawthority.Base.Maps.{get, remove, get-put_self, get-remove_self, nat_key, string_key}
use clawthority.Hitl.Approvals.{
  ApprovalManager, PendingApproval, get_pending, is_consumed, resolve_approval, finish,
}
use clawthority.Plugin.Stored.{is_exec_action_class}
use clawthority.Plugin.Approve.{
  Confirmation, Confirmations, Features, Command, confirm_approve_always, cancel_approve_always,
  approve_always, approve, deny, saved, was_cancelled, pattern_already_saved, drop, drop_found,
  settle_as, register, register_found, resolve_now, reply_settled, decide, confirm_found,
  pattern_to_confirm, ask_confirmation, ask_or_register, always_found, start_always, handle_command,
}

-- No rule was stored and no session approved.
abbrev pub NothingGranted : Confirmations → Confirmations → Type 0
NothingGranted s s' =
    (s'.persisted ≡ s.persisted)
    × (s'.approvals.session_auto_approvals ≡ s.approvals.session_auto_approvals)

-- The operator confirms a pattern that waits for it, or approves for good where no pattern is there
-- to be confirmed.
abbrev pub Grants : Features → ℕ → Command → String → Confirmations → Type 0
Grants features now confirm_approve_always token s =
    (c : Confirmation) × (get token s.waiting ≡ some c)
Grants features now approve_always token s =
    (features.approve_always_enabled ≡ true)
    × ((p : PendingApproval) × (get_pending token s.approvals ≡ some p)
        × (pattern_to_confirm features now p ≡ none))
Grants features now _ token s = ⊥

resolve_approval-session :
    (token : String) (approves : Bool) (binding : Option String) (m : ApprovalManager)
    → (resolve_approval token approves binding m).1.session_auto_approvals
      ≡ m.session_auto_approvals
unfolding resolve_approval finish
resolve_approval-session token approves binding m = elim (Option-cases (get token m.pending)) [
  | inl p ↦ rw (p, resolve_approval) refl
  | inr (e, p) ↦ elim (Bool-cases (present_and (λ b. not (b == e.binding)) binding)) [
    | inl t ↦ rw (p, resolve_approval) (rw t refl)
    | inr f ↦ rw (p, resolve_approval) (rw f refl)
  ]
]

drop_kept :
    (token : String) (s : Confirmations)
    → ((drop token s).persisted ≡ s.persisted) × ((drop token s).approvals ≡ s.approvals)
unfolding drop
drop_kept token s = by_found (get token s.waiting)
  where
    by_found :
        (found : Option Confirmation)
        → ((drop_found token found s).persisted ≡ s.persisted)
          × ((drop_found token found s).approvals ≡ s.approvals)
    by_found none = (refl, refl)
    by_found (some c) = (refl, refl)

drop-NothingGranted : (token : String) (s : Confirmations) → NothingGranted s (drop token s)
drop-NothingGranted token s =
    let (p, a) = drop_kept token s in (p, ap (λ m. m.session_auto_approvals) a)

decide-NothingGranted :
    (token : String) (approves : Bool) (s : Confirmations)
    → NothingGranted s (decide token approves s).1
unfolding decide resolve_now
decide-NothingGranted token approves s =
    let s' = drop token s in
    let (p, a) = drop-NothingGranted token s in
    elim (Bool-cases (is_consumed token s'.approvals)) [
      | inl y ↦ rw (y, decide) (p, a)
      | inr n ↦ rw (n, decide) (p, resolve_approval-session token approves none s'.approvals ∙ a)
    ]

always_found-cases :
    (features : Features) (now : ℕ) (token : String) (operator_id : Option String)
    (x : Option PendingApproval) (s : Confirmations)
    → ((p : PendingApproval) × (x ≡ some p) × (pattern_to_confirm features now p ≡ none))
      ⊎ NothingGranted s (always_found features now token operator_id x s).1
unfolding ask_confirmation
always_found-cases features now token operator_id none s = inr (decide-NothingGranted token true s)
always_found-cases features now token operator_id (some p) s =
    elim (Option-cases (pattern_to_confirm features now p)) [
      | inl n ↦ inl (p, refl, n)
      | inr (d, e) ↦ inr (rw (e, ask_or_register) (refl, refl))
    ]

start_always-cases :
    (features : Features) (now : ℕ) (token : String) (operator_id : Option String)
    (s : Confirmations)
    → ((p : PendingApproval) × (get_pending token s.approvals ≡ some p)
        × (pattern_to_confirm features now p ≡ none))
      ⊎ NothingGranted s (start_always features now token operator_id s).1
unfolding start_always
start_always-cases features now token operator_id s =
    let s' = drop token s in
    let s'' : Confirmations = record s' { settled = remove token s'.settled } in
    let (kept, same) = drop_kept token s in
    let (k, a) = drop-NothingGranted token s in
    elim (always_found-cases features now token operator_id (get_pending token s''.approvals) s'') [
      | inl (p, e, n) ↦ inl (p, ap (get_pending token) (sym same) ∙ e, n)
      | inr (x, y) ↦ inr (x ∙ k, y ∙ a)
    ]

-- A button stores a rule or approves a session only where the operator confirms a pattern that
-- waits for it, or approves for good a pending request that has no pattern to confirm; a plain
-- approval, a denial and a cancellation never do.
pub handle_command-Grants :
    (features : Features) (now : ℕ) (command : Command) (token : String)
    (operator_id : Option String) (s : Confirmations)
    → Grants features now command token s
      ⊎ NothingGranted s (handle_command features now command token operator_id s).1
unfolding handle_command settle_as
handle_command-Grants features now confirm_approve_always token operator_id s =
    elim (Option-cases (get token s.waiting)) [
      | inr (c, e) ↦ inl (c, e)
      | inl n ↦ inr (rw (n, handle_command) (refl, refl))
    ]
handle_command-Grants features now cancel_approve_always token operator_id s =
    elim (Option-cases (get token s.waiting)) [
      | inr (c, e) ↦ inr (rw (e, handle_command) (drop-NothingGranted token s))
      | inl n ↦ inr (rw (n, handle_command) (refl, refl))
    ]
handle_command-Grants features now approve_always token operator_id s =
    enabled_or features.approve_always_enabled refl
  where
    enabled_or :
        (b : Bool)
        → features.approve_always_enabled ≡ b
        → ((features.approve_always_enabled ≡ true)
            × ((p : PendingApproval) × (get_pending token s.approvals ≡ some p)
                × (pattern_to_confirm features now p ≡ none)))
          ⊎ NothingGranted s
              (if b then start_always features now token operator_id s else decide token true s).1
    enabled_or false e = inr (decide-NothingGranted token true s)
    enabled_or true e = elim (start_always-cases features now token operator_id s) [
      | inl x ↦ inl (e, x)
      | inr k ↦ inr k
    ]
handle_command-Grants features now approve token operator_id s =
    inr (decide-NothingGranted token true s)
handle_command-Grants features now deny token operator_id s =
    inr (decide-NothingGranted token false s)

-- After a confirmation, the state that `settle_as` and `drop` made for the token is kept.
register_kept :
    (token : String) (operator_id : Option String) (x : Option PendingApproval) (s : Confirmations)
    → ((register_found token operator_id x s).waiting ≡ s.waiting)
      × ((register_found token operator_id x s).settled ≡ s.settled)
unfolding register
register_kept token operator_id none s = (refl, refl)
register_kept token operator_id (some x) s =
    elim (Bool-cases (not (x.target == "") || not (is_exec_action_class x.action_class))) [
      | inl y ↦ rw (y, register) (refl, refl)
      | inr n ↦ rw (n, register) (refl, refl)
    ]

drop-waiting :
    (token : String) (s : Confirmations) (c : Confirmation)
    → get token s.waiting ≡ some c
    → get token (drop token s).waiting ≡ none
unfolding drop
drop-waiting token s c e = rw (e, drop) (get-remove_self token s.waiting)

confirmed_state :
    (token : String) (operator_id : Option String) (s : Confirmations) (c : Confirmation)
    → get token s.waiting ≡ some c
    → let s' = (confirm_found token operator_id (some c) s).1 in
      (get token s'.waiting ≡ none) × (get token s'.settled ≡ some saved)
unfolding settle_as resolve_now
confirmed_state token operator_id s c e =
    let s1 = settle_as token saved (drop token s) in
    let (w, z) = register_kept token operator_id (get_pending token s1.approvals) s1 in
    (
      ap (get token) w ∙ drop-waiting token s c e,
      ap (get token) z ∙ get-put_self token saved (drop token s).settled,
    )

reply_saved :
    (token : String) (s : Confirmations)
    → get token s.settled ≡ some saved
    → reply_settled was_cancelled token s ≡ pattern_already_saved
unfolding reply_settled
reply_saved token s z = rw (z, reply_settled) refl

pressed_again :
    (token : String) (operator_id : Option String) (s : Confirmations)
    → get token s.waiting ≡ none
    → get token s.settled ≡ some saved
    → confirm_found token operator_id (get token s.waiting) s ≡ (some pattern_already_saved, s)
pressed_again token operator_id s w z =
    ap (λ found. confirm_found token operator_id found s) w
    ∙ ap (λ r. (some r, s)) (reply_saved token s z)

-- Confirming a pattern twice is the same as confirming it once: the second press changes nothing and
-- says that the pattern is saved.
pub handle_command-confirm_twice :
    (features : Features) (now later : ℕ) (token : String) (operator_id other : Option String)
    (s : Confirmations) (c : Confirmation)
    → get token s.waiting ≡ some c
    → let s' = (handle_command features now confirm_approve_always token operator_id s).1 in
      handle_command features later confirm_approve_always token other s'
      ≡ (some pattern_already_saved, s')
unfolding handle_command
handle_command-confirm_twice features now later token operator_id other s c e =
    let s' = (confirm_found token operator_id (some c) s).1 in
    let (w, z) = confirmed_state token operator_id s c e in
    rw (e, handle_command) (pressed_again token other s' w z)
