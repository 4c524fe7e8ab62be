-- ===== src/Plugin/Approve/Timers.antt =====
-- The confirmations that wait, and their timers.
use clawthority.Base.{
  ℕ, String, Bool, true, false, ◌≡◌, refl, inl, inr, Option, none, some, List, [], ◌∷◌, Bool-cases,
  if◌then◌else◌, not, ◌||◌, ◌==◌,
}
use clawthority.Base.Maps.{get, remove, get-remove_self, nat_key, string_key}
use clawthority.Hitl.Approvals.{ApprovalManager, PendingApproval, get_pending, is_consumed}
use mathlib.Core.Path.{subst}
use clawthority.Permits.Pattern.{DerivedPattern}
use clawthority.Plugin.Stored.{is_exec_action_class}
use clawthority.Plugin.Approve.{
  Confirmation, Confirmations, Reply, saved, Features, Command, confirm_approve_always,
  cancel_approve_always, approve_always, approve, deny, drop, drop_found, settle_as, register,
  register_found, resolve_now, decide, confirm_found, cancel_found, pattern_to_confirm,
  ask_confirmation, ask_or_register, always_found, start_always, handle_command,
  expire_confirmation, expire_found, no_confirmations, Input, button, timeout, elsewhere,
  take_input, take_inputs,
}
use clawthority.Plugin.Approve.Paired.{Paired, IsPaired, Paired-close, Paired-open}

-- The parts of the state that the invariant is about are the same.
abbrev SameTimers : Confirmations → Confirmations → Type 0
SameTimers s s' = (s'.waiting ≡ s.waiting) × (s'.timers ≡ s.timers) × (s'.next_timer ≡ s.next_timer)

IsPaired-same : (s s' : Confirmations) → SameTimers s s' → IsPaired s → IsPaired s'
IsPaired-same s s' (w, t, n) p = rw (w, t, n) p

drop_found-IsPaired :
    (token : String) (found : Option Confirmation) (s : Confirmations)
    → get token s.waiting ≡ found
    → IsPaired s
    → IsPaired (drop_found token found s) × (get token (drop_found token found s).waiting ≡ none)
drop_found-IsPaired token none s e p = (p, e)
drop_found-IsPaired token (some c) s e p =
    (Paired-close p token c e, get-remove_self token s.waiting)

drop-IsPaired :
    (token : String) (s : Confirmations)
    → IsPaired s
    → IsPaired (drop token s) × (get token (drop token s).waiting ≡ none)
unfolding drop
drop-IsPaired token s p = drop_found-IsPaired token (get token s.waiting) s refl p

register-same :
    (token : String) (operator_id : Option String) (x : PendingApproval) (s : Confirmations)
    → SameTimers s (register token operator_id x s)
unfolding register
register-same token operator_id x s =
    elim (Bool-cases (not (x.target == "") || not (is_exec_action_class x.action_class))) [
      | inl y ↦ rw (y, register) (refl, refl, refl)
      | inr n ↦ rw (n, register) (refl, refl, refl)
    ]

register_found-same :
    (token : String) (operator_id : Option String) (x : Option PendingApproval) (s : Confirmations)
    → SameTimers s (register_found token operator_id x s)
register_found-same token operator_id none s = (refl, refl, refl)
register_found-same token operator_id (some x) s = register-same token operator_id x s

decide-IsPaired :
    (token : String) (approves : Bool) (s : Confirmations)
    → IsPaired s
    → IsPaired (decide token approves s).1
unfolding decide resolve_now
decide-IsPaired token approves s p =
    elim (Bool-cases (is_consumed token (drop token s).approvals)) [
      | inl y ↦ rw (y, decide) (drop-IsPaired token s p).0
      | inr n ↦ rw (n, decide) (drop-IsPaired token s p).0
    ]

confirm_found-IsPaired :
    (token : String) (operator_id : Option String) (found : Option Confirmation) (s : Confirmations)
    → IsPaired s
    → IsPaired (confirm_found token operator_id found s).1
unfolding settle_as resolve_now
confirm_found-IsPaired token operator_id none s p = p
confirm_found-IsPaired token operator_id (some c) s p =
    let s1 = settle_as token saved (drop token s) in
    IsPaired-same s1 (register_found token operator_id (get_pending token s1.approvals) s1)
      (register_found-same token operator_id (get_pending token s1.approvals) s1)
      (drop-IsPaired token s p).0

cancel_found-IsPaired :
    (token : String) (found : Option Confirmation) (s : Confirmations)
    → IsPaired s
    → IsPaired (cancel_found token found s).1
unfolding settle_as
cancel_found-IsPaired token none s p = p
cancel_found-IsPaired token (some c) s p = (drop-IsPaired token s p).0

ask_or_register-IsPaired :
    (token : String) (operator_id : Option String) (x : PendingApproval)
    (derived : Option DerivedPattern) (s : Confirmations)
    → IsPaired s
    → get token s.waiting ≡ none
    → IsPaired (ask_or_register token operator_id x derived s).1
unfolding ask_confirmation
ask_or_register-IsPaired token operator_id x (some derived) s p free =
    Paired-open p token _ free refl
ask_or_register-IsPaired token operator_id x none s p free =
    decide-IsPaired token true (register token operator_id x s)
      (IsPaired-same s (register token operator_id x s) (register-same token operator_id x s) p)

always_found-IsPaired :
    (features : Features) (now : ℕ) (token : String) (operator_id : Option String)
    (x : Option PendingApproval) (s : Confirmations)
    → IsPaired s
    → get token s.waiting ≡ none
    → IsPaired (always_found features now token operator_id x s).1
always_found-IsPaired features now token operator_id none s p free = decide-IsPaired token true s p
always_found-IsPaired features now token operator_id (some x) s p free =
    ask_or_register-IsPaired token operator_id x (pattern_to_confirm features now x) s p free

start_always-IsPaired :
    (features : Features) (now : ℕ) (token : String) (operator_id : Option String)
    (s : Confirmations)
    → IsPaired s
    → IsPaired (start_always features now token operator_id s).1
unfolding start_always
start_always-IsPaired features now token operator_id s p =
    let (q, free) = drop-IsPaired token s p in
    let s' = drop token s in
    let s'' : Confirmations = record s' { settled = remove token s'.settled } in
    always_found-IsPaired features now token operator_id (get_pending token s''.approvals) s'' q
      free

either-IsPaired :
    (b : Bool) (x y : Option Reply × Confirmations)
    → IsPaired x.1
    → IsPaired y.1
    → IsPaired (if b then x else y).1
either-IsPaired true x y p q = p
either-IsPaired false x y p q = q

handle_command-IsPaired :
    (features : Features) (now : ℕ) (command : Command) (token : String)
    (operator_id : Option String) (s : Confirmations)
    → IsPaired s
    → IsPaired (handle_command features now command token operator_id s).1
unfolding handle_command
handle_command-IsPaired features now confirm_approve_always token operator_id s p =
    confirm_found-IsPaired token operator_id (get token s.waiting) s p
handle_command-IsPaired features now cancel_approve_always token operator_id s p =
    cancel_found-IsPaired token (get token s.waiting) s p
handle_command-IsPaired features now approve_always token operator_id s p =
    either-IsPaired features.approve_always_enabled _ _
      (start_always-IsPaired features now token operator_id s p) (decide-IsPaired token true s p)
handle_command-IsPaired features now approve token operator_id s p = decide-IsPaired token true s p
handle_command-IsPaired features now deny token operator_id s p = decide-IsPaired token false s p

expire_found-IsPaired :
    (n : ℕ) (found : Option String) (s : Confirmations)
    → get n s.timers ≡ found
    → IsPaired s
    → IsPaired (expire_found n found s)
expire_found-IsPaired n none s e p = p
expire_found-IsPaired n (some t) s e p =
    let (c, there, own) = p.owned n t e in
    subst (λ k. Paired (remove t s.waiting) (remove k s.timers) s.next_timer) own
      (Paired-close p t c there)

take_input-IsPaired :
    (features : Features) (x : Input) (s : Confirmations)
    → IsPaired s
    → IsPaired (take_input features x s)
unfolding take_input expire_confirmation
take_input-IsPaired features (button now command token operator_id) s p =
    handle_command-IsPaired features now command token operator_id s p
take_input-IsPaired features (timeout n) s p = expire_found-IsPaired n (get n s.timers) s refl p
take_input-IsPaired features (elsewhere m) s p = p

take_inputs_from-IsPaired :
    (features : Features) (xs : List Input) (s : Confirmations)
    → IsPaired s
    → IsPaired (take_inputs features xs s)
unfolding take_inputs
take_inputs_from-IsPaired features [] s p = p
take_inputs_from-IsPaired features (x ∷ xs) s p =
    take_inputs_from-IsPaired features xs (take_input features x s)
      (take_input-IsPaired features x s p)

no_confirmations-IsPaired : (m : ApprovalManager) → IsPaired (no_confirmations m)
unfolding no_confirmations get
no_confirmations-IsPaired m = record {
  armed = λ t c g. cc;
  owned = λ n t g. cc;
  fresh = λ n t g. cc;
}

-- Whatever buttons, timers and other uses of the approval manager come, in any order: each
-- confirmation that waits has its own armed timer, and each armed timer is that of one confirmation
-- that waits, so that no timer outlives its confirmation and none removes a later one.
pub take_inputs-IsPaired :
    (features : Features) (m : ApprovalManager) (xs : List Input)
    → IsPaired (take_inputs features xs (no_confirmations m))
take_inputs-IsPaired features m xs =
    take_inputs_from-IsPaired features xs (no_confirmations m) (no_confirmations-IsPaired m)
