-- ===== src/Plugin/Approve.antt =====
-- src/index.ts: what the Telegram listener does with an operator's button. A confirmation of
-- "Approve Always" has a timer, named by a number; the calls of `persistAutoPermitPattern`, which
-- are not awaited, are listed in their order. Messages to the channel are left out.
pub mod Paired
pub mod Timers
pub mod Granted
use clawthority.Base.{
  ℕ, ◌+◌, String, Bool, true, false, not, ◌&&◌, ◌||◌, Option, none, some, List, [], ◌∷◌, ◌++◌, ◌==◌,
  if◌then◌else◌,
}
use clawthority.Base.Results.{Result, ok, threw}
use clawthority.Base.Maps.{get, put, remove, nat_key, string_key}
use clawthority.Base.Sets.{add}
use clawthority.Permits.Words.{Text, codes}
use clawthority.Permits.Pattern.{DerivationMethod, DerivedPattern}
use clawthority.Hitl.Approvals.{
  ApprovalManager, PendingApproval, resolve_approval, get_pending, is_consumed,
  add_session_auto_approval,
}
use clawthority.Plugin.Stored.{ApprovedCall, is_exec_action_class, derive_for}

pub record Confirmation : Type 0 where
  pub pattern : Text
  pub method : DerivationMethod
  pub operator_id : Option String
  pub agent_id : String
  pub timer : ℕ

pub data Settlement : Type 0 where
  saved cancelled : Settlement

pub record Confirmations : Type 0 where
  pub waiting : List (String × Confirmation)
  pub settled : List (String × Settlement)
  pub timers : List (ℕ × String)
  pub next_timer : ℕ
  pub always_tokens : List String
  pub persisted : List ApprovedCall
  pub approvals : ApprovalManager

pub record Features : Type 0 where
  pub approve_always_enabled : Bool
  pub approve_always_auto_confirm : Bool

pub data Command : Type 0 where
  confirm_approve_always cancel_approve_always approve_always approve deny : Command

pub data Reply : Type 0 where
  pattern_already_saved was_cancelled already_cancelled already_decided : Reply
  no_pending_confirmation unknown_or_expired pattern_saved confirmation_cancelled : Reply

-- `clearTimeout(conf.timer)` and `pendingApproveAlwaysConfirmations.delete(token)`
abbrev pub drop_found : String → Option Confirmation → Confirmations → Confirmations
drop_found token none s = s
drop_found token (some conf) s = record s {
  timers = remove conf.timer s.timers;
  waiting = remove token s.waiting;
}

unfoldable pub drop : String → Confirmations → Confirmations
unfolding get remove
drop token s = drop_found token (get token s.waiting) s

unfoldable pub settle_as : String → Settlement → Confirmations → Confirmations
unfolding put
settle_as token as_what s = record s { settled = put token as_what s.settled }

-- The answer to a button of a confirmation that is not waiting; the two buttons differ in what
-- they say of one that was cancelled.
unfoldable pub reply_settled : Reply → String → Confirmations → Reply
unfolding get is_consumed
reply_settled if_cancelled token s = elim (get token s.settled) [
  | some saved ↦ pattern_already_saved
  | some cancelled ↦ if_cancelled
  | none ↦ if is_consumed token s.approvals then already_decided else no_pending_confirmation
]

abbrev pub approved_call : Option String → PendingApproval → ApprovedCall
approved_call operator_id p = record {
  command = codes p.target;
  tool_name = codes p.tool_name;
  action_class = p.action_class;
  channel = "telegram";
  operator_id = operator_id;
}

-- The session approval of a pending request, and its rule.
unfoldable pub register : String → Option String → PendingApproval → Confirmations → Confirmations
unfolding add add_session_auto_approval is_exec_action_class
register token operator_id p s =
    let s' : Confirmations = record s {
      always_tokens = add token s.always_tokens;
      approvals = add_session_auto_approval p.channel_id p.action_class s.approvals;
    } in
    if not (p.target == "") || not (is_exec_action_class p.action_class)
    then record s' { persisted = s'.persisted ++ approved_call operator_id p ∷ [] }
    else s'

abbrev pub register_found :
    String → Option String → Option PendingApproval → Confirmations → Confirmations
register_found token operator_id none s = s
register_found token operator_id (some p) s = register token operator_id p s

-- `approvalManager.resolveApproval(token, decision)`
unfoldable pub resolve_now : String → Bool → Confirmations → Bool × Confirmations
unfolding resolve_approval
resolve_now token approves s =
    let (resolved, m) = resolve_approval token approves none s.approvals in
    (resolved, record s { approvals = m })

-- The last part: "approve", "deny", and "approve_always" where it does not wait.
unfoldable pub decide : String → Bool → Confirmations → Option Reply × Confirmations
unfolding drop is_consumed resolve_now
decide token approves s =
    let s' = drop token s in
    if is_consumed token s'.approvals
    then (some already_decided, s')
    else (none, (resolve_now token approves s').1)

abbrev pub confirm_found :
    String → Option String → Option Confirmation → Confirmations → Option Reply × Confirmations
confirm_found token operator_id none s = (some (reply_settled was_cancelled token s), s)
confirm_found token operator_id (some conf) s =
    let s1 = settle_as token saved (drop token s) in
    let s2 = register_found token operator_id (get_pending token s1.approvals) s1 in
    let (resolved, s3) = resolve_now token true s2 in
    (
      some (
          if not resolved && not (is_consumed token s3.approvals)
          then unknown_or_expired
          else pattern_saved),
      s3,
    )

abbrev pub cancel_found :
    String → Option Confirmation → Confirmations → Option Reply × Confirmations
cancel_found token none s = (some (reply_settled already_cancelled token s), s)
cancel_found token (some conf) s =
    (some confirmation_cancelled, settle_as token cancelled (drop token s))

-- `isExecAction ? pending.target.length > 0 : pending.toolName.length > 0`
unfoldable pub has_derivable_input : PendingApproval → Bool
unfolding is_exec_action_class
has_derivable_input p =
    if is_exec_action_class p.action_class then not (p.target == "") else not (p.tool_name == "")

abbrev pub caught : Result DerivedPattern → Option DerivedPattern
caught threw = none
caught (ok d) = some d

-- The pattern that the operator is asked to confirm.
unfoldable pub pattern_to_confirm : Features → ℕ → PendingApproval → Option DerivedPattern
unfolding has_derivable_input derive_for
pattern_to_confirm features now p =
    if has_derivable_input p && not features.approve_always_auto_confirm
    then caught (derive_for now p.action_class (codes p.target) (codes p.tool_name))
    else none

-- `setTimeout` and `pendingApproveAlwaysConfirmations.set`
unfoldable pub ask_confirmation :
    String → Option String → PendingApproval → DerivedPattern → Confirmations → Confirmations
unfolding put
ask_confirmation token operator_id p derived s = record s {
  waiting =
      put token
        (record {
          pattern = derived.pattern;
          method = derived.method;
          operator_id = operator_id;
          agent_id = p.agent_id;
          timer = s.next_timer;
        })
        s.waiting;
  timers = put s.next_timer token s.timers;
  next_timer = s.next_timer + 1;
}

abbrev pub ask_or_register :
    String
    → Option String
    → PendingApproval
    → Option DerivedPattern
    → Confirmations
    → Option Reply × Confirmations
ask_or_register token operator_id p (some derived) s =
    (none, ask_confirmation token operator_id p derived s)
ask_or_register token operator_id p none s = decide token true (register token operator_id p s)

abbrev pub always_found :
    Features
    → ℕ
    → String
    → Option String
    → Option PendingApproval
    → Confirmations
    → Option Reply × Confirmations
always_found features now token operator_id none s = decide token true s
always_found features now token operator_id (some p) s =
    ask_or_register token operator_id p (pattern_to_confirm features now p) s

unfoldable pub start_always :
    Features → ℕ → String → Option String → Confirmations → Option Reply × Confirmations
unfolding drop remove get_pending decide register ask_confirmation pattern_to_confirm
start_always features now token operator_id s =
    let s' = drop token s in
    let s'' : Confirmations = record s' { settled = remove token s'.settled } in
    always_found features now token operator_id (get_pending token s''.approvals) s''

-- The callback of the listener.
unfoldable pub handle_command :
    Features → ℕ → Command → String → Option String → Confirmations → Option Reply × Confirmations
unfolding start_always decide reply_settled drop settle_as register resolve_now get get_pending
handle_command features now confirm_approve_always token operator_id s =
    confirm_found token operator_id (get token s.waiting) s
handle_command features now cancel_approve_always token operator_id s =
    cancel_found token (get token s.waiting) s
handle_command features now approve_always token operator_id s =
    if features.approve_always_enabled
    then start_always features now token operator_id s
    else decide token true s
handle_command features now approve token operator_id s = decide token true s
handle_command features now deny token operator_id s = decide token false s

-- The callback of a confirmation's timer.
abbrev pub expire_found : ℕ → Option String → Confirmations → Confirmations
expire_found n none s = s
expire_found n (some token) s = record s {
  timers = remove n s.timers;
  waiting = remove token s.waiting;
}

unfoldable pub expire_confirmation : ℕ → Confirmations → Confirmations
unfolding get remove
expire_confirmation n s = expire_found n (get n s.timers) s

unfoldable pub no_confirmations : ApprovalManager → Confirmations
no_confirmations m = record {
  waiting = [];
  settled = [];
  timers = [];
  next_timer = 0;
  always_tokens = [];
  persisted = [];
  approvals = m;
}

-- A button, a timer, or whatever else becomes of the approval manager.
pub data Input : Type 0 where
  button : ℕ → Command → String → Option String → Input
  timeout : ℕ → Input
  elsewhere : ApprovalManager → Input

unfoldable pub take_input : Features → Input → Confirmations → Confirmations
unfolding handle_command expire_confirmation
take_input features (button now command token operator_id) s =
    (handle_command features now command token operator_id s).1
take_input features (timeout n) s = expire_confirmation n s
take_input features (elsewhere m) s = record s { approvals = m }

unfoldable pub take_inputs : Features → List Input → Confirmations → Confirmations
unfolding take_input
take_inputs features [] s = s
take_inputs features (x ∷ xs) s = take_inputs features xs (take_input features x s)
