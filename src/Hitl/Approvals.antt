-- ===== src/Hitl/Approvals.antt =====
-- src/hitl/approval-manager.ts: `ApprovalManager`. A call of `createApprovalRequest` makes one promise
-- and one timer; both are named by one number, its handle. `sha256` (node:crypto) is a parameter,
-- and the random identifier and the time of a call are arguments.
pub mod Invariant
pub mod Resolution
pub mod Final
pub mod Stale
pub mod Listing
pub mod Settling
use clawthority.Base.{
  ℕ, ◌+◌, ◌*◌, String, Bool, true, false, not, ◌&&◌, ◌||◌, Option, none, some, List, [], ◌∷◌, ◌==◌,
  length, or_else, present_and, ltb, if◌then◌else◌,
}
use Prim.Native.String
use clawthority.Base.Maps.{get, put, remove, nat_key, string_key}
use clawthority.Base.Sets.{has, add}
use clawthority.Hitl.Types.{HitlPolicy, HitlFallback}

pub data HitlDecision : Type 0 where
  approved denied expired : HitlDecision

pub data KeyingMode : Type 0 where
  per_request session_approval : KeyingMode

pub record CreateApprovalOpts : Type 0 where
  pub tool_name : String
  pub agent_id : String
  pub channel_id : String
  pub policy : HitlPolicy
  pub payload_hash : Option String
  pub action_class : Option String
  pub target : Option String
  pub summary : Option String
  pub session_id : Option String
  pub mode : Option KeyingMode

pub record ApprovalRequestHandle : Type 0 where
  pub token : String
  pub promise : ℕ

-- `resolve` and `timer` are those of the handle.
pub record PendingApproval : Type 0 where
  pub token : String
  pub tool_name : String
  pub agent_id : String
  pub channel_id : String
  pub policy_name : String
  pub fallback : HitlFallback
  pub created_at : ℕ
  pub timeout_ms : ℕ
  pub payload_hash : String
  pub action_class : String
  pub target : String
  pub summary : String
  pub binding : String
  pub handle : ℕ

-- `timers` holds the timers that are armed, each with the token that its callback closes over;
-- `settled` the promises that are resolved; `next_handle` counts the requests.
pub record ApprovalManager : Type 0 where
  pub pending : List (String × PendingApproval)
  pub consumed : List String
  pub session_auto_approvals : List String
  pub timers : List (ℕ × String)
  pub settled : List (ℕ × HitlDecision)
  pub next_handle : ℕ

unfoldable pub new_manager : ApprovalManager
new_manager = record {
  pending = [];
  consumed = [];
  session_auto_approvals = [];
  timers = [];
  settled = [];
  next_handle = 0;
}

unfoldable pub join_colon : String → String → String
join_colon a b = String.◌++◌ a (String.◌++◌ ":" b)

-- `${action_class}|${target}|${payload_hash}`
unfoldable pub binding_text : String → String → String → String
binding_text action_class target payload_hash =
    String.◌++◌ action_class (String.◌++◌ "|" (String.◌++◌ target (String.◌++◌ "|" payload_hash)))

unfoldable pub compute_binding : (String → String) → String → String → String → String
unfolding binding_text
compute_binding sha256 action_class target payload_hash =
    sha256 (binding_text action_class target payload_hash)

-- Only the first call of a promise's `resolve` counts.
unfoldable pub settle : ℕ → HitlDecision → List (ℕ × HitlDecision) → List (ℕ × HitlDecision)
unfolding get put
settle h d settled = elim (get h settled) [ none ↦ put h d settled | some _ ↦ settled ]

-- `mode === 'session_approval' && session_id`, where the empty string counts as absent
unfoldable pub request_token : Option KeyingMode → Option String → String → String → String
unfolding join_colon
request_token (some session_approval) (some session_id) action_class uuid =
    if session_id == "" then uuid else join_colon session_id action_class
request_token _ _ action_class uuid = uuid

unfoldable pub create_approval_request :
    (String → String)
    → CreateApprovalOpts
    → String
    → ℕ
    → ApprovalManager
    → ApprovalRequestHandle × ApprovalManager
unfolding request_token compute_binding put
create_approval_request sha256 opts uuid now m =
    let payload_hash = or_else opts.payload_hash "" in
    let action_class = or_else opts.action_class opts.tool_name in
    let target = or_else opts.target "" in
    let token = request_token opts.mode opts.session_id action_class uuid in
    let entry : PendingApproval = record {
      token = token;
      tool_name = opts.tool_name;
      agent_id = opts.agent_id;
      channel_id = opts.channel_id;
      policy_name = opts.policy.name;
      fallback = opts.policy.approval.fallback;
      created_at = now;
      timeout_ms = opts.policy.approval.timeout * 1000;
      payload_hash = payload_hash;
      action_class = action_class;
      target = target;
      summary = or_else opts.summary "";
      binding = compute_binding sha256 action_class target payload_hash;
      handle = m.next_handle;
    } in
    (
      record { token = token; promise = m.next_handle },
      record m {
        pending = put token entry m.pending;
        timers = put m.next_handle token m.timers;
        next_handle = m.next_handle + 1;
      },
    )

-- The callback of `setTimeout`. A timer that was cleared or has fired does nothing.
unfoldable pub fire_timer : ℕ → ApprovalManager → ApprovalManager
unfolding get remove add settle
fire_timer h m = elim (get h m.timers) [
  | none ↦ m
  | some token ↦ record m {
    timers = remove h m.timers;
    pending = remove token m.pending;
    consumed = add token m.consumed;
    settled = settle h expired m.settled;
  }
]

-- What `resolveApproval` and `cancel` do with an entry that they found.
unfoldable pub finish : String → PendingApproval → HitlDecision → ApprovalManager → ApprovalManager
unfolding remove add settle
finish token entry d m = record m {
  timers = remove entry.handle m.timers;
  pending = remove token m.pending;
  consumed = add token m.consumed;
  settled = settle entry.handle d m.settled;
}

-- The operator's decision, of the two that `resolveApproval` takes.
abbrev pub operator_decision : Bool → HitlDecision
operator_decision true = approved
operator_decision false = denied

unfoldable pub resolve_approval :
    String → Bool → Option String → ApprovalManager → Bool × ApprovalManager
unfolding get finish
resolve_approval token approves binding m = elim (get token m.pending) [
  | none ↦ (false, m)
  | some entry ↦
      if present_and (λ b. not (b == entry.binding)) binding
      then (false, m)
      else (true, finish token entry (operator_decision approves) m)
]

unfoldable pub cancel : String → ApprovalManager → ApprovalManager
unfolding get finish
cancel token m = elim (get token m.pending) [ none ↦ m | some entry ↦ finish token entry expired m ]

unfoldable pub is_consumed : String → ApprovalManager → Bool
unfolding has
is_consumed token m = has token m.consumed

unfoldable pub get_pending : String → ApprovalManager → Option PendingApproval
unfolding get
get_pending token m = get token m.pending

unfoldable pub size : ApprovalManager → ℕ
size m = length m.pending

unfoldable pub batch_resolve : List String → Bool → ApprovalManager → ℕ × ApprovalManager
unfolding resolve_approval
batch_resolve [] approves m = (0, m)
batch_resolve (token ∷ tokens) approves m =
    let (done, m') = resolve_approval token approves none m in
    let (count, m'') = batch_resolve tokens approves m' in
    ((if done then count + 1 else count), m'')

unfoldable pub add_session_auto_approval : String → String → ApprovalManager → ApprovalManager
unfolding add join_colon
add_session_auto_approval channel_id action_class m = record m {
  session_auto_approvals = add (join_colon channel_id action_class) m.session_auto_approvals;
}

unfoldable pub is_session_auto_approved : String → String → ApprovalManager → Bool
unfolding has join_colon
is_session_auto_approved channel_id action_class m =
    has (join_colon channel_id action_class) m.session_auto_approvals

unfoldable pub clear_session_auto_approvals : ApprovalManager → ℕ × ApprovalManager
clear_session_auto_approvals m =
    (length m.session_auto_approvals, record m { session_auto_approvals = [] })

-- The loop of `shutdown` over the values of `pending`.
unfoldable pub shutdown_entries :
    List (String × PendingApproval) → ApprovalManager → ApprovalManager
unfolding remove add settle
shutdown_entries [] m = m
shutdown_entries ((key, entry) ∷ rest) m = shutdown_entries rest (record m {
  timers = remove entry.handle m.timers;
  consumed = add entry.token m.consumed;
  settled = settle entry.handle expired m.settled;
})

unfoldable pub shutdown : ApprovalManager → ApprovalManager
unfolding shutdown_entries
shutdown m =
    let closed = shutdown_entries m.pending m in
    record closed { pending = []; session_auto_approvals = [] }

-- `listPending`: the entries, oldest first. `sort` is stable.
unfoldable pub insert_by_age : PendingApproval → List PendingApproval → List PendingApproval
insert_by_age p [] = p ∷ []
insert_by_age p (q ∷ qs) =
    if ltb q.created_at p.created_at then q ∷ insert_by_age p qs else p ∷ q ∷ qs

unfoldable pub list_pending_entries : List (String × PendingApproval) → List PendingApproval
unfolding insert_by_age
list_pending_entries [] = []
list_pending_entries ((key, entry) ∷ rest) = insert_by_age entry (list_pending_entries rest)

unfoldable pub list_pending : ApprovalManager → List PendingApproval
unfolding list_pending_entries
list_pending m = list_pending_entries m.pending

-- What the process, the operators and the clock do to a manager.
pub data Event : Type 0 where
  create : CreateApprovalOpts → String → ℕ → Event
  fire : ℕ → Event
  resolve : String → Bool → Option String → Event
  cancel_one : String → Event
  batch : List String → Bool → Event
  auto_approve : String → String → Event
  clear_auto : Event
  shut_down : Event

unfoldable pub step : (String → String) → Event → ApprovalManager → ApprovalManager
unfolding create_approval_request fire_timer resolve_approval cancel batch_resolve
    add_session_auto_approval clear_session_auto_approvals shutdown
step sha256 (create opts uuid now) m = (create_approval_request sha256 opts uuid now m).1
step sha256 (fire h) m = fire_timer h m
step sha256 (resolve token approves binding) m = (resolve_approval token approves binding m).1
step sha256 (cancel_one token) m = cancel token m
step sha256 (batch tokens approves) m = (batch_resolve tokens approves m).1
step sha256 (auto_approve channel action_class) m = add_session_auto_approval channel action_class m
step sha256 clear_auto m = (clear_session_auto_approvals m).1
step sha256 shut_down m = shutdown m

unfoldable pub run : (String → String) → List Event → ApprovalManager → ApprovalManager
unfolding step
run sha256 [] m = m
run sha256 (ev ∷ evs) m = run sha256 evs (step sha256 ev m)
