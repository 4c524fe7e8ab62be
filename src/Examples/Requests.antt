-- ===== src/Examples/Requests.antt =====
-- The approval manager on concrete sequences of events.
use clawthority.Base.{
  ◌<◌, String, ◌≡◌, ◌⊎◌, refl, true, false, none, some, List, [], ◌∷◌, arith, eq_iff, ◌↔◌, Memᴰ,
}
use clawthority.Base.Text.{split}
use clawthority.Base.Maps.{get, nat_key, string_key}
use clawthority.Hitl.Matcher.{matches_action_pattern}
use clawthority.Hitl.Matcher.Laws.{Fits, matches_action_pattern_iff}
use clawthority.Hitl.Approvals.{
  ApprovalManager, new_manager, create_approval_request, resolve_approval, operator_decision,
  fire_timer, shutdown, is_consumed, expired, Event, create, fire, resolve, run, PendingApproval,
  HitlDecision,
}
use clawthority.Hitl.Approvals.Invariant.{IsValid, run-IsValid}
use clawthority.Hitl.Approvals.Resolution.{Accepts, Resolved, resolve_approval_lem}
use clawthority.Hitl.Approvals.Final.{Keeps, run-Keeps, shutdown_lem}
use clawthority.Hitl.Approvals.Stale.{stale_timer}
use clawthority.Hitl.Approvals.Settling.{run-settles}
use clawthority.Examples.Data.{same_case, request, deletes}

abbrev asked : List Event
asked = create request "u1" 0 ∷ []

abbrev waiting : ApprovalManager
waiting = run same_case asked new_manager

abbrev token : String
token = "s1:filesystem.delete"

abbrev entry : PendingApproval
entry = record {
  token = token;
  tool_name = "rm";
  agent_id = "a1";
  channel_id = "chat";
  policy_name = "deletes";
  fallback = deletes.approval.fallback;
  created_at = 0;
  timeout_ms = 60000;
  payload_hash = "h";
  action_class = "filesystem.delete";
  target = "/tmp/a";
  summary = "";
  binding = "filesystem.delete|/tmp/a|h";
  handle = 0;
}

entry_waits : get token waiting.pending ≡ some entry
unfolding run new_manager
entry_waits = refl

run-IsValid_example : IsValid (
    run same_case
      (create request "u1" 0 ∷ create request "u2" 5 ∷ fire 0 ∷ resolve token true none ∷ [])
      new_manager)
run-IsValid_example =
    run-IsValid same_case
      (create request "u1" 0 ∷ create request "u2" 5 ∷ fire 0 ∷ resolve token true none ∷ [])

one_made : 0 < (run same_case asked new_manager).next_handle
unfolding run new_manager
one_made = omega arith

-- The operator decides before the timer would.
run-settles_example :
    (d : HitlDecision) × (get 0
        (run same_case
          (resolve token true none ∷ fire 0 ∷ [])
          (run same_case asked new_manager)).settled
      ≡ some d)
unfolding run new_manager
run-settles_example =
    run-settles same_case asked (resolve token true none ∷ fire 0 ∷ []) 0 one_made
      (Memᴰ.tail (Memᴰ.head refl))

waiting-IsValid : IsValid waiting
waiting-IsValid = run-IsValid same_case asked

resolve_approval_lem_example :
    let (done, m') = resolve_approval token true none waiting in
    ((done ≡ true)
      × ((e : PendingApproval) × Accepts waiting token none e
          × Resolved waiting m' token e (operator_decision true)))
    ⊎ ((done ≡ false) × ((e : PendingApproval) → ¬ Accepts waiting token none e) × (m' ≡ waiting))
resolve_approval_lem_example = resolve_approval_lem token true none waiting waiting-IsValid

run-Keeps_example : Keeps waiting (run same_case (resolve token true none ∷ fire 0 ∷ []) waiting)
run-Keeps_example = run-Keeps same_case (resolve token true none ∷ fire 0 ∷ []) waiting

shutdown_lem_example :
    ((shutdown waiting).pending ≡ [])
    × ((shutdown waiting).session_auto_approvals ≡ [])
    × (get 0 (shutdown waiting).settled ≡ some expired)
    × (is_consumed token (shutdown waiting) ≡ true)
shutdown_lem_example = shutdown_lem waiting token entry waiting-IsValid entry_waits

stale_timer_example :
    let (first, m1) = create_approval_request same_case request "u1" 0 waiting in
    let (second, m2) = create_approval_request same_case request "u2" 5 m1 in
    let m3 = fire_timer first.promise m2 in
    (first.token ≡ second.token)
    × ((resolve_approval second.token true none m3).0 ≡ false)
    × (get second.promise m3.settled ≡ none)
stale_timer_example =
    stale_timer same_case request "s1" "u1" "u2" 0 5 waiting true none waiting-IsValid refl refl
      (ground (arith, eq_iff "s1" ""))

matches_action_pattern_iff_example :
    (matches_action_pattern "filesystem.*" "filesystem.delete" ≡ true) ↔ (
      (◌≡◌ {A = String} "filesystem.*" "*")
      ⊎ Fits (split b'.' "filesystem.*") (split b'.' "filesystem.delete"))
matches_action_pattern_iff_example = matches_action_pattern_iff "filesystem.*" "filesystem.delete"
