-- ===== src/Hitl/Approvals/Settling.antt =====
-- Every promise of src/hitl/approval-manager.ts is settled in the end.
use clawthority.Base.{
  ℕ, ◌≤◌, ◌<◌, String, Bool, ◌≡◌, refl, ap, sym, ◌∙◌, Option, none, some, List, [], ◌∷◌, inl, inr,
  arith, Option-cases, Bool-cases, present_and, ◌==◌, not, Memᴰ,
}
use clawthority.Base.Maps.{get, nat_key, string_key}
use clawthority.Hitl.Approvals.{
  HitlDecision, expired, PendingApproval, ApprovalManager, new_manager, fire_timer,
  resolve_approval, create_approval_request, cancel, finish, batch_resolve, shutdown_entries,
  shutdown, Event, create, fire, resolve, cancel_one, batch, auto_approve, clear_auto, shut_down,
  step, run,
}
use clawthority.Hitl.Approvals.Invariant.{IsValid, step-IsValid, run-IsValid}
use clawthority.Hitl.Approvals.Final.{run-Keeps, fire_timer-Keeps, settle-Open_self}

-- No promise is forgotten from `m` to `m'`.
abbrev Grows : ApprovalManager → ApprovalManager → Type 0
Grows m m' = m.next_handle ≤ m'.next_handle

resolve_approval-next :
    (token : String) (approves : Bool) (binding : Option String) (m : ApprovalManager)
    → (resolve_approval token approves binding m).1.next_handle ≡ m.next_handle
unfolding resolve_approval finish
resolve_approval-next token approves binding m = elim (Option-cases (get token m.pending)) [
  | inl p ↦ rw (p, resolve_approval) refl
  | inr (e, p) ↦ elim (Bool-cases (present_and (λ b. not (b == e.binding)) binding)) [
    | inl t ↦ rw (p, resolve_approval) (rw t refl)
    | inr f ↦ rw (p, resolve_approval) (rw f refl)
  ]
]

batch_resolve-next :
    (tokens : List String) (approves : Bool) (m : ApprovalManager)
    → (batch_resolve tokens approves m).1.next_handle ≡ m.next_handle
unfolding batch_resolve
batch_resolve-next [] approves m = refl
batch_resolve-next (t ∷ ts) approves m =
    batch_resolve-next ts approves (resolve_approval t approves none m).1
    ∙ resolve_approval-next t approves none m

shutdown_entries-next :
    (ps : List (String × PendingApproval)) (m : ApprovalManager)
    → (shutdown_entries ps m).next_handle ≡ m.next_handle
unfolding shutdown_entries
shutdown_entries-next [] m = refl
shutdown_entries-next ((key, e) ∷ ps) m = shutdown_entries-next ps _

fire_timer-next : (h : ℕ) (m : ApprovalManager) → (fire_timer h m).next_handle ≡ m.next_handle
unfolding fire_timer
fire_timer-next h m = elim (Option-cases (get h m.timers)) [
  | inl p ↦ rw (p, fire_timer) refl
  | inr (token, p) ↦ rw (p, fire_timer) refl
]

cancel-next : (token : String) (m : ApprovalManager) → (cancel token m).next_handle ≡ m.next_handle
unfolding cancel finish
cancel-next token m = elim (Option-cases (get token m.pending)) [
  | inl p ↦ rw (p, cancel) refl
  | inr (e, p) ↦ rw (p, cancel) refl
]

module _ (sha256 : String → String) where
  step-Grows : (ev : Event) (m : ApprovalManager) → Grows m (step sha256 ev m)
  unfolding step create_approval_request shutdown
  step-Grows (create opts uuid now) m = omega arith
  step-Grows (fire h) m = omega (arith, fire_timer-next h m)
  step-Grows (resolve token approves binding) m =
      omega (arith, resolve_approval-next token approves binding m)
  step-Grows (cancel_one token) m = omega (arith, cancel-next token m)
  step-Grows (batch tokens approves) m = omega (arith, batch_resolve-next tokens approves m)
  step-Grows (auto_approve channel c) m = omega arith
  step-Grows clear_auto m = omega arith
  step-Grows shut_down m = omega (arith, shutdown_entries-next m.pending m)

  -- The callback of a promise's timer leaves the promise settled.
  fire_timer-settled :
      (h : ℕ) (m : ApprovalManager)
      → IsValid m
      → h < m.next_handle
      → (d : HitlDecision) × (get h (fire_timer h m).settled ≡ some d)
  unfolding fire_timer
  fire_timer-settled h m v b = elim (v.handles.none_lost h b) [
    | inr (d, s) ↦ (d, (fire_timer-Keeps h m).decisions h d s)
    | inl (t, a) ↦
        (expired, rw (a, fire_timer) (settle-Open_self h m.settled (inl (v.handles.armed h t a).1)))
  ]

  run_from-settles :
      (evs : List Event) (m : ApprovalManager) (h : ℕ)
      → IsValid m
      → h < m.next_handle
      → Memᴰ (fire h) evs
      → (d : HitlDecision) × (get h (run sha256 evs m).settled ≡ some d)
  unfolding run step
  run_from-settles [] m h v b mem = elim mem [ ]
  run_from-settles (ev ∷ evs) m h v b (Memᴰ.head e) =
      let fired : step sha256 ev m ≡ fire_timer h m = ap (λ x. step sha256 x m) (sym e) in
      let (d, s) = fire_timer-settled h m v b in
      let here : get h (step sha256 ev m).settled ≡ some d = rw fired s in
      (d, (run-Keeps sha256 evs (step sha256 ev m)).decisions h d here)
  run_from-settles (ev ∷ evs) m h v b (Memᴰ.tail mem) =
      let grown : m.next_handle ≤ (step sha256 ev m).next_handle = step-Grows ev m in
      run_from-settles evs (step sha256 ev m) h (step-IsValid sha256 ev m v) (omega arith) mem

  -- A promise made in any run of events on a new manager is settled after any further run in which
  -- the callback of its timer is called, whatever else happens before and after that.
  pub run-settles :
      (evs later : List Event) (h : ℕ)
      → h < (run sha256 evs new_manager).next_handle
      → Memᴰ (fire h) later
      → (d : HitlDecision) × (get h (run sha256 later (run sha256 evs new_manager)).settled
          ≡ some d)
  run-settles evs later h b mem =
      run_from-settles later (run sha256 evs new_manager) h (run-IsValid sha256 evs) b mem
