-- ===== src/Hitl/Approvals/Final.antt =====
-- Decisions and consumed tokens of src/hitl/approval-manager.ts over time, and `shutdown`.
use clawthority.Base.{
  ℕ, String, Bool, true, ◌≡◌, refl, Option, none, some, List, [], ◌∷◌, inl, inr, arith, eq_iff,
  nat_eq, Option-cases, Bool-cases, present_and, ◌==◌, not, Memᴰ, ◌⊎◌, ap, eq_of_some, eq_refl,
}
use clawthority.Base.Maps.{get, remove, nat_key, string_key, nat_eq_iff}
use clawthority.Base.Sets.{add, has-add}
use clawthority.Hitl.Approvals.{
  HitlDecision, expired, PendingApproval, ApprovalManager, settle, operator_decision, fire_timer,
  resolve_approval, cancel, batch_resolve, shutdown_entries, shutdown, is_consumed, Event, create,
  fire, resolve, cancel_one, batch, auto_approve, clear_auto, shut_down, step, run,
}
use clawthority.Hitl.Approvals.Invariant.{IsValid, get-settle}

-- What has been decided or consumed in `m` stays so in `m'`.
pub record Keeps (m m' : ApprovalManager) : Type 0 where
  pub decisions : (h : ℕ) (d : HitlDecision) → get h m.settled ≡ some d → get h m'.settled ≡ some d
  pub tokens : (t : String) → is_consumed t m ≡ true → is_consumed t m' ≡ true

Keeps-refl : (m : ApprovalManager) → Keeps m m
Keeps-refl m = record { decisions = λ h d g. g; tokens = λ t g. g }

Keeps-trans : (a b c : ApprovalManager) → Keeps a b → Keeps b c → Keeps a c
Keeps-trans a b c f g = record {
  decisions = λ h d p. g.decisions h d (f.decisions h d p);
  tokens = λ t p. g.tokens t (f.tokens t p);
}

settle_keeps :
    (h j : ℕ) (x d : HitlDecision) (s : List (ℕ × HitlDecision))
    → get j s ≡ some d
    → get j (settle h x s) ≡ some d
settle_keeps h j x d s g = rw get-settle (elim (Bool-cases (nat_eq h j)) [
  | inl same ↦ rw (same, (nat_eq_iff h j).0 same, g) refl
  | inr other ↦ rw other g
])

-- A promise settled and a token consumed, whatever becomes of the rest.
Keeps-close :
    (m m' : ApprovalManager) (h : ℕ) (x : HitlDecision) (token : String)
    → m'.settled ≡ settle h x m.settled
    → m'.consumed ≡ add token m.consumed
    → Keeps m m'
unfolding is_consumed
Keeps-close m m' h x token s c = record {
  decisions = λ j d g. rw s (settle_keeps h j x d m.settled g);
  tokens = λ t g. rw (c, has-add t token m.consumed, g) (ground arith);
}

resolve_approval-Keeps :
    (token : String) (approves : Bool) (binding : Option String) (m : ApprovalManager)
    → Keeps m (resolve_approval token approves binding m).1
unfolding resolve_approval
resolve_approval-Keeps token approves binding m = elim (Option-cases (get token m.pending)) [
  | inl p ↦ rw (p, resolve_approval) (Keeps-refl m)
  | inr (e, p) ↦ elim (Bool-cases (present_and (λ b. not (b == e.binding)) binding)) [
    | inl t ↦ rw (p, resolve_approval) (rw t (Keeps-refl m))
    | inr f ↦
        rw (p, resolve_approval)
          (rw f (Keeps-close m _ e.handle (operator_decision approves) token refl refl))
  ]
]

batch_resolve-Keeps :
    (tokens : List String) (approves : Bool) (m : ApprovalManager)
    → Keeps m (batch_resolve tokens approves m).1
unfolding batch_resolve
batch_resolve-Keeps [] approves m = Keeps-refl m
batch_resolve-Keeps (t ∷ ts) approves m =
    let m' = (resolve_approval t approves none m).1 in
    Keeps-trans m m' _ (resolve_approval-Keeps t approves none m)
      (batch_resolve-Keeps ts approves m')

shutdown_entries-Keeps :
    (ps : List (String × PendingApproval)) (m : ApprovalManager) → Keeps m (shutdown_entries ps m)
unfolding shutdown_entries
shutdown_entries-Keeps [] m = Keeps-refl m
shutdown_entries-Keeps ((key, e) ∷ ps) m =
    Keeps-trans m _ _ (Keeps-close m _ e.handle expired e.token refl refl)
      (shutdown_entries-Keeps ps _)

pub fire_timer-Keeps : (h : ℕ) (m : ApprovalManager) → Keeps m (fire_timer h m)
unfolding fire_timer
fire_timer-Keeps h m = elim (Option-cases (get h m.timers)) [
  | inl p ↦ rw (p, fire_timer) (Keeps-refl m)
  | inr (token, p) ↦ rw (p, fire_timer) (Keeps-close m _ h expired token refl refl)
]

cancel-Keeps : (token : String) (m : ApprovalManager) → Keeps m (cancel token m)
unfolding cancel
cancel-Keeps token m = elim (Option-cases (get token m.pending)) [
  | inl p ↦ rw (p, cancel) (Keeps-refl m)
  | inr (e, p) ↦ rw (p, cancel) (Keeps-close m _ e.handle expired token refl refl)
]

module _ (sha256 : String → String) where
  step-Keeps : (ev : Event) (m : ApprovalManager) → Keeps m (step sha256 ev m)
  unfolding step is_consumed
  step-Keeps (create opts uuid now) m = record { decisions = λ h d g. g; tokens = λ t g. g }
  step-Keeps (fire h) m = fire_timer-Keeps h m
  step-Keeps (resolve token approves binding) m = resolve_approval-Keeps token approves binding m
  step-Keeps (cancel_one token) m = cancel-Keeps token m
  step-Keeps (batch tokens approves) m = batch_resolve-Keeps tokens approves m
  step-Keeps (auto_approve channel c) m = record { decisions = λ h d g. g; tokens = λ t g. g }
  step-Keeps clear_auto m = record { decisions = λ h d g. g; tokens = λ t g. g }
  step-Keeps shut_down m =
      let kept = shutdown_entries-Keeps m.pending m in
      record { decisions = kept.decisions; tokens = kept.tokens }

  -- Whatever happens to a manager, a promise that is settled keeps its decision, and a token that is
  -- consumed stays consumed.
  pub run-Keeps : (evs : List Event) (m : ApprovalManager) → Keeps m (run sha256 evs m)
  unfolding run
  run-Keeps [] m = Keeps-refl m
  run-Keeps (ev ∷ evs) m =
      Keeps-trans m (step sha256 ev m) _ (step-Keeps ev m) (run-Keeps evs (step sha256 ev m))

-- Not decided, or decided by expiry.
abbrev pub Open : ℕ → List (ℕ × HitlDecision) → Type 0
Open h s = (get h s ≡ none) ⊎ (get h s ≡ some expired)

settle-Open : (h j : ℕ) (s : List (ℕ × HitlDecision)) → Open j s → Open j (settle h expired s)
settle-Open h j s o = rw get-settle (elim (Bool-cases (nat_eq h j)) [
  | inl same ↦ elim o [
    | inl p ↦ inr (rw (same, (nat_eq_iff h j).0 same, p) refl)
    | inr p ↦ inr (rw (same, (nat_eq_iff h j).0 same, p) refl)
  ]
  | inr other ↦ rw other o
])

pub settle-Open_self :
    (h : ℕ) (s : List (ℕ × HitlDecision)) → Open h s → get h (settle h expired s) ≡ some expired
settle-Open_self h s (inl p) = rw (get-settle h h expired s, p) (ground arith)
settle-Open_self h s (inr p) = settle_keeps h h expired expired s p

-- The entries that the loop passes are settled as expired, and their tokens consumed.
shutdown_entries_settles :
    (ps : List (String × PendingApproval)) (m : ApprovalManager) (key : String)
    (e : PendingApproval)
    → Memᴰ (key, e) ps
    → Open e.handle m.settled
    → (get e.handle (shutdown_entries ps m).settled ≡ some expired)
      × (is_consumed e.token (shutdown_entries ps m) ≡ true)
unfolding shutdown_entries
shutdown_entries_settles [] m key e mem o = elim mem [ ]
shutdown_entries_settles ((k, x) ∷ ps) m key e (Memᴰ.head p) o =
    let same : e ≡ x = ap (λ (q : String × PendingApproval). q.1) p in
    let m1 : ApprovalManager = record m {
      timers = remove x.handle m.timers;
      consumed = add x.token m.consumed;
      settled = settle x.handle expired m.settled;
    } in
    let kept = shutdown_entries-Keeps ps m1 in
    rw same (
      kept.decisions x.handle expired (settle-Open_self x.handle m.settled (rw same at o)),
      kept.tokens x.token
          (unfold is_consumed in rw (has-add x.token x.token m.consumed, eq_refl x.token) refl),
    )
shutdown_entries_settles ((k, x) ∷ ps) m key e (Memᴰ.tail p) o =
    shutdown_entries_settles ps _ key e p (settle-Open x.handle e.handle m.settled o)

get-Memᴰ :
    {V : Type 0} (k : String) (v : V) (m : List (String × V)) → get k m ≡ some v → Memᴰ (k, v) m
unfolding get
get-Memᴰ k v [] h = cc
get-Memᴰ k v ((j, w) ∷ m) h = elim (Bool-cases (j == k)) [
  | inl same ↦ Memᴰ.head (let w' : w ≡ v = eq_of_some (rw same at h) in cc ((eq_iff j k).0 same))
  | inr other ↦ Memᴰ.tail (get-Memᴰ k v m (rw other at h))
]

-- `shutdown` leaves nothing pending and no session approval; every request that was pending is
-- settled as expired, and its token consumed.
pub shutdown_lem :
    (m : ApprovalManager) (token : String) (e : PendingApproval)
    → IsValid m
    → get token m.pending ≡ some e
    → ((shutdown m).pending ≡ [])
      × ((shutdown m).session_auto_approvals ≡ [])
      × (get e.handle (shutdown m).settled ≡ some expired)
      × (is_consumed token (shutdown m) ≡ true)
unfolding shutdown is_consumed
shutdown_lem m token e v g =
    let (own, armed) = v.entries token e g in
    let (decided, used) =
      shutdown_entries_settles m.pending m token e (get-Memᴰ token e m.pending g)
        (inl (v.handles.armed e.handle token armed).1) in
    (refl, refl, decided, rw own at used)
