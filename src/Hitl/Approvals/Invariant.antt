-- ===== src/Hitl/Approvals/Invariant.antt =====
-- What holds of an `ApprovalManager` of src/hitl/approval-manager.ts between two events.
use clawthority.Base.{
  ℕ, ◌+◌, ◌<◌, String, Bool, true, false, not, ◌≡◌, refl, sym, ◌∙◌, Option, none, some, List, [],
  ◌∷◌, ◌⊎◌, inl, inr, All, arith, eq_iff, nat_eq, Option-cases, Bool-cases, present_and, ◌==◌,
  if◌then◌else◌, eq_of_some,
}
use mathlib.Core.Bool.{false≢true}
use clawthority.Base.Maps.{
  get, put, remove, get-put, get-remove, All-put, All-remove, nat_key, string_key, nat_eq_iff,
}
use clawthority.Hitl.Approvals.{
  HitlDecision, expired, PendingApproval, ApprovalManager, new_manager, settle, finish,
  operator_decision, create_approval_request, CreateApprovalOpts, fire_timer, resolve_approval,
  cancel, batch_resolve, shutdown_entries, shutdown, Event, create, fire, resolve, cancel_one,
  batch, auto_approve, clear_auto, shut_down, step, run,
}

abbrev pub Timers : Type 0
Timers = List (ℕ × String)

abbrev pub Settled : Type 0
Settled = List (ℕ × HitlDecision)

-- Of the `n` promises made so far each has an armed timer or is settled, and not both.
pub record Handles (timers : Timers) (settled : Settled) (n : ℕ) : Type 0 where
  pub armed : (h : ℕ) (t : String) → get h timers ≡ some t → (h < n) × (get h settled ≡ none)
  pub made : (h : ℕ) (d : HitlDecision) → get h settled ≡ some d → h < n
  pub none_lost :
      (h : ℕ)
      → h < n
      → ((t : String) × (get h timers ≡ some t)) ⊎ ((d : HitlDecision) × (get h settled ≡ some d))

-- A pending entry is stored under its own token, and the timer of its promise is armed with that token.
pub record IsValid (m : ApprovalManager) : Type 0 where
  pub handles : Handles m.timers m.settled m.next_handle
  pub entries :
      (t : String) (e : PendingApproval)
      → get t m.pending ≡ some e
      → (e.token ≡ t) × (get e.handle m.timers ≡ some t)
  pub bounded : All (λ (p : String × PendingApproval). p.1.handle < m.next_handle) m.pending

pub get-settle :
    (h j : ℕ) (d : HitlDecision) (s : Settled)
    → get j (settle h d s)
      ≡ (if nat_eq h j then some (elim (get h s) [ none ↦ d | some x ↦ x ]) else get j s)
unfolding settle
get-settle h j d s = elim (Option-cases (get h s)) [
  | inl p ↦ rw (p, settle) (get-put h j d s)
  | inr (x, p) ↦ rw (p, settle) (ground (arith, nat_eq_iff h j))
]

-- A new promise with its timer.
Handles-new :
    (token : String) (timers : Timers) (s : Settled) (n : ℕ)
    → Handles timers s n
    → Handles (put n token timers) s (n + 1)
Handles-new token timers s n v = record {
  armed = λ h t g. elim (Bool-cases (nat_eq n h)) [
    | inl same ↦ (
      ground (arith, nat_eq_iff n h),
      elim (Option-cases (get h s)) [
        | inl p ↦ p
        | inr (d, p) ↦ absurd (ground (arith, nat_eq_iff n h, v.made h d p))
      ],
    )
    | inr other ↦
        let old = v.armed h t (rw (get-put n h token timers, other) at g) in
        (omega (arith, old.0), old.1)
  ];
  made = λ h d g. omega (arith, v.made h d g);
  none_lost = λ h lt. elim (Bool-cases (nat_eq n h)) [
    | inl same ↦ inl (token, rw (get-put n h token timers, same) refl)
    | inr other ↦ elim (v.none_lost h (ground (arith, nat_eq_iff n h))) [
      | inl (t, g) ↦ inl (t, rw (get-put n h token timers, other) g)
      | inr (d, g) ↦ inr (d, g)
    ]
  ];
}

-- A promise that is settled, its timer cleared.
Handles-close :
    (h : ℕ) (d : HitlDecision) (timers : Timers) (s : Settled) (n : ℕ)
    → h < n
    → Handles timers s n
    → Handles (remove h timers) (settle h d s) n
Handles-close h d timers s n lt v = record {
  armed = λ j t g.
      ground (arith, get-remove h j timers, get-settle h j d s, nat_eq_iff h j, v.armed j t);
  made = λ j x g. elim (Bool-cases (nat_eq h j)) [
    | inl same ↦ ground (arith, nat_eq_iff h j)
    | inr other ↦ v.made j x (rw (get-settle h j d s, other) at g)
  ];
  none_lost = λ j lj. elim (Bool-cases (nat_eq h j)) [
    | inl same ↦ inr (elim (get h s) [ none ↦ d | some x ↦ x ], rw (get-settle h j d s, same) refl)
    | inr other ↦ elim (v.none_lost j lj) [
      | inl (t, g) ↦ inl (t, rw (get-remove h j timers, other) g)
      | inr (x, g) ↦ inr (x, rw (get-settle h j d s, other) g)
    ]
  ];
}

All-later :
    (n : ℕ) (ps : List (String × PendingApproval))
    → All (λ (p : String × PendingApproval). p.1.handle < n) ps
    → All (λ (p : String × PendingApproval). p.1.handle < n + 1) ps
All-later n [] a = tt
All-later n (p ∷ ps) a = (omega (arith, a.0), All-later n ps a.1)

nat_eq_refl : (n : ℕ) → nat_eq n n ≡ true
nat_eq_refl n = ground arith

-- A request adds an entry with a new promise.
insert-IsValid :
    (token : String) (entry : PendingApproval) (m : ApprovalManager)
    → entry.token ≡ token
    → entry.handle ≡ m.next_handle
    → IsValid m
    → IsValid (record m {
      pending = put token entry m.pending;
      timers = put m.next_handle token m.timers;
      next_handle = m.next_handle + 1;
    })
insert-IsValid token entry m tok hand v = record {
  handles = Handles-new token m.timers m.settled m.next_handle v.handles;
  entries = λ t e g. elim (Bool-cases (token == t)) [
    | inl same ↦
        let eq = (eq_iff token t).0 same in
        let now : entry ≡ e = eq_of_some (rw (get-put token t entry m.pending, same) at g) in
        rw (← now, ← eq, hand)
          (
            tok,
            rw (get-put m.next_handle m.next_handle token m.timers, nat_eq_refl m.next_handle) refl,
          )
    | inr other ↦
        let (own, armed) = v.entries t e (rw (get-put token t entry m.pending, other) at g) in
        let old = (v.handles.armed e.handle t armed).0 in
        let differs : nat_eq m.next_handle e.handle ≡ false = ground arith in
        (own, rw (get-put m.next_handle e.handle token m.timers, differs) armed)
  ];
  bounded =
      All-put (λ (p : String × PendingApproval). p.1.handle < m.next_handle + 1) token entry
        m.pending (λ j. omega (arith, hand)) (All-later m.next_handle m.pending v.bounded);
}

-- An entry is removed, its promise settled and its timer cleared; so too where the token has been
-- taken by a later entry.
close-IsValid :
    (h : ℕ) (token : String) (d : HitlDecision) (c : List String) (m : ApprovalManager)
    → get h m.timers ≡ some token
    → IsValid m
    → IsValid (record m {
      timers = remove h m.timers;
      pending = remove token m.pending;
      consumed = c;
      settled = settle h d m.settled;
    })
close-IsValid h token d c m armed v = record {
  handles =
      Handles-close h d m.timers m.settled m.next_handle (v.handles.armed h token armed).0
        v.handles;
  entries = λ t e g. elim (Bool-cases (token == t)) [
    | inl same ↦ let gone : none ≡ some e = rw (get-remove token t m.pending, same) at g in cc
    | inr other ↦
        let (own, kept) = v.entries t e (rw (get-remove token t m.pending, other) at g) in
        elim (Bool-cases (nat_eq h e.handle)) [
          | inl same ↦
              let eq = (nat_eq_iff h e.handle).0 same in
              let clash : token ≡ t = eq_of_some (sym armed ∙ rw (← eq) at kept) in
              absurd (false≢true (sym other ∙ (eq_iff token t).1 clash))
          | inr differs ↦ (own, rw (get-remove h e.handle m.timers, differs) kept)
        ]
  ];
  bounded =
      All-remove (λ (p : String × PendingApproval). p.1.handle < m.next_handle) token m.pending
        v.bounded;
}

module _ (sha256 : String → String) where
  create-IsValid :
      (opts : CreateApprovalOpts) (uuid : String) (now : ℕ) (m : ApprovalManager)
      → IsValid m
      → IsValid (create_approval_request sha256 opts uuid now m).1
  unfolding create_approval_request
  create-IsValid opts uuid now m v = insert-IsValid _ _ m refl refl v

fire_timer-IsValid : (h : ℕ) (m : ApprovalManager) → IsValid m → IsValid (fire_timer h m)
unfolding fire_timer
fire_timer-IsValid h m v = elim (Option-cases (get h m.timers)) [
  | inl p ↦ rw (p, fire_timer) v
  | inr (token, p) ↦ rw (p, fire_timer) (close-IsValid h token expired _ m p v)
]

finish-IsValid :
    (token : String) (e : PendingApproval) (d : HitlDecision) (m : ApprovalManager)
    → get token m.pending ≡ some e
    → IsValid m
    → IsValid (finish token e d m)
unfolding finish
finish-IsValid token e d m g v = close-IsValid e.handle token d _ m (v.entries token e g).1 v

pub resolve_approval-IsValid :
    (token : String) (approves : Bool) (binding : Option String) (m : ApprovalManager)
    → IsValid m
    → IsValid (resolve_approval token approves binding m).1
unfolding resolve_approval
resolve_approval-IsValid token approves binding m v = elim (Option-cases (get token m.pending)) [
  | inl p ↦ rw (p, resolve_approval) v
  | inr (e, p) ↦ elim (Bool-cases (present_and (λ b. not (b == e.binding)) binding)) [
    | inl t ↦ rw (p, resolve_approval) (rw t v)
    | inr f ↦
        rw (p, resolve_approval) (rw f (finish-IsValid token e (operator_decision approves) m p v))
  ]
]

cancel-IsValid : (token : String) (m : ApprovalManager) → IsValid m → IsValid (cancel token m)
unfolding cancel
cancel-IsValid token m v = elim (Option-cases (get token m.pending)) [
  | inl p ↦ rw (p, cancel) v
  | inr (e, p) ↦ rw (p, cancel) (finish-IsValid token e expired m p v)
]

batch_resolve-IsValid :
    (tokens : List String) (approves : Bool) (m : ApprovalManager)
    → IsValid m
    → IsValid (batch_resolve tokens approves m).1
unfolding batch_resolve
batch_resolve-IsValid [] approves m v = v
batch_resolve-IsValid (t ∷ ts) approves m v =
    batch_resolve-IsValid ts approves (resolve_approval t approves none m).1
      (resolve_approval-IsValid t approves none m v)

-- Each round of the loop of `shutdown` leaves the promises accounted for.
shutdown_entries-Handles :
    (ps : List (String × PendingApproval)) (m : ApprovalManager)
    → All (λ (p : String × PendingApproval). p.1.handle < m.next_handle) ps
    → Handles m.timers m.settled m.next_handle
    → let m' = shutdown_entries ps m in Handles m'.timers m'.settled m'.next_handle
unfolding shutdown_entries
shutdown_entries-Handles [] m a v = v
shutdown_entries-Handles ((key, e) ∷ ps) m a v =
    shutdown_entries-Handles ps _ a.1
      (Handles-close e.handle expired m.timers m.settled m.next_handle a.0 v)

shutdown-IsValid : (m : ApprovalManager) → IsValid m → IsValid (shutdown m)
unfolding shutdown
shutdown-IsValid m v = record {
  handles = shutdown_entries-Handles m.pending m v.bounded v.handles;
  entries = λ t e g. let gone : none ≡ some e = unfold get in g in cc;
  bounded = tt;
}

new-IsValid : IsValid new_manager
unfolding new_manager get
new-IsValid = record {
  handles = record {
    armed = λ h t g. cc;
    made = λ h d g. cc;
    none_lost = λ h lt. absurd (omega arith);
  };
  entries = λ t e g. cc;
  bounded = tt;
}

module _ (sha256 : String → String) where
  pub step-IsValid : (ev : Event) (m : ApprovalManager) → IsValid m → IsValid (step sha256 ev m)
  unfolding step
  step-IsValid (create opts uuid now) m v = create-IsValid sha256 opts uuid now m v
  step-IsValid (fire h) m v = fire_timer-IsValid h m v
  step-IsValid (resolve token approves binding) m v =
      resolve_approval-IsValid token approves binding m v
  step-IsValid (cancel_one token) m v = cancel-IsValid token m v
  step-IsValid (batch tokens approves) m v = batch_resolve-IsValid tokens approves m v
  step-IsValid (auto_approve channel c) m v = record {
    handles = v.handles;
    entries = v.entries;
    bounded = v.bounded;
  }
  step-IsValid clear_auto m v = record {
    handles = v.handles;
    entries = v.entries;
    bounded = v.bounded;
  }
  step-IsValid shut_down m v = shutdown-IsValid m v

  run_from-IsValid :
      (evs : List Event) (m : ApprovalManager) → IsValid m → IsValid (run sha256 evs m)
  unfolding run
  run_from-IsValid [] m v = v
  run_from-IsValid (ev ∷ evs) m v = run_from-IsValid evs (step sha256 ev m) (step-IsValid ev m v)

  -- Whatever requests, decisions, cancellations and timer callbacks reach a new manager, in any
  -- order: every pending entry is stored under its own token and its timer is armed, and every
  -- promise made is settled or has an armed timer, never both, so that none is lost.
  pub run-IsValid : (evs : List Event) → IsValid (run sha256 evs new_manager)
  run-IsValid evs = run_from-IsValid evs new_manager new-IsValid
