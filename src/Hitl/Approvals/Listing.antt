-- ===== src/Hitl/Approvals/Listing.antt =====
-- What `listPending` of src/hitl/approval-manager.ts shows.
use clawthority.Base.{
  ℕ, ◌≤◌, String, ◌↔◌, List, [], ◌∷◌, Memᴰ, ltb, arith, Bool-cases, inl, inr, All, ap,
}
use clawthority.Hitl.Approvals.{
  PendingApproval, ApprovalManager, insert_by_age, list_pending_entries, list_pending,
}

-- The entries with the oldest first.
abbrev pub IsSorted : List PendingApproval → Type 0
IsSorted [] = Unit
IsSorted (p ∷ ps) = All (λ q. p.created_at ≤ q.created_at) ps × IsSorted ps

All-insert_by_age :
    (t : ℕ) (p : PendingApproval) (ps : List PendingApproval)
    → t ≤ p.created_at
    → All (λ q. t ≤ q.created_at) ps
    → All (λ q. t ≤ q.created_at) (insert_by_age p ps)
unfolding insert_by_age
All-insert_by_age t p [] h a = (h, tt)
All-insert_by_age t p (q ∷ qs) h a = elim (Bool-cases (ltb q.created_at p.created_at)) [
  | inl older ↦ rw (older, insert_by_age) (a.0, All-insert_by_age t p qs h a.1)
  | inr younger ↦ rw (younger, insert_by_age) (h, a)
]

All-later :
    (s t : ℕ) (ps : List PendingApproval)
    → s ≤ t
    → All (λ q. t ≤ q.created_at) ps
    → All (λ q. s ≤ q.created_at) ps
All-later s t [] h a = tt
All-later s t (q ∷ qs) h a = (omega (arith, h, a.0), All-later s t qs h a.1)

insert_by_age-IsSorted :
    (p : PendingApproval) (ps : List PendingApproval) → IsSorted ps → IsSorted (insert_by_age p ps)
unfolding insert_by_age
insert_by_age-IsSorted p [] s = (tt, tt)
insert_by_age-IsSorted p (q ∷ qs) (a, s) = elim (Bool-cases (ltb q.created_at p.created_at)) [
  | inl older ↦
      rw (older, insert_by_age)
        (All-insert_by_age q.created_at p qs (ground arith) a, insert_by_age-IsSorted p qs s)
  | inr younger ↦
      let le : p.created_at ≤ q.created_at = ground arith in
      rw (younger, insert_by_age) ((le, All-later p.created_at q.created_at qs le a), (a, s))
]

mem-insert_by_age :
    (p e : PendingApproval) (ps : List PendingApproval)
    → (Memᴰ e (insert_by_age p ps) → Memᴰ e (p ∷ ps))
      × (Memᴰ e (p ∷ ps) → Memᴰ e (insert_by_age p ps))
unfolding insert_by_age
mem-insert_by_age p e [] = ((λ m. m), (λ m. m))
mem-insert_by_age p e (q ∷ qs) =
    let (there, back) = mem-insert_by_age p e qs in
    elim (Bool-cases (ltb q.created_at p.created_at)) [
      | inr younger ↦ rw (younger, insert_by_age) ((λ m. m), (λ m. m))
      | inl older ↦
          rw (older, insert_by_age)
            (
              (λ m. elim m [
                | Memᴰ.head i ↦ Memᴰ.tail (Memᴰ.head i)
                | Memᴰ.tail k ↦ elim (there k) [
                  | Memᴰ.head i ↦ Memᴰ.head i
                  | Memᴰ.tail n ↦ Memᴰ.tail (Memᴰ.tail n)
                ]
              ]),
              (λ m. elim m [
                | Memᴰ.head i ↦ Memᴰ.tail (back (Memᴰ.head i))
                | Memᴰ.tail k ↦ elim k [
                  | Memᴰ.head i ↦ Memᴰ.head i
                  | Memᴰ.tail n ↦ Memᴰ.tail (back (Memᴰ.tail n))
                ]
              ]),
            )
    ]

entries-IsSorted : (m : List (String × PendingApproval)) → IsSorted (list_pending_entries m)
unfolding list_pending_entries
entries-IsSorted [] = tt
entries-IsSorted ((k, p) ∷ m) =
    insert_by_age-IsSorted p (list_pending_entries m) (entries-IsSorted m)

mem-entries :
    (e : PendingApproval) (m : List (String × PendingApproval))
    → Memᴰ e (list_pending_entries m) ↔ ((k : String) × Memᴰ (k, e) m)
unfolding list_pending_entries
mem-entries e [] = ((λ x. elim x [ ]), (λ (k, x). elim x [ ]))
mem-entries e ((j, p) ∷ m) =
    let (there, back) = mem-insert_by_age p e (list_pending_entries m) in
    let ih = mem-entries e m in
    (
      (λ x. elim (there x) [
        | Memᴰ.head i ↦ (j, Memᴰ.head (ap (λ (y : PendingApproval). (j, y)) i))
        | Memᴰ.tail n ↦ let (k, y) = ih.0 n in (k, Memᴰ.tail y)
      ]),
      (λ (k, x). elim x [
        | Memᴰ.head i ↦ back (Memᴰ.head (ap (λ (y : String × PendingApproval). y.1) i))
        | Memᴰ.tail n ↦ back (Memᴰ.tail (ih.1 (k, n)))
      ]),
    )

-- `listPending` shows the pending entries, all of them and no other, the oldest first.
pub list_pending_lem :
    (m : ApprovalManager)
    → IsSorted (list_pending m)
      × ((e : PendingApproval) → Memᴰ e (list_pending m) ↔ ((k : String) × Memᴰ (k, e) m.pending))
unfolding list_pending
list_pending_lem m = (entries-IsSorted m.pending, (λ e. mem-entries e m.pending))
