-- ===== src/Plugin/Stored/Revoked.antt =====
-- What `/revoke` answers and leaves.
use clawthority.Base.{
  ℕ, zero, suc, ◌+◌, ◌≡◌, ◌≢◌, refl, sym, ap, ◌∙◌, ◌⊎◌, inl, inr, true, Option, none, some, List,
  [], ◌∷◌, ◌++◌, all, if◌then◌else◌, Bool-cases, arith, nat_eq, length,
}
use clawthority.Base.Results.{ok, ◌>>=◌}
use clawthority.Permits.Words.{Text}
use clawthority.Permits.Tokens.{trim}
use clawthority.Permits.Pattern.{is_empty}
use clawthority.Permits.Checker.{AutoPermit, new_checker}
use clawthority.Permits.Store.{
  Codec, holds, LoadResult, is_storable, load_auto_permit_rules_from_file, saved_document,
}
use clawthority.Permits.Store.RoundTrip.{storable-all, loaded-storable}
use clawthority.Hitl.Approvals.{ApprovalManager, clear_session_auto_approvals}
use clawthority.Plugin.Stored.{
  StoredPermits, Revocation, RevokeReply, no_match, none_saved, usage, revoked, rule_at,
  without_index, selected_index, unchanged, clear_and_reply, revoke_at, revoke_selected,
  revoke_existing, revoke_auto_permit,
}
use clawthority.Plugin.Stored.Added.{save_and_load-saved}
use clawthority.Plugin.Stored.Selected.{
  Names, Around, rule_at-Around, rule_at-length, selected_index-Names, Names-selected_index,
}

without-storable :
    (i : ℕ) (rules : List AutoPermit)
    → all is_storable rules ≡ true
    → all is_storable (without_index i rules) ≡ true
unfolding without_index
without-storable i [] h = refl
without-storable zero (r ∷ rules) h = ground arith
without-storable (suc i) (r ∷ rules) h = ground (arith, without-storable i rules)

-- No rule is named by the selector.
abbrev pub NoneNamed : Text → List AutoPermit → Type 0
NoneNamed selector rules =
    (front : List AutoPermit) (r : AutoPermit) (back : List AutoPermit)
    → Around rules front r back
    → ¬ Names selector front r

not_selected-NoneNamed :
    (selector : Text) (rules : List AutoPermit)
    → rule_at (selected_index selector rules) rules ≡ none
    → NoneNamed selector rules
not_selected-NoneNamed selector rules h front r back e names =
    let there : rule_at (selected_index selector (front ++ r ∷ back)) (front ++ r ∷ back) ≡ some r =
      ap (λ i. rule_at i (front ++ r ∷ back)) (Names-selected_index selector front r back names)
      ∙ rule_at-length front r back in
    let bad : none ≡ some r = sym h ∙ ap (λ l. rule_at (selected_index selector l) l) e ∙ there in
    cc

not_at-NoneNamed :
    (selector : Text) (rules : List AutoPermit) (index : Option ℕ)
    → selected_index selector rules ≡ index
    → rule_at index rules ≡ none
    → NoneNamed selector rules
not_at-NoneNamed selector rules index e h =
    not_selected-NoneNamed selector rules (ap (λ x. rule_at x rules) e ∙ h)

is_empty-nil : (s : Text) → is_empty s ≡ true → s ≡ []
is_empty-nil [] h = refl
is_empty-nil (c ∷ s) h = cc

length-nil : (rules : List AutoPermit) → nat_eq (length rules) 0 ≡ true → rules ≡ []
length-nil [] h = refl
length-nil (r ∷ rules) h = ground arith

module _ {Entry : Type 0} (codec : Codec Entry) (s : StoredPermits Entry)
    (m : ApprovalManager) where
  -- The answer, with nothing changed.
  abbrev pub answered : RevokeReply → Revocation Entry
  answered reply = record { reply = reply; permits = s; approvals = m }

  -- The answer about a rule, the file and the checker without it, and no session approval left.
  abbrev pub revocation :
      LoadResult → List AutoPermit → AutoPermit → List AutoPermit → Revocation Entry
  revocation existing front r back =
      let (cleared, m') = clear_session_auto_approvals m in
      record {
        reply = revoked (length front + 1) r.pattern (existing.version + 1) cleared;
        permits = record {
          file = holds (saved_document codec (front ++ back) (existing.version + 1));
          checker = some (new_checker (front ++ back));
        };
        approvals = m';
      }

  -- What a selector does to the rules of the file, case by case.
  abbrev pub Outcome : Text → LoadResult → Revocation Entry → Type 0
  Outcome selector existing v =
      ((selector ≡ []) × (v ≡ answered usage))
      ⊎ ((selector ≢ [])
          × (((existing.rules ≡ []) × (v ≡ answered none_saved))
              ⊎ (((existing.rules ≢ [])
                    × NoneNamed selector existing.rules
                    × (v ≡ answered no_match))
                  ⊎ ((front : List AutoPermit) × (r : AutoPermit) × (back : List AutoPermit)
                      × Around existing.rules front r back
                      × Names selector front r
                      × (v ≡ revocation existing front r back)))))

  module _ (existing : LoadResult)
      (loaded : load_auto_permit_rules_from_file codec s.file ≡ ok existing) where
    revoke_at-revocation :
        (i : ℕ) (r : AutoPermit) (front back : List AutoPermit)
        → length front ≡ i
        → without_index i existing.rules ≡ front ++ back
        → revoke_at codec true i r existing s m ≡ ok (revocation existing front r back)
    unfolding revoke_at
    revoke_at-revocation i r front back n rest =
        let rules = without_index i existing.rules in
        let k =
          storable-all codec rules
            (without-storable i existing.rules (loaded-storable codec s.file existing loaded)) in
        let saved = save_and_load-saved codec rules (existing.version + 1) s in
        let state : List AutoPermit → List AutoPermit → StoredPermits Entry = λ l c. record {
          file = holds (saved_document codec l (existing.version + 1));
          checker = some (new_checker c);
        } in
        ap (λ x. x >>= clear_and_reply codec i r existing m) saved
        ∙ ap (λ l. clear_and_reply codec i r existing m (state rules l)) k
        ∙ ap (λ l. clear_and_reply codec i r existing m (state l l)) rest
        ∙ ap (λ x. clear_and_reply codec x r existing m (state (front ++ back) (front ++ back)))
            (sym n)

    -- One way of three, for a selector and a file with rules.
    abbrev Ends : Text → Revocation Entry → Type 0
    Ends selector v =
        (NoneNamed selector existing.rules × (v ≡ answered no_match))
        ⊎ ((front : List AutoPermit) × (r : AutoPermit) × (back : List AutoPermit) × Around
              existing.rules front r back
            × Names selector front r
            × (v ≡ revocation existing front r back))

    revoke_selected-Ends :
        (selector : Text) (index : Option ℕ) (rule : Option AutoPermit)
        → selected_index selector existing.rules ≡ index
        → rule_at index existing.rules ≡ rule
        → (v : Revocation Entry) × (revoke_selected codec true index rule existing s m ≡ ok v)
          × Ends selector v
    unfolding rule_at
    revoke_selected-Ends selector none none e h =
        (answered no_match, refl, inl (not_at-NoneNamed selector existing.rules none e h, refl))
    revoke_selected-Ends selector (some i) none e h =
        (answered no_match, refl, inl (not_at-NoneNamed selector existing.rules (some i) e h, refl))
    revoke_selected-Ends selector none (some r) e h = cc
    revoke_selected-Ends selector (some i) (some r) e h =
        let (front, back, around, n, rest) = rule_at-Around i existing.rules r h in
        let names =
          selected_index-Names selector front r back
            (ap (selected_index selector) (sym around) ∙ e ∙ ap some (sym n)) in
        (
          revocation existing front r back,
          revoke_at-revocation i r front back n rest,
          inr (front, r, back, around, names, refl),
        )

    revoke_existing-Outcome :
        (selector : Text)
        → selector ≢ []
        → (v : Revocation Entry) × (revoke_existing codec true selector existing s m ≡ ok v)
          × Outcome selector existing v
    revoke_existing-Outcome selector given = elim (Bool-cases (nat_eq (length existing.rules) 0)) [
      | inl none_there ↦ (
        answered none_saved,
        rw none_there refl,
        inr (given, inl (length-nil existing.rules none_there, refl)),
      )
      | inr some_there ↦
          let index = selected_index selector existing.rules in
          let filled : existing.rules ≢ [] =
            λ e. let bad : nat_eq (length existing.rules) 0 ≡ true = rw e refl in cc in
          let (v, returns, ends) =
            revoke_selected-Ends selector index (rule_at index existing.rules) refl refl in
          (
            v,
            rw some_there returns,
            inr (
              given,
              inr (elim ends [
                | inl (none_named, same) ↦ inl (filled, none_named, same)
                | inr named ↦ inr named
              ]),
            ),
          )
    ]

  -- Where the file can be loaded and written, `/revoke` returns. With no selector it answers how it
  -- is used, where the file has no rules it says so, and where the selector names none of them it
  -- says that, each with nothing changed. Else the selector names a rule of the file, by its number
  -- or by its pattern: the answer has the number and the pattern of that rule, the file and the checker
  -- in use have all the other rules in their order, and the session approvals are cleared.
  pub revoke_auto_permit-Outcome :
      (args : Text) (existing : LoadResult)
      → load_auto_permit_rules_from_file codec s.file ≡ ok existing
      → (v : Revocation Entry) × (revoke_auto_permit codec true args s m ≡ ok v)
        × Outcome (trim args) existing v
  unfolding revoke_auto_permit
  revoke_auto_permit-Outcome args existing loaded = elim (Bool-cases (is_empty (trim args))) [
    | inl empty ↦ (
      answered usage,
      rw (empty, revoke_auto_permit) refl,
      inl (is_empty-nil (trim args) empty, refl),
    )
    | inr filled ↦
        let given : trim args ≢ [] = λ e. let bad : is_empty (trim args) ≡ true = rw e refl in cc in
        let (v, returns, outcome) = revoke_existing-Outcome existing loaded (trim args) given in
        let body = λ (x : LoadResult). revoke_existing codec true (trim args) x s m in
        (
          v,
          ap
                (λ b.
                  if b
                  then unchanged codec usage s m
                  else load_auto_permit_rules_from_file codec s.file >>= body)
                filled
              ∙ ap (λ l. l >>= body) loaded
              ∙ returns,
          outcome,
        )
  ]
