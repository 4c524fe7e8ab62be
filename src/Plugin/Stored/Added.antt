-- ===== src/Plugin/Stored/Added.antt =====
-- The rule that an approval stores, and the calls that it permits.
use clawthority.Base.{ℕ, ◌+◌, ◌≡◌, refl, ap, ◌∙◌, String, true, some, List, [], ◌∷◌, ◌++◌}
use clawthority.Base.Results.{ok, or_catch}
use clawthority.Permits.Pattern.{DerivedPattern}
use clawthority.Permits.Checker.{AutoPermit, new_checker}
use clawthority.Permits.Store.{
  Codec, holds, LoadResult, load_auto_permit_rules_from_file, saved_document,
}
use clawthority.Permits.Store.RoundTrip.{
  storable, storable-concat, loaded-storable, load-saved_rules,
}
use clawthority.Plugin.Stored.{
  ApprovedCall, StoredPermits, new_rule, derive_for, use_loaded, load_auto_permit_rules,
  save_and_load, persist_auto_permit_pattern,
}

module _ {Entry : Type 0} (codec : Codec Entry) where
  -- The state with a file of these rules, and a checker with those that fit the schema.
  abbrev pub with_saved : List AutoPermit → ℕ → StoredPermits Entry
  with_saved rules version = record {
    file = holds (saved_document codec rules version);
    checker = some (new_checker (storable rules));
  }

  use_loaded-found :
      (r : LoadResult) (s : StoredPermits Entry)
      → r.found ≡ true
      → use_loaded codec (ok r) s ≡ record s { checker = some (new_checker r.rules) }
  use_loaded-found r s h = rw h refl

  pub save_and_load-saved :
      (rules : List AutoPermit) (version : ℕ) (s : StoredPermits Entry)
      → save_and_load codec true rules version s ≡ ok (with_saved rules version)
  unfolding save_and_load load_auto_permit_rules
  save_and_load-saved rules version s =
      let (r, e, same_rules, v, found) = load-saved_rules codec rules version in
      let s1 : StoredPermits Entry = record s {
        file = holds (saved_document codec rules version);
      } in
      ap ok (
        ap (λ m. use_loaded codec m s1) e
        ∙ use_loaded-found r s1 found
        ∙ ap (λ l. record s1 { checker = some (new_checker l) }) same_rules)

  persist-saved :
      (now : ℕ) (iso : String) (call : ApprovedCall) (s : StoredPermits Entry)
      (derived : DerivedPattern) (existing : LoadResult)
      → derive_for now call.action_class call.command call.tool_name ≡ ok derived
      → load_auto_permit_rules_from_file codec s.file ≡ ok existing
      → persist_auto_permit_pattern codec now iso true call s
        ≡ with_saved (existing.rules ++ new_rule now iso call derived ∷ []) (existing.version + 1)
  unfolding persist_auto_permit_pattern
  persist-saved now iso call s derived existing d l =
      let rules = existing.rules ++ new_rule now iso call derived ∷ [] in
      rw d (rw l (ap (λ m. or_catch m s) (save_and_load-saved rules (existing.version + 1) s)))

  -- After a call was approved for good, its pattern derived and the file read and written, the
  -- checker in use has the rules of the file and behind them the new rule, if that fits the schema.
  pub persist-checker :
      (now : ℕ) (iso : String) (call : ApprovedCall) (s : StoredPermits Entry)
      (derived : DerivedPattern) (existing : LoadResult)
      → derive_for now call.action_class call.command call.tool_name ≡ ok derived
      → load_auto_permit_rules_from_file codec s.file ≡ ok existing
      → (persist_auto_permit_pattern codec now iso true call s).checker
        ≡ some (new_checker (existing.rules ++ storable (new_rule now iso call derived ∷ [])))
  persist-checker now iso call s derived existing d l =
      ap (λ x. x.checker) (persist-saved now iso call s derived existing d l)
      ∙ ap (λ v. some (new_checker v))
          (storable-concat existing.rules (new_rule now iso call derived)
            (loaded-storable codec s.file existing l))
