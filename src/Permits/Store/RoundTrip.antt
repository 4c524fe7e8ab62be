-- ===== src/Permits/Store/RoundTrip.antt =====
-- Writing the file of the rules, and reading it again.
use clawthority.Base.{
  ℕ, suc, ◌+◌, ◌-◌, ◌≡◌, refl, sym, ap, ◌∙◌, inl, inr, String, Bool, true, Option, some, List, [],
  ◌∷◌, ◌++◌, map, length, if◌then◌else◌, all, arith, Option-cases, eq_refl, Bool-cases,
}
use clawthority.Base.Results.{ok, ok_injective}
use clawthority.Permits.Checker.{AutoPermit}
use clawthority.Permits.Store.{
  Codec, legacy, versioned, refused, StoreFile, missing, unreadable, invalid_json, holds,
  LoadResult, is_storable, accepted, entry_errors_from, build_rules_result,
  validate_auto_permit_content, load_auto_permit_rules_from_file, saved_document,
}

abbrev pub storable : List AutoPermit → List AutoPermit
storable [] = []
storable (p ∷ ps) = if is_storable p then p ∷ storable ps else storable ps

module _ {Entry : Type 0} (codec : Codec Entry) where
  pub accepted-encode :
      (rules : List AutoPermit) → accepted codec (map codec.encode rules) ≡ storable rules
  unfolding accepted
  accepted-encode [] = refl
  accepted-encode (p ∷ ps) = elim (Bool-cases (is_storable p)) [
    | inl y ↦ rw (codec.decode_encode p) (rw y (ap (λ v. p ∷ v) (accepted-encode ps)))
    | inr n ↦ rw (codec.decode_encode p) (rw n (accepted-encode ps))
  ]

  errors-encode :
      (i : ℕ) (rules : List AutoPermit)
      → all is_storable rules ≡ true
      → entry_errors_from codec i (map codec.encode rules) ≡ []
  unfolding entry_errors_from
  errors-encode i [] h = refl
  errors-encode i (p ∷ ps) h =
      let y : is_storable p ≡ true = ground arith in
      rw (codec.decode_encode p) (rw y (errors-encode (i + 1) ps (ground arith)))

  pub storable-all :
      (rules : List AutoPermit) → all is_storable rules ≡ true → storable rules ≡ rules
  storable-all [] h = refl
  storable-all (p ∷ ps) h =
      let y : is_storable p ≡ true = ground arith in
      rw y (ap (λ v. p ∷ v) (storable-all ps (ground arith)))

  length-encode : (rules : List AutoPermit) → length (map codec.encode rules) ≡ length rules
  length-encode [] = refl
  length-encode (p ∷ ps) = ap suc (length-encode ps)

  -- Every entry of a file is either read as a rule or reported with its index, and the count of the
  -- skipped ones is exact.
  accepted-errors :
      (i : ℕ) (entries : List Entry)
      → length (accepted codec entries) + length (entry_errors_from codec i entries)
        ≡ length entries
  unfolding accepted entry_errors_from
  accepted-errors i [] = refl
  accepted-errors i (e ∷ es) = elim (Option-cases (codec.decode e)) [
    | inl n ↦ rw (n, length) (omega (arith, accepted-errors (i + 1) es))
    | inr (p, y) ↦ rw (y, length) (omega (arith, accepted-errors (i + 1) es))
  ]

  build_rules_result-skipped :
      (entries : List Entry) (version : ℕ) (checksum : Option String) (is_legacy : Bool)
      → (build_rules_result codec entries version checksum is_legacy).skipped
        ≡ length (build_rules_result codec entries version checksum is_legacy).entry_errors
  unfolding build_rules_result
  build_rules_result-skipped entries version checksum is_legacy =
      omega (arith, accepted-errors 0 entries)

  -- Rules that fit the schema are read back as they were written, in order and with the version,
  -- with no entry skipped and no message.
  pub load-saved :
      (rules : List AutoPermit) (next_version : ℕ)
      → all is_storable rules ≡ true
      → load_auto_permit_rules_from_file codec (holds (saved_document codec rules next_version))
        ≡ ok (record {
          rules = rules;
          skipped = 0;
          found = true;
          version = next_version;
          checksum = some (codec.digest (map codec.encode rules));
          validation_errors = [];
        })
  unfolding load_auto_permit_rules_from_file validate_auto_permit_content build_rules_result
      saved_document
  load-saved rules next_version h =
      let back = accepted-encode rules ∙ storable-all rules h in
      let none_left : length (map codec.encode rules) - length rules ≡ 0 =
        omega (arith, length-encode rules) in
      rw back (
        rw (errors-encode 0 rules h)
          (rw (eq_refl (codec.digest (map codec.encode rules))) (rw none_left refl)))

  accepted-storable : (entries : List Entry) → all is_storable (accepted codec entries) ≡ true
  unfolding accepted
  accepted-storable [] = refl
  accepted-storable (e ∷ es) = elim (Option-cases (codec.decode e)) [
    | inl n ↦ rw (n, all) (accepted-storable es)
    | inr (p, y) ↦ rw (y, all) (rw (codec.decode_storable e p y) (accepted-storable es))
  ]

  pub loaded-storable :
      (f : StoreFile Entry) (r : LoadResult)
      → load_auto_permit_rules_from_file codec f ≡ ok r
      → all is_storable r.rules ≡ true
  unfolding load_auto_permit_rules_from_file validate_auto_permit_content build_rules_result
  loaded-storable missing r h = ap (λ v. all is_storable v.rules) (sym (ok_injective h))
  loaded-storable unreadable r h = cc
  loaded-storable invalid_json r h = ap (λ v. all is_storable v.rules) (sym (ok_injective h))
  loaded-storable (holds (legacy es)) r h =
      ap (λ v. all is_storable v.rules) (sym (ok_injective h)) ∙ accepted-storable es
  loaded-storable (holds (versioned n es c)) r h =
      ap (λ v. all is_storable v.rules) (sym (ok_injective h)) ∙ accepted-storable es
  loaded-storable (holds (refused es)) r h =
      ap (λ v. all is_storable v.rules) (sym (ok_injective h))

  -- What is read of any rules that were written.
  pub load-saved_rules :
      (rules : List AutoPermit) (next_version : ℕ)
      → (r : LoadResult) × (load_auto_permit_rules_from_file codec
            (holds (saved_document codec rules next_version))
          ≡ ok r)
        × (r.rules ≡ storable rules)
        × (r.version ≡ next_version)
        × (r.found ≡ true)
  unfolding load_auto_permit_rules_from_file validate_auto_permit_content build_rules_result
      saved_document
  load-saved_rules rules next_version = (_, refl, accepted-encode rules, refl, refl)

pub storable-concat :
    (rules : List AutoPermit) (r : AutoPermit)
    → all is_storable rules ≡ true
    → storable (rules ++ r ∷ []) ≡ rules ++ storable (r ∷ [])
storable-concat [] r h = refl
storable-concat (p ∷ ps) r h =
    let y : is_storable p ≡ true = ground arith in
    rw y (ap (λ v. p ∷ v) (storable-concat ps r (ground arith)))
