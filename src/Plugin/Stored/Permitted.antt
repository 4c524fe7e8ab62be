-- ===== src/Plugin/Stored/Permitted.antt =====
-- A call like one that was approved for good, at the policy stage.
use clawthority.Base.{
  ℕ, ◌≡◌, refl, ap, ◌∙◌, inl, inr, String, Bool, true, false, Option, none, some, List, [], ◌∷◌,
  ◌++◌, ◌==◌, Bool-cases, arith, Memᴰ, eq_iff,
}
use clawthority.Base.Results.{ok}
use clawthority.Policy.Types.{permit}
use clawthority.Permits.Words.{Text, codes}
use clawthority.Permits.Tokens.{trim, tokenize, normalize_command}
use clawthority.Permits.Pattern.{by_default, DerivedPattern, derive_pattern, is_empty}
use clawthority.Permits.Covers.{rule_matches, is_one_line}
use clawthority.Permits.Covers.Own.{
  covers_own, derive_pattern-covers_own, derive_pattern-filled, normalize-filled,
}
use clawthority.Permits.Checker.{AutoPermit, new_checker, match_command}
use clawthority.Permits.Checker.Cache.{
  match_rules-mem, match_command-match_rules, new_checker-IsCoherent,
}
use clawthority.Permits.Store.{Codec, LoadResult, is_storable, load_auto_permit_rules_from_file}
use clawthority.Permits.Store.RoundTrip.{storable}
use clawthority.Plugin.Stored.{
  ApprovedCall, StoredPermits, new_rule, derive_for, is_exec_action_class, command_opts,
  rule_checker, pattern_found, persist_auto_permit_pattern,
}
use clawthority.Plugin.Stored.Added.{persist-checker}
use clawthority.Enforcement.Types.{PipelineContext, CeeDecision}
use clawthority.Enforcement.Stage2.{early_permit, combined_stage2, is_exec_class, Engines}

last_mem : (rules : List AutoPermit) (r : AutoPermit) → Memᴰ r (rules ++ r ∷ [])
last_mem [] r = Memᴰ.head refl
last_mem (x ∷ rules) r = Memᴰ.tail (last_mem rules r)

-- The stage at a call of an exec class whose target a stored pattern matches.
early_permit-matched :
    (tool_name : String) (auto_permit : Option (String → String → Bool))
    (match : String → Option Text) (ctx : PipelineContext) (p : Text)
    → is_exec_class ctx.action_class ≡ true
    → (ctx.target == "") ≡ false
    → match ctx.target ≡ some p
    → (d : CeeDecision) × (early_permit tool_name auto_permit (some match) ctx ≡ some d)
      × (d.effect ≡ permit)
unfolding early_permit
early_permit-matched tool_name none match ctx p c t m = rw c (rw t (rw m (_, refl, refl)))
early_permit-matched tool_name (some approved) match ctx p c t m =
    elim (Bool-cases (approved ctx.rule_context.channel ctx.action_class)) [
      | inl y ↦ rw y (_, refl, refl)
      | inr n ↦ rw n (rw c (rw t (rw m (_, refl, refl))))
    ]

new_checker-finds :
    (rules : List AutoPermit) (r : AutoPermit) (command : Text)
    → is_empty (normalize_command command) ≡ false
    → Memᴰ r rules
    → rule_matches r.pattern (normalize_command command) ≡ true
    → (p : Text) × (pattern_found (match_command command (new_checker rules)).0 ≡ some p)
unfolding new_checker
new_checker-finds rules r command tokens m h =
    let (p, e) = match_rules-mem command r rules (normalize-filled command tokens) tokens m h in
    let (answer, _, _) =
      match_command-match_rules command (new_checker rules) (new_checker-IsCoherent rules) in
    (p.pattern, ap pattern_found (answer ∙ e))

exec_classes : (c : String) → is_exec_action_class c ≡ true → is_exec_class c ≡ true
unfolding is_exec_action_class
exec_classes c h = ground arith

derive_for-exec :
    (now : ℕ) (call : ApprovedCall) (d : DerivedPattern)
    → is_exec_action_class call.action_class ≡ true
    → derive_for now call.action_class call.command call.tool_name ≡ ok d
    → derive_pattern now (command_opts call.command) ≡ ok d
unfolding derive_for
derive_for-exec now call d h e = rw h at e

-- The rule of an approval that derives a covering pattern is found at the same command.
rule-finds :
    (now : ℕ) (iso : String) (call : ApprovedCall) (derived : DerivedPattern)
    (rules : List AutoPermit)
    → derive_pattern now (command_opts call.command) ≡ ok derived
    → is_storable (new_rule now iso call derived) ≡ true
    → covers_own by_default (tokenize (trim call.command)) ≡ true
    → is_one_line (normalize_command call.command) ≡ true
    → (p : Text) × (pattern_found
          (match_command call.command
            (new_checker (rules ++ storable (new_rule now iso call derived ∷ [])))).0
        ≡ some p)
unfolding new_rule
rule-finds now iso call derived rules d fits own line =
    let rule = new_rule now iso call derived in
    let opts = command_opts call.command in
    let covers : rule_matches derived.pattern (normalize_command call.command) ≡ true =
      derive_pattern-covers_own now opts derived refl d line ∙ own in
    rw fits (
      new_checker-finds (rules ++ rule ∷ []) rule call.command
        (derive_pattern-filled now opts derived refl d) (last_mem rules rule) covers)

early-effect :
    (lower : String → String) (now : ℕ) (tool_name : String)
    (auto_permit : Option (String → String → Bool)) (rules : Option (String → Option Text))
    (ctx : PipelineContext) (es : Engines) (d : CeeDecision)
    → early_permit tool_name auto_permit rules ctx ≡ some d
    → (combined_stage2 lower now tool_name auto_permit rules ctx es).0.effect ≡ d.effect
unfolding combined_stage2
early-effect lower now tool_name auto_permit rules ctx es d e = rw (e, combined_stage2) refl

target_there : (t : String) → is_empty (codes t) ≡ false → (t == "") ≡ false
target_there t h = elim (Bool-cases (t == "")) [
  | inl e ↦
      let none_there : is_empty (codes "") ≡ false = rw ((eq_iff t "").0 e) at h in ground arith
  | inr n ↦ n
]

module _ {Entry : Type 0} (codec : Codec Entry) (lower : String → String) where
  -- "Approve Always" for a command, from which a pattern is derived that covers the command and
  -- whose rule fits the schema, makes the policy stage permit the next call of that command, if the
  -- file of the rules could be read and written.
  pub persist-permits :
      (now later : ℕ) (iso : String) (call : ApprovedCall) (s : StoredPermits Entry)
      (derived : DerivedPattern) (existing : LoadResult) (tool_name : String)
      (auto_permit : Option (String → String → Bool)) (ctx : PipelineContext) (es : Engines)
      → is_exec_action_class call.action_class ≡ true
      → derive_for now call.action_class call.command call.tool_name ≡ ok derived
      → load_auto_permit_rules_from_file codec s.file ≡ ok existing
      → is_storable (new_rule now iso call derived) ≡ true
      → covers_own by_default (tokenize (trim call.command)) ≡ true
      → is_one_line (normalize_command call.command) ≡ true
      → ctx.action_class ≡ call.action_class
      → codes ctx.target ≡ call.command
      → (combined_stage2 lower later tool_name auto_permit
          (rule_checker (persist_auto_permit_pattern codec now iso true call s).checker)
          ctx
          es).0.effect
        ≡ permit
  persist-permits now later iso call s derived existing tool_name auto_permit ctx es exec d l fits
        own line same_class same_command =
      let found =
        rule-finds now iso call derived existing.rules (derive_for-exec now call derived exec d)
          fits own line in
      let checker = new_checker (existing.rules ++ storable (new_rule now iso call derived ∷ [])) in
      let given = normalize-filled call.command (
        derive_pattern-filled now (command_opts call.command) derived refl
          (derive_for-exec now call derived exec d)) in
      let at_target : pattern_found (match_command (codes ctx.target) checker).0 ≡ some found.0 =
        rw same_command found.1 in
      let (x, e, permits) =
        early_permit-matched tool_name auto_permit
          (λ c. pattern_found (match_command (codes c) checker).0) ctx found.0
          (exec_classes ctx.action_class (ap is_exec_action_class same_class ∙ exec))
          (target_there ctx.target (ap is_empty same_command ∙ given)) at_target in
      ap (λ c. (combined_stage2 lower later tool_name auto_permit (rule_checker c) ctx es).0.effect)
        (persist-checker codec now iso call s derived existing d l)
      ∙ early-effect lower later tool_name auto_permit _ ctx es x e
      ∙ permits
