-- ===== src/Plugin/Stored.antt =====
-- src/index.ts: the stored rules of "Approve Always" — loading them, adding one for an approved call
-- and revoking one. Whether a write of the file succeeds is an argument.
pub mod Added
pub mod Permitted
pub mod Revoked
pub mod Selected
use clawthority.Base.{
  ℕ, zero, suc, ◌+◌, ◌*◌, ◌-◌, ◌^◌, ◌≡◌, String, Bool, true, false, not, ◌&&◌, ◌||◌, Option, none,
  some, List, [], ◌∷◌, ◌++◌, ◌==◌, map, length, all, if◌then◌else◌, or_else, nat_eq, leb, ltb,
}
use clawthority.Base.Results.{Result, ok, threw, ◌>>=◌, or_catch}
use clawthority.Permits.Words.{Text, codes, same}
use clawthority.Permits.Tokens.{trim}
use clawthority.Permits.Pattern.{
  DerivationMethod, by_default, DerivePatternOpts, DerivedPattern, derive_pattern, is_empty,
}
use clawthority.Permits.Checker.{AutoPermit, FileAutoPermitChecker, new_checker, match_command}
use clawthority.Permits.Store.{
  Codec, Document, StoreFile, holds, LoadResult, load_auto_permit_rules_from_file, saved_document,
}
use clawthority.Hitl.Approvals.{ApprovalManager, clear_session_auto_approvals}

-- `EXEC_ACTION_CLASSES`
unfoldable pub is_exec_action_class : String → Bool
is_exec_action_class c = c == "shell.exec" || c == "code.execute"

abbrev pub command_opts : Text → DerivePatternOpts
command_opts command = record { command = command; method = none; tool_name = none }

abbrev pub tool_opts : Text → DerivePatternOpts
tool_opts tool_name = record { command = tool_name; method = none; tool_name = some tool_name }

-- The pattern that an approval of a call stores.
unfoldable pub derive_for : ℕ → String → Text → Text → Result DerivedPattern
unfolding is_exec_action_class derive_pattern
derive_for now action_class command tool_name =
    if is_exec_action_class action_class
    then derive_pattern now (command_opts command)
    else derive_pattern now (tool_opts tool_name)

-- An approved call: what `persistAutoPermitPattern` is called with.
pub record ApprovedCall : Type 0 where
  pub command : Text
  pub tool_name : Text
  pub action_class : String
  pub channel : String
  pub operator_id : Option String

-- The rule of an approved call; `iso` is the time as text.
unfoldable pub new_rule : ℕ → String → ApprovedCall → DerivedPattern → AutoPermit
new_rule now iso call derived = record {
  pattern = derived.pattern;
  method = derived.method;
  created_at_ms = now;
  original_command = call.command;
  intent_hint = none;
  created_by = some (or_else call.operator_id call.channel);
  created_at = some iso;
  derived_from = some call.command;
}

-- The store file, and `autoPermitCheckerRef.current`.
pub record StoredPermits (Entry : Type 0) : Type 0 where
  pub file : StoreFile Entry
  pub checker : Option FileAutoPermitChecker

abbrev pub pattern_found : Option AutoPermit → Option Text
pattern_found none = none
pattern_found (some rule) = some rule.pattern

-- The checker as the policy stage is given it.
abbrev pub rule_checker : Option FileAutoPermitChecker → Option (String → Option Text)
rule_checker none = none
rule_checker (some c) = some (λ command. pattern_found (match_command (codes command) c).0)

module _ {Entry : Type 0} (codec : Codec Entry) where
  abbrev pub use_loaded : Result LoadResult → StoredPermits Entry → StoredPermits Entry
  use_loaded threw s = s
  use_loaded (ok r) s = if r.found then record s { checker = some (new_checker r.rules) } else s

  unfoldable pub load_auto_permit_rules : StoredPermits Entry → StoredPermits Entry
  unfolding load_auto_permit_rules_from_file new_checker
  load_auto_permit_rules s = use_loaded (load_auto_permit_rules_from_file codec s.file) s

  -- `saveAutoPermitRules` and the reload behind it.
  unfoldable pub save_and_load :
      Bool → List AutoPermit → ℕ → StoredPermits Entry → Result (StoredPermits Entry)
  unfolding load_auto_permit_rules saved_document
  save_and_load writable rules version s =
      if writable
      then ok
          (load_auto_permit_rules (record s { file = holds (saved_document codec rules version) }))
      else threw

  -- Both `catch` blocks leave the state as it is.
  unfoldable pub persist_auto_permit_pattern :
      ℕ → String → Bool → ApprovedCall → StoredPermits Entry → StoredPermits Entry
  unfolding derive_for new_rule save_and_load load_auto_permit_rules_from_file
  persist_auto_permit_pattern now iso writable call s =
      or_catch
        (do
          derived ← derive_for now call.action_class call.command call.tool_name
          existing ← load_auto_permit_rules_from_file codec s.file
          save_and_load writable (existing.rules ++ new_rule now iso call derived ∷ [])
              (existing.version + 1) s)
        s

-- `/^[0-9]+$/`
unfoldable pub is_digits : Text → Bool
is_digits s = not (is_empty s) && all (λ c. leb b'0' c && leb c b'9') s

-- `Number(selector)` of digits
unfoldable pub number_of : ℕ → Text → ℕ
number_of n [] = n
number_of n (c ∷ s) = number_of (n * 10 + (c - b'0')) s

-- `rules.findIndex((rule) => rule.pattern === selector)`, with `none` for -1
unfoldable pub find_pattern : Text → List AutoPermit → Option ℕ
find_pattern selector [] = none
find_pattern selector (r ∷ rules) =
    let rest = find_pattern selector rules in
    if same r.pattern selector then some 0 else elim rest [ none ↦ none | some i ↦ some (suc i) ]

-- The first integer that `Number` reads as infinity.
unfoldable pub infinite_from : ℕ
infinite_from = 2 ^ 1024 - 2 ^ 970

-- `Number.isInteger(numeric)`: digits that do not overflow. Greater numbers than the rules that fit
-- into memory select no rule, exact or rounded.
unfoldable pub is_number : Text → Bool
unfolding is_digits number_of infinite_from
is_number s = is_digits s && ltb (number_of 0 s) infinite_from

-- The number of a rule less one, where 0 gives -1.
abbrev pub less_one : ℕ → Option ℕ
less_one zero = none
less_one (suc n) = some n

unfoldable pub selected_index : Text → List AutoPermit → Option ℕ
unfolding is_number number_of find_pattern
selected_index selector rules =
    if is_number selector then less_one (number_of 0 selector) else find_pattern selector rules

-- `rules[index]` with the bounds that the code tests
unfoldable pub rule_at : Option ℕ → List AutoPermit → Option AutoPermit
rule_at none rules = none
rule_at (some _) [] = none
rule_at (some zero) (r ∷ rules) = some r
rule_at (some (suc i)) (r ∷ rules) = rule_at (some i) rules

-- `rules.filter((_, i) => i !== index)`
unfoldable pub without_index : ℕ → List AutoPermit → List AutoPermit
without_index i [] = []
without_index zero (r ∷ rules) = rules
without_index (suc i) (r ∷ rules) = r ∷ without_index i rules

-- The answer of `/revoke`, by what its text is about.
pub data RevokeReply : Type 0 where
  usage none_saved no_match : RevokeReply
  revoked : ℕ → Text → ℕ → ℕ → RevokeReply

pub record Revocation (Entry : Type 0) : Type 0 where
  pub reply : RevokeReply
  pub permits : StoredPermits Entry
  pub approvals : ApprovalManager

module _ {Entry : Type 0} (codec : Codec Entry) where
  -- The end of the body, once the file is saved and loaded.
  abbrev pub clear_and_reply :
      ℕ
      → AutoPermit
      → LoadResult
      → ApprovalManager
      → StoredPermits Entry
      → Result (Revocation Entry)
  clear_and_reply index rule existing m s =
      let (cleared, m') = clear_session_auto_approvals m in
      ok (record {
        reply = revoked (index + 1) rule.pattern (existing.version + 1) cleared;
        permits = s;
        approvals = m';
      })

  -- The body below the guards, for the rule at the index.
  unfoldable pub revoke_at :
      Bool
      → ℕ
      → AutoPermit
      → LoadResult
      → StoredPermits Entry
      → ApprovalManager
      → Result (Revocation Entry)
  unfolding without_index save_and_load clear_session_auto_approvals
  revoke_at writable index rule existing s m =
      save_and_load codec writable (without_index index existing.rules) (existing.version + 1) s
      >>= clear_and_reply index rule existing m

  abbrev pub unchanged :
      RevokeReply → StoredPermits Entry → ApprovalManager → Result (Revocation Entry)
  unchanged reply s m = ok (record { reply = reply; permits = s; approvals = m })

  abbrev pub revoke_selected :
      Bool
      → Option ℕ
      → Option AutoPermit
      → LoadResult
      → StoredPermits Entry
      → ApprovalManager
      → Result (Revocation Entry)
  revoke_selected writable (some index) (some rule) existing s m =
      revoke_at writable index rule existing s m
  revoke_selected writable _ _ existing s m = unchanged no_match s m

  abbrev pub revoke_existing :
      Bool → Text → LoadResult → StoredPermits Entry → ApprovalManager → Result (Revocation Entry)
  revoke_existing writable selector existing s m =
      let index = selected_index selector existing.rules in
      if nat_eq (length existing.rules) 0
      then unchanged none_saved s m
      else revoke_selected writable index (rule_at index existing.rules) existing s m

  unfoldable pub revoke_auto_permit :
      Bool → Text → StoredPermits Entry → ApprovalManager → Result (Revocation Entry)
  unfolding revoke_at trim load_auto_permit_rules_from_file selected_index rule_at
  revoke_auto_permit writable args s m =
      let selector = trim args in
      if is_empty selector then unchanged usage s m else (do
        existing ← load_auto_permit_rules_from_file codec s.file
        revoke_existing writable selector existing s m)
