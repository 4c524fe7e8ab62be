-- ===== src/Examples/Approving.antt =====
-- The stored rules of approvals.
use clawthority.Base.{
  ◌≡◌, inl, inr, refl, true, false, Option, none, some, [], ◌∷◌, if◌then◌else◌, Bool-cases,
  eq_of_some, sym,
}
use clawthority.Base.Results.{ok}
use clawthority.Policy.Types.{permit}
use clawthority.Permits.Words.{codes}
use clawthority.Permits.Tokens.{trim, tokenize}
use clawthority.Permits.Pattern.{by_default}
use clawthority.Permits.Covers.Own.{covers_own}
use clawthority.Permits.Checker.{AutoPermit, new_checker}
use clawthority.Permits.Store.{
  Codec, LoadResult, missing, holds, is_storable, load_auto_permit_rules_from_file, saved_document,
}
use clawthority.Permits.Store.RoundTrip.{load-saved}
use clawthority.Hitl.Approvals.{new_manager}
use clawthority.Plugin.Stored.{
  ApprovedCall, StoredPermits, Revocation, new_rule, derive_for, is_exec_action_class,
  persist_auto_permit_pattern, rule_checker, revoke_auto_permit, revoked,
}
use clawthority.Plugin.Stored.Revoked.{Outcome, revoke_auto_permit-Outcome}
use clawthority.Plugin.Stored.Permitted.{persist-permits}
use clawthority.Enforcement.Types.{PipelineContext}
use clawthority.Enforcement.Stage2.{combined_stage2}
use clawthority.Examples.Data.{same_case, engines, call}
use clawthority.Examples.Commands.{
  commit, commit_pattern, derived_commit, commit_derived, commit_rule, commit_line,
}

-- A file whose entries are the records themselves.
unfoldable decode_plain : AutoPermit → Option AutoPermit
decode_plain p = if is_storable p then some p else none

decode_plain-storable : (e p : AutoPermit) → decode_plain e ≡ some p → is_storable p ≡ true
unfolding decode_plain
decode_plain-storable e p h = elim (Bool-cases (is_storable e)) [
  | inl y ↦ rw (sym (eq_of_some (rw y at h))) y
  | inr n ↦ let nothing : none ≡ some p = rw n at h in cc
]

decode_plain_lem : (p : AutoPermit) → decode_plain p ≡ (if is_storable p then some p else none)
unfolding decode_plain
decode_plain_lem p = refl

abbrev plain_codec : Codec AutoPermit
plain_codec = record {
  decode = decode_plain;
  errors = λ e. [];
  encode = λ p. p;
  digest = λ es. "digest";
  decode_storable = decode_plain-storable;
  decode_encode = decode_plain_lem;
}

abbrev commit_call : ApprovedCall
commit_call = record {
  command = commit;
  tool_name = codes "bash";
  action_class = "shell.exec";
  channel = "telegram";
  operator_id = none;
}

abbrev no_rules : StoredPermits AutoPermit
no_rules = record { file = missing; checker = none }

abbrev empty_load : LoadResult
empty_load = record {
  rules = [];
  skipped = 0;
  found = false;
  version = 0;
  checksum = none;
  validation_errors = [];
}

abbrev commit_again : PipelineContext
commit_again = record (call "shell.exec") { target = "git commit -m x" }

load-saved_example :
    load_auto_permit_rules_from_file plain_codec
      (holds (saved_document plain_codec (commit_rule ∷ []) 3))
    ≡ ok (record {
      rules = commit_rule ∷ [];
      skipped = 0;
      found = true;
      version = 3;
      checksum = some "digest";
      validation_errors = [];
    })
unfolding is_storable
load-saved_example = load-saved plain_codec (commit_rule ∷ []) 3 refl

exec_call : is_exec_action_class "shell.exec" ≡ true
unfolding is_exec_action_class
exec_call = refl

call_derived :
    derive_for 7 commit_call.action_class commit_call.command commit_call.tool_name
    ≡ ok derived_commit
unfolding derive_for
call_derived = commit_derived

nothing_loaded : load_auto_permit_rules_from_file plain_codec no_rules.file ≡ ok empty_load
unfolding load_auto_permit_rules_from_file
nothing_loaded = refl

rule_fits : is_storable (new_rule 7 "1970" commit_call derived_commit) ≡ true
unfolding is_storable new_rule
rule_fits = refl

own_covered : covers_own by_default (tokenize (trim commit)) ≡ true
unfolding covers_own tokenize trim
own_covered = refl

persist-permits_example :
    (combined_stage2 same_case 9 "bash" none
      (rule_checker
        (persist_auto_permit_pattern plain_codec 7 "1970" true commit_call no_rules).checker)
      commit_again
      engines).0.effect
    ≡ permit
persist-permits_example =
    persist-permits plain_codec same_case 7 9 "1970" commit_call no_rules derived_commit empty_load
      "bash" none commit_again engines exec_call call_derived nothing_loaded rule_fits own_covered
      commit_line refl refl

abbrev one_rule : StoredPermits AutoPermit
one_rule = record { file = holds (saved_document plain_codec (commit_rule ∷ []) 3); checker = none }

abbrev first_revoked : Revocation AutoPermit
first_revoked = record {
  reply = revoked 1 commit_pattern 4 0;
  permits = record {
    file = holds (saved_document plain_codec [] 4);
    checker = some (new_checker []);
  };
  approvals = new_manager;
}

revoke_first :
    revoke_auto_permit plain_codec true (codes "1") one_rule new_manager ≡ ok first_revoked
unfolding revoke_auto_permit decode_plain is_storable new_manager
revoke_first = refl

abbrev one_load : LoadResult
one_load = record empty_load {
  rules = commit_rule ∷ [];
  version = 3;
  found = true;
  checksum = some "digest";
}

one_loaded : load_auto_permit_rules_from_file plain_codec one_rule.file ≡ ok one_load
unfolding load_auto_permit_rules_from_file decode_plain is_storable saved_document
one_loaded = refl

revoke_auto_permit-Outcome_example :
    (v : Revocation AutoPermit) × (revoke_auto_permit plain_codec true
        (codes "1")
        one_rule
        new_manager
      ≡ ok v)
    × Outcome plain_codec one_rule new_manager (trim (codes "1")) one_load v
revoke_auto_permit-Outcome_example =
    revoke_auto_permit-Outcome plain_codec one_rule new_manager (codes "1") one_load one_loaded
