-- ===== src/Examples/Commands.antt =====
-- Patterns and commands.
use clawthority.Base.{◌≡◌, ◌↔◌, refl, true, none, some, [], ◌∷◌}
use clawthority.Base.Results.{ok}
use clawthority.Permits.Words.{Text, codes, join, first_word, later_words}
use clawthority.Permits.Tokens.{tokenize, trim, normalize_command}
use clawthority.Permits.Tokens.Plain.{tokenize-join, is_special}
use clawthority.Permits.Regexp.{is_line_end}
use clawthority.Permits.Pattern.{
  by_default, DerivePatternOpts, DerivedPattern, derive_pattern, validate_pattern,
}
use clawthority.Permits.Covers.{Covers, Extends, rule_matches, is_one_line}
use clawthority.Permits.Covers.Valid.{validate_pattern-Covers}
use clawthority.Permits.Covers.Own.{covers_own, derive_pattern-covers_own}
use clawthority.Permits.Covers.Scope.{derive_pattern-tool, derive_pattern-positional}
use clawthority.Permits.Checker.{AutoPermit, FileAutoPermitChecker, new_checker, match_command}
use clawthority.Permits.Checker.Cache.{
  IsCoherent, match_rules, new_checker-IsCoherent, match_command-match_rules,
}

abbrev pub commit : Text
commit = codes "git commit -m x"

abbrev pub commit_pattern : Text
commit_pattern = codes "git commit *"

abbrev pub derived_commit : DerivedPattern
derived_commit = record {
  pattern = commit_pattern;
  method = by_default;
  binary = codes "git";
  first_positional = some (codes "commit");
  original_command = commit;
  token_count = 4;
  derived_at = 7;
}

abbrev pub commit_opts : DerivePatternOpts
commit_opts = record { command = commit; method = none; tool_name = none }

pub commit_derived : derive_pattern 7 commit_opts ≡ ok derived_commit
unfolding derive_pattern first_word later_words
commit_derived = refl

quoted_tokens :
    tokenize (codes "git tag -m 'my  tag'")
    ≡ codes "git" ∷ codes "tag" ∷ codes "-m" ∷ codes "my  tag" ∷ []
unfolding tokenize
quoted_tokens = refl

-- The flag `-C` hides that `status` is the subcommand.
flag_first :
    derive_pattern 7 (record commit_opts { command = codes "git -C dir status" })
    ≡ ok (record {
      pattern = codes "git dir *";
      method = by_default;
      binary = codes "git";
      first_positional = some (codes "dir");
      original_command = codes "git -C dir status";
      token_count = 4;
      derived_at = 7;
    })
unfolding derive_pattern first_word later_words
flag_first = refl

tokenize-join_example :
    tokenize (join (codes "git" ∷ codes "commit" ∷ [])) ≡ codes "git" ∷ codes "commit" ∷ []
unfolding is_special
tokenize-join_example = tokenize-join (codes "git" ∷ codes "commit" ∷ []) (refl, (refl, tt))

pattern_valid : validate_pattern commit_pattern ≡ []
unfolding validate_pattern first_word later_words
pattern_valid = refl

validate_pattern-Covers_example :
    (rule_matches commit_pattern commit ≡ true) ↔ Covers commit_pattern commit
validate_pattern-Covers_example = validate_pattern-Covers commit_pattern commit pattern_valid

pub commit_line : is_one_line (normalize_command commit) ≡ true
unfolding normalize_command is_line_end
commit_line = refl

derive_pattern-covers_own_example :
    rule_matches commit_pattern (normalize_command commit)
    ≡ covers_own by_default (tokenize (trim commit))
derive_pattern-covers_own_example =
    derive_pattern-covers_own 7 commit_opts derived_commit refl commit_derived commit_line

derive_pattern-positional_example :
    (rule_matches commit_pattern commit ≡ true) ↔ Extends (codes "git commit") commit
derive_pattern-positional_example =
    derive_pattern-positional 7 commit_opts derived_commit (codes "commit") commit refl refl
      commit_derived refl

abbrev tool_opts : DerivePatternOpts
tool_opts = record {
  command = codes "read_file";
  method = none;
  tool_name = some (codes "read_file");
}

abbrev derived_tool : DerivedPattern
derived_tool = record {
  pattern = codes "read_file *";
  method = by_default;
  binary = codes "read_file";
  first_positional = none;
  original_command = codes "read_file";
  token_count = 1;
  derived_at = 7;
}

tool_derived : derive_pattern 7 tool_opts ≡ ok derived_tool
unfolding derive_pattern first_word later_words
tool_derived = refl

derive_pattern-tool_example :
    (rule_matches (codes "read_file *") (codes "read_file") ≡ true)
    ↔ Extends (trim (codes "read_file")) (codes "read_file")
derive_pattern-tool_example =
    derive_pattern-tool 7 tool_opts (codes "read_file") derived_tool (codes "read_file") refl
      tool_derived

abbrev pub commit_rule : AutoPermit
commit_rule = record {
  pattern = commit_pattern;
  method = by_default;
  created_at_ms = 7;
  original_command = commit;
  intent_hint = none;
  created_by = some "telegram";
  created_at = none;
  derived_from = none;
}

abbrev commit_checker : FileAutoPermitChecker
commit_checker = record { rules = commit_rule ∷ []; cache = [] }

cache-IsCoherent : IsCoherent commit_checker.cache
unfolding new_checker
cache-IsCoherent = new_checker-IsCoherent (commit_rule ∷ [])

commit_matches : match_rules (commit_rule ∷ []) commit ≡ some commit_rule
unfolding match_rules first_word later_words
commit_matches = refl

match_command-match_rules_example :
    ((match_command commit commit_checker).0 ≡ match_rules (commit_rule ∷ []) commit)
    × IsCoherent (match_command commit commit_checker).1.cache
    × ((match_command commit commit_checker).1.rules ≡ commit_rule ∷ [])
match_command-match_rules_example = match_command-match_rules commit commit_checker cache-IsCoherent
