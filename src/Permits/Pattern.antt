-- ===== src/Permits/Pattern.antt =====
-- src/auto-permits/pattern-derivation.ts: `validatePattern` and `derivePattern`; and
-- `compilePatternRegex` of matcher.ts.
pub mod Compile
use clawthority.Base.{
  ℕ, String, Bool, true, false, ◌&&◌, ◌||◌, not, List, [], ◌∷◌, ◌++◌, Option, none, some, nat_eq,
  all, any, map, if◌then◌else◌, ltb, length, or_else,
}
use clawthority.Base.Results.{Result, ok, threw, ◌>>=◌}
use clawthority.Permits.Words.{Text, same, codes, split, join, utf16_length}
use clawthority.Permits.Tokens.{tokenize, trim, is_white}
use clawthority.Permits.Regexp.{Regexp, escape_regex, new_regexp, arguments_group}

abbrev pub wildcard : Text
wildcard = b'*' ∷ []

abbrev pub is_empty : Text → Bool
is_empty [] = true
is_empty (_ ∷ _) = false

-- `tokens[0] === ''`
abbrev pub starts_empty : List Text → Bool
starts_empty [] = true
starts_empty (t ∷ ts) = is_empty t

-- `tokens[tokens.length - 1] === '*'`
unfoldable pub ends_with_wildcard : List Text → Bool
ends_with_wildcard [] = false
ends_with_wildcard (t ∷ []) = same t wildcard
ends_with_wildcard (t ∷ u ∷ ts) = ends_with_wildcard (u ∷ ts)

-- `tokens.slice(0, -1)`
unfoldable pub drop_last : List Text → List Text
drop_last [] = []
drop_last (t ∷ []) = []
drop_last (t ∷ u ∷ ts) = t ∷ drop_last (u ∷ ts)

-- The expression of the tokens of a pattern, as the matcher and the validation both build it.
unfoldable pub expand : List Text → Option Regexp
unfolding ends_with_wildcard drop_last escape_regex join new_regexp
expand tokens =
    if ends_with_wildcard tokens
    then new_regexp (b'^' ∷ (join (map escape_regex (drop_last tokens)) ++ arguments_group))
    else new_regexp (b'^' ∷ (join (map escape_regex tokens) ++ codes "$"))

-- `none` is `null`, also where the constructor throws.
unfoldable pub compile_pattern_regex : Text → Option Regexp
unfolding expand
compile_pattern_regex [] = none
compile_pattern_regex (c ∷ p) =
    let tokens = split (c ∷ p) in if starts_empty tokens then none else expand tokens

abbrev pub max_pattern_length : ℕ
max_pattern_length = 200

-- `VALID_TOKEN_RE`
unfoldable pub is_valid_token : Text → Bool
unfolding is_white
is_valid_token t = not (is_empty t) && all (λ c. not (is_white c || nat_eq c b'*')) t

-- `SHELL_METACHAR_RE`
unfoldable pub has_shell_metachar : Text → Bool
has_shell_metachar = any (λ c.
    nat_eq c b'|'
    || (nat_eq c b';'
        || (nat_eq c b'&'
            || (nat_eq c b'>'
                || (nat_eq c b'<'
                    || (nat_eq c b'`' || (nat_eq c b'$' || (nat_eq c 10 || nat_eq c 13))))))))

-- `tokens.indexOf('*')` is there, and is not the last index.
unfoldable pub has_inner_wildcard : List Text → Bool
has_inner_wildcard [] = false
has_inner_wildcard (t ∷ []) = false
has_inner_wildcard (t ∷ u ∷ ts) = same t wildcard || has_inner_wildcard (u ∷ ts)

abbrev report : Bool → String → List String → List String
report wrong message errors = if wrong then message ∷ errors else errors

abbrev pub first_token : List Text → Text
first_token [] = []
first_token (t ∷ ts) = t

unfoldable pub token_errors : Text → List String
unfolding trim is_valid_token has_inner_wildcard
token_errors pattern =
    let tokens = split pattern in
    report (not (same pattern (trim pattern)))
      "Pattern must not have leading or trailing whitespace"
      (report (ltb max_pattern_length (utf16_length pattern))
        "Pattern must not exceed 200 characters"
        (report (any is_empty tokens) "Pattern must not contain consecutive spaces" (
          report (not (is_valid_token (first_token tokens)))
            "Binary (first token) must be a non-empty string without spaces or wildcards"
            (report (has_inner_wildcard tokens) "Wildcard (*) must only appear as the last token"
              []))))

-- The errors of the tokens, or else the compilation's.
abbrev or_compilation : List String → Option Regexp → List String
or_compilation [] none = "Pattern does not compile to a safe regular expression" ∷ []
or_compilation [] (some r) = []
or_compilation (e ∷ es) r = e ∷ es

-- The `errors` of `validatePattern`; `valid` says that there are none.
unfoldable pub validate_pattern : Text → List String
unfolding token_errors trim expand
validate_pattern pattern =
    if is_empty (trim pattern)
    then "Pattern must not be empty" ∷ []
    else or_compilation (token_errors pattern) (expand (split pattern))

pub data DerivationMethod : Type 0 where
  by_default exact : DerivationMethod

pub record DerivePatternOpts : Type 0 where
  pub command : Text
  pub method : Option DerivationMethod
  pub tool_name : Option Text

pub record DerivedPattern : Type 0 where
  pub pattern : Text
  pub method : DerivationMethod
  pub binary : Text
  pub first_positional : Option Text
  pub original_command : Text
  pub token_count : ℕ
  pub derived_at : ℕ

-- `tok.startsWith('-')`
abbrev pub is_flag : Text → Bool
is_flag [] = false
is_flag (c ∷ t) = nat_eq c b'-'

-- The first token after the binary that is no flag.
unfoldable pub find_positional : List Text → Option Text
find_positional [] = none
find_positional (t ∷ ts) = let rest = find_positional ts in if is_flag t then rest else some t

-- `${t} *`
abbrev pub with_wildcard : Text → Text
with_wildcard t = t ++ b' ' ∷ wildcard

unfoldable pub default_pattern : Text → List Text → Option Text → Text
default_pattern binary [] positional = binary
default_pattern binary (t ∷ ts) (some p) = with_wildcard (binary ++ b' ' ∷ p)
default_pattern binary (t ∷ ts) none = with_wildcard binary

-- The pattern of the tokens `binary ∷ rest`.
unfoldable pub pattern_of : DerivationMethod → Text → List Text → Text
unfolding default_pattern find_positional join
pattern_of by_default binary rest = default_pattern binary rest (find_positional rest)
pattern_of exact binary rest = join (binary ∷ rest)

-- `if (!validation.valid) throw`
abbrev pub validated : List String → DerivedPattern → Result DerivedPattern
validated [] d = ok d
validated (e ∷ es) d = threw

abbrev pub refuse_if : Bool → Result DerivedPattern → Result DerivedPattern
refuse_if wrong r = if wrong then threw else r

module _ (now : ℕ) where
  unfoldable pub derive_tool : Text → Text → Result DerivedPattern
  unfolding validate_pattern is_valid_token has_shell_metachar
  derive_tool command tool_name = refuse_if (is_empty tool_name) (
      refuse_if (not (is_valid_token tool_name)) (
        refuse_if (has_shell_metachar tool_name) (
          validated (validate_pattern (with_wildcard tool_name)) (record {
            pattern = with_wildcard tool_name;
            method = by_default;
            binary = tool_name;
            first_positional = none;
            original_command = command;
            token_count = 1;
            derived_at = now;
          }))))

  unfoldable pub derive_tokens : DerivationMethod → Text → List Text → Result DerivedPattern
  unfolding validate_pattern pattern_of find_positional
  derive_tokens method command [] = threw
  derive_tokens method command (binary ∷ rest) =
      validated (validate_pattern (pattern_of method binary rest)) (record {
        pattern = pattern_of method binary rest;
        method = method;
        binary = binary;
        first_positional = find_positional rest;
        original_command = command;
        token_count = length (binary ∷ rest);
        derived_at = now;
      })

  unfoldable pub derive_pattern : DerivePatternOpts → Result DerivedPattern
  unfolding derive_tool derive_tokens trim tokenize has_shell_metachar
  derive_pattern opts = elim opts.tool_name [
    | some name ↦ derive_tool opts.command (trim name)
    | none ↦
        let command = trim opts.command in
        refuse_if (has_shell_metachar command)
          (derive_tokens (or_else opts.method by_default) opts.command (tokenize command))
  ]
