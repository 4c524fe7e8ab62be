-- ===== src/Permits/Covers/Scope.antt =====
-- Which commands a derived pattern covers.
use clawthority.Base.{
  ℕ, ◌≡◌, ◌↔◌, sym, ap, ◌∙◌, true, not, List, [], ◌∷◌, ◌++◌, none, some, or_else,
}
use clawthority.Base.Results.{ok}
use clawthority.Permits.Words.{Text}
use clawthority.Permits.Tokens.{trim, tokenize}
use clawthority.Permits.Regexp.{test}
use clawthority.Permits.Pattern.{
  is_empty, is_valid_token, has_shell_metachar, validate_pattern, with_wildcard, by_default,
  DerivePatternOpts, DerivedPattern, find_positional, default_pattern, pattern_of, derive_tool,
  derive_tokens, derive_pattern,
}
use clawthority.Permits.Covers.{Extends, rule_matches, test-Extends}
use clawthority.Permits.Covers.Valid.{matches_wildcard}
use clawthority.Permits.Covers.Own.{validated-ok, refuse_if-ok}

-- A valid pattern that ends in ` *`.
wildcard-scope :
    (p q t : Text)
    → p ≡ with_wildcard q
    → validate_pattern p ≡ []
    → (rule_matches p t ≡ true) ↔ Extends q t
wildcard-scope p q t e v =
    let m : rule_matches p t ≡ test (record { literal = q; with_arguments = true }) t =
      ap (λ x. rule_matches x t) e ∙ matches_wildcard q t (ap validate_pattern (sym e) ∙ v) in
    ((λ h. (test-Extends q t).0 (sym m ∙ h)), (λ x. m ∙ (test-Extends q t).1 x))

derive_tool-pattern :
    (now : ℕ) (command name : Text) (d : DerivedPattern)
    → derive_tool now command name ≡ ok d
    → (d.pattern ≡ with_wildcard name) × (validate_pattern d.pattern ≡ [])
unfolding derive_tool
derive_tool-pattern now command name d h =
    let checked = refuse_if-ok (is_empty name) _ d h in
    let one_token = refuse_if-ok (not (is_valid_token name)) _ d checked in
    let (e, v) = validated-ok _ _ d (refuse_if-ok (has_shell_metachar name) _ d one_token) in
    let p : with_wildcard name ≡ d.pattern = ap (λ x. x.pattern) e in
    (sym p, ap validate_pattern (sym p) ∙ v)

-- A pattern derived for a tool covers the tool's trimmed name, alone or followed by a space and by
-- characters that are no line terminators, and nothing else.
pub derive_pattern-tool :
    (now : ℕ) (opts : DerivePatternOpts) (name : Text) (d : DerivedPattern) (t : Text)
    → opts.tool_name ≡ some name
    → derive_pattern now opts ≡ ok d
    → (rule_matches d.pattern t ≡ true) ↔ Extends (trim name) t
unfolding derive_pattern
derive_pattern-tool now opts name d t tool h =
    let (e, v) = derive_tool-pattern now opts.command (trim name) d (rw tool at h) in
    wildcard-scope d.pattern (trim name) t e v

derive_tokens-positional :
    (now : ℕ) (command : Text) (tokens : List Text) (d : DerivedPattern) (p : Text)
    → derive_tokens now by_default command tokens ≡ ok d
    → d.first_positional ≡ some p
    → (d.pattern ≡ with_wildcard (d.binary ++ b' ' ∷ p)) × (validate_pattern d.pattern ≡ [])
unfolding derive_tokens pattern_of default_pattern find_positional
derive_tokens-positional now command [] d p h f = cc
derive_tokens-positional now command (binary ∷ []) d p h f =
    let (e, v) = validated-ok _ _ d h in
    let none_there : d.first_positional ≡ none = ap (λ x. x.first_positional) (sym e) in cc
derive_tokens-positional now command (binary ∷ t ∷ rest) d p h f =
    let (e, v) = validated-ok _ _ d h in
    let found : find_positional (t ∷ rest) ≡ some p = ap (λ x. x.first_positional) e ∙ f in
    let pattern : d.pattern ≡ default_pattern binary (t ∷ rest) (find_positional (t ∷ rest)) =
      ap (λ x. x.pattern) (sym e) in
    let b : binary ≡ d.binary = ap (λ x. x.binary) e in
    (
      pattern
          ∙ ap (default_pattern binary (t ∷ rest)) found
          ∙ ap (λ x. with_wildcard (x ++ b' ' ∷ p)) b,
      ap validate_pattern pattern ∙ v,
    )

-- A default pattern derived from a command with a positional argument covers the binary and that
-- argument, alone or followed by a space and by characters that are no line terminators, and nothing
-- else.
pub derive_pattern-positional :
    (now : ℕ) (opts : DerivePatternOpts) (d : DerivedPattern) (p t : Text)
    → opts.tool_name ≡ none
    → or_else opts.method by_default ≡ by_default
    → derive_pattern now opts ≡ ok d
    → d.first_positional ≡ some p
    → (rule_matches d.pattern t ≡ true) ↔ Extends (d.binary ++ b' ' ∷ p) t
unfolding derive_pattern
derive_pattern-positional now opts d p t no_tool method h f =
    let tokens = tokenize (trim opts.command) in
    let by_method = derive_tokens now (or_else opts.method by_default) opts.command tokens in
    let h' = refuse_if-ok (has_shell_metachar (trim opts.command)) by_method d (rw no_tool at h) in
    let (e, v) = derive_tokens-positional now opts.command tokens d p (rw method at h') f in
    wildcard-scope d.pattern (d.binary ++ b' ' ∷ p) t e v
