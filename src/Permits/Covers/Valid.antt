-- ===== src/Permits/Covers/Valid.antt =====
-- `compilePatternRegex` at the patterns that `validatePattern` lets through.
use clawthority.Base.{◌≡◌, ◌≢◌, ◌↔◌, refl, ap, inl, inr, true, false, [], arith, present_and}
use clawthority.Permits.Words.{Text, first_word}
use clawthority.Permits.Regexp.{is_line_end, test}
use clawthority.Permits.Pattern.{
  wildcard, is_empty, is_valid_token, token_errors, validate_pattern, with_wildcard,
}
use clawthority.Permits.Covers.{
  Covers, rule_matches, rule_matches-Covers, compile_wildcard, compile-cases,
}

valid-first : (p : Text) → validate_pattern p ≡ [] → is_valid_token (first_word p) ≡ true
unfolding validate_pattern token_errors
valid-first p h = ground arith

first_there : (p : Text) → validate_pattern p ≡ [] → is_empty (first_word p) ≡ false
unfolding is_valid_token
first_there p h = let v = valid-first p h in ground arith

not_bare : (p : Text) → validate_pattern p ≡ [] → p ≢ wildcard
unfolding is_valid_token first_word
not_bare p h e =
    let v : is_valid_token (first_word wildcard) ≡ true = rw e at (valid-first p h) in ground arith

-- A pattern that passes the validation matches exactly the texts that its grammar covers: without a
-- final ` *` the pattern itself, and with one the text in front of it, alone or followed by a space
-- and by characters that are no line terminators.
pub validate_pattern-Covers :
    (p t : Text) → validate_pattern p ≡ [] → (rule_matches p t ≡ true) ↔ Covers p t
validate_pattern-Covers p t h = rule_matches-Covers p (first_there p h) (not_bare p h) t

pub matches_wildcard :
    (q t : Text)
    → validate_pattern (with_wildcard q) ≡ []
    → rule_matches (with_wildcard q) t ≡ test (record { literal = q; with_arguments = true }) t
unfolding rule_matches
matches_wildcard q t h =
    let p = with_wildcard q in
    ap (λ o. present_and (λ r. test r t) o)
      (compile_wildcard p (first_there p h) (not_bare p h) q refl)

pub matches_itself : (p : Text) → validate_pattern p ≡ [] → rule_matches p p ≡ true
unfolding is_line_end
matches_itself p h = elim (compile-cases p (first_there p h) (not_bare p h)) [
  | inl ((q, e), w) ↦
      (validate_pattern-Covers p p h).1 (inr (q, e, inr (wildcard, e, (refl, refl))))
  | inr (n, e) ↦ (validate_pattern-Covers p p h).1 (inl (n, refl))
]
