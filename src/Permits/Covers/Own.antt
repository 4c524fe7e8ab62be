-- ===== src/Permits/Covers/Own.antt =====
-- A derived pattern at the command that it was derived from.
use clawthority.Base.{
  ℕ, ◌≡◌, ◌≢◌, refl, sym, ap, ◌∙◌, inl, inr, Bool, true, false, List, [], ◌∷◌, ◌++◌, none, some,
  if◌then◌else◌, Bool-cases, arith, All, or_else, eq_of_some, Option-cases, String,
}
use clawthority.Base.Results.{Result, ok, ok_injective}
use clawthority.Permits.Words.{Text, spaced, join}
use clawthority.Permits.Tokens.{
  flush_into, scan_all, tokenize, trim, trim_start, trim_end, normalize_command,
}
use clawthority.Permits.Tokens.Parts.{IsFilled, tokenize-IsFilled}
use clawthority.Permits.Regexp.{test}
use clawthority.Permits.Pattern.{
  is_empty, is_flag, validate_pattern, with_wildcard, DerivationMethod, by_default, exact,
  DerivePatternOpts, DerivedPattern, find_positional, default_pattern, pattern_of, derive_tokens,
  derive_pattern, validated, refuse_if,
}
use clawthority.Permits.Covers.{is_one_line, Extends, rule_matches, test-Extends}
use clawthority.Permits.Covers.Valid.{matches_wildcard, matches_itself}
use mathlib.Core.List.{append_assoc, append-nil, append_cancel_left, tail-eq_of_cons-eq}
use mathlib.Core.Path.{subst}

-- What is known of a derivation that returned.
abbrev pub Derived : DerivationMethod → List Text → DerivedPattern → Type 0
Derived method [] d = ⊥
Derived method (binary ∷ rest) d =
    (d.pattern ≡ pattern_of method binary rest) × (validate_pattern d.pattern ≡ [])

pub validated-ok :
    (errors : List String) (x d : DerivedPattern)
    → validated errors x ≡ ok d
    → (x ≡ d) × (errors ≡ [])
validated-ok [] x d h = (ok_injective h, refl)
validated-ok (e ∷ es) x d h = cc

pub refuse_if-ok :
    (b : Bool) (r : Result DerivedPattern) (d : DerivedPattern) → refuse_if b r ≡ ok d → r ≡ ok d
refuse_if-ok b r d h = ground arith

derive_tokens-Derived :
    (now : ℕ) (method : DerivationMethod) (command : Text) (tokens : List Text) (d : DerivedPattern)
    → derive_tokens now method command tokens ≡ ok d
    → Derived method tokens d
unfolding derive_tokens
derive_tokens-Derived now method command [] d h = cc
derive_tokens-Derived now method command (binary ∷ rest) d h =
    let (e, v) = validated-ok _ _ d h in
    let p : pattern_of method binary rest ≡ d.pattern = ap (λ x. x.pattern) e in
    (sym p, ap validate_pattern (sym p) ∙ v)

pub derive_pattern-Derived :
    (now : ℕ) (opts : DerivePatternOpts) (d : DerivedPattern)
    → opts.tool_name ≡ none
    → derive_pattern now opts ≡ ok d
    → Derived (or_else opts.method by_default) (tokenize (trim opts.command)) d
unfolding derive_pattern
derive_pattern-Derived now opts d no_tool h =
    let h' = rw no_tool at h in derive_tokens-Derived now _ _ _ d (refuse_if-ok _ _ d h')

-- Whether a pattern of this method covers the command of these tokens: a default pattern does not
-- where the second token is a flag and a later one is positional.
unfoldable pub covers_own : DerivationMethod → List Text → Bool
unfolding find_positional
covers_own exact tokens = true
covers_own by_default [] = true
covers_own by_default (binary ∷ []) = true
covers_own by_default (binary ∷ t ∷ rest) =
    if is_flag t then elim (find_positional rest) [ none ↦ true | some p ↦ false ] else true

one_line_tail : (s t : Text) → is_one_line (s ++ t) ≡ true → is_one_line t ≡ true
one_line_tail [] t h = h
one_line_tail (c ∷ s) t h = one_line_tail s t (ground arith)

filled-append : (t s : Text) → IsFilled t → is_empty (t ++ s) ≡ false
filled-append [] s h = absurd h
filled-append (c ∷ t) s h = refl

find_positional-IsFilled :
    (ts : List Text) (p : Text)
    → All IsFilled ts
    → find_positional ts ≡ some p
    → IsFilled p × (is_flag p ≡ false)
unfolding find_positional
find_positional-IsFilled [] p h e = cc
find_positional-IsFilled (t ∷ ts) p h e = elim (Bool-cases (is_flag t)) [
  | inl f ↦ find_positional-IsFilled ts p h.1 (rw f at e)
  | inr f ↦
      let here : t ≡ p = eq_of_some (rw f at e) in
      (subst IsFilled here h.0, ap is_flag (sym here) ∙ f)
]

flag_apart : (f p s r : Text) → is_flag f ≡ true → IsFilled p → is_flag p ≡ false → f ++ s ≢ p ++ r
flag_apart [] p s r h k n e = ground arith
flag_apart (c ∷ f) [] s r h k n e = absurd k
flag_apart (c ∷ f) (d ∷ p) s r h k n e = let same_head : c ≡ d = cc in ground arith

module _ (binary t : Text) (rest : List Text) (filled : All IsFilled (t ∷ rest)) where
  -- The command, as it is matched.
  abbrev command_text : Text
  command_text = join (binary ∷ t ∷ rest)

  own_arguments : is_one_line command_text ≡ true → Extends binary command_text
  unfolding join spaced
  own_arguments line = inr (
    t ++ spaced rest,
    refl,
    (
      filled-append t (spaced rest) filled.0,
      one_line_tail (binary ++ b' ' ∷ []) (t ++ spaced rest)
          (ap is_one_line (append_assoc binary (b' ' ∷ []) (t ++ spaced rest)) ∙ line),
    ),
  )

own_positional :
    (binary t : Text) (rest : List Text)
    → All IsFilled rest
    → is_one_line (join (binary ∷ t ∷ rest)) ≡ true
    → Extends (binary ++ b' ' ∷ t) (join (binary ∷ t ∷ rest))
unfolding join spaced
own_positional binary t [] filled line = inl (ap (λ v. binary ++ b' ' ∷ v) (append-nil t))
own_positional binary t (u ∷ us) filled line =
    let a = u ++ spaced us in
    let e : binary ++ b' ' ∷ (t ++ b' ' ∷ a) ≡ (binary ++ b' ' ∷ t) ++ b' ' ∷ a =
      sym (append_assoc binary (b' ' ∷ t) (b' ' ∷ a)) in
    inr (
      a,
      e,
      (
        filled-append u (spaced us) filled.0,
        one_line_tail (b' ' ∷ []) a
            (one_line_tail (binary ++ b' ' ∷ t) (b' ' ∷ a) (ap is_one_line (sym e) ∙ line)),
      ),
    )

own_flag :
    (binary t p : Text) (rest : List Text)
    → is_flag t ≡ true
    → IsFilled p × (is_flag p ≡ false)
    → ¬ Extends (binary ++ b' ' ∷ p) (join (binary ∷ t ∷ rest))
unfolding join spaced
own_flag binary t p rest f (k, n) (inl e) =
    let tails : b' ' ∷ (t ++ spaced rest) ≡ b' ' ∷ p = append_cancel_left binary _ _ e in
    flag_apart t p (spaced rest) [] f k n (tail-eq_of_cons-eq tails ∙ sym (append-nil p))
own_flag binary t p rest f (k, n) (inr (a, e, args)) =
    let tails : b' ' ∷ (t ++ spaced rest) ≡ b' ' ∷ (p ++ b' ' ∷ a) =
      append_cancel_left binary _ _ (e ∙ append_assoc binary (b' ' ∷ p) (b' ' ∷ a)) in
    flag_apart t p (spaced rest) (b' ' ∷ a) f k n (tail-eq_of_cons-eq tails)

-- A valid pattern `q *` at a text that does, or does not, extend `q`.
module _ (p q t : Text) (e : p ≡ with_wildcard q) (valid : validate_pattern p ≡ []) where
  matches-test : rule_matches p t ≡ test (record { literal = q; with_arguments = true }) t
  matches-test =
      ap (λ v. rule_matches v t) e ∙ matches_wildcard q t (ap validate_pattern (sym e) ∙ valid)

  matches_of : Extends q t → rule_matches p t ≡ true
  matches_of h = matches-test ∙ (test-Extends q t).1 h

  matches_not : ¬ Extends q t → rule_matches p t ≡ false
  matches_not h = elim (Bool-cases (test (record { literal = q; with_arguments = true }) t)) [
    | inl holds ↦ absurd (h ((test-Extends q t).0 holds))
    | inr fails ↦ matches-test ∙ fails
  ]

module _ (binary t : Text) (rest : List Text) where
  default_positional :
      is_flag t ≡ false
      → (default_pattern binary (t ∷ rest) (find_positional (t ∷ rest))
          ≡ with_wildcard (binary ++ b' ' ∷ t))
        × (covers_own by_default (binary ∷ t ∷ rest) ≡ true)
  unfolding default_pattern find_positional covers_own
  default_positional f = (rw f refl, rw f refl)

  default_flags :
      is_flag t ≡ true
      → find_positional rest ≡ none
      → (default_pattern binary (t ∷ rest) (find_positional (t ∷ rest)) ≡ with_wildcard binary)
        × (covers_own by_default (binary ∷ t ∷ rest) ≡ true)
  unfolding default_pattern find_positional covers_own
  default_flags f e = (rw f (rw e refl), rw f (rw e refl))

  default_skipping :
      (p : Text)
      → is_flag t ≡ true
      → find_positional rest ≡ some p
      → (default_pattern binary (t ∷ rest) (find_positional (t ∷ rest))
          ≡ with_wildcard (binary ++ b' ' ∷ p))
        × (covers_own by_default (binary ∷ t ∷ rest) ≡ false)
  unfolding default_pattern find_positional covers_own
  default_skipping p f e = (rw f (rw e refl), rw f (rw e refl))

own_pattern :
    (method : DerivationMethod) (binary : Text) (rest : List Text)
    → All IsFilled rest
    → is_one_line (join (binary ∷ rest)) ≡ true
    → validate_pattern (pattern_of method binary rest) ≡ []
    → rule_matches (pattern_of method binary rest) (join (binary ∷ rest))
      ≡ covers_own method (binary ∷ rest)
unfolding pattern_of covers_own default_pattern join spaced
own_pattern exact binary rest filled line valid = matches_itself (join (binary ∷ rest)) valid
own_pattern by_default binary [] filled line valid =
    ap (rule_matches binary) (append-nil binary) ∙ matches_itself binary valid
own_pattern by_default binary (t ∷ rest) filled line valid = elim (Bool-cases (is_flag t)) [
  | inr f ↦
      let (e, c) = default_positional binary t rest f in
      matches_of _ _ _ e valid (own_positional binary t rest filled.1 line) ∙ sym c
  | inl f ↦ elim (Option-cases (find_positional rest)) [
    | inl n ↦
        let (e, c) = default_flags binary t rest f n in
        matches_of _ _ _ e valid (own_arguments binary t rest filled line) ∙ sym c
    | inr (p, s) ↦
        let (e, c) = default_skipping binary t rest p f s in
        let k = find_positional-IsFilled rest p filled.1 s in
        matches_not _ _ _ e valid (own_flag binary t p rest f k) ∙ sym c
  ]
]

Derived-covers_own :
    (method : DerivationMethod) (tokens : List Text) (d : DerivedPattern)
    → All IsFilled tokens
    → is_one_line (join tokens) ≡ true
    → Derived method tokens d
    → rule_matches d.pattern (join tokens) ≡ covers_own method tokens
Derived-covers_own method [] d filled line h = absurd h
Derived-covers_own method (binary ∷ rest) d filled line (e, valid) =
    ap (λ v. rule_matches v (join (binary ∷ rest))) e
    ∙ own_pattern method binary rest filled.1 line (ap validate_pattern (sym e) ∙ valid)

-- A pattern derived from a command whose normalised text has no line terminator covers that text,
-- except where the method is the default one, the second token is a flag and a later token is
-- positional; there it does not cover it.
pub derive_pattern-covers_own :
    (now : ℕ) (opts : DerivePatternOpts) (d : DerivedPattern)
    → opts.tool_name ≡ none
    → derive_pattern now opts ≡ ok d
    → is_one_line (normalize_command opts.command) ≡ true
    → rule_matches d.pattern (normalize_command opts.command)
      ≡ covers_own (or_else opts.method by_default) (tokenize (trim opts.command))
unfolding normalize_command
derive_pattern-covers_own now opts d no_tool h line =
    let tokens = tokenize (trim opts.command) in
    Derived-covers_own (or_else opts.method by_default) tokens d
      (tokenize-IsFilled (trim opts.command)) line (derive_pattern-Derived now opts d no_tool h)

filled_join :
    (tokens : List Text) (method : DerivationMethod) (d : DerivedPattern)
    → All IsFilled tokens
    → Derived method tokens d
    → is_empty (join tokens) ≡ false
unfolding join
filled_join [] method d filled h = absurd h
filled_join (binary ∷ rest) method d filled h = filled-append binary (spaced rest) filled.0

-- A command that a pattern is derived from has a token.
pub derive_pattern-filled :
    (now : ℕ) (opts : DerivePatternOpts) (d : DerivedPattern)
    → opts.tool_name ≡ none
    → derive_pattern now opts ≡ ok d
    → is_empty (normalize_command opts.command) ≡ false
unfolding normalize_command
derive_pattern-filled now opts d no_tool h =
    filled_join (tokenize (trim opts.command)) (or_else opts.method by_default) d
      (tokenize-IsFilled (trim opts.command)) (derive_pattern-Derived now opts d no_tool h)

pub normalize-filled :
    (command : Text) → is_empty (normalize_command command) ≡ false → is_empty command ≡ false
unfolding normalize_command trim trim_start trim_end tokenize scan_all flush_into join
normalize-filled [] h = ground arith
normalize-filled (c ∷ command) h = refl
