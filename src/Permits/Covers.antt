-- ===== src/Permits/Covers.antt =====
-- What the grammar of the patterns promises, apart from any regular expression.
pub mod Valid
pub mod Own
pub mod Scope
use clawthority.Base.{
  ℕ, ◌≡◌, ◌≢◌, ◌↔◌, refl, sym, ap, ◌∙◌, ◌⊎◌, inl, inr, Bool, true, false, ◌&&◌, ◌||◌, not, List, [],
  ◌∷◌, ◌++◌, Option, none, some, nat_eq, all, any, map, if◌then◌else◌, Bool-cases, arith,
  present_and, String,
}
use clawthority.Permits.Words.{
  Text, codes, same, same_sound, same_refl, spaced, join, split, first_word, later_words,
  join-split, split-append, spaced-append,
}
use clawthority.Permits.Tokens.{trim, is_white}
use clawthority.Permits.Regexp.{Regexp, is_line_end, has_arguments, behind, test}
use clawthority.Permits.Regexp.Literal.{literal_then}
use clawthority.Permits.Pattern.{
  wildcard, starts_empty, ends_with_wildcard, drop_last, expand, compile_pattern_regex,
  with_wildcard, validate_pattern, token_errors, is_valid_token, has_inner_wildcard, is_empty,
}
use clawthority.Permits.Pattern.Compile.{expand-wildcard, expand-exact, split-with_wildcard}
use mathlib.Core.List.{append_assoc, append-nil}

-- The pattern is `q *` for a text `q`.
abbrev pub IsWildcard : Text → Type 0
IsWildcard p = (q : Text) × (p ≡ with_wildcard q)

abbrev pub is_one_line : Text → Bool
is_one_line = all (λ c. not (is_line_end c))

-- One character or more, none of them a line terminator.
abbrev pub Arguments : Text → Type 0
Arguments a = (is_empty a ≡ false) × (is_one_line a ≡ true)

-- The text is `q`, or `q` with arguments behind a space.
abbrev pub Extends : Text → Text → Type 0
Extends q t = (t ≡ q) ⊎ ((a : Text) × (t ≡ q ++ b' ' ∷ a) × Arguments a)

abbrev pub Covers : Text → Text → Type 0
Covers p t = (¬ IsWildcard p × (t ≡ p)) ⊎ ((q : Text) × (p ≡ with_wildcard q) × Extends q t)

-- The test of `matchCommand` at one rule: `regex !== null && regex.test(text)`.
unfoldable pub rule_matches : Text → Text → Bool
unfolding compile_pattern_regex test
rule_matches p t = present_and (λ r. test r t) (compile_pattern_regex p)

has_arguments-Arguments :
    (t : Text) → has_arguments t ≡ true → (a : Text) × (t ≡ b' ' ∷ a) × Arguments a
unfolding has_arguments
has_arguments-Arguments [] h = ground arith
has_arguments-Arguments (c ∷ []) h = ground arith
has_arguments-Arguments (c ∷ d ∷ s) h =
    let space : c ≡ b' ' = ground arith in (d ∷ s, ap (λ v. v ∷ d ∷ s) space, (refl, ground arith))

Arguments-has_arguments : (a : Text) → Arguments a → has_arguments (b' ' ∷ a) ≡ true
unfolding has_arguments
Arguments-has_arguments [] (some_there, line) = ground arith
Arguments-has_arguments (d ∷ s) (some_there, line) = line

behind_sound :
    (l t : Text) → behind has_arguments l t ≡ true → (a : Text) × (t ≡ l ++ b' ' ∷ a) × Arguments a
behind_sound [] t h = has_arguments-Arguments t h
behind_sound (c ∷ l) [] h = ground arith
behind_sound (c ∷ l) (d ∷ t) h =
    let (a, e, args) = behind_sound l t (ground arith) in
    let heads : d ≡ c = ground arith in (a, cc, args)

behind-Arguments : (l a : Text) → Arguments a → behind has_arguments l (l ++ b' ' ∷ a) ≡ true
behind-Arguments [] a args = Arguments-has_arguments a args
behind-Arguments (c ∷ l) a args = ground (arith, behind-Arguments l a args)

test-exact : (l t : Text) → test (record { literal = l; with_arguments = false }) t ≡ same l t
unfolding test
test-exact l t = ground arith

pub test-Extends :
    (q t : Text) → (test (record { literal = q; with_arguments = true }) t ≡ true) ↔ Extends q t
unfolding test
test-Extends q t = (there, back)
  where
    there : test (record { literal = q; with_arguments = true }) t ≡ true → Extends q t
    there h = elim (Bool-cases (same q t)) [
      | inl e ↦ inl (sym (same_sound q t e))
      | inr e ↦ inr (behind_sound q t (ground arith))
    ]

    back : Extends q t → test (record { literal = q; with_arguments = true }) t ≡ true
    back (inl e) = rw e (rw (same_refl q) refl)
    back (inr (a, e, args)) = rw e (rw (behind-Arguments q a args) (ground arith))

-- The last word of a text that ends in a wildcard.
last_word :
    (t : Text) (ts : List Text)
    → ends_with_wildcard (t ∷ ts) ≡ true
    → ((t ≡ wildcard) × (ts ≡ [])) ⊎ ((us : List Text) × (ts ≡ us ++ wildcard ∷ []))
unfolding ends_with_wildcard
last_word t [] h = inl (same_sound t wildcard h, refl)
last_word t (u ∷ ts) h = elim (last_word u ts h) [
  | inl (e, none_left) ↦ inr ([], cc)
  | inr (us, e) ↦ inr (u ∷ us, ap (λ v. u ∷ v) e)
]

wildcard_view : (p : Text) → ends_with_wildcard (split p) ≡ true → (p ≡ wildcard) ⊎ IsWildcard p
unfolding join spaced
wildcard_view p h = elim (last_word (first_word p) (later_words p) h) [
  | inl (e, alone) ↦
      let words : split p ≡ wildcard ∷ [] = rw e (rw alone refl) in
      inl (sym (join-split p) ∙ ap join words)
  | inr (us, e) ↦
      let q = first_word p ++ spaced us in
      inr (
        q,
        sym (join-split p)
            ∙ ap (λ v. first_word p ++ spaced v) e
            ∙ ap (λ v. first_word p ++ v) (spaced-append us (wildcard ∷ []))
            ∙ sym (append_assoc (first_word p) (spaced us) (b' ' ∷ wildcard)),
      )
]

compile_split :
    (p : Text) → is_empty (first_word p) ≡ false → compile_pattern_regex p ≡ expand (split p)
unfolding compile_pattern_regex first_word
compile_split [] h = ground arith
compile_split (c ∷ p) h = rw h refl

wildcard-ends : (q : Text) → ends_with_wildcard (split (with_wildcard q)) ≡ true
unfolding ends_with_wildcard
wildcard-ends q = rw (split-with_wildcard q) (last_is_wildcard (first_word q) (later_words q))
  where
    last_is_wildcard :
        (t : Text) (ts : List Text) → ends_with_wildcard ((t ∷ ts) ++ wildcard ∷ []) ≡ true
    last_is_wildcard t [] = refl
    last_is_wildcard t (u ∷ ts) = last_is_wildcard u ts

module _ (p : Text) (first_there : is_empty (first_word p) ≡ false) (not_bare : p ≢ wildcard) where
  pub compile-cases :
      (IsWildcard p × (ends_with_wildcard (split p) ≡ true))
      ⊎ ((¬ IsWildcard p) × (compile_pattern_regex p ≡ literal_then p false))
  compile-cases = elim (Bool-cases (ends_with_wildcard (split p))) [
    | inl w ↦ elim (wildcard_view p w) [ inl bare ↦ absurd (not_bare bare) | inr q ↦ inl (q, w) ]
    | inr n ↦ inr ((λ w. false_ends n w), compile_split p first_there ∙ expand-exact p n)
  ]
    where
      false_ends : ends_with_wildcard (split p) ≡ false → IsWildcard p → ⊥
      false_ends n (q, e) =
          let yes_ends : ends_with_wildcard (split p) ≡ true = rw e (wildcard-ends q) in
          ground arith

  pub compile_wildcard :
      (q : Text) → p ≡ with_wildcard q → compile_pattern_regex p ≡ literal_then q true
  compile_wildcard q e =
      compile_split p first_there ∙ ap (λ v. expand (split v)) e ∙ expand-wildcard q

  pub rule_matches-Covers : (t : Text) → (rule_matches p t ≡ true) ↔ Covers p t
  unfolding rule_matches
  rule_matches-Covers t = (there, back)
    where
      there : rule_matches p t ≡ true → Covers p t
      there h = elim compile-cases [
        | inl ((q, e), w) ↦
            let tested : test (record { literal = q; with_arguments = true }) t ≡ true =
              rw (compile_wildcard q e) at h in
            inr (q, e, (test-Extends q t).0 tested)
        | inr (n, e) ↦
            let tested : test (record { literal = p; with_arguments = false }) t ≡ true =
              rw e at h in
            inl (n, sym (same_sound p t (sym (test-exact p t) ∙ tested)))
      ]

      back : Covers p t → rule_matches p t ≡ true
      back (inr (q, e, ext)) = rw (compile_wildcard q e) ((test-Extends q t).1 ext)
      back (inl (n, e)) = elim compile-cases [
        | inl (w, _) ↦ absurd (n w)
        | inr (_, c) ↦ rw e (rw c (test-exact p p ∙ same_refl p))
      ]
