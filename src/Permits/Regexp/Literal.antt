-- ===== src/Permits/Regexp/Literal.antt =====
-- Escaped text as the source of a regular expression.
use clawthority.Base.{
  ℕ, ◌≡◌, refl, ap, ◌∙◌, inl, inr, Bool, true, false, [], ◌∷◌, ◌++◌, Option, some, Bool-cases,
  arith,
}
use clawthority.Permits.Words.{Text, codes}
use clawthority.Permits.Regexp.{
  Regexp, is_syntax, is_escaped, escape_regex, parse_body, new_regexp, then_literal,
  arguments_group,
}

abbrev pub literal_then : Text → Bool → Option Regexp
literal_then s arguments = some (record { literal = s; with_arguments = arguments })

-- The class of `escapeRegex` has every syntax character.
escaped_iff_syntax : (c : ℕ) → is_escaped c ≡ is_syntax c
unfolding is_escaped is_syntax
escaped_iff_syntax c = refl

parse_escaped :
    (c : ℕ) (s : Text)
    → is_syntax c ≡ true
    → parse_body false (b'\\' ∷ c ∷ s) ≡ then_literal c (parse_body false s)
unfolding parse_body is_syntax
parse_escaped c s h = rw (h, parse_body) refl

parse_plain :
    (c : ℕ) (s : Text)
    → is_syntax c ≡ false
    → parse_body false (c ∷ s) ≡ then_literal c (parse_body false s)
unfolding parse_body
parse_plain c s h = rw (h, parse_body) refl

parse_body-escape :
    (s rest : Text) (arguments : Bool)
    → parse_body false rest ≡ literal_then [] arguments
    → parse_body false (escape_regex s ++ rest) ≡ literal_then s arguments
unfolding escape_regex
parse_body-escape [] rest arguments h = h
parse_body-escape (c ∷ s) rest arguments h = elim (Bool-cases (is_escaped c)) [
  | inl e ↦
      let sy : is_syntax c ≡ true = ground (arith, escaped_iff_syntax c) in
      rw e (
        parse_escaped c (escape_regex s ++ rest) sy
        ∙ ap (then_literal c) (parse_body-escape s rest arguments h))
  | inr e ↦
      let sy : is_syntax c ≡ false = ground (arith, escaped_iff_syntax c) in
      rw e (
        parse_plain c (escape_regex s ++ rest) sy
        ∙ ap (then_literal c) (parse_body-escape s rest arguments h))
]

-- `new RegExp` reads an escaped text back as that text, whatever characters it has.
pub new_regexp-escape :
    (s : Text)
    → (new_regexp (b'^' ∷ (escape_regex s ++ codes "$")) ≡ literal_then s false)
      × (new_regexp (b'^' ∷ (escape_regex s ++ arguments_group)) ≡ literal_then s true)
unfolding new_regexp
new_regexp-escape s =
    (parse_body-escape s (codes "$") false end, parse_body-escape s arguments_group true group)
  where
    end : parse_body false (codes "$") ≡ literal_then [] false
    end = refl

    group : parse_body false arguments_group ≡ literal_then [] true
    group = refl

pub escape-append : (s t : Text) → escape_regex (s ++ t) ≡ escape_regex s ++ escape_regex t
unfolding escape_regex
escape-append [] t = refl
escape-append (c ∷ s) t = ground (arith, escape-append s t)

pub escape_nil : escape_regex [] ≡ []
unfolding escape_regex
escape_nil = refl

pub escape_space : (s : Text) → escape_regex (b' ' ∷ s) ≡ b' ' ∷ escape_regex s
unfolding escape_regex is_escaped
escape_space s = refl
