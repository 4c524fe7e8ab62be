-- ===== src/Permits/Pattern/Compile.antt =====
-- What `compilePatternRegex` makes of the two kinds of patterns.
use clawthority.Base.{◌≡◌, refl, sym, ap, ◌∙◌, true, false, List, [], ◌∷◌, ◌++◌, map}
use clawthority.Permits.Words.{
  Text, spaced, join, split, first_word, later_words, join-split, split-append,
}
use clawthority.Permits.Regexp.{escape_regex}
use clawthority.Permits.Regexp.Literal.{
  literal_then, new_regexp-escape, escape-append, escape_space, escape_nil,
}
use clawthority.Permits.Pattern.{wildcard, ends_with_wildcard, drop_last, expand, with_wildcard}

spaced-escape : (ts : List Text) → spaced (map escape_regex ts) ≡ escape_regex (spaced ts)
unfolding spaced
spaced-escape [] = sym escape_nil
spaced-escape (t ∷ ts) =
    ap (λ v. b' ' ∷ (escape_regex t ++ v)) (spaced-escape ts)
    ∙ ap (λ v. b' ' ∷ v) (sym (escape-append t (spaced ts)))
    ∙ sym (escape_space (t ++ spaced ts))

join-escape : (ts : List Text) → join (map escape_regex ts) ≡ escape_regex (join ts)
unfolding join
join-escape [] = sym escape_nil
join-escape (t ∷ ts) =
    ap (λ v. escape_regex t ++ v) (spaced-escape ts) ∙ sym (escape-append t (spaced ts))

-- The words of a wildcard pattern.
last_wildcard :
    (t : Text) (ts : List Text)
    → (ends_with_wildcard ((t ∷ ts) ++ wildcard ∷ []) ≡ true)
      × (drop_last ((t ∷ ts) ++ wildcard ∷ []) ≡ t ∷ ts)
unfolding ends_with_wildcard drop_last
last_wildcard t [] = (refl, refl)
last_wildcard t (u ∷ ts) = let rest = last_wildcard u ts in (rest.0, ap (λ v. t ∷ v) rest.1)

pub split-with_wildcard : (q : Text) → split (with_wildcard q) ≡ split q ++ wildcard ∷ []
unfolding first_word later_words
split-with_wildcard q = split-append q wildcard

pub expand-wildcard : (q : Text) → expand (split (with_wildcard q)) ≡ literal_then q true
unfolding expand
expand-wildcard q =
    let words = last_wildcard (first_word q) (later_words q) in
    rw (split-with_wildcard q) (
      rw words.0
        (rw words.1 (rw (join-escape (split q)) (rw (join-split q) (new_regexp-escape q).1))))

pub expand-exact :
    (p : Text) → ends_with_wildcard (split p) ≡ false → expand (split p) ≡ literal_then p false
unfolding expand
expand-exact p h = rw h (rw (join-escape (split p)) (rw (join-split p) (new_regexp-escape p).0))
