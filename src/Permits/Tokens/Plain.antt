-- ===== src/Permits/Tokens/Plain.antt =====
-- Words without quotes and spaces in `tokenize`.
use clawthority.Base.{
  ℕ, ◌≡◌, refl, ap, ◌∙◌, Bool, false, ◌||◌, List, [], ◌∷◌, ◌++◌, nat_eq, arith, any, All,
}
use clawthority.Permits.Words.{Text, join, spaced}
use clawthority.Permits.Tokens.{Scan, flush_into, scan_char, scan_all, tokenize}
use mathlib.Core.List.{append_assoc, append-nil}

-- A character that `tokenize` treats by itself.
unfoldable pub is_special : ℕ → Bool
is_special c = nat_eq c b'"' || (nat_eq c b'\'' || nat_eq c b' ')

-- A word with no such character, and with one character at least.
abbrev pub IsPlain : Text → Type 0
IsPlain [] = ⊥
IsPlain (c ∷ s) = any is_special (c ∷ s) ≡ false

-- The loop outside quotes.
abbrev outside : List Text → Text → Scan
outside tokens current = record {
  tokens = tokens;
  current = current;
  in_double = false;
  in_single = false;
}

scan_all-word :
    (tokens : List Text) (current w rest : Text)
    → any is_special w ≡ false
    → scan_all (outside tokens current) (w ++ rest) ≡ scan_all (outside tokens (current ++ w)) rest
unfolding scan_all scan_char is_special
scan_all-word tokens current [] rest h = rw append-nil refl
scan_all-word tokens current (c ∷ w) rest h =
    let here : scan_char (outside tokens current) c ≡ outside tokens (current ++ c ∷ []) =
      ground arith in
    ap (λ v. scan_all v (w ++ rest)) here
    ∙ scan_all-word tokens (current ++ c ∷ []) w rest (ground arith)
    ∙ ap (λ v. scan_all (outside tokens v) rest) (append_assoc current (c ∷ []) w)

abbrev finished : Scan → List Text
finished s = (flush_into s.tokens s.current s).tokens

scan_all-spaced :
    (tokens : List Text) (c : ℕ) (current : Text) (ts : List Text)
    → All IsPlain ts
    → finished (scan_all (outside tokens (c ∷ current)) (spaced ts)) ≡ tokens ++ (c ∷ current) ∷ ts
unfolding scan_all scan_char spaced flush_into
scan_all-spaced tokens c current [] h = refl
scan_all-spaced tokens c current ([] ∷ ts) h = absurd h.0
scan_all-spaced tokens c current ((d ∷ w) ∷ ts) h =
    ap finished (scan_all-word (tokens ++ (c ∷ current) ∷ []) [] (d ∷ w) (spaced ts) h.0)
    ∙ scan_all-spaced (tokens ++ (c ∷ current) ∷ []) d w ts h.1
    ∙ append_assoc tokens ((c ∷ current) ∷ []) ((d ∷ w) ∷ ts)

-- Words without quotes and spaces, none of them empty, are read back from their joined text, in
-- order.
pub tokenize-join : (ts : List Text) → All IsPlain ts → tokenize (join ts) ≡ ts
unfolding tokenize join scan_all flush_into
tokenize-join [] h = refl
tokenize-join ([] ∷ ts) h = absurd h.0
tokenize-join ((c ∷ w) ∷ ts) h =
    ap finished (scan_all-word [] [] (c ∷ w) (spaced ts) h.0) ∙ scan_all-spaced [] c w ts h.1
