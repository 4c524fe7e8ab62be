-- ===== src/Permits/Tokens/Parts.antt =====
-- The tokens of any command.
use clawthority.Base.{not, ◌&&◌, List, [], ◌∷◌, All, All-append, ℕ, nat_eq, Bool-cases, inl, inr}
use clawthority.Permits.Words.{Text}
use clawthority.Permits.Tokens.{Scan, flush_into, scan_char, scan_all, tokenize, scan_start}

-- A text of one character or more.
abbrev pub IsFilled : Text → Type 0
IsFilled [] = ⊥
IsFilled (_ ∷ _) = Unit

flush_into-IsFilled :
    (tokens : List Text) (current : Text) (s : Scan)
    → All IsFilled tokens
    → All IsFilled s.tokens
    → All IsFilled (flush_into tokens current s).tokens
unfolding flush_into
flush_into-IsFilled tokens [] s h k = k
flush_into-IsFilled tokens (c ∷ cs) s h k = All-append IsFilled tokens ((c ∷ cs) ∷ []) h (tt, tt)

scan_char-IsFilled :
    (s : Scan) (ch : ℕ) → All IsFilled s.tokens → All IsFilled (scan_char s ch).tokens
unfolding scan_char
scan_char-IsFilled s ch h = elim (Bool-cases (nat_eq ch b'"' && not s.in_single)) [
  | inl e ↦ rw e h
  | inr e ↦ elim (Bool-cases (nat_eq ch b'\'' && not s.in_double)) [
    | inl f ↦ rw e (rw f h)
    | inr f ↦ elim (Bool-cases (nat_eq ch b' ' && (not s.in_double && not s.in_single))) [
      | inl g ↦ rw e (rw f (rw g (flush_into-IsFilled s.tokens s.current s h h)))
      | inr g ↦ rw e (rw f (rw g h))
    ]
  ]
]

scan_all-IsFilled :
    (s : Scan) (command : Text) → All IsFilled s.tokens → All IsFilled (scan_all s command).tokens
unfolding scan_all
scan_all-IsFilled s [] h = h
scan_all-IsFilled s (ch ∷ command) h =
    scan_all-IsFilled (scan_char s ch) command (scan_char-IsFilled s ch h)

pub tokenize-IsFilled : (command : Text) → All IsFilled (tokenize command)
unfolding tokenize
tokenize-IsFilled command =
    let s = scan_all scan_start command in
    let h : All IsFilled s.tokens = scan_all-IsFilled scan_start command tt in
    flush_into-IsFilled s.tokens s.current s h h
