-- ===== src/Permits/Tokens.antt =====
-- `tokenize` of src/auto-permits/pattern-derivation.ts, which matcher.ts has a copy of, and
-- `normalizeCommand`.
pub mod Plain
pub mod Parts
use clawthority.Base.{
  ℕ, Bool, true, false, ◌&&◌, ◌||◌, not, List, [], ◌∷◌, ◌++◌, nat_eq, leb, if◌then◌else◌,
}
use clawthority.Permits.Words.{Text, join}

-- The variables of the loop.
pub record Scan : Type 0 where
  pub tokens : List Text
  pub current : Text
  pub in_double : Bool
  pub in_single : Bool

-- `if (current.length > 0) { tokens.push(current); current = ''; }`
unfoldable pub flush_into : List Text → Text → Scan → Scan
flush_into tokens [] s = s
flush_into tokens (c ∷ cs) s = record s { tokens = tokens ++ (c ∷ cs) ∷ []; current = [] }

-- The body of the loop, at one character.
unfoldable pub scan_char : Scan → ℕ → Scan
unfolding flush_into
scan_char s ch =
    if nat_eq ch b'"' && not s.in_single
    then record s { in_double = not s.in_double }
    else if nat_eq ch b'\'' && not s.in_double
    then record s { in_single = not s.in_single }
    else if nat_eq ch b' ' && (not s.in_double && not s.in_single)
    then flush_into s.tokens s.current s
    else record s { current = s.current ++ ch ∷ [] }

unfoldable pub scan_all : Scan → Text → Scan
unfolding scan_char
scan_all s [] = s
scan_all s (ch ∷ command) = scan_all (scan_char s ch) command

abbrev pub scan_start : Scan
scan_start = record { tokens = []; current = []; in_double = false; in_single = false }

unfoldable pub tokenize : Text → List Text
unfolding scan_all flush_into
tokenize command = let s = scan_all scan_start command in (flush_into s.tokens s.current s).tokens

-- JavaScript's white space and line terminators, which `trim` removes and `\s` accepts
unfoldable pub is_white : ℕ → Bool
is_white c =
    (leb 9 c && leb c 13)
    || (nat_eq c 32
        || (nat_eq c 160
            || (nat_eq c 5760
                || ((leb 8192 c && leb c 8202)
                    || (nat_eq c 8232
                        || (nat_eq c 8233
                            || (nat_eq c 8239
                                || (nat_eq c 8287 || (nat_eq c 12288 || nat_eq c 65279)))))))))

unfoldable pub trim_start : Text → Text
unfolding is_white
trim_start [] = []
trim_start (c ∷ s) = let rest = trim_start s in if is_white c then rest else c ∷ s

unfoldable pub trim_end : Text → Text
unfolding is_white
trim_end [] = []
trim_end (c ∷ s) = trimmed_behind c (trim_end s)
  where
    trimmed_behind : ℕ → Text → Text
    trimmed_behind c [] = if is_white c then [] else c ∷ []
    trimmed_behind c (d ∷ t) = c ∷ d ∷ t

-- `s.trim()`
unfoldable pub trim : Text → Text
unfolding trim_start trim_end
trim s = trim_end (trim_start s)

unfoldable pub normalize_command : Text → Text
unfolding tokenize trim join
normalize_command command = join (tokenize (trim command))
