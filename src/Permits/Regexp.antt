-- ===== src/Permits/Regexp.antt =====
-- `escapeRegex` of src/auto-permits, and what the engine's `RegExp` makes of the sources that are
-- built with it: `^`, characters, perhaps the group `( .+)?`, and `$`.
pub mod Literal
use clawthority.Base.{
  ℕ, Bool, true, false, ◌&&◌, ◌||◌, not, List, [], ◌∷◌, ◌++◌, Option, none, some, nat_eq, all,
  if◌then◌else◌,
}
use clawthority.Permits.Words.{Text, same, codes}

-- The characters `. * + ? ^ $ { } ( ) | [ ] \`, which the class of `escapeRegex` lists and which
-- are the syntax characters of a regular expression
unfoldable pub is_syntax : ℕ → Bool
is_syntax c =
    nat_eq c b'.'
    || (nat_eq c b'*'
        || (nat_eq c b'+'
            || (nat_eq c b'?'
                || (nat_eq c b'^'
                    || (nat_eq c b'$'
                        || (nat_eq c b'{'
                            || (nat_eq c b'}'
                                || (nat_eq c b'('
                                    || (nat_eq c b')'
                                        || (nat_eq c b'|'
                                            || (nat_eq c b'['
                                                || (nat_eq c b']' || nat_eq c b'\\'))))))))))))

-- The class `[.*+?^${}()|[\]\\]` that `escapeRegex` replaces.
unfoldable pub is_escaped : ℕ → Bool
is_escaped c =
    nat_eq c b'.'
    || (nat_eq c b'*'
        || (nat_eq c b'+'
            || (nat_eq c b'?'
                || (nat_eq c b'^'
                    || (nat_eq c b'$'
                        || (nat_eq c b'{'
                            || (nat_eq c b'}'
                                || (nat_eq c b'('
                                    || (nat_eq c b')'
                                        || (nat_eq c b'|'
                                            || (nat_eq c b'['
                                                || (nat_eq c b']' || nat_eq c b'\\'))))))))))))

unfoldable pub escape_regex : Text → Text
unfolding is_escaped
escape_regex [] = []
escape_regex (c ∷ s) =
    let rest = escape_regex s in if is_escaped c then b'\\' ∷ c ∷ rest else c ∷ rest

-- A compiled expression: the characters it wants, and whether the group may follow them.
pub record Regexp : Type 0 where
  pub literal : Text
  pub with_arguments : Bool

abbrev pub then_literal : ℕ → Option Regexp → Option Regexp
then_literal c none = none
then_literal c (some r) = some (record r { literal = c ∷ r.literal })

-- The end of a source.
abbrev pub ending : Bool → Bool → Option Regexp
ending arguments wanted =
    if wanted then some (record { literal = []; with_arguments = arguments }) else none

abbrev pub arguments_group : Text
arguments_group = codes "( .+)?$"

-- The source behind `^`; the flag says that a backslash has been read. A syntax character in any
-- other place is none of the sources that the code builds.
unfoldable pub parse_body : Bool → Text → Option Regexp
unfolding is_syntax
parse_body escaped [] = none
parse_body true (c ∷ s) = elim (is_syntax c) [
  | true ↦ then_literal c (parse_body false s)
  | false ↦ none
]
parse_body false (c ∷ s) = elim (is_syntax c) [
  | false ↦ then_literal c (parse_body false s)
  | true ↦ elim (nat_eq c b'\\') [
    | true ↦ parse_body true s
    | false ↦
        if nat_eq c b'$'
        then ending false (same (c ∷ s) (codes "$"))
        else ending true (same (c ∷ s) arguments_group)
  ]
]

-- `new RegExp(source)`
unfoldable pub new_regexp : Text → Option Regexp
unfolding parse_body
new_regexp [] = none
new_regexp (c ∷ s) = if nat_eq c b'^' then parse_body false s else none

-- `.` stops at a line terminator.
unfoldable pub is_line_end : ℕ → Bool
is_line_end c = nat_eq c 10 || (nat_eq c 13 || (nat_eq c 8232 || nat_eq c 8233))

-- ` .+` up to the end of the text
unfoldable pub has_arguments : Text → Bool
unfolding is_line_end
has_arguments [] = false
has_arguments (c ∷ []) = false
has_arguments (c ∷ d ∷ s) = nat_eq c b' ' && all (λ x. not (is_line_end x)) (d ∷ s)

abbrev pub behind : (Text → Bool) → Text → Text → Bool
behind test [] t = test t
behind test (c ∷ l) [] = false
behind test (c ∷ l) (d ∷ t) = nat_eq c d && behind test l t

-- `regex.test(text)`
unfoldable pub test : Regexp → Text → Bool
unfolding has_arguments
test r text = same r.literal text || (r.with_arguments && behind has_arguments r.literal text)
