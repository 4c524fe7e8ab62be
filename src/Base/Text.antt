-- ===== src/Base/Text.antt =====
-- Strings by code point: splitting at a character, printing a number.
use Prim.Native.Char.{Char, code}
use Prim.Native.Nat.{ℕ, zero, suc, ◌/◌, ◌%◌}
use Prim.Native.String
use Prim.Native.String.{String}
use mathlib.Core.List.{List, [], ◌∷◌}
use mathlib.Core.Bool.{Bool, false, ◌||◌}
use text.Mathlib.Text.{starts_with}
use clawthority.Base.Tests.{ltb, nat_eq, if◌then◌else◌}

-- Puts a character in front of the first part.
abbrev pub push_head : Char → List String → List String
push_head ch [] = (String.◌∷◌ ch String.[]) ∷ []
push_head ch (part ∷ parts) = (String.◌∷◌ ch part) ∷ parts

-- `s.split(c)` for a separator of one character, given by its code
unfoldable pub split : ℕ → String → List String
split c String.[] = "" ∷ []
split c (String.◌∷◌ ch s) =
    let rest = split c s in if nat_eq (code ch) c then "" ∷ rest else push_head ch rest

abbrev pub digit : ℕ → String
digit zero = "0"
digit (suc zero) = "1"
digit (suc (suc zero)) = "2"
digit (suc (suc (suc zero))) = "3"
digit (suc (suc (suc (suc zero)))) = "4"
digit (suc (suc (suc (suc (suc zero))))) = "5"
digit (suc (suc (suc (suc (suc (suc zero)))))) = "6"
digit (suc (suc (suc (suc (suc (suc (suc zero))))))) = "7"
digit (suc (suc (suc (suc (suc (suc (suc (suc zero)))))))) = "8"
digit _ = "9"

-- The fuel is one more than the number, and each round divides it by ten.
decimal_from : ℕ → ℕ → String
decimal_from zero n = ""
decimal_from (suc fuel) n =
    let longer = String.◌++◌ (decimal_from fuel (n / 10)) (digit (n % 10)) in
    if ltb n 10 then digit n else longer

-- A number in a template literal.
unfoldable pub decimal : ℕ → String
unfolding decimal_from
decimal n = decimal_from (suc n) n

-- Whether the text begins with one of the prefixes, and which entry it belongs to.
abbrev pub first_prefix {ℓ} : {A : Type ℓ} → List (String × A) → String → A → A
first_prefix [] s d = d
first_prefix ((prefix, a) ∷ rest) s d = if starts_with s prefix then a else first_prefix rest s d

-- Whether a character of the text passes the test on its code.
unfoldable pub has_code : (ℕ → Bool) → String → Bool
has_code test String.[] = false
has_code test (String.◌∷◌ ch s) = test (code ch) || has_code test s
