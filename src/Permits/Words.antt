-- ===== src/Permits/Words.antt =====
-- Texts that are walked, as lists of code points: `split(' ')`, `join(' ')` and `trim()`.
use clawthority.Base.{
  ℕ, String, ◌+◌, ◌≡◌, refl, ap, inl, inr, Bool, true, false, ◌&&◌, List, [], ◌∷◌, ◌++◌, nat_eq,
  leb, if◌then◌else◌, Bool-cases, arith,
}
use Prim.Native.Char.{code}
use mathlib.Core.List.{append_assoc}

abbrev pub Text : Type 0
Text = List ℕ

abbrev pub codes : String → Text
codes String.[] = []
codes (String.◌∷◌ c s) = code c ∷ codes s

-- `===` on texts
abbrev pub same : Text → Text → Bool
same [] [] = true
same [] (_ ∷ _) = false
same (_ ∷ _) [] = false
same (c ∷ s) (d ∷ t) = nat_eq c d && same s t

pub same_sound : (s t : Text) → same s t ≡ true → s ≡ t
same_sound [] [] h = refl
same_sound [] (d ∷ t) h = ground arith
same_sound (c ∷ s) [] h = ground arith
same_sound (c ∷ s) (d ∷ t) h =
    let tails : s ≡ t = same_sound s t (ground arith) in let heads : c ≡ d = ground arith in cc

pub same_refl : (s : Text) → same s s ≡ true
same_refl [] = refl
same_refl (c ∷ s) = ground (arith, same_refl s)

-- `s.length`, in UTF-16 units
abbrev pub utf16_length : Text → ℕ
utf16_length [] = 0
utf16_length (c ∷ s) = (if leb 65536 c then 2 else 1) + utf16_length s

-- The text up to the first space.
unfoldable pub first_word : Text → Text
first_word [] = []
first_word (c ∷ s) = let rest = first_word s in if nat_eq c b' ' then [] else c ∷ rest

-- The parts behind the first space.
unfoldable pub later_words : Text → List Text
unfolding first_word
later_words [] = []
later_words (c ∷ s) =
    let rest = later_words s in if nat_eq c b' ' then first_word s ∷ rest else rest

-- `s.split(' ')`
abbrev pub split : Text → List Text
split s = first_word s ∷ later_words s

-- Each text behind a space.
unfoldable pub spaced : List Text → Text
spaced [] = []
spaced (t ∷ ts) = b' ' ∷ (t ++ spaced ts)

-- `ts.join(' ')`
unfoldable pub join : List Text → Text
unfolding spaced
join [] = []
join (t ∷ ts) = t ++ spaced ts

pub spaced-append : (ts us : List Text) → spaced (ts ++ us) ≡ spaced ts ++ spaced us
unfolding spaced
spaced-append [] us = refl
spaced-append (t ∷ ts) us = simp (spaced-append ts us, append_assoc)

pub join-split : (s : Text) → join (split s) ≡ s
unfolding join spaced first_word later_words
join-split [] = refl
join-split (c ∷ s) = elim (Bool-cases (nat_eq c b' ')) [
  | inl space ↦
      let e : c ≡ b' ' = ground arith in
      let rest : first_word s ++ spaced (later_words s) ≡ s = join-split s in rw space (grind arith)
  | inr other ↦
      let rest : first_word s ++ spaced (later_words s) ≡ s = join-split s in rw other (grind arith)
]

pub first_word-append : (s t : Text) → first_word (s ++ b' ' ∷ t) ≡ first_word s
unfolding first_word
first_word-append [] t = refl
first_word-append (c ∷ s) t = ground (arith, first_word-append s t)

pub later_words-append : (s t : Text) → later_words (s ++ b' ' ∷ t) ≡ later_words s ++ split t
unfolding first_word later_words
later_words-append [] t = refl
later_words-append (c ∷ s) t = elim (Bool-cases (nat_eq c b' ')) [
  | inl space ↦
      rw space (rw first_word-append (ap (λ v. first_word s ∷ v) (later_words-append s t)))
  | inr other ↦ rw other (later_words-append s t)
]

pub split-append : (s t : Text) → split (s ++ b' ' ∷ t) ≡ split s ++ split t
split-append s t = rw first_word-append (ap (λ v. first_word s ∷ v) (later_words-append s t))
