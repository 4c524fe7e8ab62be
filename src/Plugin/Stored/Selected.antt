-- ===== src/Plugin/Stored/Selected.antt =====
-- Which rule the selector of `/revoke` names.
use native.Mathlib.Nat.{add-mul, mul_assoc, pow-succ'}
use mathlib.Core.Path.{subst}
use clawthority.Base.{
  ℕ, zero, suc, ◌+◌, ◌*◌, ◌-◌, ◌^◌, ◌≡◌, ◌≢◌, refl, sym, ap, ◌∙◌, ◌⊎◌, inl, inr, true, false, some,
  List, [], ◌∷◌, ◌++◌, Memᴰ, Bool-cases, Option-cases, arith, length, eq_of_some,
}
use clawthority.Permits.Words.{Text, same, same_sound, same_refl}
use clawthority.Permits.Checker.{AutoPermit}
use clawthority.Plugin.Stored.{
  number_of, is_number, less_one, find_pattern, selected_index, rule_at, without_index,
}

-- The number that digits stand for.
abbrev pub place_value : Text → ℕ
place_value [] = 0
place_value (c ∷ s) = (c - b'0') * 10 ^ length s + place_value s

number_of-place_value : (n : ℕ) (s : Text) → number_of n s ≡ n * 10 ^ length s + place_value s
unfolding number_of
number_of-place_value n [] = omega arith
number_of-place_value n (c ∷ s) =
    let d = c - b'0' in
    let p = 10 ^ length s in
    number_of-place_value (n * 10 + d) s
    ∙ omega (
      arith,
      add-mul (n * 10) d p,
      mul_assoc n 10 p,
      pow-succ' 10 (length s),
      ap (λ (x : ℕ). n * x) (pow-succ' 10 (length s)),
    )

-- The selector names the rule behind the rules in front: by its number, counted from 1, or, where it
-- is no number, by its pattern, which no rule in front has.
abbrev pub Names : Text → List AutoPermit → AutoPermit → Type 0
Names selector front r =
    ((is_number selector ≡ true) × (place_value selector ≡ length front + 1))
    ⊎ ((is_number selector ≡ false)
        × (r.pattern ≡ selector)
        × ((x : AutoPermit) → Memᴰ x front → x.pattern ≢ selector))

-- The list with a rule inside.
abbrev pub Around : List AutoPermit → List AutoPermit → AutoPermit → List AutoPermit → Type 0
Around rules front r back = rules ≡ front ++ r ∷ back

pub rule_at-Around :
    (i : ℕ) (rules : List AutoPermit) (r : AutoPermit)
    → rule_at (some i) rules ≡ some r
    → (front : List AutoPermit) × (back : List AutoPermit) × Around rules front r back
      × (length front ≡ i)
      × (without_index i rules ≡ front ++ back)
unfolding rule_at without_index
rule_at-Around zero [] r h = cc
rule_at-Around (suc i) [] r h = cc
rule_at-Around zero (x ∷ rules) r h = ([], rules, ap (λ y. y ∷ rules) (eq_of_some h), refl, refl)
rule_at-Around (suc i) (x ∷ rules) r h =
    let (front, back, e, n, w) = rule_at-Around i rules r h in
    (x ∷ front, back, ap (λ l. x ∷ l) e, ap suc n, ap (λ l. x ∷ l) w)

pub rule_at-length :
    (front : List AutoPermit) (r : AutoPermit) (back : List AutoPermit)
    → rule_at (some (length front)) (front ++ r ∷ back) ≡ some r
unfolding rule_at
rule_at-length [] r back = refl
rule_at-length (x ∷ front) r back = rule_at-length front r back

cons_free :
    (x : AutoPermit) (front : List AutoPermit) (selector : Text)
    → same x.pattern selector ≡ false
    → ((y : AutoPermit) → Memᴰ y front → y.pattern ≢ selector)
    → (y : AutoPermit) → Memᴰ y (x ∷ front)
    → y.pattern ≢ selector
cons_free x front selector p earlier y (Memᴰ.tail m) e = earlier y m e
cons_free x front selector p earlier y (Memᴰ.head same_rule) e =
    let here : same x.pattern selector ≡ true =
      subst (λ t. same t selector ≡ true) (sym e ∙ ap (λ r. r.pattern) same_rule)
        (same_refl selector) in
    cc

find_pattern_sound :
    (selector : Text) (front : List AutoPermit) (r : AutoPermit) (back : List AutoPermit)
    → find_pattern selector (front ++ r ∷ back) ≡ some (length front)
    → (r.pattern ≡ selector) × ((x : AutoPermit) → Memᴰ x front → x.pattern ≢ selector)
unfolding find_pattern
find_pattern_sound selector [] r back h = elim (Bool-cases (same r.pattern selector)) [
  | inl p ↦ (same_sound r.pattern selector p, (λ x m. elim m [ ]))
  | inr p ↦ elim (Option-cases (find_pattern selector back)) [
    | inl q ↦ absurd (cc (rw (p, q, find_pattern) at h))
    | inr (i, q) ↦
        let bad : some (suc i) ≡ some 0 = rw (p, q, find_pattern) at h in
        let n = eq_of_some bad in absurd (omega arith)
  ]
]
find_pattern_sound selector (x ∷ front) r back h = elim (Bool-cases (same x.pattern selector)) [
  | inl p ↦
      let bad : some 0 ≡ some (suc (length front)) = rw (p, find_pattern) at h in
      let n = eq_of_some bad in absurd (omega arith)
  | inr p ↦ elim (Option-cases (find_pattern selector (front ++ r ∷ back))) [
    | inl q ↦ absurd (cc (rw (p, q, find_pattern) at h))
    | inr (i, q) ↦
        let found : some (suc i) ≡ some (suc (length front)) = rw (p, q, find_pattern) at h in
        let n = eq_of_some found in
        let same_place : i ≡ length front = omega arith in
        let (here, earlier) = find_pattern_sound selector front r back (q ∙ ap some same_place) in
        (here, cons_free x front selector p earlier)
  ]
]

find_pattern_complete :
    (selector : Text) (front : List AutoPermit) (r : AutoPermit) (back : List AutoPermit)
    → r.pattern ≡ selector
    → ((x : AutoPermit) → Memᴰ x front → x.pattern ≢ selector)
    → find_pattern selector (front ++ r ∷ back) ≡ some (length front)
unfolding find_pattern
find_pattern_complete selector [] r back e earlier =
    let here : same r.pattern selector ≡ true =
      subst (λ t. same r.pattern t ≡ true) e (same_refl r.pattern) in
    rw (here, find_pattern) refl
find_pattern_complete selector (x ∷ front) r back e earlier =
    elim (Bool-cases (same x.pattern selector)) [
      | inl p ↦ absurd (earlier x (Memᴰ.head refl) (same_sound x.pattern selector p))
      | inr p ↦
          rw
            (
              p,
              find_pattern_complete selector front r back e (λ y m. earlier y (Memᴰ.tail m)),
              find_pattern,
            )
            refl
    ]

number_of-value : (s : Text) → number_of 0 s ≡ place_value s
number_of-value s = number_of-place_value 0 s ∙ omega arith

less_one-suc : (n i : ℕ) → less_one n ≡ some i → n ≡ i + 1
less_one-suc zero i h = cc
less_one-suc (suc n) i h = let e = eq_of_some h in omega arith

-- A rule at the selected place is one that the selector names.
pub selected_index-Names :
    (selector : Text) (front : List AutoPermit) (r : AutoPermit) (back : List AutoPermit)
    → selected_index selector (front ++ r ∷ back) ≡ some (length front)
    → Names selector front r
unfolding selected_index
selected_index-Names selector front r back h = elim (Bool-cases (is_number selector)) [
  | inl p ↦
      let found : less_one (number_of 0 selector) ≡ some (length front) = rw p at h in
      inl (
        p,
        sym (number_of-value selector) ∙ less_one-suc (number_of 0 selector) (length front) found,
      )
  | inr p ↦
      let (here, earlier) = find_pattern_sound selector front r back (rw p at h) in
      inr (p, here, earlier)
]

-- The selected place is that of a rule that the selector names.
pub Names-selected_index :
    (selector : Text) (front : List AutoPermit) (r : AutoPermit) (back : List AutoPermit)
    → Names selector front r
    → selected_index selector (front ++ r ∷ back) ≡ some (length front)
unfolding selected_index
Names-selected_index selector front r back (inl (p, n)) =
    let value : number_of 0 selector ≡ suc (length front) =
      number_of-value selector ∙ n ∙ omega arith in
    rw (p, value) refl
Names-selected_index selector front r back (inr (p, e, earlier)) =
    rw p (find_pattern_complete selector front r back e earlier)
