-- ===== src/Policy/Engine/Matching.antt =====
-- What the loops of src/policy/engine.ts collect, and which rule the searches pick.
use clawthority.Base.{
  ◌≡◌, ◌≢◌, refl, Bool, true, false, none, some, List, [], ◌∷◌, Memᴰ, arith, Bool-cases, inl, inr,
  ◌⊎◌, if◌then◌else◌,
}
use clawthority.Base.Results.{Result, ok, threw, ◌>>=◌, ok_injective}
use clawthority.Policy.Types.{Effect, permit, forbid, RuleContext, Rule}
use clawthority.Policy.Engine.{holds, collect, first_with, is_permit, is_forbid}

-- A rule passes the tests of a loop and its condition holds.
abbrev pub Applies : (Rule → Bool) → RuleContext → Rule → Type 0
Applies selects ctx r = (selects r ≡ true) × (holds r.condition ctx ≡ ok true)

-- One round of the loop: whether `r` is put in front of what the later rounds collect.
round_result :
    (r : Rule) (chosen : Bool) (holding : Result Bool) (later : Result (List Rule))
    → Result (List Rule)
round_result r chosen holding later =
    if chosen then (do b ← holding; ms ← later; ok (if b then r ∷ ms else ms)) else later

round_result-eq-ok :
    (r : Rule) (chosen : Bool) (holding : Result Bool) (later : Result (List Rule)) {ms : List Rule}
    → round_result r chosen holding later ≡ ok ms
    → (rest : List Rule) × (later ≡ ok rest)
      × (((chosen ≡ true) × (holding ≡ ok true) × (ms ≡ r ∷ rest))
          ⊎ (¬ ((chosen ≡ true) × (holding ≡ ok true)) × (ms ≡ rest)))
unfolding round_result
round_result-eq-ok r true (ok true) (ok rest) h = (rest, refl, inl (refl, refl, cc))
round_result-eq-ok r true (ok false) (ok rest) h = (rest, refl, inr ((λ p. cc (p.1)), cc))
round_result-eq-ok r true threw later h = cc
round_result-eq-ok r true (ok b) threw h = cc
round_result-eq-ok r false holding (ok rest) h = (rest, refl, inr ((λ p. cc (p.0)), cc))
round_result-eq-ok r false holding threw h = cc

module _ (selects : Rule → Bool) (ctx : RuleContext) where
  -- A rule that the loop passes applies, and is collected exactly if it does.
  pub collect_cons :
      (r : Rule) (rs : List Rule) {ms : List Rule}
      → collect selects ctx (r ∷ rs) ≡ ok ms
      → (rest : List Rule) × (collect selects ctx rs ≡ ok rest)
        × ((Applies selects ctx r × (ms ≡ r ∷ rest)) ⊎ (¬ Applies selects ctx r × (ms ≡ rest)))
  unfolding collect round_result
  collect_cons r rs h =
      let (rest, e, side) =
        round_result-eq-ok r (selects r) (holds r.condition ctx) (collect selects ctx rs) h in
      (rest, e, elim side [ inl (s, c, q) ↦ inl ((s, c), q) | inr (n, q) ↦ inr (n, q) ])

  pub collect_complete :
      (rs ms : List Rule)
      → collect selects ctx rs ≡ ok ms
      → (r : Rule) → Memᴰ r rs
      → Applies selects ctx r
      → Memᴰ r ms
  collect_complete [] ms h r m a = elim m [ ]
  collect_complete (x ∷ xs) ms h r (Memᴰ.head e) a =
      let (rest, _, side) = collect_cons x xs h in
      elim side [ inl (_, q) ↦ rw q (Memᴰ.head e) | inr (n, q) ↦ absurd (n (rw e at a)) ]
  collect_complete (x ∷ xs) ms h r (Memᴰ.tail m) a =
      let (rest, e, side) = collect_cons x xs h in
      let later = collect_complete xs rest e r m a in
      elim side [ inl (_, q) ↦ rw q (Memᴰ.tail later) | inr (_, q) ↦ rw q later ]

  pub collect_sound :
      (rs ms : List Rule)
      → collect selects ctx rs ≡ ok ms
      → (r : Rule) → Memᴰ r ms
      → Memᴰ r rs × Applies selects ctx r
  unfolding collect
  collect_sound [] ms h r m = let e : [] ≡ ms = ok_injective h in elim (rw (← e) at m) [ ]
  collect_sound (x ∷ xs) ms h r m =
      let (rest, e, side) = collect_cons x xs h in
      let ih = collect_sound xs rest e r in
      elim side [
        | inl (a, q) ↦ elim (rw q at m) [
          | Memᴰ.head p ↦ (Memᴰ.head p, rw p a)
          | Memᴰ.tail t ↦ (Memᴰ.tail (ih t).0, (ih t).1)
        ]
        | inr (_, q) ↦ (Memᴰ.tail (ih (rw q at m)).0, (ih (rw q at m)).1)
      ]

pub first_with-some :
    (effect : Effect) (ms : List Rule) {r : Rule}
    → first_with effect ms ≡ some r
    → Memᴰ r ms × (r.effect ≡ effect)
unfolding first_with
first_with-some permit [] h = cc
first_with-some forbid [] h = cc
first_with-some permit (x ∷ xs) h = elim (Bool-cases (is_permit x.effect)) [
  | inl t ↦ (Memᴰ.head (ground arith), ground arith)
  | inr f ↦ let (m, e) = first_with-some permit xs (rw f at h) in (Memᴰ.tail m, e)
]
first_with-some forbid (x ∷ xs) h = elim (Bool-cases (is_forbid x.effect)) [
  | inl t ↦ (Memᴰ.head (ground arith), ground arith)
  | inr f ↦ let (m, e) = first_with-some forbid xs (rw f at h) in (Memᴰ.tail m, e)
]

pub first_with-none :
    (effect : Effect) (ms : List Rule)
    → first_with effect ms ≡ none
    → (r : Rule) → Memᴰ r ms
    → r.effect ≢ effect
unfolding first_with
first_with-none permit [] h r m = elim m [ ]
first_with-none forbid [] h r m = elim m [ ]
first_with-none permit (x ∷ xs) h r (Memᴰ.head e) = ground arith
first_with-none permit (x ∷ xs) h r (Memᴰ.tail m) = first_with-none permit xs (ground arith) r m
first_with-none forbid (x ∷ xs) h r (Memᴰ.head e) = ground arith
first_with-none forbid (x ∷ xs) h r (Memᴰ.tail m) = first_with-none forbid xs (ground arith) r m
