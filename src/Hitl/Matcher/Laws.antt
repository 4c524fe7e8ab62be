-- ===== src/Hitl/Matcher/Laws.antt =====
-- What src/hitl/matcher.ts matches, against a relation on segments.
use clawthority.Base.{
  String, ◌≡◌, ◌↔◌, refl, Bool, true, none, some, List, [], ◌∷◌, ◌++◌, ◌⊎◌, inl, inr, ◌==◌, eq_iff,
  eq_refl, arith, any, All, Bool-cases, ap, sym, ◌∙◌, Memᴰ,
}
use mathlib.Core.Bool.{false≢true}
use clawthority.Base.Text.{split}
use clawthority.Hitl.Types.{HitlPolicy, HitlPolicyConfig}
use clawthority.Hitl.Matcher.{segments_match, matches_action_pattern, first_policy, check_action}

-- As many segments, each the same or under a `*`.
pub data Fits : List String → List String → Type 0 where
  done : Fits [] []
  same : {seg : String} {ps qs : List String} → Fits ps qs → Fits (seg ∷ ps) (seg ∷ qs)
  star : {part : String} {ps qs : List String} → Fits ps qs → Fits ("*" ∷ ps) (part ∷ qs)

Fits-refl : (ps : List String) → Fits ps ps
Fits-refl [] = done
Fits-refl (p ∷ ps) = same (Fits-refl ps)

Fits-step :
    (seg part : String) (ps qs : List String)
    → (seg ≡ "*") ⊎ (seg ≡ part)
    → Fits ps qs
    → Fits (seg ∷ ps) (part ∷ qs)
Fits-step seg part ps qs (inl e) f = rw e (star f)
Fits-step seg part ps qs (inr e) f = rw e (same f)

segments_match-Fits : (ps qs : List String) → segments_match ps qs ≡ true → Fits ps qs
unfolding segments_match
segments_match-Fits [] [] h = done
segments_match-Fits [] (a ∷ qs) h = cc
segments_match-Fits (p ∷ ps) [] h = cc
segments_match-Fits (p ∷ ps) (a ∷ qs) h =
    Fits-step p a ps qs (ground (arith, eq_iff p "*", eq_iff p a))
      (segments_match-Fits ps qs (ground arith))

Fits-segments_match : {ps qs : List String} → Fits ps qs → segments_match ps qs ≡ true
unfolding segments_match
Fits-segments_match done = refl
Fits-segments_match (same {seg} f) = ground (arith, eq_refl seg, Fits-segments_match f)
Fits-segments_match (star f) = Fits-segments_match f

matches_action_pattern-Fits :
    (pattern action : String)
    → matches_action_pattern pattern action ≡ true
    → (pattern ≡ "*") ⊎ Fits (split b'.' pattern) (split b'.' action)
unfolding matches_action_pattern
matches_action_pattern-Fits pattern action h = elim (Bool-cases (pattern == "*")) [
  | inl e ↦ inl ((eq_iff pattern "*").0 e)
  | inr n ↦ elim (Bool-cases (pattern == action)) [
    | inl e ↦ inr (rw ((eq_iff pattern action).0 e) (Fits-refl (split b'.' action)))
    | inr m ↦ inr (segments_match-Fits _ _ (rw (n, m) at h))
  ]
]

Fits-matches_action_pattern :
    (pattern action : String)
    → (pattern ≡ "*") ⊎ Fits (split b'.' pattern) (split b'.' action)
    → matches_action_pattern pattern action ≡ true
unfolding matches_action_pattern
Fits-matches_action_pattern pattern action (inl e) = rw (e, eq_refl "*") refl
Fits-matches_action_pattern pattern action (inr f) = ground (arith, Fits-segments_match f)

-- A pattern matches an action exactly if it is `*`, or has as many dot-separated segments, each of
-- them `*` or the action's own.
pub matches_action_pattern_iff :
    (pattern action : String)
    → (matches_action_pattern pattern action ≡ true)
      ↔ ((pattern ≡ "*") ⊎ Fits (split b'.' pattern) (split b'.' action))
matches_action_pattern_iff pattern action =
    (matches_action_pattern-Fits pattern action, Fits-matches_action_pattern pattern action)

abbrev pub Covers : String → HitlPolicy → Type 0
Covers action_class p =
    (pattern : String) × Memᴰ pattern p.actions
    × (matches_action_pattern pattern action_class ≡ true)

any-Memᴰ :
    (f : String → Bool) (xs : List String)
    → any f xs ≡ true
    → (x : String) × Memᴰ x xs × (f x ≡ true)
any-Memᴰ f [] h = cc
any-Memᴰ f (x ∷ xs) h = elim (Bool-cases (f x)) [
  | inl t ↦ (x, Memᴰ.head refl, t)
  | inr n ↦ let (y, m, e) = any-Memᴰ f xs (rw n at h) in (y, Memᴰ.tail m, e)
]

Memᴰ-any :
    (f : String → Bool) (xs : List String) (x : String) → Memᴰ x xs → f x ≡ true → any f xs ≡ true
Memᴰ-any f [] x m h = elim m [ ]
Memᴰ-any f (y ∷ ys) x (Memᴰ.head e) h = ground arith
Memᴰ-any f (y ∷ ys) x (Memᴰ.tail m) h = ground (arith, Memᴰ-any f ys x m h)

-- A policy that covers the action class, behind policies that do not.
abbrev pub IsFirst : List HitlPolicy → String → HitlPolicy → Type 0
IsFirst ps action_class p =
    (before : List HitlPolicy) × (after : List HitlPolicy) × (ps ≡ before ++ p ∷ after)
    × Covers action_class p
    × All (λ q. ¬ Covers action_class q) before

first_policy_lem :
    (ps : List HitlPolicy) (c : String)
    → ((first_policy ps c ≡ none) × All (λ p. ¬ Covers c p) ps)
      ⊎ ((p : HitlPolicy) × (first_policy ps c ≡ some p) × IsFirst ps c p)
unfolding first_policy
first_policy_lem [] c = inl (refl, tt)
first_policy_lem (p ∷ ps) c =
    let f = λ (pattern : String). matches_action_pattern pattern c in
    elim (Bool-cases (any f p.actions)) [
      | inl t ↦ inr (p, rw t refl, ([], ps, refl, any-Memᴰ f p.actions t, tt))
      | inr n ↦
          let fails : ¬ Covers c p = λ (x, m, e). false≢true (sym n ∙ Memᴰ-any f p.actions x m e) in
          elim (first_policy_lem ps c) [
            | inl (e, none_covers) ↦ inl (rw (n, e) refl, (fails, none_covers))
            | inr (q, e, (before, after, shape, covers, others)) ↦
                inr (
                  q,
                  rw (n, e) refl,
                  (p ∷ before, after, ap (◌∷◌ p) shape, covers, (fails, others)),
                )
          ]
    ]

-- `checkAction` asks for no approval exactly if no policy has a pattern that matches the action
-- class, and otherwise returns the first policy, in declaration order, that has one.
pub check_action_lem :
    (config : HitlPolicyConfig) (c : String)
    → ((check_action config c ≡ none) × All (λ p. ¬ Covers c p) config.policies)
      ⊎ ((p : HitlPolicy) × (check_action config c ≡ some p) × IsFirst config.policies c p)
unfolding check_action
check_action_lem config c = first_policy_lem config.policies c
