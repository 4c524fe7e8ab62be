-- ===== src/Enforcement/Stage2/Steps.antt =====
-- The parts of `createCombinedStage2` (src/enforcement/stage2-policy.ts) one by one: what each leaves
-- captured, and what it means that a part goes on with nothing captured.
use clawthority.Base.{
  String, ◌≡◌, ◌≢◌, refl, Bool, true, false, Option, none, some, List, [], ◌∷◌, Memᴰ, arith, inl,
  inr, or_else, Option-cases, if◌then◌else◌, Bool-cases, eq_of_some,
}
use clawthority.Base.Results.{Result, ok, threw, ◌>>=◌, ok_injective, Result-cases}
use clawthority.Policy.Types.{permit, forbid, RuleContext}
use clawthority.Policy.Engine.{
  EvaluationDecision, PolicyEngine, evaluate_by_intent_group, is_forbid,
}
use clawthority.Enforcement.Types.{CeeDecision}
use clawthority.Enforcement.Stage2.{
  Flow, done, going, absorb, Engines, State, next_from, absorb_group, intent_loop, to_staged_forbid,
  is_hitl_gated_decision, rest_of_loop,
}

abbrev pub Captured : Option CeeDecision → Type 0
Captured none = Unit
Captured (some d) = d.effect ≡ forbid

-- What is returned or captured is a forbid.
abbrev pub Held : Result Flow → Type 0
Held threw = Unit
Held (ok (done d)) = d.effect ≡ forbid
Held (ok (going pending)) = Captured pending

-- A run that goes on with nothing captured.
abbrev pub IsClean : Result Flow → Type 0
IsClean f = f ≡ ok (going none)

abbrev staged : Bool → Bool → CeeDecision → Option CeeDecision → Flow
staged forbids gated new pending =
    if forbids
    then if gated then going (some (or_else pending new)) else done new
    else going pending

staged-Held :
    (forbids gated : Bool) (new : CeeDecision) (pending : Option CeeDecision)
    → new.effect ≡ forbid
    → Captured pending
    → Held (ok (staged forbids gated new pending))
staged-Held true true new none n c = n
staged-Held true true new (some d) n c = c
staged-Held true false new pending n c = n
staged-Held false gated new pending n c = c

staged-IsClean :
    (forbids gated : Bool) (new : CeeDecision) (pending : Option CeeDecision)
    → staged forbids gated new pending ≡ going none
    → (forbids ≡ false) × (pending ≡ none)
staged-IsClean true true new pending h = cc
staged-IsClean true false new pending h = cc
staged-IsClean false gated new pending h = (refl, cc)

-- A part that evaluates and absorbs the decision.
abbrev pub absorbed : Result EvaluationDecision → String → Option CeeDecision → Result Flow
absorbed r stage pending = do d ← r; ok (absorb d stage pending)

pub absorbed-Held :
    (r : Result EvaluationDecision) (stage : String) (pending : Option CeeDecision)
    → Captured pending
    → Held (absorbed r stage pending)
unfolding absorb to_staged_forbid
absorbed-Held threw stage pending c = tt
absorbed-Held (ok d) stage pending c =
    staged-Held (is_forbid d.effect) (is_hitl_gated_decision d) (to_staged_forbid d stage) pending
      refl c

pub absorbed-IsClean :
    (r : Result EvaluationDecision) (stage : String) (pending : Option CeeDecision)
    → IsClean (absorbed r stage pending)
    → (d : EvaluationDecision) × (r ≡ ok d) × (d.effect ≡ permit) × (pending ≡ none)
unfolding absorb to_staged_forbid
absorbed-IsClean threw stage pending h = cc
absorbed-IsClean (ok d) stage pending h =
    let (f, p) =
      staged-IsClean (is_forbid d.effect) (is_hitl_gated_decision d) (to_staged_forbid d stage)
        pending (ok_injective h) in
    (d, refl, ground arith, p)

-- Whatever follows a part, a clean end means that the part was clean.
pub next_from-IsClean :
    (f : Result Flow) (es : Engines) (k : Option CeeDecision → Engines → State)
    → IsClean (next_from f es k).0
    → (pending : Option CeeDecision) × (f ≡ ok (going pending))
      × IsClean (k pending es).0
      × (next_from f es k ≡ k pending es)
next_from-IsClean threw es k h = cc
next_from-IsClean (ok (done d)) es k h = cc
next_from-IsClean (ok (going pending)) es k h = (pending, refl, h, refl)

pub next_from-Held :
    (f : Result Flow) (es : Engines) (k : Option CeeDecision → Engines → State)
    → Held f
    → ((pending : Option CeeDecision) → Captured pending → Held (k pending es).0)
    → Held (next_from f es k).0
next_from-Held threw es k h s = tt
next_from-Held (ok (done d)) es k h s = h
next_from-Held (ok (going pending)) es k h s = s pending h

absorb_group-Held :
    (d : EvaluationDecision) (stage : String) {f : Flow}
    → absorb_group d stage ≡ some f
    → Held (ok f) × (f ≢ going none)
unfolding absorb_group to_staged_forbid
absorb_group-Held d stage {f} h = elim (Bool-cases (is_forbid d.effect)) [
  | inr clear ↦ let bad : none ≡ some f = rw (clear, absorb_group) at h in cc
  | inl forbids ↦ elim (Option-cases d.matched_rule) [
    | inl p ↦ let bad : none ≡ some f = rw (forbids, p, absorb_group) at h in cc
    | inr (r, p) ↦ elim (Bool-cases (is_hitl_gated_decision d)) [
      | inl g ↦
          let e : some (going (some (to_staged_forbid d stage))) ≡ some f =
            rw (forbids, p, g, absorb_group) at h in
          rw (← eq_of_some e) (refl, (λ q. cc))
      | inr g ↦
          let e : some (done (to_staged_forbid d stage)) ≡ some f =
            rw (forbids, p, g, absorb_group) at h in
          rw (← eq_of_some e) (refl, (λ q. cc))
    ]
  ]
]

pub intent_loop-cons :
    (group : String) (ctx : RuleContext) (e : PolicyEngine) (stage : String)
    (es : List (PolicyEngine × String)) (d : EvaluationDecision)
    → evaluate_by_intent_group group ctx e ≡ ok d
    → intent_loop group ctx ((e, stage) ∷ es)
      ≡ rest_of_loop (absorb_group d stage) (intent_loop group ctx es)
unfolding intent_loop
intent_loop-cons group ctx e stage es d p = rw (p, intent_loop) refl

pub intent_loop-Held :
    (group : String) (ctx : RuleContext) (es : List (PolicyEngine × String))
    → Held (intent_loop group ctx es)
unfolding intent_loop
intent_loop-Held group ctx [] = tt
intent_loop-Held group ctx ((e, stage) ∷ es) =
    elim (Result-cases (evaluate_by_intent_group group ctx e)) [
      | inl p ↦ rw (p, intent_loop) tt
      | inr (d, p) ↦
          rw (intent_loop-cons group ctx e stage es d p)
            (elim (Option-cases (absorb_group d stage)) [
              | inl q ↦ rw q (intent_loop-Held group ctx es)
              | inr (f, q) ↦ rw q (absorb_group-Held d stage q).0
            ])
    ]

-- The loop over the engines ends with nothing captured only where no engine forbids by a rule.
pub intent_loop-IsClean :
    (group : String) (ctx : RuleContext) (es : List (PolicyEngine × String))
    → IsClean (intent_loop group ctx es)
    → (e : PolicyEngine) (stage : String) → Memᴰ (e, stage) es
    → (d : EvaluationDecision) × (evaluate_by_intent_group group ctx e ≡ ok d)
      × (absorb_group d stage ≡ none)
unfolding intent_loop
intent_loop-IsClean group ctx [] h e stage m = elim m [ ]
intent_loop-IsClean group ctx ((x, s) ∷ es) h e stage m =
    elim (Result-cases (evaluate_by_intent_group group ctx x)) [
      | inl p ↦ let bad : threw ≡ ok (going none) = rw (p, intent_loop) at h in cc
      | inr (d, p) ↦
          let h' = rw (intent_loop-cons group ctx x s es d p) at h in
          elim (Option-cases (absorb_group d s)) [
            | inl q ↦ elim m [
              | Memᴰ.head same ↦ (d, cc, cc)
              | Memᴰ.tail later ↦ intent_loop-IsClean group ctx es (rw q at h') e stage later
            ]
            | inr (f, q) ↦
                let e : ok f ≡ ok (going none) = rw q at h' in
                absurd ((absorb_group-Held d s q).1 (ok_injective e))
          ]
    ]
