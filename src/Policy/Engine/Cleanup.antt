-- ===== src/Policy/Engine/Cleanup.antt =====
-- `cleanup` of src/policy/engine.ts and the rate-limited calls after it.
use mathlib.Core.Path.{subst}
use clawthority.Base.{
  ℕ, ◌*◌, ◌≤◌, String, ◌≡◌, refl, sym, ◌∙◌, true, false, Option, none, some, List, [], ◌∷◌, arith,
  nat_eq, ◌==◌, eq_iff, or_else, Option-cases, Bool-cases, inl, inr, ◌⊎◌, All, ap,
}
use clawthority.Base.Maps.{
  get, put, nat_key, string_key, nat_eq_iff, Distinct, Distinct-put, All-put,
}
use clawthority.Policy.Types.{RuleContext, RateLimit, Rule}
use clawthority.Policy.Engine.{
  Tracking, PolicyEngine, LimitCheck, keep_fresh, slide_window, cleanup_keys, cleanup_rules,
  cleanup, tracking_key, check_and_record_rate_limit,
}

List-cases : (xs : List ℕ) → (xs ≡ []) ⊎ ((y : ℕ) × (ys : List ℕ) × (xs ≡ y ∷ ys))
List-cases [] = inl refl
List-cases (y ∷ ys) = inr (y, ys, refl)

keep_fresh_twice :
    (now later w : ℕ) (xs : List ℕ)
    → now ≤ later
    → keep_fresh later w (keep_fresh now w xs) ≡ keep_fresh later w xs
unfolding keep_fresh
keep_fresh_twice now later w [] h = refl
keep_fresh_twice now later w (x ∷ xs) h = ground (arith, keep_fresh_twice now later w xs h)

slide_window-keep_fresh :
    (rl : RateLimit) (now later : ℕ) (xs : List ℕ)
    → now ≤ later
    → slide_window rl later (keep_fresh now (rl.window_seconds * 1000) xs)
      ≡ slide_window rl later xs
unfolding slide_window
slide_window-keep_fresh rl now later xs h =
    rw (keep_fresh_twice now later (rl.window_seconds * 1000) xs h) refl

-- The timestamps of a key.
abbrev stamps : String → List (String × List ℕ) → List ℕ
stamps key m = or_else (get key m) []

abbrev kept : ℕ → ℕ → String × List ℕ → List (String × List ℕ) → List (String × List ℕ)
kept now w (key, ts) rest = elim (keep_fresh now w ts) [
  | [] ↦ rest
  | t ∷ ts' ↦ (key, t ∷ ts') ∷ rest
]

stamps-kept_same :
    (now w : ℕ) (j key : String) (ts : List ℕ) (rest : List (String × List ℕ))
    → (j == key) ≡ true
    → stamps key rest ≡ []
    → stamps key (kept now w (j, ts) rest) ≡ keep_fresh now w ts
unfolding get
stamps-kept_same now w j key ts rest same gone = elim (List-cases (keep_fresh now w ts)) [
  | inl p ↦ rw (p, kept) gone
  | inr (y, ys, p) ↦ rw (p, kept, same, get) refl
]

stamps-kept_other :
    (now w : ℕ) (j key : String) (ts : List ℕ) (rest : List (String × List ℕ))
    → (j == key) ≡ false
    → stamps key (kept now w (j, ts) rest) ≡ stamps key rest
unfolding get
stamps-kept_other now w j key ts rest other = elim (List-cases (keep_fresh now w ts)) [
  | inl p ↦ rw (p, kept) refl
  | inr (y, ys, p) ↦ rw (p, kept, other, get) refl
]

stamps-cleanup_keys :
    (now w : ℕ) (key : String) (m : List (String × List ℕ))
    → Distinct m
    → stamps key (cleanup_keys now w m) ≡ keep_fresh now w (stamps key m)
unfolding cleanup_keys keep_fresh get
stamps-cleanup_keys now w key [] d = refl
stamps-cleanup_keys now w key ((j, ts) ∷ m) (gone, d) =
    let ih = stamps-cleanup_keys now w key m d in
    elim (Bool-cases (j == key)) [
      | inl same ↦
          let absent : get key m ≡ none =
            subst (λ x. get x m ≡ none) ((eq_iff j key).0 same) gone in
          let empty : stamps key (cleanup_keys now w m) ≡ [] = ih ∙ rw absent refl in
          stamps-kept_same now w j key ts (cleanup_keys now w m) same empty ∙ rw (same, get) refl
      | inr other ↦
          stamps-kept_other now w j key ts (cleanup_keys now w m) other ∙ ih ∙ rw (other, get) refl
    ]

abbrev Windows : Type 0
Windows = List (String × List ℕ)

Windows-cases : (m : Windows) → (m ≡ []) ⊎ ((k : String × List ℕ) × (ks : Windows) × (m ≡ k ∷ ks))
Windows-cases [] = inl refl
Windows-cases (k ∷ ks) = inr (k, ks, refl)

-- The timestamps of a rule object and a key.
abbrev stamps_in : ℕ → String → Tracking → List ℕ
stamps_in ref key t = stamps key (or_else (get ref t) [])

-- The tracking of an engine as `put` leaves it: no rule object and no key occurs twice.
abbrev pub WellKept : Tracking → Type 0
WellKept t = Distinct t × All (λ (p : ℕ × Windows). Distinct p.1) t

abbrev kept_rule : (ℕ → Option RateLimit) → ℕ → ℕ × Windows → Tracking → Tracking
kept_rule f now (ref, m) rest = elim (f ref) [
  | none ↦ (ref, m) ∷ rest
  | some rl ↦ elim (cleanup_keys now (rl.window_seconds * 1000) m) [
    | [] ↦ rest
    | k ∷ ks ↦ (ref, k ∷ ks) ∷ rest
  ]
]

module _ (f : ℕ → Option RateLimit) (now : ℕ) (ref : ℕ) (key : String) where
  kept_rule-same :
      (r : ℕ) (rl : RateLimit) (m : Windows) (rest : Tracking)
      → nat_eq r ref ≡ true
      → f r ≡ some rl
      → stamps_in ref key rest ≡ []
      → stamps_in ref key (kept_rule f now (r, m) rest)
        ≡ stamps key (cleanup_keys now (rl.window_seconds * 1000) m)
  unfolding get
  kept_rule-same r rl m rest same limit gone =
      elim (Windows-cases (cleanup_keys now (rl.window_seconds * 1000) m)) [
        | inl p ↦ rw (limit, kept_rule, p) gone
        | inr (k, ks, p) ↦ rw (limit, kept_rule, p, same, get) refl
      ]

  kept_rule-other :
      (r : ℕ) (m : Windows) (rest : Tracking)
      → nat_eq r ref ≡ false
      → stamps_in ref key (kept_rule f now (r, m) rest) ≡ stamps_in ref key rest
  unfolding get
  kept_rule-other r m rest other = elim (Option-cases (f r)) [
    | inl p ↦ rw (p, kept_rule, other, get) refl
    | inr (rl, p) ↦ elim (Windows-cases (cleanup_keys now (rl.window_seconds * 1000) m)) [
      | inl q ↦ rw (p, kept_rule, q) refl
      | inr (k, ks, q) ↦ rw (p, kept_rule, q, other, get) refl
    ]
  ]

  stamps_in-cleanup_rules :
      (rl : RateLimit) (t : Tracking)
      → f ref ≡ some rl
      → WellKept t
      → stamps_in ref key (cleanup_rules f now t)
        ≡ keep_fresh now (rl.window_seconds * 1000) (stamps_in ref key t)
  unfolding cleanup_rules keep_fresh get
  stamps_in-cleanup_rules rl [] limit d = refl
  stamps_in-cleanup_rules rl ((r, m) ∷ t) limit ((gone, d), (inner, ds)) =
      let ih = stamps_in-cleanup_rules rl t limit (d, ds) in
      let rest = cleanup_rules f now t in
      elim (Bool-cases (nat_eq r ref)) [
        | inl same ↦
            let e = (nat_eq_iff r ref).0 same in
            let absent : get ref t ≡ none = subst (λ x. get x t ≡ none) e gone in
            let empty : stamps_in ref key rest ≡ [] = ih ∙ rw absent refl in
            kept_rule-same r rl m rest same (subst (λ x. f x ≡ some rl) (sym e) limit) empty
            ∙ stamps-cleanup_keys now (rl.window_seconds * 1000) key m inner
            ∙ rw (same, get) refl
        | inr other ↦ kept_rule-other r m rest other ∙ ih ∙ rw (other, get) refl
      ]

-- A call of a rule with a rate limit is counted the same whether or not `cleanup` ran before it, at a
-- time no later than the call's: the tracking is one that the engine builds, and the rule object of
-- the call has its rate limit.
pub check-cleanup :
    (rate_limit_of : ℕ → Option RateLimit) (now later : ℕ) (r : Rule) (rl : RateLimit)
    (name : String) (ctx : RuleContext) (e : PolicyEngine)
    → WellKept e.rate_limit_tracking
    → rate_limit_of r.ref ≡ some rl
    → now ≤ later
    → (check_and_record_rate_limit r rl name ctx later (cleanup rate_limit_of now e)).0
      ≡ (check_and_record_rate_limit r rl name ctx later e).0
unfolding check_and_record_rate_limit cleanup
check-cleanup f now later r rl name ctx e well limit h =
    let key = tracking_key ctx name in
    let forgotten = stamps_in-cleanup_rules f now r.ref key rl e.rate_limit_tracking limit well in
    ap (λ xs. (slide_window rl later xs).0) forgotten
    ∙ ap (λ (p : LimitCheck × List ℕ). p.0)
        (slide_window-keep_fresh rl now later (stamps_in r.ref key e.rate_limit_tracking) h)

Distinct-get :
    (ref : ℕ) (t : Tracking)
    → All (λ (p : ℕ × Windows). Distinct p.1) t
    → Distinct (or_else (get ref t) [])
unfolding get
Distinct-get ref [] ds = tt
Distinct-get ref ((r, m) ∷ t) (d, ds) = elim (Bool-cases (nat_eq r ref)) [
  | inl same ↦ rw (same, get) d
  | inr other ↦ rw (other, get) (Distinct-get ref t ds)
]

-- The engine builds such a tracking: a counted call keeps it.
pub check-WellKept :
    (r : Rule) (rl : RateLimit) (name : String) (ctx : RuleContext) (now : ℕ) (e : PolicyEngine)
    → WellKept e.rate_limit_tracking
    → WellKept (check_and_record_rate_limit r rl name ctx now e).1.rate_limit_tracking
unfolding check_and_record_rate_limit
check-WellKept r rl name ctx now e (d, ds) =
    let key = tracking_key ctx name in
    let m = or_else (get r.ref e.rate_limit_tracking) [] in
    let ts = (slide_window rl now (or_else (get key m) [])).1 in
    (
      Distinct-put r.ref (put key ts m) e.rate_limit_tracking d,
      All-put (λ (p : ℕ × Windows). Distinct p.1) r.ref (put key ts m) e.rate_limit_tracking
          (λ j. Distinct-put key ts m (Distinct-get r.ref e.rate_limit_tracking ds)) ds,
    )
