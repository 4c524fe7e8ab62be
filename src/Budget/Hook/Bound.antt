-- ===== src/Budget/Hook/Bound.antt =====
-- How many calls the hook of src/index.ts lets pass under the hard limit.
use clawthority.Base.{ℕ, ◌+◌, ◌-◌, ◌≤◌, ◌<◌, true, ◌≡◌, List, [], ◌∷◌, arith, Bool-cases, inl, inr}
use clawthority.Budget.Pricing.{Floats}
use clawthority.Budget.Tracker.{Clock, LogFormat, LogFile, BudgetTracker, check, append}
use clawthority.Budget.Tracker.Limit.{check-below}
use clawthority.Budget.Hook.{
  ChargedCall, estimated_input_tokens, call_usage, charge_call, count_passed,
}

estimated_input_tokens_pos : (n : ℕ) → 1 ≤ estimated_input_tokens n
unfolding estimated_input_tokens
estimated_input_tokens_pos n = ground arith

-- Where the hard limit is on, the calls that pass are at most the tokens that were left.
pub count_passed_bound :
    {F : Type 0} (fl : Floats F) (lf : LogFormat F) (clock : Clock) (calls : List ChargedCall)
    (t : BudgetTracker F) (file : LogFile)
    → t.hard_limit_enabled ≡ true
    → count_passed fl lf clock calls (t, file) ≤ t.daily_token_limit - t.daily_tokens
unfolding count_passed charge_call append
count_passed_bound fl lf clock [] t file hard = omega arith
count_passed_bound fl lf clock (c ∷ rest) t file hard =
    let s = append fl lf clock (call_usage c) (t, file) in
    let k = estimated_input_tokens c.param_length in
    let later : count_passed fl lf clock rest s ≤ t.daily_token_limit - (t.daily_tokens + (k + 0)) =
      count_passed_bound fl lf clock rest s.0 s.1 hard in
    let charged : 1 ≤ k = estimated_input_tokens_pos c.param_length in
    elim (Bool-cases (check fl s.0).exceeded) [
      | inl blocked ↦ rw blocked (omega arith)
      | inr passed ↦
          let below : t.daily_tokens + (k + 0) < t.daily_token_limit =
            check-below fl s.0 hard passed in
          rw passed (omega arith)
    ]
