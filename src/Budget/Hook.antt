-- ===== src/Budget/Hook.antt =====
-- The part of `beforeToolCallHandler` (src/index.ts) that charges a call to the budget.
pub mod Bound
use clawthority.Base.{ℕ, ◌+◌, ◌/◌, Bool, true, false, none, List, [], ◌∷◌, ltb, if◌then◌else◌}
use clawthority.Budget.Pricing.{Floats}
use clawthority.Budget.Tracker.{
  Clock, LogFormat, Write, LogFile, BudgetTracker, check, Usage, append,
}

-- A call: the length of `JSON.stringify(params)`, 0 where there are no parameters, the time, and
-- how the write of the log ends.
pub record ChargedCall : Type 0 where
  pub param_length : ℕ
  pub at : ℕ
  pub write : Write

-- `Math.max(1, Math.round(paramJson.length / 4))`
unfoldable pub estimated_input_tokens : ℕ → ℕ
estimated_input_tokens n = if ltb ((n + 2) / 4) 1 then 1 else (n + 2) / 4

abbrev pub call_usage : ChargedCall → Usage
call_usage c = record {
  input_tokens = estimated_input_tokens c.param_length;
  output_tokens = 0;
  model = none;
  at = c.at;
  write = c.write;
}

-- Whether the call is blocked as over the budget, with the tracker and the log after it.
unfoldable pub charge_call :
    {F : Type 0}
    → Floats F
    → LogFormat F
    → Clock
    → ChargedCall
    → BudgetTracker F × LogFile
    → Bool × (BudgetTracker F × LogFile)
charge_call fl lf clock c s =
    let s' = append fl lf clock (call_usage c) s in ((check fl s'.0).exceeded, s')

-- How many of the calls are not blocked.
unfoldable pub count_passed :
    {F : Type 0} → Floats F → LogFormat F → Clock → List ChargedCall → BudgetTracker F × LogFile → ℕ
count_passed fl lf clock [] s = 0
count_passed fl lf clock (c ∷ rest) s =
    let (blocked, s') = charge_call fl lf clock c s in
    let passed = count_passed fl lf clock rest s' in if blocked then passed else 1 + passed
