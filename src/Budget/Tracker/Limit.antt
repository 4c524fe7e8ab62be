-- ===== src/Budget/Tracker/Limit.antt =====
-- The limit of the budget (src/budget/tracker.ts).
use clawthority.Base.{ℕ, ◌+◌, ◌≤◌, ◌<◌, true, false, ◌≡◌, refl, ◌∙◌, List, [], ◌∷◌, arith}
use clawthority.Budget.Pricing.{Floats}
use clawthority.Budget.Tracker.{
  Clock, LogFormat, LogFile, BudgetTracker, check, Usage, append, append_all,
}

-- What a tracker counts: the input and the output.
abbrev pub sum_tokens : List Usage → ℕ
sum_tokens [] = 0
sum_tokens (u ∷ rest) = u.input_tokens + u.output_tokens + sum_tokens rest

append_all-daily_tokens :
    {F : Type 0} (fl : Floats F) (lf : LogFormat F) (clock : Clock) (usages : List Usage)
    (s : BudgetTracker F × LogFile)
    → (append_all fl lf clock usages s).0.daily_tokens ≡ s.0.daily_tokens + sum_tokens usages
unfolding append_all append
append_all-daily_tokens fl lf clock [] s = omega arith
append_all-daily_tokens fl lf clock (u ∷ rest) (t, file) =
    append_all-daily_tokens fl lf clock rest (append fl lf clock u (t, file)) ∙ omega arith

append_all-limits :
    {F : Type 0} (fl : Floats F) (lf : LogFormat F) (clock : Clock) (usages : List Usage)
    (s : BudgetTracker F × LogFile)
    → ((append_all fl lf clock usages s).0.daily_token_limit ≡ s.0.daily_token_limit)
      × ((append_all fl lf clock usages s).0.hard_limit_enabled ≡ s.0.hard_limit_enabled)
unfolding append_all append
append_all-limits fl lf clock [] s = (refl, refl)
append_all-limits fl lf clock (u ∷ rest) (t, file) =
    append_all-limits fl lf clock rest (append fl lf clock u (t, file))

check-reached :
    {F : Type 0} (fl : Floats F) (t : BudgetTracker F)
    → t.hard_limit_enabled ≡ true
    → t.daily_token_limit ≤ t.daily_tokens
    → (check fl t).exceeded ≡ true
unfolding check
check-reached fl t hard reached = rw hard (ground arith)

pub check-below :
    {F : Type 0} (fl : Floats F) (t : BudgetTracker F)
    → t.hard_limit_enabled ≡ true
    → (check fl t).exceeded ≡ false
    → t.daily_tokens < t.daily_token_limit
unfolding check
check-below fl t hard passed = let h = rw hard at passed in ground arith

-- Where the hard limit is on, a tracker whose tokens and those of the usages that follow reach the
-- limit together says that the budget is exceeded, on whatever days the usages are, and
-- however the writes of the log end.
pub append_all-exceeded :
    {F : Type 0} (fl : Floats F) (lf : LogFormat F) (clock : Clock) (usages : List Usage)
    (t : BudgetTracker F) (file : LogFile)
    → t.hard_limit_enabled ≡ true
    → t.daily_token_limit ≤ t.daily_tokens + sum_tokens usages
    → (check fl (append_all fl lf clock usages (t, file)).0).exceeded ≡ true
append_all-exceeded fl lf clock usages t file hard reached =
    let tokens = append_all-daily_tokens fl lf clock usages (t, file) in
    let (limit, enabled) = append_all-limits fl lf clock usages (t, file) in
    check-reached fl (append_all fl lf clock usages (t, file)).0 (enabled ∙ hard)
      (rw (limit, tokens) reached)
