-- ===== src/Examples/Budgets.antt =====
-- The budget tracker on a concrete log. Costs are counted in units of 10^-8 dollars.
use clawthority.Base.{
  ℕ, ◌+◌, ◌-◌, ◌*◌, ◌≤◌, true, false, ◌≡◌, refl, Option, none, some, List, [], ◌∷◌, ◌++◌, Memᴰ, leb,
  arith, all, not, nat_eq, ◌⊎◌, inl, inr, if◌then◌else◌,
}
use clawthority.Permits.Words.{Text, codes}
use clawthority.Permits.Tokens.{is_white, trim, trim_start, trim_end}
use clawthority.Permits.Pattern.{is_empty}
use clawthority.Budget.Pricing.{Floats}
use clawthority.Budget.Tracker.{
  Clock, BudgetEntry, ReadEntry, as_read, LogFormat, LogFile, content, newline, BudgetTracker,
  BudgetTrackerOptions, new_tracker, check, Usage, whole, cut, append_all, read_today_totals,
  sum_lines, add_line, split_lines, read_line,
}
use clawthority.Budget.Tracker.Lines.{IsWhole}
use clawthority.Budget.Tracker.Resumes.{IsWritten, append_all-check}
use clawthority.Budget.Tracker.Limit.{append_all-exceeded}
use clawthority.Budget.Hook.{ChargedCall, count_passed}
use clawthority.Budget.Hook.Bound.{count_passed_bound}

abbrev units : Floats ℕ
units = record {
  zero = 0;
  hundredths = λ n. n;
  millions = λ n. n;
  plus = λ x y. x + y;
  times = λ x y. x * y;
  at_least = λ x y. leb y x;
}

-- Every time is on one day.
abbrev one_day : Clock
one_day = record {
  iso = λ t. codes "2026-05-01T00";
  day = λ t. codes "2026-05-01";
  iso_day = λ t. refl;
}

-- A text of an entry: a brace, the tokens, the cost and the time, each number raised by 11.
abbrev raised : Text → Text
raised [] = []
raised (c ∷ s) = (c + 11) ∷ raised s

abbrev lowered : Text → Text
lowered [] = []
lowered (c ∷ s) = (c - 11) ∷ lowered s

lowered-raised : (s : Text) → lowered (raised s) ≡ s
lowered-raised [] = refl
lowered-raised (c ∷ s) =
    let rest = lowered-raised s in let first : c + 11 - 11 ≡ c = omega arith in cc

raised-line : (s : Text) → all (λ c. not (nat_eq c newline)) (raised s) ≡ true
raised-line [] = refl
raised-line (c ∷ s) = ground (arith, raised-line s)

abbrev entry_text : BudgetEntry ℕ → Text
entry_text e = b'{' ∷ raised (e.tokens ∷ e.cost ∷ e.ts)

abbrev read_entry : Text → Option (ReadEntry ℕ)
read_entry [] = none
read_entry (brace ∷ []) = none
read_entry (brace ∷ tokens ∷ []) = none
read_entry (brace ∷ tokens ∷ cost ∷ ts) =
    if nat_eq brace b'{'
    then some
        record { ts = some (lowered ts); tokens = some (tokens - 11); cost = some (cost - 11) }
    else none

Text-cases : (s : Text) → (s ≡ []) ⊎ ((c : ℕ) × (t : Text) × (s ≡ c ∷ t))
Text-cases [] = inl refl
Text-cases (c ∷ t) = inr (c, t, refl)

trim_end-brace : (s : Text) → is_empty (trim_end (b'{' ∷ s)) ≡ false
unfolding trim_end is_white
trim_end-brace s = elim (Text-cases (trim_end s)) [
  | inl p ↦ rw (p, trim_end) refl
  | inr (c, t, p) ↦ rw (p, trim_end) refl
]

entry_text-trim : (e : BudgetEntry ℕ) → is_empty (trim (entry_text e)) ≡ false
unfolding trim trim_start is_white
entry_text-trim e = trim_end-brace (raised (e.tokens ∷ e.cost ∷ e.ts))

read_entry-entry_text : (e : BudgetEntry ℕ) → read_entry (entry_text e) ≡ some (as_read e)
read_entry-entry_text e =
    let tokens : e.tokens + 11 - 11 ≡ e.tokens = omega arith in
    let cost : e.cost + 11 - 11 ≡ e.cost = omega arith in
    rw (tokens, cost, lowered-raised e.ts) refl

entry_text-line : (e : BudgetEntry ℕ) → all (λ c. not (nat_eq c newline)) (entry_text e) ≡ true
entry_text-line e = raised-line (e.tokens ∷ e.cost ∷ e.ts)

abbrev format : LogFormat ℕ
format = record {
  parse = read_entry;
  stringify = entry_text;
  stringify_line = entry_text-line;
  stringify_trim = entry_text-trim;
  parse_stringify = read_entry-entry_text;
}

abbrev options : BudgetTrackerOptions ℕ
options = record {
  model = none;
  daily_token_limit = some 1000;
  warn_at = none;
  daily_cost_limit = none;
  hard_limit_enabled = some true;
}

abbrev earlier : Text → ℕ → BudgetEntry ℕ
earlier ts tokens = record {
  ts = ts;
  session_id = "s0";
  model = "claude-3-opus";
  tokens = tokens;
  cost = 600000;
}

-- A usage of today, a blank line, one of an earlier day and a malformed line.
abbrev log_text : Text
log_text =
    entry_text (earlier (codes "2026-05-01T08") 400)
    ++ newline ∷ newline ∷ entry_text (earlier (codes "2026-04-30T08") 900)
    ++ newline ∷ b'x' ∷ newline ∷ []

abbrev log : LogFile
log = content log_text

log-IsWhole : IsWhole log
log-IsWhole = inr (
  entry_text (earlier (codes "2026-05-01T08") 400)
      ++ newline ∷ newline ∷ entry_text (earlier (codes "2026-04-30T08") 900)
      ++ newline ∷ b'x' ∷ [],
  refl,
)

abbrev usage : Usage
usage = record { input_tokens = 700; output_tokens = 0; model = none; at = 5; write = whole }

usage-IsWritten : (u : Usage) → Memᴰ u (usage ∷ []) → IsWritten one_day (one_day.day 0) u
usage-IsWritten u (Memᴰ.head e) = rw e (refl, refl)
usage-IsWritten u (Memᴰ.tail m) = elim m [ ]

append_all-check_example :
    let s =
      append_all units format one_day
        (usage ∷ [])
        (new_tracker units format one_day "s1" 0 options log, log) in
    check units (new_tracker units format one_day "s2" 9 options s.1) ≡ check units s.0
append_all-check_example =
    append_all-check units format one_day "s1" "s2" 0 9 options log (usage ∷ []) log-IsWhole
      usage-IsWritten refl

abbrev started : BudgetTracker ℕ
started = new_tracker units format one_day "s1" 0 options log

started_tokens : started.daily_tokens ≡ 400
unfolding new_tracker read_today_totals sum_lines add_line split_lines read_line trim
started_tokens = refl

limit_reached : started.daily_token_limit ≤ started.daily_tokens + 700
unfolding new_tracker read_today_totals sum_lines add_line split_lines read_line trim
limit_reached = omega arith

started_hard : started.hard_limit_enabled ≡ true
unfolding new_tracker
started_hard = refl

append_all-exceeded_example :
    (check units (append_all units format one_day (usage ∷ []) (started, log)).0).exceeded ≡ true
append_all-exceeded_example =
    append_all-exceeded units format one_day (usage ∷ []) started log started_hard limit_reached

abbrev charged_calls : List ChargedCall
charged_calls =
    record { param_length = 90; at = 5; write = whole }
    ∷ record { param_length = 4000; at = 6; write = cut 3 }
    ∷ []

count_passed_bound_example :
    count_passed units format one_day charged_calls (started, log)
    ≤ started.daily_token_limit - started.daily_tokens
count_passed_bound_example =
    count_passed_bound units format one_day charged_calls started log started_hard
