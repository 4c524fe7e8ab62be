-- ===== src/Budget/Tracker.antt =====
-- src/budget/tracker.ts: `BudgetTracker`. The log is the text of the file; the clock, `JSON.parse` and
-- `JSON.stringify` of an entry, and the arithmetic on floating-point numbers are parameters.
pub mod Lines
pub mod Resumes
pub mod Limit
use clawthority.Base.{
  ℕ, zero, suc, ◌+◌, String, Bool, all, not, nat_eq, true, false, ◌≡◌, ◌&&◌, ◌||◌, leb, Option,
  none, some, List, [], ◌∷◌, ◌++◌, if◌then◌else◌, or_else,
}
use clawthority.Permits.Words.{Text}
use clawthority.Permits.Tokens.{trim}
use clawthority.Permits.Pattern.{is_empty}
use clawthority.Budget.Pricing.{Floats, estimate_cost}

-- `s.startsWith(prefix)`
abbrev pub starts_with : Text → Text → Bool
starts_with s [] = true
starts_with [] (_ ∷ _) = false
starts_with (c ∷ s) (d ∷ prefix) = nat_eq c d && starts_with s prefix

-- `toISOString()` of a time and its first ten characters, the day
pub record Clock : Type 0 where
  pub iso : ℕ → Text
  pub day : ℕ → Text
  pub iso_day : (t : ℕ) → starts_with (iso t) (day t) ≡ true

pub record BudgetEntry (F : Type 0) : Type 0 where
  pub ts : Text
  pub session_id : String
  pub model : String
  pub tokens : ℕ
  pub cost : F

-- What is read back of an entry: `entry.ts`, `entry.tokens` and `entry.cost`, which may be missing.
pub record ReadEntry (F : Type 0) : Type 0 where
  pub ts : Option Text
  pub tokens : Option ℕ
  pub cost : Option F

abbrev pub as_read : {F : Type 0} → BudgetEntry F → ReadEntry F
as_read e = record { ts = some e.ts; tokens = some e.tokens; cost = some e.cost }

abbrev pub newline : ℕ
newline = 10

-- The texts of entries. `parse` is `JSON.parse`, with none for a text that is malformed or no such
-- object. The text of an entry, whose numbers are finite, is on one line that is not blank, and is
-- read back as the entry.
pub record LogFormat (F : Type 0) : Type 0 where
  pub parse : Text → Option (ReadEntry F)
  pub stringify : BudgetEntry F → Text
  pub stringify_line : (e : BudgetEntry F) → all (λ c. not (nat_eq c newline)) (stringify e) ≡ true
  pub stringify_trim : (e : BudgetEntry F) → is_empty (trim (stringify e)) ≡ false
  pub parse_stringify : (e : BudgetEntry F) → parse (stringify e) ≡ some (as_read e)

-- The log: not there, not readable, or its text.
pub data LogFile : Type 0 where
  absent unreadable : LogFile
  content : Text → LogFile

pub record BudgetTracker (F : Type 0) : Type 0 where
  pub session_id : String
  pub model : String
  pub daily_token_limit : ℕ
  pub warn_at : ℕ
  pub daily_cost_limit : Option F
  pub hard_limit_enabled : Bool
  pub daily_tokens : ℕ
  pub daily_cost : F
  pub tracked_day : Text

pub record BudgetTrackerOptions (F : Type 0) : Type 0 where
  pub model : Option String
  pub daily_token_limit : Option ℕ
  pub warn_at : Option ℕ
  pub daily_cost_limit : Option F
  pub hard_limit_enabled : Option Bool

unfoldable is_of_day : Option Text → Text → Bool
is_of_day none day = false
is_of_day (some ts) day = starts_with ts day

unfoldable pub add_line : {F : Type 0} → Floats F → Text → Option (ReadEntry F) → ℕ × F → ℕ × F
unfolding is_of_day
add_line fl day none totals = totals
add_line fl day (some entry) totals =
    if is_of_day entry.ts day
    then (totals.0 + or_else entry.tokens 0, fl.plus totals.1 (or_else entry.cost fl.zero))
    else totals

-- Puts a character in front of the first line.
abbrev pub push_line : ℕ → List Text → List Text
push_line c [] = (c ∷ []) ∷ []
push_line c (line ∷ rest) = (c ∷ line) ∷ rest

-- `split('\n')`
unfoldable pub split_lines : Text → List Text
split_lines [] = [] ∷ []
split_lines (c ∷ s) =
    let rest = split_lines s in if nat_eq c newline then [] ∷ rest else push_line c rest

-- What is read of a line: nothing where it is blank or malformed.
unfoldable pub read_line : {F : Type 0} → LogFormat F → Text → Option (ReadEntry F)
read_line lf line = if is_empty (trim line) then none else lf.parse line

unfoldable pub sum_lines : {F : Type 0} → Floats F → LogFormat F → Text → List Text → ℕ × F → ℕ × F
sum_lines fl lf day [] totals = totals
sum_lines fl lf day (line ∷ rest) totals =
    sum_lines fl lf day rest (add_line fl day (read_line lf line) totals)

unfoldable pub read_today_totals : {F : Type 0} → Floats F → LogFormat F → Text → LogFile → ℕ × F
unfolding split_lines
read_today_totals fl lf day absent = (0, fl.zero)
read_today_totals fl lf day unreadable = (0, fl.zero)
read_today_totals fl lf day (content text) = sum_lines fl lf day (split_lines text) (0, fl.zero)

unfoldable pub new_tracker :
    {F : Type 0}
    → Floats F
    → LogFormat F
    → Clock
    → String
    → ℕ
    → BudgetTrackerOptions F
    → LogFile
    → BudgetTracker F
new_tracker fl lf clock uuid now opts file =
    let totals = read_today_totals fl lf (clock.day now) file in
    record {
      session_id = uuid;
      model = or_else opts.model "claude-sonnet-4-6";
      daily_token_limit = or_else opts.daily_token_limit 100000;
      warn_at = or_else opts.warn_at 80000;
      daily_cost_limit = opts.daily_cost_limit;
      hard_limit_enabled = or_else opts.hard_limit_enabled false;
      daily_tokens = totals.0;
      daily_cost = totals.1;
      tracked_day = clock.day now;
    }

pub record BudgetCheckResult (F : Type 0) : Type 0 where
  pub exceeded : Bool
  pub daily_tokens : ℕ
  pub daily_cost : F
  pub daily_token_limit : ℕ
  pub daily_cost_limit : Option F

unfoldable cost_exceeded : {F : Type 0} → Floats F → Option F → F → Bool
cost_exceeded fl none cost = false
cost_exceeded fl (some limit) cost = fl.at_least cost limit

unfoldable pub check : {F : Type 0} → Floats F → BudgetTracker F → BudgetCheckResult F
unfolding cost_exceeded
check fl t = record {
  exceeded =
      t.hard_limit_enabled
      && (leb t.daily_token_limit t.daily_tokens
          || cost_exceeded fl t.daily_cost_limit t.daily_cost);
  daily_tokens = t.daily_tokens;
  daily_cost = t.daily_cost;
  daily_token_limit = t.daily_token_limit;
  daily_cost_limit = t.daily_cost_limit;
}

-- How the write of a text ends: whole, cut off behind some characters, or not begun.
pub data Write : Type 0 where
  whole refused : Write
  cut : ℕ → Write

abbrev pub take : ℕ → Text → Text
take zero s = []
take (suc n) [] = []
take (suc n) (c ∷ s) = c ∷ take n s

unfoldable pub append_text : Text → LogFile → LogFile
append_text text absent = content text
append_text text unreadable = unreadable
append_text text (content before) = content (before ++ text)

-- `mkdirSync` and `appendFileSync`
unfoldable pub append_file : Write → Text → LogFile → LogFile
unfolding append_text
append_file whole text file = append_text text file
append_file (cut n) text file = append_text (take n text) file
append_file refused text file = file

-- One `append`: its arguments, the time, and how the write ends.
pub record Usage : Type 0 where
  pub input_tokens : ℕ
  pub output_tokens : ℕ
  pub model : Option String
  pub at : ℕ
  pub write : Write

-- The entry of a usage.
abbrev pub new_entry : {F : Type 0} → Floats F → Clock → Usage → BudgetTracker F → BudgetEntry F
new_entry fl clock u t = record {
  ts = clock.iso u.at;
  session_id = t.session_id;
  model = or_else u.model t.model;
  tokens = u.input_tokens + u.output_tokens;
  cost = estimate_cost fl (or_else u.model t.model) u.input_tokens u.output_tokens;
}

unfoldable pub append :
    {F : Type 0}
    → Floats F
    → LogFormat F
    → Clock
    → Usage
    → BudgetTracker F × LogFile
    → BudgetTracker F × LogFile
append fl lf clock u (t, file) =
    let tokens = u.input_tokens + u.output_tokens in
    let cost = estimate_cost fl (or_else u.model t.model) u.input_tokens u.output_tokens in
    (
      record t { daily_tokens = t.daily_tokens + tokens; daily_cost = fl.plus t.daily_cost cost },
      append_file u.write (lf.stringify (new_entry fl clock u t) ++ newline ∷ []) file,
    )

unfoldable pub append_all :
    {F : Type 0}
    → Floats F
    → LogFormat F
    → Clock
    → List Usage
    → BudgetTracker F × LogFile
    → BudgetTracker F × LogFile
append_all fl lf clock [] s = s
append_all fl lf clock (u ∷ rest) s = append_all fl lf clock rest (append fl lf clock u s)
