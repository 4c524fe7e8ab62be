-- ===== src/Budget/Tracker/Resumes.antt =====
-- A budget tracker (src/budget/tracker.ts) that is started again in the same day.
use mathlib.Core.Path.{subst}
use clawthority.Base.{ℕ, String, true, ◌≡◌, refl, sym, ap, ◌∙◌, some, List, [], ◌∷◌, ◌++◌, Memᴰ}
use clawthority.Permits.Words.{Text}
use clawthority.Budget.Pricing.{Floats}
use clawthority.Budget.Tracker.{
  Clock, starts_with, as_read, LogFormat, LogFile, whole, newline, BudgetTracker,
  BudgetTrackerOptions, add_line, read_today_totals, new_tracker, check, append_text, append_file,
  new_entry, Usage, append, append_all,
}
use clawthority.Budget.Tracker.Lines.{IsWhole, append_text-IsWhole, read-append_text}

-- The log gives the totals of the tracker, and the tracker has the limits of the options.
abbrev Agrees : {F : Type 0} → Floats F → LogFormat F → BudgetTracker F × LogFile → Type 0
Agrees fl lf (t, file) =
    IsWhole file × (read_today_totals fl lf t.tracked_day file ≡ (t.daily_tokens, t.daily_cost))

-- The usage is written to the log, and in the day.
abbrev pub IsWritten : Clock → Text → Usage → Type 0
IsWritten clock day u = (u.write ≡ whole) × (clock.day u.at ≡ day)

append-Agrees :
    {F : Type 0} (fl : Floats F) (lf : LogFormat F) (clock : Clock) (u : Usage)
    (t : BudgetTracker F) (file : LogFile)
    → IsWritten clock t.tracked_day u
    → Agrees fl lf (t, file)
    → Agrees fl lf (append fl lf clock u (t, file))
unfolding append add_line append_file
append-Agrees fl lf clock u t file (w, same) (readable, totals) =
    let entry = new_entry fl clock u t in
    let today : starts_with (clock.iso u.at) t.tracked_day ≡ true =
      rw same at (clock.iso_day u.at) in
    let line = lf.stringify entry ++ newline ∷ [] in
    let put : append_file u.write line file ≡ append_text line file =
      ap (λ x. append_file x line file) w in
    (
      subst IsWhole (sym put) (append_text-IsWhole (lf.stringify entry) file readable),
      ap (read_today_totals fl lf t.tracked_day) put
          ∙ read-append_text fl lf t.tracked_day entry file readable
          ∙ ap (add_line fl t.tracked_day (some (as_read entry))) totals
          ∙ rw today refl,
    )

append_all-Agrees :
    {F : Type 0} (fl : Floats F) (lf : LogFormat F) (clock : Clock) (usages : List Usage)
    (s : BudgetTracker F × LogFile)
    → ((u : Usage) → Memᴰ u usages → IsWritten clock s.0.tracked_day u)
    → Agrees fl lf s
    → Agrees fl lf (append_all fl lf clock usages s)
unfolding append_all append
append_all-Agrees fl lf clock [] s written h = h
append_all-Agrees fl lf clock (u ∷ rest) (t, file) written h =
    append_all-Agrees fl lf clock rest (append fl lf clock u (t, file))
      (λ v m. written v (Memᴰ.tail m))
      (append-Agrees fl lf clock u t file (written u (Memᴰ.head refl)) h)

-- What `append` leaves as it was constructed.
abbrev SameLimits : {F : Type 0} → BudgetTracker F → BudgetTracker F → Type 0
SameLimits t u =
    ((t.daily_token_limit ≡ u.daily_token_limit) × (t.daily_cost_limit ≡ u.daily_cost_limit))
    × ((t.hard_limit_enabled ≡ u.hard_limit_enabled) × (t.tracked_day ≡ u.tracked_day))

append_all-SameLimits :
    {F : Type 0} (fl : Floats F) (lf : LogFormat F) (clock : Clock) (usages : List Usage)
    (s : BudgetTracker F × LogFile)
    → SameLimits (append_all fl lf clock usages s).0 s.0
unfolding append_all append
append_all-SameLimits fl lf clock [] s = ((refl, refl), (refl, refl))
append_all-SameLimits fl lf clock (u ∷ rest) (t, file) =
    append_all-SameLimits fl lf clock rest (append fl lf clock u (t, file))

check-congruent :
    {F : Type 0} (fl : Floats F) (t u : BudgetTracker F)
    → t.daily_token_limit ≡ u.daily_token_limit
    → t.daily_cost_limit ≡ u.daily_cost_limit
    → t.hard_limit_enabled ≡ u.hard_limit_enabled
    → t.daily_tokens ≡ u.daily_tokens
    → t.daily_cost ≡ u.daily_cost
    → check fl t ≡ check fl u
unfolding check
check-congruent fl t u limit cost_limit hard tokens cost =
    rw (limit, cost_limit, hard, tokens, cost) refl

-- A tracker that is started where there is no log, or a readable one of whole lines, and whose usages
-- are all written to the log whole and within its day, is replaced within that day by a new tracker on the log with the same options: both
-- answer `check` alike, whatever the arithmetic on floating-point numbers is.
pub append_all-check :
    {F : Type 0} (fl : Floats F) (lf : LogFormat F) (clock : Clock) (uuid uuid' : String)
    (now later : ℕ) (opts : BudgetTrackerOptions F) (file : LogFile) (usages : List Usage)
    → IsWhole file
    → ((u : Usage) → Memᴰ u usages → IsWritten clock (clock.day now) u)
    → clock.day later ≡ clock.day now
    → let s = append_all fl lf clock usages (new_tracker fl lf clock uuid now opts file, file) in
      check fl (new_tracker fl lf clock uuid' later opts s.1) ≡ check fl s.0
unfolding new_tracker
append_all-check fl lf clock uuid uuid' now later opts file usages readable written same =
    let t = new_tracker fl lf clock uuid now opts file in
    let (_, totals) = append_all-Agrees fl lf clock usages (t, file) written (readable, refl) in
    let ((limit, cost_limit), (hard, day)) = append_all-SameLimits fl lf clock usages (t, file) in
    let s = append_all fl lf clock usages (t, file) in
    let read = ap (λ d. read_today_totals fl lf d s.1) (same ∙ sym day) ∙ totals in
    check-congruent fl (new_tracker fl lf clock uuid' later opts s.1) s.0 (sym limit)
      (sym cost_limit) (sym hard) (ap (λ x. x.0) read) (ap (λ x. x.1) read)
