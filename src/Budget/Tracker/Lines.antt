-- ===== src/Budget/Tracker/Lines.antt =====
-- The text of the budget log (src/budget/tracker.ts) behind an `append`, split into lines.
use mathlib.Core.List.{append_assoc}
use clawthority.Base.{
  ℕ, true, false, ◌≡◌, refl, sym, ap, ◌∙◌, ◌⊎◌, inl, inr, all, not, nat_eq, some, List, [], ◌∷◌,
  ◌++◌, Bool-cases, arith,
}
use clawthority.Permits.Words.{Text}
use clawthority.Permits.Tokens.{trim, trim_start, trim_end}
use clawthority.Budget.Pricing.{Floats}
use clawthority.Budget.Tracker.{
  BudgetEntry, as_read, LogFormat, LogFile, absent, unreadable, content, newline, split_lines,
  read_line, add_line, sum_lines, read_today_totals, append_text,
}

-- Every text has a first line.
split_lines-first : (s : Text) → (line : Text) × (rest : List Text) × (split_lines s ≡ line ∷ rest)
unfolding split_lines
split_lines-first [] = ([], [], refl)
split_lines-first (c ∷ s) =
    let (line, rest, e) = split_lines-first s in
    elim (Bool-cases (nat_eq c newline)) [
      | inl p ↦ rw p ([], split_lines s, refl)
      | inr p ↦ rw (p, e) (c ∷ line, rest, refl)
    ]

-- A newline separates the lines in front of it from those behind it.
split_lines-newline : (s t : Text) → split_lines (s ++ newline ∷ t) ≡ split_lines s ++ split_lines t
unfolding split_lines
split_lines-newline [] t = refl
split_lines-newline (c ∷ s) t =
    let (line, rest, e) = split_lines-first s in
    elim (Bool-cases (nat_eq c newline)) [
      | inl p ↦ rw (p, split_lines-newline s t) refl
      | inr p ↦ rw (p, split_lines-newline s t, e) refl
    ]

split_lines-line : (s : Text) → all (λ c. not (nat_eq c newline)) s ≡ true → split_lines s ≡ s ∷ []
unfolding split_lines
split_lines-line [] h = refl
split_lines-line (c ∷ s) h =
    let other : nat_eq c newline ≡ false = ground arith in
    let rest : all (λ c. not (nat_eq c newline)) s ≡ true = ground arith in
    rw (other, split_lines-line s rest) refl

-- A text of whole lines: empty, or with a newline at its end.
abbrev pub IsTerminated : Text → Type 0
IsTerminated s = (s ≡ []) ⊎ ((front : Text) × (s ≡ front ++ newline ∷ []))

-- A log that can be read and holds whole lines.
abbrev pub IsWhole : LogFile → Type 0
IsWhole absent = Unit
IsWhole unreadable = ⊥
IsWhole (content s) = IsTerminated s

pub append_text-IsWhole :
    (line : Text) (file : LogFile)
    → IsWhole file
    → IsWhole (append_text (line ++ newline ∷ []) file)
unfolding append_text
append_text-IsWhole line absent h = inr (line, refl)
append_text-IsWhole line unreadable h = h
append_text-IsWhole line (content s) h = inr (s ++ line, sym (append_assoc s line (newline ∷ [])))

sum_lines-append :
    {F : Type 0} (fl : Floats F) (lf : LogFormat F) (day : Text) (a b : List Text) (totals : ℕ × F)
    → sum_lines fl lf day (a ++ b) totals ≡ sum_lines fl lf day b (sum_lines fl lf day a totals)
unfolding sum_lines
sum_lines-append fl lf day [] b totals = refl
sum_lines-append fl lf day (line ∷ a) b totals =
    sum_lines-append fl lf day a b (add_line fl day (read_line lf line) totals)

read_line-entry :
    {F : Type 0} (lf : LogFormat F) (e : BudgetEntry F)
    → read_line lf (lf.stringify e) ≡ some (as_read e)
unfolding read_line
read_line-entry lf e = rw (lf.stringify_trim e) (lf.parse_stringify e)

sum_lines-blank :
    {F : Type 0} (fl : Floats F) (lf : LogFormat F) (day : Text) (totals : ℕ × F)
    → sum_lines fl lf day ([] ∷ []) totals ≡ totals
unfolding sum_lines read_line add_line trim trim_start trim_end
sum_lines-blank fl lf day totals = refl

sum_lines-entry :
    {F : Type 0} (fl : Floats F) (lf : LogFormat F) (day : Text) (e : BudgetEntry F)
    (totals : ℕ × F)
    → sum_lines fl lf day (split_lines (lf.stringify e ++ newline ∷ [])) totals
      ≡ add_line fl day (some (as_read e)) totals
unfolding sum_lines split_lines
sum_lines-entry fl lf day e totals =
    ap (λ lines. sum_lines fl lf day lines totals)
      (split_lines-newline (lf.stringify e) []
        ∙ ap (λ lines. lines ++ [] ∷ []) (split_lines-line (lf.stringify e) (lf.stringify_line e)))
    ∙ sum_lines-blank fl lf day (add_line fl day (read_line lf (lf.stringify e)) totals)
    ∙ ap (λ x. add_line fl day x totals) (read_line-entry lf e)

sum_lines-newline :
    {F : Type 0} (fl : Floats F) (lf : LogFormat F) (day : Text) (front back : Text)
    (totals : ℕ × F)
    → sum_lines fl lf day (split_lines (front ++ newline ∷ back)) totals
      ≡ sum_lines fl lf day (split_lines back) (sum_lines fl lf day (split_lines front) totals)
sum_lines-newline fl lf day front back totals =
    ap (λ lines. sum_lines fl lf day lines totals) (split_lines-newline front back)
    ∙ sum_lines-append fl lf day (split_lines front) (split_lines back) totals

-- Behind a log of whole lines an entry is read back, and nothing else is read otherwise.
pub read-append_text :
    {F : Type 0} (fl : Floats F) (lf : LogFormat F) (day : Text) (e : BudgetEntry F)
    (file : LogFile)
    → IsWhole file
    → read_today_totals fl lf day (append_text (lf.stringify e ++ newline ∷ []) file)
      ≡ add_line fl day (some (as_read e)) (read_today_totals fl lf day file)
unfolding read_today_totals append_text split_lines
read-append_text fl lf day e absent h = sum_lines-entry fl lf day e (0, fl.zero)
read-append_text fl lf day e unreadable h = absurd h
read-append_text fl lf day e (content s) (inl p) =
    let line = lf.stringify e ++ newline ∷ [] in
    let read = λ (t : Text). sum_lines fl lf day (split_lines t) (0, fl.zero) in
    ap (λ t. read (t ++ line)) p
    ∙ sum_lines-entry fl lf day e (0, fl.zero)
    ∙ ap (add_line fl day (some (as_read e)))
        (sym (ap read p ∙ sum_lines-blank fl lf day (0, fl.zero)))
read-append_text fl lf day e (content s) (inr (front, p)) =
    let line = lf.stringify e ++ newline ∷ [] in
    let before = sum_lines fl lf day (split_lines front) (0, fl.zero) in
    let read = λ (t : Text). sum_lines fl lf day (split_lines t) (0, fl.zero) in
    ap read (ap (λ t. t ++ line) p ∙ append_assoc front (newline ∷ []) line)
    ∙ sum_lines-newline fl lf day front line (0, fl.zero)
    ∙ sum_lines-entry fl lf day e before
    ∙ ap (add_line fl day (some (as_read e))) (
        sym (
          ap read p
          ∙ sum_lines-newline fl lf day front [] (0, fl.zero)
          ∙ sum_lines-blank fl lf day before))
