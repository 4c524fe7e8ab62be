-- ===== src/Policy/Engine/Window.antt =====
-- The sliding window of `checkAndRecordRateLimit` in src/policy/engine.ts, over a sequence of calls.
use clawthority.Base.{
  ℕ, ◌+◌, ◌*◌, ◌≤◌, String, ◌≡◌, Bool, ◌&&◌, List, [], ◌∷◌, ltb, leb, nat_eq, ◌==◌, or_else,
  if◌then◌else◌, not,
}
use clawthority.Base.Maps.{get, nat_key, string_key}
use clawthority.Policy.Types.{RuleContext, RateLimit, Rule}
use clawthority.Policy.Engine.{
  PolicyEngine, keep_fresh, slide_window, tracking_key, check_and_record_rate_limit,
}

abbrev pub window_ms : RateLimit → ℕ
window_ms rl = rl.window_seconds * 1000

-- How many timestamps are not before `t`.
abbrev count_from : ℕ → List ℕ → ℕ
count_from t [] = 0
count_from t (x ∷ xs) = (if leb t x then 1 else 0) + count_from t xs

-- How many timestamps lie in the window of `w` milliseconds that begins at `t`.
abbrev pub count_within : ℕ → ℕ → List ℕ → ℕ
count_within t w [] = 0
count_within t w (x ∷ xs) = (if leb t x && ltb x (t + w) then 1 else 0) + count_within t w xs

-- The clock does not run backwards.
abbrev pub Ascending : ℕ → List ℕ → Type 0
Ascending last [] = Unit
Ascending last (x ∷ xs) = (last ≤ x) × Ascending x xs

-- The times of the calls that one key lets pass, from the timestamps that it has recorded.
passed : RateLimit → List ℕ → List ℕ → List ℕ
passed rl stamps [] = []
passed rl stamps (now ∷ later) =
    let (check, stamps') = slide_window rl now stamps in
    let rest = passed rl stamps' later in if check.exceeded then rest else now ∷ rest

abbrev fresh_at : RateLimit → ℕ → List ℕ → List ℕ
fresh_at rl now stamps = keep_fresh now (window_ms rl) stamps

-- A call of a permit rule with a rate limit.
pub record Call : Type 0 where
  pub rule : Rule
  pub limit : RateLimit
  pub resource_name : String
  pub ctx : RuleContext
  pub now : ℕ

abbrev pub same_key : ℕ → String → Call → Bool
same_key ref key c = nat_eq c.rule.ref ref && tracking_key c.ctx c.resource_name == key

-- The timestamps recorded for a rule object and a key.
abbrev stamps_of : ℕ → String → PolicyEngine → List ℕ
stamps_of ref key e = or_else (get key (or_else (get ref e.rate_limit_tracking) [])) []

-- The times of the calls of one rule object with one key.
abbrev times_of : ℕ → String → List Call → List ℕ
times_of ref key [] = []
times_of ref key (c ∷ cs) =
    let rest = times_of ref key cs in if same_key ref key c then c.now ∷ rest else rest

-- The times of the calls of one rule object with one key that the engine lets pass, among calls of
-- any rules with any keys.
pub admitted : ℕ → String → PolicyEngine → List Call → List ℕ
admitted ref key e [] = []
admitted ref key e (c ∷ cs) =
    let (check, e') = check_and_record_rate_limit c.rule c.limit c.resource_name c.ctx c.now e in
    let rest = admitted ref key e' cs in
    if same_key ref key c && not check.exceeded then c.now ∷ rest else rest

-- Every call of the rule object carries its rate limit.
abbrev pub HasLimit : ℕ → RateLimit → Call → Type 0
HasLimit ref rl c = c.rule.ref ≡ ref → c.limit ≡ rl
