-- ===== src/Budget/Pricing.antt =====
-- src/budget/pricing.ts: the prices of the models. The arithmetic on floating-point numbers is a
-- parameter. A model's name is not one of the properties that every JavaScript object has.
use text.Mathlib.Text.{starts_with}
use clawthority.Base.{
  ℕ, String, Bool, true, ◌&&◌, Option, none, some, List, [], ◌∷◌, length, if◌then◌else◌, ltb, ◌==◌,
}
use clawthority.Base.Maps.{get, string_key}
use clawthority.Permits.Words.{codes}

-- The numbers of the source that are not whole: `hundredths n` is the literal of n / 100, `millions n`
-- is `n / 1_000_000`, and `at_least x y` is `x >= y`.
pub record Floats (F : Type 0) : Type 0 where
  pub zero : F
  pub hundredths : ℕ → F
  pub millions : ℕ → F
  pub plus : F → F → F
  pub times : F → F → F
  pub at_least : F → F → Bool

pub record ModelPricing : Type 0 where
  pub input_cost_per_million : ℕ
  pub output_cost_per_million : ℕ

-- The prices in hundredths of a dollar.
abbrev price : ℕ → ℕ → ModelPricing
price i o = record { input_cost_per_million = i; output_cost_per_million = o }

abbrev default_pricing : ModelPricing
default_pricing = price 300 1500

-- `PRICING` without its entry `default`
abbrev pricing : List (String × ModelPricing)
pricing =
    ("claude-opus-4-6", price 1500 7500)
    ∷ ("claude-sonnet-4-6", price 300 1500)
    ∷ ("claude-haiku-4-5", price 80 400)
    ∷ ("claude-3-5-sonnet", price 300 1500)
    ∷ ("claude-3-5-haiku", price 80 400)
    ∷ ("claude-3-opus", price 1500 7500)
    ∷ ("claude-3-sonnet", price 300 1500)
    ∷ ("claude-3-haiku", price 25 125)
    ∷ []

-- `bestKey === undefined || key.length > bestKey.length`, with the price of the best key
unfoldable is_longer : String → Option (String × ModelPricing) → Bool
is_longer key none = true
is_longer key (some best) = ltb (length (codes best.0)) (length (codes key))

unfoldable best_prefix :
    String
    → List (String × ModelPricing)
    → Option (String × ModelPricing)
    → Option (String × ModelPricing)
best_prefix model [] best = best
best_prefix model (entry ∷ rest) best =
    best_prefix model rest
      (if starts_with model entry.0 && is_longer entry.0 best then some entry else best)

unfoldable price_or_default : Option (String × ModelPricing) → ModelPricing
price_or_default none = default_pricing
price_or_default (some best) = best.1

unfoldable pub resolve_pricing : String → ModelPricing
unfolding best_prefix is_longer price_or_default
resolve_pricing model = if model == "default" then default_pricing else elim (get model pricing) [
  | some exact ↦ exact
  | none ↦ price_or_default (best_prefix model pricing none)
]

unfoldable pub estimate_cost : {F : Type 0} → Floats F → String → ℕ → ℕ → F
unfolding resolve_pricing
estimate_cost fl model input_tokens output_tokens =
    let p = resolve_pricing model in
    fl.plus (fl.times (fl.millions input_tokens) (fl.hundredths p.input_cost_per_million))
      (fl.times (fl.millions output_tokens) (fl.hundredths p.output_cost_per_million))
