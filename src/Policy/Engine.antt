-- ===== src/Policy/Engine.antt =====
-- src/policy/engine.ts: the Cedar-style engine. `Date.now()` is the argument `now`, and
-- `toLowerCase` is the parameter `lower`, since it rests on the Unicode tables of the host. The
-- cleanup timer is left out: `cleanup` is the call that it makes.
pub mod Matching
pub mod Cedar
pub mod ActionClass
pub mod Window
pub mod Frame
pub mod Cleanup
pub mod Groups
use clawthority.Base.{
  ℕ, ◌+◌, ◌*◌, ◌/◌, ◌%◌, zero, suc, String, Bool, true, false, ◌&&◌, Option, none, some, List, [],
  ◌∷◌, ◌++◌, ◌==◌, ltb, leb, nat_eq, length, any, absent_or, present_and, or_else, if◌then◌else◌,
  decide,
}
use Prim.Native.Char.{Char, code}
use Prim.Native.String
use mathlib.Core.Option
use clawthority.Base.Results.{Result, ok, threw, ◌>>=◌}
use clawthority.Base.Maps.{get, put, nat_key, string_key}
use clawthority.Base.Text.{split, decimal}
use clawthority.Policy.Types.{
  Effect, permit, forbid, Resource, resource_text, RuleContext, RateLimit, Pattern, literal, regexp,
  Rule,
}

pub record RateLimitStatus : Type 0 where
  pub limited : Bool
  pub max_calls : ℕ
  pub window_seconds : ℕ
  pub current_count : ℕ
  pub oldest_call_expires_at : Option ℕ

pub record EvaluationDecision : Type 0 where
  pub effect : Effect
  pub reason : Option String
  pub matched_rule : Option Rule
  pub rate_limit : Option RateLimitStatus

-- The rate-limit timestamps: for each rule object, for each `agentId:resourceName`.
abbrev pub Tracking : Type 0
Tracking = List (ℕ × List (String × List ℕ))

pub record PolicyEngine : Type 0 where
  pub rules : List Rule
  pub default_effect : Effect
  pub rate_limit_tracking : Tracking

-- `new PolicyEngine({ defaultEffect })`
unfoldable pub new_engine : Option Effect → PolicyEngine
new_engine effect = record {
  rules = [];
  default_effect = or_else effect permit;
  rate_limit_tracking = [];
}

unfoldable pub add_rule : Rule → PolicyEngine → PolicyEngine
add_rule r e = record e { rules = e.rules ++ r ∷ [] }

unfoldable pub add_rules : List Rule → PolicyEngine → PolicyEngine
unfolding add_rule
add_rules [] e = e
add_rules (r ∷ rs) e = add_rules rs (add_rule r e)

unfoldable pub clear_rules : PolicyEngine → PolicyEngine
clear_rules e = record e { rules = []; rate_limit_tracking = [] }

abbrev pub is_permit : Effect → Bool
is_permit permit = true
is_permit forbid = false

abbrev pub is_forbid : Effect → Bool
is_forbid permit = false
is_forbid forbid = true

-- The timestamps with `now - ts < windowMs`. The difference may be negative in the source, and
-- `now < ts + windowMs` says the same on natural numbers.
unfoldable pub keep_fresh : ℕ → ℕ → List ℕ → List ℕ
keep_fresh now window_ms [] = []
keep_fresh now window_ms (ts ∷ prev) =
    let rest = keep_fresh now window_ms prev in if ltb now (ts + window_ms) then ts ∷ rest else rest

-- `Math.min(...xs)` of a list that is not empty
unfoldable pub minimum : ℕ → List ℕ → ℕ
minimum x [] = x
minimum x (y ∷ ys) = minimum (if ltb y x then y else x) ys

unfoldable pub oldest_expires : ℕ → List ℕ → Option ℕ
unfolding minimum
oldest_expires window_ms [] = none
oldest_expires window_ms (x ∷ xs) = some (minimum x xs + window_ms)

pub record LimitCheck : Type 0 where
  pub exceeded : Bool
  pub current_count : ℕ
  pub oldest_call_expires_at : Option ℕ

-- What `checkAndRecordRateLimit` does with the timestamps of one key.
unfoldable pub slide_window : RateLimit → ℕ → List ℕ → LimitCheck × List ℕ
unfolding keep_fresh oldest_expires
slide_window rl now prev =
    let window_ms = rl.window_seconds * 1000 in
    let fresh = keep_fresh now window_ms prev in
    let recorded = fresh ++ now ∷ [] in
    if leb rl.max_calls (length fresh)
    then (
      record {
        exceeded = true;
        current_count = length fresh;
        oldest_call_expires_at = oldest_expires window_ms fresh;
      },
      fresh,
    )
    else (
      record {
        exceeded = false;
        current_count = length recorded;
        oldest_call_expires_at = oldest_expires window_ms recorded;
      },
      recorded,
    )

unfoldable pub tracking_key : RuleContext → String → String
tracking_key ctx resource_name = String.◌++◌ ctx.agent_id (String.◌++◌ ":" resource_name)

unfoldable pub check_and_record_rate_limit :
    Rule → RateLimit → String → RuleContext → ℕ → PolicyEngine → LimitCheck × PolicyEngine
unfolding slide_window tracking_key get put
check_and_record_rate_limit r rl resource_name ctx now e =
    let key = tracking_key ctx resource_name in
    let window_map = or_else (get r.ref e.rate_limit_tracking) [] in
    let (check, stamps) = slide_window rl now (or_else (get key window_map) []) in
    (
      check,
      record e {
        rate_limit_tracking = put r.ref (put key stamps window_map) e.rate_limit_tracking;
      },
    )

-- The inner loop of `cleanup`: the keys of one rule that still have a timestamp in the window.
unfoldable pub cleanup_keys : ℕ → ℕ → List (String × List ℕ) → List (String × List ℕ)
unfolding keep_fresh
cleanup_keys now window_ms [] = []
cleanup_keys now window_ms ((key, stamps) ∷ m) =
    let rest = cleanup_keys now window_ms m in
    elim (keep_fresh now window_ms stamps) [ [] ↦ rest | t ∷ ts ↦ (key, t ∷ ts) ∷ rest ]

-- The rule object that a tracking entry belongs to. A rule that is tracked has a rate limit, and
-- one that `rate_limit_of` does not know has none (`if (!rule.rateLimit) continue`).
unfoldable pub cleanup_rules : (ℕ → Option RateLimit) → ℕ → Tracking → Tracking
unfolding cleanup_keys
cleanup_rules rate_limit_of now [] = []
cleanup_rules rate_limit_of now ((ref, m) ∷ t) =
    let rest = cleanup_rules rate_limit_of now t in
    elim (rate_limit_of ref) [
      | none ↦ (ref, m) ∷ rest
      | some rl ↦ elim (cleanup_keys now (rl.window_seconds * 1000) m) [
        | [] ↦ rest
        | k ∷ ks ↦ (ref, k ∷ ks) ∷ rest
      ]
    ]

unfoldable pub cleanup : (ℕ → Option RateLimit) → ℕ → PolicyEngine → PolicyEngine
unfolding cleanup_rules
cleanup rate_limit_of now e = record e {
  rate_limit_tracking = cleanup_rules rate_limit_of now e.rate_limit_tracking;
}

-- `actionClass.split('.')[0]`, by the `switch`
unfoldable pub map_prefix : String → Resource
map_prefix prefix =
    if prefix == "filesystem"
    then Resource.file
    else if prefix == "communication"
    then Resource.external
    else if prefix == "payment"
    then Resource.payment
    else if prefix == "system"
    then Resource.system
    else if prefix == "credential"
    then Resource.credential
    else if prefix == "browser"
    then Resource.web
    else if prefix == "memory"
    then Resource.memory
    else Resource.unknown

abbrev pub head_or : String → List String → String
head_or d [] = d
head_or d (x ∷ xs) = x

unfoldable pub map_action_class_to_resource : String → Resource
unfolding map_prefix split
map_action_class_to_resource action_class =
    if action_class == "unknown_sensitive_action"
    then Resource.unknown
    else map_prefix (head_or "" (split b'.' action_class))

-- `rule.condition === undefined || rule.condition(context)`
unfoldable pub holds : Option (RuleContext → Result Bool) → RuleContext → Result Bool
holds none ctx = ok true
holds (some condition) ctx = condition ctx

-- The loops that collect the matching rules. `selects` stands for the tests above the condition.
unfoldable pub collect : (Rule → Bool) → RuleContext → List Rule → Result (List Rule)
unfolding holds
collect selects ctx [] = ok []
collect selects ctx (r ∷ rs) =
    let later = collect selects ctx rs in
    if selects r
    then (do b ← holds r.condition ctx; ms ← later; ok (if b then r ∷ ms else ms))
    else later

-- The first rule with the effect.
unfoldable pub first_with : Effect → List Rule → Option Rule
first_with permit [] = none
first_with permit (r ∷ rs) = if is_permit r.effect then some r else first_with permit rs
first_with forbid [] = none
first_with forbid (r ∷ rs) = if is_forbid r.effect then some r else first_with forbid rs

-- The decision that a rule without a rate limit gives.
unfoldable pub decide_by : Rule → EvaluationDecision
decide_by r = record {
  effect = r.effect;
  reason = r.reason;
  matched_rule = some r;
  rate_limit = none;
}

unfoldable pub rate_limit_reason : RateLimit → String
unfolding decimal
rate_limit_reason rl = String.◌++◌ "Rate limit exceeded: " (
    String.◌++◌ (decimal rl.max_calls)
      (String.◌++◌ " calls per " (String.◌++◌ (decimal rl.window_seconds) "s")))

abbrev status_of : RateLimit → LimitCheck → RateLimitStatus
status_of rl c = record {
  limited = c.exceeded;
  max_calls = rl.max_calls;
  window_seconds = rl.window_seconds;
  current_count = c.current_count;
  oldest_call_expires_at = c.oldest_call_expires_at;
}

-- The decision for a permit rule with a rate limit.
unfoldable pub decide_limited : Rule → RateLimit → LimitCheck → EvaluationDecision
unfolding rate_limit_reason
decide_limited r rl c =
    if c.exceeded
    then record {
      effect = forbid;
      reason = some (rate_limit_reason rl);
      matched_rule = some r;
      rate_limit = some (status_of rl c);
    }
    else record {
      effect = permit;
      reason = r.reason;
      matched_rule = some r;
      rate_limit = some (status_of rl c);
    }

abbrev default_reason : Effect → String
default_reason forbid = "No matching rule; implicit deny"
default_reason permit = "No matching rule; implicit permit"

unfoldable pub default_decision : PolicyEngine → EvaluationDecision
default_decision e = record {
  effect = e.default_effect;
  reason = some (default_reason e.default_effect);
  matched_rule = none;
  rate_limit = none;
}

-- A permit rule that is the first to match, with its rate limit if it has one.
unfoldable pub permit_by :
    Rule → String → RuleContext → ℕ → PolicyEngine → EvaluationDecision × PolicyEngine
unfolding decide_by decide_limited check_and_record_rate_limit
permit_by r resource_name ctx now e = elim r.rate_limit [
  | none ↦ (decide_by r, e)
  | some rl ↦
      let (check, e') = check_and_record_rate_limit r rl resource_name ctx now e in
      (decide_limited r rl check, e')
]

-- The part of `evaluate` below the collecting loop.
unfoldable pub decide_among :
    List Rule → String → RuleContext → ℕ → PolicyEngine → EvaluationDecision × PolicyEngine
unfolding first_with decide_by permit_by default_decision
decide_among matching resource_name ctx now e = elim (first_with forbid matching) [
  | some r ↦ (decide_by r, e)
  | none ↦ elim (first_with permit matching) [
    | some r ↦ permit_by r resource_name ctx now e
    | none ↦ (default_decision e, e)
  ]
]

unfoldable pub no_group_decision : EvaluationDecision
no_group_decision = record {
  effect = permit;
  reason = some "No matching intent_group rule";
  matched_rule = none;
  rate_limit = none;
}

-- `for (const rule of actionClassRules) if (rule.effect === 'permit') return …; return result`
abbrev pub or_direct : Option Rule → EvaluationDecision → EvaluationDecision
or_direct none result = result
or_direct (some r) result = decide_by r

-- An explicit forbid of the resource result stands; otherwise a direct permit comes first. The
-- second argument is `result.matchedRule`.
unfoldable pub prefer_over : Option Rule → Option Rule → EvaluationDecision → EvaluationDecision
unfolding decide_by
prefer_over direct_permit none result = or_direct direct_permit result
prefer_over direct_permit (some _) result =
    if is_forbid result.effect then result else or_direct direct_permit result

-- The part of `evaluateByActionClass` below its first forbid loop.
unfoldable pub prefer_direct : List Rule → EvaluationDecision → EvaluationDecision
unfolding first_with prefer_over
prefer_direct direct result = prefer_over (first_with permit direct) result.matched_rule result

module _ (lower : String → String) where
  unfoldable pub matches_pattern : Pattern → String → Bool
  matches_pattern (literal p) value = if p == "*" then true else lower p == lower value
  matches_pattern (regexp test) value = test value

  -- The tests on `target_match` and `target_in`, which all three loops that use them share.
  unfoldable pub selects_target : String → Rule → Bool
  unfolding matches_pattern
  selects_target target r =
      absent_or (λ p. matches_pattern p target) r.target_match
      && absent_or (λ ts. any (λ t. lower t == lower target) ts) r.target_in

  -- The tests of `evaluate` on a rule, above its condition.
  unfoldable pub selects_resource : Resource → String → String → Rule → Bool
  unfolding matches_pattern selects_target
  selects_resource resource resource_name target r =
      present_and (λ k. resource_text k == resource_text resource) r.resource
      && (present_and (λ p. matches_pattern p resource_name) r.match && selects_target target r)

  -- The tests of `evaluateByActionClass` on a rule, above its condition.
  unfoldable pub selects_action_class : String → String → Rule → Bool
  unfolding selects_target
  selects_action_class action_class resource_name r =
      present_and (λ c. c == action_class) r.action_class && selects_target resource_name r

  -- `evaluate(resource, resourceName, context, target?)`. The state changes only after the loop
  -- that may throw.
  unfoldable pub evaluate :
      Resource
      → String
      → RuleContext
      → Option String
      → ℕ
      → PolicyEngine
      → Result EvaluationDecision × PolicyEngine
  unfolding selects_resource collect decide_among
  evaluate resource resource_name ctx target now e =
      elim (collect (selects_resource resource resource_name (or_else target resource_name)) ctx
        e.rules) [
          | threw ↦ (threw, e)
          | ok matching ↦ let (d, e') = decide_among matching resource_name ctx now e in (ok d, e')
        ]

  -- `evaluateByActionClass(actionClass, resourceName, context)`
  unfoldable pub evaluate_by_action_class :
      String → String → RuleContext → ℕ → PolicyEngine → Result EvaluationDecision × PolicyEngine
  unfolding selects_action_class collect first_with decide_by evaluate map_action_class_to_resource
      prefer_direct
  evaluate_by_action_class action_class resource_name ctx now e =
      elim (collect (selects_action_class action_class resource_name) ctx e.rules) [
        | threw ↦ (threw, e)
        | ok direct ↦ elim (first_with forbid direct) [
          | some r ↦ (ok (decide_by r), e)
          | none ↦
              let (result, e') =
                evaluate (map_action_class_to_resource action_class) resource_name ctx none now e in
              ((do d ← result; ok (prefer_direct direct d)), e')
        ]
      ]

-- `evaluateByIntentGroup(intentGroup, context)`, which leaves the engine as it is.
unfoldable pub evaluate_by_intent_group :
    String → RuleContext → PolicyEngine → Result EvaluationDecision
unfolding collect first_with decide_by no_group_decision
evaluate_by_intent_group intent_group ctx e = do
  matching ← collect (λ r. present_and (λ g. g == intent_group) r.intent_group) ctx e.rules
  elim (first_with forbid matching) [
    | some r ↦ ok (decide_by r)
    | none ↦ elim (first_with permit matching) [
      | some r ↦ ok (decide_by r)
      | none ↦ ok no_group_decision
    ]
  ]
