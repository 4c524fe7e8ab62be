-- ===== src/Policy/Types.antt =====
-- src/policy/types.ts: rules and the context in which they are evaluated.
use clawthority.Base.{ℕ, String, Bool, Option, List}
use clawthority.Base.Results.{Result}

pub data Effect : Type 0 where
  permit forbid : Effect

pub data Resource : Type 0 where
  tool command channel prompt model file external payment system credential web memory unknown :
      Resource

-- The string that the source writes for a resource, by which two of them are compared.
abbrev pub resource_text : Resource → String
resource_text tool = "tool"
resource_text command = "command"
resource_text channel = "channel"
resource_text prompt = "prompt"
resource_text model = "model"
resource_text file = "file"
resource_text external = "external"
resource_text payment = "payment"
resource_text system = "system"
resource_text credential = "credential"
resource_text web = "web"
resource_text memory = "memory"
resource_text unknown = "unknown"

-- `metadata`, arbitrary data that only the conditions read, is left out: a condition is any function
-- of the fields below.
pub record RuleContext : Type 0 where
  pub agent_id : String
  pub channel : String
  pub verified : Option Bool
  pub user_id : Option String
  pub session_id : Option String

pub record RateLimit : Type 0 where
  pub max_calls : ℕ
  pub window_seconds : ℕ

-- `string | RegExp`. A regular expression is the function that its `test` computes; one with the
-- `g` or `y` flag, whose `test` has a state, is not modelled.
pub data Pattern : Type 0 where
  literal : String → Pattern
  regexp : (String → Bool) → Pattern

-- `ref` is the identity of the rule object, by which the engine's `Map<Rule, …>` finds it. A
-- condition may throw.
pub record Rule : Type 0 where
  pub ref : ℕ
  pub effect : Effect
  pub resource : Option Resource
  pub match : Option Pattern
  pub condition : Option (RuleContext → Result Bool)
  pub reason : Option String
  pub tags : Option (List String)
  pub rate_limit : Option RateLimit
  pub action_class : Option String
  pub intent_group : Option String
  pub target_match : Option Pattern
  pub target_in : Option (List String)
  pub priority : Option ℕ
