-- ===== src/Examples/Rules.antt =====
-- The engine on concrete rules.
use clawthority.Base.{ℕ, ◌≡◌, refl, List, [], ◌∷◌, arith, Option, some}
use clawthority.Base.Results.{ok}
use clawthority.Policy.Types.{forbid, RateLimit}
use clawthority.Policy.Engine.{
  evaluate_by_action_class, decide_by, check_and_record_rate_limit, cleanup, PolicyEngine,
}
use clawthority.Policy.Engine.Cleanup.{WellKept, check-cleanup}
use clawthority.Policy.Engine.Cedar.{NoRule}
use clawthority.Policy.Engine.ActionClass.{ByClass, ByMapped, action_class_permit-NoRule}
use clawthority.Policy.Engine.Window.{Call}
use clawthority.Base.Maps.{get, nat_key, string_key}
use clawthority.Examples.Data.{
  same_case, agent, allow_read, limited_read, twice_a_second, cedar, tools_engine,
}

read_allowed :
    (evaluate_by_action_class same_case "filesystem.read" "/tmp/a" agent 0 cedar).0
    ≡ ok (decide_by allow_read)
unfolding evaluate_by_action_class
read_allowed = refl

action_class_permit-NoRule_example :
    NoRule cedar (ByClass same_case "filesystem.read" "/tmp/a" agent) forbid
    × NoRule cedar (ByMapped same_case "filesystem.read" "/tmp/a" agent) forbid
unfolding decide_by
action_class_permit-NoRule_example =
    action_class_permit-NoRule same_case "filesystem.read" "/tmp/a" agent 0 cedar
      (decide_by allow_read) read_allowed refl

abbrev read_at : ℕ → Call
read_at now = record {
  rule = limited_read;
  limit = twice_a_second;
  resource_name = "cat";
  ctx = agent;
  now = now;
}

abbrev reads : List Call
reads = read_at 0 ∷ read_at 10 ∷ read_at 20 ∷ read_at 1000 ∷ []

abbrev used_engine : PolicyEngine
used_engine = record tools_engine { rate_limit_tracking = (3, ("a1:cat", 0 ∷ 900 ∷ []) ∷ []) ∷ [] }

abbrev limit_of : ℕ → Option RateLimit
limit_of ref = some twice_a_second

used-WellKept : WellKept used_engine.rate_limit_tracking
unfolding get
used-WellKept = ((refl, tt), ((refl, tt), tt))

check-cleanup_example :
    (check_and_record_rate_limit limited_read twice_a_second "cat" agent 1500
      (cleanup limit_of 1200 used_engine)).0
    ≡ (check_and_record_rate_limit limited_read twice_a_second "cat" agent 1500 used_engine).0
check-cleanup_example =
    check-cleanup limit_of 1200 1500 limited_read twice_a_second "cat" agent used_engine
      used-WellKept refl (omega arith)
