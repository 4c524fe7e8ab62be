-- ===== src/Hitl/Matcher.antt =====
-- src/hitl/matcher.ts: action patterns, and the first policy that an action matches.
pub mod Laws
use clawthority.Base.{
  String, Bool, true, false, ◌&&◌, ◌||◌, Option, none, some, List, [], ◌∷◌, ◌==◌, any,
  if◌then◌else◌,
}
use clawthority.Base.Text.{split}
use clawthority.Hitl.Types.{HitlPolicy, HitlPolicyConfig}

-- The test on the lengths and the `every` over both lists of segments.
unfoldable pub segments_match : List String → List String → Bool
segments_match [] [] = true
segments_match [] (_ ∷ _) = false
segments_match (_ ∷ _) [] = false
segments_match (seg ∷ ps) (part ∷ qs) = (seg == "*" || seg == part) && segments_match ps qs

unfoldable pub matches_action_pattern : String → String → Bool
unfolding segments_match split
matches_action_pattern pattern action =
    if pattern == "*"
    then true
    else if pattern == action
    then true
    else segments_match (split b'.' pattern) (split b'.' action)

-- `requiresApproval` is true exactly when there is a policy, so the result is the policy.
unfoldable pub first_policy : List HitlPolicy → String → Option HitlPolicy
unfolding matches_action_pattern
first_policy [] action_class = none
first_policy (p ∷ ps) action_class =
    if any (λ pattern. matches_action_pattern pattern action_class) p.actions
    then some p
    else first_policy ps action_class

unfoldable pub check_action : HitlPolicyConfig → String → Option HitlPolicy
unfolding first_policy
check_action config action_class = first_policy config.policies action_class
