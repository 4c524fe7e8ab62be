-- ===== src/Examples/Authority.antt =====
-- The authority adapter.
use clawthority.Base.{
  ℕ, ◌≤◌, ◌+◌, ◌≡◌, ◌≢◌, ◌↔◌, refl, inl, inr, String, true, false, none, some, List, [], ◌∷◌, arith,
  eq_iff,
}
use clawthority.Policy.Types.{permit}
use clawthority.Hitl.Approvals.{new_manager, is_consumed}
use clawthority.Enforcement.Types.{PipelineContext, no_hitl, per_request}
use clawthority.Enforcement.Stage1.{validate_capability}
use clawthority.Enforcement.Stage1.Gate.{IsUntrusted}
use clawthority.Adapter.Capabilities.{
  IssueCapabilityOpts, FileAuthorityAdapter, ttl_ms, issue_capability,
}
use clawthority.Adapter.Capabilities.Issued.{look_up, issue-validate_capability}
use clawthority.Adapter.Bundles.{
  PolicyBundle, missing, holds, WatchEvent, on_disk, change, debounced, arrived,
  watch_policy_bundle, watch_steps,
}
use clawthority.Adapter.Bundles.Versions.{IsCurrent, watch_policy_bundle-IsCurrent}
use clawthority.Examples.Data.{same_case, call}

abbrev delete_call : PipelineContext
delete_call = record (call "filesystem.delete") { hitl_mode = per_request; approval_id = some "u9" }

abbrev delete_opts : IssueCapabilityOpts
delete_opts = record {
  action_class = "filesystem.delete";
  target = delete_call.target;
  payload_hash = delete_call.payload_hash;
  session_id = delete_call.session_id;
  ttl_seconds = some 60;
}

abbrev adapter : FileAuthorityAdapter
adapter = record { capabilities = []; capability_ttl_seconds = none }

u9_there : ◌≢◌ {A = String} "u9" ""
u9_there = ground (arith, eq_iff "u9" "")

mode_asks : delete_call.hitl_mode ≢ no_hitl
mode_asks = λ e. cc

delete_trusted : ¬ IsUntrusted delete_call
delete_trusted (level, inl r) = cc
delete_trusted (level, inr r) = cc

issue-validate_capability_example :
    ((validate_capability same_case
        (look_up (issue_capability same_case "u9" 100 delete_opts adapter).1)
        200
        new_manager
        delete_call).effect
      ≡ permit)
    ↔ ((200 ≤ 100 + ttl_ms delete_opts adapter) × (is_consumed "u9" new_manager ≡ false))
issue-validate_capability_example =
    issue-validate_capability same_case "u9" 100 delete_opts adapter 200 new_manager delete_call
      (record {
        named = refl;
        same_class = refl;
        same_target = refl;
        same_payload = refl;
        same_session = refl;
      })
      u9_there mode_asks delete_trusted

abbrev version_two : PolicyBundle ℕ
version_two = record { version = 2; fields = 7 }

abbrev bundle_events : List (WatchEvent ℕ)
bundle_events =
    on_disk (holds version_two)
    ∷ change
    ∷ debounced true
    ∷ change
    ∷ debounced true
    ∷ arrived 1
    ∷ arrived 0
    ∷ []

two_updates :
    (watch_steps 0 bundle_events (watch_policy_bundle 0 true missing)).updates
    ≡ version_two ∷ record { version = 0; fields = 0 } ∷ []
unfolding watch_steps watch_policy_bundle
two_updates = refl

watch_policy_bundle-IsCurrent_example :
    IsCurrent (watch_steps 0 bundle_events (watch_policy_bundle 0 true missing))
watch_policy_bundle-IsCurrent_example = watch_policy_bundle-IsCurrent 0 true missing bundle_events
