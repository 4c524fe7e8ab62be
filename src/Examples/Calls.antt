-- ===== src/Examples/Calls.antt =====
-- The stages, the pipeline and the dispatch on concrete calls.
use clawthority.Base.{ℕ, String, ◌≡◌, ◌⊎◌, ◌↔◌, refl, true, Option, none, some, []}
use clawthority.Base.Results.{Result, ok}
use clawthority.Policy.Types.{permit}
use clawthority.Policy.Engine.{evaluate_by_action_class}
use clawthority.Hitl.Types.{HitlPolicy}
use clawthority.Hitl.Matcher.{check_action}
use clawthority.Hitl.Approvals.{new_manager, HitlDecision, approved}
use clawthority.Enforcement.Types.{
  PipelineContext, CeeDecision, decision, Capability, Stage, no_hitl, per_request,
}
use clawthority.Enforcement.Stage1.{validate_capability}
use clawthority.Enforcement.Stage1.Gate.{IsUntrusted, IsCovered, validate_capability_iff}
use clawthority.Enforcement.Stage2
use clawthority.Enforcement.Pipeline.{
  enforcement_evaluate_by_action_class, run_pipeline, is_install_phase,
}
use clawthority.Examples.Data.{tools_engine, same_case, engines, call, running, config, capability}
use clawthority.Enforcement.Stage2.{combined_stage2, early_permit, below_threshold}
use clawthority.Enforcement.Stage2.Permits.{AllClear, combined_stage2-permit}
use clawthority.Enforcement.Stage2.Forbids.{AllSoft, combined_stage2-gated}
use clawthority.Enforcement.Stage2.Captured.{combined_stage2-ignores_group}
use clawthority.Enforcement.Pipeline.Outcome.{BothPermit, Passes, run_pipeline_iff}
use clawthority.Enforcement.Dispatch.{
  World, HitlDispatchOpts, run_with_hitl, world_stage1, world_stage2,
}
use clawthority.Enforcement.Dispatch.Release.{first_run, Released, run_with_hitl-permit}
use clawthority.Enforcement.Dispatch.Hard.{Open, run_with_hitl-Open}

abbrev stored : String → Result (Option Capability)
stored id = ok (some capability)

abbrev delete_with_approval : PipelineContext
delete_with_approval = record (call "filesystem.delete") {
  hitl_mode = per_request;
  approval_id = some "cap1";
}

validate_capability_iff_example :
    ((validate_capability same_case stored 5 new_manager delete_with_approval).effect ≡ permit) ↔ (
      (¬ IsUntrusted delete_with_approval)
      × ((delete_with_approval.hitl_mode ≡ no_hitl)
          ⊎ ((id : String) × (c : Capability) × IsCovered same_case stored 5 new_manager
                delete_with_approval id c)))
validate_capability_iff_example =
    validate_capability_iff same_case stored 5 new_manager delete_with_approval

read_permitted :
    (combined_stage2 same_case 0 "read_file" none none (call "filesystem.read") engines).0.effect
    ≡ permit
unfolding combined_stage2 evaluate_by_action_class
read_permitted = refl

combined_stage2-permit_example :
    ((d : CeeDecision) × (early_permit "read_file" none none (call "filesystem.read") ≡ some d))
    ⊎ AllClear same_case 0 "read_file" (call "filesystem.read") engines
combined_stage2-permit_example =
    combined_stage2-permit same_case 0 "read_file" (call "filesystem.read") none none engines
      read_permitted

delete_gated :
    below_threshold
      (combined_stage2 same_case 0 "rm" none none (call "filesystem.delete") engines).0.priority
    ≡ true
unfolding combined_stage2 evaluate_by_action_class
delete_gated = refl

combined_stage2-gated_example : AllSoft same_case 0 "rm" (call "filesystem.delete") engines
combined_stage2-gated_example =
    combined_stage2-gated same_case 0 "rm" (call "filesystem.delete") none none engines delete_gated

abbrev grouped_delete : PipelineContext
grouped_delete = record (call "filesystem.delete") { intent_group = some "destructive_fs" }

combined_stage2-ignores_group_example :
    combined_stage2 same_case 0 "rm" none none grouped_delete engines
    ≡ combined_stage2 same_case 0 "rm" none none (call "filesystem.delete") engines
combined_stage2-ignores_group_example =
    combined_stage2-ignores_group same_case 0 "rm" none none grouped_delete engines delete_gated

abbrev world : World
world = record { manager = new_manager; capabilities = []; engines = engines }

abbrev stage1 : Stage World
stage1 = world_stage1 same_case (λ w. stored) 5

abbrev stage2 : String → Stage World
stage2 tool_name = world_stage2 same_case 5 tool_name none none

run_pipeline_iff_example :
    ((run_pipeline running stage1
        (stage2 "read_file")
        (call "filesystem.read")
        (world, [])).0.effect
      ≡ permit)
    ↔ ((is_install_phase running ≡ true)
        ⊎ (Passes running stage1 (stage2 "read_file") (call "filesystem.read")
            × BothPermit stage1 (stage2 "read_file") (call "filesystem.read") world))
run_pipeline_iff_example =
    run_pipeline_iff running stage1 (stage2 "read_file") (call "filesystem.read") world []

abbrev opts : HitlDispatchOpts
opts = record {
  hitl_config = config;
  issue_capability = λ action_class target hash session w. (ok capability, w);
  agent_id = "a1";
  channel_id = "chat";
}

abbrev operator : ℕ → World → HitlDecision × World
operator promise w = (approved, w)

abbrev hitl_approved : CeeDecision
hitl_approved = decision permit "hitl_approved" "hitl"

delete_released :
    (run_with_hitl running same_case operator "u1" 0 stage1
      (stage2 "rm")
      opts
      (call "filesystem.delete")
      world
      []).0
    ≡ ok hitl_approved
unfolding run_with_hitl world_stage1 world_stage2 evaluate_by_action_class new_manager
delete_released = refl

run_with_hitl-Open_example :
    Open running same_case same_case (λ w. stored) 5 "rm" none none (call "filesystem.delete") world
run_with_hitl-Open_example =
    run_with_hitl-Open running same_case same_case (λ w. stored) 5 "rm" none none
      (call "filesystem.delete") world operator "u1" 0 opts [] hitl_approved delete_released refl

run_with_hitl-permit_example :
    let first =
      first_run running same_case operator "u1" 0 stage1
        (stage2 "rm")
        opts
        (call "filesystem.delete")
        world
        [] in
    (first.0.effect ≡ permit)
    ⊎ ((below_threshold first.0.priority ≡ true)
        × ((policy : HitlPolicy) × (check_action opts.hitl_config "filesystem.delete" ≡ some policy)
            × Released running same_case operator "u1" 0 stage1
                (stage2 "rm")
                opts
                (call "filesystem.delete")
                world
                []
                policy
                first.1.0))
run_with_hitl-permit_example =
    run_with_hitl-permit running same_case operator "u1" 0 stage1 (stage2 "rm") opts
      (call "filesystem.delete") world [] hitl_approved delete_released refl

single_permitted :
    (Stage2.stage2 same_case 0
      (enforcement_evaluate_by_action_class same_case)
      (call "filesystem.read")
      tools_engine).0.effect
    ≡ permit
unfolding Stage2.stage2 enforcement_evaluate_by_action_class
single_permitted = refl
