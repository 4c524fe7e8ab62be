-- ===== src/Examples/Buttons.antt =====
-- The buttons of an approval.
use clawthority.Base.{◌≡◌, ◌⊎◌, refl, true, false, none, some, List, [], ◌∷◌}
use clawthority.Base.Maps.{get, nat_key, string_key}
use clawthority.Permits.Words.{codes, first_word, later_words}
use clawthority.Permits.Pattern.{by_default}
use clawthority.Hitl.Approvals.{ApprovalManager, CreateApprovalOpts, new_manager, create, run}
use clawthority.Plugin.Approve.{
  Confirmation, Confirmations, Features, confirm_approve_always, approve_always, deny,
  pattern_already_saved, handle_command, no_confirmations, Input, button, timeout, take_inputs,
}
use clawthority.Plugin.Approve.Paired.{IsPaired}
use clawthority.Plugin.Approve.Timers.{take_inputs-IsPaired}
use clawthority.Plugin.Approve.Granted.{
  Grants, NothingGranted, handle_command-Grants, handle_command-confirm_twice,
}
use clawthority.Examples.Data.{same_case, request}

abbrev ask_shell : CreateApprovalOpts
ask_shell = record request {
  mode = none;
  action_class = some "shell.exec";
  target = some "git commit -m x";
}

abbrev one_pending : ApprovalManager
one_pending = run same_case (create ask_shell "u1" 0 ∷ []) new_manager

abbrev both_features : Features
both_features = record { approve_always_enabled = true; approve_always_auto_confirm = false }

abbrev asked_inputs : List Input
asked_inputs =
    button 1 approve_always "u1" none ∷ button 2 approve_always "u1" none ∷ timeout 0 ∷ []

abbrev to_confirm : Confirmations
to_confirm = take_inputs both_features asked_inputs (no_confirmations one_pending)

-- The timer of the first confirmation was cleared, so the second waits.
abbrev second_confirmation : Confirmation
second_confirmation = record {
  pattern = codes "git commit *";
  method = by_default;
  operator_id = none;
  agent_id = request.agent_id;
  timer = 1;
}

second_waits : get "u1" to_confirm.waiting ≡ some second_confirmation
unfolding take_inputs no_confirmations run new_manager first_word later_words
second_waits = refl

take_inputs-IsPaired_example : IsPaired to_confirm
take_inputs-IsPaired_example = take_inputs-IsPaired both_features one_pending asked_inputs

handle_command-Grants_example :
    Grants both_features 3 deny "u1" to_confirm
    ⊎ NothingGranted to_confirm (handle_command both_features 3 deny "u1" none to_confirm).1
handle_command-Grants_example = handle_command-Grants both_features 3 deny "u1" none to_confirm

handle_command-confirm_twice_example :
    let s = (handle_command both_features 3 confirm_approve_always "u1" none to_confirm).1 in
    handle_command both_features 4 confirm_approve_always "u1" none s
    ≡ (some pattern_already_saved, s)
handle_command-confirm_twice_example =
    handle_command-confirm_twice both_features 3 4 "u1" none none to_confirm second_confirmation
      second_waits
