-- ===== src/Examples/Names.antt =====
-- The classification of concrete tool calls.
use clawthority.Base.{String, ◌≡◌, refl, true, none, List, [], ◌∷◌, Memᴰ}
use clawthority.Enforcement.Types.{critical, per_request, low, no_hitl}
use clawthority.Actions.Types.{Param, string_param, other_param, ActionRegistryEntry}
use clawthority.Actions.Registry.{registry}
use clawthority.Actions.Normalize.{get_registry_entry, normalize_action, contains_shell_metachars}
use clawthority.Actions.Normalize.Unique.{get_registry_entry-alias}
use clawthority.Actions.Normalize.Lookup.{is_no_alias, is_no_alias-NoAlias}
use clawthority.Actions.Normalize.Outcome.{HasMetachar, normalize_action-unknown}
use clawthority.Base.{◌↔◌}
use clawthority.Policy.Types.{permit}
use clawthority.Actions.Gate.{ToolGate, new_gate, evaluate_tool}
use clawthority.Actions.Gate.Admitted.{Admitted, evaluate_tool-Admitted}
use clawthority.Examples.Data.{same_case}

abbrev params : List (String × Param)
params = ("verbose", other_param) ∷ ("command", string_param "ls; rm -rf /") ∷ []

has_metachar : HasMetachar params
unfolding contains_shell_metachars
has_metachar = ("command", "ls; rm -rf /", (Memᴰ.tail (Memᴰ.head refl), refl))

unnamed : is_no_alias "frobnicate" ≡ true
unfolding registry
unnamed = refl

normalize_action-unknown_example :
    let n = normalize_action same_case "frobnicate" params in
    ((n.action_class ≡ "unknown_sensitive_action") × (n.risk ≡ critical))
    × ((n.hitl_mode ≡ per_request) × (n.intent_group ≡ none))
normalize_action-unknown_example =
    normalize_action-unknown same_case "frobnicate" params
      (is_no_alias-NoAlias "frobnicate" unnamed)

abbrev list_entry : ActionRegistryEntry
list_entry = record {
  action_class = "filesystem.list";
  default_risk = low;
  default_hitl_mode = no_hitl;
  aliases =
      "list" ∷ "list_files" ∷ "listfiles" ∷ "list_directory" ∷ "list_dir" ∷ "read_directory" ∷ "ls"
      ∷ "tree" ∷ [];
  intent_group = none;
}

list_entry-registry : Memᴰ list_entry registry
unfolding registry
list_entry-registry = Memᴰ.tail (Memᴰ.tail (Memᴰ.tail (Memᴰ.head refl)))

get_registry_entry-alias_example : get_registry_entry same_case "list_files" ≡ list_entry
get_registry_entry-alias_example =
    get_registry_entry-alias same_case "list_files" list_entry list_entry-registry
      (Memᴰ.tail (Memᴰ.head refl))

-- The operator lists a shell wrapper and a tool that the registry does not have.
abbrev tool_gate : ToolGate
tool_gate = new_gate same_case ("bash" ∷ "frobnicate" ∷ [])

evaluate_tool-Admitted_example :
    ((evaluate_tool same_case tool_gate "bash").effect ≡ permit)
    ↔ Admitted tool_gate (same_case "bash")
evaluate_tool-Admitted_example = evaluate_tool-Admitted same_case tool_gate "bash"
