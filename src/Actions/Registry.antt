-- ===== src/Actions/Registry.antt =====
-- packages/action-registry/src/index.ts: the frozen registry of action classes and their aliases.
pub mod Files
pub mod Remote
pub mod Host
pub mod Development
use clawthority.Base.{String, List, [], ◌∷◌, ◌++◌, none}
use clawthority.Enforcement.Types.{critical, per_request}
use clawthority.Actions.Types.{ActionRegistryEntry}
use clawthority.Actions.Registry.Files.{filesystem_entries, archives_entries}
use clawthority.Actions.Registry.Remote.{web_entries, communication_entries, network_entries}
use clawthority.Actions.Registry.Host.{secrets_entries, system_entries}
use clawthority.Actions.Registry.Development.{vcs_entries, packages_entries, builds_entries}

-- The last entry, for tools that no alias names.
unfoldable pub unknown_entry : ActionRegistryEntry
unknown_entry = record {
  action_class = "unknown_sensitive_action";
  default_risk = critical;
  default_hitl_mode = per_request;
  aliases = [];
  intent_group = none;
}

unfoldable pub registry : List ActionRegistryEntry
unfolding unknown_entry
registry =
    filesystem_entries
    ++ web_entries
    ++ communication_entries
    ++ secrets_entries
    ++ system_entries
    ++ network_entries
    ++ vcs_entries
    ++ packages_entries
    ++ builds_entries
    ++ archives_entries
    ++ unknown_entry ∷ []
