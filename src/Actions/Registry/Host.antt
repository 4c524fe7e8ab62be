-- ===== src/Actions/Registry/Host.antt =====
-- packages/action-registry/src/index.ts: entries of `REGISTRY`, in its order within each list.
use clawthority.Base.{none, some, List, [], ◌∷◌}
use clawthority.Enforcement.Types.{low, medium, high, critical, no_hitl, per_request}
use clawthority.Actions.Types.{ActionRegistryEntry}

abbrev pub secrets_entries : List ActionRegistryEntry
secrets_entries =
    record {
      action_class = "memory.read";
      default_risk = low;
      default_hitl_mode = no_hitl;
      aliases =
          "memory_get" ∷ "memory_search" ∷ "read_memory" ∷ "get_memory" ∷ "recall"
          ∷ "retrieve_memory" ∷ [];
      intent_group = none;
    }
    ∷ record {
      action_class = "memory.write";
      default_risk = medium;
      default_hitl_mode = no_hitl;
      aliases =
          "memory_set" ∷ "write_memory" ∷ "set_memory" ∷ "store_memory" ∷ "save_memory" ∷ "remember"
          ∷ [];
      intent_group = none;
    }
    ∷ record {
      action_class = "credential.read";
      default_risk = high;
      default_hitl_mode = per_request;
      aliases =
          "read_secret" ∷ "get_secret" ∷ "get_credential" ∷ "retrieve_secret" ∷ "read_credential"
          ∷ [];
      intent_group = some "credential_access";
    }
    ∷ record {
      action_class = "credential.write";
      default_risk = critical;
      default_hitl_mode = per_request;
      aliases =
          "write_secret" ∷ "set_secret" ∷ "set_credential" ∷ "store_secret" ∷ "create_secret" ∷ [];
      intent_group = some "credential_access";
    }
    ∷ record {
      action_class = "credential.rotate";
      default_risk = critical;
      default_hitl_mode = per_request;
      aliases = "rotate_secret" ∷ "rotate_credential" ∷ [];
      intent_group = some "credential_access";
    }
    ∷ record {
      action_class = "credential.list";
      default_risk = high;
      default_hitl_mode = per_request;
      aliases = "list_secrets" ∷ "list_credentials" ∷ "list_credential_keys" ∷ [];
      intent_group = some "credential_access";
    }
    ∷ []

abbrev pub system_entries : List ActionRegistryEntry
system_entries =
    record {
      action_class = "code.execute";
      default_risk = high;
      default_hitl_mode = per_request;
      aliases =
          "code_execution" ∷ "run_code" ∷ "execute_code" ∷ "eval_code" ∷ "python" ∷ "javascript"
          ∷ "node_exec" ∷ "code_runner" ∷ "docker_run" ∷ "docker_exec" ∷ "docker" ∷ [];
      intent_group = none;
    }
    ∷ record {
      action_class = "payment.initiate";
      default_risk = critical;
      default_hitl_mode = per_request;
      aliases =
          "pay" ∷ "payment" ∷ "initiate_payment" ∷ "create_payment" ∷ "charge" ∷ "stripe_payment"
          ∷ [];
      intent_group = some "payment";
    }
    ∷ record {
      action_class = "system.read";
      default_risk = low;
      default_hitl_mode = no_hitl;
      aliases =
          "session_status" ∷ "sessions_list" ∷ "sessions_history" ∷ "sessions_spawn"
          ∷ "sessions_send" ∷ "sessions_yield" ∷ "subagents" ∷ "agents_list" ∷ "nodes" ∷ "image"
          ∷ "cron" ∷ "gateway" ∷ "get_system_info" ∷ "system_info" ∷ "get_env_var" ∷ "get_env"
          ∷ "read_env" ∷ "env_var" ∷ "get_hostname" ∷ "get_platform" ∷ "get_arch" ∷ "get_os_info"
          ∷ "uname" ∷ "ps" ∷ "top" ∷ "htop" ∷ "df" ∷ "du" ∷ "free" ∷ "hostname" ∷ "uptime" ∷ "lsof"
          ∷ "id" ∷ "whoami" ∷ "echo" ∷ "printf" ∷ [];
      intent_group = none;
    }
    ∷ record {
      action_class = "system.service";
      default_risk = critical;
      default_hitl_mode = per_request;
      aliases =
          "systemctl" ∷ "service" ∷ "init" ∷ "reboot" ∷ "shutdown" ∷ "virsh"
          ∷ "systemctl_unit_action" ∷ [];
      intent_group = none;
    }
    ∷ record {
      action_class = "permissions.modify";
      default_risk = high;
      default_hitl_mode = per_request;
      aliases = "chmod" ∷ "chown" ∷ "chgrp" ∷ "umask" ∷ "chmod_path" ∷ "chown_path" ∷ [];
      intent_group = none;
    }
    ∷ record {
      action_class = "permissions.elevate";
      default_risk = critical;
      default_hitl_mode = per_request;
      aliases = "sudo" ∷ "su" ∷ "doas" ∷ "passwd" ∷ [];
      intent_group = none;
    }
    ∷ []
