-- ===== src/Actions/Registry/Remote.antt =====
-- packages/action-registry/src/index.ts: entries of `REGISTRY`, in its order within each list.
use clawthority.Base.{none, some, List, [], ◌∷◌}
use clawthority.Enforcement.Types.{low, medium, high, no_hitl, per_request}
use clawthority.Actions.Types.{ActionRegistryEntry}

abbrev pub web_entries : List ActionRegistryEntry
web_entries =
    record {
      action_class = "web.search";
      default_risk = medium;
      default_hitl_mode = per_request;
      aliases =
          "web_search" ∷ "x_search" ∷ "google_search" ∷ "bing_search" ∷ "duckduckgo_search"
          ∷ "ddg_search" ∷ "search_web" ∷ "web_research" ∷ "news_search" ∷ [];
      intent_group = none;
    }
    ∷ record {
      action_class = "web.fetch";
      default_risk = medium;
      default_hitl_mode = per_request;
      aliases =
          "fetch" ∷ "browser" ∷ "http_get" ∷ "web_fetch" ∷ "get_url" ∷ "fetch_url" ∷ "http_request"
          ∷ "curl" ∷ "wget" ∷ "download_url" ∷ "http_head" ∷ "head_url" ∷ "http_options" ∷ [];
      intent_group = some "data_exfiltration";
    }
    ∷ record {
      action_class = "browser.scrape";
      default_risk = medium;
      default_hitl_mode = per_request;
      aliases = "scrape_page" ∷ "extract_page" ∷ "read_url" ∷ [];
      intent_group = none;
    }
    ∷ record {
      action_class = "web.post";
      default_risk = medium;
      default_hitl_mode = per_request;
      aliases =
          "http_post" ∷ "post_url" ∷ "web_post" ∷ "post_request" ∷ "submit_form" ∷ "http_put"
          ∷ "put_url" ∷ "web_put" ∷ "put_request" ∷ "http_patch" ∷ "patch_url" ∷ "web_patch"
          ∷ "patch_request" ∷ "http_delete" ∷ "delete_url" ∷ "web_delete" ∷ "delete_request" ∷ [];
      intent_group = some "web_access";
    }
    ∷ []

abbrev pub communication_entries : List ActionRegistryEntry
communication_entries =
    record {
      action_class = "shell.exec";
      default_risk = high;
      default_hitl_mode = per_request;
      aliases =
          "bash" ∷ "exec" ∷ "shell_exec" ∷ "run_command" ∷ "execute_command" ∷ "run_terminal_cmd"
          ∷ "terminal_exec" ∷ "cmd" ∷ "unsafe_admin_exec" ∷ [];
      intent_group = none;
    }
    ∷ record {
      action_class = "communication.email";
      default_risk = high;
      default_hitl_mode = per_request;
      aliases = "send_email" ∷ "email_send" ∷ "send_mail" ∷ "compose_email" ∷ "email" ∷ [];
      intent_group = some "external_send";
    }
    ∷ record {
      action_class = "communication.slack";
      default_risk = medium;
      default_hitl_mode = per_request;
      aliases = "send_slack" ∷ "slack_message" ∷ "slack_send" ∷ "post_slack" ∷ "post_message" ∷ [];
      intent_group = some "external_send";
    }
    ∷ record {
      action_class = "communication.webhook";
      default_risk = medium;
      default_hitl_mode = per_request;
      aliases =
          "message" ∷ "call_webhook" ∷ "webhook" ∷ "trigger_webhook" ∷ "post_webhook"
          ∷ "send_notification" ∷ [];
      intent_group = some "external_send";
    }
    ∷ []

abbrev pub network_entries : List ActionRegistryEntry
network_entries =
    record {
      action_class = "process.signal";
      default_risk = high;
      default_hitl_mode = per_request;
      aliases = "kill" ∷ "pkill" ∷ "killall" ∷ "kill_process" ∷ "pkill_pattern" ∷ [];
      intent_group = none;
    }
    ∷ record {
      action_class = "network.diagnose";
      default_risk = low;
      default_hitl_mode = no_hitl;
      aliases = "ping" ∷ "traceroute" ∷ "nslookup" ∷ "dig" ∷ "netstat" ∷ "ss" ∷ [];
      intent_group = none;
    }
    ∷ record {
      action_class = "network.scan";
      default_risk = high;
      default_hitl_mode = per_request;
      aliases = "nmap" ∷ [];
      intent_group = none;
    }
    ∷ record {
      action_class = "scheduling.persist";
      default_risk = high;
      default_hitl_mode = per_request;
      aliases =
          "crontab" ∷ "at" ∷ "batch" ∷ "atq" ∷ "atrm" ∷ "crontab_list" ∷ "crontab_install_from_file"
          ∷ "crontab_remove" ∷ [];
      intent_group = none;
    }
    ∷ record {
      action_class = "network.transfer";
      default_risk = high;
      default_hitl_mode = per_request;
      aliases = "rsync" ∷ "scp" ∷ "sftp" ∷ [];
      intent_group = some "data_exfiltration";
    }
    ∷ record {
      action_class = "network.shell";
      default_risk = high;
      default_hitl_mode = per_request;
      aliases = "ssh" ∷ "mosh" ∷ "telnet" ∷ [];
      intent_group = none;
    }
    ∷ record {
      action_class = "cluster.read";
      default_risk = low;
      default_hitl_mode = per_request;
      aliases = "kubectl_get" ∷ [];
      intent_group = none;
    }
    ∷ record {
      action_class = "cluster.write";
      default_risk = high;
      default_hitl_mode = per_request;
      aliases =
          "kubectl" ∷ "kubectl_apply" ∷ "kubectl_delete" ∷ "kubectl_rollout" ∷ "docker_push" ∷ [];
      intent_group = none;
    }
    ∷ []
