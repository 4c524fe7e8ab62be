-- ===== src/Actions/Registry/Development.antt =====
-- packages/action-registry/src/index.ts: entries of `REGISTRY`, in its order within each list.
use clawthority.Base.{none, List, [], ◌∷◌}
use clawthority.Enforcement.Types.{low, medium, no_hitl, per_request}
use clawthority.Actions.Types.{ActionRegistryEntry}

abbrev pub vcs_entries : List ActionRegistryEntry
vcs_entries =
    record {
      action_class = "vcs.read";
      default_risk = low;
      default_hitl_mode = no_hitl;
      aliases =
          "git_status" ∷ "git-status" ∷ "git.status" ∷ "show_status" ∷ "git_log" ∷ "git-log"
          ∷ "git.log" ∷ "log_commits" ∷ "view_history" ∷ "git_diff" ∷ "git-diff" ∷ "git.diff"
          ∷ "view_diff" ∷ "show_diff" ∷ [];
      intent_group = none;
    }
    ∷ record {
      action_class = "vcs.write";
      default_risk = medium;
      default_hitl_mode = per_request;
      aliases =
          "git_commit" ∷ "git-commit" ∷ "git.commit" ∷ "commit_changes" ∷ "git_add" ∷ "git-add"
          ∷ "git.add" ∷ "stage_file" ∷ "stage_files" ∷ "git_merge" ∷ "git-merge" ∷ "git.merge"
          ∷ "merge_branch" ∷ "git_checkout" ∷ "git-checkout" ∷ "git.checkout" ∷ "checkout_branch"
          ∷ "switch_branch" ∷ "git_branch" ∷ "git-branch" ∷ "git.branch" ∷ "create_branch"
          ∷ "git_reset" ∷ "git-reset" ∷ "git.reset" ∷ "reset_head" ∷ "undo_commit" ∷ [];
      intent_group = none;
    }
    ∷ record {
      action_class = "vcs.remote";
      default_risk = medium;
      default_hitl_mode = per_request;
      aliases =
          "git_clone" ∷ "git-clone" ∷ "git.clone" ∷ "clone_repo" ∷ "git_push" ∷ "git-push"
          ∷ "git.push" ∷ "push_commits" ∷ "git_pull" ∷ "git-pull" ∷ "git.pull" ∷ "pull_changes"
          ∷ "git_fetch" ∷ "git-fetch" ∷ "git.fetch" ∷ "fetch_remote" ∷ [];
      intent_group = none;
    }
    ∷ []

abbrev pub packages_entries : List ActionRegistryEntry
packages_entries =
    record {
      action_class = "package.install";
      default_risk = medium;
      default_hitl_mode = per_request;
      aliases =
          "install_package" ∷ "npm_install" ∷ "pip_install" ∷ "pip3_install" ∷ "yarn_add"
          ∷ "apt_install" ∷ "brew_install" ∷ "add_package" ∷ "apt" ∷ "apt-get" ∷ "yum" ∷ "dnf"
          ∷ "dpkg" ∷ "snap" ∷ "brew" ∷ "pacman" ∷ [];
      intent_group = none;
    }
    ∷ record {
      action_class = "package.run";
      default_risk = medium;
      default_hitl_mode = per_request;
      aliases =
          "npm_run_script" ∷ "npm_run" ∷ "yarn_run" ∷ "pnpm_run" ∷ "run_script" ∷ "make_run" ∷ [];
      intent_group = none;
    }
    ∷ record {
      action_class = "package.read";
      default_risk = low;
      default_hitl_mode = no_hitl;
      aliases = "pip_list" ∷ "pip3_list" ∷ "pip_freeze" ∷ "npm_list" ∷ "list_packages" ∷ [];
      intent_group = none;
    }
    ∷ []

abbrev pub builds_entries : List ActionRegistryEntry
builds_entries =
    record {
      action_class = "build.compile";
      default_risk = medium;
      default_hitl_mode = per_request;
      aliases =
          "run_compiler" ∷ "compile" ∷ "build" ∷ "npm_run_build" ∷ "make" ∷ "tsc" ∷ "javac" ∷ "gcc"
          ∷ "cargo_build" ∷ "go_build" ∷ "mvn_compile" ∷ "gradle_build" ∷ [];
      intent_group = none;
    }
    ∷ record {
      action_class = "build.test";
      default_risk = low;
      default_hitl_mode = no_hitl;
      aliases =
          "run_tests" ∷ "run_test" ∷ "npm_test" ∷ "npm_run_test" ∷ "yarn_test" ∷ "pytest" ∷ "jest"
          ∷ "vitest" ∷ "mocha" ∷ "go_test" ∷ "cargo_test" ∷ "mvn_test" ∷ "gradle_test" ∷ [];
      intent_group = none;
    }
    ∷ record {
      action_class = "build.lint";
      default_risk = low;
      default_hitl_mode = no_hitl;
      aliases =
          "run_linter" ∷ "run_formatter" ∷ "run_typecheck" ∷ "eslint" ∷ "prettier" ∷ "pylint"
          ∷ "flake8" ∷ "mypy" ∷ "cargo_clippy" ∷ "golangci_lint" ∷ "rubocop" ∷ [];
      intent_group = none;
    }
    ∷ []
