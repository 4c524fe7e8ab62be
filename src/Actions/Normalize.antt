-- ===== src/Actions/Normalize.antt =====
-- src/enforcement/normalize.ts: the class, the risk and the target of a tool call. `lower` is
-- `String.prototype.toLowerCase`. The regular expression of the shell metacharacters is the list of
-- its characters; parameters are an association list, in the order of `Object.values`.
pub mod Lookup
pub mod Unique
pub mod Outcome
use clawthority.Base.{
  ℕ, nat_eq, String, Bool, true, false, ◌&&◌, ◌||◌, not, Option, none, some, List, [], ◌∷◌, ◌==◌,
  any, or_else, if◌then◌else◌,
}
use package.text.Mathlib.Text.{starts_with}
use clawthority.Base.Maps.{get, put, string_key}
use clawthority.Base.Text.{has_code}
use clawthority.Enforcement.Types.{RiskLevel, critical, high, HitlMode}
use clawthority.Actions.Types.{
  ActionRegistryEntry, NormalizedAction, Param, string_param, other_param,
}
use clawthority.Actions.Registry.{registry, unknown_entry}

-- `for (const alias of entry.aliases) ALIAS_INDEX.set(alias, entry)`
unfoldable pub index_aliases :
    ActionRegistryEntry
    → List String
    → List (String × ActionRegistryEntry)
    → List (String × ActionRegistryEntry)
unfolding put
index_aliases entry [] index = index
index_aliases entry (alias ∷ rest) index = index_aliases entry rest (put alias entry index)

unfoldable pub index_entries :
    List ActionRegistryEntry
    → List (String × ActionRegistryEntry)
    → List (String × ActionRegistryEntry)
unfolding index_aliases
index_entries [] index = index
index_entries (entry ∷ rest) index = index_entries rest (index_aliases entry entry.aliases index)

unfoldable pub alias_index : List (String × ActionRegistryEntry)
unfolding index_entries registry
alias_index = index_entries registry []

abbrev pub target_param_keys : List String
target_param_keys =
    "command" ∷ "cmd" ∷ "script" ∷ "file_path" ∷ "path" ∷ "file" ∷ "repo_url" ∷ "package_name"
    ∷ "query" ∷ "input" ∷ "args" ∷ "url" ∷ "destination" ∷ "to" ∷ "recipient" ∷ "email" ∷ []

abbrev pub target_keys_by_class : List (String × List String)
target_keys_by_class =
    ("filesystem.read", "file_path" ∷ "path" ∷ "file" ∷ [])
    ∷ (
      "filesystem.write",
      "file_path" ∷ "path" ∷ "file" ∷ "destination" ∷ "url" ∷ "to" ∷ "recipient" ∷ "email" ∷ [],
    )
    ∷ ("filesystem.delete", "file_path" ∷ "path" ∷ "file" ∷ [])
    ∷ ("filesystem.list", "file_path" ∷ "path" ∷ "file" ∷ [])
    ∷ ("system.read", "variable_name" ∷ "name" ∷ "key" ∷ [])
    ∷ ("vcs.read", "path" ∷ "file_path" ∷ "branch" ∷ "ref" ∷ "revision" ∷ [])
    ∷ ("vcs.write", "path" ∷ "file_path" ∷ "working_dir" ∷ [])
    ∷ ("vcs.remote", "repo_url" ∷ "url" ∷ "remote_url" ∷ "remote" ∷ [])
    ∷ ("package.install", "package_name" ∷ "package" ∷ "name" ∷ [])
    ∷ ("package.run", "script" ∷ "script_name" ∷ "name" ∷ "package_name" ∷ [])
    ∷ ("package.read", "package_name" ∷ "package" ∷ "name" ∷ [])
    ∷ ("build.compile", "target" ∷ "path" ∷ "file_path" ∷ "working_dir" ∷ [])
    ∷ ("build.test", "target" ∷ "path" ∷ "working_dir" ∷ [])
    ∷ ("build.lint", "target" ∷ "path" ∷ "file_path" ∷ "working_dir" ∷ [])
    ∷ ("archive.create", "output_path" ∷ "destination" ∷ "archive_path" ∷ "path" ∷ "file_path" ∷ [])
    ∷ ("archive.extract", "destination" ∷ "output_dir" ∷ "archive_path" ∷ "path" ∷ "file_path" ∷ [])
    ∷ ("archive.read", "archive_path" ∷ "path" ∷ "file_path" ∷ [])
    ∷ ("shell.exec", "command" ∷ "cmd" ∷ "script" ∷ [])
    ∷ ("code.execute", "code" ∷ "script" ∷ "command" ∷ [])
    ∷ []

-- The character class of `SHELL_METACHAR_RE`.
abbrev pub shell_metachars : List ℕ
shell_metachars =
    b';' ∷ b'|' ∷ b'&' ∷ b'>' ∷ b'<' ∷ b'`' ∷ b'$' ∷ b'(' ∷ b')' ∷ b'{' ∷ b'}' ∷ b'[' ∷ b']' ∷ b'\\'
    ∷ []

unfoldable pub contains_shell_metachars : String → Bool
unfolding has_code
contains_shell_metachars value = has_code (λ c. any (λ m. nat_eq m c) shell_metachars) value

unfoldable pub has_shell_metachars_in_params : List (String × Param) → Bool
unfolding contains_shell_metachars
has_shell_metachars_in_params [] = false
has_shell_metachars_in_params ((_, string_param s) ∷ rest) =
    contains_shell_metachars s || has_shell_metachars_in_params rest
has_shell_metachars_in_params ((_, other_param) ∷ rest) = has_shell_metachars_in_params rest

-- A parameter that can be the target: a string that is not empty.
abbrev pub usable : Option Param → Option String
usable none = none
usable (some other_param) = none
usable (some (string_param s)) = if s == "" then none else some s

unfoldable pub first_target : List String → List (String × Param) → String
unfolding get
first_target [] params = ""
first_target (key ∷ keys) params = or_else (usable (get key params)) (first_target keys params)

unfoldable pub extract_target : String → List (String × Param) → String
unfolding first_target get
extract_target action_class params =
    first_target (or_else (get action_class target_keys_by_class) target_param_keys) params

-- Rule 1, on the class and the risk.
unfoldable pub reclassify_url : String → String × RiskLevel → String × RiskLevel
unfolding alias_index get unknown_entry
reclassify_url target (action_class, risk) =
    if action_class == "filesystem.write"
      && (starts_with target "http://" || starts_with target "https://")
    then (let web_post_entry = or_else (get "http_post" alias_index) unknown_entry in
        (web_post_entry.action_class, web_post_entry.default_risk))
    else (action_class, risk)

-- Rule 2.
unfoldable pub reclassify_email : String → String × RiskLevel → String × RiskLevel
unfolding has_code
reclassify_email target (action_class, risk) =
    if action_class == "filesystem.write" && has_code (nat_eq b'@') target
    then ("communication.external.send", high)
    else (action_class, risk)

module _ (lower : String → String) where
  unfoldable pub get_registry_entry : String → ActionRegistryEntry
  unfolding alias_index get unknown_entry
  get_registry_entry tool_name = or_else (get (lower tool_name) alias_index) unknown_entry

  unfoldable pub normalize_action_class : String → String
  unfolding get_registry_entry
  normalize_action_class tool_name = (get_registry_entry tool_name).action_class

  -- `normalize_action(toolName, params)`
  unfoldable pub normalize_action : String → List (String × Param) → NormalizedAction
  unfolding get_registry_entry extract_target reclassify_url reclassify_email
      has_shell_metachars_in_params
  normalize_action tool_name params =
      let entry = get_registry_entry tool_name in
      let target = extract_target entry.action_class params in
      let (action_class, risk) =
        reclassify_email target (reclassify_url target (entry.action_class, entry.default_risk)) in
      record {
        action_class = action_class;
        risk = if has_shell_metachars_in_params params then critical else risk;
        hitl_mode = entry.default_hitl_mode;
        target = target;
        intent_group = entry.intent_group;
      }
