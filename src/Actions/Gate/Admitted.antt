-- ===== src/Actions/Gate/Admitted.antt =====
-- Which tools the gate of src/validation/mcp-tool-gate.ts lets pass.
use clawthority.Base.{
  String, Bool, true, false, ◌≡◌, ◌≢◌, ◌↔◌, ◌⊎◌, refl, inl, inr, none, some, Memᴰ, eq_iff, arith,
  Option-cases,
}
use clawthority.Base.Maps.{get, string_key}
use clawthority.Base.Sets.{has}
use clawthority.Policy.Types.{permit}
use clawthority.Actions.Types.{ActionRegistryEntry}
use clawthority.Actions.Registry.{registry}
use clawthority.Actions.Normalize.{alias_index}
use clawthority.Actions.Normalize.Lookup.{NoAlias, alias_index_sound, alias_index-NoAlias}
use clawthority.Actions.Gate.{ToolGate, decide_entry, evaluate_tool}

-- A tool that the registry names, for something else than running a shell, or a tool that it does not
-- name and the operator does.
abbrev pub Admitted : ToolGate → String → Type 0
Admitted gate name =
    ((e : ActionRegistryEntry) × (get name alias_index ≡ some e)
      × Memᴰ e registry
      × Memᴰ name e.aliases
      × (e.action_class ≢ "shell.exec"))
    ⊎ (NoAlias name × (has name gate.allowlist ≡ true))

entry-permit :
    (e : ActionRegistryEntry) (listed : Bool)
    → ((decide_entry (some e) listed).effect ≡ permit) ↔ (e.action_class ≢ "shell.exec")
entry-permit e listed = (
  (λ h same. ground (arith, eq_iff e.action_class "shell.exec")),
  (λ other. ground (arith, eq_iff e.action_class "shell.exec")),
)

unlisted-permit : (listed : Bool) → ((decide_entry none listed).effect ≡ permit) ↔ (listed ≡ true)
unlisted-permit true = ((λ h. refl), (λ h. refl))
unlisted-permit false = ((λ h. absurd (ground arith)), (λ h. absurd (ground arith)))

-- The gate permits a tool exactly when the registry has the tool's name among the aliases of an entry
-- that is not for running a shell, as the alias index resolves it, or when no entry has it and the
-- operator's list does.
pub evaluate_tool-Admitted :
    (lower : String → String) (gate : ToolGate) (tool_name : String)
    → ((evaluate_tool lower gate tool_name).effect ≡ permit) ↔ Admitted gate (lower tool_name)
unfolding evaluate_tool
evaluate_tool-Admitted lower gate tool_name =
    let name = lower tool_name in
    let listed = has name gate.allowlist in
    elim (Option-cases (get name alias_index)) [
      | inr (e, p) ↦
          let (m, q) = alias_index_sound name p in
          let (to, back) = entry-permit e listed in
          (
            (λ h. inl (e, p, m, q, to (rw p at h))),
            (λ admitted. elim admitted [
              | inl (x, found, _, _, other) ↦ rw found ((entry-permit x listed).1 other)
              | inr (free, _) ↦ absurd (free e m q)
            ]),
          )
      | inl p ↦
          let (to, back) = unlisted-permit listed in
          (
            (λ h. inr (alias_index-NoAlias name p, to (rw p at h))),
            (λ admitted. elim admitted [
              | inl (x, found, _, _, _) ↦ absurd cc
              | inr (_, h) ↦ rw p (back h)
            ]),
          )
    ]
