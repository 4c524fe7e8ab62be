-- ===== src/Lib.antt =====
-- Clawthority decides whether an agent may make a tool call. This library models the parts that
-- decide, and proves what their decisions guarantee.
--
-- The parts and how they interact:
--   * A tool call is classified (src/enforcement/normalize.ts, over the registry of
--     packages/action-registry/src/index.ts): Actions. `get_registry_entry` is `getRegistryEntry`,
--     `normalize_action` is `normalize_action`, `registry` is `REGISTRY`. Actions.Gate is the
--     gate of MCP tools (src/validation/mcp-tool-gate.ts): `evaluate_tool` is `evaluate`, without the
--     audit entry.
--   * The policy engine (src/policy/engine.ts) evaluates rules against a resource, an action class
--     or an intent group, and limits the rate of calls: Policy. `evaluate`,
--     `evaluate_by_action_class` and `evaluate_by_intent_group` are the methods of those names; each
--     takes the engine's state and the time and returns a decision and the new state.
--   * The approval manager (src/hitl/approval-manager.ts) holds the requests that operators decide, and
--     the policies (src/hitl/types.ts, src/hitl/matcher.ts) say which calls need one: Hitl. Each
--     method is a function on `ApprovalManager`; `Event`, `step` and `run` are the sequences of calls and
--     timer callbacks that can reach it. The retry loop and the circuit breaker of the adapters
--     (src/hitl/retry.ts) are Hitl.Retry; its fuel is `maxRetries + 1`, one unit for each call.
--   * The pipeline (src/enforcement) runs the capability gate (stage1-capability.ts) and the policy
--     stage (stage2-policy.ts), which asks two engines: Enforcement.Stage1, Enforcement.Stage2 and
--     Enforcement.Pipeline. The dispatch (hitl-dispatch.ts) asks an operator where the forbid allows
--     it and runs the pipeline again: Enforcement.Dispatch.
--   * The stored rules of "Approve Always" (src/auto-permits, src/models/auto-permit.ts): Permits. A
--     command is split into tokens (`tokenize`), a pattern is derived (`derive_pattern`), checked
--     (`validate_pattern`) and compiled (`compile_pattern_regex`), and `match_command` tests a
--     command against the rules; Permits.Store reads and writes the file of the rules.
--   * The authority adapter (src/adapter/file-adapter.ts): Adapter.Capabilities issues the capabilities
--     that the gate looks up, and Adapter.Bundles watches the policy bundle: `watch_step` is one
--     event of the file, the watcher, the timer or a reload.
--   * The plugin (src/index.ts): Plugin.Stored loads the rules, adds the rule of an approved call
--     and revokes one, and gives the checker to the policy stage. Plugin.Approve is the callback of
--     the Telegram listener: `handle_command` takes an operator's button, asks for a confirmation of
--     the pattern of an approval for good, and resolves the request; `Input`, `take_input` and
--     `take_inputs` are the sequences of buttons and timer callbacks that can reach it.
--   * The budget (src/budget/tracker.ts, src/budget/pricing.ts): Budget. `new_tracker` is the
--     constructor, which reads the totals of the day from the log; `append` and `check` are the methods. Budget.Hook
--     is the part of `beforeToolCallHandler` (src/index.ts) that charges a call.
--
-- Conventions: a computation that may throw is a `Result`, without the thrown value, which the source
-- never reads. Texts that are walked are lists of code points (`Text`). The time, the random
-- identifiers, `sha256`, `toLowerCase`, the floating-point arithmetic (`Floats`), the operator's
-- answers and the issue of capabilities are arguments. A promise and its timer share a number, the handle. A
-- `Map` is an association list in insertion order. The loops are structural, but for the
-- retry loop and for `decimal`, which prints a number and has one round more than the number.
--
-- Not modelled: file and network access, the channels to operators, the command explainer, the
-- user interface, the tools, the validation scripts and the rest of the entry point src/index.ts.
-- Regular expressions of rules are arbitrary tests of a text; those of the stored patterns are
-- parsed from the source text that the code builds. The files of rules and bundles hold parsed JSON
-- values, and the schema library and SHA-256 are the record `Codec`. The log of the budget is text,
-- with `JSON.parse` and `JSON.stringify` of an entry as the record `LogFormat`.
pub mod Base
pub mod Policy
pub mod Actions
pub mod Hitl
pub mod Permits
pub mod Enforcement
pub mod Adapter
pub mod Budget
pub mod Plugin
pub mod Examples
