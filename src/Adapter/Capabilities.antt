-- ===== src/Adapter/Capabilities.antt =====
-- src/adapter/file-adapter.ts: `issueCapability` and the map of the issued capabilities. The random
-- identifier and the time are arguments, and `sha256` is a parameter.
pub mod Issued
use clawthority.Base.{ℕ, ◌+◌, ◌*◌, String, Option, none, some, List, [], ◌∷◌, or_else}
use clawthority.Base.Maps.{get, put, string_key}
use clawthority.Hitl.Approvals.{compute_binding}
use clawthority.Enforcement.Types.{Capability}

pub record IssueCapabilityOpts : Type 0 where
  pub action_class : String
  pub target : String
  pub payload_hash : String
  pub session_id : Option String
  pub ttl_seconds : Option ℕ

pub record FileAuthorityAdapter : Type 0 where
  pub capabilities : List (String × Capability)
  pub capability_ttl_seconds : Option ℕ

abbrev pub default_ttl_seconds : ℕ
default_ttl_seconds = 3600

-- `(opts.ttl_seconds ?? this.config.capabilityTtlSeconds ?? DEFAULT_TTL_SECONDS) * 1000`
unfoldable pub ttl_ms : IssueCapabilityOpts → FileAuthorityAdapter → ℕ
ttl_ms opts a =
    or_else opts.ttl_seconds (or_else a.capability_ttl_seconds default_ttl_seconds) * 1000

unfoldable pub issue_capability :
    (String → String)
    → String
    → ℕ
    → IssueCapabilityOpts
    → FileAuthorityAdapter
    → Capability × FileAuthorityAdapter
unfolding ttl_ms compute_binding put
issue_capability sha256 approval_id now opts a =
    let capability : Capability = record {
      approval_id = approval_id;
      binding = compute_binding sha256 opts.action_class opts.target opts.payload_hash;
      action_class = opts.action_class;
      target = opts.target;
      issued_at = now;
      expires_at = now + ttl_ms opts a;
      session_id = opts.session_id;
    } in
    (capability, record a { capabilities = put approval_id capability a.capabilities })
