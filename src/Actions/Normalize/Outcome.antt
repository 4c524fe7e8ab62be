-- ===== src/Actions/Normalize/Outcome.antt =====
-- What `normalize_action` of src/enforcement/normalize.ts returns.
use clawthority.Base.{
  String, ◌≡◌, ◌≢◌, refl, Bool, true, false, Option, none, some, List, [], ◌∷◌, ◌++◌, ap, eq_iff,
  or_else, if◌then◌else◌, Bool-cases, inl, inr, arith, Memᴰ, Option-cases,
}
use clawthority.Base.Maps.{get, string_key}
use clawthority.Enforcement.Types.{RiskLevel, critical, per_request}
use clawthority.Actions.Types.{Param, string_param, other_param}
use clawthority.Actions.Registry.{unknown_entry}
use clawthority.Actions.Normalize.Lookup.{NoAlias, get_registry_entry_lem}
use clawthority.Actions.Normalize.{
  has_shell_metachars_in_params, contains_shell_metachars, first_target, reclassify_url,
  reclassify_email, get_registry_entry, normalize_action, usable, extract_target,
  target_keys_by_class, target_param_keys,
}

-- A parameter that is a string with a shell metacharacter.
abbrev pub HasMetachar : List (String × Param) → Type 0
HasMetachar params =
    (key s : String) × (Memᴰ (key, string_param s) params × (contains_shell_metachars s ≡ true))

metachars-HasMetachar :
    (params : List (String × Param))
    → has_shell_metachars_in_params params ≡ true
    → HasMetachar params
unfolding has_shell_metachars_in_params
metachars-HasMetachar [] h = cc
metachars-HasMetachar ((k, string_param s) ∷ rest) h =
    elim (Bool-cases (contains_shell_metachars s)) [
      | inl yes_found ↦ (k, s, (Memᴰ.head refl, yes_found))
      | inr no_found ↦
          let (j, t, (m, e)) = metachars-HasMetachar rest (rw no_found at h) in
          (j, t, (Memᴰ.tail m, e))
    ]
metachars-HasMetachar ((k, other_param) ∷ rest) h =
    let (j, t, (m, e)) = metachars-HasMetachar rest h in (j, t, (Memᴰ.tail m, e))

HasMetachar-metachars :
    (params : List (String × Param)) (key s : String)
    → Memᴰ (key, string_param s) params
    → contains_shell_metachars s ≡ true
    → has_shell_metachars_in_params params ≡ true
unfolding has_shell_metachars_in_params
HasMetachar-metachars [] key s m h = elim m [ ]
HasMetachar-metachars ((k, string_param t) ∷ rest) key s (Memᴰ.head e) h =
    let same : s ≡ t = cc in
    let found : contains_shell_metachars t ≡ true = rw same at h in ground arith
HasMetachar-metachars ((k, string_param t) ∷ rest) key s (Memᴰ.tail m) h =
    let later = HasMetachar-metachars rest key s m h in ground arith
HasMetachar-metachars ((k, other_param) ∷ rest) key s (Memᴰ.head e) h = cc
HasMetachar-metachars ((k, other_param) ∷ rest) key s (Memᴰ.tail m) h =
    HasMetachar-metachars rest key s m h

-- The first key of the list that holds a usable parameter gives the target.
pub data IsTarget (keys : List String) (params : List (String × Param)) : String → Type 0 where
  no_target :
      ((key : String) → Memᴰ key keys → usable (get key params) ≡ none) → IsTarget keys params ""
  at_key :
      (before after : List String) (key target : String)
      → keys ≡ before ++ key ∷ after
      → ((k : String) → Memᴰ k before → usable (get k params) ≡ none)
      → get key params ≡ some (string_param target)
      → target ≢ ""
      → IsTarget keys params target

usable-some :
    (o : Option Param) {s : String} → usable o ≡ some s → (o ≡ some (string_param s)) × (s ≢ "")
usable-some none h = cc
usable-some (some other_param) h = cc
usable-some (some (string_param t)) h = ground (arith, eq_iff t "")

pub first_target-IsTarget :
    (keys : List String) (params : List (String × Param))
    → IsTarget keys params (first_target keys params)
unfolding first_target
first_target-IsTarget [] params = no_target (λ key m. elim m [ ])
first_target-IsTarget (key ∷ keys) params = elim (Option-cases (usable (get key params))) [
  | inr (s, p) ↦
      let (stored, full) = usable-some (get key params) p in
      rw (p, first_target) (at_key [] keys key s refl (λ k m. elim m [ ]) stored full)
  | inl p ↦ rw (p, first_target) (skip_key keys params _ key p (first_target-IsTarget keys params))
]
  where
    nothing_before :
        (params : List (String × Param)) (key : String) (rest : List String)
        → usable (get key params) ≡ none
        → ((k : String) → Memᴰ k rest → usable (get k params) ≡ none)
        → (k : String) → Memᴰ k (key ∷ rest)
        → usable (get k params) ≡ none
    nothing_before params key rest p h k (Memᴰ.head e) = rw e p
    nothing_before params key rest p h k (Memᴰ.tail m) = h k m

    skip_key :
        (keys : List String) (params : List (String × Param)) (t : String) (key : String)
        → usable (get key params) ≡ none
        → IsTarget keys params t
        → IsTarget (key ∷ keys) params t
    skip_key keys params t key p (no_target h) = no_target (nothing_before params key _ p h)
    skip_key keys params t key p (at_key before after k target shape h stored full) =
        at_key (key ∷ before) after k target (ap (◌∷◌ key) shape) (nothing_before params key _ p h)
          stored full

abbrev pub target_keys : String → List String
target_keys action_class = or_else (get action_class target_keys_by_class) target_param_keys

raised : (b : Bool) (r : RiskLevel) → b ≡ true → (if b then critical else r) ≡ critical
raised true r h = refl
raised false r h = cc

module _ (lower : String → String) (tool_name : String) (params : List (String × Param)) where
  -- The target is looked for under the keys of the class of the tool's entry, or the general keys where
  -- the class has none: it is the first string there that is not empty, and empty if there is none.
  pub normalize_action-IsTarget :
      IsTarget
        (target_keys (get_registry_entry lower tool_name).action_class)
        params
        (normalize_action lower tool_name params).target
  unfolding normalize_action extract_target
  normalize_action-IsTarget =
      first_target-IsTarget (target_keys (get_registry_entry lower tool_name).action_class) params

  -- A call with a shell metacharacter in one of its string parameters is of critical risk, whatever its
  -- tool.
  pub normalize_action-HasMetachar :
      HasMetachar params → (normalize_action lower tool_name params).risk ≡ critical
  unfolding normalize_action
  normalize_action-HasMetachar (key, s, (m, found)) =
      raised (has_shell_metachars_in_params params) _ (HasMetachar-metachars params key s m found)

  -- A tool that no alias of the registry names is classed as sensitive: whatever its
  -- parameters, its class is the sensitive one, at critical risk, with an approval per request, and
  -- in no intent group.
  pub normalize_action-unknown :
      NoAlias (lower tool_name)
      → let n = normalize_action lower tool_name params in
        ((n.action_class ≡ "unknown_sensitive_action") × (n.risk ≡ critical))
        × ((n.hitl_mode ≡ per_request) × (n.intent_group ≡ none))
  unfolding normalize_action reclassify_url reclassify_email unknown_entry
  normalize_action-unknown clear = elim (get_registry_entry_lem lower tool_name) [
    | inl (m, q) ↦ absurd (clear (get_registry_entry lower tool_name) m q)
    | inr (_, e) ↦ rw (e, normalize_action) ((refl, ground arith), (refl, refl))
  ]
