-- ===== src/Permits/Checker.antt =====
-- src/auto-permits/matcher.ts: `FileAutoPermitChecker`; and the record of src/models/auto-permit.ts.
pub mod Cache
use mathlib.Core.Path.{◌≡◌, subst}
use clawthority.Base.{
  ℕ, String, Bool, true, false, Option, none, some, List, [], ◌∷◌, if◌then◌else◌, present_and,
}
use clawthority.Base.Maps.{Key, get, put}
use clawthority.Permits.Words.{Text, same, same_sound, same_refl}
use clawthority.Permits.Tokens.{normalize_command}
use clawthority.Permits.Regexp.{Regexp, test}
use clawthority.Permits.Pattern.{DerivationMethod, compile_pattern_regex, is_empty}

instance abbrev pub text_key : Key Text
text_key = record {
  same = same;
  same_iff = λ s t. (same_sound s t, λ e. subst (λ v. same s v ≡ true) e (same_refl s));
}

pub record AutoPermit : Type 0 where
  pub pattern : Text
  pub method : DerivationMethod
  pub created_at_ms : ℕ
  pub original_command : Text
  pub intent_hint : Option String
  pub created_by : Option String
  pub created_at : Option String
  pub derived_from : Option Text

-- The compiled patterns; `none` is a pattern that did not compile.
abbrev pub Cache : Type 0
Cache = List (Text × Option Regexp)

pub record FileAutoPermitChecker : Type 0 where
  pub rules : List AutoPermit
  pub cache : Cache

unfoldable pub new_checker : List AutoPermit → FileAutoPermitChecker
new_checker rules = record { rules = rules; cache = [] }

abbrev pub found_or : Option (Option Regexp) → Option Regexp
found_or none = none
found_or (some r) = r

-- `if (!this.cache.has(pattern)) this.cache.set(pattern, …)`, by what the cache has.
abbrev pub fill_by : Option (Option Regexp) → Text → Cache → Cache
fill_by none pattern cache = put pattern (compile_pattern_regex pattern) cache
fill_by (some _) pattern cache = cache

unfoldable pub fill : Text → Cache → Cache
unfolding get put compile_pattern_regex
fill pattern cache = fill_by (get pattern cache) pattern cache

unfoldable pub compiled : Text → Cache → Option Regexp × Cache
unfolding fill get
compiled pattern cache = let filled = fill pattern cache in (found_or (get pattern filled), filled)

-- `if (regex !== null && regex.test(normalized)) return rule`
abbrev pub return_if :
    Bool → AutoPermit → Cache → Option AutoPermit × Cache → Option AutoPermit × Cache
return_if true rule cache rest = (some rule, cache)
return_if false rule cache rest = rest

-- The loop of `matchCommand`.
unfoldable pub scan_rules : Text → List AutoPermit → Cache → Option AutoPermit × Cache
unfolding compiled test
scan_rules normalized [] cache = (none, cache)
scan_rules normalized (rule ∷ rules) cache =
    let (regex, cache') = compiled rule.pattern cache in
    return_if (present_and (λ r. test r normalized) regex) rule cache'
      (scan_rules normalized rules cache')

unfoldable pub match_command :
    Text → FileAutoPermitChecker → Option AutoPermit × FileAutoPermitChecker
unfolding scan_rules normalize_command
match_command command c =
    let normalized = normalize_command command in
    if is_empty command
    then (none, c)
    else if is_empty normalized
    then (none, c)
    else (let (found, cache) = scan_rules normalized c.rules c.cache in
        (found, record c { cache = cache }))
