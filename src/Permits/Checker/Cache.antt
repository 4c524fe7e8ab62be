-- ===== src/Permits/Checker/Cache.antt =====
-- `matchCommand` with the cache, and without it.
use clawthority.Base.{
  ◌≡◌, refl, sym, ap, ◌∙◌, ◌⊎◌, inl, inr, Bool, true, false, List, [], ◌∷◌, Option, none, some,
  if◌then◌else◌, Bool-cases, arith, present_and, Memᴰ, eq_of_some,
}
use clawthority.Base.Maps.{get, put, get-put}
use clawthority.Permits.Words.{Text, same, same_sound, same_refl}
use clawthority.Permits.Tokens.{normalize_command}
use clawthority.Permits.Regexp.{Regexp, test}
use clawthority.Permits.Pattern.{compile_pattern_regex, is_empty}
use clawthority.Permits.Covers.{rule_matches}
use clawthority.Permits.Checker.{
  AutoPermit, Cache, FileAutoPermitChecker, new_checker, found_or, fill, fill_by, return_if,
  compiled, scan_rules, match_command, text_key,
}

-- Every cached expression is the one of its pattern.
abbrev pub IsCoherent : Cache → Type 0
IsCoherent cache =
    (p : Text) (r : Option Regexp) → get p cache ≡ some r → r ≡ compile_pattern_regex p

fill_cases :
    (p : Text) (cache : Cache)
    → (fill p cache ≡ put p (compile_pattern_regex p) cache)
      ⊎ ((r : Option Regexp) × (get p cache ≡ some r) × (fill p cache ≡ cache))
unfolding fill
fill_cases p cache = by_found (get p cache) refl
  where
    by_found :
        (found : Option (Option Regexp))
        → get p cache ≡ found
        → (fill_by found p cache ≡ put p (compile_pattern_regex p) cache)
          ⊎ ((r : Option Regexp) × (get p cache ≡ some r) × (fill_by found p cache ≡ cache))
    by_found none e = inl refl
    by_found (some r) e = inr (r, e, refl)

fill-IsCoherent : (p : Text) (cache : Cache) → IsCoherent cache → IsCoherent (fill p cache)
fill-IsCoherent p cache h q r e = elim (fill_cases p cache) [
  | inr (_, _, kept) ↦ h q r (rw kept at e)
  | inl added ↦
      let x = compile_pattern_regex p in
      let e' : (if same p q then some x else get q cache) ≡ some r =
        sym (get-put p q x cache) ∙ (rw added at e) in
      elim (Bool-cases (same p q)) [
        | inl s ↦
            let here : x ≡ r = eq_of_some (rw s at e') in
            sym here ∙ ap compile_pattern_regex (same_sound p q s)
        | inr n ↦ h q r (rw n at e')
      ]
]

filled_there : (p : Text) (cache : Cache) → (r : Option Regexp) × (get p (fill p cache) ≡ some r)
filled_there p cache = elim (fill_cases p cache) [
  | inr (r, there, kept) ↦ (r, rw kept there)
  | inl added ↦
      let x = compile_pattern_regex p in
      (x, rw added (get-put p p x cache ∙ (rw (same_refl p) refl)))
]

compiled_lem :
    (p : Text) (cache : Cache) → IsCoherent cache → (compiled p cache).0 ≡ compile_pattern_regex p
unfolding compiled
compiled_lem p cache h =
    let (r, e) = filled_there p cache in ap found_or e ∙ fill-IsCoherent p cache h p r e

-- The loop without a cache: the first rule whose pattern matches.
unfoldable pub first_match : Text → List AutoPermit → Option AutoPermit
unfolding rule_matches
first_match normalized [] = none
first_match normalized (rule ∷ rules) =
    let rest = first_match normalized rules in
    if rule_matches rule.pattern normalized then some rule else rest

return_if-first_match :
    (t : Text) (rule : AutoPermit) (rules : List AutoPermit) (cache : Cache)
    (rest : Option AutoPermit × Cache) (b : Bool)
    → b ≡ rule_matches rule.pattern t
    → IsCoherent cache
    → (rest.0 ≡ first_match t rules) × IsCoherent rest.1
    → ((return_if b rule cache rest).0 ≡ first_match t (rule ∷ rules))
      × IsCoherent (return_if b rule cache rest).1
unfolding first_match
return_if-first_match t rule rules cache rest true e h k = (rw (sym e) refl, h)
return_if-first_match t rule rules cache rest false e h k = (rw (sym e) k.0, k.1)

scan_rules-first_match :
    (t : Text) (rules : List AutoPermit) (cache : Cache)
    → IsCoherent cache
    → ((scan_rules t rules cache).0 ≡ first_match t rules) × IsCoherent (scan_rules t rules cache).1
unfolding scan_rules first_match compiled rule_matches
scan_rules-first_match t [] cache h = (refl, h)
scan_rules-first_match t (rule ∷ rules) cache h =
    let filled = fill rule.pattern cache in
    let h' = fill-IsCoherent rule.pattern cache h in
    return_if-first_match t rule rules filled (scan_rules t rules filled)
      (present_and (λ r. test r t) (compiled rule.pattern cache).0)
      (ap (present_and (λ r. test r t)) (compiled_lem rule.pattern cache h)) h'
      (scan_rules-first_match t rules filled h')

-- The answer of `matchCommand`, by patterns alone.
unfoldable pub match_rules : List AutoPermit → Text → Option AutoPermit
unfolding first_match normalize_command
match_rules rules command =
    if is_empty command
    then none
    else if is_empty (normalize_command command)
    then none
    else first_match (normalize_command command) rules

-- With a coherent cache `matchCommand` answers as without one, its cache stays coherent and its rules
-- stay the same.
pub match_command-match_rules :
    (command : Text) (c : FileAutoPermitChecker)
    → IsCoherent c.cache
    → ((match_command command c).0 ≡ match_rules c.rules command)
      × IsCoherent (match_command command c).1.cache
      × ((match_command command c).1.rules ≡ c.rules)
unfolding match_command match_rules
match_command-match_rules command c h = elim (Bool-cases (is_empty command)) [
  | inl none_given ↦ rw none_given (refl, h, refl)
  | inr given ↦ elim (Bool-cases (is_empty (normalize_command command))) [
    | inl no_token ↦ rw given (rw no_token (refl, h, refl))
    | inr tokens ↦
        let (found, coherent) =
          scan_rules-first_match (normalize_command command) c.rules c.cache h in
        rw given (rw tokens (found, coherent, refl))
  ]
]

pub new_checker-IsCoherent : (rules : List AutoPermit) → IsCoherent (new_checker rules).cache
unfolding new_checker get
new_checker-IsCoherent rules p r e = cc

later_mem :
    (t : Text) (x r : AutoPermit) (rules : List AutoPermit)
    → Memᴰ r (x ∷ rules)
    → rule_matches x.pattern t ≡ false
    → rule_matches r.pattern t ≡ true
    → Memᴰ r rules
later_mem t x r rules (Memᴰ.head e) n h =
    let here : rule_matches x.pattern t ≡ true = rw (sym e) h in ground arith
later_mem t x r rules (Memᴰ.tail m) n h = m

-- A rule whose pattern matches is enough for some rule to be found.
first_match-mem :
    (t : Text) (r : AutoPermit) (rules : List AutoPermit)
    → Memᴰ r rules
    → rule_matches r.pattern t ≡ true
    → (p : AutoPermit) × (first_match t rules ≡ some p)
unfolding first_match
first_match-mem t r [] m h = elim m [ ]
first_match-mem t r (x ∷ rules) m h = elim (Bool-cases (rule_matches x.pattern t)) [
  | inl y ↦ (x, rw y refl)
  | inr n ↦ let (p, e) = first_match-mem t r rules (later_mem t x r rules m n h) h in (p, rw n e)
]

pub match_rules-mem :
    (command : Text) (r : AutoPermit) (rules : List AutoPermit)
    → is_empty command ≡ false
    → is_empty (normalize_command command) ≡ false
    → Memᴰ r rules
    → rule_matches r.pattern (normalize_command command) ≡ true
    → (p : AutoPermit) × (match_rules rules command ≡ some p)
unfolding match_rules
match_rules-mem command r rules given tokens m h =
    let (p, e) = first_match-mem (normalize_command command) r rules m h in
    (p, rw given (rw tokens e))
