-- ===== src/Adapter/Bundles/Versions.antt =====
-- The versions of the bundles that are passed on.
use clawthority.Base.{
  ℕ, ◌<◌, Bool, false, ◌≡◌, refl, sym, ap, ◌∙◌, inl, inr, Option, none, some, List, [], ◌∷◌,
  Bool-cases, arith,
}
use clawthority.Adapter.Bundles.{
  PolicyBundle, BundleFile, Watch, WatchEvent, on_disk, change, debounced, arrived, stop,
  read_bundle, first_version, first_updates, watch_policy_bundle, is_regression, arrive, reading_at,
  watch_step, watch_steps,
}

module _ {Fields : Type 0} where
  abbrev pub newest : List (PolicyBundle Fields) → Option ℕ
  newest [] = none
  newest (b ∷ bs) = some b.version

  -- Each bundle has a greater version than the one passed on before it.
  abbrev pub Rising : List (PolicyBundle Fields) → Type 0
  Rising [] = Unit
  Rising (b ∷ []) = Unit
  Rising (b ∷ c ∷ bs) = (c.version < b.version) × Rising (c ∷ bs)

  abbrev pub IsCurrent : Watch Fields → Type 0
  IsCurrent w = (w.current_version ≡ newest w.updates) × Rising w.updates

  above :
      (b : PolicyBundle Fields) (bs : List (PolicyBundle Fields))
      → is_regression b.version (newest bs) ≡ false
      → Rising bs
      → Rising (b ∷ bs)
  above b [] h r = tt
  above b (c ∷ bs) h r = (ground arith, r)

  module _ (no_fields : Fields) where
    arrive-IsCurrent :
        (found : Option (PolicyBundle Fields)) (w : Watch Fields)
        → IsCurrent w
        → IsCurrent (arrive found w)
    unfolding arrive
    arrive-IsCurrent none w v = v
    arrive-IsCurrent (some b) w v = elim (Bool-cases (is_regression b.version w.current_version)) [
      | inl old ↦ rw (old, arrive) v
      | inr new ↦
          rw (new, arrive)
            (refl, above b w.updates (ap (is_regression b.version) (sym v.0) ∙ new) v.1)
    ]

    watch_step-IsCurrent :
        (ev : WatchEvent Fields) (w : Watch Fields)
        → IsCurrent w
        → IsCurrent (watch_step no_fields ev w)
    unfolding watch_step
    watch_step-IsCurrent (on_disk file) w v = v
    watch_step-IsCurrent change w v = elim (Bool-cases w.stopped) [
      | inl y ↦ rw (y, watch_step) v
      | inr n ↦ rw (n, watch_step) v
    ]
    watch_step-IsCurrent (debounced creatable) w v = elim (Bool-cases w.timer_armed) [
      | inl y ↦ rw (y, watch_step) v
      | inr n ↦ rw (n, watch_step) v
    ]
    watch_step-IsCurrent (arrived i) w v = arrive-IsCurrent (reading_at i w.reading) _ v
    watch_step-IsCurrent stop w v = v

    watch_steps-IsCurrent :
        (evs : List (WatchEvent Fields)) (w : Watch Fields)
        → IsCurrent w
        → IsCurrent (watch_steps no_fields evs w)
    unfolding watch_steps
    watch_steps-IsCurrent [] w v = v
    watch_steps-IsCurrent (ev ∷ evs) w v =
        watch_steps-IsCurrent evs (watch_step no_fields ev w) (watch_step-IsCurrent ev w v)

    started-IsCurrent :
        (creatable : Bool) (file : BundleFile Fields)
        → IsCurrent (watch_policy_bundle no_fields creatable file)
    unfolding watch_policy_bundle
    started-IsCurrent creatable file = by_initial (read_bundle no_fields creatable file)
      where
        by_initial :
            (initial : Option (PolicyBundle Fields))
            → (first_version initial ≡ newest (first_updates initial))
              × Rising (first_updates initial)
        by_initial none = (refl, tt)
        by_initial (some b) = (refl, tt)

    -- However the file changes, whichever reads of it fail and in whatever order reloads end, each
    -- bundle that is passed on has a greater version than the one before it, and the last of them
    -- is the current one.
    pub watch_policy_bundle-IsCurrent :
        (creatable : Bool) (file : BundleFile Fields) (evs : List (WatchEvent Fields))
        → IsCurrent (watch_steps no_fields evs (watch_policy_bundle no_fields creatable file))
    watch_policy_bundle-IsCurrent creatable file evs =
        watch_steps-IsCurrent evs (watch_policy_bundle no_fields creatable file)
          (started-IsCurrent creatable file)
