-- ===== src/Adapter/Bundles.antt =====
-- src/adapter/file-adapter.ts: `watchPolicyBundle`. Reading the file takes time, so a reload has two
-- steps: the timer's callback reads the file, and later its bundle arrives.
pub mod Versions
use clawthority.Base.{
  ℕ, zero, suc, Bool, true, false, Option, none, some, List, [], ◌∷◌, ◌++◌, leb, if◌then◌else◌,
}

-- A bundle, by its version and the rest of its fields.
pub record PolicyBundle (Fields : Type 0) : Type 0 where
  pub version : ℕ
  pub fields : Fields

-- The file at the configured path. `unreadable` covers text that is not JSON.
pub data BundleFile (Fields : Type 0) : Type 0 where
  missing unreadable refused : BundleFile Fields
  holds : PolicyBundle Fields → BundleFile Fields

-- The state of one call: `current_version` is `none` for -1, `updates` has the bundles that
-- `onUpdate` was called with, the last first, and `reading` the bundles of reloads under way.
pub record Watch (Fields : Type 0) : Type 0 where
  pub file : BundleFile Fields
  pub current_version : Option ℕ
  pub updates : List (PolicyBundle Fields)
  pub reading : List (Option (PolicyBundle Fields))
  pub timer_armed : Bool
  pub stopped : Bool

-- What happens to the call: the file changes on disk, the watcher reports it, the debounce timer
-- fires, a reload under way gets its bundle (in any order), and `stop` is called.
pub data WatchEvent (Fields : Type 0) : Type 0 where
  on_disk : BundleFile Fields → WatchEvent Fields
  change : WatchEvent Fields
  debounced : Bool → WatchEvent Fields
  arrived : ℕ → WatchEvent Fields
  stop : WatchEvent Fields

-- `bundle.version <= currentVersion`
abbrev pub is_regression : ℕ → Option ℕ → Bool
is_regression version none = false
is_regression version (some current) = leb version current

module _ {Fields : Type 0} where
  abbrev pub first_version : Option (PolicyBundle Fields) → Option ℕ
  first_version none = none
  first_version (some b) = some b.version

  abbrev pub first_updates : Option (PolicyBundle Fields) → List (PolicyBundle Fields)
  first_updates none = []
  first_updates (some b) = b ∷ []

  -- `reload`, once its bundle is there.
  unfoldable pub arrive : Option (PolicyBundle Fields) → Watch Fields → Watch Fields
  arrive none w = w
  arrive (some b) w =
      if is_regression b.version w.current_version
      then w
      else record w { current_version = some b.version; updates = b ∷ w.updates }

  -- The bundle of the reload at an index, and the others.
  abbrev pub reading_at : ℕ → List (Option (PolicyBundle Fields)) → Option (PolicyBundle Fields)
  reading_at i [] = none
  reading_at zero (b ∷ bs) = b
  reading_at (suc i) (b ∷ bs) = reading_at i bs

  abbrev pub without_reading :
      ℕ → List (Option (PolicyBundle Fields)) → List (Option (PolicyBundle Fields))
  without_reading i [] = []
  without_reading zero (b ∷ bs) = bs
  without_reading (suc i) (b ∷ bs) = b ∷ without_reading i bs

module _ {Fields : Type 0} (no_fields : Fields) where
  -- `DEFAULT_EMPTY_BUNDLE`, whose other field is an empty list of rules
  abbrev pub default_empty_bundle : PolicyBundle Fields
  default_empty_bundle = record { version = 0; fields = no_fields }

  -- The bundle that `readBundle` returns; the flag says whether a new file can be created.
  unfoldable pub read_bundle : Bool → BundleFile Fields → Option (PolicyBundle Fields)
  read_bundle creatable missing = if creatable then some default_empty_bundle else none
  read_bundle creatable unreadable = none
  read_bundle creatable refused = none
  read_bundle creatable (holds b) = some b

  -- The file that `readBundle` leaves.
  unfoldable pub file_read : Bool → BundleFile Fields → BundleFile Fields
  file_read creatable missing = if creatable then holds default_empty_bundle else missing
  file_read creatable unreadable = unreadable
  file_read creatable refused = refused
  file_read creatable (holds b) = holds b

  -- The part up to the watcher.
  unfoldable pub watch_policy_bundle : Bool → BundleFile Fields → Watch Fields
  unfolding read_bundle file_read
  watch_policy_bundle creatable file =
      let initial = read_bundle creatable file in
      record {
        file = file_read creatable file;
        current_version = first_version initial;
        updates = first_updates initial;
        reading = [];
        timer_armed = false;
        stopped = false;
      }

  unfoldable pub watch_step : WatchEvent Fields → Watch Fields → Watch Fields
  unfolding arrive read_bundle file_read
  watch_step (on_disk file) w = record w { file = file }
  watch_step change w = if w.stopped then w else record w { timer_armed = true }
  watch_step (debounced creatable) w =
      if w.timer_armed
      then record w {
        timer_armed = false;
        reading = w.reading ++ read_bundle creatable w.file ∷ [];
        file = file_read creatable w.file;
      }
      else w
  watch_step (arrived i) w =
      arrive (reading_at i w.reading) (record w { reading = without_reading i w.reading })
  watch_step stop w = record w { stopped = true; timer_armed = false }

  unfoldable pub watch_steps : List (WatchEvent Fields) → Watch Fields → Watch Fields
  unfolding watch_step
  watch_steps [] w = w
  watch_steps (ev ∷ evs) w = watch_steps evs (watch_step ev w)
