-- ===== src/Permits/Store.antt =====
-- src/auto-permits/store.ts and validation.ts: the file of the stored rules, read and written. The
-- schema library and node:crypto are the parameter `Codec`; a file holds a parsed JSON value.
pub mod RoundTrip
use clawthority.Base.{
  ℕ, ◌+◌, ◌-◌, ◌≡◌, String, Bool, true, false, not, ◌&&◌, Option, none, some, List, [], ◌∷◌, ◌++◌,
  ◌==◌, map, length, if◌then◌else◌, present_and, absent_or,
}
use clawthority.Base.Results.{Result, ok, threw}
use clawthority.Permits.Checker.{AutoPermit}
use clawthority.Permits.Pattern.{is_empty}

-- The lengths that `AutoPermitSchema` wants: one character at least, where the field is there.
unfoldable pub is_storable : AutoPermit → Bool
is_storable p =
    not (is_empty p.pattern)
    && (not (is_empty p.original_command)
        && (absent_or (λ s. not (s == "")) p.created_by
            && (absent_or (λ s. not (s == "")) p.created_at
                && absent_or (λ s. not (is_empty s)) p.derived_from)))

-- What the code relies on: `Value.Check` with the schema of one record and `Value.Errors`, the JSON
-- value of a record, and the SHA-256 digest of the JSON text of the rules.
pub record Codec (Entry : Type 0) : Type 0 where
  pub decode : Entry → Option AutoPermit
  pub errors : Entry → List String
  pub encode : AutoPermit → Entry
  pub digest : List Entry → String
  pub decode_storable : (e : Entry) (p : AutoPermit) → decode e ≡ some p → is_storable p ≡ true
  pub decode_encode :
      (p : AutoPermit) → decode (encode p) ≡ (if is_storable p then some p else none)

-- A parsed file: an array, an object that `AutoPermitFileSchema` accepts, or another value, with the
-- messages about it.
pub data Document (Entry : Type 0) : Type 0 where
  legacy : List Entry → Document Entry
  versioned : ℕ → List Entry → Option String → Document Entry
  refused : List String → Document Entry

pub data StoreFile (Entry : Type 0) : Type 0 where
  missing unreadable invalid_json : StoreFile Entry
  holds : Document Entry → StoreFile Entry

pub record EntryError : Type 0 where
  pub index : ℕ
  pub errors : List String

pub record FileValidation : Type 0 where
  pub envelope_valid : Bool
  pub envelope_errors : List String
  pub rules : List AutoPermit
  pub skipped : ℕ
  pub entry_errors : List EntryError
  pub version : ℕ
  pub checksum : Option String
  pub is_legacy : Bool
  pub checksum_mismatch : Bool

-- One message of `validationErrors`, by what it is about.
pub data Problem : Type 0 where
  envelope_problem : String → Problem
  entry_problem : ℕ → List String → Problem
  checksum_problem parse_problem : Problem

pub record LoadResult : Type 0 where
  pub rules : List AutoPermit
  pub skipped : ℕ
  pub found : Bool
  pub version : ℕ
  pub checksum : Option String
  pub validation_errors : List Problem

module _ {Entry : Type 0} (codec : Codec Entry) where
  -- The records of the entries that pass, in order.
  unfoldable pub accepted : List Entry → List AutoPermit
  accepted [] = []
  accepted (e ∷ es) = elim (codec.decode e) [ none ↦ accepted es | some p ↦ p ∷ accepted es ]

  -- The entries that do not pass, with their index.
  unfoldable pub entry_errors_from : ℕ → List Entry → List EntryError
  entry_errors_from i [] = []
  entry_errors_from i (e ∷ es) = elim (codec.decode e) [
    | none ↦ record { index = i; errors = codec.errors e } ∷ entry_errors_from (i + 1) es
    | some p ↦ entry_errors_from (i + 1) es
  ]

  unfoldable pub build_rules_result : List Entry → ℕ → Option String → Bool → FileValidation
  unfolding accepted entry_errors_from
  build_rules_result raw_rules version checksum is_legacy = record {
    envelope_valid = true;
    envelope_errors = [];
    rules = accepted raw_rules;
    skipped = length raw_rules - length (accepted raw_rules);
    entry_errors = entry_errors_from 0 raw_rules;
    version = version;
    checksum = checksum;
    is_legacy = is_legacy;
    checksum_mismatch = present_and (λ c. not (c == codec.digest raw_rules)) checksum;
  }

  unfoldable pub validate_auto_permit_content : Document Entry → FileValidation
  unfolding build_rules_result
  validate_auto_permit_content (legacy entries) = build_rules_result entries 0 none true
  validate_auto_permit_content (versioned version rules checksum) =
      build_rules_result rules version checksum false
  validate_auto_permit_content (refused errors) = record {
    envelope_valid = false;
    envelope_errors = errors;
    rules = [];
    skipped = 0;
    entry_errors = [];
    version = 0;
    checksum = none;
    is_legacy = false;
    checksum_mismatch = false;
  }

  abbrev problems : FileValidation → List Problem
  problems v =
      map envelope_problem v.envelope_errors
      ++ (map (λ e. entry_problem e.index e.errors) v.entry_errors
          ++ (if v.checksum_mismatch then checksum_problem ∷ [] else []))

  abbrev without_rules : Bool → List Problem → LoadResult
  without_rules found errors = record {
    rules = [];
    skipped = 0;
    found = found;
    version = 0;
    checksum = none;
    validation_errors = errors;
  }

  unfoldable pub load_auto_permit_rules_from_file : StoreFile Entry → Result LoadResult
  unfolding validate_auto_permit_content
  load_auto_permit_rules_from_file missing = ok (without_rules false [])
  load_auto_permit_rules_from_file unreadable = threw
  load_auto_permit_rules_from_file invalid_json = ok (without_rules true (parse_problem ∷ []))
  load_auto_permit_rules_from_file (holds document) =
      let v = validate_auto_permit_content document in
      ok (record {
        rules = v.rules;
        skipped = v.skipped;
        found = true;
        version = v.version;
        checksum = v.checksum;
        validation_errors = problems v;
      })

  -- What `saveAutoPermitRules` leaves in the file.
  unfoldable pub saved_document : List AutoPermit → ℕ → Document Entry
  saved_document rules next_version =
      let entries = map codec.encode rules in
      versioned next_version entries (some (codec.digest entries))
