-- ===== src/Actions/Normalize/Lookup.antt =====
-- The look-up of a tool name in the alias index of src/enforcement/normalize.ts.
use clawthority.Base.{
  all, all-mem, not, String, ◌≡◌, refl, sym, ◌∙◌, Bool, true, none, some, List, [], ◌∷◌, Memᴰ,
  Option-cases, inl, inr, ◌⊎◌, arith, eq_iff, ◌==◌, if◌then◌else◌, Bool-cases,
}
use clawthority.Base.Maps.{get, put, string_key, get-put}
use clawthority.Actions.Types.{ActionRegistryEntry}
use clawthority.Actions.Registry.{registry, unknown_entry}
use clawthority.Actions.Normalize.{index_aliases, index_entries, alias_index, get_registry_entry}

abbrev Index : Type 0
Index = List (String × ActionRegistryEntry)

index_aliases_sound :
    (a : String) (entry : ActionRegistryEntry) (aliases : List String) (index : Index)
    {e : ActionRegistryEntry}
    → get a (index_aliases entry aliases index) ≡ some e
    → ((e ≡ entry) × Memᴰ a aliases) ⊎ (get a index ≡ some e)
unfolding index_aliases
index_aliases_sound a entry [] index h = inr h
index_aliases_sound a entry (alias ∷ rest) index {e} h =
    elim (index_aliases_sound a entry rest (put alias entry index) h) [
      | inl (same, m) ↦ inl (same, Memᴰ.tail m)
      | inr found ↦
          let found' : (if alias == a then some entry else get a index) ≡ some e =
            sym (get-put alias a entry index) ∙ found in
          elim (Bool-cases (alias == a)) [
            | inl here ↦ inl (ground arith, Memᴰ.head (sym ((eq_iff alias a).0 here)))
            | inr elsewhere ↦ inr (ground arith)
          ]
    ]

index_entries_sound :
    (a : String) (es : List ActionRegistryEntry) (index : Index) {e : ActionRegistryEntry}
    → get a (index_entries es index) ≡ some e
    → (Memᴰ e es × Memᴰ a e.aliases) ⊎ (get a index ≡ some e)
unfolding index_entries
index_entries_sound a [] index h = inr h
index_entries_sound a (entry ∷ rest) index h =
    elim (index_entries_sound a rest (index_aliases entry entry.aliases index) h) [
      | inl (m, q) ↦ inl (Memᴰ.tail m, q)
      | inr found ↦ elim (index_aliases_sound a entry entry.aliases index found) [
        | inl (same, m) ↦ inl (Memᴰ.head same, rw same m)
        | inr older ↦ inr older
      ]
    ]

-- A key that is there stays there.
abbrev Known : String → Index → Type 0
Known a index = (e : ActionRegistryEntry) × (get a index ≡ some e)

put-Known :
    (a alias : String) (entry : ActionRegistryEntry) (index : Index)
    → Known a index
    → Known a (put alias entry index)
put-Known a alias entry index (e, h) = elim (Bool-cases (alias == a)) [
  | inl here ↦ (entry, get-put alias a entry index ∙ ground arith)
  | inr elsewhere ↦ (e, get-put alias a entry index ∙ ground arith)
]

index_aliases-Known :
    (a : String) (entry : ActionRegistryEntry) (aliases : List String) (index : Index)
    → Known a index ⊎ Memᴰ a aliases
    → Known a (index_aliases entry aliases index)
unfolding index_aliases
index_aliases-Known a entry [] index (inl h) = h
index_aliases-Known a entry [] index (inr m) = elim m [ ]
index_aliases-Known a entry (alias ∷ rest) index (inl h) =
    index_aliases-Known a entry rest (put alias entry index) (inl (put-Known a alias entry index h))
index_aliases-Known a entry (alias ∷ rest) index (inr (Memᴰ.tail m)) =
    index_aliases-Known a entry rest (put alias entry index) (inr m)
index_aliases-Known a entry (alias ∷ rest) index (inr (Memᴰ.head e)) =
    let here : (alias == a) ≡ true = (eq_iff alias a).1 (sym e) in
    index_aliases-Known a entry rest (put alias entry index)
      (inl (entry, get-put alias a entry index ∙ ground arith))

index_entries-Known :
    (a : String) (es : List ActionRegistryEntry) (index : Index)
    → Known a index ⊎ ((e : ActionRegistryEntry) × Memᴰ e es × Memᴰ a e.aliases)
    → Known a (index_entries es index)
unfolding index_entries
index_entries-Known a [] index (inl h) = h
index_entries-Known a [] index (inr (e, m, q)) = elim m [ ]
index_entries-Known a (entry ∷ rest) index (inl h) =
    index_entries-Known a rest (index_aliases entry entry.aliases index)
      (inl (index_aliases-Known a entry entry.aliases index (inl h)))
index_entries-Known a (entry ∷ rest) index (inr (e, Memᴰ.tail m, q)) =
    index_entries-Known a rest (index_aliases entry entry.aliases index) (inr (e, m, q))
index_entries-Known a (entry ∷ rest) index (inr (e, Memᴰ.head same, q)) =
    index_entries-Known a rest (index_aliases entry entry.aliases index)
      (inl (index_aliases-Known a entry entry.aliases index (inr (rw same at q))))

-- No entry of the registry has the name among its aliases.
abbrev pub NoAlias : String → Type 0
NoAlias a = (e : ActionRegistryEntry) → Memᴰ e registry → ¬ Memᴰ a e.aliases

-- A name that differs from every alias.
abbrev pub is_no_alias : String → Bool
is_no_alias a = all (λ e. all (λ alias. not (alias == a)) e.aliases) registry

pub is_no_alias-NoAlias : (a : String) → is_no_alias a ≡ true → NoAlias a
is_no_alias-NoAlias a h e m q =
    let in_entry = all-mem (λ x. all (λ alias. not (alias == a)) x.aliases) registry h e m in
    let differs = all-mem (λ alias. not (alias == a)) e.aliases in_entry a q in
    ground (arith, eq_iff a a)

alias_index-entries : alias_index ≡ index_entries registry []
unfolding alias_index
alias_index-entries = refl

pub alias_index_sound :
    (a : String) {e : ActionRegistryEntry}
    → get a alias_index ≡ some e
    → Memᴰ e registry × Memᴰ a e.aliases
unfolding get
alias_index_sound a h = elim (index_entries_sound a registry [] (rw alias_index-entries at h)) [
  | inl found ↦ found
  | inr bad ↦ cc
]

pub alias_index-NoAlias : (a : String) → get a alias_index ≡ none → NoAlias a
alias_index-NoAlias a h e m q =
    let (x, w) = index_entries-Known a registry [] (inr (e, m, q)) in
    let bad : none ≡ some x = sym (rw alias_index-entries at h) ∙ w in cc

-- The look-up of a tool name gives an entry of the registry with the name, in lower case, among its
-- aliases; where no entry has it, it gives the entry of unknown sensitive actions.
pub get_registry_entry_lem :
    (lower : String → String) (tool_name : String)
    → (Memᴰ (get_registry_entry lower tool_name) registry
        × Memᴰ (lower tool_name) (get_registry_entry lower tool_name).aliases)
      ⊎ (NoAlias (lower tool_name) × (get_registry_entry lower tool_name ≡ unknown_entry))
unfolding get_registry_entry
get_registry_entry_lem lower tool_name = elim (Option-cases (get (lower tool_name) alias_index)) [
  | inr (e, p) ↦ rw (p, get_registry_entry) (inl (alias_index_sound (lower tool_name) p))
  | inl p ↦ rw (p, get_registry_entry) (inr (alias_index-NoAlias (lower tool_name) p, refl))
]
