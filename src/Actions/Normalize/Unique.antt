-- ===== src/Actions/Normalize/Unique.antt =====
-- The aliases of the registry (packages/action-registry/src/index.ts) against the index that
-- src/enforcement/normalize.ts fills with them.
use clawthority.Base.{
  String, ◌≡◌, refl, sym, ◌∙◌, Bool, true, ◌&&◌, not, List, [], ◌∷◌, ◌++◌, Memᴰ, all, all-mem, ◌==◌,
  eq_iff, arith, inl, inr,
}
use clawthority.Actions.Types.{ActionRegistryEntry}
use clawthority.Actions.Registry.{registry}
use clawthority.Actions.Normalize.{get_registry_entry}
use clawthority.Actions.Normalize.Lookup.{get_registry_entry_lem}

-- No text of the list occurs twice.
abbrev is_distinct : List String → Bool
is_distinct [] = true
is_distinct (x ∷ xs) = all (λ y. not (x == y)) xs && is_distinct xs

abbrev all_aliases : List ActionRegistryEntry → List String
all_aliases [] = []
all_aliases (e ∷ es) = e.aliases ++ all_aliases es

registry_distinct : is_distinct (all_aliases registry) ≡ true
unfolding registry
registry_distinct = refl

mem_left : (a : String) (xs ys : List String) → Memᴰ a xs → Memᴰ a (xs ++ ys)
mem_left a [] ys m = elim m [ ]
mem_left a (x ∷ xs) ys (Memᴰ.head e) = Memᴰ.head e
mem_left a (x ∷ xs) ys (Memᴰ.tail m) = Memᴰ.tail (mem_left a xs ys m)

mem_right : (a : String) (xs ys : List String) → Memᴰ a ys → Memᴰ a (xs ++ ys)
mem_right a [] ys m = m
mem_right a (x ∷ xs) ys m = Memᴰ.tail (mem_right a xs ys m)

mem_all_aliases :
    (a : String) (e : ActionRegistryEntry) (es : List ActionRegistryEntry)
    → Memᴰ e es
    → Memᴰ a e.aliases
    → Memᴰ a (all_aliases es)
mem_all_aliases a e [] m q = elim m [ ]
mem_all_aliases a e (x ∷ es) (Memᴰ.head same) q =
    mem_left a x.aliases (all_aliases es) (rw same at q)
mem_all_aliases a e (x ∷ es) (Memᴰ.tail m) q =
    mem_right a x.aliases (all_aliases es) (mem_all_aliases a e es m q)

distinct_later : (xs ys : List String) → is_distinct (xs ++ ys) ≡ true → is_distinct ys ≡ true
distinct_later [] ys h = h
distinct_later (x ∷ xs) ys h = distinct_later xs ys (ground arith)

distinct_apart :
    (a : String) (xs ys : List String) → is_distinct (xs ++ ys) ≡ true → Memᴰ a xs → Memᴰ a ys → ⊥
distinct_apart a [] ys h m q = elim m [ ]
distinct_apart a (x ∷ xs) ys h (Memᴰ.head e) q =
    let differs = all-mem (λ y. not (x == y)) (xs ++ ys) (ground arith) a (mem_right a xs ys q) in
    ground (arith, eq_iff x a)
distinct_apart a (x ∷ xs) ys h (Memᴰ.tail m) q = distinct_apart a xs ys (ground arith) m q

one_entry :
    (a : String) (es : List ActionRegistryEntry) (e f : ActionRegistryEntry)
    → is_distinct (all_aliases es) ≡ true
    → Memᴰ e es
    → Memᴰ a e.aliases
    → Memᴰ f es
    → Memᴰ a f.aliases
    → e ≡ f
one_entry a [] e f h m q n r = elim m [ ]
one_entry a (x ∷ es) e f h (Memᴰ.head i) q (Memᴰ.head j) r = i ∙ sym j
one_entry a (x ∷ es) e f h (Memᴰ.head i) q (Memᴰ.tail n) r =
    absurd (distinct_apart a x.aliases (all_aliases es) h (rw i at q) (mem_all_aliases a f es n r))
one_entry a (x ∷ es) e f h (Memᴰ.tail m) q (Memᴰ.head j) r =
    absurd (distinct_apart a x.aliases (all_aliases es) h (rw j at r) (mem_all_aliases a e es m q))
one_entry a (x ∷ es) e f h (Memᴰ.tail m) q (Memᴰ.tail n) r =
    one_entry a es e f (distinct_later x.aliases (all_aliases es) h) m q n r

-- Every alias of every entry of the registry leads to that entry: a tool whose name, in lower case, is
-- among the aliases of an entry is looked up as that entry.
pub get_registry_entry-alias :
    (lower : String → String) (tool_name : String) (e : ActionRegistryEntry)
    → Memᴰ e registry
    → Memᴰ (lower tool_name) e.aliases
    → get_registry_entry lower tool_name ≡ e
get_registry_entry-alias lower tool_name e m q = elim (get_registry_entry_lem lower tool_name) [
  | inl (n, r) ↦
      one_entry (lower tool_name) registry (get_registry_entry lower tool_name) e registry_distinct
        n r m q
  | inr (clear, _) ↦ absurd (clear e m q)
]
