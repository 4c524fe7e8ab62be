-- ===== src/Base/Maps.antt =====
-- JavaScript's `Map` as an association list in insertion order: `set` on a key that is there keeps
-- its place, and a new key goes to the end.
use mathlib.Core.Path.{◌≡◌, refl}
use mathlib.Core.Logic.{◌↔◌, ◌⊎◌, inl, inr}
use mathlib.Core.Bool.{Bool, true, false}
use mathlib.Core.Option.{Option, none, some}
use mathlib.Core.List.{List, [], ◌∷◌}
use native.Mathlib.Omega.{arith}
use text.Mathlib.Text.{◌==◌}
use text.Mathlib.TextEquality.{eq_iff}
use Prim.Native.Nat.{ℕ}
use Prim.Native.String.{String}
use clawthority.Base.Tests.{nat_eq, if◌then◌else◌, Bool-cases, eq_of_some}
use clawthority.Base.Lists.{All}

-- How the keys of a map are compared.
pub record Key {ℓ} (K : Type ℓ) : Type ℓ where
  pub same : K → K → Bool
  pub same_iff : (a b : K) → (same a b ≡ true) ↔ (a ≡ b)

pub nat_eq_iff : (a b : ℕ) → (nat_eq a b ≡ true) ↔ (a ≡ b)
nat_eq_iff a b = ground arith

instance abbrev pub nat_key : Key ℕ
nat_key = record { same = nat_eq; same_iff = nat_eq_iff }

instance abbrev pub string_key : Key String
string_key = record { same = ◌==◌; same_iff = eq_iff }

module _ {ℓ κ} {K : Type ℓ} {V : Type κ} ⦃key : Key K⦄ where
  -- `m.get(k)`
  unfoldable pub get : K → List (K × V) → Option V
  get k [] = none
  get k ((j, v) ∷ m) = if key.same j k then some v else get k m

  -- `m.set(k, v)`
  unfoldable pub put : K → V → List (K × V) → List (K × V)
  put k v [] = (k, v) ∷ []
  put k v ((j, w) ∷ m) = if key.same j k then (j, v) ∷ m else (j, w) ∷ put k v m

  -- `m.delete(k)`
  unfoldable pub remove : K → List (K × V) → List (K × V)
  remove k [] = []
  remove k ((j, v) ∷ m) = let rest = remove k m in if key.same j k then rest else (j, v) ∷ rest

  pub get-put :
      (k j : K) (v : V) (m : List (K × V))
      → get j (put k v m) ≡ (if key.same k j then some v else get j m)
  unfolding get put
  get-put k j v [] = refl
  get-put k j v ((i, w) ∷ m) =
      ground (arith, key.same_iff k j, key.same_iff i k, key.same_iff i j, get-put k j v m)

  pub get-remove :
      (k j : K) (m : List (K × V)) → get j (remove k m) ≡ (if key.same k j then none else get j m)
  unfolding get remove
  get-remove k j [] = ground arith
  get-remove k j ((i, w) ∷ m) =
      ground (arith, key.same_iff k j, key.same_iff i k, key.same_iff i j, get-remove k j m)

-- Predicates on all the entries of a map.
module _ {ℓ κ} {K : Type ℓ} {V : Type ℓ} ⦃key : Key K⦄ (P : K × V → Type κ) where
  pub All-put :
      (k : K) (v : V) (m : List (K × V)) → ((j : K) → P (j, v)) → All P m → All P (put k v m)
  unfolding put
  All-put k v [] p a = (p k, tt)
  All-put k v ((j, w) ∷ m) p a = elim (Bool-cases (key.same j k)) [
    | inl t ↦ rw t (p j, a.1)
    | inr f ↦ rw f (a.0, All-put k v m p a.1)
  ]

  pub All-remove : (k : K) (m : List (K × V)) → All P m → All P (remove k m)
  unfolding remove
  All-remove k [] a = tt
  All-remove k ((j, w) ∷ m) a = elim (Bool-cases (key.same j k)) [
    | inl t ↦ rw t (All-remove k m a.1)
    | inr f ↦ rw f (a.0, All-remove k m a.1)
  ]

module _ {ℓ κ} {K : Type ℓ} {V : Type κ} ⦃key : Key K⦄ where
  -- No key occurs twice.
  abbrev pub Distinct : List (K × V) → Type κ
  Distinct [] = Unit
  Distinct ((k, v) ∷ m) = (get k m ≡ none) × Distinct m

  pub Distinct-put : (k : K) (v : V) (m : List (K × V)) → Distinct m → Distinct (put k v m)
  unfolding get put
  Distinct-put k v [] d = (refl, tt)
  Distinct-put k v ((j, w) ∷ m) (gone, d) = elim (Bool-cases (key.same j k)) [
    | inl same ↦ rw (same, put) (gone, d)
    | inr other ↦
        rw (other, put)
          (
            ground (arith, get-put k j v m, key.same_iff k j, key.same_iff j k),
            Distinct-put k v m d,
          )
  ]

module _ {ℓ κ} {K : Type ℓ} {V : Type κ} ⦃key : Key K⦄ where
  -- What is found after `delete`, and after `set`.
  pub remove_inv :
      (k j : K) (v : V) (m : List (K × V))
      → get j (remove k m) ≡ some v
      → (key.same k j ≡ false) × (get j m ≡ some v)
  remove_inv k j v m h = elim (Bool-cases (key.same k j)) [
    | inl same ↦ let gone : none ≡ some v = rw (get-remove k j m, same) at h in cc
    | inr other ↦ (other, rw (get-remove k j m, other) at h)
  ]

  pub put_inv :
      (k j : K) (v w : V) (m : List (K × V))
      → get j (put k v m) ≡ some w
      → ((key.same k j ≡ true) × (v ≡ w)) ⊎ ((key.same k j ≡ false) × (get j m ≡ some w))
  put_inv k j v w m h = elim (Bool-cases (key.same k j)) [
    | inl same ↦ inl (same, eq_of_some (rw (get-put k j v m, same) at h))
    | inr other ↦ inr (other, rw (get-put k j v m, other) at h)
  ]

  pub get-remove_other :
      (k j : K) (m : List (K × V)) → key.same k j ≡ false → get j (remove k m) ≡ get j m
  get-remove_other k j m other = rw (get-remove k j m, other) refl

  pub get-put_other :
      (k j : K) (v : V) (m : List (K × V)) → key.same k j ≡ false → get j (put k v m) ≡ get j m
  get-put_other k j v m other = rw (get-put k j v m, other) refl

  pub get-put_self : (k : K) (v : V) (m : List (K × V)) → get k (put k v m) ≡ some v
  get-put_self k v m = rw (get-put k k v m, (key.same_iff k k).1 refl) refl

  pub get-remove_self : (k : K) (m : List (K × V)) → get k (remove k m) ≡ none
  get-remove_self k m = rw (get-remove k k m, (key.same_iff k k).1 refl) refl
