-- ===== src/Base/Lists.antt =====
-- Lists measured by native numbers, and predicates on lists by recursion.
use Prim.Native.Nat.{ℕ, suc, ◌+◌}
use mathlib.Core.Path.{◌≡◌, refl}
use mathlib.Core.Bool.{Bool, true, false, ◌&&◌, ◌||◌}
use mathlib.Core.List.{List, [], ◌∷◌, ◌++◌, Memᴰ}
use native.Mathlib.Omega.{arith}

module _ {ℓ} {A : Type ℓ} where
  abbrev pub length : List A → ℕ
  length [] = 0
  length (x ∷ xs) = suc (length xs)

  abbrev pub any : (A → Bool) → List A → Bool
  any p [] = false
  any p (x ∷ xs) = p x || any p xs

  abbrev pub all : (A → Bool) → List A → Bool
  all p [] = true
  all p (x ∷ xs) = p x && all p xs

  pub all-mem : (p : A → Bool) (xs : List A) → all p xs ≡ true → (a : A) → Memᴰ a xs → p a ≡ true
  all-mem p [] h a m = elim m [ ]
  all-mem p (x ∷ xs) h a (Memᴰ.head e) = rw e (ground arith)
  all-mem p (x ∷ xs) h a (Memᴰ.tail m) = all-mem p xs (ground arith) a m

  pub length-append : (xs ys : List A) → length (xs ++ ys) ≡ length xs + length ys
  length-append [] ys = omega arith
  length-append (x ∷ xs) ys = omega (arith, length-append xs ys)

module _ {ℓ κ} {A : Type ℓ} (P : A → Type κ) where
  abbrev pub All : List A → Type κ
  All [] = Unit
  All (x ∷ xs) = P x × All xs

  pub All-mem : (xs : List A) → All xs → (a : A) → Memᴰ a xs → P a
  All-mem [] h a m = elim m [ ]
  All-mem (x ∷ xs) h a (Memᴰ.head e) = rw e h.0
  All-mem (x ∷ xs) h a (Memᴰ.tail m) = All-mem xs h.1 a m

  pub All-append : (xs ys : List A) → All xs → All ys → All (xs ++ ys)
  All-append [] ys hx hy = hy
  All-append (x ∷ xs) ys hx hy = (hx.0, All-append xs ys hx.1 hy)

  pub All-intro : (xs : List A) → ((a : A) → Memᴰ a xs → P a) → All xs
  All-intro [] f = tt
  All-intro (x ∷ xs) f = (f x (Memᴰ.head refl), All-intro xs (λ a m. f a (Memᴰ.tail m)))
