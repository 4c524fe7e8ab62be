-- ===== src/Base/Sets.antt =====
-- JavaScript's `Set<string>` as a list in insertion order.
use clawthority.Base.Tests.{if◌then◌else◌, Bool-cases}
use Prim.Native.String.{String}
use mathlib.Core.Path.{◌≡◌}
use mathlib.Core.Logic.{inl, inr}
use mathlib.Core.Bool.{Bool, false, ◌||◌}
use mathlib.Core.List.{List, [], ◌∷◌, ◌++◌}
use native.Mathlib.Omega.{arith}
use text.Mathlib.Text.{◌==◌}
use text.Mathlib.TextEquality.{eq_iff}

-- `s.has(x)`
unfoldable pub has : String → List String → Bool
has x [] = false
has x (y ∷ ys) = y == x || has x ys

-- `s.add(x)`
unfoldable pub add : String → List String → List String
unfolding has
add x ys = if has x ys then ys else ys ++ x ∷ []

pub has-concat : (x y : String) (ys : List String) → has x (ys ++ y ∷ []) ≡ (y == x || has x ys)
unfolding has
has-concat x y [] = ground arith
has-concat x y (z ∷ ys) = ground (arith, has-concat x y ys)

pub has-add : (x y : String) (ys : List String) → has x (add y ys) ≡ (y == x || has x ys)
unfolding add
has-add x y ys = elim (Bool-cases (has y ys)) [
  | inl old ↦ rw old (ground (arith, eq_iff y x))
  | inr new ↦ rw new (has-concat x y ys)
]
