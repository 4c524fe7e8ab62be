-- ===== src/Base/Results.antt =====
-- A computation that may throw. The source never looks at the thrown value, only at whether one was
-- thrown (`catch { … }`), so none is kept.
use mathlib.Core.Path.{◌≡◌, refl}
use mathlib.Core.Logic.{◌⊎◌, inl, inr}

pub data Result {ℓ} (A : Type ℓ) : Type ℓ where
  ok : A → Result A
  threw : Result A

infixl 5 ◌>>=◌
abbrev pub ◌>>=◌ {ℓ κ} : {A : Type ℓ} {B : Type κ} → Result A → (A → Result B) → Result B
ok a >>= f = f a
threw >>= f = threw

-- The value of a `try { return m } catch { return d }`.
abbrev pub or_catch {ℓ} : {A : Type ℓ} → Result A → A → A
or_catch (ok a) d = a
or_catch threw d = d

pub ok_injective {ℓ} : {A : Type ℓ} {a b : A} → ok a ≡ ok b → a ≡ b
ok_injective h = cc

pub Result-cases {ℓ} : {A : Type ℓ} (m : Result A) → (m ≡ threw) ⊎ ((a : A) × (m ≡ ok a))
Result-cases (ok a) = inr (a, refl)
Result-cases threw = inl refl
