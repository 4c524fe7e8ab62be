-- ===== src/Hitl/Retry/Breaker.antt =====
-- How long the circuit breaker of src/hitl/retry.ts blocks.
use mathlib.Core.Path.{subst}
use clawthority.Base.{ℕ, ◌+◌, ◌<◌, ◌≡◌, ◌↔◌, refl, sym, true, false, some, List, [], ◌∷◌, arith}
use clawthority.Hitl.Retry.{CircuitBreaker, closed, opened, is_open, trip}

abbrev pub trips : List ℕ → CircuitBreaker → CircuitBreaker
trips [] b = b
trips (t ∷ ts) b = trips ts (trip t b)

trip_opened : (t : ℕ) (b : CircuitBreaker) → b.state ≡ opened → trip t b ≡ b
unfolding trip
trip_opened t b h = ground arith

trips-opened : (ts : List ℕ) (b : CircuitBreaker) → b.state ≡ opened → trips ts b ≡ b
trips-opened [] b h = refl
trips-opened (t ∷ ts) b h =
    subst (λ x. trips ts x ≡ b) (sym (trip_opened t b h)) (trips-opened ts b h)

-- A breaker that is closed and trips at a time blocks until its cooldown has passed since then, and
-- no longer, however often it trips again meanwhile; the check that finds the cooldown over closes
-- it.
pub trip-is_open :
    (t : ℕ) (later : List ℕ) (now : ℕ) (b : CircuitBreaker)
    → b.state ≡ closed
    → let tripped = trips later (trip t b) in
      (((is_open now tripped).0 ≡ true) ↔ (now < t + b.cooldown_ms))
      × (((is_open now tripped).0 ≡ false) → (is_open now tripped).1.state ≡ closed)
unfolding trip is_open
trip-is_open t later now b h =
    let latched : CircuitBreaker = record b { state = opened; opened_at = some t } in
    let same : trips later (trip t b) ≡ latched = rw (h, trip) (trips-opened later latched refl) in
    rw same (((λ e. ground arith), (λ e. ground arith)), (λ e. ground arith))
