-- ===== src/Hitl/Retry.antt =====
-- src/hitl/retry.ts: the circuit breaker and the retry loop of the adapters. The call of the network,
-- the parser and the sleep are parameters over a state that holds the breaker, which other calls may
-- change meanwhile; the delay is only slept, so the backoff and its jitter are left to `sleep`.
pub mod Breaker
pub mod Loop
use clawthority.Base.{
  ℕ, zero, suc, ◌+◌, Bool, true, false, Option, none, some, List, [], ◌∷◌, leb, nat_eq,
  if◌then◌else◌,
}
use clawthority.Base.Results.{Result, ok, threw}

pub data CircuitState : Type 0 where
  closed opened : CircuitState

pub record CircuitBreaker : Type 0 where
  pub state : CircuitState
  pub opened_at : Option ℕ
  pub cooldown_ms : ℕ

unfoldable pub new_breaker : ℕ → CircuitBreaker
new_breaker cooldown_ms = record { state = closed; opened_at = none; cooldown_ms = cooldown_ms }

-- `openedAt !== null && Date.now() - openedAt >= cooldownMs`. The difference may be negative in the
-- source; the sum says the same on natural numbers.
abbrev pub cooled_down : ℕ → CircuitBreaker → Bool
cooled_down now b = elim b.opened_at [ none ↦ false | some t ↦ leb (t + b.cooldown_ms) now ]

unfoldable pub is_open : ℕ → CircuitBreaker → Bool × CircuitBreaker
is_open now b = elim b.state [
  | closed ↦ (false, b)
  | opened ↦
      if cooled_down now b
      then (false, record b { state = closed; opened_at = none })
      else (true, b)
]

unfoldable pub trip : ℕ → CircuitBreaker → CircuitBreaker
trip now b = elim b.state [
  | opened ↦ b
  | closed ↦ record b { state = opened; opened_at = some now }
]

-- What the call and its surroundings share.
pub record Shared (W : Type 0) : Type 0 where
  pub breaker : CircuitBreaker
  pub outside : W

-- One call of `withRetry`: the factory `fn`, the parser, the fallback, the sleep before the next
-- attempt and the clock, with `maxRetries`.
pub record Attempts (W Response T : Type 0) : Type 0 where
  pub fn : Shared W → Result Response × Shared W
  pub status : Response → ℕ
  pub parse : Response → Shared W → Result T × Shared W
  pub on_fallback : T
  pub sleep : ℕ → Shared W → Shared W
  pub clock : W → ℕ
  pub max_retries : ℕ

module _ {W Response T : Type 0} (a : Attempts W Response T) where
  abbrev pub give_up : Shared W → Result T × Shared W
  give_up s = (ok a.on_fallback, record s { breaker = trip (a.clock s.outside) s.breaker })

  -- What follows an attempt; `rest` is the loop from the next one.
  unfoldable pub after_attempt :
      ℕ → Result Response → Shared W → Option (Result T × Shared W) → Option (Result T × Shared W)
  unfolding trip
  after_attempt attempt threw s rest = some (threw, s)
  after_attempt attempt (ok res) s rest =
      if nat_eq (a.status res) 429
      then if leb a.max_retries attempt then some (give_up s) else rest
      else some (a.parse res s)

  -- The loop; each round of fuel is one call of `fn`.
  unfoldable pub retry_loop : ℕ → ℕ → Shared W → Option (Result T × Shared W)
  unfolding after_attempt
  retry_loop zero attempt s = none
  retry_loop (suc fuel) attempt s =
      let (r, s') = a.fn s in
      let rest = retry_loop fuel (attempt + 1) (a.sleep attempt s') in
      after_attempt attempt r s' rest

  -- `withRetry(fn, parse, onFallback, breaker, opts)`, with fuel for `maxRetries + 1` calls of `fn`.
  unfoldable pub with_retry : Shared W → Option (Result T × Shared W)
  unfolding is_open retry_loop
  with_retry s =
      let (blocked, b) = is_open (a.clock s.outside) s.breaker in
      let s' : Shared W = record s { breaker = b } in
      if blocked then some (ok a.on_fallback, s') else retry_loop (suc a.max_retries) 0 s'
