-- ===== src/Examples/Adapters.antt =====
-- The retry loop and the circuit breaker on a network that always answers 429.
use clawthority.Base.{ℕ, ◌+◌, ◌≢◌, refl, Bool, true, false, none}
use clawthority.Base.Results.{ok}
use clawthority.Hitl.Retry.{new_breaker, Shared, Attempts, with_retry}
use clawthority.Hitl.Retry.Loop.{with_retry-returns, Refuses, FallsBack, with_retry-FallsBack}

-- The state outside is the clock; a call takes 10 milliseconds.
abbrev busy : Attempts ℕ ℕ Bool
busy = record {
  fn = λ s. (ok 429, record s { outside = s.outside + 10 });
  status = λ res. res;
  parse = λ res s. (ok true, s);
  on_fallback = false;
  sleep = λ attempt s. record s { outside = s.outside + 500 };
  clock = λ now. now;
  max_retries = 4;
}

abbrev start : Shared ℕ
start = record { breaker = new_breaker 60000; outside = 0 }

with_retry-returns_example : with_retry busy start ≢ none
with_retry-returns_example = with_retry-returns busy start

busy-Refuses : Refuses busy
busy-Refuses s = (429, refl, refl)

with_retry-FallsBack_example : FallsBack busy (with_retry busy start)
with_retry-FallsBack_example = with_retry-FallsBack busy busy-Refuses start
