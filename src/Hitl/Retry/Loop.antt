-- ===== src/Hitl/Retry/Loop.antt =====
-- The loop of `withRetry` of src/hitl/retry.ts: its end, and a network that always answers 429.
use clawthority.Base.{
  ℕ, zero, suc, ◌+◌, ◌<◌, ◌≡◌, ◌≢◌, refl, true, Option, none, some, leb, arith, Bool-cases, inl,
  inr,
}
use clawthority.Base.Results.{Result, ok, threw}
use clawthority.Hitl.Retry.{
  CircuitBreaker, opened, is_open, trip, Shared, Attempts, after_attempt, retry_loop, with_retry,
}

module _ {W Response T : Type 0} (a : Attempts W Response T) where
  after_attempt-returns :
      (attempt : ℕ) (r : Result Response) (s : Shared W) (rest : Option (Result T × Shared W))
      → (attempt < a.max_retries → rest ≢ none)
      → after_attempt a attempt r s rest ≢ none
  unfolding after_attempt
  after_attempt-returns attempt threw s rest h = λ e. cc
  after_attempt-returns attempt (ok res) s rest h = λ e. ground (arith, h)

  retry_loop-returns :
      (fuel attempt : ℕ) (s : Shared W)
      → a.max_retries < fuel + attempt
      → 0 < fuel
      → retry_loop a fuel attempt s ≢ none
  unfolding retry_loop
  retry_loop-returns zero attempt s h k = absurd (omega (arith, k))
  retry_loop-returns (suc fuel) attempt s h k =
      let s' = (a.fn s).1 in
      after_attempt-returns attempt (a.fn s).0 s'
        (retry_loop a fuel (attempt + 1) (a.sleep attempt s'))
        (λ more.
          retry_loop-returns fuel (attempt + 1) (a.sleep attempt s') (omega (arith, h))
            (omega (arith, h, more)))

  -- Whatever the network answers, `withRetry` ends after at most `maxRetries + 1` calls of `fn`.
  pub with_retry-returns : (s : Shared W) → with_retry a s ≢ none
  unfolding with_retry
  with_retry-returns s = elim (Bool-cases (is_open (a.clock s.outside) s.breaker).0) [
    | inl blocked ↦ rw (blocked, with_retry) (λ e. cc)
    | inr free ↦
        rw (free, with_retry)
          (retry_loop-returns (suc a.max_retries) 0 _ (omega arith) (omega arith))
  ]

  -- Every response is a 429.
  abbrev pub Refuses : Type 0
  Refuses = (s : Shared W) → (res : Response) × ((a.fn s).0 ≡ ok res) × (a.status res ≡ 429)

  -- The fallback was returned and the breaker is open.
  abbrev pub FallsBack : Option (Result T × Shared W) → Type 0
  FallsBack o = (s : Shared W) × (o ≡ some (ok a.on_fallback, s)) × (s.breaker.state ≡ opened)

  trip-opened : (t : ℕ) (b : CircuitBreaker) → (trip t b).state ≡ opened
  unfolding trip
  trip-opened t b = ground arith

  after_attempt-FallsBack :
      (attempt : ℕ) (r : Result Response) (res : Response) (s : Shared W)
      (rest : Option (Result T × Shared W))
      → r ≡ ok res
      → a.status res ≡ 429
      → (attempt < a.max_retries → FallsBack rest)
      → FallsBack (after_attempt a attempt r s rest)
  unfolding after_attempt
  after_attempt-FallsBack attempt r res s rest p q h =
      elim (Bool-cases (leb a.max_retries attempt)) [
        | inl last ↦
            rw (p, q, last, after_attempt)
              (
                record s { breaker = trip (a.clock s.outside) s.breaker },
                refl,
                trip-opened (a.clock s.outside) s.breaker,
              )
        | inr more ↦ rw (p, q, more, after_attempt) (h (ground arith))
      ]

  retry_loop-FallsBack :
      Refuses
      → (fuel attempt : ℕ) (s : Shared W) → a.max_retries < fuel + attempt
      → 0 < fuel
      → FallsBack (retry_loop a fuel attempt s)
  unfolding retry_loop
  retry_loop-FallsBack refuses zero attempt s h k = absurd (omega (arith, k))
  retry_loop-FallsBack refuses (suc fuel) attempt s h k =
      let (res, p, q) = refuses s in
      let s' = (a.fn s).1 in
      after_attempt-FallsBack attempt (a.fn s).0 res s'
        (retry_loop a fuel (attempt + 1) (a.sleep attempt s')) p q
        (λ more.
          retry_loop-FallsBack refuses fuel (attempt + 1) (a.sleep attempt s') (omega (arith, h))
            (omega (arith, h, more)))

  blocked_opened :
      (now : ℕ) (b : CircuitBreaker) → (is_open now b).0 ≡ true → (is_open now b).1.state ≡ opened
  unfolding is_open
  blocked_opened now b h = ground arith

  -- Where every response is a 429, `withRetry` returns the fallback and leaves the breaker open,
  -- whatever other calls do to the breaker meanwhile.
  pub with_retry-FallsBack : Refuses → (s : Shared W) → FallsBack (with_retry a s)
  unfolding with_retry
  with_retry-FallsBack refuses s = elim (Bool-cases (is_open (a.clock s.outside) s.breaker).0) [
    | inl blocked ↦
        rw (blocked, with_retry) (_, refl, blocked_opened (a.clock s.outside) s.breaker blocked)
    | inr free ↦
        rw (free, with_retry)
          (retry_loop-FallsBack refuses (suc a.max_retries) 0 _ (omega arith) (omega arith))
  ]
