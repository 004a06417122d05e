-- ===== src/Retry/Attempts.antt =====
-- `retry_async` ends, and how.
use you_mi_agent.Prelude.{
  ℕ, zero, suc, ◌+◌, ◌≤◌, ◌≡◌, ◌⊎◌, inl, inr, refl, true, false, Option, none, some, [], ◌∷◌, arith,
  ltb, length, ap, ◌∙◌, ◌&&◌, Bool, Bool-cases,
}
use you_mi_agent.Retry.{
  Exc, Attempt, returned, raised, Ended, Retry, retryable, delay_after, loop, round, slept_first,
  retry_async,
}

module _ {ℓ} {A : Type ℓ} (r : Retry A) where
  -- The attempt failed in a way that is tried again.
  abbrev pub fails_retryably : Attempt A → Bool
  fails_retryably (returned a) = false
  fails_retryably (raised exc) = retryable r exc

  -- The next `n` attempts after `made` all fail so.
  abbrev pub all_fail : ℕ → ℕ → Bool
  all_fail zero made = true
  all_fail (suc n) made = fails_retryably (r.fn (made + 1)) && all_fail n (made + 1)

  -- An attempt that ends the loop: it returned, or its exception is not retried, or it was the last.
  abbrev pub StopsAt : ℕ → Attempt A → Type 0
  StopsAt n (returned a) = Unit
  StopsAt n (raised exc) = (retryable r exc ≡ false) ⊎ (n ≡ r.policy.max_retries + 1)

  pub record EndsAfter (made : ℕ) (e : Ended A) : Type ℓ where
    pub retried : ℕ
    pub counted : e.calls ≡ made + retried + 1
    pub earlier : all_fail retried made ≡ true
    pub bounded : e.calls ≤ r.policy.max_retries + 1
    pub result : r.fn e.calls ≡ e.outcome
    pub stops : StopsAt e.calls e.outcome
    pub waits : length e.slept ≤ retried

  -- A later end, seen from one attempt before, with or without a sleep in between.
  EndsAfter-earlier :
      (made d : ℕ) (e : Ended A)
      → fails_retryably (r.fn (made + 1)) ≡ true
      → EndsAfter (made + 1) e
      → (e' : Ended A) × (slept_first d (some e) ≡ some e') × EndsAfter made e'
  unfolding slept_first
  EndsAfter-earlier made d e failed h = elim (Bool-cases (ltb 0 d)) [
    | inl slept ↦ (
      record e { slept = d ∷ e.slept },
      rw slept,
      record {
        retried = suc h.retried;
        counted = omega (arith, h.counted);
        earlier = rw failed h.earlier;
        bounded = h.bounded;
        result = h.result;
        stops = h.stops;
        waits = omega (arith, h.waits);
      },
    )
    | inr straight ↦ (
      e,
      rw straight,
      record {
        retried = suc h.retried;
        counted = omega (arith, h.counted);
        earlier = rw failed h.earlier;
        bounded = h.bounded;
        result = h.result;
        stops = h.stops;
        waits = omega (arith, h.waits);
      },
    )
  ]

  ends_now :
      (made : ℕ) (o : Attempt A)
      → made ≤ r.policy.max_retries
      → r.fn (made + 1) ≡ o
      → StopsAt (made + 1) o
      → EndsAfter made (record { outcome = o; calls = made + 1; slept = [] })
  ends_now made o h p stop = record {
    retried = 0;
    counted = omega arith;
    earlier = refl;
    bounded = omega arith;
    result = p;
    stops = stop;
    waits = omega arith;
  }

  module _ (quiet : (n d : ℕ) (exc : Exc) → r.on_retry n exc d ≡ none) where
    round_ends :
        (o : Attempt A) (made : ℕ) (rest : Option (Ended A))
        → made ≤ r.policy.max_retries
        → r.fn (made + 1) ≡ o
        → (made + 1 ≤ r.policy.max_retries
            → (e : Ended A) × (rest ≡ some e) × EndsAfter (made + 1) e)
        → (e : Ended A) × (round r o (made + 1) rest ≡ some e) × EndsAfter made e
    unfolding round
    round_ends (returned a) made rest h p later = (
      record { outcome = returned a; calls = made + 1; slept = [] },
      refl,
      ends_now made (returned a) h p tt,
    )
    round_ends (raised exc) made rest h p later = elim (Bool-cases (retryable r exc)) [
      | inr final ↦ (
        record { outcome = raised exc; calls = made + 1; slept = [] },
        rw final,
        ends_now made (raised exc) h p (inl final),
      )
      | inl again ↦ elim (Bool-cases (ltb r.policy.max_retries (made + 1))) [
        | inl last ↦ (
          record { outcome = raised exc; calls = made + 1; slept = [] },
          rw (again, last),
          ends_now made (raised exc) h p (inr (ground arith)),
        )
        | inr left ↦
            let (e, q, ended) = later (ground arith) in
            let (e', q', ended') =
              EndsAfter-earlier made (delay_after r (made + 1)) e (ap fails_retryably p ∙ again)
                ended in
            (e', rw (again, left, quiet, q) q', ended')
      ]
    ]

    loop_ends :
        (fuel made : ℕ)
        → made + fuel ≡ r.policy.max_retries + 1
        → made ≤ r.policy.max_retries
        → (e : Ended A) × (loop r fuel made ≡ some e) × EndsAfter made e
    unfolding loop
    loop_ends zero made f h = absurd (omega arith)
    loop_ends (suc fuel) made f h =
        round_ends (r.fn (made + 1)) made (loop r fuel (made + 1)) h refl
          (λ more. loop_ends fuel (made + 1) (omega arith) more)

    -- If the callback does not raise, `retry_async` ends within `max_retries + 1` attempts. Its result
    -- is that of its last attempt; every attempt before failed with an exception that is retried;
    -- and the last one returned, or its exception is not retried, or all attempts were used. It
    -- sleeps at most once between two attempts.
    pub retry_async_ends : (e : Ended A) × (retry_async r ≡ some e) × EndsAfter 0 e
    unfolding retry_async
    retry_async_ends = loop_ends (r.policy.max_retries + 1) 0 (omega arith) (omega arith)
