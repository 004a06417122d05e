-- ===== src/Plan/Step/Attempts.antt =====
-- How the attempts of a step end, how many there are, and how long the executor waits between them.
use you_mi_agent.Prelude.{
  ℕ, zero, suc, ◌+◌, ◌*◌, ◌^◌, ◌≤◌, String, Bool, true, false, ◌&&◌, not, ◌≡◌, ◌⊎◌, inl, inr, refl,
  List, [], ◌∷◌, ◌++◌, arith, Bool-cases, none, some,
}
use you_mi_agent.Plan.{running, completed, failed, no_error, StepStatus, WorkflowStep, StepResult}
use you_mi_agent.Plan.Step.{
  AttemptEnd, answered, timed_out, raised, Workers, Event, step_started, slept, attempted,
  step_finished, Progress, after_attempt, before_attempt, wait_before, exhausted, succeeded,
  effective_timeout, attempts, run_step, with_agent, status_of,
}

-- How many attempts a log shows.
abbrev pub attempts_in : List Event → ℕ
attempts_in [] = 0
attempts_in (attempted sid n ∷ l) = suc (attempts_in l)
attempts_in (step_started sid ∷ l) = attempts_in l
attempts_in (slept d ∷ l) = attempts_in l
attempts_in (step_finished sid st ∷ l) = attempts_in l

-- The sum of the waits in a log.
abbrev pub waited_in : List Event → ℕ
waited_in [] = 0
waited_in (slept d ∷ l) = d + waited_in l
waited_in (attempted sid n ∷ l) = waited_in l
waited_in (step_started sid ∷ l) = waited_in l
waited_in (step_finished sid st ∷ l) = waited_in l

-- None of the attempts before this number succeeds.
abbrev pub all_fail : Workers → String → ℕ → Bool
all_fail w sid zero = true
all_fail w sid (suc n) = all_fail w sid n && not (succeeded (w.attempt sid n))

attempts_in-append : (k l : List Event) → attempts_in (k ++ l) ≡ attempts_in k + attempts_in l
attempts_in-append [] l = omega arith
attempts_in-append (attempted sid n ∷ k) l = omega (arith, attempts_in-append k l)
attempts_in-append (step_started sid ∷ k) l = attempts_in-append k l
attempts_in-append (slept d ∷ k) l = attempts_in-append k l
attempts_in-append (step_finished sid st ∷ k) l = attempts_in-append k l

waited_in-append : (k l : List Event) → waited_in (k ++ l) ≡ waited_in k + waited_in l
waited_in-append [] l = omega arith
waited_in-append (slept d ∷ k) l = omega (arith, waited_in-append k l)
waited_in-append (attempted sid n ∷ k) l = waited_in-append k l
waited_in-append (step_started sid ∷ k) l = waited_in-append k l
waited_in-append (step_finished sid st ∷ k) l = waited_in-append k l

double : (b n : ℕ) → b * 2 ^ suc n ≡ b * 2 ^ n + b * 2 ^ n
double b n = grind arith

after_attempt-log :
    (limit : ℕ) (end : AttemptEnd) (p : Progress) → (after_attempt limit end p).log ≡ p.log
unfolding after_attempt with_agent
after_attempt-log limit (answered id t) p = refl
after_attempt-log limit (timed_out id) p = refl
after_attempt-log limit (raised none text) p = refl
after_attempt-log limit (raised (some id) text) p = refl

after_success :
    (limit : ℕ) (end : AttemptEnd) (p : Progress)
    → succeeded end ≡ true
    → (after_attempt limit end p).result.status ≡ completed
unfolding after_attempt with_agent status_of succeeded
after_success limit (answered id t) p h = ground arith
after_success limit (timed_out id) p h = ground arith
after_success limit (raised none text) p h = ground arith
after_success limit (raised (some id) text) p h = ground arith

module _ (default_timeout : ℕ) (w : Workers) (step : WorkflowStep) where
  -- The last attempt has number `k`.
  pub record EndsAt (k : ℕ) (status : StepStatus) (log : List Event) : Type 0 where
    pub bounded : k ≤ step.retry_count
    pub earlier : all_fail w step.step_id k ≡ true
    pub result :
        ((status ≡ completed) × (succeeded (w.attempt step.step_id k) ≡ true))
        ⊎ ((status ≡ failed)
            × (succeeded (w.attempt step.step_id k) ≡ false)
            × (k ≡ step.retry_count))
    pub counted : attempts_in log ≡ k + 1
    pub waited : waited_in log + step.retry_backoff ≡ step.retry_backoff * 2 ^ k

  before_attempt-attempts :
      (n : ℕ) (p : Progress)
      → attempts_in (before_attempt default_timeout w step n p).log ≡ attempts_in p.log + 1
  unfolding before_attempt wait_before
  before_attempt-attempts zero p = rw attempts_in-append refl
  before_attempt-attempts (suc n) p = rw attempts_in-append refl

  before_attempt-waits :
      (n : ℕ) (p : Progress)
      → waited_in (before_attempt default_timeout w step (suc n) p).log
        ≡ waited_in p.log + step.retry_backoff * 2 ^ n
  unfolding before_attempt wait_before
  before_attempt-waits n p = rw waited_in-append (omega arith)

  -- The state in which attempt `n` runs.
  abbrev ReadyFor : ℕ → Progress → Type 0
  ReadyFor n p =
      let log = (before_attempt default_timeout w step n p).log in
      (attempts_in log ≡ n + 1) × (waited_in log + step.retry_backoff ≡ step.retry_backoff * 2 ^ n)

  next-ReadyFor :
      (n limit : ℕ) (end : AttemptEnd) (p : Progress)
      → ReadyFor n p
      → ReadyFor (suc n) (after_attempt limit end (before_attempt default_timeout w step n p))
  next-ReadyFor n limit end p h =
      let q = before_attempt default_timeout w step n p in
      let same = after_attempt-log limit end q in
      (
        rw before_attempt-attempts (rw same (omega (arith, h.0))),
        rw before_attempt-waits (rw same (omega (arith, h.1, double step.retry_backoff n))),
      )

  stopped :
      (n limit : ℕ) (q : Progress)
      → all_fail w step.step_id n ≡ true
      → (attempts_in q.log ≡ n + 1)
        × (waited_in q.log + step.retry_backoff ≡ step.retry_backoff * 2 ^ n)
      → succeeded (w.attempt step.step_id n) ≡ true
      → n ≤ step.retry_count
      → let q' = after_attempt limit (w.attempt step.step_id n) q in
        EndsAt n q'.result.status q'.log
  stopped n limit q fails h won le =
      let end = w.attempt step.step_id n in
      let logged = after_attempt-log limit end q in
      record {
        bounded = le;
        earlier = fails;
        result = inl (after_success limit end q won, won);
        counted = rw logged h.0;
        waited = rw logged h.1;
      }

  attempts-EndsAt :
      (left n : ℕ) (p : Progress)
      → left + n ≡ step.retry_count
      → all_fail w step.step_id n ≡ true
      → ReadyFor n p
      → let q = attempts default_timeout w step (suc left) n p in
        (k : ℕ) × EndsAt k q.result.status q.log
  unfolding attempts exhausted
  attempts-EndsAt zero n p e fails h =
      let end = w.attempt step.step_id n in
      let limit = effective_timeout default_timeout step in
      let q = before_attempt default_timeout w step n p in
      let logged = after_attempt-log limit end q in
      elim (Bool-cases (succeeded end)) [
        | inl won ↦ (n, rw won (stopped n limit q fails h won (omega arith)))
        | inr lost ↦ (
          n,
          rw lost (record {
            bounded = omega arith;
            earlier = fails;
            result = inr (refl, lost, omega arith);
            counted = rw logged h.0;
            waited = rw logged h.1;
          }),
        )
      ]
  attempts-EndsAt (suc left) n p e fails h =
      let end = w.attempt step.step_id n in
      let limit = effective_timeout default_timeout step in
      let q = before_attempt default_timeout w step n p in
      elim (Bool-cases (succeeded end)) [
        | inl won ↦ (n, rw won (stopped n limit q fails h won (omega arith)))
        | inr lost ↦ rw lost (
            attempts-EndsAt left (suc n) (after_attempt limit end q) (omega arith)
              (ground (arith, fails, lost)) (next-ReadyFor n limit end p h))
      ]

  start-ReadyFor :
      (r : StepResult)
      → ReadyFor 0 (record {
        result = r;
        agent = none;
        last_error = no_error;
        log = step_started step.step_id ∷ [];
      })
  unfolding before_attempt wait_before
  start-ReadyFor r = (refl, omega arith)

  -- The attempts of a step end with the first that succeeds, and the step is then completed, or
  -- with number `retry_count`, counted from 0, and the step has then failed. The log shows that
  -- many attempts, and after k retries the waits add up to `retry_backoff` times 2 ^ k - 1.
  pub run_step-EndsAt :
      (r : StepResult)
      → let q = run_step default_timeout w step r in (k : ℕ) × EndsAt k q.result.status q.log
  unfolding run_step
  run_step-EndsAt r =
      let begun = record r { status = running; started_at = w.started step.step_id } in
      let (k, h) =
        attempts-EndsAt step.retry_count 0
          (record {
            result = begun;
            agent = none;
            last_error = no_error;
            log = step_started step.step_id ∷ [];
          })
          (omega arith) refl (start-ReadyFor begun) in
      (
        k,
        record {
          bounded = h.bounded;
          earlier = h.earlier;
          result = h.result;
          counted = rw attempts_in-append (omega (arith, h.counted));
          waited = rw waited_in-append (omega (arith, h.waited));
        },
      )
