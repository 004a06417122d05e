-- ===== src/Breaker/Calls.antt =====
-- youmi/core/resilience.py, `CircuitBreaker.call`, and histories of a shared breaker.
--
-- `await fn(...)` hands the event loop over, so other calls begin and end between the check and the
-- record of a call: a history is a list of such events, in the order in which they happen.
use you_mi_agent.Prelude.{ℕ, suc, Bool, true, false, none, some, List, [], ◌∷◌}
use you_mi_agent.Breaker.{Breaker, before_call, record_success, record_failure, reset, release}

-- How `await fn(...)` ends. `cancelled` is `asyncio.CancelledError`, which is no `Exception`.
pub data Outcome : Type 0 where
  returned raised_open raised cancelled : Outcome

-- The `except` and `else` clauses of `call`.
unfoldable pub after_call : Outcome → ℕ → Breaker → Breaker
unfolding release
after_call returned now b = record_success b
after_call raised_open now b = release b
after_call raised now b = record_failure now b
after_call cancelled now b = b

-- A call that no other event comes between: it begins at `t` and ends at `u`. The Boolean says
-- whether `fn` was run.
unfoldable pub call : ℕ → ℕ → Outcome → Breaker → Breaker × Bool
call t u outcome b =
    let (b', refused) = before_call t b in
    elim refused [ none ↦ (after_call outcome u b', true) | some e ↦ (b', false) ]

pub data Event : Type 0 where
  begin : ℕ → Event
  end : Outcome → ℕ → Event
  clear : Event

unfoldable pub step : Breaker → Event → Breaker
step b (begin now) = (before_call now b).0
step b (end outcome now) = after_call outcome now b
step b clear = reset b

unfoldable pub run : Breaker → List Event → Breaker
run b [] = b
run b (e ∷ es) = run (step b e) es

-- How many of the calls that begin at the given times, one after the other, are admitted.
unfoldable pub admitted : Breaker → List ℕ → ℕ
admitted b [] = 0
admitted b (t ∷ ts) =
    let (b', refused) = before_call t b in
    let rest = admitted b' ts in elim refused [ none ↦ suc rest | some e ↦ rest ]
