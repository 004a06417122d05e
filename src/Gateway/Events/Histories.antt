-- ===== src/Gateway/Events/Histories.antt =====
-- Calls of the event hub in any order.
use you_mi_agent.Prelude.{
  ℕ, ◌≤◌, String, ◌≡◌, Bool, false, Option, none, some, List, [], ◌∷◌, ◌++◌, arith, str_eq, ◌==◌,
  ==_iff, if◌then◌else◌, Bool-cases, inl, inr,
}
use you_mi_agent.Gateway.Events.{
  TaskEventHub, is_in, queues_of, publish, close, subscribe, remove_queue,
}
use you_mi_agent.Gateway.Events.Counting.{
  times, times-append, times-without-le, queues_of-insert, queues_of-remove, queues_of-remove_found,
}

pub data Op (E : Type 0) : Type 0 where
  op_publish : String → E → Op E
  op_close op_subscribe : String → Op E
  op_remove : String → ℕ → Op E

module _ {E : Type 0} where
  unfoldable pub step : Op E → TaskEventHub E → TaskEventHub E
  unfolding publish close subscribe remove_queue
  step (op_publish id e) h = publish id e h
  step (op_close id) h = close id h
  step (op_subscribe id) h = (subscribe id h).0
  step (op_remove id q) h = remove_queue id q h

  unfoldable pub run : List (Op E) → TaskEventHub E → TaskEventHub E
  unfolding step
  run [] h = h
  run (op ∷ ops) h = run ops (step op h)

  -- The stream of this queue ends itself.
  unfoldable pub removes : ℕ → Op E → Bool
  removes q (op_remove id k) = k == q
  removes q _ = false

  -- The events of a task up to its end, and the signal of the end.
  unfoldable pub received : String → List (Op E) → List (Option E)
  received t [] = []
  received t (op_publish id e ∷ ops) =
      let rest = received t ops in if str_eq id t then some e ∷ rest else rest
  received t (op_close id ∷ ops) =
      let rest = received t ops in if str_eq id t then none ∷ [] else rest
  received t (op_subscribe id ∷ ops) = received t ops
  received t (op_remove id q ∷ ops) = received t ops

  -- Queues that are still to be made stand in no list.
  unfoldable pub Fresh : TaskEventHub E → Type 0
  Fresh h = (u : String) (k : ℕ) → h.next ≤ k → times k (queues_of u h.subscribers) ≡ 0

  subscribe-Fresh : (id : String) (h : TaskEventHub E) → Fresh h → Fresh (subscribe id h).0
  unfolding Fresh subscribe
  subscribe-Fresh id h f = elim (Bool-cases (is_in id h.closed)) [
    | inl off ↦ rw (subscribe, off) f
    | inr on ↦
        rw (subscribe, on)
          (λ u k le. ground (
            arith,
            f u k,
            f id k,
            le,
            ==_iff h.next k,
            times-append k (queues_of id h.subscribers) (h.next ∷ []),
            queues_of-insert id u (queues_of id h.subscribers ++ (h.next ∷ [])) h.subscribers,
          ))
  ]

  pub step-Fresh : (op : Op E) (h : TaskEventHub E) → Fresh h → Fresh (step op h)
  unfolding Fresh step publish close subscribe remove_queue
  step-Fresh (op_publish id e) h f u k le = f u k le
  step-Fresh (op_close id) h f u k le =
      ground (arith, f u k le, queues_of-remove id u h.subscribers)
  step-Fresh (op_subscribe id) h f u k le = subscribe-Fresh id h f u k le
  step-Fresh (op_remove id q) h f u k le = ground (
    arith,
    f u k le,
    f id k le,
    times-without-le k q (queues_of id h.subscribers),
    queues_of-remove_found id u q h.subscribers,
  )

  pub run-Fresh : (ops : List (Op E)) (h : TaskEventHub E) → Fresh h → Fresh (run ops h)
  unfolding run
  run-Fresh [] h f = f
  run-Fresh (op ∷ ops) h f = run-Fresh ops (step op h) (step-Fresh op h f)
