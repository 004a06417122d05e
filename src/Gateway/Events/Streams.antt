-- ===== src/Gateway/Events/Streams.antt =====
-- What a subscriber gets.
use you_mi_agent.Prelude.{
  ℕ, ◌<◌, String, ◌≡◌, refl, ◌∙◌, sym, ap, Bool, true, false, ◌&&◌, Option, none, some, List, [],
  ◌∷◌, ◌++◌, arith, str_eq, eq_iff, any, replicate, ==_iff, if◌then◌else◌, Bool-cases, inl, inr,
}
use mathlib.Core.List.{append_assoc, append-nil}
use you_mi_agent.Gateway.Events.{
  TaskEventHub, is_in, queues_of, push_all, init, publish, close, subscribe, remove_queue,
}
use you_mi_agent.Gateway.Events.Counting.{
  times, times-append, times-without, push_all-replicate, queues_of-insert, queues_of-remove,
  queues_of-remove_found,
}
use you_mi_agent.Gateway.Events.Histories.{
  Op, op_publish, op_close, op_subscribe, op_remove, step, run, removes, received, Fresh, run-Fresh,
}

module _ {E : Type 0} where
  -- The queue stands once in the list of its task, or in no list any more, and in no other.
  pub record Follows (live : Bool) (t : String) (q : ℕ) (h : TaskEventHub E) : Type 0 where
    pub below : q < h.next
    pub listed :
        (u : String) → times q (queues_of u h.subscribers) ≡ (if live && str_eq t u then 1 else 0)

  -- Whether the task is still open to this queue after the call.
  live_after : Bool → String → Op E → Bool
  live_after live t (op_close id) = if str_eq id t then false else live
  live_after live t _ = live

  -- What the call puts into the queue.
  arrivals : Bool → String → Op E → List (Option E)
  arrivals live t (op_publish id e) = if live && str_eq id t then some e ∷ [] else []
  arrivals live t (op_close id) = if live && str_eq id t then none ∷ [] else []
  arrivals live t _ = []

  subscribe-Follows :
      (live : Bool) (t : String) (q : ℕ) (id : String) (h : TaskEventHub E)
      → Follows live t q h
      → Follows live t q (subscribe id h).0
  unfolding subscribe
  subscribe-Follows live t q id h f = elim (Bool-cases (is_in id h.closed)) [
    | inl off ↦ rw (subscribe, off) f
    | inr on ↦
        rw (subscribe, on)
          (record {
            below = omega (arith, f.below);
            listed = λ u. ground (
              arith,
              f.listed u,
              f.listed id,
              f.below,
              eq_iff id u,
              eq_iff t id,
              eq_iff t u,
              ==_iff h.next q,
              times-append q (queues_of id h.subscribers) (h.next ∷ []),
              queues_of-insert id u (queues_of id h.subscribers ++ (h.next ∷ [])) h.subscribers,
            );
          })
  ]

  step-Follows :
      (live : Bool) (t : String) (q : ℕ) (op : Op E) (h : TaskEventHub E)
      → removes q op ≡ false
      → Follows live t q h
      → Follows (live_after live t op) t q (step op h)
  unfolding step publish close subscribe remove_queue live_after removes
  step-Follows live t q (op_publish id e) h r f = record { below = f.below; listed = f.listed }
  step-Follows live t q (op_close id) h r f = record {
    below = f.below;
    listed = λ u. ground (
      arith,
      f.listed u,
      eq_iff id u,
      eq_iff t u,
      eq_iff id t,
      queues_of-remove id u h.subscribers,
    );
  }
  step-Follows live t q (op_subscribe id) h r f = subscribe-Follows live t q id h f
  step-Follows live t q (op_remove id k) h r f = record {
    below = f.below;
    listed = λ u. ground (
      arith,
      f.listed u,
      f.listed id,
      eq_iff id u,
      eq_iff t id,
      eq_iff t u,
      r,
      times-without q k (queues_of id h.subscribers),
      queues_of-remove_found id u k h.subscribers,
    );
  }

  pushed-Follows :
      (live : Bool) (t : String) (q : ℕ) (id : String) (e : Option E) (h : TaskEventHub E)
      → Follows live t q h
      → push_all e (queues_of id h.subscribers) h.queues q
        ≡ h.queues q ++ (if live && str_eq t id then e ∷ [] else [])
  pushed-Follows live t q id e h f =
      push_all-replicate e (queues_of id h.subscribers) h.queues q
      ∙ ap (λ n. h.queues q ++ replicate n e) (f.listed id)
      ∙ as_branch (live && str_eq t id)
    where
      as_branch :
          (b : Bool)
          → h.queues q ++ replicate (if b then 1 else 0) e
            ≡ h.queues q ++ (if b then e ∷ [] else [])
      as_branch true = refl
      as_branch false = refl

  subscribe-queues :
      (q : ℕ) (id : String) (h : TaskEventHub E)
      → q < h.next
      → (subscribe id h).0.queues q ≡ h.queues q
  unfolding subscribe
  subscribe-queues q id h b = ground (arith, ==_iff q h.next)

  step-queue :
      (live : Bool) (t : String) (q : ℕ) (op : Op E) (h : TaskEventHub E)
      → Follows live t q h
      → (step op h).queues q ≡ h.queues q ++ arrivals live t op
  unfolding step publish close remove_queue arrivals
  step-queue live t q (op_publish id e) h f =
      pushed-Follows live t q id (some e) h f
      ∙ ap (λ b. h.queues q ++ (if live && b then some e ∷ [] else []))
          (ground (arith, eq_iff t id, eq_iff id t))
  step-queue live t q (op_close id) h f =
      pushed-Follows live t q id none h f
      ∙ ap (λ b. h.queues q ++ (if live && b then none ∷ [] else []))
          (ground (arith, eq_iff t id, eq_iff id t))
  step-queue live t q (op_subscribe id) h f =
      subscribe-queues q id h f.below ∙ sym (append-nil (h.queues q))
  step-queue live t q (op_remove id k) h f = sym (append-nil (h.queues q))

  -- What is put into the queue by these calls.
  collected : Bool → String → List (Op E) → List (Option E)
  collected live t [] = []
  collected live t (op ∷ ops) = arrivals live t op ++ collected (live_after live t op) t ops

  run-queue :
      (ops : List (Op E)) (live : Bool) (t : String) (q : ℕ) (h : TaskEventHub E)
      → any (removes q) ops ≡ false
      → Follows live t q h
      → (run ops h).queues q ≡ h.queues q ++ collected live t ops
  unfolding run collected
  run-queue [] live t q h r f = sym (append-nil (h.queues q))
  run-queue (op ∷ ops) live t q h r f =
      run-queue ops (live_after live t op) t q (step op h) (ground (arith, r))
        (step-Follows live t q op h (ground (arith, r)) f)
      ∙ ap (λ s. s ++ collected (live_after live t op) t ops) (step-queue live t q op h f)
      ∙ append_assoc (h.queues q) (arrivals live t op) (collected (live_after live t op) t ops)

  collected_gone : (t : String) (ops : List (Op E)) → collected false t ops ≡ []
  unfolding collected arrivals live_after
  collected_gone t [] = refl
  collected_gone t (op_publish id e ∷ ops) = collected_gone t ops
  collected_gone t (op_close id ∷ ops) = ground (arith, collected_gone t ops)
  collected_gone t (op_subscribe id ∷ ops) = collected_gone t ops
  collected_gone t (op_remove id q ∷ ops) = collected_gone t ops

  collected-received : (t : String) (ops : List (Op E)) → collected true t ops ≡ received t ops
  unfolding collected arrivals live_after received
  collected-received t [] = refl
  collected-received t (op_publish id e ∷ ops) = ground (arith, collected-received t ops)
  collected-received t (op_close id ∷ ops) =
      ground (arith, collected-received t ops, collected_gone t ops)
  collected-received t (op_subscribe id ∷ ops) = collected-received t ops
  collected-received t (op_remove id q ∷ ops) = collected-received t ops

  new-Follows :
      (t : String) (h : TaskEventHub E)
      → Fresh h
      → is_in t h.closed ≡ false
      → Follows true t h.next (subscribe t h).0
  unfolding subscribe Fresh
  new-Follows t h f on =
      rw (subscribe, on)
        (record {
          below = omega arith;
          listed = λ u. ground (
            arith,
            f u h.next,
            f t h.next,
            ==_iff h.next h.next,
            times-append h.next (queues_of t h.subscribers) (h.next ∷ []),
            queues_of-insert t u (queues_of t h.subscribers ++ (h.next ∷ [])) h.subscribers,
          );
        })

  new_queue :
      (t : String) (h : TaskEventHub E)
      → is_in t h.closed ≡ false
      → ((subscribe t h).1 ≡ some h.next) × ((subscribe t h).0.queues h.next ≡ [])
  unfolding subscribe
  new_queue t h on = ground (arith, on, ==_iff h.next h.next)

  -- After any history: a subscriber of a task that is not closed gets, until its stream ends itself,
  -- just the events that are published for this task, in their order, up to the task's end, and
  -- then the signal of the end. What follows the end, and what concerns other tasks or other
  -- subscribers, does not reach it.
  pub subscriber-received :
      (past ops : List (Op E)) (t : String)
      → is_in t (run past init).closed ≡ false
      → any (removes (run past init).next) ops ≡ false
      → ((subscribe t (run past init)).1 ≡ some (run past init).next)
        × ((run ops (subscribe t (run past init)).0).queues (run past init).next ≡ received t ops)
  unfolding init Fresh queues_of
  subscriber-received past ops t on r =
      let h = run past init in
      let fresh = run-Fresh past init (λ u k le. refl) in
      let (number, nothing) = new_queue t h on in
      (
        number,
        run-queue ops true t h.next (subscribe t h).0 r (new-Follows t h fresh on)
            ∙ ap (λ s. s ++ collected true t ops) nothing
            ∙ collected-received t ops,
      )
