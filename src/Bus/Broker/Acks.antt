-- ===== src/Bus/Broker/Acks.antt =====
-- Which acknowledgements are pending.
use you_mi_agent.Prelude.{
  ℕ, String, ◌≡◌, refl, ◌∙◌, sym, ap, Bool, true, false, not, ◌&&◌, ◌||◌, Option, none, some,
  is_some, List, [], ◌∷◌, ◌++◌, arith, str_eq, eq_iff, Bool-cases, inl, inr, any, select,
}
use you_mi_agent.Dict.{lookup}
use you_mi_agent.Bus.{WorkflowMessage, needs_ack}
use you_mi_agent.Bus.Broker.Delivery.{extended, queues-enqueue}
use you_mi_agent.Bus.Broker.{
  InProcessBroker, is_in, same_key, ack, track, enqueue, deliver, deliver_all, publish, with_ack,
  resolve_targets, take_first, wait_for_message,
}

-- Whether the broker waits for this agent to acknowledge this message.
abbrev pub is_pending : String × String → InProcessBroker → Bool
is_pending key b = any (λ e. same_key e.0 key) b.pending_acks

any-append :
    (k : String × String) (xs ys : List ((String × String) × WorkflowMessage))
    → any (λ e. same_key e.0 k) (xs ++ ys)
      ≡ (any (λ e. same_key e.0 k) xs || any (λ e. same_key e.0 k) ys)
any-append k [] ys = refl
any-append k (x ∷ xs) ys = ground (arith, any-append k xs ys)

both_parts : (j k : String × String) → same_key j k ≡ true → j ≡ k
unfolding same_key
both_parts j k h =
    let left : j.0 ≡ k.0 = (eq_iff j.0 k.0).0 (ground arith) in
    let right : j.1 ≡ k.1 = (eq_iff j.1 k.1).0 (ground arith) in λ i. (left i, right i)

same_key-through : (x j k : String × String) → same_key x j ≡ true → same_key x k ≡ same_key j k
same_key-through x j k h = ap (λ y. same_key y k) (both_parts x j h)

same_key-apart :
    (x j k : String × String) → same_key x j ≡ false → same_key j k ≡ true → same_key x k ≡ false
same_key-apart x j k h e = ap (same_key x) (sym (both_parts j k e)) ∙ h

any-select :
    (j k : String × String) (xs : List ((String × String) × WorkflowMessage))
    → any (λ e. same_key e.0 k) (select (λ e. not (same_key e.0 j)) xs)
      ≡ (any (λ e. same_key e.0 k) xs && not (same_key j k))
any-select j k [] = refl
any-select j k (x ∷ xs) = elim (Bool-cases (same_key x.0 j)) [
  | inl same ↦ ground (arith, any-select j k xs, same, same_key-through x.0 j k same)
  | inr other ↦ elim (Bool-cases (same_key j k)) [
    | inl this ↦ ground (arith, any-select j k xs, other, this, same_key-apart x.0 j k other this)
    | inr that ↦ ground (arith, any-select j k xs, other, that)
  ]
]

is_pending-enqueue :
    (k : String × String) (m : WorkflowMessage) (t : String) (o : Option (List WorkflowMessage))
    (b : InProcessBroker)
    → is_pending k (enqueue m t o b)
      ≡ (is_pending k b || (needs_ack m && (is_some o && same_key (m.message_id, t) k)))
unfolding enqueue track ack
is_pending-enqueue k m t none b = ground arith
is_pending-enqueue k m t (some q) b =
    let j : String × String = (m.message_id, t) in
    let kept = select (λ e. not (same_key e.0 j)) b.pending_acks in
    ground (arith, any-append k kept ((j, m) ∷ []), any-select j k b.pending_acks)

is_some-extended :
    (n : ℕ) (m : WorkflowMessage) (o : Option (List WorkflowMessage))
    → is_some (extended n m o) ≡ is_some o
is_some-extended n m none = refl
is_some-extended n m (some q) = refl

has_queue-deliver :
    (a t : String) (m : WorkflowMessage) (b : InProcessBroker)
    → is_some (lookup a (deliver m t b).queues) ≡ is_some (lookup a b.queues)
unfolding deliver
has_queue-deliver a t m b =
    let queues = queues-enqueue a t m (lookup t b.queues) b refl in
    elim (Bool-cases (str_eq t a)) [
      | inl this ↦ ap is_some (rw this at queues) ∙ is_some-extended 1 m (lookup a b.queues)
      | inr other ↦ ap is_some (rw other at queues)
    ]

is_pending-deliver :
    (k : String × String) (m : WorkflowMessage) (t : String) (b : InProcessBroker)
    → is_pending k (deliver m t b) ≡ (
        is_pending k b
        || (needs_ack m
            && (str_eq m.message_id k.0 && (str_eq t k.1 && is_some (lookup k.1 b.queues)))))
unfolding deliver same_key
is_pending-deliver k m t b =
    let after = is_pending-enqueue k m t (lookup t b.queues) b in
    elim (Bool-cases (str_eq t k.1)) [
      | inl this ↦
          ground (arith, after, this, ap (λ x. is_some (lookup x b.queues)) ((eq_iff t k.1).0 this))
      | inr other ↦ ground (arith, after, other)
    ]

is_pending-deliver_all :
    (k : String × String) (m : WorkflowMessage) (ts : List String) (b : InProcessBroker)
    → is_pending k (deliver_all m ts b) ≡ (
        is_pending k b
        || (needs_ack m
            && (str_eq m.message_id k.0 && (is_in k.1 ts && is_some (lookup k.1 b.queues)))))
unfolding deliver_all
is_pending-deliver_all k m [] b = ground arith
is_pending-deliver_all k m (t ∷ ts) b = ground (
  arith,
  is_pending-deliver_all k m ts (deliver m t b),
  is_pending-deliver k m t b,
  has_queue-deliver k.1 t m b,
)

id-with_ack : (fresh : String) (m : WorkflowMessage) → (with_ack fresh m).message_id ≡ m.message_id
unfolding with_ack
id-with_ack fresh m = ground arith

-- After `publish` an acknowledgement is pending exactly if it was before, or it is that of this
-- message, which asks for one, to one of its targets that has a queue.
pub is_pending-publish :
    (k : String × String) (fresh : String) (m : WorkflowMessage) (b : InProcessBroker)
    → let m' = with_ack fresh m in
      is_pending k (publish fresh m b) ≡ (
        is_pending k b
        || (needs_ack m'
            && (str_eq m.message_id k.0
                && (is_in k.1 (resolve_targets m' b) && is_some (lookup k.1 b.queues)))))
unfolding publish
is_pending-publish k fresh m b =
    let m' = with_ack fresh m in
    ground (arith, is_pending-deliver_all k m' (resolve_targets m' b) b, id-with_ack fresh m)

-- What `wait_for_message` gives is acknowledged with it: of the acknowledgements that were pending,
-- just the one of that message to this agent is gone, if the message asks for one.
pub is_pending-wait_for_message :
    (a : String) (m : WorkflowMessage) (q : List WorkflowMessage) (b : InProcessBroker)
    (k : String × String)
    → lookup a b.queues ≡ some (m ∷ q)
    → is_pending k (wait_for_message a b).0
      ≡ (is_pending k b && not (needs_ack m && same_key (m.message_id, a) k))
unfolding wait_for_message take_first ack
is_pending-wait_for_message a m q b k h =
    rw h (ground (arith, any-select (m.message_id, a) k b.pending_acks))
