-- ===== src/Bus/Broker/Delivery.antt =====
-- Which queues a message reaches, and in which order messages leave a queue.
use you_mi_agent.Prelude.{
  ℕ, zero, suc, String, ◌≡◌, refl, ◌∙◌, sym, ap, Bool, true, false, not, Option, none, some, List,
  [], ◌∷◌, ◌++◌, arith, str_eq, eq_refl, eq_iff, if◌then◌else◌, count, select, replicate, length,
  Bool-cases, inl, inr,
}
use mathlib.Core.List.{append_assoc, append-nil}
use you_mi_agent.Dict.{lookup, lookup-insert, keys}
use you_mi_agent.Bus.{WorkflowMessage, is_broadcast}
use you_mi_agent.Bus.Broker.{
  InProcessBroker, get_list, tenant_of, others, candidates, resolve_targets, ack, track, enqueue,
  deliver, deliver_all, with_ack, publish, take_first, wait_for_message,
}

-- How often an agent is among the targets.
abbrev pub times : String → List String → ℕ
times a xs = count (λ y. str_eq y a) xs

-- A queue with so many copies of a message at its end.
abbrev pub extended :
    ℕ → WorkflowMessage → Option (List WorkflowMessage) → Option (List WorkflowMessage)
extended n m none = none
extended n m (some q) = some (q ++ replicate n m)

extended-zero : (m : WorkflowMessage) (o : Option (List WorkflowMessage)) → extended 0 m o ≡ o
extended-zero m none = refl
extended-zero m (some q) = ap some (append-nil q)

extended-suc :
    (n : ℕ) (m : WorkflowMessage) (o : Option (List WorkflowMessage))
    → extended n m (extended 1 m o) ≡ extended (suc n) m o
extended-suc n m none = refl
extended-suc n m (some q) = ap some (append_assoc q (m ∷ []) (replicate n m))

pub queues-enqueue :
    (a t : String) (m : WorkflowMessage) (o : Option (List WorkflowMessage)) (b : InProcessBroker)
    → lookup t b.queues ≡ o
    → lookup a (enqueue m t o b).queues
      ≡ (if str_eq t a then extended 1 m (lookup a b.queues) else lookup a b.queues)
unfolding enqueue track ack
queues-enqueue a t m none b e = ground (arith, eq_iff t a)
queues-enqueue a t m (some q) b e =
    ground (arith, eq_iff t a, lookup-insert t a (q ++ (m ∷ [])) b.queues)

lookup-deliver_all :
    (a : String) (m : WorkflowMessage) (ts : List String) (b : InProcessBroker)
    → lookup a (deliver_all m ts b).queues ≡ extended (times a ts) m (lookup a b.queues)
unfolding deliver_all deliver
lookup-deliver_all a m [] b = sym (extended-zero m (lookup a b.queues))
lookup-deliver_all a m (t ∷ ts) b =
    let first = queues-enqueue a t m (lookup t b.queues) b refl in
    let rest = lookup-deliver_all a m ts (deliver m t b) in
    elim (Bool-cases (str_eq t a)) [
      | inl this ↦ rw this (
          rest
          ∙ ap (extended (times a ts) m) (rw this at first)
          ∙ extended-suc (times a ts) m (lookup a b.queues))
      | inr other ↦ rw other (rest ∙ ap (extended (times a ts) m) (rw other at first))
    ]

-- `publish` puts the message at the end of the queue of each of its targets, once for each time
-- that the target is named, and changes no other queue.
pub lookup-publish :
    (a fresh : String) (m : WorkflowMessage) (b : InProcessBroker)
    → let m' = with_ack fresh m in
      lookup a (publish fresh m b).queues
      ≡ extended (times a (resolve_targets m' b)) m' (lookup a b.queues)
unfolding publish
lookup-publish a fresh m b =
    let m' = with_ack fresh m in lookup-deliver_all a m' (resolve_targets m' b) b

times-select :
    (a : String) (p : String → Bool) (xs : List String)
    → times a (select p xs) ≡ (if p a then times a xs else 0)
times-select a p [] = ground arith
times-select a p (x ∷ xs) = elim (Bool-cases (str_eq x a)) [
  | inl this ↦ ground (arith, times-select a p xs, this, ap p ((eq_iff x a).0 this))
  | inr other ↦ ground (arith, times-select a p xs, other)
]

tenant-with_ack : (fresh : String) (m : WorkflowMessage) → (with_ack fresh m).tenant ≡ m.tenant
unfolding with_ack
tenant-with_ack fresh m = ground arith

from-with_ack :
    (fresh : String) (m : WorkflowMessage) → (with_ack fresh m).from_agent_id ≡ m.from_agent_id
unfolding with_ack
from-with_ack fresh m = ground arith

to-with_ack :
    (fresh : String) (m : WorkflowMessage) → (with_ack fresh m).to_agent_id ≡ m.to_agent_id
unfolding with_ack
to-with_ack fresh m = ground arith

is_broadcast-to :
    (m n : WorkflowMessage) → m.to_agent_id ≡ n.to_agent_id → is_broadcast m ≡ is_broadcast n
unfolding is_broadcast
is_broadcast-to m n h = rw h refl

times-resolve_targets :
    (a : String) (m : WorkflowMessage) (b : InProcessBroker)
    → times a (resolve_targets m b)
      ≡ (if str_eq (tenant_of a b) m.tenant then times a (candidates m b) else 0)
unfolding resolve_targets
times-resolve_targets a m b =
    times-select a (λ aid. str_eq (tenant_of aid b) m.tenant) (candidates m b)

times-others : (a : String) (xs : List String) → times a (others a xs) ≡ 0
unfolding others
times-others a xs = ground (arith, times-select a (λ aid. not (str_eq aid a)) xs, eq_refl a)

times-candidates :
    (m : WorkflowMessage) (b : InProcessBroker)
    → is_broadcast m ≡ true
    → times m.from_agent_id (candidates m b) ≡ 0
unfolding candidates
times-candidates m b h = ground (
  arith,
  h,
  times-others m.from_agent_id (get_list m.workflow_id b.workflow_members),
  times-others m.from_agent_id (keys b.queues),
)

untouched :
    (a fresh : String) (m : WorkflowMessage) (b : InProcessBroker)
    → times a (resolve_targets (with_ack fresh m) b) ≡ 0
    → lookup a (publish fresh m b).queues ≡ lookup a b.queues
untouched a fresh m b h =
    lookup-publish a fresh m b
    ∙ ap (λ n. extended n (with_ack fresh m) (lookup a b.queues)) h
    ∙ extended-zero (with_ack fresh m) (lookup a b.queues)

-- Tenants are kept apart: `publish` changes no queue of an agent of another tenant.
pub publish-other_tenant :
    (a fresh : String) (m : WorkflowMessage) (b : InProcessBroker)
    → str_eq (tenant_of a b) m.tenant ≡ false
    → lookup a (publish fresh m b).queues ≡ lookup a b.queues
publish-other_tenant a fresh m b h =
    untouched a fresh m b
      (ground (arith, times-resolve_targets a (with_ack fresh m) b, tenant-with_ack fresh m, h))

-- A broadcast does not come back to its sender.
pub publish-sender :
    (fresh : String) (m : WorkflowMessage) (b : InProcessBroker)
    → is_broadcast m ≡ true
    → let a = m.from_agent_id in lookup a (publish fresh m b).queues ≡ lookup a b.queues
publish-sender fresh m b h =
    let m' = with_ack fresh m in
    let none_left : times m'.from_agent_id (candidates m' b) ≡ 0 =
      times-candidates m' b (is_broadcast-to m' m (to-with_ack fresh m) ∙ h) in
    untouched m.from_agent_id fresh m b
      (ground (arith, times-resolve_targets m.from_agent_id m' b, none_left, from-with_ack fresh m))

abbrev pub received : Option WorkflowMessage → List WorkflowMessage → List WorkflowMessage
received none ms = ms
received (some m) ms = m ∷ ms

-- How often an agent waits for a message, and what it gets.
abbrev wait_times : ℕ → String → InProcessBroker → InProcessBroker × List WorkflowMessage
wait_times zero a b = (b, [])
wait_times (suc n) a b =
    let (b', o) = wait_for_message a b in let (b'', ms) = wait_times n a b' in (b'', received o ms)

queues-take_first :
    (a : String) (m : WorkflowMessage) (q : List WorkflowMessage) (b : InProcessBroker)
    → (lookup a (take_first a (some (m ∷ q)) b).0.queues ≡ some q)
      × ((take_first a (some (m ∷ q)) b).1 ≡ some m)
unfolding take_first ack
queues-take_first a m q b = ground (arith, lookup-insert a a q b.queues, eq_refl a)

wait_first :
    (a : String) (m : WorkflowMessage) (q : List WorkflowMessage) (b : InProcessBroker)
    → lookup a b.queues ≡ some (m ∷ q)
    → (lookup a (wait_for_message a b).0.queues ≡ some q) × ((wait_for_message a b).1 ≡ some m)
unfolding wait_for_message
wait_first a m q b h = rw h (queues-take_first a m q b)

-- Messages are received in the order in which they came: as many waits as there are messages in the
-- queue give just these, and leave it empty.
wait_times-queue :
    (a : String) (q : List WorkflowMessage) (b : InProcessBroker)
    → lookup a b.queues ≡ some q
    → let (b', ms) = wait_times (length q) a b in (ms ≡ q) × (lookup a b'.queues ≡ some [])
wait_times-queue a [] b h = (refl, h)
wait_times-queue a (m ∷ q) b h =
    let (kept, got) = wait_first a m q b h in
    let rest = wait_times-queue a q (wait_for_message a b).0 kept in
    (
      ap (λ o. received o (wait_times (length q) a (wait_for_message a b).0).1) got
          ∙ ap (λ ms. m ∷ ms) rest.0,
      rest.1,
    )
