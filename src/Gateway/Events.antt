-- ===== src/Gateway/Events.antt =====
-- youmi/gateway/events.py: `TaskEventHub`, which hands the events of a task to its subscribers.
--
-- A subscriber's queue is an object: its number here, and all that was put into it, whether it was
-- taken or not. `none` in a queue is the signal that ends the stream. What a stream does at its
-- end is `remove`.
pub mod Counting
pub mod Histories
pub mod Streams
pub mod Examples
use you_mi_agent.Prelude.{
  ℕ, zero, suc, ◌+◌, String, Bool, true, false, Option, none, some, List, [], ◌∷◌, ◌++◌, str_eq,
  any, length, ◌==◌, if◌then◌else◌,
}
use you_mi_agent.Dict.{Dict, lookup, insert, remove}

-- An event, by the fields that the hub does not read.
pub record TaskEventHub (E : Type 0) : Type 0 where
  pub subscribers : Dict (List ℕ)
  pub queues : ℕ → List (Option E)
  pub next : ℕ
  pub closed : List String

unfoldable pub is_in : String → List String → Bool
is_in x xs = any (λ y. str_eq y x) xs

abbrev pub list_or_nil : Option (List ℕ) → List ℕ
list_or_nil none = []
list_or_nil (some l) = l

-- `self._subscribers.get(task_id, [])`
unfoldable pub queues_of : String → Dict (List ℕ) → List ℕ
queues_of id d = list_or_nil (lookup id d)

-- `subs.remove(queue)`, and the list as it is for a `ValueError`
unfoldable pub without : ℕ → List ℕ → List ℕ
without q [] = []
without q (k ∷ ks) = let rest = without q ks in if k == q then ks else k ∷ rest

-- `set.add`
add_closed : String → List String → List String
unfolding is_in
add_closed id ids = if is_in id ids then ids else ids ++ (id ∷ [])

-- `if not subs: self._subscribers.pop(task_id, None)`
unfoldable pub kept : String → List ℕ → Dict (List ℕ) → Dict (List ℕ)
kept id [] d = remove id d
kept id (k ∷ ks) d = insert id (k ∷ ks) d

unfoldable pub remove_found : String → ℕ → List ℕ → Dict (List ℕ) → Dict (List ℕ)
unfolding kept without
remove_found id q [] d = d
remove_found id q (k ∷ ks) d = kept id (without q (k ∷ ks)) d

module _ {E : Type 0} where
  -- `queue.put_nowait(event)`
  unfoldable pub push : Option E → ℕ → (ℕ → List (Option E)) → ℕ → List (Option E)
  push e q qs k = if k == q then qs k ++ (e ∷ []) else qs k

  unfoldable pub push_all : Option E → List ℕ → (ℕ → List (Option E)) → ℕ → List (Option E)
  unfolding push
  push_all e [] qs = qs
  push_all e (q ∷ ks) qs = push_all e ks (push e q qs)

  unfoldable pub init : TaskEventHub E
  init = record { subscribers = []; queues = λ k. []; next = 0; closed = [] }

  unfoldable pub publish : String → E → TaskEventHub E → TaskEventHub E
  unfolding push_all queues_of
  publish id e h = record h { queues = push_all (some e) (queues_of id h.subscribers) h.queues }

  unfoldable pub close : String → TaskEventHub E → TaskEventHub E
  unfolding push_all queues_of add_closed
  close id h = record h {
    closed = add_closed id h.closed;
    subscribers = remove id h.subscribers;
    queues = push_all none (queues_of id h.subscribers) h.queues;
  }

  -- The new stream's queue: `none` for the empty stream.
  unfoldable pub subscribe : String → TaskEventHub E → TaskEventHub E × Option ℕ
  unfolding is_in queues_of
  subscribe id h = if is_in id h.closed then (h, none) else (
    record h {
      subscribers = insert id (queues_of id h.subscribers ++ (h.next ∷ [])) h.subscribers;
      queues = λ k. if k == h.next then [] else h.queues k;
      next = suc h.next;
    },
    some h.next,
  )

  unfoldable pub remove_queue : String → ℕ → TaskEventHub E → TaskEventHub E
  unfolding remove_found queues_of
  remove_queue id q h = record h {
    subscribers = remove_found id q (queues_of id h.subscribers) h.subscribers;
  }

  unfoldable pub subscriber_count : String → TaskEventHub E → ℕ
  unfolding queues_of
  subscriber_count id h = length (queues_of id h.subscribers)

  unfoldable pub closed_count : TaskEventHub E → ℕ
  closed_count h = length h.closed
