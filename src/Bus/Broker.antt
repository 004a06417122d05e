-- ===== src/Bus/Broker.antt =====
-- youmi/bus/broker.py: `InProcessBroker`.
--
-- A set is a list without repetitions, in the order in which its elements came. What a callback
-- does is its own affair: the broker here lists the calls. The lock makes `subscribe`,
-- `unsubscribe` and `create_workflow` one step each. A `wait_for_message` is one step too, at the time at which it
-- takes a message or gives up, which it does only on an empty queue.
pub mod Delivery
pub mod Members
pub mod Acks
pub mod Histories
use you_mi_agent.Prelude.{
  ℕ, ◌+◌, ◌==◌, String, Bool, true, false, not, ◌&&◌, Option, none, some, List, [], ◌∷◌, ◌++◌,
  str_eq, if◌then◌else◌, any, select, length, is_some,
}
use you_mi_agent.Dict.{Dict, lookup, insert, remove, keys}
use you_mi_agent.Bus.{WorkflowMessage, writes_to_memory, is_broadcast, needs_ack}

pub record InProcessBroker : Type 0 where
  pub queues : Dict (List WorkflowMessage)
  pub subscriptions : Dict (List String)
  pub workflow_members : Dict (List String)
  pub agent_tenants : Dict String
  pub pending_acks : List ((String × String) × WorkflowMessage)
  pub callbacks : Dict (List String)
  pub workflow_counter : ℕ
  pub called : List (String × WorkflowMessage)

unfoldable pub init : InProcessBroker
init = record {
  queues = [];
  subscriptions = [];
  workflow_members = [];
  agent_tenants = [];
  pending_acks = [];
  callbacks = [];
  workflow_counter = 0;
  called = [];
}

-- `d.get(k, set())`, and the like for lists
abbrev pub get_list {ℓ} : {A : Type ℓ} → String → Dict (List A) → List A
get_list k d = elim (lookup k d) [ none ↦ [] | some l ↦ l ]

-- `x in xs`
abbrev pub is_in : String → List String → Bool
is_in x xs = any (λ y. str_eq y x) xs

-- `xs.add(x)`
unfoldable pub add : String → List String → List String
add x xs = if is_in x xs then xs else xs ++ (x ∷ [])

-- `xs.discard(x)`
unfoldable pub discard : String → List String → List String
discard x xs = select (λ y. not (str_eq y x)) xs

-- `if k not in d: d[k] = ...`
unfoldable pub with_key {ℓ} : {A : Type ℓ} → String → Dict (List A) → Dict (List A)
with_key k d = if is_some (lookup k d) then d else insert k [] d

-- `tenant or "default"`
unfoldable pub or_default : String → String
or_default tenant = if str_eq tenant "" then "default" else tenant

-- `d.setdefault(k, set()).add(x)`, as the source writes it out
unfoldable pub add_to : String → String → Dict (List String) → Dict (List String)
unfolding add
add_to k x d = insert k (add x (get_list k d)) d

unfoldable pub subscribe : String → String → String → InProcessBroker → InProcessBroker
unfolding with_key or_default add_to
subscribe agent_id workflow_id tenant b =
    let b' = record b {
      queues = with_key agent_id b.queues;
      subscriptions = with_key agent_id b.subscriptions;
      agent_tenants = insert agent_id (or_default tenant) b.agent_tenants;
    } in
    if str_eq workflow_id "" then b' else record b' {
      subscriptions = add_to agent_id workflow_id b'.subscriptions;
      workflow_members = add_to workflow_id agent_id b'.workflow_members;
    }

-- One turn of the loop of `unsubscribe`.
unfoldable pub leave : String → String → Dict (List String) → Dict (List String)
unfolding discard
leave agent_id wf_id d =
    let members = discard agent_id (get_list wf_id d) in
    if length members == 0 then remove wf_id d else insert wf_id members d

unfoldable pub leave_all : String → List String → Dict (List String) → Dict (List String)
unfolding leave
leave_all agent_id [] d = d
leave_all agent_id (wf_id ∷ wf_ids) d = leave_all agent_id wf_ids (leave agent_id wf_id d)

unfoldable pub unsubscribe : String → InProcessBroker → InProcessBroker
unfolding leave_all
unsubscribe agent_id b = record b {
  workflow_members = leave_all agent_id (get_list agent_id b.subscriptions) b.workflow_members;
  subscriptions = remove agent_id b.subscriptions;
  queues = remove agent_id b.queues;
  callbacks = remove agent_id b.callbacks;
  agent_tenants = remove agent_id b.agent_tenants;
}

-- `self._agent_tenants.get(aid, "default")`
unfoldable pub tenant_of : String → InProcessBroker → String
tenant_of aid b = elim (lookup aid b.agent_tenants) [ none ↦ "default" | some t ↦ t ]

-- `[aid for aid in xs if aid != sender]`
unfoldable pub others : String → List String → List String
others sender xs = select (λ aid. not (str_eq aid sender)) xs

-- `[message.to_agent_id] if message.to_agent_id else []`
addressee : Option String → List String
addressee none = []
addressee (some id) = if str_eq id "" then [] else id ∷ []

unfoldable pub candidates : WorkflowMessage → InProcessBroker → List String
unfolding others addressee
candidates m b =
    if is_broadcast m
    then if not (str_eq m.workflow_id "")
      then others m.from_agent_id (get_list m.workflow_id b.workflow_members)
      else others m.from_agent_id (keys b.queues)
    else addressee m.to_agent_id

unfoldable pub resolve_targets : WorkflowMessage → InProcessBroker → List String
unfolding candidates tenant_of
resolve_targets m b = select (λ aid. str_eq (tenant_of aid b) m.tenant) (candidates m b)

-- The key `f"{message_id}:{agent_id}"`: message identifiers are hexadecimal and have no colon.
unfoldable pub same_key : String × String → String × String → Bool
same_key j k = str_eq j.0 k.0 && str_eq j.1 k.1

-- `self._pending_acks.pop(key, None)`; nothing reads the order of this dict.
unfoldable pub ack : String → String → InProcessBroker → InProcessBroker
ack agent_id message_id b = record b {
  pending_acks = select (λ e. not (same_key e.0 (message_id, agent_id))) b.pending_acks;
}

track : WorkflowMessage → String → InProcessBroker → InProcessBroker
unfolding ack
track m target_id b =
    let b' = ack target_id m.message_id b in
    if needs_ack m
    then record b' { pending_acks = b'.pending_acks ++ (((m.message_id, target_id), m) ∷ []) }
    else b

calls : WorkflowMessage → List String → List (String × WorkflowMessage)
calls m [] = []
calls m (cb ∷ cbs) = (cb, m) ∷ calls m cbs

-- `queue.put`, the tracking, and the callbacks, where the target has a queue.
pub enqueue :
    WorkflowMessage → String → Option (List WorkflowMessage) → InProcessBroker → InProcessBroker
unfolding track calls
enqueue m target_id none b = b
enqueue m target_id (some queue) b =
    let b' =
      track m target_id (record b { queues = insert target_id (queue ++ (m ∷ [])) b.queues }) in
    record b' { called = b'.called ++ calls m (get_list target_id b'.callbacks) }

-- One turn of the loop of `publish`.
unfoldable pub deliver : WorkflowMessage → String → InProcessBroker → InProcessBroker
unfolding enqueue
deliver m target_id b = enqueue m target_id (lookup target_id b.queues) b

unfoldable pub deliver_all : WorkflowMessage → List String → InProcessBroker → InProcessBroker
unfolding deliver
deliver_all m [] b = b
deliver_all m (target_id ∷ targets) b = deliver_all m targets (deliver m target_id b)

-- The acknowledgement that `publish` gives a task or a feedback; `fresh` is the drawn `uuid4().hex[:8]`.
unfoldable pub with_ack : String → WorkflowMessage → WorkflowMessage
with_ack fresh m =
    if writes_to_memory m.msg_type && not (needs_ack m) then record m { ack_id = fresh } else m

unfoldable pub publish : String → WorkflowMessage → InProcessBroker → InProcessBroker
unfolding with_ack resolve_targets deliver_all
publish fresh m b = let m' = with_ack fresh m in deliver_all m' (resolve_targets m' b) b

take_first :
    String
    → Option (List WorkflowMessage)
    → InProcessBroker
    → InProcessBroker × Option WorkflowMessage
unfolding ack
take_first agent_id none b = (b, none)
take_first agent_id (some []) b = (b, none)
take_first agent_id (some (m ∷ queue)) b =
    let b' = record b { queues = insert agent_id queue b.queues } in
    (if needs_ack m then ack agent_id m.message_id b' else b', some m)

unfoldable pub wait_for_message :
    String → InProcessBroker → InProcessBroker × Option WorkflowMessage
unfolding take_first
wait_for_message agent_id b = take_first agent_id (lookup agent_id b.queues) b

unfoldable pub pending_messages : String → InProcessBroker → InProcessBroker × List WorkflowMessage
pending_messages agent_id b = elim (lookup agent_id b.queues) [
  | none ↦ (b, [])
  | some queue ↦ (record b { queues = insert agent_id [] b.queues }, queue)
]

-- `workflow_name n` stands for `f"wf-{n:04d}"`.
unfoldable pub create_workflow : (ℕ → String) → InProcessBroker → InProcessBroker × String
create_workflow workflow_name b =
    let id = workflow_name (b.workflow_counter + 1) in
    (
      record b {
        workflow_counter = b.workflow_counter + 1;
        workflow_members = insert id [] b.workflow_members;
      },
      id,
    )

unfoldable pub on_message : String → String → InProcessBroker → InProcessBroker
on_message agent_id callback b = record b {
  callbacks = insert agent_id (get_list agent_id b.callbacks ++ (callback ∷ [])) b.callbacks;
}

unfoldable pub close : InProcessBroker → InProcessBroker
close b = record b {
  queues = [];
  subscriptions = [];
  workflow_members = [];
  agent_tenants = [];
  pending_acks = [];
  callbacks = [];
}

unfoldable pub get_workflow_members : String → InProcessBroker → List String
get_workflow_members workflow_id b = get_list workflow_id b.workflow_members

unfoldable pub get_pending_ack_count : InProcessBroker → ℕ
get_pending_ack_count b = length b.pending_acks
