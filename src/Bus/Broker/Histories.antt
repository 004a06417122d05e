-- ===== src/Bus/Broker/Histories.antt =====
-- Histories of the broker: the calls of its methods, one after the other.
use you_mi_agent.Prelude.{
  ℕ, String, ◌≡◌, refl, ◌∙◌, sym, subst, true, false, Option, none, some, List, [], ◌∷◌, arith,
  eq_refl,
}
use you_mi_agent.Dict.{Dict, lookup}
use you_mi_agent.Bus.{WorkflowMessage}
use you_mi_agent.Bus.Broker.{
  InProcessBroker, init, is_in, get_list, subscribe, unsubscribe, ack, track, enqueue, deliver,
  deliver_all, publish, take_first, wait_for_message, pending_messages, create_workflow, on_message,
  close, get_workflow_members, with_ack, resolve_targets,
}
use you_mi_agent.Bus.Broker.Members.{
  IsLinked, subscribe-IsLinked, unsubscribe-IsLinked, create-IsLinked, is_in-leave_all,
}

pub data Op : Type 0 where
  op_subscribe : String → String → String → Op
  op_unsubscribe : String → Op
  op_publish : String → WorkflowMessage → Op
  op_wait : String → Op
  op_pending : String → Op
  op_ack : String → String → Op
  op_create : (ℕ → String) → Op
  op_on_message : String → String → Op
  op_close : Op

unfoldable pub step : Op → InProcessBroker → InProcessBroker
unfolding subscribe unsubscribe publish wait_for_message pending_messages ack create_workflow
    on_message close
step (op_subscribe a wf t) b = subscribe a wf t b
step (op_unsubscribe a) b = unsubscribe a b
step (op_publish fresh m) b = publish fresh m b
step (op_wait a) b = (wait_for_message a b).0
step (op_pending a) b = (pending_messages a b).0
step (op_ack a id) b = ack a id b
step (op_create name) b = (create_workflow name b).0
step (op_on_message a cb) b = on_message a cb b
step op_close b = close b

unfoldable pub run : List Op → InProcessBroker → InProcessBroker
unfolding step
run [] b = b
run (o ∷ os) b = run os (step o b)

-- The two tables that say who is a member of what.
abbrev tables : InProcessBroker → Dict (List String) × Dict (List String)
tables b = (b.workflow_members, b.subscriptions)

IsLinked-tables : (b b' : InProcessBroker) → tables b' ≡ tables b → IsLinked b → IsLinked b'
IsLinked-tables b b' e h a wf m =
    subst (λ (t : Dict (List String) × Dict (List String)). is_in wf (get_list a t.1) ≡ true)
      (sym e)
      (h a wf (
        subst (λ (t : Dict (List String) × Dict (List String)). is_in a (get_list wf t.0) ≡ true) e
          m))

tables-enqueue :
    (m : WorkflowMessage) (t : String) (o : Option (List WorkflowMessage)) (b : InProcessBroker)
    → tables (enqueue m t o b) ≡ tables b
unfolding enqueue track ack
tables-enqueue m t none b = refl
tables-enqueue m t (some q) b = ground arith

tables-deliver_all :
    (m : WorkflowMessage) (ts : List String) (b : InProcessBroker)
    → tables (deliver_all m ts b) ≡ tables b
unfolding deliver_all deliver
tables-deliver_all m [] b = refl
tables-deliver_all m (t ∷ ts) b =
    tables-deliver_all m ts (deliver m t b) ∙ tables-enqueue m t (lookup t b.queues) b

tables-take_first :
    (a : String) (o : Option (List WorkflowMessage)) (b : InProcessBroker)
    → tables (take_first a o b).0 ≡ tables b
unfolding take_first ack
tables-take_first a none b = refl
tables-take_first a (some []) b = refl
tables-take_first a (some (m ∷ q)) b = ground arith

tables-pending_messages :
    (a : String) (b : InProcessBroker) → tables (pending_messages a b).0 ≡ tables b
unfolding pending_messages
tables-pending_messages a b = ground arith

step-IsLinked : (o : Op) (b : InProcessBroker) → IsLinked b → IsLinked (step o b)
unfolding step publish wait_for_message on_message close ack
step-IsLinked (op_subscribe a wf t) b h = subscribe-IsLinked a wf t b h
step-IsLinked (op_unsubscribe a) b h = unsubscribe-IsLinked a b h
step-IsLinked (op_publish fresh m) b h =
    let m' = with_ack fresh m in
    IsLinked-tables b (deliver_all m' (resolve_targets m' b) b)
      (tables-deliver_all m' (resolve_targets m' b) b) h
step-IsLinked (op_wait a) b h =
    IsLinked-tables b (take_first a (lookup a b.queues) b).0
      (tables-take_first a (lookup a b.queues) b) h
step-IsLinked (op_pending a) b h =
    IsLinked-tables b (pending_messages a b).0 (tables-pending_messages a b) h
step-IsLinked (op_ack a id) b h = h
step-IsLinked (op_create name) b h = create-IsLinked name b h
step-IsLinked (op_on_message a cb) b h = h
step-IsLinked op_close b h = λ a wf m. absurd (ground arith)

run-IsLinked : (os : List Op) (b : InProcessBroker) → IsLinked b → IsLinked (run os b)
unfolding run
run-IsLinked [] b h = h
run-IsLinked (o ∷ os) b h = run-IsLinked os (step o b) (step-IsLinked o b h)

init-IsLinked : IsLinked init
unfolding init
init-IsLinked a wf m = absurd (ground arith)

-- After any history of the broker, an agent that unsubscribes is in no workflow.
pub unsubscribe_leaves :
    (os : List Op) (a wf : String)
    → is_in a (get_workflow_members wf (unsubscribe a (run os init))) ≡ false
unfolding get_workflow_members unsubscribe
unsubscribe_leaves os a wf =
    let b = run os init in
    ground (
      arith,
      run-IsLinked os init init-IsLinked a wf,
      is_in-leave_all a wf a (get_list a b.subscriptions) b.workflow_members,
      eq_refl a,
    )
