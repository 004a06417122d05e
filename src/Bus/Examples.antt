-- ===== src/Bus/Examples.antt =====
-- The theorems on the broker at three agents of two tenants.
use you_mi_agent.Prelude.{◌≡◌, refl, false, none, some, List, [], ◌∷◌}
use you_mi_agent.Dict.{lookup}
use you_mi_agent.Bus.{WorkflowMessage, task, is_broadcast, needs_ack, writes_to_memory}
use you_mi_agent.Bus.Broker.{
  InProcessBroker, init, is_in, unsubscribe, publish, with_ack, resolve_targets,
  get_workflow_members,
}
use you_mi_agent.Bus.Broker.Delivery.{extended, times, lookup-publish, publish-other_tenant}
use you_mi_agent.Bus.Broker.Histories.{Op, op_subscribe, run, unsubscribe_leaves}

abbrev subscriptions : List Op
subscriptions =
    op_subscribe "master" "wf" "acme"
    ∷ op_subscribe "coder" "wf" "acme"
    ∷ op_subscribe "spy" "wf" "other"
    ∷ []

abbrev office : InProcessBroker
office = run subscriptions init

abbrev announcement : WorkflowMessage
announcement = record {
  message_id = "m1";
  workflow_id = "wf";
  from_agent_id = "master";
  to_agent_id = none;
  msg_type = task;
  content = "build";
  tenant = "acme";
  ack_id = "";
}

abbrev announced : InProcessBroker
announced = publish "a1" announcement office

abbrev with_a1 : WorkflowMessage
with_a1 = record announcement { ack_id = "a1" }

announced_to_coder :
    (resolve_targets with_a1 office ≡ "coder" ∷ [])
    × (lookup "coder" announced.queues ≡ some (with_a1 ∷ []))
unfolding publish run is_broadcast init writes_to_memory needs_ack
announced_to_coder = (refl, refl)

lookup-publish_example :
    lookup "coder" announced.queues
    ≡ extended
        (times "coder" (resolve_targets (with_ack "a1" announcement) office))
        (with_ack "a1" announcement)
        (lookup "coder" office.queues)
lookup-publish_example = lookup-publish "coder" "a1" announcement office

publish-other_tenant_example : lookup "spy" announced.queues ≡ lookup "spy" office.queues
unfolding run init
publish-other_tenant_example = publish-other_tenant "spy" "a1" announcement office refl

unsubscribe_leaves_example :
    is_in "coder" (get_workflow_members "wf" (unsubscribe "coder" (run subscriptions init))) ≡ false
unsubscribe_leaves_example = unsubscribe_leaves subscriptions "coder" "wf"
