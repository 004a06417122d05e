-- ===== src/Gateway/Events/Examples.antt =====
-- The theorem on streams at two tasks and two subscribers.
use you_mi_agent.Prelude.{◌≡◌, refl, String, some, none, List, [], ◌∷◌}
use you_mi_agent.Gateway.Events.{init, is_in, subscribe}
use you_mi_agent.Gateway.Events.Histories.{
  Op, op_publish, op_close, op_subscribe, op_remove, run, removes, received,
}
use you_mi_agent.Gateway.Events.Streams.{subscriber-received}

abbrev past : List (Op String)
past = op_subscribe "t1" ∷ op_publish "t1" "early" ∷ op_close "t2" ∷ []

abbrev calls : List (Op String)
calls =
    op_publish "t1" "running"
    ∷ op_publish "t3" "other"
    ∷ op_remove "t1" 0
    ∷ op_publish "t1" "completed"
    ∷ op_close "t1"
    ∷ op_publish "t1" "late"
    ∷ []

received_here : received "t1" calls ≡ some "running" ∷ some "completed" ∷ none ∷ []
unfolding received
received_here = refl

subscriber-received_example :
    ((subscribe "t1" (run past init)).1 ≡ some (run past init).next)
    × ((run calls (subscribe "t1" (run past init)).0).queues (run past init).next
        ≡ received "t1" calls)
unfolding run init is_in removes
subscriber-received_example = subscriber-received past calls "t1" refl refl
