-- ===== src/Gateway/Pool/Histories.antt =====
-- Calls of the queue and turns of the workers in any order; a call that waits is no step yet.
use you_mi_agent.Prelude.{ℕ, String, Option, none, some, List, [], ◌∷◌}
use you_mi_agent.Gateway.{TaskRecord}
use you_mi_agent.Gateway.Pool.{Pool, put, start, get, end_task, stop}

pub data Op : Type 0 where
  op_put : TaskRecord → Op
  op_start : (ℕ → String) → ℕ → Op
  op_get op_end : String → Op
  op_stop : Op

unfoldable pub step : Op → Pool → Option Pool
unfolding put start get end_task stop
step (op_put r) p = put r p
step (op_start name size) p = some (start name size p)
step (op_get w) p = get w p
step (op_end w) p = end_task w p
step op_stop p = some (stop p)

unfoldable pub run : List Op → Pool → Option Pool
unfolding step
run [] p = some p
run (op ∷ ops) p = elim (step op p) [ none ↦ none | some q ↦ run ops q ]

-- The records of the calls of `put`, in order.
unfoldable pub submitted : List Op → List TaskRecord
submitted [] = []
submitted (op_put r ∷ ops) = r ∷ submitted ops
submitted (op_start name size ∷ ops) = submitted ops
submitted (op_get w ∷ ops) = submitted ops
submitted (op_end w ∷ ops) = submitted ops
submitted (op_stop ∷ ops) = submitted ops
