-- ===== src/Hooks/Examples.antt =====
-- The theorems on hooks at three handlers of two plugins.
use you_mi_agent.Prelude.{String, ◌≡◌, List, [], ◌∷◌, select, map, str_eq, refl, if◌then◌else◌}
use you_mi_agent.Prelude.Int.{pos, negsuc}
use you_mi_agent.Hooks.{
  before_tool_call, after_tool_call, HookContext, HookEntry, HandlerEnd, returned, raised, modify,
  block, init, invoke, pass_through,
}
use you_mi_agent.Hooks.Chain.{IsChain, invoke-IsChain}
use you_mi_agent.Hooks.Sorting.{at, IsSorted}
use you_mi_agent.Hooks.Registrations.{Op, op_register, run, in_force, hooks-in_force}

abbrev calls : List Op
calls =
    op_register before_tool_call "log" (pos 5) "audit"
    ∷ op_register before_tool_call "guard" (negsuc 0) "safety"
    ∷ op_register before_tool_call "note" (pos 5) "audit"
    ∷ op_register after_tool_call "log" (pos 0) "audit"
    ∷ []

abbrev handler : HookEntry → HookContext String String → HandlerEnd String String
handler e c =
    if str_eq e.handler "log"
    then returned (record { decision = block; modified_data = []; reason = "no" }) c
    else if str_eq e.handler "guard"
    then returned (record { decision = modify; modified_data = ("k", "v") ∷ []; reason = "" }) c
    else raised c

abbrev context : HookContext String String
context = record { hook_type = before_tool_call; fields = ""; extra = [] }

-- "note" stands after "log", which blocks, and is not called.
called_handlers :
    map (λ p. p.0.handler) (invoke handler before_tool_call context (run calls init)).calls
    ≡ "guard" ∷ "log" ∷ []
unfolding invoke run init
called_handlers = refl

invoke-IsChain_example :
    IsChain handler
      ((run calls init).hooks before_tool_call)
      pass_through
      context
      (invoke handler before_tool_call context (run calls init))
invoke-IsChain_example = invoke-IsChain handler before_tool_call context (run calls init)

hooks-in_force_example :
    IsSorted ((run calls init).hooks before_tool_call)
    × (select (at (pos 5)) ((run calls init).hooks before_tool_call)
        ≡ select (at (pos 5)) (in_force before_tool_call calls []))
hooks-in_force_example = hooks-in_force calls before_tool_call (pos 5)
