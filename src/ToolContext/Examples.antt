-- ===== src/ToolContext/Examples.antt =====
-- The theorems on the tool context at a small vault.
use you_mi_agent.Prelude.{◌+◌, ◌<◌, arith, ◌≡◌, refl, true, false, some, none, List, [], ◌∷◌}
use you_mi_agent.ToolContext.{
  is_hot, tier_count, hot, cold, new_entry, ToolEntry, Vault, ToolContext, recycle,
}
use you_mi_agent.ToolContext.Operations.Histories.{
  Op, op_promote, op_demote, op_recycle, op_use, op_advance, op_reset, op_register, op_init, step,
  run, renews,
}
use you_mi_agent.ToolContext.Operations.Steps.{may_step, EntryWithin, step-EntryWithin}
use you_mi_agent.ToolContext.Operations.Essentials.{unloads, IsPinned, essential_stays_hot}
use you_mi_agent.ToolContext.Operations.{promote}
use you_mi_agent.ToolContext.Operations.Limits.{
  recycled_first, hot_count-promote, promote_passes_limit,
}

abbrev entry : ToolEntry
entry = record { schema = "{}"; summary = "s"; description = "d" }

abbrev vault : Vault
vault = record { tool_names = "read" ∷ "grep" ∷ []; get_entry = λ n. some entry }

-- `read` is essential, `grep` is hot and was never used, `web` is cold.
abbrev context : ToolContext
context = record {
  agent_id = "a";
  max_hot_tools = 2;
  recycle_after_turns = 3;
  contexts =
      ("read", new_entry "read" hot true)
      ∷ ("grep", new_entry "grep" hot false)
      ∷ ("web", new_entry "web" cold false)
      ∷ [];
  current_turn = 4;
}

-- The same in turn 0, in which nothing is idle for a turn.
abbrev fresh : ToolContext
fresh = record context { current_turn = 0 }

abbrev work : List Op
work =
    op_demote "read"
    ∷ op_promote "web"
    ∷ op_advance
    ∷ op_recycle none
    ∷ op_use "web" none
    ∷ op_register "web" cold false
    ∷ op_reset
    ∷ op_init ("read" ∷ []) (some [])
    ∷ []

recycle_grep : (recycle context none).1 ≡ "grep" ∷ []
unfolding recycle
recycle_grep = refl

step-EntryWithin_example :
    EntryWithin
      (may_step "grep" op_reset)
      "grep"
      (new_entry "grep" hot false)
      (step vault context op_reset).contexts
unfolding renews
step-EntryWithin_example =
    step-EntryWithin vault context op_reset "grep" (new_entry "grep" hot false) refl refl

essential_stays_hot_example : IsPinned "read" (run vault context work)
unfolding unloads
essential_stays_hot_example =
    essential_stays_hot vault context work "read" (new_entry "read" hot true, refl, refl, refl) refl

hot_count-promote_example :
    tier_count is_hot (promote vault "web" context).0 + recycled_first context
    ≡ tier_count is_hot context + 1
hot_count-promote_example =
    hot_count-promote vault context "web" entry (new_entry "web" cold false) refl refl refl

promote_passes_limit_example : fresh.max_hot_tools < tier_count is_hot (promote vault "web" fresh).0
unfolding recycle
promote_passes_limit_example =
    promote_passes_limit vault fresh "web" entry (new_entry "web" cold false) refl refl refl
      (omega arith) refl
