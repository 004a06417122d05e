-- ===== src/ToolContext/Operations/Histories.antt =====
-- The calls of the context's methods, one after the other.
use you_mi_agent.Prelude.{ℕ, String, Bool, false, Option, List, [], ◌∷◌, str_eq, any}
use you_mi_agent.Prelude.Int.{ℤ}
use you_mi_agent.ToolContext.{Tier, Vault, ToolContext, recycle, reset}
use you_mi_agent.ToolContext.Operations.{
  promote, demote, record_usage, advance_turn, init_tools, register_tool,
}

pub data Op : Type 0 where
  op_promote op_demote : String → Op
  op_recycle : Option ℕ → Op
  op_use : String → Option ℤ → Op
  op_advance op_reset : Op
  op_register : String → Tier → Bool → Op
  op_init : List String → Option (List String) → Op

unfoldable pub step : Vault → ToolContext → Op → ToolContext
step v c (op_promote n) = (promote v n c).0
step v c (op_demote n) = (demote n c).0
step v c (op_recycle t) = (recycle c t).0
step v c (op_use n turn) = record_usage n turn c
step v c op_advance = (advance_turn c).0
step v c op_reset = reset c
step v c (op_register n tier essential) = register_tool n tier essential c
step v c (op_init essential hot_names) = init_tools v essential hot_names c

unfoldable pub run : Vault → ToolContext → List Op → ToolContext
run v c [] = c
run v c (op ∷ ops) = run v (step v c op) ops

-- A call that makes a new entry for the tool.
unfoldable pub renews : Vault → String → Op → Bool
renews v name (op_register n tier essential) = str_eq n name
renews v name (op_init essential hot_names) = any (λ n. str_eq n name) v.tool_names
renews v name _ = false
