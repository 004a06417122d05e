-- ===== src/ToolContext/Operations/Essentials.antt =====
-- Essential tools over the calls.
use you_mi_agent.Prelude.{
  String, ◌≡◌, Bool, true, false, not, ◌&&◌, some, List, [], ◌∷◌, arith, ◌∙◌, subst, false≢true,
  str_eq, any, Bool-cases, inl, inr,
}
use you_mi_agent.Dict.{lookup}
use you_mi_agent.ToolContext.{Tier, hot, is_hot, ContextEntry, new_entry, Vault, ToolContext}
use you_mi_agent.ToolContext.Operations.{hot_or_all}
use you_mi_agent.ToolContext.Operations.Resets.{
  lookup-register_tool, lookup-init_tools, initial_entry,
}
use you_mi_agent.ToolContext.Operations.Histories.{
  Op, op_promote, op_demote, op_reset, op_register, op_init, step, run, renews,
}
use you_mi_agent.ToolContext.Operations.Steps.{may_step, step-EntryWithin}

-- A call that makes a new entry for the tool that is not both essential and hot.
unfoldable pub unloads : Vault → String → Op → Bool
unloads v name (op_register n tier essential) = str_eq n name && not (essential && is_hot tier)
unloads v name (op_init essential hot_names) =
    any (λ n. str_eq n name) v.tool_names && not (any (λ n. str_eq n name) essential)
unloads v name _ = false

abbrev pub IsPinned : String → ToolContext → Type 0
IsPinned name c =
    (e : ContextEntry) × (lookup name c.contexts ≡ some e) × (e.essential ≡ true) × (e.tier ≡ hot)

hot_stays : (name : String) (op : Op) (t : Tier) → may_step name op true hot t ≡ true → t ≡ hot
unfolding may_step
hot_stays name op_reset t h = ground arith
hot_stays name (op_promote n) t h = elim (Bool-cases (str_eq n name)) [
  | inl this ↦ ground (arith, this, h)
  | inr other ↦ ground (arith, other, h)
]
hot_stays name (op_demote n) t h = elim (Bool-cases (str_eq n name)) [
  | inl this ↦ ground (arith, this, h)
  | inr other ↦ ground (arith, other, h)
]
hot_stays name _ t h = ground arith

kept-IsPinned :
    (v : Vault) (c : ToolContext) (op : Op) (name : String)
    → renews v name op ≡ false
    → IsPinned name c
    → IsPinned name (step v c op)
kept-IsPinned v c op name k (e, h, essential, t) =
    let (e', h', same, moved) = step-EntryWithin v c op name e h k in
    (
      e',
      h',
      same ∙ essential,
      hot_stays name op e'.tier (
          subst (λ b. may_step name op b hot e'.tier ≡ true) essential
            (subst (λ x. may_step name op e.essential x e'.tier ≡ true) t moved)),
    )

renewed-IsPinned :
    (v : Vault) (c : ToolContext) (op : Op) (name : String)
    → renews v name op ≡ true
    → unloads v name op ≡ false
    → IsPinned name (step v c op)
unfolding renews unloads step
renewed-IsPinned v c (op_register n tier essential) name r u = (
  new_entry n tier essential,
  ground (arith, r, lookup-register_tool c n name tier essential),
  ground (arith, r, u),
  ground (arith, r, u),
)
renewed-IsPinned v c (op_init essential hot_names) name r u = (
  initial_entry essential (hot_or_all v hot_names) name,
  ground (arith, r, lookup-init_tools v essential hot_names c name),
  ground (arith, r, u),
  ground (arith, r, u),
)
renewed-IsPinned v c _ name r u = absurd (false≢true r)

-- A tool that is essential and hot is so after any sequence of calls, if none makes a new entry for
-- it: `register_tool` of its name as not essential or not hot, or `init_tools` with it in the vault
-- and not among the essential names.
pub essential_stays_hot :
    (v : Vault) (c : ToolContext) (ops : List Op) (name : String)
    → IsPinned name c
    → any (unloads v name) ops ≡ false
    → IsPinned name (run v c ops)
unfolding run
essential_stays_hot v c [] name s u = s
essential_stays_hot v c (op ∷ ops) name s u =
    let next : IsPinned name (step v c op) = elim (Bool-cases (renews v name op)) [
      | inl new ↦ renewed-IsPinned v c op name new (ground (arith, u))
      | inr old ↦ kept-IsPinned v c op name old s
    ] in
    essential_stays_hot v (step v c op) ops name next (ground (arith, u))
