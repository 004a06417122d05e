-- ===== src/ToolContext/Operations/Resets.antt =====
-- What `reset`, `register_tool` and `init_tools` do to one tool.
use you_mi_agent.Prelude.{
  String, ◌≡◌, refl, Bool, Option, some, List, [], ◌∷◌, arith, str_eq, eq_iff, ◌||◌, any,
  if◌then◌else◌, Bool-cases, inl, inr, ap,
}
use you_mi_agent.Dict.{Dict, lookup, insert, lookup-insert, lookup-map_values}
use you_mi_agent.ToolContext.{
  Tier, hot, cold, ContextEntry, new_entry, Vault, ToolContext, reset, reset_entry,
}
use you_mi_agent.ToolContext.Operations.{is_in, init_entries, hot_or_all, init_tools, register_tool}

pub lookup-reset :
    (c : ToolContext) (name : String) (e : ContextEntry)
    → lookup name c.contexts ≡ some e
    → lookup name (reset c).contexts ≡ some (reset_entry e)
unfolding reset
lookup-reset c name e h = ground (arith, h, lookup-map_values name reset_entry c.contexts)

pub lookup-register_tool :
    (c : ToolContext) (n name : String) (tier : Tier) (essential : Bool)
    → lookup name (register_tool n tier essential c).contexts
      ≡ (if str_eq n name then some (new_entry n tier essential) else lookup name c.contexts)
unfolding register_tool
lookup-register_tool c n name tier essential =
    lookup-insert n name (new_entry n tier essential) c.contexts

-- The entry that `init_tools` makes for a name of the vault.
abbrev pub initial_entry : List String → List String → String → ContextEntry
initial_entry essential hot_set name =
    new_entry name
      (if any (λ n. str_eq n name) hot_set || any (λ n. str_eq n name) essential then hot else cold)
      (any (λ n. str_eq n name) essential)

lookup-init_entries :
    (essential hot_set names : List String) (name : String) (d : Dict ContextEntry)
    → lookup name (init_entries essential hot_set names d) ≡ (
        if any (λ n. str_eq n name) names
        then some (initial_entry essential hot_set name)
        else lookup name d)
unfolding init_entries is_in
lookup-init_entries essential hot_set [] name d = refl
lookup-init_entries essential hot_set (n ∷ names) name d =
    let new = initial_entry essential hot_set n in
    let rest = lookup-init_entries essential hot_set names name (insert n new d) in
    elim (Bool-cases (str_eq n name)) [
      | inl this ↦
          let same : new ≡ initial_entry essential hot_set name =
            ap (initial_entry essential hot_set) ((eq_iff n name).0 this) in
          ground (arith, this, same, rest, lookup-insert n name new d)
      | inr other ↦ ground (arith, other, rest, lookup-insert n name new d)
    ]

pub lookup-init_tools :
    (v : Vault) (essential : List String) (hot_names : Option (List String)) (c : ToolContext)
    (name : String)
    → lookup name (init_tools v essential hot_names c).contexts ≡ (
        if any (λ n. str_eq n name) v.tool_names
        then some (initial_entry essential (hot_or_all v hot_names) name)
        else lookup name c.contexts)
unfolding init_tools
lookup-init_tools v essential hot_names c name =
    lookup-init_entries essential (hot_or_all v hot_names) v.tool_names name c.contexts
