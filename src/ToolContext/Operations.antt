-- ===== src/ToolContext/Operations.antt =====
-- youmi/mcp/context.py: the operations on single tools, and the views of the context.
pub mod Moves
pub mod Histories
pub mod Essentials
pub mod Limits
pub mod Lookups
pub mod Resets
pub mod Steps
use you_mi_agent.Prelude.{
  ℕ, ◌+◌, String, Bool, true, false, not, ◌||◌, Option, none, some, List, [], ◌∷◌, leb,
  if◌then◌else◌, any, str_eq,
}
use you_mi_agent.Prelude.Int.{ℤ, pos}
use you_mi_agent.Dict.{Dict, lookup, insert, modify}
use you_mi_agent.ToolContext.{
  Tier, hot, warm, cold, is_hot, ContextEntry, new_entry, ToolEntry, Vault, ToolContext, tier_count,
  recycle,
}

is_in : String → List String → Bool
is_in name names = any (λ n. str_eq n name) names

-- The loop of `init_tools` over the names of the vault.
init_entries : List String → List String → List String → Dict ContextEntry → Dict ContextEntry
unfolding is_in
init_entries essential hot_set [] d = d
init_entries essential hot_set (name ∷ names) d =
    let is_essential = is_in name essential in
    let tier = if is_in name hot_set || is_essential then hot else cold in
    init_entries essential hot_set names (insert name (new_entry name tier is_essential) d)

-- `hot_names if hot_names is not None else set(self._vault.tool_names)`
pub hot_or_all : Vault → Option (List String) → List String
hot_or_all v none = v.tool_names
hot_or_all v (some names) = names

-- `init_tools`; an absent set of essential names is the empty one.
unfoldable pub init_tools : Vault → List String → Option (List String) → ToolContext → ToolContext
unfolding init_entries hot_or_all
init_tools v essential hot_names c = record c {
  contexts = init_entries essential (hot_or_all v hot_names) v.tool_names c.contexts;
}

unfoldable pub register_tool : String → Tier → Bool → ToolContext → ToolContext
register_tool name tier essential c = record c {
  contexts = insert name (new_entry name tier essential) c.contexts;
}

tier_or_cold : Option ContextEntry → Tier
tier_or_cold none = cold
tier_or_cold (some e) = e.tier

unfoldable pub get_tier : String → ToolContext → Tier
unfolding tier_or_cold
get_tier name c = tier_or_cold (lookup name c.contexts)

-- `promote`, once the entry of the tool is in the context.
promote_entry : String → ContextEntry → ToolContext → ToolContext × Bool
promote_entry name e c =
    if is_hot e.tier
    then (c, true)
    else let c' = if leb c.max_hot_tools (tier_count is_hot c) then (recycle c (some 1)).0 else c in
      (record c' { contexts = modify name (λ e. record e { tier = hot }) c'.contexts }, true)

promote_found : String → Option ContextEntry → ToolContext → ToolContext × Bool
unfolding promote_entry
promote_found name none c =
    let e = new_entry name cold false in
    promote_entry name e (record c { contexts = insert name e c.contexts })
promote_found name (some e) c = promote_entry name e c

promote_known : Option ToolEntry → String → ToolContext → ToolContext × Bool
unfolding promote_found
promote_known none name c = (c, false)
promote_known (some entry) name c = promote_found name (lookup name c.contexts) c

unfoldable pub promote : Vault → String → ToolContext → ToolContext × Bool
unfolding promote_known
promote v name c = promote_known (v.get_entry name) name c

demote_found : String → Option ContextEntry → ToolContext → ToolContext × Bool
demote_found name none c = (c, false)
demote_found name (some e) c =
    if not (is_hot e.tier) || e.essential
    then (c, false)
    else (record c { contexts = modify name (λ e. record e { tier = warm }) c.contexts }, true)

unfoldable pub demote : String → ToolContext → ToolContext × Bool
unfolding demote_found
demote name c = demote_found name (lookup name c.contexts) c

-- `turn if turn is not None else self._current_turn`
pub turn_or_current : ToolContext → Option ℤ → ℤ
turn_or_current c none = pos c.current_turn
turn_or_current c (some t) = t

-- A name that the context does not hold is passed over.
unfoldable pub record_usage : String → Option ℤ → ToolContext → ToolContext
unfolding turn_or_current
record_usage name turn c = record c {
  contexts =
      modify name
        (λ e. record e { last_used_turn = turn_or_current c turn; use_count = e.use_count + 1 })
        c.contexts;
}

unfoldable pub advance_turn : ToolContext → ToolContext × ℕ
advance_turn c = (record c { current_turn = c.current_turn + 1 }, c.current_turn + 1)

names_at : (Tier → Bool) → Dict ContextEntry → List String
names_at p [] = []
names_at p ((name, e) ∷ d) = let rest = names_at p d in if p e.tier then name ∷ rest else rest

-- `get_hot_tool_names`, `get_warm_tool_names` and `get_cold_tool_names`, by the test of the tier
unfoldable pub get_tool_names : (Tier → Bool) → ToolContext → List String
unfolding names_at
get_tool_names p c = names_at p c.contexts

onto_schemas : Option ToolEntry → List String → List String
onto_schemas none rest = rest
onto_schemas (some entry) rest = entry.schema ∷ rest

schemas_of : Vault → List String → List String
unfolding onto_schemas
schemas_of v [] = []
schemas_of v (name ∷ names) = onto_schemas (v.get_entry name) (schemas_of v names)

-- `to_openai_tools`
unfoldable pub to_openai_tools : Vault → ToolContext → List String
unfolding schemas_of names_at
to_openai_tools v c = schemas_of v (names_at is_hot c.contexts)
