-- ===== src/ToolContext.antt =====
-- youmi/mcp/context.py: `AgentToolContext`, the tools that one agent has at hand, and how near.
--
-- The vault (youmi/mcp/vault.py) is used through `tool_names` and `get_entry`. Turns and thresholds
-- that the class itself sets are natural numbers; the turn of a last use is any `int`, -1 for never.
-- Log lines and `__repr__` are left out.
pub mod Operations
pub mod Recycling
mod Examples
use you_mi_agent.Prelude.{
  ℕ, suc, ◌+◌, String, Bool, true, false, not, ◌&&◌, ◌||◌, Option, none, some, List, [], ◌∷◌, leb,
  if◌then◌else◌, count, any, str_eq,
}
use you_mi_agent.Prelude.Int.{ℤ, pos, negsuc}
use you_mi_agent.Dict.{Dict, values, map_values}

-- `ToolContextTier` of youmi/mcp/models.py
pub data Tier : Type 0 where
  hot warm cold : Tier

abbrev pub is_hot : Tier → Bool
is_hot hot = true
is_hot _ = false

abbrev pub is_warm : Tier → Bool
is_warm warm = true
is_warm _ = false

abbrev pub is_cold : Tier → Bool
is_cold cold = true
is_cold _ = false

-- `_ContextEntry`
pub record ContextEntry : Type 0 where
  pub tool_name : String
  pub tier : Tier
  pub last_used_turn : ℤ
  pub use_count : ℕ
  pub essential : Bool

-- `_ContextEntry(tool_name=name, tier=tier, essential=essential)`
abbrev pub new_entry : String → Tier → Bool → ContextEntry
new_entry name tier essential = record {
  tool_name = name;
  tier = tier;
  last_used_turn = negsuc 0;
  use_count = 0;
  essential = essential;
}

-- What the context reads of a vault entry.
pub record ToolEntry : Type 0 where
  pub schema : String
  pub summary : String
  pub description : String

pub record Vault : Type 0 where
  pub tool_names : List String
  pub get_entry : String → Option ToolEntry

pub record ToolContext : Type 0 where
  pub agent_id : String
  pub max_hot_tools : ℕ
  pub recycle_after_turns : ℕ
  pub contexts : Dict ContextEntry
  pub current_turn : ℕ

-- `AgentToolContext(agent_id, vault, max_hot_tools, recycle_after_turns)`
unfoldable pub new : String → ℕ → ℕ → ToolContext
new agent_id max_hot recycle_after = record {
  agent_id = agent_id;
  max_hot_tools = max_hot;
  recycle_after_turns = recycle_after;
  contexts = [];
  current_turn = 0;
}

abbrev pub tier_count : (Tier → Bool) → ToolContext → ℕ
tier_count p c = count (λ e. p e.tier) (values c.contexts)

-- The test that `recycle` makes of one entry.
unfoldable pub idle : ℕ → ℕ → ℤ → Bool
idle threshold turn (negsuc n) = leb threshold turn
idle threshold turn (pos last) = leb (last + threshold) turn

unfoldable pub is_recycled : ℕ → ℕ → ContextEntry → Bool
unfolding idle
is_recycled threshold turn e =
    is_hot e.tier && (not e.essential && idle threshold turn e.last_used_turn)

unfoldable pub recycle_entry : ℕ → ℕ → ContextEntry → ContextEntry
unfolding is_recycled
recycle_entry threshold turn e =
    if is_recycled threshold turn e then record e { tier = warm } else e

-- The names that one pass of `recycle` reports, in the order of the dict.
unfoldable pub recycled_names : ℕ → ℕ → Dict ContextEntry → List String
unfolding is_recycled
recycled_names threshold turn [] = []
recycled_names threshold turn ((name, e) ∷ d) =
    let rest = recycled_names threshold turn d in
    if is_recycled threshold turn e then name ∷ rest else rest

-- `idle_threshold if idle_threshold is not None else self._recycle_after_turns`
abbrev pub threshold_of : ToolContext → Option ℕ → ℕ
threshold_of c none = c.recycle_after_turns
threshold_of c (some n) = n

unfoldable pub recycle : ToolContext → Option ℕ → ToolContext × List String
unfolding recycle_entry recycled_names
recycle c idle_threshold =
    let threshold = threshold_of c idle_threshold in
    (
      record c { contexts = map_values (recycle_entry threshold c.current_turn) c.contexts },
      recycled_names threshold c.current_turn c.contexts,
    )

unfoldable pub reset_entry : ContextEntry → ContextEntry
reset_entry e =
    if e.essential
    then record e { tier = hot }
    else record e { tier = cold; last_used_turn = negsuc 0; use_count = 0 }

unfoldable pub reset : ToolContext → ToolContext
unfolding reset_entry
reset c = record c { contexts = map_values reset_entry c.contexts; current_turn = 0 }
