-- ===== src/ToolContext/Recycling.antt =====
-- `recycle`: what one pass does to the counts, and that a second pass finds nothing.
use you_mi_agent.Prelude.{
  ℕ, ◌+◌, ◌≡◌, refl, Bool, false, Option, none, some, [], ◌∷◌, arith, count, length,
}
use you_mi_agent.Dict.{Dict, values, map_values}
use you_mi_agent.ToolContext.{
  Tier, is_hot, is_warm, is_cold, ContextEntry, ToolContext, tier_count, threshold_of, is_recycled,
  recycle_entry, recycled_names, recycle,
}

abbrev entries_at : (Tier → Bool) → Dict ContextEntry → ℕ
entries_at p d = count (λ e. p e.tier) (values d)

recycled_counts :
    (threshold turn : ℕ) (d : Dict ContextEntry)
    → let d' = map_values (recycle_entry threshold turn) d in
      let n = length (recycled_names threshold turn d) in
      (entries_at is_hot d' + n ≡ entries_at is_hot d)
      × (entries_at is_warm d' ≡ entries_at is_warm d + n)
      × (entries_at is_cold d' ≡ entries_at is_cold d)
unfolding recycle_entry recycled_names
recycled_counts threshold turn [] = (refl, refl, refl)
recycled_counts threshold turn ((name, e) ∷ d) = ground (arith, recycled_counts threshold turn d)

-- A pass of `recycle` moves as many tools from hot to warm as it reports, and leaves the cold ones.
pub recycle-counts :
    (c : ToolContext) (idle_threshold : Option ℕ)
    → let (c', names) = recycle c idle_threshold in
      (tier_count is_hot c' + length names ≡ tier_count is_hot c)
      × (tier_count is_warm c' ≡ tier_count is_warm c + length names)
      × (tier_count is_cold c' ≡ tier_count is_cold c)
unfolding recycle
recycle-counts c idle_threshold =
    recycled_counts (threshold_of c idle_threshold) c.current_turn c.contexts

recycle_entry_rest :
    (threshold turn : ℕ) (e : ContextEntry)
    → (is_recycled threshold turn (recycle_entry threshold turn e) ≡ false)
      × (recycle_entry threshold turn (recycle_entry threshold turn e)
          ≡ recycle_entry threshold turn e)
unfolding recycle_entry
recycle_entry_rest threshold turn e = ground arith

recycled_rest :
    (threshold turn : ℕ) (d : Dict ContextEntry)
    → let d' = map_values (recycle_entry threshold turn) d in
      (recycled_names threshold turn d' ≡ []) × (map_values (recycle_entry threshold turn) d' ≡ d')
unfolding recycled_names
recycled_rest threshold turn [] = (refl, refl)
recycled_rest threshold turn ((name, e) ∷ d) =
    ground (arith, recycle_entry_rest threshold turn e, recycled_rest threshold turn d)

-- A second pass with the same threshold, in the same turn, reports no tool and changes nothing.
pub recycle_again :
    (c : ToolContext) (idle_threshold : Option ℕ)
    → let (c', names) = recycle c idle_threshold in recycle c' idle_threshold ≡ (c', [])
unfolding recycle
recycle_again c none = ground (arith, recycled_rest (threshold_of c none) c.current_turn c.contexts)
recycle_again c (some n) = ground (arith, recycled_rest n c.current_turn c.contexts)
