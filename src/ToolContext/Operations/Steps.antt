-- ===== src/ToolContext/Operations/Steps.antt =====
-- What one call does to the entry of a tool.
use you_mi_agent.Prelude.{
  sym, eq_iff, ℕ, String, ◌≡◌, Bool, true, false, refl, not, some, arith, subst, str_eq,
  if◌then◌else◌, Option-cases, Bool-cases, inl, inr,
}
use you_mi_agent.Prelude.Int.{ℤ}
use you_mi_agent.Dict.{Dict, lookup}
use you_mi_agent.ToolContext.{
  Tier, hot, is_hot, is_cold, ContextEntry, Vault, ToolContext, recycle_entry, is_recycled,
  threshold_of, warm, cold, reset, reset_entry,
}
use you_mi_agent.ToolContext.Operations.{
  promote, advance_turn, turn_or_current, get_tier, tier_or_cold, init_tools, register_tool,
}
use you_mi_agent.ToolContext.Operations.Moves.{lookup-recycle, promote-EntryMoved}
use you_mi_agent.ToolContext.Operations.Resets.{
  lookup-reset, lookup-register_tool, lookup-init_tools,
}
use you_mi_agent.ToolContext.Operations.Limits.{promote-hot}
use you_mi_agent.ToolContext.Operations.Lookups.{
  demoted, used, lookup-demote, lookup-record_usage, RecycledOrSame, promote_other, promote_unknown,
}
use you_mi_agent.ToolContext.Operations.Histories.{
  Op, op_promote, op_demote, op_recycle, op_use, op_advance, op_reset, op_register, op_init, step,
  renews,
}

-- No move.
abbrev pub same_tier : Bool → Tier → Tier → Bool
same_tier essential hot hot = true
same_tier essential warm warm = true
same_tier essential cold cold = true
same_tier essential _ _ = false

-- HOT → WARM, if the tool is not essential.
abbrev pub may_unload : Bool → Tier → Tier → Bool
may_unload essential hot warm = not essential
may_unload essential t t' = same_tier essential t t'

-- COLD → HOT and WARM → HOT.
abbrev pub may_load : Bool → Tier → Tier → Bool
may_load essential t hot = true
may_load essential t t' = same_tier essential t t'

abbrev pub resets_to : Bool → Tier → Tier → Bool
resets_to essential t t' = if essential then is_hot t' else is_cold t'

-- The moves that a call may make of this tool.
unfoldable pub may_step : String → Op → Bool → Tier → Tier → Bool
may_step name op_reset = resets_to
may_step name (op_promote n) = if str_eq n name then may_load else may_unload
may_step name (op_demote n) = if str_eq n name then may_unload else same_tier
may_step name (op_recycle t) = may_unload
may_step name _ = same_tier

-- The entry of a tool is one that such moves make of `e`, with the mark of `e`.
abbrev pub EntryWithin :
    (Bool → Tier → Tier → Bool) → String → ContextEntry → Dict ContextEntry → Type 0
EntryWithin moves name e d =
    (e' : ContextEntry) × (lookup name d ≡ some e')
    × (e'.essential ≡ e.essential)
    × (moves e.essential e.tier e'.tier ≡ true)

unmoved_same : (essential : Bool) (t : Tier) → same_tier essential t t ≡ true
unmoved_same essential hot = refl
unmoved_same essential warm = refl
unmoved_same essential cold = refl

unmoved_within :
    (name : String) (e : ContextEntry) (d : Dict ContextEntry)
    → lookup name d ≡ some e
    → EntryWithin same_tier name e d
unmoved_within name e d h = (e, h, refl, unmoved_same e.essential e.tier)

recycled_within :
    (threshold turn : ℕ) (name : String) (e : ContextEntry) (d : Dict ContextEntry)
    → lookup name d ≡ some (recycle_entry threshold turn e)
    → EntryWithin may_unload name e d
unfolding recycle_entry is_recycled
recycled_within threshold turn name e d h =
    (recycle_entry threshold turn e, h, ground arith, ground arith)

unmoved_unload : (essential : Bool) (t : Tier) → may_unload essential t t ≡ true
unmoved_unload essential hot = refl
unmoved_unload essential warm = refl
unmoved_unload essential cold = refl

unmoved_load : (essential : Bool) (t : Tier) → may_load essential t t ≡ true
unmoved_load essential hot = refl
unmoved_load essential warm = refl
unmoved_load essential cold = refl

demoted_within :
    (this : Bool) (name : String) (e : ContextEntry) (d : Dict ContextEntry)
    → lookup name d ≡ some (demoted this e)
    → EntryWithin (if this then may_unload else same_tier) name e d
demoted_within true name e d h = (demoted true e, h, ground arith, ground arith)
demoted_within false name e d h = unmoved_within name e d h

used_within :
    (this : Bool) (turn : ℤ) (name : String) (e : ContextEntry) (d : Dict ContextEntry)
    → lookup name d ≡ some (used this turn e)
    → EntryWithin same_tier name e d
used_within true turn name e d h = (used true turn e, h, refl, unmoved_same e.essential e.tier)
used_within false turn name e d h = unmoved_within name e d h

reset_within :
    (c : ToolContext) (name : String) (e : ContextEntry)
    → lookup name c.contexts ≡ some e
    → EntryWithin resets_to name e (reset c).contexts
unfolding reset_entry
reset_within c name e h = (reset_entry e, lookup-reset c name e h, ground arith, ground arith)

promoted_other :
    (c c' : ToolContext) (name : String) (e : ContextEntry)
    → RecycledOrSame c name e c'
    → EntryWithin may_unload name e c'.contexts
promoted_other c c' name e (inl h) = (e, h, refl, unmoved_unload e.essential e.tier)
promoted_other c c' name e (inr h) = recycled_within 1 c.current_turn name e c'.contexts h

promoted_this :
    (v : Vault) (c : ToolContext) (name : String) (e : ContextEntry)
    → lookup name c.contexts ≡ some e
    → EntryWithin may_load name e (promote v name c).0.contexts
unfolding get_tier tier_or_cold
promoted_this v c name e h = elim (Option-cases (v.get_entry name)) [
  | inl unknown ↦
      rw (promote_unknown v c name unknown) (e, h, refl, unmoved_load e.essential e.tier)
  | inr (k, known) ↦
      let (e', h', m) = promote-EntryMoved c name e h v name in
      let loaded : e'.tier ≡ hot = ground (arith, h', (promote-hot v c name k known).1) in
      (e', h', m.essential_kept, rw loaded refl)
]

promote_within :
    (v : Vault) (c : ToolContext) (n name : String) (e : ContextEntry)
    → lookup name c.contexts ≡ some e
    → EntryWithin (may_step name (op_promote n)) name e (promote v n c).0.contexts
unfolding may_step
promote_within v c n name e h = elim (Bool-cases (str_eq n name)) [
  | inl this ↦ rw this (
      subst (λ x. EntryWithin may_load name e (promote v x c).0.contexts)
        (sym ((eq_iff n name).0 this)) (promoted_this v c name e h))
  | inr other ↦
      rw other (promoted_other c (promote v n c).0 name e (promote_other v c name e n h other))
]

-- One call keeps a tool of the context in it, with its mark as essential. Its tier stays as it is, but
-- for these moves: its own promotion makes it hot, or leaves it; its own demotion, `recycle` and
-- the promotion of another tool may move it from HOT to WARM, if it is not essential; `reset` makes an
-- essential tool hot and any other cold. Calls that make a new entry for the tool, `register_tool` of
-- its name and `init_tools` with it in the vault, are excepted.
pub step-EntryWithin :
    (v : Vault) (c : ToolContext) (op : Op) (name : String) (e : ContextEntry)
    → lookup name c.contexts ≡ some e
    → renews v name op ≡ false
    → EntryWithin (may_step name op) name e (step v c op).contexts
unfolding step renews may_step
step-EntryWithin v c (op_promote n) name e h k = promote_within v c n name e h
step-EntryWithin v c (op_demote n) name e h k =
    demoted_within (str_eq n name) name e _ (lookup-demote c name e h n)
step-EntryWithin v c (op_recycle t) name e h k =
    recycled_within (threshold_of c t) c.current_turn name e _ (lookup-recycle c name e h t)
step-EntryWithin v c (op_use n turn) name e h k =
    used_within (str_eq n name) (turn_or_current c turn) name e _
      (lookup-record_usage c name e h n turn)
step-EntryWithin v c op_advance name e h k =
    unfold advance_turn in unmoved_within name e c.contexts h
step-EntryWithin v c op_reset name e h k = reset_within c name e h
step-EntryWithin v c (op_register n tier essential) name e h k =
    unmoved_within name e (register_tool n tier essential c).contexts
      (ground (arith, h, k, lookup-register_tool c n name tier essential))
step-EntryWithin v c (op_init essential hot_names) name e h k =
    unmoved_within name e (init_tools v essential hot_names c).contexts
      (ground (arith, h, k, lookup-init_tools v essential hot_names c name))
