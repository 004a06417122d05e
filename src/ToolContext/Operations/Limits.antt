-- ===== src/ToolContext/Operations/Limits.antt =====
-- `promote`: what it answers, and how many tools are hot after it.
use you_mi_agent.Prelude.{
  ℕ, ◌+◌, ◌≤◌, ◌<◌, String, ◌≡◌, refl, ap, ◌∙◌, true, false, Option, none, some, [], ◌∷◌, arith,
  if◌then◌else◌, leb, length, count, eq_refl, Bool-cases, inl, inr,
}
use you_mi_agent.Dict.{Dict, values, lookup, insert, modify, lookup-insert, lookup-modify}
use you_mi_agent.ToolContext.{
  hot, cold, is_hot, ContextEntry, Vault, ToolEntry, ToolContext, recycle, recycle_entry,
  is_recycled, tier_count, new_entry,
}
use you_mi_agent.ToolContext.Recycling.{recycle-counts}
use you_mi_agent.ToolContext.Operations.{
  promote, promote_known, promote_found, promote_entry, get_tier,
}
use you_mi_agent.ToolContext.Operations.Moves.{recycle-EntryMoved, lookup-recycle}

set_hot : ContextEntry → ContextEntry
set_hot e = record e { tier = hot }

promote_entry-hot :
    (c : ToolContext) (n : String) (e : ContextEntry)
    → lookup n c.contexts ≡ some e
    → ((promote_entry n e c).1 ≡ true) × (get_tier n (promote_entry n e c).0 ≡ hot)
unfolding promote_entry get_tier
promote_entry-hot c n e h = elim (Bool-cases (is_hot e.tier)) [
  | inl already ↦ rw already (refl, rw h (ground arith))
  | inr below ↦ rw below (elim (Bool-cases (leb c.max_hot_tools (tier_count is_hot c))) [
    | inl full ↦
        let (e', h', m) = recycle-EntryMoved c n e h (some 1) in
        rw full (refl, rw (lookup-modify, eq_refl, h'))
    | inr room ↦ rw room (refl, rw (lookup-modify, eq_refl, h))
  ])
]

promote_found-hot :
    (c : ToolContext) (n : String) (o : Option ContextEntry)
    → lookup n c.contexts ≡ o
    → ((promote_found n o c).1 ≡ true) × (get_tier n (promote_found n o c).0 ≡ hot)
unfolding promote_found
promote_found-hot c n (some e) h = promote_entry-hot c n e h
promote_found-hot c n none h =
    let e = new_entry n cold false in
    promote_entry-hot (record c { contexts = insert n e c.contexts }) n e
      (rw (lookup-insert, eq_refl))

-- `promote` answers `True` and leaves the tool hot if the vault has it.
pub promote-hot :
    (v : Vault) (c : ToolContext) (n : String) (k : ToolEntry)
    → v.get_entry n ≡ some k
    → ((promote v n c).1 ≡ true) × (get_tier n (promote v n c).0 ≡ hot)
unfolding promote promote_known
promote-hot v c n k h = rw h (promote_found-hot c n (lookup n c.contexts) refl)

abbrev hot_in : Dict ContextEntry → ℕ
hot_in d = count (λ e. is_hot e.tier) (values d)

hot_in-modify :
    (n : String) (d : Dict ContextEntry) (e : ContextEntry)
    → lookup n d ≡ some e
    → is_hot e.tier ≡ false
    → hot_in (modify n (λ e. record e { tier = hot }) d) ≡ hot_in d + 1
hot_in-modify n [] e h k = cc
hot_in-modify n ((j, w) ∷ d) e h k = ground (arith, hot_in-modify n d e)

recycle_entry-below :
    (threshold turn : ℕ) (e : ContextEntry)
    → is_hot e.tier ≡ false
    → recycle_entry threshold turn e ≡ e
unfolding recycle_entry is_recycled
recycle_entry-below threshold turn e h = ground arith

-- The tools that a `promote` recycles first: none below the limit.
abbrev pub recycled_first : ToolContext → ℕ
recycled_first c =
    if leb c.max_hot_tools (tier_count is_hot c) then length (recycle c (some 1)).1 else 0

hot_count-promote_entry :
    (c : ToolContext) (n : String) (e : ContextEntry)
    → lookup n c.contexts ≡ some e
    → is_hot e.tier ≡ false
    → tier_count is_hot (promote_entry n e c).0 + recycled_first c ≡ tier_count is_hot c + 1
unfolding promote_entry
hot_count-promote_entry c n e h below =
    rw below (elim (Bool-cases (leb c.max_hot_tools (tier_count is_hot c))) [
      | inl full ↦ rw full (
          let same : lookup n (recycle c (some 1)).0.contexts ≡ some e =
            lookup-recycle c n e h (some 1)
            ∙ ap some (recycle_entry-below 1 c.current_turn e below) in
          omega (
            arith,
            hot_in-modify n (recycle c (some 1)).0.contexts e same below,
            (recycle-counts c (some 1)).0,
          ))
      | inr room ↦ rw room (omega (arith, hot_in-modify n c.contexts e h below))
    ])

-- The promotion of a tool of the vault that is in the context and not hot adds one hot tool, less
-- those that the recycling before it took, which happens only at the limit.
pub hot_count-promote :
    (v : Vault) (c : ToolContext) (n : String) (k : ToolEntry) (e : ContextEntry)
    → v.get_entry n ≡ some k
    → lookup n c.contexts ≡ some e
    → is_hot e.tier ≡ false
    → tier_count is_hot (promote v n c).0 + recycled_first c ≡ tier_count is_hot c + 1
unfolding promote promote_known promote_found
hot_count-promote v c n k e known h below = rw (known, h) (hot_count-promote_entry c n e h below)

-- Where the hot tools have reached the limit and the recycling takes none of them, the promotion of
-- a tool of the vault that is in the context and not hot passes the limit.
pub promote_passes_limit :
    (v : Vault) (c : ToolContext) (n : String) (k : ToolEntry) (e : ContextEntry)
    → v.get_entry n ≡ some k
    → lookup n c.contexts ≡ some e
    → is_hot e.tier ≡ false
    → c.max_hot_tools ≤ tier_count is_hot c
    → (recycle c (some 1)).1 ≡ []
    → c.max_hot_tools < tier_count is_hot (promote v n c).0
promote_passes_limit v c n k e known h below full none_idle =
    ground (arith, hot_count-promote v c n k e known h below, none_idle)
