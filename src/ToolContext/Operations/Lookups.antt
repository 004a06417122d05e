-- ===== src/ToolContext/Operations/Lookups.antt =====
-- What `promote`, `demote` and `record_usage` do to one tool.
use you_mi_agent.Prelude.{
  ◌+◌, String, ◌≡◌, refl, ap, ◌∙◌, Bool, true, false, not, ◌&&◌, Option, none, some, arith, leb,
  ◌⊎◌, str_eq, eq_iff, if◌then◌else◌, Bool-cases, inl, inr,
}
use you_mi_agent.Prelude.Int.{ℤ}
use you_mi_agent.Dict.{lookup, insert, lookup-insert, lookup-modify}
use you_mi_agent.ToolContext.{
  warm, cold, is_hot, ContextEntry, new_entry, ToolEntry, Vault, ToolContext, tier_count,
  recycle_entry,
}
use you_mi_agent.ToolContext.Operations.{
  demote, demote_found, record_usage, turn_or_current, promote, promote_known, promote_found,
  promote_entry,
}
use you_mi_agent.ToolContext.Operations.Moves.{lookup-recycle}

-- The entry after `demote`, for the demoted tool (`this`) or another.
abbrev pub demoted : Bool → ContextEntry → ContextEntry
demoted this e = if this && (is_hot e.tier && not e.essential) then record e { tier = warm } else e

-- The entry after `record_usage`.
abbrev pub used : Bool → ℤ → ContextEntry → ContextEntry
used this turn e =
    if this then record e { last_used_turn = turn; use_count = e.use_count + 1 } else e

-- The tool is in the later state as before, or recycled once.
abbrev pub RecycledOrSame : ToolContext → String → ContextEntry → ToolContext → Type 0
RecycledOrSame c name e c' =
    (lookup name c'.contexts ≡ some e)
    ⊎ (lookup name c'.contexts ≡ some (recycle_entry 1 c.current_turn e))

module _ (c : ToolContext) (name : String) (e : ContextEntry)
    (h : lookup name c.contexts ≡ some e) where
  demote_other :
      (n : String) (o : Option ContextEntry)
      → str_eq n name ≡ false
      → lookup name (demote_found n o c).0.contexts ≡ some e
  unfolding demote_found
  demote_other n none other = h
  demote_other n (some e') other =
      ground (arith, h, other, lookup-modify n name (λ e. record e { tier = warm }) c.contexts)

  demote_this :
      (n : String)
      → str_eq n name ≡ true
      → lookup name (demote_found n (some e) c).0.contexts ≡ some (demoted true e)
  unfolding demote_found
  demote_this n this =
      ground (arith, h, this, lookup-modify n name (λ e. record e { tier = warm }) c.contexts)

  pub lookup-demote :
      (n : String) → lookup name (demote n c).0.contexts ≡ some (demoted (str_eq n name) e)
  unfolding demote
  lookup-demote n = elim (Bool-cases (str_eq n name)) [
    | inl this ↦
        let found : lookup n c.contexts ≡ some e =
          ap (λ k. lookup k c.contexts) ((eq_iff n name).0 this) ∙ h in
        rw (this, found) (demote_this n this)
    | inr other ↦ rw other (demote_other n (lookup n c.contexts) other)
  ]

  pub lookup-record_usage :
      (n : String) (turn : Option ℤ)
      → lookup name (record_usage n turn c).contexts
        ≡ some (used (str_eq n name) (turn_or_current c turn) e)
  unfolding record_usage
  lookup-record_usage n turn = ground (
    arith,
    h,
    lookup-modify n name
        (λ e. record e { last_used_turn = turn_or_current c turn; use_count = e.use_count + 1 })
        c.contexts,
  )

  promote_entry_other :
      (n : String) (e' : ContextEntry)
      → str_eq n name ≡ false
      → RecycledOrSame c name e (promote_entry n e' c).0
  unfolding promote_entry
  promote_entry_other n e' other = elim (Bool-cases (is_hot e'.tier)) [
    | inl already ↦ rw already (inl h)
    | inr below ↦ rw below (elim (Bool-cases (leb c.max_hot_tools (tier_count is_hot c))) [
      | inl full ↦ rw full (inr (rw (lookup-modify, other) (lookup-recycle c name e h (some 1))))
      | inr room ↦ rw room (inl (rw (lookup-modify, other) h))
    ])
  ]

promote_found_other :
    (c : ToolContext) (name : String) (e : ContextEntry) (n : String) (o : Option ContextEntry)
    → lookup name c.contexts ≡ some e
    → str_eq n name ≡ false
    → RecycledOrSame c name e (promote_found n o c).0
unfolding promote_found
promote_found_other c name e n (some e') h other = promote_entry_other c name e h n e' other
promote_found_other c name e n none h other =
    let added = new_entry n cold false in
    promote_entry_other (record c { contexts = insert n added c.contexts }) name e
      (rw (lookup-insert, other) h) n added other

promote_known_other :
    (c : ToolContext) (name : String) (e : ContextEntry) (n : String) (o : Option ToolEntry)
    → lookup name c.contexts ≡ some e
    → str_eq n name ≡ false
    → RecycledOrSame c name e (promote_known o n c).0
unfolding promote_known
promote_known_other c name e n none h other = inl h
promote_known_other c name e n (some k) h other =
    promote_found_other c name e n (lookup n c.contexts) h other

pub promote_other :
    (v : Vault) (c : ToolContext) (name : String) (e : ContextEntry) (n : String)
    → lookup name c.contexts ≡ some e
    → str_eq n name ≡ false
    → RecycledOrSame c name e (promote v n c).0
unfolding promote
promote_other v c name e n h other = promote_known_other c name e n (v.get_entry n) h other

-- A promoted tool is hot if the vault has it, and as it was otherwise.
pub promote_unknown :
    (v : Vault) (c : ToolContext) (n : String) → v.get_entry n ≡ none → (promote v n c).0 ≡ c
unfolding promote promote_known
promote_unknown v c n h = rw h refl
