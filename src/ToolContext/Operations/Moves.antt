-- ===== src/ToolContext/Operations/Moves.antt =====
-- The tiers of a tool: which moves `recycle` and `promote` make.
use you_mi_agent.Prelude.{
  ℕ, String, ◌≡◌, refl, Bool, true, false, not, Option, none, some, arith, Bool-cases, inl, inr,
  str_eq, eq_iff, leb, eq_refl, sym, ap, ◌∙◌,
}
use you_mi_agent.Dict.{
  Dict, lookup, insert, modify, lookup-insert, lookup-modify, lookup-map_values,
}
use you_mi_agent.ToolContext.{
  Tier, hot, warm, cold, is_hot, ContextEntry, new_entry, ToolEntry, Vault, ToolContext, tier_count,
  threshold_of, is_recycled, recycle_entry, recycle,
}
use you_mi_agent.ToolContext.Operations.{promote, promote_known, promote_found, promote_entry}

-- The moves between tiers: to hot from anywhere, and from hot to warm unless the tool is essential.
abbrev pub may_move : Bool → Tier → Tier → Bool
may_move essential hot warm = not essential
may_move essential cold cold = true
may_move essential warm warm = true
may_move essential _ hot = true
may_move essential _ _ = false

pub record Moved (e e' : ContextEntry) : Type 0 where
  pub essential_kept : e'.essential ≡ e.essential
  pub allowed : may_move e.essential e.tier e'.tier ≡ true

-- The entry of a tool in one dict has moved to its entry in another.
abbrev pub EntryMoved : String → ContextEntry → Dict ContextEntry → Type 0
EntryMoved name e d = (e' : ContextEntry) × (lookup name d ≡ some e') × Moved e e'

some_inj {ℓ} : {A : Type ℓ} {a b : A} → some a ≡ some b → a ≡ b
some_inj p = cc

none≢some {ℓ} : {A : Type ℓ} {a : A} → none ≡ some a → ⊥
none≢some p = cc

Moved-refl : (e : ContextEntry) → Moved e e
Moved-refl e = ground arith

pub stays :
    (name : String) (e : ContextEntry) (d : Dict ContextEntry)
    → lookup name d ≡ some e
    → EntryMoved name e d
stays name e d h = (e, h, Moved-refl e)

recycle_entry-Moved :
    (threshold turn : ℕ) (e : ContextEntry) → Moved e (recycle_entry threshold turn e)
unfolding recycle_entry is_recycled
recycle_entry-Moved threshold turn e = ground arith

modify-EntryMoved :
    (name n : String) (f : ContextEntry → ContextEntry) (e : ContextEntry) (d : Dict ContextEntry)
    → lookup name d ≡ some e
    → (n ≡ name → Moved e (f e))
    → EntryMoved name e (modify n f d)
modify-EntryMoved name n f e d h m = elim (Bool-cases (str_eq n name)) [
  | inl this ↦ (f e, rw (lookup-modify, this, h), m ((eq_iff n name).0 this))
  | inr other ↦ (e, rw (lookup-modify, other) h, Moved-refl e)
]

recycled_to_hot :
    (threshold turn : ℕ) (e : ContextEntry)
    → Moved e (record (recycle_entry threshold turn e) { tier = hot })
unfolding recycle_entry is_recycled
recycled_to_hot threshold turn e = ground arith

module _ (c : ToolContext) (name : String) (e : ContextEntry)
    (h : lookup name c.contexts ≡ some e) where
  pub lookup-recycle :
      (t : Option ℕ)
      → lookup name (recycle c t).0.contexts
        ≡ some (recycle_entry (threshold_of c t) c.current_turn e)
  unfolding recycle
  lookup-recycle t =
      ground
        (arith, lookup-map_values name (recycle_entry (threshold_of c t) c.current_turn) c.contexts)

  pub recycle-EntryMoved : (t : Option ℕ) → EntryMoved name e (recycle c t).0.contexts
  recycle-EntryMoved t = (
    recycle_entry (threshold_of c t) c.current_turn e,
    lookup-recycle t,
    recycle_entry-Moved (threshold_of c t) c.current_turn e,
  )

  recycle_promote-EntryMoved :
      (n : String) (t : Option ℕ)
      → EntryMoved name e (modify n (λ e. record e { tier = hot }) (recycle c t).0.contexts)
  recycle_promote-EntryMoved n t =
      let r = recycle_entry (threshold_of c t) c.current_turn e in
      elim (Bool-cases (str_eq n name)) [
        | inl this ↦ (
          record r { tier = hot },
          rw (lookup-modify, this, lookup-recycle t),
          recycled_to_hot (threshold_of c t) c.current_turn e,
        )
        | inr other ↦ (
          r,
          rw (lookup-modify, other) (lookup-recycle t),
          recycle_entry-Moved (threshold_of c t) c.current_turn e,
        )
      ]

  -- `promote`, where the entry of the promoted tool is in the context.
  promote_entry-EntryMoved :
      (n : String) (e' : ContextEntry)
      → lookup n c.contexts ≡ some e'
      → EntryMoved name e (promote_entry n e' c).0.contexts
  unfolding promote_entry
  promote_entry-EntryMoved n e' p = elim (Bool-cases (is_hot e'.tier)) [
    | inl already ↦ rw already (stays name e c.contexts h)
    | inr below ↦ rw below (elim (Bool-cases (leb c.max_hot_tools (tier_count is_hot c))) [
      | inl full ↦ rw full (recycle_promote-EntryMoved n (some 1))
      | inr room ↦ rw room (modify-EntryMoved name n _ e c.contexts h (λ _. ground arith))
    ])
  ]

module _ (c : ToolContext) (name : String) (e : ContextEntry)
    (h : lookup name c.contexts ≡ some e) where
  promote_found-EntryMoved :
      (n : String) (o : Option ContextEntry)
      → lookup n c.contexts ≡ o
      → EntryMoved name e (promote_found n o c).0.contexts
  unfolding promote_found
  promote_found-EntryMoved n (some e') p = promote_entry-EntryMoved c name e h n e' p
  promote_found-EntryMoved n none p =
      let added = new_entry n cold false in
      promote_entry-EntryMoved (record c { contexts = insert n added c.contexts }) name e
        (elim (Bool-cases (str_eq n name)) [
          | inl this ↦
              absurd
                (none≢some (sym p ∙ ap (λ k. lookup k c.contexts) ((eq_iff n name).0 this) ∙ h))
          | inr other ↦ rw (lookup-insert, other) h
        ])
        n added (rw (lookup-insert, eq_refl))

  promote_known-EntryMoved :
      (k : Option ToolEntry) (n : String) → EntryMoved name e (promote_known k n c).0.contexts
  unfolding promote_known
  promote_known-EntryMoved none n = stays name e c.contexts h
  promote_known-EntryMoved (some k) n = promote_found-EntryMoved n (lookup n c.contexts) refl

  pub promote-EntryMoved : (v : Vault) (n : String) → EntryMoved name e (promote v n c).0.contexts
  unfolding promote
  promote-EntryMoved v n = promote_known-EntryMoved (v.get_entry n) n
