-- ===== src/Hooks/Chain.antt =====
-- Which handlers `invoke` calls, and what it returns.
use you_mi_agent.Prelude.{
  ◌≡◌, refl, ap, Bool, true, false, Option, none, some, List, [], ◌∷◌, ◌++◌, ◌⊎◌, arith, map, any,
  Bool-cases, inl, inr,
}
use you_mi_agent.Hooks.{
  HookType, HookContext, HookDecision, HookEntry, HookRegistry, HandlerEnd, returned, raised,
  Invoked, modify, update, blocks, pass_through, after_decision, called, chain, invoke,
}

module _ {V : Type 0} where
  -- The call returned a decision that blocks.
  unfoldable pub is_block : HookEntry × Option (HookDecision V) → Bool
  unfolding blocks
  is_block (e, none) = false
  is_block (e, some d) = blocks d

  abbrev pub entry_of : HookEntry × Option (HookDecision V) → HookEntry
  entry_of (e, d) = e

  -- The last decision that was returned, or the one before them.
  abbrev pub last_decision :
      HookDecision V → List (HookEntry × Option (HookDecision V)) → HookDecision V
  last_decision d [] = d
  last_decision d ((e, none) ∷ calls) = last_decision d calls
  last_decision d ((e, some d') ∷ calls) = last_decision d' calls

module _ {F V : Type 0} where
  -- The context after a decision: MODIFY merges its data into `extra`.
  abbrev pub merged : HookDecision V → HookContext F V → HookContext F V
  merged d c = elim d.decision [
    | modify ↦ record c { extra = update d.modified_data c.extra }
    | _ ↦ c
  ]

  -- Each call is what its handler does in the context that the calls before it left, and the last
  -- leaves the context `final`.
  abbrev pub Answered :
      (HookEntry → HookContext F V → HandlerEnd F V)
      → HookContext F V
      → List (HookEntry × Option (HookDecision V))
      → HookContext F V
      → Type 0
  Answered call c [] final = c ≡ final
  Answered call c ((e, none) ∷ calls) final =
      (c' : HookContext F V) × (call e c ≡ raised c') × Answered call c' calls final
  Answered call c ((e, some d) ∷ calls) final =
      (c' : HookContext F V) × (call e c ≡ returned d c') × Answered call (merged d c') calls final

  -- All entries were called and none blocked, or the calls end with the first decision that blocks.
  abbrev pub EndsAtBlock : List HookEntry → Invoked F V → Type 0
  EndsAtBlock es q =
      ((map entry_of q.calls ≡ es) × (any is_block q.calls ≡ false))
      ⊎ ((before : List (HookEntry × Option (HookDecision V))) × (e : HookEntry) × (rest : List
            HookEntry)
          × (q.calls ≡ before ++ ((e, some q.result) ∷ []))
          × (blocks q.result ≡ true)
          × (any is_block before ≡ false)
          × (es ≡ map entry_of before ++ (e ∷ rest)))

  pub record IsChain (call : HookEntry → HookContext F V → HandlerEnd F V) (es : List HookEntry)
      (last : HookDecision V) (c : HookContext F V) (q : Invoked F V) : Type 0 where
    pub answered : Answered call c q.calls q.context
    pub returns_last : q.result ≡ last_decision last q.calls
    pub ends : EndsAtBlock es q

  called-EndsAtBlock :
      (e : HookEntry) (d : Option (HookDecision V)) (es : List HookEntry) (q : Invoked F V)
      → is_block (e, d) ≡ false
      → EndsAtBlock es q
      → EndsAtBlock (e ∷ es) (called e d q)
  unfolding called is_block
  called-EndsAtBlock e d es q h c = elim c [
    | inl (all, quiet) ↦ inl (ap (λ t. e ∷ t) all, ground (arith, quiet))
    | inr (before, e', rest, calls, b, quiet, split) ↦ inr (
      (e, d) ∷ before,
      e',
      rest,
      ap (λ t. (e, d) ∷ t) calls,
      b,
      ground (arith, quiet),
      ap (λ t. e ∷ t) split,
    )
  ]

  HandlerEnd-cases :
      (h : HandlerEnd F V)
      → ((c : HookContext F V) × (h ≡ raised c))
        ⊎ ((d : HookDecision V) × (c : HookContext F V) × (h ≡ returned d c))
  HandlerEnd-cases (raised c) = inl (c, refl)
  HandlerEnd-cases (returned d c) = inr (d, c, refl)

  after_decision-merged :
      (d : HookDecision V) (c : HookContext F V) → after_decision d c ≡ merged d c
  unfolding after_decision
  after_decision-merged d c = refl

  blocked-IsChain :
      (call : HookEntry → HookContext F V → HandlerEnd F V) (e : HookEntry) (es : List HookEntry)
      (last d : HookDecision V) (c c' : HookContext F V)
      → call e c ≡ returned d c'
      → blocks d ≡ true
      → IsChain call (e ∷ es) last c (record { result = d; context = c'; calls = (e, some d) ∷ [] })
  unfolding blocks
  blocked-IsChain call e es last d c c' h b = record {
    answered = (c', h, ground arith);
    returns_last = refl;
    ends = inr ([], e, es, refl, b, refl, refl);
  }

  chain-IsChain :
      (call : HookEntry → HookContext F V → HandlerEnd F V) (es : List HookEntry)
      (last : HookDecision V) (c : HookContext F V)
      → IsChain call es last c (chain call es last c)
  unfolding chain is_block called
  chain-IsChain call [] last c = record {
    answered = refl;
    returns_last = refl;
    ends = inl (refl, refl);
  }
  chain-IsChain call (e ∷ es) last c = elim (HandlerEnd-cases (call e c)) [
    | inl (c', h) ↦
        let rest = chain-IsChain call es last c' in
        rw (chain, h)
          (record {
            answered = (c', h, rest.answered);
            returns_last = rest.returns_last;
            ends = called-EndsAtBlock e none es (chain call es last c') refl rest.ends;
          })
    | inr (d, c', h) ↦ elim (Bool-cases (blocks d)) [
      | inl b ↦ rw (chain, h, b) (blocked-IsChain call e es last d c c' h b)
      | inr b ↦
          let rest = chain-IsChain call es d (after_decision d c') in
          rw (chain, h, b)
            (record {
              answered = (c', h, rest.answered);
              returns_last = rest.returns_last;
              ends =
                  called-EndsAtBlock e (some d) es (chain call es d (after_decision d c')) b
                    rest.ends;
            })
    ]
  ]

  -- `invoke` calls the handlers in the order of the list up to and including the first that blocks,
  -- or all of them, each in the context that those before it left and their MODIFY decisions changed,
  -- and leaves the context of the last. It returns the last decision that a handler returned, PASS
  -- where none was. A handler that raises stops nothing.
  pub invoke-IsChain :
      (call : HookEntry → HookContext F V → HandlerEnd F V) (t : HookType) (c : HookContext F V)
      (r : HookRegistry)
      → IsChain call (r.hooks t) pass_through c (invoke call t c r)
  unfolding invoke
  invoke-IsChain call t c r = chain-IsChain call (r.hooks t) pass_through c
