-- ===== src/Auth/Environment.antt =====
-- The tokens that the environment configures.
use you_mi_agent.Prelude.{
  ◌≡◌, refl, false, ◌&&◌, not, some, List, [], ◌∷◌, arith, All, All-append, any, Bool-cases,
  Option-cases, inl, inr,
}
use you_mi_agent.Text.{Text, text_eq, strip, split}
use you_mi_agent.Auth.{
  AuthToken, Environ, is_empty, or_default, entry_of, of_parts, of_item, of_items, multi_tokens,
  with_single, auth_from_env, init,
}

-- Neither its token nor its tenant is empty.
abbrev pub IsComplete : AuthToken → Type 0
IsComplete e = (is_empty e.token ≡ false) × (is_empty e.tenant ≡ false)

or_default-nonempty : (t : Text) → is_empty (or_default t) ≡ false
unfolding or_default is_empty
or_default-nonempty [] = refl
or_default-nonempty (c ∷ t) = refl

entry_of-IsComplete :
    (t : Text) (parts : List Text) → is_empty t ≡ false → IsComplete (entry_of t parts)
unfolding entry_of is_empty
entry_of-IsComplete t [] h = (h, refl)
entry_of-IsComplete t (r ∷ []) h = (h, refl)
entry_of-IsComplete t (r ∷ (n ∷ [])) h = (h, refl)
entry_of-IsComplete t (r ∷ (n ∷ (tenant ∷ more))) h = (h, or_default-nonempty (strip tenant))

of_parts-IsComplete : (parts : List Text) (e : AuthToken) → of_parts parts ≡ some e → IsComplete e
unfolding of_parts
of_parts-IsComplete [] e h = absurd (ground arith)
of_parts-IsComplete (t ∷ parts) e h = elim (Bool-cases (is_empty (strip t))) [
  | inl off ↦ absurd (ground (arith, off, h))
  | inr on ↦ ground (arith, on, h, entry_of-IsComplete (strip t) parts on)
]

of_item-IsComplete : (item : Text) (e : AuthToken) → of_item item ≡ some e → IsComplete e
unfolding of_item
of_item-IsComplete item e h = of_parts-IsComplete (split b':' (strip item)) e (ground (arith, h))

of_items-IsComplete : (items : List Text) → All IsComplete (of_items items)
unfolding of_items
of_items-IsComplete [] = tt
of_items-IsComplete (item ∷ items) = elim (Option-cases (of_item item)) [
  | inl off ↦ rw (of_items, off) (of_items-IsComplete items)
  | inr (e, on) ↦ rw (of_items, on) (of_item-IsComplete item e on, of_items-IsComplete items)
]

multi_tokens-IsComplete : (multi : Text) → All IsComplete (multi_tokens multi)
unfolding multi_tokens
multi_tokens-IsComplete multi = elim (Bool-cases (is_empty multi)) [
  | inl off ↦ rw (multi_tokens, off) tt
  | inr on ↦ rw (multi_tokens, on) (of_items-IsComplete (split b';' multi))
]

with_single-IsComplete :
    (env : Environ) (single : Text) (tokens : List AuthToken)
    → All IsComplete tokens
    → All IsComplete (with_single env single tokens)
unfolding with_single
with_single-IsComplete env single tokens h =
    elim (Bool-cases
      (not (is_empty single) && not (any (λ (t : AuthToken). text_eq t.token single) tokens))) [
        | inl on ↦
            rw (with_single, on)
              (All-append IsComplete tokens _ h
                ((ground (arith, on), or_default-nonempty (strip env.auth_tenant)), tt))
        | inr off ↦ rw (with_single, off) h
      ]

-- Whatever stands in the environment, no configured entry has an empty token or an empty tenant.
pub auth_from_env-IsComplete : (env : Environ) → All IsComplete (auth_from_env env).tokens
unfolding auth_from_env init
auth_from_env-IsComplete env =
    with_single-IsComplete env (strip env.auth_token) (multi_tokens (strip env.auth_tokens))
      (multi_tokens-IsComplete (strip env.auth_tokens))
