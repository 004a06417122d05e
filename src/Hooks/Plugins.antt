-- ===== src/Hooks/Plugins.antt =====
-- What `unregister_all_by_plugin` takes away.
use you_mi_agent.Prelude.{
  ℕ, ◌+◌, ◌-◌, String, ◌≡◌, refl, ◌∙◌, ap, Bool, false, not, List, [], ◌∷◌, arith, select, count,
  any, length, str_eq, map,
}
use you_mi_agent.Hooks.{
  HookType, HookEntry, HookRegistry, unregister_all_by_plugin, hook_types, before_prompt_build,
  before_model_call, after_model_call, before_tool_call, after_tool_call, message_received,
  message_sending,
}
use you_mi_agent.Hooks.Registrations.{unregister_all_by_plugin-hooks}

abbrev pub sum : List ℕ → ℕ
sum [] = 0
sum (n ∷ ns) = n + sum ns

module _ {ℓ} {A : Type ℓ} where
  length-removed :
      (q : A → Bool) (xs : List A) → length xs ≡ count q xs + length (select (λ x. not (q x)) xs)
  length-removed q [] = refl
  length-removed q (x ∷ xs) = ground (arith, length-removed q xs)

  removed-count :
      (q : A → Bool) (xs : List A) → length xs - length (select (λ x. not (q x)) xs) ≡ count q xs
  removed-count q xs = omega (arith, length-removed q xs)

  any-select-not : (q : A → Bool) (xs : List A) → any q (select (λ x. not (q x)) xs) ≡ false
  any-select-not q [] = refl
  any-select-not q (x ∷ xs) = ground (arith, any-select-not q xs)

  select-select-not :
      (q : A → Bool) (xs : List A)
      → select (λ x. not (q x)) (select (λ x. not (q x)) xs) ≡ select (λ x. not (q x)) xs
  select-select-not q [] = refl
  select-select-not q (x ∷ xs) = ground (arith, select-select-not q xs)

-- `unregister_all_by_plugin` leaves no hook of this plugin under any type and all others in their
-- order, and returns how many hooks of the plugin there were.
pub unregister_all_by_plugin-exact :
    (plugin : String) (r : HookRegistry) (t : HookType)
    → let q = λ (e : HookEntry). str_eq e.plugin_name plugin in
      let (r', n) = unregister_all_by_plugin plugin r in
      (any q (r'.hooks t) ≡ false)
      × (select (λ e. not (q e)) (r'.hooks t) ≡ select (λ e. not (q e)) (r.hooks t))
      × (n ≡ sum (map (λ u. count q (r.hooks u)) hook_types))
unfolding unregister_all_by_plugin
unregister_all_by_plugin-exact plugin r t =
    let q = λ (e : HookEntry). str_eq e.plugin_name plugin in
    let e = unregister_all_by_plugin-hooks plugin r t in
    (
      ap (any q) e ∙ any-select-not q (r.hooks t),
      ap (select (λ e. not (q e))) e ∙ select-select-not q (r.hooks t),
      let c = λ (u : HookType). removed-count q (r.hooks u) in
          omega (
            arith,
            c before_prompt_build,
            c before_model_call,
            c after_model_call,
            c before_tool_call,
            c after_tool_call,
            c message_received,
            c message_sending,
          ),
    )
