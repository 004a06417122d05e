-- ===== src/Hooks/Registrations.antt =====
-- What the registry holds, against the registrations that are still in force.
use you_mi_agent.Prelude.{
  String, ◌≡◌, refl, sym, ◌∙◌, ap, Bool, true, not, List, [], ◌∷◌, ◌++◌, select, str_eq, eq_iff,
  if◌then◌else◌, Bool-cases, inl, inr,
}
use you_mi_agent.Prelude.Int.{ℤ}
use you_mi_agent.Hooks.{
  HookType, value, same_type, HookEntry, HookRegistry, init, sort_onto, assign, register,
  unregister, unregister_all_by_plugin, before_prompt_build, before_model_call, after_model_call,
  before_tool_call, after_tool_call, message_received, message_sending,
}
use you_mi_agent.Hooks.Sorting.{
  at, IsSorted, sort_onto-IsSorted, select-sort_onto, select-append, select-select, select-IsSorted,
}

pub data Op : Type 0 where
  op_register : HookType → String → ℤ → String → Op
  op_unregister : HookType → String → Op
  op_unregister_plugin : String → Op

unfoldable pub step : Op → HookRegistry → HookRegistry
unfolding register unregister unregister_all_by_plugin
step (op_register t handler priority plugin) r = register t handler priority plugin r
step (op_unregister t handler) r = unregister t handler r
step (op_unregister_plugin plugin) r = (unregister_all_by_plugin plugin r).0

unfoldable pub run : List Op → HookRegistry → HookRegistry
unfolding step
run [] r = r
run (op ∷ ops) r = run ops (step op r)

-- The registrations of one type that are in force after these calls, in the order in which they
-- were made.
unfoldable pub in_force : HookType → List Op → List HookEntry → List HookEntry
unfolding same_type
in_force t [] es = es
in_force t (op_register u handler priority plugin ∷ ops) es = in_force t ops (
    if same_type t u
    then es
      ++ (record { hook_type = u; handler = handler; priority = priority; plugin_name = plugin }
          ∷ [])
    else es)
in_force t (op_unregister u handler ∷ ops) es =
    in_force t ops (if same_type t u then select (λ e. not (str_eq e.handler handler)) es else es)
in_force t (op_unregister_plugin plugin ∷ ops) es =
    in_force t ops (select (λ e. not (str_eq e.plugin_name plugin)) es)

-- Sorted, and for each priority the same entries in the same order.
Agrees : List HookEntry → List HookEntry → Type 0
Agrees es live = IsSorted es × ((p : ℤ) → select (at p) es ≡ select (at p) live)

sorted-Agrees :
    (es live : List HookEntry) (e : HookEntry)
    → Agrees es live
    → Agrees (sort_onto [] (es ++ (e ∷ []))) (live ++ (e ∷ []))
unfolding Agrees
sorted-Agrees es live e h = (
  sort_onto-IsSorted [] (es ++ (e ∷ [])) tt,
  λ p.
      select-sort_onto p [] (es ++ (e ∷ [])) tt
      ∙ select-append (at p) es (e ∷ [])
      ∙ ap (λ t. t ++ select (at p) (e ∷ [])) (h.1 p)
      ∙ sym (select-append (at p) live (e ∷ [])),
)

select-Agrees :
    (q : HookEntry → Bool) (es live : List HookEntry)
    → Agrees es live
    → Agrees (select q es) (select q live)
unfolding Agrees
select-Agrees q es live h = (
  select-IsSorted q es h.0,
  λ p. select-select (at p) q es ∙ ap (select q) (h.1 p) ∙ select-select q (at p) live,
)

-- `unregister_all_by_plugin` filters the list of every type.
pub unregister_all_by_plugin-hooks :
    (plugin : String) (r : HookRegistry) (t : HookType)
    → (unregister_all_by_plugin plugin r).0.hooks t
      ≡ select (λ e. not (str_eq e.plugin_name plugin)) (r.hooks t)
unfolding unregister_all_by_plugin
unregister_all_by_plugin-hooks plugin r before_prompt_build = refl
unregister_all_by_plugin-hooks plugin r before_model_call = refl
unregister_all_by_plugin-hooks plugin r after_model_call = refl
unregister_all_by_plugin-hooks plugin r before_tool_call = refl
unregister_all_by_plugin-hooks plugin r after_tool_call = refl
unregister_all_by_plugin-hooks plugin r message_received = refl
unregister_all_by_plugin-hooks plugin r message_sending = refl

type_of : String → HookType
type_of s =
    if str_eq s "before_prompt_build"
    then before_prompt_build
    else if str_eq s "before_model_call"
    then before_model_call
    else if str_eq s "after_model_call"
    then after_model_call
    else if str_eq s "before_tool_call"
    then before_tool_call
    else if str_eq s "after_tool_call"
    then after_tool_call
    else if str_eq s "message_received"
    then message_received
    else message_sending

type_of-value : (t : HookType) → type_of (value t) ≡ t
unfolding type_of value
type_of-value before_prompt_build = refl
type_of-value before_model_call = refl
type_of-value after_model_call = refl
type_of-value before_tool_call = refl
type_of-value after_tool_call = refl
type_of-value message_received = refl
type_of-value message_sending = refl

same_type-hooks : (t u : HookType) (r : HookRegistry) → same_type t u ≡ true → r.hooks u ≡ r.hooks t
unfolding same_type
same_type-hooks t u r h =
    ap r.hooks (
      sym (type_of-value u) ∙ ap type_of (sym ((eq_iff (value t) (value u)).0 h)) ∙ type_of-value t)

run-Agrees :
    (ops : List Op) (t : HookType) (r : HookRegistry) (live : List HookEntry)
    → Agrees (r.hooks t) live
    → Agrees ((run ops r).hooks t) (in_force t ops live)
unfolding run in_force register unregister assign
run-Agrees [] t r live h = h
run-Agrees (op_register u handler priority plugin ∷ ops) t r live h =
    run-Agrees ops t (register u handler priority plugin r) _ (elim (Bool-cases (same_type t u)) [
      | inl e ↦ rw (e, same_type-hooks t u r e) (sorted-Agrees (r.hooks t) live _ h)
      | inr e ↦ rw e h
    ])
run-Agrees (op_unregister u handler ∷ ops) t r live h =
    run-Agrees ops t (unregister u handler r) _ (elim (Bool-cases (same_type t u)) [
      | inl e ↦
          rw (e, same_type-hooks t u r e)
            (select-Agrees (λ e. not (str_eq e.handler handler)) (r.hooks t) live h)
      | inr e ↦ rw e h
    ])
run-Agrees (op_unregister_plugin plugin ∷ ops) t r live h =
    run-Agrees ops t (unregister_all_by_plugin plugin r).0 _ (
      rw (unregister_all_by_plugin-hooks plugin r t)
        (select-Agrees (λ e. not (str_eq e.plugin_name plugin)) (r.hooks t) live h))

-- After any history of the registry, the entries of each type are sorted by priority, and those of
-- one priority are just the registrations that are in force, in the order in which they were made.
pub hooks-in_force :
    (ops : List Op) (t : HookType) (p : ℤ)
    → IsSorted ((run ops init).hooks t)
      × (select (at p) ((run ops init).hooks t) ≡ select (at p) (in_force t ops []))
unfolding Agrees init
hooks-in_force ops t p = let (s, h) = run-Agrees ops t init [] (tt, λ p. refl) in (s, h p)
