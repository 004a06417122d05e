-- ===== src/Hooks.antt =====
-- youmi/core/hooks.py: the registry of hooks, and the chain of handlers that a hook calls.
--
-- A handler is the name of a function object, so that `is` compares names. What a call of it does
-- is an argument: it returns a decision or raises, and leaves the context, which it may change. It
-- does not change the registry whose list the chain goes through.
pub mod Chain
pub mod Sorting
pub mod Registrations
pub mod Plugins
pub mod Examples
use you_mi_agent.Prelude.{
  ℕ, ◌+◌, ◌-◌, String, Bool, true, false, not, ◌&&◌, Option, none, some, List, [], ◌∷◌, ◌++◌, leb,
  str_eq, if◌then◌else◌, length, select,
}
use you_mi_agent.Prelude.Int.{ℤ, pos, negsuc}
use you_mi_agent.Dict.{Dict, insert}

pub data HookType : Type 0 where
  before_prompt_build before_model_call after_model_call before_tool_call : HookType
  after_tool_call message_received message_sending : HookType

unfoldable pub value : HookType → String
value before_prompt_build = "before_prompt_build"
value before_model_call = "before_model_call"
value after_model_call = "after_model_call"
value before_tool_call = "before_tool_call"
value after_tool_call = "after_tool_call"
value message_received = "message_received"
value message_sending = "message_sending"

-- Equality of the `str` enum.
unfoldable pub same_type : HookType → HookType → Bool
unfolding value
same_type t u = str_eq (value t) (value u)

pub data HookDecisionType : Type 0 where
  pass modify block : HookDecisionType

-- The fields that no part of the registry reads are one value.
pub record HookContext (F V : Type 0) : Type 0 where
  pub hook_type : HookType
  pub fields : F
  pub extra : Dict V

pub record HookDecision (V : Type 0) : Type 0 where
  pub decision : HookDecisionType
  pub modified_data : Dict V
  pub reason : String

unfoldable pub pass_through : {V : Type 0} → HookDecision V
pass_through = record { decision = pass; modified_data = []; reason = "" }

pub record HookEntry : Type 0 where
  pub hook_type : HookType
  pub handler : String
  pub priority : ℤ
  pub plugin_name : String

pub record HookRegistry : Type 0 where
  pub hooks : HookType → List HookEntry

unfoldable pub init : HookRegistry
init = record { hooks = λ t. [] }

-- `a <= b`
unfoldable pub leq : ℤ → ℤ → Bool
leq (pos a) (pos b) = leb a b
leq (negsuc a) (pos b) = true
leq (pos a) (negsuc b) = false
leq (negsuc a) (negsuc b) = leb b a

-- `entries.sort(key=lambda e: e.priority)`, which is stable.
unfoldable pub insert_entry : HookEntry → List HookEntry → List HookEntry
unfolding leq
insert_entry e [] = e ∷ []
insert_entry e (x ∷ xs) =
    let rest = insert_entry e xs in if leq x.priority e.priority then x ∷ rest else e ∷ (x ∷ xs)

unfoldable pub sort_onto : List HookEntry → List HookEntry → List HookEntry
unfolding insert_entry
sort_onto done [] = done
sort_onto done (e ∷ es) = sort_onto (insert_entry e done) es

-- `self._hooks[hook_type] = entries`
unfoldable pub assign : HookType → List HookEntry → HookRegistry → HookRegistry
unfolding same_type
assign t es r = record { hooks = λ u. if same_type u t then es else r.hooks u }

unfoldable pub register : HookType → String → ℤ → String → HookRegistry → HookRegistry
unfolding sort_onto assign
register t handler priority plugin r =
    let entry : HookEntry = record {
      hook_type = t;
      handler = handler;
      priority = priority;
      plugin_name = plugin;
    } in
    assign t (sort_onto [] (r.hooks t ++ (entry ∷ []))) r

unfoldable pub unregister : HookType → String → HookRegistry → HookRegistry
unfolding assign
unregister t handler r = assign t (select (λ e. not (str_eq e.handler handler)) (r.hooks t)) r

-- The loop over the hook types, with the count so far.
unfoldable pub unregister_types : String → List HookType → ℕ → HookRegistry → HookRegistry × ℕ
unfolding assign
unregister_types plugin [] n r = (r, n)
unregister_types plugin (t ∷ ts) n r =
    let kept = select (λ e. not (str_eq e.plugin_name plugin)) (r.hooks t) in
    unregister_types plugin ts (n + (length (r.hooks t) - length kept)) (assign t kept r)

abbrev pub hook_types : List HookType
hook_types =
    before_prompt_build ∷ before_model_call ∷ after_model_call ∷ before_tool_call ∷ after_tool_call
    ∷ message_received ∷ message_sending ∷ []

unfoldable pub unregister_all_by_plugin : String → HookRegistry → HookRegistry × ℕ
unfolding unregister_types
unregister_all_by_plugin plugin r = unregister_types plugin hook_types 0 r

pub data HandlerEnd (F V : Type 0) : Type 0 where
  returned : HookDecision V → HookContext F V → HandlerEnd F V
  raised : HookContext F V → HandlerEnd F V

-- What `invoke` returns and leaves, with the calls that it made: each with its decision, if it
-- returned one.
pub record Invoked (F V : Type 0) : Type 0 where
  pub result : HookDecision V
  pub context : HookContext F V
  pub calls : List (HookEntry × Option (HookDecision V))

-- `context.extra.update(...)`
unfoldable pub update : {V : Type 0} → Dict V → Dict V → Dict V
update [] d = d
update ((k, v) ∷ new) d = update new (insert k v d)

unfoldable pub blocks : {V : Type 0} → HookDecision V → Bool
blocks d = elim d.decision [ block ↦ true | _ ↦ false ]

module _ {F V : Type 0} where
  after_decision : HookDecision V → HookContext F V → HookContext F V
  unfolding update
  after_decision d c = elim d.decision [
    | modify ↦ record c { extra = update d.modified_data c.extra }
    | _ ↦ c
  ]

  called : HookEntry → Option (HookDecision V) → Invoked F V → Invoked F V
  called e d q = record q { calls = (e, d) ∷ q.calls }

  -- The chain over the entries, with the last decision.
  unfoldable pub chain :
      (HookEntry → HookContext F V → HandlerEnd F V)
      → List HookEntry
      → HookDecision V
      → HookContext F V
      → Invoked F V
  unfolding after_decision blocks called
  chain call [] last c = record { result = last; context = c; calls = [] }
  chain call (e ∷ es) last c = elim (call e c) [
    | raised c' ↦ called e none (chain call es last c')
    | returned d c' ↦
        let rest = chain call es d (after_decision d c') in
        if blocks d
        then record { result = d; context = c'; calls = (e, some d) ∷ [] }
        else called e (some d) rest
  ]

  unfoldable pub invoke :
      (HookEntry → HookContext F V → HandlerEnd F V)
      → HookType
      → HookContext F V
      → HookRegistry
      → Invoked F V
  unfolding chain pass_through
  invoke call t c r = chain call (r.hooks t) pass_through c

unfoldable pub has_hooks : HookType → HookRegistry → Bool
has_hooks t r = elim (r.hooks t) [ [] ↦ false | x ∷ xs ↦ true ]

unfoldable pub hook_count : HookType → HookRegistry → ℕ
hook_count t r = length (r.hooks t)
