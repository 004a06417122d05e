-- ===== src/Breaker/Registry.antt =====
-- youmi/core/resilience.py, `CircuitBreakerRegistry`: the breakers by name.
--
-- Callers keep the breaker that `get` hands out and change it in place; here a caller writes it back
-- under its name (`store`).
use you_mi_agent.Prelude.{
  String, ◌≡◌, not, ◌&&◌, Option, none, some, [], ◌∷◌, arith, str_eq, eq_iff, if◌then◌else◌, refl,
}
use you_mi_agent.Dict.{Dict, lookup, insert, lookup-insert}
use you_mi_agent.Breaker.{Config, Breaker, init, reset}

pub record Registry : Type 0 where
  pub default_config : Config
  pub breakers : Dict Breaker

-- `config or self._default_config`
or_default : Config → Option Config → Config
or_default d none = d
or_default d (some c) = c

store : Registry → String → Breaker → Registry
store r name b = record r { breakers = insert name b r.breakers }

-- The second branch of `get`: a breaker that is disabled gives way to an enabled one.
found : Registry → String → Breaker → Option Config → Registry × Breaker
unfolding store
found r name b none = (r, b)
found r name b (some c) =
    if not b.config.enabled && c.enabled then (store r name (init name c), init name c) else (r, b)

get_at : Option Breaker → Registry → String → Option Config → Registry × Breaker
unfolding found or_default store
get_at none r name config =
    let b = init name (or_default r.default_config config) in (store r name b, b)
get_at (some b) r name config = found r name b config

unfoldable pub get : Registry → String → Option Config → Registry × Breaker
unfolding get_at
get r name config = get_at (lookup name r.breakers) r name config

reset_values : Dict Breaker → Dict Breaker
reset_values [] = []
reset_values ((k, b) ∷ d) = (k, reset b) ∷ reset_values d

unfoldable pub reset_all : Registry → Registry
unfolding reset_values
reset_all r = record r { breakers = reset_values r.breakers }

lookup-store :
    (r : Registry) (name j : String) (b : Breaker)
    → lookup j (store r name b).breakers ≡ (if str_eq name j then some b else lookup j r.breakers)
unfolding store
lookup-store r name j b = lookup-insert name j b r.breakers

lookup-get_at :
    (o : Option Breaker) (r : Registry) (name other : String) (config : Option Config)
    → lookup name r.breakers ≡ o
    → let (r', b) = get_at o r name config in
      (lookup name r'.breakers ≡ some b)
      × (lookup other r'.breakers ≡ (if str_eq name other then some b else lookup other r.breakers))
unfolding get_at
lookup-get_at none r name other config h =
    let b = init name (or_default r.default_config config) in
    ground (arith, lookup-store r name name b, lookup-store r name other b, eq_iff name name)
lookup-get_at (some b) r name other none h = ground (arith, eq_iff name other)
lookup-get_at (some b) r name other (some c) h = ground (
  arith,
  lookup-store r name name (init name c),
  lookup-store r name other (init name c),
  eq_iff name name,
  eq_iff name other,
)

get_found :
    (r : Registry) (name : String) {b : Breaker}
    → lookup name r.breakers ≡ some b
    → get r name none ≡ (r, b)
unfolding get
get_found r name h = rw h

lookup-get :
    (r : Registry) (name other : String) (config : Option Config)
    → let (r', b) = get r name config in
      (lookup name r'.breakers ≡ some b)
      × (lookup other r'.breakers ≡ (if str_eq name other then some b else lookup other r.breakers))
unfolding get
lookup-get r name other config = lookup-get_at (lookup name r.breakers) r name other config refl

-- The breaker that `get` returns is the one that the registry then holds under the name, the other
-- names keep theirs, and `get` with no configuration returns it again and changes nothing.
pub get-stable :
    (r : Registry) (name other : String) (config : Option Config)
    → let (r', b) = get r name config in
      (lookup name r'.breakers ≡ some b)
      × (lookup other r'.breakers ≡ (if str_eq name other then some b else lookup other r.breakers))
      × (get r' name none ≡ (r', b))
get-stable r name other config =
    let both = lookup-get r name other config in
    (both.0, both.1, get_found (get r name config).0 name both.0)

lookup-reset_values :
    (name : String) (d : Dict Breaker)
    → lookup name (reset_values d) ≡ elim (lookup name d) [ none ↦ none | some b ↦ some (reset b) ]
unfolding reset_values
lookup-reset_values name [] = refl
lookup-reset_values name ((k, b) ∷ d) = ground (arith, lookup-reset_values name d)

-- After `reset_all` every breaker that the registry held is reset, and no name is added or lost.
pub lookup-reset_all :
    (r : Registry) (name : String)
    → lookup name (reset_all r).breakers
      ≡ elim (lookup name r.breakers) [ none ↦ none | some b ↦ some (reset b) ]
unfolding reset_all
lookup-reset_all r name = lookup-reset_values name r.breakers
