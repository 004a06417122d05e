-- ===== src/Gateway/Wiring.antt =====
-- youmi/gateway/service.py and youmi/gateway/worker.py: which registry the gateway and its workers
-- use. Registries are shared objects, so each carries the identity of its object.
use you_mi_agent.Prelude.{ℕ, Option, none, some, ◌==◌, if◌then◌else◌}
use you_mi_agent.Gateway.Registry.{Registry, new, total}

pub record Shared : Type 0 where
  pub object : ℕ
  pub registry : Registry

-- `TaskRegistry()`, a new object
default_registry : ℕ → Shared
default_registry fresh = record { object = fresh; registry = new 1000 }

-- `registry or TaskRegistry()`: a `TaskRegistry` has a `__len__`, so one without records is false.
or_new : ℕ → Option Shared → Shared
unfolding default_registry
or_new fresh none = default_registry fresh
or_new fresh (some s) = if total s.registry == 0 then default_registry fresh else s

-- `GatewayService.__init__` with an executor: the registry of the service, and the registry of the
-- pool that it makes. The two numbers are the identities of the objects that are made on the way.
unfoldable pub registries : ℕ → ℕ → Option Shared → Shared × Shared
unfolding or_new
registries f1 f2 registry = let s = or_new f1 registry in (s, or_new f2 (some s))
