-- ===== src/Gateway/Registry.antt =====
-- youmi/gateway/registry.py: `TaskRegistry`. An `OrderedDict` keeps the place of a key that is
-- written again, as `Dict` does. `max_records` and `limit` are natural numbers: 0 stands for every
-- value that the source reads as "no limit".
pub mod Eviction
pub mod Listing
use you_mi_agent.Prelude.{
  ℕ, zero, suc, ◌+◌, ◌-◌, String, Bool, true, false, ◌&&◌, ◌||◌, Option, none, some, List, [], ◌∷◌,
  leb, ltb, ◌==◌, str_eq, if◌then◌else◌, length, select, count, take,
}
use mathlib.Core.List.{reverse}
use you_mi_agent.Dict.{Dict, lookup, insert, values}
use you_mi_agent.Gateway.{
  TaskStatus, queued, running, completed, failed, cancelled, finished, TaskRecord,
}

pub record Registry : Type 0 where
  pub records : Dict TaskRecord
  pub max_records : ℕ

-- `TaskRegistry(max_records)`
unfoldable pub new : ℕ → Registry
new max_records = record { records = []; max_records = max_records }

-- The loop of `_evict_if_needed`, with the overflow left.
unfoldable pub evict : ℕ → Dict TaskRecord → Dict TaskRecord
evict zero d = d
evict (suc n) [] = []
evict (suc n) ((k, r) ∷ d) =
    let gone = evict n d in
    let kept = (k, r) ∷ evict (suc n) d in if finished r.status then gone else kept

evict_if_needed : Registry → Registry
unfolding evict
evict_if_needed g =
    if g.max_records == 0 || leb (length g.records) g.max_records
    then g
    else record g { records = evict (length g.records - g.max_records) g.records }

unfoldable pub put : TaskRecord → Registry → Registry
unfolding evict_if_needed
put r g = evict_if_needed (record g { records = insert r.task_id r g.records })

unfoldable pub get : String → Registry → Option TaskRecord
get task_id g = lookup task_id g.records

unfoldable pub same_status : TaskStatus → TaskStatus → Bool
same_status queued queued = true
same_status running running = true
same_status completed completed = true
same_status failed failed = true
same_status cancelled cancelled = true
same_status _ _ = false

-- `if tenant is not None: records = [r for r in records if r.tenant == tenant]`
of_tenant : Option String → List TaskRecord → List TaskRecord
of_tenant none rs = rs
of_tenant (some t) rs = select (λ r. str_eq r.tenant t) rs

of_status : Option TaskStatus → List TaskRecord → List TaskRecord
unfolding same_status
of_status none rs = rs
of_status (some s) rs = select (λ r. same_status r.status s) rs

limited : ℕ → List TaskRecord → List TaskRecord
limited limit rs = if ltb 0 limit then take limit rs else rs

unfoldable pub list : Option String → Option TaskStatus → ℕ → Registry → List TaskRecord
unfolding of_tenant of_status limited
list tenant status limit g =
    limited limit (of_status status (of_tenant tenant (reverse (values g.records))))

-- `by_status` of `stats`
unfoldable pub by_status : Registry → TaskStatus → ℕ
unfolding same_status
by_status g s = count (λ r. same_status r.status s) (values g.records)

-- `total` of `stats`, and `__len__`
unfoldable pub total : Registry → ℕ
total g = length g.records
