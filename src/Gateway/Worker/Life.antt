-- ===== src/Gateway/Worker/Life.antt =====
-- The life of a record in the registry, from `submit` on.
use you_mi_agent.Prelude.{ℕ, String, ◌≡◌, refl, false, some, eq_refl}
use you_mi_agent.Dict.{lookup-insert}
use you_mi_agent.Gateway.{running, finished, TaskRecord}
use you_mi_agent.Gateway.Registry.{Registry, put, get}
use you_mi_agent.Gateway.Registry.Eviction.{put-keeps_unfinished}
use you_mi_agent.Gateway.Worker.{cancelled, execute, started, publish_all, submit}

get-put_unfinished :
    (r : TaskRecord) (g : Registry) → finished r.status ≡ false → get r.task_id (put r g) ≡ some r
get-put_unfinished r g active =
    put-keeps_unfinished r r r.task_id g (rw (lookup-insert, eq_refl)) active

-- A task that is submitted can be looked up as it was registered, however full the registry is.
pub get-submit :
    (task_id task tenant : String) (now : ℕ) (g : Registry)
    → let (g', r) = submit task_id task tenant now g in get task_id g' ≡ some r
unfolding submit
get-submit task_id task tenant now g = get-put_unfinished _ g refl

-- A task whose worker is cancelled stays in the registry as running, without an end.
pub get_cancelled :
    (r : TaskRecord) (worker_id : String) (t u : ℕ) (g : Registry)
    → get r.task_id (publish_all (execute worker_id t u cancelled r) g)
      ≡ some (record r { status = running; started_at = some t; worker_id = worker_id })
unfolding execute publish_all
get_cancelled r worker_id t u g = get-put_unfinished (started worker_id t r) g refl
