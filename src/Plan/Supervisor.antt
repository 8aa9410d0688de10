-- ===== src/Plan/Supervisor.antt =====
-- What src/exo/worker/plan.py reads of a runner's supervisor, and its tests on statuses.
use awesome_distributed_ai_i.Base.{Bool, true, false, Option, none, some, List}
use awesome_distributed_ai_i.Types.{
  DownloadState, download_pending, download_completed, InstanceId, RunnerStatus, runner_idle,
  runner_connecting, runner_connected, runner_loading, runner_loaded, runner_warming_up,
  runner_ready, runner_running, runner_failed, Instance, BoundInstance, TaskId, TaskStatus,
  TaskKind, Task,
}

-- What a plan reads of a `RunnerSupervisor`.
pub record RunnerSupervisor : Type 0 where
  pub bound_instance : BoundInstance
  pub status : RunnerStatus
  pub completed : List TaskId
  pub in_progress : List TaskId
  pub cancelled : List TaskId

abbrev pub instance_of : RunnerSupervisor → Instance
instance_of r = r.bound_instance.instance

-- `isinstance(all_runners.get(id), classes)`
abbrev pub status_is : (RunnerStatus → Bool) → Option RunnerStatus → Bool
status_is p none = false
status_is p (some s) = p s

abbrev pub is_idle : RunnerStatus → Bool
is_idle runner_idle = true
is_idle _ = false

abbrev pub is_connecting : RunnerStatus → Bool
is_connecting runner_connecting = true
is_connecting _ = false

abbrev pub is_connected : RunnerStatus → Bool
is_connected runner_connected = true
is_connected _ = false

abbrev pub is_loading : RunnerStatus → Bool
is_loading (runner_loading _ _) = true
is_loading _ = false

abbrev pub is_loaded : RunnerStatus → Bool
is_loaded runner_loaded = true
is_loaded _ = false

abbrev pub is_warming_up : RunnerStatus → Bool
is_warming_up runner_warming_up = true
is_warming_up _ = false

abbrev pub is_serving : RunnerStatus → Bool
is_serving (runner_ready _) = true
is_serving runner_running = true
is_serving _ = false

abbrev pub is_failed : RunnerStatus → Bool
is_failed (runner_failed _) = true
is_failed _ = false

abbrev pub is_completed : DownloadState → Bool
is_completed (download_completed _ _) = true
is_completed _ = false

abbrev pub is_pending : DownloadState → Bool
is_pending (download_pending _ _) = true
is_pending _ = false

abbrev pub new_task : TaskId → InstanceId → TaskKind → Task
new_task fresh i kind = record {
  task_id = fresh;
  task_status = TaskStatus.pending;
  instance_id = i;
  kind = kind;
}
