-- ===== src/Plan/Lifecycle.antt =====
-- `_kill_runner`, `_create_runner` and `_model_needs_download` of src/exo/worker/plan.py.
pub mod Reasons
pub mod Creation
use awesome_distributed_ai_i.Base.{
  Bool, true, false, not, ◌&&◌, ◌||◌, Option, none, some, List, [], ◌∷◌, ◌==◌, if◌then◌else◌, any,
  Result, ok, raise, value_error, ◌>>=◌, first_of_loop,
}
use awesome_distributed_ai_i.Base.Dict.{Dict, get, set, has, values}
use awesome_distributed_ai_i.Types.{
  NodeId, ModelId, DownloadProgress, RunnerId, InstanceId, RunnerStatus, Instance, BoundInstance,
  bound_shard, shard, TaskId, TaskKind, Task,
}
use awesome_distributed_ai_i.Plan.Supervisor.{
  RunnerSupervisor, instance_of, status_is, is_idle, is_failed, is_pending, new_task,
}

-- `BoundInstance(...)`, with the validator's `assert`, which pydantic raises as a ValueError.
unfoldable pub bind_instance : Instance → RunnerId → NodeId → Result BoundInstance
bind_instance instance runner_id node_id =
    if has runner_id instance.shard_assignments.runner_to_shard
    then ok (record { instance = instance; bound_runner_id = runner_id; bound_node_id = node_id })
    else raise value_error

module _ (all_runners : Dict RunnerStatus) where
  -- The body of the loop of `_kill_runner`.
  unfoldable pub kill_reason : Dict Instance → RunnerSupervisor → Bool
  kill_reason instances runner =
      let runner_id = runner.bound_instance.bound_runner_id in
      let assignments = (instance_of runner).shard_assignments in
      if not (has (instance_of runner).instance_id instances)
      then true
      else if is_failed runner.status
      then true
      else any (λ g. not (runner_id == g) && status_is is_failed (get g all_runners))
          (values assignments.node_to_runner)

module _ (runners : Dict RunnerSupervisor) (all_runners : Dict RunnerStatus) where
  -- The body of the loop of `_create_runner`, for the runner that the instance has on this node.
  unfoldable pub may_create : (InstanceId → Bool) → Instance → RunnerId → Bool
  may_create should_proceed instance runner_id =
      let failed_elsewhere =
        any (λ r. not (r == runner_id) && status_is is_failed (get r all_runners))
          (values instance.shard_assignments.node_to_runner) in
      let failed_before = status_is is_failed (get runner_id all_runners) in
      if has runner_id runners
      then false
      else if failed_elsewhere && not failed_before
      then false
      else should_proceed instance.instance_id

module _ (fresh : TaskId) (runners : Dict RunnerSupervisor) (all_runners : Dict RunnerStatus) where
  unfoldable pub kill_for : Dict Instance → RunnerSupervisor → Result (Option Task)
  unfolding kill_reason
  kill_for instances runner =
      if kill_reason all_runners instances runner
      then ok (
          some (
            new_task fresh (instance_of runner).instance_id
              (TaskKind.shutdown runner.bound_instance.bound_runner_id)))
      else ok none

  unfoldable pub kill_runner : Dict Instance → Result (Option Task)
  unfolding kill_for
  kill_runner instances = first_of_loop (kill_for instances) (values runners)

  unfoldable pub create_on :
      NodeId → (InstanceId → Bool) → Instance → Option RunnerId → Result (Option Task)
  unfolding may_create bind_instance
  create_on node_id should_proceed instance none = ok none
  create_on node_id should_proceed instance (some runner_id) =
      if may_create runners all_runners should_proceed instance runner_id
      then (do
        bound ← bind_instance instance runner_id node_id
        ok (some (new_task fresh instance.instance_id (TaskKind.create_runner bound))))
      else ok none

  unfoldable pub create_runner : NodeId → Dict Instance → (InstanceId → Bool) → Result (Option Task)
  unfolding create_on
  create_runner node_id instances should_proceed =
      first_of_loop
        (λ instance.
          create_on node_id should_proceed instance
            (get node_id instance.shard_assignments.node_to_runner))
        (values instances)

-- `{dp.shard_metadata.model_card.model_id: dp for dp in downloads}`
abbrev pub by_model : List DownloadProgress → Dict DownloadProgress → Dict DownloadProgress
by_model [] acc = acc
by_model (dp ∷ dps) acc = by_model dps (set dp.shard_metadata.model_card.model_id dp acc)

abbrev pub or_empty {ℓ} : {A : Type ℓ} → Option (List A) → List A
or_empty none = []
or_empty (some xs) = xs

-- No download of the model has been started, or only a pending one.
abbrev pub is_not_started : Option DownloadProgress → Bool
is_not_started none = true
is_not_started (some dp) = is_pending dp.state

module _ (fresh : TaskId) where
  -- The body of the loop of `_model_needs_download`.
  unfoldable pub download_for :
      Dict DownloadProgress → (ModelId → Bool) → RunnerSupervisor → Result (Option Task)
  download_for download_status should_proceed runner = do
    bound ← bound_shard runner.bound_instance
    let model_id = bound.model_card.model_id
    if is_idle runner.status
          && is_not_started (get model_id download_status)
          && should_proceed model_id
        then ok
            (some (new_task fresh (instance_of runner).instance_id (TaskKind.download_model bound)))
        else ok none

  unfoldable pub model_needs_download :
      NodeId
      → Dict RunnerSupervisor
      → Dict (List DownloadProgress)
      → (ModelId → Bool)
      → Result (Option Task)
  unfolding download_for
  model_needs_download node_id runners global_download_status should_proceed =
      let download_status = by_model (or_empty (get node_id global_download_status)) [] in
      first_of_loop (download_for download_status should_proceed) (values runners)
