-- ===== src/Plan/Startup.antt =====
-- `_init_distributed_backend`, `_load_model` and `_ready_to_warmup` of src/exo/worker/plan.py.
pub mod Ranks
pub mod Progress
pub mod Loading
use awesome_distributed_ai_i.Base.{
  ◌-◌, Bool, true, false, not, ◌&&◌, ◌||◌, Option, none, some, List, ltb, ◌==◌, if◌then◌else◌,
  length, all, any, Result, ok, ◌>>=◌, ◌>>◌, assert, first_of_loop,
}
use awesome_distributed_ai_i.Base.Dict.{Dict, get, has, keys, values}
use awesome_distributed_ai_i.Types.{
  NodeId, ModelId, DownloadProgress, ShardMetadata, RunnerId, RunnerStatus, ShardAssignments,
  Instance, bound_shard, TaskId, TaskKind, Task,
}
use awesome_distributed_ai_i.Plan.Supervisor.{
  RunnerSupervisor, instance_of, status_is, is_idle, is_connecting, is_connected, is_loading,
  is_loaded, is_warming_up, is_completed, new_task,
}

abbrev pub is_single_node : Instance → Bool
is_single_node i = length i.shard_assignments.runner_to_shard == 1

module _ (all_runners : Dict RunnerStatus) where
  -- `all(isinstance(all_runners.get(id), classes) for id in runner_to_shard)`
  abbrev pub all_are : (RunnerStatus → Bool) → Instance → Bool
  all_are p i =
      all (λ g. status_is p (get g all_runners)) (keys i.shard_assignments.runner_to_shard)

  -- The same over the ids other than `runner_id`.
  abbrev pub others_are : (RunnerStatus → Bool) → RunnerId → Instance → Bool
  others_are p runner_id i =
      all (λ g. g == runner_id || status_is p (get g all_runners))
        (keys i.shard_assignments.runner_to_shard)

  -- Rank by rank: every rank but the last accepts at once, the last one connects to the others.
  unfoldable pub may_connect : RunnerId → Instance → ShardMetadata → Bool
  may_connect runner_id instance s =
      ltb s.device_rank (s.world_size - 1)
      || s.device_rank == s.world_size - 1 && others_are is_connecting runner_id instance

abbrev pub any_completed : ModelId → Option (List DownloadProgress) → Bool
any_completed model_id none = false
any_completed model_id (some dps) =
    any (λ dp. is_completed dp.state && dp.shard_metadata.model_card.model_id == model_id) dps

-- `all_local_downloads_complete`: every node of the instance has the model.
abbrev pub downloads_complete : Dict (List DownloadProgress) → ShardAssignments → Bool
downloads_complete downloads assignments =
    all (λ nid. any_completed assignments.model_id (get nid downloads))
      (keys assignments.node_to_runner)

module _ (all_runners : Dict RunnerStatus) where
  -- The conditions of the loop of `_load_model`.
  unfoldable pub may_load : Dict (List DownloadProgress) → RunnerSupervisor → Bool
  may_load downloads runner =
      let instance = instance_of runner in
      if not (downloads_complete downloads instance.shard_assignments)
      then false
      else if is_single_node instance && is_idle runner.status
      then true
      else is_connected runner.status
        && all_are all_runners (λ s. is_connected s || is_loading s || is_loaded s) instance

  -- Every rank but 0 warms up as soon as all have loaded; rank 0 when all others warm up.
  unfoldable pub may_warmup : RunnerSupervisor → ShardMetadata → Bool
  may_warmup runner s =
      let instance = instance_of runner in
      is_loaded runner.status
      && (ltb 0 s.device_rank && all_are all_runners (λ t. is_loaded t || is_warming_up t) instance
          || s.device_rank == 0
            && others_are all_runners is_warming_up runner.bound_instance.bound_runner_id instance)

module _ (fresh : TaskId) (all_runners : Dict RunnerStatus) where
  -- The body of the loop of `_init_distributed_backend`. Ranks are numbers, so that none is below 0.
  unfoldable pub connect_for : RunnerSupervisor → Result (Option Task)
  unfolding may_connect
  connect_for runner =
      let instance = instance_of runner in
      if is_single_node instance
      then ok none
      else if not (
          is_idle runner.status && all_are all_runners (λ s. is_connecting s || is_idle s) instance)
      then ok none
      else do
        s ← bound_shard runner.bound_instance
        assert (ltb s.device_rank s.world_size)
        if may_connect all_runners runner.bound_instance.bound_runner_id instance s
            then ok (some (new_task fresh instance.instance_id TaskKind.connect_to_group))
            else ok none

  unfoldable pub init_distributed_backend : Dict RunnerSupervisor → Result (Option Task)
  unfolding connect_for
  init_distributed_backend runners = first_of_loop connect_for (values runners)

  unfoldable pub load_model :
      Dict RunnerSupervisor → Dict (List DownloadProgress) → Result (Option Task)
  unfolding may_load
  load_model runners downloads =
      first_of_loop
        (λ runner.
          if may_load all_runners downloads runner
          then ok (some (new_task fresh (instance_of runner).instance_id TaskKind.load_model))
          else ok none)
        (values runners)

  -- The body of the loop of `_ready_to_warmup`.
  unfoldable pub warmup_for : RunnerSupervisor → Result (Option Task)
  unfolding may_warmup
  warmup_for runner = do
    s ← bound_shard runner.bound_instance
    assert (ltb s.device_rank s.world_size)
    if may_warmup all_runners runner s
        then ok (some (new_task fresh (instance_of runner).instance_id TaskKind.start_warmup))
        else ok none

  unfoldable pub ready_to_warmup : Dict RunnerSupervisor → Result (Option Task)
  unfolding warmup_for
  ready_to_warmup runners = first_of_loop warmup_for (values runners)
