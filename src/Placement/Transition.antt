-- ===== src/Placement/Transition.antt =====
-- src/exo/master/placement.py: the instances after a command, and the events that lead from the
-- instances of the state to them.
use awesome_distributed_ai_i.Base.{
  Bool, true, false, not, ◌&&◌, List, [], ◌∷◌, ◌++◌, map, ◌==◌, if◌then◌else◌, any, keep, Result,
  ok, raise, key_error, value_error, require, ◌>>=◌,
}
use awesome_distributed_ai_i.Base.Dict.{Dict, get, has, set, remove, values}
use awesome_distributed_ai_i.Types.{
  NodeId, ModelId, DownloadProgress, download_ongoing, RunnerId, InstanceId, Instance, TaskStatus,
  Task,
}
use awesome_distributed_ai_i.Apply.Data.{
  Event, instance_created, instance_deleted, task_status_updated,
}

-- `CancelDownload` of types/commands.py
pub record CancelDownload : Type 0 where
  pub target_node_id : NodeId
  pub model_id : ModelId

unfoldable pub add_instance_to_placements : Instance → Dict Instance → Dict Instance
add_instance_to_placements instance current_instances =
    set instance.instance_id instance current_instances

unfoldable pub delete_instance : InstanceId → Dict Instance → Result (Dict Instance)
delete_instance instance_id current_instances =
    if has instance_id current_instances
    then ok (remove instance_id current_instances)
    else raise value_error

-- `task_status in [TaskStatus.Pending, TaskStatus.Running]`
abbrev pub in_flight : TaskStatus → Bool
in_flight TaskStatus.pending = true
in_flight TaskStatus.running = true
in_flight _ = false

-- The first loop.
unfoldable pub creations : Dict Instance → (target_instances : Dict Instance) → List Event
creations current_instances [] = []
creations current_instances ((instance_id, instance) ∷ target_instances) =
    let rest = creations current_instances target_instances in
    if has instance_id current_instances then rest else instance_created instance ∷ rest

-- The loop over the tasks of an instance that goes.
unfoldable pub cancellations : InstanceId → List Task → List Event
cancellations instance_id [] = []
cancellations instance_id (task ∷ tasks) =
    let rest = cancellations instance_id tasks in
    if task.instance_id == instance_id && in_flight task.task_status
    then task_status_updated task.task_id TaskStatus.cancelled ∷ rest
    else rest

-- The second loop.
unfoldable pub deletions :
    (current_instances target_instances : Dict Instance) → List Task → List Event
unfolding cancellations
deletions [] target_instances tasks = []
deletions ((instance_id, instance) ∷ current_instances) target_instances tasks =
    let rest = deletions current_instances target_instances tasks in
    if has instance_id target_instances
    then rest
    else cancellations instance_id tasks ++ instance_deleted instance_id ∷ rest

unfoldable pub get_transition_events :
    (current_instances target_instances : Dict Instance) → Dict Task → List Event
unfolding creations deletions
get_transition_events current_instances target_instances tasks =
    creations current_instances target_instances
    ++ deletions current_instances target_instances (values tasks)

-- The models that a node is downloading.
unfoldable pub ongoing : NodeId → List DownloadProgress → List (NodeId × ModelId)
ongoing node_id [] = []
ongoing node_id (v ∷ vs) =
    let rest = ongoing node_id vs in
    elim v.state [
      | download_ongoing downloaded total ↦ (node_id, v.shard_metadata.model_card.model_id) ∷ rest
      | _ ↦ rest
    ]

unfoldable pub currently_downloading : Dict (List DownloadProgress) → List (NodeId × ModelId)
unfolding ongoing
currently_downloading [] = []
currently_downloading ((node_id, vs) ∷ download_status) =
    ongoing node_id vs ++ currently_downloading download_status

-- The nodes of an instance with their model.
unfoldable pub models_of : Instance → Dict RunnerId → Result (List (NodeId × ModelId))
models_of instance [] = ok []
models_of instance ((node_id, runner_id) ∷ node_to_runner) = do
  shard ← require key_error (get runner_id instance.shard_assignments.runner_to_shard)
  rest ← models_of instance node_to_runner
  ok ((node_id, shard.model_card.model_id) ∷ rest)

unfoldable pub active_models : List Instance → Result (List (NodeId × ModelId))
unfolding models_of
active_models [] = ok []
active_models (instance ∷ instances) = do
  models ← models_of instance instance.shard_assignments.node_to_runner
  rest ← active_models instances
  ok (models ++ rest)

abbrev same_pair : NodeId × ModelId → NodeId × ModelId → Bool
same_pair (a, b) (c, d) = (a == c) && (b == d)

abbrev cancel_pair : NodeId × ModelId → CancelDownload
cancel_pair (node_id, model_id) = record { target_node_id = node_id; model_id = model_id }

unfoldable pub cancel_unnecessary_downloads :
    Dict Instance → Dict (List DownloadProgress) → Result (List CancelDownload)
unfolding currently_downloading active_models
cancel_unnecessary_downloads instances download_status = do
  active ← active_models (values instances)
  ok (
      map cancel_pair
        (keep (λ pair. not (any (same_pair pair) active)) (currently_downloading download_status)))
