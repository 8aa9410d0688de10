-- ===== src/Apply/Handlers.antt =====
-- The handlers of src/exo/shared/apply.py, for all events but the gathered information.
use Prim.Native.String.{String}
use awesome_distributed_ai_i.Base.{
  ℕ, Bool, true, false, not, ◌||◌, Option, none, some, List, [], ◌∷◌, ◌==◌, if◌then◌else◌, keep,
  Result, ok, ◌>>=◌,
}
use awesome_distributed_ai_i.Base.Dict.{Dict, get, set, remove}
use awesome_distributed_ai_i.Types.{
  NodeId, ModelId, ModelCard, DownloadProgress, RunnerId, RunnerStatus, runner_ready,
  runner_shutdown, InstanceId, Instance, InstanceLinkId, InstanceLink, TaskId, TaskStatus, Task,
  TaskKind, TaskError, text_generation, image_generation, image_edits, ThunderboltBridgeStatus,
  Connection,
}
use awesome_distributed_ai_i.Topology.{add_connection, remove_connection, remove_node}
use awesome_distributed_ai_i.Topology.Graph.{PyDiGraph}
use awesome_distributed_ai_i.Topology.Cycles.{get_thunderbolt_bridge_cycles}
use awesome_distributed_ai_i.Apply.Data.{State}

abbrev model_of : DownloadProgress → ModelId
model_of dp = dp.shard_metadata.model_card.model_id

-- The loop of `apply_node_download_progress`: the first progress of the model is replaced, or the
-- new one comes last.
unfoldable pub record_progress : DownloadProgress → List DownloadProgress → List DownloadProgress
record_progress dp [] = dp ∷ []
record_progress dp (existing ∷ current) =
    if model_of existing == model_of dp then dp ∷ current else existing ∷ record_progress dp current

abbrev pub or_nothing {ℓ} : {A : Type ℓ} → Option (List A) → List A
or_nothing none = []
or_nothing (some xs) = xs

-- `task.model_copy(update={"error_type": …, "error_message": …})`; only the tasks of a generation
-- declare the fields, and nothing reads them of another.
abbrev pub with_error : TaskError → TaskKind → TaskKind
with_error e (text_generation command_id params _) = text_generation command_id params e
with_error e (image_generation command_id params _) = image_generation command_id params e
with_error e (image_edits command_id params _) = image_edits command_id params e
with_error e kind = kind

abbrev is_failure : TaskStatus → Bool
is_failure TaskStatus.failed = true
is_failure _ = false

abbrev is_shutdown : RunnerStatus → Bool
is_shutdown runner_shutdown = true
is_shutdown _ = false

abbrev no_error : TaskError
no_error = record { error_type = none; error_message = none }

unfoldable pub updated_task : TaskStatus → Task → Task
updated_task status task = record task {
  task_status = status;
  kind = if not (is_failure status) then with_error no_error task.kind else task.kind;
}

unfoldable pub failed_task : (error_type error_message : String) → Task → Task
failed_task error_type error_message task = record task {
  kind =
      with_error (record { error_type = some error_type; error_message = some error_message })
        task.kind;
}

abbrev pub is_empty {ℓ} : {A : Type ℓ} → List A → Bool
is_empty [] = true
is_empty (x ∷ xs) = false

-- The body of the loop of `apply_instance_deleted`: the link without the instance, none if one of
-- its sides is then empty. (A link that does not name the instance is the same either way.)
unfoldable pub unlink : InstanceId → InstanceLink → Option InstanceLink
unlink instance_id link =
    let prefill = keep (λ i. not (i == instance_id)) link.prefill_instances in
    let decode = keep (λ i. not (i == instance_id)) link.decode_instances in
    if is_empty prefill || is_empty decode
    then none
    else some (record link { prefill_instances = prefill; decode_instances = decode })

abbrev add_link : InstanceLinkId → Option InstanceLink → Dict InstanceLink → Dict InstanceLink
add_link link_id none new_links = new_links
add_link link_id (some link) new_links = set link_id link new_links

-- The loop itself, with the links built so far.
unfoldable pub unlink_all : InstanceId → Dict InstanceLink → Dict InstanceLink → Dict InstanceLink
unlink_all instance_id [] new_links = new_links
unlink_all instance_id ((link_id, link) ∷ links) new_links =
    unlink_all instance_id links (add_link link_id (unlink instance_id link) new_links)

abbrev with_port : RunnerId → RunnerStatus → Dict ℕ → Dict ℕ
with_port runner_id (runner_ready (some port)) ports = set runner_id port ports
with_port runner_id _ ports = ports

abbrev is_enabled : Option ThunderboltBridgeStatus → Bool
is_enabled none = false
is_enabled (some status) = status.enabled

module _ {D : PyDiGraph} where
  unfoldable pub apply_node_download_progress : DownloadProgress → State D → State D
  apply_node_download_progress dp state = record state {
    downloads =
        set dp.node_id (record_progress dp (or_nothing (get dp.node_id state.downloads)))
          state.downloads;
  }

  unfoldable pub apply_task_created : TaskId → Task → State D → State D
  apply_task_created task_id task state = record state { tasks = set task_id task state.tasks }

  unfoldable pub apply_task_deleted : TaskId → State D → State D
  apply_task_deleted task_id state = record state { tasks = remove task_id state.tasks }

  abbrev pub change_task : TaskId → (Task → Task) → Option Task → State D → State D
  change_task task_id change none state = state
  change_task task_id change (some task) state = record state {
    tasks = set task_id (change task) state.tasks;
  }

  unfoldable pub apply_task_status_updated : TaskId → TaskStatus → State D → State D
  apply_task_status_updated task_id status state =
      change_task task_id (updated_task status) (get task_id state.tasks) state

  unfoldable pub apply_task_failed :
      TaskId → (error_type error_message : String) → State D → State D
  apply_task_failed task_id error_type error_message state =
      change_task task_id (failed_task error_type error_message) (get task_id state.tasks) state

  unfoldable pub apply_instance_created : Instance → State D → State D
  apply_instance_created instance state = record state {
    instances = set instance.instance_id instance state.instances;
  }

  unfoldable pub apply_instance_deleted : InstanceId → State D → State D
  apply_instance_deleted instance_id state = record state {
    instances = remove instance_id state.instances;
    instance_links = unlink_all instance_id state.instance_links [];
  }

  unfoldable pub apply_instance_link_created : InstanceLink → State D → State D
  apply_instance_link_created link state = record state {
    instance_links = set link.link_id link state.instance_links;
  }

  unfoldable pub apply_instance_link_deleted : InstanceLinkId → State D → State D
  apply_instance_link_deleted link_id state = record state {
    instance_links = remove link_id state.instance_links;
  }

  unfoldable pub apply_runner_status_updated : RunnerId → RunnerStatus → State D → State D
  apply_runner_status_updated runner_id status state =
      if is_shutdown status
      then record state {
        runners = remove runner_id state.runners;
        prefill_server_ports = remove runner_id state.prefill_server_ports;
      }
      else record state {
        runners = set runner_id status state.runners;
        prefill_server_ports = with_port runner_id status state.prefill_server_ports;
      }

  unfoldable pub apply_node_timed_out : NodeId → State D → Result (State D)
  apply_node_timed_out node_id state =
      let topology = remove_node D node_id state.topology in
      let node_network = remove node_id state.node_network in
      let node_thunderbolt_bridge = remove node_id state.node_thunderbolt_bridge in
      do
        cycles ←
            if is_enabled (get node_id state.node_thunderbolt_bridge)
            then get_thunderbolt_bridge_cycles D node_thunderbolt_bridge node_network topology
            else ok state.thunderbolt_bridge_cycles
        ok (record state {
          downloads = remove node_id state.downloads;
          topology = topology;
          last_seen = remove node_id state.last_seen;
          node_memory = remove node_id state.node_memory;
          node_disk = remove node_id state.node_disk;
          node_system = remove node_id state.node_system;
          node_network = node_network;
          node_thunderbolt = remove node_id state.node_thunderbolt;
          node_thunderbolt_bridge = node_thunderbolt_bridge;
          node_rdma_ctl = remove node_id state.node_rdma_ctl;
          thunderbolt_bridge_cycles = cycles;
        })

  unfoldable pub apply_topology_edge_created : Connection → State D → Result (State D)
  apply_topology_edge_created conn state = do
    topology ← add_connection D conn state.topology
    ok (record state { topology = topology })

  unfoldable pub apply_topology_edge_deleted : Connection → State D → Result (State D)
  apply_topology_edge_deleted conn state = do
    topology ← remove_connection D conn state.topology
    ok (record state { topology = topology })

  unfoldable pub apply_custom_model_card_added : ModelCard → State D → State D
  apply_custom_model_card_added card state = record state {
    custom_model_cards = set card.model_id card state.custom_model_cards;
  }

  unfoldable pub apply_custom_model_card_deleted : ModelId → State D → State D
  apply_custom_model_card_deleted model_id state = record state {
    custom_model_cards = remove model_id state.custom_model_cards;
  }
