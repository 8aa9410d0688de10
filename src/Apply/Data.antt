-- ===== src/Apply/Data.antt =====
-- The state that events build (src/exo/shared/types/state.py) and the events
-- (src/exo/shared/types/events.py). Times are numbers.
use Prim.Native.String.{String}
use awesome_distributed_ai_i.Base.{ℕ, List, []}
use awesome_distributed_ai_i.Base.Dict.{Dict}
use awesome_distributed_ai_i.Base.Int.{ℤ, negsuc}
use awesome_distributed_ai_i.Types.{
  NodeId, ModelId, ModelCard, DownloadProgress, RunnerId, RunnerStatus, InstanceId, Instance,
  InstanceLinkId, InstanceLink, TaskId, TaskStatus, CommandId, Task, Backend, MemoryUsage,
  DiskUsage, SystemPerformanceProfile, NodeIdentity, NodeNetworkInfo, NodeThunderboltInfo,
  NodeRdmaCtlStatus, ThunderboltBridgeStatus, GatheredInfo, Connection,
}
use awesome_distributed_ai_i.Topology.{Topology, new}
use awesome_distributed_ai_i.Topology.Graph.{PyDiGraph}

pub record State (D : PyDiGraph) : Type 0 where
  pub instances : Dict Instance
  pub runners : Dict RunnerStatus
  pub downloads : Dict (List DownloadProgress)
  pub tasks : Dict Task
  pub last_seen : Dict ℕ
  pub topology : Topology D
  pub last_event_applied_idx : ℤ
  pub node_identities : Dict NodeIdentity
  pub node_memory : Dict MemoryUsage
  pub node_disk : Dict DiskUsage
  pub node_system : Dict SystemPerformanceProfile
  pub node_network : Dict NodeNetworkInfo
  pub node_thunderbolt : Dict NodeThunderboltInfo
  pub node_thunderbolt_bridge : Dict ThunderboltBridgeStatus
  pub node_rdma_ctl : Dict NodeRdmaCtlStatus
  pub node_backends : Dict (List Backend)
  pub thunderbolt_bridge_cycles : List (List NodeId)
  pub instance_links : Dict InstanceLink
  pub prefill_server_ports : Dict ℕ
  pub custom_model_cards : Dict ModelCard

unfoldable pub initial : (D : PyDiGraph) → State D
initial D = record {
  instances = [];
  runners = [];
  downloads = [];
  tasks = [];
  last_seen = [];
  topology = new D;
  last_event_applied_idx = negsuc 0;
  node_identities = [];
  node_memory = [];
  node_disk = [];
  node_system = [];
  node_network = [];
  node_thunderbolt = [];
  node_thunderbolt_bridge = [];
  node_rdma_ctl = [];
  node_backends = [];
  thunderbolt_bridge_cycles = [];
  instance_links = [];
  prefill_server_ports = [];
  custom_model_cards = [];
}

-- The chunks that an event carries change no state, so they are left out.
pub data Event : Type 0 where
  test_event : Event
  task_created : TaskId → Task → Event
  task_status_updated : TaskId → TaskStatus → Event
  task_failed : TaskId → (error_type error_message : String) → Event
  task_deleted task_acknowledged : TaskId → Event
  instance_created : Instance → Event
  instance_deleted : InstanceId → Event
  runner_status_updated : RunnerId → RunnerStatus → Event
  node_timed_out : NodeId → Event
  -- `when` is what `datetime.fromisoformat(event.when)` gives.
  node_gathered_info : NodeId → (when : ℕ) → GatheredInfo → Event
  node_download_progress : DownloadProgress → Event
  chunk_generated input_chunk_received : CommandId → Event
  topology_edge_created topology_edge_deleted : Connection → Event
  -- Traces are numbers, which nothing looks into.
  traces_collected : TaskId → (rank : ℕ) → (traces : List ℕ) → Event
  traces_merged : TaskId → (traces : List ℕ) → Event
  custom_model_card_added : ModelCard → Event
  custom_model_card_deleted : ModelId → Event
  instance_link_created : InstanceLink → Event
  instance_link_deleted : InstanceLinkId → Event

pub record IndexedEvent : Type 0 where
  pub idx : ℕ
  pub event : Event
