-- ===== src/Types/Runners.antt =====
-- Runners, instances and links between instances: types/worker/runners.py, types/worker/instances.py
-- and types/instance_link.py.
use Prim.Native.String.{String}
use awesome_distributed_ai_i.Base.{ℕ, Option, List, Result, assertion_error, require}
use awesome_distributed_ai_i.Base.Dict.{Dict, get}
use awesome_distributed_ai_i.Types.Models.{NodeId, ModelId, ShardMetadata}

abbrev pub RunnerId : Type 0
RunnerId = ℕ

abbrev pub InstanceId : Type 0
InstanceId = ℕ

pub data RunnerStatus : Type 0 where
  runner_idle runner_connecting runner_connected : RunnerStatus
  runner_loading : (layers_loaded total_layers : ℕ) → RunnerStatus
  runner_loaded runner_warming_up : RunnerStatus
  runner_ready : (prefill_server_port : Option ℕ) → RunnerStatus
  runner_running runner_shutting_down runner_shutdown : RunnerStatus
  runner_failed : (error_message : Option String) → RunnerStatus

pub record ShardAssignments : Type 0 where
  pub model_id : ModelId
  pub runner_to_shard : Dict ShardMetadata
  pub node_to_runner : Dict RunnerId

-- An IPv4 address is its number, and the text `ip:port` of a coordinator is a host.
pub record Host : Type 0 where
  pub ip : ℕ
  pub port : ℕ

-- What the subclasses of `BaseInstance` add. The names of RDMA interfaces are numbers.
pub data InstanceKind : Type 0 where
  mlx_ring : (hosts_by_node : Dict (List Host)) → (ephemeral_port : ℕ) → InstanceKind
  mlx_jaccl :
      (jaccl_devices : List (List (Option ℕ))) → (jaccl_coordinators : Dict Host) → InstanceKind

pub record Instance : Type 0 where
  pub instance_id : InstanceId
  pub shard_assignments : ShardAssignments
  pub kind : InstanceKind

pub record BoundInstance : Type 0 where
  pub instance : Instance
  pub bound_runner_id : RunnerId
  pub bound_node_id : NodeId

-- `instance.shard(runner_id)`
abbrev pub shard : Instance → RunnerId → Option ShardMetadata
shard i runner_id = get runner_id i.shard_assignments.runner_to_shard

-- `bound_shard`, with its `assert shard is not None`
abbrev pub bound_shard : BoundInstance → Result ShardMetadata
bound_shard b = require assertion_error (shard b.instance b.bound_runner_id)

abbrev pub InstanceLinkId : Type 0
InstanceLinkId = ℕ

pub record InstanceLink : Type 0 where
  pub link_id : InstanceLinkId
  pub prefill_instances : List InstanceId
  pub decode_instances : List InstanceId
