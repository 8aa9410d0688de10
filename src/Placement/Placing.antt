-- ===== src/Placement/Placing.antt =====
-- `place_instance` of src/exo/master/placement.py. The fresh identifiers and the port that it draws
-- are arguments.
use awesome_distributed_ai_i.Base.{
  ℕ, Bool, true, false, ◌&&◌, Option, none, some, List, [], ◌∷◌, ltb, ◌==◌, if◌then◌else◌, length,
  all, any, keep, Result, ok, raise, key_error, value_error, assertion_error, require, ◌>>=◌, ◌>>◌,
}
use awesome_distributed_ai_i.Base.Dict.{Dict, get, set}
use awesome_distributed_ai_i.Types.{
  NodeId, ModelId, Memory, MemoryUsage, Backend, mlx_metal, mlx_cpu, mlx_cuda, NodeNetworkInfo,
  NodeRdmaCtlStatus, DownloadProgress, DownloadState, download_completed, download_failed,
  download_ongoing, download_pending, RunnerId, InstanceId, Instance, InstanceKind,
  ShardAssignments,
}
use awesome_distributed_ai_i.Topology.Graph.{PyDiGraph}
use awesome_distributed_ai_i.Topology.{Topology}
use awesome_distributed_ai_i.Topology.Cycles.{Cycle}
use awesome_distributed_ai_i.Topology.Rings.{get_subgraph_from_nodes, node_is_leaf, is_rdma_cycle}
use awesome_distributed_ai_i.Placement.Floats.{Floats}
use awesome_distributed_ai_i.Placement.Layers.{total_available}
use awesome_distributed_ai_i.Placement.Shards.{Sharding, get_shard_assignments}
use awesome_distributed_ai_i.Placement.Wiring.{
  get_mlx_ring_hosts_by_node, get_mlx_jaccl_devices_matrix, get_mlx_jaccl_coordinators,
}
use awesome_distributed_ai_i.Placement.Search.{
  InstanceMeta, mlx_ring, mlx_jaccl, PlaceInstance, Settings, CycleSearch, is_empty,
  smallest_placeable_cycles,
}

abbrev backend_eq : Backend → Backend → Bool
backend_eq Backend.mlx_metal Backend.mlx_metal = true
backend_eq Backend.mlx_cpu Backend.mlx_cpu = true
backend_eq Backend.mlx_cuda Backend.mlx_cuda = true
backend_eq Backend.vllm Backend.vllm = true
backend_eq _ _ = false

abbrev pub has_backend : List Backend → Backend → Bool
has_backend backends b = any (backend_eq b) backends

-- `INSTANCE_META_BACKENDS`
abbrev pub instance_meta_backends : InstanceMeta → List Backend
instance_meta_backends mlx_ring = mlx_metal ∷ mlx_cuda ∷ mlx_cpu ∷ []
instance_meta_backends mlx_jaccl = mlx_metal ∷ []

abbrev pub no_backend : List Backend → Bool
no_backend [] = true
no_backend (b ∷ bs) = false

abbrev or_none_known : Option (List Backend) → List Backend
or_none_known none = []
or_none_known (some backends) = backends

-- `set(node_backends.get(node_id, [])) & required_backends` is not empty, for all nodes.
abbrev pub supports : Dict (List Backend) → (required_backends : List Backend) → Cycle → Bool
supports node_backends required cycle =
    all (λ node_id. any (has_backend (or_none_known (get node_id node_backends))) required) cycle

abbrev is_enabled : Option NodeRdmaCtlStatus → Bool
is_enabled none = false
is_enabled (some status) = status.enabled

abbrev pub all_rdma_ctl_enabled : Dict NodeRdmaCtlStatus → Cycle → Bool
all_rdma_ctl_enabled rdma_ctl_status cycle =
    all (λ node_id. is_enabled (get node_id rdma_ctl_status)) cycle

-- What the command draws afresh.
pub record Drawn : Type 0 where
  pub runner_ids : ℕ → RunnerId
  pub instance_id : InstanceId
  pub ephemeral_port : ℕ

module _ (F : Floats) where
  abbrev fraction_of : (downloaded total : Memory) → F.Float
  fraction_of downloaded total = if ltb 0 total then F.divide downloaded total else F.zero_float

  abbrev state_fraction : DownloadState → F.Float
  state_fraction (download_completed total read_only) = F.one_float
  state_fraction (download_ongoing downloaded total) = fraction_of downloaded total
  state_fraction (download_pending downloaded total) = fraction_of downloaded total
  state_fraction (download_failed error_message) = F.zero_float

  -- The loop of `_get_node_download_fraction`: the first progress of the model.
  unfoldable pub fraction_among : ModelId → List DownloadProgress → F.Float
  fraction_among model_id [] = F.zero_float
  fraction_among model_id (progress ∷ rest) =
      if progress.shard_metadata.model_card.model_id == model_id
      then state_fraction progress.state
      else fraction_among model_id rest

  abbrev or_no_downloads : Option (List DownloadProgress) → List DownloadProgress
  or_no_downloads none = []
  or_no_downloads (some downloads) = downloads

  unfoldable pub get_node_download_fraction :
      NodeId → ModelId → Dict (List DownloadProgress) → F.Float
  unfolding fraction_among
  get_node_download_fraction node_id model_id download_status =
      fraction_among model_id (or_no_downloads (get node_id download_status))

  -- `sum(...)`, with the sum so far.
  unfoldable pub download_score : F.Float → Cycle → ModelId → Dict (List DownloadProgress) → F.Float
  unfolding get_node_download_fraction
  download_score score [] model_id download_status = score
  download_score score (node_id ∷ cycle) model_id download_status =
      download_score (F.plus score (get_node_download_fraction node_id model_id download_status))
        cycle model_id download_status

  -- `a > b` of the pairs of a score and an amount of memory.
  abbrev pub better : F.Float × Memory → F.Float × Memory → Bool
  better (a, memory_a) (b, memory_b) =
      if F.lt b a then true else if F.lt a b then false else ltb memory_b memory_a

  unfoldable pub cycle_key :
      ModelId → Dict (List DownloadProgress) → Dict MemoryUsage → Cycle → Result (F.Float × Memory)
  unfolding download_score
  cycle_key model_id download_status node_memory cycle = do
    memory ← total_available cycle node_memory
    ok (download_score F.zero_float cycle model_id download_status, memory)

  -- `max(candidate_cycles, key=...)`: the first of the greatest, given the best so far.
  unfoldable pub best_cycle :
      (key : Cycle → Result (F.Float × Memory))
      → Cycle
      → F.Float × Memory
      → List Cycle
      → Result Cycle
  best_cycle key best best_key [] = ok best
  best_cycle key best best_key (cycle ∷ cycles) = do
    k ← key cycle
    best_cycle key (if better k best_key then cycle else best)
        (if better k best_key then k else best_key) cycles

  unfoldable pub select_cycle :
      (key : Cycle → Result (F.Float × Memory)) → List Cycle → Result Cycle
  unfolding best_cycle
  select_cycle key [] = raise value_error
  select_cycle key (cycle ∷ cycles) = do k ← key cycle; best_cycle key cycle k cycles

-- `get_device_rank`
abbrev get_device_rank : ShardAssignments → NodeId → Result ℕ
get_device_rank assignments node_id = do
  runner_id ← require key_error (get node_id assignments.node_to_runner)
  shard_metadata ← require assertion_error (get runner_id assignments.runner_to_shard)
  ok shard_metadata.device_rank

unfoldable pub zero_node_ids : ShardAssignments → List NodeId → Result (List NodeId)
zero_node_ids assignments [] = ok []
zero_node_ids assignments (node_id ∷ node_ids) = do
  rank ← get_device_rank assignments node_id
  rest ← zero_node_ids assignments node_ids
  ok (if rank == 0 then node_id ∷ rest else rest)

-- `assert len(zero_node_ids) == 1`, and the one.
abbrev the_only : List NodeId → Result NodeId
the_only (node_id ∷ []) = ok node_id
the_only _ = raise assertion_error

-- A cycle of one node is a pipeline over a ring.
abbrev pub sharding_for : (one_node : Bool) → PlaceInstance → Sharding
sharding_for true command = Sharding.pipeline
sharding_for false command = command.sharding

abbrev pub meta_for : (one_node : Bool) → PlaceInstance → InstanceMeta
meta_for true command = mlx_ring
meta_for false command = command.instance_meta

module _ (D : PyDiGraph) where
  -- The cycles that are RDMA cycles and whose nodes all have RDMA enabled.
  unfoldable pub rdma_cycles :
      Topology D → Dict NodeRdmaCtlStatus → List Cycle → Result (List Cycle)
  rdma_cycles t rdma_ctl_status [] = ok []
  rdma_cycles t rdma_ctl_status (cycle ∷ cycles) = do
    connected ← is_rdma_cycle D cycle t
    rest ← rdma_cycles t rdma_ctl_status cycles
    ok (if connected && all_rdma_ctl_enabled rdma_ctl_status cycle then cycle ∷ rest else rest)

  abbrev pub for_meta : InstanceMeta → (smallest smallest_rdma : List Cycle) → Result (List Cycle)
  for_meta mlx_ring smallest smallest_rdma = ok smallest
  for_meta mlx_jaccl smallest smallest_rdma =
      if is_empty smallest_rdma then raise value_error else ok smallest_rdma

  abbrev pub prefer_leaves : Topology D → List Cycle → List Cycle
  prefer_leaves t cycles =
      let with_leaves = keep (λ cycle. any (λ node_id. node_is_leaf D node_id t) cycle) cycles in
      if is_empty with_leaves then cycles else with_leaves

  -- The `match` on the kind of the instance.
  unfoldable pub instance_kind :
      InstanceMeta
      → (selected_cycle : Cycle) → ShardAssignments
      → (cycle_digraph : Topology D) → Dict NodeNetworkInfo
      → (ephemeral_port : ℕ) → Result InstanceKind
  unfolding zero_node_ids
  instance_kind mlx_jaccl selected_cycle assignments cycle_digraph node_network port = do
    zero_nodes ← zero_node_ids assignments selected_cycle
    coordinator ← the_only zero_nodes
    devices ← get_mlx_jaccl_devices_matrix D selected_cycle cycle_digraph
    coordinators ← get_mlx_jaccl_coordinators D coordinator port cycle_digraph node_network
    ok (InstanceKind.mlx_jaccl devices coordinators)
  instance_kind mlx_ring selected_cycle assignments cycle_digraph node_network port = do
    hosts_by_node ← get_mlx_ring_hosts_by_node D selected_cycle cycle_digraph port node_network
    ok (InstanceKind.mlx_ring hosts_by_node port)

  -- The cycle on which the command places its instance.
  unfoldable pub selected_cycle :
      Floats
      → Settings
      → PlaceInstance
      → Topology D
      → Dict MemoryUsage
      → Dict (List Backend)
      → (required_nodes : List NodeId) → Dict (List DownloadProgress)
      → Dict NodeRdmaCtlStatus
      → CycleSearch
      → Result Cycle
  selected_cycle F settings command t node_memory node_backends required downloads rdma_ctl search =
      do
        smallest ←
            smallest_placeable_cycles settings command search (length (D.nodes t.graph)) node_memory
              required
        let required_backends =
            keep (has_backend command.model_card.backends)
              (instance_meta_backends command.instance_meta)
        if no_backend required_backends then raise value_error else ok tt
        let supported = keep (supports node_backends required_backends) smallest
        if is_empty supported then raise value_error else ok tt
        smallest_rdma ← rdma_cycles t rdma_ctl supported
        cycles ← for_meta command.instance_meta supported smallest_rdma
        select_cycle F (cycle_key F command.model_card.model_id downloads node_memory)
            (prefer_leaves t cycles)

  unfoldable pub place_instance :
      Floats
      → Settings
      → Drawn
      → PlaceInstance
      → Topology D
      → (current_instances : Dict Instance) → Dict MemoryUsage
      → Dict NodeNetworkInfo
      → Dict (List Backend)
      → (required_nodes : List NodeId) → Dict (List DownloadProgress)
      → Dict NodeRdmaCtlStatus
      → CycleSearch
      → Result (Dict Instance)
  unfolding selected_cycle instance_kind
  place_instance F settings drawn command t current_instances node_memory node_network node_backends
        required downloads rdma_ctl search =
      do
        selected ←
            selected_cycle F settings command t node_memory node_backends required downloads
              rdma_ctl search
        let one_node = length selected == 1
        assignments ←
            get_shard_assignments drawn.runner_ids F command.model_card selected
              (sharding_for one_node command) node_memory
        cycle_digraph ← get_subgraph_from_nodes D selected t
        kind ←
            instance_kind (meta_for one_node command) selected assignments cycle_digraph
              node_network drawn.ephemeral_port
        ok (
            set drawn.instance_id
              (record {
                instance_id = drawn.instance_id;
                shard_assignments = assignments;
                kind = kind;
              })
              current_instances)
