-- ===== src/Placement/Trials.antt =====
-- Commands on a small state, and the theorems at these inputs.
use awesome_distributed_ai_i.Base.{
  ℕ, ◌≡◌, refl, ap, ◌⊎◌, inl, inr, true, false, none, some, [], ◌∷◌, ◌==◌, if◌then◌else◌, In-cons,
  keep, Result, ok, raise, value_error,
}
use awesome_distributed_ai_i.Base.Dict.{Dict, get, has, set}
use awesome_distributed_ai_i.Types.{
  mlx_metal, mlx_cpu, Instance, InstanceKind, Task, TaskStatus, load_model,
}
use awesome_distributed_ai_i.Topology.{
  new, add_node, add_connection, add_connections, get_all_connections_between,
}
use awesome_distributed_ai_i.Topology.Sample.{sample}
use awesome_distributed_ai_i.Topology.Cycles.{
  nodes_at, cycles_at, take_cycles, get_cycles_within_budget,
}
use awesome_distributed_ai_i.Topology.Rings.{
  connections_at, list_connections, add_nodes, add_connections_within, get_subgraph_from_nodes,
  node_is_leaf, indices_of, is_rdma_cycle,
}
use awesome_distributed_ai_i.Apply.{event_apply_all}
use awesome_distributed_ai_i.Apply.Data.{State, initial}
use awesome_distributed_ai_i.Placement.Layers.{
  allocate_layers_proportionally, hand_out, take_from_largest, ensure_one, insert_index,
  sort_indices, total_available, compute_total_memory, fractions_of, validate_layers,
  allocate_and_validate_layers,
}
use awesome_distributed_ai_i.Placement.Shards.{
  Sharding, assign_shards, pure_pipeline, pipeline_parallel, cfg_parallel, tensor_parallel,
  get_shard_assignments,
}
use awesome_distributed_ai_i.Placement.Wiring.{
  least_by, best_ip, socket_ips, ip_to_type, find_ip_prioritised, host_for, hosts_row, hosts_rows,
  get_mlx_ring_hosts_by_node,
}
use awesome_distributed_ai_i.Placement.Search.{
  PlaceInstance, Settings, CycleSearch, InstanceMeta, group_cycles, group_cycles_by_length,
  search_placement_cycles, filter_cycles_by_memory, cycles_the_sharding_allows,
  reject_sharding_the_model_cannot_do, walk_groups, smallest_placeable_cycles,
}
use awesome_distributed_ai_i.Placement.Placing.{
  Drawn, fraction_among, get_node_download_fraction, download_score, cycle_key, best_cycle,
  select_cycle, zero_node_ids, rdma_cycles, instance_kind, selected_cycle, place_instance, supports,
  has_backend, instance_meta_backends,
}
use awesome_distributed_ai_i.Placement.Survivors.{Fits}
use awesome_distributed_ai_i.Placement.Eligible.{OverRdma, selected_cycle-Fits}
use awesome_distributed_ai_i.Placement.Transition.{delete_instance, get_transition_events}
use awesome_distributed_ai_i.Placement.Applied.{IsDict}
use awesome_distributed_ai_i.Placement.Reached.{Reaches}
use awesome_distributed_ai_i.Placement.Aims.{
  Owned, Placed, delete_instance-Reaches, place_instance-Reaches,
}
use awesome_distributed_ai_i.Placement.Tests.{fractions, card, node_memory, runner_of}

places : Unit {0}
unfolding get set allocate_layers_proportionally hand_out take_from_largest ensure_one insert_index
    sort_indices total_available compute_total_memory fractions_of validate_layers
    allocate_and_validate_layers assign_shards pure_pipeline pipeline_parallel cfg_parallel
    tensor_parallel get_shard_assignments new add_node add_connection add_connections
    get_all_connections_between least_by best_ip socket_ips ip_to_type find_ip_prioritised host_for
    hosts_row hosts_rows get_mlx_ring_hosts_by_node nodes_at cycles_at take_cycles
    get_cycles_within_budget connections_at list_connections add_nodes add_connections_within
    get_subgraph_from_nodes node_is_leaf indices_of is_rdma_cycle group_cycles
    group_cycles_by_length search_placement_cycles filter_cycles_by_memory
    cycles_the_sharding_allows reject_sharding_the_model_cannot_do walk_groups
    smallest_placeable_cycles fraction_among get_node_download_fraction download_score cycle_key
    best_cycle select_cycle zero_node_ids rdma_cycles instance_kind selected_cycle place_instance
    initial
places = tt

abbrev instance : Instance
instance = record {
  instance_id = 5;
  shard_assignments = record { model_id = 7; runner_to_shard = []; node_to_runner = [] };
  kind = InstanceKind.mlx_ring [] 0;
}

abbrev task : Task
task = record { task_id = 9; task_status = TaskStatus.running; instance_id = 5; kind = load_model }

abbrev state : State sample
state = record (initial sample) {
  instances = (5, instance) ∷ [];
  tasks = (9, task) ∷ [];
  topology = add_node sample 2 (add_node sample 1 (new sample));
  node_memory = node_memory;
  node_backends = (1, mlx_metal ∷ []) ∷ (2, mlx_metal ∷ mlx_cpu ∷ []) ∷ [];
}

abbrev settings : Settings
settings = record { max_cycles = 10; max_cycle_nodes = 4; deepseek_v3_1_8bit = 99 }

abbrev command : PlaceInstance
command = record {
  model_card = card;
  sharding = Sharding.tensor;
  instance_meta = InstanceMeta.mlx_jaccl;
  min_nodes = 1;
}

abbrev ring_command : PlaceInstance
ring_command = record command { instance_meta = InstanceMeta.mlx_ring }

abbrev search_of : Result CycleSearch → CycleSearch
search_of (ok found) = found
search_of (raise e) = record { by_length = []; max_cycle_nodes = none }

abbrev found : CycleSearch
found = search_of (search_placement_cycles sample settings state.topology)

-- Node 1 has more memory than node 2.
chosen :
    selected_cycle sample fractions settings ring_command state.topology state.node_memory
      state.node_backends [] state.downloads state.node_rdma_ctl found
    ≡ ok (1 ∷ [])
unfolding places
chosen = refl

-- Nodes without the RDMA setting cannot be used over RDMA.
not_over_rdma :
    selected_cycle sample fractions settings command state.topology state.node_memory
      state.node_backends [] state.downloads state.node_rdma_ctl found
    ≡ raise value_error
unfolding places
not_over_rdma = refl

selected_cycle-Fits_example :
    Fits ring_command state.node_memory [] (1 ∷ [])
    × (supports state.node_backends
          (keep (has_backend card.backends) (instance_meta_backends InstanceMeta.mlx_ring))
          (1 ∷ [])
        ≡ true)
    × ((ring_command.instance_meta ≡ InstanceMeta.mlx_ring)
        ⊎ OverRdma state.topology state.node_rdma_ctl (1 ∷ []))
selected_cycle-Fits_example =
    selected_cycle-Fits state.topology state.node_rdma_ctl fractions settings ring_command
      state.node_memory state.node_backends [] state.downloads found (1 ∷ []) chosen

owned : Owned state.instances
unfolding get initial
owned k i m = elim (In-cons m) [
  | inl e ↦
      let key : 5 ≡ k = ap (λ (p : ℕ × Instance). p.0) e in
      let value : instance ≡ i = ap (λ (p : ℕ × Instance). p.1) e in
      rw (← key, ← value) (refl, refl)
  | inr later ↦ elim later [ ]
]

tasks_once : IsDict state.tasks
unfolding get initial
tasks_once k t m = elim (In-cons m) [
  | inl e ↦
      let key : 9 ≡ k = ap (λ (p : ℕ × Task). p.0) e in
      let value : task ≡ t = ap (λ (p : ℕ × Task). p.1) e in rw (← key, ← value) refl
  | inr later ↦ elim later [ ]
]

there_is : has 5 state.instances ≡ true
unfolding get initial
there_is = refl

delete_instance-Reaches_example :
    (target : Dict Instance) × (s' : State sample) × (delete_instance 5 state.instances ≡ ok target)
    × (event_apply_all (get_transition_events state.instances target state.tasks) state ≡ ok s')
    × ((k : ℕ) → get k s'.instances ≡ (if 5 == k then none else get k state.instances))
    × Reaches target state s'
delete_instance-Reaches_example = delete_instance-Reaches state owned tasks_once 5 there_is

abbrev drawn : Drawn
drawn = record { runner_ids = runner_of; instance_id = 6; ephemeral_port = 5000 }

is_new : has 6 state.instances ≡ false
unfolding get initial
is_new = refl

abbrev placed_by : Result (Dict Instance) → Dict Instance
placed_by (ok target) = target
placed_by (raise e) = []

abbrev target : Dict Instance
target = placed_by (
    place_instance sample fractions settings drawn ring_command state.topology state.instances
      state.node_memory state.node_network state.node_backends [] state.downloads
      state.node_rdma_ctl found)

places_it :
    place_instance sample fractions settings drawn ring_command state.topology state.instances
      state.node_memory state.node_network state.node_backends [] state.downloads
      state.node_rdma_ctl found
    ≡ ok target
unfolding places
places_it = refl

place_instance-Reaches_example :
    (i : Instance) × (s' : State sample) × Placed fractions settings drawn ring_command [] found
      state i
    × (event_apply_all (get_transition_events state.instances target state.tasks) state ≡ ok s')
    × ((k : ℕ) → get k s'.instances ≡ (if 6 == k then some i else get k state.instances))
place_instance-Reaches_example =
    place_instance-Reaches state owned tasks_once fractions settings drawn ring_command [] found
      target is_new places_it
