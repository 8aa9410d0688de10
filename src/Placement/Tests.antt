-- ===== src/Placement/Tests.antt =====
-- Placements on small topologies, and the theorems at these inputs. Floats are fractions here.
use awesome_distributed_ai_i.Base.{
  ℕ, ◌+◌, ◌-◌, ◌*◌, ◌/◌, ◌≤◌, ◌≡◌, refl, inl, inr, true, false, none, some, List, [], ◌∷◌, ltb,
  In-cons, length, get_elem?, arith, Result, ok, raise,
}
use awesome_distributed_ai_i.Base.Arrays.{sum}
use awesome_distributed_ai_i.Base.Dict.{Dict, get, set}
use awesome_distributed_ai_i.Types.{
  NodeId, MemoryUsage, ModelCard, mlx_metal, Connection, socket, NodeNetworkInfo, InterfaceType,
  Host, RunnerId, ShardAssignments,
}
use awesome_distributed_ai_i.Topology.{
  Topology, new, add_node, add_connection, add_connections, get_all_connections_between,
}
use awesome_distributed_ai_i.Topology.Sample.{sample}
use awesome_distributed_ai_i.Placement.Floats.{Floats}
use awesome_distributed_ai_i.Placement.Layers.{
  allocate_layers_proportionally, hand_out, take_from_largest, ensure_one, insert_index,
  sort_indices, total_available, compute_total_memory, fractions_of, validate_layers,
  allocate_and_validate_layers,
}
use awesome_distributed_ai_i.Placement.Allocation.{allocate_divides}
use awesome_distributed_ai_i.Topology.Graph.{Distinct}
use awesome_distributed_ai_i.Placement.Assigned.{Fresh}
use awesome_distributed_ai_i.Placement.Stages.{RoundsWell, Tiles, pure_pipeline-Tiles}
use awesome_distributed_ai_i.Placement.Wiring.{
  least_by, best_ip, socket_ips, ip_to_type, find_ip_prioritised, host_for, hosts_row, hosts_rows,
  get_mlx_ring_hosts_by_node,
}
use awesome_distributed_ai_i.Placement.Shards.{
  assign_shards, pure_pipeline, pipeline_parallel, cfg_parallel, tensor_parallel,
  get_shard_assignments,
}

abbrev pub fractions : Floats
fractions = record {
  Float = ℕ × ℕ;
  zero_float = (0, 1);
  one_float = (1, 1);
  divide = λ a b. (a, b);
  times = λ f n. (f.0 * n, f.1);
  int = λ f. f.0 / f.1;
  minus = λ f n. (f.0 - n * f.1, f.1);
  plus = λ f g. (f.0 * g.1 + g.0 * f.1, f.1 * g.1);
  lt = λ f g. ltb (f.0 * g.1) (g.0 * f.1);
}

layers : Unit {0}
unfolding get set allocate_layers_proportionally hand_out take_from_largest ensure_one insert_index
    sort_indices total_available compute_total_memory fractions_of validate_layers
    allocate_and_validate_layers assign_shards pure_pipeline pipeline_parallel cfg_parallel
    tensor_parallel get_shard_assignments
layers = tt

-- The remainder of 10 layers goes to the largest fractional part, and the last node has one layer.
divided :
    allocate_layers_proportionally fractions 10 ((55, 100) ∷ (42, 100) ∷ (3, 100) ∷ [])
    ≡ ok (5 ∷ 4 ∷ 1 ∷ [])
unfolding layers
divided = refl

allocate_divides_example :
    (result : List ℕ) × (allocate_layers_proportionally fractions 10
        ((55, 100) ∷ (42, 100) ∷ (3, 100) ∷ [])
      ≡ ok result)
    × (length result ≡ 3)
    × (sum result ≡ 10)
    × ((j v : ℕ) → get_elem? result j ≡ some v → 1 ≤ v)
allocate_divides_example =
    allocate_divides fractions 10 ((55, 100) ∷ (42, 100) ∷ (3, 100) ∷ []) (omega arith)
      (omega arith) (omega arith) (omega arith)

abbrev pub card : ModelCard
card = record {
  model_id = 7;
  storage_size = 100;
  n_layers = 10;
  hidden_size = 64;
  supports_tensor = true;
  num_key_value_heads = none;
  base_model = "Qwen";
  backends = mlx_metal ∷ [];
  uses_cfg = false;
}

abbrev memory : ℕ → MemoryUsage
memory n = record { ram_total = n; ram_available = n; swap_total = 0; swap_available = 0 }

abbrev pub node_memory : Dict MemoryUsage
node_memory = (1, memory 550) ∷ (2, memory 420) ∷ (3, memory 30) ∷ []

abbrev cycle : List NodeId
cycle = 1 ∷ 2 ∷ 3 ∷ []

abbrev pub runner_of : ℕ → RunnerId
runner_of rank = rank + 20

runner_of-Fresh : Fresh runner_of
runner_of-Fresh i j h = omega arith

abbrev assigned_by : Result ShardAssignments → ShardAssignments
assigned_by (ok a) = a
assigned_by (raise e) = record { model_id = 0; runner_to_shard = []; node_to_runner = [] }

abbrev pipeline : ShardAssignments
pipeline = assigned_by (pure_pipeline runner_of fractions card cycle node_memory)

pipelined : pure_pipeline runner_of fractions card cycle node_memory ≡ ok pipeline
unfolding layers
pipelined = refl

once_each : Distinct cycle
once_each = (
  λ i. elim (In-cons i) [
    | inl e ↦ absurd (omega arith)
    | inr j ↦ elim (In-cons j) [ inl e ↦ absurd (omega arith) | inr k ↦ elim k [ ] ]
  ],
  (
    λ i. elim (In-cons i) [ inl e ↦ absurd (omega arith) | inr j ↦ elim j [ ] ],
    (λ i. elim i [ ], tt),
  ),
)

rounds : RoundsWell fractions cycle node_memory card
unfolding layers
rounds total fs known listed =
    let total_is : 1000 ≡ total = cc in
    let fs_are : (550, total) ∷ (420, total) ∷ (30, total) ∷ [] ≡ fs = cc in
    rw (← fs_are, ← total_is) (omega arith, omega arith)

pure_pipeline-Tiles_example : Tiles runner_of cycle card pipeline
pure_pipeline-Tiles_example =
    pure_pipeline-Tiles runner_of runner_of-Fresh fractions card cycle node_memory pipeline
      once_each rounds pipelined

-- Three nodes in a ring of sockets; between 1 and 2 there are two, of which one is over thunderbolt.
abbrev conn : (source sink ip : ℕ) → Connection
conn source sink ip = record { source = source; sink = sink; edge = socket ip 80 }

abbrev connections : List Connection
connections =
    conn 1 2 102
    ∷ conn 1 2 112
    ∷ conn 2 1 101
    ∷ conn 2 3 103
    ∷ conn 3 2 102
    ∷ conn 3 1 101
    ∷ conn 1 3 103
    ∷ []

abbrev topology_of : Result (Topology sample) → Topology sample
topology_of (ok t) = t
topology_of (raise e) = new sample

abbrev ring : Topology sample
ring = topology_of (add_connections sample connections (new sample))

abbrev network : Dict NodeNetworkInfo
network =
    (
      2,
      record {
        interfaces =
            record { name = "en0"; ip_address = 102; interface_type = InterfaceType.wifi }
            ∷ record {
              name = "bridge0";
              ip_address = 112;
              interface_type = InterfaceType.thunderbolt;
            }
            ∷ [];
      },
    )
    ∷ []

wires : Unit {0}
unfolding get set new add_node add_connection add_connections get_all_connections_between least_by
    best_ip socket_ips ip_to_type find_ip_prioritised host_for hosts_row hosts_rows
    get_mlx_ring_hosts_by_node
wires = tt

fastest : find_ip_prioritised sample 1 2 ring network true ≡ some 112
unfolding wires
fastest = refl

coordinator : find_ip_prioritised sample 1 2 ring network false ≡ some 102
unfolding wires
coordinator = refl

abbrev hosts_by : Result (Dict (List Host)) → Dict (List Host)
hosts_by (ok hosts) = hosts
hosts_by (raise e) = []

abbrev ring_hosts : Dict (List Host)
ring_hosts = hosts_by (get_mlx_ring_hosts_by_node sample cycle ring 5000 network)
