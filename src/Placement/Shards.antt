-- ===== src/Placement/Shards.antt =====
-- The shard assignments of src/exo/master/placement_utils.py.
use awesome_distributed_ai_i.Base.{
  ℕ, zero, suc, ◌+◌, ◌/◌, ◌%◌, Bool, true, false, ◌&&◌, List, [], ◌∷◌, ◌++◌, map, leb, ◌==◌,
  if◌then◌else◌, length, get_elem?, take, Result, ok, raise, index_error, value_error, require,
  ◌>>=◌, ◌>>◌,
}
use awesome_distributed_ai_i.Base.Arrays.{sum}
use awesome_distributed_ai_i.Base.Dict.{Dict, set}
use awesome_distributed_ai_i.Types.{
  NodeId, RunnerId, MemoryUsage, ModelCard, ShardKind, ShardMetadata, ShardAssignments,
}
use awesome_distributed_ai_i.Placement.Floats.{Floats}
use awesome_distributed_ai_i.Placement.Layers.{
  range_from, compute_total_memory, allocate_and_validate_layers,
}

-- `Sharding` of types/worker/shards.py
pub data Sharding : Type 0 where
  tensor pipeline : Sharding

abbrev pub reverse_range : ℕ → List ℕ
reverse_range zero = []
reverse_range (suc n) = n ∷ reverse_range n

abbrev is_empty : List NodeId → Bool
is_empty [] = true
is_empty (n ∷ ns) = false

-- `_validate_cycle`
abbrev pub validate_cycle : List NodeId → Result (Unit {0})
validate_cycle cycle = if is_empty cycle then raise value_error else ok tt

-- The fresh id of the runner of each rank.
module _ (fresh : ℕ → RunnerId) where
  -- The loop over the nodes of a cycle with their ranks, which the three kinds of sharding share.
  unfoldable pub assign_shards :
      (shard_of : ℕ → Result ShardMetadata)
      → (rank : ℕ) → List NodeId
      → Dict ShardMetadata × Dict RunnerId
      → Result (Dict ShardMetadata × Dict RunnerId)
  assign_shards shard_of rank [] built = ok built
  assign_shards shard_of rank (node_id ∷ node_ids) (runner_to_shard, node_to_runner) = do
    shard ← shard_of rank
    assign_shards shard_of (rank + 1) node_ids
        (set (fresh rank) shard runner_to_shard, set node_id (fresh rank) node_to_runner)

  abbrev assignments : ModelCard → Dict ShardMetadata × Dict RunnerId → ShardAssignments
  assignments model_card (runner_to_shard, node_to_runner) = record {
    model_id = model_card.model_id;
    runner_to_shard = runner_to_shard;
    node_to_runner = node_to_runner;
  }

  abbrev pub pipeline_shard : ModelCard → (world_size : ℕ) → List ℕ → ℕ → Result ShardMetadata
  pipeline_shard model_card world_size allocations pipeline_rank = do
    node_layers ← require index_error (get_elem? allocations pipeline_rank)
    let layers_before = sum (take pipeline_rank allocations)
    ok (record {
      model_card = model_card;
      device_rank = pipeline_rank;
      world_size = world_size;
      start_layer = layers_before;
      end_layer = layers_before + node_layers;
      n_layers = model_card.n_layers;
      kind = ShardKind.pipeline;
    })

  unfoldable pub pure_pipeline :
      Floats → ModelCard → List NodeId → Dict MemoryUsage → Result ShardAssignments
  unfolding assign_shards
  pure_pipeline F model_card cycle node_memory = do
    validate_cycle cycle
    total_memory ← compute_total_memory cycle node_memory
    allocations ← allocate_and_validate_layers F cycle node_memory total_memory model_card
    built ← assign_shards (pipeline_shard model_card (length cycle) allocations) 0 cycle ([], [])
    ok (assignments model_card built)

  -- `position_to_cfg_pipeline`
  abbrev pub cfg_positions : (pipeline_world_size : ℕ) → List (ℕ × ℕ)
  cfg_positions n = map (λ r. (0, r)) (range_from 0 n) ++ map (λ r. (1, r)) (reverse_range n)

  abbrev pub cfg_shard :
      ModelCard → (world_size pipeline_world_size : ℕ) → List ℕ → ℕ → Result ShardMetadata
  cfg_shard model_card world_size pipeline_world_size allocations device_rank = do
    position ← require index_error (get_elem? (cfg_positions pipeline_world_size) device_rank)
    let cfg_rank = position.0
    let pipeline_rank = position.1
    let layers_before = sum (take pipeline_rank allocations)
    node_layers ← require index_error (get_elem? allocations pipeline_rank)
    ok (record {
      model_card = model_card;
      device_rank = device_rank;
      world_size = world_size;
      start_layer = layers_before;
      end_layer = layers_before + node_layers;
      n_layers = model_card.n_layers;
      kind = ShardKind.cfg cfg_rank 2 pipeline_rank pipeline_world_size;
    })

  unfoldable pub cfg_parallel :
      Floats → ModelCard → List NodeId → Dict MemoryUsage → Result ShardAssignments
  unfolding assign_shards
  cfg_parallel F model_card cycle node_memory = do
    validate_cycle cycle
    let world_size = length cycle
    let pipeline_world_size = world_size / 2
    let pipeline_node_ids = take pipeline_world_size cycle
    pipeline_memory ← compute_total_memory pipeline_node_ids node_memory
    allocations ←
        allocate_and_validate_layers F pipeline_node_ids node_memory pipeline_memory model_card
    built ←
        assign_shards (cfg_shard model_card world_size pipeline_world_size allocations) 0 cycle
          ([], [])
    ok (assignments model_card built)

  -- `get_shard_assignments_for_pipeline_parallel`
  unfoldable pub pipeline_parallel :
      Floats → ModelCard → List NodeId → Dict MemoryUsage → Result ShardAssignments
  pipeline_parallel F model_card cycle node_memory =
      let world_size = length cycle in
      if model_card.uses_cfg && (leb 2 world_size && (world_size % 2 == 0))
      then cfg_parallel F model_card cycle node_memory
      else pure_pipeline F model_card cycle node_memory

  abbrev pub tensor_shard : ModelCard → (world_size : ℕ) → ℕ → Result ShardMetadata
  tensor_shard model_card world_size i = ok (record {
    model_card = model_card;
    device_rank = i;
    world_size = world_size;
    start_layer = 0;
    end_layer = model_card.n_layers;
    n_layers = model_card.n_layers;
    kind = ShardKind.tensor;
  })

  -- `get_shard_assignments_for_tensor_parallel`
  unfoldable pub tensor_parallel : ModelCard → List NodeId → Result ShardAssignments
  unfolding assign_shards
  tensor_parallel model_card cycle = do
    built ← assign_shards (tensor_shard model_card (length cycle)) 0 cycle ([], [])
    ok (assignments model_card built)

  unfoldable pub get_shard_assignments :
      Floats → ModelCard → List NodeId → Sharding → Dict MemoryUsage → Result ShardAssignments
  get_shard_assignments F model_card cycle Sharding.pipeline node_memory =
      pipeline_parallel F model_card cycle node_memory
  get_shard_assignments F model_card cycle Sharding.tensor node_memory =
      tensor_parallel model_card cycle
