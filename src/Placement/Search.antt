-- ===== src/Placement/Search.antt =====
-- The cycles on which src/exo/master/placement.py may place an instance.
use Prim.Native.Char.{code}
use Prim.Native.String.{String}
use awesome_distributed_ai_i.Base.{
  ℕ, ◌%◌, Bool, true, false, not, ◌&&◌, ◌||◌, Option, none, some, List, [], ◌∷◌, ◌++◌, ltb, leb,
  ◌==◌, if◌then◌else◌, length, all, elem, keep, Result, ok, raise, key_error, value_error,
  truncated_error, require, ◌>>=◌, ◌>>◌,
}
use awesome_distributed_ai_i.Base.Dict.{Dict, get, has, set, keys}
use awesome_distributed_ai_i.Types.{NodeId, ModelId, Memory, MemoryUsage, ModelCard}
use awesome_distributed_ai_i.Topology.Graph.{PyDiGraph}
use awesome_distributed_ai_i.Topology.{Topology}
use awesome_distributed_ai_i.Topology.Cycles.{Cycle, get_cycles_within_budget}
use awesome_distributed_ai_i.Topology.Rings.{get_cycles_up_to}
use awesome_distributed_ai_i.Placement.Layers.{total_available}
use awesome_distributed_ai_i.Placement.Shards.{Sharding}

-- `text.startswith(prefix)`
abbrev pub starts_with : (prefix text : String) → Bool
starts_with String.[] text = true
starts_with (String.◌∷◌ c prefix) String.[] = false
starts_with (String.◌∷◌ c prefix) (String.◌∷◌ d text) =
    (code c == code d) && starts_with prefix text

-- `InstanceMeta` of types/worker/instances.py
pub data InstanceMeta : Type 0 where
  mlx_ring mlx_jaccl : InstanceMeta

-- The command `PlaceInstance`.
pub record PlaceInstance : Type 0 where
  pub model_card : ModelCard
  pub sharding : Sharding
  pub instance_meta : InstanceMeta
  pub min_nodes : ℕ

-- The limits of shared/constants.py, and the identifier that is the number of the model
-- "mlx-community/DeepSeek-V3.1-8bit".
pub record Settings : Type 0 where
  pub max_cycles : ℕ
  pub max_cycle_nodes : ℕ
  pub deepseek_v3_1_8bit : ModelId

pub record CycleSearch : Type 0 where
  pub by_length : Dict (List Cycle)
  pub max_cycle_nodes : Option ℕ

abbrev or_empty : Option (List Cycle) → List Cycle
or_empty none = []
or_empty (some group) = group

abbrev pub is_empty : List Cycle → Bool
is_empty [] = true
is_empty (c ∷ cs) = false

-- The loop, with the groups so far.
unfoldable pub group_cycles : List Cycle → Dict (List Cycle) → Dict (List Cycle)
group_cycles [] grouped = grouped
group_cycles (cycle ∷ cycles) grouped =
    group_cycles cycles
      (set (length cycle) (or_empty (get (length cycle) grouped) ++ cycle ∷ []) grouped)

unfoldable pub group_cycles_by_length : List Cycle → Dict (List Cycle)
unfolding group_cycles
group_cycles_by_length cycles = group_cycles cycles []

module _ (D : PyDiGraph) where
  abbrev cycle_search : Settings → Topology D → Option (List Cycle) → Result CycleSearch
  cycle_search settings t (some every_cycle) =
      ok (record { by_length = group_cycles_by_length every_cycle; max_cycle_nodes = none })
  cycle_search settings t none = do
    cycles ← get_cycles_up_to D settings.max_cycle_nodes t
    ok (record {
      by_length = group_cycles_by_length cycles;
      max_cycle_nodes = some settings.max_cycle_nodes;
    })

  unfoldable pub search_placement_cycles : Settings → Topology D → Result CycleSearch
  search_placement_cycles settings t = do
    found ← get_cycles_within_budget D settings.max_cycles t
    cycle_search settings t found

-- `filter_cycles_by_memory` of placement_utils.py
unfoldable pub filter_cycles_by_memory :
    List Cycle → Dict MemoryUsage → (required_memory : Memory) → Result (List Cycle)
filter_cycles_by_memory [] node_memory required_memory = ok []
filter_cycles_by_memory (cycle ∷ cycles) node_memory required_memory =
    let rest = filter_cycles_by_memory cycles node_memory required_memory in
    if all (λ node. has node node_memory) cycle
    then (do
      total_mem ← total_available cycle node_memory
      filtered ← rest
      ok (if leb required_memory total_mem then cycle ∷ filtered else filtered))
    else rest

abbrev pub heads_divide : Option ℕ → (nodes : ℕ) → Bool
heads_divide none nodes = true
heads_divide (some kv_heads) nodes = kv_heads % nodes == 0

-- Every cycle has a node, so the remainders are defined.
abbrev pub allowed_by : Sharding → ModelCard → List Cycle → List Cycle
allowed_by Sharding.tensor card cycles =
    keep
      (λ (cycle : Cycle).
        (card.hidden_size % length cycle == 0)
        && (starts_with "DeepSeek V4" card.base_model
            || heads_divide card.num_key_value_heads (length cycle)))
      cycles
allowed_by Sharding.pipeline card cycles =
    if starts_with "Gemma 4" card.base_model
    then keep (λ (cycle : Cycle). length cycle == 1) cycles
    else cycles

unfoldable pub cycles_the_sharding_allows : PlaceInstance → List Cycle → List Cycle
cycles_the_sharding_allows command cycles = allowed_by command.sharding command.model_card cycles

unfoldable pub reject_sharding_the_model_cannot_do : Settings → PlaceInstance → Result (Unit {0})
reject_sharding_the_model_cannot_do settings command = elim command.sharding [
  | Sharding.tensor ↦ if command.model_card.supports_tensor then ok tt else raise value_error
  | Sharding.pipeline ↦
      if command.model_card.model_id == settings.deepseek_v3_1_8bit
      then raise value_error
      else ok tt
]

abbrev pub reject_unless : (checked_model : Bool) → Settings → PlaceInstance → Result (Unit {0})
reject_unless true settings command = ok tt
reject_unless false settings command = reject_sharding_the_model_cannot_do settings command

-- The cycles that contain all required nodes; a set without nodes requires nothing.
abbrev pub with_required : (required_nodes : List NodeId) → List Cycle → List Cycle
with_required required_nodes group =
    keep (λ cycle. all (λ node. elem node cycle) required_nodes) group

-- The end of the function, where nothing was found.
abbrev pub nothing_placeable : (max_cycle_nodes : Option ℕ) → (node_count : ℕ) → Result (List Cycle)
nothing_placeable none node_count = raise value_error
nothing_placeable (some max_cycle_nodes) node_count =
    if ltb max_cycle_nodes node_count then raise truncated_error else raise value_error

abbrev pub choose_group : List Cycle → Result (List Cycle) → Result (List Cycle)
choose_group [] rest = rest
choose_group (cycle ∷ cycles) rest = ok (cycle ∷ cycles)

-- The loop over the lengths.
unfoldable pub walk_groups :
    Settings
    → PlaceInstance
    → CycleSearch
    → (node_count : ℕ) → Dict MemoryUsage
    → (required_nodes : List NodeId) → (checked_model : Bool) → List ℕ
    → Result (List Cycle)
walk_groups settings command search node_count node_memory required checked_model [] =
    nothing_placeable search.max_cycle_nodes node_count
walk_groups settings command search node_count node_memory required checked_model (l ∷ lengths) = do
  group ← require key_error (get l search.by_length)
  with_memory ←
      filter_cycles_by_memory (with_required required group) node_memory
        command.model_card.storage_size
  let checked = checked_model || not (is_empty with_memory)
  let rest = walk_groups settings command search node_count node_memory required checked lengths
  if is_empty with_memory then rest else (do
    reject_unless checked_model settings command
    choose_group (cycles_the_sharding_allows command with_memory) rest)

abbrev insert_length : ℕ → List ℕ → List ℕ
insert_length l [] = l ∷ []
insert_length l (k ∷ ls) = let rest = insert_length l ls in if leb l k then l ∷ k ∷ ls else k ∷ rest

abbrev pub sorted : List ℕ → List ℕ
sorted [] = []
sorted (l ∷ ls) = insert_length l (sorted ls)

-- `_smallest_placeable_cycles`
unfoldable pub smallest_placeable_cycles :
    Settings
    → PlaceInstance
    → CycleSearch
    → (node_count : ℕ) → Dict MemoryUsage
    → (required_nodes : List NodeId) → Result (List Cycle)
smallest_placeable_cycles settings command search node_count node_memory required =
    walk_groups settings command search node_count node_memory required false
      (sorted (keep (λ l. leb command.min_nodes l) (keys search.by_length)))
