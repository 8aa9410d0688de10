-- ===== src/Placement/Layers.antt =====
-- How the layers of a model are divided among the nodes of a cycle, in
-- src/exo/master/placement_utils.py.
use awesome_distributed_ai_i.Base.{
  ℕ, zero, suc, ◌+◌, ◌-◌, ◌*◌, ◌/◌, List, [], ◌∷◌, map, ltb, ◌==◌, if◌then◌else◌, length, get_elem?,
  Result, ok, raise, key_error, index_error, value_error, require, assert, ◌>>=◌, ◌>>◌,
}
use awesome_distributed_ai_i.Base.Arrays
use awesome_distributed_ai_i.Base.Arrays.{sum, arg_max}
use awesome_distributed_ai_i.Base.Dict.{Dict, get}
use awesome_distributed_ai_i.Types.{NodeId, Memory, MemoryUsage, ModelCard}
use awesome_distributed_ai_i.Placement.Floats.{Floats}

-- `range(i, i + n)`
abbrev pub range_from : ℕ → ℕ → List ℕ
range_from i zero = []
range_from i (suc n) = i ∷ range_from (i + 1) n

-- `result[j] += 1`
abbrev pub increment : ℕ → List ℕ → Result (List ℕ)
increment j result = do
  v ← require index_error (get_elem? result j)
  ok (Arrays.set result j (v + 1))

-- `for i in range(k): result[by_remainder[i]] += 1`
unfoldable pub hand_out : ℕ → (by_remainder : List ℕ) → List ℕ → Result (List ℕ)
hand_out zero by_remainder result = ok result
hand_out (suc k) [] result = raise index_error
hand_out (suc k) (j ∷ by_remainder) result = do
  result' ← increment j result
  hand_out k by_remainder result'

-- The body of the loop that gives each node a layer.
unfoldable pub take_from_largest : ℕ → List ℕ → Result (List ℕ)
take_from_largest i result = do
  v ← require index_error (get_elem? result i)
  if v == 0
      then (do
        assert (ltb 1 (arg_max result).1)
        ok (Arrays.set (Arrays.set result (arg_max result).0 ((arg_max result).1 - 1)) i 1))
      else ok result

-- The loop, for the indices `i`, `i + 1` and so on that are left.
unfoldable pub ensure_one : ℕ → ℕ → List ℕ → Result (List ℕ)
unfolding take_from_largest
ensure_one zero i result = ok result
ensure_one (suc n) i result = do result' ← take_from_largest i result; ensure_one n (i + 1) result'

-- `sum(node_memory[id].ram_available ...)`
unfoldable pub total_available : List NodeId → Dict MemoryUsage → Result Memory
total_available [] node_memory = ok 0
total_available (node_id ∷ node_ids) node_memory = do
  usage ← require key_error (get node_id node_memory)
  rest ← total_available node_ids node_memory
  ok (usage.ram_available + rest)

-- `_compute_total_memory`
unfoldable pub compute_total_memory : List NodeId → Dict MemoryUsage → Result Memory
unfolding total_available
compute_total_memory node_ids node_memory = do
  total_memory ← total_available node_ids node_memory
  if total_memory == 0 then raise value_error else ok total_memory

-- The loop of `_allocate_and_validate_layers`.
unfoldable pub validate_layers :
    List NodeId → List ℕ → Dict MemoryUsage → ModelCard → Result (Unit {0})
validate_layers [] allocations node_memory model_card = ok tt
validate_layers (node_id ∷ node_ids) [] node_memory model_card = raise index_error
validate_layers (node_id ∷ node_ids) (node_layers ∷ allocations) node_memory model_card = do
  usage ← require key_error (get node_id node_memory)
  if ltb usage.ram_available (model_card.storage_size * node_layers / model_card.n_layers)
      then raise value_error
      else validate_layers node_ids allocations node_memory model_card

module _ (F : Floats) where
  -- `sorted(range(n), key=remainder, reverse=True)`, which keeps equals in their order.
  unfoldable pub insert_index : (ℕ → F.Float) → ℕ → List ℕ → List ℕ
  insert_index remainder i [] = i ∷ []
  insert_index remainder i (j ∷ js) =
      if F.lt (remainder i) (remainder j) then j ∷ insert_index remainder i js else i ∷ j ∷ js

  unfoldable pub sort_indices : (ℕ → F.Float) → List ℕ → List ℕ
  unfolding insert_index
  sort_indices remainder [] = []
  sort_indices remainder (i ∷ is) = insert_index remainder i (sort_indices remainder is)

  -- `raw[i] - result[i]`, for an index in range.
  abbrev pub remainder_at : List F.Float → ℕ → F.Float
  remainder_at [] i = F.zero_float
  remainder_at (r ∷ raw) zero = F.minus r (F.int r)
  remainder_at (r ∷ raw) (suc i) = remainder_at raw i

  abbrev pub scaled : (total_layers : ℕ) → List F.Float → List F.Float
  scaled total_layers fractions = map (λ f. F.times f total_layers) fractions

  unfoldable pub allocate_layers_proportionally :
      (total_layers : ℕ) → (memory_fractions : List F.Float) → Result (List ℕ)
  unfolding hand_out ensure_one sort_indices
  allocate_layers_proportionally total_layers fractions =
      let n = length fractions in
      if n == 0
      then raise value_error
      else if ltb total_layers n
      then raise value_error
      else let raw = scaled total_layers fractions in
        let result = map F.int raw in
        do
          result' ←
              hand_out (total_layers - sum result)
                (sort_indices (remainder_at raw) (range_from 0 n)) result
          ensure_one n 0 result'

  -- The argument `memory_fractions`.
  unfoldable pub fractions_of : List NodeId → Dict MemoryUsage → Memory → Result (List F.Float)
  fractions_of [] node_memory total_memory = ok []
  fractions_of (node_id ∷ node_ids) node_memory total_memory = do
    usage ← require key_error (get node_id node_memory)
    rest ← fractions_of node_ids node_memory total_memory
    ok (F.divide usage.ram_available total_memory ∷ rest)

  -- `_allocate_and_validate_layers`
  unfoldable pub allocate_and_validate_layers :
      List NodeId → Dict MemoryUsage → (total_memory : Memory) → ModelCard → Result (List ℕ)
  unfolding allocate_layers_proportionally fractions_of validate_layers
  allocate_and_validate_layers node_ids node_memory total_memory model_card = do
    fractions ← fractions_of node_ids node_memory total_memory
    allocations ← allocate_layers_proportionally model_card.n_layers fractions
    validate_layers node_ids allocations node_memory model_card
    ok allocations
