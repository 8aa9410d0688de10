-- ===== src/Placement/Stages.antt =====
-- The stages of a pipeline: the shards of consecutive ranks are consecutive ranges of layers.
use awesome_distributed_ai_i.Base.{
  ℕ, zero, suc, ◌+◌, ◌≤◌, ◌<◌, ◌≡◌, refl, subst, inl, inr, some, List, [], ◌∷◌, ltb, ◌==◌, length,
  get_elem?, take, arith, Bool-cases, Option-cases, ok, Result-cases,
}
use awesome_distributed_ai_i.Base.Arrays.{sum, get_elem?-lt, lt-get_elem?}
use awesome_distributed_ai_i.Base.Dict.{Dict, get}
use awesome_distributed_ai_i.Types.{
  NodeId, RunnerId, Memory, MemoryUsage, ModelCard, ShardMetadata, ShardAssignments,
}
use awesome_distributed_ai_i.Topology.Graph.{Distinct}
use awesome_distributed_ai_i.Placement.Floats.{Floats}
use awesome_distributed_ai_i.Placement.Layers.{
  allocate_layers_proportionally, compute_total_memory, fractions_of, validate_layers,
  allocate_and_validate_layers,
}
use awesome_distributed_ai_i.Placement.Allocation.{whole_parts, allocate_divides}
use awesome_distributed_ai_i.Placement.Shards.{
  assign_shards, pipeline_shard, pure_pipeline, validate_cycle,
}
use awesome_distributed_ai_i.Placement.Assigned.{Fresh, Assigned, assign_shards-Assigned}

-- The entries up to an index and one more.
pub sum-take-suc :
    (xs : List ℕ) (i v : ℕ) → get_elem? xs i ≡ some v → sum (take (suc i) xs) ≡ sum (take i xs) + v
sum-take-suc [] i v h = cc
sum-take-suc (x ∷ xs) zero v h = let same : x ≡ v = cc in omega arith
sum-take-suc (x ∷ xs) (suc i) v h = omega (arith, sum-take-suc xs i v h)

pub take-length : (xs : List ℕ) → take (length xs) xs ≡ xs
take-length [] = refl
take-length (x ∷ xs) = let rest = take-length xs in cc

length-fractions_of :
    (F : Floats) (node_ids : List NodeId) (node_memory : Dict MemoryUsage) (total : Memory)
    (fs : List F.Float)
    → fractions_of F node_ids node_memory total ≡ ok fs
    → length fs ≡ length node_ids
unfolding fractions_of
length-fractions_of F [] node_memory total fs h = let same : [] ≡ fs = cc in rw (← same) refl
length-fractions_of F (n ∷ ns) node_memory total fs h = elim (Option-cases (get n node_memory)) [
  | inl unknown ↦ let no_value = rw unknown at h in cc
  | inr (usage, e) ↦ elim (Result-cases (fractions_of F ns node_memory total)) [
    | inr (x, e') ↦ let no_value = rw (e, e') at h in cc
    | inl (rest, e') ↦
        let same = rw (e, e') at h in
        let size = length-fractions_of F ns node_memory total rest e' in
        let listed : F.divide usage.ram_available total ∷ rest ≡ fs = cc in
        rw (← listed) (omega (arith, size))
  ]
]

-- Rounding makes the whole parts of the nodes' shares neither more than the layers nor short of
-- them by more than one a node.
abbrev pub RoundsWell : Floats → List NodeId → Dict MemoryUsage → ModelCard → Type 0
RoundsWell F cycle node_memory card =
    (total : Memory) (fs : List F.Float)
    → compute_total_memory cycle node_memory ≡ ok total
    → fractions_of F cycle node_memory total ≡ ok fs
    → (sum (whole_parts F card.n_layers fs) ≤ card.n_layers)
      × (card.n_layers ≤ sum (whole_parts F card.n_layers fs) + length fs)

-- The layers that each node of the cycle gets.
pub record IsDivision (cycle : List NodeId) (card : ModelCard) (allocations : List ℕ) : Type 0 where
  pub one_each : length allocations ≡ length cycle
  pub all_layers : sum allocations ≡ card.n_layers
  pub some_layer : (i v : ℕ) → get_elem? allocations i ≡ some v → 1 ≤ v

allocate_layers-room :
    (F : Floats) (total : ℕ) (fs : List F.Float) (xs : List ℕ)
    → allocate_layers_proportionally F total fs ≡ ok xs
    → (1 ≤ length fs) × (length fs ≤ total)
unfolding allocate_layers_proportionally
allocate_layers-room F total fs xs h = elim (Bool-cases (length fs == 0)) [
  | inl empty ↦ let no_value = rw empty at h in cc
  | inr some_node ↦ elim (Bool-cases (ltb total (length fs))) [
    | inl short ↦ let no_value = rw (some_node, short) at h in cc
    | inr room ↦ (ground arith, ground arith)
  ]
]

pub allocate_and_validate-IsDivision :
    (F : Floats) (cycle : List NodeId) (node_memory : Dict MemoryUsage) (card : ModelCard)
    (total : Memory) (xs : List ℕ)
    → RoundsWell F cycle node_memory card
    → compute_total_memory cycle node_memory ≡ ok total
    → allocate_and_validate_layers F cycle node_memory total card ≡ ok xs
    → IsDivision cycle card xs
unfolding allocate_and_validate_layers
allocate_and_validate-IsDivision F cycle node_memory card total xs rounds known h =
    elim (Result-cases (fractions_of F cycle node_memory total)) [
      | inr (x, e) ↦ let no_value = rw e at h in cc
      | inl (fs, e) ↦ elim (Result-cases (allocate_layers_proportionally F card.n_layers fs)) [
        | inr (x, e') ↦ let no_value = rw (e, e') at h in cc
        | inl (ys, e') ↦ elim (Result-cases (validate_layers cycle ys node_memory card)) [
          | inr (x, e'') ↦ let no_value = rw (e, e', e'') at h in cc
          | inl (done, e'') ↦
              let result = rw (e, e', e'') at h in
              let same : ys ≡ xs = cc in
              let room = allocate_layers-room F card.n_layers fs ys e' in
              let (over, under) = rounds total fs known e in
              let (zs, e3, size, all, each) =
                allocate_divides F card.n_layers fs room.0 room.1 over under in
              let values : ok ys ≡ ok zs = cc (e', e3) in
              let equal : zs ≡ xs = cc in
              rw (← equal) (record {
                one_each = omega (arith, size, length-fractions_of F cycle node_memory total fs e);
                all_layers = all;
                some_layer = each;
              })
        ]
      ]
    ]

-- The shards of the cycle cut the layers at the bounds: the node of each rank has the runner of that rank, whose
-- shard is the non-empty range between one bound and the next.
pub record Tiles (fresh : ℕ → RunnerId) (cycle : List NodeId) (card : ModelCard)
    (a : ShardAssignments) : Type 0 where
  pub bound : ℕ → ℕ
  pub first : bound 0 ≡ 0
  pub last : bound (length cycle) ≡ card.n_layers
  pub stage :
      (rank node_id : ℕ)
      → get_elem? cycle rank ≡ some node_id
      → (s : ShardMetadata) × (get node_id a.node_to_runner ≡ some (fresh rank))
        × (get (fresh rank) a.runner_to_shard ≡ some s)
        × (s.device_rank ≡ rank)
        × (s.start_layer ≡ bound rank)
        × (s.end_layer ≡ bound (suc rank))
        × s.start_layer < s.end_layer

module _ (fresh : ℕ → RunnerId) (own : Fresh fresh) where
  pipeline_shard-range :
      (card : ModelCard) (world_size : ℕ) (xs : List ℕ) (rank v : ℕ) (s : ShardMetadata)
      → get_elem? xs rank ≡ some v
      → pipeline_shard fresh card world_size xs rank ≡ ok s
      → (s.device_rank ≡ rank)
        × (s.start_layer ≡ sum (take rank xs))
        × (s.end_layer ≡ sum (take rank xs) + v)
  pipeline_shard-range card world_size xs rank v s layers h =
      let made = rw (layers, pipeline_shard) at h in (cc, cc, cc)

  stages-Tiles :
      (cycle : List NodeId) (card : ModelCard) (xs : List ℕ)
      (built : Dict ShardMetadata × Dict RunnerId) (a : ShardAssignments)
      → Distinct cycle
      → IsDivision cycle card xs
      → assign_shards fresh (pipeline_shard fresh card (length cycle) xs) 0 cycle ([], [])
        ≡ ok built
      → a.runner_to_shard ≡ built.0
      → a.node_to_runner ≡ built.1
      → Tiles fresh cycle card a
  stages-Tiles cycle card xs built a distinct d h shards nodes = record {
    bound = λ i. sum (take i xs);
    first = refl;
    last = rw (← d.one_each, take-length xs) d.all_layers;
    stage = λ rank n at.
        let got = assigned rank n at in
        let inside = lt-get_elem? cycle rank n at in
        let (v, layers) = get_elem?-lt xs rank (omega (arith, d.one_each)) in
        let (of_rank, starts, ends) =
          pipeline_shard-range card (length cycle) xs rank v got.shard layers got.shard_of_rank in
        let next = sum-take-suc xs rank v layers in
        let positive = d.some_layer rank v layers in
        (
          got.shard,
          rw (nodes) got.runner,
          rw (shards) got.shard_of_runner,
          of_rank,
          starts,
          omega (arith, ends, next),
          omega (arith, starts, ends, positive),
        );
  }
    where
      assigned :
          (rank node_id : ℕ)
          → get_elem? cycle rank ≡ some node_id
          → Assigned fresh (pipeline_shard fresh card (length cycle) xs) rank node_id built
      assigned rank n at =
          let at_rank : 0 + rank ≡ rank = omega arith in
          subst (λ r. Assigned fresh (pipeline_shard fresh card (length cycle) xs) r n built)
            at_rank
            (assign_shards-Assigned fresh (pipeline_shard fresh card (length cycle) xs) own 0 cycle
              ([], []) built distinct h rank n at)

  -- A pipeline over a cycle without repetitions, if it is placed at all: there are bounds that
  -- start at layer 0, end at the number of layers and grow, the node of each rank has the runner of
  -- that rank, and the shard of that runner is of the rank and holds the layers from its bound to
  -- the next. So each layer is in the shard of exactly one node, in the order of the ranks. Each rank has a
  -- runner of its own, and rounding makes the whole parts of the shares of the nodes neither more than the layers nor short of
  -- them by more than one a node.
  pub pure_pipeline-Tiles :
      (F : Floats) (card : ModelCard) (cycle : List NodeId) (node_memory : Dict MemoryUsage)
      (a : ShardAssignments)
      → Distinct cycle
      → RoundsWell F cycle node_memory card
      → pure_pipeline fresh F card cycle node_memory ≡ ok a
      → Tiles fresh cycle card a
  unfolding pure_pipeline
  pure_pipeline-Tiles F card cycle node_memory a distinct rounds h =
      elim (Result-cases (validate_cycle cycle)) [
        | inr (x, e) ↦ let no_value = rw (e, pure_pipeline) at h in cc
        | inl (u, e) ↦ elim (Result-cases (compute_total_memory cycle node_memory)) [
          | inr (x, e1) ↦ let no_value = rw (e, e1) at h in cc
          | inl (total, e1) ↦
              elim (Result-cases (allocate_and_validate_layers F cycle node_memory total card)) [
                | inr (x, e2) ↦ let no_value = rw (e, e1, e2) at h in cc
                | inl (xs, e2) ↦
                    elim (Result-cases (
                      assign_shards fresh (pipeline_shard fresh card (length cycle) xs) 0 cycle
                        ([], []))) [
                          | inr (x, e3) ↦ let no_value = rw (e, e1, e2, e3) at h in cc
                          | inl (built, e3) ↦
                              let result = rw (e, e1, e2, e3) at h in
                              let shards : a.runner_to_shard ≡ built.0 = cc in
                              let nodes : a.node_to_runner ≡ built.1 = cc in
                              stages-Tiles cycle card xs built a distinct
                                (allocate_and_validate-IsDivision F cycle node_memory card total xs
                                  rounds e1 e2)
                                e3 shards nodes
                        ]
              ]
        ]
      ]
