-- ===== src/Placement/Survivors.antt =====
-- What the search for cycles, the choice of a group and the choice of the best cycle keep.
use awesome_distributed_ai_i.Base.{
  ℕ, ◌≤◌, ◌≡◌, ◌⊎◌, inl, inr, Bool, true, false, ◌&&◌, ◌||◌, Option, none, some, List, [], ◌∷◌, ◌%◌,
  ltb, leb, ◌==◌, if◌then◌else◌, In, here, there, In-cons, In-keep, all, elem, length, arith,
  Bool-cases, Option-cases, Result-cases, Result, ok,
}
use awesome_distributed_ai_i.Base.Dict.{Dict, get, has}
use awesome_distributed_ai_i.Types.{NodeId, Memory, MemoryUsage, ModelCard}
use awesome_distributed_ai_i.Topology.Cycles.{Cycle}
use awesome_distributed_ai_i.Placement.Floats.{Floats}
use awesome_distributed_ai_i.Placement.Layers.{total_available}
use awesome_distributed_ai_i.Placement.Shards.{Sharding}
use awesome_distributed_ai_i.Placement.Search.{
  PlaceInstance, Settings, CycleSearch, is_empty, filter_cycles_by_memory,
  cycles_the_sharding_allows, starts_with, heads_divide, allowed_by, with_required,
  nothing_placeable, reject_unless, choose_group, walk_groups,
}
use awesome_distributed_ai_i.Placement.Placing.{best_cycle, select_cycle, better}

-- The memory of the nodes holds the model.
pub record HasMemory (node_memory : Dict MemoryUsage) (required : Memory) (cycle : Cycle)
    : Type 0 where
  pub memory : Memory
  pub available : total_available cycle node_memory ≡ ok memory
  pub enough : required ≤ memory

filter-HasMemory :
    (cycles out : List Cycle) (node_memory : Dict MemoryUsage) (required : Memory)
    → filter_cycles_by_memory cycles node_memory required ≡ ok out
    → {c : Cycle} → In c out
    → In c cycles × HasMemory node_memory required c
unfolding filter_cycles_by_memory
filter-HasMemory [] out node_memory required h m =
    let same : [] ≡ out = cc in elim (rw (← same) at m) [ ]
filter-HasMemory (cycle ∷ cycles) out node_memory required h {c} m =
    elim (Bool-cases (all (λ node. has node node_memory) cycle)) [
      | inr unknown ↦
          let (i, fits) = filter-HasMemory cycles out node_memory required (rw unknown at h) m in
          (there i, fits)
      | inl known ↦ elim (Result-cases (total_available cycle node_memory)) [
        | inr (x, e) ↦ let no_value = rw (known, e) at h in cc
        | inl (total, e) ↦
            elim (Result-cases (filter_cycles_by_memory cycles node_memory required)) [
              | inr (x, e') ↦ let no_value = rw (known, e, e') at h in cc
              | inl (rest, e') ↦
                  let made = rw (known, e, e') at h in
                  let same : (if leb required total then cycle ∷ rest else rest) ≡ out = cc in
                  filtered cycle cycles rest node_memory required total e
                    (λ i. filter-HasMemory cycles rest node_memory required e' i) (rw (← same) at m)
            ]
      ]
    ]
  where
    filtered :
        {c : Cycle} (cycle : Cycle) (cycles rest : List Cycle) (node_memory : Dict MemoryUsage)
        (required total : Memory)
        → total_available cycle node_memory ≡ ok total
        → (In c rest → In c cycles × HasMemory node_memory required c)
        → In c (if leb required total then cycle ∷ rest else rest)
        → In c (cycle ∷ cycles) × HasMemory node_memory required c
    filtered cycle cycles rest node_memory required total e later i =
        elim (Bool-cases (leb required total)) [
          | inl enough ↦ elim (In-cons (rw enough at i)) [
            | inl same ↦ (
              here same,
              rw (← same) (record { memory = total; available = e; enough = ground arith }),
            )
            | inr in_rest ↦ let (k, fits) = later in_rest in (there k, fits)
          ]
          | inr short ↦ let (k, fits) = later (rw short at i) in (there k, fits)
        ]

allowed-In :
    (sharding : Sharding) (card : ModelCard) (cycles : List Cycle) {c : Cycle}
    → In c (allowed_by sharding card cycles)
    → In c cycles
allowed-In Sharding.tensor card cycles m =
    (In-keep
      (λ (cycle : Cycle).
        (card.hidden_size % length cycle == 0)
        && (starts_with "DeepSeek V4" card.base_model
            || heads_divide card.num_key_value_heads (length cycle)))
      cycles m).0
allowed-In Sharding.pipeline card cycles m =
    elim (Bool-cases (starts_with "Gemma 4" card.base_model)) [
      | inl gemma ↦ (In-keep (λ (cycle : Cycle). length cycle == 1) cycles (rw gemma at m)).0
      | inr other ↦ rw other at m
    ]

-- The cycle has the required nodes, and memory for the model.
abbrev pub Fits : PlaceInstance → Dict MemoryUsage → (required_nodes : List NodeId) → Cycle → Type 0
Fits command node_memory required c =
    HasMemory node_memory command.model_card.storage_size c
    × (all (λ node. elem node c) required ≡ true)

abbrev AllFit : PlaceInstance → Dict MemoryUsage → List NodeId → List Cycle → Type 0
AllFit command node_memory required cycles =
    (c : Cycle) → In c cycles → Fits command node_memory required c

choose_group-cases :
    (allowed : List Cycle) (rest : Result (List Cycle)) (out : List Cycle)
    → choose_group allowed rest ≡ ok out
    → (allowed ≡ out) ⊎ (rest ≡ ok out)
choose_group-cases [] rest out h = inr h
choose_group-cases (c ∷ cs) rest out h = inl cc

pub walk_groups-AllFit :
    (settings : Settings) (command : PlaceInstance) (search : CycleSearch) (node_count : ℕ)
    (node_memory : Dict MemoryUsage) (required : List NodeId) (checked : Bool) (lengths : List ℕ)
    (out : List Cycle)
    → walk_groups settings command search node_count node_memory required checked lengths ≡ ok out
    → AllFit command node_memory required out
unfolding walk_groups cycles_the_sharding_allows
walk_groups-AllFit settings command found count node_memory required checked [] out h =
    no_group found.max_cycle_nodes h
  where
    no_group :
        (o : Option ℕ)
        → nothing_placeable o count ≡ ok out
        → AllFit command node_memory required out
    no_group none e = cc
    no_group (some n) e = elim (Bool-cases (ltb n count)) [
      | inl more ↦ let no_value = rw more at e in cc
      | inr all_searched ↦ let no_value = rw all_searched at e in cc
    ]
walk_groups-AllFit settings command found count node_memory required checked (l ∷ lengths) out h =
    elim (Option-cases (get l found.by_length)) [
      | inl missing ↦ let no_value = rw missing at h in cc
      | inr (group, e) ↦
          elim (Result-cases (
            filter_cycles_by_memory (with_required required group) node_memory
              command.model_card.storage_size)) [
                | inr (x, e1) ↦ let no_value = rw (e, e1) at h in cc
                | inl (with_memory, e1) ↦ elim (Bool-cases (is_empty with_memory)) [
                  | inl empty ↦
                      walk_groups-AllFit settings command found count node_memory required
                        (checked || false) lengths out (rw (e, e1, empty) at h)
                  | inr some_fit ↦ elim (Result-cases (reject_unless checked settings command)) [
                    | inr (x, e2) ↦ let no_value = rw (e, e1, some_fit, e2) at h in cc
                    | inl (u, e2) ↦
                        elim (choose_group-cases
                          (allowed_by command.sharding command.model_card with_memory)
                          (walk_groups settings command found count node_memory required
                            (checked || true) lengths)
                          out (rw (e, e1, some_fit, e2) at h)) [
                            | inl chosen ↦ λ c m.
                                let in_memory =
                                  allowed-In command.sharding command.model_card with_memory
                                    (rw (← chosen) at m) in
                                let (in_group, fits) =
                                  filter-HasMemory (with_required required group) with_memory
                                    node_memory command.model_card.storage_size e1 in_memory in
                                (
                                  fits,
                                  (In-keep (λ cycle. all (λ node. elem node cycle) required) group
                                      in_group).1,
                                )
                            | inr later ↦
                                walk_groups-AllFit settings command found count node_memory required
                                  (checked || true) lengths out later
                          ]
                  ]
                ]
              ]
    ]

best_cycle-In :
    (F : Floats) (key : Cycle → Result (F.Float × Memory)) (best : Cycle) (k : F.Float × Memory)
    (cycles : List Cycle) (c : Cycle)
    → best_cycle F key best k cycles ≡ ok c
    → (best ≡ c) ⊎ In c cycles
unfolding best_cycle
best_cycle-In F key best k [] c h = inl cc
best_cycle-In F key best k (cycle ∷ cycles) c h = elim (Result-cases (key cycle)) [
  | inr (x, e) ↦ let no_value = rw e at h in cc
  | inl (k', e) ↦ elim (Bool-cases (better F k' k)) [
    | inl more ↦ elim (best_cycle-In F key cycle k' cycles c (rw (e, more) at h)) [
      | inl same ↦ inr (here same)
      | inr later ↦ inr (there later)
    ]
    | inr less ↦ elim (best_cycle-In F key best k cycles c (rw (e, less) at h)) [
      | inl same ↦ inl same
      | inr later ↦ inr (there later)
    ]
  ]
]

pub select_cycle-In :
    (F : Floats) (key : Cycle → Result (F.Float × Memory)) (cycles : List Cycle) (c : Cycle)
    → select_cycle F key cycles ≡ ok c
    → In c cycles
unfolding select_cycle
select_cycle-In F key [] c h = cc
select_cycle-In F key (cycle ∷ cycles) c h = elim (Result-cases (key cycle)) [
  | inr (x, e) ↦ let no_value = rw e at h in cc
  | inl (k, e) ↦ elim (best_cycle-In F key cycle k cycles c (rw e at h)) [
    | inl same ↦ here same
    | inr later ↦ there later
  ]
]
