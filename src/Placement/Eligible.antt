-- ===== src/Placement/Eligible.antt =====
-- What holds of the cycle on which an instance is placed.
use awesome_distributed_ai_i.Base.{
  ◌≡◌, refl, ◌⊎◌, inl, inr, Bool, true, false, ◌&&◌, List, [], ◌∷◌, leb, In, here, there, In-cons,
  In-keep, any, keep, length, Bool-cases, Result-cases, &&-eq-true, ok,
}
use awesome_distributed_ai_i.Base.Dict.{Dict, keys}
use awesome_distributed_ai_i.Types.{
  NodeId, MemoryUsage, Backend, NodeRdmaCtlStatus, DownloadProgress,
}
use awesome_distributed_ai_i.Topology.Graph.{PyDiGraph}
use awesome_distributed_ai_i.Topology.{Topology}
use awesome_distributed_ai_i.Topology.Cycles.{Cycle}
use awesome_distributed_ai_i.Topology.Rings.{is_rdma_cycle, node_is_leaf}
use awesome_distributed_ai_i.Placement.Floats.{Floats}
use awesome_distributed_ai_i.Placement.Search.{
  PlaceInstance, Settings, CycleSearch, InstanceMeta, mlx_ring, mlx_jaccl, is_empty,
  smallest_placeable_cycles, sorted,
}
use awesome_distributed_ai_i.Placement.Placing.{
  cycle_key, rdma_cycles, selected_cycle, supports, all_rdma_ctl_enabled, for_meta, prefer_leaves,
  has_backend, instance_meta_backends, no_backend,
}
use awesome_distributed_ai_i.Placement.Survivors.{Fits, walk_groups-AllFit, select_cycle-In}

module _ {D : PyDiGraph} (t : Topology D) (rdma_ctl : Dict NodeRdmaCtlStatus) where
  -- Every hop of the cycle to a node of it is over RDMA, which all nodes have enabled.
  abbrev pub OverRdma : Cycle → Type 0
  OverRdma c = (is_rdma_cycle D c t ≡ ok true) × (all_rdma_ctl_enabled rdma_ctl c ≡ true)

  rdma_cycles-OverRdma :
      (cycles out : List Cycle)
      → rdma_cycles D t rdma_ctl cycles ≡ ok out
      → (c : Cycle) → In c out
      → In c cycles × OverRdma c
  unfolding rdma_cycles
  rdma_cycles-OverRdma [] out h c m = let same : [] ≡ out = cc in elim (rw (← same) at m) [ ]
  rdma_cycles-OverRdma (cycle ∷ cycles) out h c m = elim (Result-cases (is_rdma_cycle D cycle t)) [
    | inr (x, e) ↦ let no_value = rw e at h in cc
    | inl (connected, e) ↦ elim (Result-cases (rdma_cycles D t rdma_ctl cycles)) [
      | inr (x, e') ↦ let no_value = rw (e, e') at h in cc
      | inl (rest, e') ↦ elim (Bool-cases (connected && all_rdma_ctl_enabled rdma_ctl cycle)) [
        | inr not_all ↦
            let made = rw (e, e', not_all) at h in
            let same : rest ≡ out = cc in
            let (i, over) = rdma_cycles-OverRdma cycles rest e' c (rw (← same) at m) in
            (there i, over)
        | inl both ↦
            let made = rw (e, e', both) at h in
            let same : cycle ∷ rest ≡ out = cc in
            elim (In-cons (rw (← same) at m)) [
              | inl it ↦
                  let (linked, enabled) =
                    &&-eq-true connected (all_rdma_ctl_enabled rdma_ctl cycle) both in
                  (here it, rw (← it) (rw linked at e, enabled))
              | inr later ↦
                  let (i, over) = rdma_cycles-OverRdma cycles rest e' c later in (there i, over)
            ]
      ]
    ]
  ]

  prefer_leaves-In :
      (cycles : List Cycle) (c : Cycle) → In c (prefer_leaves D t cycles) → In c cycles
  prefer_leaves-In cycles c m =
      let is_leafy : Cycle → Bool = λ cycle. any (λ node_id. node_is_leaf D node_id t) cycle in
      elim (Bool-cases (is_empty (keep is_leafy cycles))) [
        | inl no_leaf ↦ rw no_leaf at m
        | inr leafy ↦ (In-keep is_leafy cycles (rw leafy at m)).0
      ]

  for_meta-In :
      (meta : InstanceMeta) (all_cycles rdma out : List Cycle) (c : Cycle)
      → for_meta D meta all_cycles rdma ≡ ok out
      → In c out
      → (In c all_cycles × (meta ≡ mlx_ring)) ⊎ In c rdma
  for_meta-In mlx_ring all_cycles rdma out c h m =
      let same : all_cycles ≡ out = cc in inl (rw same m, refl)
  for_meta-In mlx_jaccl all_cycles rdma out c h m = elim (Bool-cases (is_empty rdma)) [
    | inl empty ↦ let no_value = rw empty at h in cc
    | inr some_rdma ↦ let made = rw some_rdma at h in let same : rdma ≡ out = cc in inr (rw same m)
  ]

  -- The cycle that is chosen for a command has the nodes that are required, its nodes together have memory for the
  -- model, each of them has one of the backends that the kind of instance and the model both
  -- can use, and for an instance over RDMA it is an RDMA cycle all of whose nodes have RDMA enabled.
  pub selected_cycle-Fits :
      (F : Floats) (settings : Settings) (command : PlaceInstance) (node_memory : Dict MemoryUsage)
      (node_backends : Dict (List Backend)) (required : List NodeId)
      (downloads : Dict (List DownloadProgress)) (found : CycleSearch) (c : Cycle)
      → selected_cycle D F settings command t node_memory node_backends required downloads rdma_ctl
          found
        ≡ ok c
      → Fits command node_memory required c
        × (supports node_backends
              (keep
                (has_backend command.model_card.backends)
                (instance_meta_backends command.instance_meta))
              c
            ≡ true)
        × ((command.instance_meta ≡ mlx_ring) ⊎ OverRdma c)
  unfolding selected_cycle smallest_placeable_cycles
  selected_cycle-Fits F settings command node_memory node_backends required downloads found c h =
      let backends =
        keep (has_backend command.model_card.backends)
          (instance_meta_backends command.instance_meta) in
      elim (Result-cases (
        smallest_placeable_cycles settings command found (length (D.nodes t.graph)) node_memory
          required)) [
            | inr (x, e) ↦ let no_value = rw e at h in cc
            | inl (smallest, e) ↦
                let supported = keep (supports node_backends backends) smallest in
                elim (Bool-cases (no_backend backends)) [
                  | inl none_left ↦ let no_value = rw (e, none_left) at h in cc
                  | inr some_left ↦ elim (Bool-cases (is_empty supported)) [
                    | inl empty ↦ let no_value = rw (e, some_left, empty) at h in cc
                    | inr not_empty ↦ elim (Result-cases (rdma_cycles D t rdma_ctl supported)) [
                      | inr (x, e1) ↦ let no_value = rw (e, some_left, not_empty, e1) at h in cc
                      | inl (rdma, e1) ↦
                          elim (Result-cases (for_meta D command.instance_meta supported rdma)) [
                            | inr (x, e2) ↦
                                let no_value = rw (e, some_left, not_empty, e1, e2) at h in cc
                            | inl (cycles, e2) ↦
                                let chosen =
                                  select_cycle-In F
                                    (cycle_key F command.model_card.model_id downloads node_memory)
                                    (prefer_leaves D t cycles) c
                                    (rw (e, some_left, not_empty, e1, e2) at h) in
                                let in_cycles = prefer_leaves-In cycles c chosen in
                                elim (for_meta-In command.instance_meta supported rdma cycles c e2
                                  in_cycles) [
                                    | inl (in_supported, ring) ↦
                                        let (fits, can) = supported_fits smallest e in_supported in
                                        (fits, can, inl ring)
                                    | inr in_rdma ↦
                                        let (in_supported, over) =
                                          rdma_cycles-OverRdma supported rdma e1 c in_rdma in
                                        let (fits, can) = supported_fits smallest e in_supported in
                                        (fits, can, inr over)
                                  ]
                          ]
                    ]
                  ]
                ]
          ]
    where
      supported_fits :
          (smallest : List Cycle)
          → smallest_placeable_cycles settings command found
              (length (D.nodes t.graph))
              node_memory
              required
            ≡ ok smallest
          → In c (
              keep
                (supports node_backends (
                  keep
                    (has_backend command.model_card.backends)
                    (instance_meta_backends command.instance_meta)))
                smallest)
          → Fits command node_memory required c
            × (supports node_backends
                  (keep
                    (has_backend command.model_card.backends)
                    (instance_meta_backends command.instance_meta))
                  c
                ≡ true)
      supported_fits smallest e m =
          let (i, can) =
            In-keep
              (supports node_backends (
                keep (has_backend command.model_card.backends)
                  (instance_meta_backends command.instance_meta)))
              smallest m in
          (
            walk_groups-AllFit settings command found (length (D.nodes t.graph)) node_memory
                required false (sorted (keep (λ l. leb command.min_nodes l) (keys found.by_length)))
                smallest e c i,
            can,
          )
