-- ===== src/Apply/Valid.antt =====
-- The topology of the state stays well-formed.
use awesome_distributed_ai_i.Base.{
  ℕ, ◌≡◌, inl, inr, refl, sym, subst, true, false, Option, none, some, List, [], ◌∷◌, Result, ok,
  raise, ◌>>=◌, Result-cases,
}
use awesome_distributed_ai_i.Base.Dict.{get, set}
use awesome_distributed_ai_i.Types
use awesome_distributed_ai_i.Types.{NodeId, GatheredInfo}
use awesome_distributed_ai_i.Topology.Graph.{PyDiGraph, Laws}
use awesome_distributed_ai_i.Topology.{
  Topology, add_node, add_connection, remove_connection, replace_all_out_rdma_connections,
  remove_all_rdma_connections_touching,
}
use awesome_distributed_ai_i.Topology.Nodes.{IsValid, new-IsValid, add_node-Adds}
use awesome_distributed_ai_i.Topology.Connections.{add_connection-Joins}
use awesome_distributed_ai_i.Topology.Removal.{remove_connection-exact}
use awesome_distributed_ai_i.Topology.Rdma.{remove_all_rdma-exact, replace_all_out_rdma-exact}
use awesome_distributed_ai_i.Topology.Departure.{remove_node-exact}
use awesome_distributed_ai_i.Apply.Data.{
  State, Event, IndexedEvent, initial, node_gathered_info, topology_edge_created,
  topology_edge_deleted, node_timed_out, task_status_updated, task_failed, runner_status_updated,
}
use awesome_distributed_ai_i.Apply.Handlers.{
  change_task, updated_task, failed_task, apply_runner_status_updated, apply_node_download_progress,
  apply_task_created, apply_task_deleted, apply_task_status_updated, apply_task_failed,
  apply_instance_created, apply_instance_deleted, apply_instance_link_created,
  apply_instance_link_deleted, apply_custom_model_card_added, apply_custom_model_card_deleted,
  apply_node_timed_out, apply_topology_edge_created, apply_topology_edge_deleted,
}
use awesome_distributed_ai_i.Apply.Gathered.{
  rdma_conns, domains_of, apply_node_gathered_info, apply_info,
}
use awesome_distributed_ai_i.Apply.{event_apply, apply, replay}
use awesome_distributed_ai_i.Apply.Replay.{apply_cases}

module _ {D : PyDiGraph} (laws : Laws D) where
  -- The state's topology is well-formed.
  abbrev pub IsSound : State D → Type 0
  IsSound state = IsValid D state.topology

  -- A computation that gives a sound state if it gives one.
  abbrev Sound : Result (State D) → Type 0
  Sound r = (s' : State D) → r ≡ ok s' → IsSound s'

  ok-Sound : (s : State D) → IsSound s → Sound (ok s)
  ok-Sound s valid s' h = let same : s ≡ s' = cc in subst IsSound same valid

  -- After a step on the topology that succeeds with a well-formed one.
  step-Sound :
      (r : Result (Topology D)) (build : Topology D → State D)
      → ((t : Topology D) → (build t).topology ≡ t)
      → ((t : Topology D) → r ≡ ok t → IsValid D t)
      → Sound (r >>= λ t. ok (build t))
  step-Sound (ok t) build keeps valid s' h =
      let same : build t ≡ s' = cc in
      subst IsSound same (subst (IsValid D) (sym (keeps t)) (valid t refl))
  step-Sound (raise x) build keeps valid s' h = cc

  -- A step that computes something else first.
  other-Sound :
      {A : Type 0} (r : Result A) (build : A → State D)
      → ((a : A) → IsSound (build a))
      → Sound (r >>= λ a. ok (build a))
  other-Sound (ok a) build sound s' h = let same : build a ≡ s' = cc in subst IsSound same (sound a)
  other-Sound (raise x) build sound s' h = cc

  -- What a total operation gives.
  gives :
      (P : Topology D → Type 0) (r : Result (Topology D)) (t : Topology D)
      → r ≡ ok t
      → P t
      → (t' : Topology D) → r ≡ ok t'
      → P t'
  gives P r t e p t' h = let both : ok t ≡ ok t' = cc in let same : t ≡ t' = cc in subst P same p

  info-Sound :
      (node_id : NodeId) (u : ℕ) (info : GatheredInfo) (state : State D)
      → get node_id state.topology.vertex_indices ≡ some u
      → IsSound state
      → Sound (apply_info node_id info state)
  unfolding apply_info
  info-Sound node_id u (Types.macmon_metrics p m) state at valid = λ s' h. ok-Sound _ valid s' h
  info-Sound node_id u (Types.memory_usage i) state at valid = λ s' h. ok-Sound _ valid s' h
  info-Sound node_id u (Types.node_disk_usage i) state at valid = λ s' h. ok-Sound _ valid s' h
  info-Sound node_id u Types.node_config state at valid = λ s' h. ok-Sound _ valid s' h
  info-Sound node_id u (Types.misc_data n) state at valid = λ s' h. ok-Sound _ valid s' h
  info-Sound node_id u (Types.static_node_information a b c d) state at valid =
      λ s' h. ok-Sound _ valid s' h
  info-Sound node_id u (Types.node_network_interfaces i) state at valid =
      λ s' h. ok-Sound _ valid s' h
  info-Sound node_id u (Types.mac_thunderbolt_identifiers i) state at valid =
      λ s' h. ok-Sound _ valid s' h
  info-Sound node_id u (Types.mac_thunderbolt_connections conns) state at valid =
      let wanted =
        rdma_conns node_id state.node_rdma_ctl (domains_of state.node_thunderbolt []) conns in
      let (t, e, sound, _) =
        replace_all_out_rdma-exact D laws node_id u wanted state.topology valid at in
      step-Sound (replace_all_out_rdma_connections D node_id wanted state.topology)
        (λ t. record state { topology = t }) (λ t. refl)
        (gives (IsValid D) (replace_all_out_rdma_connections D node_id wanted state.topology) t e
          sound)
  info-Sound node_id u (Types.thunderbolt_bridge_info s) state at valid =
      let bridges = set node_id s state.node_thunderbolt_bridge in
      other-Sound _
        (λ cycles. record state {
          node_thunderbolt_bridge = bridges;
          thunderbolt_bridge_cycles = cycles;
        })
        (λ cycles. valid)
  info-Sound node_id u (Types.rdma_ctl_status true) state at valid = λ s' h. ok-Sound _ valid s' h
  info-Sound node_id u (Types.rdma_ctl_status false) state at valid =
      let (t, e, sound, _) = remove_all_rdma-exact D laws node_id state.topology valid in
      step-Sound (remove_all_rdma_connections_touching D node_id state.topology)
        (λ t. record state {
          node_rdma_ctl = set node_id (record { enabled = false }) state.node_rdma_ctl;
          topology = t;
        })
        (λ t. refl)
        (gives (IsValid D) (remove_all_rdma_connections_touching D node_id state.topology) t e
          sound)
  info-Sound node_id u (Types.node_backends_info b) state at valid = λ s' h. ok-Sound _ valid s' h

  task-topology :
      (task_id : Types.TaskId) (change : Types.Task → Types.Task) (o : Option Types.Task)
      (state : State D)
      → (change_task task_id change o state).topology ≡ state.topology
  task-topology task_id change none state = refl
  task-topology task_id change (some task) state = refl

  runner-topology :
      (runner_id : Types.RunnerId) (status : Types.RunnerStatus) (state : State D)
      → (apply_runner_status_updated runner_id status state).topology ≡ state.topology
  unfolding apply_runner_status_updated
  runner-topology runner_id Types.runner_shutdown state = refl
  runner-topology runner_id _ state = refl

  event_apply-Sound :
      (event : Event) (state : State D) → IsSound state → Sound (event_apply event state)
  unfolding event_apply apply_node_gathered_info apply_topology_edge_created
      apply_topology_edge_deleted apply_node_timed_out apply_node_download_progress
      apply_task_created apply_task_deleted apply_task_status_updated apply_task_failed
      apply_instance_created apply_instance_deleted apply_instance_link_created
      apply_instance_link_deleted apply_custom_model_card_added apply_custom_model_card_deleted
  event_apply-Sound (node_gathered_info node_id when info) state valid =
      let added = add_node-Adds D laws node_id state.topology valid in
      info-Sound node_id added.at info
        (record state {
          last_seen = set node_id when state.last_seen;
          topology = add_node D node_id state.topology;
        })
        added.there added.valid
  event_apply-Sound (topology_edge_created conn) state valid =
      let (t, e, joins, _) = add_connection-Joins D laws conn state.topology valid in
      step-Sound (add_connection D conn state.topology) (λ t. record state { topology = t })
        (λ t. refl) (gives (IsValid D) (add_connection D conn state.topology) t e joins.valid)
  event_apply-Sound (topology_edge_deleted conn) state valid =
      let (t, e, sound, _) = remove_connection-exact D laws conn state.topology valid in
      step-Sound (remove_connection D conn state.topology) (λ t. record state { topology = t })
        (λ t. refl) (gives (IsValid D) (remove_connection D conn state.topology) t e sound)
  event_apply-Sound (node_timed_out node_id) state valid =
      let (sound, _, _) = remove_node-exact D laws node_id state.topology valid in
      other-Sound _ _ (λ cycles. sound)
  event_apply-Sound (task_status_updated task_id status) state valid = ok-Sound _ (
      subst (IsValid D)
        (sym (task-topology task_id (updated_task status) (get task_id state.tasks) state)) valid)
  event_apply-Sound (task_failed task_id a b) state valid = ok-Sound _ (
      subst (IsValid D)
        (sym (task-topology task_id (failed_task a b) (get task_id state.tasks) state)) valid)
  event_apply-Sound (runner_status_updated runner_id status) state valid =
      ok-Sound _ (subst (IsValid D) (sym (runner-topology runner_id status state)) valid)
  event_apply-Sound event state valid = λ s' h. ok-Sound _ valid s' h

  -- However many events are applied to a state with a well-formed topology, without an exception,
  -- the topology of the last state is well-formed.
  pub replay-IsSound :
      (events : List IndexedEvent) (state s' : State D)
      → IsSound state
      → replay state events ≡ ok s'
      → IsSound s'
  unfolding replay
  replay-IsSound [] state s' valid h = ok-Sound state valid s' h
  replay-IsSound (event ∷ events) state s' valid h = elim (Result-cases (apply state event)) [
    | inl (s1, e) ↦
        let (_, (new_state, f, same)) = apply_cases state event s1 e in
        let sound = event_apply-Sound event.event state valid new_state f in
        replay-IsSound events s1 s' (subst IsSound same sound) (rw e at h)
    | inr (x, e) ↦ let raised = rw e at h in cc
  ]

  pub initial-IsSound : IsSound (initial D)
  unfolding initial
  initial-IsSound = new-IsValid D laws
