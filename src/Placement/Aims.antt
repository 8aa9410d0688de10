-- ===== src/Placement/Aims.antt =====
-- The commands that create and delete an instance, up to the state that their events lead to.
use awesome_distributed_ai_i.Base.{
  ℕ, ◌≡◌, refl, sym, ap, ◌∙◌, inl, inr, true, false, none, some, List, ◌==◌, if◌then◌else◌, In,
  arith, Bool-cases, Result-cases, length, subst, ok,
}
use awesome_distributed_ai_i.Base.Dict.{
  Dict, get, has, set, remove, get-set, get-remove, In-set, In-remove,
}
use awesome_distributed_ai_i.Types.{NodeId, InstanceId, Instance}
use awesome_distributed_ai_i.Topology.Graph.{PyDiGraph}
use awesome_distributed_ai_i.Apply.{event_apply_all}
use awesome_distributed_ai_i.Apply.Data.{State}
use awesome_distributed_ai_i.Topology.Cycles.{Cycle}
use awesome_distributed_ai_i.Topology.Rings.{get_subgraph_from_nodes}
use awesome_distributed_ai_i.Placement.Floats.{Floats}
use awesome_distributed_ai_i.Placement.Shards.{get_shard_assignments}
use awesome_distributed_ai_i.Placement.Search.{PlaceInstance, Settings, CycleSearch}
use awesome_distributed_ai_i.Placement.Placing.{
  Drawn, selected_cycle, sharding_for, meta_for, instance_kind, place_instance,
}
use awesome_distributed_ai_i.Placement.Transition.{
  add_instance_to_placements, delete_instance, get_transition_events,
}
use awesome_distributed_ai_i.Placement.Applied.{IsDict}
use awesome_distributed_ai_i.Placement.Reached.{IsAim, Reaches, transition-Reaches}

-- The instances stand under their own identifiers, once each.
abbrev pub Owned : Dict Instance → Type 0
Owned d = (k : ℕ) (i : Instance) → In (k, i) d → (i.instance_id ≡ k) × (get k d ≡ some i)

delete-IsAim : (x : InstanceId) (d : Dict Instance) → Owned d → IsAim d (remove x d)
delete-IsAim x d owned = record {
  own_key = λ k i m.
      let (old, other) = In-remove x d k i m in
      let (own, at) = owned k i old in (own, ground (arith, get-remove x k d));
  agree = λ k old kept. elim (Bool-cases (x == k)) [
    | inl same ↦ absurd (ground (arith, get-remove x k d))
    | inr other ↦ ground (arith, get-remove x k d)
  ];
}

create-IsAim :
    (instance : Instance) (d : Dict Instance)
    → has instance.instance_id d ≡ false
    → Owned d
    → IsAim d (set instance.instance_id instance d)
create-IsAim instance d new owned = record {
  own_key = λ k i m. elim (In-set instance.instance_id instance d k i m) [
    | inl (key, value) ↦
        let own = ap (λ (z : Instance). z.instance_id) value in
        (sym own ∙ key, ground (arith, get-set instance.instance_id k instance d))
    | inr old ↦
        let (own, at) = owned k i old in
        (
          own,
          elim (Bool-cases (instance.instance_id == k)) [
            | inl same ↦ absurd (ground arith)
            | inr other ↦ ground (arith, get-set instance.instance_id k instance d)
          ],
        )
  ];
  agree = λ k old kept. elim (Bool-cases (instance.instance_id == k)) [
    | inl same ↦ absurd (ground arith)
    | inr other ↦ ground (arith, get-set instance.instance_id k instance d)
  ];
}

-- What a placement adds: an instance with the drawn identifier, whose shards are those of the
-- chosen cycle.
pub record Placed {D : PyDiGraph} (F : Floats) (settings : Settings) (drawn : Drawn)
    (command : PlaceInstance) (required : List NodeId) (found : CycleSearch) (s : State D)
    (instance : Instance) : Type 0 where
  pub own_id : instance.instance_id ≡ drawn.instance_id
  pub cycle : Cycle
  pub selected :
      selected_cycle D F settings command s.topology s.node_memory s.node_backends required
        s.downloads s.node_rdma_ctl found
      ≡ ok cycle
  pub shards :
      get_shard_assignments drawn.runner_ids F command.model_card cycle
        (sharding_for (length cycle == 1) command)
        s.node_memory
      ≡ ok instance.shard_assignments

place_instance-Placed :
    {D : PyDiGraph} (F : Floats) (settings : Settings) (drawn : Drawn) (command : PlaceInstance)
    (required : List NodeId) (found : CycleSearch) (s : State D) (target : Dict Instance)
    → place_instance D F settings drawn command s.topology s.instances s.node_memory s.node_network
        s.node_backends required s.downloads s.node_rdma_ctl found
      ≡ ok target
    → (instance : Instance) × Placed F settings drawn command required found s instance
      × (set drawn.instance_id instance s.instances ≡ target)
unfolding place_instance
place_instance-Placed {D = D} F settings drawn command required found s target h =
    elim (Result-cases (
      selected_cycle D F settings command s.topology s.node_memory s.node_backends required
        s.downloads s.node_rdma_ctl found)) [
          | inr (x, e) ↦ let no_value = rw e at h in cc
          | inl (c, e) ↦
              let one = length c == 1 in
              elim (Result-cases (
                get_shard_assignments drawn.runner_ids F command.model_card c
                  (sharding_for one command) s.node_memory)) [
                    | inr (x, e1) ↦ let no_value = rw (e, e1) at h in cc
                    | inl (a, e1) ↦ elim (Result-cases (get_subgraph_from_nodes D c s.topology)) [
                      | inr (x, e2) ↦ let no_value = rw (e, e1, e2) at h in cc
                      | inl (g, e2) ↦
                          elim (Result-cases (
                            instance_kind D (meta_for one command) c a g s.node_network
                              drawn.ephemeral_port)) [
                                | inr (x, e3) ↦ let no_value = rw (e, e1, e2, e3) at h in cc
                                | inl (kind, e3) ↦
                                    let made = rw (e, e1, e2, e3) at h in
                                    (
                                      record {
                                        instance_id = drawn.instance_id;
                                        shard_assignments = a;
                                        kind = kind;
                                      },
                                      record {
                                        own_id = refl;
                                        cycle = c;
                                        selected = e;
                                        shards = e1;
                                      },
                                      cc,
                                    )
                              ]
                    ]
                  ]
        ]

module _ {D : PyDiGraph} (s : State D) (owned : Owned s.instances)
    (tasks_once : IsDict s.tasks) where
  -- Deleting an instance of the state succeeds, its events raise nothing, and they lead to the state without that
  -- instance: it is gone, all others are as they were, and the tasks in flight are cancelled for
  -- the deleted instance and for no other. The instances of the state stand under their own
  -- identifiers, once each, and so do its tasks.
  pub delete_instance-Reaches :
      (x : InstanceId)
      → has x s.instances ≡ true
      → (target : Dict Instance) × (s' : State D) × (delete_instance x s.instances ≡ ok target)
        × (event_apply_all (get_transition_events s.instances target s.tasks) s ≡ ok s')
        × ((k : ℕ) → get k s'.instances ≡ (if x == k then none else get k s.instances))
        × Reaches target s s'
  unfolding delete_instance
  delete_instance-Reaches x present =
      let (s', e, r) =
        transition-Reaches s (remove x s.instances) (delete-IsAim x s.instances owned) tasks_once in
      (
        remove x s.instances,
        s',
        rw present refl,
        e,
        λ k. r.instances_are k ∙ get-remove x k s.instances,
        r,
      )

  -- Creating an instance with a new identifier: its events raise nothing, and they lead to the state with that
  -- instance, and all others as they were. The instances of the state stand under their own
  -- identifiers, once each, and so do its tasks.
  pub add_instance-Reaches :
      (instance : Instance)
      → has instance.instance_id s.instances ≡ false
      → (s' : State D) × (event_apply_all
            (get_transition_events s.instances
              (add_instance_to_placements instance s.instances)
              s.tasks)
            s
          ≡ ok s')
        × ((k : ℕ)
            → get k s'.instances
              ≡ (if instance.instance_id == k then some instance else get k s.instances))
  unfolding add_instance_to_placements
  add_instance-Reaches instance new =
      let (s', e, r) =
        transition-Reaches s (set instance.instance_id instance s.instances)
          (create-IsAim instance s.instances new owned) tasks_once in
      (s', e, λ k. r.instances_are k ∙ get-set instance.instance_id k instance s.instances)

  -- Placing an instance, if it raises nothing and draws an identifier that no instance has: the events raise
  -- nothing, and they lead to the state with one more instance, which has the drawn identifier and the
  -- shards of the chosen cycle, and with all others as they were. The instances of the
  -- state stand under their own identifiers, once each, and so do its tasks.
  pub place_instance-Reaches :
      (F : Floats) (settings : Settings) (drawn : Drawn) (command : PlaceInstance)
      (required : List NodeId) (found : CycleSearch) (target : Dict Instance)
      → has drawn.instance_id s.instances ≡ false
      → place_instance D F settings drawn command s.topology s.instances s.node_memory
          s.node_network s.node_backends required s.downloads s.node_rdma_ctl found
        ≡ ok target
      → (instance : Instance) × (s' : State D) × Placed F settings drawn command required found s
          instance
        × (event_apply_all (get_transition_events s.instances target s.tasks) s ≡ ok s')
        × ((k : ℕ)
            → get k s'.instances
              ≡ (if drawn.instance_id == k then some instance else get k s.instances))
  place_instance-Reaches F settings drawn command required found target new h =
      let (instance, placed, same) =
        place_instance-Placed F settings drawn command required found s target h in
      let aim =
        subst (λ n. IsAim s.instances (set n instance s.instances)) placed.own_id
          (create-IsAim instance s.instances (rw placed.own_id new) owned) in
      let (s', e, r) =
        transition-Reaches s target (subst (λ d. IsAim s.instances d) same aim) tasks_once in
      (
        instance,
        s',
        placed,
        e,
        λ k.
            r.instances_are k
            ∙ sym (ap (λ (d : Dict Instance). get k d) same)
            ∙ get-set drawn.instance_id k instance s.instances,
      )
