-- ===== src/Plan/Lifecycle/Creation.antt =====
-- For which instance a worker creates a runner.
use awesome_distributed_ai_i.Base.{
  ◌≡◌, ◌≢◌, ◌⊎◌, inl, inr, refl, Bool, true, false, not, ◌&&◌, Option, none, some, arith, ◌==◌, any,
  any-false, In, ok, first_of_loop-Found, Found-In,
}
use awesome_distributed_ai_i.Base.Dict.{Dict, get, has, values}
use awesome_distributed_ai_i.Types.{
  NodeId, RunnerId, InstanceId, RunnerStatus, Instance, TaskId, TaskKind, Task,
}
use awesome_distributed_ai_i.Plan.Supervisor.{RunnerSupervisor, status_is, is_failed, new_task}
use awesome_distributed_ai_i.Plan.Lifecycle.{create_on, create_runner}
use awesome_distributed_ai_i.Plan.Lifecycle.Reasons.{HasFailed, status_failed}

module _ (fresh : TaskId) (runners : Dict RunnerSupervisor) (all_runners : Dict RunnerStatus)
    (node_id : NodeId) (should_proceed : InstanceId → Bool) where
  -- What holds of the instance for which a worker creates a runner.
  pub record Creates (instance : Instance) (t : Task) : Type 0 where
    pub runner_id : RunnerId
    pub assigned : get node_id instance.shard_assignments.node_to_runner ≡ some runner_id
    pub task :
        new_task fresh instance.instance_id (
          TaskKind.create_runner
            (record { instance = instance; bound_runner_id = runner_id; bound_node_id = node_id }))
        ≡ t
    pub has_shard : has runner_id instance.shard_assignments.runner_to_shard ≡ true
    pub absent : get runner_id runners ≡ none
    pub allowed : should_proceed instance.instance_id ≡ true
    pub no_failed_peer :
        ¬ HasFailed (get runner_id all_runners)
        → (g : RunnerId) → In g (values instance.shard_assignments.node_to_runner)
        → g ≢ runner_id
        → ¬ HasFailed (get g all_runners)

  -- Some other runner of the instance has failed.
  abbrev failed_elsewhere : Instance → RunnerId → Bool
  failed_elsewhere instance r =
      any (λ g. not (g == r) && status_is is_failed (get g all_runners))
        (values instance.shard_assignments.node_to_runner)

  record Tests (instance : Instance) (r : RunnerId) (t : Task) : Type 0 where
    task :
        new_task fresh instance.instance_id (
          TaskKind.create_runner
            (record { instance = instance; bound_runner_id = r; bound_node_id = node_id }))
        ≡ t
    has_shard : has r instance.shard_assignments.runner_to_shard ≡ true
    absent : get r runners ≡ none
    allowed : should_proceed instance.instance_id ≡ true
    peers : (failed_elsewhere instance r ≡ false) ⊎ (status_is is_failed (get r all_runners) ≡ true)

  create_on-Tests :
      (instance : Instance) (r : RunnerId) (t : Task)
      → create_on fresh runners all_runners node_id should_proceed instance (some r) ≡ ok (some t)
      → Tests instance r t
  unfolding create_on
  create_on-Tests instance r t h = ground arith

  no_task :
      (instance : Instance) (t : Task)
      → create_on fresh runners all_runners node_id should_proceed instance none ≢ ok (some t)
  unfolding create_on
  no_task instance t h = cc

  failed_status : (o : Option RunnerStatus) → HasFailed o → status_is is_failed o ≡ true
  failed_status o f = ground (arith, f.status)

  create_on-Creates :
      (instance : Instance) (t : Task) (o : Option RunnerId)
      → get node_id instance.shard_assignments.node_to_runner ≡ o
      → create_on fresh runners all_runners node_id should_proceed instance o ≡ ok (some t)
      → Creates instance t
  create_on-Creates instance t none e h = absurd (no_task instance t h)
  create_on-Creates instance t (some r) e h =
      let tests = create_on-Tests instance r t h in
      record {
        runner_id = r;
        assigned = e;
        task = tests.task;
        has_shard = tests.has_shard;
        absent = tests.absent;
        allowed = tests.allowed;
        no_failed_peer = λ own g m other failed. elim tests.peers [
          | inl calm ↦
              let fine =
                any-false (λ g. not (g == r) && status_is is_failed (get g all_runners))
                  (values instance.shard_assignments.node_to_runner) calm m in
              let bad = failed_status (get g all_runners) failed in absurd (ground arith)
          | inr own_failed ↦ absurd (own (status_failed (get r all_runners) own_failed))
        ];
      }

  -- A worker creates a runner only for an instance that assigns one to this node, that it does not
  -- have yet and whose backoff has passed, and while another runner of the instance has failed only
  -- if its own has too.
  pub create_runner-Creates :
      (instances : Dict Instance) (t : Task)
      → create_runner fresh runners all_runners node_id instances should_proceed ≡ ok (some t)
      → (instance : Instance) × In instance (values instances) × Creates instance t
  unfolding create_runner
  create_runner-Creates instances t h =
      let f =
        first_of_loop-Found
          (λ (instance : Instance).
            create_on fresh runners all_runners node_id should_proceed instance
              (get node_id instance.shard_assignments.node_to_runner))
          (values instances) t h in
      (
        f.x,
        Found-In f,
        create_on-Creates f.x t (get node_id f.x.shard_assignments.node_to_runner) refl f.found,
      )
