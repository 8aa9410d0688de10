-- ===== src/Plan/Startup/Ranks.antt =====
-- When the ranks of an instance connect, load and warm up.
use awesome_distributed_ai_i.Base.{
  ◌+◌, ◌-◌, ◌<◌, ◌≡◌, ◌≢◌, ◌⊎◌, inl, inr, Bool, true, false, ◌||◌, Option, some, List, arith, ◌==◌,
  Bool-cases, In, all-In, In-all, Result-cases, ok, first_of_loop-Found, Found-In,
}
use awesome_distributed_ai_i.Base.Dict.{Dict, get, keys, values}
use awesome_distributed_ai_i.Types.{
  ShardMetadata, RunnerId, RunnerStatus, runner_idle, runner_connecting, runner_warming_up,
  Instance, bound_shard, TaskId, TaskKind, Task,
}
use awesome_distributed_ai_i.Plan.Supervisor.{
  RunnerSupervisor, instance_of, status_is, is_idle, is_connecting, is_warming_up, new_task,
}
use awesome_distributed_ai_i.Plan.Startup.{
  is_single_node, all_are, others_are, connect_for, init_distributed_backend,
}

-- The ids of the runners of an instance.
abbrev pub members : Instance → List RunnerId
members i = keys i.shard_assignments.runner_to_shard

status_connecting :
    (o : Option RunnerStatus) → status_is is_connecting o ≡ true → o ≡ some runner_connecting
status_connecting o h = ground arith

pub status_warming :
    (o : Option RunnerStatus) → status_is is_warming_up o ≡ true → o ≡ some runner_warming_up
status_warming o h = ground arith

module _ (all_runners : Dict RunnerStatus) where
  -- Every member of the instance other than `r` has the status `s`.
  abbrev pub OthersAre : RunnerStatus → RunnerId → Instance → Type 0
  OthersAre s r i = (g : RunnerId) → In g (members i) → g ≢ r → get g all_runners ≡ some s

  pub others_are-In :
      (p : RunnerStatus → Bool) (r : RunnerId) (i : Instance) (g : RunnerId)
      → others_are all_runners p r i ≡ true
      → In g (members i)
      → g ≢ r
      → status_is p (get g all_runners) ≡ true
  others_are-In p r i g h m other =
      ground (arith, all-In (λ g. g == r || status_is p (get g all_runners)) (members i) h m)

  pub In-others_are :
      (p : RunnerStatus → Bool) (r : RunnerId) (i : Instance)
      → ((g : RunnerId) → In g (members i) → g ≢ r → status_is p (get g all_runners) ≡ true)
      → others_are all_runners p r i ≡ true
  In-others_are p r i h =
      In-all (λ g. g == r || status_is p (get g all_runners)) (members i)
        λ g m. elim (Bool-cases (g == r)) [
          | inl same ↦ rw same
          | inr other ↦ rw (other, h g m (λ e. ground arith))
        ]

module _ (fresh : TaskId) (all_runners : Dict RunnerStatus) where
  -- What holds when a runner is told to connect to its group. The last rank comes last.
  pub record Connects (runner : RunnerSupervisor) (t : Task) : Type 0 where
    pub shard : ShardMetadata
    pub bound : bound_shard runner.bound_instance ≡ ok shard
    pub task : new_task fresh (instance_of runner).instance_id TaskKind.connect_to_group ≡ t
    pub several : is_single_node (instance_of runner) ≡ false
    pub idle : runner.status ≡ runner_idle
    pub in_world : shard.device_rank < shard.world_size
    pub waits : all_are all_runners (λ s. is_connecting s || is_idle s) (instance_of runner) ≡ true
    pub last :
        shard.device_rank + 1 ≡ shard.world_size
        → OthersAre all_runners runner_connecting runner.bound_instance.bound_runner_id
            (instance_of runner)

  record Tests (runner : RunnerSupervisor) (s : ShardMetadata) (t : Task) : Type 0 where
    several : is_single_node (instance_of runner) ≡ false
    idle : runner.status ≡ runner_idle
    waits : all_are all_runners (λ s. is_connecting s || is_idle s) (instance_of runner) ≡ true
    in_world : s.device_rank < s.world_size
    turn :
        (s.device_rank < s.world_size - 1)
        ⊎ (others_are all_runners is_connecting runner.bound_instance.bound_runner_id
              (instance_of runner)
            ≡ true)
    task : new_task fresh (instance_of runner).instance_id TaskKind.connect_to_group ≡ t

  connect_for-Tests :
      (runner : RunnerSupervisor) (t : Task) (s : ShardMetadata)
      → bound_shard runner.bound_instance ≡ ok s
      → connect_for fresh all_runners runner ≡ ok (some t)
      → Tests runner s t
  unfolding connect_for
  connect_for-Tests runner t s e h = ground arith

  -- A raising lookup of the shard gives no task.
  connect_for-bound :
      (runner : RunnerSupervisor) (t : Task)
      → connect_for fresh all_runners runner ≡ ok (some t)
      → (s : ShardMetadata) × (bound_shard runner.bound_instance ≡ ok s)
  unfolding connect_for
  connect_for-bound runner t h = elim (Result-cases (bound_shard runner.bound_instance)) [
    | inl found ↦ found
    | inr (e, raised) ↦ absurd (ground arith)
  ]

  connect_for-Connects :
      (runner : RunnerSupervisor) (t : Task)
      → connect_for fresh all_runners runner ≡ ok (some t)
      → Connects runner t
  connect_for-Connects runner t h =
      let (s, e) = connect_for-bound runner t h in
      let tests = connect_for-Tests runner t s e h in
      record {
        shard = s;
        bound = e;
        task = tests.task;
        several = tests.several;
        idle = tests.idle;
        in_world = tests.in_world;
        waits = tests.waits;
        last = λ is_last g m other. elim tests.turn [
          | inl early ↦ absurd (omega arith)
          | inr ready ↦
              status_connecting _
                (others_are-In all_runners is_connecting _ (instance_of runner) g ready m other)
        ];
      }

  -- A worker tells one of its runners to connect only if that runner is idle, all members of its
  -- instance are idle or connecting, and, for the last rank, all others are connecting already.
  pub init_distributed_backend-Connects :
      (runners : Dict RunnerSupervisor) (t : Task)
      → init_distributed_backend fresh all_runners runners ≡ ok (some t)
      → (runner : RunnerSupervisor) × In runner (values runners) × Connects runner t
  unfolding init_distributed_backend
  init_distributed_backend-Connects runners t h =
      let f = first_of_loop-Found (connect_for fresh all_runners) (values runners) t h in
      (f.x, Found-In f, connect_for-Connects f.x t f.found)
