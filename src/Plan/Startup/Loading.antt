-- ===== src/Plan/Startup/Loading.antt =====
-- When a runner loads its part of the model, and when it warms up.
use awesome_distributed_ai_i.Base.{
  ◌<◌, ◌≡◌, ◌⊎◌, inl, inr, refl, if◌then◌else◌, true, ◌&&◌, ◌||◌, Option, none, some, List, arith,
  ◌==◌, any-In, In, all-In, Result-cases, ok, first_of_loop-Found, Found-In,
}
use awesome_distributed_ai_i.Base.Dict.{Dict, get, keys, values}
use awesome_distributed_ai_i.Types.{
  NodeId, ModelId, DownloadProgress, ShardMetadata, RunnerStatus, runner_idle, runner_connected,
  runner_loaded, runner_warming_up, ShardAssignments, bound_shard, TaskId, TaskKind, Task,
}
use awesome_distributed_ai_i.Plan.Supervisor.{
  RunnerSupervisor, instance_of, is_connected, is_loading, is_loaded, is_warming_up, is_completed,
  new_task,
}
use awesome_distributed_ai_i.Plan.Startup.{
  is_single_node, all_are, others_are, may_load, load_model, warmup_for, ready_to_warmup,
  downloads_complete, any_completed,
}
use awesome_distributed_ai_i.Plan.Startup.Ranks.{OthersAre, others_are-In, status_warming}

-- The node has told of a finished download of the model.
pub record HasModel (downloads : Dict (List DownloadProgress)) (model_id : ModelId) (node : NodeId)
    : Type 0 where
  pub reports : List DownloadProgress
  pub known : get node downloads ≡ some reports
  pub report : DownloadProgress
  pub reported : In report reports
  pub complete : is_completed report.state ≡ true
  pub same_model : report.shard_metadata.model_card.model_id ≡ model_id

downloads_complete-HasModel :
    (downloads : Dict (List DownloadProgress)) (a : ShardAssignments) (node : NodeId)
    → downloads_complete downloads a ≡ true
    → In node (keys a.node_to_runner)
    → HasModel downloads a.model_id node
downloads_complete-HasModel downloads a node h m =
    reported (get node downloads) refl
      (all-In (λ n. any_completed a.model_id (get n downloads)) (keys a.node_to_runner) h m)
  where
    reported :
        (o : Option (List DownloadProgress))
        → get node downloads ≡ o
        → any_completed a.model_id o ≡ true
        → HasModel downloads a.model_id node
    reported none e h = cc
    reported (some dps) e h =
        let (dp, i, good) =
          any-In
            (λ dp. is_completed dp.state && dp.shard_metadata.model_card.model_id == a.model_id) dps
            h in
        record {
          reports = dps;
          known = e;
          report = dp;
          reported = i;
          complete = ground arith;
          same_model = ground arith;
        }

module _ (fresh : TaskId) (all_runners : Dict RunnerStatus) where
  -- What holds when a runner is told to load: every node of the instance has the model, and the
  -- runner is alone and idle, or connected in a group of which all members are at least connected.
  pub record Loads (downloads : Dict (List DownloadProgress)) (runner : RunnerSupervisor) (t : Task)
      : Type 0 where
    pub task : new_task fresh (instance_of runner).instance_id TaskKind.load_model ≡ t
    pub has_model :
        (node : NodeId)
        → In node (keys (instance_of runner).shard_assignments.node_to_runner)
        → HasModel downloads (instance_of runner).shard_assignments.model_id node
    pub group :
        (is_single_node (instance_of runner) ≡ true) × (runner.status ≡ runner_idle)
        ⊎ (runner.status ≡ runner_connected)
          × (all_are all_runners
                (λ s. is_connected s || is_loading s || is_loaded s)
                (instance_of runner)
              ≡ true)

  load_tests :
      (downloads : Dict (List DownloadProgress)) (runner : RunnerSupervisor)
      → may_load all_runners downloads runner ≡ true
      → (downloads_complete downloads (instance_of runner).shard_assignments ≡ true)
        × ((is_single_node (instance_of runner) ≡ true) × (runner.status ≡ runner_idle)
            ⊎ (runner.status ≡ runner_connected)
              × (all_are all_runners
                    (λ s. is_connected s || is_loading s || is_loaded s)
                    (instance_of runner)
                  ≡ true))
  unfolding may_load
  load_tests downloads runner h = ground arith

  load_step :
      (downloads : Dict (List DownloadProgress)) (runner : RunnerSupervisor) (t : Task)
      → (if may_load all_runners downloads runner
          then ok (some (new_task fresh (instance_of runner).instance_id TaskKind.load_model))
          else ok none)
        ≡ ok (some t)
      → (may_load all_runners downloads runner ≡ true)
        × (new_task fresh (instance_of runner).instance_id TaskKind.load_model ≡ t)
  load_step downloads runner t h = ground arith

  -- A worker tells a runner to load the model only when every node of its instance has downloaded
  -- it, and, in a group, when all members have connected.
  pub load_model-Loads :
      (runners : Dict RunnerSupervisor) (downloads : Dict (List DownloadProgress)) (t : Task)
      → load_model fresh all_runners runners downloads ≡ ok (some t)
      → (runner : RunnerSupervisor) × In runner (values runners) × Loads downloads runner t
  unfolding load_model
  load_model-Loads runners downloads t h =
      let f = first_of_loop-Found _ (values runners) t h in
      let (may, task) = load_step downloads f.x t f.found in
      let (complete, group) = load_tests downloads f.x may in
      (
        f.x,
        Found-In f,
        record {
          task = task;
          has_model = λ node m.
              downloads_complete-HasModel downloads (instance_of f.x).shard_assignments node
                complete m;
          group = group;
        },
      )

  -- What holds when a runner is told to warm up: rank 0 does so when all others do.
  pub record WarmsUp (runner : RunnerSupervisor) (t : Task) : Type 0 where
    pub shard : ShardMetadata
    pub bound : bound_shard runner.bound_instance ≡ ok shard
    pub task : new_task fresh (instance_of runner).instance_id TaskKind.start_warmup ≡ t
    pub loaded : runner.status ≡ runner_loaded
    pub in_world : shard.device_rank < shard.world_size
    pub follower :
        0 < shard.device_rank
        → all_are all_runners (λ s. is_loaded s || is_warming_up s) (instance_of runner) ≡ true
    pub leader :
        shard.device_rank ≡ 0
        → OthersAre all_runners runner_warming_up runner.bound_instance.bound_runner_id
            (instance_of runner)

  warmup_tests :
      (runner : RunnerSupervisor) (t : Task) (s : ShardMetadata)
      → bound_shard runner.bound_instance ≡ ok s
      → warmup_for fresh all_runners runner ≡ ok (some t)
      → (new_task fresh (instance_of runner).instance_id TaskKind.start_warmup ≡ t)
        × (s.device_rank < s.world_size)
        × (runner.status ≡ runner_loaded)
        × (0 < s.device_rank
            → all_are all_runners (λ s. is_loaded s || is_warming_up s) (instance_of runner) ≡ true)
        × (s.device_rank ≡ 0
            → others_are all_runners is_warming_up runner.bound_instance.bound_runner_id
                (instance_of runner)
              ≡ true)
  unfolding warmup_for
  warmup_tests runner t s e h =
      (ground arith, ground arith, ground arith, λ p. ground arith, λ p. ground arith)

  warmup_bound :
      (runner : RunnerSupervisor) (t : Task)
      → warmup_for fresh all_runners runner ≡ ok (some t)
      → (s : ShardMetadata) × (bound_shard runner.bound_instance ≡ ok s)
  unfolding warmup_for
  warmup_bound runner t h = elim (Result-cases (bound_shard runner.bound_instance)) [
    | inl found ↦ found
    | inr (e, raised) ↦ absurd (ground arith)
  ]

  -- A worker tells a runner to warm up only if it has loaded; rank 0 only when all other members
  -- warm up already, any other rank only when all members have at least loaded.
  pub ready_to_warmup-WarmsUp :
      (runners : Dict RunnerSupervisor) (t : Task)
      → ready_to_warmup fresh all_runners runners ≡ ok (some t)
      → (runner : RunnerSupervisor) × In runner (values runners) × WarmsUp runner t
  unfolding ready_to_warmup
  ready_to_warmup-WarmsUp runners t h =
      let f = first_of_loop-Found (warmup_for fresh all_runners) (values runners) t h in
      let (s, e) = warmup_bound f.x t f.found in
      let (task, in_world, loaded, follower, leader) = warmup_tests f.x t s e f.found in
      (
        f.x,
        Found-In f,
        record {
          shard = s;
          bound = e;
          task = task;
          loaded = loaded;
          in_world = in_world;
          follower = follower;
          leader = λ zero_rank g m other. status_warming _ (
              others_are-In all_runners is_warming_up _ (instance_of f.x) g (leader zero_rank) m
                other);
        },
      )
