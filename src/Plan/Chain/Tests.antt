-- ===== src/Plan/Chain/Tests.antt =====
-- A worker with a group of two nodes, and the theorems at concrete inputs.
use awesome_distributed_ai_i.Base.{
  ℕ, ◌+◌, ◌≡◌, ◌⊎◌, refl, subst, sym, true, false, none, some, List, [], ◌∷◌, In, here, there, ok,
  if◌then◌else◌, ◌==◌, Returns,
}
use awesome_distributed_ai_i.Base.Dict.{Dict, get, keys, set, values}
use awesome_distributed_ai_i.Types.{
  RunnerId, ModelCard, ShardMetadata, pipeline, mlx_metal, DownloadProgress, download_completed,
  RunnerStatus, runner_idle, runner_connecting, runner_connected, runner_loaded, runner_warming_up,
  runner_ready, runner_running, Instance, mlx_ring, Task, TaskStatus, TaskKind, text_generation,
}
use awesome_distributed_ai_i.Plan.Supervisor.{instance_of, RunnerSupervisor, new_task}
use awesome_distributed_ai_i.Plan.Lifecycle.{kill_runner, create_runner, model_needs_download}
use awesome_distributed_ai_i.Plan.Lifecycle.Reasons.{
  KillReason, gone, shutdown_of, kill_runner-exact,
}
use awesome_distributed_ai_i.Plan.Lifecycle.Creation.{Creates, create_runner-Creates}
use awesome_distributed_ai_i.Plan.Startup.{
  may_connect, init_distributed_backend, load_model, ready_to_warmup,
}
use awesome_distributed_ai_i.Plan.Startup.Ranks.{Connects, init_distributed_backend-Connects}
use awesome_distributed_ai_i.Plan.Startup.Loading.{
  Loads, WarmsUp, load_model-Loads, ready_to_warmup-WarmsUp,
}
use awesome_distributed_ai_i.Plan.Dispatch.{pending_tasks, cancel_tasks}
use awesome_distributed_ai_i.Plan.Dispatch.Reasons.{
  AllKnown, Dispatches, pending_tasks-Dispatches, pending_tasks-Returns,
}
use awesome_distributed_ai_i.Plan.Chain.{View, plan}
use awesome_distributed_ai_i.Plan.Chain.Priority.{plan-shuts_down}

abbrev card : ModelCard
card = record {
  model_id = 5;
  storage_size = 4000;
  n_layers = 8;
  hidden_size = 64;
  supports_tensor = true;
  num_key_value_heads = none;
  base_model = "Llama";
  backends = mlx_metal ∷ [];
  uses_cfg = false;
}

abbrev half : ℕ → ShardMetadata
half rank = record {
  model_card = card;
  device_rank = rank;
  world_size = 2;
  start_layer = if rank == 0 then 0 else 4;
  end_layer = if rank == 0 then 4 else 8;
  n_layers = 8;
  kind = pipeline;
}

-- Instance 1: runner 10 of rank 0 on node 0, runner 11 of rank 1 on node 1.
abbrev pair : Instance
pair = record {
  instance_id = 1;
  shard_assignments = record {
    model_id = 5;
    runner_to_shard = (10, half 0) ∷ (11, half 1) ∷ [];
    node_to_runner = (0, 10) ∷ (1, 11) ∷ [];
  };
  kind = mlx_ring [] 5000;
}

-- The supervisor on the node with the rank.
abbrev supervisor : ℕ → RunnerStatus → RunnerSupervisor
supervisor rank status = record {
  bound_instance = record { instance = pair; bound_runner_id = 10 + rank; bound_node_id = rank };
  status = status;
  completed = [];
  in_progress = [];
  cancelled = [];
}

abbrev statuses : RunnerStatus → RunnerStatus → Dict RunnerStatus
statuses s t = (10, s) ∷ (11, t) ∷ []

program : Unit {0}
unfolding kill_runner create_runner model_needs_download init_distributed_backend load_model
    ready_to_warmup pending_tasks cancel_tasks plan get set may_connect
program = tt

-- Rank 1 is the last: it connects once rank 0 does.
last_waits :
    init_distributed_backend 99
      (statuses runner_idle runner_idle)
      ((11, supervisor 1 runner_idle) ∷ [])
    ≡ ok none
unfolding program
last_waits = refl

last_connects :
    init_distributed_backend 99
      (statuses runner_connecting runner_idle)
      ((11, supervisor 1 runner_idle) ∷ [])
    ≡ ok (some (new_task 99 1 TaskKind.connect_to_group))
unfolding program
last_connects = refl

init_distributed_backend-Connects_example :
    (runner : RunnerSupervisor) × In runner (supervisor 1 runner_idle ∷ [])
    × Connects 99
        (statuses runner_connecting runner_idle)
        runner
        (new_task 99 1 TaskKind.connect_to_group)
init_distributed_backend-Connects_example =
    init_distributed_backend-Connects 99 (statuses runner_connecting runner_idle)
      ((11, supervisor 1 runner_idle) ∷ []) (new_task 99 1 TaskKind.connect_to_group) last_connects

abbrev shard_of : RunnerId → ShardMetadata
shard_of g = if g == 10 then half 0 else half 1

abbrev downloads : Dict (List DownloadProgress)
downloads =
    (0, record { node_id = 0; shard_metadata = half 0; state = download_completed 4000 false } ∷ [])
    ∷ (
      1,
      record { node_id = 1; shard_metadata = half 1; state = download_completed 4000 false } ∷ [],
    )
    ∷ []

loads :
    load_model 99
      (statuses runner_connected runner_loaded)
      ((10, supervisor 0 runner_connected) ∷ [])
      downloads
    ≡ ok (some (new_task 99 1 TaskKind.load_model))
unfolding program
loads = refl

load_model-Loads_example :
    (runner : RunnerSupervisor) × In runner (supervisor 0 runner_connected ∷ [])
    × Loads 99
        (statuses runner_connected runner_loaded)
        downloads
        runner
        (new_task 99 1 TaskKind.load_model)
load_model-Loads_example =
    load_model-Loads 99 (statuses runner_connected runner_loaded)
      ((10, supervisor 0 runner_connected) ∷ []) downloads (new_task 99 1 TaskKind.load_model) loads

leader_warms :
    ready_to_warmup 99
      (statuses runner_loaded runner_warming_up)
      ((10, supervisor 0 runner_loaded) ∷ [])
    ≡ ok (some (new_task 99 1 TaskKind.start_warmup))
unfolding program
leader_warms = refl

ready_to_warmup-WarmsUp_example :
    (runner : RunnerSupervisor) × In runner (supervisor 0 runner_loaded ∷ [])
    × WarmsUp 99
        (statuses runner_loaded runner_warming_up)
        runner
        (new_task 99 1 TaskKind.start_warmup)
ready_to_warmup-WarmsUp_example =
    ready_to_warmup-WarmsUp 99 (statuses runner_loaded runner_warming_up)
      ((10, supervisor 0 runner_loaded) ∷ []) (new_task 99 1 TaskKind.start_warmup) leader_warms

-- Runner 10 runs while instance 1 is gone.
abbrev orphaned : Dict RunnerSupervisor
orphaned = (10, supervisor 0 runner_idle) ∷ []

kill_runner-exact_example :
    (kill_runner 99 orphaned (statuses runner_idle runner_idle) [] ≡ ok none)
      × ((runner : RunnerSupervisor)
          → In runner (values orphaned)
          → ¬ KillReason (statuses runner_idle runner_idle) [] runner)
    ⊎ ((runner : RunnerSupervisor) × In runner (values orphaned)
        × KillReason (statuses runner_idle runner_idle) [] runner
        × (kill_runner 99 orphaned (statuses runner_idle runner_idle) []
            ≡ ok (some (shutdown_of 99 runner))))
kill_runner-exact_example = kill_runner-exact (statuses runner_idle runner_idle) [] 99 orphaned

-- Node 0 has no runner of instance 1 yet; the first runner of a node gets a fresh id.
creates :
    create_runner 99 [] [] 0 ((1, pair) ∷ []) (λ i. true)
    ≡ ok (
        some (
          new_task 99 1 (
            TaskKind.create_runner
              (record { instance = pair; bound_runner_id = 10; bound_node_id = 0 }))))
unfolding program
creates = refl

create_runner-Creates_example :
    (instance : Instance) × In instance (pair ∷ [])
    × Creates 99 [] [] 0
        (λ i. true)
        instance
        (new_task 99 1 (
          TaskKind.create_runner
            (record { instance = pair; bound_runner_id = 10; bound_node_id = 0 })))
create_runner-Creates_example =
    create_runner-Creates 99 [] [] 0 (λ i. true) ((1, pair) ∷ [])
      (new_task 99 1 (
        TaskKind.create_runner
          (record { instance = pair; bound_runner_id = 10; bound_node_id = 0 })))
      creates

abbrev chat : Task
chat = record {
  task_id = 70;
  task_status = TaskStatus.pending;
  instance_id = 1;
  kind =
      text_generation 7 (record { model = 5; image_hashes = []; prefill_endpoint = none })
        (record { error_type = none; error_message = none });
}

abbrev serving : Dict RunnerSupervisor
serving = (10, supervisor 0 (runner_ready none)) ∷ []

dispatches :
    pending_tasks (statuses (runner_ready none) runner_running) serving ((70, chat) ∷ []) [] []
    ≡ ok (some chat)
unfolding program
dispatches = refl

pending_tasks-Dispatches_example :
    In chat (chat ∷ [])
    × ((runner : RunnerSupervisor) × In runner (values serving)
        × Dispatches (statuses (runner_ready none) runner_running) serving [] [] chat runner)
pending_tasks-Dispatches_example =
    pending_tasks-Dispatches (statuses (runner_ready none) runner_running) serving [] []
      ((70, chat) ∷ []) chat dispatches

status_known :
    (g : ℕ)
    → In g (10 ∷ 11 ∷ [])
    → (s : RunnerStatus) × (get g (statuses (runner_ready none) runner_running) ≡ some s)
unfolding get
status_known g (here e) = (runner_ready none, rw (← e))
status_known g (there (here e)) = (runner_running, rw (← e))
status_known g (there (there i)) = elim i [ ]

group_known : AllKnown (statuses (runner_ready none) runner_running) serving [] []
group_known runner g (here e) m =
    status_known g
      (subst (λ r. In g (keys (instance_of r).shard_assignments.runner_to_shard)) (sym e) m)
group_known runner g (there i) m = elim i [ ]

pending_tasks-Returns_example :
    Returns
      (pending_tasks (statuses (runner_ready none) runner_running) serving ((70, chat) ∷ []) [] [])
pending_tasks-Returns_example =
    pending_tasks-Returns (statuses (runner_ready none) runner_running) serving [] []
      ((70, chat) ∷ []) group_known

abbrev abandoned : View
abandoned = record {
  node_id = 0;
  runners = orphaned;
  global_download_status = [];
  instances = [];
  all_runners = statuses runner_idle runner_idle;
  tasks = [];
  input_chunk_buffer = [];
  image_cache = [];
  instance_may_proceed = λ i. true;
  download_may_proceed = λ m. true;
}

nothing_cancelled : cancel_tasks 99 orphaned [] ≡ ok none
unfolding program
nothing_cancelled = refl

instance_gone : get 1 abandoned.instances ≡ none
unfolding get
instance_gone = refl

plan-shuts_down_example :
    (r : RunnerSupervisor) × In r (values orphaned)
    × KillReason (statuses runner_idle runner_idle) [] r
    × (plan 99 abandoned ≡ ok (some (shutdown_of 99 r)))
plan-shuts_down_example =
    plan-shuts_down 99 abandoned (supervisor 0 runner_idle) nothing_cancelled (here refl)
      (gone instance_gone)
