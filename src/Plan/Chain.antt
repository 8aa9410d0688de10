-- ===== src/Plan/Chain.antt =====
-- `plan` of src/exo/worker/plan.py: the helpers in their order.
pub mod Priority
pub mod Tests
use Prim.Native.String.{String}
use awesome_distributed_ai_i.Base.{ℕ, Bool, Option, none, some, List, Result, ok, raise}
use awesome_distributed_ai_i.Base.Dict.{Dict}
use awesome_distributed_ai_i.Types.{
  NodeId, ModelId, DownloadProgress, InstanceId, RunnerStatus, Instance, TaskId, Task,
}
use awesome_distributed_ai_i.Plan.Supervisor.{RunnerSupervisor}
use awesome_distributed_ai_i.Plan.Lifecycle.{kill_runner, create_runner, model_needs_download}
use awesome_distributed_ai_i.Plan.Startup.{init_distributed_backend, load_model, ready_to_warmup}
use awesome_distributed_ai_i.Plan.Dispatch.{pending_tasks, cancel_tasks}

-- Python's `a or b` on a task or None: `b` is not evaluated after a task or an exception.
infixr 30 ◌or◌
abbrev pub ◌or◌ {ℓ} : {A : Type ℓ} → Result (Option A) → Result (Option A) → Result (Option A)
ok none or b = b
ok (some a) or b = ok (some a)
raise e or b = raise e

-- The arguments of `plan`.
pub record View : Type 0 where
  pub node_id : NodeId
  pub runners : Dict RunnerSupervisor
  pub global_download_status : Dict (List DownloadProgress)
  pub instances : Dict Instance
  pub all_runners : Dict RunnerStatus
  pub tasks : Dict Task
  pub input_chunk_buffer : Dict (Dict String)
  pub image_cache : List ℕ
  pub instance_may_proceed : InstanceId → Bool
  pub download_may_proceed : ModelId → Bool

unfoldable pub plan : TaskId → View → Result (Option Task)
plan fresh v =
    cancel_tasks fresh v.runners v.tasks
    or kill_runner fresh v.runners v.all_runners v.instances
    or create_runner fresh v.runners v.all_runners v.node_id v.instances v.instance_may_proceed
    or model_needs_download fresh v.node_id v.runners v.global_download_status
        v.download_may_proceed
    or init_distributed_backend fresh v.all_runners v.runners
    or load_model fresh v.all_runners v.runners v.global_download_status
    or ready_to_warmup fresh v.all_runners v.runners
    or pending_tasks v.all_runners v.runners v.tasks v.input_chunk_buffer v.image_cache
