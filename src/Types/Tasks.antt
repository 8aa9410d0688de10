-- ===== src/Types/Tasks.antt =====
-- types/tasks.py.
use Prim.Native.String.{String}
use awesome_distributed_ai_i.Base.{ℕ, Option}
use awesome_distributed_ai_i.Base.Dict.{Dict}
use awesome_distributed_ai_i.Types.Models.{ModelId, ShardMetadata}
use awesome_distributed_ai_i.Types.Runners.{RunnerId, InstanceId, BoundInstance, Host}

abbrev pub TaskId : Type 0
TaskId = ℕ

abbrev pub CommandId : Type 0
CommandId = ℕ

pub data TaskStatus : Type 0 where
  pending running complete timed_out failed cancelled : TaskStatus

pub record TextGenerationTaskParams : Type 0 where
  pub model : ModelId
  -- the hash of each image, by its place in the input
  pub image_hashes : Dict ℕ
  pub prefill_endpoint : Option Host

pub record ImageGenerationTaskParams : Type 0 where
  pub model : ModelId

pub record ImageEditsTaskParams : Type 0 where
  pub model : ModelId
  pub total_input_chunks : ℕ

-- `error_type` and `error_message` of a generation task.
pub record TaskError : Type 0 where
  pub error_type : Option String
  pub error_message : Option String

-- What the subclasses of `BaseTask` add.
pub data TaskKind : Type 0 where
  create_runner : (bound_instance : BoundInstance) → TaskKind
  download_model : (shard_metadata : ShardMetadata) → TaskKind
  load_model connect_to_group start_warmup : TaskKind
  text_generation :
      (command_id : CommandId) → (params : TextGenerationTaskParams) → TaskError → TaskKind
  cancel_task : (cancelled_task_id : TaskId) → (runner_id : RunnerId) → TaskKind
  image_generation :
      (command_id : CommandId) → (params : ImageGenerationTaskParams) → TaskError → TaskKind
  image_edits : (command_id : CommandId) → (params : ImageEditsTaskParams) → TaskError → TaskKind
  shutdown : (runner_id : RunnerId) → TaskKind

pub record Task : Type 0 where
  pub task_id : TaskId
  pub task_status : TaskStatus
  pub instance_id : InstanceId
  pub kind : TaskKind
