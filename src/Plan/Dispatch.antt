-- ===== src/Plan/Dispatch.antt =====
-- `_pending_tasks` and `_cancel_tasks` of src/exo/worker/plan.py.
pub mod Reasons
use Prim.Native.String.{String}
use awesome_distributed_ai_i.Base.{
  ℕ, Bool, true, false, not, ◌&&◌, ◌||◌, Option, none, some, List, [], ◌∷◌, ltb, ◌==◌,
  if◌then◌else◌, length, all, elem, Result, ok, raise, key_error, ◌>>=◌, require, all_of,
  first_of_loop,
}
use awesome_distributed_ai_i.Base.Dict.{Dict, get, keys, values}
use awesome_distributed_ai_i.Types.{
  RunnerStatus, Instance, TaskId, CommandId, TaskStatus, TaskKind, text_generation,
  image_generation, image_edits, cancel_task, Task, RunnerId,
}
use awesome_distributed_ai_i.Plan.Supervisor.{RunnerSupervisor, instance_of, is_serving, new_task}

abbrev pub is_generation : TaskKind → Bool
is_generation (text_generation _ _ _) = true
is_generation (image_generation _ _ _) = true
is_generation (image_edits _ _ _) = true
is_generation _ = false

abbrev pub is_in_flight : TaskStatus → Bool
is_in_flight TaskStatus.pending = true
is_in_flight TaskStatus.running = true
is_in_flight _ = false

abbrev pub is_cancelled : TaskStatus → Bool
is_cancelled TaskStatus.cancelled = true
is_cancelled _ = false

abbrev chunks_of : Option (Dict String) → ℕ
chunks_of none = 0
chunks_of (some chunks) = length chunks

-- What the task is made of has arrived: the chunks of an image to edit, the images of a text.
unfoldable pub input_arrived : Dict (Dict String) → (image_cache : List ℕ) → TaskKind → Bool
input_arrived input_chunk_buffer image_cache (image_edits command_id params e) =
    if ltb 0 params.total_input_chunks
    then not (ltb (chunks_of (get command_id input_chunk_buffer)) params.total_input_chunks)
    else true
input_arrived input_chunk_buffer image_cache (text_generation command_id params e) =
    all (λ h. elem h image_cache) (values params.image_hashes)
input_arrived input_chunk_buffer image_cache _ = true

module _ (all_runners : Dict RunnerStatus) where
  -- `isinstance(all_runners[id], (RunnerReady, RunnerRunning))`
  abbrev pub serves : RunnerId → Result Bool
  serves g = do s ← require key_error (get g all_runners); ok (is_serving s)

  -- The body of the inner loop of `_pending_tasks`.
  unfoldable pub dispatch_to : Task → RunnerSupervisor → Result (Option Task)
  dispatch_to task runner =
      let instance = instance_of runner in
      if not (task.instance_id == instance.instance_id)
      then ok none
      else if elem task.task_id runner.completed || elem task.task_id runner.in_progress
      then ok none
      else if is_serving runner.status
      then (do
        ready ← all_of serves (keys instance.shard_assignments.runner_to_shard)
        ok (if ready then some task else none))
      else ok none

  -- The body of the outer loop.
  unfoldable pub dispatch :
      Dict RunnerSupervisor
      → Dict (Dict String)
      → (image_cache : List ℕ) → Task
      → Result (Option Task)
  unfolding dispatch_to input_arrived
  dispatch runners input_chunk_buffer image_cache task =
      if not (is_generation task.kind)
      then ok none
      else if not (is_in_flight task.task_status)
      then ok none
      else if not (input_arrived input_chunk_buffer image_cache task.kind)
      then ok none
      else first_of_loop (dispatch_to task) (values runners)

  unfoldable pub pending_tasks :
      Dict RunnerSupervisor
      → Dict Task
      → Dict (Dict String)
      → (image_cache : List ℕ) → Result (Option Task)
  unfolding dispatch
  pending_tasks runners tasks input_chunk_buffer image_cache =
      first_of_loop (dispatch runners input_chunk_buffer image_cache) (values tasks)

module _ (fresh : TaskId) where
  -- The body of the inner loop of `_cancel_tasks`, over `runners.items()`.
  unfoldable pub cancel_on : Task → RunnerId × RunnerSupervisor → Result (Option Task)
  cancel_on task (runner_id, runner) =
      if not (task.instance_id == (instance_of runner).instance_id)
      then ok none
      else if elem task.task_id runner.cancelled
      then ok none
      else ok (some (new_task fresh task.instance_id (cancel_task task.task_id runner_id)))

  unfoldable pub cancel : Dict RunnerSupervisor → Task → Result (Option Task)
  unfolding cancel_on
  cancel runners task =
      if not (is_cancelled task.task_status)
      then ok none
      else first_of_loop (cancel_on task) runners

  unfoldable pub cancel_tasks : Dict RunnerSupervisor → Dict Task → Result (Option Task)
  unfolding cancel
  cancel_tasks runners tasks = first_of_loop (cancel runners) (values tasks)
