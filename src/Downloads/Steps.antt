-- ===== src/Downloads/Steps.antt =====
-- The tasks of the coordinator as steps that interleave in any order.
use Prim.Native.String.{String}
use awesome_distributed_ai_i.Base.{
  ℕ, ◌≡◌, Bool, true, false, Option, some, List, ◌∷◌, ◌++◌, get_elem?, ok,
}
use awesome_distributed_ai_i.Types.{ModelId, Memory, ModelCard, ShardMetadata, DownloadProgress}
use awesome_distributed_ai_i.Downloads.{
  RepoDownloadProgress, DownloadTask, ready, looking, asking, completing, deleting, sending,
  sending_pending, forgetting, between, resolving, scanning, telling, After, download_gone,
  time_gone, time_set, Sending, DownloadCoordinator, cancel_download, start_download, start_looked,
  start_asked, start_completed, delete_download, delete_done, processor_sends, forget_status,
  download_ends, callback_complete, callback_in_progress, task_sends, task_cut, emit_progress,
  emit_resolved, scan_card, scan_resolved, emitter_sends,
}

-- The sending is a callback's, which runs in the cancel scope of a download.
abbrev is_callback : After → Bool
is_callback (download_gone m) = false
is_callback (time_gone m) = true
is_callback (time_set m) = true

-- A command is taken when the one before is done, and what was waited for comes back at any time,
-- with any answer.
pub data Step (s : DownloadCoordinator) : DownloadCoordinator → Type 0 where
  start : (shard : ShardMetadata) → s.processor ≡ ready → Step s (start_download shard s)
  cancel : (model_id : ModelId) → s.processor ≡ ready → Step s (cancel_download model_id s)
  delete : (model_id : ModelId) → s.processor ≡ ready → Step s (delete_download model_id s)
  looked :
      (shard : ShardMetadata) (found : Option Bool)
      → s.processor ≡ looking shard
      → Step s (start_looked found shard s)
  pending_sent :
      (event : DownloadProgress) (shard : ShardMetadata)
      → s.processor ≡ sending_pending event shard
      → Step s (processor_sends event (asking shard) s)
  asked :
      (shard : ShardMetadata) (progress : RepoDownloadProgress)
      → s.processor ≡ asking shard
      → Step s (start_asked progress shard s)
  completed :
      (shard : ShardMetadata) (total : Memory) (found : Option Bool)
      → s.processor ≡ completing shard total
      → Step s (start_completed found shard total s)
  status_sent :
      (event : DownloadProgress)
      → s.processor ≡ sending event
      → Step s (processor_sends event ready s)
  deleted : (model_id : ModelId) → s.processor ≡ deleting model_id → Step s (delete_done model_id s)
  forgotten :
      (event : DownloadProgress) (model_id : ModelId) (s' : DownloadCoordinator)
      → s.processor ≡ forgetting event model_id
      → forget_status event model_id s ≡ ok s'
      → Step s s'
  ends :
      (c : ℕ) (task : DownloadTask) (raised : Option String)
      → get_elem? s.tasks c ≡ some task
      → task.ended ≡ false
      → Step s (download_ends c task.shard raised s)
  complete :
      (shard : ShardMetadata) (total : Memory) (found : Option Bool)
      → Step s (callback_complete found shard total s)
  in_progress :
      (shard : ShardMetadata) (downloaded total : Memory) (now : ℕ)
      → Step s (callback_in_progress now shard downloaded total s)
  task_sent :
      (later : ℕ) (before : List Sending) (x : Sending) (others : List Sending)
      → s.sends ≡ before ++ x ∷ others
      → Step s (task_sends later before x others s)
  cut_off :
      (before : List Sending) (x : Sending) (others : List Sending)
      → s.sends ≡ before ++ x ∷ others
      → is_callback x.after ≡ true
      → Step s (task_cut before x others s)
  emit : (progress : RepoDownloadProgress) → s.emitter ≡ between → Step s (emit_progress progress s)
  resolved :
      (progress : RepoDownloadProgress) (found : Option Bool)
      → s.emitter ≡ resolving progress
      → Step s (emit_resolved found progress s)
  scan : (card : ModelCard) → s.emitter ≡ between → Step s (scan_card card s)
  scanned :
      (card : ModelCard) (found : Option Bool)
      → s.emitter ≡ scanning card
      → Step s (scan_resolved found card s)
  existing_sent :
      (event : DownloadProgress) → s.emitter ≡ telling event → Step s (emitter_sends event s)
  -- The search raised, and the next round begins.
  resolve_raised :
      (progress : RepoDownloadProgress)
      → s.emitter ≡ resolving progress
      → Step s (record s { emitter = between })
  scan_raised :
      (card : ModelCard) → s.emitter ≡ scanning card → Step s (record s { emitter = between })

pub data Reach (s : DownloadCoordinator) : DownloadCoordinator → Type 0 where
  start_here : Reach s s
  next : {t u : DownloadCoordinator} → Reach s t → Step t u → Reach s u
