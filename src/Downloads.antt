-- ===== src/Downloads.antt =====
-- src/exo/download/coordinator.py: the coordinator of the downloads of a node. Its tasks give way where they wait for
-- a thread or for the shard downloader, and before each event that they send is put on the channel, which has no
-- bound; each function below is the code from one such place to the next. A directory that was found is known by
-- whether it is read only. Times are milliseconds, and fields of the progress that no modelled code reads are left out.
pub mod Steps
pub mod Known
pub mod Sent
pub mod Handled
pub mod Told
pub mod Tests
use Prim.Native.String.{String}
use awesome_distributed_ai_i.Base.{
  ℕ, zero, suc, ◌+◌, Bool, true, false, not, ◌&&◌, ◌||◌, Option, none, some, List, [], ◌∷◌, ◌++◌,
  ltb, ◌==◌, if◌then◌else◌, length, Result, ok, require, key_error, ◌>>=◌,
}
use awesome_distributed_ai_i.Base.Dict.{Dict, get, has, set, remove}
use awesome_distributed_ai_i.Types.{
  NodeId, ModelId, Memory, ModelCard, ShardMetadata, pipeline, DownloadState, download_pending,
  download_completed, download_failed, download_ongoing, DownloadProgress,
}

-- `RepoDownloadProgress.status`
pub data RepoStatus : Type 0 where
  not_started in_progress complete : RepoStatus

pub record RepoDownloadProgress : Type 0 where
  pub shard : ShardMetadata
  pub status : RepoStatus
  pub downloaded : Memory
  pub downloaded_this_session : Memory
  pub total : Memory

-- A run of `download_wrapper` with its cancel scope.
pub record DownloadTask : Type 0 where
  pub shard : ShardMetadata
  pub cancelled : Bool
  pub ended : Bool

-- What the command processor waits for: a command, a search, the downloader, the deletion of files, or to send an
-- event, after which it goes on with the shard or the model, or with the next command.
pub data Processor : Type 0 where
  ready : Processor
  sending : (event : DownloadProgress) → Processor
  sending_pending : (event : DownloadProgress) → (shard : ShardMetadata) → Processor
  forgetting : (event : DownloadProgress) → (model_id : ModelId) → Processor
  looking : (shard : ShardMetadata) → Processor
  asking : (shard : ShardMetadata) → Processor
  completing : (shard : ShardMetadata) → (total : Memory) → Processor
  deleting : (model_id : ModelId) → Processor

-- What the task that emits the existing progress waits for.
pub data Emitter : Type 0 where
  between : Emitter
  resolving : (progress : RepoDownloadProgress) → Emitter
  scanning : (card : ModelCard) → Emitter
  telling : (event : DownloadProgress) → Emitter

-- What other tasks do after an event that they send: the end of a failed download, and the callback.
pub data After : Type 0 where
  download_gone time_gone time_set : (model_id : ModelId) → After

pub record Sending : Type 0 where
  pub event : DownloadProgress
  pub after : After

-- A cancel scope is the place of its task.
pub record DownloadCoordinator : Type 0 where
  pub node_id : NodeId
  pub offline : Bool
  pub download_status : Dict DownloadProgress
  pub active_downloads : Dict ℕ
  pub last_progress_time : Dict ℕ
  pub tasks : List DownloadTask
  pub processor : Processor
  pub emitter : Emitter
  -- the events that the callbacks and the downloads send, before they are on the channel
  pub sends : List Sending
  -- the events on the channel, and those whose sending a cancellation cut off
  pub sent : List DownloadProgress
  pub cut : List DownloadProgress

abbrev pub new : NodeId → Bool → DownloadCoordinator
new node_id offline = record {
  node_id = node_id;
  offline = offline;
  download_status = [];
  active_downloads = [];
  last_progress_time = [];
  tasks = [];
  processor = ready;
  emitter = between;
  sends = [];
  sent = [];
  cut = [];
}

abbrev pub model_of : ShardMetadata → ModelId
model_of shard = shard.model_card.model_id

abbrev pub progress_of : DownloadCoordinator → ShardMetadata → DownloadState → DownloadProgress
progress_of self shard state = record {
  node_id = self.node_id;
  shard_metadata = shard;
  state = state;
}

-- `self.download_status[model_id] = status`
unfoldable pub set_status : ModelId → DownloadProgress → DownloadCoordinator → DownloadCoordinator
set_status model_id status self = record self {
  download_status = set model_id status self.download_status;
}

-- A status that the command processor sets, with the event that it sends then.
unfoldable pub report :
    ModelId → DownloadProgress → Processor → DownloadCoordinator → DownloadCoordinator
unfolding set_status
report model_id status p self = record (set_status model_id status self) { processor = p }

-- The same in a callback or a download.
unfoldable pub report_from :
    ShardMetadata → DownloadState → After → DownloadCoordinator → DownloadCoordinator
unfolding set_status
report_from shard state after self =
    let status = progress_of self shard state in
    record (set_status (model_of shard) status self) {
      sends = self.sends ++ record { event = status; after = after } ∷ [];
    }

-- The same in the task that emits the existing progress.
unfoldable pub report_existing :
    ShardMetadata → DownloadState → DownloadCoordinator → DownloadCoordinator
unfolding set_status
report_existing shard state self =
    let status = progress_of self shard state in
    record (set_status (model_of shard) status self) { emitter = telling status }

abbrev wait_for : Processor → DownloadCoordinator → DownloadCoordinator
wait_for p self = record self { processor = p }

-- The state of `_completed_from_path`, or of a model in the default directory.
abbrev pub completed : Option Bool → Memory → DownloadState
completed none total = download_completed total false
completed (some read_only) total = download_completed total read_only

-- `self.active_downloads[model_id].cancel()`
unfoldable cancel_at : ℕ → List DownloadTask → List DownloadTask
cancel_at c [] = []
cancel_at zero (task ∷ tasks) = record task { cancelled = true } ∷ tasks
cancel_at (suc c) (task ∷ tasks) = task ∷ cancel_at c tasks

abbrev cancel_active : Option ℕ → List DownloadTask → List DownloadTask
cancel_active none tasks = tasks
cancel_active (some c) tasks = cancel_at c tasks

-- The bytes that a cancelled download had.
abbrev pending_after : DownloadState → DownloadState
pending_after (download_ongoing downloaded total) = download_pending downloaded total
pending_after _ = download_pending 0 0

abbrev cancel_known :
    ModelId → Option ℕ → Option DownloadProgress → DownloadCoordinator → DownloadCoordinator
cancel_known model_id (some c) (some current) self =
    let pending = progress_of self current.shard_metadata (pending_after current.state) in
    report model_id pending (sending pending) (record self { tasks = cancel_at c self.tasks })
cancel_known model_id _ _ self = self

-- `_cancel_download`
unfoldable pub cancel_download : ModelId → DownloadCoordinator → DownloadCoordinator
unfolding cancel_at report
cancel_download model_id self =
    cancel_known model_id (get model_id self.active_downloads) (get model_id self.download_status)
      self

-- The status is one that `_start_download` and the scan leave alone.
abbrev pub is_settled : Option DownloadProgress → Bool
is_settled none = false
is_settled (some p) = settled p.state
  where
    settled : DownloadState → Bool
    settled (download_pending _ _) = false
    settled _ = true

abbrev pub is_completed : Option DownloadProgress → Bool
is_completed none = false
is_completed (some p) = done p.state
  where
    done : DownloadState → Bool
    done (download_completed _ _) = true
    done _ = false

-- `_start_download`, up to the search of the model's directories.
unfoldable pub start_download : ShardMetadata → DownloadCoordinator → DownloadCoordinator
start_download shard self =
    if is_settled (get (model_of shard) self.download_status)
    then self
    else wait_for (looking shard) self

-- From the search to the question for the downloader's progress.
unfoldable pub start_looked :
    Option Bool → ShardMetadata → DownloadCoordinator → DownloadCoordinator
start_looked (some read_only) shard self =
    let status =
      progress_of self shard (download_completed shard.model_card.storage_size read_only) in
    report (model_of shard) status (sending status) self
start_looked none shard self =
    let status = progress_of self shard (download_pending 0 0) in
    report (model_of shard) status (sending_pending status shard) self

-- `_start_download_task`; `send_nowait` puts the event on the channel at once.
unfoldable pub start_download_task :
    ShardMetadata → RepoDownloadProgress → DownloadCoordinator → DownloadCoordinator
unfolding set_status
start_download_task shard initial_progress self =
    let status =
      progress_of self shard
        (download_ongoing initial_progress.downloaded initial_progress.total) in
    record (set_status (model_of shard) status self) {
      sent = self.sent ++ status ∷ [];
      tasks = self.tasks ++ record { shard = shard; cancelled = false; ended = false } ∷ [];
      active_downloads = set (model_of shard) (length self.tasks) self.active_downloads;
    }

abbrev pub is_complete : RepoStatus → Bool
is_complete complete = true
is_complete _ = false

-- From the downloader's progress on. The text of the failure names no model.
unfoldable pub start_asked :
    RepoDownloadProgress → ShardMetadata → DownloadCoordinator → DownloadCoordinator
start_asked initial_progress shard self =
    let offline_status =
      progress_of self shard (download_failed "Model files not found locally in offline mode") in
    if is_complete initial_progress.status
    then wait_for (completing shard initial_progress.total) self
    else if self.offline
    then report (model_of shard) offline_status (sending offline_status) self
    else wait_for ready (start_download_task shard initial_progress self)

-- A model that is complete already: from the second search on.
unfoldable pub start_completed :
    Option Bool → ShardMetadata → Memory → DownloadCoordinator → DownloadCoordinator
start_completed found shard total self =
    let status = progress_of self shard (completed found total) in
    report (model_of shard) status (sending status) self

abbrev is_read_only : Option DownloadProgress → Bool
is_read_only none = false
is_read_only (some p) = kept p.state
  where
    kept : DownloadState → Bool
    kept (download_completed _ read_only) = read_only
    kept _ = false

-- `_delete_download`, up to the deletion of the files.
unfoldable pub delete_download : ModelId → DownloadCoordinator → DownloadCoordinator
unfolding cancel_at
delete_download model_id self =
    if is_read_only (get model_id self.download_status) then self else record self {
      tasks = cancel_active (get model_id self.active_downloads) self.tasks;
      processor = deleting model_id;
    }

abbrev forget : ModelId → Option DownloadProgress → DownloadCoordinator → DownloadCoordinator
forget model_id none self = wait_for ready self
forget model_id (some current) self =
    wait_for (forgetting (progress_of self current.shard_metadata (download_pending 0 0)) model_id)
      self

-- From the deletion of the files on.
unfoldable pub delete_done : ModelId → DownloadCoordinator → DownloadCoordinator
delete_done model_id self = forget model_id (get model_id self.download_status) self

-- The processor's event is put on the channel, and it goes on.
unfoldable pub processor_sends :
    DownloadProgress → Processor → DownloadCoordinator → DownloadCoordinator
processor_sends event p self = record self { sent = self.sent ++ event ∷ []; processor = p }

-- The `del` that ends a deletion, once its event is on the channel.
unfoldable pub forget_status :
    DownloadProgress → ModelId → DownloadCoordinator → Result DownloadCoordinator
unfolding processor_sends
forget_status event model_id self = do
  status ← require key_error (get model_id self.download_status)
  ok (record (processor_sends event ready self) {
    download_status = remove model_id self.download_status;
  })

-- The end of `download_wrapper`: what it raised, if it was not a cancellation.
unfoldable end_at : ℕ → List DownloadTask → List DownloadTask
end_at c [] = []
end_at zero (task ∷ tasks) = record task { ended = true } ∷ tasks
end_at (suc c) (task ∷ tasks) = task ∷ end_at c tasks

abbrev close_download : ShardMetadata → Option String → DownloadCoordinator → DownloadCoordinator
close_download shard none self = record self {
  active_downloads = remove (model_of shard) self.active_downloads;
}
close_download shard (some message) self =
    report_from shard (download_failed message) (download_gone (model_of shard)) self

unfoldable pub download_ends :
    ℕ → ShardMetadata → Option String → DownloadCoordinator → DownloadCoordinator
unfolding end_at
download_ends c shard raised self =
    close_download shard raised (record self { tasks = end_at c self.tasks })

abbrev or_zero : Option ℕ → ℕ
or_zero none = 0
or_zero (some n) = n

-- `_download_progress_callback` on a complete download, once its directory has been searched for.
unfoldable pub callback_complete :
    Option Bool → ShardMetadata → Memory → DownloadCoordinator → DownloadCoordinator
callback_complete found shard total self =
    report_from shard (completed found total) (time_gone (model_of shard)) self

-- The same on one in progress; `now` is the first reading of the clock.
unfoldable pub callback_in_progress :
    (now : ℕ)
    → ShardMetadata
    → (downloaded total : Memory) → DownloadCoordinator
    → DownloadCoordinator
callback_in_progress now shard downloaded total self =
    if ltb (or_zero (get (model_of shard) self.last_progress_time) + 1000) now
    then report_from shard (download_ongoing downloaded total) (time_set (model_of shard)) self
    else self

-- What a task does once its event is on the channel; `later` is the second reading of the clock.
abbrev pub go_on : (later : ℕ) → After → DownloadCoordinator → DownloadCoordinator
go_on later (download_gone m) self = record self {
  active_downloads = remove m self.active_downloads;
}
go_on later (time_gone m) self = record self {
  last_progress_time = remove m self.last_progress_time;
}
go_on later (time_set m) self = record self {
  last_progress_time = set m later self.last_progress_time;
}

unfoldable pub task_sends :
    (later : ℕ)
    → (before : List Sending) → Sending
    → (others : List Sending) → DownloadCoordinator
    → DownloadCoordinator
task_sends later before s others self =
    go_on later s.after (record self { sends = before ++ others; sent = self.sent ++ s.event ∷ [] })

-- A cancellation that comes while a callback sends its event.
unfoldable pub task_cut :
    (before : List Sending)
    → Sending
    → (others : List Sending) → DownloadCoordinator
    → DownloadCoordinator
task_cut before s others self = record self {
  sends = before ++ others;
  cut = self.cut ++ s.event ∷ [];
}

-- `_emit_existing_download_progress` at one progress, up to the search of the model's directories.
unfoldable pub emit_progress : RepoDownloadProgress → DownloadCoordinator → DownloadCoordinator
emit_progress progress self =
    let model_id = model_of progress.shard in
    if has model_id self.active_downloads
      || (not (is_complete progress.status) && is_completed (get model_id self.download_status))
    then self
    else record self { emitter = resolving progress }

abbrev existing_state : Option Bool → RepoDownloadProgress → DownloadState
existing_state (some read_only) p = download_completed p.total read_only
existing_state none p =
    if is_complete p.status
    then download_completed p.total false
    else if p.downloaded_this_session == 0
    then download_pending p.downloaded p.total
    else download_ongoing p.downloaded p.total

-- From the search on.
unfoldable pub emit_resolved :
    Option Bool → RepoDownloadProgress → DownloadCoordinator → DownloadCoordinator
emit_resolved found progress self =
    report_existing progress.shard (existing_state found progress) self

-- The scan of the read-only directories at one card, up to the search.
unfoldable pub scan_card : ModelCard → DownloadCoordinator → DownloadCoordinator
scan_card card self =
    if has card.model_id self.active_downloads
      || is_settled (get card.model_id self.download_status)
    then self
    else record self { emitter = scanning card }

abbrev path_shard : ModelCard → ShardMetadata
path_shard card = record {
  model_card = card;
  device_rank = 0;
  world_size = 1;
  start_layer = 0;
  end_layer = card.n_layers;
  n_layers = card.n_layers;
  kind = pipeline;
}

-- From the search on: only a directory that is read only counts.
unfoldable pub scan_resolved : Option Bool → ModelCard → DownloadCoordinator → DownloadCoordinator
scan_resolved (some true) card self =
    report_existing (path_shard card) (download_completed card.storage_size true) self
scan_resolved _ card self = record self { emitter = between }

-- The emitter's event is put on the channel.
unfoldable pub emitter_sends : DownloadProgress → DownloadCoordinator → DownloadCoordinator
emitter_sends event self = record self { sent = self.sent ++ event ∷ []; emitter = between }
