-- ===== src/Downloads/Tests.antt =====
-- A coordinator that downloads a model, cancels the download and starts it again.
use awesome_distributed_ai_i.Base.{◌≡◌, refl, true, false, none, some, [], ◌∷◌, ok}
use awesome_distributed_ai_i.Base.Dict.{get, set, remove}
use awesome_distributed_ai_i.Types.{
  ModelId, ModelCard, ShardMetadata, pipeline, mlx_metal, download_pending, download_ongoing,
  download_completed, DownloadProgress,
}
use awesome_distributed_ai_i.Downloads.{
  RepoDownloadProgress, in_progress, DownloadCoordinator, new, model_of, asking, ready, forgetting,
  time_gone, report, report_from, report_existing, set_status, cancel_download, start_download,
  start_looked, start_asked, start_download_task, download_ends, processor_sends, callback_complete,
  delete_download, delete_done, forget_status, task_sends,
}
use awesome_distributed_ai_i.Downloads.Steps.{
  start, cancel, delete, deleted, forgotten, complete, looked, pending_sent, asked, status_sent,
  ends, task_sent, Reach, start_here, next,
}
use awesome_distributed_ai_i.Downloads.Known.{IsKnown}
use awesome_distributed_ai_i.Downloads.Told.{reached-IsKnown}

abbrev card : ModelCard
card = record {
  model_id = 5;
  storage_size = 4000;
  n_layers = 8;
  hidden_size = 64;
  supports_tensor = true;
  num_key_value_heads = none;
  base_model = "Llama";
  backends = mlx_metal ∷ [];
  uses_cfg = false;
}

abbrev whole : ShardMetadata
whole = record {
  model_card = card;
  device_rank = 0;
  world_size = 1;
  start_layer = 0;
  end_layer = 8;
  n_layers = 8;
  kind = pipeline;
}

abbrev partial : RepoDownloadProgress
partial = record {
  shard = whole;
  status = in_progress;
  downloaded = 100;
  downloaded_this_session = 0;
  total = 4000;
}

abbrev pending_event : DownloadProgress
pending_event = record { node_id = 0; shard_metadata = whole; state = download_pending 0 0 }

-- A command to start, up to the download.
abbrev begun : DownloadCoordinator → DownloadCoordinator
begun s = start_asked partial whole (
    processor_sends pending_event (asking whole) (start_looked none whole (start_download whole s)))

abbrev first : DownloadCoordinator
first = begun (new 0 false)

abbrev stopping : DownloadCoordinator
stopping = cancel_download 5 first

abbrev stop_event : DownloadProgress
stop_event = record { node_id = 0; shard_metadata = whole; state = download_pending 100 4000 }

abbrev stopped : DownloadCoordinator
stopped = processor_sends stop_event ready stopping

abbrev again : DownloadCoordinator
again = begun stopped

abbrev after_end : DownloadCoordinator
after_end = download_ends 0 whole none again

program : Unit {0}
unfolding get set remove report report_from report_existing set_status cancel_download
    start_download start_looked start_asked start_download_task download_ends processor_sends
    callback_complete delete_download delete_done forget_status task_sends
program = tt

first_run : Reach (new 0 false) first
unfolding program
first_run =
    next
      (next (next (next start_here (start whole refl)) (looked whole none refl))
        (pending_sent pending_event whole refl))
      (asked whole partial refl)

stopped_run : Reach (new 0 false) stopped
unfolding program
stopped_run = next (next first_run (cancel 5 refl)) (status_sent stop_event refl)

cancelled_pending : get 5 stopped.download_status ≡ some stop_event
unfolding program
cancelled_pending = refl

offline_fails : (begun (new 0 true)).active_downloads ≡ []
unfolding program
offline_fails = refl

again_run : Reach (new 0 false) again
unfolding program
again_run =
    next
      (next (next (next stopped_run (start whole refl)) (looked whole none refl))
        (pending_sent pending_event whole refl))
      (asked whole partial refl)

-- The cancelled download ends only after the model was started again: the second download runs on,
-- with no scope to cancel it by.
second_run : Reach (new 0 false) after_end
unfolding program
second_run =
    next again_run
      (ends 0 (record { shard = whole; cancelled = true; ended = false }) none refl refl)

scope_lost : get 5 after_end.active_downloads ≡ none
unfolding program
scope_lost = refl

second_runs_on :
    after_end.tasks
    ≡ record { shard = whole; cancelled = true; ended = true }
      ∷ record { shard = whole; cancelled = false; ended = false }
      ∷ []
unfolding program
second_runs_on = refl

no_cancel : cancel_download 5 after_end ≡ after_end
unfolding program
no_cancel = refl

-- A deletion, and a download that reports its completion while the deletion sends its event.
abbrev forgetful : DownloadCoordinator
forgetful = delete_done 5 (delete_download 5 first)

abbrev done_event : DownloadProgress
done_event = record { node_id = 0; shard_metadata = whole; state = download_completed 4000 false }

abbrev crossing : DownloadCoordinator
crossing = callback_complete none whole 4000 forgetful

forgetful_run : Reach (new 0 false) crossing
unfolding program
forgetful_run =
    next (next (next first_run (delete 5 refl)) (deleted 5 refl)) (complete whole 4000 none)

reached-IsKnown_example :
    ((m : ModelId) (p : DownloadProgress)
      → get m crossing.download_status ≡ some p
      → (model_of p.shard_metadata ≡ m) × IsKnown crossing p)
    × ((event : DownloadProgress) (m : ModelId)
        → crossing.processor ≡ forgetting event m
        → (s' : DownloadCoordinator) × (forget_status event m crossing ≡ ok s')
          × (get m s'.download_status ≡ none))
reached-IsKnown_example = reached-IsKnown 0 false crossing forgetful_run

abbrev forgotten_state : DownloadCoordinator
forgotten_state = record (processor_sends pending_event ready crossing) { download_status = [] }

forgets : forget_status pending_event 5 crossing ≡ ok forgotten_state
unfolding program
forgets = refl

-- The cluster hears last that the model is complete, of which the coordinator has nothing.
abbrev diverged : DownloadCoordinator
diverged = task_sends 0 [] (record { event = done_event; after = time_gone 5 }) [] forgotten_state

diverged_run : Reach (new 0 false) diverged
unfolding program
diverged_run =
    next (next forgetful_run (forgotten pending_event 5 forgotten_state refl forgets))
      (task_sent 0 [] (record { event = done_event; after = time_gone 5 }) [] refl)

nothing_left : get 5 diverged.download_status ≡ none
unfolding program
nothing_left = refl

completed_last :
    diverged.sent
    ≡ pending_event
      ∷ record { node_id = 0; shard_metadata = whole; state = download_ongoing 100 4000 }
      ∷ pending_event
      ∷ done_event
      ∷ []
unfolding program
completed_last = refl
