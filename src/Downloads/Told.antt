-- ===== src/Downloads/Told.antt =====
-- Which statuses the cluster hears of, and that the end of a deletion finds the status that it deletes.
use awesome_distributed_ai_i.Base.{◌≡◌, refl, Bool, true, false, none, some, subst, ok}
use awesome_distributed_ai_i.Base.Dict.{get}
use awesome_distributed_ai_i.Types.{NodeId, ModelId, DownloadProgress}
use awesome_distributed_ai_i.Downloads.{
  ready, looking, asking, completing, between, resolving, scanning, sending, sending_pending,
  forgetting, DownloadCoordinator, new, model_of, start_download, start_looked, start_completed,
  forget_status, callback_complete, callback_in_progress, emit_progress, emit_resolved, scan_card,
  scan_resolved,
}
use awesome_distributed_ai_i.Downloads.Steps.{
  Step, start, cancel, delete, looked, pending_sent, asked, completed, status_sent, deleted,
  forgotten, ends, complete, in_progress, task_sent, cut_off, emit, resolved, scan, scanned,
  existing_sent, resolve_raised, scan_raised, Reach, start_here, next,
}
use awesome_distributed_ai_i.Downloads.Known.{
  IsKnown, IsSound, report-IsSound, report_from-IsSound, report_existing-IsSound, if-IsSound,
  wait-IsSound,
}
use awesome_distributed_ai_i.Downloads.Sent.{
  processor_sends-IsSound, emitter_sends-IsSound, task_cut-IsSound, task_sends-IsSound,
  forget_status-returns, forget_status-absent,
}
use awesome_distributed_ai_i.Downloads.Handled.{
  cancel_download-IsSound, delete_done-IsSound, start_asked-IsSound, download_ends-IsSound,
  delete_download-IsSound, emitter-IsSound, no_telling,
}

Step-IsSound : {s t : DownloadCoordinator} → Step s t → IsSound s → IsSound t
unfolding start_download start_looked start_completed callback_complete callback_in_progress
    emit_progress emit_resolved scan_card scan_resolved
Step-IsSound {s} (start shard at) h =
    if-IsSound _ _ _ h (wait-IsSound s ready (looking shard) at (λ q e. e) (λ e k f. cc) h)
Step-IsSound {s} (cancel m at) h = cancel_download-IsSound m s at h
Step-IsSound {s} (delete m at) h = delete_download-IsSound m s at h
Step-IsSound {s} (looked shard none at) h =
    report-IsSound s (looking shard) _ (model_of shard) _ at (λ q e. e) refl refl (λ e k f. cc) h
Step-IsSound {s} (looked shard (some b) at) h =
    report-IsSound s (looking shard) _ (model_of shard) _ at (λ q e. e) refl refl (λ e k f. cc) h
Step-IsSound {s} (pending_sent event shard at) h =
    processor_sends-IsSound event (sending_pending event shard) (asking shard) s at (λ p e. e)
      (λ e k f. cc) h
Step-IsSound {s} (asked shard progress at) h = start_asked-IsSound progress shard s at h
Step-IsSound {s} (completed shard total found at) h =
    report-IsSound s (completing shard total) _ (model_of shard) _ at (λ q e. e) refl refl
      (λ e k f. cc) h
Step-IsSound {s} (status_sent event at) h =
    processor_sends-IsSound event (sending event) ready s at (λ p e. e) (λ e k f. cc) h
Step-IsSound {s} (deleted m at) h = delete_done-IsSound m s at h
Step-IsSound {s} (forgotten event m s' at e) h =
    let (t, f, sound) = forget_status-returns event m s at h in
    let both : ok t ≡ ok s' = cc in let one : t ≡ s' = cc in subst (λ u. IsSound u) one sound
Step-IsSound {s} (ends c task raised at runs) h = download_ends-IsSound c task.shard raised s h
Step-IsSound {s} (complete shard total found) h = report_from-IsSound shard _ _ s h
Step-IsSound {s} (in_progress shard downloaded total now) h =
    if-IsSound _ _ _ (report_from-IsSound shard _ _ s h) h
Step-IsSound {s} (task_sent later before x others at) h =
    task_sends-IsSound later before others x s at h
Step-IsSound {s} (cut_off before x others at callback) h = task_cut-IsSound before others x s at h
Step-IsSound {s} (emit progress at) h =
    if-IsSound _ _ _ h (emitter-IsSound s _ (no_telling s between at (λ p e. e)) h)
Step-IsSound {s} (resolved progress found at) h =
    report_existing-IsSound progress.shard _ s (no_telling s (resolving progress) at (λ p e. e)) h
Step-IsSound {s} (scan card at) h =
    if-IsSound _ _ _ h (emitter-IsSound s _ (no_telling s between at (λ p e. e)) h)
Step-IsSound {s} (scanned card none at) h =
    emitter-IsSound s _ (no_telling s (scanning card) at (λ p e. e)) h
Step-IsSound {s} (scanned card (some true) at) h =
    report_existing-IsSound _ _ s (no_telling s (scanning card) at (λ p e. e)) h
Step-IsSound {s} (scanned card (some false) at) h =
    emitter-IsSound s _ (no_telling s (scanning card) at (λ p e. e)) h
Step-IsSound {s} (existing_sent event at) h = emitter_sends-IsSound event s at h
Step-IsSound {s} (resolve_raised progress at) h =
    emitter-IsSound s _ (no_telling s (resolving progress) at (λ p e. e)) h
Step-IsSound {s} (scan_raised card at) h =
    emitter-IsSound s _ (no_telling s (scanning card) at (λ p e. e)) h

Reach-IsSound : {s t : DownloadCoordinator} → Reach s t → IsSound s → IsSound t
Reach-IsSound start_here h = h
Reach-IsSound (next r st) h = Step-IsSound st (Reach-IsSound r h)

new-IsSound : (node_id : NodeId) (offline : Bool) → IsSound (new node_id offline)
unfolding get
new-IsSound node_id offline = record {
  own = λ m p e. cc;
  known = λ m p e. cc;
  to_forget = λ e m f. cc;
}

-- However the tasks of a new coordinator interleave, and whatever the searches, the downloads and the downloader
-- give: each status of the coordinator is of the model that it stands under, and is known: the event with it is on the
-- channel, or one of the tasks waits to send it, or a cancellation cut that sending off. And the `del` at the end of
-- a deletion finds its key: it raises nothing, and its result has no status of the model.
pub reached-IsKnown :
    (node_id : NodeId) (offline : Bool) (s : DownloadCoordinator)
    → Reach (new node_id offline) s
    → ((m : ModelId) (p : DownloadProgress)
        → get m s.download_status ≡ some p
        → (model_of p.shard_metadata ≡ m) × IsKnown s p)
      × ((event : DownloadProgress) (m : ModelId)
          → s.processor ≡ forgetting event m
          → (s' : DownloadCoordinator) × (forget_status event m s ≡ ok s')
            × (get m s'.download_status ≡ none))
reached-IsKnown node_id offline s r =
    let h = Reach-IsSound r (new-IsSound node_id offline) in
    (λ m p e. (h.own m p e, h.known m p e), λ event m at. forgets s h event m at)
  where
    forgets :
        (s : DownloadCoordinator)
        → IsSound s
        → (event : DownloadProgress) (m : ModelId) → s.processor ≡ forgetting event m
        → (s' : DownloadCoordinator) × (forget_status event m s ≡ ok s')
          × (get m s'.download_status ≡ none)
    forgets s h event m at =
        let (s', e, sound) = forget_status-returns event m s at h in
        (s', e, forget_status-absent event m s s' e)
