-- ===== src/Downloads/Handled.antt =====
-- What the handlers of the coordinator leave known.
use Prim.Native.String.{String}
use awesome_distributed_ai_i.Base.{
  ℕ, ◌≡◌, refl, ap, inl, inr, Option, none, some, [], ◌∷◌, Option-cases, here, In-append,
}
use awesome_distributed_ai_i.Base.Dict.{get}
use awesome_distributed_ai_i.Types.{
  ModelId, ShardMetadata, DownloadProgress, download_pending, download_ongoing,
}
use awesome_distributed_ai_i.Downloads.{
  RepoDownloadProgress, Processor, ready, asking, completing, deleting, cancel_at, cancel_active,
  forgetting, Emitter, DownloadCoordinator, model_of, progress_of, set_status, cancel_download,
  start_asked, start_download_task, delete_download, delete_done, download_ends,
}
use awesome_distributed_ai_i.Downloads.Known.{
  IsKnown, Tells, on_channel, from_processor, from_emitter, from_task, was_cut_off, IsSound,
  set-IsSound, keep-IsSound, silent, quiet_emitter, tasks_move, report-IsSound, report_from-IsSound,
  if-IsSound, wait-IsSound, retasked,
}

pub cancel_download-IsSound :
    (m : ModelId) (s : DownloadCoordinator)
    → s.processor ≡ ready
    → IsSound s
    → IsSound (cancel_download m s)
unfolding cancel_download
cancel_download-IsSound m s at h = elim (Option-cases (get m s.active_downloads)) [
  | inl idle ↦ rw idle h
  | inr (c, active) ↦ elim (Option-cases (get m s.download_status)) [
    | inl unknown ↦ rw (active, unknown) h
    | inr (p, present) ↦
        rw (active, present)
          (report-IsSound (record s { tasks = cancel_at c s.tasks }) ready _ m _ at (λ q e. e)
            (h.own m p present) refl (λ event k e. cc) (retasked s (cancel_at c s.tasks) h))
  ]
]

pub delete_done-IsSound :
    (m : ModelId) (s : DownloadCoordinator)
    → s.processor ≡ deleting m
    → IsSound s
    → IsSound (delete_done m s)
unfolding delete_done
delete_done-IsSound m s at h = elim (Option-cases (get m s.download_status)) [
  | inl unknown ↦ rw unknown (wait-IsSound s (deleting m) ready at (λ q e. e) (λ event k e. cc) h)
  | inr (p, present) ↦ rw present (forgets p present)
]
  where
    forgotten_model : Processor → ModelId
    forgotten_model (forgetting event k) = k
    forgotten_model _ = 0

    forgets :
        (p : DownloadProgress)
        → get m s.download_status ≡ some p
        → IsSound (record s {
          processor = forgetting (progress_of s p.shard_metadata (download_pending 0 0)) m;
        })
    forgets p present = record {
      own = h.own;
      known = λ k q e. silent s _ (deleting m) at (λ r i. i) refl refl refl refl q (h.known k q e);
      to_forget = λ event k e.
          let one : m ≡ k = ap (λ r. forgotten_model r) e in rw (← one) (rw present refl);
    }

start_download_task-IsSound :
    (shard : ShardMetadata) (progress : RepoDownloadProgress) (s : DownloadCoordinator)
    → s.processor ≡ asking shard
    → IsSound s
    → IsSound (record (start_download_task shard progress s) { processor = ready })
unfolding start_download_task set_status
start_download_task-IsSound shard progress s at h =
    let p = progress_of s shard (download_ongoing progress.downloaded progress.total) in
    let t = record (start_download_task shard progress s) { processor = ready } in
    set-IsSound s t (model_of shard) p refl refl
      (on_channel ((In-append s.sent (p ∷ [])).1 (inr (here refl)))) (forward p) (λ e k f. cc) h
  where
    forward :
        (p : DownloadProgress) (q : DownloadProgress)
        → IsKnown s q
        → IsKnown (record (start_download_task shard progress s) { processor = ready }) q
    forward p q (on_channel i) = on_channel ((In-append s.sent (_ ∷ [])).1 (inl i))
    forward p q (from_processor says) = absurd (rw at at says)
    forward p q (from_emitter tells) = from_emitter tells
    forward p q (from_task x i e) = from_task x i e
    forward p q (was_cut_off i) = was_cut_off i

pub start_asked-IsSound :
    (progress : RepoDownloadProgress) (shard : ShardMetadata) (s : DownloadCoordinator)
    → s.processor ≡ asking shard
    → IsSound s
    → IsSound (start_asked progress shard s)
unfolding start_asked
start_asked-IsSound progress shard s at h =
    if-IsSound _ _ _
      (wait-IsSound s (asking shard) (completing shard progress.total) at (λ q e. e) (λ e k f. cc)
        h)
      (if-IsSound s.offline _ _
        (report-IsSound s (asking shard) _ (model_of shard) _ at (λ q e. e) refl refl (λ e k f. cc)
          h)
        (start_download_task-IsSound shard progress s at h))

pub download_ends-IsSound :
    (c : ℕ) (shard : ShardMetadata) (raised : Option String) (s : DownloadCoordinator)
    → IsSound s
    → IsSound (download_ends c shard raised s)
unfolding download_ends
download_ends-IsSound c shard none s h =
    keep-IsSound s (download_ends c shard none s) refl
      (tasks_move s (download_ends c shard none s) (λ q i. i) (λ q i. i) (λ x i. from_task x i refl)
        refl refl)
      (λ e k f. f) h
download_ends-IsSound c shard (some message) s h = report_from-IsSound shard _ _ _ (retasked s _ h)

pub delete_download-IsSound :
    (m : ModelId) (s : DownloadCoordinator)
    → s.processor ≡ ready
    → IsSound s
    → IsSound (delete_download m s)
unfolding delete_download
delete_download-IsSound m s at h = if-IsSound _ _ _ h (
    wait-IsSound (record s { tasks = cancel_active (get m s.active_downloads) s.tasks }) ready
      (deleting m) at (λ q e. e) (λ e k f. cc) (retasked s _ h))

-- The emitter waits for something else than to send.
pub emitter-IsSound :
    (s : DownloadCoordinator) (e : Emitter)
    → ((p : DownloadProgress) → ¬ Tells p s.emitter)
    → IsSound s
    → IsSound (record s { emitter = e })
emitter-IsSound s e quiet h =
    keep-IsSound s (record s { emitter = e }) refl
      (quiet_emitter s (record s { emitter = e }) quiet refl refl refl refl) (λ f k g. g) h

pub no_telling :
    (s : DownloadCoordinator) (e : Emitter)
    → s.emitter ≡ e
    → ((p : DownloadProgress) → ¬ Tells p e)
    → (p : DownloadProgress) → ¬ Tells p s.emitter
no_telling s e at quiet p tells = quiet p (rw at at tells)
