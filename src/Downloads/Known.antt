-- ===== src/Downloads/Known.antt =====
-- What is known of a status, and the steps that set one.
use awesome_distributed_ai_i.Base.{
  ◌≡◌, ◌≢◌, refl, inl, inr, Bool, true, false, some, List, [], ◌∷◌, ◌==◌, if◌then◌else◌, arith,
  Bool-cases, In, here, In-append, subst,
}
use awesome_distributed_ai_i.Base.Dict.{Dict, get, has, set, get-set}
use awesome_distributed_ai_i.Types.{ModelId, ShardMetadata, DownloadState, DownloadProgress}
use awesome_distributed_ai_i.Downloads.{
  DownloadTask, Processor, sending, sending_pending, forgetting, Emitter, telling, After, Sending,
  DownloadCoordinator, model_of, progress_of, set_status, report, report_from, report_existing,
}

-- The processor waits to send the event.
abbrev pub Says : DownloadProgress → Processor → Type 0
Says p (sending event) = event ≡ p
Says p (sending_pending event shard) = event ≡ p
Says p _ = ⊥

abbrev pub Tells : DownloadProgress → Emitter → Type 0
Tells p (telling event) = event ≡ p
Tells p _ = ⊥

-- The event is on the channel, waits to be sent by one of the tasks, or a cancellation cut its sending off.
pub data IsKnown (s : DownloadCoordinator) (p : DownloadProgress) : Type 0 where
  on_channel : In p s.sent → IsKnown s p
  from_processor : Says p s.processor → IsKnown s p
  from_emitter : Tells p s.emitter → IsKnown s p
  from_task : (x : Sending) → In x s.sends → x.event ≡ p → IsKnown s p
  was_cut_off : In p s.cut → IsKnown s p

-- Each status is of the model that it stands under and is known; and the model whose deletion ends has one.
pub record IsSound (s : DownloadCoordinator) : Type 0 where
  pub own :
      (m : ModelId) (p : DownloadProgress)
      → get m s.download_status ≡ some p
      → model_of p.shard_metadata ≡ m
  pub known : (m : ModelId) (p : DownloadProgress) → get m s.download_status ≡ some p → IsKnown s p
  pub to_forget :
      (event : DownloadProgress) (m : ModelId)
      → s.processor ≡ forgetting event m
      → has m s.download_status ≡ true

-- What was known stays known.
abbrev pub Forward : DownloadCoordinator → DownloadCoordinator → Type 0
Forward s t = (p : DownloadProgress) → IsKnown s p → IsKnown t p

-- What is to be forgotten is what was to be forgotten.
abbrev NoNewForget : DownloadCoordinator → DownloadCoordinator → Type 0
NoNewForget s t =
    (event : DownloadProgress) (m : ModelId)
    → t.processor ≡ forgetting event m
    → s.processor ≡ forgetting event m

set-has :
    (m k : ModelId) (p : DownloadProgress) (d : Dict DownloadProgress)
    → has k d ≡ true
    → has k (set m p d) ≡ true
set-has m k p d h = elim (Bool-cases (m == k)) [
  | inl same ↦ rw (get-set m k p d, same) refl
  | inr other ↦ rw (get-set m k p d, other) h
]

-- A step that sets one status, which is known afterwards.
pub set-IsSound :
    (s t : DownloadCoordinator) (m : ModelId) (p : DownloadProgress)
    → t.download_status ≡ set m p s.download_status
    → model_of p.shard_metadata ≡ m
    → IsKnown t p
    → Forward s t
    → NoNewForget s t
    → IsSound s
    → IsSound t
set-IsSound s t m p e key fresh forward same h = record {
  own = λ k q at. elim (Bool-cases (m == k)) [
    | inl eq ↦ let both = rw (e, get-set m k p s.download_status, eq) at at in ground arith
    | inr ne ↦ h.own k q (rw (e, get-set m k p s.download_status, ne) at at)
  ];
  known = λ k q at. elim (Bool-cases (m == k)) [
    | inl eq ↦
        let both : some p ≡ some q = rw (e, get-set m k p s.download_status, eq) at at in
        let one : p ≡ q = cc in subst (λ r. IsKnown t r) one fresh
    | inr ne ↦ forward q (h.known k q (rw (e, get-set m k p s.download_status, ne) at at))
  ];
  to_forget =
      λ event k at. rw e (set-has m k p s.download_status (h.to_forget event k (same event k at)));
}

-- A step that leaves the statuses.
pub keep-IsSound :
    (s t : DownloadCoordinator)
    → t.download_status ≡ s.download_status
    → Forward s t
    → NoNewForget s t
    → IsSound s
    → IsSound t
keep-IsSound s t e forward same h = record {
  own = λ k q at. h.own k q (rw e at at);
  known = λ k q at. forward q (h.known k q (rw e at at));
  to_forget = λ event k at. rw e (h.to_forget event k (same event k at));
}

-- The processor had nothing to send.
abbrev IsSilent : Processor → Type 0
IsSilent q = (p : DownloadProgress) → ¬ Says p q

pub silent :
    (s t : DownloadCoordinator) (q : Processor)
    → s.processor ≡ q
    → IsSilent q
    → t.sent ≡ s.sent
    → t.cut ≡ s.cut
    → t.sends ≡ s.sends
    → t.emitter ≡ s.emitter
    → Forward s t
silent s t q at quiet a b c d p (on_channel i) = on_channel (rw a i)
silent s t q at quiet a b c d p (from_processor says) = absurd (quiet p (rw at at says))
silent s t q at quiet a b c d p (from_emitter tells) = from_emitter (rw d tells)
silent s t q at quiet a b c d p (from_task x i e) = from_task x (rw c i) e
silent s t q at quiet a b c d p (was_cut_off i) = was_cut_off (rw b i)

pub quiet_emitter :
    (s t : DownloadCoordinator)
    → ((p : DownloadProgress) → ¬ Tells p s.emitter)
    → t.sent ≡ s.sent
    → t.cut ≡ s.cut
    → t.sends ≡ s.sends
    → t.processor ≡ s.processor
    → Forward s t
quiet_emitter s t quiet a b c d p (on_channel i) = on_channel (rw a i)
quiet_emitter s t quiet a b c d p (from_processor says) = from_processor (rw d says)
quiet_emitter s t quiet a b c d p (from_emitter tells) = absurd (quiet p tells)
quiet_emitter s t quiet a b c d p (from_task x i e) = from_task x (rw c i) e
quiet_emitter s t quiet a b c d p (was_cut_off i) = was_cut_off (rw b i)

-- The tasks' sendings become others, and events are added to the channel or to those cut off.
pub tasks_move :
    (s t : DownloadCoordinator)
    → ((p : DownloadProgress) → In p s.sent → In p t.sent)
    → ((p : DownloadProgress) → In p s.cut → In p t.cut)
    → ((x : Sending) → In x s.sends → IsKnown t x.event)
    → t.processor ≡ s.processor
    → t.emitter ≡ s.emitter
    → Forward s t
tasks_move s t a b c d e p (on_channel i) = on_channel (a p i)
tasks_move s t a b c d e p (from_processor says) = from_processor (rw d says)
tasks_move s t a b c d e p (from_emitter tells) = from_emitter (rw e tells)
tasks_move s t a b c d e p (from_task x i same) = subst (λ q. IsKnown t q) same (c x i)
tasks_move s t a b c d e p (was_cut_off i) = was_cut_off (b p i)

pub report-IsSound :
    (s : DownloadCoordinator) (q r : Processor) (m : ModelId) (p : DownloadProgress)
    → s.processor ≡ q
    → IsSilent q
    → model_of p.shard_metadata ≡ m
    → Says p r
    → ((event : DownloadProgress) (k : ModelId) → r ≢ forgetting event k)
    → IsSound s
    → IsSound (report m p r s)
unfolding report set_status
report-IsSound s q r m p at quiet key says other h =
    set-IsSound s (report m p r s) m p refl key (from_processor says)
      (silent s (report m p r s) q at quiet refl refl refl refl)
      (λ event k e. absurd (other event k e)) h

pub report_from-IsSound :
    (shard : ShardMetadata) (state : DownloadState) (after : After) (s : DownloadCoordinator)
    → IsSound s
    → IsSound (report_from shard state after s)
unfolding report_from set_status
report_from-IsSound shard state after s h =
    let p = progress_of s shard state in
    let x : Sending = record { event = p; after = after } in
    set-IsSound s (report_from shard state after s) (model_of shard) p refl refl
      (from_task x ((In-append s.sends (x ∷ [])).1 (inr (here refl))) refl)
      (tasks_move s (report_from shard state after s) (λ q i. i) (λ q i. i)
        (λ y i. from_task y ((In-append s.sends (x ∷ [])).1 (inl i)) refl) refl refl)
      (λ event k e. e) h

pub report_existing-IsSound :
    (shard : ShardMetadata) (state : DownloadState) (s : DownloadCoordinator)
    → ((p : DownloadProgress) → ¬ Tells p s.emitter)
    → IsSound s
    → IsSound (report_existing shard state s)
unfolding report_existing set_status
report_existing-IsSound shard state s quiet h =
    set-IsSound s (report_existing shard state s) (model_of shard) (progress_of s shard state) refl
      refl (from_emitter refl)
      (quiet_emitter s (report_existing shard state s) quiet refl refl refl refl) (λ event k e. e) h

pub if-IsSound :
    (b : Bool) (s t : DownloadCoordinator) → IsSound s → IsSound t → IsSound (if b then s else t)
if-IsSound true s t h k = h
if-IsSound false s t h k = k

-- The processor waits for something else than to send.
pub wait-IsSound :
    (s : DownloadCoordinator) (q r : Processor)
    → s.processor ≡ q
    → IsSilent q
    → ((event : DownloadProgress) (k : ModelId) → r ≢ forgetting event k)
    → IsSound s
    → IsSound (record s { processor = r })
wait-IsSound s q r at quiet other h =
    keep-IsSound s (record s { processor = r }) refl
      (silent s (record s { processor = r }) q at quiet refl refl refl refl)
      (λ event k e. absurd (other event k e)) h

-- The tasks, the active downloads and the times are not statuses.
pub retasked :
    (s : DownloadCoordinator) (tasks : List DownloadTask)
    → IsSound s
    → IsSound (record s { tasks = tasks })
retasked s tasks h =
    keep-IsSound s (record s { tasks = tasks }) refl
      (tasks_move s (record s { tasks = tasks }) (λ q i. i) (λ q i. i) (λ x i. from_task x i refl)
        refl refl)
      (λ event k e. e) h
