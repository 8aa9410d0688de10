-- ===== src/Downloads/Sent.antt =====
-- What the sending of an event leaves known, and the end of a deletion.
use awesome_distributed_ai_i.Base.{
  ℕ, ◌≡◌, ◌≢◌, refl, ap, ◌⊎◌, inl, inr, true, none, some, List, [], ◌∷◌, ◌++◌, ◌==◌, Bool-cases,
  Option-cases, In, here, In-append, In-cons, Result, ok, raise,
}
use awesome_distributed_ai_i.Base.Dict.{Dict, get, has, remove, get-remove, get-remove_self}
use awesome_distributed_ai_i.Types.{ModelId, DownloadProgress}
use awesome_distributed_ai_i.Downloads.{
  Processor, ready, forgetting, telling, After, download_gone, time_gone, time_set, go_on, Sending,
  DownloadCoordinator, processor_sends, forget_status, task_sends, task_cut, emitter_sends,
}
use awesome_distributed_ai_i.Downloads.Known.{
  Says, on_channel, from_processor, from_emitter, from_task, was_cut_off, IsSound, Forward,
  keep-IsSound, tasks_move,
}

-- An event of the processor is put on the channel.
processor_sends-Forward :
    (event : DownloadProgress) (q r : Processor) (s : DownloadCoordinator)
    → s.processor ≡ q
    → ((p : DownloadProgress) → Says p q → event ≡ p)
    → Forward s (processor_sends event r s)
unfolding processor_sends
processor_sends-Forward event q r s at one p (on_channel i) =
    on_channel ((In-append s.sent (event ∷ [])).1 (inl i))
processor_sends-Forward event q r s at one p (from_processor says) =
    on_channel ((In-append s.sent (event ∷ [])).1 (inr (here (one p (rw at at says)))))
processor_sends-Forward event q r s at one p (from_emitter tells) = from_emitter tells
processor_sends-Forward event q r s at one p (from_task x i e) = from_task x i e
processor_sends-Forward event q r s at one p (was_cut_off i) = was_cut_off i

pub processor_sends-IsSound :
    (event : DownloadProgress) (q r : Processor) (s : DownloadCoordinator)
    → s.processor ≡ q
    → ((p : DownloadProgress) → Says p q → event ≡ p)
    → ((event : DownloadProgress) (k : ModelId) → r ≢ forgetting event k)
    → IsSound s
    → IsSound (processor_sends event r s)
unfolding processor_sends
processor_sends-IsSound event q r s at one other h =
    keep-IsSound s (processor_sends event r s) refl (processor_sends-Forward event q r s at one)
      (λ e k f. absurd (other e k f)) h

pub emitter_sends-IsSound :
    (event : DownloadProgress) (s : DownloadCoordinator)
    → s.emitter ≡ telling event
    → IsSound s
    → IsSound (emitter_sends event s)
unfolding emitter_sends
emitter_sends-IsSound event s at h =
    keep-IsSound s (emitter_sends event s) refl forward (λ e k f. f) h
  where
    forward : Forward s (emitter_sends event s)
    forward p (on_channel i) = on_channel ((In-append s.sent (event ∷ [])).1 (inl i))
    forward p (from_processor says) = from_processor says
    forward p (from_emitter tells) =
        on_channel ((In-append s.sent (event ∷ [])).1 (inr (here (rw at at tells))))
    forward p (from_task x i e) = from_task x i e
    forward p (was_cut_off i) = was_cut_off i

-- One of the sendings is taken out.
others_stay :
    (before others : List Sending) (x y : Sending)
    → In y (before ++ x ∷ others)
    → (x ≡ y) ⊎ In y (before ++ others)
others_stay before others x y i = elim ((In-append before (x ∷ others)).0 i) [
  | inl early ↦ inr ((In-append before others).1 (inl early))
  | inr late ↦ elim (In-cons late) [
    | inl same ↦ inl same
    | inr later ↦ inr ((In-append before others).1 (inr later))
  ]
]

pub task_cut-IsSound :
    (before others : List Sending) (x : Sending) (s : DownloadCoordinator)
    → s.sends ≡ before ++ x ∷ others
    → IsSound s
    → IsSound (task_cut before x others s)
unfolding task_cut
task_cut-IsSound before others x s at h =
    let t = task_cut before x others s in
    let more : (p : DownloadProgress) → (In p s.cut ⊎ In p (x.event ∷ [])) → In p t.cut =
      λ p i. (In-append s.cut (x.event ∷ [])).1 i in
    keep-IsSound s t refl
      (tasks_move s t (λ p i. i) (λ p i. more p (inl i))
        (λ y i. elim (others_stay before others x y (rw at at i)) [
          | inl same ↦ was_cut_off (more y.event (inr (here (ap (λ (z : Sending). z.event) same))))
          | inr stays ↦ from_task y stays refl
        ])
        refl refl)
      (λ e k f. f) h

pub task_sends-IsSound :
    (later : ℕ) (before others : List Sending) (x : Sending) (s : DownloadCoordinator)
    → s.sends ≡ before ++ x ∷ others
    → IsSound s
    → IsSound (task_sends later before x others s)
unfolding task_sends
task_sends-IsSound later before others x s at h = went_on x.after
  where
    moved : DownloadCoordinator
    moved = record s { sends = before ++ others; sent = s.sent ++ x.event ∷ [] }

    more : (p : DownloadProgress) → (In p s.sent ⊎ In p (x.event ∷ [])) → In p moved.sent
    more p i = (In-append s.sent (x.event ∷ [])).1 i

    forward :
        (t : DownloadCoordinator)
        → t.sent ≡ moved.sent
        → t.sends ≡ moved.sends
        → t.cut ≡ s.cut
        → t.processor ≡ s.processor
        → t.emitter ≡ s.emitter
        → Forward s t
    forward t a b c d e =
        tasks_move s t (λ p i. rw a (more p (inl i))) (λ p i. rw c i)
          (λ y i. elim (others_stay before others x y (rw at at i)) [
            | inl same ↦
                on_channel (rw a (more y.event (inr (here (ap (λ (z : Sending). z.event) same)))))
            | inr stays ↦ from_task y (rw b stays) refl
          ])
          d e

    went_on : (after : After) → IsSound (go_on later after moved)
    went_on (download_gone m) =
        keep-IsSound s _ refl (forward _ refl refl refl refl refl) (λ e k f. f) h
    went_on (time_gone m) =
        keep-IsSound s _ refl (forward _ refl refl refl refl refl) (λ e k f. f) h
    went_on (time_set m) = keep-IsSound s _ refl (forward _ refl refl refl refl refl) (λ e k f. f) h

-- The end of a deletion.
forgets-IsSound :
    (event : DownloadProgress) (m : ModelId) (s : DownloadCoordinator)
    → s.processor ≡ forgetting event m
    → IsSound s
    → IsSound (record s {
      sent = s.sent ++ event ∷ [];
      processor = ready;
      download_status = remove m s.download_status;
    })
forgets-IsSound event m s at h = record {
  own = λ k p e. h.own k p (was k p e);
  known = λ k p e. forward p (h.known k p (was k p e));
  to_forget = λ e k f. cc;
}
  where
    was :
        (k : ModelId) (p : DownloadProgress)
        → get k (remove m s.download_status) ≡ some p
        → get k s.download_status ≡ some p
    was k p e = elim (Bool-cases (m == k)) [
      | inl same ↦ let nothing = rw (get-remove m k s.download_status, same) at e in cc
      | inr other ↦ rw (get-remove m k s.download_status, other) at e
    ]

    t : DownloadCoordinator
    t = record s {
      sent = s.sent ++ event ∷ [];
      processor = ready;
      download_status = remove m s.download_status;
    }

    forward : Forward s t
    forward p (on_channel i) = on_channel ((In-append s.sent (event ∷ [])).1 (inl i))
    forward p (from_processor says) = absurd (rw at at says)
    forward p (from_emitter tells) = from_emitter tells
    forward p (from_task x i e) = from_task x i e
    forward p (was_cut_off i) = was_cut_off i

-- The `del` of a deletion finds its key.
pub forget_status-returns :
    (event : DownloadProgress) (m : ModelId) (s : DownloadCoordinator)
    → s.processor ≡ forgetting event m
    → IsSound s
    → (s' : DownloadCoordinator) × (forget_status event m s ≡ ok s') × IsSound s'
unfolding forget_status processor_sends
forget_status-returns event m s at h = elim (Option-cases (get m s.download_status)) [
  | inl absent ↦
      let present : has m s.download_status ≡ true = h.to_forget event m at in
      let no_value = rw absent at present in cc
  | inr (p, present) ↦ (_, rw present refl, forgets-IsSound event m s at h)
]

pub forget_status-absent :
    (event : DownloadProgress) (m : ModelId) (s s' : DownloadCoordinator)
    → forget_status event m s ≡ ok s'
    → get m s'.download_status ≡ none
unfolding forget_status processor_sends
forget_status-absent event m s s' e = elim (Option-cases (get m s.download_status)) [
  | inl absent ↦ let raised = rw absent at e in cc
  | inr (p, present) ↦
      let made = rw present at e in
      let d = ap (λ r. statuses_of r) made in rw (← d) (get-remove_self m s.download_status)
]
  where
    statuses_of : Result DownloadCoordinator → Dict DownloadProgress
    statuses_of (ok t) = t.download_status
    statuses_of (raise x) = []
