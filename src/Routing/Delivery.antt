-- ===== src/Routing/Delivery.antt =====
-- What a router delivers of the events that reach it.
use awesome_distributed_ai_i.Base.{
  ℕ, ◌<◌, ◌≡◌, refl, sym, ap, ◌∙◌, inl, inr, Bool, true, List, [], ◌∷◌, ◌++◌, map, if◌then◌else◌,
  In, here, there, Bool-cases, Result-cases, ok,
}
use awesome_distributed_ai_i.Base.Dict.{remove}
use awesome_distributed_ai_i.Election.{SessionId}
use awesome_distributed_ai_i.Buffer.{OrderedBuffer, ingest, drain_indexed, receive}
use awesome_distributed_ai_i.Buffer.Release.{numbered}
use awesome_distributed_ai_i.Buffer.Order.{receive_in_order}
use awesome_distributed_ai_i.Routing.{
  Routed, GlobalEvent, EventRouter, new, accepts, after_drain, receive_external, receive_all,
}

module _ {T : Type 0} where
  -- What reaches the buffer: the accepted events.
  abbrev arrivals : SessionId → List (GlobalEvent T) → List (ℕ × Routed T)
  arrivals session_id [] = []
  arrivals session_id (e ∷ es) =
      let rest = arrivals session_id es in
      if accepts session_id e then (e.origin_idx, e.event) ∷ rest else rest

  abbrev pub accepted : SessionId → List (GlobalEvent T) → List ℕ
  accepted session_id [] = []
  accepted session_id (e ∷ es) =
      let rest = accepted session_id es in
      if accepts session_id e then e.origin_idx ∷ rest else rest

  after_drain-delivered :
      (drained : List (ℕ × Routed T)) (router : EventRouter T)
      → ((after_drain drained router).delivered ≡ drained)
        × ((after_drain drained router).router.buffer ≡ router.buffer)
        × ((after_drain drained router).router.session_id ≡ router.session_id)
  after_drain-delivered [] router = elim (Bool-cases router.nack_waiting) [
    | inl waiting ↦ rw (waiting, after_drain) (refl, refl, refl)
    | inr quiet ↦ rw (quiet, after_drain) (refl, refl, refl)
  ]
  after_drain-delivered (e ∷ es) router = (refl, refl, refl)

  receive_all-receive :
      (eq : Routed T → Routed T → Bool) (events : List (GlobalEvent T)) (router : EventRouter T)
      (out : List (ℕ × Routed T)) (b : OrderedBuffer (Routed T))
      → receive eq (arrivals router.session_id events) router.buffer ≡ ok (out, b)
      → (final : EventRouter T) × (receive_all eq events router ≡ ok (out, final))
        × (final.buffer ≡ b)
  unfolding receive_all receive receive_external
  receive_all-receive eq [] router out b h = (router, cc, cc)
  receive_all-receive eq (e ∷ es) router out b h = elim (Bool-cases (accepts router.session_id e)) [
    | inr foreign ↦
        let (final, run, same) = receive_all-receive eq es router out b (rw foreign at h) in
        (final, rw (foreign, run) refl, same)
    | inl own ↦
        let h1 = rw own at h in
        elim (Result-cases (ingest eq e.origin_idx e.event router.buffer)) [
          | inr (x, bad) ↦ let raised = rw bad at h1 in cc
          | inl (filled, good) ↦
              let h2 = rw good at h1 in
              let drained = drain_indexed filled in
              let router1 = record router {
                buffer = drained.1;
                out_for_delivery = remove e.event.event_id router.out_for_delivery;
              } in
              let (delivered, buffer, session) = after_drain-delivered drained.0 router1 in
              let next = (after_drain drained.0 router1).router in
              let state : receive eq (arrivals router.session_id es) drained.1
                  ≡ receive eq (arrivals next.session_id es) next.buffer =
                cc (buffer, session) in
              elim (Result-cases (receive eq (arrivals router.session_id es) drained.1)) [
                | inr (x, bad) ↦ let raised = rw bad at h2 in cc
                | inl (rest, fine) ↦
                    let h3 = rw fine at h2 in
                    let (final, run, same) =
                      receive_all-receive eq es next rest.0 rest.1 (sym state ∙ fine) in
                    let pair : (drained.0 ++ rest.0, rest.1) ≡ (out, b) = cc in
                    (
                      final,
                      rw (own, good, run, delivered)
                          (ap
                            (λ (r : List (ℕ × Routed T) × OrderedBuffer (Routed T)).
                              ok (r.0, final))
                            pair),
                      same ∙ ap (λ (r : List (ℕ × Routed T) × OrderedBuffer (Routed T)). r.1) pair,
                    )
              ]
        ]
  ]

  arrivals-numbered :
      (f : ℕ → Routed T) (session_id : SessionId) (events : List (GlobalEvent T))
      → ((e : GlobalEvent T) → In e events → accepts session_id e ≡ true → e.event ≡ f e.origin_idx)
      → arrivals session_id events ≡ map (λ i. (i, f i)) (accepted session_id events)
  arrivals-numbered f session_id [] h = refl
  arrivals-numbered f session_id (e ∷ es) h = elim (Bool-cases (accepts session_id e)) [
    | inl own ↦
        let first = h e (here refl) own in
        let rest = arrivals-numbered f session_id es (λ x m. h x (there m)) in
        rw (own, first, rest) refl
    | inr foreign ↦ rw foreign (arrivals-numbered f session_id es (λ x m. h x (there m)))
  ]

  -- Whatever the order and the number of times in which the master's events reach a new router, and whatever of
  -- other sessions and senders comes between them, nothing is raised, and the router delivers exactly the
  -- first events of the master, each once, in order and with its index, up to the first index that
  -- has not arrived. The master gives each index to one event.
  pub receive_all-in_order :
      (f : ℕ → Routed T) (eq : Routed T → Routed T → Bool) (session_id : SessionId)
      (events : List (GlobalEvent T))
      → ((i : ℕ) → eq (f i) (f i) ≡ true)
      → ((e : GlobalEvent T) → In e events → accepts session_id e ≡ true → e.event ≡ f e.origin_idx)
      → (n : ℕ) × (router : EventRouter T) × (receive_all eq events (new session_id)
          ≡ ok (numbered f 0 n, router))
        × ((i : ℕ) → i < n → In i (accepted session_id events))
        × ¬ In n (accepted session_id events)
  unfolding new
  receive_all-in_order f eq session_id events same of_master =
      let (n, b, received, before, stop) =
        receive_in_order f eq (accepted session_id events) same in
      let (final, run, at) =
        receive_all-receive eq events (new session_id) (numbered f 0 n) b
          (rw (arrivals-numbered f session_id events of_master) received) in
      (n, final, run, before, stop)
