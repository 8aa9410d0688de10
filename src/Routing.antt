-- ===== src/Routing.antt =====
-- src/exo/routing/event_router.py: how the events of a session come from the master to a node's own
-- tasks, and the node's events go out. Times are numbers of one unit.
pub mod Delivery
pub mod Tests
use awesome_distributed_ai_i.Base.{
  ℕ, ◌+◌, ◌*◌, ◌^◌, min, Bool, true, false, not, ◌&&◌, Option, none, some, List, [], ◌∷◌, ◌++◌, ltb,
  ◌==◌, if◌then◌else◌, Result, ok, ◌>>=◌,
}
use awesome_distributed_ai_i.Base.Dict.{Dict, get, set, remove}
use awesome_distributed_ai_i.Types.{NodeId}
use awesome_distributed_ai_i.Election.{SessionId, same_session}
use awesome_distributed_ai_i.Buffer
use awesome_distributed_ai_i.Buffer.{OrderedBuffer, ingest, drain_indexed}

-- An event as the routers see it: its identifier, and what it says.
pub record Routed (T : Type 0) : Type 0 where
  pub event_id : ℕ
  pub content : T

pub record GlobalEvent (T : Type 0) : Type 0 where
  pub origin_idx : ℕ
  pub origin : NodeId
  pub session : SessionId
  pub event : Routed T

pub record LocalEvent (T : Type 0) : Type 0 where
  pub origin_idx : ℕ
  pub origin : ℕ
  pub session : SessionId
  pub event : Routed T

-- The state of a router; `nack_waiting` says that the scope of the last request for missing
-- events is there and not cancelled. It is set when the request starts.
pub record EventRouter (T : Type 0) : Type 0 where
  pub session_id : SessionId
  pub buffer : OrderedBuffer (Routed T)
  pub out_for_delivery : Dict (ℕ × LocalEvent T)
  pub nack_waiting : Bool
  pub nack_attempts : ℕ

-- A round of `_run_ext_in`: the router, the events for the internal receivers, and the index from
-- which a request is started, if one is.
pub record Received (T : Type 0) : Type 0 where
  pub router : EventRouter T
  pub delivered : List (ℕ × Routed T)
  pub requested : Option ℕ

module _ {T : Type 0} where
  unfoldable pub new : SessionId → EventRouter T
  new session_id = record {
    session_id = session_id;
    buffer = Buffer.new;
    out_for_delivery = [];
    nack_waiting = false;
    nack_attempts = 0;
  }

  -- The end of the round, after the buffer was drained.
  abbrev pub after_drain : (drained : List (ℕ × Routed T)) → EventRouter T → Received T
  after_drain [] router =
      if router.nack_waiting
      then record { router = router; delivered = []; requested = none }
      else record {
        router = router;
        delivered = [];
        requested = some router.buffer.next_idx_to_release;
      }
  after_drain (e ∷ es) router = record {
    router = record router { nack_attempts = 0; nack_waiting = false };
    delivered = e ∷ es;
    requested = none;
  }

  -- The event is of the session and of its master.
  abbrev pub accepts : SessionId → GlobalEvent T → Bool
  accepts session_id event =
      same_session event.session session_id && (event.origin == session_id.master_node_id)

  -- `eq` is the `==` of the events.
  unfoldable pub receive_external :
      (eq : Routed T → Routed T → Bool) → GlobalEvent T → EventRouter T → Result (Received T)
  receive_external eq event router =
      if not (accepts router.session_id event)
      then ok (record { router = router; delivered = []; requested = none })
      else (do
        filled ← ingest eq event.origin_idx event.event router.buffer
        let (drained, buffer) = drain_indexed filled
        ok (
            after_drain drained (record router {
              buffer = buffer;
              out_for_delivery = remove event.event.event_id router.out_for_delivery;
            })))

  -- The rounds of `_run_ext_in` for events that arrive one after another: all that is delivered.
  unfoldable pub receive_all :
      (eq : Routed T → Routed T → Bool)
      → List (GlobalEvent T)
      → EventRouter T
      → Result (List (ℕ × Routed T) × EventRouter T)
  unfolding receive_external
  receive_all eq [] router = ok ([], router)
  receive_all eq (event ∷ events) router = do
    first ← receive_external eq event router
    (later, final) ← receive_all eq events first.router
    ok (first.delivered ++ later, final)

  -- A round of `_ingest`: the next event of a sender, with its index, goes out and awaits its return.
  unfoldable pub ingest_event :
      (system_id idx now : ℕ) → Routed T → EventRouter T → LocalEvent T × EventRouter T
  ingest_event system_id idx now event router =
      let f_ev : LocalEvent T = record {
        origin_idx = idx;
        origin = system_id;
        session = router.session_id;
        event = event;
      } in
      (
        f_ev,
        record router { out_for_delivery = set event.event_id (now, f_ev) router.out_for_delivery },
      )

  -- The loop of `_simple_retry` over a copy of the dictionary: what has waited longer than 5
  -- seconds is sent again.
  unfoldable pub retry :
      (now wait : ℕ)
      → Dict (ℕ × LocalEvent T)
      → Dict (ℕ × LocalEvent T)
      → List (LocalEvent T) × Dict (ℕ × LocalEvent T)
  retry now wait [] out = ([], out)
  retry now wait ((e_id, (time, event)) ∷ waiting) out =
      if ltb (time + wait) now
      then (let (sent, out') = retry now wait waiting (set e_id (now, event) out) in
          (event ∷ sent, out'))
      else retry now wait waiting out

  -- The delay of `_nack_request`, for the base and the cap, and the router while it waits.
  unfoldable pub nack_delay : (base cap : ℕ) → EventRouter T → ℕ × EventRouter T
  nack_delay base cap router = (
    min cap (base * 2 ^ router.nack_attempts),
    record router { nack_attempts = router.nack_attempts + 1; nack_waiting = true },
  )

  -- The `finally` of `_nack_request`, when the request was sent.
  unfoldable pub nack_done : EventRouter T → EventRouter T
  nack_done router = record router { nack_waiting = false }
