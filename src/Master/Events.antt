-- ===== src/Master/Events.antt =====
-- The event processor of the master, the traces that it collects, and the events of its plan.
use awesome_distributed_ai_i.Base.{
  ℕ, ◌+◌, Bool, false, not, Option, none, some, List, [], ◌∷◌, ◌++◌, ltb, if◌then◌else◌, all, any,
  elem, Result, ok, ◌>>=◌,
}
use awesome_distributed_ai_i.Base.Dict.{Dict, get, set, remove, has, keys, values}
use awesome_distributed_ai_i.Types.{NodeId, Instance, TaskId}
use awesome_distributed_ai_i.Election.{same_session}
use awesome_distributed_ai_i.Buffer.Sources.{ingest_source, drain_sources}
use awesome_distributed_ai_i.Topology.Graph.{PyDiGraph}
use awesome_distributed_ai_i.Apply.{apply}
use awesome_distributed_ai_i.Apply.Data.{State, Event}
use awesome_distributed_ai_i.EventLog.{Codec, append}
use awesome_distributed_ai_i.Master.{Master, LocalForwarderEvent, GlobalForwarderEvent}
use awesome_distributed_ai_i.Master.Commands.{send_indexed_event}

-- The master after an event, what it sends to all nodes, and what it sends to itself.
pub record Processed (D : PyDiGraph) : Type 0 where
  pub master : Master D
  pub sent : List GlobalForwarderEvent
  pub own_events : List Event

-- The time at which a node's information arrived is the master's; the time stamp that every
-- event gets is of no further use.
abbrev pub stamp : (now : ℕ) → Event → Event
stamp now (Event.node_gathered_info node_id when info) = Event.node_gathered_info node_id now info
stamp now event = event

pub record Collected : Type 0 where
  pub task_id : TaskId
  pub rank : ℕ
  pub traces : List ℕ

-- `isinstance(event, TracesCollected)`
abbrev pub collected : Event → Option Collected
collected (Event.traces_collected task_id rank traces) =
    some (record { task_id = task_id; rank = rank; traces = traces })
collected event = none

abbrev pub or_none_yet : Option (Dict (List ℕ)) → Dict (List ℕ)
or_none_yet none = []
or_none_yet (some by_rank) = by_rank

abbrev pub all_arrived : Option (List ℕ) → Dict (List ℕ) → Bool
all_arrived none by_rank = false
all_arrived (some ranks) by_rank = all (λ rank. has rank by_rank) ranks

abbrev concat : List (List ℕ) → List ℕ
concat [] = []
concat (traces ∷ rest) = traces ++ concat rest

-- The instances with a node that the topology does not have.
unfoldable pub broken_instances : (connected_node_ids : List NodeId) → Dict Instance → List Event
broken_instances connected [] = []
broken_instances connected ((instance_id, instance) ∷ instances) =
    let rest = broken_instances connected instances in
    if any (λ node_id. not (elem node_id connected))
      (keys instance.shard_assignments.node_to_runner)
    then Event.instance_deleted instance_id ∷ rest
    else rest

-- The nodes that were last seen more than 30 seconds ago.
unfoldable pub timed_out : (now : ℕ) → Dict ℕ → List Event
timed_out now [] = []
timed_out now ((node_id, time) ∷ last_seen) =
    let rest = timed_out now last_seen in
    if ltb (time + 30000000) now then Event.node_timed_out node_id ∷ rest else rest

module _ {D : PyDiGraph} where
  -- `_handle_traces_collected`, with `_merge_and_save_traces` at its end.
  unfoldable pub handle_traces_collected :
      TaskId → (rank : ℕ) → (traces : List ℕ) → Master D → Processed D
  handle_traces_collected task_id rank traces master =
      let by_rank = set rank traces (or_none_yet (get task_id master.pending_traces)) in
      if all_arrived (get task_id master.expected_ranks) by_rank
      then record {
        master = record master {
          pending_traces = remove task_id master.pending_traces;
          expected_ranks = remove task_id master.expected_ranks;
        };
        sent = [];
        own_events = Event.traces_merged task_id (concat (values by_rank)) ∷ [];
      }
      else record {
        master = record master { pending_traces = set task_id by_rank master.pending_traces };
        sent = [];
        own_events = [];
      }

  module _ (C : Codec Event) (eq : Event → Event → Bool) where
    -- An event gets the next index, is applied, logged and sent.
    unfoldable pub index_event : Event → Master D → Result (Processed D)
    index_event event master = do
      let idx = master.event_log.count
      state ← apply master.state (record { idx = idx; event = event })
      event_log ← append C event master.event_log
      ok (record {
        master = record master { state = state; event_log = event_log };
        sent = send_indexed_event master idx event ∷ [];
        own_events = [];
      })

    abbrev pub process_as : Option Collected → (now : ℕ) → Event → Master D → Result (Processed D)
    process_as none now event master = index_event (stamp now event) master
    process_as (some c) now event master =
        ok (handle_traces_collected c.task_id c.rank c.traces master)

    -- The body of the loop over the drained events.
    abbrev pub process_one : (now : ℕ) → Event → Master D → Result (Processed D)
    process_one now event master = process_as (collected event) now event master

    unfoldable pub process_all : (now : ℕ) → List Event → Master D → Result (Processed D)
    unfolding index_event
    process_all now [] master = ok (record { master = master; sent = []; own_events = [] })
    process_all now (event ∷ events) master = do
      first ← process_one now event master
      rest ← process_all now events first.master
      ok (record {
        master = rest.master;
        sent = first.sent ++ rest.sent;
        own_events = first.own_events ++ rest.own_events;
      })

    -- A round of `_event_processor`; `eq` is the `==` of the events.
    unfoldable pub process_event : (now : ℕ) → LocalForwarderEvent → Master D → Result (Processed D)
    unfolding process_all
    process_event now local_event master =
        if not (same_session local_event.session master.session_id)
        then ok (record { master = master; sent = []; own_events = [] })
        else (do
          filled ←
              ingest_source eq local_event.origin_idx local_event.event local_event.origin
                master.multi_buffer
          let drained = drain_sources filled
          process_all now drained.0 (record master { multi_buffer = drained.1 }))

  -- The events of a round of `_plan`, from the state at its first loop and the state at its second;
  -- the state changes only when they come back.
  unfoldable pub plan_events : (now : ℕ) → (first second : State D) → List Event
  unfolding broken_instances timed_out
  plan_events now first second =
      broken_instances (D.nodes first.topology.graph) first.instances
      ++ timed_out now second.last_seen
