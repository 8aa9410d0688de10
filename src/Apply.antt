-- ===== src/Apply.antt =====
-- src/exo/shared/apply.py: how an event changes the state.
pub mod Data
pub mod Handlers
pub mod Gathered
pub mod Replay
pub mod Valid
pub mod Links
pub mod Tests
use awesome_distributed_ai_i.Base.{ℕ, List, [], ◌∷◌, ◌==◌, Result, ok, ◌>>=◌, ◌>>◌, assert}
use awesome_distributed_ai_i.Base.Int.{ℤ, pos, eqb_ℤ, sub_ℕ}
use awesome_distributed_ai_i.Topology.Graph.{PyDiGraph}
use awesome_distributed_ai_i.Apply.Data.{
  State, Event, IndexedEvent, test_event, task_created, task_status_updated, task_failed,
  task_deleted, task_acknowledged, instance_created, instance_deleted, runner_status_updated,
  node_timed_out, node_gathered_info, node_download_progress, chunk_generated, input_chunk_received,
  topology_edge_created, topology_edge_deleted, traces_collected, traces_merged,
  custom_model_card_added, custom_model_card_deleted, instance_link_created, instance_link_deleted,
}
use awesome_distributed_ai_i.Apply.Handlers.{
  apply_node_download_progress, apply_task_created, apply_task_deleted, apply_task_status_updated,
  apply_task_failed, apply_instance_created, apply_instance_deleted, apply_instance_link_created,
  apply_instance_link_deleted, apply_runner_status_updated, apply_node_timed_out,
  apply_topology_edge_created, apply_topology_edge_deleted, apply_custom_model_card_added,
  apply_custom_model_card_deleted,
}
use awesome_distributed_ai_i.Apply.Gathered.{apply_node_gathered_info}

module _ {D : PyDiGraph} where
  unfoldable pub event_apply : Event → State D → Result (State D)
  event_apply test_event state = ok state
  event_apply (chunk_generated command_id) state = ok state
  event_apply (task_acknowledged task_id) state = ok state
  event_apply (input_chunk_received command_id) state = ok state
  event_apply (traces_collected task_id rank traces) state = ok state
  event_apply (traces_merged task_id traces) state = ok state
  event_apply (custom_model_card_added card) state = ok (apply_custom_model_card_added card state)
  event_apply (custom_model_card_deleted model_id) state =
      ok (apply_custom_model_card_deleted model_id state)
  event_apply (instance_created instance) state = ok (apply_instance_created instance state)
  event_apply (instance_deleted instance_id) state = ok (apply_instance_deleted instance_id state)
  event_apply (node_timed_out node_id) state = apply_node_timed_out node_id state
  event_apply (node_download_progress dp) state = ok (apply_node_download_progress dp state)
  event_apply (node_gathered_info node_id when info) state =
      apply_node_gathered_info node_id when info state
  event_apply (runner_status_updated runner_id status) state =
      ok (apply_runner_status_updated runner_id status state)
  event_apply (task_created task_id task) state = ok (apply_task_created task_id task state)
  event_apply (task_deleted task_id) state = ok (apply_task_deleted task_id state)
  event_apply (task_failed task_id error_type error_message) state =
      ok (apply_task_failed task_id error_type error_message state)
  event_apply (task_status_updated task_id status) state =
      ok (apply_task_status_updated task_id status state)
  event_apply (topology_edge_created conn) state = apply_topology_edge_created conn state
  event_apply (topology_edge_deleted conn) state = apply_topology_edge_deleted conn state
  event_apply (instance_link_created link) state = ok (apply_instance_link_created link state)
  event_apply (instance_link_deleted link_id) state = ok (apply_instance_link_deleted link_id state)

  -- Events applied one after the other, their indices aside.
  unfoldable pub event_apply_all : List Event → State D → Result (State D)
  unfolding event_apply
  event_apply_all [] state = ok state
  event_apply_all (event ∷ events) state = do
    state' ← event_apply event state
    event_apply_all events state'

  -- The assertion is `last_event_applied_idx == event.idx - 1`, on integers.
  unfoldable pub apply : State D → IndexedEvent → Result (State D)
  apply state event = do
    assert (eqb_ℤ state.last_event_applied_idx (sub_ℕ event.idx 1))
    new_state ← event_apply event.event state
    ok (record new_state { last_event_applied_idx = pos event.idx })

  -- The events applied one after the other, as the master and the workers do with what they
  -- receive.
  unfoldable pub replay : State D → List IndexedEvent → Result (State D)
  unfolding apply
  replay state [] = ok state
  replay state (event ∷ events) = do state' ← apply state event; replay state' events
