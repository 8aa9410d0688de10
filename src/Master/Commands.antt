-- ===== src/Master/Commands.antt =====
-- The command processor of the master.
use awesome_distributed_ai_i.Base.{
  ℕ, ◌+◌, min, Bool, true, Option, none, some, List, [], ◌∷◌, map, Result, ok, raise, ◌>>=◌,
}
use awesome_distributed_ai_i.Base.Dict.{Dict, get, set, remove, values}
use awesome_distributed_ai_i.Base.Int.{ℤ, pos, negsuc}
use awesome_distributed_ai_i.Types.{
  ModelId, ModelCard, ShardMetadata, InstanceId, Instance, InstanceLinkId, TaskId, TaskStatus,
  TaskKind, TaskError, CommandId, TextGenerationTaskParams, ImageGenerationTaskParams,
  ImageEditsTaskParams,
}
use awesome_distributed_ai_i.Topology.Graph.{PyDiGraph}
use awesome_distributed_ai_i.Apply.Data.{Event}
use awesome_distributed_ai_i.EventLog.{Codec, read_range}
use awesome_distributed_ai_i.Placement.Floats.{Floats}
use awesome_distributed_ai_i.Placement.Search.{PlaceInstance, Settings, search_placement_cycles}
use awesome_distributed_ai_i.Placement.Placing
use awesome_distributed_ai_i.Placement.Placing.{Drawn}
use awesome_distributed_ai_i.Placement.Transition
use awesome_distributed_ai_i.Placement.Transition.{
  CancelDownload, add_instance_to_placements, get_transition_events, cancel_unnecessary_downloads,
}
use awesome_distributed_ai_i.Master.{Master, GlobalForwarderEvent}
use awesome_distributed_ai_i.Master.Prefill.{
  add_all, prefill_only, instance_task_counts, least_busy, prefill_endpoint_for,
}

-- The union `Command` of types/commands.py; the identifier of a command stands where it is read.
pub data Command : Type 0 where
  test_command : Command
  request_event_log : (since_idx : ℤ) → Command
  text_generation : CommandId → TextGenerationTaskParams → Command
  image_generation : CommandId → ImageGenerationTaskParams → Command
  image_edits : CommandId → ImageEditsTaskParams → Command
  place_instance : PlaceInstance → Command
  create_instance : Instance → Command
  delete_instance : InstanceId → Command
  task_cancelled : (cancelled_command_id : CommandId) → Command
  task_finished : (finished_command_id : CommandId) → Command
  send_input_chunk : CommandId → Command
  add_custom_model_card : ModelCard → Command
  delete_custom_model_card : ModelId → Command
  set_instance_link :
      InstanceLinkId → (prefill_instances decode_instances : List InstanceId) → Command
  delete_instance_link : InstanceLinkId → Command

-- What is drawn afresh for a command, what the environment sets, and the order of a set.
pub record Runtime : Type 0 where
  pub drawn : Drawn
  pub task_id : TaskId
  pub settings : Settings
  pub tracing_enabled : Bool
  pub set_order : List InstanceId → List InstanceId

-- The master after a command, the events it generates, the downloads it cancels, and
-- the events of the log that it sends again.
pub record Outcome (D : PyDiGraph) : Type 0 where
  pub master : Master D
  pub events : List Event
  pub cancelled_downloads : List CancelDownload
  pub sent : List GlobalForwarderEvent

abbrev pub no_error : TaskError
no_error = record { error_type = none; error_message = none }

abbrev device_ranks : Option Instance → Option (List ℕ)
device_ranks none = none
device_ranks (some instance) = some (
    add_all
      (map (λ (s : ShardMetadata). s.device_rank)
        (values instance.shard_assignments.runner_to_shard))
      [])

abbrev expect : (tracing_enabled : Bool) → TaskId → Option (List ℕ) → Dict (List ℕ) → Dict (List ℕ)
expect true task_id (some ranks) expected_ranks = set task_id ranks expected_ranks
expect _ task_id _ expected_ranks = expected_ranks

abbrev cancel_event : Option TaskId → List Event
cancel_event none = []
cancel_event (some task_id) = Event.task_status_updated task_id TaskStatus.cancelled ∷ []

abbrev delete_event : Option TaskId → List Event
delete_event none = []
delete_event (some task_id) = Event.task_deleted task_id ∷ []

module _ {D : PyDiGraph} where
  abbrev pub quiet : Master D → List Event → Outcome D
  quiet master events = record {
    master = master;
    events = events;
    cancelled_downloads = [];
    sent = [];
  }

  -- `_send_indexed_event`
  abbrev pub send_indexed_event : Master D → (idx : ℕ) → Event → GlobalForwarderEvent
  send_indexed_event master idx event = record {
    origin_idx = idx;
    origin = master.node_id;
    session = master.session_id;
    event = event;
  }

  -- `enumerate(events, start=idx)`, each sent.
  unfoldable pub send_all : Master D → (idx : ℕ) → List Event → List GlobalForwarderEvent
  send_all master idx [] = []
  send_all master idx (event ∷ events) =
      send_indexed_event master idx event ∷ send_all master (idx + 1) events

  -- The new pending task, and where the master finds it again.
  abbrev pub with_task : TaskId → CommandId → InstanceId → TaskKind → Master D → Outcome D
  with_task task_id command_id instance_id kind master =
      quiet
        (record master {
          command_task_mapping = set command_id task_id master.command_task_mapping;
        })
        (Event.task_created task_id (record {
          task_id = task_id;
          task_status = TaskStatus.pending;
          instance_id = instance_id;
          kind = kind;
        })
          ∷ [])

  abbrev counts_for : Master D → ModelId → (excluded : List InstanceId) → Dict ℕ
  counts_for master model excluded =
      instance_task_counts model excluded (values master.state.tasks)
        (values master.state.instances) []

  -- An image command: the least busy instance of the model, with the ranks that trace it.
  unfoldable pub image_task :
      Runtime → CommandId → ModelId → TaskKind → Master D → Result (Outcome D)
  image_task runtime command_id model kind master = do
    instance_id ← least_busy (counts_for master model [])
    let ranks = device_ranks (get instance_id master.state.instances)
    ok (
        with_task runtime.task_id command_id instance_id kind (record master {
          expected_ranks =
              expect runtime.tracing_enabled runtime.task_id ranks master.expected_ranks;
        }))

  unfoldable pub text_task :
      Runtime → CommandId → TextGenerationTaskParams → Master D → Result (Outcome D)
  text_task runtime command_id params master = do
    instance_id ←
        least_busy
          (counts_for master params.model (prefill_only (values master.state.instance_links)))
    let endpoint = prefill_endpoint_for master.state runtime.set_order instance_id
    ok (
        with_task runtime.task_id command_id instance_id
          (TaskKind.text_generation command_id (record params { prefill_endpoint = endpoint })
            no_error)
          master)

  abbrev transition : Master D → Dict Instance → List Event
  transition master placement =
      get_transition_events master.state.instances placement master.state.tasks

  module _ (F : Floats) (C : Codec Event) where
    -- At most 1000 events of the log, from the index on.
    unfoldable pub resend : Master D → (since_idx : ℤ) → Result (Outcome D)
    unfolding read_range send_all
    resend master (negsuc n) = ok (quiet master [])
    resend master (pos since_idx) = do
      let end = min (since_idx + 1000) master.event_log.count
      (events, event_log) ← read_range C (pos since_idx) (pos end) master.event_log
      ok (record {
        master = record master { event_log = event_log };
        events = [];
        cancelled_downloads = [];
        sent = send_all master since_idx events;
      })

    -- The `match` on the command.
    unfoldable pub execute : Runtime → Command → Master D → Result (Outcome D)
    unfolding resend text_task image_task
    execute runtime Command.test_command master = ok (quiet master [])
    execute runtime (Command.request_event_log since_idx) master = resend master since_idx
    execute runtime (Command.text_generation command_id params) master =
        text_task runtime command_id params master
    execute runtime (Command.image_generation command_id params) master =
        image_task runtime command_id params.model
          (TaskKind.image_generation command_id params no_error) master
    execute runtime (Command.image_edits command_id params) master =
        image_task runtime command_id params.model (TaskKind.image_edits command_id params no_error)
          master
    execute runtime (Command.place_instance command) master = do
      let state = master.state
      found ← search_placement_cycles D runtime.settings state.topology
      placement ←
          Placing.place_instance D F runtime.settings runtime.drawn command state.topology
            state.instances state.node_memory state.node_network state.node_backends []
            state.downloads state.node_rdma_ctl found
      ok (quiet master (transition master placement))
    execute runtime (Command.create_instance instance) master =
        let placement = add_instance_to_placements instance master.state.instances in
        ok (quiet master (transition master placement))
    execute runtime (Command.delete_instance instance_id) master = do
      placement ← Transition.delete_instance instance_id master.state.instances
      cancelled ← cancel_unnecessary_downloads placement master.state.downloads
      ok (record (quiet master (transition master placement)) { cancelled_downloads = cancelled })
    execute runtime (Command.task_cancelled command_id) master =
        ok (quiet master (cancel_event (get command_id master.command_task_mapping)))
    execute runtime (Command.task_finished command_id) master = ok (
        quiet
          (record master { command_task_mapping = remove command_id master.command_task_mapping })
          (delete_event (get command_id master.command_task_mapping)))
    execute runtime (Command.send_input_chunk command_id) master =
        ok (quiet master (Event.input_chunk_received command_id ∷ []))
    execute runtime (Command.add_custom_model_card card) master =
        ok (quiet master (Event.custom_model_card_added card ∷ []))
    execute runtime (Command.delete_custom_model_card model_id) master =
        ok (quiet master (Event.custom_model_card_deleted model_id ∷ []))
    execute runtime (Command.set_instance_link link_id prefill decode) master = ok (
        quiet master (
          Event.instance_link_created (record {
            link_id = link_id;
            prefill_instances = add_all prefill [];
            decode_instances = add_all decode [];
          })
          ∷ []))
    execute runtime (Command.delete_instance_link link_id) master =
        ok (quiet master (Event.instance_link_deleted link_id ∷ []))

    -- A round of `_command_processor`, which logs an exception and goes on.
    abbrev outcome_or : Master D → Result (Outcome D) → Outcome D
    outcome_or master (raise e) = quiet master []
    outcome_or master (ok outcome) = outcome

    unfoldable pub process_command : Runtime → Command → Master D → Outcome D
    unfolding execute
    process_command runtime command master = outcome_or master (execute runtime command master)
