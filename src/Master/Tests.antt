-- ===== src/Master/Tests.antt =====
-- A master with a few events and commands, and the theorems at these inputs.
use awesome_distributed_ai_i.Base.{
  ℕ, ◌≡◌, refl, inl, inr, Bool, true, false, none, List, [], ◌∷◌, In, In-cons, length, arith,
  Result, ok, raise, value_error,
}
use awesome_distributed_ai_i.Base.Dict.{get, set, remove}
use awesome_distributed_ai_i.Types.{
  Instance, InstanceKind, InstanceLink, TextGenerationTaskParams, Task, TaskStatus, load_model,
}
use awesome_distributed_ai_i.Election.{SessionId}
use awesome_distributed_ai_i.Topology.{new}
use awesome_distributed_ai_i.Topology.Sample.{sample}
use awesome_distributed_ai_i.Apply.{event_apply, apply, replay}
use awesome_distributed_ai_i.Apply.Data.{
  initial, Event, test_event, traces_collected, traces_merged, instance_deleted,
}
use awesome_distributed_ai_i.Apply.Handlers.{apply_instance_deleted, unlink_all}
use awesome_distributed_ai_i.EventLog.{
  Byte, Codec, pack_header, unpack_header, read, skip_record, read_record, read_records,
  skip_records, written_last, cache_offset, scan_from, seek_to, read_between, read_range, append,
}
use awesome_distributed_ai_i.EventLog.Histories.{IsWritable}
use awesome_distributed_ai_i.Master
use awesome_distributed_ai_i.Master.{Master}
use awesome_distributed_ai_i.Master.Prefill.{
  task_count, prefill_instances, without_decode, prefill_only, instance_task_counts, least_count,
  least_busy, endpoint_on, first_endpoint, sources_of, prefill_endpoint_for,
}
use awesome_distributed_ai_i.Master.Commands.{Runtime, Outcome, send_all, resend, text_task}
use awesome_distributed_ai_i.Master.Events.{
  Processed, stamp, handle_traces_collected, index_event, process_all,
}
use awesome_distributed_ai_i.Master.Replayed.{new-IsOrdered, logged, Logs, process_all-Logs}

-- A payload is a number for the kind of event, and its fields.
abbrev encode : Event → List Byte
encode (traces_collected task_id rank traces) = 1 ∷ task_id ∷ rank ∷ traces
encode (instance_deleted instance_id) = 2 ∷ instance_id ∷ []
encode event = 0 ∷ []

abbrev decode : List Byte → Result Event
decode (kind ∷ []) = ok test_event
decode (kind ∷ instance_id ∷ []) = ok (instance_deleted instance_id)
decode (kind ∷ task_id ∷ rank ∷ traces) = ok (traces_collected task_id rank traces)
decode _ = raise value_error

abbrev codec : Codec Event
codec = record { serialize_event = encode; deserialize_event = decode }

abbrev same_event : Event → Event → Bool
same_event a b = true

abbrev session : SessionId
session = record { master_node_id = 1; election_clock = 4 }

abbrev started : Master sample
started = Master.new sample 1 session

-- The first trace of a task of two ranks arrives between the events.
abbrev events : List Event
events = test_event ∷ traces_collected 9 0 (7 ∷ []) ∷ instance_deleted 5 ∷ []

program : Unit {0}
unfolding get set remove event_apply apply replay apply_instance_deleted unlink_all initial new
    pack_header unpack_header read skip_record read_record read_records skip_records written_last
    cache_offset scan_from seek_to read_between read_range append Master.new handle_traces_collected
    index_event process_all send_all resend task_count prefill_instances without_decode prefill_only
    instance_task_counts least_count least_busy endpoint_on first_endpoint sources_of
    prefill_endpoint_for text_task
program = tt

abbrev processed_of : Result (Processed sample) → Processed sample
processed_of (ok p) = p
processed_of (raise e) = record { master = started; sent = []; own_events = [] }

abbrev processed : Processed sample
processed = processed_of (process_all codec same_event 100 events started)

processes : process_all codec same_event 100 events started ≡ ok processed
unfolding program
processes = refl

two_sent : length processed.sent ≡ 2
unfolding program
two_sent = refl

-- The trace of the other rank completes them.
merges :
    (handle_traces_collected 9 1
      (8 ∷ [])
      (record processed.master { expected_ranks = (9, 0 ∷ 1 ∷ []) ∷ [] })).own_events
    ≡ traces_merged 9 (7 ∷ 8 ∷ []) ∷ []
unfolding program
merges = refl

writable : (event : Event) → In event events → IsWritable codec (stamp 100 event)
writable event m = elim (In-cons m) [
  | inl e ↦ rw (← e) (record { decodes = refl; fits = omega arith })
  | inr m1 ↦ elim (In-cons m1) [
    | inl e ↦ rw (← e) (record { decodes = refl; fits = omega arith })
    | inr m2 ↦ elim (In-cons m2) [
      | inl e ↦ rw (← e) (record { decodes = refl; fits = omega arith })
      | inr m3 ↦ elim m3 [ ]
    ]
  ]
]

process_all-Logs_example : Logs codec [] (logged 100 events) started processed
process_all-Logs_example =
    process_all-Logs codec same_event 100 [] events started processed writable
      (new-IsOrdered codec 1 session) processes

-- Instances 5, 6 and 8 have the model; 5 has a task in flight, and 8 only prefills for 6.
abbrev instance : (id : ℕ) → Instance
instance id = record {
  instance_id = id;
  shard_assignments = record { model_id = 7; runner_to_shard = []; node_to_runner = [] };
  kind = InstanceKind.mlx_ring [] 0;
}

abbrev task : Task
task = record { task_id = 9; task_status = TaskStatus.running; instance_id = 5; kind = load_model }

abbrev link : InstanceLink
link = record { link_id = 3; prefill_instances = 8 ∷ []; decode_instances = 6 ∷ [] }

abbrev busy : Master sample
busy = record started {
  state = record (initial sample) {
    instances = (5, instance 5) ∷ (8, instance 8) ∷ (6, instance 6) ∷ [];
    tasks = (9, task) ∷ [];
    instance_links = (3, link) ∷ [];
  };
}

abbrev runtime : Runtime
runtime = record {
  drawn = record { runner_ids = λ i. i; instance_id = 90; ephemeral_port = 5000 };
  task_id = 30;
  settings = record { max_cycles = 10; max_cycle_nodes = 4; deepseek_v3_1_8bit = 99 };
  tracing_enabled = false;
  set_order = λ ids. ids;
}

abbrev params : (model : ℕ) → TextGenerationTaskParams
params model = record { model = model; image_hashes = []; prefill_endpoint = none }

abbrev outcome_of : Result (Outcome sample) → Outcome sample
outcome_of (ok o) = o
outcome_of (raise e) = record { master = started; events = []; cancelled_downloads = []; sent = [] }

abbrev outcome : Outcome sample
outcome = outcome_of (text_task runtime 40 (params 7) busy)

no_model : text_task runtime 40 (params 2) busy ≡ raise value_error
unfolding program
no_model = refl
