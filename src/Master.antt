-- ===== src/Master.antt =====
-- src/exo/master/main.py: the node that orders the events of a session and answers commands. Times
-- are microseconds, and what the code draws afresh is an argument.
pub mod Prefill
pub mod Commands
pub mod Events
pub mod Replayed
pub mod LeastBusy
pub mod Answers
pub mod Tests
use awesome_distributed_ai_i.Base.{ℕ, List, [], Result, ok, ◌>>=◌}
use awesome_distributed_ai_i.Base.Dict.{Dict}
use awesome_distributed_ai_i.Types.{NodeId, TaskId, CommandId}
use awesome_distributed_ai_i.Election.{SessionId}
use awesome_distributed_ai_i.Buffer.Sources.{MultiSourceBuffer}
use awesome_distributed_ai_i.EventLog
use awesome_distributed_ai_i.EventLog.{DiskEventLog}
use awesome_distributed_ai_i.Topology.Graph.{PyDiGraph}
use awesome_distributed_ai_i.Apply.Data.{State, initial, Event}

-- The identifier of a sender.
abbrev pub SystemId : Type 0
SystemId = ℕ

pub record LocalForwarderEvent : Type 0 where
  pub origin_idx : ℕ
  pub origin : SystemId
  pub session : SessionId
  pub event : Event

pub record GlobalForwarderEvent : Type 0 where
  pub origin_idx : ℕ
  pub origin : NodeId
  pub session : SessionId
  pub event : Event

pub record Master (D : PyDiGraph) : Type 0 where
  pub node_id : NodeId
  pub session_id : SessionId
  pub state : State D
  pub command_task_mapping : Dict TaskId
  pub multi_buffer : MultiSourceBuffer Event
  pub event_log : DiskEventLog
  pub pending_traces : Dict (Dict (List ℕ))
  pub expected_ranks : Dict (List ℕ)

unfoldable pub new : (D : PyDiGraph) → NodeId → SessionId → Master D
new D node_id session_id = record {
  node_id = node_id;
  session_id = session_id;
  state = initial D;
  command_task_mapping = [];
  multi_buffer = [];
  event_log = EventLog.new;
  pending_traces = [];
  expected_ranks = [];
}
