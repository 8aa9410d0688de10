-- ===== src/Master/Answers.antt =====
-- What the master answers: events of the log sent again, and the instance that a text task goes to.
use awesome_distributed_ai_i.Base.{
  ℕ, ◌+◌, ◌≡◌, refl, ap, min, List, [], length, ◌-◌, take, drop, arith, ok,
}
use awesome_distributed_ai_i.Base.Int.{pos}
use awesome_distributed_ai_i.Topology.Graph.{PyDiGraph}
use awesome_distributed_ai_i.Apply.Data.{Event}
use awesome_distributed_ai_i.EventLog.{Codec}
use awesome_distributed_ai_i.EventLog.Reading.{IsLog, slice, read_range-IsLog}
use awesome_distributed_ai_i.Placement.Floats.{Floats}
use awesome_distributed_ai_i.Master.{Master}
use awesome_distributed_ai_i.Master.Commands.{Outcome, send_all, resend}

module _ {D : PyDiGraph} (F : Floats) (C : Codec Event) where
  -- A request for the events from an index on is answered with the events of the log from there on, at most
  -- 1000 of them, each with its own index and in order, and the log keeps its events.
  pub resend-sends :
      (es : List Event) (master : Master D) (since_idx : ℕ)
      → IsLog C es master.event_log
      → (o : Outcome D) × (resend F C master (pos since_idx) ≡ ok o)
        × (o.sent ≡ send_all master since_idx (slice C since_idx (since_idx + 1000) es))
        × IsLog C es o.master.event_log
  unfolding resend
  resend-sends es master since_idx h =
      let end = min (since_idx + 1000) master.event_log.count in
      let (log', e, h') = read_range-IsLog C es master.event_log since_idx end h in
      let same_end : min end (length es) ≡ min (since_idx + 1000) (length es) =
        omega (arith, h.counted) in
      (
        record {
          master = record master { event_log = log' };
          events = [];
          cancelled_downloads = [];
          sent = send_all master since_idx (slice C since_idx end es);
        },
        rw e refl,
        ap (λ n. send_all master since_idx (take (n - since_idx) (drop since_idx es))) same_end,
        h',
      )
