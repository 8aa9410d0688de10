-- ===== src/Master/Replayed.antt =====
-- The master's state, its log and what it sends are the same events in the same order.
use awesome_distributed_ai_i.Base.{
  ℕ, suc, ◌+◌, ◌≡◌, refl, sym, ap, ◌∙◌, subst, inl, inr, Bool, Option, none, some, List, [], ◌∷◌,
  ◌++◌, In, here, there, length, length-append, arith, Bool-cases, Result-cases, ok,
}
use awesome_distributed_ai_i.Base.Dict.{get, set}
use awesome_distributed_ai_i.Types.{NodeId}
use awesome_distributed_ai_i.Election.{SessionId}
use awesome_distributed_ai_i.Topology.Graph.{PyDiGraph}
use awesome_distributed_ai_i.Apply.{apply, replay}
use awesome_distributed_ai_i.Apply.Data.{State, initial, Event, IndexedEvent}
use awesome_distributed_ai_i.EventLog.{Codec}
use awesome_distributed_ai_i.EventLog.Records.{append_assoc, append_nil}
use awesome_distributed_ai_i.EventLog.Reading.{IsLog, new-IsLog, append-IsLog}
use awesome_distributed_ai_i.EventLog.Histories.{IsWritable}
use awesome_distributed_ai_i.Master.{Master, new}
use awesome_distributed_ai_i.Master.Commands.{send_all, send_indexed_event}
use awesome_distributed_ai_i.Master.Events.{
  Processed, stamp, Collected, collected, or_none_yet, all_arrived, handle_traces_collected,
  index_event, process_as, process_one, process_all,
}

-- The events with their indices, from one on.
abbrev pub indexed : ℕ → List Event → List IndexedEvent
indexed idx [] = []
indexed idx (event ∷ events) = record { idx = idx; event = event } ∷ indexed (idx + 1) events

-- What the master does with an event that leaves the buffers: traces are kept aside, all others are logged.
abbrev logged_as : Option Collected → (now : ℕ) → Event → List Event
logged_as none now event = stamp now event ∷ []
logged_as (some c) now event = []

abbrev logged_one : (now : ℕ) → Event → List Event
logged_one now event = logged_as (collected event) now event

abbrev pub logged : (now : ℕ) → List Event → List Event
logged now [] = []
logged now (event ∷ events) = logged_one now event ++ logged now events

module _ {D : PyDiGraph} where
  replay-append :
      (xs ys : List IndexedEvent) (s s1 : State D)
      → replay s xs ≡ ok s1
      → replay s (xs ++ ys) ≡ replay s1 ys
  unfolding replay
  replay-append [] ys s s1 h = let same : s ≡ s1 = cc in rw same refl
  replay-append (x ∷ xs) ys s s1 h = elim (Result-cases (apply s x)) [
    | inl (s', e) ↦ rw e (replay-append xs ys s' s1 (rw e at h))
    | inr (x', e) ↦ let raised = rw e at h in cc
  ]

  replay_one : (s s' : State D) (x : IndexedEvent) → apply s x ≡ ok s' → replay s (x ∷ []) ≡ ok s'
  unfolding replay
  replay_one s s' x h = rw h refl

indexed-append :
    (i : ℕ) (es : List Event) (event : Event)
    → indexed i (es ++ event ∷ [])
      ≡ indexed i es ++ record { idx = i + length es; event = event } ∷ []
indexed-append i [] event = let here_idx : i + 0 ≡ i = omega arith in rw here_idx refl
indexed-append i (e ∷ es) event =
    let later : i + suc (length es) ≡ i + 1 + length es = omega arith in
    rw later (ap (λ l. record { idx = i; event = e } ∷ l) (indexed-append (i + 1) es event))

module _ {D : PyDiGraph} (C : Codec Event) where
  -- The log has these events, and the state is what applying them to the initial state in order gives.
  pub record IsOrdered (es : List Event) (master : Master D) : Type 0 where
    pub log : IsLog C es master.event_log
    pub state : replay (initial D) (indexed 0 es) ≡ ok master.state

  pub new-IsOrdered :
      (node_id : NodeId) (session_id : SessionId) → IsOrdered [] (new D node_id session_id)
  unfolding new replay
  new-IsOrdered node_id session_id = record { log = new-IsLog C; state = refl }

  -- A step of the master that logs some events: they follow those before, and are sent with the next indices.
  pub record Logs (es more : List Event) (master : Master D) (p : Processed D) : Type 0 where
    pub ordered : IsOrdered (es ++ more) p.master
    pub sent : p.sent ≡ send_all master (length es) more
    pub same_node : p.master.node_id ≡ master.node_id
    pub same_session : p.master.session_id ≡ master.session_id

  index_event-Logs :
      (eq : Event → Event → Bool) (es : List Event) (event : Event) (master : Master D)
      (p : Processed D)
      → IsWritable C event
      → IsOrdered es master
      → index_event C eq event master ≡ ok p
      → Logs es (event ∷ []) master p
  unfolding index_event send_all
  index_event-Logs eq es event master p writable h run =
      let idx = master.event_log.count in
      elim (Result-cases (apply master.state (record { idx = idx; event = event }))) [
        | inr (x, e) ↦ let raised = rw e at run in cc
        | inl (s, e) ↦
            let (log', appended, is_log) =
              append-IsLog C es master.event_log event writable.decodes writable.fits h.log in
            let done = rw (e, appended) at run in
            let p' : Processed D = record {
              master = record master { state = s; event_log = log' };
              sent = send_indexed_event master idx event ∷ [];
              own_events = [];
            } in
            let same : p' ≡ p = cc in
            let at : idx ≡ 0 + length es = omega (arith, h.log.counted) in
            let applied =
              subst (λ i. apply master.state (record { idx = i; event = event }) ≡ ok s) at e in
            rw (← same) (record {
              ordered = record {
                log = is_log;
                state = rw (indexed-append 0 es event) (
                    replay-append (indexed 0 es)
                      (record { idx = 0 + length es; event = event } ∷ []) (initial D) master.state
                      h.state
                    ∙ replay_one master.state s (record { idx = 0 + length es; event = event })
                        applied);
              };
              sent = ap (λ i. send_indexed_event master i event ∷ []) h.log.counted;
              same_node = refl;
              same_session = refl;
            })
      ]

  send_all-append :
      (master : Master D) (i : ℕ) (xs ys : List Event)
      → send_all master i (xs ++ ys) ≡ send_all master i xs ++ send_all master (i + length xs) ys
  unfolding send_all
  send_all-append master i [] ys = let here_idx : i + 0 ≡ i = omega arith in rw here_idx refl
  send_all-append master i (x ∷ xs) ys =
      let later : i + suc (length xs) ≡ i + 1 + length xs = omega arith in
      rw later (ap (λ l. send_indexed_event master i x ∷ l) (send_all-append master (i + 1) xs ys))

  send_all-same :
      (m m' : Master D) (i : ℕ) (xs : List Event)
      → m'.node_id ≡ m.node_id
      → m'.session_id ≡ m.session_id
      → send_all m' i xs ≡ send_all m i xs
  unfolding send_all
  send_all-same m m' i [] node session = refl
  send_all-same m m' i (x ∷ xs) node session =
      let rest = send_all-same m m' (i + 1) xs node session in cc (node, session, rest)

  Logs-nothing :
      (es : List Event) (master : Master D) (p : Processed D)
      → IsOrdered es master
      → p.master.event_log ≡ master.event_log
      → p.master.state ≡ master.state
      → p.sent ≡ []
      → p.master.node_id ≡ master.node_id
      → p.master.session_id ≡ master.session_id
      → Logs es [] master p
  unfolding send_all
  Logs-nothing es master p h log_same state_same nothing node session = record {
    ordered =
        subst (λ l. IsOrdered l p.master) (sym (append_nil es))
          (record {
            log = subst (λ l. IsLog C es l) (sym log_same) h.log;
            state = h.state ∙ ap (λ s. ok s) (sym state_same);
          });
    sent = nothing;
    same_node = node;
    same_session = session;
  }

  handle_traces-Logs :
      (es : List Event) (c : Collected) (master : Master D)
      → IsOrdered es master
      → Logs es [] master (handle_traces_collected c.task_id c.rank c.traces master)
  unfolding handle_traces_collected
  handle_traces-Logs es c master h =
      let by_rank = set c.rank c.traces (or_none_yet (get c.task_id master.pending_traces)) in
      elim (Bool-cases (all_arrived (get c.task_id master.expected_ranks) by_rank)) [
        | inl arrived ↦ rw arrived (Logs-nothing es master _ h refl refl refl refl refl)
        | inr missing ↦ rw missing (Logs-nothing es master _ h refl refl refl refl refl)
      ]

  process_as-Logs :
      (eq : Event → Event → Bool) (o : Option Collected) (now : ℕ) (es : List Event) (event : Event)
      (master : Master D) (p : Processed D)
      → IsWritable C (stamp now event)
      → IsOrdered es master
      → process_as C eq o now event master ≡ ok p
      → Logs es (logged_as o now event) master p
  process_as-Logs eq none now es event master p writable h run =
      index_event-Logs eq es (stamp now event) master p writable h run
  process_as-Logs eq (some c) now es event master p writable h run =
      let same : handle_traces_collected c.task_id c.rank c.traces master ≡ p = cc in
      rw (← same) (handle_traces-Logs es c master h)

  -- However the events leave the buffers: if processing them raises nothing, the master logs all of them but the
  -- traces, after those that it logged before, its state is what applying all logged events in order to the initial
  -- state gives, and it sends each event that it logs to all nodes, in order and with its place in the log as the
  -- index. The payload of each event gives the event back, and is shorter than 2 ^ 32 bytes.
  pub process_all-Logs :
      (eq : Event → Event → Bool) (now : ℕ) (es events : List Event) (master : Master D)
      (p : Processed D)
      → ((event : Event) → In event events → IsWritable C (stamp now event))
      → IsOrdered es master
      → process_all C eq now events master ≡ ok p
      → Logs es (logged now events) master p
  unfolding process_all send_all
  process_all-Logs eq now es [] master p writable h run =
      let p' : Processed D = record { master = master; sent = []; own_events = [] } in
      let same : p' ≡ p = cc in
      rw (← same) (record {
        ordered = subst (λ l. IsOrdered l master) (sym (append_nil es)) h;
        sent = refl;
        same_node = refl;
        same_session = refl;
      })
  process_all-Logs eq now es (event ∷ events) master p writable h run =
      elim (Result-cases (process_one C eq now event master)) [
        | inr (x, e) ↦ let raised = rw e at run in cc
        | inl (first, e) ↦ elim (Result-cases (process_all C eq now events first.master)) [
          | inr (x, e') ↦ let raised = rw (e, e') at run in cc
          | inl (rest, e') ↦
              let one =
                process_as-Logs eq (collected event) now es event master first
                  (writable event (here refl)) h e in
              let all =
                process_all-Logs eq now (es ++ logged_one now event) events first.master rest
                  (λ x m. writable x (there m)) one.ordered e' in
              let done = rw (e, e') at run in
              let p' : Processed D = record {
                master = rest.master;
                sent = first.sent ++ rest.sent;
                own_events = first.own_events ++ rest.own_events;
              } in
              let same : p' ≡ p = cc in
              let next = length-append es (logged_one now event) in
              let moved =
                send_all-same master first.master (length (es ++ logged_one now event))
                  (logged now events) one.same_node one.same_session in
              rw (← same) (record {
                ordered =
                    subst (λ l. IsOrdered l rest.master)
                      (append_assoc es (logged_one now event) (logged now events)) all.ordered;
                sent =
                    ap (λ l. l ++ rest.sent) one.sent
                    ∙ ap (λ l. send_all master (length es) (logged_one now event) ++ l)
                        (all.sent ∙ moved ∙ ap (λ i. send_all master i (logged now events)) next)
                    ∙ sym (
                        send_all-append master (length es) (logged_one now event)
                          (logged now events));
                same_node = all.same_node ∙ one.same_node;
                same_session = all.same_session ∙ one.same_session;
              })
        ]
      ]
