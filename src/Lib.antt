-- ===== src/Lib.antt =====
-- Verification of exo, a cluster that runs one model over several machines. The parts modelled here
-- are those that decide: what every node does with the event log and with the messages of the network,
-- and what the master does with commands:
--
--   * Buffer: src/exo/utils/event_buffer.py, which puts the events of a session in their order.
--   * Election: src/exo/shared/election.py, the election of the master. Its tasks interleave at their
--     awaits, so a campaign is cut into steps, and Election/Steps has the steps as a relation. Sending is such
--     an await: it yields before the item is on the channel.
--   * Types: src/exo/shared/types and the messages of src/exo/utils/info_gatherer. Identifiers,
--     addresses and times are numbers, and fields that no modelled code reads are left out.
--   * Topology: src/exo/shared/topology.py over `rustworkx.PyDiGraph`, which is a parameter:
--     Topology/Graph has its interface, a record of operations, and a record of the laws that its
--     documentation states. Topology/Sample is a concrete graph with these laws. Methods that change
--     the object give the new value. `simple_cycles` has no law.
--   * Apply: src/exo/shared/apply.py, the state (src/exo/shared/types/state.py) as a function of the
--     events (src/exo/shared/types/events.py). Apply/Data has both, Apply/Handlers and Apply/Gathered
--     one function per handler.
--   * Backoff: src/exo/utils/keyed_backoff.py. The float power raises from 1024 attempts on.
--   * Plan: src/exo/worker/plan.py, what a worker does next: Plan/Lifecycle (shutdown, creation,
--     download), Plan/Startup (connect, load, warm up), Plan/Dispatch (tasks and cancellations) and
--     Plan/Chain, the `plan` that tries them in their order. The identifier of the new task is an
--     argument, and the backoffs are the tests that a plan asks them.
--   * Placement: src/exo/master/placement.py and src/exo/master/placement_utils.py. Placement/Search and
--     Placement/Placing choose the cycle and build the instance, Placement/Layers and Placement/Shards
--     divide the layers, Placement/Wiring finds addresses, and Placement/Transition has the events of a
--     change of the instances. Floats are an interface without laws (Placement/Floats); what rounding
--     must not do is a hypothesis. Sets are lists, fresh identifiers and the port are arguments.
--   * EventLog: src/exo/utils/disk_event_log.py, the log as the bytes of its file with the cache of
--     offsets. The format of a payload is a parameter, with the round trip of an event as a hypothesis.
--   * Master: src/exo/master/main.py. Master/Commands has the command processor, Master/Prefill the choice
--     of an instance and of a prefill server, Master/Events the event processor, traces and the plan's
--     events. What the code draws afresh, the clock and the order of a set are arguments.
--   * Routing: src/exo/routing/event_router.py, the rounds of its tasks over Buffer.
--   * Downloads: src/exo/download/coordinator.py, cut at its awaits; Downloads/Steps has the steps as a
--     relation. The searches of directories and the shard downloader answer anything at any time.
--   * Base: dictionaries in insertion order, code that raises, loops that return early, integers.
--
-- The parts meet as follows. The events of all nodes reach the master through a buffer for each sender.
-- Master/Events gives each the next index, applies it with Apply's `apply`, appends it to EventLog and
-- sends it to all. The router of each node (Routing) puts these events in order with Buffer, and the
-- worker applies them with the same `apply`, so that `plan` reads the master's state. Commands become
-- events by Master/Commands and Placement, and a router that misses events asks the master to send
-- them again from EventLog. The last applied index, the seniority of a node and the range that is read
-- from the log are integers; all other numbers are natural. The clock of an election is one of these: it starts
-- at 0 and only ever becomes greater. Python's numbers do not overflow, but for the header of a record, which
-- has 32 bits, and the float power of a backoff. Loops are recursion on the list or the
-- count that they walk; the loop of a buffer's `drain` runs on as much fuel as the buffer has entries,
-- which is enough since every round takes one out.
--
-- Not modelled here: the archives of closed logs, the files of downloads, the runners and their engines, the API,
-- the information gatherer, the image store, and the transport. The tasks and channels of the master
-- and of the router are the sequences of their rounds.
pub mod Base
pub mod Buffer
pub mod Election
pub mod Types
pub mod Backoff
pub mod Plan
pub mod Topology
pub mod Downloads
pub mod Apply
pub mod Placement
pub mod EventLog
pub mod Master
pub mod Routing
