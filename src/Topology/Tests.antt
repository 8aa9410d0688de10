-- ===== src/Topology/Tests.antt =====
-- Two nodes with an RDMA connection, on the concrete graph, and the theorems at these inputs.
use awesome_distributed_ai_i.Base.{
  ◌≡◌, ◌≢◌, ◌↔◌, ◌⊎◌, refl, true, none, some, [], ◌∷◌, In, leb, if◌then◌else◌, length, ok, arith,
}
use awesome_distributed_ai_i.Base.Dict.{get, set}
use awesome_distributed_ai_i.Types.{rdma, socket, is_rdma, Connection}
use awesome_distributed_ai_i.Topology.{
  Topology, new, add_node, add_connection, remove_connection, remove_node,
  replace_all_out_rdma_connections, remove_all_rdma_connections_touching,
}
use awesome_distributed_ai_i.Topology.Graph.{PyDiGraph}
use awesome_distributed_ai_i.Topology.Sample.{sample, sample-Laws}
use awesome_distributed_ai_i.Topology.Nodes.{Connected, IsValid, new-IsValid, add_node-Adds}
use awesome_distributed_ai_i.Topology.Connections.{Joins, joined-Joins, add_connection-Joins}
use awesome_distributed_ai_i.Topology.Removal.{remove_connection-exact}
use awesome_distributed_ai_i.Topology.Rdma.{
  TouchesByRdma, remove_all_rdma-exact, replace_all_out_rdma-exact,
}
use awesome_distributed_ai_i.Topology.Departure.{IsGone, remove_node-exact}
use awesome_distributed_ai_i.Topology.Cycles.{get_cycles, get_cycles_within_budget}
use awesome_distributed_ai_i.Topology.Budget.{get_cycles_within_budget-get_cycles}

program : Unit {0}
unfolding new add_node add_connection remove_connection get set get_cycles
program = tt

abbrev cable : Connection
cable = record { source = 1; sink = 2; edge = rdma 5 6 }

abbrev wire : Connection
wire = record { source = 2; sink = 1; edge = socket 10 443 }

abbrev pair : Topology sample
pair = add_node sample 2 (add_node sample 1 (new sample))

pair-IsValid : IsValid sample pair
pair-IsValid =
    (add_node-Adds sample sample-Laws 2 (add_node sample 1 (new sample))
      (add_node-Adds sample sample-Laws 1 (new sample)
        (new-IsValid sample sample-Laws)).valid).valid

first : get 1 pair.vertex_indices ≡ some 0
unfolding program
first = refl

second : get 2 pair.vertex_indices ≡ some 1
unfolding program
second = refl

-- The two nodes with the cable.
abbrev linked : Topology sample
linked = record pair { graph = sample.add_edge 0 1 (rdma 5 6) pair.graph }

linked-IsValid : IsValid sample linked
linked-IsValid = (joined-Joins sample sample-Laws cable pair 0 1 pair-IsValid first second).valid

-- The method on the new topology makes the same one.
links : add_connection sample cable (new sample) ≡ ok linked
unfolding program
links = refl

twice : add_connection sample cable linked ≡ ok linked
unfolding program
twice = refl

add_connection-Joins_example :
    (t' : Topology sample) × (add_connection sample wire linked ≡ ok t')
    × Joins sample sample-Laws wire linked t'
    × (Connected sample linked wire → t' ≡ linked)
add_connection-Joins_example = add_connection-Joins sample sample-Laws wire linked linked-IsValid

remove_connection-exact_example :
    (t' : Topology sample) × (remove_connection sample cable linked ≡ ok t')
    × IsValid sample t'
    × ((c : Connection) → Connected sample t' c ↔ (Connected sample linked c × (c ≢ cable)))
remove_connection-exact_example =
    remove_connection-exact sample sample-Laws cable linked linked-IsValid

remove_all_rdma-exact_example :
    (t' : Topology sample) × (remove_all_rdma_connections_touching sample 2 linked ≡ ok t')
    × IsValid sample t'
    × ((c : Connection)
        → Connected sample t' c
          ↔ (Connected sample linked c × ¬ TouchesByRdma sample sample-Laws 2 c))
remove_all_rdma-exact_example = remove_all_rdma-exact sample sample-Laws 2 linked linked-IsValid

replace_all_out_rdma-exact_example :
    (t' : Topology sample) × (replace_all_out_rdma_connections sample 1 (wire ∷ []) linked ≡ ok t')
    × IsValid sample t'
    × ((c : Connection)
        → Connected sample t' c ↔ (
            In c (wire ∷ [])
            ⊎ (Connected sample linked c × ¬ ((is_rdma c.edge ≡ true) × (c.source ≡ 1)))))
replace_all_out_rdma-exact_example =
    replace_all_out_rdma-exact sample sample-Laws 1 0 (wire ∷ []) linked linked-IsValid first

remove_node-exact_example :
    IsValid sample (remove_node sample 1 linked)
    × ((c : Connection)
        → Connected sample (remove_node sample 1 linked) c
          ↔ (Connected sample linked c × (c.source ≢ 1) × (c.sink ≢ 1)))
    × IsGone sample sample-Laws linked 1 (remove_node sample 1 linked)
remove_node-exact_example = remove_node-exact sample sample-Laws 1 linked linked-IsValid

cycles : get_cycles sample linked ≡ ok ((2 ∷ []) ∷ (1 ∷ []) ∷ [])
unfolding program
cycles = refl

-- A graph of which `simple_cycles` knows the cycle through the first two vertices, and the two nodes with
-- a connection each way.
abbrev ring_sample : PyDiGraph
ring_sample = record sample { simple_cycles = λ g. (0 ∷ 1 ∷ []) ∷ [] }

abbrev ring : Topology ring_sample
ring = record {
  graph = sample.add_edge 1 0 (socket 10 443) linked.graph;
  vertex_indices = linked.vertex_indices;
}

ring_cycles : get_cycles ring_sample ring ≡ ok ((1 ∷ 2 ∷ []) ∷ (2 ∷ []) ∷ (1 ∷ []) ∷ [])
unfolding program
ring_cycles = refl

get_cycles_within_budget-get_cycles_example :
    get_cycles_within_budget ring_sample 1 ring
    ≡ ok (
        if leb (length (ring_sample.simple_cycles ring.graph)) 1
        then some ((1 ∷ 2 ∷ []) ∷ (2 ∷ []) ∷ (1 ∷ []) ∷ [])
        else none)
get_cycles_within_budget-get_cycles_example =
    get_cycles_within_budget-get_cycles ring_sample 1 ring ((1 ∷ 2 ∷ []) ∷ (2 ∷ []) ∷ (1 ∷ []) ∷ [])
      ring_cycles (omega arith)
