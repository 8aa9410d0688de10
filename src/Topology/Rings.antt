-- ===== src/Topology/Rings.antt =====
-- What placement reads of src/exo/shared/topology.py: short cycles, leaves, cycles over RDMA and the
-- topology of some nodes.
use awesome_distributed_ai_i.Base.{
  ℕ, Bool, true, false, ◌&&◌, Option, none, some, List, [], ◌∷◌, ◌++◌, min, ltb, leb, ◌==◌,
  if◌then◌else◌, elem, any, length, all_of, Result, ok, raise, key_error, index_error, value_error,
  no_edge_error, require, ◌>>=◌,
}
use awesome_distributed_ai_i.Base.Dict.{get}
use awesome_distributed_ai_i.Types.{NodeId, is_rdma, Connection}
use awesome_distributed_ai_i.Topology.{Topology, new, add_node, add_connection}
use awesome_distributed_ai_i.Topology.Graph.{PyDiGraph, Endpoints}
use awesome_distributed_ai_i.Topology.Cycles.{Cycle, nodes_at, singletons}

-- `min(path)`
abbrev least_from : ℕ → List ℕ → ℕ
least_from best [] = best
least_from best (i ∷ path) = least_from (min best i) path

-- `min(path) == vertex`, for a path of a node at least.
abbrev is_least : (vertex : ℕ) → List ℕ → Bool
is_least vertex [] = false
is_least vertex (i ∷ path) = least_from i path == vertex

module _ (D : PyDiGraph) where
  -- `Connection(source=graph[source], sink=graph[sink], edge=edge)`
  abbrev connection_at : D.Graph → Endpoints → Result Connection
  connection_at g x = do
    source ← require index_error (D.node_at x.source g)
    sink ← require index_error (D.node_at x.sink g)
    ok (record { source = source; sink = sink; edge = x.edge })

  unfoldable pub connections_at : D.Graph → List Endpoints → Result (List Connection)
  connections_at g [] = ok []
  connections_at g (x ∷ xs) = do
    conn ← connection_at g x
    conns ← connections_at g xs
    ok (conn ∷ conns)

  unfoldable pub list_connections : Topology D → Result (List Connection)
  unfolding connections_at
  list_connections t = connections_at t.graph (D.weighted_edge_list t.graph)

  unfoldable pub add_nodes : List NodeId → Topology D → Topology D
  unfolding add_node
  add_nodes [] t = t
  add_nodes (node_id ∷ node_ids) t = add_nodes node_ids (add_node D node_id t)

  -- The loop of `get_subgraph_from_nodes` over the connections.
  unfoldable pub add_connections_within :
      List NodeId → List Connection → Topology D → Result (Topology D)
  unfolding add_connection
  add_connections_within node_ids [] t = ok t
  add_connections_within node_ids (conn ∷ conns) t = do
    t' ←
        if elem conn.source node_ids && elem conn.sink node_ids
        then add_connection D conn t
        else ok t
    add_connections_within node_ids conns t'

  unfoldable pub get_subgraph_from_nodes : List NodeId → Topology D → Result (Topology D)
  unfolding new add_nodes list_connections add_connections_within
  get_subgraph_from_nodes node_ids t = do
    connections ← list_connections t
    add_connections_within node_ids connections (add_nodes node_ids (new D))

  abbrev leaf_at : Option ℕ → Topology D → Bool
  leaf_at none t = false
  leaf_at (some rx_id) t = leb (length (D.neighbors rx_id t.graph)) 1

  unfoldable pub node_is_leaf : NodeId → Topology D → Bool
  node_is_leaf node_id t = leaf_at (get node_id t.vertex_indices) t

  unfoldable pub indices_of : List NodeId → Topology D → Result (List ℕ)
  indices_of [] t = ok []
  indices_of (n ∷ ns) t = do
    i ← require key_error (get n t.vertex_indices)
    is ← indices_of ns t
    ok (i ∷ is)

  -- The inner loop: the neighbor is not of the cycle, or some edge to it is RDMA.
  abbrev reaches_by_rdma : (rx_idxs : List ℕ) → (rid neighbor_rid : ℕ) → D.Graph → Result Bool
  reaches_by_rdma rx_idxs rid neighbor_rid g =
      if elem neighbor_rid rx_idxs
      then (do
        edges ← require no_edge_error (D.get_all_edge_data rid neighbor_rid g)
        ok (any is_rdma edges))
      else ok true

  unfoldable pub is_rdma_cycle : Cycle → Topology D → Result Bool
  unfolding indices_of
  is_rdma_cycle cycle t = do
    rx_idxs ← indices_of cycle t
    all_of
        (λ rid.
          all_of (λ neighbor_rid. reaches_by_rdma rx_idxs rid neighbor_rid t.graph)
            (D.neighbors rid t.graph))
        rx_idxs

  -- The paths that start at their lowest vertex, as cycles.
  unfoldable pub cycles_from : (vertex : ℕ) → D.Graph → List (List ℕ) → Result (List Cycle)
  unfolding nodes_at
  cycles_from vertex g [] = ok []
  cycles_from vertex g (path ∷ paths) =
      let rest = cycles_from vertex g paths in
      if is_least vertex path
      then (do cycle ← nodes_at D g path; cycles ← rest; ok (cycle ∷ cycles))
      else rest

  abbrev paths_back : (max_nodes vertex : ℕ) → (predecessors : List ℕ) → D.Graph → List (List ℕ)
  paths_back max_nodes vertex [] g = []
  paths_back max_nodes vertex (p ∷ predecessors) g =
      D.all_simple_paths vertex (p ∷ predecessors) 2 max_nodes g

  abbrev own_cycle : (vertex : ℕ) → D.Graph → Result (List Cycle)
  own_cycle vertex g =
      if D.has_edge vertex vertex g
      then (do n ← require index_error (D.node_at vertex g); ok ((n ∷ []) ∷ []))
      else ok []

  unfoldable pub cycles_of_vertices : (max_nodes : ℕ) → D.Graph → List ℕ → Result (List Cycle)
  unfolding cycles_from
  cycles_of_vertices max_nodes g [] = ok []
  cycles_of_vertices max_nodes g (vertex ∷ vertices) = do
    own ← own_cycle vertex g
    through ← cycles_from vertex g (paths_back max_nodes vertex (D.predecessor_indices vertex g) g)
    rest ← cycles_of_vertices max_nodes g vertices
    ok (own ++ through ++ rest)

  unfoldable pub get_cycles_up_to : (max_nodes : ℕ) → Topology D → Result (List Cycle)
  unfolding cycles_of_vertices
  get_cycles_up_to max_nodes t = if ltb max_nodes 2 then raise value_error else (do
    cycles ← cycles_of_vertices max_nodes t.graph (D.node_indices t.graph)
    ok (cycles ++ singletons D t))
