-- ===== src/Topology.antt =====
-- src/exo/shared/topology.py: `Topology`, over the interface of the graph that it wraps. A method
-- that changes the object gives the new value of it.
pub mod Graph
pub mod Nodes
pub mod Connections
pub mod Edges
pub mod Removal
pub mod Rdma
pub mod Departure
pub mod Table
pub mod Sample
pub mod Cycles
pub mod Budget
pub mod Rings
pub mod Tests
use awesome_distributed_ai_i.Base.{
  ℕ, Bool, true, false, ◌&&◌, Option, none, some, List, [], ◌∷◌, ◌++◌, map, ltb, leb, ◌==◌,
  if◌then◌else◌, any, elem, keep, length, Result, ok, raise, key_error, index_error, value_error,
  require, ◌>>=◌,
}
use awesome_distributed_ai_i.Base.Dict.{Dict, get, has, set, remove}
use awesome_distributed_ai_i.Types.{NodeId, Edge, edge_eq, is_rdma, Connection}
use awesome_distributed_ai_i.Topology.Graph.{PyDiGraph, Endpoints}

pub record Topology (D : PyDiGraph) : Type 0 where
  pub graph : D.Graph
  pub vertex_indices : Dict ℕ

-- The field `edge` of what is there.
abbrev pub data_of : Option Endpoints → Option Edge
data_of none = none
data_of (some x) = some x.edge

abbrev or_empty : Option (List Edge) → List Edge
or_empty none = []
or_empty (some ds) = ds

module _ (D : PyDiGraph) where
  unfoldable pub new : Topology D
  new = record { graph = D.empty; vertex_indices = [] }

  unfoldable pub add_node : NodeId → Topology D → Topology D
  add_node node_id t =
      if has node_id t.vertex_indices
      then t
      else let (graph, rx_id) = D.add_node node_id t.graph in
        record { graph = graph; vertex_indices = set node_id rx_id t.vertex_indices }

  abbrev pub contains_node : NodeId → Topology D → Bool
  contains_node node_id t = has node_id t.vertex_indices

  abbrev between : Option ℕ → Option ℕ → D.Graph → List Edge
  between (some src_id) (some sink_id) g = or_empty (D.get_all_edge_data src_id sink_id g)
  between _ _ g = []

  unfoldable pub get_all_connections_between : (source sink : NodeId) → Topology D → List Edge
  get_all_connections_between source sink t =
      between (get source t.vertex_indices) (get sink t.vertex_indices) t.graph

  unfoldable pub add_connection : Connection → Topology D → Result (Topology D)
  unfolding add_node get_all_connections_between
  add_connection conn t =
      if any (edge_eq conn.edge) (get_all_connections_between conn.source conn.sink t)
      then ok t
      else let with_both = add_node conn.sink (add_node conn.source t) in
        do
          src_id ← require key_error (get conn.source with_both.vertex_indices)
          sink_id ← require key_error (get conn.sink with_both.vertex_indices)
          ok (record with_both { graph = D.add_edge src_id sink_id conn.edge with_both.graph })

  -- The method called with each of the connections, in their order.
  unfoldable pub add_connections : List Connection → Topology D → Result (Topology D)
  unfolding add_connection
  add_connections [] t = ok t
  add_connections (conn ∷ conns) t = do t' ← add_connection conn t; add_connections conns t'

  -- `for i in indices: if test(graph.get_edge_data_by_index(i)): graph.remove_edge_from_index(i)`
  unfoldable pub drop_edges : (Edge → Bool) → List ℕ → D.Graph → Result D.Graph
  drop_edges test [] g = ok g
  drop_edges test (i ∷ indices) g = do
    edge ← require index_error (data_of (D.edge_at i g))
    drop_edges test indices (if test edge then D.remove_edge_from_index i g else g)

  abbrev remove_at : NodeId → Option ℕ → Topology D → Topology D
  remove_at node_id none t = t
  remove_at node_id (some rx_idx) t = record {
    graph = D.remove_node rx_idx t.graph;
    vertex_indices = remove node_id t.vertex_indices;
  }

  unfoldable pub remove_node : NodeId → Topology D → Topology D
  remove_node node_id t = remove_at node_id (get node_id t.vertex_indices) t

  unfoldable pub replace_all_out_rdma_connections :
      NodeId → List Connection → Topology D → Result (Topology D)
  unfolding drop_edges add_connections
  replace_all_out_rdma_connections source new_connections t = do
    rx_idx ← require key_error (get source t.vertex_indices)
    graph ← drop_edges is_rdma (D.out_edge_indices rx_idx t.graph) t.graph
    add_connections new_connections (record t { graph = graph })

  -- The list of `remove_all_rdma_connections_touching`: the indices whose data pass the test.
  unfoldable pub edges_with : (Edge → Bool) → List ℕ → D.Graph → Result (List ℕ)
  edges_with test [] g = ok []
  edges_with test (i ∷ indices) g = do
    edge ← require index_error (data_of (D.edge_at i g))
    rest ← edges_with test indices g
    ok (if test edge then i ∷ rest else rest)

  unfoldable pub remove_edges : List ℕ → D.Graph → D.Graph
  remove_edges [] g = g
  remove_edges (i ∷ indices) g = remove_edges indices (D.remove_edge_from_index i g)

  abbrev remove_rdma_at : Option ℕ → Topology D → Result (Topology D)
  remove_rdma_at none t = ok t
  remove_rdma_at (some rx_idx) t = do
    rdma_edge_idxs ←
        edges_with is_rdma (D.out_edge_indices rx_idx t.graph ++ D.in_edge_indices rx_idx t.graph)
          t.graph
    ok (record t { graph = remove_edges rdma_edge_idxs t.graph })

  unfoldable pub remove_all_rdma_connections_touching : NodeId → Topology D → Result (Topology D)
  unfolding edges_with remove_edges
  remove_all_rdma_connections_touching node_id t = remove_rdma_at (get node_id t.vertex_indices) t

  abbrev remove_between : Connection → Option ℕ → Option ℕ → Topology D → Result (Topology D)
  remove_between conn (some src_id) (some sink_id) t = do
    graph ←
        drop_edges (λ edge. edge_eq edge conn.edge)
          (D.edge_indices_from_endpoints src_id sink_id t.graph) t.graph
    ok (record t { graph = graph })
  remove_between conn _ _ t = ok t

  unfoldable pub remove_connection : Connection → Topology D → Result (Topology D)
  unfolding drop_edges
  remove_connection conn t =
      remove_between conn (get conn.source t.vertex_indices) (get conn.sink t.vertex_indices) t
