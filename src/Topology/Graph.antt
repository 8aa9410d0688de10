-- ===== src/Topology/Graph.antt =====
-- The interface of `rustworkx.PyDiGraph`, which src/exo/shared/topology.py calls: a directed
-- multigraph whose nodes and edges have indices that stay as others come and go. The laws state
-- what its documentation says of the calls.
use awesome_distributed_ai_i.Base.{
  ℕ, ◌≡◌, ◌≢◌, ◌↔◌, Bool, Option, none, some, List, [], ◌∷◌, In, if◌then◌else◌, ◌==◌,
}
use awesome_distributed_ai_i.Types.{NodeId, Edge}

pub record Endpoints : Type 0 where
  pub source : ℕ
  pub sink : ℕ
  pub edge : Edge

pub record PyDiGraph : Type 1 where
  pub Graph : Type 0
  pub empty : Graph
  -- The graph and the index of the new node.
  pub add_node : NodeId → Graph → Graph × ℕ
  pub remove_node : ℕ → Graph → Graph
  pub add_edge : (source sink : ℕ) → Edge → Graph → Graph
  pub remove_edge_from_index : ℕ → Graph → Graph
  -- `graph[i]`, none where it raises
  pub node_at : ℕ → Graph → Option NodeId
  pub nodes : Graph → List NodeId
  -- the endpoints and the data of the edge with the index, none if there is none
  pub edge_at : ℕ → Graph → Option Endpoints
  pub out_edge_indices : ℕ → Graph → List ℕ
  pub in_edge_indices : ℕ → Graph → List ℕ
  pub edge_indices_from_endpoints : (source sink : ℕ) → Graph → List ℕ
  -- none where it raises `NoEdgeBetweenNodes`
  pub get_all_edge_data : (source sink : ℕ) → Graph → Option (List Edge)
  pub weighted_edge_list : Graph → List Endpoints
  -- `rustworkx.simple_cycles`
  pub simple_cycles : Graph → List (List ℕ)
  pub node_indices : Graph → List ℕ
  pub has_edge : (source sink : ℕ) → Graph → Bool
  pub predecessor_indices : ℕ → Graph → List ℕ
  -- The nodes that an edge leads to, each once.
  pub neighbors : ℕ → Graph → List ℕ
  -- `rustworkx.digraph_all_simple_paths`
  pub all_simple_paths :
      (source : ℕ) → (targets : List ℕ) → (min_depth cutoff : ℕ) → Graph → List (List ℕ)

-- No index comes twice.
abbrev pub Distinct : List ℕ → Type 0
Distinct [] = Unit
Distinct (i ∷ indices) = ¬ In i indices × Distinct indices

-- The documented behaviour of the calls that build and read a graph.
pub record Laws (D : PyDiGraph) : Type 0 where
  pub node_at-empty : (i : ℕ) → D.node_at i D.empty ≡ none
  pub edge_at-empty : (e : ℕ) → D.edge_at e D.empty ≡ none
  -- A new node has an index of its own.
  pub add_node-new : (n : NodeId) (g : D.Graph) → D.node_at (D.add_node n g).1 g ≡ none
  pub node_at-add_node :
      (n : NodeId) (g : D.Graph) (i : ℕ)
      → D.node_at i (D.add_node n g).0 ≡ (if (D.add_node n g).1 == i then some n else D.node_at i g)
  pub edge_at-add_node :
      (n : NodeId) (g : D.Graph) (e : ℕ) → D.edge_at e (D.add_node n g).0 ≡ D.edge_at e g
  -- A node goes with its edges.
  pub node_at-remove_node :
      (i : ℕ) (g : D.Graph) (j : ℕ)
      → D.node_at j (D.remove_node i g) ≡ (if i == j then none else D.node_at j g)
  pub edge_at-remove_node :
      (i : ℕ) (g : D.Graph) (e : ℕ) (x : Endpoints)
      → (D.edge_at e (D.remove_node i g) ≡ some x)
        ↔ ((D.edge_at e g ≡ some x) × (x.source ≢ i) × (x.sink ≢ i))
  pub node_at-add_edge :
      (u v : ℕ) (d : Edge) (g : D.Graph) (i : ℕ) → D.node_at i (D.add_edge u v d g) ≡ D.node_at i g
  -- An edge between two nodes of the graph has an index of its own.
  pub edge_at-add_edge :
      (u v : ℕ) (d : Edge) (g : D.Graph) (n m : NodeId)
      → D.node_at u g ≡ some n
      → D.node_at v g ≡ some m
      → (e : ℕ) × (D.edge_at e g ≡ none)
        × ((f : ℕ)
            → D.edge_at f (D.add_edge u v d g) ≡ (
                if e == f then some (record { source = u; sink = v; edge = d }) else D.edge_at f g))
  pub node_at-remove_edge :
      (e : ℕ) (g : D.Graph) (i : ℕ) → D.node_at i (D.remove_edge_from_index e g) ≡ D.node_at i g
  pub edge_at-remove_edge :
      (e : ℕ) (g : D.Graph) (f : ℕ)
      → D.edge_at f (D.remove_edge_from_index e g) ≡ (if e == f then none else D.edge_at f g)
  -- What the listings list.
  pub nodes_iff :
      (g : D.Graph) (n : NodeId) → In n (D.nodes g) ↔ ((i : ℕ) × (D.node_at i g ≡ some n))
  pub out_edge_iff :
      (u : ℕ) (g : D.Graph) (e : ℕ)
      → In e (D.out_edge_indices u g)
        ↔ ((x : Endpoints) × (D.edge_at e g ≡ some x) × (x.source ≡ u))
  pub in_edge_iff :
      (v : ℕ) (g : D.Graph) (e : ℕ)
      → In e (D.in_edge_indices v g) ↔ ((x : Endpoints) × (D.edge_at e g ≡ some x) × (x.sink ≡ v))
  pub between_iff :
      (u v : ℕ) (g : D.Graph) (e : ℕ)
      → In e (D.edge_indices_from_endpoints u v g)
        ↔ ((x : Endpoints) × (D.edge_at e g ≡ some x) × (x.source ≡ u) × (x.sink ≡ v))
  pub out_edge-Distinct : (u : ℕ) (g : D.Graph) → Distinct (D.out_edge_indices u g)
  pub between-Distinct : (u v : ℕ) (g : D.Graph) → Distinct (D.edge_indices_from_endpoints u v g)
  -- The data of the edges between two nodes; the call raises if there are none.
  pub all_edge_data-some :
      (u v : ℕ) (g : D.Graph) (ds : List Edge) (d : Edge)
      → D.get_all_edge_data u v g ≡ some ds
      → In d ds ↔ ((e : ℕ) × (D.edge_at e g ≡ some (record { source = u; sink = v; edge = d })))
  pub all_edge_data-none :
      (u v : ℕ) (g : D.Graph) (d : Edge) (e : ℕ)
      → D.get_all_edge_data u v g ≡ none
      → D.edge_at e g ≢ some (record { source = u; sink = v; edge = d })
  pub edge_list_iff :
      (g : D.Graph) (x : Endpoints)
      → In x (D.weighted_edge_list g) ↔ ((e : ℕ) × (D.edge_at e g ≡ some x))
