-- ===== src/Topology/Nodes.antt =====
-- The abstract view of `Topology`: its nodes and the connections between them, and the agreement of
-- its two indices with the graph.
use awesome_distributed_ai_i.Base.{
  ℕ, ◌≡◌, ◌↔◌, inl, inr, none, some, ◌==◌, Bool-cases, Option-cases, arith,
}
use awesome_distributed_ai_i.Base.Dict.{get, set, get-set, get-set_self}
use awesome_distributed_ai_i.Types.{NodeId, Connection}
use awesome_distributed_ai_i.Topology.Graph.{PyDiGraph, Endpoints, Laws}
use awesome_distributed_ai_i.Topology.{Topology, new, add_node}

module _ (D : PyDiGraph) where
  -- The graph has an edge for the connection.
  pub record HasConnection (g : D.Graph) (c : Connection) : Type 0 where
    pub index : ℕ
    pub ends : Endpoints
    pub found : D.edge_at index g ≡ some ends
    pub source : D.node_at ends.source g ≡ some c.source
    pub sink : D.node_at ends.sink g ≡ some c.sink
    pub edge : ends.edge ≡ c.edge

  abbrev pub Connected : Topology D → Connection → Type 0
  Connected t c = HasConnection t.graph c

  -- `_vertex_indices` has the nodes of the graph with their indices, and edges join nodes.
  pub record IsValid (t : Topology D) : Type 0 where
    pub indexed :
        (n : NodeId) (i : ℕ) → get n t.vertex_indices ≡ some i → D.node_at i t.graph ≡ some n
    pub listed :
        (n : NodeId) (i : ℕ) → D.node_at i t.graph ≡ some n → get n t.vertex_indices ≡ some i
    pub joins_source :
        (e : ℕ) (x : Endpoints)
        → D.edge_at e t.graph ≡ some x
        → (n : NodeId) × (D.node_at x.source t.graph ≡ some n)
    pub joins_sink :
        (e : ℕ) (x : Endpoints)
        → D.edge_at e t.graph ≡ some x
        → (n : NodeId) × (D.node_at x.sink t.graph ≡ some n)

  module _ (laws : Laws D) where
    pub new-IsValid : IsValid (new D)
    unfolding new get
    new-IsValid = record {
      indexed = λ n i h. cc;
      listed = λ n i h. cc (h, laws.node_at-empty i);
      joins_source = λ e x h. cc (h, laws.edge_at-empty e);
      joins_sink = λ e x h. cc (h, laws.edge_at-empty e);
    }

    module _ (t : Topology D) (node_id : NodeId) (valid : IsValid t)
        (absent : get node_id t.vertex_indices ≡ none) where
      abbrev added : D.Graph
      added = (D.add_node node_id t.graph).0

      abbrev new_index : ℕ
      new_index = (D.add_node node_id t.graph).1

      -- A node that was there is still there, at its index.
      kept : (i : ℕ) (n : NodeId) → D.node_at i t.graph ≡ some n → D.node_at i added ≡ some n
      kept i n h =
          ground (arith, laws.node_at-add_node node_id t.graph i, laws.add_node-new node_id t.graph)

      add_absent-IsValid :
          IsValid
            (record { graph = added; vertex_indices = set node_id new_index t.vertex_indices })
      add_absent-IsValid = record {
        indexed = λ n i h. elim (Bool-cases (node_id == n)) [
          | inl same ↦
              let at : some new_index ≡ some i =
                ground (arith, get-set node_id n new_index t.vertex_indices) in
              ground (arith, laws.node_at-add_node node_id t.graph i)
          | inr other ↦
              kept i n
                (valid.indexed n i (ground (arith, get-set node_id n new_index t.vertex_indices)))
        ];
        listed = λ n i h. elim (Bool-cases (new_index == i)) [
          | inl same ↦
              let at : some node_id ≡ some n =
                ground (arith, laws.node_at-add_node node_id t.graph i) in
              ground (arith, get-set node_id n new_index t.vertex_indices)
          | inr other ↦
              let old =
                valid.listed n i (ground (arith, laws.node_at-add_node node_id t.graph i)) in
              ground (arith, get-set node_id n new_index t.vertex_indices)
        ];
        joins_source = λ e x h.
            let (n, at) =
              valid.joins_source e x (cc (h, laws.edge_at-add_node node_id t.graph e)) in
            (n, kept x.source n at);
        joins_sink = λ e x h.
            let (n, at) = valid.joins_sink e x (cc (h, laws.edge_at-add_node node_id t.graph e)) in
            (n, kept x.sink n at);
      }

      from_added : (c : Connection) → HasConnection added c → HasConnection t.graph c
      from_added c h =
          let was : D.edge_at h.index t.graph ≡ some h.ends =
            cc (h.found, laws.edge_at-add_node node_id t.graph h.index) in
          let (n, at) = valid.joins_source h.index h.ends was in
          let (m, to) = valid.joins_sink h.index h.ends was in
          record {
            index = h.index;
            ends = h.ends;
            found = was;
            source = cc (h.source, at, kept h.ends.source n at);
            sink = cc (h.sink, to, kept h.ends.sink m to);
            edge = h.edge;
          }

      to_added : (c : Connection) → HasConnection t.graph c → HasConnection added c
      to_added c h = record {
        index = h.index;
        ends = h.ends;
        found = cc (h.found, laws.edge_at-add_node node_id t.graph h.index);
        source = kept h.ends.source c.source h.source;
        sink = kept h.ends.sink c.sink h.sink;
        edge = h.edge;
      }

    -- What adding a node does to a well-formed topology.
    pub record Adds (node_id : NodeId) (t t' : Topology D) : Type 0 where
      pub valid : IsValid t'
      pub at : ℕ
      pub there : get node_id t'.vertex_indices ≡ some at
      pub still :
          (n : NodeId) (i : ℕ) → get n t.vertex_indices ≡ some i → get n t'.vertex_indices ≡ some i
      pub same_connections : (c : Connection) → Connected t' c ↔ Connected t c

    -- The node is there afterwards, the others keep their indices, and no connection changes.
    pub add_node-Adds :
        (node_id : NodeId) (t : Topology D) → IsValid t → Adds node_id t (add_node D node_id t)
    unfolding add_node
    add_node-Adds node_id t valid = elim (Option-cases (get node_id t.vertex_indices)) [
      | inl absent ↦ rw absent record {
        valid = add_absent-IsValid t node_id valid absent;
        at = (D.add_node node_id t.graph).1;
        there = get-set_self node_id (D.add_node node_id t.graph).1 t.vertex_indices;
        still = λ n i h.
            ground (arith, get-set node_id n (D.add_node node_id t.graph).1 t.vertex_indices);
        same_connections =
            λ c. (from_added t node_id valid absent c, to_added t node_id valid absent c);
      }
      | inr (i, present) ↦ rw present record {
        valid = valid;
        at = i;
        there = present;
        still = λ n j h. h;
        same_connections = λ c. (λ h. h, λ h. h);
      }
    ]
