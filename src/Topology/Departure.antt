-- ===== src/Topology/Departure.antt =====
-- Removing a node from a topology.
use awesome_distributed_ai_i.Base.{
  ℕ, ◌≡◌, ◌≢◌, ◌↔◌, inl, inr, refl, none, some, ◌==◌, Bool-cases, Option-cases, arith,
}
use awesome_distributed_ai_i.Base.Dict.{get, remove, get-remove, get-remove_self, get-remove_ne}
use awesome_distributed_ai_i.Types.{NodeId, Connection}
use awesome_distributed_ai_i.Topology.Graph.{PyDiGraph, Laws}
use awesome_distributed_ai_i.Topology.{Topology, remove_node}
use awesome_distributed_ai_i.Topology.Nodes.{HasConnection, Connected, IsValid}

module _ (D : PyDiGraph) (laws : Laws D) where
  -- The node is in neither index of the second topology, and the other nodes are where they were in the first.
  pub record IsGone (t : Topology D) (n : NodeId) (t' : Topology D) : Type 0 where
    pub no_index : get n t'.vertex_indices ≡ none
    pub no_vertex : (i : ℕ) → D.node_at i t'.graph ≢ some n
    pub others : (m : NodeId) → n ≢ m → get m t'.vertex_indices ≡ get m t.vertex_indices

  module _ (t : Topology D) (n : NodeId) (u : ℕ) (valid : IsValid D t)
      (e : get n t.vertex_indices ≡ some u) where
    -- The other nodes stay where they are.
    stays :
        (i : ℕ) (m : NodeId)
        → i ≢ u
        → D.node_at i t.graph ≡ some m
        → D.node_at i (D.remove_node u t.graph) ≡ some m
    stays i m ne h = ground (arith, laws.node_at-remove_node u t.graph i)

    removed-IsValid :
        IsValid D
          (record { graph = D.remove_node u t.graph; vertex_indices = remove n t.vertex_indices })
    removed-IsValid = record {
      indexed = λ m i h.
          let was : get m t.vertex_indices ≡ some i =
            ground (arith, get-remove n m t.vertex_indices) in
          let other : n ≢ m = λ same. ground (arith, get-remove n m t.vertex_indices) in
          stays i m
            (λ at.
              let both : some n ≡ some m = cc (valid.indexed n u e, valid.indexed m i was, at) in
              other cc)
            (valid.indexed m i was);
      listed = λ m i h.
          let was : D.node_at i t.graph ≡ some m =
            ground (arith, laws.node_at-remove_node u t.graph i) in
          let moved : u ≢ i = λ same. ground (arith, laws.node_at-remove_node u t.graph i) in
          let old = valid.listed m i was in
          elim (Bool-cases (n == m)) [
            | inl same ↦
                let at : n ≡ m = ground arith in
                let both : some u ≡ some i = cc (e, old, at) in absurd (moved cc)
            | inr other ↦ ground (arith, get-remove n m t.vertex_indices)
          ];
      joins_source = λ i x h.
          let (old, from, to) = (laws.edge_at-remove_node u t.graph i x).0 h in
          let (m, at) = valid.joins_source i x old in (m, stays x.source m from at);
      joins_sink = λ i x h.
          let (old, from, to) = (laws.edge_at-remove_node u t.graph i x).0 h in
          let (m, at) = valid.joins_sink i x old in (m, stays x.sink m to at);
    }

    removed-IsGone :
        IsGone t n
          (record { graph = D.remove_node u t.graph; vertex_indices = remove n t.vertex_indices })
    removed-IsGone = record {
      no_index = get-remove_self n t.vertex_indices;
      no_vertex = λ i h. cc (get-remove_self n t.vertex_indices, removed-IsValid.listed n i h);
      others = λ m ne. get-remove_ne n m t.vertex_indices ne;
    }

    removed_connections :
        (c : Connection)
        → HasConnection D (D.remove_node u t.graph) c
          ↔ (Connected D t c × (c.source ≢ n) × (c.sink ≢ n))
    removed_connections c = (
      λ h.
          let (old, from, to) = (laws.edge_at-remove_node u t.graph h.index h.ends).0 h.found in
          let source_was : D.node_at h.ends.source t.graph ≡ some c.source =
            let kept = h.source in
            ground (arith, laws.node_at-remove_node u t.graph h.ends.source) in
          let sink_was : D.node_at h.ends.sink t.graph ≡ some c.sink =
            let kept = h.sink in ground (arith, laws.node_at-remove_node u t.graph h.ends.sink) in
          (
            record {
              index = h.index;
              ends = h.ends;
              found = old;
              source = source_was;
              sink = sink_was;
              edge = h.edge;
            },
            λ same.
                let both : some u ≡ some h.ends.source =
                  cc (e, same, valid.listed c.source h.ends.source source_was) in
                from cc,
            λ same.
                let both : some u ≡ some h.ends.sink =
                  cc (e, same, valid.listed c.sink h.ends.sink sink_was) in
                to cc,
          ),
      λ k.
          let (h, not_source, not_sink) = k in
          let from : h.ends.source ≢ u = λ at.
            let both : some c.source ≡ some n = cc (h.source, at, valid.indexed n u e) in
            not_source cc in
          let to : h.ends.sink ≢ u = λ at.
            let both : some c.sink ≡ some n = cc (h.sink, at, valid.indexed n u e) in not_sink cc in
          record {
            index = h.index;
            ends = h.ends;
            found = (laws.edge_at-remove_node u t.graph h.index h.ends).1 (h.found, from, to);
            source = stays h.ends.source c.source from h.source;
            sink = stays h.ends.sink c.sink to h.sink;
            edge = h.edge;
          },
    )

  -- From a well-formed topology a node goes: it has no index, no vertex of the graph is it, and the others keep their
  -- indices. Its connections go with it and no other connection goes, and the topology stays well-formed.
  pub remove_node-exact :
      (n : NodeId) (t : Topology D)
      → IsValid D t
      → IsValid D (remove_node D n t)
        × ((c : Connection)
            → Connected D (remove_node D n t) c ↔ (Connected D t c × (c.source ≢ n) × (c.sink ≢ n)))
        × IsGone t n (remove_node D n t)
  unfolding remove_node
  remove_node-exact n t valid = elim (Option-cases (get n t.vertex_indices)) [
    | inl e ↦ rw e (
      valid,
      λ c. (
        λ h. (
          h,
          λ same. cc (e, same, valid.listed c.source h.ends.source h.source),
          λ same. cc (e, same, valid.listed c.sink h.ends.sink h.sink),
        ),
        λ h. h.0,
      ),
      record { no_index = e; no_vertex = λ i h. cc (e, valid.listed n i h); others = λ m h. refl },
    )
    | inr (u, e) ↦ rw e (
      removed-IsValid t n u valid e,
      removed_connections t n u valid e,
      removed-IsGone t n u valid e,
    )
  ]
