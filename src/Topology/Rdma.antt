-- ===== src/Topology/Rdma.antt =====
-- Removing and replacing the RDMA connections of a node.
use awesome_distributed_ai_i.Base.{
  ℕ, ◌≡◌, ◌↔◌, ◌⊎◌, inl, inr, ap, true, some, List, ◌++◌, In, In-append, Option-cases, ok,
}
use awesome_distributed_ai_i.Base.Dict.{get}
use awesome_distributed_ai_i.Types.{NodeId, is_rdma, Connection}
use awesome_distributed_ai_i.Topology.Graph.{PyDiGraph, Endpoints, Laws}
use awesome_distributed_ai_i.Topology.{
  Topology, remove_edges, remove_all_rdma_connections_touching, replace_all_out_rdma_connections,
}
use awesome_distributed_ai_i.Topology.Nodes.{Connected, IsValid}
use awesome_distributed_ai_i.Topology.Edges.{
  AreEdges, drop_edges-Thins, edges_with-lem, remove_edges-Thins,
}
use awesome_distributed_ai_i.Topology.Connections.{add_connections-all}
use awesome_distributed_ai_i.Topology.Removal.{thinned-IsValid, thinned-connections}

module _ (D : PyDiGraph) (laws : Laws D) where
  -- An edge leaves the node with the index exactly when its connection has the node as source.
  leaves :
      (t : Topology D) (n : NodeId) (u : ℕ)
      → IsValid D t
      → get n t.vertex_indices ≡ some u
      → (c : Connection) (h : Connected D t c)
      → In h.index (D.out_edge_indices u t.graph) ↔ (c.source ≡ n)
  leaves t n u valid e c h = (
    λ m.
        let (x, at, from) = (laws.out_edge_iff u t.graph h.index).0 m in
        let one : some x ≡ some h.ends = cc (at, h.found) in
        let ends : x ≡ h.ends = cc in
        let source_ends = ap (λ (y : Endpoints). y.source) ends in
        cc (h.source, source_ends, from, valid.indexed n u e),
    λ same.
        let from : some h.ends.source ≡ some u =
          cc (e, same, valid.listed c.source h.ends.source h.source) in
        (laws.out_edge_iff u t.graph h.index).1 (h.ends, h.found, cc),
  )

  enters :
      (t : Topology D) (n : NodeId) (v : ℕ)
      → IsValid D t
      → get n t.vertex_indices ≡ some v
      → (c : Connection) (h : Connected D t c)
      → In h.index (D.in_edge_indices v t.graph) ↔ (c.sink ≡ n)
  enters t n v valid e c h = (
    λ m.
        let (x, at, to) = (laws.in_edge_iff v t.graph h.index).0 m in
        let one : some x ≡ some h.ends = cc (at, h.found) in
        let ends : x ≡ h.ends = cc in
        let sink_ends = ap (λ (y : Endpoints). y.sink) ends in
        cc (h.sink, sink_ends, to, valid.indexed n v e),
    λ same.
        let to : some h.ends.sink ≡ some v = cc (e, same, valid.listed c.sink h.ends.sink h.sink) in
        (laws.in_edge_iff v t.graph h.index).1 (h.ends, h.found, cc),
  )

  -- The connection is RDMA and has the node as an end.
  abbrev pub TouchesByRdma : NodeId → Connection → Type 0
  TouchesByRdma n c = (is_rdma c.edge ≡ true) × ((c.source ≡ n) ⊎ (c.sink ≡ n))

  incident :
      (u : ℕ) (t : Topology D)
      → AreEdges D (D.out_edge_indices u t.graph ++ D.in_edge_indices u t.graph) t.graph
  incident u t i m =
      elim ((In-append (D.out_edge_indices u t.graph) (D.in_edge_indices u t.graph)).0 m) [
        | inl out ↦ let (x, at, _) = (laws.out_edge_iff u t.graph i).0 out in (x, at)
        | inr into ↦ let (x, at, _) = (laws.in_edge_iff u t.graph i).0 into in (x, at)
      ]

  -- Of a well-formed topology, the method drops exactly the RDMA connections with the node as
  -- an end, raises nothing, and leaves the topology well-formed.
  pub remove_all_rdma-exact :
      (n : NodeId) (t : Topology D)
      → IsValid D t
      → (t' : Topology D) × (remove_all_rdma_connections_touching D n t ≡ ok t')
        × IsValid D t'
        × ((c : Connection) → Connected D t' c ↔ (Connected D t c × ¬ TouchesByRdma n c))
  unfolding remove_all_rdma_connections_touching
  remove_all_rdma-exact n t valid = elim (Option-cases (get n t.vertex_indices)) [
    | inl e ↦ (
      t,
      rw e,
      valid,
      λ c. (
        λ h. (
          h,
          λ d. elim d.1 [
            | inl from ↦ cc (e, from, valid.listed c.source h.ends.source h.source)
            | inr to ↦ cc (e, to, valid.listed c.sink h.ends.sink h.sink)
          ],
        ),
        λ h. h.0,
      ),
    )
    | inr (u, e) ↦
        let (found, collected, law) =
          edges_with-lem D laws is_rdma
            (D.out_edge_indices u t.graph ++ D.in_edge_indices u t.graph) t.graph (incident u t) in
        let thins = remove_edges-Thins D laws is_rdma found t.graph in
        (
          record t { graph = remove_edges D found t.graph },
          rw (e, collected),
          thinned-IsValid D t (remove_edges D found t.graph) (λ i x. In i found) valid thins,
          thinned-connections D t.graph (remove_edges D found t.graph) (λ i x. In i found)
              (TouchesByRdma n) thins
              (λ c h. (
                λ m.
                    let (listed, hit) = (law h.index h.ends h.found).0 m in
                    (
                      cc (hit, ap is_rdma h.edge),
                      elim ((In-append (D.out_edge_indices u t.graph)
                            (D.in_edge_indices u t.graph)).0
                          listed) [
                            | inl i ↦ inl ((leaves t n u valid e c h).0 i)
                            | inr i ↦ inr ((enters t n u valid e c h).0 i)
                          ],
                    ),
                λ d. (law h.index h.ends h.found).1 (
                  (In-append (D.out_edge_indices u t.graph) (D.in_edge_indices u t.graph)).1
                      (elim d.1 [
                        | inl from ↦ inl ((leaves t n u valid e c h).1 from)
                        | inr to ↦ inr ((enters t n u valid e c h).1 to)
                      ]),
                  cc (d.0, ap is_rdma h.edge),
                ),
              )),
        )
  ]

  -- In a well-formed topology with the node, the connections are afterwards the given ones and
  -- those there were that are not RDMA connections out of the node; the method raises nothing
  -- and leaves the topology well-formed.
  pub replace_all_out_rdma-exact :
      (n : NodeId) (u : ℕ) (conns : List Connection) (t : Topology D)
      → IsValid D t
      → get n t.vertex_indices ≡ some u
      → (t' : Topology D) × (replace_all_out_rdma_connections D n conns t ≡ ok t')
        × IsValid D t'
        × ((c : Connection)
            → Connected D t' c
              ↔ (In c conns ⊎ (Connected D t c × ¬ ((is_rdma c.edge ≡ true) × (c.source ≡ n)))))
  unfolding replace_all_out_rdma_connections
  replace_all_out_rdma-exact n u conns t valid e =
      let are_edges : AreEdges D (D.out_edge_indices u t.graph) t.graph =
        λ i m. let (x, at, _) = (laws.out_edge_iff u t.graph i).0 m in (x, at) in
      let (g', dropped, thins) =
        drop_edges-Thins D laws is_rdma (D.out_edge_indices u t.graph) t.graph
          (laws.out_edge-Distinct u t.graph) are_edges in
      let left =
        thinned-connections D t.graph g'
          (λ i x. In i (D.out_edge_indices u t.graph) × (is_rdma x.edge ≡ true))
          (λ c. (is_rdma c.edge ≡ true) × (c.source ≡ n)) thins
          (λ c h. (
            λ d. (cc (d.1, ap is_rdma h.edge), (leaves t n u valid e c h).0 d.0),
            λ d. ((leaves t n u valid e c h).1 d.1, cc (d.0, ap is_rdma h.edge)),
          )) in
      let (t', added, valid', law) =
        add_connections-all D laws conns (record t { graph = g' })
          (thinned-IsValid D t g'
            (λ i x. In i (D.out_edge_indices u t.graph) × (is_rdma x.edge ≡ true)) valid thins) in
      (
        t',
        rw (e, dropped) added,
        valid',
        λ c. (
          λ h. elim ((law c).0 h) [ inl m ↦ inl m | inr old ↦ inr ((left c).0 old) ],
          λ h. elim h [ inl m ↦ (law c).1 (inl m) | inr old ↦ (law c).1 (inr ((left c).1 old)) ],
        ),
      )
