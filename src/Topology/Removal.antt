-- ===== src/Topology/Removal.antt =====
-- Removing a connection from a topology.
use awesome_distributed_ai_i.Base.{
  ℕ, ◌≡◌, ◌≢◌, ◌↔◌, inl, inr, ap, Bool, true, some, In, Option-cases, ok,
}
use awesome_distributed_ai_i.Base.Dict.{get}
use awesome_distributed_ai_i.Types.{Edge, edge_eq, edge_eq_iff, Connection}
use awesome_distributed_ai_i.Topology.Graph.{PyDiGraph, Endpoints, Laws}
use awesome_distributed_ai_i.Topology.{Topology, remove_connection}
use awesome_distributed_ai_i.Topology.Nodes.{HasConnection, Connected, IsValid}
use awesome_distributed_ai_i.Topology.Edges.{Thins, AreEdges, drop_edges-Thins}

module _ (D : PyDiGraph) where
  pub thinned-IsValid :
      (t : Topology D) (g' : D.Graph) (P : ℕ → Endpoints → Type 0)
      → IsValid D t
      → Thins D P t.graph g'
      → IsValid D (record t { graph = g' })
  thinned-IsValid t g' P valid thins = record {
    indexed = λ n i h. cc (valid.indexed n i h, thins.nodes i);
    listed = λ n i h. valid.listed n i (cc (h, thins.nodes i));
    joins_source = λ e x h.
        let (n, at) = valid.joins_source e x ((thins.edges e x).0 h).0 in
        (n, cc (at, thins.nodes x.source));
    joins_sink = λ e x h.
        let (n, at) = valid.joins_sink e x ((thins.edges e x).0 h).0 in
        (n, cc (at, thins.nodes x.sink));
  }

  -- What a removal of edges removes, told of the connections.
  pub thinned-connections :
      (g g' : D.Graph) (P : ℕ → Endpoints → Type 0) (Q : Connection → Type 0)
      → Thins D P g g'
      → ((c : Connection) (h : HasConnection D g c) → P h.index h.ends ↔ Q c)
      → (c : Connection) → HasConnection D g' c ↔ (HasConnection D g c × ¬ Q c)
  thinned-connections g g' P Q thins same c = (
    λ h.
        let (old, stays) = (thins.edges h.index h.ends).0 h.found in
        let was : HasConnection D g c = record {
          index = h.index;
          ends = h.ends;
          found = old;
          source = cc (h.source, thins.nodes h.ends.source);
          sink = cc (h.sink, thins.nodes h.ends.sink);
          edge = h.edge;
        } in
        (was, λ q. stays ((same c was).1 q)),
    λ k.
        let (h, stays) = k in
        record {
          index = h.index;
          ends = h.ends;
          found = (thins.edges h.index h.ends).1 (h.found, λ p. stays ((same c h).0 p));
          source = cc (h.source, thins.nodes h.ends.source);
          sink = cc (h.sink, thins.nodes h.ends.sink);
          edge = h.edge;
        },
  )

  module _ (laws : Laws D) where
    -- The edges that `remove_connection` finds are those of the connection.
    found_edges :
        (conn : Connection) (t : Topology D) (u v : ℕ)
        → IsValid D t
        → get conn.source t.vertex_indices ≡ some u
        → get conn.sink t.vertex_indices ≡ some v
        → (c : Connection) (h : Connected D t c)
        → (In h.index (D.edge_indices_from_endpoints u v t.graph)
            × (edge_eq h.ends.edge conn.edge ≡ true))
          ↔ (c ≡ conn)
    found_edges conn t u v valid e f c h = (
      λ d.
          let (x, at, from, to) = (laws.between_iff u v t.graph h.index).0 d.0 in
          let one : some x ≡ some h.ends = cc (at, h.found) in
          let ends : x ≡ h.ends = cc in
          let source_ends = ap (λ (y : Endpoints). y.source) ends in
          let sink_ends = ap (λ (y : Endpoints). y.sink) ends in
          let same_source : c.source ≡ conn.source =
            cc (h.source, source_ends, from, valid.indexed conn.source u e) in
          let same_sink : c.sink ≡ conn.sink =
            cc (h.sink, sink_ends, to, valid.indexed conn.sink v f) in
          let same_edge : c.edge ≡ conn.edge =
            cc (h.edge, (edge_eq_iff h.ends.edge conn.edge).0 d.1) in
          cc (same_source, same_sink, same_edge),
      λ same.
          let same_source = ap (λ (k : Connection). k.source) same in
          let same_sink = ap (λ (k : Connection). k.sink) same in
          let same_edge = ap (λ (k : Connection). k.edge) same in
          let from : some h.ends.source ≡ some u =
            cc (e, same_source, valid.listed c.source h.ends.source h.source) in
          let to : some h.ends.sink ≡ some v =
            cc (f, same_sink, valid.listed c.sink h.ends.sink h.sink) in
          (
            (laws.between_iff u v t.graph h.index).1 (h.ends, h.found, cc, cc),
            (edge_eq_iff h.ends.edge conn.edge).1 (cc (h.edge, same_edge)),
          ),
    )

    -- Removing a connection of a well-formed topology removes it and no other, raises nothing,
    -- and leaves the topology well-formed.
    pub remove_connection-exact :
        (conn : Connection) (t : Topology D)
        → IsValid D t
        → (t' : Topology D) × (remove_connection D conn t ≡ ok t')
          × IsValid D t'
          × ((c : Connection) → Connected D t' c ↔ (Connected D t c × (c ≢ conn)))
    unfolding remove_connection
    remove_connection-exact conn t valid = elim (Option-cases (get conn.source t.vertex_indices)) [
      | inl e ↦ (
        t,
        rw e,
        valid,
        λ c. (
          λ h. (
            h,
            λ same.
                let at = ap (λ (k : Connection). k.source) same in
                cc (e, at, valid.listed c.source h.ends.source h.source),
          ),
          λ h. h.0,
        ),
      )
      | inr (u, e) ↦ elim (Option-cases (get conn.sink t.vertex_indices)) [
        | inl f ↦ (
          t,
          rw (e, f),
          valid,
          λ c. (
            λ h. (
              h,
              λ same.
                  let at = ap (λ (k : Connection). k.sink) same in
                  cc (f, at, valid.listed c.sink h.ends.sink h.sink),
            ),
            λ h. h.0,
          ),
        )
        | inr (v, f) ↦
            let test : Edge → Bool = λ edge. edge_eq edge conn.edge in
            let indices = D.edge_indices_from_endpoints u v t.graph in
            let are_edges : AreEdges D indices t.graph =
              λ i m. let (x, at, _, _) = (laws.between_iff u v t.graph i).0 m in (x, at) in
            let (g', dropped, thins) =
              drop_edges-Thins D laws test indices t.graph (laws.between-Distinct u v t.graph)
                are_edges in
            (
              record t { graph = g' },
              rw (e, f, dropped),
              thinned-IsValid t g' (λ i x. In i indices × (test x.edge ≡ true)) valid thins,
              thinned-connections t.graph g' (λ i x. In i indices × (test x.edge ≡ true))
                  (λ c. c ≡ conn) thins (found_edges conn t u v valid e f),
            )
      ]
    ]
