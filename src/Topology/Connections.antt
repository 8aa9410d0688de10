-- ===== src/Topology/Connections.antt =====
-- Adding connections to a topology.
use awesome_distributed_ai_i.Base.{
  ℕ, ◌≡◌, ◌↔◌, ◌⊎◌, inl, inr, refl, sym, ap, subst, none, some, List, [], ◌∷◌, In, here, there, any,
  any-In, any-false, true, false, if◌then◌else◌, ◌==◌, ==_self, Bool-cases, Option-cases, arith, ok,
}
use awesome_distributed_ai_i.Base.Dict.{get}
use awesome_distributed_ai_i.Types.{NodeId, edge_eq, edge_eq_iff, Connection}
use awesome_distributed_ai_i.Topology.Graph.{PyDiGraph, Endpoints, Laws}
use awesome_distributed_ai_i.Topology.{
  Topology, new, add_node, get_all_connections_between, add_connection, add_connections,
}
use awesome_distributed_ai_i.Topology.Nodes.{HasConnection, Connected, IsValid, add_node-Adds}

module _ (D : PyDiGraph) (laws : Laws D) where
  listed_edges :
      (t : Topology D) (c : Connection)
      → IsValid D t
      → In c.edge (get_all_connections_between D c.source c.sink t)
      → Connected D t c
  unfolding get_all_connections_between
  listed_edges t c valid m = elim (Option-cases (get c.source t.vertex_indices)) [
    | inl e ↦ let nothing = rw e at m in elim nothing [ ]
    | inr (u, e) ↦ elim (Option-cases (get c.sink t.vertex_indices)) [
      | inl f ↦ let nothing = rw (e, f) at m in elim nothing [ ]
      | inr (v, f) ↦ elim (Option-cases (D.get_all_edge_data u v t.graph)) [
        | inl g ↦ let nothing = rw (e, f, g) at m in elim nothing [ ]
        | inr (ds, g) ↦
            let listed : In c.edge ds = rw (e, f, g) at m in
            let (i, found) = (laws.all_edge_data-some u v t.graph ds c.edge g).0 listed in
            record {
              index = i;
              ends = record { source = u; sink = v; edge = c.edge };
              found = found;
              source = valid.indexed c.source u e;
              sink = valid.indexed c.sink v f;
              edge = refl;
            }
      ]
    ]
  ]

  edges_listed :
      (t : Topology D) (c : Connection)
      → IsValid D t
      → Connected D t c
      → In c.edge (get_all_connections_between D c.source c.sink t)
  unfolding get_all_connections_between
  edges_listed t c valid h =
      let e = valid.listed c.source h.ends.source h.source in
      let f = valid.listed c.sink h.ends.sink h.sink in
      let at : D.edge_at h.index t.graph
          ≡ some (record { source = h.ends.source; sink = h.ends.sink; edge = c.edge }) =
        cc (h.found, h.edge) in
      elim (Option-cases (D.get_all_edge_data h.ends.source h.ends.sink t.graph)) [
        | inl g ↦
            absurd (laws.all_edge_data-none h.ends.source h.ends.sink t.graph c.edge h.index g at)
        | inr (ds, g) ↦
            rw (e, f, g)
              ((laws.all_edge_data-some h.ends.source h.ends.sink t.graph ds c.edge g).1
                (h.index, at))
      ]

  -- What adding a connection does to a well-formed topology.
  pub record Joins (conn : Connection) (t : Topology D) (t' : Topology D) : Type 0 where
    pub valid : IsValid D t'
    pub connections : (c : Connection) → Connected D t' c ↔ ((c ≡ conn) ⊎ Connected D t c)
    pub still :
        (n : NodeId) (i : ℕ) → get n t.vertex_indices ≡ some i → get n t'.vertex_indices ≡ some i

  module _ (conn : Connection) (t : Topology D) (u v : ℕ) (valid : IsValid D t)
      (from : get conn.source t.vertex_indices ≡ some u)
      (to : get conn.sink t.vertex_indices ≡ some v) where
    abbrev pub joined : D.Graph
    joined = D.add_edge u v conn.edge t.graph

    abbrev new_ends : Endpoints
    new_ends = record { source = u; sink = v; edge = conn.edge }

    new_edge :
        (i : ℕ) × (D.edge_at i t.graph ≡ none)
        × ((f : ℕ) → D.edge_at f joined ≡ (if i == f then some new_ends else D.edge_at f t.graph))
    new_edge =
        laws.edge_at-add_edge u v conn.edge t.graph conn.source conn.sink
          (valid.indexed conn.source u from) (valid.indexed conn.sink v to)

    edge_after :
        (e : ℕ) (x : Endpoints)
        → D.edge_at e joined ≡ some x
        → (new_ends ≡ x) ⊎ (D.edge_at e t.graph ≡ some x)
    edge_after e x h =
        let (i, fresh, law) = new_edge in
        elim (Bool-cases (i == e)) [
          | inl same ↦ let both : some new_ends ≡ some x = rw (law e, same) at h in inl cc
          | inr other ↦ inr (rw (law e, other) at h)
        ]

    edge_still :
        (e : ℕ) (x : Endpoints) → D.edge_at e t.graph ≡ some x → D.edge_at e joined ≡ some x
    edge_still e x h =
        let (i, fresh, law) = new_edge in
        elim (Bool-cases (i == e)) [
          | inl same ↦ let at : i ≡ e = ground arith in cc
          | inr other ↦ rw (law e, other) h
        ]

    joined-IsValid : IsValid D (record t { graph = joined })
    joined-IsValid = record {
      indexed = λ n i h. cc (valid.indexed n i h, laws.node_at-add_edge u v conn.edge t.graph i);
      listed = λ n i h. valid.listed n i (cc (h, laws.node_at-add_edge u v conn.edge t.graph i));
      joins_source = λ e x h. elim (edge_after e x h) [
        | inl new ↦ (
          conn.source,
          cc (
            ap (λ (y : Endpoints). y.source) new,
            valid.indexed conn.source u from,
            laws.node_at-add_edge u v conn.edge t.graph u,
          ),
        )
        | inr old ↦
            let (n, at) = valid.joins_source e x old in
            (n, cc (at, laws.node_at-add_edge u v conn.edge t.graph x.source))
      ];
      joins_sink = λ e x h. elim (edge_after e x h) [
        | inl new ↦ (
          conn.sink,
          cc (
            ap (λ (y : Endpoints). y.sink) new,
            valid.indexed conn.sink v to,
            laws.node_at-add_edge u v conn.edge t.graph v,
          ),
        )
        | inr old ↦
            let (n, at) = valid.joins_sink e x old in
            (n, cc (at, laws.node_at-add_edge u v conn.edge t.graph x.sink))
      ];
    }

    connections_after :
        (c : Connection) → HasConnection D joined c → (c ≡ conn) ⊎ HasConnection D t.graph c
    connections_after c h =
        let source_at = laws.node_at-add_edge u v conn.edge t.graph h.ends.source in
        let sink_at = laws.node_at-add_edge u v conn.edge t.graph h.ends.sink in
        elim (edge_after h.index h.ends h.found) [
          | inl new ↦
              let from_u = ap (λ (y : Endpoints). y.source) new in
              let to_v = ap (λ (y : Endpoints). y.sink) new in
              let same_edge = ap (λ (y : Endpoints). y.edge) new in
              let one : c.source ≡ conn.source =
                cc (h.source, source_at, from_u, valid.indexed conn.source u from) in
              let two : c.sink ≡ conn.sink =
                cc (h.sink, sink_at, to_v, valid.indexed conn.sink v to) in
              let three : c.edge ≡ conn.edge = cc (h.edge, same_edge) in inl cc
          | inr old ↦ inr record {
            index = h.index;
            ends = h.ends;
            found = old;
            source = cc (h.source, source_at);
            sink = cc (h.sink, sink_at);
            edge = h.edge;
          }
        ]

    connection_still : (c : Connection) → HasConnection D t.graph c → HasConnection D joined c
    connection_still c h = record {
      index = h.index;
      ends = h.ends;
      found = edge_still h.index h.ends h.found;
      source = cc (h.source, laws.node_at-add_edge u v conn.edge t.graph h.ends.source);
      sink = cc (h.sink, laws.node_at-add_edge u v conn.edge t.graph h.ends.sink);
      edge = h.edge;
    }

    connection_new : HasConnection D joined conn
    connection_new =
        let (i, fresh, law) = new_edge in
        record {
          index = i;
          ends = new_ends;
          found = ground (arith, law i, ==_self i);
          source =
              cc (valid.indexed conn.source u from, laws.node_at-add_edge u v conn.edge t.graph u);
          sink = cc (valid.indexed conn.sink v to, laws.node_at-add_edge u v conn.edge t.graph v);
          edge = refl;
        }

    pub joined-Joins : Joins conn t (record t { graph = joined })
    joined-Joins = record {
      valid = joined-IsValid;
      connections = λ c. (
        connections_after c,
        λ h. elim h [
          | inl same ↦ subst (λ k. HasConnection D joined k) (sym same) connection_new
          | inr old ↦ connection_still c old
        ],
      );
      still = λ n i h. h;
    }

  kept_Joins :
      (conn : Connection) (t : Topology D) → IsValid D t → Connected D t conn → Joins conn t t
  kept_Joins conn t valid h = record {
    valid = valid;
    connections = λ c. (
      λ k. inr k,
      λ k. elim k [ inl same ↦ subst (λ c'. Connected D t c') (sym same) h | inr old ↦ old ],
    );
    still = λ n i e. e;
  }

  -- Adding a connection to a well-formed topology raises nothing; afterwards it is one of the
  -- connections, the others are those there were, and the topology is well-formed. If it was there
  -- before, the topology is the same as before, so that no connection is stored twice.
  pub add_connection-Joins :
      (conn : Connection) (t : Topology D)
      → IsValid D t
      → (t' : Topology D) × (add_connection D conn t ≡ ok t')
        × Joins conn t t'
        × (Connected D t conn → t' ≡ t)
  unfolding add_connection
  add_connection-Joins conn t valid =
      let one = add_node-Adds D laws conn.source t valid in
      let two = add_node-Adds D laws conn.sink (add_node D conn.source t) one.valid in
      let listed = get_all_connections_between D conn.source conn.sink t in
      elim (Bool-cases (any (edge_eq conn.edge) listed)) [
        | inl old ↦
            let (d, m, same) = any-In (edge_eq conn.edge) listed old in
            let is_d : conn.edge ≡ d = (edge_eq_iff conn.edge d).0 same in
            let there_already = listed_edges t conn valid (rw is_d m) in
            (t, rw old, kept_Joins conn t valid there_already, λ h. refl)
        | inr new ↦
            let joins =
              joined-Joins conn (add_node D conn.sink (add_node D conn.source t)) one.at two.at
                two.valid (two.still conn.source one.at one.there) two.there in
            (
              record (add_node D conn.sink (add_node D conn.source t)) {
                graph =
                    D.add_edge one.at two.at conn.edge
                      (add_node D conn.sink (add_node D conn.source t)).graph;
              },
              rw (new, two.still conn.source one.at one.there, two.there),
              record {
                valid = joins.valid;
                connections = λ c. (
                  λ h. elim ((joins.connections c).0 h) [
                    | inl same ↦ inl same
                    | inr kept ↦ inr ((one.same_connections c).0 ((two.same_connections c).0 kept))
                  ],
                  λ h. elim h [
                    | inl same ↦ (joins.connections c).1 (inl same)
                    | inr old ↦
                        (joins.connections c).1
                          (inr ((two.same_connections c).1 ((one.same_connections c).1 old)))
                  ],
                );
                still = λ n i h. two.still n i (one.still n i h);
              },
              λ h.
                  let found = edges_listed t conn valid h in
                  let same = (edge_eq_iff conn.edge conn.edge).1 refl in
                  let clash = any-false (edge_eq conn.edge) listed new found in
                  let no_value : true ≡ false = cc in cc,
            )
      ]

  -- `add_connections` adds each of them.
  pub add_connections-all :
      (conns : List Connection) (t : Topology D)
      → IsValid D t
      → (t' : Topology D) × (add_connections D conns t ≡ ok t')
        × IsValid D t'
        × ((c : Connection) → Connected D t' c ↔ (In c conns ⊎ Connected D t c))
  unfolding add_connections
  add_connections-all [] t valid =
      (t, refl, valid, λ c. (λ h. inr h, λ h. elim h [ inl m ↦ elim m [ ] | inr old ↦ old ]))
  add_connections-all (conn ∷ conns) t valid =
      let (t', e, joins, _) = add_connection-Joins conn t valid in
      let (t'', f, valid', law) = add_connections-all conns t' joins.valid in
      (
        t'',
        rw (e, f),
        valid',
        λ c. (
          λ h. elim ((law c).0 h) [
            | inl m ↦ inl (there m)
            | inr old ↦ elim ((joins.connections c).0 old) [
              | inl same ↦ inl (here (sym same))
              | inr older ↦ inr older
            ]
          ],
          λ h. elim h [
            | inl (here same) ↦ (law c).1 (inr ((joins.connections c).1 (inl (sym same))))
            | inl (there m) ↦ (law c).1 (inl m)
            | inr old ↦ (law c).1 (inr ((joins.connections c).1 (inr old)))
          ],
        ),
      )
