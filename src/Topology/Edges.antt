-- ===== src/Topology/Edges.antt =====
-- The loops of src/exo/shared/topology.py that remove edges of a graph by their indices.
use awesome_distributed_ai_i.Base.{
  ℕ, ◌≡◌, ◌↔◌, inl, inr, refl, sym, subst, Bool, true, false, some, List, [], ◌∷◌, In, here, there,
  In-cons, if◌then◌else◌, ◌==◌, Bool-cases, arith, ok,
}
use awesome_distributed_ai_i.Types.{Edge}
use awesome_distributed_ai_i.Topology.Graph.{PyDiGraph, Endpoints, Laws, Distinct}
use awesome_distributed_ai_i.Topology.{drop_edges, edges_with, remove_edges}

module _ (D : PyDiGraph) where
  -- The nodes are the same, and the edges are those without the property.
  pub record Thins (dropped : ℕ → Endpoints → Type 0) (g g' : D.Graph) : Type 0 where
    pub nodes : (i : ℕ) → D.node_at i g' ≡ D.node_at i g
    pub edges :
        (e : ℕ) (x : Endpoints)
        → (D.edge_at e g' ≡ some x) ↔ ((D.edge_at e g ≡ some x) × ¬ dropped e x)

  -- The indices of edges.
  abbrev pub AreEdges : List ℕ → D.Graph → Type 0
  AreEdges indices g = (i : ℕ) → In i indices → (x : Endpoints) × (D.edge_at i g ≡ some x)

  module _ (laws : Laws D) (test : Edge → Bool) where
    -- One step of the loop of `drop_edges`.
    step-Thins :
        (i : ℕ) (g : D.Graph) (x : Endpoints)
        → D.edge_at i g ≡ some x
        → Thins
            (λ e y. (e ≡ i) × (test y.edge ≡ true))
            g
            (if test x.edge then D.remove_edge_from_index i g else g)
    step-Thins i g x h = elim (Bool-cases (test x.edge)) [
      | inl hit ↦ rw hit record {
        nodes = λ j. laws.node_at-remove_edge i g j;
        edges = λ e y. (
          λ k. (
            ground (arith, laws.edge_at-remove_edge i g e),
            λ d. let same = d.0 in ground (arith, laws.edge_at-remove_edge i g e),
          ),
          λ k. elim (Bool-cases (i == e)) [
            | inl same ↦
                let at : i ≡ e = ground arith in
                let one : some x ≡ some y = cc (h, k.0, at) in
                let one_edge : x ≡ y = cc in
                absurd (k.1 (sym at, subst (λ (w : Endpoints). test w.edge ≡ true) one_edge hit))
            | inr other ↦ rw (laws.edge_at-remove_edge i g e, other) k.0
          ],
        );
      }
      | inr miss ↦ rw miss record {
        nodes = λ j. refl;
        edges = λ e y. (
          λ k. (
            k,
            λ d.
                let one : some x ≡ some y = cc (h, k, d.0) in
                let one_edge : x ≡ y = cc in
                let both = subst (λ (w : Endpoints). test w.edge ≡ false) one_edge miss in
                cc (both, d.1),
          ),
          λ k. k.0,
        );
      }
    ]

    pub drop_edges-Thins :
        (indices : List ℕ) (g : D.Graph)
        → Distinct indices
        → AreEdges indices g
        → (g' : D.Graph) × (drop_edges D test indices g ≡ ok g')
          × Thins (λ e y. In e indices × (test y.edge ≡ true)) g g'
    unfolding drop_edges
    drop_edges-Thins [] g distinct edges = (
      g,
      refl,
      record { nodes = λ i. refl; edges = λ e x. (λ h. (h, λ d. elim d.0 [ ]), λ h. h.0) },
    )
    drop_edges-Thins (i ∷ indices) g (fresh, distinct) edges =
        let (x, h) = edges i (here refl) in
        let first = step-Thins i g x h in
        let g1 = if test x.edge then D.remove_edge_from_index i g else g in
        let still : AreEdges indices g1 = λ j m.
          let (y, at) = edges j (there m) in
          (y, (first.edges j y).1 (at, λ d. fresh (subst (λ k. In k indices) d.0 m))) in
        let (g', e, rest) = drop_edges-Thins indices g1 distinct still in
        (
          g',
          rw h e,
          record {
            nodes = λ j. cc (rest.nodes j, first.nodes j);
            edges = λ j y. (
              λ k.
                  let (mid, later) = (rest.edges j y).0 k in
                  let (old, now) = (first.edges j y).0 mid in
                  (
                    old,
                    λ d. elim (In-cons d.0) [
                      | inl same ↦ now (sym same, d.1)
                      | inr m ↦ later (m, d.1)
                    ],
                  ),
              λ k. (rest.edges j y).1 (
                (first.edges j y).1 (k.0, λ d. k.1 (here (sym d.0), d.1)),
                λ d. k.1 (there d.0, d.1),
              ),
            );
          },
        )

    pub remove_edges-Thins :
        (indices : List ℕ) (g : D.Graph) → Thins (λ e y. In e indices) g (remove_edges D indices g)
    unfolding remove_edges
    remove_edges-Thins [] g = record {
      nodes = λ i. refl;
      edges = λ e x. (λ h. (h, λ d. elim d [ ]), λ h. h.0);
    }
    remove_edges-Thins (i ∷ indices) g =
        let rest = remove_edges-Thins indices (D.remove_edge_from_index i g) in
        record {
          nodes = λ j. cc (rest.nodes j, laws.node_at-remove_edge i g j);
          edges = λ e y. (
            λ k.
                let (mid, later) = (rest.edges e y).0 k in
                (
                  ground (arith, laws.edge_at-remove_edge i g e),
                  λ d. elim (In-cons d) [
                    | inl same ↦ ground (arith, laws.edge_at-remove_edge i g e)
                    | inr m ↦ later m
                  ],
                ),
            λ k. elim (Bool-cases (i == e)) [
              | inl same ↦ let at : i ≡ e = ground arith in absurd (k.1 (here at))
              | inr other ↦
                  (rest.edges e y).1
                    (rw (laws.edge_at-remove_edge i g e, other) k.0, λ d. k.1 (there d))
            ],
          );
        }

    -- The edges that `edges_with` collects.
    pub edges_with-lem :
        (indices : List ℕ) (g : D.Graph)
        → AreEdges indices g
        → (found : List ℕ) × (edges_with D test indices g ≡ ok found)
          × ((e : ℕ) (x : Endpoints)
              → D.edge_at e g ≡ some x
              → In e found ↔ (In e indices × (test x.edge ≡ true)))
    unfolding edges_with
    edges_with-lem [] g edges = ([], refl, λ e x h. (λ m. elim m [ ], λ m. elim m.0 [ ]))
    edges_with-lem (i ∷ indices) g edges =
        let (x, at) = edges i (here refl) in
        let (found, e, law) = edges_with-lem indices g (λ j m. edges j (there m)) in
        let same_ends : (f : ℕ) (y : Endpoints) → i ≡ f → D.edge_at f g ≡ some y → x ≡ y =
          λ f y same h. let one : some x ≡ some y = cc (at, h, same) in cc in
        elim (Bool-cases (test x.edge)) [
          | inl hit ↦ (
            i ∷ found,
            rw (at, e, hit),
            λ f y h. (
              λ m. elim (In-cons m) [
                | inl same ↦ (
                  here same,
                  subst (λ (w : Endpoints). test w.edge ≡ true) (same_ends f y same h) hit,
                )
                | inr later ↦ let d = (law f y h).0 later in (there d.0, d.1)
              ],
              λ d. elim (In-cons d.0) [
                | inl same ↦ here same
                | inr later ↦ there ((law f y h).1 (later, d.1))
              ],
            ),
          )
          | inr miss ↦ (
            found,
            rw (at, e, miss),
            λ f y h. (
              λ m. let d = (law f y h).0 m in (there d.0, d.1),
              λ d. elim (In-cons d.0) [
                | inl same ↦
                    let untested =
                      subst (λ (w : Endpoints). test w.edge ≡ false) (same_ends f y same h) miss in
                    cc (untested, d.1)
                | inr later ↦ (law f y h).1 (later, d.1)
              ],
            ),
          )
        ]
