-- ===== src/Topology/Sample.antt =====
-- A concrete graph that has the laws of the interface: two tables with their lengths.
use awesome_distributed_ai_i.Base.{
  ℕ, ◌≡◌, ◌≢◌, ◌↔◌, ◌⊎◌, inl, inr, refl, ap, subst, Bool, true, not, ◌&&◌, ◌||◌, Option, none, some,
  List, [], ◌∷◌, map, In, here, there, In-cons, any, elem, ltb, if◌then◌else◌, ◌==◌, ==_iff,
  Bool-cases, arith,
}
use awesome_distributed_ai_i.Types.{NodeId, Edge}
use awesome_distributed_ai_i.Topology.Graph.{PyDiGraph, Endpoints, Laws}
use awesome_distributed_ai_i.Topology.Table.{
  Table, at, push, holds, filter, indices_where, entries_where, keep-Distinct, below,
  below-Distinct, at-push, at_length, indices_iff, entries_iff,
}

pub record Tables : Type 0 where
  pub node_table : Table NodeId
  pub edge_table : Table Endpoints

abbrev pub leaves : ℕ → Endpoints → Bool
leaves u x = x.source == u

abbrev pub enters : ℕ → Endpoints → Bool
enters v x = x.sink == v

abbrev pub joins : ℕ → ℕ → Endpoints → Bool
joins u v x = (x.source == u) && (x.sink == v)

abbrev pub data_or_none : List Endpoints → Option (List Edge)
data_or_none [] = none
data_or_none (x ∷ xs) = some (map (λ (y : Endpoints). y.edge) (x ∷ xs))

abbrev once : List ℕ → List ℕ
once [] = []
once (x ∷ xs) = let rest = once xs in if elem x rest then rest else x ∷ rest

abbrev sources : List Endpoints → List ℕ
sources xs = map (λ (x : Endpoints). x.source) xs

abbrev sinks : List Endpoints → List ℕ
sinks xs = map (λ (x : Endpoints). x.sink) xs

abbrev pub sample : PyDiGraph
sample = record {
  Graph = Tables;
  empty = record {
    node_table = record { length = 0; entry = λ i. none };
    edge_table = record { length = 0; entry = λ i. none };
  };
  add_node = λ n g. (record g { node_table = push n g.node_table }, g.node_table.length);
  remove_node = λ i g. record {
    node_table = record g.node_table { entry = λ j. if i == j then none else g.node_table.entry j };
    edge_table = record g.edge_table {
      entry = λ e. filter (λ x. not (leaves i x || enters i x)) (g.edge_table.entry e);
    };
  };
  add_edge = λ u v d g. record g {
    edge_table = push (record { source = u; sink = v; edge = d }) g.edge_table;
  };
  remove_edge_from_index = λ e g. record g {
    edge_table = record g.edge_table { entry = λ f. if e == f then none else g.edge_table.entry f };
  };
  node_at = λ i g. at i g.node_table;
  nodes = λ g. entries_where (λ n. true) g.node_table;
  edge_at = λ e g. at e g.edge_table;
  out_edge_indices = λ u g. indices_where (leaves u) g.edge_table;
  in_edge_indices = λ v g. indices_where (enters v) g.edge_table;
  edge_indices_from_endpoints = λ u v g. indices_where (joins u v) g.edge_table;
  get_all_edge_data = λ u v g. data_or_none (entries_where (joins u v) g.edge_table);
  weighted_edge_list = λ g. entries_where (λ x. true) g.edge_table;
  simple_cycles = λ g. [];
  node_indices = λ g. indices_where (λ n. true) g.node_table;
  has_edge = λ u v g. any (joins u v) (entries_where (λ x. true) g.edge_table);
  predecessor_indices = λ v g. once (sources (entries_where (enters v) g.edge_table));
  neighbors = λ u g. once (sinks (entries_where (leaves u) g.edge_table));
  all_simple_paths = λ u targets min_depth cutoff g. [];
}

data_cases :
    (xs : List Endpoints)
    → ((data_or_none xs ≡ none) × ((x : Endpoints) → ¬ In x xs))
      ⊎ (data_or_none xs ≡ some (map (λ (y : Endpoints). y.edge) xs))
data_cases [] = inl (refl, λ x m. elim m [ ])
data_cases (x ∷ xs) = inr refl

In-edges :
    (xs : List Endpoints) (d : Edge)
    → In d (map (λ (y : Endpoints). y.edge) xs) ↔ ((x : Endpoints) × In x xs × (x.edge ≡ d))
In-edges [] d = (λ m. elim m [ ], λ h. elim h.1 [ ])
In-edges (x ∷ xs) d = (
  λ m. elim (In-cons m) [
    | inl e ↦ (x, here refl, e)
    | inr later ↦ let (y, i, e) = (In-edges xs d).0 later in (y, there i, e)
  ],
  λ h.
      let (y, i, e) = h in
      elim (In-cons i) [
        | inl same ↦ here (cc (e, ap (λ (z : Endpoints). z.edge) same))
        | inr later ↦ there ((In-edges xs d).1 (y, later, e))
      ],
)

joins_iff : (u v : ℕ) (x : Endpoints) → (joins u v x ≡ true) ↔ ((x.source ≡ u) × (x.sink ≡ v))
joins_iff u v x = (λ h. (ground arith, ground arith), λ h. ground (arith, h.0, h.1))

listed :
    (p : Endpoints → Bool) (Q : Endpoints → Type 0)
    → ((x : Endpoints) → (p x ≡ true) ↔ Q x)
    → (t : Table Endpoints) (e : ℕ)
    → In e (indices_where p t) ↔ ((x : Endpoints) × (at e t ≡ some x) × Q x)
listed p Q same t e = (
  λ m. let (x, f, good) = (indices_iff p t e).0 m in (x, f, (same x).0 good),
  λ h. let (x, f, good) = h in (indices_iff p t e).1 (x, f, (same x).1 good),
)

all_listed :
    {V : Type 0} (t : Table V) (v : V)
    → In v (entries_where (λ w. true) t) ↔ ((i : ℕ) × (at i t ≡ some v))
all_listed t v = (
  λ m. let (i, e, _) = (entries_iff (λ w. true) t v).0 m in (i, e),
  λ h. let (i, e) = h in (entries_iff (λ w. true) t v).1 (i, e, refl),
)

-- The entry of a table whose edges at the node are gone.
filtered :
    (i : ℕ) (o : Option Endpoints) (x : Endpoints)
    → (filter (λ y. not (leaves i y || enters i y)) o ≡ some x)
      ↔ ((o ≡ some x) × (x.source ≢ i) × (x.sink ≢ i))
filtered i none x = (λ h. cc, λ h. cc (h.0))
filtered i (some y) x = (
  λ h. elim (Bool-cases (not (leaves i y || enters i y))) [
    | inl stays ↦
        let same : some y ≡ some x = rw stays at h in
        let ends : y ≡ x = cc in
        subst (λ z. (some y ≡ some z) × (z.source ≢ i) × (z.sink ≢ i)) ends
          (refl, λ a. ground arith, λ a. ground arith)
    | inr goes ↦ let nothing = rw goes at h in cc
  ],
  λ k.
      let (same, from, to) = k in
      let ends : x ≡ y = cc in
      let (from_y, to_y) = subst (λ z. (z.source ≢ i) × (z.sink ≢ i)) ends (from, to) in
      let stays : not (leaves i y || enters i y) ≡ true = ground arith in rw stays same,
)

data_listed :
    (u v : ℕ) (t : Table Endpoints) (ds : List Edge) (d : Edge)
    → data_or_none (entries_where (joins u v) t) ≡ some ds
    → In d ds ↔ ((e : ℕ) × (at e t ≡ some (record { source = u; sink = v; edge = d })))
data_listed u v t ds d h = elim (data_cases (entries_where (joins u v) t)) [
  | inl (e, _) ↦ cc
  | inr e ↦
      let one : some (map (λ (y : Endpoints). y.edge) (entries_where (joins u v) t)) ≡ some ds =
        cc in
      let same : map (λ (y : Endpoints). y.edge) (entries_where (joins u v) t) ≡ ds = cc in
      (
        λ m.
            let (x, k, at_x) = (In-edges (entries_where (joins u v) t) d).0 (rw same m) in
            let (i, f, good) = (entries_iff (joins u v) t x).0 k in
            let (from, to) = (joins_iff u v x).0 good in
            let is_x : x ≡ record { source = u; sink = v; edge = d } = cc (from, to, at_x) in
            (i, cc (f, is_x)),
        λ k.
            let (i, f) = k in
            rw (← same) (
              (In-edges (entries_where (joins u v) t) d).1 (
                record { source = u; sink = v; edge = d },
                (entries_iff (joins u v) t (record { source = u; sink = v; edge = d })).1 (
                  i,
                  f,
                  (joins_iff u v (record { source = u; sink = v; edge = d })).1 (refl, refl),
                ),
                refl,
              )),
      )
]

data_missing :
    (u v : ℕ) (t : Table Endpoints) (d : Edge) (e : ℕ)
    → data_or_none (entries_where (joins u v) t) ≡ none
    → at e t ≢ some (record { source = u; sink = v; edge = d })
data_missing u v t d e h found = elim (data_cases (entries_where (joins u v) t)) [
  | inl (_, nobody) ↦
      nobody (record { source = u; sink = v; edge = d })
        ((entries_iff (joins u v) t (record { source = u; sink = v; edge = d })).1
          (e, found, (joins_iff u v (record { source = u; sink = v; edge = d })).1 (refl, refl)))
  | inr some_data ↦ cc
]

pub sample-Laws : Laws sample
sample-Laws = record {
  node_at-empty = λ i. ground arith;
  edge_at-empty = λ e. ground arith;
  add_node-new = λ n g. at_length g.node_table;
  node_at-add_node = λ n g i. at-push n g.node_table i;
  edge_at-add_node = λ n g e. refl;
  node_at-remove_node = λ i g j. ground arith;
  edge_at-remove_node = λ i g e x. elim (Bool-cases (ltb e g.edge_table.length)) [
    | inl inside ↦ rw inside (filtered i (g.edge_table.entry e) x)
    | inr outside ↦ rw outside (λ h. cc, λ h. cc (h.0))
  ];
  node_at-add_edge = λ u v d g i. refl;
  edge_at-add_edge = λ u v d g n m from to. (
    g.edge_table.length,
    at_length g.edge_table,
    at-push (record { source = u; sink = v; edge = d }) g.edge_table,
  );
  node_at-remove_edge = λ e g i. refl;
  edge_at-remove_edge = λ e g f. ground arith;
  nodes_iff = λ g n. all_listed g.node_table n;
  out_edge_iff =
      λ u g e. listed (leaves u) (λ x. x.source ≡ u) (λ x. ==_iff x.source u) g.edge_table e;
  in_edge_iff = λ v g e. listed (enters v) (λ x. x.sink ≡ v) (λ x. ==_iff x.sink v) g.edge_table e;
  between_iff = λ u v g e. (
    λ m.
        let (x, f, good) = (indices_iff (joins u v) g.edge_table e).0 m in
        let (from, to) = (joins_iff u v x).0 good in (x, f, from, to),
    λ h.
        let (x, f, from, to) = h in
        (indices_iff (joins u v) g.edge_table e).1 (x, f, (joins_iff u v x).1 (from, to)),
  );
  out_edge-Distinct = λ u g.
      keep-Distinct (λ i. holds (leaves u) (at i g.edge_table)) (below g.edge_table.length)
        (below-Distinct g.edge_table.length);
  between-Distinct = λ u v g.
      keep-Distinct (λ i. holds (joins u v) (at i g.edge_table)) (below g.edge_table.length)
        (below-Distinct g.edge_table.length);
  all_edge_data-some = λ u v g ds d h. data_listed u v g.edge_table ds d h;
  all_edge_data-none = λ u v g d e h found. data_missing u v g.edge_table d e h found;
  edge_list_iff = λ g x. all_listed g.edge_table x;
}
