-- ===== src/Topology/Budget.antt =====
-- The budget on the number of cycles in src/exo/shared/topology.py.
use awesome_distributed_ai_i.Base.{
  ℕ, zero, suc, ◌≤◌, ◌≡◌, inl, inr, false, none, some, List, [], ◌∷◌, ◌++◌, arith, leb, ltb,
  if◌then◌else◌, length, ok, Result-cases,
}
use awesome_distributed_ai_i.Topology.Graph.{PyDiGraph}
use awesome_distributed_ai_i.Topology.{Topology}
use awesome_distributed_ai_i.Topology.Cycles.{
  Cycle, nodes_at, cycles_at, take_cycles, get_cycles, get_cycles_within_budget, singletons,
}

module _ (D : PyDiGraph) where
  take_cycles-all :
      (g : D.Graph) (budget : ℕ) (cs : List (List ℕ)) (cycles : List Cycle)
      → cycles_at D g cs ≡ ok cycles
      → take_cycles D g budget cs ≡ ok (if leb (length cs) budget then some cycles else none)
  unfolding take_cycles cycles_at
  take_cycles-all g budget [] cycles h = ground arith
  take_cycles-all g zero (c ∷ cs) cycles h = ground arith
  take_cycles-all g (suc budget) (c ∷ cs) cycles h = elim (Result-cases (nodes_at D g c)) [
    | inl (cycle, e) ↦ elim (Result-cases (cycles_at D g cs)) [
      | inl (rest, f) ↦
          let step = take_cycles-all g budget cs rest f in
          let whole : ok (cycle ∷ rest) ≡ ok cycles = rw (e, f) at h in rw (e, step) (ground arith)
      | inr (x, f) ↦ let raised = rw (e, f) at h in cc
    ]
    | inr (x, e) ↦ let raised = rw e at h in cc
  ]

  -- If `get_cycles` raises nothing and the budget is at least one, the answer is what
  -- `get_cycles` gives if the graph holds no more simple cycles than the budget, and none if it
  -- holds more.
  pub get_cycles_within_budget-get_cycles :
      (max_cycles : ℕ) (t : Topology D) (all : List Cycle)
      → get_cycles D t ≡ ok all
      → 1 ≤ max_cycles
      → get_cycles_within_budget D max_cycles t
        ≡ ok (if leb (length (D.simple_cycles t.graph)) max_cycles then some all else none)
  unfolding get_cycles get_cycles_within_budget
  get_cycles_within_budget-get_cycles max_cycles t all h positive =
      elim (Result-cases (cycles_at D t.graph (D.simple_cycles t.graph))) [
        | inl (cycles, e) ↦
            let whole : ok (cycles ++ singletons D t) ≡ ok all = rw e at h in
            let taken = take_cycles-all t.graph max_cycles (D.simple_cycles t.graph) cycles e in
            let enough : ltb max_cycles 1 ≡ false = ground arith in
            rw (enough, taken) (ground arith)
        | inr (x, e) ↦ let raised = rw e at h in cc
      ]
