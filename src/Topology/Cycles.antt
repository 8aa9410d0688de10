-- ===== src/Topology/Cycles.antt =====
-- The cycles of src/exo/shared/topology.py, over `rustworkx.simple_cycles`.
use awesome_distributed_ai_i.Base.{
  ℕ, zero, suc, Bool, true, false, Option, none, some, List, [], ◌∷◌, ◌++◌, map, ltb, leb,
  if◌then◌else◌, elem, keep, length, Result, ok, raise, index_error, value_error, require, ◌>>=◌,
}
use mathlib.Core.Option
use awesome_distributed_ai_i.Base.Dict.{Dict, get, has, set, keys}
use awesome_distributed_ai_i.Types.{
  NodeId, Edge, rdma, socket, ThunderboltBridgeStatus, NodeNetworkInfo, NetworkInterfaceInfo,
  InterfaceType, thunderbolt,
}
use awesome_distributed_ai_i.Topology.Graph.{PyDiGraph, Endpoints}
use awesome_distributed_ai_i.Topology.{Topology}

abbrev pub Cycle : Type 0
Cycle = List NodeId

abbrev is_thunderbolt : InterfaceType → Bool
is_thunderbolt thunderbolt = true
is_thunderbolt _ = false

abbrev interfaces_of : Option NodeNetworkInfo → List NetworkInterfaceInfo
interfaces_of none = []
interfaces_of (some network) = network.interfaces

-- `_get_ips_with_interface_type` for "thunderbolt", as the list of the set's elements.
unfoldable pub thunderbolt_ips : List NodeId → Dict NodeNetworkInfo → List ℕ
thunderbolt_ips [] node_network = []
thunderbolt_ips (node_id ∷ node_ids) node_network =
    map (λ (i : NetworkInterfaceInfo). i.ip_address)
      (keep (λ (i : NetworkInterfaceInfo). is_thunderbolt i.interface_type)
        (interfaces_of (get node_id node_network)))
    ++ thunderbolt_ips node_ids node_network

-- The nodes whose bridge is enabled.
unfoldable pub enabled_nodes : Dict ThunderboltBridgeStatus → List NodeId
enabled_nodes statuses = keys (keep (λ (e : ℕ × ThunderboltBridgeStatus). e.1.enabled) statuses)

-- A connection over a thunderbolt interface.
abbrev is_bridged : (ips : List ℕ) → Edge → Bool
is_bridged ips (socket sink_ip port) = elem sink_ip ips
is_bridged ips (rdma a b) = true

module _ (D : PyDiGraph) where
  -- `[graph[idx] for idx in cycle]`
  unfoldable pub nodes_at : D.Graph → List ℕ → Result (List NodeId)
  nodes_at g [] = ok []
  nodes_at g (i ∷ is) = do n ← require index_error (D.node_at i g); ns ← nodes_at g is; ok (n ∷ ns)

  unfoldable pub cycles_at : D.Graph → List (List ℕ) → Result (List Cycle)
  unfolding nodes_at
  cycles_at g [] = ok []
  cycles_at g (c ∷ cs) = do cycle ← nodes_at g c; cycles ← cycles_at g cs; ok (cycle ∷ cycles)

  abbrev pub singletons : Topology D → List Cycle
  singletons t = map (λ n. n ∷ []) (D.nodes t.graph)

  unfoldable pub get_cycles : Topology D → Result (List Cycle)
  unfolding cycles_at
  get_cycles t = do
    cycles ← cycles_at t.graph (D.simple_cycles t.graph)
    ok (cycles ++ singletons t)

  -- The loop of `get_cycles_within_budget`: none once there are `budget` cycles and one more.
  unfoldable pub take_cycles : D.Graph → (budget : ℕ) → List (List ℕ) → Result (Option (List Cycle))
  unfolding nodes_at
  take_cycles g budget [] = ok (some [])
  take_cycles g zero (c ∷ cs) = ok none
  take_cycles g (suc budget) (c ∷ cs) = do
    cycle ← nodes_at g c
    rest ← take_cycles g budget cs
    ok (Option.map (λ cycles. cycle ∷ cycles) rest)

  unfoldable pub get_cycles_within_budget :
      (max_cycles : ℕ) → Topology D → Result (Option (List Cycle))
  unfolding take_cycles
  get_cycles_within_budget max_cycles t = if ltb max_cycles 1 then raise value_error else do
    taken ← take_cycles t.graph max_cycles (D.simple_cycles t.graph)
    ok (Option.map (λ cycles. cycles ++ singletons t) taken)

  -- The graph of the enabled nodes, and the index that each of them has in it.
  unfoldable pub bridge_nodes : Topology D → List NodeId → D.Graph × Dict ℕ → D.Graph × Dict ℕ
  bridge_nodes t [] built = built
  bridge_nodes t (n ∷ ns) (graph, node_to_idx) = bridge_nodes t ns (
      if has n t.vertex_indices
      then ((D.add_node n graph).0, set n (D.add_node n graph).1 node_to_idx)
      else (graph, node_to_idx))

  abbrev bridge_edge : Option ℕ → Option ℕ → (ips : List ℕ) → Edge → D.Graph → D.Graph
  bridge_edge (some u) (some v) ips edge graph =
      if is_bridged ips edge then D.add_edge u v edge graph else graph
  bridge_edge _ _ ips edge graph = graph

  unfoldable pub bridge_edges :
      Topology D → Dict ℕ → (ips : List ℕ) → List Endpoints → D.Graph → Result D.Graph
  bridge_edges t node_to_idx ips [] graph = ok graph
  bridge_edges t node_to_idx ips (x ∷ xs) graph = do
    source_id ← require index_error (D.node_at x.source t.graph)
    sink_id ← require index_error (D.node_at x.sink t.graph)
    bridge_edges t node_to_idx ips xs
        (bridge_edge (get source_id node_to_idx) (get sink_id node_to_idx) ips x.edge graph)

  unfoldable pub get_thunderbolt_bridge_cycles :
      Dict ThunderboltBridgeStatus → Dict NodeNetworkInfo → Topology D → Result (List Cycle)
  unfolding thunderbolt_ips enabled_nodes cycles_at bridge_nodes bridge_edges
  get_thunderbolt_bridge_cycles node_tb_bridge_status node_network t =
      let enabled = enabled_nodes node_tb_bridge_status in
      if ltb (length enabled) 2
      then ok []
      else let (nodes, node_to_idx) = bridge_nodes t enabled (D.empty, []) in
        do
          graph ←
              bridge_edges t node_to_idx (thunderbolt_ips enabled node_network)
                (D.weighted_edge_list t.graph) nodes
          cycles_at graph (keep (λ c. leb 2 (length c)) (D.simple_cycles graph))
