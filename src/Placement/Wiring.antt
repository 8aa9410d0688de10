-- ===== src/Placement/Wiring.antt =====
-- The addresses and interfaces over which the nodes of an instance talk, in
-- src/exo/master/placement_utils.py.
use awesome_distributed_ai_i.Base.{
  ℕ, ◌+◌, ◌-◌, ◌%◌, Bool, true, false, ◌||◌, Option, none, some, List, [], ◌∷◌, ltb, ◌==◌,
  if◌then◌else◌, length, Result, ok, raise, value_error, ◌>>=◌,
}
use awesome_distributed_ai_i.Base.Dict.{Dict, get, set}
use awesome_distributed_ai_i.Types.{
  NodeId, NodeNetworkInfo, NetworkInterfaceInfo, InterfaceType, Edge, rdma, socket, Host,
}
use awesome_distributed_ai_i.Topology.Graph.{PyDiGraph}
use awesome_distributed_ai_i.Topology.{Topology, get_all_connections_between}

-- "0.0.0.0" and "198.51.100.1" as numbers.
abbrev pub any_ip : ℕ
any_ip = 0

abbrev pub placeholder_ip : ℕ
placeholder_ip = 3325256705

-- The sink's addresses of the socket connections.
unfoldable pub socket_ips : List Edge → List ℕ
socket_ips [] = []
socket_ips (socket sink_ip port ∷ edges) = sink_ip ∷ socket_ips edges
socket_ips (rdma source_iface sink_iface ∷ edges) = socket_ips edges

-- The comprehension `ip_to_type`, with the entries so far.
unfoldable pub ip_to_type : List NetworkInterfaceInfo → Dict InterfaceType → Dict InterfaceType
ip_to_type [] types = types
ip_to_type (iface ∷ interfaces) types =
    ip_to_type interfaces (set iface.ip_address iface.interface_type types)

abbrev interfaces_of : Option NodeNetworkInfo → List NetworkInterfaceInfo
interfaces_of none = []
interfaces_of (some network) = network.interfaces

abbrev or_unknown : Option InterfaceType → InterfaceType
or_unknown none = InterfaceType.unknown
or_unknown (some interface_type) = interface_type

-- The dictionaries `priority`, for a ring and for the other.
abbrev pub priority : (ring : Bool) → InterfaceType → ℕ
priority true InterfaceType.thunderbolt = 0
priority true InterfaceType.maybe_ethernet = 1
priority true InterfaceType.ethernet = 2
priority true InterfaceType.wifi = 3
priority true InterfaceType.unknown = 4
priority false InterfaceType.ethernet = 0
priority false InterfaceType.wifi = 1
priority false InterfaceType.unknown = 2
priority false InterfaceType.maybe_ethernet = 3
priority false InterfaceType.thunderbolt = 4

-- `min(ips, key=...)`: the first of the least, given the best so far.
unfoldable pub least_by : (ℕ → ℕ) → ℕ → List ℕ → ℕ
least_by key best [] = best
least_by key best (ip ∷ ips) = least_by key (if ltb (key ip) (key best) then ip else best) ips

unfoldable pub best_ip : (ℕ → ℕ) → List ℕ → Option ℕ
unfolding least_by
best_ip key [] = none
best_ip key (ip ∷ ips) = some (least_by key ip ips)

-- The key: the priority of the type of an address.
abbrev pub ip_priority : (ring : Bool) → Option NodeNetworkInfo → ℕ → ℕ
ip_priority ring network ip =
    priority ring (or_unknown (get ip (ip_to_type (interfaces_of network) [])))

-- `(rank - 1) % world_size`, which is not negative, and `(rank + 1) % world_size`.
abbrev pub left_rank : (rank world_size : ℕ) → ℕ
left_rank rank world_size = (rank + world_size - 1) % world_size

abbrev pub right_rank : (rank world_size : ℕ) → ℕ
right_rank rank world_size = (rank + 1) % world_size

-- A neighbour's host, which must have an address.
abbrev pub reachable : (port : ℕ) → Option ℕ → Result Host
reachable port none = raise value_error
reachable port (some ip) = ok (record { ip = ip; port = port })

module _ (D : PyDiGraph) where
  -- `list(_find_connection_ip(...))`
  abbrev pub find_connection_ip : (node_i node_j : NodeId) → Topology D → List ℕ
  find_connection_ip node_i node_j t = socket_ips (get_all_connections_between D node_i node_j t)

  unfoldable pub find_ip_prioritised :
      (node_id other_node_id : NodeId)
      → Topology D
      → Dict NodeNetworkInfo
      → (ring : Bool) → Option ℕ
  find_ip_prioritised node_id other_node_id t node_network ring =
      best_ip (ip_priority ring (get other_node_id node_network))
        (find_connection_ip node_id other_node_id t)

  -- The host of `other_node_id`, which has the rank `idx`, as the node with the rank `rank` sees it.
  unfoldable pub host_for :
      (world_size ephemeral_port rank : ℕ)
      → NodeId
      → (idx : ℕ) → NodeId
      → Topology D
      → Dict NodeNetworkInfo
      → Result Host
  host_for world_size ephemeral_port rank node_id idx other_node_id t node_network =
      if idx == rank
      then ok (record { ip = any_ip; port = ephemeral_port })
      else if (idx == left_rank rank world_size) || (idx == right_rank rank world_size)
      then reachable ephemeral_port (find_ip_prioritised node_id other_node_id t node_network true)
      else ok (record { ip = placeholder_ip; port = 0 })

  -- The inner loop of `get_mlx_ring_hosts_by_node`, from the index `idx` on.
  unfoldable pub hosts_row :
      (world_size ephemeral_port rank : ℕ)
      → NodeId
      → (idx : ℕ) → List NodeId
      → Topology D
      → Dict NodeNetworkInfo
      → Result (List Host)
  hosts_row world_size port rank node_id idx [] t node_network = ok []
  hosts_row world_size port rank node_id idx (other ∷ others) t node_network = do
    host ← host_for world_size port rank node_id idx other t node_network
    hosts ← hosts_row world_size port rank node_id (idx + 1) others t node_network
    ok (host ∷ hosts)

  -- The outer loop, from the rank `rank` on, with what is built so far.
  unfoldable pub hosts_rows :
      (selected_cycle : List NodeId)
      → (ephemeral_port rank : ℕ) → List NodeId
      → Topology D
      → Dict NodeNetworkInfo
      → Dict (List Host)
      → Result (Dict (List Host))
  hosts_rows selected_cycle port rank [] t node_network hosts_by_node = ok hosts_by_node
  hosts_rows selected_cycle port rank (node_id ∷ node_ids) t node_network hosts_by_node = do
    row ← hosts_row (length selected_cycle) port rank node_id 0 selected_cycle t node_network
    hosts_rows selected_cycle port (rank + 1) node_ids t node_network
        (set node_id row hosts_by_node)

  -- For a cycle without nodes the loops give the empty dictionary, as the early return does.
  unfoldable pub get_mlx_ring_hosts_by_node :
      (selected_cycle : List NodeId)
      → Topology D
      → (ephemeral_port : ℕ) → Dict NodeNetworkInfo
      → Result (Dict (List Host))
  get_mlx_ring_hosts_by_node selected_cycle t ephemeral_port node_network =
      hosts_rows selected_cycle ephemeral_port 0 selected_cycle t node_network []

  -- `conn.source_rdma_iface` of the first RDMA connection; without one the loop raises.
  abbrev rdma_interface : List Edge → Result (Option ℕ)
  rdma_interface [] = raise value_error
  rdma_interface (rdma source_iface sink_iface ∷ edges) = ok (some source_iface)
  rdma_interface (socket sink_ip port ∷ edges) = rdma_interface edges

  unfoldable pub devices_row :
      (i : ℕ) → NodeId → (j : ℕ) → List NodeId → Topology D → Result (List (Option ℕ))
  devices_row i node_i j [] t = ok []
  devices_row i node_i j (node_j ∷ nodes) t = do
    entry ←
        if i == j then ok none else rdma_interface (get_all_connections_between D node_i node_j t)
    rest ← devices_row i node_i (j + 1) nodes t
    ok (entry ∷ rest)

  unfoldable pub devices_rows :
      (selected_cycle : List NodeId)
      → (i : ℕ) → List NodeId
      → Topology D
      → Result (List (List (Option ℕ)))
  unfolding devices_row
  devices_rows selected_cycle i [] t = ok []
  devices_rows selected_cycle i (node_i ∷ nodes) t = do
    row ← devices_row i node_i 0 selected_cycle t
    rows ← devices_rows selected_cycle (i + 1) nodes t
    ok (row ∷ rows)

  unfoldable pub get_mlx_jaccl_devices_matrix :
      (selected_cycle : List NodeId) → Topology D → Result (List (List (Option ℕ)))
  unfolding devices_rows
  get_mlx_jaccl_devices_matrix selected_cycle t = devices_rows selected_cycle 0 selected_cycle t

  abbrev get_ip_for_node :
      (coordinator : NodeId) → Topology D → Dict NodeNetworkInfo → NodeId → (port : ℕ) → Result Host
  get_ip_for_node coordinator t node_network n port =
      if n == coordinator
      then ok (record { ip = any_ip; port = port })
      else reachable port (find_ip_prioritised n coordinator t node_network false)

  unfoldable pub coordinators_for :
      (coordinator port : ℕ)
      → List NodeId
      → Topology D
      → Dict NodeNetworkInfo
      → Dict Host
      → Result (Dict Host)
  coordinators_for coordinator port [] t node_network built = ok built
  coordinators_for coordinator port (n ∷ ns) t node_network built = do
    host ← get_ip_for_node coordinator t node_network n port
    coordinators_for coordinator port ns t node_network (set n host built)

  unfoldable pub get_mlx_jaccl_coordinators :
      (coordinator : NodeId)
      → (coordinator_port : ℕ) → Topology D
      → Dict NodeNetworkInfo
      → Result (Dict Host)
  unfolding coordinators_for
  get_mlx_jaccl_coordinators coordinator coordinator_port t node_network =
      coordinators_for coordinator coordinator_port (D.nodes t.graph) t node_network []
