-- ===== src/Apply/Gathered.antt =====
-- `apply_node_gathered_info` of src/exo/shared/apply.py.
use awesome_distributed_ai_i.Base.{
  ℕ, Bool, false, not, ◌&&◌, Option, none, some, List, [], ◌∷◌, ◌++◌, if◌then◌else◌, Result, ok,
  ◌>>=◌,
}
use awesome_distributed_ai_i.Base.Dict.{Dict, get, set}
use awesome_distributed_ai_i.Types.{
  NodeId, NodeIdentity, NodeThunderboltInfo, ThunderboltIdentifier, ThunderboltConnection,
  NodeRdmaCtlStatus, ThunderboltBridgeStatus, GatheredInfo, macmon_metrics, memory_usage,
  node_disk_usage, node_config, misc_data, static_node_information, node_network_interfaces,
  mac_thunderbolt_identifiers, mac_thunderbolt_connections, thunderbolt_bridge_info,
  rdma_ctl_status, node_backends_info, rdma, Connection,
}
use awesome_distributed_ai_i.Topology.{
  add_node, replace_all_out_rdma_connections, remove_all_rdma_connections_touching,
}
use awesome_distributed_ai_i.Topology.Graph.{PyDiGraph}
use awesome_distributed_ai_i.Topology.Cycles.{get_thunderbolt_bridge_cycles}
use awesome_distributed_ai_i.Apply.Data.{State}

abbrev rdma_enabled : Option NodeRdmaCtlStatus → Bool
rdma_enabled none = false
rdma_enabled (some status) = status.enabled

-- `_is_rdma_ctl_enabled`
unfoldable pub is_rdma_ctl_enabled : NodeId → Dict NodeRdmaCtlStatus → Bool
is_rdma_ctl_enabled node_id node_rdma_ctl = rdma_enabled (get node_id node_rdma_ctl)

-- The node and the interface of a domain.
abbrev pub Domains : Type 0
Domains = Dict (NodeId × ℕ)

unfoldable pub add_domains : NodeId → List ThunderboltIdentifier → Domains → Domains
add_domains nid [] conn_map = conn_map
add_domains nid (tb_ident ∷ idents) conn_map =
    add_domains nid idents (set tb_ident.domain_uuid (nid, tb_ident.rdma_interface) conn_map)

unfoldable pub domains_of : Dict NodeThunderboltInfo → Domains → Domains
unfolding add_domains
domains_of [] conn_map = conn_map
domains_of ((nid, info) ∷ node_thunderbolt) conn_map =
    domains_of node_thunderbolt (add_domains nid info.interfaces conn_map)

module _ (node_id : NodeId) (node_rdma_ctl : Dict NodeRdmaCtlStatus) where
  -- The connection of one pair of domains, or nothing if a test of the comprehension fails.
  unfoldable rdma_conn : Option (NodeId × ℕ) → Option (NodeId × ℕ) → List Connection
  unfolding is_rdma_ctl_enabled
  rdma_conn (some source) (some sink) =
      if is_rdma_ctl_enabled node_id node_rdma_ctl && is_rdma_ctl_enabled sink.0 node_rdma_ctl
      then record { source = node_id; sink = sink.0; edge = rdma source.1 sink.1 } ∷ []
      else []
  rdma_conn _ _ = []

  -- `as_rdma_conns`
  unfoldable pub rdma_conns : Domains → List ThunderboltConnection → List Connection
  unfolding rdma_conn
  rdma_conns conn_map [] = []
  rdma_conns conn_map (tb_conn ∷ conns) =
      rdma_conn (get tb_conn.source_uuid conn_map) (get tb_conn.sink_uuid conn_map)
      ++ rdma_conns conn_map conns

abbrev identity_or_new : Option NodeIdentity → NodeIdentity
identity_or_new none = record {
  model_id = "Unknown";
  chip_id = "Unknown";
  friendly_name = "Unknown";
  os_version = "Unknown";
  os_build_version = "Unknown";
}
identity_or_new (some identity) = identity

abbrev bridge_enabled : Option ThunderboltBridgeStatus → Bool
bridge_enabled none = false
bridge_enabled (some status) = status.enabled

module _ {D : PyDiGraph} where
  -- The `match info`, on the state whose topology and `last_seen` have the node already.
  unfoldable pub apply_info : NodeId → GatheredInfo → State D → Result (State D)
  unfolding rdma_conns domains_of
  apply_info node_id (macmon_metrics system_profile memory) state = ok (record state {
    node_system = set node_id system_profile state.node_system;
    node_memory = set node_id memory state.node_memory;
  })
  apply_info node_id (memory_usage info) state =
      ok (record state { node_memory = set node_id info state.node_memory })
  apply_info node_id (node_disk_usage disk_usage) state =
      ok (record state { node_disk = set node_id disk_usage state.node_disk })
  apply_info node_id node_config state = ok state
  apply_info node_id (misc_data friendly_name) state =
      let identity = identity_or_new (get node_id state.node_identities) in
      ok (record state {
        node_identities =
            set node_id (record identity { friendly_name = friendly_name }) state.node_identities;
      })
  apply_info node_id (static_node_information model chip os_version os_build_version) state =
      let identity = identity_or_new (get node_id state.node_identities) in
      ok (record state {
        node_identities =
            set node_id
              (record identity {
                model_id = model;
                chip_id = chip;
                os_version = os_version;
                os_build_version = os_build_version;
              })
              state.node_identities;
      })
  apply_info node_id (node_network_interfaces ifaces) state = ok (record state {
    node_network = set node_id (record { interfaces = ifaces }) state.node_network;
  })
  apply_info node_id (mac_thunderbolt_identifiers idents) state = ok (record state {
    node_thunderbolt = set node_id (record { interfaces = idents }) state.node_thunderbolt;
  })
  apply_info node_id (mac_thunderbolt_connections conns) state = do
    topology ←
        replace_all_out_rdma_connections D node_id
          (rdma_conns node_id state.node_rdma_ctl (domains_of state.node_thunderbolt []) conns)
          state.topology
    ok (record state { topology = topology })
  apply_info node_id (thunderbolt_bridge_info status) state =
      let new_tb_bridge = set node_id status state.node_thunderbolt_bridge in
      let was_enabled = bridge_enabled (get node_id state.node_thunderbolt_bridge) in
      do
        cycles ←
            if (if was_enabled then not status.enabled else status.enabled)
            then get_thunderbolt_bridge_cycles D new_tb_bridge state.node_network state.topology
            else ok state.thunderbolt_bridge_cycles
        ok (record state {
          node_thunderbolt_bridge = new_tb_bridge;
          thunderbolt_bridge_cycles = cycles;
        })
  apply_info node_id (rdma_ctl_status enabled) state = do
    topology ←
        if enabled
        then ok state.topology
        else remove_all_rdma_connections_touching D node_id state.topology
    ok (record state {
      node_rdma_ctl = set node_id (record { enabled = enabled }) state.node_rdma_ctl;
      topology = topology;
    })
  apply_info node_id (node_backends_info backends) state =
      ok (record state { node_backends = set node_id backends state.node_backends })

  unfoldable pub apply_node_gathered_info :
      NodeId → (when : ℕ) → GatheredInfo → State D → Result (State D)
  unfolding apply_info
  apply_node_gathered_info node_id when info state = apply_info node_id info (record state {
    last_seen = set node_id when state.last_seen;
    topology = add_node D node_id state.topology;
  })
