-- ===== src/Types/Profiling.antt =====
-- What nodes report of themselves: types/profiling.py, types/thunderbolt.py, types/topology.py and
-- the messages of utils/info_gatherer/info_gatherer.py.
use Prim.Native.String.{String}
use awesome_distributed_ai_i.Base.{ℕ, ◌≡◌, ◌↔◌, Bool, true, false, ◌&&◌, Option, List, ◌==◌, arith}
use awesome_distributed_ai_i.Types.Models.{NodeId, Memory, Backend}

pub record MemoryUsage : Type 0 where
  pub ram_total : Memory
  pub ram_available : Memory
  pub swap_total : Memory
  pub swap_available : Memory

pub record DiskUsage : Type 0 where
  pub total : Memory
  pub available : Memory

-- Its fields are floats that no modelled code computes with.
pub record SystemPerformanceProfile : Type 0 where
  pub profile : ℕ

pub data InterfaceType : Type 0 where
  wifi ethernet maybe_ethernet thunderbolt unknown : InterfaceType

-- Addresses are only compared, so they are numbers.
pub record NetworkInterfaceInfo : Type 0 where
  pub name : String
  pub ip_address : ℕ
  pub interface_type : InterfaceType

pub record NodeIdentity : Type 0 where
  pub model_id : String
  pub chip_id : String
  pub friendly_name : String
  pub os_version : String
  pub os_build_version : String

pub record NodeNetworkInfo : Type 0 where
  pub interfaces : List NetworkInterfaceInfo

-- Domain ids are only compared, so they are numbers.
pub record ThunderboltIdentifier : Type 0 where
  pub rdma_interface : ℕ
  pub domain_uuid : ℕ

pub record ThunderboltConnection : Type 0 where
  pub source_uuid : ℕ
  pub sink_uuid : ℕ

pub record NodeThunderboltInfo : Type 0 where
  pub interfaces : List ThunderboltIdentifier

pub record NodeRdmaCtlStatus : Type 0 where
  pub enabled : Bool

pub record ThunderboltBridgeStatus : Type 0 where
  pub enabled : Bool
  pub exists : Bool
  pub service_name : Option String

-- `GatheredInfo`, the union of the info gatherer's messages.
pub data GatheredInfo : Type 0 where
  macmon_metrics :
      (system_profile : SystemPerformanceProfile) → (memory : MemoryUsage) → GatheredInfo
  memory_usage : MemoryUsage → GatheredInfo
  node_disk_usage : (disk_usage : DiskUsage) → GatheredInfo
  node_config : GatheredInfo
  misc_data : (friendly_name : String) → GatheredInfo
  static_node_information : (model chip os_version os_build_version : String) → GatheredInfo
  node_network_interfaces : (ifaces : List NetworkInterfaceInfo) → GatheredInfo
  mac_thunderbolt_identifiers : (idents : List ThunderboltIdentifier) → GatheredInfo
  mac_thunderbolt_connections : (conns : List ThunderboltConnection) → GatheredInfo
  thunderbolt_bridge_info : (status : ThunderboltBridgeStatus) → GatheredInfo
  rdma_ctl_status : (enabled : Bool) → GatheredInfo
  node_backends_info : (backends : List Backend) → GatheredInfo

-- `RDMAConnection | SocketConnection`; the names of interfaces are only compared. The worker makes the address of a
-- socket connection as `/ip4/…/tcp/…` or `/ip6/…/tcp/…` (src/exo/worker/main.py), so that its ip and its port are the
-- whole address and reading them raises nothing; other addresses are not modelled.
pub data Edge : Type 0 where
  rdma : (source_rdma_iface sink_rdma_iface : ℕ) → Edge
  socket : (sink_ip port : ℕ) → Edge

pub record Connection : Type 0 where
  pub source : NodeId
  pub sink : NodeId
  pub edge : Edge

-- `isinstance(edge, RDMAConnection)`
abbrev pub is_rdma : Edge → Bool
is_rdma (rdma a b) = true
is_rdma (socket a b) = false

abbrev pub edge_eq : Edge → Edge → Bool
edge_eq (rdma a b) (rdma c d) = (a == c) && (b == d)
edge_eq (socket a b) (socket c d) = (a == c) && (b == d)
edge_eq _ _ = false

pub edge_eq_iff : (x y : Edge) → (edge_eq x y ≡ true) ↔ (x ≡ y)
edge_eq_iff (rdma a b) (rdma c d) = (
  λ h. let one : a ≡ c = ground arith in let two : b ≡ d = ground arith in cc,
  λ h. let one : a ≡ c = cc in let two : b ≡ d = cc in ground arith,
)
edge_eq_iff (socket a b) (socket c d) = (
  λ h. let one : a ≡ c = ground arith in let two : b ≡ d = ground arith in cc,
  λ h. let one : a ≡ c = cc in let two : b ≡ d = cc in ground arith,
)
edge_eq_iff (rdma a b) (socket c d) = (λ h. cc, λ h. cc)
edge_eq_iff (socket a b) (rdma c d) = (λ h. cc, λ h. cc)
