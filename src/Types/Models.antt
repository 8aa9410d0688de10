-- ===== src/Types/Models.antt =====
-- Model cards (src/exo/shared/models/model_cards.py), shards (types/worker/shards.py) and the
-- progress of downloads (types/worker/downloads.py).
use Prim.Native.String.{String}
use awesome_distributed_ai_i.Base.{ℕ, Bool, Option, List}

abbrev pub NodeId : Type 0
NodeId = ℕ

abbrev pub ModelId : Type 0
ModelId = ℕ

-- Bytes: `Memory` of types/memory.py.
abbrev pub Memory : Type 0
Memory = ℕ

pub data Backend : Type 0 where
  mlx_metal mlx_cpu mlx_cuda vllm : Backend

pub record ModelCard : Type 0 where
  pub model_id : ModelId
  pub storage_size : Memory
  pub n_layers : ℕ
  pub hidden_size : ℕ
  pub supports_tensor : Bool
  pub num_key_value_heads : Option ℕ
  pub base_model : String
  pub backends : List Backend
  pub uses_cfg : Bool

-- What the subclasses of `BaseShardMetadata` add.
pub data ShardKind : Type 0 where
  pipeline : ShardKind
  cfg : (cfg_rank cfg_world_size pipeline_rank pipeline_world_size : ℕ) → ShardKind
  tensor : ShardKind

pub record ShardMetadata : Type 0 where
  pub model_card : ModelCard
  pub device_rank : ℕ
  pub world_size : ℕ
  pub start_layer : ℕ
  pub end_layer : ℕ
  pub n_layers : ℕ
  pub kind : ShardKind

-- What the subclasses of `BaseDownloadProgress` add.
pub data DownloadState : Type 0 where
  download_pending : (downloaded total : Memory) → DownloadState
  download_completed : (total : Memory) → (read_only : Bool) → DownloadState
  download_failed : (error_message : String) → DownloadState
  download_ongoing : (downloaded total : Memory) → DownloadState

pub record DownloadProgress : Type 0 where
  pub node_id : NodeId
  pub shard_metadata : ShardMetadata
  pub state : DownloadState
