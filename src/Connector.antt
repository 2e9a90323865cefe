-- ===== src/Connector.antt =====
-- python/orchkv/vllm_integration/connector.py: the connector that moves blocks of vLLM between the
-- GPU and host memory. The children hold the worker's side, the scheduler's side, and the
-- class that vLLM calls, which has one of them.
--
-- A layer's name is a value of `K`, a request's of `R`; both are only compared. A block of a layer's
-- tensor is a value of `B`; all blocks of a layer have one shape.
pub mod Worker
pub mod Scheduler
pub mod Roles
use orch_kv_cache.Prelude.{ℕ, ◌*◌, ◌^◌, Option, none, some, List, [], option_or}

-- `OrchKvConnectorMetadata`; nothing fills or reads `req_block_map`.
pub record ConnectorMetadata {ℓ} (K : Type ℓ) : Type ℓ where
  pub blocks_to_save : List (K × List ℕ)
  pub blocks_to_load : List (K × List ℕ)

-- The dict `orchkv_cfg`, which each side reads with defaults.
pub record OrchkvCfg : Type 0 where
  pub dram_pool_bytes : Option ℕ
  pub d_head : Option ℕ
  pub tokens_per_block : Option ℕ
  pub num_cuda_streams : Option ℕ
  pub io_workers : Option ℕ
  pub n_layers : Option ℕ

-- What `__init__` of the connector reads of vLLM's configuration: its extra settings, and the two
-- attributes of `model_config`, if it has them.
pub record VllmConfig : Type 0 where
  pub dram_pool_gb : Option ℕ
  pub extra_d_head : Option ℕ
  pub extra_tokens_per_block : Option ℕ
  pub extra_num_cuda_streams : Option ℕ
  pub extra_io_workers : Option ℕ
  pub extra_n_layers : Option ℕ
  pub head_dim : Option ℕ
  pub num_layers : Option ℕ

abbrev pub cfg_of : VllmConfig → OrchkvCfg
cfg_of c = record {
  dram_pool_bytes = some (option_or c.dram_pool_gb 8 * 2 ^ 30);
  d_head = some (option_or c.head_dim (option_or c.extra_d_head 128));
  tokens_per_block = some (option_or c.extra_tokens_per_block 16);
  num_cuda_streams = some (option_or c.extra_num_cuda_streams 4);
  io_workers = some (option_or c.extra_io_workers 4);
  n_layers = some (option_or c.num_layers (option_or c.extra_n_layers 32));
}
