-- ===== src/Manager/Moves/Fetch.antt =====
-- A block that holds a tensor on some tier has it on the GPU after a promotion.
use orch_kv_cache.Prelude.{ℕ, ◌≡◌, some, arith}
use orch_kv_cache.Manager.{Tensor, KvCacheManager, gpu}
use orch_kv_cache.Manager.Invariant.{stored}
use orch_kv_cache.Manager.Moves.{promote_block, promote_from_dram, load_from_ssd}

module _ {ℓ} {T : Type ℓ} where
  pub promote_block-gpu_data :
      (m : KvCacheManager T) (i : ℕ) (d : Tensor T)
      → stored m i ≡ some d
      → ((promote_block m i).heap i).gpu_data ≡ some d
  unfolding promote_block promote_from_dram load_from_ssd
  promote_block-gpu_data m i d h = ground arith

  pub promote_block-tier :
      (m : KvCacheManager T) (i : ℕ) (d : Tensor T)
      → stored m i ≡ some d
      → ((promote_block m i).heap i).tier ≡ gpu
  unfolding promote_block promote_from_dram load_from_ssd
  promote_block-tier m i d h = ground arith
