-- ===== src/Manager/Schedule/Evicted.antt =====
-- Which blocks `_evict_cold_blocks` moves, and when it stops.
use orch_kv_cache.Prelude.{
  ℕ, ◌<◌, ◌≡◌, ◌⊎◌, true, false, none, some, take, length, if◌then◌else◌, is_some,
}
use orch_kv_cache.Prelude.Budget.{BudgetTest}
use orch_kv_cache.Prelude.Sets.{contains}
use orch_kv_cache.Manager.{KvBlock, KvCacheManager, gpu, dram, same_tier}
use orch_kv_cache.Manager.Schedule.{has_room, cold_candidates}

module _ {ℓ} {T : Type ℓ} where
  -- A block that was on the GPU is in host memory, with the tensor that it had.
  pub record IsDemoted (before after : KvBlock T) : Type ℓ where
    pub was_gpu : before.tier ≡ gpu
    pub had_data : is_some before.gpu_data ≡ true
    pub now_dram : after.tier ≡ dram
    pub freed : after.gpu_data ≡ none
    pub copied : after.dram_data ≡ before.gpu_data

  -- A block after a demotion.
  demoted_block : KvBlock T → KvBlock T
  demoted_block b = elim b.gpu_data [
    | none ↦ b
    | some tensor ↦
        if same_tier b.tier gpu
        then record b { dram_data = some tensor; gpu_data = none; tier = dram }
        else b
  ]

module _ {ℓ} (tests : BudgetTest) {T : Type ℓ} where
  -- The call that leaves `r.0` and answers `r.1` has moved the first `r.1` candidates of `m` from the GPU to
  -- host memory, and nothing else, and has stopped where it may.
  abbrev pub Evicts : KvCacheManager T → KvCacheManager T × ℕ → Type ℓ
  Evicts m r =
      ((i : ℕ)
        → contains i (take r.1 (cold_candidates m)) ≡ true
        → IsDemoted (m.heap i) (r.0.heap i))
      × ((i : ℕ) → contains i (take r.1 (cold_candidates m)) ≡ false → r.0.heap i ≡ m.heap i)
      × ((r.1 ≡ length (cold_candidates m))
          ⊎ ((r.1 < length (cold_candidates m)) × (has_room tests r.0 ≡ true)))
