-- ===== src/Naive/Schedule.antt =====
-- python/orchkv/kvcache_manager.py: `schedule` of `NaiveOffloadManager`.
use orch_kv_cache.Prelude.{
  ℕ, ◌+◌, ◌-◌, ◌==◌, true, false, Option, none, some, List, [], ◌∷◌, if◌then◌else◌,
}
use orch_kv_cache.Prelude.Budget.{BudgetTest}
use orch_kv_cache.Prelude.Heap.{update}
use orch_kv_cache.Manager.{Tensor, gpu, dram, same_tier}
use orch_kv_cache.Naive.{NaiveManager, naive_block_bytes, naive_gpu_bytes}

module _ {ℓ} {T : Type ℓ} where
  -- The eviction of a block in `schedule`.
  abbrev pub naive_demoted : NaiveManager T → ℕ → Tensor T → NaiveManager T
  naive_demoted n i tensor = record n {
    heap =
        update n.heap i
          (record (n.heap i) { dram_data = some tensor; gpu_data = none; tier = dram });
    gpu_to_dram = n.gpu_to_dram + 1;
  }

-- What the loops of `schedule` change: the manager, `gpu_bytes`, and `evicted`.
pub record Eviction {ℓ} (T : Type ℓ) : Type ℓ where
  pub manager : NaiveManager T
  pub gpu_bytes : ℕ
  pub evicted : ℕ

module _ {ℓ} {T : Type ℓ} where
  abbrev pub naive_demote : Eviction T → ℕ → Option (Tensor T) → Eviction T
  naive_demote e i none = e
  naive_demote e i (some tensor) =
      if same_tier (e.manager.heap i).tier gpu
      then record {
        manager = naive_demoted e.manager i tensor;
        gpu_bytes = e.gpu_bytes - naive_block_bytes e.manager.config;
        evicted = e.evicted + 1;
      }
      else e

module _ {ℓ} (tests : BudgetTest) {T : Type ℓ} where
  -- The inner loop of `schedule`; `gpu_bytes` counts every block on the GPU, so it is never below
  -- the size of the one that is evicted.
  unfoldable pub naive_evict_blocks : Eviction T → List ℕ → Eviction T
  naive_evict_blocks e [] = e
  naive_evict_blocks e (i ∷ ids) = elim (tests.at_most e.gpu_bytes e.manager.gpu_budget_bytes 70) [
    | true ↦ e
    | false ↦ naive_evict_blocks (naive_demote e i (e.manager.heap i).gpu_data) ids
  ]

  unfoldable pub naive_evict_layers : Eviction T → List (List ℕ) → Eviction T
  naive_evict_layers e [] = e
  naive_evict_layers e (ids ∷ ls) = naive_evict_layers (naive_evict_blocks e ids) ls

  -- `schedule`: the manager, and what it reports.
  unfoldable pub naive_schedule : NaiveManager T → NaiveManager T × Option (ℕ × ℕ)
  naive_schedule n =
      if n.gpu_budget_bytes == 0
      then (n, none)
      else let start : Eviction T = record {
        manager = n;
        gpu_bytes = naive_gpu_bytes n;
        evicted = 0;
      } in
        let e =
          if tests.at_most start.gpu_bytes n.gpu_budget_bytes 85
          then start
          else naive_evict_layers start n.blocks in
        (e.manager, some (e.evicted, naive_gpu_bytes e.manager))
