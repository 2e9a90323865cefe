-- ===== src/Tests/CacheSim.antt =====
-- Runs of the eviction strategies on a short trace, with sets in the order of insertion.
use orch_kv_cache.Prelude.{ℕ, ◌≤◌, ◌≡◌, refl, true, false, some, List, [], ◌∷◌, arith, ok, length}
use orch_kv_cache.Prelude.Sets.{contains}
use orch_kv_cache.CacheSim.{CacheSimulator, opt_victim, first_victim, lfu_victim}
use orch_kv_cache.CacheSim.Ema.{new_signals, ema_victim}
use orch_kv_cache.CacheSim.Strategies.{Cache, opt, use_lru, simulator, cache_step, run_strategy}
use orch_kv_cache.CacheSim.Bounds.{IsSound}
use orch_kv_cache.CacheSim.Bounds.Runs.{IsOrder, FitsUnlessOpt, run_strategy-IsSound}
use orch_kv_cache.CacheSim.Bounds.Overflow.{opt_step-Serves}
use orch_kv_cache.CacheSim.Belady.{NotLater, next_use, opt_victim-IsFarthest}
use orch_kv_cache.CacheSim.Victims.{Spares}
use orch_kv_cache.CacheSim.Spared.{victims-Spare}
use orch_kv_cache.Tests.BlockSwap.{thousandths}

abbrev as_inserted : ℕ → List ℕ → List ℕ
as_inserted n s = s

as_inserted-IsOrder : IsOrder as_inserted
as_inserted-IsOrder n s b = refl

abbrev steps : List (List ℕ)
steps = (1 ∷ 2 ∷ []) ∷ (3 ∷ []) ∷ (2 ∷ 4 ∷ []) ∷ (1 ∷ []) ∷ []

abbrev no_scores : List (List (ℕ × ℕ))
no_scores = [] ∷ [] ∷ [] ∷ [] ∷ []

run_strategy-IsSound_example :
    (c : Cache ℕ) × (run_strategy as_inserted use_lru 2 8 steps no_scores ≡ ok c)
    × IsSound (simulator c)
    × FitsUnlessOpt 2 c
run_strategy-IsSound_example =
    run_strategy-IsSound as_inserted as_inserted-IsOrder steps use_lru 2 8 no_scores (omega arith)
      (omega arith)

-- A simulator with two blocks, and room for two.
abbrev full_sim : CacheSimulator
full_sim = record {
  capacity = 2;
  n_blocks = 8;
  gpu_set = 1 ∷ 2 ∷ [];
  evictions = 0;
  promotions = 2;
}

full_sim-IsSound : IsSound full_sim
full_sim-IsSound = record { distinct = (refl, (refl, tt)); balanced = omega arith }

-- Three blocks are requested.
opt_step-Serves_example :
    (d : CacheSimulator) × (cache_step {F = ℕ} as_inserted steps
        (opt full_sim)
        (1 ∷ 2 ∷ 3 ∷ [])
        []
        0
      ≡ ok (opt d))
    × ((b : ℕ) → contains b (1 ∷ 2 ∷ 3 ∷ []) ≡ true → contains b d.gpu_set ≡ true)
    × (3 ≤ length d.gpu_set)
opt_step-Serves_example =
    opt_step-Serves as_inserted as_inserted-IsOrder steps full_sim (1 ∷ 2 ∷ 3 ∷ []) [] 0
      full_sim-IsSound (refl, (refl, (refl, tt)))

-- Block 3 is requested: block 2 is requested again in step 2, block 1 in step 3.
second_victim : opt_victim steps 1 (3 ∷ []) (1 ∷ 2 ∷ []) ≡ some 1
unfolding opt_victim
second_victim = refl

opt_victim-IsFarthest_example :
    (contains 1 (1 ∷ 2 ∷ []) ≡ true)
    × (contains 1 (3 ∷ []) ≡ false)
    × ((b : ℕ)
        → contains b (1 ∷ 2 ∷ []) ≡ true
        → contains b (3 ∷ []) ≡ false
        → NotLater (next_use steps 1 b) (next_use steps 1 1))
opt_victim-IsFarthest_example = opt_victim-IsFarthest steps 1 (3 ∷ []) (1 ∷ 2 ∷ []) 1 second_victim

victims-Spare_example :
    Spares (3 ∷ []) (first_victim (3 ∷ []) (1 ∷ 2 ∷ [])) (1 ∷ 2 ∷ [])
    × Spares (3 ∷ []) (lfu_victim ((1, 2) ∷ []) (3 ∷ []) (1 ∷ 2 ∷ [])) (1 ∷ 2 ∷ [])
    × Spares (3 ∷ []) (ema_victim {F = ℕ} new_signals 1 (3 ∷ []) (1 ∷ 2 ∷ [])) (1 ∷ 2 ∷ [])
    × Spares (3 ∷ []) (opt_victim steps 1 (3 ∷ []) (1 ∷ 2 ∷ [])) (1 ∷ 2 ∷ [])
unfolding new_signals
victims-Spare_example =
    victims-Spare ((1, 2) ∷ []) new_signals steps 1 (3 ∷ []) (1 ∷ 2 ∷ []) (λ b. refl)
