-- ===== src/Tests/Paging.antt =====
-- Runs of the simulations of paging on a short trace.
use orch_kv_cache.Prelude.{
  ℕ, ◌+◌, ◌≤◌, ◌≡◌, refl, none, List, [], ◌∷◌, arith, ok, length, flatten, option_or,
}
use orch_kv_cache.Paging.{
  sim_fifo, sim_lru, sim_lfu, sim_opt, fifo_page, lru_page, lfu_page, opt_key, scan_uses,
}
use orch_kv_cache.Paging.Stack.{stack_misses, sim_lru-eq-stack_misses, sim_lru_antitone}
use orch_kv_cache.Paging.Queue.{queue_misses, sim_fifo-eq-queue_misses}
use orch_kv_cache.Paging.Future.{opt_key_cases}

-- Page 1 is requested again at the end, and page 2 is not.
abbrev short_trace : List (List ℕ)
short_trace = (1 ∷ []) ∷ (2 ∷ []) ∷ (3 ∷ []) ∷ (1 ∷ []) ∷ []

-- The trace on which a larger queue has more misses.
abbrev anomaly : List (List ℕ)
anomaly = (1 ∷ 2 ∷ 3 ∷ 4 ∷ []) ∷ (1 ∷ 2 ∷ 5 ∷ []) ∷ (1 ∷ 2 ∷ 3 ∷ 4 ∷ 5 ∷ []) ∷ []

sim_lru-eq-stack_misses_example :
    sim_lru short_trace 2 ≡ ok (stack_misses 2 [] (flatten short_trace))
sim_lru-eq-stack_misses_example = sim_lru-eq-stack_misses short_trace 2 (omega arith)

sim_lru_antitone_example :
    (m n : ℕ) × (sim_lru anomaly 3 ≡ ok m) × (sim_lru anomaly 4 ≡ ok n) × (n ≤ m)
sim_lru_antitone_example = sim_lru_antitone anomaly 3 4 (omega arith) (omega arith)

sim_fifo-eq-queue_misses_example : sim_fifo anomaly 3 ≡ ok (queue_misses 3 [] (flatten anomaly))
sim_fifo-eq-queue_misses_example = sim_fifo-eq-queue_misses anomaly 3

fifo_anomaly : (sim_fifo anomaly 3 ≡ ok 9) × (sim_fifo anomaly 4 ≡ ok 10)
unfolding sim_fifo fifo_page
fifo_anomaly = (refl, refl)

lru_runs : (sim_lru anomaly 3 ≡ ok 10) × (sim_lru anomaly 4 ≡ ok 8)
unfolding sim_lru lru_page
lru_runs = (refl, refl)

opt_key_cases_example : opt_key short_trace 2 1 ≡ (option_or none (length short_trace + 1))
opt_key_cases_example =
    opt_key_cases ((1 ∷ []) ∷ (2 ∷ []) ∷ []) (3 ∷ []) ((1 ∷ []) ∷ []) 1 (refl, tt)

-- On this trace `sim_opt` has more misses than the best choice, which lets page 2 go, would have.
opt_run : sim_opt (λ n s. s) short_trace 2 ≡ ok 4
unfolding sim_opt opt_key scan_uses
opt_run = refl

lfu_run : sim_lfu (λ n s. s) anomaly 3 ≡ ok 10
unfolding sim_lfu lfu_page
lfu_run = refl
