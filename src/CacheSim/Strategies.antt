-- ===== src/CacheSim/Strategies.antt =====
-- The strategies of benchmarks/exp_competitive_ratio.py, and the run of one over a trace.
--
-- `run_experiment` gives the trace to `BeladyOPT` only, and always.
use orch_kv_cache.Prelude.{
  ℕ, ◌+◌, Option, none, some, List, [], ◌∷◌, ◌++◌, Result, ok, err, stop_iteration, index_error,
  ◌>>=◌, if◌then◌else◌, option_or, ok_or, length, leb,
}
use orch_kv_cache.Prelude.Dict.{find, put, nat_key}
use orch_kv_cache.Prelude.Float.{Float}
use orch_kv_cache.Prelude.Sets.{contains, discard}
use orch_kv_cache.CacheSim.{
  CacheSimulator, new_simulator, evict, promote, is_full, first_victim, lfu_victim, opt_victim,
}
use orch_kv_cache.CacheSim.Ema.{EmaSignals, new_signals, note_requests, decay_others, ema_victim}

-- The body of the loop of `step`: `select` is what `_select_victim` gives in a state.
unfoldable pub fetch_block : (CacheSimulator → Option ℕ) → CacheSimulator → ℕ → CacheSimulator
fetch_block select c bid =
    if contains bid c.gpu_set then c else promote (if is_full c then evict c (select c) else c) bid

-- That loop.
unfoldable pub fetch_all : (CacheSimulator → Option ℕ) → CacheSimulator → List ℕ → CacheSimulator
fetch_all select c [] = c
fetch_all select c (bid ∷ bids) = fetch_all select (fetch_block select c bid) bids

pub record FifoCache : Type 0 where
  pub sim : CacheSimulator
  pub order : List ℕ

abbrev pub fifo_evict : FifoCache → Option ℕ → FifoCache
fifo_evict c none = c
fifo_evict c (some victim) = record {
  sim = evict c.sim (some victim);
  order = discard victim c.order;
}

abbrev pub fifo_promote : FifoCache → ℕ → FifoCache
fifo_promote c bid = record { sim = promote c.sim bid; order = c.order ++ bid ∷ [] }

-- The body of the loop of `FIFOCache.step`.
unfoldable pub fifo_fetch : List ℕ → FifoCache → ℕ → FifoCache
fifo_fetch requested c bid =
    if contains bid c.sim.gpu_set
    then c
    else fifo_promote (if is_full c.sim then fifo_evict c (first_victim requested c.order) else c)
        bid

unfoldable pub fifo_fetch_all : List ℕ → FifoCache → List ℕ → FifoCache
fifo_fetch_all requested c [] = c
fifo_fetch_all requested c (bid ∷ bids) = fifo_fetch_all requested (fifo_fetch requested c bid) bids

pub record LruCache : Type 0 where
  pub sim : CacheSimulator
  pub lru : List ℕ

-- The oldest block that is not requested, or the oldest one, goes.
abbrev pub lru_evict : List ℕ → LruCache → Result LruCache
lru_evict requested c = do
  victim ← ok_or stop_iteration (first_victim requested c.lru)
  ok (record { sim = evict c.sim (some victim); lru = discard victim c.lru })

-- The body of the loop of `LRUCache.step`.
unfoldable pub lru_fetch : List ℕ → LruCache → ℕ → Result LruCache
lru_fetch requested c bid =
    if contains bid c.lru then ok (record c { lru = discard bid c.lru ++ bid ∷ [] }) else (do
      c' ← if leb c.sim.capacity (length c.lru) then lru_evict requested c else ok c
      ok (record { sim = promote c'.sim bid; lru = c'.lru ++ bid ∷ [] }))

unfoldable pub lru_fetch_all : List ℕ → LruCache → List ℕ → Result LruCache
lru_fetch_all requested c [] = ok c
lru_fetch_all requested c (bid ∷ bids) = do
  c' ← lru_fetch requested c bid
  lru_fetch_all requested c' bids

pub record LfuCache : Type 0 where
  pub sim : CacheSimulator
  pub freq : List (ℕ × ℕ)

module _ (order : ℕ → List ℕ → List ℕ) where
  -- The members of the set, in their order.
  abbrev pub blocks_of : CacheSimulator → List ℕ
  blocks_of c = order c.promotions c.gpu_set

  -- The body of the loop of `LFUCache.step`.
  unfoldable pub lfu_fetch : List ℕ → LfuCache → ℕ → LfuCache
  unfolding fetch_block
  lfu_fetch requested c bid =
      let freq = put bid (option_or (find bid c.freq) 0 + 1) c.freq in
      record {
        sim = fetch_block (λ s. lfu_victim freq requested (blocks_of s)) c.sim bid;
        freq = freq;
      }

  unfoldable pub lfu_fetch_all : List ℕ → LfuCache → List ℕ → LfuCache
  lfu_fetch_all requested c [] = c
  lfu_fetch_all requested c (bid ∷ bids) = lfu_fetch_all requested (lfu_fetch requested c bid) bids

module _ (order : ℕ → List ℕ → List ℕ) (trace : List (List ℕ)) where
  -- `step` of `BeladyOPT`.
  abbrev pub opt_step : CacheSimulator → List ℕ → ℕ → CacheSimulator
  opt_step c requested step_idx =
      fetch_all (λ k. opt_victim trace step_idx requested (blocks_of order k)) c requested

pub record EmaCache {ℓ} (F : Type ℓ) : Type ℓ where
  pub sim : CacheSimulator
  pub signals : EmaSignals F
  pub step : ℕ

-- The classes.
pub data Cache {ℓ} (F : Type ℓ) : Type ℓ where
  fifo : FifoCache → Cache F
  lru : LruCache → Cache F
  lfu : LfuCache → Cache F
  ema : EmaCache F → Cache F
  opt : CacheSimulator → Cache F

-- The keys of `strategies`.
pub data Strategy : Type 0 where
  use_fifo use_lru use_lfu use_ema use_opt : Strategy

module _ {ℓ} {F : Type ℓ} where
  -- What a cache has of the base class.
  abbrev pub simulator : Cache F → CacheSimulator
  simulator (fifo c) = c.sim
  simulator (lru c) = c.sim
  simulator (lfu c) = c.sim
  simulator (ema c) = c.sim
  simulator (opt c) = c

module _ {ℓ} {F : Type ℓ} ⦃float : Float F⦄ where
  -- `strategies[name]()`.
  unfoldable pub new_cache : Strategy → ℕ → ℕ → Cache F
  unfolding new_simulator new_signals
  new_cache use_fifo capacity n_blocks =
      fifo (record { sim = new_simulator capacity n_blocks; order = [] })
  new_cache use_lru capacity n_blocks =
      lru (record { sim = new_simulator capacity n_blocks; lru = [] })
  new_cache use_lfu capacity n_blocks =
      lfu (record { sim = new_simulator capacity n_blocks; freq = [] })
  new_cache use_ema capacity n_blocks =
      ema (record { sim = new_simulator capacity n_blocks; signals = new_signals; step = 0 })
  new_cache use_opt capacity n_blocks = opt (new_simulator capacity n_blocks)

  -- The two loops of `EMACache.step` over its averages.
  abbrev pub ema_note : EmaSignals F → List ℕ → List (ℕ × F) → ℕ → EmaSignals F
  ema_note s requested scores step_idx =
      let s' = note_requests scores step_idx s requested in
      record s' { ema = decay_others s'.ema_lambda requested s'.ema }

  module _ (order : ℕ → List ℕ → List ℕ) (trace : List (List ℕ)) where
    -- `step` of `EMACache`.
    abbrev pub ema_step : EmaCache F → List ℕ → List (ℕ × F) → ℕ → EmaCache F
    ema_step c requested scores step_idx =
        let s = ema_note c.signals requested scores step_idx in
        record {
          sim =
              fetch_all (λ k. ema_victim s step_idx requested (blocks_of order k)) c.sim requested;
          signals = s;
          step = step_idx;
        }

    -- `cache.step` in `run_experiment`, by the class of the cache.
    unfoldable pub cache_step : Cache F → List ℕ → List (ℕ × F) → ℕ → Result (Cache F)
    cache_step (fifo c) requested scores step_idx = ok (fifo (fifo_fetch_all requested c requested))
    cache_step (lru c) requested scores step_idx = do
      c' ← lru_fetch_all requested c requested
      ok (lru c')
    cache_step (lfu c) requested scores step_idx =
        ok (lfu (lfu_fetch_all order requested c requested))
    cache_step (ema c) requested scores step_idx = ok (ema (ema_step c requested scores step_idx))
    cache_step (opt c) requested scores step_idx =
        ok (opt (opt_step order trace c requested step_idx))

    -- The loop of `run_experiment` over the steps.
    unfoldable pub run_steps : Cache F → ℕ → List (List ℕ) → List (List (ℕ × F)) → Result (Cache F)
    run_steps c step_idx [] scores = ok c
    run_steps c step_idx (requested ∷ later) [] = err index_error
    run_steps c step_idx (requested ∷ later) (s ∷ scores) = do
      c' ← cache_step c requested s step_idx
      run_steps c' (step_idx + 1) later scores

module _ {ℓ} {F : Type ℓ} ⦃float : Float F⦄ (order : ℕ → List ℕ → List ℕ) where
  -- The run of a new cache over a trace.
  unfoldable pub run_strategy :
      Strategy → ℕ → ℕ → List (List ℕ) → List (List (ℕ × F)) → Result (Cache F)
  unfolding run_steps new_cache
  run_strategy strategy capacity n_blocks trace scores =
      run_steps order trace (new_cache strategy capacity n_blocks) 0 trace scores
