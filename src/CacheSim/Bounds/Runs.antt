-- ===== src/CacheSim/Bounds/Runs.antt =====
-- What every run of the strategies of benchmarks/exp_competitive_ratio.py keeps.
use orch_kv_cache.Prelude.{
  ℕ, ◌+◌, ◌≤◌, ◌<◌, ◌≡◌, refl, sym, ap, ◌∙◌, arith, false, Option, none, some, List, [], ◌∷◌, ok,
  option_or, length,
}
use orch_kv_cache.Prelude.Dict.{find, put, nat_key}
use orch_kv_cache.Prelude.Float.{Float}
use orch_kv_cache.Prelude.Sets.{contains}
use orch_kv_cache.CacheSim.{CacheSimulator, new_simulator, lfu_victim, opt_victim}
use orch_kv_cache.CacheSim.Ema.{ema_victim, new_signals}
use orch_kv_cache.CacheSim.Victims.{Picks, MayPick, lfu_victim-Picks, ema_victim-Picks}
use orch_kv_cache.CacheSim.Belady.{opt_victim-MayPick}
use orch_kv_cache.CacheSim.Strategies.{
  fetch_block, fetch_all, LruCache, LfuCache, blocks_of, lfu_fetch, lfu_fetch_all, EmaCache, Cache,
  fifo, lru, lfu, ema, opt, Strategy, use_fifo, use_lru, use_lfu, use_ema, use_opt, simulator,
  new_cache, ema_note, cache_step, run_steps, run_strategy,
}
use orch_kv_cache.CacheSim.Bounds.{
  IsSound, Kept, fetch_block-Kept, fetch_all-Kept, fetch_all-IsSound,
}
use orch_kv_cache.CacheSim.Bounds.Fifo.{queued, fifo_fetch_all-Kept}
use orch_kv_cache.CacheSim.Bounds.Lru.{IsListed, lru_fetch_all-IsListed}

-- Python goes through a set in some order, and meets its members and no others.
abbrev pub IsOrder : (ℕ → List ℕ → List ℕ) → Type 0
IsOrder order = (n : ℕ) (s : List ℕ) (b : ℕ) → contains b (order n s) ≡ contains b s

empty_of : (s : List ℕ) → ((b : ℕ) → contains b s ≡ false) → s ≡ []
empty_of [] h = refl
empty_of (x ∷ s) h = absurd (ground (arith, h x))

new-Kept : (capacity n_blocks : ℕ) → 0 < capacity → Kept capacity (new_simulator capacity n_blocks)
unfolding new_simulator
new-Kept capacity n_blocks h = (
  record { distinct = tt; balanced = omega arith },
  record { limit = refl; room = h; fits = omega arith },
)

module _ {ℓ} {F : Type ℓ} where
  -- What a cache keeps: its books, and all but `BeladyOPT` the capacity.
  pub data IsBounded (n : ℕ) : Cache F → Type ℓ where
    fifo_bounded : (c : CacheSimulator) → Kept n c → IsBounded n (fifo (queued c))
    lru_bounded : (c : LruCache) → IsListed n c → IsBounded n (lru c)
    lfu_bounded : (c : LfuCache) → Kept n c.sim → IsBounded n (lfu c)
    ema_bounded : (c : EmaCache F) → Kept n c.sim → IsBounded n (ema c)
    opt_bounded : (c : CacheSimulator) → IsSound c → IsBounded n (opt c)

  -- The blocks on the GPU are at most `capacity`; of `BeladyOPT` this is not said.
  abbrev pub FitsUnlessOpt : ℕ → Cache F → Type 0
  FitsUnlessOpt capacity (opt c) = Unit
  FitsUnlessOpt capacity (fifo c) = length c.sim.gpu_set ≤ capacity
  FitsUnlessOpt capacity (lru c) = length c.sim.gpu_set ≤ capacity
  FitsUnlessOpt capacity (lfu c) = length c.sim.gpu_set ≤ capacity
  FitsUnlessOpt capacity (ema c) = length c.sim.gpu_set ≤ capacity

  IsBounded-result :
      {capacity : ℕ} {c : Cache F}
      → IsBounded capacity c
      → IsSound (simulator c) × FitsUnlessOpt capacity c
  IsBounded-result (fifo_bounded c k) = (k.0, omega (arith, k.1.limit, k.1.fits))
  IsBounded-result (lru_bounded c l) = (l.kept.0, omega (arith, l.kept.1.limit, l.kept.1.fits))
  IsBounded-result (lfu_bounded c k) = (k.0, omega (arith, k.1.limit, k.1.fits))
  IsBounded-result (ema_bounded c k) = (k.0, omega (arith, k.1.limit, k.1.fits))
  IsBounded-result (opt_bounded c k) = (k, tt)

module _ {ℓ} {F : Type ℓ} ⦃float : Float F⦄ where
  new_cache-IsBounded :
      (strategy : Strategy) (capacity n_blocks : ℕ)
      → 0 < capacity
      → IsBounded {F = F} capacity (new_cache strategy capacity n_blocks)
  unfolding new_cache
  new_cache-IsBounded use_fifo capacity n_blocks h =
      fifo_bounded (new_simulator capacity n_blocks) (new-Kept capacity n_blocks h)
  new_cache-IsBounded use_lru capacity n_blocks h =
      lru_bounded (record { sim = new_simulator capacity n_blocks; lru = [] })
        (record {
          kept = new-Kept capacity n_blocks h;
          once = tt;
          same_blocks = λ b. refl;
          same_length = refl;
        })
  new_cache-IsBounded use_lfu capacity n_blocks h =
      lfu_bounded (record { sim = new_simulator capacity n_blocks; freq = [] })
        (new-Kept capacity n_blocks h)
  new_cache-IsBounded use_ema capacity n_blocks h =
      ema_bounded
        (record { sim = new_simulator capacity n_blocks; signals = new_signals; step = 0 })
        (new-Kept capacity n_blocks h)
  new_cache-IsBounded use_opt capacity n_blocks h =
      opt_bounded (new_simulator capacity n_blocks) (new-Kept capacity n_blocks h).0

module _ (order : ℕ → List ℕ → List ℕ) (ordered : IsOrder order) where
  order-Picks : (o : Option ℕ) (n : ℕ) (s : List ℕ) → Picks o (order n s) → Picks o s
  order-Picks none n s p = empty_of s (λ b. sym (ordered n s b) ∙ rw p refl)
  order-Picks (some v) n s p = sym (ordered n s v) ∙ p

  pub order-MayPick : (o : Option ℕ) (n : ℕ) (s : List ℕ) → MayPick o (order n s) → MayPick o s
  order-MayPick none n s p = tt
  order-MayPick (some v) n s p = sym (ordered n s v) ∙ p

  lfu_fetch_all-Kept :
      {n : ℕ} (requested : List ℕ) (c : LfuCache) (bids : List ℕ)
      → Kept n c.sim
      → Kept n (lfu_fetch_all order requested c bids).sim
  unfolding lfu_fetch_all lfu_fetch
  lfu_fetch_all-Kept requested c [] k = k
  lfu_fetch_all-Kept requested c (bid ∷ bids) k =
      let freq = put bid (option_or (find bid c.freq) 0 + 1) c.freq in
      let select = λ (s : CacheSimulator). lfu_victim freq requested (blocks_of order s) in
      lfu_fetch_all-Kept requested (record { sim = fetch_block select c.sim bid; freq = freq }) bids
        (fetch_block-Kept select c.sim bid
          (order-Picks (select c.sim) c.sim.promotions c.sim.gpu_set
            (lfu_victim-Picks freq requested (blocks_of order c.sim)).0)
          k)

  module _ {ℓ} {F : Type ℓ} ⦃float : Float F⦄ (trace : List (List ℕ)) where
    cache_step-IsBounded :
        {n : ℕ} {c : Cache F} (requested : List ℕ) (scores : List (ℕ × F)) (step_idx : ℕ)
        → IsBounded n c
        → (d : Cache F) × (cache_step order trace c requested scores step_idx ≡ ok d)
          × IsBounded n d
    unfolding cache_step
    cache_step-IsBounded requested scores step_idx (fifo_bounded c k) =
        let (d, e, held) = fifo_fetch_all-Kept requested c requested k in
        (fifo (queued d), ap (λ f. ok (fifo f)) e, fifo_bounded d held)
    cache_step-IsBounded requested scores step_idx (lru_bounded c l) =
        let (d, e, held) = lru_fetch_all-IsListed requested c requested l in
        (lru d, rw e refl, lru_bounded d held)
    cache_step-IsBounded requested scores step_idx (lfu_bounded c k) = (
      lfu (lfu_fetch_all order requested c requested),
      refl,
      lfu_bounded (lfu_fetch_all order requested c requested)
          (lfu_fetch_all-Kept requested c requested k),
    )
    cache_step-IsBounded requested scores step_idx (ema_bounded c k) =
        let s = ema_note c.signals requested scores step_idx in
        let select = λ (d : CacheSimulator). ema_victim s step_idx requested (blocks_of order d) in
        let d : EmaCache F = record {
          sim = fetch_all select c.sim requested;
          signals = s;
          step = step_idx;
        } in
        (
          ema d,
          refl,
          ema_bounded d (
              fetch_all-Kept select
                (λ e.
                  order-Picks (select e) e.promotions e.gpu_set
                    (ema_victim-Picks s step_idx requested (blocks_of order e)))
                c.sim requested k),
        )
    cache_step-IsBounded requested scores step_idx (opt_bounded c k) =
        let select =
          λ (d : CacheSimulator). opt_victim trace step_idx requested (blocks_of order d) in
        (
          opt (fetch_all select c requested),
          refl,
          opt_bounded (fetch_all select c requested) (
              fetch_all-IsSound select
                (λ e.
                  order-MayPick (select e) e.promotions e.gpu_set
                    (opt_victim-MayPick trace step_idx requested (blocks_of order e)))
                c requested k),
        )

    run_steps-IsBounded :
        {n : ℕ} (step_idx : ℕ) (steps : List (List ℕ)) (scores : List (List (ℕ × F))) {c : Cache F}
        → length steps ≤ length scores
        → IsBounded n c
        → (d : Cache F) × (run_steps order trace c step_idx steps scores ≡ ok d) × IsBounded n d
    unfolding run_steps
    run_steps-IsBounded step_idx [] scores {c = c} h b = (c, refl, b)
    run_steps-IsBounded step_idx (requested ∷ steps) [] h b = absurd (omega arith)
    run_steps-IsBounded step_idx (requested ∷ steps) (s ∷ scores) h b =
        let (d, e, held) = cache_step-IsBounded requested s step_idx b in
        let (k, e', held') =
          run_steps-IsBounded (step_idx + 1) steps scores {c = d} (omega arith) held in
        (k, rw e e', held')

    -- A run of any strategy over a trace, with the scores of each step and room for a block, does not raise;
    -- afterwards no block is twice on the GPU, every promotion is of a block that was
    -- evicted or is on the GPU, and but for `BeladyOPT` these are at most `capacity`.
    pub run_strategy-IsSound :
        (strategy : Strategy) (capacity n_blocks : ℕ) (scores : List (List (ℕ × F)))
        → 0 < capacity
        → length trace ≤ length scores
        → (c : Cache F) × (run_strategy order strategy capacity n_blocks trace scores ≡ ok c)
          × IsSound (simulator c)
          × FitsUnlessOpt capacity c
    unfolding run_strategy
    run_strategy-IsSound strategy capacity n_blocks scores room enough =
        let (c, e, b) =
          run_steps-IsBounded 0 trace scores enough
            (new_cache-IsBounded strategy capacity n_blocks room) in
        let (sound, fits) = IsBounded-result b in (c, e, sound, fits)
