-- ===== src/CacheSim/Bounds.antt =====
-- What a fetch keeps: the books, and with a victim at hand the capacity.
pub mod Fifo
pub mod Lru
pub mod Runs
pub mod Overflow
use orch_kv_cache.Prelude.{
  ℕ, zero, suc, ◌+◌, ◌≤◌, ◌<◌, ◌≡◌, refl, sym, ap, ◌∙◌, inl, inr, arith, Bool, true, false, Option,
  none, some, List, [], ◌∷◌, ◌++◌, Result, ok, ok_or, stop_iteration, ◌>>=◌, if◌then◌else◌,
  option_or, length, length-append, leb, Bool-cases, leb→le, leb_false→lt,
}
use mathlib.Core.Path.{subst}
use orch_kv_cache.Prelude.Dict.{find, put, nat_key}
use orch_kv_cache.Prelude.Float.{Float}
use orch_kv_cache.Prelude.Sets.{
  contains, discard, add, IsDistinct, contains-append, length-discard, contains-discard,
  discard-IsDistinct, append-IsDistinct,
}
use orch_kv_cache.CacheSim.{
  CacheSimulator, new_simulator, evict, promote, is_full, first_victim, lfu_victim, opt_victim,
}
use orch_kv_cache.CacheSim.Ema.{ema_victim}
use orch_kv_cache.CacheSim.Victims.{
  Picks, MayPick, Picks-MayPick, first_victim-Picks, lfu_victim-Picks, ema_victim-Picks,
}
use orch_kv_cache.CacheSim.Belady.{opt_victim-MayPick}
use orch_kv_cache.CacheSim.Strategies.{
  fetch_block, fetch_all, FifoCache, fifo_evict, fifo_promote, fifo_fetch, fifo_fetch_all, LruCache,
  lru_evict, lru_fetch, lru_fetch_all, LfuCache, blocks_of, lfu_fetch, lfu_fetch_all, EmaCache,
  Cache, fifo, lru, lfu, ema, opt, Strategy, use_fifo, use_lru, use_lfu, use_ema, use_opt,
  simulator, new_cache, ema_note, cache_step, run_steps, run_strategy,
}

-- No block is counted twice, and each promotion is one of a block that is on the GPU or was evicted.
pub record IsSound (c : CacheSimulator) : Type 0 where
  pub distinct : IsDistinct c.gpu_set
  pub balanced : c.promotions ≡ c.evictions + length c.gpu_set

-- There is room for a block, and the blocks are not more than there is room for.
pub record IsWithin (n : ℕ) (c : CacheSimulator) : Type 0 where
  pub limit : c.capacity ≡ n
  pub room : 0 < c.capacity
  pub fits : length c.gpu_set ≤ c.capacity

pub promote-IsSound :
    (c : CacheSimulator) (bid : ℕ)
    → contains bid c.gpu_set ≡ false
    → IsSound c
    → IsSound (promote c bid)
promote-IsSound c bid h s = rw h (record {
  distinct = append-IsDistinct bid c.gpu_set h s.distinct;
  balanced = omega (arith, s.balanced, length-append c.gpu_set (bid ∷ []));
})

pub evict-IsSound :
    (c : CacheSimulator) (o : Option ℕ) → MayPick o c.gpu_set → IsSound c → IsSound (evict c o)
evict-IsSound c none m s = s
evict-IsSound c (some v) m s = record {
  distinct = discard-IsDistinct v c.gpu_set s.distinct;
  balanced = omega (arith, s.balanced, length-discard v c.gpu_set m);
}

pub evict-absent :
    (c : CacheSimulator) (o : Option ℕ) (bid : ℕ)
    → IsSound c
    → contains bid c.gpu_set ≡ false
    → contains bid (evict c o).gpu_set ≡ false
evict-absent c none bid s h = h
evict-absent c (some v) bid s h = ground (arith, contains-discard v bid c.gpu_set s.distinct)

-- A fetch with a victim that may be missing keeps the books.
pub fetch_block-IsSound :
    (select : CacheSimulator → Option ℕ) (c : CacheSimulator) (bid : ℕ)
    → MayPick (select c) c.gpu_set
    → IsSound c
    → IsSound (fetch_block select c bid)
unfolding fetch_block
fetch_block-IsSound select c bid m s = elim (Bool-cases (contains bid c.gpu_set)) [
  | inl hit ↦ rw hit s
  | inr miss ↦ elim (Bool-cases (is_full c)) [
    | inl full ↦
        rw (miss, full)
          (promote-IsSound (evict c (select c)) bid (evict-absent c (select c) bid s miss)
            (evict-IsSound c (select c) m s))
    | inr free ↦ rw (miss, free) (promote-IsSound c bid miss s)
  ]
]

-- After an eviction there is room for a block.
pub evict_fits :
    {n : ℕ} (c : CacheSimulator) (o : Option ℕ)
    → Picks o c.gpu_set
    → IsWithin n c
    → (length (evict c o).gpu_set < c.capacity) × ((evict c o).capacity ≡ c.capacity)
evict_fits c none p w = (rw p w.room, refl)
evict_fits c (some v) p w = (omega (arith, length-discard v c.gpu_set p, w.fits), refl)

pub promote-IsWithin :
    {n : ℕ} (c : CacheSimulator) (bid : ℕ)
    → contains bid c.gpu_set ≡ false
    → c.capacity ≡ n
    → length c.gpu_set < c.capacity
    → IsWithin n (promote c bid)
promote-IsWithin c bid h limit l = rw h (record {
  limit = limit;
  room = omega arith;
  fits = omega (arith, length-append c.gpu_set (bid ∷ []));
})

-- With a victim whenever the GPU has a block, a fetch keeps within the capacity.
pub fetch_block-IsWithin :
    {n : ℕ} (select : CacheSimulator → Option ℕ) (c : CacheSimulator) (bid : ℕ)
    → Picks (select c) c.gpu_set
    → IsSound c
    → IsWithin n c
    → IsWithin n (fetch_block select c bid)
unfolding fetch_block
fetch_block-IsWithin select c bid p s w = elim (Bool-cases (contains bid c.gpu_set)) [
  | inl hit ↦ rw hit w
  | inr miss ↦ elim (Bool-cases (is_full c)) [
    | inl full ↦
        let (less, same) = evict_fits c (select c) p w in
        rw (miss, full)
          (promote-IsWithin (evict c (select c)) bid (evict-absent c (select c) bid s miss)
            (same ∙ w.limit) (rw same less))
    | inr free ↦ rw (miss, free) (promote-IsWithin c bid miss w.limit (leb_false→lt _ _ free))
  ]
]

pub fetch_all-IsSound :
    (select : CacheSimulator → Option ℕ)
    → ((c : CacheSimulator) → MayPick (select c) c.gpu_set)
    → (c : CacheSimulator) (bids : List ℕ) → IsSound c
    → IsSound (fetch_all select c bids)
unfolding fetch_all
fetch_all-IsSound select picks c [] s = s
fetch_all-IsSound select picks c (bid ∷ bids) s =
    fetch_all-IsSound select picks (fetch_block select c bid) bids
      (fetch_block-IsSound select c bid (picks c) s)

-- Both together, which is what a strategy that always finds a victim keeps.
abbrev pub Kept : ℕ → CacheSimulator → Type 0
Kept n c = IsSound c × IsWithin n c

pub fetch_block-Kept :
    {n : ℕ} (select : CacheSimulator → Option ℕ) (c : CacheSimulator) (bid : ℕ)
    → Picks (select c) c.gpu_set
    → Kept n c
    → Kept n (fetch_block select c bid)
fetch_block-Kept select c bid p k = (
  fetch_block-IsSound select c bid (Picks-MayPick (select c) c.gpu_set p) k.0,
  fetch_block-IsWithin select c bid p k.0 k.1,
)

pub fetch_all-Kept :
    {n : ℕ} (select : CacheSimulator → Option ℕ)
    → ((c : CacheSimulator) → Picks (select c) c.gpu_set)
    → (c : CacheSimulator) (bids : List ℕ) → Kept n c
    → Kept n (fetch_all select c bids)
unfolding fetch_all
fetch_all-Kept select picks c [] k = k
fetch_all-Kept select picks c (bid ∷ bids) k =
    fetch_all-Kept select picks (fetch_block select c bid) bids
      (fetch_block-Kept select c bid (picks c) k)
