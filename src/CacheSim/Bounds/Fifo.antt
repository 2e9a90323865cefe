-- ===== src/CacheSim/Bounds/Fifo.antt =====
-- The same of `FIFOCache` of benchmarks/exp_competitive_ratio.py, which has a queue beside its set.
use orch_kv_cache.Prelude.{
  ℕ, ◌≡◌, refl, ap, ◌∙◌, inl, inr, false, Option, none, some, List, [], ◌∷◌, Bool-cases,
}
use orch_kv_cache.Prelude.Dict.{nat_key}
use orch_kv_cache.Prelude.Sets.{contains}
use orch_kv_cache.CacheSim.{CacheSimulator, evict, promote, is_full, first_victim}
use orch_kv_cache.CacheSim.Victims.{first_victim-Picks}
use orch_kv_cache.CacheSim.Strategies.{
  fetch_block, FifoCache, fifo_evict, fifo_promote, fifo_fetch, fifo_fetch_all,
}
use orch_kv_cache.CacheSim.Bounds.{IsSound, Kept, evict-absent, fetch_block-Kept}

-- `FIFOCache`: its queue has the blocks of the set, as they came.
abbrev pub queued : CacheSimulator → FifoCache
queued c = record { sim = c; order = c.gpu_set }

fifo_evict-queued :
    (c : CacheSimulator) (o : Option ℕ) → fifo_evict (queued c) o ≡ queued (evict c o)
fifo_evict-queued c none = refl
fifo_evict-queued c (some v) = refl

fifo_promote-queued :
    (c : CacheSimulator) (bid : ℕ)
    → contains bid c.gpu_set ≡ false
    → fifo_promote (queued c) bid ≡ queued (promote c bid)
fifo_promote-queued c bid h = rw h refl

fifo_fetch-queued :
    (requested : List ℕ) (c : CacheSimulator) (bid : ℕ)
    → IsSound c
    → fifo_fetch requested (queued c) bid
      ≡ queued (fetch_block (λ s. first_victim requested s.gpu_set) c bid)
unfolding fifo_fetch fetch_block
fifo_fetch-queued requested c bid s = elim (Bool-cases (contains bid c.gpu_set)) [
  | inl hit ↦ rw hit refl
  | inr miss ↦ elim (Bool-cases (is_full c)) [
    | inl full ↦
        let o = first_victim requested c.gpu_set in
        rw (miss, full)
          (ap (λ f. fifo_promote f bid) (fifo_evict-queued c o)
            ∙ fifo_promote-queued (evict c o) bid (evict-absent c o bid s miss))
    | inr free ↦ rw (miss, free) (fifo_promote-queued c bid miss)
  ]
]

pub fifo_fetch_all-Kept :
    {n : ℕ} (requested : List ℕ) (c : CacheSimulator) (bids : List ℕ)
    → Kept n c
    → (d : CacheSimulator) × (fifo_fetch_all requested (queued c) bids ≡ queued d) × Kept n d
unfolding fifo_fetch_all
fifo_fetch_all-Kept requested c [] k = (c, refl, k)
fifo_fetch_all-Kept requested c (bid ∷ bids) k =
    let select = λ (s : CacheSimulator). first_victim requested s.gpu_set in
    let (d, e, held) =
      fifo_fetch_all-Kept requested (fetch_block select c bid) bids
        (fetch_block-Kept select c bid (first_victim-Picks requested c.gpu_set) k) in
    (d, rw (fifo_fetch-queued requested c bid k.0) e, held)
